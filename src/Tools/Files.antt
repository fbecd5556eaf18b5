-- ===== src/Tools/Files.antt =====
-- tools/write_file.py: the guards of a write, and where its text goes. What the code asks of the
-- operating system is an interface; the length of a text in bytes is a parameter.
pub mod Laws
use Prim.Native.String.{◌++◌}
use agentic_workflows.Base.{
  ℕ, String, Bool, not, ◌&&◌, ◌||◌, Option, none, some, List, [], ◌∷◌, if◌then◌else◌, ◌==◌,
}
use agentic_workflows.Base.Int.{pos}
use agentic_workflows.Base.Text.{empty, size, lstrip, startswith, print_nat}
use agentic_workflows.Values.{str, Value, Fields, end, field}
use agentic_workflows.Regex.{starts}
use agentic_workflows.Tools.{
  Answer, returned, raised, error_of, setting, check_content_size, validate_path_within_sandbox,
}

-- os, os.path and open, over a world outside. A call that raises gives its text.
pub record Os (W : Type 0) : Type 0 where
  pub getenv : String → Option String
  pub resolve : Value → Option (List String)
  pub getcwd : String
  pub realpath : String → String
  pub relpath : String → String → String
  pub dirname : String → String
  pub makedirs : String → W → Option String × W
  pub write : String → String → W → Option String × W

-- s.endswith(p)
unfoldable pub endswith : String → String → Bool
endswith String.[] p = p == ""
endswith (String.◌∷◌ c s) p = String.◌∷◌ c s == p || endswith s p

-- os.path.isabs(p)
unfoldable pub isabs : String → Bool
unfolding startswith
isabs path = startswith path "/"

-- os.path.join(a, b)
unfoldable pub join_path : String → String → String
unfolding isabs endswith
join_path a b = if isabs b then b else if empty a || endswith a "/" then a ++ b else a ++ "/" ++ b

unfoldable pub shebang_error : String → String → Option Fields
unfolding endswith startswith lstrip
shebang_error path content =
    if (endswith path ".sh" || endswith path ".bash") && not (startswith (lstrip content) "#!")
    then some (
        field "error"
          (str "write_file_guardrail: shell scripts (.sh/.bash) must start with a shebang (#!)")
          (field "hint" (str "Add '#!/bin/bash' or '#!/bin/sh' as the first line.") end))
    else none

module _ {W : Type 0} (os : Os W) (byte_length : String → ℕ) where
  unfoldable pub artifact_dir : String
  unfolding setting
  artifact_dir =
      let run_dir = setting os.getenv "P1_RUN_ARTIFACT_DIR" in
      if empty run_dir then setting os.getenv "AGENT_WORKDIR" else run_dir

  -- whether the real path is the directory, or starts below it
  unfoldable pub is_below : String → String → Bool
  unfolding startswith
  is_below directory path = startswith path (directory ++ "/") || path == directory

  unfoldable pub target_of : String → String → String
  unfolding isabs join_path is_below
  target_of directory path =
      let container_cwd = os.realpath os.getcwd in
      if not (isabs path)
      then join_path directory path
      else if is_below (os.realpath directory) (os.realpath path)
      then path
      else if is_below container_cwd path
      then join_path directory (os.relpath path container_cwd)
      else path

  unfoldable pub guards : String → String → Option Answer
  guards path content =
      if empty path
      then some (returned (error_of "path is required"))
      else if empty content
      then some (returned (error_of "content is required"))
      else elim (check_content_size os.getenv (byte_length content) "P1_WRITE_FILE_MAX_BYTES"
          (pos 0)) [
            | some answer ↦ some answer
            | none ↦ elim (validate_path_within_sandbox os.getenv os.resolve (str path)) [
              | some err ↦ some (returned err)
              | none ↦ elim (shebang_error path content) [
                | some err ↦ some (returned err)
                | none ↦ none
              ]
            ]
          ]

  -- `open` and `write`, with the OSError that they may raise.
  written : String → String → String → (Option String × W) → Answer × W
  unfolding size print_nat
  written path target content (none, world) = (
    returned (
        field "result"
          (str ("Successfully wrote " ++ print_nat (size content) ++ " characters to " ++ path))
          (field "path" (str target) end)),
    world,
  )
  written path target content (some text, world) =
      (returned (error_of ("Failed to write file: " ++ text)), world)

  -- `os.makedirs` is called outside the `try`: what it raises leaves the tool.
  made : String → String → String → (Option String × W) → Answer × W
  unfolding written
  made path target content (some text, world) = (raised text, world)
  made path target content (none, world) =
      written path target content (os.write target content world)

  unfoldable pub put_file : String → String → W → Answer × W
  unfolding artifact_dir target_of made written
  put_file path content world =
      if empty artifact_dir
      then (let parent = os.dirname path in
          if empty parent
          then written path path content (os.write path content world)
          else made path path content (os.makedirs parent world))
      else (let target = target_of artifact_dir path in
          let parent = os.dirname target in
          made path target content
            (os.makedirs (if empty parent then artifact_dir else parent) world))

  unfoldable pub write_file : String → String → W → Answer × W
  write_file path content world = elim (guards path content) [
    | some answer ↦ (answer, world)
    | none ↦ put_file path content world
  ]
