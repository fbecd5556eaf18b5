-- ===== src/Tools/Samples.antt =====
-- A guarded shell and a guarded write at concrete arguments.
use agentic_workflows.Base.{
  suc, not, length, arith, ◌≤◌, String, ◌≡◌, refl, ◌⊎◌, true, false, Option, none, some, List, [],
  ◌∷◌, if◌then◌else◌, ◌==◌,
}
use agentic_workflows.Base.Int.{pos, negsuc, clip}
use agentic_workflows.Base.Text.{size, split}
use agentic_workflows.Values.{Value, str, int, Fields, end, field, to_str}
use agentic_workflows.Tools.{
  returned, parse_int, check_bash_command, max_bytes, check_content_size,
  validate_path_within_sandbox,
}
use agentic_workflows.Tools.Bash.{Call, Ending, finished, is_bare_python, ran, run_bash}
use agentic_workflows.Tools.Bash.Laws.{permits, call_for, run_bash_lem}
use agentic_workflows.Tools.Chunks.{Disk, text, split_lines, chunk_dict, read_file_chunk}
use agentic_workflows.Tools.Chunks.Laws.{follow, follow-split_lines}
use agentic_workflows.Tools.Files.{Os, guards, shebang_error, put_file, write_file}
use agentic_workflows.Tools.Files.Laws.{may_write, write_file_lem}

abbrev env : String → Option String
env name =
    if name == "P1_BASH_ENABLED"
    then some " True"
    else if name == "P1_BASH_DENIED_PATTERNS"
    then some "rm -rf, mkfs"
    else if name == "P1_BASH_ALLOWED_COMMANDS"
    then some "ls,cat"
    else if name == "P1_TOOL_SANDBOX_ROOT"
    then some "/work"
    else none

abbrev parts_of : Value → Option (List String)
parts_of v = some (split "/" (to_str v))

-- The shell keeps the commands that it was given.
abbrev shell : Call → List String → Ending × List String
shell call world = (finished "done" "" (pos 0), call.command ∷ world)

abbrev args : Fields
args =
    field "command" (str "make all") (field "timeout" (str "600") (field "cwd" (str "/work/a") end))

parse_int_test : parse_int " -1_000" ≡ some (negsuc 999)
unfolding parse_int
parse_int_test = refl

bare_test : is_bare_python "cd a && python x.py" ≡ true
unfolding is_bare_python
bare_test = refl

python3_test : is_bare_python "python3 x.py; ./bin/python y" ≡ false
unfolding is_bare_python
python3_test = refl

-- A command that starts with an allowed prefix is not searched for denied patterns.
prefix_test : check_bash_command env "lsof; rm -rf /" ≡ none
unfolding check_bash_command
prefix_test = refl

run_test : run_bash env parts_of shell args [] ≡ (
  returned (
      field "stdout" (str "done") (field "stderr" (str "") (field "returncode" (int (pos 0)) end))),
  "make all" ∷ [],
)
unfolding run_bash
run_test = refl

run_bash_lem_example :
    ((permits env parts_of args ≡ true)
      × (clip (call_for env parts_of args).timeout ≤ 120)
      × (run_bash env parts_of shell args []
          ≡ ran (call_for env parts_of args) (shell (call_for env parts_of args) [])))
    ⊎ ((permits env parts_of args ≡ false) × ((run_bash env parts_of shell args []).1 ≡ []))
run_bash_lem_example = run_bash_lem env parts_of shell args []

-- An operating system that keeps the paths that were written.
abbrev os : Os (List String)
os = record {
  getenv = λ name.
      if name == "AGENT_WORKDIR"
      then some "/work"
      else if name == "P1_TOOL_SANDBOX_ROOT"
      then some "/app"
      else none;
  resolve = parts_of;
  getcwd = "/app";
  realpath = λ p. p;
  relpath = λ p start. "fib.py";
  dirname = λ p. "/work";
  makedirs = λ p world. (none, world);
  write = λ path content world. (none, path ∷ world);
}

-- The sandbox is asked about the path, and the file is written under the workspace.
redirect_test : (write_file os size "/app/fib.py" "hi" []).1 ≡ "/work/fib.py" ∷ []
unfolding write_file guards check_content_size max_bytes validate_path_within_sandbox shebang_error
    put_file
redirect_test = refl

write_file_lem_example :
    ((may_write os size "/app/a.sh" "#!/bin/sh" ≡ true)
      × (write_file os size "/app/a.sh" "#!/bin/sh" []
          ≡ put_file os size "/app/a.sh" "#!/bin/sh" []))
    ⊎ ((may_write os size "/app/a.sh" "#!/bin/sh" ≡ false)
        × ((write_file os size "/app/a.sh" "#!/bin/sh" []).1 ≡ []))
write_file_lem_example = write_file_lem os size "/app/a.sh" "#!/bin/sh" []

abbrev disk : Disk
disk = record {
  getenv = λ name. none;
  resolve = parts_of;
  exists = λ path. true;
  is_file = λ path. not (path == "/tmp");
  read_text = λ path. text "a\nb\r\nc";
}

chunk_test :
    read_file_chunk disk
      (field "path" (str " f.txt") (field "offset" (int (pos 1)) (field "limit" (str "1") end)))
    ≡ returned (
        chunk_dict "f.txt" (record {
          content = "b\r\n";
          offset = 1;
          lines_returned = 1;
          total_lines = 3;
          has_more = true;
          next_offset = some 2;
        }))
unfolding read_file_chunk validate_path_within_sandbox
chunk_test = refl

follow-split_lines_example :
    follow (split_lines "a\nb\r\nc") 2 (suc (length (split_lines "a\nb\r\nc"))) 0 ≡ some "a\nb\r\nc"
follow-split_lines_example = follow-split_lines "a\nb\r\nc" 2 (omega arith)
