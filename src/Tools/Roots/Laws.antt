-- ===== src/Tools/Roots/Laws.antt =====
-- Which paths are let through by the check of the working directory.
use agentic_workflows.Base.{String, ◌≡◌, Option, none, some, List, arith, if◌then◌else◌}
use agentic_workflows.Base.Text.{empty}
use agentic_workflows.Values.{Value, str}
use agentic_workflows.Tools.{leads}
use agentic_workflows.Tools.Roots.{
  Located, at, refused, escaped, effective_root, located, validate_path_within_cwd,
}

-- Where the check says that a path is.
target_of_check : Located → Option (List String)
target_of_check (at target) = some target
target_of_check (refused answer) = none
target_of_check escaped = none

abbrev within : Option (List String) → Option (List String) → Option (List String)
within (some root) (some target) = if leads root target then some target else none
within root target = none

module _ (getenv : String → Option String) (resolve : Value → Option (List String))
    (cwd : Option (List String)) where
  -- A path is let through exactly when it is not empty and its parts start with those of the root.
  validate_path_within_cwd_lem :
      (path : String)
      → target_of_check (validate_path_within_cwd getenv resolve cwd path) ≡ (
          if empty path
          then none
          else within (effective_root getenv resolve cwd) (resolve (str path)))
  unfolding validate_path_within_cwd located target_of_check
  validate_path_within_cwd_lem path = ground arith
