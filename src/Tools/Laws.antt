-- ===== src/Tools/Laws.antt =====
-- What the guards of tools/_security.py let pass.
use agentic_workflows.Base.{
  String, ◌≡◌, refl, Bool, true, false, not, ◌&&◌, ◌||◌, Option, none, some, List, [], ◌∷◌, arith,
  any,
}
use agentic_workflows.Base.Text.{empty, startswith, strip, contains_text}
use agentic_workflows.Values.{Value, str, truthy}
use agentic_workflows.Tools.{
  setting, listed, denied_by, check_bash_command, leads, validate_path_within_sandbox,
}

abbrev pub is_some {ℓ} : {A : Type ℓ} → Option A → Bool
is_some none = false
is_some (some a) = true

denied_by-any :
    (names : List String) (command : String)
    → is_some (denied_by names command) ≡ any (contains_text command) names
unfolding denied_by any
denied_by-any [] command = refl
denied_by-any (name ∷ names) command = ground (arith, denied_by-any names command)

abbrev leads_to : Option (List String) → Option (List String) → Bool
leads_to (some directory) (some parts) = leads directory parts
leads_to directory parts = false

module _ (getenv : String → Option String) where
  -- What the two lists of the environment say of a command.
  abbrev pub is_allowed : String → Bool
  is_allowed command =
      empty (setting getenv "P1_BASH_DENIED_PATTERNS")
      || (not (empty (setting getenv "P1_BASH_ALLOWED_COMMANDS"))
          && any (startswith (strip command))
              (listed getenv (setting getenv "P1_BASH_ALLOWED_COMMANDS")))
      || not
          (any (contains_text command) (listed getenv (setting getenv "P1_BASH_DENIED_PATTERNS")))

  pub check_bash-is_allowed :
      (command : String) → is_some (check_bash_command getenv command) ≡ not (is_allowed command)
  unfolding check_bash_command
  check_bash-is_allowed command =
      ground
        (arith, denied_by-any (listed getenv (setting getenv "P1_BASH_DENIED_PATTERNS")) command)

  -- Whether a path is inside the sandbox, where there is one.
  abbrev pub in_sandbox : (Value → Option (List String)) → Value → Bool
  in_sandbox resolve path =
      empty (setting getenv "P1_TOOL_SANDBOX_ROOT")
      || (truthy path
          && leads_to (resolve (str (setting getenv "P1_TOOL_SANDBOX_ROOT"))) (resolve path))

  pub validate-in_sandbox :
      (resolve : Value → Option (List String)) (path : Value)
      → is_some (validate_path_within_sandbox getenv resolve path) ≡ not (in_sandbox resolve path)
  unfolding validate_path_within_sandbox
  validate-in_sandbox resolve path = ground arith
