-- ===== src/Tools/Bash/Laws.antt =====
-- When run_bash reaches the shell, and with what.
use agentic_workflows.Base.{
  ◌≤◌, String, ◌≡◌, refl, ap, ◌∙◌, ◌⊎◌, inl, inr, Bool, true, false, not, ◌&&◌, Option, none, some,
  List, arith, if◌then◌else◌, Bool-cases, Option-cases, get_or,
}
use agentic_workflows.Base.Int.{ℤ, pos, negsuc, clip}
use agentic_workflows.Base.Text.{empty, strip}
use agentic_workflows.Values.{Value, null, bool, int, str, arr, obj, Fields, get}
use agentic_workflows.Tools.Laws.{
  is_some, is_allowed, check_bash-is_allowed, in_sandbox, validate-in_sandbox,
}
use agentic_workflows.Tools.Bash.{
  Call, Ending, Checked, stop, go, is_bare_python, at_most_max, enabled, timeout_of, cwd_of,
  cwd_error, check_call, check_command, checked_args, ran, conclude, run_bash,
}

at_most_max-le : (z : ℤ) → clip (at_most_max z) ≤ 120
unfolding at_most_max
at_most_max-le (pos n) = ground arith
at_most_max-le (negsuc n) = omega arith

-- The call of the shell, where the guards let one go.
call_of : Checked → Option Call
call_of (stop answer) = none
call_of (go call) = some call

abbrev text_of : Option Value → String
text_of (some (str s)) = s
text_of v = ""

module _ (getenv : String → Option String) (resolve : Value → Option (List String)) where
  -- Whether a directory is inside the sandbox, where there is one.
  abbrev pub is_inside : Option Value → Bool
  is_inside none = true
  is_inside (some path) = in_sandbox getenv resolve path

  abbrev pub is_clean : String → Bool
  is_clean command =
      not (empty (strip command)) && not (is_bare_python command) && is_allowed getenv command

  abbrev permits_command : Option Value → Bool
  permits_command (some (str command)) = is_clean command
  permits_command v = false

  -- Whether the tool may run its arguments.
  abbrev pub permits : Fields → Bool
  permits args =
      enabled getenv
      && is_some (timeout_of args)
      && permits_command (get "command" args)
      && is_inside (cwd_of getenv args)

  cwd_error-is_inside :
      (cwd : Option Value) → is_some (cwd_error getenv resolve cwd) ≡ not (is_inside cwd)
  unfolding cwd_error
  cwd_error-is_inside none = refl
  cwd_error-is_inside (some path) = validate-in_sandbox getenv resolve path

  check_call_lem :
      (call : Call)
      → call_of (check_call getenv resolve call)
        ≡ (if is_clean call.command && is_inside call.cwd then some call else none)
  unfolding check_call call_of
  check_call_lem call =
      ground (arith, check_bash-is_allowed getenv call.command, cwd_error-is_inside call.cwd)

  check_command_lem :
      (command cwd : Option Value) (timeout : ℤ)
      → call_of (check_command getenv resolve command timeout cwd) ≡ (
          if permits_command command && is_inside cwd
          then some (record { command = text_of command; timeout = timeout; cwd = cwd })
          else none)
  unfolding check_command call_of
  check_command_lem none cwd timeout = refl
  check_command_lem (some (str s)) cwd timeout =
      check_call_lem (record { command = s; timeout = timeout; cwd = cwd })
  check_command_lem (some null) cwd timeout = ground arith
  check_command_lem (some (bool b)) cwd timeout = ground arith
  check_command_lem (some (int z)) cwd timeout = ground arith
  check_command_lem (some (arr vs)) cwd timeout = ground arith
  check_command_lem (some (obj fs)) cwd timeout = ground arith

  -- The call that the arguments ask for.
  abbrev pub call_for : Fields → Call
  call_for args = record {
    command = text_of (get "command" args);
    timeout = get_or (pos 30) (timeout_of args);
    cwd = cwd_of getenv args;
  }

  checked_args_lem :
      (args : Fields)
      → call_of (checked_args getenv resolve args)
        ≡ (if permits args then some (call_for args) else none)
  unfolding checked_args call_of
  checked_args_lem args = elim (Option-cases (timeout_of args)) [
    | inl e ↦ ground arith
    | inr (z, e) ↦ ground (arith, check_command_lem (get "command" args) (cwd_of getenv args) z)
  ]

  call_for-bounded :
      (args : Fields) → is_some (timeout_of args) ≡ true → clip (call_for args).timeout ≤ 120
  unfolding timeout_of
  call_for-bounded args h = elim (Option-cases (timeout_of args)) [
    | inl e ↦ ground arith
    | inr (z, e) ↦ ground arith
  ]

conclude-stop :
    {W : Type 0} (getenv : String → Option String) (resolve : Value → Option (List String))
    (shell : Call → W → Ending × W) (world : W) (c : Checked)
    → call_of c ≡ none
    → (conclude getenv resolve shell c world).1 ≡ world
unfolding conclude call_of
conclude-stop getenv resolve shell world (stop answer) h = refl
conclude-stop getenv resolve shell world (go call) h = cc

conclude-go :
    {W : Type 0} (getenv : String → Option String) (resolve : Value → Option (List String))
    (shell : Call → W → Ending × W) (world : W) (c : Checked) (call : Call)
    → call_of c ≡ some call
    → conclude getenv resolve shell c world ≡ ran call (shell call world)
unfolding conclude call_of
conclude-go getenv resolve shell world (stop answer) call h = cc
conclude-go getenv resolve shell world (go other) call h =
    ap (λ o. let c = get_or other o in ran c (shell c world)) h

-- run_bash hands a command to the shell exactly when the tool is enabled, the timeout is an integer,
-- the command is a text that is not blank, has no bare python and is allowed by the lists of the
-- environment, and the directory is inside the sandbox. The shell is then called once, with a
-- timeout of at most 120 seconds, and its ending is reported; in every other case the world is left
-- as it was.
pub run_bash_lem :
    {W : Type 0} (getenv : String → Option String) (resolve : Value → Option (List String))
    (shell : Call → W → Ending × W) (args : Fields) (world : W)
    → let call = call_for getenv resolve args in
      ((permits getenv resolve args ≡ true)
        × (clip call.timeout ≤ 120)
        × (run_bash getenv resolve shell args world ≡ ran call (shell call world)))
      ⊎ ((permits getenv resolve args ≡ false)
          × ((run_bash getenv resolve shell args world).1 ≡ world))
unfolding run_bash
run_bash_lem getenv resolve shell args world = elim (Bool-cases (permits getenv resolve args)) [
  | inl e ↦ inl (
    e,
    call_for-bounded getenv resolve args (ground arith),
    conclude-go getenv resolve shell world (checked_args getenv resolve args)
        (call_for getenv resolve args) (checked_args_lem getenv resolve args ∙ ground arith),
  )
  | inr e ↦ inr (
    e,
    conclude-stop getenv resolve shell world (checked_args getenv resolve args)
        (checked_args_lem getenv resolve args ∙ ground arith),
  )
]
