-- ===== src/Tools/Bash.antt =====
-- tools/run_bash.py: the guards of the tool in their order, then the shell. The shell, which changes
-- the world outside, is a parameter.
pub mod Laws
use Prim.Native.Char.{code}
use Prim.Native.String.{◌++◌}
use agentic_workflows.Base.{
  ℕ, String, Bool, false, not, ◌&&◌, ◌||◌, Option, none, some, List, if◌then◌else◌, leb, eqb,
  get_or, ◌==◌,
}
use agentic_workflows.Base.Int.{ℤ, pos, negsuc}
use agentic_workflows.Base.Text.{empty, strip, lower, prefix}
use agentic_workflows.Values.{Value, int, str, Fields, end, field, get, truthy, print_int}
use agentic_workflows.Regex.{Re, seq, starts, matches, is_alpha, is_digit}
use agentic_workflows.Regex.Patterns.{lit, opt, space}
use agentic_workflows.Tools.{
  Answer, returned, raised, error_of, int_of, check_bash_command, validate_path_within_sandbox,
}

-- What the shell is asked to run.
pub record Call : Type 0 where
  pub command : String
  pub timeout : ℤ
  pub cwd : Option Value

-- How a run ends.
pub data Ending : Type 0 where
  finished : String → String → ℤ → Ending
  timed_out : Ending
  failed : String → Ending

-- What the guards make of the arguments: an answer, or a call of the shell.
pub data Checked : Type 0 where
  stop : Answer → Checked
  go : Call → Checked

python_re : Re
unfolding lit
python_re = seq (lit "python") (opt (lit "2"))

-- `[\w/]`, before which no match starts
joins_word : ℕ → Bool
joins_word c = is_alpha c || is_digit c || eqb c 95 || eqb c 47

bare_from : Bool → String → Bool
unfolding starts matches python_re joins_word
bare_from joined String.[] = false
bare_from joined (String.◌∷◌ c s) =
    (not joined
      && (starts (seq python_re space) (String.◌∷◌ c s) || matches python_re (String.◌∷◌ c s)))
    || bare_from (joins_word (code c)) s

-- whether _PYTHON_BARE_RE is found
unfoldable pub is_bare_python : String → Bool
unfolding bare_from
is_bare_python command = bare_from false command

-- min(z, 120)
unfoldable pub at_most_max : ℤ → ℤ
at_most_max (pos n) = if leb n 120 then pos n else pos 120
at_most_max (negsuc n) = negsuc n

int_exception : Option Value → String
int_exception (some (str s)) = "ValueError"
int_exception v = "TypeError"

unfoldable pub timeout_of : Fields → Option ℤ
unfolding get int_of at_most_max
timeout_of args = elim (int_of (pos 30) (get "timeout" args)) [
  | none ↦ none
  | some z ↦ some (at_most_max z)
]

python_error : Fields
python_error =
    field "error" (str "run_bash_guardrail: bare 'python'/'python2' is not allowed; use 'python3'")
      (field "hint" (str "Replace 'python' with 'python3' in your command.") end)

unfoldable pub report : Call → Ending → Fields
unfolding prefix print_int
report call (finished out err code) =
    field "stdout" (str (prefix 65536 out))
      (field "stderr" (str (prefix 65536 err)) (field "returncode" (int code) end))
report call timed_out =
    field "error" (str ("command timed out after " ++ print_int call.timeout ++ "s"))
      (field "returncode" (int (negsuc 0)) end)
report call (failed text) = field "error" (str text) (field "returncode" (int (negsuc 0)) end)

unfoldable pub ran : {W : Type 0} → Call → (Ending × W) → Answer × W
unfolding report
ran call after = (returned (report call after.0), after.1)

module _ (getenv : String → Option String) where
  unfoldable pub enabled : Bool
  unfolding strip lower
  enabled = lower (strip (get_or "" (getenv "P1_BASH_ENABLED"))) == "true"

  workdir : Option String → Option Value
  workdir none = none
  workdir (some s) = if empty s then none else some (str s)

  unfoldable pub cwd_of : Fields → Option Value
  unfolding get truthy workdir
  cwd_of args = elim (get "cwd" args) [
    | none ↦ workdir (getenv "AGENT_WORKDIR")
    | some v ↦ if truthy v then some v else workdir (getenv "AGENT_WORKDIR")
  ]

  module _ (resolve : Value → Option (List String)) where
    unfoldable pub cwd_error : Option Value → Option Fields
    unfolding validate_path_within_sandbox
    cwd_error none = none
    cwd_error (some v) = validate_path_within_sandbox getenv resolve v

    unfoldable pub check_call : Call → Checked
    unfolding strip is_bare_python python_error check_bash_command cwd_error
    check_call call =
        if empty (strip call.command)
        then stop (returned (error_of "command is required"))
        else if is_bare_python call.command
        then stop (returned python_error)
        else elim (check_bash_command getenv call.command) [
          | some err ↦ stop (returned err)
          | none ↦ elim (cwd_error call.cwd) [ some err ↦ stop (returned err) | none ↦ go call ]
        ]

    -- A command that is no text is either falsy, or has no `strip`.
    unfoldable pub check_command : Option Value → ℤ → Option Value → Checked
    unfolding check_call truthy
    check_command none timeout cwd = stop (returned (error_of "command is required"))
    check_command (some (str s)) timeout cwd =
        check_call (record { command = s; timeout = timeout; cwd = cwd })
    check_command (some v) timeout cwd =
        if truthy v
        then stop (raised "AttributeError")
        else stop (returned (error_of "command is required"))

    unfoldable pub checked_args : Fields → Checked
    unfolding enabled timeout_of cwd_of get check_command int_exception
    checked_args args =
        if enabled
        then elim (timeout_of args) [
          | none ↦ stop (raised (int_exception (get "timeout" args)))
          | some t ↦ check_command (get "command" args) t (cwd_of args)
        ]
        else stop (returned (error_of "run_bash is disabled; set P1_BASH_ENABLED=true to enable"))

    module _ {W : Type 0} (shell : Call → W → Ending × W) where
      conclude : Checked → W → Answer × W
      unfolding ran
      conclude (stop answer) world = (answer, world)
      conclude (go call) world = ran call (shell call world)

      unfoldable pub run_bash : Fields → W → Answer × W
      unfolding checked_args conclude
      run_bash args world = conclude (checked_args args) world
