-- ===== src/Tools.antt =====
-- tools/_security.py: the guards that the tools ask before they act, and what they return. The
-- environment and the resolution of a path are parameters; Bash, Files and Chunks are the tools.
pub mod Laws
pub mod Bash
pub mod Files
pub mod Chunks
pub mod Roots
pub mod Samples
use Prim.Native.String.{◌++◌}
use agentic_workflows.Base.{
  ℕ, zero, suc, String, Bool, true, false, not, ◌&&◌, Option, none, some, List, [], ◌∷◌, map,
  if◌then◌else◌, ltb, eqb, get_or, select, any, ◌==◌,
}
use agentic_workflows.Base.Int.{ℤ, pos, negsuc, clip}
use agentic_workflows.Base.Text.{
  empty, startswith, strip, contains_text, split, print_nat, parse_nat, join, after_first,
}
use agentic_workflows.Values.{Value, bool, int, str, Fields, end, field, truthy, to_str, quoted}
use agentic_workflows.Regex.{Re, alt, seq, star, matches}
use agentic_workflows.Regex.Patterns.{lit, opt, plus, digit}

-- A tool's answer, or the name of the exception that leaves it.
pub data Answer : Type 0 where
  returned : Fields → Answer
  raised : String → Answer

abbrev pub error_of : String → Fields
error_of text = field "error" (str text) end

-- The texts that `int(s)` reads, of ASCII digits.
int_re : Re
int_re = seq (opt (alt (lit "+") (lit "-"))) (seq (plus digit) (star (seq (lit "_") (plus digit))))

unsigned : String → ℕ
unfolding join split parse_nat
unsigned s = parse_nat (join "" (split "_" s))

negated : ℕ → ℤ
negated zero = pos 0
negated (suc n) = negsuc n

signed : String → ℤ
unfolding unsigned startswith after_first negated
signed s =
    if startswith s "-"
    then negated (unsigned (after_first "-" s))
    else if startswith s "+"
    then pos (unsigned (after_first "+" s))
    else pos (unsigned s)

-- int(s), or a ValueError
unfoldable pub parse_int : String → Option ℤ
unfolding signed int_re matches strip lit
parse_int s = let t = strip s in if matches int_re t then some (signed t) else none

-- int(v), where an argument that is not given has a default; nothing when it raises
unfoldable pub int_of : ℤ → Option Value → Option ℤ
unfolding parse_int
int_of default none = some default
int_of default (some (int z)) = some z
int_of default (some (bool b)) = some (if b then pos 1 else pos 0)
int_of default (some (str s)) = parse_int s
int_of default (some v) = none

unfoldable pub denied_by : List String → String → Option Fields
unfolding contains_text quoted
denied_by [] command = none
denied_by (pattern_text ∷ rest) command =
    let later = denied_by rest command in
    if contains_text command pattern_text
    then some
        (error_of ("command blocked by security policy (matched: " ++ quoted pattern_text ++ ")"))
    else later

-- The directory's parts lead the path's: no ValueError of `target.relative_to(sandbox)`.
unfoldable pub leads : List String → List String → Bool
leads [] parts = true
leads (name ∷ names) [] = false
leads (name ∷ names) (part ∷ parts) = name == part && leads names parts

module _ (getenv : String → Option String) where
  -- os.getenv(name, "").strip()
  unfoldable pub setting : String → String
  unfolding strip
  setting name = strip (get_or "" (getenv name))

  -- The parts of a setting between its commas, without those that are blank.
  unfoldable pub listed : String → List String
  unfolding select strip split
  listed raw = map strip (select (λ p. not (empty (strip p))) (split "," raw))

  unfoldable pub check_bash_command : String → Option Fields
  unfolding setting listed denied_by any startswith strip
  check_bash_command command =
      let denied_raw = setting "P1_BASH_DENIED_PATTERNS" in
      let allowed_raw = setting "P1_BASH_ALLOWED_COMMANDS" in
      if empty denied_raw
      then none
      else if not (empty allowed_raw) && any (startswith (strip command)) (listed allowed_raw)
      then none
      else denied_by (listed denied_raw) command

  -- `int(os.getenv(env_var, str(default_max)) or default_max)`
  unfoldable pub max_bytes : String → ℤ → Option ℤ
  unfolding parse_int
  max_bytes env_var default_max = elim (getenv env_var) [
    | none ↦ some default_max
    | some s ↦ if empty s then some default_max else parse_int s
  ]

  -- The cap on a content of so many bytes. A setting that is no integer raises.
  unfoldable pub check_content_size : ℕ → String → ℤ → Option Answer
  check_content_size bytes env_var default_max = elim (max_bytes env_var default_max) [
    | none ↦ some (raised "ValueError")
    | some z ↦
        if eqb (clip z) 0
        then none
        else if ltb (clip z) bytes
        then some (
            returned (
              error_of (
                "content size ("
                ++ print_nat bytes
                ++ " bytes) exceeds limit ("
                ++ print_nat (clip z)
                ++ " bytes)")))
        else none
  ]

  -- `resolve` gives the parts of a resolved path; nothing when the resolution raises.
  module _ (resolve : Value → Option (List String)) where
    unfoldable pub validate_path_within_sandbox : Value → Option Fields
    unfolding leads setting truthy to_str
    validate_path_within_sandbox path =
        let root = setting "P1_TOOL_SANDBOX_ROOT" in
        if empty root
        then none
        else if not (truthy path)
        then some (error_of "path is required")
        else elim (resolve (str root)) [
          | none ↦ some (error_of ("invalid path: " ++ to_str path))
          | some sandbox ↦ elim (resolve path) [
            | none ↦ some (error_of ("invalid path: " ++ to_str path))
            | some target ↦
                if leads sandbox target
                then none
                else some (error_of ("path outside sandbox (" ++ root ++ "): " ++ to_str path))
          ]
        ]
