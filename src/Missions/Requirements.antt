-- ===== src/Missions/Requirements.antt =====
-- `infer_requirements_from_text` of orchestration/langgraph/mission_tracker.py.
pub mod Laws
use agentic_workflows.Base.{
  ℕ, String, ◌≡◌, refl, Bool, ◌&&◌, ◌||◌, Option, none, some, List, [], ◌∷◌, ◌++◌, if◌then◌else◌,
  contains, sorted,
}
use agentic_workflows.Base.Text.{lower, basename, empty, contains_text}
use agentic_workflows.Regex.{found}
use agentic_workflows.Regex.Patterns.{word, words}
use agentic_workflows.Extract.{extract_fibonacci_count, extract_write_path_from_mission}

pub record Requirements : Type 0 where
  pub tools : List String
  pub files : List String
  pub fibonacci_count : Option ℕ

abbrev when : Bool → String → List String
when b tool = if b then tool ∷ [] else []

has_word : String → String → Bool
has_word s lower = found (word s) lower

has_any : List String → String → Bool
has_any ss lower = found (words ss) lower

-- The `if` of each tool that is not `write_file`, in the source's order.
tools_by_words : String → List String
unfolding has_word has_any
tools_by_words lower =
    when (has_any ("uppercase" ∷ "lowercase" ∷ "reverse" ∷ []) lower) "string_ops"
    ++ when (has_any ("repeat" ∷ "confirmation" ∷ []) lower) "repeat_message"
    ++ when (has_word "retrieve" lower && has_any ("memo" ∷ "memoize" ∷ []) lower) "retrieve_memo"
    ++ when (has_word "memoize" lower) "memoize"
    ++ when (has_word "json" lower) "json_parser"
    ++ when (has_any ("regex" ∷ "pattern" ∷ []) lower) "regex_matcher"
    ++ when
        (has_word "extract" lower
          && (has_word "name" lower || has_any ("number" ∷ "numbers" ∷ []) lower))
        "regex_matcher"
    ++ when
        (has_word "sort" lower
          || has_word "ascending" lower
          || has_word "descending" lower
          || has_any ("alphabetic" ∷ "alphabetically" ∷ []) lower)
        "sort_array"
    ++ when (has_any ("mean" ∷ "sum" ∷ "median" ∷ "average" ∷ []) lower) "math_stats"
    ++ when
        (has_any ("outlier" ∷ "outliers" ∷ []) lower
          || has_any ("statistic" ∷ "statistics" ∷ []) lower
          || (has_any ("analyse" ∷ "analyze" ∷ []) lower
              && has_any ("number" ∷ "numbers" ∷ []) lower))
        "data_analysis"
    ++ when (has_any ("analyse" ∷ "analyze" ∷ []) lower && has_word "text" lower) "text_analysis"

asks_write : String → Bool
unfolding has_any
asks_write lower =
    has_any ("write" ∷ "write_file" ∷ []) lower
    || contains_text lower "save to"
    || contains_text lower "output to"

asks_fibonacci : String → Bool
asks_fibonacci lower = contains_text lower "fibonacci"

-- The base name of the path that the mission names, if it names one.
path_files : String → List String
path_files text =
    let path = extract_write_path_from_mission text in if empty path then [] else basename path ∷ []

unfoldable pub infer_requirements_from_text : String → Requirements
unfolding tools_by_words asks_write asks_fibonacci path_files
infer_requirements_from_text text =
    let low = lower text in
    let write = asks_write low in
    let fibonacci = asks_fibonacci low in
    record {
      tools = tools_by_words low ++ when write "write_file" ++ when fibonacci "write_file";
      files =
          (if write then path_files text else []) ++ (if fibonacci then path_files text else []);
      fibonacci_count = if fibonacci then some (extract_fibonacci_count text) else none;
    }

inference : Unit {0}
unfolding infer_requirements_from_text extract_fibonacci_count extract_write_path_from_mission found
    word words lower basename contains_text contains sorted
inference = tt

infer_test :
    infer_requirements_from_text "Write the first 9 Fibonacci numbers to out/fib.txt" ≡ record {
      tools = "write_file" ∷ "write_file" ∷ [];
      files = "fib.txt" ∷ "fib.txt" ∷ [];
      fibonacci_count = some 9;
    }
unfolding inference
infer_test = refl

infer_tools_test :
    sorted (infer_requirements_from_text "Sort and retrieve the memo, then analyze numbers").tools
    ≡ "data_analysis" ∷ "retrieve_memo" ∷ "sort_array" ∷ []
unfolding inference
infer_tools_test = refl
