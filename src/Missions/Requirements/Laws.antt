-- ===== src/Missions/Requirements/Laws.antt =====
-- What an inference of requirements guarantees, whatever the text.
use agentic_workflows.Base.{
  String, ◌≡◌, refl, ◌⊎◌, inl, inr, Bool, true, false, ◌&&◌, ◌||◌, none, List, [], ◌∷◌, ◌++◌, arith,
  if◌then◌else◌, is_nil, is_base, basename_idem, contains-append, all, contains, eq_iff, eq_refl,
  Bool-cases,
}
use agentic_workflows.Base.Text.{lower, basename}
use agentic_workflows.Extract.{extract_write_path_from_mission}
use agentic_workflows.Missions.Requirements.{
  when, tools_by_words, asks_write, asks_fibonacci, path_files, infer_requirements_from_text,
}

contains-when : (b : Bool) (tool : String) → contains (when b tool) tool ≡ b
unfolding contains
contains-when b tool = ground (arith, eq_refl tool)

all-append : (p : String → Bool) (xs ys : List String) → all p (xs ++ ys) ≡ (all p xs && all p ys)
unfolding all
all-append p [] ys = refl
all-append p (x ∷ xs) ys = ground (arith, all-append p xs ys)

all-path_files : (text : String) → all is_base (path_files text) ≡ true
unfolding path_files all
all-path_files text = ground (
  arith,
  eq_iff (basename (basename (extract_write_path_from_mission text)))
      (basename (extract_write_path_from_mission text)),
  basename_idem (extract_write_path_from_mission text),
)

write_file_asked :
    (low : String)
    → contains
        (tools_by_words low
          ++ when (asks_write low) "write_file"
          ++ when (asks_fibonacci low) "write_file")
        "write_file"
      ≡ (contains (tools_by_words low) "write_file" || asks_write low || asks_fibonacci low)
write_file_asked low = simp (contains-append, contains-when)

all-asked_files :
    (text : String) (w f : Bool)
    → all is_base ((if w then path_files text else []) ++ (if f then path_files text else []))
      ≡ true
unfolding all
all-asked_files text true true = rw all-append (ground (arith, all-path_files text))
all-asked_files text true false = rw all-append (ground (arith, all-path_files text))
all-asked_files text false true = all-path_files text
all-asked_files text false false = refl

-- Inferred files, and an inferred count of numbers, come with the tool that writes them; and the
-- files are base names.
infer-write_file :
    (text : String)
    → let needs = infer_requirements_from_text text in
      ((is_nil needs.files ≡ true) ⊎ (contains needs.tools "write_file" ≡ true))
      × ((needs.fibonacci_count ≡ none) ⊎ (contains needs.tools "write_file" ≡ true))
      × (all is_base needs.files ≡ true)
unfolding infer_requirements_from_text
infer-write_file text =
    let low = lower text in
    rw (write_file_asked low) (
      in_either (asks_write low) (asks_fibonacci low),
      elim (Bool-cases (asks_fibonacci low)) [
        | inl f ↦ rw f (ground arith)
        | inr f ↦ rw f (inl refl)
      ],
      all-asked_files text (asks_write low) (asks_fibonacci low),
    )
  where
    in_either :
        (w f : Bool)
        → (is_nil ((if w then path_files text else []) ++ (if f then path_files text else []))
            ≡ true)
          ⊎ ((contains (tools_by_words (lower text)) "write_file" || w || f) ≡ true)
    in_either true f = inr (ground arith)
    in_either false true = inr (ground arith)
    in_either false false = inl refl
