-- ===== src/Context/Window/Laws.antt =====
-- What compaction keeps, and how long the transcript and the trace are.
use mathlib.Core.Path.{subst}
use agentic_workflows.Base.{
  ℕ, zero, suc, ◌+◌, ◌-◌, ◌≤◌, max, String, ◌≡◌, refl, sym, ap, ◌∙◌, Bool, true, false, Option,
  none, some, List, [], ◌∷◌, ◌++◌, map, arith, leb, if◌then◌else◌, length, length-append, select,
  all,
}
use agentic_workflows.Missions.{AgentMessage}
use agentic_workflows.Base.{length-drop}
use agentic_workflows.Context.Window.Slices.{
  drop-length, all-drop, all-select, select_of_all, select_of_opposite, select-append, append_nil,
}
use agentic_workflows.Context.Window.{
  cursor_hint, ContextState, emit_eviction_event, Cursor, last_slice, with_messages, cursor_hints,
  kept_messages, compact, is_system, is_other,
}
use agentic_workflows.Base.{drop}

length_of_split :
    (xs : List AgentMessage)
    → length (select is_system xs) + length (select is_other xs) ≡ length xs
unfolding select
length_of_split [] = refl
length_of_split (m ∷ xs) = ground (arith, length_of_split xs)

-- The others that a compaction keeps.
abbrev pub newest : ℕ → List AgentMessage → List AgentMessage
newest cap messages =
    drop (length (select is_other messages) - (cap - length (select is_system messages)))
      (select is_other messages)

kept_messages_lem :
    (cap : ℕ) (messages : List AgentMessage)
    → kept_messages cap messages ≡ select is_system messages ++ newest cap messages
unfolding kept_messages last_slice newest
kept_messages_lem cap messages = by_test (cap - length (select is_system messages)) refl
  where
    by_test :
        (k : ℕ)
        → cap - length (select is_system messages) ≡ k
        → kept_messages cap messages ≡ select is_system messages ++ newest cap messages
    by_test zero e = ground (
      arith,
      e,
      append_nil (select is_system messages),
      drop-length (length (select is_other messages) - (cap - length (select is_system messages)))
          (select is_other messages) (omega (arith, e)),
    )
    by_test (suc k) e = ground (arith, e)

system_of_newest :
    (cap : ℕ) (messages : List AgentMessage) → select is_system (newest cap messages) ≡ []
unfolding newest
system_of_newest cap messages =
    select_of_opposite is_system is_other (newest cap messages) (λ m. refl)
      (all-drop is_other _ (select is_other messages) (all-select is_other messages))

other_of_newest :
    (cap : ℕ) (messages : List AgentMessage)
    → select is_other (newest cap messages) ≡ newest cap messages
unfolding newest
other_of_newest cap messages =
    select_of_all is_other (newest cap messages)
      (all-drop is_other _ (select is_other messages) (all-select is_other messages))

other_of_system : (messages : List AgentMessage) → select is_other (select is_system messages) ≡ []
other_of_system messages =
    select_of_opposite is_other is_system (select is_system messages) (λ m. ground arith)
      (all-select is_system messages)

-- The messages after a compaction.
compacted : Option (String → List Cursor) → ℕ → ContextState → List AgentMessage
compacted active cap s =
    if leb (length s.messages) cap
    then s.messages
    else kept_messages cap s.messages ++ cursor_hints active s.run_id

compact_messages_lem :
    (active : Option (String → List Cursor)) (cap : ℕ) (s : ContextState)
    → (compact active cap s).messages ≡ compacted active cap s
unfolding compact with_messages emit_eviction_event compacted
compact_messages_lem active cap s = ground arith

hints_other : (cs : List Cursor) → all is_other (map cursor_hint cs) ≡ true
unfolding cursor_hint all
hints_other [] = refl
hints_other (cur ∷ cs) = hints_other cs

cursor_hints_other :
    (active : Option (String → List Cursor)) (run_id : String)
    → all is_other (cursor_hints active run_id) ≡ true
unfolding cursor_hints all
cursor_hints_other none run_id = refl
cursor_hints_other (some f) run_id = ground (arith, hints_other (f run_id))

newest_of_short :
    (cap : ℕ) (messages : List AgentMessage)
    → length messages ≤ cap
    → newest cap messages ≡ select is_other messages
unfolding newest drop
newest_of_short cap messages h =
    let none_left : length (select is_other messages) - (cap - length (select is_system messages))
        ≡ 0 =
      omega (arith, length_of_split messages, h) in
    ap (λ n. drop n (select is_other messages)) none_left

length-newest :
    (cap : ℕ) (messages : List AgentMessage)
    → length (select is_system messages) + length (newest cap messages)
      ≤ max cap (length (select is_system messages))
unfolding newest
length-newest cap messages = omega (
  arith,
  length-drop (length (select is_other messages) - (cap - length (select is_system messages)))
      (select is_other messages),
)

-- What a compaction makes of some messages, with the hints behind it.
pub record IsCompacted (cap : ℕ) (before hints after : List AgentMessage) : Type 0 where
  pub system : select is_system after ≡ select is_system before
  pub others : select is_other after ≡ newest cap before ++ hints
  pub bound : length after ≤ max cap (length (select is_system before)) + length hints

IsCompacted-short :
    (cap : ℕ) (messages : List AgentMessage)
    → length messages ≤ cap
    → IsCompacted cap messages [] messages
IsCompacted-short cap messages h = record {
  system = refl;
  others = sym (append_nil (newest cap messages) ∙ newest_of_short cap messages h);
  bound = omega (arith, h);
}

IsCompacted-long :
    (cap : ℕ) (messages hints : List AgentMessage)
    → all is_other hints ≡ true
    → IsCompacted cap messages hints (kept_messages cap messages ++ hints)
IsCompacted-long cap messages hints h = record {
  system = ground (
    arith,
    kept_messages_lem cap messages,
    select-append is_system (select is_system messages ++ newest cap messages) hints,
    select-append is_system (select is_system messages) (newest cap messages),
    select_of_all is_system (select is_system messages) (all-select is_system messages),
    system_of_newest cap messages,
    select_of_opposite is_system is_other hints (λ m. refl) h,
    append_nil (select is_system messages),
  );
  others = ground (
    arith,
    kept_messages_lem cap messages,
    select-append is_other (select is_system messages ++ newest cap messages) hints,
    select-append is_other (select is_system messages) (newest cap messages),
    other_of_system messages,
    other_of_newest cap messages,
    select_of_all is_other hints h,
  );
  bound = ground (
    arith,
    kept_messages_lem cap messages,
    length-append (select is_system messages ++ newest cap messages) hints,
    length-append (select is_system messages) (newest cap messages),
    length-newest cap messages,
  );
}

compacted_lem :
    (active : Option (String → List Cursor)) (cap : ℕ) (s : ContextState) (b : Bool)
    → leb (length s.messages) cap ≡ b
    → IsCompacted cap s.messages
        (if b then [] else cursor_hints active s.run_id)
        (if b then s.messages else kept_messages cap s.messages ++ cursor_hints active s.run_id)
compacted_lem active cap s true e = IsCompacted-short cap s.messages (ground (arith, e))
compacted_lem active cap s false e =
    IsCompacted-long cap s.messages (cursor_hints active s.run_id)
      (cursor_hints_other active s.run_id)

-- A compaction keeps the system messages, and of the others the newest that fit under the cap beside
-- them, in order; behind these stand the hints for the active chunked reads, when it had to compact.
-- So there are at most `cap` messages and the hints, or the system messages and the hints where those
-- alone are above the cap.
pub compact-IsCompacted :
    (active : Option (String → List Cursor)) (cap : ℕ) (s : ContextState)
    → IsCompacted cap s.messages
        (if leb (length s.messages) cap then [] else cursor_hints active s.run_id)
        (compact active cap s).messages
unfolding compacted
compact-IsCompacted active cap s =
    subst
      (IsCompacted cap s.messages
        (if leb (length s.messages) cap then [] else cursor_hints active s.run_id))
      (sym (compact_messages_lem active cap s))
      (compacted_lem active cap s (leb (length s.messages) cap) refl)
