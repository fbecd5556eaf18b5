-- ===== src/Graph/Execute/Gate/Traces.antt =====
-- The records of the calls between two states of an execution, and how a part of the node goes on: a
-- rule for the part says what has to hold for that.
use agentic_workflows.Base.{
  length, suc, String, ◌≡◌, refl, sym, ap, ◌∙◌, ◌⊎◌, inr, Bool, true, false, Option, none, some,
  List, [], ◌∷◌, ◌++◌, arith, if◌then◌else◌, all, ◌==◌,
}
use agentic_workflows.Context.Window.Slices.{append_nil}
use agentic_workflows.Values.{end, field, get_str, Fields}
use agentic_workflows.Memo.Store.{MemoStore}
use agentic_workflows.Missions.{ToolRecord}
use agentic_workflows.Graph.Execute.{
  remember, say, count_flag, end, log_call, str, field, Session, Step, raised, Env, Called, gave,
  crashed, call_tool,
}
use agentic_workflows.Graph.Execute.Frame.{core, core-record_mission_tool_event}
use agentic_workflows.Graph.Execute.Lookup.{
  record_retrieve_memo_trace, looked_up, lookup_keys, is_found,
}

abbrev pub is_lookup : ToolRecord → Bool
is_lookup r = r.tool == "retrieve_memo"

-- Nothing is pending, or a finish.
abbrev pub has_no_call : Option Fields → Bool
has_no_call none = true
has_no_call (some end) = true
has_no_call (some (field k v fs)) = get_str "" "action" (field k v fs) == "finish"

pub append_one {ℓ} :
    {A : Type ℓ} (xs ys : List A) (z : A) → (xs ++ ys) ++ z ∷ [] ≡ xs ++ (ys ++ z ∷ [])
append_one [] ys z = refl
append_one (x ∷ xs) ys z = ap (λ l. x ∷ l) (append_one xs ys z)

all-append_lookup :
    (rs : List ToolRecord) (r : ToolRecord)
    → all is_lookup rs ≡ true
    → is_lookup r ≡ true
    → all is_lookup (rs ++ r ∷ []) ≡ true
unfolding all
all-append_lookup [] r h g = ground arith
all-append_lookup (q ∷ rs) r h g = ground (arith, all-append_lookup rs r)

-- A rule for a test.
pub if_rule {ℓ} :
    {A : Type ℓ} (P : A → Type 0) (b : Bool) (x y : A)
    → (b ≡ true → P x)
    → (b ≡ false → P y)
    → P (if b then x else y)
if_rule P true x y f g = f refl
if_rule P false x y f g = g refl

module _ {W : Type 0} where
  -- Between the two states there were lookups in the memo store, and no other call.
  abbrev pub Looked : Session W → Session W → Type 0
  Looked s t =
      (lookups : List ToolRecord) × (t.run.tool_history ≡ s.run.tool_history ++ lookups)
      × (all is_lookup lookups ≡ true)
      × (t.run.seen_tool_signatures ≡ s.run.seen_tool_signatures)

  looked_up-Looked :
      (env : Env W) (s t : Session W) (hint : String) (args result : Fields)
      → Looked s t
      → Looked s (looked_up env hint args result t)
  unfolding looked_up record_retrieve_memo_trace log_call count_flag remember say
  looked_up-Looked env s t hint args result (lookups, h, a, seen) =
      let entry : ToolRecord = record {
        call = suc (length t.run.tool_history);
        tool = "retrieve_memo";
        args = args;
        result = result;
      } in
      let logged = log_call "retrieve_memo" args result (record_retrieve_memo_trace env result t) in
      let kept = core-record_mission_tool_event logged.run "retrieve_memo" result none none in
      (
        lookups ++ entry ∷ [],
        ap (λ c. c.0) kept
            ∙ ap (λ l. l ++ entry ∷ []) h
            ∙ append_one s.run.tool_history lookups entry,
        all-append_lookup lookups entry a refl,
        ap (λ c. c.1) kept ∙ seen,
      )

  -- What a node raises: the policy's violation, or what a tool's call crashed with.
  abbrev pub Raises : Env W → String → Type 0
  Raises env e =
      (e ≡ "MemoizationPolicyViolation")
      ⊎ ((tool : String) × (args : Fields) × (memos : MemoStore) × (world : W) × (env.call tool args
              memos world
            ≡ crashed e))

  module _ (env : Env W) (P : Step W → Type 0)
      (on_raise : (e : String) → Raises env e → P (raised e)) where
    pub call_tool_rule :
        (tool : String) (args : Fields) (next : Fields → Session W → Step W) (s : Session W)
        → ((result : Fields) (memos : MemoStore) (world : W)
            → P (next result (record s { memos = memos; world = world })))
        → P (call_tool env tool args next s)
    unfolding call_tool
    call_tool_rule tool args next s k = at (env.call tool args s.memos s.world) refl
      where
        at :
            (c : Called W)
            → env.call tool args s.memos s.world ≡ c
            → P (elim c as (λ x. Step W) [
              | gave result memos world ↦ next result (record s { memos = memos; world = world })
              | crashed e ↦ raised e
            ])
        at (gave result memos world) eq = k result memos world
        at (crashed e) eq = on_raise e (inr (tool, args, s.memos, s.world, eq))

    pub lookup_keys_rule :
        (s : Session W) (hint : String) (hit : Fields → Session W → Step W)
        (miss : Session W → Step W)
        → ((result : Fields) (t : Session W) → Looked s t → P (hit result t))
        → ((t : Session W) → Looked s t → P (miss t))
        → (keys : List String) (t : Session W) → Looked s t
        → P (lookup_keys env hint hit miss keys t)
    unfolding lookup_keys
    lookup_keys_rule s hint hit miss on_hit on_miss [] t l = on_miss t l
    lookup_keys_rule s hint hit miss on_hit on_miss (key ∷ keys) t l =
        call_tool_rule "retrieve_memo"
          (field "key" (str key) (field "run_id" (str t.run.run_id) end))
          (λ result after.
            let next =
              looked_up env hint (field "key" (str key) (field "run_id" (str t.run.run_id) end))
                result after in
            elim (is_found result) as (λ x. Step W) [
              | true ↦ hit result next
              | false ↦ lookup_keys env hint hit miss keys next
            ])
          t
          (λ result memos world.
            let after = record t { memos = memos; world = world } in
            let args = field "key" (str key) (field "run_id" (str t.run.run_id) end) in
            let next = looked_up env hint args result after in
            let looked = looked_up-Looked env s after hint args result l in
            elim (is_found result)
              as (λ b. P (elim b as (λ x. Step W) [
                | true ↦ hit result next
                | false ↦ lookup_keys env hint hit miss keys next
              ])) [
                | true ↦ on_hit result next looked
                | false ↦ lookup_keys_rule s hint hit miss on_hit on_miss keys next looked
              ])

  -- A state that a guard left: the records of the calls are as they were but for lookups, and no call
  -- is pending.
  abbrev pub Stopped : Session W → Session W → Type 0
  Stopped s t = Looked s t × (has_no_call t.run.pending_action ≡ true)

  pub Stopped-if :
      (s : Session W) (b : Bool) (t u : Session W)
      → Stopped s t
      → Stopped s u
      → Stopped s (if b then t else u)
  Stopped-if s true t u p q = p
  Stopped-if s false t u p q = q

  -- What has the core of a state has its records.
  pub Looked-core : (s t u : Session W) → core u.run ≡ core t.run → Looked s t → Looked s u
  Looked-core s t u e (lookups, h, a, seen) =
      (lookups, ap (λ c. c.0) e ∙ h, a, ap (λ c. c.1) e ∙ seen)

  pub no_lookup : (s : Session W) → Looked s s
  unfolding all
  no_lookup s = ([], sym (append_nil s.run.tool_history), refl, refl)
