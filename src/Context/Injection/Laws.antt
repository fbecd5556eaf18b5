-- ===== src/Context/Injection/Laws.antt =====
-- How much is injected, and how often.
use agentic_workflows.Base.{
  ℕ, zero, suc, ◌≤◌, String, ◌≡◌, refl, ap, ◌∙◌, ◌⊎◌, inl, inr, Bool, true, false, ◌||◌, Option,
  none, some, List, [], ◌∷◌, map, arith, leb, eqb, if◌then◌else◌, get_or, contains, eq_refl,
}
use agentic_workflows.Base.Text.{empty, size, prefix}
use agentic_workflows.Context.{ContextState}
use agentic_workflows.Context.Injection.{
  inject_from, lookup_entry, base_result, context_cap, Hit, cross_run_line, combined, cache_key_of,
  Caches, with_embedding, with_hits, inject_lines, inject_hits, get_current_goal_text,
  build_planner_context_injection,
}

size-prefix : (n : ℕ) (s : String) → size (prefix n s) ≤ n
unfolding size prefix
size-prefix zero s = omega arith
size-prefix (suc n) String.[] = omega arith
size-prefix (suc n) (String.◌∷◌ c s) = omega (arith, size-prefix n s)

size-if : (b : Bool) (n : ℕ) (x y : String) → size (if b then prefix n x else prefix n y) ≤ n
size-if true n x y = size-prefix n x
size-if false n x y = size-prefix n y

size-combined : (base : String) (lines : List String) → size (combined base lines) ≤ context_cap
unfolding combined
size-combined base lines = size-if (leb context_cap (size base)) context_cap base _

contains_self : (key : String) (keys : List String) → contains (key ∷ keys) key ≡ true
unfolding contains
contains_self key keys = ground (arith, eq_refl key)

module _ {Embedding : Type 0} where
  -- What an injection may be, for this base text and key.
  record IsInjection (base key : String) (before : Caches Embedding)
      (result : String × Caches Embedding) : Type 0 where
    bound : size result.0 ≤ context_cap
    noted :
        (result.0 ≡ prefix context_cap base)
        ⊎ (contains result.1.injected_cross_run_keys key ≡ true)
    once : contains before.injected_cross_run_keys key ≡ true → result.0 ≡ prefix context_cap base

  base-IsInjection :
      (base key : String) (caches before : Caches Embedding)
      → IsInjection base key before (prefix context_cap base, caches)
  base-IsInjection base key caches before = record {
    bound = size-prefix context_cap base;
    noted = inl refl;
    once = λ _. refl;
  }

  -- Text that is given unless the key is there, and that puts the key there.
  once-IsInjection :
      (b : Bool) (base key text : String) (caches after : Caches Embedding)
      → contains caches.injected_cross_run_keys key ≡ b
      → size text ≤ context_cap
      → contains after.injected_cross_run_keys key ≡ true
      → IsInjection base key caches (if b then (prefix context_cap base, caches) else (text, after))
  once-IsInjection true base key text caches after e h k = base-IsInjection base key caches caches
  once-IsInjection false base key text caches after e h k = record {
    bound = h;
    noted = inr k;
    once = λ there. absurd (ground (arith, e, there));
  }

module _ {Embedding : Type 0} (embed_sync : Option (String → Option Embedding))
    (query_cascade : Option (String → Option Embedding → Option (List Hit))) where
  inject_lines-IsInjection :
      (base key : String) (lines : List String) (caches : Caches Embedding)
      → IsInjection base key caches (inject_lines embed_sync query_cascade base key lines caches)
  unfolding inject_lines
  inject_lines-IsInjection base key [] caches = base-IsInjection base key caches caches
  inject_lines-IsInjection base key (line ∷ lines) caches =
      once-IsInjection (contains caches.injected_cross_run_keys key) base key
        (combined base (line ∷ lines)) caches _ refl (size-combined base (line ∷ lines))
        (contains_self key caches.injected_cross_run_keys)

  with_hits-keys :
      (query : String → Option Embedding → Option (List Hit)) (goal key : String)
      (caches : Caches Embedding)
      → (with_hits embed_sync query_cascade query goal key caches).injected_cross_run_keys
        ≡ caches.injected_cross_run_keys
  unfolding with_hits
  with_hits-keys query goal key caches = ground arith

  with_embedding-keys :
      (goal key : String) (caches after : Caches Embedding)
      → with_embedding embed_sync query_cascade goal key caches ≡ some after
      → after.injected_cross_run_keys ≡ caches.injected_cross_run_keys
  unfolding with_embedding
  with_embedding-keys goal key caches after e = ground (arith, e)

  inject_hits-IsInjection :
      (query : String → Option Embedding → Option (List Hit)) (base goal key : String)
      (o : Option (Caches Embedding)) (before : Caches Embedding)
      → ((after : Caches Embedding)
          → o ≡ some after
          → after.injected_cross_run_keys ≡ before.injected_cross_run_keys)
      → IsInjection base key before
          (inject_hits embed_sync query_cascade query base goal key o before)
  unfolding inject_hits
  inject_hits-IsInjection query base goal key none before h =
      base-IsInjection base key before before
  inject_hits-IsInjection query base goal key (some caches) before h =
      let filled = with_hits embed_sync query_cascade query goal key caches in
      let injected =
        inject_lines-IsInjection base key
          (map cross_run_line (get_or [] (lookup_entry key filled.cascade_cache))) filled in
      record {
        bound = injected.bound;
        noted = injected.noted;
        once = λ there. injected.once (
            ap (λ keys. contains keys key) (with_hits-keys query goal key caches ∙ h caches refl)
            ∙ there);
      }

  if-IsInjection :
      (b : Bool) (base key : String) (before : Caches Embedding)
      (result : String × Caches Embedding)
      → IsInjection base key before result
      → IsInjection base key before (if b then (prefix context_cap base, before) else result)
  if-IsInjection true base key before result h = base-IsInjection base key before before
  if-IsInjection false base key before result h = h

  from-IsInjection :
      (query : Option (String → Option Embedding → Option (List Hit))) (s : ContextState)
      (caches : Caches Embedding)
      → IsInjection
          (base_result s)
          (cache_key_of s)
          caches
          (inject_from embed_sync query_cascade query s caches)
  unfolding inject_from
  from-IsInjection none s caches = base-IsInjection (base_result s) (cache_key_of s) caches caches
  from-IsInjection (some query) s caches =
      let goal = get_current_goal_text s in
      let key = cache_key_of s in
      if-IsInjection (eqb s.step 0 || empty goal) (base_result s) key caches _ (
        inject_hits-IsInjection query (base_result s) goal key
          (with_embedding embed_sync query_cascade goal key caches) caches
          (with_embedding-keys goal key caches))

  build-IsInjection :
      (s : ContextState) (caches : Caches Embedding)
      → IsInjection
          (base_result s)
          (cache_key_of s)
          caches
          (build_planner_context_injection embed_sync query_cascade s caches)
  unfolding build_planner_context_injection
  build-IsInjection s caches = from-IsInjection query_cascade s caches

  -- What the planner is told has at most 1500 characters, and of a run's goal it is told what earlier
  -- runs did at most once: of two injections one after the other, one has the base text alone.
  pub inject-once :
      (s : ContextState) (caches : Caches Embedding)
      → let inject = build_planner_context_injection embed_sync query_cascade s in
        let base = prefix context_cap (base_result s) in
        let first = inject caches in
        let second = inject first.1 in
        (size first.0 ≤ context_cap) × ((first.0 ≡ base) ⊎ (second.0 ≡ base))
  inject-once s caches =
      let first = build-IsInjection s caches in
      let second =
        build-IsInjection s (build_planner_context_injection embed_sync query_cascade s caches).1 in
      (first.bound, elim first.noted [ inl e ↦ inl e | inr k ↦ inr (second.once k) ])
