-- ===== src/Graph/Execute/Cache/Laws.antt =====
-- What a write leaves in the memo store for the writes of later runs.
use agentic_workflows.Base.{
  String, ◌≡◌, refl, sym, ap, ◌∙◌, inl, inr, Bool, true, false, not, ◌&&◌, ◌||◌, Option, some, List,
  [], ◌∷◌, arith, ◌==◌, Bool-cases, if◌then◌else◌, contains, eq_iff,
}
use agentic_workflows.Base.Text.{empty, strip}
use agentic_workflows.Values.{Value, Fields, get_str, get}
use agentic_workflows.Memo.Keys.{write_cache_candidates}
use agentic_workflows.Memo.Store.{MemoStore, LookupResult, get_latest}
use agentic_workflows.Memo.Store.Laws.{IsValid}
use agentic_workflows.Memo.Store.Shared.{OnlyRun, latest-put, put-OnlyRun}
use agentic_workflows.Memo.Store.Laws.{put_memo-IsValid}
use agentic_workflows.Graph.Execute.{Session, Env, remember}
use agentic_workflows.Graph.Execute.Cache.{
  inputs, cached_content, cache_input, cache_inputs, cache_write_file_inputs,
}

-- A store with unique keys where the namespace of the cache has no row of another run.
abbrev pub IsShared : MemoStore → Type 0
IsShared m = IsValid m × OnlyRun "shared" "cache" m.rows

empty_path : (path : String) → empty path ≡ true → path ≡ ""
empty_path path e = ground (arith, eq_iff path "")

module _ {W : Type 0} (env : Env W) where
  abbrev latest : String → MemoStore → LookupResult
  latest key m = get_latest env.dumps env.loads env.sha256 env.now key "cache" m

  cache_input-IsShared :
      (k : String) (v : Value) (s : Session W)
      → IsShared s.memos
      → IsShared (cache_input env k v s).memos
  unfolding cache_input remember
  cache_input-IsShared k v s (valid, only) = (
    put_memo-IsValid env.dumps env.loads env.sha256 env.now _ v "write_file_cache" s.run.step ""
        s.memos valid,
    put-OnlyRun env.dumps env.loads env.sha256 env.now "shared" "cache" k v "write_file_cache"
        s.run.step "" s.memos only,
  )

  cache_inputs-IsShared :
      (ks : List String) (v : Value) (s : Session W)
      → IsShared s.memos
      → IsShared (cache_inputs env ks v s).memos
  unfolding cache_inputs
  cache_inputs-IsShared [] v s h = h
  cache_inputs-IsShared (k ∷ ks) v s h =
      cache_inputs-IsShared ks v (cache_input env k v s) (cache_input-IsShared k v s h)

  latest-cache_input :
      (k key : String) (v : Value) (s : Session W)
      → IsShared s.memos
      → (latest key (cache_input env k v s).memos).value
        ≡ (if key == k then some (env.loads (env.dumps v)) else (latest key s.memos).value)
  unfolding cache_input remember
  latest-cache_input k key v s (valid, only) =
      latest-put env.dumps env.loads env.sha256 env.now "shared" "cache" k key v "write_file_cache"
        s.run.step "" s.memos valid only

  latest-cache_inputs :
      (ks : List String) (key : String) (v : Value) (s : Session W)
      → IsShared s.memos
      → (latest key (cache_inputs env ks v s).memos).value
        ≡ (if contains ks key then some (env.loads (env.dumps v)) else (latest key s.memos).value)
  unfolding cache_inputs contains
  latest-cache_inputs [] key v s h = refl
  latest-cache_inputs (k ∷ ks) key v s h =
      let once = latest-cache_input k key v s h in
      let rest =
        latest-cache_inputs ks key v (cache_input env k v s) (cache_input-IsShared k v s h) in
      ground arith

  no_candidates : (path : String) → empty path ≡ true → write_cache_candidates path ≡ []
  unfolding write_cache_candidates strip
  no_candidates path e = rw (empty_path path e) refl

  not_kept :
      (path content key : String)
      → (empty path || empty content) ≡ true
      → (not (empty content) && contains (write_cache_candidates path) key) ≡ false
  unfolding contains
  not_kept path content key e = elim (Bool-cases (empty path)) [
    | inl none_left ↦ rw (no_candidates path none_left) (ground arith)
    | inr some_left ↦ ground arith
  ]

  by_value : (l m : LookupResult) → l.value ≡ m.value → cached_content l ≡ cached_content m
  unfolding cached_content
  by_value l m e = ap (λ v. cached_content (record l { value = v })) e

  -- The content of inputs that were kept.
  kept_content :
      (l m : LookupResult) (path content : String) (kept : Bool)
      → empty content ≡ false
      → l.value ≡ (if kept then some (inputs path content) else m.value)
      → cached_content l ≡ (if kept then some content else cached_content m)
  unfolding cached_content get
  kept_content l m path content true e h =
      ap (λ v. cached_content (record l { value = v })) h ∙ rw e refl
  kept_content l m path content false e h = by_value l m h

  -- A write with a path and a content is kept for every run: from then on the newest cached input under
  -- each candidate key of its path is that content, and under every other key what it was; a write
  -- without a path or a content changes none. This asks of the store that the cache's namespace has no
  -- row of a run but `shared`, which stays so, and of JSON that the inputs are read back.
  pub cached_content-cache_write :
      (args : Fields) (s : Session W) (key : String)
      → IsShared s.memos
      → env.loads (env.dumps (inputs (strip (get_str "" "path" args)) (get_str "" "content" args)))
        ≡ inputs (strip (get_str "" "path" args)) (get_str "" "content" args)
      → IsShared (cache_write_file_inputs env args s).memos
        × (cached_content (latest key (cache_write_file_inputs env args s).memos) ≡ (
            if not (empty (get_str "" "content" args))
              && contains (write_cache_candidates (strip (get_str "" "path" args))) key
            then some (get_str "" "content" args)
            else cached_content (latest key s.memos)))
  unfolding cache_write_file_inputs
  cached_content-cache_write args s key h json =
      let path = strip (get_str "" "path" args) in
      let content = get_str "" "content" args in
      let keys = write_cache_candidates path in
      let choice : Bool → Option String =
        λ b. if b then some content else cached_content (latest key s.memos) in
      elim (Bool-cases (empty path || empty content)) [
        | inl left ↦ rw left (h, ap choice (sym (not_kept path content key left)))
        | inr kept ↦ rw kept (
          cache_inputs-IsShared keys (inputs path content) s h,
          kept_content (latest key (cache_inputs env keys (inputs path content) s).memos)
                (latest key s.memos) path content (contains keys key) (ground arith)
                (latest-cache_inputs keys key (inputs path content) s h
                  ∙ ap (λ v. if contains keys key then some v else (latest key s.memos).value) json)
              ∙ ap choice (ground arith),
        )
      ]
