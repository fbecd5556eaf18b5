-- ===== src/Context/Cache.antt =====
-- orchestration/langgraph/context_manager.py: the caches that forget their oldest half when full.
use agentic_workflows.Base.{
  ◌/◌, ℕ, suc, ◌≤◌, String, ◌≡◌, refl, Option, none, some, List, [], ◌∷◌, arith, ltb, leb,
  if◌then◌else◌, length, ◌==◌, eq_iff,
}
use agentic_workflows.Base.{drop}
use agentic_workflows.Base.{length-drop}

abbrev pub cache_max_size : ℕ
cache_max_size = 200

module _ {ℓ} {V : Type ℓ} where
  unfoldable pub lookup_entry : String → List (String × V) → Option V
  lookup_entry key [] = none
  lookup_entry key ((k, v) ∷ cache) =
      let rest = lookup_entry key cache in if k == key then some v else rest

  -- cache[key] = value
  unfoldable pub put_entry : String → V → List (String × V) → List (String × V)
  put_entry key value [] = (key, value) ∷ []
  put_entry key value ((k, v) ∷ cache) =
      let rest = put_entry key value cache in
      if k == key then (key, value) ∷ cache else (k, v) ∷ rest

  -- The cache without its oldest half, when it is full.
  unfoldable pub make_room : List (String × V) → List (String × V)
  make_room cache =
      if leb cache_max_size (length cache) then drop (cache_max_size / 2) cache else cache

  unfoldable pub cache_put : String → V → List (String × V) → List (String × V)
  unfolding make_room put_entry
  cache_put key value cache = put_entry key value (make_room cache)

  lookup-put :
      (key j : String) (v : V) (cache : List (String × V))
      → lookup_entry j (put_entry key v cache) ≡ (if key == j then some v else lookup_entry j cache)
  unfolding lookup_entry put_entry
  lookup-put key j v [] = refl
  lookup-put key j v ((k, w) ∷ cache) =
      ground (arith, eq_iff key j, eq_iff k key, eq_iff k j, lookup-put key j v cache)

  length-put :
      (key : String) (v : V) (cache : List (String × V))
      → length (put_entry key v cache) ≤ suc (length cache)
  unfolding put_entry
  length-put key v [] = omega arith
  length-put key v ((k, w) ∷ cache) = ground (arith, length-put key v cache)

  cache_put-eq :
      (key : String) (v : V) (cache : List (String × V))
      → cache_put key v cache ≡ put_entry key v (make_room cache)
  unfolding cache_put
  cache_put-eq key v cache = refl

  make_room_lem :
      (cache : List (String × V))
      → length cache ≤ cache_max_size
      → (suc (length (make_room cache)) ≤ cache_max_size)
        × (make_room cache ≡ (if ltb (length cache) 200 then cache else drop 100 cache))
  unfolding make_room
  make_room_lem cache h = ground (arith, h, length-drop 100 cache)

  -- A cache within its size stays within it, an entry that was just put is found, and any other entry
  -- is found as before unless the cache was full, where the newer half is what is left.
  pub cache_put_lem :
      (key j : String) (v : V) (cache : List (String × V))
      → length cache ≤ cache_max_size
      → (length (cache_put key v cache) ≤ cache_max_size)
        × (lookup_entry j (cache_put key v cache) ≡ (
            if key == j
            then some v
            else if ltb (length cache) 200
            then lookup_entry j cache
            else lookup_entry j (drop 100 cache)))
  cache_put_lem key j v cache h =
      let room = make_room_lem cache h in
      ground (
        arith,
        cache_put-eq key v cache,
        length-put key v (make_room cache),
        lookup-put key j v (make_room cache),
        room.0,
        room.1,
      )
