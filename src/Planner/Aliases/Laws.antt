-- ===== src/Planner/Aliases/Laws.antt =====
-- Argument names are settled by one pass of the aliases.
use agentic_workflows.Base.{
  String, ◌≡◌, refl, Bool, true, false, not, ◌&&◌, ◌||◌, Option, none, some, List, [], ◌∷◌, arith,
  if◌then◌else◌, ◌==◌, eq_iff, eq_refl,
}
use agentic_workflows.Values.{Value, Fields, get, put, has, remove, is_str, is_list}
use agentic_workflows.Values.{get-put, get-remove, has-eq-get}
use agentic_workflows.Planner.Aliases.{
  Rename, Kind, move, any_kind, list_kind, str_kind, of_kind, fires, rename, rename_all, renames,
  renames_for, normalize_tool_args,
}

-- No alias is a key.
abbrev apart : Rename → Rename → Bool
apart r q = not (r.key == q.alias) && not (q.key == r.alias)

unfoldable apart_all : List Rename → Rename → Bool
apart_all [] r = true
apart_all (q ∷ qs) r = apart q r && apart_all qs r

unfoldable separate : List Rename → Bool
unfolding apart_all
separate [] = true
separate (r ∷ rs) = apart r r && apart_all rs r && separate rs

of_kind-none : (k : Kind) → of_kind k none ≡ false
unfolding of_kind is_list is_str
of_kind-none any_kind = refl
of_kind-none list_kind = refl
of_kind-none str_kind = refl

-- What moving a value to its key leaves to be read.
get-move :
    (k a j : String) (v : Value) (d : Fields)
    → get j (put k v (remove a d)) ≡ (if k == j then some v else if a == j then none else get j d)
get-move k a j v d = ground (arith, get-put k j v (remove a d), get-remove a j d)

has-move :
    (k a j : String) (v : Value) (d : Fields)
    → has j (put k v (remove a d)) ≡ (k == j || (not (a == j) && has j d))
has-move k a j v d =
    ground (arith, has-eq-get j (put k v (remove a d)), has-eq-get j d, get-move k a j v d)

-- A test reads only whether the key is there and what the alias holds.
move-fires :
    (r q : Rename) (v : Value) (d : Fields)
    → apart r q ≡ true
    → fires r d ≡ false
    → fires r (put q.key v (remove q.alias d)) ≡ false
unfolding fires
move-fires r q v d h k = ground (
  arith,
  get-move q.key q.alias r.alias v d,
  has-move q.key q.alias r.key v d,
  of_kind-none r.kind,
  eq_iff r.key q.alias,
  eq_iff q.alias r.key,
  h,
  k,
)

rename-fires :
    (r q : Rename) (d : Fields)
    → apart r q ≡ true
    → fires r d ≡ false
    → fires r (rename q d) ≡ false
unfolding rename move fires
rename-fires r q d h k = ground (arith, moved (get q.alias d), k)
  where
    moved : (v : Option Value) → fires r (move q v d) ≡ false
    moved none = k
    moved (some v) = move-fires r q v d h k

rename-fires_self : (r : Rename) (d : Fields) → apart r r ≡ true → fires r (rename r d) ≡ false
unfolding rename fires move
rename-fires_self r d h = ground (arith, moved (get r.alias d))
  where
    moved : (v : Option Value) → of_kind r.kind v ≡ true → fires r (move r v d) ≡ false
    moved none k = ground (arith, of_kind-none r.kind)
    moved (some v) k = ground (arith, has-move r.key r.alias r.key v d, eq_refl r.key)

rename_all-fires :
    (rs : List Rename) (r : Rename) (d : Fields)
    → apart_all rs r ≡ true
    → fires r d ≡ false
    → fires r (rename_all rs d) ≡ false
unfolding rename_all apart_all
rename_all-fires [] r d h k = k
rename_all-fires (q ∷ qs) r d h k =
    ground (arith, rename_all-fires qs r (rename q d), rename-fires r q d)

quiet : List Rename → Fields → Bool
quiet [] d = true
quiet (r ∷ rs) d = not (fires r d) && quiet rs d

rename_all-quiet :
    (rs : List Rename) (d : Fields) → separate rs ≡ true → quiet rs (rename_all rs d) ≡ true
unfolding rename_all separate quiet
rename_all-quiet [] d h = refl
rename_all-quiet (r ∷ rs) d h = ground (
  arith,
  rename_all-fires rs r (rename r d),
  rename-fires_self r d,
  rename_all-quiet rs (rename r d),
)

rename_all_of_quiet : (rs : List Rename) (d : Fields) → quiet rs d ≡ true → rename_all rs d ≡ d
unfolding rename_all quiet rename
rename_all_of_quiet [] d h = refl
rename_all_of_quiet (r ∷ rs) d h = ground (arith, rename_all_of_quiet rs d)

separate_table : List (List String × List Rename) → Bool
separate_table [] = true
separate_table ((names, rules) ∷ table) = separate rules && separate_table table

renames_for-separate :
    (table : List (List String × List Rename)) (tool_name : String)
    → separate_table table ≡ true
    → separate (renames_for table tool_name) ≡ true
unfolding separate_table renames_for separate
renames_for-separate [] tool_name h = refl
renames_for-separate ((names, rules) ∷ table) tool_name h =
    ground (arith, renames_for-separate table tool_name)

-- Normalizing the arguments of any tool call twice is normalizing them once: one pass leaves no alias
-- that a later pass would still move to its key.
pub normalize_tool_args_idem :
    (tool_name : String) (args : Fields)
    → normalize_tool_args tool_name (normalize_tool_args tool_name args)
      ≡ normalize_tool_args tool_name args
unfolding normalize_tool_args separate_table separate apart_all
normalize_tool_args_idem tool_name args =
    rename_all_of_quiet (renames_for renames tool_name)
      (rename_all (renames_for renames tool_name) args)
      (rename_all-quiet (renames_for renames tool_name) args
        (renames_for-separate renames tool_name refl))
