-- ===== src/Values.antt =====
-- The values that the program passes about: JSON values and the dicts of tool arguments and results.
-- A dict is its list of fields in insertion order. Floats are not represented.
use Prim.Native.Char.{code}
use Prim.Native.String.{◌++◌}
use agentic_workflows.Base.{
  ℕ, zero, suc, String, ◌≡◌, refl, Bool, true, false, not, ◌&&◌, ◌||◌, Option, none, some, arith,
  ltb, eqb, if◌then◌else◌, ◌==◌, eq_iff,
}
use agentic_workflows.Base.Int.{ℤ, pos, negsuc}
use agentic_workflows.Base.Text.{print_nat, count_char, empty}

mutual
  pub data Value : Type 0 where
    null : Value
    bool : Bool → Value
    int : ℤ → Value
    str : String → Value
    arr : Items → Value
    obj : Fields → Value

  pub data Fields : Type 0 where
    end : Fields
    field : String → Value → Fields → Fields

  pub data Items : Type 0 where
    nil : Items
    cons : Value → Items → Items

-- d.get(k)
unfoldable pub get : String → Fields → Option Value
get k end = none
get k (field j v fs) = if j == k then some v else get k fs

-- d[k] = v: in its place where k is there, else at the end
unfoldable pub put : String → Value → Fields → Fields
put k v end = field k v end
put k v (field j w fs) = if j == k then field k v fs else field j w (put k v fs)

-- `k in d`
unfoldable pub has : String → Fields → Bool
has k end = false
has k (field j v fs) = j == k || has k fs

-- d.pop(k), without its result
unfoldable pub remove : String → Fields → Fields
remove k end = end
remove k (field j v fs) = let rest = remove k fs in if j == k then rest else field j v rest

-- d.setdefault(k, v)
unfoldable pub set_default : String → Value → Fields → Fields
unfolding has put
set_default k v fs = if has k fs then fs else put k v fs

-- bool(v)
unfoldable pub truthy : Value → Bool
truthy null = false
truthy (bool b) = b
truthy (int (pos zero)) = false
truthy (int n) = true
truthy (str s) = not (empty s)
truthy (arr nil) = false
truthy (arr (cons v vs)) = true
truthy (obj end) = false
truthy (obj (field k v fs)) = true

unfoldable pub print_int : ℤ → String
print_int (pos n) = print_nat n
print_int (negsuc n) = "-" ++ print_nat (suc n)

escape : ℕ → String → String
escape q String.[] = ""
escape q (String.◌∷◌ c s) =
    let n = code c in
    (if eqb n 92
      then "\\\\"
      else if eqb n q
      then String.◌∷◌ "\\" (String.◌∷◌ c "")
      else if eqb n 10
      then "\\n"
      else if eqb n 13
      then "\\r"
      else if eqb n 9
      then "\\t"
      else String.◌∷◌ c "")
    ++ escape q s

-- repr(s): in single quotes, unless the text has those and no double quotes
unfoldable pub quoted : String → String
unfolding escape count_char
quoted s =
    if ltb 0 (count_char "'" s) && eqb (count_char "\"" s) 0
    then "\"" ++ escape 34 s ++ "\""
    else "'" ++ escape 39 s ++ "'"

mutual
  unfolding print_int quoted

  repr : Value → String
  repr null = "None"
  repr (bool true) = "True"
  repr (bool false) = "False"
  repr (int n) = print_int n
  repr (str s) = quoted s
  repr (arr vs) = "[" ++ repr_items vs ++ "]"
  repr (obj fs) = "{" ++ repr_fields fs ++ "}"

  repr_items : Items → String
  repr_items nil = ""
  repr_items (cons v nil) = repr v
  repr_items (cons v (cons w vs)) = repr v ++ ", " ++ repr_items (cons w vs)

  repr_fields : Fields → String
  repr_fields end = ""
  repr_fields (field k v end) = quoted k ++ ": " ++ repr v
  repr_fields (field k v (field j w fs)) =
      quoted k ++ ": " ++ repr v ++ ", " ++ repr_fields (field j w fs)

-- str(v), for printable texts
unfoldable pub to_str : Value → String
unfolding repr
to_str (str s) = s
to_str v = repr v

-- str(d.get(k, default))
unfoldable pub get_str : String → String → Fields → String
unfolding get to_str
get_str default k fs = elim (get k fs) [ none ↦ default | some v ↦ to_str v ]

-- dict(d.get(k, {})), where the value is a dict
unfoldable pub get_dict : String → Fields → Fields
unfolding get
get_dict k fs = as_dict (get k fs)
  where
    as_dict : Option Value → Fields
    as_dict (some (obj d)) = d
    as_dict o = end

-- `isinstance(d.get(k), str)`
unfoldable pub is_str : Option Value → Bool
is_str (some (str s)) = true
is_str o = false

-- `isinstance(d.get(k), list)`
unfoldable pub is_list : Option Value → Bool
is_list (some (arr vs)) = true
is_list o = false

-- What a write leaves to be read.
pub get-put :
    (k j : String) (v : Value) (fs : Fields)
    → get j (put k v fs) ≡ (if k == j then some v else get j fs)
unfolding get put
get-put k j v end = refl
get-put k j v (field i w fs) = ground (arith, eq_iff k j, eq_iff i k, eq_iff i j, get-put k j v fs)

pub get-remove :
    (k j : String) (fs : Fields) → get j (remove k fs) ≡ (if k == j then none else get j fs)
unfolding get remove
get-remove k j end = ground arith
get-remove k j (field i w fs) =
    ground (arith, eq_iff k j, eq_iff i k, eq_iff i j, get-remove k j fs)

-- A key is there exactly when a read finds it.
pub has-eq-get :
    (k : String) (fs : Fields) → has k fs ≡ elim (get k fs) [ none ↦ false | some v ↦ true ]
unfolding has get
has-eq-get k end = refl
has-eq-get k (field i w fs) = ground (arith, has-eq-get k fs)

to_str_test :
    to_str
      (obj (field "a" (int (negsuc 4)) (field "b" (arr (cons (str "it's") (cons null nil))) end)))
    ≡ "{'a': -5, 'b': [\"it's\", None]}"
unfolding to_str print_nat
to_str_test = refl
