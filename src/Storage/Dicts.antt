-- ===== src/Storage/Dicts.antt =====
-- storage/sqlite.py, `dict(result_value)`: the dict that Python makes of a value, or what it raises. A
-- key that is no text stands as json.dumps writes it.
use agentic_workflows.Base.{String, Option, none, some, if◌then◌else◌}
use agentic_workflows.Values.{
  Value, null, bool, int, str, arr, obj, Items, nil, cons, Fields, end, field, put, to_str,
}
use agentic_workflows.Storage.{type_error, value_error, SqlResult, ok, raised}

-- The items of an iterable value; none for the others.
unfoldable pub items_of : Value → Option Items
items_of (arr vs) = some vs
items_of (str s) = some (chars s)
  where
    chars : String → Items
    chars String.[] = nil
    chars (String.◌∷◌ c s) = cons (str (String.◌∷◌ c "")) (chars s)
items_of (obj fs) = some (keys fs)
  where
    keys : Fields → Items
    keys end = nil
    keys (field k v fs) = cons (str k) (keys fs)
items_of v = none

-- A key, unless it cannot be hashed.
key_of : Value → SqlResult String
key_of null = ok "null"
key_of (bool b) = ok (if b then "true" else "false")
key_of (int z) = ok (to_str (int z))
key_of (str s) = ok s
key_of v = raised type_error

-- The dict with an entry that two items make.
with_pair : Items → Fields → SqlResult Fields
unfolding key_of put
with_pair (cons k (cons v nil)) d = elim (key_of k) [
  | raised e ↦ raised e
  | ok key ↦ ok (put key v d)
]
with_pair items d = raised value_error

with_entry : Value → Fields → SqlResult Fields
unfolding items_of with_pair
with_entry entry d = elim (items_of entry) [
  | none ↦ raised type_error
  | some items ↦ with_pair items d
]

entries_from : Items → Fields → SqlResult Fields
unfolding with_entry
entries_from nil d = ok d
entries_from (cons entry entries) d = elim (with_entry entry d) [
  | raised e ↦ raised e
  | ok more ↦ entries_from entries more
]

unfoldable pub dict_of : Value → SqlResult Fields
unfolding items_of entries_from
dict_of (obj d) = ok d
dict_of v = elim (items_of v) [ none ↦ raised type_error | some entries ↦ entries_from entries end ]
