-- ===== src/Types/PackedKeys/View.antt =====
-- src/types/packed_primary_keys.hpp, `PackedPrimaryKeysView`: iteration and search over a packed list.
-- Two iterators of one list are at the same byte if the same number of bytes stands before the limit.
pub mod Laws
use lineair_db.Base.{
  ℕ, zero, suc, ◌-◌, Bool, true, false, not, ◌&&◌, none, some, List, [], ◌∷◌, ◌++◌,
}
use lineair_db.Base.{length, ltb, ◌==◌, if◌then◌else◌}
use lineair_db.Types.Outcome.{Outcome, value, out_of_fuel, ◌>>=◌, ◌>>◌, assert, map_value}
use lineair_db.Types.Keys.{Key, key_eq, key_lt}
use lineair_db.Types.Records.{Record, record_key, decode_record}
use lineair_db.Types.PackedKeys.{PackedPrimaryKeys, Ptr}

-- The bytes from `cursor_` up to `limit_`, and `remaining_`.
pub record Iterator : Type 0 where
  pub cursor : List ℕ
  pub left : ℕ

-- `operator==`, `operator*` and `operator++`.
pub iterator_eq : Iterator → Iterator → Bool
iterator_eq a b = (length a.cursor == length b.cursor) && (a.left == b.left)

pub deref : Iterator → Outcome Key
deref it = map_value record_key (decode_record it.cursor)

pub advance : Iterator → Outcome Iterator
advance it = do
  assert (not (it.left == 0))
  r ← decode_record it.cursor
  value (record { cursor = r.next; left = it.left - 1 })

pub size : Ptr → ℕ
size none = 0
size (some keys) = keys.count

pub begin : Ptr → Iterator
begin none = record { cursor = []; left = 0 }
begin (some keys) = record { cursor = keys.records; left = keys.count }

pub end : Ptr → Iterator
end keys = record { cursor = []; left = 0 }

-- Each round of a loop over a view advances, which asserts that a key is left: the fuel is the
-- number of keys left, and one round for the end.
lower_bound_loop : ℕ → Ptr → Iterator → Key → Outcome Iterator
lower_bound_loop zero keys it key = out_of_fuel
lower_bound_loop (suc fuel) keys it key =
    if iterator_eq it (end keys) then value (end keys) else (do
      k ← deref it
      let rest = advance it >>= λ next. lower_bound_loop fuel keys next key
      if not (key_lt k key) then value it else rest)

pub lower_bound : Ptr → Key → Outcome Iterator
unfolding lower_bound_loop
lower_bound keys key = lower_bound_loop (suc (size keys)) keys (begin keys) key

pub contains : Ptr → Key → Outcome Bool
contains keys key = do
  it ← lower_bound keys key
  if iterator_eq it (end keys) then value false else map_value (λ k. key_eq k key) (deref it)

equals_loop : ℕ → Ptr → Iterator → Iterator → Outcome Bool
equals_loop zero lhs l r = out_of_fuel
equals_loop (suc fuel) lhs l r = if iterator_eq l (end lhs) then value true else (do
  j ← deref l
  k ← deref r
  let rest = advance l >>= λ l'. advance r >>= λ r'. equals_loop fuel lhs l' r'
  if not (key_eq j k) then value false else rest)

pub equals : Ptr → Ptr → Outcome Bool
unfolding equals_loop
equals lhs rhs =
    if not (size lhs == size rhs)
    then value false
    else equals_loop (suc (size lhs)) lhs (begin lhs) (begin rhs)

-- `DataItem::primary_keys_vector` of src/types/data_item.hpp.
vector_loop : ℕ → Ptr → Iterator → List Key → Outcome (List Key)
vector_loop zero view it keys = out_of_fuel
vector_loop (suc fuel) view it keys =
    if iterator_eq it (end view)
    then value keys
    else (do k ← deref it; next ← advance it; vector_loop fuel view next (keys ++ (k ∷ [])))

pub primary_keys_vector : Ptr → Outcome (List Key)
unfolding vector_loop
primary_keys_vector view = vector_loop (suc (size view)) view (begin view) []
