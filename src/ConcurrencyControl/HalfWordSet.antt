-- ===== src/ConcurrencyControl/HalfWordSet.antt =====
-- src/util/32bit_set.hpp at the one size that is used, `HalfWordSet<4>`: a word of eight counters of four
-- bits, which stand for the versions of hashed items.
pub mod Order
use lineair_db.Base.{
  ℕ, zero, suc, ◌+◌, ◌-◌, ◌*◌, ◌/◌, ◌%◌, ◌^◌, min, max, bit_and, bit_or, bit_xor, Bool, true, false,
  ◌&&◌, ◌||◌,
}
use lineair_db.Base.{List, [], ◌∷◌, ltb, leb, ◌==◌, if◌then◌else◌}

abbrev pub counter_size : ℕ
counter_size = 4

abbrev pub array_size : ℕ
array_size = 8

abbrev pub max_version : ℕ
max_version = 15

-- The loop of `MakeMask`, `n` bits from the bit `j` on.
unfoldable pub mask_loop : ℕ → ℕ → ℕ → ℕ
mask_loop zero j r = r
mask_loop (suc n) j r = mask_loop n (j + 1) (bit_or r (2 ^ j))

unfoldable pub make_mask : ℕ → ℕ
unfolding mask_loop
make_mask i = mask_loop counter_size (i * counter_size) 0

-- The masks of `n` slots from the slot `i` on.
unfoldable pub make_masks : ℕ → ℕ → List ℕ
unfolding make_mask
make_masks zero i = []
make_masks (suc n) i = make_mask i ∷ make_masks n (i + 1)

unfoldable pub masks : List ℕ
unfolding make_masks
masks = make_masks array_size 0

unfoldable pub hash_step : ℕ → ℕ → ℕ
hash_step hash byte = bit_xor (16777619 * hash % 2 ^ 32) byte

-- `Hash` of the four bytes of a seed, the lowest first.
unfoldable pub hash : ℕ → ℕ
unfolding hash_step
hash seed =
    hash_step
      (hash_step (hash_step (hash_step 2166136261 (seed % 256)) (seed / 2 ^ 8 % 256))
        (seed / 2 ^ 16 % 256))
      (seed / 2 ^ 24 % 256)

unfoldable pub get_by_slot : ℕ → ℕ → ℕ
get_by_slot bitarray slot = bit_and (bitarray / 2 ^ (counter_size * slot)) max_version

-- `~` of a 32-bit word is written as a difference.
unfoldable pub reset : ℕ → ℕ → ℕ
reset bitarray slot = bit_and bitarray (2 ^ 32 - 1 - max_version * 2 ^ (counter_size * slot))

unfoldable pub set : ℕ → ℕ → ℕ → ℕ
set bitarray slot version =
    bit_or (reset bitarray slot) (min version max_version * 2 ^ (counter_size * slot))

unfoldable pub put : ℕ → ℕ → ℕ → ℕ
put bitarray seed version = set bitarray (hash seed % array_size) version

unfoldable pub get : ℕ → ℕ → ℕ
get bitarray seed = get_by_slot bitarray (hash seed % array_size)

unfoldable pub hashptr : ℕ → ℕ
hashptr pointer = pointer / 2 ^ 4 % 2 ^ 32

-- The seed of a pointer is its hash by `Hashptr`.
unfoldable pub put_higherside : ℕ → ℕ → ℕ → ℕ
put_higherside bitarray seed version =
    if leb version (get bitarray seed) then bitarray else put bitarray seed version

unfoldable pub put_lowerside : ℕ → ℕ → ℕ → ℕ
put_lowerside bitarray seed version =
    if leb (get bitarray seed) version then bitarray else put bitarray seed version

-- `Merge`: of each slot the lower version that is not zero.
unfoldable pub merged_slot : ℕ → ℕ → ℕ
merged_slot lhs_slot rhs_slot =
    if lhs_slot == 0 && rhs_slot == 0
    then 0
    else (if lhs_slot == 0 || rhs_slot == 0 then max lhs_slot rhs_slot else min lhs_slot rhs_slot)

unfoldable pub merge_loop : List ℕ → ℕ → ℕ → ℕ → ℕ
unfolding merged_slot
merge_loop [] lhs rhs bf = bf
merge_loop (mask ∷ masks) lhs rhs bf =
    merge_loop masks lhs rhs (bit_or bf (merged_slot (bit_and lhs mask) (bit_and rhs mask)))

unfoldable pub merge : ℕ → ℕ → ℕ
unfolding merge_loop
merge lhs rhs = merge_loop masks lhs rhs 0

-- The loops of `IsGreaterThan` and `IsGreaterOrEqualThan`, which differ in the last test.
unfoldable pub greater_loop : (ℕ → ℕ → Bool) → List ℕ → ℕ → ℕ → Bool
greater_loop below [] lhs rhs = false
greater_loop below (mask ∷ masks) lhs rhs =
    let rest = greater_loop below masks lhs rhs in
    if bit_and lhs mask == 0
    then rest
    else if bit_and rhs mask == 0
    then rest
    else if bit_and lhs mask == mask
    then true
    else if below (bit_and rhs mask) (bit_and lhs mask)
    then true
    else rest

unfoldable pub is_greater_than : ℕ → ℕ → Bool
unfolding greater_loop
is_greater_than lhs rhs = if lhs == 0 || rhs == 0 then false else greater_loop ltb masks lhs rhs

unfoldable pub is_greater_or_equal_than : ℕ → ℕ → Bool
unfolding greater_loop
is_greater_or_equal_than lhs rhs =
    if lhs == 0 || rhs == 0 then false else greater_loop leb masks lhs rhs
