-- ===== src/Types/Records/Varint.antt =====
-- The varint of src/types/packed_primary_keys.hpp: its bytes, its size, and what `DecodeRecord`
-- reads back.
use mathlib.Core.Logic.{dif_pos, dif_neg}
use mathlib.Core.WellFounded.{Acc}
use native.Mathlib.Bridge.{le_prop}
use native.Mathlib.Nat.{div-add-mod}
use native.Mathlib.Numerals.{towards_suc}
use lineair_db.Base.{
  ℕ, zero, suc, ◌+◌, ◌*◌, ◌/◌, ◌%◌, ◌^◌, ◌≤◌, ◌<◌, bit_and, bit_or, ◌≡◌, arith, ◌∙◌, dec_le, lt→ltb,
}
use lineair_db.Base.{List, ◌∷◌, ◌++◌, All, length, drop, leb, if◌then◌else◌, ap}
use lineair_db.Base.Bits.{bit_and-mask, bit_and-bit, bit_or-shifted}
use lineair_db.Base.Order.{lt_wf}
use lineair_db.Types.Outcome.{Outcome, value, assertion}
use lineair_db.Types.Keys.{IsByte}
use lineair_db.Types.Records.{
  Record, decode_loop, write_varint_loop, write_varint, varint_size_loop,
}
use lineair_db.Types.Records.{varint_size, shift_shrinks}

-- The two forms of a byte that `WriteVarint` stores.
last_group : (n : ℕ) → n < 128 → (bit_and (n % 256) 0x7f ≡ n) × (bit_and (n % 256) 0x80 ≡ 0)
last_group n h = omega (arith, bit_and-mask 7 (n % 256), bit_and-bit 7 (n % 256))

abbrev inner_byte : ℕ → ℕ
inner_byte n = bit_or (bit_and n 0x7f) 0x80 % 256

inner_byte_lem : (n : ℕ) → inner_byte n ≡ n % 128 + 128
inner_byte_lem n =
    omega (
      arith,
      bit_and-mask 7 n,
      bit_or-shifted 7 (bit_and n 0x7f) 1 (omega (arith, bit_and-mask 7 n)),
    )

inner_group :
    (n : ℕ) → (bit_and (inner_byte n) 0x7f ≡ n % 128) × (bit_and (inner_byte n) 0x80 ≡ 128)
inner_group n =
    omega (arith, inner_byte_lem n, bit_and-mask 7 (inner_byte n), bit_and-bit 7 (inner_byte n))

-- What `DecodeRecord` returns once the length is read.
abbrev pub found : List ℕ → ℕ → List ℕ → Outcome Record
found start len cursor =
    if leb len (length cursor)
    then value (record { start = start; val = cursor; next = drop len cursor; len = len })
    else assertion

shift_seven : (s : ℕ) → 2 ^ (s + 7) ≡ 128 * 2 ^ s
shift_seven s = simp towards_suc (omega arith)

-- A group of seven bits joins the length read so far.
join :
    (len group shift : ℕ)
    → len < 2 ^ shift
    → group * 2 ^ shift < 2 ^ 64
    → bit_or len (group * 2 ^ shift % 2 ^ 64) ≡ len + group * 2 ^ shift
join len group shift h fits = ground (arith, bit_or-shifted shift len group)

-- The bits of `n` above `shift` in two parts.
split_group : (n shift : ℕ) → n * 2 ^ shift ≡ n % 128 * 2 ^ shift + n / 128 * 2 ^ (shift + 7)
split_group n shift = omega (
  arith,
  ap (λ (t : ℕ). t * 2 ^ shift) (div-add-mod n 128),
  ap (λ (t : ℕ). n / 128 * t) (shift_seven shift),
)

join_lt : (n len shift : ℕ) → len < 2 ^ shift → len + n % 128 * 2 ^ shift < 2 ^ (shift + 7)
join_lt n len shift h = grind (arith, shift_seven shift)

-- One byte of the loop.
decode_last :
    (start rest : List ℕ) (n len shift : ℕ)
    → n < 128
    → len < 2 ^ shift
    → n * 2 ^ shift < 2 ^ 64
    → decode_loop start ((n % 256) ∷ rest) len shift ≡ found start (len + n * 2 ^ shift) rest
unfolding decode_loop
decode_last start rest n len shift small low fits =
    rw ((last_group n small).0, (last_group n small).1, join len n shift low fits)

decode_inner :
    (start rest : List ℕ) (n len shift : ℕ)
    → shift + 7 < 64
    → len < 2 ^ shift
    → n % 128 * 2 ^ shift < 2 ^ 64
    → decode_loop start (inner_byte n ∷ rest) len shift
      ≡ decode_loop start rest (len + n % 128 * 2 ^ shift) (shift + 7)
unfolding decode_loop
decode_inner start rest n len shift room low fits = rw (
  (inner_group n).0,
  (inner_group n).1,
  join len (n % 128) shift low fits,
  lt→ltb (shift + 7) 64 room,
)

-- `k + 1` groups are still to be read, and the loop stands at bit `shift`.
decode_loop-write :
    (k n len shift : ℕ) (w : Acc ◌<◌ n) (start rest : List ℕ)
    → n < 128 ^ suc k
    → shift + 7 * k < 64
    → len < 2 ^ shift
    → n * 2 ^ shift < 2 ^ 64
    → decode_loop start (write_varint_loop n w ++ rest) len shift
      ≡ found start (len + n * 2 ^ shift) rest
unfolding write_varint_loop
decode_loop-write zero n len shift (Acc.intro _ smaller) start rest small room low fits =
    ground (arith, decode_last start rest n len shift)
decode_loop-write (suc k) n len shift (Acc.intro _ smaller) start rest small room low fits =
    elim (dec_le 0x80 n) [
      | yes h ↦ rw (dif_pos (dec_le 0x80 n) le_prop h) (
          decode_inner start _ n len shift (omega arith) low (omega (arith, split_group n shift))
          ∙ decode_loop-write k (n / 128) (len + n % 128 * 2 ^ shift) (shift + 7)
              (smaller _ (shift_shrinks n h)) start rest (omega arith) (omega arith)
              (join_lt n len shift low) (omega (arith, split_group n shift))
          ∙ ap (λ (t : ℕ). found start t rest) (omega (arith, split_group n shift)))
      | no h ↦
          rw (dif_neg (dec_le 0x80 n) h) (decode_last start rest n len shift (omega arith) low fits)
    ]

-- The size that `VarintSize` counts is the number of bytes that `WriteVarint` stores.
varint_size_loop-write :
    (n size : ℕ) (w : Acc ◌<◌ n)
    → varint_size_loop n size w + 1 ≡ size + length (write_varint_loop n w)
unfolding varint_size_loop write_varint_loop
varint_size_loop-write n size (Acc.intro _ smaller) = elim (dec_le 0x80 n) [
  | yes h ↦
      rw (dif_pos (dec_le 0x80 n) le_prop h, dif_pos (dec_le 0x80 n) le_prop h)
        (omega (arith, varint_size_loop-write (n / 128) (size + 1) (smaller _ (shift_shrinks n h))))
  | no h ↦ rw (dif_neg (dec_le 0x80 n) h, dif_neg (dec_le 0x80 n) h) (omega arith)
]

-- `VarintSize` of a number is the number of bytes that `WriteVarint` stores for it.
pub varint_size-write : (n : ℕ) → varint_size n ≡ length (write_varint n)
unfolding varint_size write_varint
varint_size-write n = omega (arith, varint_size_loop-write n 1 (lt_wf.apply n))

-- `k + 1` groups fit `k + 1` bytes.
write_varint_loop-shape :
    (k n : ℕ) (w : Acc ◌<◌ n)
    → n < 128 ^ suc k
    → All IsByte (write_varint_loop n w)
      × (1 ≤ length (write_varint_loop n w))
      × (length (write_varint_loop n w) ≤ k + 1)
unfolding write_varint_loop
write_varint_loop-shape zero n (Acc.intro _ smaller) h =
    rw (dif_neg (dec_le 0x80 n) (omega arith)) (omega arith)
write_varint_loop-shape (suc k) n (Acc.intro _ smaller) small = elim (dec_le 0x80 n) [
  | yes h ↦ rw (dif_pos (dec_le 0x80 n) le_prop h) (
      ground
        (arith, write_varint_loop-shape k (n / 128) (smaller _ (shift_shrinks n h)) (omega arith)))
  | no h ↦ rw (dif_neg (dec_le 0x80 n) h) (omega arith)
]

pub write_varint-shape :
    (n : ℕ)
    → n < 2 ^ 64
    → All IsByte (write_varint n) × (1 ≤ length (write_varint n)) × (length (write_varint n) ≤ 10)
unfolding write_varint
write_varint-shape n h = write_varint_loop-shape 9 n (lt_wf.apply n) (omega arith)

-- For a length below 2 ^ 63, `DecodeRecord` at the varint that `WriteVarint` stored reads the length
-- back and stands behind it.
pub decode_loop-varint :
    (n : ℕ) (start rest : List ℕ)
    → n < 2 ^ 63
    → decode_loop start (write_varint n ++ rest) 0 0 ≡ found start n rest
unfolding write_varint
decode_loop-varint n start rest h =
    decode_loop-write 8 n 0 0 (lt_wf.apply n) start rest (omega arith) (omega arith) (omega arith)
      (omega arith)
    ∙ ap (λ (t : ℕ). found start t rest) (omega arith)
