-- ===== src/Types/Records.antt =====
-- src/types/packed_primary_keys.hpp, the encoding: each key behind its length as a varint.
-- A pointer into the records, with the limit of the list, is the list of the bytes from it up to
-- that limit; a difference of two pointers is a difference of lengths.
pub mod Varint
pub mod RoundTrip
use mathlib.Core.Logic.{dite}
use mathlib.Core.WellFounded.{Acc}
use lineair_db.Base.{ℕ, zero, suc, ◌+◌, ◌-◌, ◌*◌, ◌/◌, ◌%◌, ◌^◌, ◌≤◌, ◌<◌, bit_and, bit_or, arith}
use lineair_db.Base.{List, [], ◌∷◌, ◌++◌, length, take, drop, ltb, leb, ◌==◌, if◌then◌else◌, dec_le}
use lineair_db.Base.Order.{lt_wf}
use lineair_db.Types.Outcome.{Outcome, value, assertion}
use lineair_db.Types.Keys.{Key}

-- `size_t` and `uint32_t` arithmetic.
abbrev pub add_size : ℕ → ℕ → ℕ
add_size a b = (a + b) % 2 ^ 64

abbrev pub sub_size : ℕ → ℕ → ℕ
sub_size a b = (a + 2 ^ 64 - b) % 2 ^ 64

shift_shrinks : (n : ℕ) → 0x80 ≤ n → n / 2 ^ 7 < n
shift_shrinks n h = omega arith

varint_size_loop : (n size : ℕ) → Acc ◌<◌ n → ℕ
varint_size_loop n size (Acc.intro _ smaller) =
    dite (dec_le 0x80 n)
      (λ h. varint_size_loop (n / 2 ^ 7) (size + 1) (smaller _ (shift_shrinks n h))) (λ _. size)

pub varint_size : ℕ → ℕ
unfolding varint_size_loop lt_wf dec_le
varint_size n = varint_size_loop n 1 (lt_wf.apply n)

pub encoded_record_size : Key → ℕ
encoded_record_size key = add_size (varint_size (length key)) (length key)

-- The bytes that `WriteVarint` and `WriteRecord` store from `out` on, up to the pointer that they
-- return. A cast to `char` keeps eight bits.
write_varint_loop : (n : ℕ) → Acc ◌<◌ n → List ℕ
write_varint_loop n (Acc.intro _ smaller) =
    dite (dec_le 0x80 n)
      (λ h.
        (bit_or (bit_and n 0x7f) 0x80 % 256)
        ∷ write_varint_loop (n / 2 ^ 7) (smaller _ (shift_shrinks n h)))
      (λ _. (n % 256) ∷ [])

pub write_varint : ℕ → List ℕ
unfolding write_varint_loop lt_wf dec_le
write_varint n = write_varint_loop n (lt_wf.apply n)

pub write_record : Key → List ℕ
write_record key = write_varint (length key) ++ key

unfoldable pub write_records : List Key → List ℕ
write_records [] = []
write_records (key ∷ keys) = write_record key ++ write_records keys

-- `struct Record`: its `length` bytes stand from `val` on.
pub record Record : Type 0 where
  pub start : List ℕ
  pub val : List ℕ
  pub next : List ℕ
  pub len : ℕ

abbrev pub record_key : Record → Key
record_key r = take r.len r.val

pub decode_loop : List ℕ → List ℕ → ℕ → ℕ → Outcome Record
decode_loop start [] len shift = assertion
decode_loop start (byte ∷ cursor) len shift =
    let len' = bit_or len (bit_and byte 0x7f * 2 ^ shift % 2 ^ 64) in
    let more = decode_loop start cursor len' (shift + 7) in
    if bit_and byte 0x80 == 0
    then (if leb len' (length cursor)
        then value (record { start = start; val = cursor; next = drop len' cursor; len = len' })
        else assertion)
    else (if ltb (shift + 7) 64 then more else assertion)

pub decode_record : List ℕ → Outcome Record
decode_record start = decode_loop start start 0 0
