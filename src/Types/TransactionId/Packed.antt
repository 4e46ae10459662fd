-- ===== src/Types/TransactionId/Packed.antt =====
-- The packed word keeps a version and the order of versions.
use lineair_db.Base.{ℕ, ◌+◌, ◌*◌, ◌/◌, ◌%◌, ◌^◌, ◌<◌, ◌≡◌, ap, ◌∙◌, arith, bit_and, bit_or, ltb}
use lineair_db.Base.Bits.{shifted-bit_or, bit_and-mask}
use lineair_db.Types.TransactionId.{
  TransactionId, tid_lt, from_word, pack_transaction_id, unpack_transaction_id,
}

-- The fields fit 32 bits.
pub record IsVersion (t : TransactionId) : Type 0 where
  pub epoch_small : t.epoch < 2 ^ 32
  pub tid_small : t.tid < 2 ^ 32

pack_sum : (t : TransactionId) → IsVersion t → pack_transaction_id t ≡ t.epoch * 2 ^ 32 + t.tid
unfolding pack_transaction_id
pack_sum t v =
    let e : t.epoch * 2 ^ 32 % 2 ^ 64 ≡ t.epoch * 2 ^ 32 = omega (arith, v.epoch_small) in
    ap (λ (n : ℕ). bit_or n t.tid) e ∙ shifted-bit_or 32 t.tid t.epoch v.tid_small

-- Unpacking the packed word of a version of 32-bit fields gives the version back.
pub unpack_transaction_id-pack :
    (t : TransactionId) → IsVersion t → unpack_transaction_id (pack_transaction_id t) ≡ t
unfolding unpack_transaction_id
unpack_transaction_id-pack t v =
    let high : pack_transaction_id t / 2 ^ 32 % 2 ^ 32 ≡ t.epoch =
      omega (arith, pack_sum t v, v.epoch_small, v.tid_small) in
    let low : bit_and (pack_transaction_id t) 0xffff_ffff ≡ t.tid =
      bit_and-mask 32 (pack_transaction_id t)
      ∙ omega (arith, pack_sum t v, v.epoch_small, v.tid_small) in
    λ i. record { epoch = high i; tid = low i }

-- For two versions of 32-bit fields, the order of the versions is the order of their packed words.
pub tid_lt-pack :
    (t u : TransactionId)
    → IsVersion t
    → IsVersion u
    → tid_lt t u ≡ ltb (pack_transaction_id t) (pack_transaction_id u)
unfolding tid_lt
tid_lt-pack t u v w =
    rw (pack_sum t v, pack_sum u w)
      (ground (arith, v.epoch_small, v.tid_small, w.epoch_small, w.tid_small))

-- The version that the constructor makes of a 64-bit word packs to that word.
pub pack-from_word : (n : ℕ) → n < 2 ^ 64 → pack_transaction_id (from_word n) ≡ n
unfolding from_word
pack-from_word n h =
    let low : bit_and n 0xffff_ffff ≡ n % 2 ^ 32 = bit_and-mask 32 n in
    pack_sum (from_word n) (record { epoch_small = omega arith; tid_small = omega (arith, low) })
    ∙ omega (arith, low)
