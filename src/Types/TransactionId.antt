-- ===== src/Types/TransactionId.antt =====
-- src/types/transaction_id.hpp, and src/stateless/packed_transaction_id.hpp: the version of a data item,
-- and the word in which it travels. Both fields have 32 bits.
pub mod Packed
use lineair_db.Base.{
  ℕ, ◌+◌, ◌*◌, ◌/◌, ◌%◌, ◌^◌, ◌-◌, bit_and, bit_or, Bool, true, ◌&&◌, ltb, ◌==◌, ◌≡◌, arith,
  if◌then◌else◌,
}

pub record TransactionId : Type 0 where
  pub epoch : ℕ
  pub tid : ℕ

-- `operator==` and `operator<`
unfoldable pub tid_eq : TransactionId → TransactionId → Bool
tid_eq t u = t.epoch == u.epoch && t.tid == u.tid

unfoldable pub tid_lt : TransactionId → TransactionId → Bool
tid_lt t u = if t.epoch == u.epoch then ltb t.tid u.tid else ltb t.epoch u.epoch

-- The constructor from a word. `~1llu >> 32` is the mask of the low half.
pub from_word : ℕ → TransactionId
from_word n = record { epoch = n / 2 ^ 32 % 2 ^ 32; tid = bit_and n ((2 ^ 64 - 2) / 2 ^ 32) }

pub pack_transaction_id : TransactionId → ℕ
pack_transaction_id t = bit_or (t.epoch * 2 ^ 32 % 2 ^ 64) t.tid

pub unpack_transaction_id : ℕ → TransactionId
unpack_transaction_id packed = record {
  epoch = packed / 2 ^ 32 % 2 ^ 32;
  tid = bit_and packed 0xffff_ffff;
}

pub eq_of_tid_eq : (t u : TransactionId) → tid_eq t u ≡ true → t ≡ u
unfolding tid_eq
eq_of_tid_eq t u h = λ i. record { epoch = epochs i; tid = tids i }
  where
    epochs : t.epoch ≡ u.epoch
    epochs = ground arith

    tids : t.tid ≡ u.tid
    tids = ground arith
