-- ===== src/Recovery/LogRecord.antt =====
-- src/recovery/log_record.h, and the encoding of its records, which is the msgpack library's.
use lineair_db.Base.{ℕ, ◌≤◌, ◌≡◌, List, All, length, Option, some}
use lineair_db.Types.TransactionId.{TransactionId}
use lineair_db.Types.Keys.{Key, IsByte}

pub record KeyValuePair : Type 0 where
  pub key : Key
  pub buffer : List ℕ
  pub tid : TransactionId
  pub table_name : Key
  pub index_name : Key
  pub index_type : ℕ
  pub primary_keys : List Key
  pub secondary_op : ℕ
  pub secondary_primary_key : Key

pub record LogRecord : Type 0 where
  pub epoch : ℕ
  pub key_value_pairs : List KeyValuePair

-- `msgpack::pack` and `msgpack::unpack` of a list of records. `unpack` returns the records and how many
-- bytes it consumed, and is `none` where it throws. The laws are what msgpack documents: an object
-- takes a byte at least, and what `pack` wrote unpacks to what was packed, consuming all of it.
pub record MsgPack : Type 0 where
  pub pack : List LogRecord → List ℕ
  pub unpack : List ℕ → Option (List LogRecord × ℕ)
  pub pack_bytes : (rs : List LogRecord) → All IsByte (pack rs)
  pub pack_some : (rs : List LogRecord) → 1 ≤ length (pack rs)
  pub unpack-pack : (rs : List LogRecord) → unpack (pack rs) ≡ some (rs, length (pack rs))
