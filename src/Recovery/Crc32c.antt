-- ===== src/Recovery/Crc32c.antt =====
-- src/recovery/crc32c.cpp: the checksum of a frame, over a table of 256 words or by the instructions
-- of the processor.
pub mod Bitwise
use lineair_db.Base.{ℕ, zero, suc, ◌+◌, ◌-◌, ◌*◌, ◌/◌, ◌%◌, ◌^◌, ◌<◌, bit_and, bit_xor, ◌≡◌, refl}
use lineair_db.Base.{
  Bool, true, false, List, [], ◌∷◌, ◌++◌, length, take, drop, leb, ◌==◌, if◌then◌else◌,
}
use lineair_db.Recovery.Word.{byte_at}

abbrev pub reflected_polynomial : ℕ
reflected_polynomial = 0x82f63b78

-- One round of the inner loop of `MakeTable`.
pub entry_step : ℕ → ℕ
entry_step entry = bit_xor (entry / 2) (if bit_and entry 1 == 0 then 0 else reflected_polynomial)

pub entry_loop : ℕ → ℕ → ℕ
entry_loop zero entry = entry
entry_loop (suc bits) entry = entry_loop bits (entry_step entry)

-- `n` entries of `MakeTable`, from index `i` on.
make_table : ℕ → ℕ → List ℕ
unfolding entry_loop entry_step
make_table i zero = []
make_table i (suc n) = entry_loop 8 i ∷ make_table (i + 1) n

pub k_table : List ℕ
unfolding make_table
k_table = make_table 0 256

pub update_with_table : ℕ → List ℕ → ℕ
update_with_table state [] = state
update_with_table state (b ∷ bytes) =
    update_with_table (bit_xor (byte_at k_table (bit_and (bit_xor state b) 0xff)) (state / 2 ^ 8))
      bytes

-- `Update` and `Finish` of a fresh `Crc32c`, over two pieces in a row.
pub checksum : List ℕ → List ℕ → ℕ
unfolding update_with_table
checksum a b = bit_xor (update_with_table (update_with_table 0xffff_ffff a) b) 0xffff_ffff
