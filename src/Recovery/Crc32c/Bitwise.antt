-- ===== src/Recovery/Crc32c/Bitwise.antt =====
-- The table is a shortcut for the division of the message bit by bit.
use lineair_db.Base.{
  ℕ, zero, suc, ◌+◌, ◌*◌, ◌/◌, ◌%◌, ◌^◌, ◌<◌, bit_and, bit_xor, ◌≡◌, refl, sym, ap, ◌∙◌, arith,
}
use lineair_db.Base.{List, [], ◌∷◌, ◌++◌, All, ◌==◌, if◌then◌else◌}
use lineair_db.Base.Bits.{bit_and-mask, double_pow}
use lineair_db.Base.Xor.{
  bit_xor-digits, bit_xor-div, bit_xor_assoc, bit_xor_comm, bit_xor-zero, shifted-bit_xor,
  bit_xor_lt,
}
use lineair_db.Types.Keys.{IsByte}
use lineair_db.Recovery.Word.{byte_at}
use lineair_db.Recovery.Crc32c.{
  reflected_polynomial, entry_step, entry_loop, make_table, k_table, update_with_table, checksum,
}

-- One byte of the message after the other, eight rounds of the division for each.
pub divide : ℕ → List ℕ → ℕ
divide state [] = state
divide state (b ∷ bytes) = divide (entry_loop 8 (bit_xor state b)) bytes

-- CRC-32C of a message, by its definition.
pub crc32c : List ℕ → ℕ
crc32c bytes = bit_xor (divide 0xffff_ffff bytes) 0xffff_ffff

-- A round shifts the bits above the lowest down as they are.
entry_step-shift : (y x : ℕ) → entry_step (bit_xor (2 * y) x) ≡ bit_xor y (entry_step x)
unfolding entry_step
entry_step-shift y x =
    let parity : bit_and (bit_xor (2 * y) x) 1 ≡ bit_and x 1 =
      bit_and-mask 1 (bit_xor (2 * y) x)
      ∙ (omega (arith, bit_xor-digits (2 * y) x, bit_and-mask 1 x)) in
    let half : bit_xor (2 * y) x / 2 ≡ bit_xor y (x / 2) =
      (bit_xor-digits (2 * y) x).0 ∙ ap (λ (t : ℕ). bit_xor t (x / 2)) (omega arith) in
    rw (parity, half)
      (bit_xor_assoc y (x / 2) (if bit_and x 1 == 0 then 0 else reflected_polynomial))

entry_loop-shift : (k y x : ℕ) → entry_loop k (bit_xor (y * 2 ^ k) x) ≡ bit_xor y (entry_loop k x)
unfolding entry_loop
entry_loop-shift zero y x = ap (λ (t : ℕ). bit_xor t x) (omega arith)
entry_loop-shift (suc k) y x =
    rw (double_pow y k, entry_step-shift (y * 2 ^ k) x) (entry_loop-shift k y (entry_step x))

make_table-byte_at : (n i j : ℕ) → j < n → byte_at (make_table i n) j ≡ entry_loop 8 (i + j)
unfolding make_table
make_table-byte_at zero i j h = absurd (omega arith)
make_table-byte_at (suc n) i zero h = ap (entry_loop 8) (omega arith)
make_table-byte_at (suc n) i (suc j) h =
    make_table-byte_at n (i + 1) j (omega arith) ∙ ap (entry_loop 8) (omega arith)

pub k_table-byte_at : (i : ℕ) → i < 256 → byte_at k_table i ≡ entry_loop 8 i
unfolding k_table
k_table-byte_at i h = make_table-byte_at 256 0 i h ∙ ap (entry_loop 8) (omega arith)

-- The state after one byte.
table_step :
    (state b : ℕ)
    → IsByte b
    → bit_xor (byte_at k_table (bit_and (bit_xor state b) 0xff)) (state / 2 ^ 8)
      ≡ entry_loop 8 (bit_xor state b)
table_step state b h =
    let n : ℕ = bit_xor state b in
    let high : n / 2 ^ 8 ≡ state / 2 ^ 8 =
      bit_xor-div 8 state b
      ∙ ap (bit_xor (state / 2 ^ 8)) (omega arith)
      ∙ bit_xor-zero (state / 2 ^ 8) in
    let whole : n ≡ bit_xor (state / 2 ^ 8 * 2 ^ 8) (n % 2 ^ 8) =
      omega (arith, shifted-bit_xor 8 (state / 2 ^ 8) (n % 2 ^ 8) (omega arith), high) in
    ap (λ (t : ℕ). bit_xor (byte_at k_table t) (state / 2 ^ 8)) (bit_and-mask 8 n)
    ∙ ap (λ (t : ℕ). bit_xor t (state / 2 ^ 8)) (k_table-byte_at (n % 2 ^ 8) (omega arith))
    ∙ bit_xor_comm (entry_loop 8 (n % 2 ^ 8)) (state / 2 ^ 8)
    ∙ sym (entry_loop-shift 8 (state / 2 ^ 8) (n % 2 ^ 8))
    ∙ ap (entry_loop 8) (sym whole)

pub update_with_table-divide :
    (state : ℕ) (bytes : List ℕ)
    → All IsByte bytes
    → update_with_table state bytes ≡ divide state bytes
unfolding update_with_table divide
update_with_table-divide state [] h = refl
update_with_table-divide state (b ∷ bytes) h =
    update_with_table-divide
      (bit_xor (byte_at k_table (bit_and (bit_xor state b) 0xff)) (state / 2 ^ 8)) bytes h.1
    ∙ ap (λ (s : ℕ). divide s bytes) (table_step state b h.0)

divide-append : (state : ℕ) (a b : List ℕ) → divide state (a ++ b) ≡ divide (divide state a) b
unfolding divide
divide-append state [] b = refl
divide-append state (x ∷ a) b = divide-append (entry_loop 8 (bit_xor state x)) a b

-- For two pieces of bytes, the checksum that is built over them one after the other with the table is
-- the CRC-32C of the one message, computed bit by bit.
pub checksum-crc32c : (a b : List ℕ) → All IsByte a → All IsByte b → checksum a b ≡ crc32c (a ++ b)
unfolding checksum crc32c
checksum-crc32c a b h j =
    ap (λ (s : ℕ). bit_xor s 0xffff_ffff)
      (update_with_table-divide (update_with_table 0xffff_ffff a) b j
        ∙ ap (λ (s : ℕ). divide s b) (update_with_table-divide 0xffff_ffff a h)
        ∙ sym (divide-append 0xffff_ffff a b))

entry_loop_lt : (k x : ℕ) → x < 2 ^ 32 → entry_loop k x < 2 ^ 32
unfolding entry_loop entry_step
entry_loop_lt zero x h = h
entry_loop_lt (suc k) x h =
    entry_loop_lt k (entry_step x) (bit_xor_lt 32 (x / 2) _ (omega arith) (ground arith))

update_with_table_lt :
    (state : ℕ) (bytes : List ℕ) → state < 2 ^ 32 → update_with_table state bytes < 2 ^ 32
unfolding update_with_table
update_with_table_lt state [] h = h
update_with_table_lt state (b ∷ bytes) h =
    let i : ℕ = bit_and (bit_xor state b) 0xff in
    let small : i < 256 = omega (arith, bit_and-mask 8 (bit_xor state b)) in
    update_with_table_lt
      (bit_xor (byte_at k_table (bit_and (bit_xor state b) 0xff)) (state / 2 ^ 8)) bytes
      (bit_xor_lt 32 (byte_at k_table i) (state / 2 ^ 8)
        (omega (arith, k_table-byte_at i small, entry_loop_lt 8 i (omega arith))) (omega arith))

-- The checksum fits its field.
pub checksum_lt : (a b : List ℕ) → checksum a b < 2 ^ 32
unfolding checksum
checksum_lt a b =
    bit_xor_lt 32 (update_with_table (update_with_table 0xffff_ffff a) b) 0xffff_ffff
      (update_with_table_lt (update_with_table 0xffff_ffff a) b
        (update_with_table_lt 0xffff_ffff a (omega arith)))
      (omega arith)
