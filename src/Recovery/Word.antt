-- ===== src/Recovery/Word.antt =====
-- src/recovery/wal.cpp: `PutLe16`, `PutLe32`, `GetLe16`, `GetLe32`. The bytes that a pointer leads to
-- are a list; a byte past its end reads as 0, which no caller relies on.
use lineair_db.Base.{ℕ, zero, suc, ◌+◌, ◌*◌, ◌/◌, ◌%◌, ◌^◌, ◌<◌, bit_and, bit_or, ◌≡◌, arith}
use lineair_db.Base.{List, [], ◌∷◌, ◌++◌, All, length}
use lineair_db.Base.Bits.{bit_and-mask, bit_or-shifted}
use lineair_db.Types.Keys.{IsByte}

abbrev pub byte_at : List ℕ → ℕ → ℕ
byte_at [] i = 0
byte_at (b ∷ l) zero = b
byte_at (b ∷ l) (suc i) = byte_at l i

unfoldable pub put_le16 : ℕ → List ℕ
put_le16 n = bit_and n 0xff ∷ bit_and (n / 2 ^ 8) 0xff ∷ []

unfoldable pub put_le32 : ℕ → List ℕ
put_le32 n =
    bit_and n 0xff
    ∷ bit_and (n / 2 ^ 8) 0xff
    ∷ bit_and (n / 2 ^ 16) 0xff
    ∷ bit_and (n / 2 ^ 24) 0xff
    ∷ []

unfoldable pub get_le16 : List ℕ → ℕ
get_le16 l = bit_or (byte_at l 0) (byte_at l 1 * 2 ^ 8 % 2 ^ 16)

unfoldable pub get_le32 : List ℕ → ℕ
get_le32 l =
    bit_or
      (bit_or (bit_or (byte_at l 0) (byte_at l 1 * 2 ^ 8 % 2 ^ 32)) (byte_at l 2 * 2 ^ 16 % 2 ^ 32))
      (byte_at l 3 * 2 ^ 24 % 2 ^ 32)

low_byte : (n : ℕ) → bit_and n 0xff ≡ n % 256
low_byte n = bit_and-mask 8 n

-- What is written is bytes, and as many as the name says.
pub put_le16-shape : (n : ℕ) → All IsByte (put_le16 n) × (length (put_le16 n) ≡ 2)
unfolding put_le16
put_le16-shape n = omega (arith, low_byte n, low_byte (n / 2 ^ 8))

pub put_le32-shape : (n : ℕ) → All IsByte (put_le32 n) × (length (put_le32 n) ≡ 4)
unfolding put_le32
put_le32-shape n =
    omega (arith, low_byte n, low_byte (n / 2 ^ 8), low_byte (n / 2 ^ 16), low_byte (n / 2 ^ 24))

-- The words that four bytes make.
pub get_le16-sum :
    (a b : ℕ) (rest : List ℕ) → a < 256 → b < 256 → get_le16 (a ∷ b ∷ rest) ≡ a + b * 2 ^ 8
unfolding get_le16
get_le16-sum a b rest ha hb = ground (arith, bit_or-shifted 8 a b)

pub get_le32-sum :
    (a b c d : ℕ) (rest : List ℕ)
    → a < 256
    → b < 256
    → c < 256
    → d < 256
    → get_le32 (a ∷ b ∷ c ∷ d ∷ rest) ≡ a + b * 2 ^ 8 + c * 2 ^ 16 + d * 2 ^ 24
unfolding get_le32
get_le32-sum a b c d rest ha hb hc hd = ground (
  arith,
  bit_or-shifted 8 a b,
  bit_or-shifted 16 (a + b * 2 ^ 8) c,
  bit_or-shifted 24 (a + b * 2 ^ 8 + c * 2 ^ 16) d,
)

-- A word is read back from behind the pointer that it was written to.
pub get-put_le16 : (n : ℕ) (rest : List ℕ) → n < 2 ^ 16 → get_le16 (put_le16 n ++ rest) ≡ n
unfolding put_le16
get-put_le16 n rest h =
    ground (arith, low_byte n, low_byte (n / 2 ^ 8), get_le16-sum (n % 256) (n / 2 ^ 8 % 256) rest)

pub get-put_le32 : (n : ℕ) (rest : List ℕ) → n < 2 ^ 32 → get_le32 (put_le32 n ++ rest) ≡ n
unfolding put_le32
get-put_le32 n rest h = ground (
  arith,
  low_byte n,
  low_byte (n / 2 ^ 8),
  low_byte (n / 2 ^ 16),
  low_byte (n / 2 ^ 24),
  get_le32-sum (n % 256) (n / 2 ^ 8 % 256) (n / 2 ^ 16 % 256) (n / 2 ^ 24 % 256) rest,
)
