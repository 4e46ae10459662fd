-- ===== src/Base/Xor.antt =====
-- The laws of `^` at every width.
use Prim.Native.Nat.{
  ℕ, zero, suc, ◌+◌, ◌*◌, ◌/◌, ◌%◌, ◌^◌, ◌≤◌, ◌<◌, bit_xor, differ, bit_xor-bitwise,
}
use mathlib.Core.Path.{◌≡◌, refl, ap}
use native.Mathlib.Omega.{arith}
use lineair_db.Base.Bits.{bit_xor-halve, double_pow, div_double}

differ_bit : (a b : ℕ) → a < 2 → b < 2 → (differ a b ≡ (a + b) % 2) × (differ a b < 2)
differ_bit zero b h k = omega arith
differ_bit (suc a) zero h k = omega arith
differ_bit (suc zero) (suc zero) h k = omega arith
differ_bit (suc zero) (suc (suc b)) h k = absurd (omega arith)
differ_bit (suc (suc a)) (suc b) h k = absurd (omega arith)

-- The digits above the lowest, and the lowest.
pub bit_xor-digits :
    (a b : ℕ)
    → (bit_xor a b / 2 ≡ bit_xor (a / 2) (b / 2)) × (bit_xor a b % 2 ≡ (a % 2 + b % 2) % 2)
bit_xor-digits a b =
    omega (arith, bit_xor-halve a b, differ_bit (a % 2) (b % 2) (omega arith) (omega arith))

pub zero-bit_xor : (b : ℕ) → bit_xor 0 b ≡ b
zero-bit_xor b = bit_xor-bitwise 0 b

bit_xor-zero_below : (n a : ℕ) → a ≤ n → bit_xor a 0 ≡ a
bit_xor-zero_below n zero h = refl
bit_xor-zero_below zero (suc a) h = absurd (omega arith)
bit_xor-zero_below (suc n) (suc a) h =
    omega (arith, bit_xor-digits (suc a) 0, bit_xor-zero_below n (suc a / 2) (omega arith))

pub bit_xor-zero : (a : ℕ) → bit_xor a 0 ≡ a
bit_xor-zero a = bit_xor-zero_below a a (omega arith)

pub bit_xor_lt : (k a b : ℕ) → a < 2 ^ k → b < 2 ^ k → bit_xor a b < 2 ^ k
bit_xor_lt zero a b h j = ground (arith, zero-bit_xor 0)
bit_xor_lt (suc k) a b h j = omega (
  arith,
  bit_xor-digits a b,
  double_pow 1 k,
  bit_xor_lt k (a / 2) (b / 2) (omega (arith, double_pow 1 k)) (omega (arith, double_pow 1 k)),
)

bit_xor_assoc_below : (n a b c : ℕ) → a ≤ n → bit_xor (bit_xor a b) c ≡ bit_xor a (bit_xor b c)
bit_xor_assoc_below n zero b c h = rw (zero-bit_xor, zero-bit_xor)
bit_xor_assoc_below zero (suc a) b c h = absurd (omega arith)
bit_xor_assoc_below (suc n) (suc a) b c h =
    let halves : bit_xor (bit_xor (suc a) b / 2) (c / 2) ≡ bit_xor (suc a / 2) (bit_xor b c / 2) =
      rw ((bit_xor-digits (suc a) b).0, (bit_xor-digits b c).0)
        (bit_xor_assoc_below n (suc a / 2) (b / 2) (c / 2) (omega arith)) in
    omega (
      arith,
      bit_xor-digits (bit_xor (suc a) b) c,
      bit_xor-digits (suc a) (bit_xor b c),
      bit_xor-digits (suc a) b,
      bit_xor-digits b c,
      halves,
    )

pub bit_xor_assoc : (a b c : ℕ) → bit_xor (bit_xor a b) c ≡ bit_xor a (bit_xor b c)
bit_xor_assoc a b c = bit_xor_assoc_below a a b c (omega arith)

bit_xor_comm_below : (n a b : ℕ) → a ≤ n → bit_xor a b ≡ bit_xor b a
bit_xor_comm_below n zero b h = rw (zero-bit_xor, bit_xor-zero)
bit_xor_comm_below zero (suc a) b h = absurd (omega arith)
bit_xor_comm_below (suc n) (suc a) b h = omega (
  arith,
  bit_xor-digits (suc a) b,
  bit_xor-digits b (suc a),
  bit_xor_comm_below n (suc a / 2) (b / 2) (omega arith),
)

pub bit_xor_comm : (a b : ℕ) → bit_xor a b ≡ bit_xor b a
bit_xor_comm a b = bit_xor_comm_below a a b (omega arith)

one : (n : ℕ) → n / 2 ^ 0 ≡ n
one n = omega arith

pub bit_xor-div : (k a b : ℕ) → bit_xor a b / 2 ^ k ≡ bit_xor (a / 2 ^ k) (b / 2 ^ k)
bit_xor-div zero a b = rw (one (bit_xor a b), one a, one b)
bit_xor-div (suc k) a b = rw (
  div_double (bit_xor a b) k,
  div_double a k,
  div_double b k,
  (bit_xor-digits a b).0,
  bit_xor-div k (a / 2) (b / 2),
)

-- Bits behind the low `k` ones.
pub shifted-bit_xor :
    (k high low : ℕ) → low < 2 ^ k → bit_xor (high * 2 ^ k) low ≡ high * 2 ^ k + low
shifted-bit_xor zero high low h =
    let e : low ≡ 0 = omega arith in rw (e, bit_xor-zero) (omega arith)
shifted-bit_xor (suc k) high low h =
    let e : high * 2 ^ suc k / 2 ≡ high * 2 ^ k = omega (arith, double_pow high k) in
    omega (
      arith,
      double_pow high k,
      double_pow 1 k,
      bit_xor-digits (high * 2 ^ suc k) low,
      ap (λ (t : ℕ). bit_xor t (low / 2)) e,
      shifted-bit_xor k high (low / 2) (omega (arith, double_pow 1 k)),
    )
