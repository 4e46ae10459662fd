-- ===== src/Types/Keys.antt =====
-- Keys: `std::string` and `std::string_view` as lists of bytes, with their comparisons.
use lineair_db.Base.{ℕ, ◌^◌, ◌<◌, ◌≡◌, refl, ◌↔◌, Bool, true, false, ◌&&◌}
use lineair_db.Base.{List, [], ◌∷◌, All, length, arith, ltb, ◌==◌, if◌then◌else◌}

abbrev pub IsByte : ℕ → Type 0
IsByte b = b < 256

abbrev pub Key : Type 0
Key = List ℕ

-- A string that can exist: bytes, and at most `max_size()` of them.
pub record IsKey (k : Key) : Type 0 where
  pub bytes : All IsByte k
  pub short : length k < 2 ^ 62

-- `operator==` of two strings.
unfoldable pub key_eq : Key → Key → Bool
key_eq [] [] = true
key_eq [] (b ∷ s) = false
key_eq (a ∷ r) [] = false
key_eq (a ∷ r) (b ∷ s) = a == b && key_eq r s

-- `operator<` of two strings: `char_traits<char>` compares as unsigned char.
unfoldable pub key_lt : Key → Key → Bool
key_lt [] [] = false
key_lt [] (b ∷ s) = true
key_lt (a ∷ r) [] = false
key_lt (a ∷ r) (b ∷ s) = if a == b then key_lt r s else ltb a b

pub key_eq_refl : (k : Key) → key_eq k k ≡ true
unfolding key_eq
key_eq_refl [] = refl
key_eq_refl (a ∷ r) = ground (arith, key_eq_refl r)

pub eq_of_key_eq : (j k : Key) → key_eq j k ≡ true → j ≡ k
unfolding key_eq
eq_of_key_eq [] [] h = refl
eq_of_key_eq [] (b ∷ s) h = cc
eq_of_key_eq (a ∷ r) [] h = cc
eq_of_key_eq (a ∷ r) (b ∷ s) h = ground (arith, eq_of_key_eq r s)

pub key_eq_iff : (j k : Key) → (key_eq j k ≡ true) ↔ (j ≡ k)
key_eq_iff j k = (eq_of_key_eq j k, λ e. rw e (key_eq_refl k))

pub key_lt_irrefl : (k : Key) → key_lt k k ≡ false
unfolding key_lt
key_lt_irrefl [] = refl
key_lt_irrefl (a ∷ r) = ground (arith, key_lt_irrefl r)

pub key_lt_trans : (i j k : Key) → key_lt i j ≡ true → key_lt j k ≡ true → key_lt i k ≡ true
unfolding key_lt
key_lt_trans [] [] k p q = cc
key_lt_trans [] (b ∷ s) [] p q = cc
key_lt_trans [] (b ∷ s) (c ∷ t) p q = refl
key_lt_trans (a ∷ r) [] k p q = cc
key_lt_trans (a ∷ r) (b ∷ s) [] p q = cc
key_lt_trans (a ∷ r) (b ∷ s) (c ∷ t) p q = ground (arith, key_lt_trans r s t)

-- Two keys that compare neither way are one.
pub key_lt_total : (j k : Key) → key_lt j k ≡ false → key_eq j k ≡ false → key_lt k j ≡ true
unfolding key_lt key_eq
key_lt_total [] [] p q = cc
key_lt_total [] (b ∷ s) p q = cc
key_lt_total (a ∷ r) [] p q = refl
key_lt_total (a ∷ r) (b ∷ s) p q = ground (arith, key_lt_total r s)
