-- ===== src/Recovery/Disk/Zeroes.antt =====
-- What a read finds in a file whose tail is zeroes.
use lineair_db.Base.{
  ℕ, zero, suc, ◌+◌, ◌-◌, ◌≤◌, ◌≡◌, sym, ap, ◌∙◌, arith, List, ◌∷◌, ◌++◌, append_assoc,
}
use lineair_db.Base.{
  length, length-append, length-replicate, replicate, take-append_length, drop-append_length,
}
use lineair_db.Recovery.Disk.Laws.{slice}

pub slice_at :
    (pre xs rest : List ℕ) (n m : ℕ) (f : List ℕ)
    → f ≡ pre ++ (xs ++ rest)
    → n ≡ length pre
    → m ≡ length xs
    → slice n m f ≡ xs
slice_at pre xs rest n m f e a b = rw (e, a, b, drop-append_length) (take-append_length xs rest)

replicate_add : (n m : ℕ) → replicate {A = ℕ} (n + m) 0 ≡ replicate n 0 ++ replicate m 0
replicate_add zero m = ap (λ (k : ℕ). replicate {A = ℕ} k 0) (omega arith)
replicate_add (suc n) m =
    let e : suc n + m ≡ suc (n + m) = omega arith in
    ap (λ (k : ℕ). replicate {A = ℕ} k 0) e ∙ ap (λ l. 0 ∷ l) (replicate_add n m)

pub zero_slice :
    (pre : List ℕ) (z at n : ℕ) (f : List ℕ)
    → f ≡ pre ++ replicate z 0
    → length pre ≤ at
    → at + n ≤ length f
    → slice at n f ≡ replicate n 0
zero_slice pre z at n f e h r =
    let a : ℕ = at - length pre in
    let size : length f ≡ length pre + z =
      ap (λ (l : List ℕ). length l) e
      ∙ omega (arith, length-append pre (replicate z 0), length-replicate {A = ℕ} z 0) in
    slice_at (pre ++ replicate a 0) (replicate n 0) (replicate (z - a - n) 0) at n f
      (e
        ∙ ap (λ (k : ℕ). pre ++ replicate k 0) (omega arith)
        ∙ ap (λ l. pre ++ l) (replicate_add a (n + (z - a - n)))
        ∙ sym (append_assoc pre (replicate a 0) (replicate (n + (z - a - n)) 0))
        ∙ ap (λ l. (pre ++ replicate a 0) ++ l) (replicate_add n (z - a - n)))
      (omega (arith, length-append pre (replicate a 0), length-replicate {A = ℕ} a 0))
      (omega (arith, length-replicate {A = ℕ} n 0))
