-- ===== src/ConcurrencyControl/Silo/Locking/Waits.antt =====
-- When the loop that locks an item of src/concurrency_control/impl/silo_nwr.hpp ends.
use lineair_db.Base.{
  ℕ, zero, suc, ◌<◌, ◌≤◌, ◌≡◌, ◌⊎◌, refl, ap, ◌∙◌, arith, true, false, not, ◌&&◌, List, [], ◌∷◌,
  length, Bool-cases, inl, inr,
}
use lineair_db.Types.Outcome.{out_of_fuel}
use lineair_db.Types.TransactionId.{TransactionId, tid_eq}
use lineair_db.ConcurrencyControl.Memory.{
  Others, World, tick_with, tick, fails_with, fails, is_locked,
}
use lineair_db.ConcurrencyControl.Silo.Locking.{lock_loop}
use lineair_db.ConcurrencyControl.Silo.Locking.Copies.{tid_at}

-- The memory when the other threads have made all their moves and this thread none: a turn of the others
-- for each move that they have.
unfoldable pub turns : ℕ → World → World
turns zero w = w
turns (suc n) w = turns n (tick w)

abbrev pub settled : World → World
settled w = turns (length w.others) w

tid_eq_refl : (t : TransactionId) → tid_eq t t ≡ true
unfolding tid_eq
tid_eq_refl t = ground arith

-- A world without moves of the others; or a turn takes the first move.
tick-others :
    (w : World)
    → ((w.others ≡ []) × ((tick w ≡ w) × (fails w ≡ false)))
      ⊎ (length w.others ≡ suc (length (tick w).others))
unfolding tick fails
tick-others w = at w.others
  where
    at :
        (others : List Others)
        → ((others ≡ []) × ((tick_with others w ≡ w) × (fails_with others ≡ false)))
          ⊎ (length others ≡ suc (length (tick_with others w).others))
    at [] = inl (refl, (refl, refl))
    at (o ∷ others) = inr refl

settled-tick : (w : World) → settled (tick w) ≡ settled w
unfolding turns
settled-tick w = elim (tick-others w) [
  | inl (none, (still, f)) ↦ ap settled still
  | inr e ↦ rw e refl
]

length-tick : (w : World) → length (tick w).others ≤ length w.others
length-tick w = elim (tick-others w) [
  | inl (none, (still, f)) ↦ rw still (omega arith)
  | inr e ↦ omega arith
]

-- The loop that locks an item ends, on fuel above the number of moves that the other threads still
-- make: it runs out only where the item is locked once they have made all of them, in which case the
-- loop waits for ever.
pub lock_loop-out_of_fuel :
    (fuel p : ℕ) (w : World)
    → length w.others < fuel
    → lock_loop fuel p w ≡ out_of_fuel
    → is_locked (tid_at (settled w) p) ≡ true
unfolding lock_loop turns
lock_loop-out_of_fuel zero p w b h = absurd (omega arith)
lock_loop-out_of_fuel (suc fuel) p w b h = elim (tick-others w) [
  | inl (none, (still, f)) ↦ elim (Bool-cases (is_locked (tid_at w p))) [
    | inl e ↦ rw none e
    | inr n ↦
        let free : is_locked (tid_at (tick w) p) ≡ false =
          ap (λ (v : World). is_locked (tid_at v p)) still ∙ n in
        let same : tid_eq (tid_at (tick (tick w)) p) (tid_at (tick w) p) ≡ true =
          rw (still, still) (tid_eq_refl (tid_at w p)) in
        let sure : fails (tick w) ≡ false = rw still f in absurd (cc (rw (free, same, sure) at h))
  ]
  | inr e ↦
      let twice : length (tick (tick w)).others ≤ length (tick w).others = length-tick (tick w) in
      let again : World = tick (tick w) in
      elim (Bool-cases (is_locked (tid_at (tick w) p))) [
        | inl on ↦
            rw (← settled-tick w) (lock_loop-out_of_fuel fuel p (tick w) (omega arith) (rw on at h))
        | inr off ↦
            elim (Bool-cases
              (tid_eq (tid_at again p) (tid_at (tick w) p) && not (fails (tick w)))) [
                | inl took ↦ absurd (cc (rw (off, took) at h))
                | inr lost ↦
                    rw (← settled-tick w, ← settled-tick (tick w))
                      (lock_loop-out_of_fuel fuel p again (omega arith) (rw (off, lost) at h))
              ]
      ]
]
