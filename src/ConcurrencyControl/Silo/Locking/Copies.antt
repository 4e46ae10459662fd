-- ===== src/ConcurrencyControl/Silo/Locking/Copies.antt =====
-- The versions that the entries of a locked write set have copied.
use lineair_db.Base.{
  ℕ, zero, suc, ◌≡◌, refl, sym, ap, subst, ◌∙◌, arith, Bool, true, false, not, ◌&&◌, ◌||◌, List, [],
  ◌∷◌, All, length, ◌==◌, Bool-cases, inl, inr, ==_refl,
}
use lineair_db.Types.Outcome.{value, bind_value}
use lineair_db.Types.TransactionId.{TransactionId, tid_eq}
use lineair_db.ConcurrencyControl.Memory.{
  DataItem, Others, World, mem, moved, tick_with, tick, fails, is_locked, take_lock,
}
use lineair_db.ConcurrencyControl.Memory.Rely.{
  Property, BeforeLock, IsGuarded, IsSmall, tick-IsGuarded, tick-held, mem-append,
}
use lineair_db.ConcurrencyControl.Silo.{Entry, ValidationItem}
use lineair_db.ConcurrencyControl.Silo.Locking.{
  lock_loop, is_attached, mark_own, Locked, gives_up, lock_all, with_copied_tid,
}
use lineair_db.ConcurrencyControl.Silo.Locking.Keeps.{IsTaken, lock_loop-IsTaken}

abbrev pub tid_at : World → ℕ → TransactionId
tid_at w p = (w.items p).transaction_id

moved-transaction_id :
    (b : Bool) (before after : DataItem)
    → b ≡ true
    → (moved b before after).transaction_id ≡ before.transaction_id
moved-transaction_id true before after h = refl
moved-transaction_id false before after h = absurd (cc)

tick_with-transaction_id :
    (others : List Others) (w : World) (q : ℕ)
    → mem q w.held ≡ true
    → tid_at (tick_with others w) q ≡ tid_at w q
tick_with-transaction_id [] w q h = refl
tick_with-transaction_id (o ∷ others) w q h =
    moved-transaction_id (mem q w.held) (w.items q) (o.items w.items q) h

pub tick-transaction_id : (w : World) (q : ℕ) → mem q w.held ≡ true → tid_at (tick w) q ≡ tid_at w q
unfolding tick
tick-transaction_id w q h = tick_with-transaction_id w.others w q h

lock_loop-transaction_id :
    (fuel p : ℕ) (w w' : World) (q : ℕ)
    → mem q w.held ≡ true
    → (q == p) ≡ false
    → lock_loop fuel p w ≡ value w'
    → tid_at w' q ≡ tid_at w q
unfolding lock_loop
lock_loop-transaction_id zero p w w' q m n h = absurd (cc)
lock_loop-transaction_id (suc fuel) p w w' q m n h =
    elim (Bool-cases (is_locked (tid_at (tick w) p))) [
      | inl e ↦
          lock_loop-transaction_id fuel p (tick w) w' q (rw (tick-held w) m) n (rw e at h) ∙ once
      | inr f ↦
          elim (Bool-cases
            (tid_eq (tid_at (tick (tick w)) p) (tid_at (tick w) p) && not (fails (tick w)))) [
              | inl e ↦
                  let out : take_lock p (tick (tick w)) ≡ w' = cc (rw (f, e) at h) in
                  subst (λ (v : World). tid_at v q ≡ tid_at w q) out (rw (tid_at, n) twice)
              | inr e ↦
                  lock_loop-transaction_id fuel p (tick (tick w)) w' q
                    (rw (tick-held (tick w), tick-held w) m) n (rw (f, e) at h)
                  ∙ twice
            ]
    ]
  where
    once : tid_at (tick w) q ≡ tid_at w q
    once = tick-transaction_id w q m

    twice : tid_at (tick (tick w)) q ≡ tid_at w q
    twice = tick-transaction_id (tick w) q (rw (tick-held w) m) ∙ once

abbrev pub AllCopied : List Entry → World → Type 0
AllCopied [] w = Unit
AllCopied (e ∷ entries) w =
    (e.data_item_copy.transaction_id ≡ tid_at w e.index_cache) × AllCopied entries w

-- The entries differ from `entries` in the versions of their copies only, which are those of the locked items.
pub record IsCopied (entries : List Entry) (w : World) (l : Locked) : Type 1 where
  pub kept : (q : ℕ) → mem q w.held ≡ true → tid_at l.world q ≡ tid_at w q
  pub copies : AllCopied l.write_set l.world
  pub carries :
      (A B : Entry → Type 0)
      → ((e : Entry) (t : TransactionId) → A e → B (with_copied_tid t e))
      → All A entries
      → All B l.write_set

not_in_held : (q p : ℕ) (held : List ℕ) → mem q held ≡ true → mem p held ≡ false → (q == p) ≡ false
not_in_held q p held m n = elim (Bool-cases (q == p)) [
  | inl e ↦ let eq : q ≡ p = ground arith in absurd (cc (rw eq at m))
  | inr f ↦ f
]

pub lock_all-IsCopied :
    (P : Property) (write_set : List Entry) (vs : List ValidationItem) (w : World) (l : Locked)
    → IsSmall P
    → IsGuarded P (BeforeLock P) w
    → lock_all write_set vs w ≡ value l
    → l.acquired ≡ true
    → IsCopied write_set w l
unfolding lock_all
lock_all-IsCopied P [] vs w l small g h a =
    let out : record { acquired = true; write_set = []; validation_set = vs; world = w } ≡ l = cc in
    subst (IsCopied [] w) out
      (record { kept = λ q m. refl; copies = tt; carries = λ A B f all. tt })
lock_all-IsCopied P (e ∷ write_set) vs w l small g h a =
    let (taken, (ran, goes_on)) =
      bind_value (lock_loop (suc (length w.others)) e.index_cache w) _ l h in
    let p : ℕ = e.index_cache in
    let t : IsTaken P p w taken =
      lock_loop-IsTaken P (suc (length w.others)) p w taken small g ran in
    let got : World = tick taken in
    let entry : Entry = with_copied_tid (tid_at taken p) e in
    let holds : (q : ℕ) → mem q got.held ≡ (mem q w.held || (q == p)) =
      λ q. rw (tick-held taken, t.held) (mem-append q p w.held) in
    elim (Bool-cases (is_attached got e)) [
      | inr off ↦
          let out : gives_up (entry ∷ write_set) vs got ≡ l = cc (rw off at goes_on) in
          let lost : false ≡ true = ap (λ (l : Locked). l.acquired) out ∙ a in absurd (cc)
      | inl on ↦
          let (rest, (locking, end)) =
            bind_value (lock_all write_set (mark_own p vs) got) _ l (rw on at goes_on) in
          let out : record rest { write_set = entry ∷ rest.write_set } ≡ l = cc in
          let r : IsCopied write_set got rest =
            lock_all-IsCopied P write_set (mark_own p vs) got rest small
              (tick-IsGuarded P (BeforeLock P) taken t.guarded) locking
              (ap (λ (l : Locked). l.acquired) out ∙ a) in
          let mine : mem p taken.held ≡ true =
            rw (t.held, mem-append p p w.held, ==_refl p) (ground arith) in
          subst (IsCopied (e ∷ write_set) w) out (record {
            kept = λ q m.
                r.kept q (rw (holds q, m) refl)
                ∙ tick-transaction_id taken q (rw (t.held, mem-append q p w.held, m) refl)
                ∙ lock_loop-transaction_id (suc (length w.others)) p w taken q m
                    (not_in_held q p w.held m t.was_free) ran;
            copies = (
              sym (r.kept p (rw (tick-held taken) mine) ∙ tick-transaction_id taken p mine),
              r.copies,
            );
            carries = λ A B f all. (f e (tid_at taken p) all.0, r.carries A B f all.1);
          })
    ]
