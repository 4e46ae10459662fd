-- ===== src/ConcurrencyControl/Silo/Locking/Keeps.antt =====
-- What the locking and the unlocking keep, whatever the other threads do.
use lineair_db.Base.{
  ℕ, zero, suc, ◌≡◌, refl, sym, subst, ◌∙◌, arith, Bool, true, false, not, ◌&&◌, List, [], ◌∷◌,
  ◌++◌, append_assoc, append-nil, length, Bool-cases, inl, inr, ==_refl,
}
use lineair_db.Types.Outcome.{value, bind_value}
use lineair_db.Types.TransactionId.{tid_eq, eq_of_tid_eq}
use lineair_db.ConcurrencyControl.Memory.{
  World, mem, without, tick, fails, is_locked, decremented, take_lock, release,
}
use lineair_db.ConcurrencyControl.Memory.Rely.{
  Property, Has, BeforeLock, IsGuarded, IsSmall, tick-IsGuarded, tick-held, release-IsGuarded,
  held-IsGuarded, free-IsGuarded, take_lock-IsGuarded, mem-append, decremented-free,
}
use lineair_db.ConcurrencyControl.Silo.{Entry, ValidationItem}
use lineair_db.ConcurrencyControl.Silo.Locking.{
  lock_loop, unlock_item, unlock_locked_items, is_attached, mark_own, Locked, gives_up, lock_all,
  with_copied_tid,
}

-- A loop that ends has taken a lock that this thread did not have.
pub record IsTaken (P : Property) (p : ℕ) (w w' : World) : Type 0 where
  pub guarded : IsGuarded P (BeforeLock P) w'
  pub was_free : mem p w.held ≡ false
  pub held : w'.held ≡ w.held ++ (p ∷ [])

IsTaken-later :
    (P : Property) (p : ℕ) (w v w' : World) → v.held ≡ w.held → IsTaken P p v w' → IsTaken P p w w'
IsTaken-later P p w v w' e t = record {
  guarded = t.guarded;
  was_free = rw (← e) t.was_free;
  held = rw (← e) t.held;
}

pub lock_loop-IsTaken :
    (P : Property) (fuel p : ℕ) (w w' : World)
    → IsSmall P
    → IsGuarded P (BeforeLock P) w
    → lock_loop fuel p w ≡ value w'
    → IsTaken P p w w'
unfolding lock_loop
lock_loop-IsTaken P zero p w w' small g h = absurd (cc)
lock_loop-IsTaken P (suc fuel) p w w' small g h =
    elim (Bool-cases (is_locked ((tick w).items p).transaction_id)) [
      | inl e ↦ IsTaken-later P p w (tick w) w' (tick-held w) (
          lock_loop-IsTaken P fuel p (tick w) w' small (tick-IsGuarded P (BeforeLock P) w g)
            (rw e at h))
      | inr n ↦
          elim (Bool-cases (
            tid_eq ((tick (tick w)).items p).transaction_id ((tick w).items p).transaction_id
            && not (fails (tick w)))) [
              | inl e ↦ taken n (ground (arith)) (rw (n, e) at h)
              | inr m ↦
                  IsTaken-later P p w (tick (tick w)) w' (tick-held (tick w) ∙ tick-held w)
                    (lock_loop-IsTaken P fuel p (tick (tick w)) w' small twice (rw (n, m) at h))
            ]
    ]
  where
    twice : IsGuarded P (BeforeLock P) (tick (tick w))
    twice = tick-IsGuarded P (BeforeLock P) (tick w) (tick-IsGuarded P (BeforeLock P) w g)

    taken :
        is_locked ((tick w).items p).transaction_id ≡ false
        → tid_eq ((tick (tick w)).items p).transaction_id ((tick w).items p).transaction_id ≡ true
        → value (take_lock p (tick (tick w))) ≡ value w'
        → IsTaken P p w w'
    taken n e h =
        let same : ((tick (tick w)).items p).transaction_id ≡ ((tick w).items p).transaction_id =
          eq_of_tid_eq _ _ e in
        let free : is_locked ((tick (tick w)).items p).transaction_id ≡ false = rw same n in
        let out : take_lock p (tick (tick w)) ≡ w' = cc in
        rw (← out) (record {
          guarded = take_lock-IsGuarded P (tick (tick w)) p small twice free;
          was_free =
              rw (tick-held (tick w), tick-held w) at
                (free-IsGuarded P (tick (tick w)) p twice free).0;
          held = rw (tick-held (tick w), tick-held w) refl;
        })

abbrev pub pointers : List Entry → List ℕ
pointers [] = []
pointers (e ∷ entries) = e.index_cache ∷ pointers entries

abbrev pub IsDistinct : List ℕ → Type 0
IsDistinct [] = Unit
IsDistinct (p ∷ ps) = (mem p ps ≡ false) × IsDistinct ps

pub IsDistinct-append :
    (ps : List ℕ) (p : ℕ) → mem p ps ≡ false → IsDistinct ps → IsDistinct (ps ++ (p ∷ []))
IsDistinct-append [] p n d = (refl, tt)
IsDistinct-append (q ∷ ps) p n d =
    (rw (mem-append q p ps, d.0) (ground arith), IsDistinct-append ps p (ground arith) d.1)

pub without-not_in : (p : ℕ) (ps : List ℕ) → mem p ps ≡ false → without p (p ∷ ps) ≡ ps
without-not_in p ps n = rw (==_refl p) (absent ps n)
  where
    absent : (qs : List ℕ) → mem p qs ≡ false → without p qs ≡ qs
    absent [] n = refl
    absent (q ∷ qs) n = ground (arith, absent qs)

-- After the locks are given back, no item is this thread's, and each item is as before the locks.
pub record IsUnlocked (P : Property) (w : World) : Type 0 where
  pub guarded : IsGuarded P (BeforeLock P) w
  pub held : w.held ≡ []

pub IsUnlocked-items : (P : Property) (w : World) → IsUnlocked P w → (p : ℕ) → Has P p (w.items p)
IsUnlocked-items P w u p = rw u.held at (u.guarded.items p)

pub unlock_locked_items-IsUnlocked :
    (P : Property) (ps : List ℕ) (w : World)
    → IsGuarded P (BeforeLock P) w
    → w.held ≡ ps
    → IsDistinct ps
    → IsUnlocked P (unlock_locked_items ps w)
unfolding unlock_locked_items unlock_item
unlock_locked_items-IsUnlocked P [] w g e d = record { guarded = g; held = e }
unlock_locked_items-IsUnlocked P (p ∷ ps) w g e d =
    let here : IsGuarded P (BeforeLock P) (tick w) = tick-IsGuarded P (BeforeLock P) w g in
    let holds : (tick w).held ≡ p ∷ ps = tick-held w ∙ e in
    let (is, was) = held-IsGuarded P (BeforeLock P) (tick w) p here (rw (holds, ==_refl p) refl) in
    let released : World = release p (decremented ((tick w).items p).transaction_id) (tick w) in
    let step : unlock_item p (tick w) ≡ released = rw is refl in
    subst (λ v. IsUnlocked P (unlock_locked_items ps v)) (sym step)
      (unlock_locked_items-IsUnlocked P ps released
        (release-IsGuarded P (BeforeLock P) (tick w) p _ here
          (decremented-free ((tick w).items p).transaction_id is) was)
        (rw (decremented-free ((tick w).items p).transaction_id is, holds)
          (without-not_in p ps d.0))
        d.1)

-- What the loop over the write set has done where it has all the locks: the version of each entry's copy is the
-- one of its locked item.
abbrev pub AllCopied : List Entry → World → Type 0
AllCopied [] w = Unit
AllCopied (e ∷ entries) w =
    (e.data_item_copy.transaction_id ≡ (w.items e.index_cache).transaction_id) × AllCopied entries w

pub record IsLocked (P : Property) (mine : List ℕ) (entries : List Entry) (l : Locked)
    : Type 0 where
  pub guarded : IsGuarded P (BeforeLock P) l.world
  pub held : l.world.held ≡ mine ++ pointers entries
  pub same : pointers l.write_set ≡ pointers entries
  pub distinct : IsDistinct (mine ++ pointers entries)

abbrev pub LockResult : Bool → Property → List ℕ → List Entry → Locked → Type 0
LockResult true P held write_set l = IsLocked P held write_set l
LockResult false P held write_set l = IsUnlocked P l.world

pub LockResult-IsLocked :
    (P : Property) (b : Bool) (held : List ℕ) (write_set : List Entry) (l : Locked)
    → b ≡ true
    → LockResult b P held write_set l
    → IsLocked P held write_set l
LockResult-IsLocked P true held write_set l e r = r
LockResult-IsLocked P false held write_set l e r = absurd (cc)

LockResult-cons :
    (P : Property) (b : Bool) (held : List ℕ) (e e' : Entry) (write_set : List Entry) (l : Locked)
    → e'.index_cache ≡ e.index_cache
    → LockResult b P (held ++ (e.index_cache ∷ [])) write_set l
    → LockResult b P held (e ∷ write_set) (record l { write_set = e' ∷ l.write_set })
LockResult-cons P false held e e' write_set l q r = record { guarded = r.guarded; held = r.held }
LockResult-cons P true held e e' write_set l q r =
    let seam : (held ++ (e.index_cache ∷ [])) ++ pointers write_set
        ≡ held ++ (e.index_cache ∷ pointers write_set) =
      append_assoc held (e.index_cache ∷ []) (pointers write_set) in
    record {
      guarded = r.guarded;
      held = r.held ∙ seam;
      same = rw (q, r.same) refl;
      distinct = subst IsDistinct seam r.distinct;
    }

pub lock_all-result :
    (P : Property) (write_set : List Entry) (vs : List ValidationItem) (w : World) (l : Locked)
    → IsSmall P
    → IsGuarded P (BeforeLock P) w
    → IsDistinct w.held
    → lock_all write_set vs w ≡ value l
    → LockResult l.acquired P w.held write_set l
unfolding lock_all
lock_all-result P [] vs w l small g d h =
    let out : record { acquired = true; write_set = []; validation_set = vs; world = w } ≡ l = cc in
    subst (λ l. LockResult l.acquired P w.held [] l) out
      (record {
        guarded = g;
        held = sym (append-nil w.held);
        same = refl;
        distinct = rw (append-nil w.held) d;
      })
lock_all-result P (e ∷ write_set) vs w l small g d h =
    let (taken, (ran, goes_on)) =
      bind_value (lock_loop (suc (length w.others)) e.index_cache w) _ l h in
    let t : IsTaken P e.index_cache w taken =
      lock_loop-IsTaken P (suc (length w.others)) e.index_cache w taken small g ran in
    let got : World = tick taken in
    let entry : Entry = with_copied_tid (taken.items e.index_cache).transaction_id e in
    let here : IsGuarded P (BeforeLock P) got = tick-IsGuarded P (BeforeLock P) taken t.guarded in
    let holds : got.held ≡ w.held ++ (e.index_cache ∷ []) = tick-held taken ∙ t.held in
    let apart : IsDistinct got.held =
      rw holds (IsDistinct-append w.held e.index_cache t.was_free d) in
    elim (Bool-cases (is_attached got e)) [
      | inl on ↦
          let (rest, (locking, end)) =
            bind_value (lock_all write_set (mark_own e.index_cache vs) got) _ l
              (rw on at goes_on) in
          let out : record rest { write_set = entry ∷ rest.write_set } ≡ l = cc in
          let r : LockResult rest.acquired P got.held write_set rest =
            lock_all-result P write_set (mark_own e.index_cache vs) got rest small here apart
              locking in
          subst (λ l. LockResult l.acquired P w.held (e ∷ write_set) l) out
            (LockResult-cons P rest.acquired w.held e entry write_set rest refl (rw holds at r))
      | inr off ↦
          let out : gives_up (entry ∷ write_set) vs got ≡ l = cc (rw off at goes_on) in
          subst (λ l. LockResult l.acquired P w.held (e ∷ write_set) l) out
            (unlock_locked_items-IsUnlocked P got.held got here refl apart)
    ]
