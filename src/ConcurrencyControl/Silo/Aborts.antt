-- ===== src/ConcurrencyControl/Silo/Aborts.antt =====
-- A commit that is refused leaves each item as the other threads made it.
use lineair_db.Base.{
  ℕ, ◌≡◌, refl, sym, ap, subst, ◌∙◌, Bool, true, false, List, [], ◌∷◌, All, Bool-cases, inl, inr,
  ==_refl,
}
use lineair_db.Types.Outcome.{value, bind_value}
use lineair_db.ConcurrencyControl.Memory.{World, tick, decremented, release}
use lineair_db.ConcurrencyControl.Memory.Online.{make_me_online}
use lineair_db.ConcurrencyControl.Memory.Rely.{
  Property, Has, Keeps, BeforeLock, IsGuarded, IsSmall, tick-IsGuarded, tick-held,
  release-IsGuarded, held-IsGuarded, decremented-free,
}
use lineair_db.ConcurrencyControl.Silo.{Entry, ValidationItem, sort_entries}
use lineair_db.ConcurrencyControl.Silo.Locking.{Locked, lock_all}
use lineair_db.ConcurrencyControl.Silo.Locking.Keeps.{
  pointers, IsDistinct, without-not_in, IsUnlocked, IsUnlocked-items, IsLocked, LockResult,
  lock_all-result,
}
use lineair_db.ConcurrencyControl.Silo.Install.{install_all}
use lineair_db.ConcurrencyControl.Silo.Validation.{Checked, anti_dependency_validation}
use lineair_db.ConcurrencyControl.Silo.Commit.{
  unlock_write_set, Validator, passes, has_duplicate, Precommitted, aborts, Mode,
  is_anti_dependency, omission, omits, updates_if, serialize_if, lock_based, commit_by,
  install_unless, installs, validate_and_install, copies_if, serialize, precommit,
}
use lineair_db.ConcurrencyControl.Silo.Nwr.{Nwr, Omission}
use lineair_db.ConcurrencyControl.Silo.PivotsOnly.{omission-IsStill, updates_if-IsStill}
use lineair_db.ConcurrencyControl.Silo.Still.{
  IsStill, IsStill-trans, make_me_online-IsStill, anti_dependency_validation-IsStill, tick-IsStill,
  copies_if-IsStill,
}

pub unlock_write_set-IsUnlocked :
    (P : Property) (write_set : List Entry) (w : World)
    → IsGuarded P (BeforeLock P) w
    → w.held ≡ pointers write_set
    → IsDistinct (pointers write_set)
    → IsUnlocked P (unlock_write_set write_set w)
unfolding unlock_write_set
unlock_write_set-IsUnlocked P [] w g e d = record { guarded = g; held = e }
unlock_write_set-IsUnlocked P (f ∷ write_set) w g e d =
    let p : ℕ = f.index_cache in
    let here : IsGuarded P (BeforeLock P) (tick w) = tick-IsGuarded P (BeforeLock P) w g in
    let holds : (tick w).held ≡ p ∷ pointers write_set = tick-held w ∙ e in
    let was : BeforeLock P p _ _ _ =
      held-IsGuarded P (BeforeLock P) (tick w) p here (rw (holds, ==_refl p) refl) in
    unlock_write_set-IsUnlocked P write_set
      (release p (decremented ((tick w).items p).transaction_id) (tick w))
      (release-IsGuarded P (BeforeLock P) (tick w) p _ here
        (decremented-free ((tick w).items p).transaction_id was.0) was.1)
      (rw (decremented-free ((tick w).items p).transaction_id was.0, holds)
        (without-not_in p (pointers write_set) d.0))
      d.1

-- The world in which the entries of a locked write set are unlocked.
Unlocks :
    (P : Property) (l : Locked) (v : World)
    → IsStill P (BeforeLock P) l.world v
    → IsLocked P [] l.write_set l
    → IsUnlocked P (unlock_write_set l.write_set v)
Unlocks P l v s k =
    unlock_write_set-IsUnlocked P l.write_set v s.guarded (s.held ∙ k.held) k.distinct

validate_and_install-aborts :
    (P : Property) (validator : Validator) (epoch : ℕ) (l : Locked) (w : World) (r : Precommitted)
    → IsStill P (BeforeLock P) l.world w
    → IsLocked P [] l.write_set l
    → validate_and_install validator epoch l w ≡ value r
    → r.passed ≡ false
    → IsUnlocked P r.world
unfolding validate_and_install
validate_and_install-aborts P validator epoch l w r s k h f = elim (Bool-cases checked.valid) [
  | inr n ↦ refused false checked.world still (cc (rw n at h))
  | inl e ↦ elim (Bool-cases (passes validator phantoms)) [
    | inr n ↦ refused false phantoms later (cc (rw (e, n) at h))
    | inl a ↦
        let (duplicate, (looked, end)) =
          bind_value (has_duplicate l.write_set phantoms) _ r (rw (e, a) at h) in
        ends duplicate end
  ]
]
  where
    checked : Checked
    checked = anti_dependency_validation l.validation_set w

    phantoms : World
    phantoms = tick checked.world

    still : IsStill P (BeforeLock P) l.world checked.world
    still =
        IsStill-trans P (BeforeLock P) l.world w checked.world s.held
          (anti_dependency_validation-IsStill P (BeforeLock P) l.validation_set w s.guarded)

    later : IsStill P (BeforeLock P) l.world phantoms
    later =
        IsStill-trans P (BeforeLock P) l.world checked.world phantoms still.held
          (tick-IsStill P (BeforeLock P) checked.world still.guarded)

    refused :
        (duplicate : Bool) (v : World)
        → IsStill P (BeforeLock P) l.world v
        → aborts duplicate epoch l.write_set (unlock_write_set l.write_set v) ≡ r
        → IsUnlocked P r.world
    refused duplicate v sv out =
        subst (λ (r : Precommitted). IsUnlocked P r.world) out (Unlocks P l v sv k)

    ends :
        (duplicate : Bool)
        → install_unless duplicate epoch l phantoms ≡ value r
        → IsUnlocked P r.world
    ends true end = refused true phantoms later (cc)
    ends false end =
        let (done, (ran, out)) = bind_value (install_all l.write_set phantoms) _ r end in
        let whole : installs epoch done ≡ r = cc in
        let lost : true ≡ false = ap (λ (r : Precommitted). r.passed) whole ∙ f in absurd (cc)

-- What the loop over the write set says of the entries that it returns.
pub IsLocked-entries :
    (P : Property) (entries : List Entry) (l : Locked)
    → IsLocked P [] entries l
    → IsLocked P [] l.write_set l
IsLocked-entries P entries l k = record {
  guarded = k.guarded;
  held = k.held ∙ sym k.same;
  same = refl;
  distinct = rw k.same k.distinct;
}

pub starts-IsGuarded :
    (P : Property) (w : World)
    → All (Keeps P) w.others
    → ((p : ℕ) → Has P p (w.items p))
    → w.held ≡ []
    → IsGuarded P (BeforeLock P) w
starts-IsGuarded P w k h e = record { items = λ p. rw e (h p); others = k }

serialize-aborts :
    (P : Property) (mode : Mode) (need_to_checkpoint : Bool) (validator : Validator) (epoch : ℕ)
    (n : Nwr) (l : Locked) (r : Precommitted)
    → IsLocked P [] l.write_set l
    → serialize mode need_to_checkpoint validator epoch n l ≡ value r
    → r.passed ≡ false
    → IsUnlocked P r.world
serialize-aborts P mode need_to_checkpoint validator epoch n l r k h f =
    let Q : Property = BeforeLock P in
    let (copied, (ran, next)) =
      bind_value (copies_if need_to_checkpoint l.write_set l.world) _ r h in
    let s : IsStill P Q l.world copied =
      copies_if-IsStill P Q need_to_checkpoint l.write_set l.world copied k.guarded ran in
    let (updated, (merged, later)) =
      bind_value (updates_if mode epoch l.write_set n copied) _ r next in
    let u : IsStill P Q copied updated =
      updates_if-IsStill P Q mode epoch l.write_set n copied updated s.guarded merged in
    let (online, (joined, end)) = bind_value (make_me_online updated) _ r later in
    validate_and_install-aborts P validator online.epoch l online.world r
      (IsStill-trans P Q l.world updated online.world (u.held ∙ s.held)
        (make_me_online-IsStill P Q updated online u.guarded joined))
      k end f

serialize_if-aborts :
    (P : Property) (b : Bool) (mode : Mode) (need_to_checkpoint : Bool) (validator : Validator)
    (epoch : ℕ) (n : Nwr) (l : Locked) (r : Precommitted)
    → LockResult b P [] l.write_set l
    → serialize_if b mode need_to_checkpoint validator epoch n l ≡ value r
    → r.passed ≡ false
    → IsUnlocked P r.world
serialize_if-aborts P true mode need_to_checkpoint validator epoch n l r k h f =
    serialize-aborts P mode need_to_checkpoint validator epoch n l r k h f
serialize_if-aborts P false mode need_to_checkpoint validator epoch n l r k h f =
    let out : aborts false epoch l.write_set l.world ≡ r = cc in
    subst (λ (r : Precommitted). IsUnlocked P r.world) out k

-- The result of the loop over the write set, for the entries that it returns.
pub LockResult-entries :
    (P : Property) (b : Bool) (entries : List Entry) (l : Locked)
    → LockResult b P [] entries l
    → LockResult b P [] l.write_set l
LockResult-entries P true entries l k = IsLocked-entries P entries l k
LockResult-entries P false entries l k = k

lock_based-aborts :
    (P : Property) (mode : Mode) (need_to_checkpoint : Bool) (validator : Validator) (epoch : ℕ)
    (write_set : List Entry) (vs : List ValidationItem) (o : Omission) (r : Precommitted)
    → IsSmall P
    → IsGuarded P (BeforeLock P) o.world
    → o.world.held ≡ []
    → lock_based mode need_to_checkpoint validator epoch write_set vs o ≡ value r
    → r.passed ≡ false
    → IsUnlocked P r.world
unfolding lock_based
lock_based-aborts P mode need_to_checkpoint validator epoch write_set vs o r small g e h f =
    elim (Bool-cases (is_anti_dependency o.nwr.nwr_validation_result)) [
      | inl a ↦
          let out : aborts false epoch write_set o.world ≡ r = cc (rw a at h) in
          subst (λ (r : Precommitted). IsUnlocked P r.world) out (record { guarded = g; held = e })
      | inr n ↦
          let (l, (locking, goes_on)) =
            bind_value (lock_all write_set vs o.world) _ r (rw n at h) in
          let result : LockResult l.acquired P o.world.held write_set l =
            lock_all-result P write_set vs o.world l small g (rw e tt) locking in
          let at_start : LockResult l.acquired P [] write_set l =
            subst (λ (held : List ℕ). LockResult l.acquired P held write_set l) e result in
          serialize_if-aborts P l.acquired mode need_to_checkpoint validator epoch o.nwr l r
            (LockResult-entries P l.acquired write_set l at_start) goes_on f
    ]

-- A commit of `Silo` or `SiloNWR` that is refused, on any of its branches and whatever the other
-- threads do between its accesses, has changed no version, buffer or list of keys: each property of
-- these, which bounds the version to 32 bits, which every item has at the start and which the other
-- threads keep, every item has at the end, so that each lock is given back with the version it was
-- taken with.
pub precommit-aborts :
    (P : Property) (mode : Mode) (need_to_checkpoint : Bool) (validator : Validator) (epoch : ℕ)
    (write_set : List Entry) (vs : List ValidationItem) (w : World) (r : Precommitted) (p : ℕ)
    → IsSmall P
    → All (Keeps P) w.others
    → ((q : ℕ) → Has P q (w.items q))
    → w.held ≡ []
    → precommit mode need_to_checkpoint validator epoch write_set vs w ≡ value r
    → r.passed ≡ false
    → Has P p (r.world.items p)
unfolding precommit
precommit-aborts P mode need_to_checkpoint validator epoch write_set vs w r p small k h e ran f =
    let sorted : List Entry = sort_entries write_set in
    let (o, (tried, goes_on)) = bind_value (omission mode epoch sorted vs w) _ r ran in
    let s : IsStill P (BeforeLock P) w o.world =
      omission-IsStill P (BeforeLock P) mode epoch sorted vs w o (starts-IsGuarded P w k h e)
        tried in
    IsUnlocked-items P r.world (ends o s o.omittable goes_on) p
  where
    ends :
        (o : Omission)
        → IsStill P (BeforeLock P) w o.world
        → (b : Bool)
        → commit_by b mode need_to_checkpoint validator epoch (sort_entries write_set) vs o
          ≡ value r
        → IsUnlocked P r.world
    ends o s true h =
        let out : omits validator epoch (sort_entries write_set) (tick o.world) ≡ r = cc in
        subst (λ (r : Precommitted). IsUnlocked P r.world) out
          (record {
            guarded = tick-IsGuarded P (BeforeLock P) o.world s.guarded;
            held = tick-held o.world ∙ s.held ∙ e;
          })
    ends o s false h =
        lock_based-aborts P mode need_to_checkpoint validator epoch (sort_entries write_set) vs o r
          small s.guarded (s.held ∙ e) h f
