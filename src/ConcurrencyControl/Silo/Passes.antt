-- ===== src/ConcurrencyControl/Silo/Passes.antt =====
-- A commit of src/concurrency_control/impl/silo_nwr.hpp that passes, from its locks to the release.
use lineair_db.Base.{
  ℕ, ◌≡◌, refl, sym, ap, subst, ◌∙◌, Bool, true, false, List, [], ◌∷◌, map, All, Bool-cases, inl,
  inr,
}
use lineair_db.Types.Outcome.{value, bind_value}
use lineair_db.Types.TransactionId.{TransactionId}
use lineair_db.Types.Snapshot.{compare}
use lineair_db.ConcurrencyControl.Memory.{DataItem, World, mem, tick}
use lineair_db.ConcurrencyControl.Memory.Online.{make_me_online}
use lineair_db.ConcurrencyControl.Memory.Rely.{
  Property, Has, Either, Keeps, BeforeLock, IsGuarded, IsSmall, tick-IsGuarded, tick-held,
}
use lineair_db.ConcurrencyControl.Silo.{Entry, ValidationItem, insert_entry, sort_entries}
use lineair_db.ConcurrencyControl.Silo.Locking.{Locked, lock_all, with_copied_tid}
use lineair_db.ConcurrencyControl.Silo.Locking.Keeps.{
  pointers, IsDistinct, IsLocked, LockResult, LockResult-IsLocked, lock_all-result,
}
use lineair_db.ConcurrencyControl.Silo.Locking.Copies.{AllCopied, IsCopied, lock_all-IsCopied}
use lineair_db.ConcurrencyControl.Silo.Install.{install_all, post_processing}
use lineair_db.ConcurrencyControl.Silo.Validation.{Checked, anti_dependency_validation}
use lineair_db.ConcurrencyControl.Silo.Commit.{
  unlock_write_set, Validator, passes, has_duplicate, Precommitted, aborts, Mode,
  is_anti_dependency, omission, omits, updates_if, serialize_if, lock_based, commit_by,
  install_unless, installs, validate_and_install, copies_if, serialize, precommit, commit,
}
use lineair_db.ConcurrencyControl.Silo.Nwr.{Nwr, Omission}
use lineair_db.ConcurrencyControl.Silo.PivotsOnly.{omission-IsStill, updates_if-IsStill}
use lineair_db.ConcurrencyControl.Silo.Still.{
  IsStill, IsStill-trans, make_me_online-IsStill, anti_dependency_validation-IsStill, tick-IsStill,
  copies_if-IsStill,
}
use lineair_db.ConcurrencyControl.Silo.Aborts.{IsLocked-entries, starts-IsGuarded}
use lineair_db.ConcurrencyControl.Silo.Commits.{
  LockedId, ids, HasIds, WithIds, AfterRelease, Pending, Writes, IsGuarded-mono, IsInstalled,
  install_all-IsInstalled, post_processing-items, AllFree,
}

AllCopied-HasIds :
    (entries : List Entry) (w : World) (p : ℕ)
    → AllCopied entries w
    → HasIds (ids entries) p (w.items p).transaction_id
AllCopied-HasIds [] w p c = tt
AllCopied-HasIds (e ∷ entries) w p c = (
  λ q. ap (λ (p : ℕ). (w.items p).transaction_id) (sym q) ∙ sym c.0,
  AllCopied-HasIds entries w p c.1,
)

pointers-ids :
    (entries : List Entry) → pointers entries ≡ map (λ (i : LockedId). i.pointer) (ids entries)
pointers-ids [] = refl
pointers-ids (e ∷ entries) = rw (pointers-ids entries) refl

-- Every locked item is still to be installed.
IsGuarded-Pending :
    (P : Property) (epoch : ℕ) (entries : List Entry) (list : List LockedId) (w : World)
    → IsGuarded P (WithIds list (BeforeLock P)) w
    → w.held ≡ pointers entries
    → IsGuarded P (WithIds list (Pending P epoch entries)) w
IsGuarded-Pending P epoch entries list w g e = record {
  items = λ p. at p (mem p w.held) (ap (mem p) e) (w.items p) (g.items p);
  others = g.others;
}
  where
    at :
        (p : ℕ) (b : Bool)
        → b ≡ mem p (pointers entries)
        → (item : DataItem) → Has (Either b (WithIds list (BeforeLock P)) P) p item
        → Has (Either b (WithIds list (Pending P epoch entries)) P) p item
    at p true q item h = (rw (← q) h.0, h.1)
    at p false q item h = h

-- A validation that passes, and the install behind it.
pub record HasInstalled (P : Property) (epoch : ℕ) (l : Locked) (r : Precommitted) : Type 0 where
  pub epoch_is : r.epoch ≡ epoch
  pub guarded : IsGuarded P (WithIds (ids l.write_set) (AfterRelease P epoch)) r.world
  pub held : r.world.held ≡ pointers l.write_set
  pub same : ids r.write_set ≡ ids l.write_set
  pub distinct : IsDistinct (pointers l.write_set)

validate_and_install-passes :
    (P : Property) (validator : Validator) (epoch : ℕ) (l : Locked) (w : World) (r : Precommitted)
    → IsGuarded P (WithIds (ids l.write_set) (BeforeLock P)) w
    → w.held ≡ pointers l.write_set
    → IsDistinct (pointers l.write_set)
    → All (Writes P r.epoch) l.write_set
    → validate_and_install validator epoch l w ≡ value r
    → r.passed ≡ true
    → HasInstalled P epoch l r
unfolding validate_and_install
validate_and_install-passes P validator epoch l w r g e apart writes h passed =
    elim (Bool-cases checked.valid) [
      | inr n ↦ refused false checked.world (cc (rw n at h))
      | inl e1 ↦ elim (Bool-cases (passes validator phantoms)) [
        | inr n ↦ refused false phantoms (cc (rw (e1, n) at h))
        | inl e2 ↦
            let (duplicate, (looked, end)) =
              bind_value (has_duplicate l.write_set phantoms) _ r (rw (e1, e2) at h) in
            ends duplicate end
      ]
    ]
  where
    Q : Property
    Q = WithIds (ids l.write_set) (BeforeLock P)

    checked : Checked
    checked = anti_dependency_validation l.validation_set w

    phantoms : World
    phantoms = tick checked.world

    still : IsStill P Q w checked.world
    still = anti_dependency_validation-IsStill P Q l.validation_set w g

    later : IsStill P Q w phantoms
    later =
        IsStill-trans P Q w checked.world phantoms still.held
          (tick-IsStill P Q checked.world still.guarded)

    holds : phantoms.held ≡ pointers l.write_set
    holds = later.held ∙ e

    refused :
        (duplicate : Bool) (v : World)
        → aborts duplicate epoch l.write_set (unlock_write_set l.write_set v) ≡ r
        → HasInstalled P epoch l r
    refused duplicate v out =
        let lost : false ≡ true = ap (λ (r : Precommitted). r.passed) out ∙ passed in absurd (cc)

    ends :
        (duplicate : Bool)
        → install_unless duplicate epoch l phantoms ≡ value r
        → HasInstalled P epoch l r
    ends true end = refused true phantoms (cc)
    ends false end =
        let (d, (ran, done)) = bind_value (install_all l.write_set phantoms) _ r end in
        let out : installs epoch d ≡ r = cc in
        let at_epoch : r.epoch ≡ epoch = sym (ap (λ (r : Precommitted). r.epoch) out) in
        let i : IsInstalled P epoch (ids l.write_set) l.write_set phantoms d =
          install_all-IsInstalled P epoch (ids l.write_set) l.write_set phantoms d
            (IsGuarded-Pending P epoch l.write_set (ids l.write_set) phantoms later.guarded holds)
            (λ p t k. k) apart (λ p m. rw holds m) (rw at_epoch at writes) ran in
        subst (HasInstalled P epoch l) out (record {
          epoch_is = refl;
          guarded = i.guarded;
          held = i.held ∙ holds;
          same = i.same;
          distinct = apart;
        })

-- The claim of what is written, for the version with which its item is locked.
abbrev pub WritesAny : Property → ℕ → Entry → Type 0
WritesAny P epoch e = (t : TransactionId) → Writes P epoch (with_copied_tid t e)

All-insert_entry :
    (A : Entry → Type 0) (e : Entry) (entries : List Entry)
    → A e
    → All A entries
    → All A (insert_entry e entries)
unfolding insert_entry
All-insert_entry A e [] a all = (a, tt)
All-insert_entry A e (f ∷ entries) a all = elim (Bool-cases (compare f.snapshot e.snapshot)) [
  | inl l ↦ rw l (all.0, All-insert_entry A e entries a all.1)
  | inr n ↦ rw n (a, all)
]

pub All-sort_entries :
    (A : Entry → Type 0) (entries : List Entry) → All A entries → All A (sort_entries entries)
unfolding sort_entries
All-sort_entries A [] all = tt
All-sort_entries A (e ∷ entries) all =
    All-insert_entry A e (sort_entries entries) all.0 (All-sort_entries A entries all.1)

serialize-passes :
    (P : Property) (mode : Mode) (need_to_checkpoint : Bool) (validator : Validator) (epoch : ℕ)
    (n : Nwr) (l : Locked) (r : Precommitted)
    → IsLocked P [] l.write_set l
    → AllCopied l.write_set l.world
    → All (Writes P r.epoch) l.write_set
    → serialize mode need_to_checkpoint validator epoch n l ≡ value r
    → r.passed ≡ true
    → HasInstalled P r.epoch l r
serialize-passes P mode need_to_checkpoint validator epoch n l r k c writes h passed =
    let Q : Property = WithIds (ids l.write_set) (BeforeLock P) in
    let (copied, (ran, next)) =
      bind_value (copies_if need_to_checkpoint l.write_set l.world) _ r h in
    let g : IsGuarded P Q l.world =
      IsGuarded-mono P (BeforeLock P) Q l.world
        (λ p b. (b, AllCopied-HasIds l.write_set l.world p c)) k.guarded in
    let s : IsStill P Q l.world copied =
      copies_if-IsStill P Q need_to_checkpoint l.write_set l.world copied g ran in
    let (updated, (merged, later)) =
      bind_value (updates_if mode epoch l.write_set n copied) _ r next in
    let u : IsStill P Q copied updated =
      updates_if-IsStill P Q mode epoch l.write_set n copied updated s.guarded merged in
    let (online, (joined, end)) = bind_value (make_me_online updated) _ r later in
    let o : IsStill P Q updated online.world =
      make_me_online-IsStill P Q updated online u.guarded joined in
    let i : HasInstalled P online.epoch l r =
      validate_and_install-passes P validator online.epoch l online.world r o.guarded
        (o.held ∙ u.held ∙ s.held ∙ k.held) k.distinct writes end passed in
    subst (λ (epoch : ℕ). HasInstalled P epoch l r) (sym i.epoch_is) i

-- What a transaction that passes has done before its release.
HasPassed : Property → Precommitted → Type 0
HasPassed P r = (l : Locked) × HasInstalled P r.epoch l r

lock_based-passes :
    (P : Property) (mode : Mode) (need_to_checkpoint : Bool) (validator : Validator) (epoch : ℕ)
    (write_set : List Entry) (vs : List ValidationItem) (o : Omission) (r : Precommitted)
    → IsSmall P
    → IsGuarded P (BeforeLock P) o.world
    → o.world.held ≡ []
    → lock_based mode need_to_checkpoint validator epoch write_set vs o ≡ value r
    → r.passed ≡ true
    → All (WritesAny P r.epoch) write_set
    → HasPassed P r
unfolding lock_based HasPassed
lock_based-passes P mode need_to_checkpoint validator epoch write_set vs o r small g e h passed
      writes =
    elim (Bool-cases (is_anti_dependency o.nwr.nwr_validation_result)) [
      | inl a ↦
          let out : aborts false epoch write_set o.world ≡ r = cc (rw a at h) in
          let lost : false ≡ true = ap (λ (r : Precommitted). r.passed) out ∙ passed in absurd (cc)
      | inr n ↦
          let (l, (locking, goes_on)) =
            bind_value (lock_all write_set vs o.world) _ r (rw n at h) in
          (l, ends l locking l.acquired refl goes_on)
    ]
  where
    ends :
        (l : Locked)
        → lock_all write_set vs o.world ≡ value l
        → (b : Bool) → l.acquired ≡ b
        → serialize_if b mode need_to_checkpoint validator epoch o.nwr l ≡ value r
        → HasInstalled P r.epoch l r
    ends l locking true a h =
        let result : LockResult l.acquired P o.world.held write_set l =
          lock_all-result P write_set vs o.world l small g (rw e tt) locking in
        let c : IsCopied write_set o.world l =
          lock_all-IsCopied P write_set vs o.world l small g locking a in
        serialize-passes P mode need_to_checkpoint validator epoch o.nwr l r
          (IsLocked-entries P write_set l
            (rw e at (LockResult-IsLocked P l.acquired o.world.held write_set l a result)))
          c.copies (c.carries (WritesAny P r.epoch) (Writes P r.epoch) (λ f t all. all t) writes) h
          passed
    ends l locking false a h =
        let out : aborts false epoch l.write_set l.world ≡ r = cc in
        let lost : false ≡ true = ap (λ (r : Precommitted). r.passed) out ∙ passed in absurd (cc)

-- The release of what was installed.
release-passes :
    (P : Property) (pre : Precommitted) (p : ℕ)
    → HasPassed P pre
    → Has P p ((post_processing pre.epoch pre.write_set pre.world).world.items p)
      × ((post_processing pre.epoch pre.write_set pre.world).world.held ≡ [])
      × AllFree (post_processing pre.epoch pre.write_set pre.world).write_set
unfolding HasPassed
release-passes P pre p (l, i) =
    let same : pointers pre.write_set ≡ pointers l.write_set =
      pointers-ids pre.write_set
      ∙ ap (map (λ (i : LockedId). i.pointer)) i.same
      ∙ sym (pointers-ids l.write_set) in
    let done =
      post_processing-items P pre.epoch (ids l.write_set) pre.write_set pre.world i.guarded
        (λ q t k. rw i.same k) (i.held ∙ sym same) (rw same i.distinct) in
    (done.0 p, done.1, done.2)

-- A commit of `Silo` or `SiloNWR` that passes, whatever the other threads do between its accesses,
-- changes nothing but its writes, and gives back every lock: each property of versions, buffers and
-- keys, which bounds the version to 32 bits, which every item has at the start, which the other threads
-- keep, and which each entry's install makes under the version of its release, every item has at the
-- end; each item that was locked has since been stored a version without the lock bit, and so are the
-- versions of the entries that the commit returns.
pub commit-passes :
    (P : Property) (mode : Mode) (need_to_checkpoint : Bool) (validator : Validator) (epoch : ℕ)
    (write_set : List Entry) (vs : List ValidationItem) (w : World) (r : Precommitted) (p : ℕ)
    → IsSmall P
    → All (Keeps P) w.others
    → ((q : ℕ) → Has P q (w.items q))
    → w.held ≡ []
    → commit mode need_to_checkpoint validator epoch write_set vs w ≡ value r
    → r.passed ≡ true
    → All (WritesAny P r.epoch) write_set
    → Has P p (r.world.items p) × (r.world.held ≡ []) × AllFree r.write_set
unfolding commit precommit post_processing
commit-passes P mode need_to_checkpoint validator epoch write_set vs w r p small k h e ran passed
      writes =
    let sorted : List Entry = sort_entries write_set in
    let (pre, (checked, end)) =
      bind_value (precommit mode need_to_checkpoint validator epoch write_set vs w) _ r ran in
    let (o, (tried, goes_on)) = bind_value (omission mode epoch sorted vs w) _ pre checked in
    let s : IsStill P (BeforeLock P) w o.world =
      omission-IsStill P (BeforeLock P) mode epoch sorted vs w o (starts-IsGuarded P w k h e)
        tried in
    elim (Bool-cases pre.passed) [
      | inr n ↦
          let out : pre ≡ r = cc (rw n at end) in
          let lost : false ≡ true = sym n ∙ ap (λ (r : Precommitted). r.passed) out ∙ passed in
          absurd (cc)
      | inl y ↦
          let out : record pre {
            write_set = (post_processing pre.epoch pre.write_set pre.world).write_set;
            world = (post_processing pre.epoch pre.write_set pre.world).world;
          }
              ≡ r =
            cc (rw y at end) in
          let at_epoch : r.epoch ≡ pre.epoch = sym (ap (λ (r : Precommitted). r.epoch) out) in
          subst
            (λ (r : Precommitted).
              Has P p (r.world.items p) × (r.world.held ≡ []) × AllFree r.write_set)
            out (ends pre o s y (rw at_epoch at writes) o.omittable goes_on)
    ]
  where
    ends :
        (pre : Precommitted) (o : Omission)
        → IsStill P (BeforeLock P) w o.world
        → pre.passed ≡ true
        → All (WritesAny P pre.epoch) write_set
        → (b : Bool)
        → commit_by b mode need_to_checkpoint validator epoch (sort_entries write_set) vs o
          ≡ value pre
        → Has P p ((post_processing pre.epoch pre.write_set pre.world).world.items p)
          × ((post_processing pre.epoch pre.write_set pre.world).world.held ≡ [])
          × AllFree (post_processing pre.epoch pre.write_set pre.world).write_set
    ends pre o s y writes true q =
        let out : omits validator epoch (sort_entries write_set) (tick o.world) ≡ pre = cc in
        let fine : passes validator (tick o.world) ≡ true =
          ap (λ (r : Precommitted). r.passed) out ∙ y in
        let none_left : pre.write_set ≡ [] =
          sym (ap (λ (r : Precommitted). r.write_set) out) ∙ rw fine refl in
        let there : pre.world ≡ tick o.world = sym (ap (λ (r : Precommitted). r.world) out) in
        let empty : (tick o.world).held ≡ [] = tick-held o.world ∙ s.held ∙ e in
        rw (none_left, there)
          (rw empty at ((tick-IsGuarded P (BeforeLock P) o.world s.guarded).items p), empty, tt)
    ends pre o s y writes false q = release-passes P pre p (
        lock_based-passes P mode need_to_checkpoint validator epoch (sort_entries write_set) vs o
          pre small s.guarded (s.held ∙ e) q y
          (All-sort_entries (WritesAny P pre.epoch) write_set writes))
