-- ===== src/Recovery/Disk/Keeps.antt =====
-- Actions that leave the first `n` bytes of the file as they are, whatever the system calls do.
use lineair_db.Base.{
  ℕ, zero, suc, ◌+◌, ◌≤◌, ◌≡◌, refl, ap, ◌∙◌, Bool, true, false, List, [], ◌∷◌, take, drop, length,
}
use lineair_db.Base.{if◌then◌else◌, arith}
use lineair_db.Recovery.Disk.{
  Disk, Event, moved, interrupted, failed, Ran, done, failure, Io, ◌>>=◌, pure, fail, write_at,
  write_loop, write_all_at, sync_loop, sync_retrying,
}
use lineair_db.Recovery.Disk.Laws.{disk_of, write_at-reaches}

-- From `f` to `g`.
pub record Kept (n : ℕ) (f g : List ℕ) : Type 0 where
  pub same : take n g ≡ take n f
  pub reaches : n ≤ length f → n ≤ length g

pub Kept-refl : (n : ℕ) (f : List ℕ) → Kept n f f
Kept-refl n f = record { same = refl; reaches = λ h. h }

pub Kept-trans : {n : ℕ} {f g h : List ℕ} → Kept n f g → Kept n g h → Kept n f h
Kept-trans a b = record { same = b.same ∙ a.same; reaches = λ x. b.reaches (a.reaches x) }

take-write_at :
    (n : ℕ) (f : List ℕ) (offset : ℕ) (bytes : List ℕ)
    → n ≤ offset
    → n ≤ length f
    → take n (write_at f offset bytes) ≡ take n f
take-write_at zero f offset bytes h r = refl
take-write_at (suc n) f zero bytes h r = absurd (omega arith)
take-write_at (suc n) [] (suc offset) bytes h r = absurd (omega arith)
take-write_at (suc n) (c ∷ f) (suc offset) bytes h r =
    ap (λ l. c ∷ l) (take-write_at n f offset bytes (omega arith) (omega arith))

pub Kept-write_at :
    (n : ℕ) (f : List ℕ) (offset : ℕ) (bytes : List ℕ)
    → n ≤ offset
    → n ≤ length f
    → Kept n f (write_at f offset bytes)
Kept-write_at n f offset bytes h r = record {
  same = take-write_at n f offset bytes h r;
  reaches = λ _. omega (arith, write_at-reaches f offset bytes);
}

pub record Keeps {ℓ} {A : Type ℓ} (n : ℕ) (m : Io A) : Type ℓ where
  pub at : (d : Disk) → n ≤ length d.file → Kept n d.file (disk_of (m d)).file

module _ {ℓ} {A : Type ℓ} (n : ℕ) where
  pub Keeps-pure : (a : A) → Keeps n (pure a)
  Keeps-pure a = record { at = λ d h. Kept-refl n d.file }

  pub Keeps-fail : (e : ℕ) → Keeps n (fail {A = A} e)
  Keeps-fail e = record { at = λ d h. Kept-refl n d.file }

  pub Keeps-if : (b : Bool) (m k : Io A) → Keeps n m → Keeps n k → Keeps n (if b then m else k)
  Keeps-if true m k h j = h
  Keeps-if false m k h j = j

bind_Kept {ℓ κ} :
    {A : Type ℓ} {B : Type κ} (n : ℕ) (f0 : List ℕ) (r : Ran A) (f : A → Io B)
    → n ≤ length f0
    → Kept n f0 (disk_of r).file
    → ((a : A) → Keeps n (f a))
    → Kept n f0 (disk_of (elim r [ done a d ↦ f a d | failure e d ↦ failure e d ])).file
bind_Kept n f0 (done a d) f i k h = Kept-trans k ((h a).at d (k.reaches i))
bind_Kept n f0 (failure e d) f i k h = k

pub Keeps-bind {ℓ κ} :
    {A : Type ℓ} {B : Type κ} (n : ℕ) (m : Io A) (f : A → Io B)
    → Keeps n m
    → ((a : A) → Keeps n (f a))
    → Keeps n (m >>= f)
Keeps-bind n m f h j = record { at = λ d i. bind_Kept n d.file (m d) f i (h.at d i) j }

write_loop-Kept :
    (n : ℕ) (script : List Event) (bytes : List ℕ) (offset : ℕ) (f synced : List ℕ)
    → n ≤ offset
    → n ≤ length f
    → Kept n f (disk_of (write_loop script bytes offset f synced)).file
unfolding write_loop
write_loop-Kept n script [] offset f synced h r = Kept-refl n f
write_loop-Kept n [] (b ∷ bytes) offset f synced h r = Kept-write_at n f offset (b ∷ bytes) h r
write_loop-Kept n (interrupted ∷ script) (b ∷ bytes) offset f synced h r =
    write_loop-Kept n script (b ∷ bytes) offset f synced h r
write_loop-Kept n (failed e ∷ script) (b ∷ bytes) offset f synced h r = Kept-refl n f
write_loop-Kept n (moved zero ∷ script) (b ∷ bytes) offset f synced h r = Kept-refl n f
write_loop-Kept n (moved (suc k) ∷ script) (b ∷ bytes) offset f synced h r =
    let part : List ℕ = take (suc k) (b ∷ bytes) in
    let first : Kept n f (write_at f offset part) = Kept-write_at n f offset part h r in
    Kept-trans first (
      write_loop-Kept n script (drop k bytes) (offset + length part) (write_at f offset part) synced
        (omega arith) (first.reaches r))

pub Keeps-write_all_at :
    (n : ℕ) (bytes : List ℕ) (offset : ℕ) → n ≤ offset → Keeps n (write_all_at bytes offset)
unfolding write_all_at
Keeps-write_all_at n bytes offset h = record {
  at = λ d r. write_loop-Kept n d.script bytes offset d.file d.synced h r;
}

sync_loop-Kept :
    (n : ℕ) (script : List Event) (d : Disk) → Kept n d.file (disk_of (sync_loop script d)).file
unfolding sync_loop
sync_loop-Kept n [] d = Kept-refl n d.file
sync_loop-Kept n (interrupted ∷ script) d = sync_loop-Kept n script d
sync_loop-Kept n (failed e ∷ script) d = Kept-refl n d.file
sync_loop-Kept n (moved k ∷ script) d = Kept-refl n d.file

pub Keeps-sync_retrying : (n : ℕ) → Keeps n sync_retrying
unfolding sync_retrying
Keeps-sync_retrying n = record { at = λ d h. sync_loop-Kept n d.script d }
