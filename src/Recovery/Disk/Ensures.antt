-- ===== src/Recovery/Disk/Ensures.antt =====
-- What an action ends with, if it ends well.
use lineair_db.Base.{
  ℕ, zero, suc, ◌+◌, ◌≤◌, ◌≡◌, refl, sym, ◌∙◌, Bool, true, false, List, [], ◌∷◌, take, drop, length,
}
use lineair_db.Base.{if◌then◌else◌, take-append-drop}
use lineair_db.Recovery.Disk.{
  Disk, Event, moved, interrupted, failed, Ran, done, failure, Io, ◌>>=◌, write_at, write_loop,
  write_all_at, sync_loop, sync_retrying,
}
use lineair_db.Recovery.Disk.Reads.{Reads}
use lineair_db.Recovery.Disk.Laws.{disk_of, write_at-nil, write_at-append, write_at-reaches}

-- `P` holds of the value and the disk that an action ends with, if it ends well.
abbrev pub Ensures {ℓ κ} : {A : Type ℓ} → (A → Disk → Type κ) → Ran A → Type κ
Ensures P (done a d) = P a d
Ensures P (failure e d) = Unit

-- An action that reads, then one that ensures `P` from the same bytes.
pub Ensures-read {ℓ κ ι} :
    {A : Type ℓ} {B : Type κ} (P : B → Disk → Type ι) (m : Io A) (f : A → Io B) (d : Disk)
    → Reads m
    → ((a : A) (d' : Disk) → d'.file ≡ d.file → Ensures P (f a d'))
    → Ensures P ((m >>= f) d)
Ensures-read {A = A} P m f d r h = go (m d) (r.at d)
  where
    go :
        (x : Ran A)
        → (disk_of x).file ≡ d.file
        → Ensures P (elim x [ done a d' ↦ f a d' | failure e d' ↦ failure e d' ])
    go (done a d') e = h a d' e
    go (failure e' d') e = tt

-- Behind an action that keeps its promise, one that keeps its own.
pub Ensures-bind {ℓ κ ι ο} :
    {A : Type ℓ} {B : Type κ} (P : A → Disk → Type ι) (Q : B → Disk → Type ο) (x : Ran A)
    (f : A → Io B)
    → Ensures P x
    → ((a : A) (d : Disk) → P a d → Ensures Q (f a d))
    → Ensures Q (elim x [ done a d ↦ f a d | failure e d ↦ failure e d ])
Ensures-bind P Q (done a d) f p h = h a d p
Ensures-bind P Q (failure e d) f p h = tt

pub Ensures-if {ℓ κ} :
    {A : Type ℓ} (P : A → Disk → Type κ) (b : Bool) (m k : Io A) (d : Disk)
    → Ensures P (m d)
    → Ensures P (k d)
    → Ensures P ((if b then m else k) d)
Ensures-if P true m k d h j = h
Ensures-if P false m k d h j = j

-- An action that ends with what is no damage.
pub Ensures-pure {ℓ κ ι} :
    {A : Type ℓ} {B : Type κ} (P : B → Disk → Type ι) (x : Ran A) (b : A → B)
    → ((a : A) (d : Disk) → P (b a) d)
    → Ensures P (elim x [ done a d ↦ done (b a) d | failure e d ↦ failure e d ])
Ensures-pure P (done a d) b h = h a d
Ensures-pure P (failure e d) b h = tt

-- A weaker promise.
pub Ensures-map {ℓ κ ι} :
    {A : Type ℓ} (P : A → Disk → Type κ) (Q : A → Disk → Type ι) (x : Ran A)
    → ((a : A) (d : Disk) → P a d → Q a d)
    → Ensures P x
    → Ensures Q x
Ensures-map P Q (done a d) h p = h a d p
Ensures-map P Q (failure e d) h p = tt

-- A write that is reported as done has written all of its bytes, however the calls split them.
write_loop-Ensures :
    (script : List Event) (bytes : List ℕ) (offset : ℕ) (f synced : List ℕ)
    → offset ≤ length f
    → Ensures (λ _ d. d.file ≡ write_at f offset bytes) (write_loop script bytes offset f synced)
unfolding write_loop
write_loop-Ensures script [] offset f synced h = sym (write_at-nil f offset h)
write_loop-Ensures [] (b ∷ bytes) offset f synced h = refl
write_loop-Ensures (interrupted ∷ script) (b ∷ bytes) offset f synced h =
    write_loop-Ensures script (b ∷ bytes) offset f synced h
write_loop-Ensures (failed e ∷ script) (b ∷ bytes) offset f synced h = tt
write_loop-Ensures (moved zero ∷ script) (b ∷ bytes) offset f synced h = tt
write_loop-Ensures (moved (suc n) ∷ script) (b ∷ bytes) offset f synced h =
    let part : List ℕ = take (suc n) (b ∷ bytes) in
    Ensures-map
      (λ _ d. d.file ≡ write_at (write_at f offset part) (offset + length part) (drop n bytes))
      (λ _ d. d.file ≡ write_at f offset (b ∷ bytes)) _
      (λ _ d e. e ∙ rw (write_at-append f offset part (drop n bytes), take-append-drop))
      (write_loop-Ensures script (drop n bytes) (offset + length part) (write_at f offset part)
        synced (write_at-reaches f offset part))

pub write_all_at-Ensures :
    (bytes : List ℕ) (offset : ℕ) (d : Disk)
    → offset ≤ length d.file
    → Ensures (λ _ d'. d'.file ≡ write_at d.file offset bytes) (write_all_at bytes offset d)
unfolding write_all_at
write_all_at-Ensures bytes offset d h = write_loop-Ensures d.script bytes offset d.file d.synced h

-- A sync that is reported as done has made the file durable.
sync_loop-Ensures :
    (script : List Event) (d : Disk)
    → Ensures (λ _ d'. (d'.file ≡ d.file) × (d'.synced ≡ d.file)) (sync_loop script d)
unfolding sync_loop
sync_loop-Ensures [] d = (refl, refl)
sync_loop-Ensures (interrupted ∷ script) d = sync_loop-Ensures script d
sync_loop-Ensures (failed e ∷ script) d = tt
sync_loop-Ensures (moved n ∷ script) d = (refl, refl)

pub sync_retrying-Ensures :
    (d : Disk) → Ensures (λ _ d'. (d'.file ≡ d.file) × (d'.synced ≡ d.file)) (sync_retrying d)
unfolding sync_retrying
sync_retrying-Ensures d = sync_loop-Ensures d.script d
