-- ===== src/Recovery/Disk/Reads.antt =====
-- Actions that leave the file as it is, whatever the system calls do.
use lineair_db.Base.{ℕ, ◌≡◌, refl, ◌∙◌, Bool, true, false, if◌then◌else◌}
use lineair_db.Recovery.Disk.{Disk, Ran, done, failure, Io, ◌>>=◌, pure, pread_all}
use lineair_db.Recovery.Disk.Laws.{disk_of, pread_all-file}

pub record Reads {ℓ} {A : Type ℓ} (m : Io A) : Type ℓ where
  pub at : (d : Disk) → (disk_of (m d)).file ≡ d.file

module _ {ℓ} {A : Type ℓ} where
  pub Reads-pure : (a : A) → Reads (pure a)
  Reads-pure a = record { at = λ d. refl }

  pub Reads-if : (b : Bool) {m k : Io A} → Reads m → Reads k → Reads (if b then m else k)
  Reads-if true h j = h
  Reads-if false h j = j

bind_file {ℓ κ} :
    {A : Type ℓ} {B : Type κ} (r : Ran A) (f : A → Io B)
    → ((a : A) → Reads (f a))
    → (disk_of (elim r [ done a d ↦ f a d | failure e d ↦ failure e d ])).file ≡ (disk_of r).file
bind_file (done a d) f h = (h a).at d
bind_file (failure e d) f h = refl

pub Reads-bind {ℓ κ} :
    {A : Type ℓ} {B : Type κ} (m : Io A) (f : A → Io B)
    → Reads m
    → ((a : A) → Reads (f a))
    → Reads (m >>= f)
Reads-bind m f h j = record { at = λ d. bind_file (m d) f j ∙ h.at d }

pub Reads-pread_all : (size offset : ℕ) → Reads (pread_all size offset)
Reads-pread_all size offset = record { at = pread_all-file size offset }
