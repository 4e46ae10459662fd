-- ===== src/Recovery/Disk.antt =====
-- The file of the log as the system calls of src/recovery/wal.cpp see it.
-- A call may be interrupted, may fail, or may move fewer bytes than it was asked to. Which it does is
-- the script: one event a call, and when the script has run out each call does all that it was asked.
-- `synced` is what the file held when its last fsync or fdatasync returned.
pub mod Laws
pub mod Zeroes
pub mod Reads
pub mod Ensures
pub mod Keeps
use lineair_db.Base.{ℕ, zero, suc, ◌+◌, ◌-◌, min, Bool, true, false, List, [], ◌∷◌, ◌++◌}
use lineair_db.Base.{length, take, drop, replicate, leb, ltb, ◌==◌, if◌then◌else◌}

pub data Event : Type 0 where
  moved : ℕ → Event
  interrupted : Event
  failed : ℕ → Event

pub record Disk : Type 0 where
  pub file : List ℕ
  pub synced : List ℕ
  pub script : List Event

-- A call of the log that ends well, or with an `errno`.
pub data Ran {ℓ} (A : Type ℓ) : Type ℓ where
  done : A → Disk → Ran A
  failure : ℕ → Disk → Ran A

abbrev pub Io {ℓ} : Type ℓ → Type ℓ
Io A = Disk → Ran A

infixl 5 ◌>>=◌ ◌>>◌
abbrev pub ◌>>=◌ {ℓ κ} : {A : Type ℓ} {B : Type κ} → Io A → (A → Io B) → Io B
◌>>=◌ m f d = elim (m d) [ done a d' ↦ f a d' | failure e d' ↦ failure e d' ]

abbrev pub ◌>>◌ {ℓ} : {B : Type ℓ} → Io (Unit {0}) → Io B → Io B
m >> k = m >>= λ _. k

abbrev pub pure {ℓ} : {A : Type ℓ} → A → Io A
pure a d = done a d

abbrev pub fail {ℓ} : {A : Type ℓ} → ℕ → Io A
fail e d = failure e d

abbrev pub eio : ℕ
eio = 5

abbrev pub einval : ℕ
einval = 22

abbrev pub efbig : ℕ
efbig = 27

abbrev pub eoverflow : ℕ
eoverflow = 75

-- `pwrite` of `bytes` at an offset. A gap behind the end of the file reads as zeroes.
abbrev pub overlay : List ℕ → List ℕ → List ℕ
overlay [] file = file
overlay (x ∷ bytes) [] = x ∷ overlay bytes []
overlay (x ∷ bytes) (b ∷ file) = x ∷ overlay bytes file

abbrev pub write_at : List ℕ → ℕ → List ℕ → List ℕ
write_at file zero bytes = overlay bytes file
write_at [] (suc offset) bytes = 0 ∷ write_at [] offset bytes
write_at (b ∷ file) (suc offset) bytes = b ∷ write_at file offset bytes

-- The loop of `WriteAllAt`, and the inner loop of `WriteZeroesAndSync`. A chunk of at most `SSIZE_MAX`
-- bytes is the whole of any array.
unfoldable pub write_loop : List Event → List ℕ → ℕ → List ℕ → List ℕ → Ran (Unit {0})
write_loop script [] offset file synced =
    done tt (record { file = file; synced = synced; script = script })
write_loop [] (b ∷ bytes) offset file synced =
    done tt (record { file = write_at file offset (b ∷ bytes); synced = synced; script = [] })
write_loop (interrupted ∷ script) (b ∷ bytes) offset file synced =
    write_loop script (b ∷ bytes) offset file synced
write_loop (failed e ∷ script) (b ∷ bytes) offset file synced =
    failure e (record { file = file; synced = synced; script = script })
write_loop (moved zero ∷ script) (b ∷ bytes) offset file synced =
    failure eio (record { file = file; synced = synced; script = script })
write_loop (moved (suc n) ∷ script) (b ∷ bytes) offset file synced =
    let written = take (suc n) (b ∷ bytes) in
    write_loop script (drop (suc n) (b ∷ bytes)) (offset + length written)
      (write_at file offset written) synced

unfoldable pub write_all_at : List ℕ → ℕ → Io (Unit {0})
unfolding write_loop
write_all_at bytes offset d = write_loop d.script bytes offset d.file d.synced

-- `PreadAll`: `size` bytes are still to be read, behind the bytes `out`. A read at the end of the file
-- moves nothing, which ends the loop with EIO.
unfoldable pub read_loop : List Event → ℕ → ℕ → List ℕ → Disk → Ran (List ℕ)
read_loop script zero offset out d = done out (record d { script = script })
read_loop [] (suc size) offset out d =
    if leb (offset + suc size) (length d.file)
    then done (out ++ take (suc size) (drop offset d.file)) (record d { script = [] })
    else failure eio (record d { script = [] })
read_loop (interrupted ∷ script) (suc size) offset out d = read_loop script (suc size) offset out d
read_loop (failed e ∷ script) (suc size) offset out d = failure e (record d { script = script })
read_loop (moved n ∷ script) (suc size) offset out d =
    let got = take (min n (suc size)) (drop offset d.file) in
    let rest = read_loop script (suc size - length got) (offset + length got) (out ++ got) d in
    if length got == 0 then failure eio (record d { script = script }) else rest

unfoldable pub pread_all : ℕ → ℕ → Io (List ℕ)
unfolding read_loop
pread_all size offset d = read_loop d.script size offset [] d

-- `FsyncRetryingOnInterrupt`, and the loop round `fdatasync`.
unfoldable pub sync_loop : List Event → Disk → Ran (Unit {0})
sync_loop [] d = done tt (record { file = d.file; synced = d.file; script = [] })
sync_loop (interrupted ∷ script) d = sync_loop script d
sync_loop (failed e ∷ script) d = failure e (record d { script = script })
sync_loop (moved n ∷ script) d =
    done tt (record { file = d.file; synced = d.file; script = script })

unfoldable pub sync_retrying : Io (Unit {0})
unfolding sync_loop
sync_retrying d = sync_loop d.script d
