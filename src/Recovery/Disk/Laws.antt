-- ===== src/Recovery/Disk/Laws.antt =====
-- What the file holds after the loops round `pwrite`, `pread` and `fdatasync`.
use Prim.Native.Nat.add
use lineair_db.Base.{ℕ, zero, suc, ◌+◌, ◌-◌, ◌≤◌, min, ◌≡◌, refl, ap, ◌∙◌, arith}
use lineair_db.Base.{List, [], ◌∷◌, ◌++◌, append-nil, append_assoc, ◌==◌}
use lineair_db.Base.{length, take, drop, replicate, take-append-drop, length-take, length-drop}
use lineair_db.Base.{Bool-cases, inl, inr, drop-drop, take-append-take, le→leb, ne→==}
use lineair_db.Recovery.Disk.{Io, ◌>>=◌}
use lineair_db.Recovery.Disk.{
  Event, moved, interrupted, failed, Disk, Ran, done, failure, overlay, write_at, write_loop,
  write_all_at, read_loop, pread_all, sync_loop, sync_retrying,
}

overlay_then : (f a b : List ℕ) → write_at (overlay a f) (length a) b ≡ overlay (a ++ b) f
overlay_then f [] b = refl
overlay_then [] (x ∷ a) b = ap (λ l. x ∷ l) (overlay_then [] a b)
overlay_then (c ∷ f) (x ∷ a) b = ap (λ l. x ∷ l) (overlay_then f a b)

-- Two writes one behind the other are one write.
pub write_at-append :
    (f : List ℕ) (offset : ℕ) (a b : List ℕ)
    → write_at (write_at f offset a) (offset + length a) b ≡ write_at f offset (a ++ b)
write_at-append f zero a b = rw add.zero (overlay_then f a b)
write_at-append [] (suc offset) a b = rw add.suc (ap (λ l. 0 ∷ l) (write_at-append [] offset a b))
write_at-append (c ∷ f) (suc offset) a b =
    rw add.suc (ap (λ l. c ∷ l) (write_at-append f offset a b))

-- A write behind `pre` leaves `pre` alone.
pub write_at_behind :
    (pre f bytes : List ℕ) → write_at (pre ++ f) (length pre) bytes ≡ pre ++ overlay bytes f
write_at_behind [] f bytes = refl
write_at_behind (x ∷ pre) f bytes = ap (λ l. x ∷ l) (write_at_behind pre f bytes)

-- A write over a region of zeroes.
pub overlay_zeroes :
    (bytes : List ℕ) (n : ℕ)
    → overlay bytes (replicate n 0) ≡ bytes ++ replicate (n - length bytes) 0
overlay_zeroes [] n = ap (λ (k : ℕ). replicate k 0) (omega arith)
overlay_zeroes (x ∷ bytes) zero =
    ap (λ l. x ∷ l) (overlay_zeroes bytes 0 ∙ ap (λ (k : ℕ). bytes ++ replicate k 0) (omega arith))
overlay_zeroes (x ∷ bytes) (suc n) =
    ap (λ l. x ∷ l) (overlay_zeroes bytes n ∙ ap (λ (k : ℕ). bytes ++ replicate k 0) (omega arith))

-- No call fails, and none moves nothing.
abbrev pub Quiet : List Event → Type 0
Quiet [] = Unit
Quiet (moved zero ∷ script) = ⊥
Quiet (moved (suc n) ∷ script) = Quiet script
Quiet (interrupted ∷ script) = Quiet script
Quiet (failed e ∷ script) = ⊥

-- A write ends inside the file.
pub write_at-reaches :
    (f : List ℕ) (offset : ℕ) (bytes : List ℕ)
    → offset + length bytes ≤ length (write_at f offset bytes)
write_at-reaches f zero [] = omega arith
write_at-reaches [] zero (x ∷ bytes) = omega (arith, write_at-reaches [] 0 bytes)
write_at-reaches (c ∷ f) zero (x ∷ bytes) = omega (arith, write_at-reaches f 0 bytes)
write_at-reaches [] (suc offset) bytes = omega (arith, write_at-reaches [] offset bytes)
write_at-reaches (c ∷ f) (suc offset) bytes = omega (arith, write_at-reaches f offset bytes)

pub write_at-nil : (f : List ℕ) (offset : ℕ) → offset ≤ length f → write_at f offset [] ≡ f
write_at-nil f zero h = refl
write_at-nil [] (suc offset) h = absurd (omega arith)
write_at-nil (c ∷ f) (suc offset) h = ap (λ l. c ∷ l) (write_at-nil f offset (omega arith))

-- The loop of `WriteAllAt` writes all of its bytes, however the calls split them.
write_loop-Quiet :
    (script : List Event) (bytes : List ℕ) (offset : ℕ) (f synced : List ℕ)
    → Quiet script
    → offset ≤ length f
    → (script' : List Event) × (write_loop script bytes offset f synced
        ≡ done tt (record { file = write_at f offset bytes; synced = synced; script = script' }))
      × Quiet script'
unfolding write_loop
write_loop-Quiet script [] offset f synced q h = (script, rw (write_at-nil f offset h), q)
write_loop-Quiet [] (b ∷ bytes) offset f synced q h = ([], refl, tt)
write_loop-Quiet (interrupted ∷ script) (b ∷ bytes) offset f synced q h =
    write_loop-Quiet script (b ∷ bytes) offset f synced q h
write_loop-Quiet (failed e ∷ script) (b ∷ bytes) offset f synced q h = absurd q
write_loop-Quiet (moved zero ∷ script) (b ∷ bytes) offset f synced q h = absurd q
write_loop-Quiet (moved (suc n) ∷ script) (b ∷ bytes) offset f synced q h =
    let part : List ℕ = take (suc n) (b ∷ bytes) in
    let (s, e, q') =
      write_loop-Quiet script (drop n bytes) (offset + length part) (write_at f offset part) synced
        q (write_at-reaches f offset part) in
    (s, e ∙ rw (write_at-append f offset part (drop n bytes), take-append-drop), q')

-- How a call ends that nothing disturbs: its value, the file and what is synced.
pub record Ends {ℓ} {A : Type ℓ} (m : Ran A) (a : A) (file synced : List ℕ) : Type ℓ where
  pub script : List Event
  pub ran : m ≡ done a (record { file = file; synced = synced; script = script })
  pub quiet : Quiet script

-- Where no call fails and none moves nothing, and the offset is inside the file, the loop of
-- `WriteAllAt` ends well and has written all of its bytes, however the calls split them.
pub write_all_at-Quiet :
    (bytes : List ℕ) (offset : ℕ) (d : Disk)
    → Quiet d.script
    → offset ≤ length d.file
    → Ends (write_all_at bytes offset d) tt (write_at d.file offset bytes) d.synced
unfolding write_all_at
write_all_at-Quiet bytes offset d q h =
    let (s, e, q') = write_loop-Quiet d.script bytes offset d.file d.synced q h in
    record { script = s; ran = e; quiet = q' }

sync_loop-Quiet :
    (script : List Event) (d : Disk) → Quiet script → Ends (sync_loop script d) tt d.file d.file
unfolding sync_loop
sync_loop-Quiet [] d q = record { script = []; ran = refl; quiet = tt }
sync_loop-Quiet (interrupted ∷ script) d q = sync_loop-Quiet script d q
sync_loop-Quiet (failed e ∷ script) d q = absurd q
sync_loop-Quiet (moved zero ∷ script) d q = absurd q
sync_loop-Quiet (moved (suc n) ∷ script) d q = record { script = script; ran = refl; quiet = q }

pub sync_retrying-Quiet : (d : Disk) → Quiet d.script → Ends (sync_retrying d) tt d.file d.file
unfolding sync_retrying
sync_retrying-Quiet d q = sync_loop-Quiet d.script d q

-- The bytes that a `pread` at `offset` finds.
abbrev pub slice : ℕ → ℕ → List ℕ → List ℕ
slice offset size file = take size (drop offset file)

slice_split :
    (f : List ℕ) (offset n size : ℕ)
    → n ≤ size
    → slice offset n f ++ slice (offset + n) (size - n) f ≡ slice offset size f
slice_split f offset n size h =
    rw (← drop-drop offset n f) (take-append-take n size (drop offset f) h)

read_loop-Quiet :
    (script : List Event) (size offset : ℕ) (out : List ℕ) (d : Disk)
    → Quiet script
    → offset + size ≤ length d.file
    → Ends (read_loop script size offset out d) (out ++ slice offset size d.file) d.file d.synced
unfolding read_loop
read_loop-Quiet script zero offset out d q h = record {
  script = script;
  ran = rw append-nil;
  quiet = q;
}
read_loop-Quiet [] (suc size) offset out d q h = record {
  script = [];
  ran = rw (le→leb _ _ h);
  quiet = tt;
}
read_loop-Quiet (interrupted ∷ script) (suc size) offset out d q h =
    read_loop-Quiet script (suc size) offset out d q h
read_loop-Quiet (failed e ∷ script) (suc size) offset out d q h = absurd q
read_loop-Quiet (moved zero ∷ script) (suc size) offset out d q h = absurd q
read_loop-Quiet (moved (suc n) ∷ script) (suc size) offset out d q h =
    let got : List ℕ = slice offset (min (suc n) (suc size)) d.file in
    let len : length got ≡ min (suc n) (suc size) = omega (
      arith,
      length-take (min (suc n) (suc size)) (drop offset d.file),
      length-drop offset d.file,
    ) in
    let rest =
      read_loop-Quiet script (suc size - length got) (offset + length got) (out ++ got) d q
        (omega arith) in
    record {
      script = rest.script;
      ran = rw (ne→== (length got) 0 (omega arith)) (
          rest.ran
          ∙ ap (λ (l : List ℕ). done l (record d { script = rest.script }))
              (append_assoc out got _
                ∙ ap (λ (l : List ℕ). out ++ l)
                    (rw len (
                      slice_split d.file offset (min (suc n) (suc size)) (suc size)
                        (omega arith)))));
      quiet = rest.quiet;
    }

-- Where no call fails and none moves nothing, and the range is inside the file, the loop of `PreadAll`
-- ends well with the bytes of the range, and the file is as it was.
pub pread_all-Quiet :
    (size offset : ℕ) (d : Disk)
    → Quiet d.script
    → offset + size ≤ length d.file
    → Ends (pread_all size offset d) (slice offset size d.file) d.file d.synced
unfolding pread_all
pread_all-Quiet size offset d q h = read_loop-Quiet d.script size offset [] d q h

abbrev pub disk_of {ℓ} : {A : Type ℓ} → Ran A → Disk
disk_of (done a d) = d
disk_of (failure e d) = d

-- A read changes no byte of the file, whatever the calls do.
read_loop-file :
    (script : List Event) (size offset : ℕ) (out : List ℕ) (d : Disk)
    → (disk_of (read_loop script size offset out d)).file ≡ d.file
unfolding read_loop
read_loop-file script zero offset out d = refl
read_loop-file [] (suc size) offset out d = ground arith
read_loop-file (interrupted ∷ script) (suc size) offset out d =
    read_loop-file script (suc size) offset out d
read_loop-file (failed e ∷ script) (suc size) offset out d = refl
read_loop-file (moved n ∷ script) (suc size) offset out d =
    elim (Bool-cases (length (take (min n (suc size)) (drop offset d.file)) == 0)) [
      | inl none_read ↦ rw none_read
      | inr more ↦ rw more (read_loop-file script _ _ _ d)
    ]

pub pread_all-file :
    (size offset : ℕ) (d : Disk) → (disk_of (pread_all size offset d)).file ≡ d.file
unfolding pread_all
pread_all-file size offset d = read_loop-file d.script size offset [] d

-- What follows an action that ends well.
pub run_bind {ℓ κ} :
    {A : Type ℓ} {B : Type κ} (m : Io A) (f : A → Io B) (d : Disk) {a : A} {d' : Disk}
    → m d ≡ done a d'
    → (m >>= f) d ≡ f a d'
run_bind {A = A} m f d e =
    ap (λ (r : Ran A). elim r [ done a d ↦ f a d | failure e d ↦ failure e d ]) e
