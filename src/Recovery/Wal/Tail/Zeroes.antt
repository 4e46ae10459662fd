-- ===== src/Recovery/Wal/Tail/Zeroes.antt =====
-- The search for a last byte that is not zero, where there is none.
use lineair_db.Base.{
  ℕ, zero, suc, ◌+◌, ◌-◌, ◌≤◌, ◌≡◌, refl, ap, ◌∙◌, arith, min, Bool-cases, inl, inr, Option, none,
  some,
}
use lineair_db.Base.{List, ◌++◌, length, replicate, leb}
use lineair_db.Recovery.Disk.{Disk, Event, done, pread_all}
use lineair_db.Recovery.Disk.Laws.{Quiet, run_bind, pread_all-Quiet}
use lineair_db.Recovery.Disk.Zeroes.{zero_slice}
use lineair_db.Recovery.Wal.{k_chunk_size}
use lineair_db.Recovery.Wal.Tail.{last_non_zero, find_loop, find_last_non_zero}

last_non_zero-replicate : (n : ℕ) → last_non_zero (replicate n 0) ≡ none
unfolding last_non_zero
last_non_zero-replicate zero = refl
last_non_zero-replicate (suc n) = rw (last_non_zero-replicate n)

found_at : ℕ → List ℕ → Option ℕ
found_at at chunk = elim (last_non_zero chunk) [ some i ↦ some (at + i) | none ↦ none ]

found_at-zeroes : (at n : ℕ) → found_at at (replicate n 0) ≡ none
unfolding found_at
found_at-zeroes at n =
    ap (λ (o : Option ℕ). elim o [ some i ↦ some (at + i) | none ↦ none ])
      (last_non_zero-replicate n)

find_loop-zeroes :
    (fuel at to : ℕ) (d : Disk) (pre : List ℕ) (z : ℕ)
    → d.file ≡ pre ++ replicate z 0
    → length pre ≤ at
    → to ≤ length d.file
    → Quiet d.script
    → (s : List Event) × Quiet s
      × (find_loop fuel at to none d ≡ done none (record d { script = s }))
unfolding find_loop found_at
find_loop-zeroes zero at to d pre z e h r q = (d.script, q, refl)
find_loop-zeroes (suc fuel) at to d pre z e h r q =
    let n : ℕ = min k_chunk_size (to - at) in
    elim (Bool-cases (leb to at)) [
      | inl end ↦ (d.script, q, rw end refl)
      | inr more ↦
          let inside : at + n ≤ length d.file = ground arith in
          let r1 = pread_all-Quiet n at d q inside in
          let (s, q', rest) =
            find_loop-zeroes fuel (at + k_chunk_size) to (record d { script = r1.script }) pre z e
              (omega arith) r r1.quiet in
          (
            s,
            q',
            rw more (
                run_bind (pread_all n at) _ d r1.ran
                ∙ ap
                    (λ (l : List ℕ).
                      find_loop fuel (at + k_chunk_size) to (found_at at l)
                        (record d { script = r1.script }))
                    (zero_slice pre z at n d.file e h inside)
                ∙ ap
                    (λ (o : Option ℕ).
                      find_loop fuel (at + k_chunk_size) to o (record d { script = r1.script }))
                    (found_at-zeroes at n)
                ∙ rest),
          )
    ]

pub find_last_non_zero-zeroes :
    (from to : ℕ) (d : Disk) (pre : List ℕ) (z : ℕ)
    → d.file ≡ pre ++ replicate z 0
    → length pre ≤ from
    → to ≤ length d.file
    → Quiet d.script
    → (s : List Event) × Quiet s
      × (find_last_non_zero from to d ≡ done none (record d { script = s }))
unfolding find_last_non_zero
find_last_non_zero-zeroes from to d pre z e h r q =
    find_loop-zeroes (to - from) from to d pre z e h r q
