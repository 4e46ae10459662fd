-- ===== src/Recovery/Flusher/Collected.antt =====
-- What a flush of src/recovery/impl/thread_local_logger.cpp collects, writes and carries.
use lineair_db.Base.{
  ℕ, ◌+◌, ◌<◌, ◌≤◌, ◌≡◌, refl, arith, Bool, true, false, some, List, [], ◌∷◌, ◌++◌, ltb, leb, ◌==◌,
  if◌then◌else◌, Bool-cases, inl, inr, Option-cases,
}
use lineair_db.Recovery.LogRecord.{LogRecord}
use lineair_db.Recovery.Wal.Append.{Buckets, is_empty, epochs_agree}
use lineair_db.Recovery.Flusher.{carry_record, collect_node, collect}

-- How many records pass a test.
abbrev pub count : (LogRecord → Bool) → List LogRecord → ℕ
count f [] = 0
count f (r ∷ records) = (if f r then 1 else 0) + count f records

abbrev pub count_carry : (LogRecord → Bool) → Buckets → ℕ
count_carry f [] = 0
count_carry f ((epoch, records) ∷ carry) = count f records + count_carry f carry

abbrev pub count_nodes : (LogRecord → Bool) → List (List LogRecord) → ℕ
count_nodes f [] = 0
count_nodes f (node ∷ nodes) = count f node + count_nodes f nodes

count-append :
    (f : LogRecord → Bool) (xs : List LogRecord) (r : LogRecord)
    → count f (xs ++ (r ∷ [])) ≡ count f xs + count f (r ∷ [])
count-append f [] r = omega arith
count-append f (x ∷ xs) r = omega (arith, count-append f xs r)

carry_record-count :
    (f : LogRecord → Bool) (r : LogRecord) (carry : Buckets)
    → count_carry f (carry_record r carry) ≡ count_carry f carry + count f (r ∷ [])
unfolding carry_record
carry_record-count f r [] = omega arith
carry_record-count f r ((epoch, records) ∷ carry) = elim (Bool-cases (r.epoch == epoch)) [
  | inl e ↦ rw e (omega (arith, count-append f records r))
  | inr n ↦ elim (Bool-cases (ltb r.epoch epoch)) [
    | inl l ↦ rw (n, l) (omega arith)
    | inr m ↦ rw (n, m) (omega (arith, carry_record-count f r carry))
  ]
]

collect_node-count :
    (f : LogRecord → Bool) (durable : ℕ) (node : List LogRecord) (carry next : Buckets)
    → collect_node durable node carry ≡ some next
    → count_carry f next ≡ count_carry f carry + count f node
unfolding collect_node
collect_node-count f durable [] carry next h =
    let out : carry ≡ next = cc in rw (← out) (omega arith)
collect_node-count f durable (r ∷ node) carry next h = elim (Bool-cases (leb r.epoch durable)) [
  | inl e ↦ absurd (cc (rw e at h))
  | inr n ↦ omega (
    arith,
    collect_node-count f durable node (carry_record r carry) next (rw n at h),
    carry_record-count f r carry,
  )
]

pub collect-count :
    (f : LogRecord → Bool) (durable : ℕ) (nodes : List (List LogRecord)) (carry next : Buckets)
    → collect durable nodes carry ≡ some next
    → count_carry f next ≡ count_carry f carry + count_nodes f nodes
unfolding collect
collect-count f durable [] carry next h = let out : carry ≡ next = cc in rw (← out) (omega arith)
collect-count f durable (node ∷ nodes) carry next h =
    elim (Option-cases (collect_node durable node carry)) [
      | inl e ↦ absurd (cc (rw (e, collect) at h))
      | inr (mid, e) ↦ omega (
        arith,
        collect_node-count f durable node carry mid e,
        collect-count f durable nodes mid next (rw (e, collect) at h),
      )
    ]

-- Buckets in the order of their epochs, all behind `low`, each full and with records of its own epoch.
abbrev pub IsOrdered : ℕ → Buckets → Type 0
IsOrdered low [] = Unit
IsOrdered low ((epoch, records) ∷ carry) =
    (low < epoch)
    × (is_empty records ≡ false)
    × (epochs_agree epoch records ≡ true)
    × IsOrdered epoch carry

IsOrdered-lower :
    (low high : ℕ) (carry : Buckets) → low ≤ high → IsOrdered high carry → IsOrdered low carry
IsOrdered-lower low high [] h o = tt
IsOrdered-lower low high ((epoch, records) ∷ carry) h (a, b, c, d) = (omega arith, b, c, d)

epochs_agree-append :
    (epoch : ℕ) (xs : List LogRecord) (r : LogRecord)
    → epochs_agree epoch xs ≡ true
    → r.epoch ≡ epoch
    → epochs_agree epoch (xs ++ (r ∷ [])) ≡ true
unfolding epochs_agree
epochs_agree-append epoch [] r h e = ground arith
epochs_agree-append epoch (x ∷ xs) r h e = ground (arith, epochs_agree-append epoch xs r)

append-is_empty : (xs : List LogRecord) (r : LogRecord) → is_empty (xs ++ (r ∷ [])) ≡ false
append-is_empty [] r = refl
append-is_empty (x ∷ xs) r = refl

carry_record-IsOrdered :
    (low : ℕ) (r : LogRecord) (carry : Buckets)
    → low < r.epoch
    → IsOrdered low carry
    → IsOrdered low (carry_record r carry)
unfolding carry_record epochs_agree
carry_record-IsOrdered low r [] h o = (h, refl, ground arith, tt)
carry_record-IsOrdered low r ((epoch, records) ∷ carry) h (a, b, c, d) =
    elim (Bool-cases (r.epoch == epoch)) [
      | inl e ↦
          rw e
            (a, append-is_empty records r, epochs_agree-append epoch records r c (ground arith), d)
      | inr n ↦ elim (Bool-cases (ltb r.epoch epoch)) [
        | inl l ↦ rw (n, l) (h, refl, ground arith, (ground arith, b, c, d))
        | inr m ↦ rw (n, m) (a, b, c, carry_record-IsOrdered epoch r carry (ground arith) d)
      ]
    ]

collect_node-IsOrdered :
    (durable : ℕ) (node : List LogRecord) (carry next : Buckets)
    → IsOrdered durable carry
    → collect_node durable node carry ≡ some next
    → IsOrdered durable next
unfolding collect_node
collect_node-IsOrdered durable [] carry next o h = let out : carry ≡ next = cc in rw (← out) o
collect_node-IsOrdered durable (r ∷ node) carry next o h = elim (Bool-cases (leb r.epoch durable)) [
  | inl e ↦ absurd (cc (rw e at h))
  | inr n ↦
      collect_node-IsOrdered durable node (carry_record r carry) next
        (carry_record-IsOrdered durable r carry (ground arith) o) (rw n at h)
]

pub collect-IsOrdered :
    (durable : ℕ) (nodes : List (List LogRecord)) (carry next : Buckets)
    → IsOrdered durable carry
    → collect durable nodes carry ≡ some next
    → IsOrdered durable next
unfolding collect
collect-IsOrdered durable [] carry next o h = let out : carry ≡ next = cc in rw (← out) o
collect-IsOrdered durable (node ∷ nodes) carry next o h =
    elim (Option-cases (collect_node durable node carry)) [
      | inl e ↦ absurd (cc (rw (e, collect) at h))
      | inr (mid, e) ↦
          collect-IsOrdered durable nodes mid next
            (collect_node-IsOrdered durable node carry mid o e) (rw (e, collect) at h)
    ]
