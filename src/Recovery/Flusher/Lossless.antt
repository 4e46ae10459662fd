-- ===== src/Recovery/Flusher/Lossless.antt =====
-- Where the records are after a flush of src/recovery/impl/thread_local_logger.cpp: in the file, or carried on.
use lineair_db.Base.{
  ℕ, ◌+◌, ◌≤◌, ◌≡◌, ◌⊎◌, refl, sym, subst, ◌∙◌, arith, Bool, true, false, ◌||◌, Option, none, some,
  List, [], ◌∷◌, ◌++◌, length, ltb, leb, ◌==◌, if◌then◌else◌, Bool-cases, inl, inr, Option-cases,
  append_assoc, append-nil,
}
use lineair_db.Recovery.LogRecord.{LogRecord, MsgPack}
use lineair_db.Recovery.Disk.{Disk}
use lineair_db.Recovery.Disk.Laws.{slice}
use lineair_db.Recovery.Wal.{Wal, ready, k_max_payload_size, encode_frame}
use lineair_db.Recovery.Wal.Append.{
  Buckets, Encoded, Appended, aborted, returned, refused, encoded, is_empty, epochs_agree,
  encode_loop, append_group,
}
use lineair_db.Recovery.Wal.Append.Acknowledged.{Written, Committed, append_group-Committed}
use lineair_db.Recovery.Wal.Append.Encoding.{UpTo}
use lineair_db.Recovery.Wal.Scan.Frames.{frames}
use lineair_db.Recovery.Flusher.{collect, erase_through, flushed, after_append, flush_through}
use lineair_db.Recovery.Flusher.Collected.{
  count_carry, count_nodes, collect-count, collect-IsOrdered, IsOrdered,
}
use lineair_db.Recovery.Flusher.Flushes.{erase_through-IsOrdered}

-- The buckets up to the target.
abbrev through : ℕ → Buckets → Buckets
through target [] = []
through target ((epoch, records) ∷ carry) =
    let rest = through target carry in if leb epoch target then (epoch, records) ∷ rest else []

through-count :
    (f : LogRecord → Bool) (target : ℕ) (carry : Buckets)
    → count_carry f (through target carry) + count_carry f (erase_through target carry)
      ≡ count_carry f carry
unfolding erase_through
through-count f target [] = refl
through-count f target ((epoch, records) ∷ carry) = elim (Bool-cases (leb epoch target)) [
  | inl e ↦ rw e (omega (arith, through-count f target carry))
  | inr n ↦ rw n (omega arith)
]

through-UpTo : (target : ℕ) (carry : Buckets) → UpTo target (through target carry)
through-UpTo target [] = tt
through-UpTo target ((epoch, records) ∷ carry) = elim (Bool-cases (leb epoch target)) [
  | inl e ↦ rw e (ground arith, through-UpTo target carry)
  | inr n ↦ rw n tt
]

through-IsOrdered :
    (target low : ℕ) (carry : Buckets) → IsOrdered low carry → IsOrdered low (through target carry)
through-IsOrdered target low [] o = tt
through-IsOrdered target low ((epoch, records) ∷ carry) (a, b, c, d) =
    elim (Bool-cases (leb epoch target)) [
      | inl e ↦ rw e (a, b, c, through-IsOrdered target epoch carry d)
      | inr n ↦ rw n tt
    ]

-- A group that is not refused is the frames of the buckets up to the target.
encode_loop-through :
    (codec : MsgPack) (frontier target : ℕ) (buckets : Buckets) (group g : List ℕ) (last l : ℕ)
    → encode_loop codec frontier target buckets group last ≡ encoded g l
    → g ≡ group ++ frames codec (through target buckets)
unfolding encode_loop frames
encode_loop-through codec frontier target [] group g last l h =
    let out : group ≡ g = cc in sym out ∙ sym (append-nil group)
encode_loop-through codec frontier target ((epoch, records) ∷ buckets) group g last l h =
    let payload = codec.pack records in
    elim (Bool-cases (leb epoch target)) [
      | inr n ↦
          let over : ltb target epoch ≡ true = ground arith in
          let out : group ≡ g = cc (rw over at h) in rw n (sym out ∙ sym (append-nil group))
      | inl e ↦
          let under : ltb target epoch ≡ false = ground arith in
          elim (Bool-cases (is_empty records || epoch == 0)) [
            | inl a ↦ absurd (cc (rw (under, a) at h))
            | inr a ↦ elim (Bool-cases (ltb epoch frontier)) [
              | inl b ↦ absurd (cc (rw (under, a, b) at h))
              | inr b ↦ elim (Bool-cases (epochs_agree epoch records)) [
                | inr c ↦ absurd (cc (rw (under, a, b, c) at h))
                | inl c ↦ elim (Bool-cases (ltb k_max_payload_size (length payload))) [
                  | inl d ↦ absurd (cc (rw (under, a, b, c, d) at h))
                  | inr d ↦ rw e (
                      encode_loop-through codec frontier target buckets
                        (group ++ encode_frame epoch payload) g epoch l
                        (rw (under, a, b, c, d) at h)
                      ∙ append_assoc group (encode_frame epoch payload)
                          (frames codec (through target buckets)))
                ]
              ]
            ]
          ]
    ]

-- Bytes that an append has put behind the old end of the log, in a file that is then synced.
pub record IsAppended (w after : Wal) (bytes : List ℕ) (d : Disk) : Type 0 where
  pub on_disk : slice w.write_offset (length bytes) d.file ≡ bytes
  pub offset : after.write_offset ≡ w.write_offset + length bytes
  pub synced : (bytes ≡ []) ⊎ (d.synced ≡ d.file)

Committed-IsAppended :
    (w : Wal) (e : Encoded) (d : Disk) (after : Wal) (d_after : Disk) (bytes : List ℕ)
    → ((g : List ℕ) (l : ℕ) → e ≡ encoded g l → g ≡ bytes)
    → Committed w e d (returned after none, d_after)
    → IsAppended w after bytes d_after
unfolding Committed Written
Committed-IsAppended w (refused e) d after d_after bytes same c = absurd (cc)
Committed-IsAppended w (encoded [] last) d after d_after bytes same c =
    let empty : [] ≡ bytes = same [] last refl in
    let kept : after ≡ w = cc in
    rw (← empty, kept) (record { on_disk = refl; offset = omega arith; synced = inl refl })
Committed-IsAppended w (encoded (b ∷ group) last) d after d_after bytes same c =
    let full : (b ∷ group) ≡ bytes = same (b ∷ group) last refl in
    subst (λ g. IsAppended w after g d_after) full
      (record { on_disk = c.on_disk; offset = c.offset; synced = inr c.synced })

-- What a flush that succeeds has done with the records that were carried or buffered.
pub record IsFlushed (codec : MsgPack) (w : Wal) (durable target : ℕ)
    (nodes : List (List LogRecord)) (carry : Buckets) (after : Wal) (left : Buckets) (d : Disk)
    : Type 0 where
  pub written : Buckets
  pub up_to : UpTo target written
  pub ordered : IsOrdered durable written
  pub appended : IsAppended w after (frames codec written) d
  pub remains : IsOrdered target left
  pub all_there :
      (f : LogRecord → Bool)
      → count_carry f written + count_carry f left ≡ count_carry f carry + count_nodes f nodes

-- What a flush that ends with an error carries on.
pub record IsCarried (durable : ℕ) (nodes : List (List LogRecord)) (carry left : Buckets)
    : Type 0 where
  pub remains : IsOrdered durable left
  pub all_there :
      (f : LogRecord → Bool) → count_carry f left ≡ count_carry f carry + count_nodes f nodes

abbrev pub FlushedBy :
    MsgPack
    → Wal
    → ℕ
    → ℕ
    → List (List LogRecord)
    → Buckets
    → Wal
    → Option ℕ
    → Buckets
    → Disk
    → Type 0
FlushedBy codec w durable target nodes carry after none left d =
    IsFlushed codec w durable target nodes carry after left d
FlushedBy codec w durable target nodes carry after (some e) left d =
    IsCarried durable nodes carry left

after_append-FlushedBy :
    (codec : MsgPack) (w : Wal) (durable target : ℕ) (nodes : List (List LogRecord))
    (carry next : Buckets) (d : Disk)
    → IsOrdered durable carry
    → collect durable nodes carry ≡ some next
    → (x : Appended × Disk)
    → Committed w (encode_loop codec w.frontier target next [] w.frontier) d x
    → (after : Wal) (err : Option ℕ) (left : Buckets) (d_after : Disk)
    → after_append target next x ≡ flushed after err left d_after
    → FlushedBy codec w durable target nodes carry after err left d_after
after_append-FlushedBy codec w durable target nodes carry next d o c (aborted, d₀) m after err left
      d_after h =
    absurd (cc h)
after_append-FlushedBy codec w durable target nodes carry next d o c (returned w₀ (some e), d₀) m
      after err left d_after h =
    let same_err : some e ≡ err = cc in
    let same_left : next ≡ left = cc in
    subst (λ x. FlushedBy codec w durable target nodes carry after x left d_after) same_err
      (subst (λ l. IsCarried durable nodes carry l) same_left
        (record {
          remains = collect-IsOrdered durable nodes carry next o c;
          all_there = λ f. collect-count f durable nodes carry next c;
        }))
after_append-FlushedBy codec w durable target nodes carry next d o c (returned w₀ none, d₀) m after
      err left d_after h =
    let same_err : none ≡ err = cc in
    let same_left : erase_through target next ≡ left = cc in
    let same_log : w₀ ≡ after = cc in
    let same_disk : d₀ ≡ d_after = cc in
    let ordered = collect-IsOrdered durable nodes carry next o c in
    let appended : IsAppended w w₀ (frames codec (through target next)) d₀ =
      Committed-IsAppended w (encode_loop codec w.frontier target next [] w.frontier) d w₀ d₀
        (frames codec (through target next))
        (λ g l e. encode_loop-through codec w.frontier target next [] g w.frontier l e) m in
    subst (λ x. FlushedBy codec w durable target nodes carry after x left d_after) same_err
      (record {
        written = through target next;
        up_to = through-UpTo target next;
        ordered = through-IsOrdered target durable next ordered;
        appended =
            subst (λ v. IsAppended w v (frames codec (through target next)) d_after) same_log
              (subst (λ v. IsAppended w w₀ (frames codec (through target next)) v) same_disk
                appended);
        remains =
            subst (IsOrdered target) same_left
              (erase_through-IsOrdered target durable next ordered);
        all_there = λ f.
            subst
              (λ l.
                count_carry f (through target next) + count_carry f l
                ≡ count_carry f carry + count_nodes f nodes)
              same_left (through-count f target next ∙ collect-count f durable nodes carry next c);
      })

-- A flush that does not abort, into a log that is ready and that ends inside the file and inside what
-- is initialised of it, of carried buckets in the order of their epochs, all behind the durable epoch,
-- loses and doubles no record, whatever the system calls do. After a success some buckets up to the
-- target, in order, stand as frames at the old end of the log, which now ends behind them, in a file
-- that is synced if there are any; what is carried on is in order and behind the target; and whatever
-- test is counted, the records written and those carried on are together those that were carried or
-- buffered. After an error, all of these are carried on, in order.
pub flush_through-lossless :
    (codec : MsgPack) (w : Wal) (durable : ℕ) (nodes : List (List LogRecord)) (carry : Buckets)
    (target : ℕ) (d : Disk) (after : Wal) (err : Option ℕ) (left : Buckets) (d_after : Disk)
    → w.state ≡ ready
    → w.write_offset ≤ w.initialised_size
    → w.write_offset ≤ length d.file
    → IsOrdered durable carry
    → flush_through codec w durable nodes carry target d ≡ flushed after err left d_after
    → FlushedBy codec w durable target nodes carry after err left d_after
unfolding flush_through
flush_through-lossless codec w durable nodes carry target d after err left d_after s i l o h =
    elim (Option-cases (collect durable nodes carry)) [
      | inl e ↦ absurd (cc (rw e at h))
      | inr (next, e) ↦
          after_append-FlushedBy codec w durable target nodes carry next d o e
            (append_group codec w next target d)
            (append_group-Committed codec w next target d s i l) after err left d_after (rw e at h)
    ]
