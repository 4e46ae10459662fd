-- ===== src/Recovery/Flusher/Flushes.antt =====
-- What a flush of src/recovery/impl/thread_local_logger.cpp carries on, and what it asks of the log.
use lineair_db.Base.{
  ℕ, ◌≤◌, ◌≡◌, arith, some, List, [], ◌∷◌, ◌++◌, length, ltb, leb, Bool-cases, inl, inr,
  le→ltb_false, ne→==,
}
use lineair_db.Recovery.LogRecord.{LogRecord, MsgPack}
use lineair_db.Recovery.Disk.{einval, eoverflow}
use lineair_db.Recovery.Wal.{Wal, k_max_payload_size, encode_frame}
use lineair_db.Recovery.Wal.Append.{Buckets, refused, encode_loop}
use lineair_db.Recovery.Flusher.{collect, erase_through}
use lineair_db.Recovery.Flusher.Collected.{collect-IsOrdered, IsOrdered}

pub erase_through-IsOrdered :
    (target low : ℕ) (carry : Buckets)
    → IsOrdered low carry
    → IsOrdered target (erase_through target carry)
unfolding erase_through
erase_through-IsOrdered target low [] o = tt
erase_through-IsOrdered target low ((epoch, records) ∷ carry) (a, b, c, d) =
    elim (Bool-cases (leb epoch target)) [
      | inl e ↦ rw e (erase_through-IsOrdered target epoch carry d)
      | inr n ↦ rw n (ground arith, b, c, d)
    ]

encode_loop-IsOrdered :
    (codec : MsgPack) (frontier target low : ℕ) (buckets : Buckets) (group : List ℕ) (last e : ℕ)
    → frontier ≤ low
    → IsOrdered low buckets
    → encode_loop codec frontier target buckets group last ≡ refused e
    → e ≡ eoverflow
unfolding encode_loop
encode_loop-IsOrdered codec frontier target low [] group last e h o r = absurd (cc r)
encode_loop-IsOrdered codec frontier target low ((epoch, records) ∷ buckets) group last e h
      (a, b, c, d) r =
    let payload = codec.pack records in
    elim (Bool-cases (ltb target epoch)) [
      | inl l ↦ absurd (cc (rw l at r))
      | inr n ↦ elim (Bool-cases (ltb k_max_payload_size (length payload))) [
        | inl big ↦ ground (arith)
        | inr small ↦
            encode_loop-IsOrdered codec frontier target epoch buckets
              (group ++ encode_frame epoch payload) epoch e (omega arith) d
              (rw
                (
                  n,
                  b,
                  ne→== epoch 0 (omega arith),
                  le→ltb_false epoch frontier (omega arith),
                  c,
                  small,
                )
                at r)
      ]
    ]

-- The buckets that a flush collects, of carried buckets in the order of their epochs, all behind the
-- durable epoch, with the log's frontier at most the durable epoch, are never refused with EINVAL,
-- whatever the target.
pub encode_loop-collect :
    (codec : MsgPack) (w : Wal) (durable : ℕ) (nodes : List (List LogRecord)) (carry next : Buckets)
    (target : ℕ)
    → w.frontier ≤ durable
    → IsOrdered durable carry
    → collect durable nodes carry ≡ some next
    → ¬ (encode_loop codec w.frontier target next [] w.frontier ≡ refused einval)
encode_loop-collect codec w durable nodes carry next target h o c r =
    let never : einval ≡ eoverflow =
      encode_loop-IsOrdered codec w.frontier target durable next [] w.frontier einval h
        (collect-IsOrdered durable nodes carry next o c) r in
    absurd (omega (arith, never))
