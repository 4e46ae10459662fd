-- ===== src/Recovery/Wal/Append/Encoding.antt =====
-- The group that an append builds of buckets that the log accepts.
use lineair_db.Base.{ℕ, ◌≤◌, ◌≡◌, sym, ap, ◌∙◌, arith, List, [], ◌∷◌, ◌++◌}
use lineair_db.Base.{length, append_assoc, append-nil, le→ltb_false, ne→==}
use lineair_db.Recovery.LogRecord.{MsgPack}
use lineair_db.Recovery.Wal.{encode_frame, k_max_payload_size}
use lineair_db.Recovery.Wal.Append.{Buckets, encoded, encode_loop}
use lineair_db.Recovery.Wal.Scan.Frames.{Loggable, frames}

-- The epoch of the last bucket.
unfoldable pub last_epoch : ℕ → Buckets → ℕ
last_epoch last [] = last
last_epoch last ((epoch, records) ∷ buckets) = last_epoch epoch buckets

abbrev pub UpTo : ℕ → Buckets → Type 0
UpTo target [] = Unit
UpTo target ((epoch, records) ∷ buckets) = (epoch ≤ target) × UpTo target buckets

-- Of buckets that the log accepts behind its frontier, and that are up to the target epoch, the group
-- of an append is their frames, one after the other, and its epoch is the one of the last bucket.
pub encode_loop-frames :
    (codec : MsgPack) (frontier target : ℕ) (buckets : Buckets) (group : List ℕ) (low last : ℕ)
    → frontier ≤ low
    → Loggable codec low buckets
    → UpTo target buckets
    → encode_loop codec frontier target buckets group last
      ≡ encoded (group ++ frames codec buckets) (last_epoch last buckets)
unfolding encode_loop frames last_epoch Loggable
encode_loop-frames codec frontier target [] group low last h l u =
    ap (λ (g : List ℕ). encoded g last) (sym (append-nil group))
encode_loop-frames codec frontier target ((epoch, records) ∷ buckets) group low last h
      (full, some_epoch, order, small, agree, short, l) u =
    let frame : List ℕ = encode_frame epoch (codec.pack records) in
    rw
      (
        le→ltb_false target epoch u.0,
        full,
        ne→== epoch 0 (omega arith),
        le→ltb_false epoch frontier (omega arith),
        agree,
        le→ltb_false k_max_payload_size (length (codec.pack records)) short,
      )
      (encode_loop-frames codec frontier target buckets (group ++ frame) epoch epoch (omega arith) l
          u.1
        ∙ ap (λ (g : List ℕ). encoded g (last_epoch epoch buckets))
            (append_assoc group frame (frames codec buckets)))
