-- ===== src/Types/PackedKeys/Erase.antt =====
-- `Erase` removes the key exactly if it is there, and keeps the rest.
use lineair_db.Base.{ℕ, zero, suc, ◌+◌, ◌≤◌, ◌≡◌, refl, sym, ap, ◌∙◌, arith}
use lineair_db.Base.{true, false, not, none, some, List, [], ◌∷◌, ◌++◌, append_assoc, ◌==◌}
use lineair_db.Base.{length, length-append, All, Bool-cases, inl, inr, if◌then◌else◌}
use lineair_db.Types.Outcome.{value, ◌>>=◌}
use lineair_db.Types.Keys.{Key, IsKey, key_eq, key_lt, key_lt_total}
use lineair_db.Types.Records.{Record, record_key, write_record, write_records, decode_record}
use lineair_db.Types.Records.RoundTrip.{write_record-shape, decode_record-write, record_key-write}
use lineair_db.Types.PackedKeys.{
  PackedPrimaryKeys, check_fits_uint32, cut, erase_loop, erase, Update, unchanged, replaced, before,
}
use lineair_db.Types.PackedKeys.Layout.{
  packed, fits, fill_lem, count-le-bytes, IsSorted, has_key, erase_key, not-has_key_below,
  write_records-append, before_lem,
}

module _ (pre post : List Key) (x : Key) where
  remaining :
      before (write_records (pre ++ (x ∷ post))) (write_records (x ∷ post)) ++ write_records post
      ≡ write_records (pre ++ post)
  remaining = rw (write_records-append pre (x ∷ post), write_records-append pre post, before_lem)

  removed :
      length (write_records (pre ++ (x ∷ post)))
      ≡ length (write_records (pre ++ post)) + length (write_record x)
  unfolding write_records
  removed =
      rw (write_records-append pre post, write_records-append pre (x ∷ post))
        (omega (
          arith,
          length-append (write_records pre) (write_records (x ∷ post)),
          length-append (write_records pre) (write_records post),
          length-append (write_record x) (write_records post),
        ))

  fewer : length (pre ++ (x ∷ post)) ≡ length (pre ++ post) + 1
  fewer = omega (arith, length-append pre (x ∷ post), length-append pre post)

  -- The list without the record of `x`.
  cut_lem :
      (r : Record)
      → All IsKey (pre ++ (x ∷ post))
      → fits (pre ++ (x ∷ post)) ≡ true
      → r.start ≡ write_records (x ∷ post)
      → r.next ≡ write_records post
      → cut (packed (pre ++ (x ∷ post))) r ≡ value (replaced (packed (pre ++ post)))
  unfolding cut check_fits_uint32
  cut_lem r k f s n =
      rw (s, n)
        (rw remaining (
          ground (
            arith,
            removed,
            fewer,
            count-le-bytes (pre ++ (x ∷ post)) k,
            tail_bytes,
            fill_lem (length (pre ++ post)) (length (write_records (pre ++ post)))
                (write_records (pre ++ post)) refl,
          )))
    where
      tail_bytes :
          length (write_records (x ∷ post)) ≡ length (write_record x) + length (write_records post)
      tail_bytes = unfold write_records in length-append (write_record x) (write_records post)

erase_round :
    (fuel : ℕ) (keys : PackedPrimaryKeys) (cursor : List ℕ) (key : Key)
    → 1 ≤ length cursor
    → erase_loop (suc fuel) keys cursor key ≡ (
        decode_record cursor >>= λ r.
        if key_eq (record_key r) key
        then cut keys r
        else (if not (key_lt (record_key r) key)
            then value unchanged
            else erase_loop fuel keys r.next key))
unfolding erase_loop
erase_round fuel keys [] key h = absurd (omega arith)
erase_round fuel keys (b ∷ cursor) key h = refl

abbrev record_at : Key → List Key → Record
record_at x post = record {
  start = write_record x ++ write_records post;
  val = x ++ write_records post;
  next = write_records post;
  len = length x;
}

-- One round of the scan, at the record of `x`.
erase_loop-record :
    (fuel : ℕ) (all : PackedPrimaryKeys) (x key : Key) (post : List Key)
    → IsKey x
    → erase_loop (suc fuel) all (write_records (x ∷ post)) key ≡ (
        if key_eq x key
        then cut all (record_at x post)
        else (if not (key_lt x key)
            then value unchanged
            else erase_loop fuel all (write_records post) key))
unfolding write_records
erase_loop-record fuel all x key post k =
    erase_round fuel all (write_record x ++ write_records post) key
      (rw length-append (omega (arith, write_record-shape k)))
    ∙ rw (decode_record-write k (write_records post), record_key-write k (write_records post))

-- The keys before the scan, `pre`, stay whatever it finds.
abbrev erased : List Key → Key → List Key → Update
erased pre key keys =
    if has_key key keys then replaced (packed (pre ++ erase_key key keys)) else unchanged

erased-behind :
    (pre keys : List Key) (x key : Key)
    → key_eq x key ≡ false
    → erased (pre ++ (x ∷ [])) key keys ≡ erased pre key (x ∷ keys)
unfolding has_key erase_key
erased-behind pre keys x key n = rw (n, append_assoc)

erased_none :
    (pre keys : List Key) (x key : Key)
    → key_eq x key ≡ false
    → has_key key keys ≡ false
    → erased pre key (x ∷ keys) ≡ unchanged
unfolding has_key
erased_none pre keys x key n h = rw (n, h)

erase_here :
    (all pre keys : List Key) (x key : Key)
    → all ≡ pre ++ (x ∷ keys)
    → All IsKey all
    → fits all ≡ true
    → key_eq x key ≡ true
    → cut (packed all) (record_at x keys) ≡ value (erased pre key (x ∷ keys))
unfolding has_key erase_key write_records
erase_here all pre keys x key e a f same =
    rw e (rw same (cut_lem pre keys x (record_at x keys) (rw e at a) (rw e at f) refl refl))

pub length-write_records-cons :
    (x : Key) (keys : List Key)
    → length (write_records (x ∷ keys)) ≡ length (write_record x) + length (write_records keys)
unfolding write_records
length-write_records-cons x keys = length-append (write_record x) (write_records keys)

erase_loop_lem :
    (fuel : ℕ) (all pre keys : List Key) (key : Key)
    → all ≡ pre ++ keys
    → All IsKey keys
    → All IsKey all
    → IsSorted keys
    → fits all ≡ true
    → length (write_records keys) ≤ fuel
    → erase_loop fuel (packed all) (write_records keys) key ≡ value (erased pre key keys)
erase_loop_lem fuel all pre [] key e k a s f h = unfold write_records has_key erase_loop in refl
erase_loop_lem zero all pre (x ∷ keys) key e k a s f h =
    absurd (omega (arith, write_record-shape k.0, length-write_records-cons x keys))
erase_loop_lem (suc fuel) all pre (x ∷ keys) key e k a s f h =
    erase_loop-record fuel (packed all) x key keys k.0 ∙ elim (Bool-cases (key_eq x key)) [
      | inl same ↦ rw same (erase_here all pre keys x key e a f same)
      | inr n ↦ elim (Bool-cases (key_lt x key)) [
        | inl lt ↦
            rw (n, lt)
              (erase_loop_lem fuel all (pre ++ (x ∷ [])) keys key
                  (e ∙ sym (append_assoc pre (x ∷ []) keys)) k.1 a s.1 f
                  (omega (arith, write_record-shape k.0, length-write_records-cons x keys))
                ∙ ap value (erased-behind pre keys x key n))
        | inr ge ↦
            rw (n, ge)
              (ap value (
                sym (
                  erased_none pre keys x key n
                    (not-has_key_below key x keys (key_lt_total x key ge n) s.0))))
      ]
    ]

not_empty : (n : ℕ) → (suc n == 0) ≡ false
not_empty n = ground arith

-- `Erase` from the packed list of ascending keys that fits 32 bits leaves the list alone where the key
-- is not there, and is else the packed list of the other keys.
pub erase_lem :
    (keys : List Key) (key : Key)
    → All IsKey keys
    → IsSorted keys
    → fits keys ≡ true
    → erase (some (packed keys)) key
      ≡ value (if has_key key keys then replaced (packed (erase_key key keys)) else unchanged)
unfolding erase
erase_lem [] key k s f = unfold has_key in refl
erase_lem (x ∷ keys) key k s f = rw (not_empty (length keys)) (
    erase_loop_lem (length (write_records (x ∷ keys))) (x ∷ keys) [] (x ∷ keys) key refl k k s f
      (omega arith))

pub erase_null : (key : Key) → erase none key ≡ value unchanged
unfolding erase
erase_null key = refl
