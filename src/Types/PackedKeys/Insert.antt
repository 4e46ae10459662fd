-- ===== src/Types/PackedKeys/Insert.antt =====
-- `Insert` keeps a packed list sorted, and inserts the key exactly if it is not there.
use lineair_db.Base.{ℕ, zero, suc, ◌+◌, ◌≤◌, ◌≡◌, refl, sym, subst, ap, ◌∙◌, arith, if◌then◌else◌}
use lineair_db.Base.{Bool, true, false, not, Option, none, some, List, [], ◌∷◌, ◌++◌}
use lineair_db.Base.{length, length-append, All, Bool-cases, inl, inr, ◌⊎◌}
use lineair_db.Types.Outcome.{Outcome, value, length_error, ◌>>=◌}
use lineair_db.Types.Keys.{Key, IsKey, key_eq, key_lt, key_lt_total}
use lineair_db.Types.Records.{write_record, write_records, decode_record}
use lineair_db.Types.Records.RoundTrip.{
  encoded_record_size-length, write_record-shape, decode_record-write, record_key-write,
}
use lineair_db.Types.Records.{record_key}
use lineair_db.Types.PackedKeys.{
  check_fits_uint32, insert_loop, insert_at, insert, unchanged, replaced, before,
}
use lineair_db.Types.PackedKeys.Build.{from_one_lem}
use lineair_db.Types.PackedKeys.Layout.{
  packed, fits, fill_lem, count-le-bytes, IsSorted, has_key, insert_sorted, not-has_key_below,
  write_records-append, before_lem,
}

-- What the scan of a packed list finds: the key, or two parts between which it belongs.
abbrev Found : List Key → Key → Outcome (Option (List ℕ)) → Type 0
Found keys key scan =
    ((has_key key keys ≡ true) × (scan ≡ value none))
    ⊎ ((pre : List Key) × (post : List Key) × (has_key key keys ≡ false)
        × (keys ≡ pre ++ post)
        × (insert_sorted key keys ≡ pre ++ (key ∷ post))
        × (scan ≡ value (some (write_records post))))

scan_round :
    (fuel : ℕ) (cursor : List ℕ) (key : Key)
    → 1 ≤ length cursor
    → insert_loop (suc fuel) cursor key ≡ (
        decode_record cursor >>= λ r.
        if key_eq (record_key r) key
        then value none
        else (if not (key_lt (record_key r) key)
            then value (some r.start)
            else insert_loop fuel r.next key))
unfolding insert_loop
scan_round fuel [] key h = absurd (omega arith)
scan_round fuel (b ∷ cursor) key h = refl

-- One round of the scan, at the record of `x`.
insert_loop-record :
    (fuel : ℕ) (x key : Key) (keys : List Key)
    → IsKey x
    → insert_loop (suc fuel) (write_records (x ∷ keys)) key ≡ (
        if key_eq x key
        then value none
        else (if not (key_lt x key)
            then value (some (write_records (x ∷ keys)))
            else insert_loop fuel (write_records keys) key))
unfolding write_records
insert_loop-record fuel x key keys k =
    scan_round fuel (write_record x ++ write_records keys) key
      (rw length-append (omega (arith, write_record-shape k)))
    ∙ rw (decode_record-write k (write_records keys), record_key-write k (write_records keys))

-- A key that is in a list, at its front or behind.
module _ (x key : Key) (keys : List Key) where
  Found-here :
      (scan : Outcome (Option (List ℕ)))
      → key_eq x key ≡ true
      → scan ≡ value none
      → Found (x ∷ keys) key scan
  unfolding has_key
  Found-here scan e s = inl (ground arith, s)

  Found-behind :
      (scan : Outcome (Option (List ℕ)))
      → key_eq x key ≡ false
      → key_lt x key ≡ true
      → Found keys key scan
      → Found (x ∷ keys) key scan
  unfolding has_key insert_sorted
  Found-behind scan e lt (inl (h, s)) = inl (ground arith, s)
  Found-behind scan e lt (inr (pre, post, h, same, new, s)) =
      inr (x ∷ pre, post, ground arith, ap (λ l. x ∷ l) same, rw (e, lt) (ap (λ l. x ∷ l) new), s)

-- On a sorted list the scan finds the key, or the place that keeps the list sorted.
insert_loop-Found :
    (fuel : ℕ) (keys : List Key) (key : Key)
    → All IsKey keys
    → IsSorted keys
    → length (write_records keys) ≤ fuel
    → Found keys key (insert_loop fuel (write_records keys) key)
unfolding write_records has_key insert_sorted insert_loop
insert_loop-Found fuel [] key k s h = inr ([], [], refl, refl, refl, refl)
insert_loop-Found zero (x ∷ keys) key k s h =
    absurd
      (omega (arith, write_record-shape k.0, length-append (write_record x) (write_records keys)))
insert_loop-Found (suc fuel) (x ∷ keys) key k s h = elim (Bool-cases (key_eq x key)) [
  | inl e ↦ Found-here x key keys _ e (insert_loop-record fuel x key keys k.0 ∙ rw e)
  | inr n ↦ elim (Bool-cases (key_lt x key)) [
    | inl lt ↦
        let e : insert_loop (suc fuel) (write_records (x ∷ keys)) key
            ≡ insert_loop fuel (write_records keys) key =
          insert_loop-record fuel x key keys k.0 ∙ rw (n, lt) in
        subst (Found (x ∷ keys) key) (sym e) (
          Found-behind x key keys _ n lt (
            insert_loop-Found fuel keys key k.1 s.1 (
              omega (
                arith,
                write_record-shape k.0,
                length-append (write_record x) (write_records keys),
              ))))
    | inr ge ↦ inr (
      [],
      x ∷ keys,
      rw (n, not-has_key_below key x keys (key_lt_total x key ge n) s.0),
      refl,
      rw (n, ge),
      insert_loop-record fuel x key keys k.0 ∙ rw (n, ge),
    )
  ]
]

module _ (pre post : List Key) (key : Key) where
  written :
      before (write_records (pre ++ post)) (write_records post)
        ++ (write_record key ++ write_records post)
      ≡ write_records (pre ++ (key ∷ post))
  unfolding write_records
  written = rw (write_records-append pre post, write_records-append pre (key ∷ post), before_lem)

  new_bytes :
      length (write_records (pre ++ (key ∷ post)))
      ≡ length (write_records (pre ++ post)) + length (write_record key)
  unfolding write_records
  new_bytes =
      rw
        (
          write_records-append pre post,
          write_records-append pre (key ∷ post),
          length-append,
          length-append,
          length-append,
        )
        (omega arith)

  new_count : length (pre ++ (key ∷ post)) ≡ length (pre ++ post) + 1
  new_count = omega (arith, length-append pre (key ∷ post), length-append pre post)

  insert_at_lem :
      All IsKey (pre ++ post)
      → fits (pre ++ post) ≡ true
      → IsKey key
      → insert_at (packed (pre ++ post)) key (some (write_records post)) ≡ (
          if fits (pre ++ (key ∷ post))
          then value (replaced (packed (pre ++ (key ∷ post))))
          else length_error)
  unfolding insert_at check_fits_uint32
  insert_at_lem k f kk = rw written (
      ground (
        arith,
        new_bytes,
        new_count,
        count-le-bytes (pre ++ post) k,
        write_record-shape kk,
        encoded_record_size-length kk,
        fill_lem (length (pre ++ post) + 1)
            (length (write_records (pre ++ post)) + length (write_record key))
            (write_records (pre ++ (key ∷ post))),
      ))

-- `Insert` of a key into the packed list of ascending keys that fits 32 bits leaves the list alone
-- where the key is there, throws where the new payload would not fit 32 bits, and is else the packed
-- list with the key in its place.
pub insert_lem :
    (keys : List Key) (key : Key)
    → All IsKey keys
    → IsSorted keys
    → fits keys ≡ true
    → IsKey key
    → insert (some (packed keys)) key ≡ (
        if has_key key keys
        then value unchanged
        else (if fits (insert_sorted key keys)
            then value (replaced (packed (insert_sorted key keys)))
            else length_error))
unfolding insert
insert_lem keys key k s f kk =
    place (insert_loop-Found (length (write_records keys)) keys key k s (omega arith))
  where
    place :
        {scan : Outcome (Option (List ℕ))}
        → Found keys key scan
        → (scan >>= insert_at (packed keys) key) ≡ (
            if has_key key keys
            then value unchanged
            else (if fits (insert_sorted key keys)
                then value (replaced (packed (insert_sorted key keys)))
                else length_error))
    place (inl (h, e)) = rw (h, e) (unfold insert_at in refl)
    place (inr (pre, post, h, same, new, e)) =
        rw (h, e, new, same) (insert_at_lem pre post key (rw same at k) (rw same at f) kk)

-- `Insert` into the null pointer makes a list of the one key.
pub insert-none :
    (key : Key)
    → IsKey key
    → insert none key
      ≡ (if fits (key ∷ []) then value (replaced (packed (key ∷ []))) else length_error)
unfolding insert
insert-none key k = rw (from_one_lem key k) (choose (fits (key ∷ [])))
  where
    choose :
        (b : Bool)
        → ((if b then value (packed (key ∷ [])) else length_error) >>= λ next.
            value (replaced next))
          ≡ (if b then value (replaced (packed (key ∷ []))) else length_error)
    choose true = refl
    choose false = refl
