-- ===== src/Types/Snapshot/Deltas.antt =====
-- The deltas of an entry of a secondary index.
use lineair_db.Base.{
  ◌≡◌, refl, Bool-cases, inl, inr, Option, none, some, List, [], ◌∷◌, if◌then◌else◌,
}
use lineair_db.Types.Keys.{Key, key_eq, key_eq_refl, eq_of_key_eq}
use lineair_db.Types.Snapshot.{
  SecondaryIndexOp, SecondaryIndexDelta, Snapshot, record_delta, record_secondary_index_delta,
}

-- What the entry is to do with a primary key.
pub delta_of : Key → List SecondaryIndexDelta → Option SecondaryIndexOp
delta_of key [] = none
delta_of key (delta ∷ deltas) =
    if key_eq delta.primary_key key then some delta.op else delta_of key deltas

delta_of-record_delta :
    (j key : Key) (op : SecondaryIndexOp) (deltas : List SecondaryIndexDelta)
    → delta_of j (record_delta key op deltas)
      ≡ (if key_eq key j then some op else delta_of j deltas)
unfolding delta_of record_delta
delta_of-record_delta j key op [] = refl
delta_of-record_delta j key op (delta ∷ deltas) = elim (Bool-cases (key_eq delta.primary_key key)) [
  | inl e ↦
      rw (e, eq_of_key_eq delta.primary_key key e)
        (elim (Bool-cases (key_eq key j)) [ inl h ↦ rw h refl | inr h ↦ rw h refl ])
  | inr n ↦
      rw (n, delta_of-record_delta j key op deltas)
        (elim (Bool-cases (key_eq delta.primary_key j)) [
          | inl h ↦ rw h (elim (Bool-cases (key_eq key j)) [
            | inl k ↦
                cc (
                  rw (eq_of_key_eq delta.primary_key j h, eq_of_key_eq key j k, key_eq_refl j) at n)
            | inr k ↦ rw k refl
          ])
          | inr h ↦ rw h refl
        ])
]

-- After a delta is recorded for a primary key, what an entry is to do with that key is the recorded
-- operation, and with every other key what it was.
pub delta_of-record_secondary_index_delta :
    (j key : Key) (op : SecondaryIndexOp) (s : Snapshot)
    → delta_of j (record_secondary_index_delta s key op).secondary_index_deltas
      ≡ (if key_eq key j then some op else delta_of j s.secondary_index_deltas)
unfolding record_secondary_index_delta
delta_of-record_secondary_index_delta j key op s =
    delta_of-record_delta j key op s.secondary_index_deltas
