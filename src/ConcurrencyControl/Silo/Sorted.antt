-- ===== src/ConcurrencyControl/Silo/Sorted.antt =====
-- The order in which src/concurrency_control/impl/silo_nwr.hpp locks a write set, by `Compare` of
-- src/types/snapshot.hpp.
use lineair_db.Base.{
  ℕ, ◌+◌, ◌≡◌, ◌⊎◌, refl, sym, subst, ◌∙◌, arith, Bool, true, false, not, List, [], ◌∷◌, All,
  Bool-cases, inl, inr, if◌then◌else◌,
}
use lineair_db.Types.Keys.{
  Key, key_eq, key_lt, key_eq_refl, eq_of_key_eq, key_lt_irrefl, key_lt_total,
}
use lineair_db.Types.Snapshot.{Snapshot, compare}
use lineair_db.Types.Snapshot.Order.{compare_trans, compare_irrefl}
use lineair_db.ConcurrencyControl.Silo.{Entry, insert_entry, sort_entries}

abbrev pub names : Snapshot → List Key
names s = s.table_name ∷ s.index_name ∷ s.key ∷ []

-- The order of lists of strings by the first that differs.
abbrev pub Before : List Key → List Key → Type 0
Before [] others = ⊥
Before (a ∷ keys) [] = ⊥
Before (a ∷ keys) (b ∷ others) = (key_lt a b ≡ true) ⊎ ((a ≡ b) × Before keys others)

-- One level of the comparison.
level-true :
    (a b : Key) (x : Bool)
    → (if not (key_eq a b) then key_lt a b else x) ≡ true
    → (key_lt a b ≡ true) ⊎ ((a ≡ b) × (x ≡ true))
level-true a b x h = elim (Bool-cases (key_eq a b)) [
  | inl e ↦ inr (eq_of_key_eq a b e, rw e at h)
  | inr n ↦ inl (rw n at h)
]

level-less :
    (a b : Key) (x : Bool) → key_lt a b ≡ true → (if not (key_eq a b) then key_lt a b else x) ≡ true
level-less a b x h = elim (Bool-cases (key_eq a b)) [
  | inl e ↦
      let here : key_lt b b ≡ true = rw (eq_of_key_eq a b e) at h in cc (sym here ∙ key_lt_irrefl b)
  | inr n ↦ rw n h
]

level-same :
    (a b : Key) (x : Bool) → a ≡ b → x ≡ true → (if not (key_eq a b) then key_lt a b else x) ≡ true
level-same a b x e h = rw (e, key_eq_refl b) h

compare→Before : (s t : Snapshot) → compare s t ≡ true → Before (names s) (names t)
unfolding compare
compare→Before s t h = elim (level-true s.table_name t.table_name _ h) [
  | inl l ↦ inl l
  | inr (e, h) ↦ inr (
    e,
    elim (level-true s.index_name t.index_name _ h) [ inl l ↦ inl l | inr (f, l) ↦ inr (f, inl l) ],
  )
]

Before→compare : (s t : Snapshot) → Before (names s) (names t) → compare s t ≡ true
unfolding compare
Before→compare s t (inl l) = level-less s.table_name t.table_name _ l
Before→compare s t (inr (e, inl l)) =
    level-same s.table_name t.table_name _ e (level-less s.index_name t.index_name _ l)
Before→compare s t (inr (e, inr (f, inl l))) =
    level-same s.table_name t.table_name _ e (level-same s.index_name t.index_name _ f l)
Before→compare s t (inr (e, inr (f, inr (g, none_left)))) = absurd none_left

-- Where one level is not below, it is above, or the same and the next decides.
level-false :
    (a b : Key) (x : Bool)
    → (if not (key_eq a b) then key_lt a b else x) ≡ false
    → (key_lt b a ≡ true) ⊎ ((a ≡ b) × (x ≡ false))
level-false a b x h = elim (Bool-cases (key_eq a b)) [
  | inl e ↦ inr (eq_of_key_eq a b e, rw e at h)
  | inr n ↦ inl (key_lt_total a b (rw n at h) n)
]

key-false : (a b : Key) → key_lt a b ≡ false → (key_lt b a ≡ true) ⊎ (a ≡ b)
key-false a b h = elim (Bool-cases (key_eq a b)) [
  | inl e ↦ inr (eq_of_key_eq a b e)
  | inr n ↦ inl (key_lt_total a b h n)
]

-- An entry that is not below another is above it or has its names.
compare-false : (s t : Snapshot) → compare s t ≡ false → (compare t s ≡ true) ⊎ (names s ≡ names t)
unfolding compare
compare-false s t h = elim (level-false s.table_name t.table_name _ h) [
  | inl l ↦ inl (level-less t.table_name s.table_name _ l)
  | inr (e, h) ↦ elim (level-false s.index_name t.index_name _ h) [
    | inl l ↦
        inl (
          level-same t.table_name s.table_name _ (sym e) (level-less t.index_name s.index_name _ l))
    | inr (f, h) ↦ elim (key-false s.key t.key h) [
      | inl l ↦ inl (
          level-same t.table_name s.table_name _ (sym e)
            (level-same t.index_name s.index_name _ (sym f) l))
      | inr g ↦ inr (rw (e, f, g) refl)
    ]
  ]
]

not_below_trans :
    (s t u : Snapshot) → compare s t ≡ false → compare t u ≡ false → compare s u ≡ false
not_below_trans s t u h j = elim (Bool-cases (compare s u)) [
  | inr n ↦ n
  | inl l ↦ elim (compare-false t u j) [
    | inl k ↦ cc (sym h ∙ compare_trans s u t l k)
    | inr e ↦
        let below : compare s t ≡ true =
          Before→compare s t (subst (Before (names s)) (sym e) (compare→Before s u l)) in
        cc (sym h ∙ below)
  ]
]

compare_asym : (s t : Snapshot) → compare s t ≡ true → compare t s ≡ false
compare_asym s t h = elim (Bool-cases (compare t s)) [
  | inr n ↦ n
  | inl l ↦ cc (sym (compare_trans s t s h l) ∙ compare_irrefl s)
]

-- No entry of a list is below `e`.
abbrev NoneBelow : Entry → List Entry → Type 0
NoneBelow e = All (λ (f : Entry). compare f.snapshot e.snapshot ≡ false)

abbrev Ascends : List Entry → Type 0
Ascends [] = Unit
Ascends (e ∷ entries) = NoneBelow e entries × Ascends entries

NoneBelow-trans :
    (e f : Entry) (entries : List Entry)
    → compare f.snapshot e.snapshot ≡ false
    → NoneBelow f entries
    → NoneBelow e entries
NoneBelow-trans e f [] h n = tt
NoneBelow-trans e f (x ∷ entries) h n =
    (not_below_trans x.snapshot f.snapshot e.snapshot n.0 h, NoneBelow-trans e f entries h n.1)

insert_entry-NoneBelow :
    (e f : Entry) (entries : List Entry)
    → compare e.snapshot f.snapshot ≡ false
    → NoneBelow f entries
    → NoneBelow f (insert_entry e entries)
unfolding insert_entry
insert_entry-NoneBelow e f [] h n = (h, tt)
insert_entry-NoneBelow e f (x ∷ entries) h n = elim (Bool-cases (compare x.snapshot e.snapshot)) [
  | inl l ↦ rw l (n.0, insert_entry-NoneBelow e f entries h n.1)
  | inr m ↦ rw m (h, n)
]

insert_entry-Ascends :
    (e : Entry) (entries : List Entry) → Ascends entries → Ascends (insert_entry e entries)
unfolding insert_entry
insert_entry-Ascends e [] a = (tt, tt)
insert_entry-Ascends e (f ∷ entries) a = elim (Bool-cases (compare f.snapshot e.snapshot)) [
  | inl l ↦ rw l (
    insert_entry-NoneBelow e f entries (compare_asym f.snapshot e.snapshot l) a.0,
    insert_entry-Ascends e entries a.1,
  )
  | inr n ↦ rw n ((n, NoneBelow-trans e f entries n a.0), a)
]

sort_entries-Ascends : (entries : List Entry) → Ascends (sort_entries entries)
unfolding sort_entries
sort_entries-Ascends [] = tt
sort_entries-Ascends (e ∷ entries) =
    insert_entry-Ascends e (sort_entries entries) (sort_entries-Ascends entries)

abbrev pub count : (Entry → Bool) → List Entry → ℕ
count f [] = 0
count f (e ∷ entries) = (if f e then 1 else 0) + count f entries

insert_entry-count :
    (f : Entry → Bool) (e : Entry) (entries : List Entry)
    → count f (insert_entry e entries) ≡ (if f e then 1 else 0) + count f entries
unfolding insert_entry
insert_entry-count f e [] = refl
insert_entry-count f e (x ∷ entries) = elim (Bool-cases (compare x.snapshot e.snapshot)) [
  | inl l ↦ rw l (omega (arith, insert_entry-count f e entries))
  | inr n ↦ rw n refl
]

sort_entries-count :
    (f : Entry → Bool) (entries : List Entry) → count f (sort_entries entries) ≡ count f entries
unfolding sort_entries
sort_entries-count f [] = refl
sort_entries-count f (e ∷ entries) =
    omega (arith, insert_entry-count f e (sort_entries entries), sort_entries-count f entries)

-- No later entry has names before those of an earlier one.
abbrev pub IsInOrder : List Entry → Type 0
IsInOrder [] = Unit
IsInOrder (e ∷ entries) =
    All (λ (f : Entry). ¬ Before (names f.snapshot) (names e.snapshot)) entries × IsInOrder entries

NoneBelow-Before :
    (e : Entry) (entries : List Entry)
    → NoneBelow e entries
    → All (λ (f : Entry). ¬ Before (names f.snapshot) (names e.snapshot)) entries
NoneBelow-Before e [] n = tt
NoneBelow-Before e (f ∷ entries) n = (
  λ b. absurd (cc (sym n.0 ∙ Before→compare f.snapshot e.snapshot b)),
  NoneBelow-Before e entries n.1,
)

Ascends-IsInOrder : (entries : List Entry) → Ascends entries → IsInOrder entries
Ascends-IsInOrder [] a = tt
Ascends-IsInOrder (e ∷ entries) a = (NoneBelow-Before e entries a.0, Ascends-IsInOrder entries a.1)

pub record IsSorted (entries sorted : List Entry) : Type 0 where
  pub in_order : IsInOrder sorted
  pub same : (f : Entry → Bool) → count f sorted ≡ count f entries

-- The sort of a write set before its items are locked: in what it returns no later entry comes before
-- an earlier one, in the order of the lists of the table's name, the index's name and the key, by the
-- first of the three that differs; and whatever test is counted, its entries are those of the write
-- set.
pub sort_entries-IsSorted : (entries : List Entry) → IsSorted entries (sort_entries entries)
sort_entries-IsSorted entries = record {
  in_order = Ascends-IsInOrder (sort_entries entries) (sort_entries-Ascends entries);
  same = λ f. sort_entries-count f entries;
}
