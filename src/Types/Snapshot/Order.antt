-- ===== src/Types/Snapshot/Order.antt =====
-- The order in which a commit locks its write set.
use lineair_db.Base.{◌≡◌, sym, ◌∙◌, Bool, true, false, not, Bool-cases, inl, inr, if◌then◌else◌}
use lineair_db.Types.Keys.{
  Key, key_eq, key_lt, key_eq_refl, eq_of_key_eq, key_lt_irrefl, key_lt_trans,
}
use lineair_db.Types.Snapshot.{Snapshot, compare}

-- The two levels that are compared before the key.
abbrev lex : Key → Key → Bool → Bool
lex a b rest = if not (key_eq a b) then key_lt a b else rest

lex_irrefl : (a : Key) (rest : Bool) → lex a a rest ≡ rest
lex_irrefl a rest = rw (key_eq_refl a)

lex_trans :
    (a b c : Key) (x y z : Bool)
    → (x ≡ true → y ≡ true → z ≡ true)
    → lex a b x ≡ true
    → lex b c y ≡ true
    → lex a c z ≡ true
lex_trans a b c x y z next h j = elim (Bool-cases (key_eq a b)) [
  | inl e ↦ rw (eq_of_key_eq a b e) (elim (Bool-cases (key_eq b c)) [
    | inl f ↦ rw f (next (rw e at h) (rw f at j))
    | inr f ↦ rw f (rw f at j)
  ])
  | inr e ↦ elim (Bool-cases (key_eq b c)) [
    | inl f ↦ rw (← eq_of_key_eq b c f) (rw e (rw e at h))
    | inr f ↦
        let less : key_lt a c ≡ true = key_lt_trans a b c (rw e at h) (rw f at j) in
        elim (Bool-cases (key_eq a c)) [
          | inl g ↦
              let here : key_lt c c ≡ true = rw (eq_of_key_eq a c g) at less in
              cc (sym here ∙ key_lt_irrefl c)
          | inr g ↦ rw g less
        ]
  ]
]

-- The order of the entries of a write set is transitive: by the table's name, then the index's name,
-- then the key.
pub compare_trans :
    (s t u : Snapshot) → compare s t ≡ true → compare t u ≡ true → compare s u ≡ true
unfolding compare
compare_trans s t u =
    lex_trans s.table_name t.table_name u.table_name _ _ _
      (lex_trans s.index_name t.index_name u.index_name _ _ _ (key_lt_trans s.key t.key u.key))

pub compare_irrefl : (s : Snapshot) → compare s s ≡ false
unfolding compare
compare_irrefl s = rw (key_eq_refl s.table_name, key_eq_refl s.index_name) (key_lt_irrefl s.key)
