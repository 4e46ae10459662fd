-- ===== src/ConcurrencyControl/Silo/PivotsOnly.antt =====
-- The validation of version orders, and the update of the pivot objects, change pivot objects only.
use lineair_db.Base.{
  ℕ, zero, suc, ◌≡◌, refl, subst, ◌∙◌, Bool, true, false, not, ◌&&◌, ◌||◌, Option, none, some, List,
  [], ◌∷◌, Bool-cases, inl, inr, length,
}
use lineair_db.Types.Outcome.{value, bind_value}
use lineair_db.ConcurrencyControl.PivotObject.{NwrPivotObject}
use lineair_db.ConcurrencyControl.Memory.{World, tick, fails}
use lineair_db.ConcurrencyControl.Memory.Rely.{
  Property, IsGuarded, tick-IsGuarded, tick-held, put-IsGuarded,
}
use lineair_db.ConcurrencyControl.Silo.{Entry, ValidationItem}
use lineair_db.ConcurrencyControl.Silo.Validation.{Checked, anti_dependency_validation}
use lineair_db.ConcurrencyControl.Silo.Nwr.{
  SnapshotFrom, readset, writeset, PivotObjectSnapshot, Nwr, snapshot_all, are_of_epoch, is_acyclic,
  first_path, requires_lock_based_install, with_merged, msets_eq, pivot_eq, store_pivot,
  exchange_all, Round, refused, omitted, retried, exchange_round, squashed, validate_round,
  snapshot_round, snapshot_world, Omission, is_omittable,
}
use lineair_db.ConcurrencyControl.Silo.Pivots.{
  first_blind, merge_into, update_one, pivot_of, update_all, rebuilt, update_pivot_objects,
}
use lineair_db.ConcurrencyControl.Silo.Commit.{
  Mode, initial_nwr, is_read_only, has_insert, try_omission, omission, updates_if, stays,
}
use lineair_db.ConcurrencyControl.Silo.Still.{
  IsStill, IsStill-trans, anti_dependency_validation-IsStill, tick-IsStill,
}

IsStill-refl : (P Q : Property) (w : World) → IsGuarded P Q w → IsStill P Q w w
IsStill-refl P Q w g = record { guarded = g; held = refl }

store_pivot-IsStill :
    (P Q : Property) (w : World) (p : ℕ) (pivot : NwrPivotObject)
    → IsGuarded P Q w
    → IsStill P Q w (store_pivot p pivot w)
store_pivot-IsStill P Q w p pivot g = record {
  guarded =
      put-IsGuarded P Q Q w (store_pivot p pivot w) p (record (w.items p) { pivot_object = pivot })
        g refl refl (g.items p) (λ q n k. k);
  held = refl;
}

pub snapshot_all-IsStill :
    (P Q : Property) (from : SnapshotFrom) (entries : List Entry) (w : World)
    → IsGuarded P Q w
    → IsStill P Q w (snapshot_all from entries w).world
unfolding snapshot_all
snapshot_all-IsStill P Q from [] w g = IsStill-refl P Q w g
snapshot_all-IsStill P Q from (e ∷ entries) w g =
    IsStill-trans P Q w (tick w) (snapshot_all from entries (tick w)).world (tick-held w)
      (snapshot_all-IsStill P Q from entries (tick w) (tick-IsGuarded P Q w g))

exchange_all-IsStill :
    (P Q : Property) (mine : NwrPivotObject) (snapshots : List PivotObjectSnapshot) (w : World)
    → IsGuarded P Q w
    → IsStill P Q w (exchange_all mine snapshots w).world
unfolding exchange_all
exchange_all-IsStill P Q mine [] w g = IsStill-refl P Q w g
exchange_all-IsStill P Q mine (s ∷ snapshots) w g =
    let p : ℕ = s.item_p_cache in
    let merged : NwrPivotObject = with_merged s.pv_snapshot mine in
    let stored : World = store_pivot p merged (tick w) in
    let here : IsStill P Q w (tick w) = tick-IsStill P Q w g in
    let st : IsStill P Q (tick w) stored = store_pivot-IsStill P Q (tick w) p merged here.guarded in
    elim (Bool-cases (msets_eq merged.msets s.pv_snapshot.msets)) [
      | inl e ↦ rw e (exchange_all-IsStill P Q mine snapshots w g)
      | inr n ↦
          elim (Bool-cases
            (pivot_eq ((tick w).items p).pivot_object s.pv_snapshot && not (fails w))) [
              | inl e ↦
                  rw (n, e)
                    (IsStill-trans P Q w stored (exchange_all mine snapshots stored).world
                      (st.held ∙ here.held)
                      (exchange_all-IsStill P Q mine snapshots stored st.guarded))
              | inr m ↦ rw (n, m) here
            ]
    ]

abbrev pub round_world : Round → World
round_world (refused n w) = w
round_world (omitted n w) = w
round_world (retried n w) = w

exchange_round-IsStill :
    (P Q : Property) (write_set : List Entry) (n : Nwr) (checked : Checked)
    → IsGuarded P Q checked.world
    → IsStill P Q checked.world (round_world (exchange_round write_set n checked))
unfolding exchange_round
exchange_round-IsStill P Q write_set n checked g = elim (Bool-cases checked.valid) [
  | inr a ↦ rw a (IsStill-refl P Q checked.world g)
  | inl a ↦ elim (Bool-cases (requires_lock_based_install write_set)) [
    | inl b ↦ rw (a, b) (IsStill-refl P Q checked.world g)
    | inr b ↦
        let x : IsStill P Q checked.world
            (exchange_all n.my_pivot_object n.pivot_object_snapshots checked.world).world =
          exchange_all-IsStill P Q n.my_pivot_object n.pivot_object_snapshots checked.world g in
        elim (Bool-cases
          (exchange_all n.my_pivot_object n.pivot_object_snapshots checked.world).all_cas_succeed) [
            | inl c ↦ rw (a, b, c) x
            | inr c ↦ rw (a, b, c) x
          ]
  ]
]

pub validate_round-IsStill :
    (P Q : Property) (epoch : ℕ) (write_set read_set : List Entry) (vs : List ValidationItem)
    (n : Nwr) (w : World)
    → IsGuarded P Q w
    → IsStill P Q w (round_world (validate_round epoch write_set read_set vs n w))
unfolding validate_round
validate_round-IsStill P Q epoch write_set read_set vs n w g =
    let mine : NwrPivotObject = squashed epoch read_set n in
    elim (Bool-cases (are_of_epoch epoch n.pivot_object_snapshots)) [
      | inr a ↦ rw a (IsStill-refl P Q w g)
      | inl a ↦ elim (Bool-cases (is_acyclic (first_path mine n.pivot_object_snapshots))) [
        | inr b ↦ rw (a, b) (IsStill-refl P Q w g)
        | inl b ↦
            let s : IsStill P Q w (anti_dependency_validation vs w).world =
              anti_dependency_validation-IsStill P Q vs w g in
            rw (a, b)
              (IsStill-trans P Q w (anti_dependency_validation vs w).world _ s.held (
                exchange_round-IsStill P Q write_set (record n { my_pivot_object = mine })
                  (anti_dependency_validation vs w) s.guarded))
      ]
    ]

is_omittable-IsStill :
    (P Q : Property) (fuel epoch : ℕ) (write_set read_set : List Entry) (vs : List ValidationItem)
    (n : Nwr) (w : World) (o : Omission)
    → IsGuarded P Q w
    → is_omittable fuel epoch write_set read_set vs n w ≡ value o
    → IsStill P Q w o.world
unfolding is_omittable
is_omittable-IsStill P Q zero epoch write_set read_set vs n w o g h = absurd (cc)
is_omittable-IsStill P Q (suc fuel) epoch write_set read_set vs n w o g h =
    ends (validate_round epoch write_set read_set vs (snapshot_round write_set read_set n w) start)
      (validate_round-IsStill P Q epoch write_set read_set vs
        (snapshot_round write_set read_set n w) start taken.guarded)
      h (λ n' w'. is_omittable-IsStill P Q fuel epoch write_set read_set vs n' w' o)
  where
    start : World
    start = snapshot_world write_set read_set w

    taken : IsStill P Q w start
    taken =
        let writes : IsStill P Q w (snapshot_all writeset write_set w).world =
          snapshot_all-IsStill P Q writeset write_set w g in
        IsStill-trans P Q w (snapshot_all writeset write_set w).world start writes.held (
          snapshot_all-IsStill P Q readset read_set (snapshot_all writeset write_set w).world
            writes.guarded)

    ends :
        (r : Round)
        → IsStill P Q start (round_world r)
        → elim r [
          | refused n' w' ↦ value (record { omittable = false; nwr = n'; world = w' })
          | omitted n' w' ↦ value (record { omittable = true; nwr = n'; world = w' })
          | retried n' w' ↦ is_omittable fuel epoch write_set read_set vs n' w'
        ]
          ≡ value o
        → ((n' : Nwr) (w' : World)
            → IsGuarded P Q w'
            → is_omittable fuel epoch write_set read_set vs n' w' ≡ value o
            → IsStill P Q w' o.world)
        → IsStill P Q w o.world
    ends (refused n' w') s e again =
        let out : record { omittable = false; nwr = n'; world = w' } ≡ o = cc in
        subst (λ (o : Omission). IsStill P Q w o.world) out
          (IsStill-trans P Q w start w' taken.held s)
    ends (omitted n' w') s e again =
        let out : record { omittable = true; nwr = n'; world = w' } ≡ o = cc in
        subst (λ (o : Omission). IsStill P Q w o.world) out
          (IsStill-trans P Q w start w' taken.held s)
    ends (retried n' w') s e again =
        IsStill-trans P Q w start o.world taken.held
          (IsStill-trans P Q start w' o.world s.held (again n' w' s.guarded e))

pub omission-IsStill :
    (P Q : Property) (mode : Mode) (epoch : ℕ) (write_set : List Entry) (vs : List ValidationItem)
    (w : World) (o : Omission)
    → IsGuarded P Q w
    → omission mode epoch write_set vs w ≡ value o
    → IsStill P Q w o.world
omission-IsStill P Q none epoch write_set vs w o g h =
    let out : stays initial_nwr w ≡ o = cc in
    subst (λ (o : Omission). IsStill P Q w o.world) out (IsStill-refl P Q w g)
omission-IsStill P Q (some t) epoch write_set vs w o g h =
    tries (is_read_only write_set || has_insert write_set) h
  where
    tries : (b : Bool) → try_omission b t epoch write_set vs w ≡ value o → IsStill P Q w o.world
    tries true e =
        let out : stays t.nwr w ≡ o = cc in
        subst (λ (o : Omission). IsStill P Q w o.world) out (IsStill-refl P Q w g)
    tries false e = is_omittable-IsStill P Q t.fuel epoch write_set t.read_set vs t.nwr w o g e

merge_into-IsStill :
    (P Q : Property) (fuel p : ℕ) (mine : NwrPivotObject) (w v : World)
    → IsGuarded P Q w
    → merge_into fuel p mine w ≡ value v
    → IsStill P Q w v
unfolding merge_into
merge_into-IsStill P Q zero p mine w v g h = absurd (cc)
merge_into-IsStill P Q (suc fuel) p mine w v g h =
    let again : World = tick (tick w) in
    let old : NwrPivotObject = ((tick w).items p).pivot_object in
    let once : IsStill P Q w (tick w) = tick-IsStill P Q w g in
    let twice : IsStill P Q w again =
      IsStill-trans P Q w (tick w) again once.held (tick-IsStill P Q (tick w) once.guarded) in
    elim (Bool-cases (pivot_eq (again.items p).pivot_object old && not (fails (tick w)))) [
      | inl e ↦
          let out : store_pivot p (with_merged old mine) again ≡ v = cc (rw e at h) in
          subst (IsStill P Q w) out (
            IsStill-trans P Q w again (store_pivot p (with_merged old mine) again) twice.held
              (store_pivot-IsStill P Q again p (with_merged old mine) twice.guarded))
      | inr n ↦
          IsStill-trans P Q w again v twice.held
            (merge_into-IsStill P Q fuel p mine again v twice.guarded (rw n at h))
    ]

update_one-IsStill :
    (P Q : Property) (blind : Option Entry) (p : ℕ) (mine : NwrPivotObject) (w v : World)
    → IsGuarded P Q w
    → update_one blind p mine w ≡ value v
    → IsStill P Q w v
update_one-IsStill P Q (some e) p mine w v g h =
    let here : IsStill P Q w (tick w) = tick-IsStill P Q w g in
    let out : store_pivot p (pivot_of mine e) (tick w) ≡ v = cc in
    subst (IsStill P Q w) out (
      IsStill-trans P Q w (tick w) (store_pivot p (pivot_of mine e) (tick w)) here.held
        (store_pivot-IsStill P Q (tick w) p (pivot_of mine e) here.guarded))
update_one-IsStill P Q none p mine w v g h =
    merge_into-IsStill P Q (suc (length w.others)) p mine w v g h

update_all-IsStill :
    (P Q : Property) (epoch : ℕ) (mine : NwrPivotObject) (write_set : List Entry)
    (snapshots : List PivotObjectSnapshot) (w v : World)
    → IsGuarded P Q w
    → update_all epoch mine write_set snapshots w ≡ value v
    → IsStill P Q w v
unfolding update_all
update_all-IsStill P Q epoch mine write_set [] w v g h =
    let out : w ≡ v = cc in subst (IsStill P Q w) out (IsStill-refl P Q w g)
update_all-IsStill P Q epoch mine write_set (s ∷ snapshots) w v g h =
    let (updated, (ran, goes_on)) =
      bind_value (update_one (first_blind epoch write_set s (tick w)) s.item_p_cache mine (tick w))
        _ v h in
    let here : IsStill P Q w (tick w) = tick-IsStill P Q w g in
    let one : IsStill P Q (tick w) updated =
      update_one-IsStill P Q (first_blind epoch write_set s (tick w)) s.item_p_cache mine (tick w)
        updated here.guarded ran in
    IsStill-trans P Q w updated v (one.held ∙ here.held)
      (update_all-IsStill P Q epoch mine write_set snapshots updated v one.guarded goes_on)

pub updates_if-IsStill :
    (P Q : Property) (mode : Mode) (epoch : ℕ) (write_set : List Entry) (n : Nwr) (w v : World)
    → IsGuarded P Q w
    → updates_if mode epoch write_set n w ≡ value v
    → IsStill P Q w v
unfolding update_pivot_objects
updates_if-IsStill P Q none epoch write_set n w v g h =
    let out : w ≡ v = cc in subst (IsStill P Q w) out (IsStill-refl P Q w g)
updates_if-IsStill P Q (some t) epoch write_set n w v g h =
    update_all-IsStill P Q epoch (rebuilt epoch t.read_set write_set n.my_pivot_object) write_set
      n.pivot_object_snapshots w v g h
