-- ===== src/ConcurrencyControl/Silo/Validated.antt =====
-- The reads of a transaction whose writes src/concurrency_control/impl/silo_nwr.hpp leaves out.
use lineair_db.Base.{
  ℕ, zero, suc, ◌≡◌, ap, ◌∙◌, Bool, true, false, List, [], ◌∷◌, All, Bool-cases, inl, inr,
}
use lineair_db.Types.Outcome.{value}
use lineair_db.Types.TransactionId.{tid_eq, eq_of_tid_eq}
use lineair_db.ConcurrencyControl.PivotObject.{NwrPivotObject}
use lineair_db.ConcurrencyControl.Memory.{DataItem, World, tick, mem}
use lineair_db.ConcurrencyControl.Memory.Rely.{Property, Has, Either, IsGuarded, tick-IsGuarded}
use lineair_db.ConcurrencyControl.Silo.{Entry, ValidationItem}
use lineair_db.ConcurrencyControl.Silo.Validation.{Checked, anti_dependency_validation}
use lineair_db.ConcurrencyControl.Silo.Nwr.{
  readset, writeset, Nwr, snapshot_all, are_of_epoch, is_acyclic, first_path,
  requires_lock_based_install, exchange_all, Round, refused, omitted, retried, exchange_round,
  squashed, validate_round, snapshot_round, snapshot_world, Omission, is_omittable,
}
use lineair_db.ConcurrencyControl.Silo.PivotsOnly.{
  round_world, validate_round-IsStill, snapshot_all-IsStill,
}

-- The item of a read was in the memory with the version that was read.
pub record IsValidated (P : Property) (v : ValidationItem) : Type 0 where
  pub item : DataItem
  pub seen : Has P v.item_p_cache item
  pub version : item.transaction_id ≡ v.transaction_id

either_same :
    (P : Property) (b : Bool) (p : ℕ) (item : DataItem) → Has (Either b P P) p item → Has P p item
either_same P true p item h = h
either_same P false p item h = h

anti_dependency_validation-IsValidated :
    (P : Property) (vs : List ValidationItem) (w : World)
    → IsGuarded P P w
    → (anti_dependency_validation vs w).valid ≡ true
    → All (IsValidated P) vs
unfolding anti_dependency_validation
anti_dependency_validation-IsValidated P [] w g h = tt
anti_dependency_validation-IsValidated P (v ∷ vs) w g h =
    let p : ℕ = v.item_p_cache in
    let here : IsGuarded P P (tick w) = tick-IsGuarded P P w g in
    elim (Bool-cases (tid_eq ((tick w).items p).transaction_id v.transaction_id)) [
      | inr n ↦ absurd (cc (rw n at h))
      | inl e ↦ (
        record {
          item = (tick w).items p;
          seen = either_same P (mem p (tick w).held) p ((tick w).items p) (here.items p);
          version = eq_of_tid_eq _ _ e;
        },
        anti_dependency_validation-IsValidated P vs (tick w) here (rw e at h),
      )
    ]

abbrev ValidRound : Property → List ValidationItem → Round → Type 0
ValidRound P vs (refused n w) = Unit
ValidRound P vs (retried n w) = Unit
ValidRound P vs (omitted n w) = All (IsValidated P) vs

exchange_round-valid :
    (P : Property) (vs : List ValidationItem) (write_set : List Entry) (n : Nwr) (checked : Checked)
    → (checked.valid ≡ true → All (IsValidated P) vs)
    → ValidRound P vs (exchange_round write_set n checked)
unfolding exchange_round
exchange_round-valid P vs write_set n checked f = elim (Bool-cases checked.valid) [
  | inr a ↦ rw a tt
  | inl a ↦ elim (Bool-cases (requires_lock_based_install write_set)) [
    | inl b ↦ rw (a, b) tt
    | inr b ↦
        elim (Bool-cases
          (exchange_all n.my_pivot_object n.pivot_object_snapshots checked.world).all_cas_succeed) [
            | inl c ↦ rw (a, b, c) (f a)
            | inr c ↦ rw (a, b, c) tt
          ]
  ]
]

validate_round-valid :
    (P : Property) (epoch : ℕ) (write_set read_set : List Entry) (vs : List ValidationItem)
    (n : Nwr) (w : World)
    → IsGuarded P P w
    → ValidRound P vs (validate_round epoch write_set read_set vs n w)
unfolding validate_round
validate_round-valid P epoch write_set read_set vs n w g =
    let mine : NwrPivotObject = squashed epoch read_set n in
    elim (Bool-cases (are_of_epoch epoch n.pivot_object_snapshots)) [
      | inr a ↦ rw a tt
      | inl a ↦ elim (Bool-cases (is_acyclic (first_path mine n.pivot_object_snapshots))) [
        | inr b ↦ rw (a, b) tt
        | inl b ↦
            rw (a, b)
              (exchange_round-valid P vs write_set (record n { my_pivot_object = mine })
                (anti_dependency_validation vs w) (anti_dependency_validation-IsValidated P vs w g))
      ]
    ]

pub is_omittable-IsValidated :
    (P : Property) (fuel epoch : ℕ) (write_set read_set : List Entry) (vs : List ValidationItem)
    (n : Nwr) (w : World) (o : Omission)
    → IsGuarded P P w
    → is_omittable fuel epoch write_set read_set vs n w ≡ value o
    → o.omittable ≡ true
    → All (IsValidated P) vs
unfolding is_omittable
is_omittable-IsValidated P zero epoch write_set read_set vs n w o g h t = absurd (cc)
is_omittable-IsValidated P (suc fuel) epoch write_set read_set vs n w o g h t =
    let writes = snapshot_all-IsStill P P writeset write_set w g in
    let reads =
      snapshot_all-IsStill P P readset read_set (snapshot_all writeset write_set w).world
        writes.guarded in
    let start : World = snapshot_world write_set read_set w in
    ends (validate_round epoch write_set read_set vs (snapshot_round write_set read_set n w) start)
      (validate_round-valid P epoch write_set read_set vs (snapshot_round write_set read_set n w)
        start reads.guarded)
      (validate_round-IsStill P P epoch write_set read_set vs
        (snapshot_round write_set read_set n w) start reads.guarded).guarded
      h (λ n' w' g' e. is_omittable-IsValidated P fuel epoch write_set read_set vs n' w' o g' e t)
  where
    ends :
        (r : Round)
        → ValidRound P vs r
        → IsGuarded P P (round_world r)
        → elim r [
          | refused n' w' ↦ value (record { omittable = false; nwr = n'; world = w' })
          | omitted n' w' ↦ value (record { omittable = true; nwr = n'; world = w' })
          | retried n' w' ↦ is_omittable fuel epoch write_set read_set vs n' w'
        ]
          ≡ value o
        → ((n' : Nwr) (w' : World)
            → IsGuarded P P w'
            → is_omittable fuel epoch write_set read_set vs n' w' ≡ value o
            → All (IsValidated P) vs)
        → All (IsValidated P) vs
    ends (refused n' w') s g e again =
        let out : record { omittable = false; nwr = n'; world = w' } ≡ o = cc in
        let lost : false ≡ true = ap (λ (o : Omission). o.omittable) out ∙ t in absurd (cc)
    ends (omitted n' w') s g e again = s
    ends (retried n' w') s g e again = again n' w' g e
