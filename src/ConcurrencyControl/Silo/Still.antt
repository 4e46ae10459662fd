-- ===== src/ConcurrencyControl/Silo/Still.antt =====
-- The steps of a commit between its locks and its install: they change nothing that a reader sees.
use lineair_db.Base.{
  ℕ, zero, suc, ◌≡◌, refl, subst, ◌∙◌, Bool, true, false, some, List, [], ◌∷◌, length, ◌==◌,
  if◌then◌else◌, Bool-cases, Option-cases, inl, inr,
}
use lineair_db.Types.Outcome.{value, bind_value}
use lineair_db.Types.TransactionId.{tid_eq}
use lineair_db.Types.PackedKeys.View.{primary_keys_vector}
use lineair_db.ConcurrencyControl.Memory.{DataItem, World, mem, tick, store_item}
use lineair_db.ConcurrencyControl.Memory.Online.{Online, online_loop, make_me_online}
use lineair_db.ConcurrencyControl.Memory.Rely.{
  Property, Has, Either, IsGuarded, tick-IsGuarded, tick-held, put-IsGuarded,
}
use lineair_db.ConcurrencyControl.Silo.{Entry, ValidationItem}
use lineair_db.ConcurrencyControl.Silo.Install.{copy_live_version_to_stable_version, copy_all}
use lineair_db.ConcurrencyControl.Silo.Validation.{anti_dependency_validation}
use lineair_db.ConcurrencyControl.Silo.Commit.{copies_if}

-- Between `w` and `v` this thread has changed nothing but stable copies, and has kept its locks.
pub record IsStill (P Q : Property) (w v : World) : Type 0 where
  pub guarded : IsGuarded P Q v
  pub held : v.held ≡ w.held

pub IsStill-trans :
    (P Q : Property) (u v w : World) → v.held ≡ u.held → IsStill P Q v w → IsStill P Q u w
IsStill-trans P Q u v w e s = record { guarded = s.guarded; held = s.held ∙ e }

-- The stable copy leaves the version, the buffer and the keys.
pub copy_live-Has :
    (Q : Property) (p : ℕ) (item item' : DataItem)
    → copy_live_version_to_stable_version item ≡ value item'
    → Has Q p item
    → Has Q p item'
unfolding copy_live_version_to_stable_version
copy_live-Has Q p item item' h has = elim (Option-cases item.checkpoint_primary_keys) [
  | inl e ↦
      let (keys, (ran, goes_on)) =
        bind_value (primary_keys_vector item.primary_keys) _ item' (rw e at h) in
      let out : record item { checkpoint_buffer = stable; checkpoint_primary_keys = some keys }
          ≡ item' =
        cc in
      subst (λ (v : DataItem). Has Q p v) out has
  | inr (keys, e) ↦
      let out : record item { checkpoint_buffer = stable } ≡ item' = cc (rw e at h) in
      subst (λ (v : DataItem). Has Q p v) out has
]
  where
    stable : List ℕ
    stable = if length item.checkpoint_buffer == 0 then item.buffer else item.checkpoint_buffer

pub copy_all-IsStill :
    (P Q : Property) (write_set : List Entry) (w v : World)
    → IsGuarded P Q w
    → copy_all write_set w ≡ value v
    → IsStill P Q w v
unfolding copy_all
copy_all-IsStill P Q [] w v g h =
    let out : w ≡ v = cc in subst (IsStill P Q w) out (record { guarded = g; held = refl })
copy_all-IsStill P Q (e ∷ write_set) w v g h =
    let here : World = tick w in
    let p : ℕ = e.index_cache in
    let (item, (ran, goes_on)) =
      bind_value (copy_live_version_to_stable_version (here.items p)) _ v h in
    let gh : IsGuarded P Q here = tick-IsGuarded P Q w g in
    let stored : IsGuarded P Q (store_item p item here) =
      put-IsGuarded P Q Q here (store_item p item here) p item gh refl refl
        (copy_live-Has (Either (mem p here.held) Q P) p (here.items p) item ran (gh.items p))
        (λ q n k. k) in
    IsStill-trans P Q w (store_item p item here) v (tick-held w)
      (copy_all-IsStill P Q write_set (store_item p item here) v stored goes_on)

online_loop-IsStill :
    (P Q : Property) (fuel published : ℕ) (w : World) (o : Online)
    → IsGuarded P Q w
    → online_loop fuel published w ≡ value o
    → IsStill P Q w o.world
unfolding online_loop
online_loop-IsStill P Q zero published w o g h = absurd (cc)
online_loop-IsStill P Q (suc fuel) published w o g h =
    let v : World = tick (tick w) in
    let gv : IsGuarded P Q v = tick-IsGuarded P Q (tick w) (tick-IsGuarded P Q w g) in
    let e : v.held ≡ w.held = tick-held (tick w) ∙ tick-held w in
    elim (Bool-cases (v.global_epoch == published)) [
      | inl is ↦
          let out : record { epoch = published; world = v } ≡ o = cc (rw is at h) in
          subst (λ (o : Online). IsStill P Q w o.world) out (record { guarded = gv; held = e })
      | inr not_yet ↦
          IsStill-trans P Q w v o.world e
            (online_loop-IsStill P Q fuel v.global_epoch v o gv (rw not_yet at h))
    ]

pub make_me_online-IsStill :
    (P Q : Property) (w : World) (o : Online)
    → IsGuarded P Q w
    → make_me_online w ≡ value o
    → IsStill P Q w o.world
unfolding make_me_online
make_me_online-IsStill P Q w o g h = IsStill-trans P Q w (tick w) o.world (tick-held w) (
    online_loop-IsStill P Q (suc (length (tick w).others)) (tick w).global_epoch (tick w) o
      (tick-IsGuarded P Q w g) h)

pub anti_dependency_validation-IsStill :
    (P Q : Property) (vs : List ValidationItem) (w : World)
    → IsGuarded P Q w
    → IsStill P Q w (anti_dependency_validation vs w).world
unfolding anti_dependency_validation
anti_dependency_validation-IsStill P Q [] w g = record { guarded = g; held = refl }
anti_dependency_validation-IsStill P Q (v ∷ vs) w g =
    let here : IsGuarded P Q (tick w) = tick-IsGuarded P Q w g in
    elim (Bool-cases (tid_eq ((tick w).items v.item_p_cache).transaction_id v.transaction_id)) [
      | inl e ↦ rw e (
          IsStill-trans P Q w (tick w) (anti_dependency_validation vs (tick w)).world (tick-held w)
            (anti_dependency_validation-IsStill P Q vs (tick w) here))
      | inr n ↦ rw n (record { guarded = here; held = tick-held w })
    ]

pub tick-IsStill : (P Q : Property) (w : World) → IsGuarded P Q w → IsStill P Q w (tick w)
tick-IsStill P Q w g = record { guarded = tick-IsGuarded P Q w g; held = tick-held w }

pub copies_if-IsStill :
    (P Q : Property) (b : Bool) (entries : List Entry) (w v : World)
    → IsGuarded P Q w
    → copies_if b entries w ≡ value v
    → IsStill P Q w v
copies_if-IsStill P Q true entries w v g e = copy_all-IsStill P Q entries w v g e
copies_if-IsStill P Q false entries w v g e =
    let out : w ≡ v = cc in subst (IsStill P Q w) out (record { guarded = g; held = refl })
