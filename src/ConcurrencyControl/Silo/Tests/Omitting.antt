-- ===== src/ConcurrencyControl/Silo/Tests/Omitting.antt =====
-- A write that is left out.
use lineair_db.Base.{◌≡◌, refl, false, List, [], ◌∷◌}
use lineair_db.Types.TransactionId.{tid_eq}
use lineair_db.ConcurrencyControl.HalfWordSet.{
  make_mask, mask_loop, make_masks, masks, hash_step, hash, hashptr, get_by_slot, reset, set, put,
  get, put_higherside, merged_slot, merge_loop, merge, greater_loop, is_greater_than,
  is_greater_or_equal_than,
}
use lineair_db.ConcurrencyControl.PivotObject.{NwrPivotObject, is_reachable_into}
use lineair_db.ConcurrencyControl.Memory.{World, tick, fails}
use lineair_db.ConcurrencyControl.Silo.{Entry}
use lineair_db.ConcurrencyControl.Silo.Validation.{anti_dependency_validation}
use lineair_db.ConcurrencyControl.Silo.Install.{merges_deltas}
use lineair_db.ConcurrencyControl.Silo.Nwr.{
  Omission, snapshot_all, are_of_epoch, squash_reads, squash_pivots, first_path,
  requires_lock_based_install, msets_eq, pivot_eq, exchange_all, exchange_round, validate_round,
  is_omittable,
}
use lineair_db.ConcurrencyControl.Silo.Pivots.{update_pivot_objects}
use lineair_db.ConcurrencyControl.Silo.Commit.{initial_nwr}
use lineair_db.ConcurrencyControl.Silo.Omits.{update_pivot_objects-unread}
use lineair_db.ConcurrencyControl.Memory.Rely.{Property}
use lineair_db.ConcurrencyControl.Silo.Overwritten.{PivotProperty}
use lineair_db.ConcurrencyControl.Silo.Tests.{version, row, quiet, world, writes, reads, got}

-- Every item has a pivot version of the epoch 6.
abbrev pivot_of_six : NwrPivotObject
pivot_of_six = record {
  versions = record { target_id = 3; epoch = 6 };
  msets = record { rset = 0; wset = 0 };
}

abbrev pivots : World
pivots = record (world (quiet ∷ [])) {
  items = λ p. record (row (version 5 4) (1 ∷ [])) { pivot_object = pivot_of_six };
}

abbrev one_write : List Entry
one_write = writes 16 (9 ∷ []) ∷ []

-- An item in another slot of the sets is read.
abbrev one_read : List Entry
one_read = record (writes 32 (9 ∷ [])) { data_item_copy = row (version 5 4) (1 ∷ []) } ∷ []

abbrev not_omitted : Omission
not_omitted = record { omittable = false; nwr = initial_nwr; world = pivots }

left_out : Omission
unfolding is_omittable validate_round snapshot_all are_of_epoch squash_reads squash_pivots
    first_path requires_lock_based_install msets_eq pivot_eq exchange_all exchange_round
    anti_dependency_validation merges_deltas tick fails tid_eq is_reachable_into is_greater_than
    is_greater_or_equal_than greater_loop merge merge_loop merged_slot put_higherside put set reset
    get get_by_slot hash hash_step hashptr masks make_masks make_mask mask_loop
left_out = got not_omitted (is_omittable 2 6 one_write one_read (reads 16 ∷ []) initial_nwr pivots)

-- The pivot versions of each item are those of the start, whatever was merged into it.
abbrev is_of_six : PivotProperty
is_of_six p pivot = pivot.versions ≡ pivot_of_six.versions

-- Each item has the version of the start.
abbrev is_at_start : Property
is_at_start p t buffer keys = t ≡ version 5 4

update_pivot_objects-unread_example :
    update_pivot_objects 6 one_write one_write initial_nwr pivots
    ≡ update_pivot_objects 6 [] one_write initial_nwr pivots
update_pivot_objects-unread_example =
    update_pivot_objects-unread 6 one_write one_write initial_nwr pivots refl
