-- ===== src/ConcurrencyControl/Silo/Tests.antt =====
-- Small runs of the commit of src/concurrency_control/impl/silo_nwr.hpp.
mod Omitting
use lineair_db.Base.{
  ℕ, zero, suc, ◌+◌, ◌%◌, ◌^◌, ◌<◌, ◌≡◌, refl, sym, ap, subst, arith, Bool, true, false, not,
  Option, none, some, List, [], ◌∷◌, All, length, if◌then◌else◌, ◌==◌, Bool-cases, inl, inr,
}
use lineair_db.Types.Keys.{Key, key_eq, key_lt}
use lineair_db.Types.Outcome.{Outcome, value, length_error, assertion, out_of_fuel, ◌>>=◌}
use lineair_db.Types.TransactionId.{TransactionId, tid_eq, tid_lt}
use lineair_db.Types.PackedKeys.{Ptr, erase}
use lineair_db.Types.DataItem.{remove_secondary_index_value}
use lineair_db.Types.Snapshot.{Snapshot, compare, remove_op}
use lineair_db.ConcurrencyControl.PivotObject.{NwrPivotObject}
use lineair_db.ConcurrencyControl.Memory.{
  DataItem, Items, Others, World, tick, fails, is_locked, store_item, put_item, take_lock,
}
use lineair_db.ConcurrencyControl.Memory.Online.{Online, online_loop, make_me_online}
use lineair_db.ConcurrencyControl.Memory.Rely.{Property, Has, Keeps, BeforeLock, IsSmall}
use lineair_db.ConcurrencyControl.Silo.{Entry, ValidationItem, insert_entry, sort_entries}
use lineair_db.ConcurrencyControl.Silo.Locking.{
  lock_loop, unlock_item, unlock_locked_items, is_attached, mark_own, Locked, lock_all,
  with_copied_tid,
}
use lineair_db.ConcurrencyControl.Silo.Locking.Waits.{settled, turns, lock_loop-out_of_fuel}
use lineair_db.ConcurrencyControl.Silo.Install.{
  merges_deltas, apply_op, apply_deltas, installed, copied, Installed, copy_all, install_all,
  unlocked_id, post_processing,
}
use lineair_db.ConcurrencyControl.Silo.Validation.{Checked, anti_dependency_validation}
use lineair_db.ConcurrencyControl.Silo.Commit.{
  unlock_write_set, Validator, has_duplicate, Precommitted, initial_nwr, lock_based,
  validate_and_install, copies_if, precommit, commit,
}
use lineair_db.ConcurrencyControl.Silo.Aborts.{precommit-aborts}
use lineair_db.ConcurrencyControl.Silo.Commits.{AllFree}
use lineair_db.ConcurrencyControl.Silo.Passes.{WritesAny, commit-passes}
use lineair_db.ConcurrencyControl.Silo.Serial.{validate_and_install-AllCurrent, AllCurrent}
use lineair_db.ConcurrencyControl.Silo.Onward.{IsSince, IsSince-refl, Raises}
use lineair_db.ConcurrencyControl.Silo.Sorted.{IsSorted, sort_entries-IsSorted}
use lineair_db.ConcurrencyControl.Silo.Installs.{AllWritten, install_all-AllWritten}

abbrev pub version : ℕ → ℕ → TransactionId
version e t = record { epoch = e; tid = t }

abbrev no_pivot : NwrPivotObject
no_pivot = record {
  versions = record { target_id = 0; epoch = 0 };
  msets = record { rset = 0; wset = 0 };
}

abbrev pub row : TransactionId → List ℕ → DataItem
row t bytes = record {
  transaction_id = t;
  buffer = bytes;
  primary_keys = none;
  checkpoint_buffer = [];
  checkpoint_primary_keys = none;
  pivot_object = no_pivot;
}

-- Every item has the version 4 of the epoch 5.
abbrev rows : Items
rows p = row (version 5 4) (1 ∷ [])

abbrev pub quiet : Others
quiet = record { items = λ s. s; indexes = λ x. x; global_epoch = λ e. e; spurious = false }

-- Another thread writes every item that it finds unlocked.
abbrev writer : Others
writer = record {
  items = λ s p. row (version 6 2) (3 ∷ []);
  indexes = λ x. x;
  global_epoch = λ e. e + 1;
  spurious = true;
}

abbrev pub world : List Others → World
world others = record {
  items = rows;
  indexes = λ i k. none;
  global_epoch = 6;
  held = [];
  others = others;
}

abbrev pub writes : ℕ → Key → Entry
writes p k = record {
  snapshot = record {
    key = k;
    is_read_modify_write = false;
    table_name = 1 ∷ [];
    index_name = [];
    is_insert = false;
    secondary_index_deltas = [];
  };
  data_item_copy = row (version 0 0) (7 ∷ 8 ∷ []);
  index_cache = p;
  is_unique = true;
  pi_ref = none;
  si_ref = none;
}

abbrev pub reads : ℕ → ValidationItem
reads p = record { item_p_cache = p; transaction_id = version 5 4 }

abbrev two_writes : List Entry
two_writes = writes 1 (9 ∷ []) ∷ writes 0 (8 ∷ []) ∷ []

abbrev nothing : Precommitted
nothing = record {
  passed = false;
  aborted_by_duplicate_key = false;
  epoch = 0;
  write_set = [];
  world = world [];
}

abbrev pub got : {A : Type 0} → A → Outcome A → A
got d (value a) = a
got d length_error = d
got d assertion = d
got d out_of_fuel = d

committed : Precommitted
unfolding commit precommit lock_based lock_all lock_loop is_attached mark_own sort_entries
    insert_entry compare key_eq key_lt make_me_online online_loop validate_and_install
    anti_dependency_validation has_duplicate install_all installed merges_deltas post_processing
    unlocked_id tick fails tid_eq
committed =
    got nothing
      (commit none false none 5 two_writes (reads 0 ∷ reads 2 ∷ []) (world (quiet ∷ quiet ∷ [])))

committed_ran :
    commit none false none 5 two_writes (reads 0 ∷ reads 2 ∷ []) (world (quiet ∷ quiet ∷ []))
    ≡ value committed
unfolding committed commit precommit lock_based lock_all lock_loop is_attached mark_own sort_entries
    insert_entry compare key_eq key_lt make_me_online online_loop validate_and_install
    anti_dependency_validation has_duplicate install_all installed merges_deltas post_processing
    unlocked_id tick fails tid_eq
committed_ran = refl

committed_passed : committed.passed ≡ true
unfolding committed
committed_passed = refl

committed_0 :
    ((committed.world.items 0).transaction_id ≡ version 6 2)
    × ((committed.world.items 1).buffer ≡ (7 ∷ 8 ∷ []))
unfolding committed
committed_0 = (refl, refl)

abbrev written_between : World
written_between = world (quiet ∷ quiet ∷ quiet ∷ quiet ∷ writer ∷ [])

aborted : Precommitted
unfolding commit precommit lock_based lock_all lock_loop is_attached mark_own sort_entries
    insert_entry compare key_eq key_lt make_me_online online_loop validate_and_install
    anti_dependency_validation has_duplicate install_all installed merges_deltas post_processing
    unlocked_id tick fails tid_eq unlock_write_set
aborted = got nothing (precommit none false none 5 two_writes (reads 2 ∷ []) written_between)

aborted_ran : precommit none false none 5 two_writes (reads 2 ∷ []) written_between ≡ value aborted
unfolding commit precommit lock_based lock_all lock_loop is_attached mark_own sort_entries
    insert_entry compare key_eq key_lt make_me_online online_loop validate_and_install
    anti_dependency_validation has_duplicate install_all installed merges_deltas post_processing
    unlocked_id tick fails tid_eq unlock_write_set aborted
aborted_ran = refl

aborted_passed : aborted.passed ≡ false
unfolding aborted
aborted_passed = refl

-- A version of 32 bits and a short row.
abbrev is_fit : Property
is_fit p t buffer keys = (t.tid < 2 ^ 32) × (length buffer < 3)

precommit-aborts_example : Has is_fit 2 (aborted.world.items 2)
precommit-aborts_example =
    precommit-aborts is_fit none false none 5 two_writes (reads 2 ∷ []) written_between aborted 2
      (λ p t b k h. h.0)
      (
        λ s p h. h,
        (λ s p h. h, (λ s p h. h, (λ s p h. h, (λ s p h. (omega arith, omega arith), tt)))),
      )
      (λ q. (omega arith, omega arith)) refl aborted_ran aborted_passed

fit-writes : (p : ℕ) (k : Key) → WritesAny is_fit 6 (writes p k)
unfolding installed merges_deltas unlocked_id
fit-writes p k t item item' h same ran =
    let out : copied item (with_copied_tid t (writes p k)).data_item_copy ≡ item' = cc in
    subst (Has (λ p t b k. is_fit p (unlocked_id 6 t) b k) p) out (ground arith, omega arith)

committed_epoch : committed.epoch ≡ 6
unfolding committed
committed_epoch = refl

commit-passes_example :
    Has is_fit 1 (committed.world.items 1)
    × (committed.world.held ≡ [])
    × AllFree committed.write_set
commit-passes_example =
    commit-passes is_fit none false none 5 two_writes (reads 0 ∷ reads 2 ∷ [])
      (world (quiet ∷ quiet ∷ [])) committed 1 (λ p t b k h. h.0) (λ s p h. h, (λ s p h. h, tt))
      (λ q. (omega arith, omega arith)) refl committed_ran committed_passed
      (rw committed_epoch (fit-writes 1 (9 ∷ []), (fit-writes 0 (8 ∷ []), tt)))

-- A write that takes a key from the entry of an index.
abbrev removes : ℕ → Key → Entry
removes p k = record (writes p k) {
  snapshot = record (writes p k).snapshot {
    index_name = 3 ∷ [];
    secondary_index_deltas = record { primary_key = 4 ∷ []; op = remove_op } ∷ [];
  };
  is_unique = false;
}

abbrev three_writes : List Entry
three_writes = removes 2 (9 ∷ []) ∷ two_writes

abbrev held_world : World
held_world = record (world (quiet ∷ writer ∷ [])) { held = 1 ∷ 0 ∷ 2 ∷ [] }

abbrev no_writes : Installed
no_writes = record { write_set = []; world = world [] }

stored : Installed
unfolding install_all installed merges_deltas apply_deltas apply_op remove_secondary_index_value
    erase tick
stored = got no_writes (install_all three_writes held_world)

stored_rows :
    ((stored.world.items 2).buffer ≡ (1 ∷ [])) × ((stored.world.items 1).buffer ≡ (7 ∷ 8 ∷ []))
unfolding stored
stored_rows = (refl, refl)

install_all-AllWritten_example : AllWritten three_writes held_world stored.world
unfolding stored install_all installed merges_deltas apply_deltas apply_op
    remove_secondary_index_value erase tick
install_all-AllWritten_example =
    install_all-AllWritten three_writes held_world stored (refl, (refl, (refl, tt)))
      (refl, (refl, (refl, tt))) refl

-- An item that another thread has locked for good.
abbrev locked_for_good : World
locked_for_good = record (world (quiet ∷ [])) { items = λ p. row (version 5 5) [] }

waits : lock_loop 2 0 locked_for_good ≡ out_of_fuel
unfolding lock_loop tick fails tid_eq
waits = refl

lock_loop-out_of_fuel_example : is_locked ((settled locked_for_good).items 0).transaction_id ≡ true
lock_loop-out_of_fuel_example = lock_loop-out_of_fuel 2 0 locked_for_good (omega arith) waits

abbrev no_locks : Locked
no_locks = record { acquired = false; write_set = []; validation_set = []; world = world [] }

-- Another thread writes the item 4 in the next epoch, and the global epoch is then 7.
abbrev next_version : DataItem → DataItem
next_version item = row (version (item.transaction_id.epoch + 1) 2) (6 ∷ [])

abbrev other_write : Others
other_write = record {
  items = λ s. put_item 4 (next_version (s 4)) s;
  indexes = λ x. x;
  global_epoch = λ e. 7;
  spurious = false;
}

abbrev serial_start : World
serial_start = world (quiet ∷ quiet ∷ quiet ∷ quiet ∷ quiet ∷ quiet ∷ other_write ∷ [])

abbrev serial_reads : List ValidationItem
serial_reads = reads 0 ∷ reads 2 ∷ []

locked_both : Locked
unfolding lock_all lock_loop is_attached mark_own sort_entries insert_entry compare key_eq key_lt
    tick fails tid_eq
locked_both = got no_locks (lock_all (sort_entries two_writes) serial_reads serial_start)

renewed : Online
unfolding locked_both make_me_online online_loop tick
renewed = got (record { epoch = 0; world = world [] }) (make_me_online locked_both.world)

validated : Precommitted
unfolding renewed locked_both validate_and_install anti_dependency_validation has_duplicate
    install_all installed merges_deltas tick tid_eq
validated = got nothing (validate_and_install none renewed.epoch locked_both renewed.world)

next_version-IsSince :
    (item : DataItem) → IsSince item.transaction_id (next_version item).transaction_id
unfolding tid_lt
next_version-IsSince item = ground arith

other_write-Raises : Raises other_write
other_write-Raises s p = elim (Bool-cases (p == 4)) [
  | inl e ↦ let eq : p ≡ 4 = ground arith in rw eq (next_version-IsSince (s 4))
  | inr n ↦ rw n (IsSince-refl (s p).transaction_id)
]

quiet-Raises : Raises quiet
quiet-Raises s p = IsSince-refl (s p).transaction_id

locked_both_ran : lock_all (sort_entries two_writes) serial_reads serial_start ≡ value locked_both
unfolding locked_both lock_all lock_loop is_attached mark_own sort_entries insert_entry compare
    key_eq key_lt tick fails tid_eq
locked_both_ran = refl

locked_both_all : locked_both.acquired ≡ true
unfolding locked_both
locked_both_all = refl

renewed_ran : make_me_online locked_both.world ≡ value renewed
unfolding renewed locked_both make_me_online online_loop tick
renewed_ran = refl

validated_ran : validate_and_install none renewed.epoch locked_both renewed.world ≡ value validated
unfolding validated renewed locked_both validate_and_install anti_dependency_validation
    has_duplicate install_all installed merges_deltas tick tid_eq
validated_ran = refl

validated_passed : validated.passed ≡ true
unfolding validated
validated_passed = refl

validate_and_install-AllCurrent_example : AllCurrent renewed.world serial_reads
validate_and_install-AllCurrent_example =
    validate_and_install-AllCurrent none false none 5 initial_nwr two_writes serial_reads
      serial_start locked_both.world locked_both.world locked_both renewed validated
      (
        quiet-Raises,
        (
          quiet-Raises,
          (quiet-Raises, (quiet-Raises, (quiet-Raises, (quiet-Raises, (other_write-Raises, tt))))),
        ),
      )
      (IsSince-refl (version 5 4), (IsSince-refl (version 5 4), tt)) locked_both_ran locked_both_all
      refl refl renewed_ran validated_ran validated_passed

sort_entries-IsSorted_example : IsSorted three_writes (sort_entries three_writes)
sort_entries-IsSorted_example = sort_entries-IsSorted three_writes
