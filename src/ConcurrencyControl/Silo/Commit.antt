-- ===== src/ConcurrencyControl/Silo/Commit.antt =====
-- `Precommit` of src/concurrency_control/impl/silo_nwr.hpp for the classes `Silo` and `SiloNWR`, and the end of a
-- commit.
use lineair_db.Base.{
  ℕ, Bool, true, false, not, ◌||◌, Option, none, some, List, [], ◌∷◌, if◌then◌else◌,
}
use lineair_db.Types.Outcome.{Outcome, value, assertion, ◌>>=◌}
use lineair_db.ConcurrencyControl.Memory.{World, tick, decremented, release}
use lineair_db.ConcurrencyControl.Memory.Online.{make_me_online}
use lineair_db.ConcurrencyControl.Silo.{Entry, ValidationItem, sort_entries}
use lineair_db.ConcurrencyControl.Silo.Validation.{anti_dependency_validation}
use lineair_db.ConcurrencyControl.PivotObject.{
  NwrValidationResult, acyclic, rw_path, wr_path, anti_dependency, linearizability,
  not_yet_validated,
}
use lineair_db.ConcurrencyControl.Silo.Nwr.{Nwr, Omission, is_omittable}
use lineair_db.ConcurrencyControl.Silo.Pivots.{update_pivot_objects}
use lineair_db.ConcurrencyControl.Silo.Locking.{Locked, lock_all, is_empty}
use lineair_db.ConcurrencyControl.Silo.Install.{
  Installed, is_primary_initialized, copy_all, install_all, post_processing,
}

-- The loops that unlock the write set before an abort.
unfoldable pub unlock_write_set : List Entry → World → World
unlock_write_set [] w = w
unlock_write_set (e ∷ write_set) w =
    let here = tick w in
    unlock_write_set write_set
      (release e.index_cache (decremented (here.items e.index_cache).transaction_id) here)

-- `pre_commit_validator_`, which another component may have set.
abbrev pub Validator : Type 0
Validator = Option (World → Bool)

abbrev pub passes : Validator → World → Bool
passes none w = true
passes (some pre_commit_validator) w = pre_commit_validator w

-- Whether an insert finds a row at the key that it has claimed.
unfoldable pub has_duplicate : List Entry → World → Outcome Bool
has_duplicate [] w = value false
has_duplicate (e ∷ write_set) w =
    let rest = has_duplicate write_set w in
    if not e.snapshot.is_insert
    then rest
    else if not (is_empty e.snapshot.index_name)
    then assertion
    else if not (is_primary_initialized (w.items e.index_cache))
    then rest
    else value true

pub record Precommitted : Type 0 where
  pub passed : Bool
  pub aborted_by_duplicate_key : Bool
  pub epoch : ℕ
  pub write_set : List Entry
  pub world : World

abbrev pub aborts : Bool → ℕ → List Entry → World → Precommitted
aborts duplicate epoch write_set w = record {
  passed = false;
  aborted_by_duplicate_key = duplicate;
  epoch = epoch;
  write_set = write_set;
  world = w;
}

abbrev pub installs : ℕ → Installed → Precommitted
installs epoch done = record {
  passed = true;
  aborted_by_duplicate_key = false;
  epoch = epoch;
  write_set = done.write_set;
  world = done.world;
}

-- The abort on a duplicate, or else the install.
abbrev pub install_unless : Bool → ℕ → Locked → World → Outcome Precommitted
install_unless true epoch l w =
    value (aborts true epoch l.write_set (unlock_write_set l.write_set w))
install_unless false epoch l w = do done ← install_all l.write_set w; value (installs epoch done)

-- What follows the locks, the stable copies and the renewal of the epoch.
unfoldable pub validate_and_install : Validator → ℕ → Locked → World → Outcome Precommitted
validate_and_install validator epoch l w =
    let checked = anti_dependency_validation l.validation_set w in
    let phantoms = tick checked.world in
    if not checked.valid
    then value (aborts false epoch l.write_set (unlock_write_set l.write_set checked.world))
    else if not (passes validator phantoms)
    then value (aborts false epoch l.write_set (unlock_write_set l.write_set phantoms))
    else (do
      duplicate ← has_duplicate l.write_set phantoms
      install_unless duplicate epoch l phantoms)

abbrev pub copies_if : Bool → List Entry → World → Outcome World
copies_if true write_set w = copy_all write_set w
copies_if false write_set w = value w

-- What the class `SiloNWR` keeps, and the fuel of its rounds; the class `Silo` has none of it.
pub record NwrTransaction : Type 0 where
  pub read_set : List Entry
  pub nwr : Nwr
  pub fuel : ℕ

abbrev pub Mode : Type 0
Mode = Option NwrTransaction

-- The members after `Reset`.
abbrev pub initial_nwr : Nwr
initial_nwr = record {
  nwr_validation_result = not_yet_validated;
  my_pivot_object = record {
    versions = record { target_id = 0; epoch = 0 };
    msets = record { rset = 0; wset = 0 };
  };
  pivot_object_snapshots = [];
}

pub has_insert : List Entry → Bool
has_insert [] = false
has_insert (e ∷ write_set) =
    let rest = has_insert write_set in if e.snapshot.is_insert then true else rest

abbrev pub is_read_only : List Entry → Bool
is_read_only [] = true
is_read_only (e ∷ write_set) = false

abbrev pub stays : Nwr → World → Omission
stays n w = record { omittable = false; nwr = n; world = w }

abbrev pub try_omission :
    Bool → NwrTransaction → ℕ → List Entry → List ValidationItem → World → Outcome Omission
try_omission true t epoch write_set validation_set w = value (stays t.nwr w)
try_omission false t epoch write_set validation_set w =
    is_omittable t.fuel epoch write_set t.read_set validation_set t.nwr w

-- The attempt to leave out the writes.
abbrev pub omission : Mode → ℕ → List Entry → List ValidationItem → World → Outcome Omission
omission none epoch write_set validation_set w = value (stays initial_nwr w)
omission (some t) epoch write_set validation_set w =
    try_omission (is_read_only write_set || has_insert write_set) t epoch write_set validation_set w

abbrev pub updates_if : Mode → ℕ → List Entry → Nwr → World → Outcome World
updates_if none epoch write_set n w = value w
updates_if (some t) epoch write_set n w = update_pivot_objects epoch t.read_set write_set n w

-- The stable copies, the pivot objects, the renewal of the epoch, and what follows them.
abbrev pub serialize : Mode → Bool → Validator → ℕ → Nwr → Locked → Outcome Precommitted
serialize mode need_to_checkpoint validator epoch n l = do
  copied ← copies_if need_to_checkpoint l.write_set l.world
  updated ← updates_if mode epoch l.write_set n copied
  online ← make_me_online updated
  validate_and_install validator online.epoch l online.world

abbrev pub serialize_if : Bool → Mode → Bool → Validator → ℕ → Nwr → Locked → Outcome Precommitted
serialize_if true mode need_to_checkpoint validator epoch n l =
    serialize mode need_to_checkpoint validator epoch n l
serialize_if false mode need_to_checkpoint validator epoch n l =
    value (aborts false epoch l.write_set l.world)

abbrev pub is_anti_dependency : NwrValidationResult → Bool
is_anti_dependency anti_dependency = true
is_anti_dependency acyclic = false
is_anti_dependency rw_path = false
is_anti_dependency wr_path = false
is_anti_dependency linearizability = false
is_anti_dependency not_yet_validated = false

-- The commit by the locks.
unfoldable pub lock_based :
    Mode → Bool → Validator → ℕ → List Entry → List ValidationItem → Omission → Outcome Precommitted
lock_based mode need_to_checkpoint validator epoch write_set validation_set o =
    if is_anti_dependency o.nwr.nwr_validation_result
    then value (aborts false epoch write_set o.world)
    else (do
      l ← lock_all write_set validation_set o.world
      serialize_if l.acquired mode need_to_checkpoint validator epoch o.nwr l)

-- The commit that leaves out the writes.
abbrev pub omits : Validator → ℕ → List Entry → World → Precommitted
omits validator epoch write_set w = record {
  passed = passes validator w;
  aborted_by_duplicate_key = false;
  epoch = epoch;
  write_set = if passes validator w then [] else write_set;
  world = w;
}

abbrev pub commit_by :
    Bool
    → Mode
    → Bool
    → Validator
    → ℕ
    → List Entry
    → List ValidationItem
    → Omission
    → Outcome Precommitted
commit_by true mode need_to_checkpoint validator epoch write_set validation_set o =
    value (omits validator epoch write_set (tick o.world))
commit_by false mode need_to_checkpoint validator epoch write_set validation_set o =
    lock_based mode need_to_checkpoint validator epoch write_set validation_set o

-- `epoch` is the one of the thread before the commit.
unfoldable pub precommit :
    Mode → Bool → Validator → ℕ → List Entry → List ValidationItem → World → Outcome Precommitted
precommit mode need_to_checkpoint validator epoch write_set validation_set w = do
  let sorted = sort_entries write_set
  o ← omission mode epoch sorted validation_set w
  commit_by o.omittable mode need_to_checkpoint validator epoch sorted validation_set o

-- `Precommit`, and `PostProcessing` where the transaction has committed: with the writes left out there is
-- nothing to unlock.
unfoldable pub commit :
    Mode → Bool → Validator → ℕ → List Entry → List ValidationItem → World → Outcome Precommitted
commit mode need_to_checkpoint validator epoch write_set validation_set w = do
  p ← precommit mode need_to_checkpoint validator epoch write_set validation_set w
  let done = post_processing p.epoch p.write_set p.world
  value (if p.passed then record p { write_set = done.write_set; world = done.world } else p)
