-- ===== src/Runtime/TableCache.antt =====
-- rust/src/api/wallet/runtime/table_cache.rs: the precomputed tables that all wallets share. An `Arc`
-- of a lock is the number of its cell, and the heap gives the tables in each cell, so that all
-- holders of a cell see what is written to it. `l1_low` is the wallet crate's `L1_LOW`.
pub mod Upgrade
pub mod Examples
use xelis_wallet_flutter.Base.{
  ℕ, Bool, true, false, not, Option, none, some, List, [], ◌∷◌, Eq, nat_eq, ◌==◌, leb, ltb,
  if◌then◌else◌,
}
use xelis_wallet_flutter.Base.Results.{Result, ok, err}

pub record CachedPrecomputedTables : Type 0 where
  pub l1_size : ℕ
  pub tables : ℕ

-- The cache, and the contents of the cells.
pub record PrecomputedTablesCache (T : Type 0) : Type 0 where
  pub entry : Option CachedPrecomputedTables
  pub heap : ℕ → T

pub data TableError : Type 0 where
  already_finalized loaded_shared loaded_poisoned tables_poisoned load_failed : TableError

-- What the wallet crate loads: a cell, and whether it is shared or its lock poisoned.
pub record Loaded (T : Type 0) : Type 0 where
  pub cell : ℕ
  pub contents : T
  pub shared : Bool
  pub poisoned : Bool

abbrev pub unused : (ℕ → ℕ) → Option CachedPrecomputedTables → Bool
unused strong_count none = true
unused strong_count (some entry) = not (ltb 1 (strong_count entry.tables))

-- What other tasks do to the cache between two steps of a load. The last argument of an
-- installation is whether the lock of the cached cell is poisoned.
pub data Change (T : Type 0) : Type 0 where
  installs : ℕ → Loaded T → Bool → Change T
  clears : (ℕ → ℕ) → Change T

abbrev pub Reply : Type 0 → Type 0
Reply T = PrecomputedTablesCache T × Result TableError ℕ

module _ {T : Type 0} where
  unfoldable pub write : (ℕ → T) → ℕ → T → ℕ → T
  write heap cell contents other = if other == cell then contents else heap other

  unfoldable pub current_l1 : PrecomputedTablesCache T → Option ℕ
  current_l1 c = elim c.entry [ none ↦ none | some entry ↦ some entry.l1_size ]

  unfoldable pub clear_if_unused :
      (ℕ → ℕ) → PrecomputedTablesCache T → PrecomputedTablesCache T × Bool
  clear_if_unused strong_count c =
      if unused strong_count c.entry then (record c { entry = none }, true) else (c, false)

-- The result of looking an entry up: the cell, or `none` when tables must be loaded.
unfoldable pub lookup_entry :
    (l1_low : ℕ) → Option CachedPrecomputedTables → ℕ → Result TableError (Option ℕ)
lookup_entry l1_low none requested_l1 = ok none
lookup_entry l1_low (some entry) requested_l1 =
    if leb requested_l1 entry.l1_size
    then ok (some entry.tables)
    else (if entry.l1_size == l1_low then ok none else err already_finalized)

module _ {T : Type 0} (l1_low : ℕ) where
  unfoldable pub get_or_require_load : PrecomputedTablesCache T → ℕ → Result TableError (Option ℕ)
  unfolding lookup_entry
  get_or_require_load c requested_l1 = lookup_entry l1_low c.entry requested_l1

  -- The upgrade of the tables in the cached cell.
  unfoldable pub replace_tables :
      PrecomputedTablesCache T
      → CachedPrecomputedTables
      → ℕ
      → Loaded T
      → Bool
      → PrecomputedTablesCache T × Result TableError ℕ
  unfolding write
  replace_tables c entry l1_size loaded lock_poisoned =
      if loaded.shared
      then (c, err loaded_shared)
      else (if loaded.poisoned
          then (c, err loaded_poisoned)
          else (if lock_poisoned then (c, err tables_poisoned) else (
            record {
              entry = some (record { l1_size = l1_size; tables = entry.tables });
              heap = write c.heap entry.tables loaded.contents;
            },
            ok entry.tables,
          )))

  unfoldable pub install_over :
      Option CachedPrecomputedTables
      → PrecomputedTablesCache T
      → ℕ
      → Loaded T
      → Bool
      → PrecomputedTablesCache T × Result TableError ℕ
  unfolding write replace_tables
  install_over none c l1_size loaded lock_poisoned = (
    record {
      entry = some (record { l1_size = l1_size; tables = loaded.cell });
      heap = write c.heap loaded.cell loaded.contents;
    },
    ok loaded.cell,
  )
  install_over (some entry) c l1_size loaded lock_poisoned =
      if leb l1_size entry.l1_size
      then (c, ok entry.tables)
      else (if entry.l1_size == l1_low
          then replace_tables c entry l1_size loaded lock_poisoned
          else (c, err already_finalized))

  -- `lock_poisoned` is whether the lock of the cached cell is poisoned.
  unfoldable pub install :
      PrecomputedTablesCache T
      → ℕ
      → Loaded T
      → Bool
      → PrecomputedTablesCache T × Result TableError ℕ
  unfolding install_over
  install c l1_size loaded lock_poisoned = install_over c.entry c l1_size loaded lock_poisoned

  unfoldable pub change : PrecomputedTablesCache T → Change T → PrecomputedTablesCache T
  change c (installs l1_size loaded lock_poisoned) = (install c l1_size loaded lock_poisoned).0
  change c (clears strong_count) = (clear_if_unused strong_count c).0

  unfoldable pub change_all : PrecomputedTablesCache T → List (Change T) → PrecomputedTablesCache T
  change_all c [] = c
  change_all c (x ∷ xs) = change_all (change c x) xs

  -- The load itself and the installation of what it gives.
  unfoldable pub load_and_install :
      ℕ → Result TableError (Loaded T) → Bool → PrecomputedTablesCache T → Reply T
  load_and_install requested_l1 (err e) lock_poisoned c = (c, err e)
  load_and_install requested_l1 (ok loaded) lock_poisoned c =
      install c requested_l1 loaded lock_poisoned

  abbrev pub reuse_or : Result TableError (Option ℕ) → PrecomputedTablesCache T → Reply T → Reply T
  reuse_or (err e) c continue = (c, err e)
  reuse_or (ok (some tables)) c continue = (c, ok tables)
  reuse_or (ok none) c continue = continue

  abbrev pub reusing : Bool → ℕ → PrecomputedTablesCache T → Reply T → Reply T
  reusing reuse requested_l1 c continue =
      if reuse then reuse_or (get_or_require_load c requested_l1) c continue else continue

  -- `waiting` is what other tasks do until the load lock is held, `loading` what they do until the
  -- tables are read or generated.
  unfoldable pub get_or_load_precomputed_tables_with_policy :
      (requested_l1 : ℕ)
      → (reuse_compatible_cache : Bool) → (waiting loading : List (Change T))
      → Result TableError (Loaded T)
      → Bool
      → PrecomputedTablesCache T
      → Reply T
  unfolding load_and_install
  get_or_load_precomputed_tables_with_policy requested_l1 reuse waiting loading loaded lock_poisoned
        c =
      reusing reuse requested_l1 c (
        reusing reuse requested_l1 (change_all c waiting) (
          load_and_install requested_l1 loaded lock_poisoned
            (change_all (change_all c waiting) loading)))
