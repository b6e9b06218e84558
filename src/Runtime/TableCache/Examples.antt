-- ===== src/Runtime/TableCache/Examples.antt =====
-- A concrete upgrade of the shared tables. The smallest tables have size 10, and a
-- number stands for the tables of that size.
use xelis_wallet_flutter.Base.{ℕ, ◌≤◌, ◌≡◌, refl, true, false, some, List, [], ◌∷◌, nat_eq}
use xelis_wallet_flutter.Base.Results.{ok}
use xelis_wallet_flutter.Runtime.TableCache.{
  CachedPrecomputedTables, PrecomputedTablesCache, Loaded, write, install,
  get_or_load_precomputed_tables_with_policy, get_or_require_load, change_all, change, Change,
  installs,
}
use xelis_wallet_flutter.Runtime.TableCache.Upgrade.{Serves, install-Serves, get_or_load-Serves}

abbrev small_tables : PrecomputedTablesCache ℕ
small_tables = record { entry = some (record { l1_size = 10; tables = 3 }); heap = λ cell. 10 }

abbrev large_load : Loaded ℕ
large_load = record { cell = 4; contents = 26; shared = false; poisoned = false }

abbrev large_entry : CachedPrecomputedTables
large_entry = record { l1_size = 26; tables = 3 }

abbrev large_tables : PrecomputedTablesCache ℕ
large_tables = record { entry = some large_entry; heap = write (λ cell. 10) 3 26 }

-- A smaller installation of another task, before the load.
abbrev others : List (Change ℕ)
others =
    installs 10 (record { cell = 9; contents = 10; shared = true; poisoned = false }) false ∷ []

install-Serves_example :
    Serves 10 (λ t. t) 26 3 large_tables
    × ((entry : CachedPrecomputedTables)
        → small_tables.entry ≡ some entry
        → (3 ≡ entry.tables) × (small_tables.heap entry.tables ≤ large_tables.heap entry.tables))
unfolding install
install-Serves_example =
    install-Serves 10 (λ t. t) small_tables large_tables 26 3 large_load false refl refl refl

get_or_load-Serves_example : Serves 10 (λ t. t) 26 3 large_tables
unfolding get_or_load_precomputed_tables_with_policy install get_or_require_load change_all change
get_or_load-Serves_example =
    get_or_load-Serves 10 (λ t. t) 26 true others [] (ok large_load) false small_tables large_tables
      3 refl (refl, tt) tt refl refl
