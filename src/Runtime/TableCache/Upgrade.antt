-- ===== src/Runtime/TableCache/Upgrade.antt =====
-- What a caller of the table cache gets, and how often the tables change.
use xelis_wallet_flutter.Base.{
  ℕ, ◌≤◌, ◌≡◌, ◌≢◌, refl, Bool, true, false, Option, none, some, List, [], ◌∷◌, nat_eq, eq_refl,
  leb, All, ◌⊎◌, inl, inr, Bool-cases, Option-cases, ap, sym, ◌∙◌, subst, arith,
}
use xelis_wallet_flutter.Base.Results.{Result, ok, err}
use xelis_wallet_flutter.Runtime.TableCache.{
  CachedPrecomputedTables, PrecomputedTablesCache, Loaded, TableError, get_or_require_load, install,
  install_over, replace_tables, write, Change, installs, clears, clear_if_unused, change,
  change_all, load_and_install, reuse_or, reusing, Reply,
  get_or_load_precomputed_tables_with_policy,
}

module _ {T : Type 0} (l1_low : ℕ) where
  -- Once tables other than the smallest are cached, no installation changes the cache or any cell.
  pub install-finalized :
      (c : PrecomputedTablesCache T) (entry : CachedPrecomputedTables) (l1_size : ℕ)
      (loaded : Loaded T) (lock_poisoned : Bool)
      → c.entry ≡ some entry
      → entry.l1_size ≢ l1_low
      → (install l1_low c l1_size loaded lock_poisoned).0 ≡ c
  unfolding install install_over
  install-finalized c entry l1_size loaded lock_poisoned held final =
      ground (arith, nat_eq.test_iff entry.l1_size l1_low)

-- `size` is the L1 size of tables.
module _ {T : Type 0} (l1_low : ℕ) (size : T → ℕ) where
  -- The entry records the size of the tables that are in its cell.
  abbrev pub IsRecorded : (ℕ → T) → Option CachedPrecomputedTables → Type 0
  IsRecorded heap none = Unit {0}
  IsRecorded heap (some entry) = size (heap entry.tables) ≡ entry.l1_size

  abbrev pub Honest : PrecomputedTablesCache T → Type 0
  Honest c = IsRecorded c.heap c.entry

  -- The tables that the wallet crate reads or generates have the size that it is asked for.
  abbrev pub AsAsked : ℕ → Result TableError (Loaded T) → Type 0
  AsAsked l1_size (err e) = Unit {0}
  AsAsked l1_size (ok loaded) = size loaded.contents ≡ l1_size

  abbrev pub ChangeAsAsked : Change T → Type 0
  ChangeAsAsked (installs l1_size loaded lock_poisoned) = AsAsked l1_size (ok loaded)
  ChangeAsAsked (clears strong_count) = Unit {0}

  -- The cache holds the cell `tables`, and the tables in this cell serve the request.
  abbrev pub Serves : ℕ → ℕ → PrecomputedTablesCache T → Type 0
  Serves requested_l1 tables c =
      (entry : CachedPrecomputedTables) × (c.entry ≡ some entry)
      × (entry.tables ≡ tables)
      × (requested_l1 ≤ size (c.heap tables))

  recorded :
      (heap : ℕ → T) (entry : CachedPrecomputedTables) (o : Option CachedPrecomputedTables)
      → o ≡ some entry
      → IsRecorded heap o
      → size (heap entry.tables) ≡ entry.l1_size
  recorded heap entry none held honest = absurd ground arith
  recorded heap entry (some e) held honest =
      let same : e ≡ entry = ground arith in
      subst (λ x. size (heap x.tables) ≡ x.l1_size) same honest

  get_or_require_load-Serves :
      (c : PrecomputedTablesCache T) (requested_l1 tables : ℕ)
      → Honest c
      → get_or_require_load l1_low c requested_l1 ≡ ok (some tables)
      → Serves requested_l1 tables c
  unfolding get_or_require_load
  get_or_require_load-Serves c requested_l1 tables honest h = elim (Option-cases c.entry) [
    | inl empty ↦ absurd ground arith
    | inr (entry, held) ↦
        let cell : entry.tables ≡ tables = ground arith in
        let served : requested_l1 ≤ entry.l1_size = ground arith in
        let sized = recorded c.heap entry c.entry held honest in
        (
          entry,
          held,
          cell,
          subst (λ x. requested_l1 ≤ size (c.heap x)) cell (omega (arith, served, sized)),
        )
  ]

  install_over-Honest :
      (o : Option CachedPrecomputedTables) (c : PrecomputedTablesCache T) (l1_size : ℕ)
      (loaded : Loaded T) (lock_poisoned : Bool)
      → Honest c
      → AsAsked l1_size (ok loaded)
      → Honest (install_over l1_low o c l1_size loaded lock_poisoned).0
  unfolding install_over replace_tables write
  install_over-Honest none c l1_size loaded lock_poisoned honest asked =
      ground (arith, eq_refl loaded.cell)
  install_over-Honest (some entry) c l1_size loaded lock_poisoned honest asked =
      ground (arith, eq_refl entry.tables)

  change-Honest :
      (c : PrecomputedTablesCache T) (x : Change T)
      → Honest c
      → ChangeAsAsked x
      → Honest (change l1_low c x)
  unfolding change install clear_if_unused
  change-Honest c (installs l1_size loaded lock_poisoned) honest asked =
      install_over-Honest c.entry c l1_size loaded lock_poisoned honest asked
  change-Honest c (clears strong_count) honest asked = ground arith

  change_all-Honest :
      (c : PrecomputedTablesCache T) (xs : List (Change T))
      → Honest c
      → All ChangeAsAsked xs
      → Honest (change_all l1_low c xs)
  unfolding change_all
  change_all-Honest c [] honest asked = honest
  change_all-Honest c (x ∷ xs) honest asked =
      change_all-Honest (change l1_low c x) xs (change-Honest c x honest asked.0) asked.1

  -- What an installation leaves over an entry.
  install_over-cases :
      (entry : CachedPrecomputedTables) (c c' : PrecomputedTablesCache T) (l1_size tables : ℕ)
      (loaded : Loaded T) (lock_poisoned : Bool)
      → c.entry ≡ some entry
      → size (c.heap entry.tables) ≡ entry.l1_size
      → AsAsked l1_size (ok loaded)
      → install_over l1_low (some entry) c l1_size loaded lock_poisoned ≡ (c', ok tables)
      → (tables ≡ entry.tables)
        × (size (c.heap entry.tables) ≤ size (c'.heap entry.tables))
        × Serves l1_size entry.tables c'
  unfolding install_over replace_tables write
  install_over-cases entry c c' l1_size tables loaded lock_poisoned held honest asked h =
      elim (Bool-cases (leb l1_size entry.l1_size)) [
        | inl larger ↦
            let same : c ≡ c' = ground arith in
            let fits : l1_size ≤ entry.l1_size = ground arith in
            subst
              (λ x.
                (tables ≡ entry.tables)
                × (size (c.heap entry.tables) ≤ size (x.heap entry.tables))
                × Serves l1_size entry.tables x)
              same (ground arith, omega arith, (entry, held, refl, omega (arith, fits, honest)))
        | inr smaller ↦
            let grows : entry.l1_size ≤ l1_size = ground arith in
            let next : PrecomputedTablesCache T = record {
              entry = some (record { l1_size = l1_size; tables = entry.tables });
              heap = write c.heap entry.tables loaded.contents;
            } in
            let same : next ≡ c' = ground arith in
            let now : size (next.heap entry.tables) ≡ l1_size =
              ground (arith, eq_refl entry.tables) in
            subst
              (λ x.
                (tables ≡ entry.tables)
                × (size (c.heap entry.tables) ≤ size (x.heap entry.tables))
                × Serves l1_size entry.tables x)
              same
              (
                ground arith,
                omega (arith, grows, honest, now),
                (
                  record { l1_size = l1_size; tables = entry.tables },
                  refl,
                  refl,
                  omega (arith, now),
                ),
              )
      ]

  -- If the cache records the size of its tables, and the loaded tables have the size that they were
  -- loaded for: after an installation that succeeds, the cell that it replies is the cached one and
  -- holds tables at least as large as requested. If a cell was cached before, it is the same cell,
  -- and it holds tables at least as large as before.
  pub install-Serves :
      (c c' : PrecomputedTablesCache T) (l1_size tables : ℕ) (loaded : Loaded T)
      (lock_poisoned : Bool)
      → Honest c
      → AsAsked l1_size (ok loaded)
      → install l1_low c l1_size loaded lock_poisoned ≡ (c', ok tables)
      → Serves l1_size tables c'
        × ((entry : CachedPrecomputedTables)
            → c.entry ≡ some entry
            → (tables ≡ entry.tables) × (size (c.heap entry.tables) ≤ size (c'.heap entry.tables)))
  unfolding install install_over write
  install-Serves c c' l1_size tables loaded lock_poisoned honest asked h =
      elim (Option-cases c.entry) [
        | inl empty ↦
            let cell : loaded.cell ≡ tables = ground arith in
            let next : PrecomputedTablesCache T = record {
              entry = some (record { l1_size = l1_size; tables = loaded.cell });
              heap = write c.heap loaded.cell loaded.contents;
            } in
            let same : next ≡ c' = ground arith in
            let now : size (next.heap loaded.cell) ≡ l1_size =
              ground (arith, eq_refl loaded.cell) in
            (
              subst (λ x. Serves l1_size x c') cell
                  (subst (Serves l1_size loaded.cell) same (
                    record { l1_size = l1_size; tables = loaded.cell },
                    refl,
                    refl,
                    omega (arith, now),
                  )),
              λ entry held. absurd ground arith,
            )
        | inr (entry, held) ↦
            let over : install_over l1_low (some entry) c l1_size loaded lock_poisoned
                ≡ (c', ok tables) =
              ap (λ x. install_over l1_low x c l1_size loaded lock_poisoned) (sym held) ∙ h in
            let (same, grown, serves) =
              install_over-cases entry c c' l1_size tables loaded lock_poisoned held
                (recorded c.heap entry c.entry held honest) asked over in
            (
              subst (λ x. Serves l1_size x c') (sym same) serves,
              λ e held'.
                  let unique : entry ≡ e = ground arith in
                  subst
                    (λ x. (tables ≡ x.tables) × (size (c.heap x.tables) ≤ size (c'.heap x.tables)))
                    unique (same, grown),
            )
      ]

  -- A look at the cache ends the load with tables that serve, or the load goes on.
  reuse_or-cases :
      (found : Result TableError (Option ℕ)) (requested_l1 : ℕ) (c c' : PrecomputedTablesCache T)
      (continue : Reply T) (tables : ℕ)
      → Honest c
      → get_or_require_load l1_low c requested_l1 ≡ found
      → reuse_or l1_low found c continue ≡ (c', ok tables)
      → Serves requested_l1 tables c' ⊎ (continue ≡ (c', ok tables))
  reuse_or-cases (err e) requested_l1 c c' continue tables honest look h = absurd ground arith
  reuse_or-cases (ok none) requested_l1 c c' continue tables honest look h = inr h
  reuse_or-cases (ok (some t)) requested_l1 c c' continue tables honest look h =
      let same : c ≡ c' = ground arith in
      inl (
        subst (Serves requested_l1 tables) same
          (get_or_require_load-Serves c requested_l1 tables honest ground arith))

  reusing-cases :
      (reuse : Bool) (requested_l1 : ℕ) (c c' : PrecomputedTablesCache T) (continue : Reply T)
      (tables : ℕ)
      → Honest c
      → reusing l1_low reuse requested_l1 c continue ≡ (c', ok tables)
      → Serves requested_l1 tables c' ⊎ (continue ≡ (c', ok tables))
  reusing-cases false requested_l1 c c' continue tables honest h = inr h
  reusing-cases true requested_l1 c c' continue tables honest h =
      reuse_or-cases (get_or_require_load l1_low c requested_l1) requested_l1 c c' continue tables
        honest refl h

  load_and_install-Serves :
      (requested_l1 : ℕ) (loaded : Result TableError (Loaded T)) (lock_poisoned : Bool)
      (c c' : PrecomputedTablesCache T) (tables : ℕ)
      → Honest c
      → AsAsked requested_l1 loaded
      → load_and_install l1_low requested_l1 loaded lock_poisoned c ≡ (c', ok tables)
      → Serves requested_l1 tables c'
  unfolding load_and_install
  load_and_install-Serves requested_l1 (err e) lock_poisoned c c' tables honest asked h =
      absurd ground arith
  load_and_install-Serves requested_l1 (ok loaded) lock_poisoned c c' tables honest asked h =
      (install-Serves c c' requested_l1 tables loaded lock_poisoned honest asked h).0

  -- If the cache records the size of its tables, and all loaded tables have the size that they were
  -- loaded for: whoever is given tables is given the cell that the cache holds at that moment, and the
  -- tables in it are at least as large as requested, whatever other tasks install or clear on the way.
  pub get_or_load-Serves :
      (requested_l1 : ℕ) (reuse : Bool) (waiting loading : List (Change T))
      (loaded : Result TableError (Loaded T)) (lock_poisoned : Bool)
      (c c' : PrecomputedTablesCache T) (tables : ℕ)
      → Honest c
      → All ChangeAsAsked waiting
      → All ChangeAsAsked loading
      → AsAsked requested_l1 loaded
      → get_or_load_precomputed_tables_with_policy l1_low requested_l1 reuse waiting loading loaded
          lock_poisoned c
        ≡ (c', ok tables)
      → Serves requested_l1 tables c'
  unfolding get_or_load_precomputed_tables_with_policy
  get_or_load-Serves requested_l1 reuse waiting loading loaded lock_poisoned c c' tables honest
        waits loads asked h =
      let waited = change_all-Honest c waiting honest waits in
      let ready = change_all-Honest (change_all l1_low c waiting) loading waited loads in
      elim (reusing-cases reuse requested_l1 c c' _ tables honest h) [
        | inl serves ↦ serves
        | inr on ↦
            elim (reusing-cases reuse requested_l1 (change_all l1_low c waiting) c' _ tables waited
              on) [
                | inl serves ↦ serves
                | inr load ↦
                    load_and_install-Serves requested_l1 loaded lock_poisoned _ c' tables ready
                      asked load
              ]
      ]
