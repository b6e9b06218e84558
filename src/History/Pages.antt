-- ===== src/History/Pages.antt =====
-- The pages of the history against the whole list of matching transactions.
use xelis_wallet_flutter.Base.{
  ℕ, zero, suc, ◌+◌, ◌-◌, ◌*◌, ◌≤◌, ◌≡◌, refl, ap, sym, ◌∙◌, Option, none, some, List, [], ◌∷◌,
  ◌++◌, Eq, nat_eq, ltb, take, drop, arith,
}
use xelis_wallet_flutter.Base.Results.{Result, ok, ◌>>=◌, ensure, map_err, >>=-elim}
use xelis_wallet_flutter.Errors.{NativeXelisError, serialization, storage}
use xelis_wallet_flutter.Errors.Foreign.{untyped, Kinds}
use xelis_wallet_flutter.Errors.Convert.{from_wallet_operation}
use xelis_wallet_flutter.History.{
  HistoryPageFilter, TransactionFilterOptions, ExactIntegratedHistoryDestination,
  PreparedHistoryFilter, TransactionEntry, Parsers, AnyhowResult, prepare_skip, prepare_limit,
  prepare_pagination, apply, prepare_filter, prepare_address, prepare_asset, exactly, collect,
  history, positive_limit, without_limit,
}

module _ {A : Type 0} where
  take-take : (l : ℕ) (xs : List A) → take l (take l xs) ≡ take l xs
  take-take zero xs = refl
  take-take (suc l) [] = refl
  take-take (suc l) (x ∷ xs) = ap (λ ys. x ∷ ys) (take-take l xs)

  take-drop-take :
      (o l n : ℕ) (xs : List A) → o + l ≡ n → take l (drop o (take n xs)) ≡ take l (drop o xs)
  take-drop-take zero l n xs h =
      let same : l ≡ n = omega arith in ap (λ m. take l (take m xs)) (sym same) ∙ take-take l xs
  take-drop-take (suc o) l zero xs h = absurd omega arith
  take-drop-take (suc o) l (suc n) [] h = refl
  take-drop-take (suc o) l (suc n) (x ∷ xs) h = take-drop-take o l n xs (omega arith)

  take-append : (o l n : ℕ) (xs : List A) → o + l ≡ n → take o xs ++ take l (drop o xs) ≡ take n xs
  take-append zero l n xs h = let same : l ≡ n = omega arith in ap (λ m. take m xs) same
  take-append (suc o) l zero xs h = absurd omega arith
  take-append (suc o) zero (suc n) [] h = refl
  take-append (suc o) (suc l) (suc n) [] h = refl
  take-append (suc o) l (suc n) (x ∷ xs) h = ap (λ ys. x ∷ ys) (take-append o l n xs (omega arith))

  -- The first `n` pages of `limit` entries, one after another.
  abbrev pub pages : (n limit : ℕ) → List A → List A
  pages zero limit all = []
  pages (suc n) limit all =
      pages n limit all ++ apply (record { offset = n * limit; limit = some limit }) all

  -- The first `n` pages of `limit` entries, one after another, are the first `n * limit` entries
  -- of the list, in their order, none twice and none left out.
  pub pages-take : (n limit : ℕ) (all : List A) → pages n limit all ≡ take (n * limit) all
  unfolding apply
  pages-take zero limit all =
      let none_shown : 0 ≡ 0 * limit = omega arith in ap (λ m. take m all) none_shown
  pages-take (suc n) limit all =
      ap (λ ys. ys ++ take limit (drop (n * limit) all)) (pages-take n limit all)
      ∙ take-append (n * limit) limit (suc n * limit) all (grind arith)

page_end : (page limit : ℕ) → 1 ≤ page → (page - 1) * limit + limit ≡ page * limit
page_end zero limit h = absurd omega arith
page_end (suc n) limit h =
    let before : suc n - 1 ≡ n = omega arith in ap (λ m. m * limit + limit) before ∙ grind arith

module _ {Address Data Key Bytes H N : Type 0} ⦃key_eq : Eq Key⦄ ⦃bytes_eq : Eq Bytes⦄
    (kinds : Kinds) (parsers : Parsers Address Data Key Bytes H) (usize_max : ℕ)
    (get_filtered_transactions : TransactionFilterOptions Key H
      → AnyhowResult (List (TransactionEntry Key Bytes H)))
    (wallet_public_key : Key) (transaction_entry : TransactionEntry Key Bytes H → AnyhowResult N)
    (filter : HistoryPageFilter) (prepared : PreparedHistoryFilter Key Bytes H) (limit : ℕ) where
  paged_filter :
      prepare_filter parsers usize_max filter ≡ ok prepared
      → filter.limit ≡ some limit
      → (1 ≤ filter.page)
        × (prepared.options.skip ≡ some ((filter.page - 1) * limit))
        × (prepared.options.limit ≡ some limit)
  unfolding prepare_filter prepare_skip
  paged_filter h limited = >>=-elim (ensure (ltb 0 filter.page) untyped) _ h λ u first h1.
      >>=-elim (ensure (positive_limit filter.limit) untyped) _ h1 λ v positive h2.
        >>=-elim (prepare_address parsers filter.address) _ h2 λ destination e3 h3.
          >>=-elim (prepare_asset parsers filter.asset_hash) _ h3 λ asset e4 h4.
            >>=-elim (prepare_skip usize_max filter.page filter.limit) _ h4
              λ skip e5 h5. (ground arith, ground arith, ground arith)

  paged_options :
      prepare_filter parsers usize_max filter ≡ ok prepared
      → filter.limit ≡ some limit
      → filter.page * limit ≤ usize_max
      → prepare_pagination usize_max prepared.options
        ≡ ok (
          record { offset = (filter.page - 1) * limit; limit = some limit },
          record prepared.options { skip = none; limit = some ((filter.page - 1) * limit + limit) },
        )
  unfolding prepare_pagination prepare_limit
  paged_options h limited small =
      let (first, skipped, bounded) = paged_filter h limited in
      let whole : (filter.page - 1) * limit + limit ≡ filter.page * limit =
        page_end filter.page limit first in
      ground arith

  abbrev projected : List (TransactionEntry Key Bytes H) → Result NativeXelisError (List N)
  projected transactions =
      map_err
        (λ e.
          from_wallet_operation kinds e serialization
            "WALLET_HISTORY_EXTRA_DATA_SERIALIZATION_FAILED")
        (collect transaction_entry transactions)

  -- What the read and the projection give for the two ways of asking the storage.
  window :
      (exact : Option (ExactIntegratedHistoryDestination Key Bytes))
      (all : List (TransactionEntry Key Bytes H)) (offset : ℕ)
      → get_filtered_transactions
          (record prepared.options { skip = none; limit = some (offset + limit) })
        ≡ ok (take (offset + limit) all)
      → get_filtered_transactions (record prepared.options { skip = none; limit = none }) ≡ ok all
      → (map_err
            (λ e. from_wallet_operation kinds e storage "WALLET_HISTORY_READ_FAILED")
            (get_filtered_transactions (
              without_limit exact
                (record prepared.options { skip = none; limit = some (offset + limit) })))
          >>= λ transactions. projected (
              apply
                (record { offset = offset; limit = some limit })
                (exactly exact wallet_public_key transactions)))
        ≡ projected (take limit (drop offset (exactly exact wallet_public_key all)))
  unfolding apply
  window none all offset prefix read =
      rw (prefix) (ap projected (take-drop-take offset limit (offset + limit) all refl))
  window (some destination) all offset prefix read = rw (read) refl

  -- Given that the storage's limit takes a prefix, and that its read succeeds: a page of a valid
  -- filter within the range of `usize` is, of all transactions that match the filter and the exact
  -- destination, the `limit` ones after the earlier pages, projected one by one, although the
  -- storage is asked for a prefix only.
  pub history-page :
      (all : List (TransactionEntry Key Bytes H))
      → ((options : TransactionFilterOptions Key H) (n : ℕ)
          → get_filtered_transactions (record options { skip = none; limit = some n }) ≡ (
              get_filtered_transactions (record options { skip = none; limit = none })
              >>= λ matching. ok (take n matching)))
      → prepare_filter parsers usize_max filter ≡ ok prepared
      → filter.limit ≡ some limit
      → filter.page * limit ≤ usize_max
      → get_filtered_transactions (record prepared.options { skip = none; limit = none }) ≡ ok all
      → history kinds parsers usize_max get_filtered_transactions wallet_public_key
          transaction_entry filter
        ≡ map_err
            (λ e.
              from_wallet_operation kinds e serialization
                "WALLET_HISTORY_EXTRA_DATA_SERIALIZATION_FAILED")
            (collect transaction_entry (
              take limit (
                drop
                  ((filter.page - 1) * limit)
                  (exactly prepared.exact_integrated_destination wallet_public_key all))))
  unfolding history
  history-page all prefixes h limited small read =
      let prefix =
        prefixes prepared.options ((filter.page - 1) * limit + limit)
        ∙ ap (λ r. r >>= λ matching. ok (take ((filter.page - 1) * limit + limit) matching)) read in
      rw (h, paged_options h limited small)
        (window prepared.exact_integrated_destination all ((filter.page - 1) * limit) prefix read)
