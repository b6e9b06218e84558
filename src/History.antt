-- ===== src/History.antt =====
-- rust/src/api/wallet/history.rs and the filter of rust/src/api/models/wallet_dtos.rs: the pages of
-- the transaction history. An error of a parser of the common crate has no typed cause.
pub mod Pages
pub mod Examples
use xelis_wallet_flutter.Base.{
  ℕ, ◌-◌, Bool, true, false, not, ◌&&◌, Option, none, some, List, [], ◌∷◌, Eq, nat_eq, ◌==◌, String,
  ltb, leb, take, drop, keep_if, if◌then◌else◌,
}
use xelis_wallet_flutter.Base.Results.{Result, ok, err, ◌>>=◌, ◌>>◌, ensure, ok_or, map_err}
use xelis_wallet_flutter.Base.Words.{u64_max, checked_add, checked_mul, checked_sub}
use xelis_wallet_flutter.Errors.{
  NativeXelisError, NativeXelisErrorCode, invalid_input, storage, serialization,
}
use xelis_wallet_flutter.Errors.Foreign.{AnyhowError, untyped, Kinds}
use xelis_wallet_flutter.Errors.Convert.{from_wallet_operation}
use xelis_wallet_flutter.Prepared.{is_some}

pub record HistoryPageFilter : Type 0 where
  pub page : ℕ
  pub limit : Option ℕ
  pub asset_hash : Option String
  pub address : Option String
  pub min_topoheight : Option ℕ
  pub max_topoheight : Option ℕ
  pub accept_incoming : Bool
  pub accept_outgoing : Bool
  pub accept_coinbase : Bool
  pub accept_burn : Bool
  pub accept_blob : Bool
  pub min_timestamp : Option ℕ
  pub max_timestamp : Option ℕ

-- The options of the wallet crate's storage, without the two that are always empty.
pub record TransactionFilterOptions (Key H : Type 0) : Type 0 where
  pub address : Option Key
  pub asset : Option H
  pub min_topoheight : Option ℕ
  pub max_topoheight : Option ℕ
  pub accept_incoming : Bool
  pub accept_outgoing : Bool
  pub accept_coinbase : Bool
  pub accept_burn : Bool
  pub accept_blob : Bool
  pub min_timestamp : Option ℕ
  pub max_timestamp : Option ℕ
  pub skip : Option ℕ
  pub limit : Option ℕ

pub record ExactIntegratedHistoryDestination (Key Bytes : Type 0) : Type 0 where
  pub public_key : Key
  pub serialized_data : Bytes

pub record PreparedHistoryFilter (Key Bytes H : Type 0) : Type 0 where
  pub options : TransactionFilterOptions Key H
  pub exact_integrated_destination : Option (ExactIntegratedHistoryDestination Key Bytes)

-- A stored transfer, with what the code reads of it.
pub record Transfer (Key Bytes : Type 0) : Type 0 where
  pub amount : ℕ
  pub destination : Key
  pub serialized_extra_data : Option Bytes

-- `others` are the entries that are neither incoming nor outgoing.
pub data EntryData (Key Bytes : Type 0) : Type 0 where
  incoming outgoing : List (Transfer Key Bytes) → EntryData Key Bytes
  others : EntryData Key Bytes

pub record TransactionEntry (Key Bytes H : Type 0) : Type 0 where
  pub hash : H
  pub entry : EntryData Key Bytes

pub record FilteredPagination : Type 0 where
  pub offset : ℕ
  pub limit : Option ℕ

-- The parsers and getters of the common crate.
pub record Parsers (Address Data Key Bytes H : Type 0) : Type 0 where
  pub from_hex : String → Option H
  pub from_string : String → Option Address
  pub extract_data : Address → Option Data × Address
  pub to_public_key : Address → Key
  pub to_bytes : Data → Bytes

abbrev pub AnyhowResult : Type 0 → Type 0
AnyhowResult A = Result AnyhowError A

abbrev pub unwrap_zero : Option ℕ → ℕ
unwrap_zero none = 0
unwrap_zero (some n) = n

abbrev pub below_maximum : Option ℕ → Option ℕ
below_maximum none = none
below_maximum (some maximum) = if maximum == u64_max then none else some maximum

abbrev pub positive_limit : Option ℕ → Bool
positive_limit none = true
positive_limit (some limit) = ltb 0 limit

module _ (usize_max : ℕ) where
  abbrev pub page_offset : ℕ → ℕ → Option ℕ
  page_offset page limit = elim (checked_sub page 1) [
    | none ↦ none
    | some before ↦ checked_mul usize_max before limit
  ]

  unfoldable pub prepare_skip : ℕ → Option ℕ → AnyhowResult (Option ℕ)
  prepare_skip page none = ok none
  prepare_skip page (some limit) =
      ok_or (page_offset page limit) untyped >>= λ offset. ok (some offset)

  unfoldable pub prepare_limit : ℕ → Option ℕ → AnyhowResult (Option ℕ)
  prepare_limit offset none = ok none
  prepare_limit offset (some limit) =
      ok_or (checked_add usize_max offset limit) untyped >>= λ end. ok (some end)

  -- `FilteredPagination::prepare`: the pagination, and the options that it changes.
  unfoldable pub prepare_pagination :
      {Key H : Type 0}
      → TransactionFilterOptions Key H
      → AnyhowResult (FilteredPagination × TransactionFilterOptions Key H)
  unfolding prepare_limit
  prepare_pagination options = prepare_limit (unwrap_zero options.skip) options.limit >>= λ limit.
      ok (
        record { offset = unwrap_zero options.skip; limit = options.limit },
        record options { skip = none; limit = limit },
      )

-- `FilteredPagination::apply`.
unfoldable pub apply {ℓ} : {A : Type ℓ} → FilteredPagination → List A → List A
apply pagination values = elim pagination.limit [
  | some limit ↦ take limit (drop pagination.offset values)
  | none ↦ values
]

module _ {Address Data Key Bytes H : Type 0} (parsers : Parsers Address Data Key Bytes H) where
  open parsers use {from_hex, from_string, extract_data, to_public_key, to_bytes}

  abbrev pub Destination : Type 0
  Destination = Option Key × Option (ExactIntegratedHistoryDestination Key Bytes)

  abbrev pub destination_of : Option Data × Address → Destination
  destination_of (some integrated, base) = (
    none,
    some (record { public_key = to_public_key base; serialized_data = to_bytes integrated }),
  )
  destination_of (none, base) = (some (to_public_key base), none)

  unfoldable pub prepare_address : Option String → AnyhowResult Destination
  prepare_address none = ok (none, none)
  prepare_address (some text) =
      ok_or (from_string text) untyped >>= λ address. ok (destination_of (extract_data address))

  unfoldable pub prepare_asset : Option String → AnyhowResult (Option H)
  prepare_asset none = ok none
  prepare_asset (some text) = ok_or (from_hex text) untyped >>= λ asset. ok (some asset)

  -- `HistoryPageFilter::prepare`.
  unfoldable pub prepare_filter :
      (usize_max : ℕ) → HistoryPageFilter → AnyhowResult (PreparedHistoryFilter Key Bytes H)
  unfolding prepare_address prepare_asset prepare_skip
  prepare_filter usize_max filter = do
    ensure (ltb 0 filter.page) untyped
    ensure (positive_limit filter.limit) untyped
    destination ← prepare_address filter.address
    asset ← prepare_asset filter.asset_hash
    skip ← prepare_skip usize_max filter.page filter.limit
    ok (record {
      options = record {
        address = destination.0;
        asset = asset;
        min_topoheight = filter.min_topoheight;
        max_topoheight = below_maximum filter.max_topoheight;
        accept_incoming = filter.accept_incoming;
        accept_outgoing = filter.accept_outgoing;
        accept_coinbase = if is_some filter.address then false else filter.accept_coinbase;
        accept_burn = if is_some filter.address then false else filter.accept_burn;
        accept_blob =
            filter.accept_blob && not (is_some filter.address) && not (is_some filter.asset_hash);
        min_timestamp = filter.min_timestamp;
        max_timestamp = filter.max_timestamp;
        skip = skip;
        limit = filter.limit;
      };
      exact_integrated_destination = destination.1;
    })

abbrev pub is_empty {ℓ} : {A : Type ℓ} → List A → Bool
is_empty [] = true
is_empty (x ∷ xs) = false

abbrev pub same_data : {Bytes : Type 0} ⦃bytes_eq : Eq Bytes⦄ → Option Bytes → Bytes → Bool
same_data none bytes = false
same_data (some data_bytes) bytes = data_bytes == bytes

module _ {Key Bytes : Type 0} ⦃key_eq : Eq Key⦄ ⦃bytes_eq : Eq Bytes⦄ where
  unfoldable pub matches : ExactIntegratedHistoryDestination Key Bytes → Key → Option Bytes → Bool
  matches destination public_key data_bytes =
      public_key == destination.public_key && same_data data_bytes destination.serialized_data

  unfoldable pub matches_wallet : ExactIntegratedHistoryDestination Key Bytes → Key → Bool
  matches_wallet destination wallet_public_key = wallet_public_key == destination.public_key

  -- The closure of `retain_mut`: what it leaves of an entry, and whether the entry stays.
  unfoldable pub retain_entry :
      ExactIntegratedHistoryDestination Key Bytes
      → Key
      → EntryData Key Bytes
      → Option (EntryData Key Bytes)
  unfolding matches matches_wallet
  retain_entry destination wallet (incoming transfers) =
      let kept = keep_if (λ t. matches destination wallet t.serialized_extra_data) transfers in
      if matches_wallet destination wallet && not (is_empty kept)
      then some (incoming kept)
      else none
  retain_entry destination wallet (outgoing transfers) =
      let kept =
        keep_if (λ t. matches destination t.destination t.serialized_extra_data) transfers in
      if not (is_empty kept) then some (outgoing kept) else none
  retain_entry destination wallet others = none

  abbrev pub consed :
      {H : Type 0}
      → TransactionEntry Key Bytes H
      → Option (EntryData Key Bytes)
      → List (TransactionEntry Key Bytes H)
      → List (TransactionEntry Key Bytes H)
  consed transaction none rest = rest
  consed transaction (some entry) rest = record transaction { entry = entry } ∷ rest

  unfoldable pub apply_exact_integrated_destination :
      {H : Type 0}
      → ExactIntegratedHistoryDestination Key Bytes
      → Key
      → List (TransactionEntry Key Bytes H)
      → List (TransactionEntry Key Bytes H)
  unfolding retain_entry
  apply_exact_integrated_destination destination wallet [] = []
  apply_exact_integrated_destination destination wallet (t ∷ ts) =
      consed t (retain_entry destination wallet t.entry)
        (apply_exact_integrated_destination destination wallet ts)

  abbrev pub exactly :
      {H : Type 0}
      → Option (ExactIntegratedHistoryDestination Key Bytes)
      → Key
      → List (TransactionEntry Key Bytes H)
      → List (TransactionEntry Key Bytes H)
  exactly none wallet transactions = transactions
  exactly (some destination) wallet transactions =
      apply_exact_integrated_destination destination wallet transactions

  abbrev pub without_limit :
      {H : Type 0}
      → Option (ExactIntegratedHistoryDestination Key Bytes)
      → TransactionFilterOptions Key H
      → TransactionFilterOptions Key H
  without_limit none options = options
  without_limit (some destination) options = record options { limit = none }

-- The loop that projects the entries of a page.
abbrev pub collect : {A B : Type 0} → (A → AnyhowResult B) → List A → AnyhowResult (List B)
collect project [] = ok []
collect project (x ∷ xs) = project x >>= λ y. collect project xs >>= λ ys. ok (y ∷ ys)

module _ {Address Data Key Bytes H N : Type 0} ⦃key_eq : Eq Key⦄ ⦃bytes_eq : Eq Bytes⦄
    (kinds : Kinds) (parsers : Parsers Address Data Key Bytes H) (usize_max : ℕ)
    (get_filtered_transactions : TransactionFilterOptions Key H
      → AnyhowResult (List (TransactionEntry Key Bytes H)))
    (wallet_public_key : Key)
    (transaction_entry : TransactionEntry Key Bytes H → AnyhowResult N) where
  abbrev pub classify_history_error :
      {A : Type 0} → NativeXelisErrorCode → String → AnyhowResult A → Result NativeXelisError A
  classify_history_error code native_kind =
      map_err (λ e. from_wallet_operation kinds e code native_kind)

  unfoldable pub history : HistoryPageFilter → Result NativeXelisError (List N)
  history filter = do
    prepared ←
        classify_history_error invalid_input "WALLET_HISTORY_FILTER_INVALID"
          (prepare_filter parsers usize_max filter)
    paged ←
        classify_history_error invalid_input "WALLET_HISTORY_FILTER_INVALID"
          (prepare_pagination usize_max prepared.options)
    transactions ←
        classify_history_error storage "WALLET_HISTORY_READ_FAILED"
          (get_filtered_transactions (without_limit prepared.exact_integrated_destination paged.1))
    classify_history_error serialization "WALLET_HISTORY_EXTRA_DATA_SERIALIZATION_FAILED" (
        collect transaction_entry (
          apply paged.0
            (exactly prepared.exact_integrated_destination wallet_public_key transactions)))
