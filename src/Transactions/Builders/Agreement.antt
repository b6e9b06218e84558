-- ===== src/Transactions/Builders/Agreement.antt =====
-- What the application reviews is what is built, transfer by transfer.
use xelis_wallet_flutter.Base.{
  ◌≡◌, ◌<◌, Bool, false, ◌&&◌, Option, none, some, String, List, [], ◌∷◌, length, arith,
}
use xelis_wallet_flutter.Base.Results.{ok, >>=-eq-ok}
use xelis_wallet_flutter.Prepared.{is_some}
use xelis_wallet_flutter.Transactions.Builders.{
  Formats, NativeTransactionTransferRequest, NativePreparedTransfer,
  NativePreparedTransferExtraData, integrated_address, explicit, TransferBuilder,
  TransactionTypeBuilder, transfers, NativePreparedTransactionKind, prepared_transfers, Row, Rows,
  build_row, build_rows, build_atomic_transfers,
}

module _ {H Address Data : Type 0} (formats : Formats H Address Data) where
  open formats use {from_hex, to_hex, from_string, to_string, extract_data, string_data}

  -- What the application should review: the text of the request, or else what the address carries.
  abbrev pub to_review :
      Option String → Option Data → Bool → Option (NativePreparedTransferExtraData Data)
  to_review none none encrypted = none
  to_review none (some carried) encrypted =
      some (record { data_element = carried; source = integrated_address; encrypted = encrypted })
  to_review (some written) carried encrypted =
      some (record { data_element = string_data written; source = explicit; encrypted = encrypted })

  -- What the builder should carry beside its address.
  abbrev pub to_carry : Option String → Option Data
  to_carry none = none
  to_carry (some written) = some (string_data written)

  -- One request, its builder, its projection and its review data agree.
  pub record Agrees (request : NativeTransactionTransferRequest)
      (builder : TransferBuilder H Address Data) (projected : NativePreparedTransfer)
      (review : Option (NativePreparedTransferExtraData Data)) : Type 0 where
    pub positive : 0 < builder.amount
    pub built_amount : builder.amount ≡ request.amount
    pub built_asset : from_hex request.asset ≡ some builder.asset
    pub built_destination : from_string request.destination ≡ some builder.destination
    pub built_encryption : builder.encrypt_extra_data ≡ request.encrypt_extra_data
    pub shown_amount : projected.amount ≡ builder.amount
    pub shown_asset : projected.asset ≡ to_hex builder.asset
    pub shown_destination : projected.destination ≡ to_string (extract_data builder.destination).1
    pub shown_encryption : projected.encrypt_extra_data ≡ builder.encrypt_extra_data
    pub shown_extra_data : projected.has_extra_data ≡ is_some review
    pub built_extra_data : builder.extra_data ≡ to_carry request.extra_data
    pub reviewed :
        review
        ≡ to_review request.extra_data
            (extract_data builder.destination).0
            request.encrypt_extra_data
    pub one_source :
        is_some builder.extra_data && is_some (extract_data builder.destination).0 ≡ false

  build_row-Agrees :
      (request : NativeTransactionTransferRequest) (row : Row formats)
      → build_row formats request ≡ ok row
      → Agrees request row.0 row.1 row.2
  unfolding build_row
  build_row-Agrees request row h = ground arith

  -- The three vectors hold one agreeing entry for each request, in the order of the requests.
  abbrev pub AllAgree : List NativeTransactionTransferRequest → Rows formats → Type 0
  AllAgree [] rows = rows ≡ ([], [], [])
  AllAgree (request ∷ requests) rows =
      (row : Row formats) × (rest : Rows formats) × (rows
        ≡ (row.0 ∷ rest.0, row.1 ∷ rest.1, row.2 ∷ rest.2))
      × Agrees request row.0 row.1 row.2
      × AllAgree requests rest

  build_rows-AllAgree :
      (requests : List NativeTransactionTransferRequest) (rows : Rows formats)
      → build_rows formats requests ≡ ok rows
      → AllAgree requests rows
  unfolding build_rows
  build_rows-AllAgree [] rows h = ground arith
  build_rows-AllAgree (request ∷ requests) rows h =
      let (row, built, h') = >>=-eq-ok (build_row formats request) _ h in
      let (rest, built_rest, h'') = >>=-eq-ok (build_rows formats requests) _ h' in
      (
        row,
        rest,
        ground arith,
        build_row-Agrees request row built,
        build_rows-AllAgree requests rest built_rest,
      )

  -- A successful build has at least one request, and the builders, the projection and the review
  -- data agree with the requests one by one: amount, asset, destination and encryption, the extra
  -- data that is built in and the extra data that is reviewed, with its source, which is the text of
  -- the request or else what its address carries, and never both.
  pub build_atomic_transfers-agree :
      (requests : List NativeTransactionTransferRequest)
      (builder : TransactionTypeBuilder H Address Data) (kind : NativePreparedTransactionKind)
      (review : List (Option (NativePreparedTransferExtraData Data)))
      → build_atomic_transfers formats requests ≡ ok (builder, kind, review)
      → (0 < length requests)
        × ((rows : Rows formats) × (builder ≡ transfers rows.0)
            × (kind ≡ prepared_transfers rows.1)
            × (review ≡ rows.2)
            × AllAgree requests rows)
  unfolding build_atomic_transfers
  build_atomic_transfers-agree [] builder kind review h = cc
  build_atomic_transfers-agree (request ∷ requests) builder kind review h =
      let (rows, built, h') = >>=-eq-ok (build_rows formats (request ∷ requests)) _ h in
      (
        omega arith,
        (
          rows,
          ground arith,
          ground arith,
          ground arith,
          build_rows-AllAgree (request ∷ requests) rows built,
        ),
      )
