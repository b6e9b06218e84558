-- ===== src/Lib.antt =====
-- The Rust core of the wallet (rust/src/api).
--
-- An application reaches the wallet through a generated bridge. It prepares a transaction, shows it
-- to the user, and broadcasts or cancels it by the id and the hash that the preparation replied.
-- A wallet keeps at most one prepared transaction, in a slot that all its tasks share.
--
-- Prepared.antt is rust/src/api/wallet/transactions/prepared.rs: the slot as a record, one function
-- for each method. Prepared/Guards.antt has the two guards; their `Drop` is written out in the
-- functions that consume them. Prepared/World.antt lets any number of tasks call the slot: every
-- method holds the lock once, so a run is a list of whole methods.
-- Errors.antt and its children are rust/src/api/error.rs: the errors of the wallet and common
-- crates (Errors/Foreign.antt has the variants that the source matches), and the code that the
-- bridge reports for each.
-- Transactions.antt and its children are rust/src/api/wallet/transactions.rs and the files beside
-- the slot: Submission.antt (transactions/submission.rs), Fees.antt and Builders.antt
-- (transactions/builders.rs), and from transactions.rs Prepare.antt and Prepare/Plans.antt (the
-- `prepare_*_transaction` methods), Review.antt (inspection and cancellation), Broadcast.antt
-- (`broadcast_prepared_transaction`) and Legacy.antt (`broadcast_transaction` and
-- `clear_transaction_internal`, which name the transaction by its hash alone). Where a method
-- waits, what other tasks call on the slot meanwhile is an argument, a list of calls; that is also so
-- for the time between the end of a submission and its reply, when others may take the slot again.
-- Runtime/TableCache.antt is rust/src/api/wallet/runtime/table_cache.rs, the precomputed tables that
-- all wallets share. Xswd/Registry.antt is rust/src/api/xswd/impl/registry.rs, the references under
-- which the sessions of XSWD applications are known. Xswd/Limits.antt and Xswd/Payload.antt are the
-- limits and the projection of JSON to tokens of rust/src/api/models/xswd_dtos.rs;
-- Xswd/Payload/Flat.antt says what the tokens of a value should be, and Reader.antt reads them back.
-- Xswd/Dispatcher.antt has the data of rust/src/api/xswd/impl/dispatcher.rs, the task between the
-- applications and Dart: its children Answers.antt (what is sent), Queue.antt (deferred events),
-- Prepare.antt (what Dart is shown, from rust/src/api/xswd/impl.rs) and Loop.antt (`run`). A round of
-- the loop takes what the channel holds, what Dart answers and what other tasks call on the registry
-- as arguments; two calls on the registry within one round have no other task's call between them.
-- Xswd/Permissions.antt is `apply_permission_updates` of rust/src/api/xswd/impl.rs.
-- Multisig/Pending.antt is the pending request for signatures in rust/src/api/wallet/multisig.rs.
-- History.antt is the `history` method of rust/src/api/wallet/history.rs with the filter of
-- rust/src/api/models/wallet_dtos.rs; the largest `usize` is an argument.
-- AddressBook.antt is rust/src/api/address_book_v2.rs with its data in
-- rust/src/api/models/address_book_v2.rs: its children Destination.antt (checks and normal forms),
-- Codec.antt (the stored form), Storage.antt (reading), Migration.antt (from the earlier book),
-- Matches.antt and Book.antt (the operations). No other task changes the storage between the
-- migration at the start of an operation and the rest of it; the order in which a `HashMap` gives its
-- values is an argument.
-- Base.antt has what these share: tests, lists, results, machine integers.
--
-- Integers are natural numbers; the checked operations of a width are written out (Base/Words.antt).
-- Loops are recursion on lists, and nested data is taken by its structure. Only the reader of
-- Xswd/Payload/Reader.antt has fuel, two calls for each token, which its theorem shows to be enough.
-- The wallet and common crates are parameters: the records Wallet, Answers, Formats, Parsers and
-- Kinds hold what the code calls, and the theorems hold for all of them. The storage's reads are arguments;
-- the address book's storage is a record of operations over any state (EncryptedStorage).
-- What its theorems ask of the storage, the addresses and the hash are the records StorageLaws
-- (AddressBook/Marker.antt) and AddressLaws (AddressBook/RoundTrip.antt).
-- Hashes are any type with equality.
--
-- Not modelled: log lines and diagnostic messages, the legacy methods that take floating-point
-- amounts, the rest of multisig and of the history, the servers and relayers of XSWD, the match of an
-- address book by the parts of a destination, and the connection to a daemon.
pub mod Base
pub mod Errors
pub mod Prepared
pub mod Transactions
pub mod Multisig
pub mod History
pub mod Runtime
pub mod Xswd
pub mod AddressBook
