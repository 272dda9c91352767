-- ===== src/Lib.antt =====
-- A verification library for the payments of the Lexe node and of the app.
--
-- The program. A Lexe user node (`node`) runs LDK in an enclave. What it knows about the payments of
-- its user is kept by `PaymentsManager` (`lexe-ln/src/payments/manager.rs`): a map of the pending
-- payments and a set of the ids of the finalized ones, behind one lock. LDK's events, the command
-- server, an invoice timer and a confirmation timer call its entry points. Each call checks the
-- change, writes it through the persister to the backend's database, and commits it to memory; it
-- calls LDK's channel manager to claim or to fail an HTLC. The kinds of payments, with their state
-- machines, are in `lexe-ln/src/payments/{inbound,outbound,onchain}.rs`; confirmations are reported
-- by `lexe-ln/src/esplora.rs`. A payment is named by a `LxPaymentId` of `common/src/ln/payments.rs`,
-- whose text is a prefix for its kind and a hex string.
--
-- The app (`app-rs`) keeps a copy of the payments as `BasicPayment`s: a list sorted by index, with three
-- bitmaps of positions for the lists that it shows, and a file per payment. It syncs with the node by
-- asking for the state of its pending payments and then, batch by batch, for what comes after its
-- latest payment.
--
-- The node's on-chain wallet is BDK's. Its database is `WalletDb` (`lexe-ln/src/wallet/db/mod.rs`): maps in
-- memory behind a lock, which BDK changes by single calls or by batches; a committed batch wakes the task
-- that persists the maps.
--
-- A backup of the node lies in Google Drive: `GoogleVfs` (`gdrive/src/gvfs.rs`) keeps files by a directory and
-- a name in one folder, and caches the Google id of each, so that it knows which files there are.
--
-- The files.
--   Base and its children: tests on numbers, lists, results, maps and sets; `BTreeMap` as an ascending list
--     (Base/BTree), and its lookups as updates of a function (Base/Updates).
--   Ids: the identifiers of `common/src/ln/payments.rs`.
--   Hex, Hex/Roundtrip, Hex/Order: the hex codec of `common/src/hex.rs`. A text is the list of the
--     codes of its characters.
--   IdText and its children: `prefix`, `Display`, `FromStr` and `Ord` of `LxPaymentId`
--     (`common/src/ln/payments.rs`), with `Ord` of `LxTxid` (`common/src/ln/hashes.rs`). The text of
--     rust-bitcoin's `Txid` is the parameter `TxidText`, with the laws `TxidLaws`.
--   IdText/Index, Index/Laws: `Display` and `FromStr` of `PaymentIndex`, with `FromStr` of `TimestampMs`
--     (`common/src/time.rs`); a text that is a number for `i64::from_str` is read digit by digit.
--   IdText/Digits: lemmas on texts that are split at a character, and on digits.
--   ApprovedVersions and its children: `approve_and_revoke` of `node/src/approved_versions.rs`.
--   InactivityTimer and its children: the actor of `node/src/inactivity_timer.rs` that shuts an idle
--     node down. tokio's timer is a deadline: a poll of it is ready from then on.
--   PaymentDb/Basic: `BasicPayment` of `common/src/ln/payments.rs`, with its junk test and the order of
--     its index. The descriptions of lightning-invoice are the parameter `Descriptions`.
--   PaymentDb/Bitmap: the `RoaringBitmap` of the roaring crate, as the parameter `Bitmap` with the laws
--     `BitmapLaws`: what the crate documents, by the ascending list of the values.
--   PaymentDb/State, Lookups: `PaymentDbState` of `app-rs/src/payments.rs` and its getters.
--   PaymentDb/Storage: `PaymentDb`, with the files (`Ffs`) as a parameter: a write answers whether it
--     succeeded.
--   PaymentDb/Insert, Update, Build, Sync: `insert_new_payments`; the updates and the notes;
--     `from_unsorted_vec`; and `sync_payments`, with the node's API as a parameter.
--   PaymentDb/Disk: `read` and `delete`, with the directory as a parameter.
--   PaymentDb/Invariant: `IsConsistent`, the first two checks of `debug_assert_invariants`.
--   PaymentDb/Indexes, Counts, Appended, Order, Find, Insert/Loop, Update/Positions, Build/Sorting,
--     Sync/Batches: lemmas on positions, ranks, sorted lists and batches.
--   PaymentDb/Scroll, Insert/Batch, Insert/Retry, Update/Pending, Update/Note, Update/Junk,
--     Build/Indexed, Disk/Reading, Sync/New: the theorems.
--   PaymentDb/Tests and its children: concrete databases, and the theorems at those inputs.
--   WalletDb/Library: the structs of the bdk crate that the wallet database names, and the types and orders of
--     the bdk and bitcoin crates as the parameter `Bdk`.
--   WalletDb/KeyPath, KeyPath/Text: `Path`, its order and its text. It is called `KeyPath` here.
--   WalletDb/Data, Operations: `DbData` with its `Database` and its `BatchOperations`. A call that returns
--     `Ok` always is written without its result.
--   WalletDb/Batch, Handle: the traits as records of functions, with their implementations by `DbData`,
--     `DbBatch` and `WalletDb`; `DbOp`, `do_op` and `commit_batch`. A constructor of `DbOp` that would have
--     the name of an operation ends in `_op`.
--   WalletDb/Handle/Batching, Invariant, View, View/Refinement, Iteration, Scripts: the theorems.
--   WalletDb/Tests: a concrete wallet database, and the theorems at that input.
--   Gvfs/FileId and its children: `VfsFileId` of `common/src/api/vfs.rs` with its order, `GvfsFileId` of
--     `gdrive/src/gvfs_file_id.rs`, and the conversions.
--   Gvfs/Files: the operations of `GoogleVfs` on single files, with the requests of `GDriveClient` as the
--     parameter `Drive`. The context of an error is not kept, but which request failed is.
--   Gvfs/Cache and its children: `DriveLaws`, what is relied on of Google Drive; the invariants of the cache;
--     and the calls as calls of a key-value store (Cache/Calls/Histories).
--   Gvfs/Directory and its children: `get_directory`, whose concurrent downloads are made in the order of the
--     list, and what it lists.
--   Gvfs/Tests and its child: a concrete drive, and the theorems at that input.
--   Payments/Library: the functions of other crates that the code calls, as a record of parameters,
--     and the errors.
--   Payments/Inbound, Outbound, Onchain: the structs, their `new` and their `check_*` functions,
--     named with a prefix for the struct: iip is `InboundInvoicePayment`, isp
--     `InboundSpontaneousPayment`, oip `OutboundInvoicePayment`, os `OnchainSend`, or
--     `OnchainReceive`.
--   Payments/Payment: the enum `Payment` and its getters (`lexe-ln/src/payments/mod.rs`).
--   Payments/AppView: `BasicPayment::from` and the status texts, as the app gets them.
--   Payments/AppView/Received: a receipt, through the node's checks and the app's updates.
--   Payments/Soundness, Transitions, Confirmations: what holds of single payments.
--   Payments/Manager: `PaymentsData` and its methods.
--   Payments/Manager/Handlers: the entry points of `PaymentsManager`, each as a function to an
--     `Outcome`: the memory behind it, the calls it made in order, and its result.
--     `check_invoice_expiries` of the manager is `expire_invoices`, and `check_onchain_confs`, which
--     takes the lock twice, is `pending_onchain_ids` and `update_onchain_confs`.
--   Payments/Manager/Events: histories of entry points, and the database that the calls build up.
--   Payments/Manager/Storage, Commits, Checks, Batches, Confs, Refinement: the memory as a view of
--     the database, under commits, checks, batches and entry points.
--   Payments/Manager/Interleaving and its children: what happens between the two locks of a confirmation round.
--   Payments/Manager/Claims, Histories, Errors, Receipts, Rounds, Restart: the theorems on claims,
--     histories, errors, receiving, confirmation rounds and restarts.
--   Payments/Tests and its children: concrete payments, runs, and the theorems at those inputs.
--
-- Conventions. Hashes, secrets and ids are lists of bytes. Amounts and times are whole numbers:
-- amounts are only stored and compared, never added. A method that returns a changed clone is a
-- function to that clone. The clock, the answers of the persister, of the backend and of Esplora are
-- arguments, so a history is a list of events that carry them. `anyhow` errors keep their innermost
-- message; `todo!()` is the error `todo`. A persister call that fails is taken to write nothing. The
-- `HashMap` is a list that holds each key once, so a batch comes in the order of that list. All
-- recursion is structural, but for the loop of `sync_new_payments`, which asks the node until a batch is
-- not full: it has fuel for its rounds, and one round more than there are missing payments is enough. An
-- `expect`, an `assert!` or an index out of bounds that fails is a value (`panicked`, `panic` or `none`).
-- Positions are cut to 32 bits where the code does so, and an index of the wallet that is incremented wraps
-- around at 32 bits. Debug assertions are left out, as in a release
-- build.
-- An operation of `GoogleVfs` holds the lock of its cache throughout, so its calls come one after the other.
--
-- Not modelled: `init` of `GoogleVfs`, which fills its cache, log lines, the events for tests, the tasks that call the manager on timers, the
-- registration of on-chain receives from the wallet, encryption and serialization of payments, and
-- the rest of the repository (the app's interface, the enclave tooling, TLS and attestation,
-- the HTTP APIs).
pub mod Base
pub mod Ids
pub mod ApprovedVersions
pub mod Hex
pub mod IdText
pub mod InactivityTimer
pub mod PaymentDb
pub mod Payments
pub mod WalletDb
pub mod Gvfs
