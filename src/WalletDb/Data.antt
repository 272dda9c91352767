-- ===== src/WalletDb/Data.antt =====
-- `DbData` of lexe-ln/src/wallet/db/mod.rs, with its `Database` and `BatchOperations`.
use lexe_public.Base.{
  ℕ, ◌+◌, ◌%◌, ◌^◌, Bool, true, false, Option, none, some, List, [], ◌∷◌, map, ok, err,
  if◌then◌else◌, ite, map_option,
}
use lexe_public.Base.BTree.{get}
use lexe_public.Ids.{Bytes, Bytes-discrete}
use lexe_public.WalletDb.Library.{
  Bdk, KeychainKind, external, internal, checksum_mismatch, BdkResult, LocalUtxo,
  TransactionDetails,
}
use lexe_public.WalletDb.KeyPath.{KeyPath, path_order}

pub record TransactionMetadata (bdk : Bdk) : Type 0 where
  pub txid : bdk.Txid
  pub received : ℕ
  pub sent : ℕ
  pub fee : Option ℕ
  pub confirmation_time : Option bdk.BlockTime

pub record DbData (bdk : Bdk) : Type 0 where
  pub path_to_script : List (KeyPath × bdk.Script)
  pub script_to_path : List (bdk.Script × KeyPath)
  pub utxos : List (bdk.OutPoint × LocalUtxo bdk)
  pub raw_txs : List (bdk.Txid × bdk.Transaction)
  pub tx_metas : List (bdk.Txid × TransactionMetadata bdk)
  pub last_external_index : Option ℕ
  pub last_internal_index : Option ℕ
  pub sync_time : Option bdk.SyncTime
  pub external_checksum : Option Bytes
  pub internal_checksum : Option Bytes

-- `BTreeMap::values`
abbrev pub values : {K V : Type 0} → List (K × V) → List V
values m = map (λ e. e.1) m

-- `mem::discriminant`, compared.
abbrev pub same_keychain : KeychainKind → KeychainKind → Bool
same_keychain external external = true
same_keychain internal internal = true
same_keychain external internal = false
same_keychain internal external = false

-- The entries of one keychain.
unfoldable pub filter_keychain :
    {V : Type 0} → KeychainKind → List (KeyPath × V) → List (KeyPath × V)
filter_keychain keychain [] = []
filter_keychain keychain ((p, s) ∷ m) =
    if same_keychain p.keychain keychain
    then (p, s) ∷ filter_keychain keychain m
    else filter_keychain keychain m

module _ (bdk : Bdk) where
  unfoldable pub meta_from : TransactionDetails bdk → TransactionMetadata bdk
  meta_from tx = record {
    txid = tx.txid;
    received = tx.received;
    sent = tx.sent;
    fee = tx.fee;
    confirmation_time = tx.confirmation_time;
  }

  unfoldable pub into_tx : TransactionMetadata bdk → Option bdk.Transaction → TransactionDetails bdk
  into_tx meta maybe_raw_tx = record {
    transaction = maybe_raw_tx;
    txid = meta.txid;
    received = meta.received;
    sent = meta.sent;
    fee = meta.fee;
    confirmation_time = meta.confirmation_time;
  }

  abbrev pub new : DbData bdk
  new = record {
    path_to_script = [];
    script_to_path = [];
    utxos = [];
    raw_txs = [];
    tx_metas = [];
    last_external_index = none;
    last_internal_index = none;
    sync_time = none;
    external_checksum = none;
    internal_checksum = none;
  }

  -- The saved checksum, which is the given one if there was none.
  saved_or : Option Bytes → Bytes → Bytes
  saved_or none given = given
  saved_or (some saved) given = saved

  unfoldable pub check_descriptor_checksum :
      DbData bdk → KeychainKind → Bytes → DbData bdk × BdkResult (Unit {0})
  unfolding saved_or
  check_descriptor_checksum db external given =
      let saved = saved_or db.external_checksum given in
      (
        record db { external_checksum = some saved },
        ite (Bytes-discrete saved given) (ok tt) (err checksum_mismatch),
      )
  check_descriptor_checksum db internal given =
      let saved = saved_or db.internal_checksum given in
      (
        record db { internal_checksum = some saved },
        ite (Bytes-discrete saved given) (ok tt) (err checksum_mismatch),
      )

  unfoldable pub iter_script_pubkeys : DbData bdk → Option KeychainKind → List bdk.Script
  iter_script_pubkeys db none = values db.path_to_script
  iter_script_pubkeys db (some keychain) = values (filter_keychain keychain db.path_to_script)

  unfoldable pub iter_utxos : DbData bdk → List (LocalUtxo bdk)
  iter_utxos db = values db.utxos

  unfoldable pub iter_raw_txs : DbData bdk → List bdk.Transaction
  iter_raw_txs db = values db.raw_txs

  unfoldable pub iter_txs : DbData bdk → Bool → List (TransactionDetails bdk)
  unfolding into_tx
  iter_txs db include_raw =
      let txs = map (λ meta. into_tx meta none) (values db.tx_metas) in
      if include_raw
      then map
          (λ (tx : TransactionDetails bdk). record tx {
            transaction = get bdk.txid_order tx.txid db.raw_txs;
          })
          txs
      else txs

  unfoldable pub get_script_pubkey_from_path : DbData bdk → KeychainKind → ℕ → Option bdk.Script
  get_script_pubkey_from_path db keychain child =
      get path_order record { keychain = keychain; child = child } db.path_to_script

  unfoldable pub get_path_from_script_pubkey : DbData bdk → bdk.Script → Option (KeychainKind × ℕ)
  get_path_from_script_pubkey db script =
      map_option (λ (p : KeyPath). (p.keychain, p.child))
        (get bdk.script_order script db.script_to_path)

  unfoldable pub get_utxo : DbData bdk → bdk.OutPoint → Option (LocalUtxo bdk)
  get_utxo db outpoint = get bdk.outpoint_order outpoint db.utxos

  unfoldable pub get_raw_tx : DbData bdk → bdk.Txid → Option bdk.Transaction
  get_raw_tx db txid = get bdk.txid_order txid db.raw_txs

  unfoldable pub get_tx : DbData bdk → bdk.Txid → Bool → Option (TransactionDetails bdk)
  unfolding into_tx
  get_tx db txid include_raw =
      let maybe_raw_tx = if include_raw then get bdk.txid_order txid db.raw_txs else none in
      map_option (λ meta. into_tx meta maybe_raw_tx) (get bdk.txid_order txid db.tx_metas)

  unfoldable pub get_last_index : DbData bdk → KeychainKind → Option ℕ
  get_last_index db external = db.last_external_index
  get_last_index db internal = db.last_internal_index

  unfoldable pub get_sync_time : DbData bdk → Option bdk.SyncTime
  get_sync_time db = db.sync_time

  -- The index after an increment, which wraps around like a `u32` of a release build.
  unfoldable pub incremented : Option ℕ → ℕ
  incremented none = 0
  incremented (some index) = (index + 1) % 2 ^ 32

  unfoldable pub increment_last_index : DbData bdk → KeychainKind → DbData bdk × BdkResult ℕ
  increment_last_index db external =
      let index = incremented db.last_external_index in
      (record db { last_external_index = some index }, ok index)
  increment_last_index db internal =
      let index = incremented db.last_internal_index in
      (record db { last_internal_index = some index }, ok index)
