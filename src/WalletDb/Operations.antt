-- ===== src/WalletDb/Operations.antt =====
-- `BatchOperations` of `DbData` (lexe-ln/src/wallet/db/mod.rs). The log line about a second path of a script
-- is left out.
use lexe_public.Base.{ℕ, Bool, Option, none, some, if◌then◌else◌, map_option}
use lexe_public.Base.BTree.{get, insert, remove}
use lexe_public.WalletDb.Library.{
  Bdk, KeychainKind, external, internal, LocalUtxo, TransactionDetails,
}
use lexe_public.WalletDb.KeyPath.{KeyPath, path_order}
use lexe_public.WalletDb.Data.{DbData, meta_from, into_tx}

module _ (bdk : Bdk) where
  unfoldable pub set_script_pubkey : DbData bdk → bdk.Script → KeychainKind → ℕ → DbData bdk
  set_script_pubkey db script keychain child =
      let new_path : KeyPath = record { keychain = keychain; child = child } in
      record db {
        path_to_script = insert path_order new_path script db.path_to_script;
        script_to_path = insert bdk.script_order script new_path db.script_to_path;
      }

  unfoldable pub set_utxo : DbData bdk → LocalUtxo bdk → DbData bdk
  set_utxo db utxo = record db { utxos = insert bdk.outpoint_order utxo.outpoint utxo db.utxos }

  unfoldable pub set_raw_tx : DbData bdk → bdk.Transaction → DbData bdk
  set_raw_tx db raw_tx = record db {
    raw_txs = insert bdk.txid_order (bdk.txid_of raw_tx) raw_tx db.raw_txs;
  }

  -- The raw transaction, if there is one, goes to its own map.
  unfoldable pub insert_raw : Option bdk.Transaction → bdk.Txid → DbData bdk → DbData bdk
  insert_raw none txid db = db
  insert_raw (some raw_tx) txid db = record db {
    raw_txs = insert bdk.txid_order txid raw_tx db.raw_txs;
  }

  unfoldable pub set_tx : DbData bdk → TransactionDetails bdk → DbData bdk
  unfolding insert_raw meta_from
  set_tx db tx =
      let stored = insert_raw tx.transaction tx.txid db in
      let meta = meta_from bdk tx in
      record stored { tx_metas = insert bdk.txid_order meta.txid meta stored.tx_metas }

  unfoldable pub set_last_index : DbData bdk → KeychainKind → ℕ → DbData bdk
  set_last_index db external index = record db { last_external_index = some index }
  set_last_index db internal index = record db { last_internal_index = some index }

  unfoldable pub set_sync_time : DbData bdk → bdk.SyncTime → DbData bdk
  set_sync_time db time = record db { sync_time = some time }

  unfoldable pub del_script_pubkey_from_path :
      DbData bdk → KeychainKind → ℕ → DbData bdk × Option bdk.Script
  del_script_pubkey_from_path db keychain child =
      let path : KeyPath = record { keychain = keychain; child = child } in
      (
        record db { path_to_script = remove path_order path db.path_to_script },
        get path_order path db.path_to_script,
      )

  unfoldable pub del_path_from_script_pubkey :
      DbData bdk → bdk.Script → DbData bdk × Option (KeychainKind × ℕ)
  del_path_from_script_pubkey db script = (
    record db { script_to_path = remove bdk.script_order script db.script_to_path },
    map_option (λ (p : KeyPath). (p.keychain, p.child))
        (get bdk.script_order script db.script_to_path),
  )

  unfoldable pub del_utxo : DbData bdk → bdk.OutPoint → DbData bdk × Option (LocalUtxo bdk)
  del_utxo db outpoint = (
    record db { utxos = remove bdk.outpoint_order outpoint db.utxos },
    get bdk.outpoint_order outpoint db.utxos,
  )

  unfoldable pub del_raw_tx : DbData bdk → bdk.Txid → DbData bdk × Option bdk.Transaction
  del_raw_tx db txid = (
    record db { raw_txs = remove bdk.txid_order txid db.raw_txs },
    get bdk.txid_order txid db.raw_txs,
  )

  unfoldable pub del_tx :
      DbData bdk → bdk.Txid → Bool → DbData bdk × Option (TransactionDetails bdk)
  unfolding into_tx
  del_tx db txid include_raw =
      let raw_txs = if include_raw then remove bdk.txid_order txid db.raw_txs else db.raw_txs in
      let maybe_raw_tx = if include_raw then get bdk.txid_order txid db.raw_txs else none in
      (
        record db { raw_txs = raw_txs; tx_metas = remove bdk.txid_order txid db.tx_metas },
        map_option (λ meta. into_tx bdk meta maybe_raw_tx) (get bdk.txid_order txid db.tx_metas),
      )

  unfoldable pub del_last_index : DbData bdk → KeychainKind → DbData bdk × Option ℕ
  del_last_index db external = (record db { last_external_index = none }, db.last_external_index)
  del_last_index db internal = (record db { last_internal_index = none }, db.last_internal_index)

  unfoldable pub del_sync_time : DbData bdk → DbData bdk × Option bdk.SyncTime
  del_sync_time db = (record db { sync_time = none }, db.sync_time)
