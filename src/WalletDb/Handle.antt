-- ===== src/WalletDb/Handle.antt =====
-- `WalletDb`, the handle that BDK is given: the data behind a lock, and the channel that wakes the task which
-- persists it (lexe-ln/src/wallet/db/mod.rs).
pub mod Batching
use lexe_public.Base.{ℕ, Bool, true, false, Option, List, Result, ok, err, map_ok, if◌then◌else◌}
use lexe_public.Ids.{Bytes}
use lexe_public.WalletDb.Library.{
  Bdk, KeychainKind, BdkError, generic, BdkResult, LocalUtxo, TransactionDetails,
}
use lexe_public.WalletDb.Data.{
  DbData, check_descriptor_checksum, iter_script_pubkeys, iter_utxos, iter_raw_txs, iter_txs,
  get_script_pubkey_from_path, get_path_from_script_pubkey, get_utxo, get_raw_tx, get_tx,
  get_last_index, get_sync_time, increment_last_index, new,
}
use lexe_public.WalletDb.Batch.{BatchOperations, DbBatch, Done, data_operations, do_ops}

-- `mpsc::Sender<()>`: a send is taken, or refused when the channel is full or closed.
pub record Sender (C : Type 0) : Type 0 where
  pub try_send : C → C × Bool

pub record WalletDb (bdk : Bdk) (C : Type 0) : Type 0 where
  pub inner : DbData bdk
  pub wallet_db_persister_tx : C

-- BDK's trait `Database`. A getter returns `Ok` always, so it is written without its result.
pub record Database (bdk : Bdk) (D : Type 0) : Type 0 where
  pub check_descriptor_checksum : D → KeychainKind → Bytes → Done D
  pub iter_script_pubkeys : D → Option KeychainKind → List bdk.Script
  pub iter_utxos : D → List (LocalUtxo bdk)
  pub iter_raw_txs : D → List bdk.Transaction
  pub iter_txs : D → Bool → List (TransactionDetails bdk)
  pub get_script_pubkey_from_path : D → KeychainKind → ℕ → Option bdk.Script
  pub get_path_from_script_pubkey : D → bdk.Script → Option (KeychainKind × ℕ)
  pub get_utxo : D → bdk.OutPoint → Option (LocalUtxo bdk)
  pub get_raw_tx : D → bdk.Txid → Option bdk.Transaction
  pub get_tx : D → bdk.Txid → Bool → Option (TransactionDetails bdk)
  pub get_last_index : D → KeychainKind → Option ℕ
  pub get_sync_time : D → Option bdk.SyncTime
  pub increment_last_index : D → KeychainKind → D × BdkResult ℕ

module _ (bdk : Bdk) where
  unfoldable pub data_database : Database bdk (DbData bdk)
  data_database = record {
    check_descriptor_checksum = check_descriptor_checksum bdk;
    iter_script_pubkeys = iter_script_pubkeys bdk;
    iter_utxos = iter_utxos bdk;
    iter_raw_txs = iter_raw_txs bdk;
    iter_txs = iter_txs bdk;
    get_script_pubkey_from_path = get_script_pubkey_from_path bdk;
    get_path_from_script_pubkey = get_path_from_script_pubkey bdk;
    get_utxo = get_utxo bdk;
    get_raw_tx = get_raw_tx bdk;
    get_tx = get_tx bdk;
    get_last_index = get_last_index bdk;
    get_sync_time = get_sync_time bdk;
    increment_last_index = increment_last_index bdk;
  }

module _ {C : Type 0} (bdk : Bdk) where
  -- `WalletDb::new`
  abbrev pub new_wallet_db : C → WalletDb bdk C
  new_wallet_db tx = record { inner = new bdk; wallet_db_persister_tx = tx }

  -- A call on the data, under the lock.
  unfoldable pub locked :
      {A : Type 0} → WalletDb bdk C → (DbData bdk → DbData bdk × A) → WalletDb bdk C × A
  locked w f = let (inner, answer) = f w.inner in (record w { inner = inner }, answer)

  unfoldable pub wallet_database : Database bdk (WalletDb bdk C)
  unfolding locked data_database
  wallet_database =
      let data_db = data_database bdk in
      record {
        check_descriptor_checksum =
            λ w keychain given. locked w (λ d. data_db.check_descriptor_checksum d keychain given);
        iter_script_pubkeys = λ w keychain. data_db.iter_script_pubkeys w.inner keychain;
        iter_utxos = λ w. data_db.iter_utxos w.inner;
        iter_raw_txs = λ w. data_db.iter_raw_txs w.inner;
        iter_txs = λ w include_raw. data_db.iter_txs w.inner include_raw;
        get_script_pubkey_from_path =
            λ w keychain child. data_db.get_script_pubkey_from_path w.inner keychain child;
        get_path_from_script_pubkey =
            λ w script. data_db.get_path_from_script_pubkey w.inner script;
        get_utxo = λ w outpoint. data_db.get_utxo w.inner outpoint;
        get_raw_tx = λ w txid. data_db.get_raw_tx w.inner txid;
        get_tx = λ w txid include_raw. data_db.get_tx w.inner txid include_raw;
        get_last_index = λ w keychain. data_db.get_last_index w.inner keychain;
        get_sync_time = λ w. data_db.get_sync_time w.inner;
        increment_last_index =
            λ w keychain. locked w (λ d. data_db.increment_last_index d keychain);
      }

  unfoldable pub wallet_operations : BatchOperations bdk (WalletDb bdk C)
  unfolding locked data_operations
  wallet_operations =
      let ops = data_operations bdk in
      record {
        set_script_pubkey = λ w script keychain child.
            locked w (λ d. ops.set_script_pubkey d script keychain child);
        set_utxo = λ w utxo. locked w (λ d. ops.set_utxo d utxo);
        set_raw_tx = λ w raw_tx. locked w (λ d. ops.set_raw_tx d raw_tx);
        set_tx = λ w tx. locked w (λ d. ops.set_tx d tx);
        set_last_index = λ w keychain index. locked w (λ d. ops.set_last_index d keychain index);
        set_sync_time = λ w time. locked w (λ d. ops.set_sync_time d time);
        del_script_pubkey_from_path =
            λ w keychain child. locked w (λ d. ops.del_script_pubkey_from_path d keychain child);
        del_path_from_script_pubkey =
            λ w script. locked w (λ d. ops.del_path_from_script_pubkey d script);
        del_utxo = λ w outpoint. locked w (λ d. ops.del_utxo d outpoint);
        del_raw_tx = λ w txid. locked w (λ d. ops.del_raw_tx d txid);
        del_tx = λ w txid include_raw. locked w (λ d. ops.del_tx d txid include_raw);
        del_last_index = λ w keychain. locked w (λ d. ops.del_last_index d keychain);
        del_sync_time = λ w. locked w (λ d. ops.del_sync_time d);
      }

  -- The operations of the batch are done under one lock, then the persister task is notified.
  unfoldable pub commit_batch : Sender C → WalletDb bdk C → DbBatch bdk → Done (WalletDb bdk C)
  commit_batch channel w batch =
      let (tx, sent) = channel.try_send w.wallet_db_persister_tx in
      (
        record {
          inner = do_ops (data_operations bdk) batch.ops w.inner;
          wallet_db_persister_tx = tx;
        },
        if sent then ok tt else err generic,
      )
