-- ===== src/WalletDb/Batch.antt =====
-- BDK's trait `BatchOperations`, as a record, with its three implementations; `DbOp`, `DbBatch` and
-- `commit_batch` (lexe-ln/src/wallet/db/mod.rs).
use lexe_public.Base.{ℕ, Bool, Option, none, List, [], ◌∷◌, ◌++◌, ok}
use lexe_public.WalletDb.Library.{Bdk, KeychainKind, BdkResult, LocalUtxo, TransactionDetails}
use lexe_public.WalletDb.KeyPath.{KeyPath}
use lexe_public.WalletDb.Data.{DbData}
use lexe_public.WalletDb.Operations.{
  set_script_pubkey, set_utxo, set_raw_tx, set_tx, set_last_index, set_sync_time,
  del_script_pubkey_from_path, del_path_from_script_pubkey, del_utxo, del_raw_tx, del_tx,
  del_last_index, del_sync_time,
}

-- What a setter returns: the new state and `Ok(())`.
abbrev pub Done : Type 0 → Type 0
Done D = D × BdkResult (Unit {0})

-- What a deletion returns: the new state and the value that was there.
abbrev pub Taken : Type 0 → Type 0 → Type 0
Taken D A = D × BdkResult (Option A)

abbrev pub taken : {D A : Type 0} → D × Option A → Taken D A
taken (d, value) = (d, ok value)

pub record BatchOperations (bdk : Bdk) (D : Type 0) : Type 0 where
  pub set_script_pubkey : D → bdk.Script → KeychainKind → ℕ → Done D
  pub set_utxo : D → LocalUtxo bdk → Done D
  pub set_raw_tx : D → bdk.Transaction → Done D
  pub set_tx : D → TransactionDetails bdk → Done D
  pub set_last_index : D → KeychainKind → ℕ → Done D
  pub set_sync_time : D → bdk.SyncTime → Done D
  pub del_script_pubkey_from_path : D → KeychainKind → ℕ → Taken D bdk.Script
  pub del_path_from_script_pubkey : D → bdk.Script → Taken D (KeychainKind × ℕ)
  pub del_utxo : D → bdk.OutPoint → Taken D (LocalUtxo bdk)
  pub del_raw_tx : D → bdk.Txid → Taken D bdk.Transaction
  pub del_tx : D → bdk.Txid → Bool → Taken D (TransactionDetails bdk)
  pub del_last_index : D → KeychainKind → Taken D ℕ
  pub del_sync_time : D → Taken D bdk.SyncTime

pub data DbOp (bdk : Bdk) : Type 0 where
  set_path_script : KeyPath → bdk.Script → DbOp bdk
  del_by_path : KeyPath → DbOp bdk
  del_by_script : bdk.Script → DbOp bdk
  set_utxo_op : LocalUtxo bdk → DbOp bdk
  del_utxo_op : bdk.OutPoint → DbOp bdk
  set_raw_tx_op : bdk.Transaction → DbOp bdk
  del_raw_tx_op : bdk.Txid → DbOp bdk
  set_tx_op : TransactionDetails bdk → DbOp bdk
  del_tx_op : bdk.Txid → (include_raw : Bool) → DbOp bdk
  set_last_index_op : KeyPath → DbOp bdk
  del_last_index_op : KeychainKind → DbOp bdk
  set_sync_time_op : bdk.SyncTime → DbOp bdk
  del_sync_time_op : DbOp bdk

module _ {bdk : Bdk} {D : Type 0} (db : BatchOperations bdk D) where
  -- The answer of the operation is dropped.
  unfoldable pub do_op : DbOp bdk → D → D
  do_op (set_path_script path script) d = (db.set_script_pubkey d script path.keychain path.child).0
  do_op (del_by_path path) d = (db.del_script_pubkey_from_path d path.keychain path.child).0
  do_op (del_by_script script) d = (db.del_path_from_script_pubkey d script).0
  do_op (set_utxo_op utxo) d = (db.set_utxo d utxo).0
  do_op (del_utxo_op outpoint) d = (db.del_utxo d outpoint).0
  do_op (set_raw_tx_op raw_tx) d = (db.set_raw_tx d raw_tx).0
  do_op (del_raw_tx_op txid) d = (db.del_raw_tx d txid).0
  do_op (set_tx_op tx) d = (db.set_tx d tx).0
  do_op (del_tx_op txid include_raw) d = (db.del_tx d txid include_raw).0
  do_op (set_last_index_op path) d = (db.set_last_index d path.keychain path.child).0
  do_op (del_last_index_op keychain) d = (db.del_last_index d keychain).0
  do_op (set_sync_time_op time) d = (db.set_sync_time d time).0
  do_op del_sync_time_op d = (db.del_sync_time d).0

  -- The loop over a batch.
  unfoldable pub do_ops : List (DbOp bdk) → D → D
  do_ops [] d = d
  do_ops (op ∷ ops) d = do_ops ops (do_op op d)

pub record DbBatch (bdk : Bdk) : Type 0 where
  pub ops : List (DbOp bdk)

-- `push`, with `Ok(())`, and with `Ok(None)`.
abbrev pub push_op : {bdk : Bdk} → DbBatch bdk → DbOp bdk → Done (DbBatch bdk)
push_op batch op = (record { ops = batch.ops ++ op ∷ [] }, ok tt)

abbrev pub push_del : {bdk : Bdk} {A : Type 0} → DbBatch bdk → DbOp bdk → Taken (DbBatch bdk) A
push_del batch op = (record { ops = batch.ops ++ op ∷ [] }, ok none)

module _ (bdk : Bdk) where
  unfoldable pub begin_batch : DbBatch bdk
  begin_batch = record { ops = [] }

  unfoldable pub batch_operations : BatchOperations bdk (DbBatch bdk)
  batch_operations = record {
    set_script_pubkey = λ b script keychain child.
        push_op b (set_path_script record { keychain = keychain; child = child } script);
    set_utxo = λ b utxo. push_op b (set_utxo_op utxo);
    set_raw_tx = λ b raw_tx. push_op b (set_raw_tx_op raw_tx);
    set_tx = λ b tx. push_op b (set_tx_op tx);
    set_last_index = λ b keychain child.
        push_op b (set_last_index_op record { keychain = keychain; child = child });
    set_sync_time = λ b time. push_op b (set_sync_time_op time);
    del_script_pubkey_from_path =
        λ b keychain child. push_del b (del_by_path record { keychain = keychain; child = child });
    del_path_from_script_pubkey = λ b script. push_del b (del_by_script script);
    del_utxo = λ b outpoint. push_del b (del_utxo_op outpoint);
    del_raw_tx = λ b txid. push_del b (del_raw_tx_op txid);
    del_tx = λ b txid include_raw. push_del b (del_tx_op txid include_raw);
    del_last_index = λ b keychain. push_del b (del_last_index_op keychain);
    del_sync_time = λ b. push_del b del_sync_time_op;
  }

  unfoldable pub data_operations : BatchOperations bdk (DbData bdk)
  data_operations = record {
    set_script_pubkey =
        λ d script keychain child. (set_script_pubkey bdk d script keychain child, ok tt);
    set_utxo = λ d utxo. (set_utxo bdk d utxo, ok tt);
    set_raw_tx = λ d raw_tx. (set_raw_tx bdk d raw_tx, ok tt);
    set_tx = λ d tx. (set_tx bdk d tx, ok tt);
    set_last_index = λ d keychain index. (set_last_index bdk d keychain index, ok tt);
    set_sync_time = λ d time. (set_sync_time bdk d time, ok tt);
    del_script_pubkey_from_path =
        λ d keychain child. taken (del_script_pubkey_from_path bdk d keychain child);
    del_path_from_script_pubkey = λ d script. taken (del_path_from_script_pubkey bdk d script);
    del_utxo = λ d outpoint. taken (del_utxo bdk d outpoint);
    del_raw_tx = λ d txid. taken (del_raw_tx bdk d txid);
    del_tx = λ d txid include_raw. taken (del_tx bdk d txid include_raw);
    del_last_index = λ d keychain. taken (del_last_index bdk d keychain);
    del_sync_time = λ d. taken (del_sync_time bdk d);
  }
