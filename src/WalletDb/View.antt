-- ===== src/WalletDb/View.antt =====
-- The wallet database as BDK sees it: what each key finds. The operations of `DbData`
-- (lexe-ln/src/wallet/db/mod.rs) against updates of these functions.
pub mod Refinement
use Prim.Native.Nat.Ordering.{lt, eq, gt}
use mathlib.Core.Path.{fun_ext}
use lexe_public.Base.{
  ℕ, true, false, Option, none, some, List, [], ◌∷◌, ◌≡◌, inl, inr, refl, sym, ap, ◌∙◌, All, arith,
}
use lexe_public.Base.BTree.{get, insert, remove}
use lexe_public.Base.Updates.{update}
use lexe_public.WalletDb.Library.{
  Bdk, KeychainKind, external, internal, LocalUtxo, TransactionDetails,
}
use lexe_public.WalletDb.KeyPath.{KeyPath, path_order}
use lexe_public.WalletDb.Data.{DbData, TransactionMetadata, meta_from, get_last_index}
use lexe_public.WalletDb.Operations.{
  set_script_pubkey, set_utxo, set_raw_tx, insert_raw, set_tx, set_last_index, set_sync_time,
  del_script_pubkey_from_path, del_path_from_script_pubkey, del_utxo, del_raw_tx, del_tx,
  del_last_index, del_sync_time,
}
use lexe_public.WalletDb.Batch.{
  DbOp, do_op, do_ops, data_operations, set_path_script, del_by_path, del_by_script, set_utxo_op,
  del_utxo_op, set_raw_tx_op, del_raw_tx_op, set_tx_op, del_tx_op, set_last_index_op,
  del_last_index_op, set_sync_time_op, del_sync_time_op,
}
use lexe_public.WalletDb.Invariant.{
  IsFiled, IsWellFormed, IsFaithful, do_op-IsWellFormed, do_ops-IsWellFormed,
}

-- One value for each keychain, with one of them changed.
unfoldable pub set_index :
    (KeychainKind → Option ℕ) → KeychainKind → Option ℕ → KeychainKind → Option ℕ
set_index f external v external = v
set_index f external v internal = f internal
set_index f internal v external = f external
set_index f internal v internal = v

-- What BDK can ask for.
pub record View (bdk : Bdk) : Type 0 where
  pub script_at : KeyPath → Option bdk.Script
  pub path_of : bdk.Script → Option KeyPath
  pub utxo_at : bdk.OutPoint → Option (LocalUtxo bdk)
  pub raw_at : bdk.Txid → Option bdk.Transaction
  pub meta_at : bdk.Txid → Option (TransactionMetadata bdk)
  pub index_of : KeychainKind → Option ℕ
  pub time : Option bdk.SyncTime

module _ (bdk : Bdk) where
  unfoldable pub view : DbData bdk → View bdk
  view db = record {
    script_at = λ p. get path_order p db.path_to_script;
    path_of = λ s. get bdk.script_order s db.script_to_path;
    utxo_at = λ o. get bdk.outpoint_order o db.utxos;
    raw_at = λ t. get bdk.txid_order t db.raw_txs;
    meta_at = λ t. get bdk.txid_order t db.tx_metas;
    index_of = get_last_index bdk db;
    time = db.sync_time;
  }

  -- A raw transaction that is there is kept under the id.
  unfoldable pub keep_raw :
      Option bdk.Transaction
      → bdk.Txid
      → (bdk.Txid → Option bdk.Transaction)
      → bdk.Txid
      → Option bdk.Transaction
  keep_raw none txid f = f
  keep_raw (some raw_tx) txid f = update bdk.txid_order f txid (some raw_tx)

  -- What an operation means.
  unfoldable pub meaning : DbOp bdk → View bdk → View bdk
  meaning (set_path_script path script) v = record v {
    script_at = update path_order v.script_at path (some script);
    path_of = update bdk.script_order v.path_of script (some path);
  }
  meaning (del_by_path path) v = record v { script_at = update path_order v.script_at path none }
  meaning (del_by_script script) v = record v {
    path_of = update bdk.script_order v.path_of script none;
  }
  meaning (set_utxo_op utxo) v = record v {
    utxo_at = update bdk.outpoint_order v.utxo_at utxo.outpoint (some utxo);
  }
  meaning (del_utxo_op outpoint) v = record v {
    utxo_at = update bdk.outpoint_order v.utxo_at outpoint none;
  }
  meaning (set_raw_tx_op raw_tx) v = record v {
    raw_at = update bdk.txid_order v.raw_at (bdk.txid_of raw_tx) (some raw_tx);
  }
  meaning (del_raw_tx_op txid) v = record v { raw_at = update bdk.txid_order v.raw_at txid none }
  meaning (set_tx_op tx) v = record v {
    raw_at = keep_raw tx.transaction tx.txid v.raw_at;
    meta_at = update bdk.txid_order v.meta_at tx.txid (some (meta_from bdk tx));
  }
  meaning (del_tx_op txid true) v = record v {
    raw_at = update bdk.txid_order v.raw_at txid none;
    meta_at = update bdk.txid_order v.meta_at txid none;
  }
  meaning (del_tx_op txid false) v = record v {
    meta_at = update bdk.txid_order v.meta_at txid none;
  }
  meaning (set_last_index_op path) v = record v {
    index_of = set_index v.index_of path.keychain (some path.child);
  }
  meaning (del_last_index_op keychain) v = record v {
    index_of = set_index v.index_of keychain none;
  }
  meaning (set_sync_time_op time) v = record v { time = some time }
  meaning del_sync_time_op v = record v { time = none }

  unfoldable pub meanings : List (DbOp bdk) → View bdk → View bdk
  meanings [] v = v
  meanings (op ∷ ops) v = meanings ops (meaning op v)
