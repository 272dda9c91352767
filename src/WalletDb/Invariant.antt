-- ===== src/WalletDb/Invariant.antt =====
-- What every operation on `DbData` (lexe-ln/src/wallet/db/mod.rs) keeps: each map ascends and files each value
-- under its own key.
use lexe_public.Base.{ℕ, true, false, Option, none, some, List, [], ◌∷◌, ◌≡◌, refl, All}
use lexe_public.Base.BTree.{
  Order, insert, remove, Ascends, All-insert, All-remove, Ascends-insert, Ascends-remove,
}
use lexe_public.WalletDb.Library.{Bdk, KeychainKind, external, internal, LocalUtxo}
use lexe_public.WalletDb.KeyPath.{path_order}
use lexe_public.WalletDb.Data.{DbData, TransactionMetadata, meta_from}
use lexe_public.WalletDb.Operations.{
  set_script_pubkey, set_utxo, set_raw_tx, insert_raw, set_tx, set_last_index, set_sync_time,
  del_script_pubkey_from_path, del_path_from_script_pubkey, del_utxo, del_raw_tx, del_tx,
  del_last_index, del_sync_time,
}
use lexe_public.WalletDb.Batch.{
  DbOp, do_op, do_ops, data_operations, set_path_script, del_by_path, del_by_script, set_utxo_op,
  del_utxo_op, set_raw_tx_op, del_raw_tx_op, set_tx_op, del_tx_op, set_last_index_op,
  del_last_index_op, set_sync_time_op, del_sync_time_op,
}

-- A map that ascends and has each value under its own key.
pub record IsFiled {K V : Type 0} (o : Order K) (key : V → K) (m : List (K × V)) : Type 0 where
  pub ascends : Ascends o m
  pub keys : All (λ (e : K × V). key e.1 ≡ e.0) m

module _ {K V : Type 0} (o : Order K) (key : V → K) where
  IsFiled-insert :
      (k : K) (v : V) (m : List (K × V))
      → key v ≡ k
      → IsFiled o key m
      → IsFiled o key (insert o k v m)
  IsFiled-insert k v m h f = record {
    ascends = Ascends-insert o k v m f.ascends;
    keys = All-insert o (λ (e : K × V). key e.1 ≡ e.0) k v m h f.keys;
  }

  IsFiled-remove : (k : K) (m : List (K × V)) → IsFiled o key m → IsFiled o key (remove o k m)
  IsFiled-remove k m f = record {
    ascends = Ascends-remove o k m f.ascends;
    keys = All-remove o (λ (e : K × V). key e.1 ≡ e.0) k m f.keys;
  }

ruleset laws = (Ascends-insert, Ascends-remove, IsFiled-insert, IsFiled-remove, refl)

pub record IsWellFormed (bdk : Bdk) (db : DbData bdk) : Type 0 where
  pub paths : Ascends path_order db.path_to_script
  pub scripts : Ascends bdk.script_order db.script_to_path
  pub utxos : IsFiled bdk.outpoint_order (λ (u : LocalUtxo bdk). u.outpoint) db.utxos
  pub raw_txs : IsFiled bdk.txid_order bdk.txid_of db.raw_txs
  pub tx_metas : IsFiled bdk.txid_order (λ (t : TransactionMetadata bdk). t.txid) db.tx_metas

-- The id of the details is that of their raw transaction.
abbrev pub HasTxid : (bdk : Bdk) → Option bdk.Transaction → bdk.Txid → Type 0
HasTxid bdk none txid = Unit
HasTxid bdk (some raw_tx) txid = bdk.txid_of raw_tx ≡ txid

-- Details that are set have the id of their raw transaction.
abbrev pub IsFaithful : {bdk : Bdk} → DbOp bdk → Type 0
IsFaithful {bdk} (set_tx_op tx) = HasTxid bdk tx.transaction tx.txid
IsFaithful _ = Unit

module _ (bdk : Bdk) where
  insert_raw-IsWellFormed :
      (db : DbData bdk) (maybe_raw_tx : Option bdk.Transaction) (txid : bdk.Txid)
      → HasTxid bdk maybe_raw_tx txid
      → IsWellFormed bdk db
      → IsWellFormed bdk (insert_raw bdk maybe_raw_tx txid db)
  unfolding insert_raw
  insert_raw-IsWellFormed db none txid h s = s
  insert_raw-IsWellFormed db (some raw_tx) txid h s =
      search (laws, h, s.paths, s.scripts, s.utxos, s.raw_txs, s.tx_metas)

  insert_meta-IsWellFormed :
      (db : DbData bdk) (meta : TransactionMetadata bdk)
      → IsWellFormed bdk db
      → IsWellFormed bdk (record db { tx_metas = insert bdk.txid_order meta.txid meta db.tx_metas })
  insert_meta-IsWellFormed db meta s =
      search (laws, s.paths, s.scripts, s.utxos, s.raw_txs, s.tx_metas)

  set_last_index-IsWellFormed :
      (db : DbData bdk) (keychain : KeychainKind) (index : ℕ)
      → IsWellFormed bdk db
      → IsWellFormed bdk (set_last_index bdk db keychain index)
  unfolding set_last_index
  set_last_index-IsWellFormed db external index s =
      search (laws, s.paths, s.scripts, s.utxos, s.raw_txs, s.tx_metas)
  set_last_index-IsWellFormed db internal index s =
      search (laws, s.paths, s.scripts, s.utxos, s.raw_txs, s.tx_metas)

  pub do_op-IsWellFormed :
      (op : DbOp bdk) (db : DbData bdk)
      → IsFaithful op
      → IsWellFormed bdk db
      → IsWellFormed bdk (do_op (data_operations bdk) op db)
  unfolding do_op data_operations set_script_pubkey set_utxo set_raw_tx set_tx set_sync_time
      del_script_pubkey_from_path del_path_from_script_pubkey del_utxo del_raw_tx del_tx
      del_last_index del_sync_time meta_from
  do_op-IsWellFormed (set_path_script path script) db h s =
      search (laws, s.paths, s.scripts, s.utxos, s.raw_txs, s.tx_metas)
  do_op-IsWellFormed (del_by_path path) db h s =
      search (laws, s.paths, s.scripts, s.utxos, s.raw_txs, s.tx_metas)
  do_op-IsWellFormed (del_by_script script) db h s =
      search (laws, s.paths, s.scripts, s.utxos, s.raw_txs, s.tx_metas)
  do_op-IsWellFormed (set_utxo_op utxo) db h s =
      search (laws, s.paths, s.scripts, s.utxos, s.raw_txs, s.tx_metas)
  do_op-IsWellFormed (del_utxo_op outpoint) db h s =
      search (laws, s.paths, s.scripts, s.utxos, s.raw_txs, s.tx_metas)
  do_op-IsWellFormed (set_raw_tx_op raw_tx) db h s =
      search (laws, s.paths, s.scripts, s.utxos, s.raw_txs, s.tx_metas)
  do_op-IsWellFormed (del_raw_tx_op txid) db h s =
      search (laws, s.paths, s.scripts, s.utxos, s.raw_txs, s.tx_metas)
  do_op-IsWellFormed (set_tx_op tx) db h s =
      insert_meta-IsWellFormed (insert_raw bdk tx.transaction tx.txid db) (meta_from bdk tx)
        (insert_raw-IsWellFormed db tx.transaction tx.txid h s)
  do_op-IsWellFormed (del_tx_op txid true) db h s =
      search (laws, s.paths, s.scripts, s.utxos, s.raw_txs, s.tx_metas)
  do_op-IsWellFormed (del_tx_op txid false) db h s =
      search (laws, s.paths, s.scripts, s.utxos, s.raw_txs, s.tx_metas)
  do_op-IsWellFormed (set_last_index_op path) db h s =
      set_last_index-IsWellFormed db path.keychain path.child s
  do_op-IsWellFormed (del_last_index_op external) db h s =
      search (laws, s.paths, s.scripts, s.utxos, s.raw_txs, s.tx_metas)
  do_op-IsWellFormed (del_last_index_op internal) db h s =
      search (laws, s.paths, s.scripts, s.utxos, s.raw_txs, s.tx_metas)
  do_op-IsWellFormed (set_sync_time_op time) db h s =
      search (laws, s.paths, s.scripts, s.utxos, s.raw_txs, s.tx_metas)
  do_op-IsWellFormed del_sync_time_op db h s =
      search (laws, s.paths, s.scripts, s.utxos, s.raw_txs, s.tx_metas)

  -- If the details that are set have the id of their raw transaction, any sequence of `DbOp`s
  -- keeps `DbData` well-formed: the five maps ascend, each utxo is filed under its outpoint,
  -- and each raw transaction and metadata under its txid.
  pub do_ops-IsWellFormed :
      (ops : List (DbOp bdk)) (db : DbData bdk)
      → All (IsFaithful {bdk = bdk}) ops
      → IsWellFormed bdk db
      → IsWellFormed bdk (do_ops (data_operations bdk) ops db)
  unfolding do_ops
  do_ops-IsWellFormed [] db h s = s
  do_ops-IsWellFormed (op ∷ ops) db h s =
      do_ops-IsWellFormed ops (do_op (data_operations bdk) op db) h.1
        (do_op-IsWellFormed op db h.0 s)
