-- ===== src/WalletDb/View/Refinement.antt =====
-- The operations of `DbData` (lexe-ln/src/wallet/db/mod.rs) do what they mean.
use mathlib.Core.Path.{fun_ext}
use lexe_public.Base.{ℕ, true, false, Option, none, some, List, [], ◌∷◌, ◌≡◌, refl, ap, ◌∙◌, All}
use lexe_public.Base.BTree.{insert}
use lexe_public.Base.Updates.{update, get-insert_at, get-remove_at}
use lexe_public.WalletDb.Library.{Bdk, KeychainKind, external, internal}
use lexe_public.WalletDb.KeyPath.{KeyPath}
use lexe_public.WalletDb.Data.{DbData, TransactionMetadata, meta_from, get_last_index}
use lexe_public.WalletDb.Operations.{
  set_script_pubkey, set_utxo, set_raw_tx, insert_raw, set_tx, set_last_index, set_sync_time,
  del_script_pubkey_from_path, del_path_from_script_pubkey, del_utxo, del_raw_tx, del_tx,
  del_last_index, del_sync_time,
}
use lexe_public.WalletDb.Batch.{
  DbOp, do_op, do_ops, data_operations, set_path_script, del_by_path, del_by_script, set_utxo_op,
  del_utxo_op, set_raw_tx_op, del_raw_tx_op, set_tx_op, del_tx_op, set_last_index_op,
  del_last_index_op, set_sync_time_op, del_sync_time_op,
}
use lexe_public.WalletDb.Invariant.{IsWellFormed, IsFaithful, do_op-IsWellFormed}
use lexe_public.WalletDb.View.{View, view, set_index, keep_raw, meaning, meanings}

ruleset changes = (get-insert_at, get-remove_at, refl)

module _ (bdk : Bdk) where
  -- Two views with the same answers.
  record Agrees (u v : View bdk) : Type 0 where
    script_at : (p : KeyPath) → u.script_at p ≡ v.script_at p
    path_of : (s : bdk.Script) → u.path_of s ≡ v.path_of s
    utxo_at : (o : bdk.OutPoint) → u.utxo_at o ≡ v.utxo_at o
    raw_at : (t : bdk.Txid) → u.raw_at t ≡ v.raw_at t
    meta_at : (t : bdk.Txid) → u.meta_at t ≡ v.meta_at t
    index_of : (k : KeychainKind) → u.index_of k ≡ v.index_of k
    time : u.time ≡ v.time

  Agrees-eq : (u v : View bdk) → Agrees u v → u ≡ v
  Agrees-eq u v a = cc (
    fun_ext a.script_at,
    fun_ext a.path_of,
    fun_ext a.utxo_at,
    fun_ext a.raw_at,
    fun_ext a.meta_at,
    fun_ext a.index_of,
    a.time,
  )

  index_external :
      (db : DbData bdk) (v : Option ℕ) (k : KeychainKind)
      → get_last_index bdk (record db { last_external_index = v }) k
        ≡ set_index (get_last_index bdk db) external v k
  unfolding get_last_index set_index
  index_external db v external = refl
  index_external db v internal = refl

  index_internal :
      (db : DbData bdk) (v : Option ℕ) (k : KeychainKind)
      → get_last_index bdk (record db { last_internal_index = v }) k
        ≡ set_index (get_last_index bdk db) internal v k
  unfolding get_last_index set_index
  index_internal db v external = refl
  index_internal db v internal = refl

  set_last_index-Agrees :
      (db : DbData bdk) (keychain : KeychainKind) (index : ℕ)
      → Agrees (view bdk (set_last_index bdk db keychain index)) (record (view bdk db) {
        index_of = set_index (view bdk db).index_of keychain (some index);
      })
  unfolding set_last_index view
  set_last_index-Agrees db external index = search (index_external, refl)
  set_last_index-Agrees db internal index = search (index_internal, refl)

  set_tx-Agrees :
      (maybe_raw_tx : Option bdk.Transaction) (txid : bdk.Txid) (meta : TransactionMetadata bdk)
      (db : DbData bdk)
      → Agrees
          (view bdk (record (insert_raw bdk maybe_raw_tx txid db) {
            tx_metas =
                insert bdk.txid_order meta.txid meta (insert_raw bdk maybe_raw_tx txid db).tx_metas;
          }))
          (record (view bdk db) {
            raw_at = keep_raw bdk maybe_raw_tx txid (view bdk db).raw_at;
            meta_at = update bdk.txid_order (view bdk db).meta_at meta.txid (some meta);
          })
  unfolding insert_raw view keep_raw get_last_index
  set_tx-Agrees none txid meta db = search changes
  set_tx-Agrees (some raw_tx) txid meta db = search changes

  do_op-Agrees :
      (op : DbOp bdk) (db : DbData bdk)
      → IsWellFormed bdk db
      → Agrees (view bdk (do_op (data_operations bdk) op db)) (meaning bdk op (view bdk db))
  unfolding do_op data_operations set_script_pubkey set_utxo set_raw_tx set_tx set_sync_time
      del_script_pubkey_from_path del_path_from_script_pubkey del_utxo del_raw_tx del_tx
      del_last_index del_sync_time meta_from view meaning get_last_index
  do_op-Agrees (set_path_script path script) db s =
      search (changes, s.paths, s.scripts, s.utxos.ascends, s.raw_txs.ascends, s.tx_metas.ascends)
  do_op-Agrees (del_by_path path) db s =
      search (changes, s.paths, s.scripts, s.utxos.ascends, s.raw_txs.ascends, s.tx_metas.ascends)
  do_op-Agrees (del_by_script script) db s =
      search (changes, s.paths, s.scripts, s.utxos.ascends, s.raw_txs.ascends, s.tx_metas.ascends)
  do_op-Agrees (set_utxo_op utxo) db s =
      search (changes, s.paths, s.scripts, s.utxos.ascends, s.raw_txs.ascends, s.tx_metas.ascends)
  do_op-Agrees (del_utxo_op outpoint) db s =
      search (changes, s.paths, s.scripts, s.utxos.ascends, s.raw_txs.ascends, s.tx_metas.ascends)
  do_op-Agrees (set_raw_tx_op raw_tx) db s =
      search (changes, s.paths, s.scripts, s.utxos.ascends, s.raw_txs.ascends, s.tx_metas.ascends)
  do_op-Agrees (del_raw_tx_op txid) db s =
      search (changes, s.paths, s.scripts, s.utxos.ascends, s.raw_txs.ascends, s.tx_metas.ascends)
  do_op-Agrees (del_tx_op txid true) db s =
      search (changes, s.paths, s.scripts, s.utxos.ascends, s.raw_txs.ascends, s.tx_metas.ascends)
  do_op-Agrees (del_tx_op txid false) db s =
      search (changes, s.paths, s.scripts, s.utxos.ascends, s.raw_txs.ascends, s.tx_metas.ascends)
  do_op-Agrees (set_sync_time_op time) db s =
      search (changes, s.paths, s.scripts, s.utxos.ascends, s.raw_txs.ascends, s.tx_metas.ascends)
  do_op-Agrees del_sync_time_op db s =
      search (changes, s.paths, s.scripts, s.utxos.ascends, s.raw_txs.ascends, s.tx_metas.ascends)
  do_op-Agrees (set_last_index_op path) db s = set_last_index-Agrees db path.keychain path.child
  do_op-Agrees (del_last_index_op external) db s = search (index_external, refl)
  do_op-Agrees (del_last_index_op internal) db s = search (index_internal, refl)
  do_op-Agrees (set_tx_op tx) db s = set_tx-Agrees tx.transaction tx.txid (meta_from bdk tx) db

  -- From a well-formed `DbData`, and with the details that are set having the id of their raw
  -- transaction, any sequence of `DbOp`s changes what each path, script, outpoint and txid
  -- finds, the last indexes and the sync time, as the same sequence of updates of functions.
  pub do_ops-meanings :
      (ops : List (DbOp bdk)) (db : DbData bdk)
      → All (IsFaithful {bdk = bdk}) ops
      → IsWellFormed bdk db
      → view bdk (do_ops (data_operations bdk) ops db) ≡ meanings bdk ops (view bdk db)
  unfolding do_ops meanings
  do_ops-meanings [] db h s = refl
  do_ops-meanings (op ∷ ops) db h s =
      let next = do_op (data_operations bdk) op db in
      let one = Agrees-eq (view bdk next) (meaning bdk op (view bdk db)) (do_op-Agrees op db s) in
      do_ops-meanings ops next h.1 (do_op-IsWellFormed bdk op db h.0 s) ∙ ap (meanings bdk ops) one
