-- ===== src/WalletDb/Handle/Batching.antt =====
-- A batch against the same operations on the database itself (lexe-ln/src/wallet/db/mod.rs).
use lexe_public.Base.{List, [], ◌∷◌, ◌++◌, ◌≡◌, refl, sym, ap, ◌∙◌, ok, err, if◌then◌else◌}
use mathlib.Core.List.{append_assoc, append-nil}
use lexe_public.WalletDb.Library.{Bdk, generic}
use lexe_public.WalletDb.Batch.{
  DbOp, DbBatch, do_op, do_ops, begin_batch, batch_operations, data_operations, set_path_script,
  del_by_path,
}
use lexe_public.WalletDb.Handle.{Sender, WalletDb, locked, wallet_operations, commit_batch}

module _ (bdk : Bdk) where
  do_op_batch :
      (op : DbOp bdk) (b : DbBatch bdk) → (do_op (batch_operations bdk) op b).ops ≡ b.ops ++ op ∷ []
  unfolding do_op batch_operations
  do_op_batch (set_path_script path script) b = refl
  do_op_batch (del_by_path path) b = refl
  do_op_batch _ b = refl

  do_ops_batch :
      (ops : List (DbOp bdk)) (b : DbBatch bdk)
      → (do_ops (batch_operations bdk) ops b).ops ≡ b.ops ++ ops
  unfolding do_ops
  do_ops_batch [] b = sym (append-nil b.ops)
  do_ops_batch (op ∷ ops) b =
      do_ops_batch ops (do_op (batch_operations bdk) op b)
      ∙ ap (λ (l : List (DbOp bdk)). l ++ ops) (do_op_batch op b)
      ∙ append_assoc b.ops (op ∷ []) ops

module _ {C : Type 0} (bdk : Bdk) where
  do_op_wallet :
      (op : DbOp bdk) (w : WalletDb bdk C)
      → do_op (wallet_operations bdk) op w
        ≡ record w { inner = do_op (data_operations bdk) op w.inner }
  unfolding do_op wallet_operations data_operations locked
  do_op_wallet (set_path_script path script) w = refl
  do_op_wallet _ w = refl

  do_ops_wallet :
      (ops : List (DbOp bdk)) (w : WalletDb bdk C)
      → do_ops (wallet_operations bdk) ops w
        ≡ record w { inner = do_ops (data_operations bdk) ops w.inner }
  unfolding do_ops
  do_ops_wallet [] w = refl
  do_ops_wallet (op ∷ ops) w =
      rw (do_op_wallet op w)
        (do_ops_wallet ops (record w { inner = do_op (data_operations bdk) op w.inner }))

  -- Queueing any operations in a batch with `do_op` and committing it leaves the data that
  -- the same operations leave when they are done on the wallet database itself; the commit
  -- returns `Ok` if the persister task could be notified, and else an error.
  pub commit_batch_direct :
      (channel : Sender C) (w : WalletDb bdk C) (ops : List (DbOp bdk))
      → ((commit_batch bdk channel w (do_ops (batch_operations bdk) ops (begin_batch bdk))).0.inner
          ≡ (do_ops (wallet_operations bdk) ops w).inner)
        × ((commit_batch bdk channel w (do_ops (batch_operations bdk) ops (begin_batch bdk))).1
            ≡ (if (channel.try_send w.wallet_db_persister_tx).1 then ok tt else err generic))
  unfolding commit_batch begin_batch
  commit_batch_direct channel w ops =
      let queued : (do_ops (batch_operations bdk) ops (begin_batch bdk)).ops ≡ ops =
        do_ops_batch bdk ops (begin_batch bdk) in
      (rw queued (sym (ap (λ (v : WalletDb bdk C). v.inner) (do_ops_wallet ops w))), refl)
