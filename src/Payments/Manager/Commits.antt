-- ===== src/Payments/Manager/Commits.antt =====
-- `commit` of `PaymentsData` (lexe-ln/src/payments/manager.rs) against the rows of the database.
use mathlib.Core.Path.{subst}
use lexe_public.Base.{
  false, some, ◌≡◌, refl, sym, ap, inl, inr, arith, some_inj, if_pos, if_neg, ◌∙◌,
}
use lexe_public.Base.Maps.{get, insert, get-insert, get-remove, contains-add}
use lexe_public.Ids.{LxPaymentId, LxPaymentId-discrete, PaymentStatus}
use lexe_public.Payments.Payment.{Payment, payment_id, payment_status, payment_note, set_note}
use lexe_public.Payments.Soundness.{IsSound}
use lexe_public.Payments.Manager.{PaymentsData, get_pending, is_finalized, commit, commit_as}
use lexe_public.Payments.Manager.Events.{Db, upsert}
use lexe_public.Payments.Manager.Storage.{
  is_pending_status, pending_row, final_row, Entries, Refines, CanCommit, FinalKept, Follows,
  Entries-insert, Entries-remove, set_note-keeps, set_note_self,
}

module _ {Invoice Tx : Type 0} (d : PaymentsData Invoice Tx) (db : Db Invoice Tx)
    (p : Payment Invoice Tx) (r : Refines d db) (c : CanCommit d db p) where
  -- A pending payment is never committed under a finalized id.
  not_final : payment_status p ≡ PaymentStatus.pending → is_finalized (payment_id p) d ≡ false
  not_final h = elim c.target [
    | inl f ↦ f
    | inr (q, n, row, same) ↦
        let kept : payment_status q ≡ PaymentStatus.pending =
          sym (set_note-keeps q n).1 ∙ sym (ap payment_status same) ∙ h in
        ground (arith, r.fin (payment_id p), row, kept)
  ]

  commit-pend :
      (id : LxPaymentId)
      → get_pending id (commit d p) ≡ pending_row (get LxPaymentId-discrete id (upsert db p))
  unfolding commit upsert
  commit-pend id = ground (
    arith,
    r.pend id,
    get-insert LxPaymentId-discrete id (payment_id p) p d.pending,
    get-insert LxPaymentId-discrete id (payment_id p) p db,
    get-remove LxPaymentId-discrete id (payment_id p) d.pending,
  )

  commit-fin :
      (id : LxPaymentId)
      → is_finalized id (commit d p) ≡ final_row (get LxPaymentId-discrete id (upsert db p))
  unfolding commit upsert
  commit-fin id = ground (
    arith,
    r.fin id,
    not_final,
    get-insert LxPaymentId-discrete id (payment_id p) p db,
    contains-add LxPaymentId-discrete id (payment_id p) d.finalized,
  )

  upsert-IsSound :
      (id : LxPaymentId) (q : Payment Invoice Tx)
      → get LxPaymentId-discrete id (upsert db p) ≡ some q
      → IsSound q
  unfolding upsert
  upsert-IsSound id q h = elim (LxPaymentId-discrete (payment_id p) id) [
    | yes e ↦
        let same : p ≡ q =
          some_inj (rw (get-insert LxPaymentId-discrete id (payment_id p) p db, if_pos _ e) at h) in
        subst IsSound same c.sound
    | no ne ↦
        r.sound id q (rw (get-insert LxPaymentId-discrete id (payment_id p) p db, if_neg _ ne) at h)
  ]

  commit-Entries : Entries (commit d p).pending
  unfolding commit
  commit-Entries = go (payment_status p) refl
    where
      go : (s : PaymentStatus) → payment_status p ≡ s → Entries (commit_as s d p).pending
      go PaymentStatus.pending e = Entries-insert p d.pending c.sound e r.entries
      go PaymentStatus.completed e = Entries-remove (payment_id p) d.pending r.entries
      go PaymentStatus.failed e = Entries-remove (payment_id p) d.pending r.entries

  commit-Refines : Refines (commit d p) (upsert db p)
  commit-Refines = record {
    entries = commit-Entries;
    pend = commit-pend;
    fin = commit-fin;
    sound = upsert-IsSound;
  }

  upsert-kept : FinalKept db (upsert db p)
  unfolding upsert
  upsert-kept id q e h = elim (LxPaymentId-discrete (payment_id p) id) [
    | no ne ↦ (
      payment_note q,
      get-insert LxPaymentId-discrete id (payment_id p) p db
          ∙ if_neg (LxPaymentId-discrete (payment_id p) id) ne _ _
          ∙ e
          ∙ ap some (set_note_self q),
    )
    | yes same ↦
        let put : get LxPaymentId-discrete id (insert LxPaymentId-discrete (payment_id p) p db)
            ≡ some p =
          get-insert LxPaymentId-discrete id (payment_id p) p db
          ∙ if_pos (LxPaymentId-discrete (payment_id p) id) same _ _ in
        elim c.target [
          | inl f ↦
              absurd (
                final_row_at id q e h
                  (subst (λ (k : LxPaymentId). is_finalized k d ≡ false) same f))
          | inr (x, n, row, eq) ↦
              let x_is_q : x ≡ q = some_inj (
                sym (subst (λ (k : LxPaymentId). get LxPaymentId-discrete k db ≡ some x) same row)
                ∙ e) in
              (n, put ∙ ap some (eq ∙ ap (λ y. set_note y n) x_is_q))
        ]
  ]
    where
      final_row_at :
          (id : LxPaymentId) (q : Payment Invoice Tx)
          → get LxPaymentId-discrete id db ≡ some q
          → is_pending_status (payment_status q) ≡ false
          → ¬ (is_finalized id d ≡ false)
      final_row_at id q e h f = ground (arith, r.fin id)

  pub commit-Follows : Follows db (commit d p) (upsert db p)
  commit-Follows = record { refines = commit-Refines; kept = upsert-kept }
