-- ===== src/Payments/Manager/Rounds.antt =====
-- A round of `check_onchain_confs` (lexe-ln/src/payments/manager.rs): the ids that it collects, and
-- the statuses that Esplora reports for them.
use lexe_public.Base.{
  true, some, List, [], ◌∷◌, ◌≡◌, refl, sym, ◌≢◌, ◌∙◌, Result, ok, err, All, arith, All-map,
}
use lexe_public.Ids.{TimestampMs, LxPaymentId, PaymentStatus}
use lexe_public.Payments.Library.{Error, Library}
use lexe_public.Payments.Onchain.{TxConfStatus}
use lexe_public.Payments.Payment.{
  Payment, onchain_send, onchain_receive, inbound_invoice, inbound_spontaneous, outbound_invoice,
  outbound_spontaneous, payment_id, payment_status,
}
use lexe_public.Payments.Confirmations.{is_onchain, check_conf-answers}
use lexe_public.Payments.Manager.{PaymentsData, get_pending, check_onchain_confs}
use lexe_public.Payments.Manager.Handlers.{
  pending_onchain_ids, update_onchain_confs, confs_commit, batch_commit,
}
use lexe_public.Payments.Manager.Events.{Db, Event, run}
use lexe_public.Payments.Manager.Histories.{AdmissibleRun, run-Follows}
use lexe_public.Payments.Manager.Interleaving.{IsPending, is_onchain_id}
use lexe_public.Payments.Manager.Interleaving.Steps.{is_between, run-IsPending}
use lexe_public.Payments.Manager.Batches.{Found, Entries-Found}
use lexe_public.Payments.Manager.Storage.{Entries, Refines, get-Entries}
use lexe_public.Payments.Manager.Confs.{AllDistinct}

module _ {Invoice Tx : Type 0} where
  -- An id under which there is a pending on-chain payment.
  record Answerable (d : PaymentsData Invoice Tx) (id : LxPaymentId) : Type 0 where
    payment : Payment Invoice Tx
    there : get_pending id d ≡ some payment
    onchain : is_onchain payment ≡ true
    pending : payment_status payment ≡ PaymentStatus.pending

  -- A pending payment under the id of an on-chain payment is one.
  same_kind :
      (p q : Payment Invoice Tx)
      → is_onchain p ≡ true
      → payment_id q ≡ payment_id p
      → is_onchain q ≡ true
  unfolding payment_id
  same_kind p q h e = ground arith

  IsPending-Answerable :
      (d : PaymentsData Invoice Tx) (p : Payment Invoice Tx)
      → Entries d.pending
      → is_onchain p ≡ true
      → IsPending d (payment_id p)
      → Answerable d (payment_id p)
  IsPending-Answerable d p en h (q, there) =
      let (named, sound, pending) = get-Entries (payment_id p) q d.pending en there in
      record { payment = q; there = there; onchain = same_kind p q h named; pending = pending }

  ids-Answerable :
      (d : PaymentsData Invoice Tx) (m : List (LxPaymentId × Payment Invoice Tx))
      → Entries d.pending
      → All (IsPending d) (pending_onchain_ids m)
      → All (Answerable d) (pending_onchain_ids m)
  unfolding pending_onchain_ids payment_id
  ids-Answerable d [] en g = tt
  ids-Answerable d ((j, onchain_send os) ∷ m) en g =
      (IsPending-Answerable d (onchain_send os) en refl g.0, ids-Answerable d m en g.1)
  ids-Answerable d ((j, onchain_receive r) ∷ m) en g =
      (IsPending-Answerable d (onchain_receive r) en refl g.0, ids-Answerable d m en g.1)
  ids-Answerable d ((j, inbound_invoice p) ∷ m) en g = ids-Answerable d m en g
  ids-Answerable d ((j, inbound_spontaneous p) ∷ m) en g = ids-Answerable d m en g
  ids-Answerable d ((j, outbound_invoice p) ∷ m) en g = ids-Answerable d m en g
  ids-Answerable d ((j, outbound_spontaneous p) ∷ m) en g = ids-Answerable d m en g

  -- The ids that are collected are those of pending on-chain payments.
  abbrev Collected : PaymentsData Invoice Tx → LxPaymentId → Type 0
  Collected d id = IsPending d id × (is_onchain_id id ≡ true)

  ids-Collected :
      (d : PaymentsData Invoice Tx) (m : List (LxPaymentId × Payment Invoice Tx))
      → Entries m
      → All (Found d.pending) m
      → All (Collected d) (pending_onchain_ids m)
  unfolding pending_onchain_ids payment_id
  ids-Collected d [] en g = tt
  ids-Collected d ((j, onchain_send os) ∷ m) en g =
      (((onchain_send os, rw en.0 g.0), refl), ids-Collected d m en.4 g.1)
  ids-Collected d ((j, onchain_receive r) ∷ m) en g =
      (((onchain_receive r, rw en.0 g.0), refl), ids-Collected d m en.4 g.1)
  ids-Collected d ((j, inbound_invoice p) ∷ m) en g = ids-Collected d m en.4 g.1
  ids-Collected d ((j, inbound_spontaneous p) ∷ m) en g = ids-Collected d m en.4 g.1
  ids-Collected d ((j, outbound_invoice p) ∷ m) en g = ids-Collected d m en.4 g.1
  ids-Collected d ((j, outbound_spontaneous p) ∷ m) en g = ids-Collected d m en.4 g.1

  ids-ne :
      (k : LxPaymentId) (m : List (LxPaymentId × Payment Invoice Tx))
      → Entries m
      → All (λ (e : LxPaymentId × Payment Invoice Tx). e.0 ≢ k) m
      → All (λ (j : LxPaymentId). j ≢ k) (pending_onchain_ids m)
  unfolding pending_onchain_ids payment_id
  ids-ne k [] en a = tt
  ids-ne k ((j, onchain_send os) ∷ m) en a = (λ h. a.0 (sym en.0 ∙ h), ids-ne k m en.4 a.1)
  ids-ne k ((j, onchain_receive r) ∷ m) en a = (λ h. a.0 (sym en.0 ∙ h), ids-ne k m en.4 a.1)
  ids-ne k ((j, inbound_invoice p) ∷ m) en a = ids-ne k m en.4 a.1
  ids-ne k ((j, inbound_spontaneous p) ∷ m) en a = ids-ne k m en.4 a.1
  ids-ne k ((j, outbound_invoice p) ∷ m) en a = ids-ne k m en.4 a.1
  ids-ne k ((j, outbound_spontaneous p) ∷ m) en a = ids-ne k m en.4 a.1

  ids-AllDistinct :
      (m : List (LxPaymentId × Payment Invoice Tx))
      → Entries m
      → AllDistinct (pending_onchain_ids m)
  unfolding pending_onchain_ids payment_id
  ids-AllDistinct [] en = tt
  ids-AllDistinct ((j, onchain_send os) ∷ m) en =
      (rw en.0 (ids-ne j m en.4 en.3), ids-AllDistinct m en.4)
  ids-AllDistinct ((j, onchain_receive r) ∷ m) en =
      (rw en.0 (ids-ne j m en.4 en.3), ids-AllDistinct m en.4)
  ids-AllDistinct ((j, inbound_invoice p) ∷ m) en = ids-AllDistinct m en.4
  ids-AllDistinct ((j, inbound_spontaneous p) ∷ m) en = ids-AllDistinct m en.4
  ids-AllDistinct ((j, outbound_invoice p) ∷ m) en = ids-AllDistinct m en.4
  ids-AllDistinct ((j, outbound_spontaneous p) ∷ m) en = ids-AllDistinct m en.4

  answered :
      (d : PaymentsData Invoice Tx) (ids : List LxPaymentId) (confs : List TxConfStatus)
      (now : TimestampMs) (e : Error)
      → All (Answerable d) ids
      → check_onchain_confs d ids confs now ≢ err e
  unfolding check_onchain_confs
  answered d [] [] now e a h = cc
  answered d [] (c ∷ confs) now e a h = cc
  answered d (id ∷ ids) [] now e a h = cc
  answered d (id ∷ ids) (conf ∷ confs) now e a h = ground (
    arith,
    a.0.there,
    check_conf-answers a.0.payment conf now e a.0.onchain a.0.pending,
    answered d ids confs now e a.1,
  )

  confs_commit-ok :
      (d : PaymentsData Invoice Tx) (m : Result Error (List (Payment Invoice Tx)))
      → ((e : Error) → m ≢ err e)
      → (confs_commit d m true).result ≡ ok tt
  unfolding confs_commit batch_commit
  confs_commit-ok d (err e) h = absurd (h e refl)
  confs_commit-ok d (ok ps) h = refl

  -- In a memory that is a view of the database, the ids that a round of `check_onchain_confs`
  -- collects are distinct. If, while the lock is dropped, any admissible history of other
  -- entry points follows, in which no other round ends, then whatever statuses Esplora
  -- reports for these ids, the round succeeds in the memory that it finds then, when the
  -- persister does.
  pub conf_round_succeeds :
      (lib : Library Invoice Tx) (d : PaymentsData Invoice Tx) (db : Db Invoice Tx)
      (es : List (Event Invoice Tx)) (confs : List TxConfStatus) (now : TimestampMs)
      → Refines d db
      → AdmissibleRun lib d db es
      → All (λ (e : Event Invoice Tx). is_between e ≡ true) es
      → AllDistinct (pending_onchain_ids d.pending)
        × ((update_onchain_confs
              (run lib d db es).0
              (pending_onchain_ids d.pending)
              confs
              now
              true).result
            ≡ ok tt)
  unfolding update_onchain_confs
  conf_round_succeeds lib d db es confs now r a k =
      let ids = pending_onchain_ids d.pending in
      let later = (run lib d db es).0 in
      let still : All (IsPending later) ids =
        All-map ids (λ id h. run-IsPending lib id h.1 d db es r a k h.0)
          (ids-Collected d d.pending r.entries (Entries-Found d.pending r.entries)) in
      let all =
        ids-Answerable later d.pending (run-Follows lib d db es r a).refines.entries still in
      (
        ids-AllDistinct d.pending r.entries,
        confs_commit-ok later _ λ e. answered later ids confs now e all,
      )
