-- ===== src/Payments/Manager/Interleaving/Steps.antt =====
-- The entry points between the two locks of a confirmation round (lexe-ln/src/payments/manager.rs).
use lexe_public.Base.{
  ℕ, Bool, true, false, List, [], ◌∷◌, ◌≡◌, refl, Result, ok, err, All, >>=-eq-ok,
}
use lexe_public.Ids.{Bytes, TimestampMs, LxPaymentId, lightning}
use lexe_public.Payments.Library.{Library, Error}
use lexe_public.Payments.Manager.Refinement.{step-Follows}
use lexe_public.Payments.Inbound.{LxPaymentPurpose, try_from_purpose}
use lexe_public.Payments.Manager.{
  check_payment_claimable, PaymentsData, get_pending, check_invoice_expiries,
}
use lexe_public.Payments.Manager.Handlers.{
  claim_purpose, new_payment, update_payment_note, payment_claimable, payment_claimed, payment_sent,
  payment_failed, expire_invoices, onchain_send_broadcasted,
}
use lexe_public.Payments.Manager.Checks.{ensure_then}
use lexe_public.Payments.Manager.Events.{
  Event, registers, updates_note, claimable, claimed, sent, fails, expires, broadcasts, confirms,
  Db, write_calls, step, run,
}
use lexe_public.Payments.Manager.Histories.{AdmissibleRun}
use lexe_public.Payments.Manager.Storage.{Refines}
use lexe_public.Payments.Manager.Interleaving.{
  IsPending, is_onchain_id, persist_commit-IsPending, create_commit-IsPending,
  batch_commit-IsPending, claim_checked-IsPending, new-Harmless,
}
use lexe_public.Payments.Manager.Interleaving.Checks.{
  claimed-Harmless, failed-Harmless, broadcasted-Harmless, note-Harmless, sent-Harmless,
  claim_or_create-Harmless, expire_all-Harmless,
}

-- An event that is not the end of a confirmation round.
abbrev pub is_between : {Invoice Tx : Type 0} → Event Invoice Tx → Bool
is_between (confirms ids confs now persisted) = false
is_between _ = true

module _ {Invoice Tx : Type 0} (lib : Library Invoice Tx) (id : LxPaymentId)
    (onchain : is_onchain_id id ≡ true) where
  claimable-IsPending :
      (d : PaymentsData Invoice Tx) (db : Db Invoice Tx) (hash : Bytes) (amt : ℕ)
      (m : Result Error LxPaymentPurpose) (now : TimestampMs) (b : Bool)
      → Refines d db
      → IsPending d id
      → IsPending (claim_purpose lib d hash amt m now b).after id
  unfolding claim_purpose check_payment_claimable
  claimable-IsPending d db hash amt (err e) now b r there = there
  claimable-IsPending d db hash amt (ok purpose) now b r there =
      claim_checked-IsPending id d there hash _ _ b λ q h.
        claim_or_create-Harmless id onchain d db r there lib (get_pending (lightning hash) d) q hash
          amt purpose now refl (ensure_then _ _ _ h)

  step-IsPending :
      (d : PaymentsData Invoice Tx) (db : Db Invoice Tx) (e : Event Invoice Tx)
      → Refines d db
      → is_between e ≡ true
      → IsPending d id
      → IsPending (step lib d e).after id
  unfolding step new_payment update_payment_note payment_claimable payment_claimed payment_sent
      payment_failed expire_invoices onchain_send_broadcasted check_invoice_expiries
  step-IsPending d db (registers p b) r k there =
      create_commit-IsPending id d there _ b λ q h. new-Harmless id d there p q h
  step-IsPending d db (updates_note update answer b) r k there =
      persist_commit-IsPending id d there _ b λ q h.
        note-Harmless id onchain d db r there (get_pending update.index.id d) update.index answer
          update.note q refl h
  step-IsPending d db (claimable hash amt purpose now b) r k there =
      claimable-IsPending d db hash amt (try_from_purpose purpose) now b r there
  step-IsPending d db (claimed hash amt purpose now b) r k there =
      persist_commit-IsPending id d there _ b λ q h.
        let (p, _, c) = >>=-eq-ok (try_from_purpose purpose) _ h in
        claimed-Harmless id onchain d db r there q hash amt p now c
  step-IsPending d db (sent hash preimage fees now b) r k there =
      persist_commit-IsPending id d there _ b
        λ q h. sent-Harmless id onchain d db r there lib q hash preimage fees now h
  step-IsPending d db (fails hash failure now b) r k there =
      persist_commit-IsPending id d there _ b
        λ q h. failed-Harmless id onchain d db r there q hash failure now h
  step-IsPending d db (expires unix_duration now b) r k there =
      batch_commit-IsPending id d there _ _ b
        (expire_all-Harmless id onchain d db r there lib d.pending unix_duration now)
  step-IsPending d db (broadcasts i txid b) r k there =
      persist_commit-IsPending id d there _ b
        λ q h. broadcasted-Harmless id onchain d db r there q i txid h
  step-IsPending d db (confirms ids confs now b) r k there = cc

  -- A pending on-chain payment stays pending until the next round ends.
  pub run-IsPending :
      (d : PaymentsData Invoice Tx) (db : Db Invoice Tx) (es : List (Event Invoice Tx))
      → Refines d db
      → AdmissibleRun lib d db es
      → All (λ (e : Event Invoice Tx). is_between e ≡ true) es
      → IsPending d id
      → IsPending (run lib d db es).0 id
  unfolding run
  run-IsPending d db [] r a k there = there
  run-IsPending d db (e ∷ es) r a k there =
      run-IsPending (step lib d e).after (write_calls db (step lib d e).calls) es
        (step-Follows d db r lib e a.0).refines a.1 k.1 (step-IsPending d db e r k.0 there)
