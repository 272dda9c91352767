-- ===== src/Payments/Manager/Errors.antt =====
-- The entry points of the manager (lexe-ln/src/payments/manager.rs) that return an error.
use lexe_public.Base.{
  Bool, true, false, List, [], ◌∷◌, ◌++◌, ◌≡◌, refl, ◌∙◌, inl, inr, Result, ok, err, map,
}
use lexe_public.Ids.{Bytes}
use lexe_public.Payments.Library.{Library, Error}
use lexe_public.Payments.Payment.{Payment}
use lexe_public.Payments.Inbound.{LxPaymentPurpose}
use lexe_public.Payments.Manager.{PaymentsData}
use lexe_public.Payments.Manager.Handlers.{
  Outcome, Call, abandon_payment, persist_commit, create_commit, batch_commit, confs_commit,
  new_payment, update_payment_note, payment_claimed, payment_sent, payment_failed, expire_invoices,
  onchain_send_broadcasted, update_onchain_confs,
}
use lexe_public.Payments.Manager.Events.{
  Event, registers, updates_note, claimable, claimed, sent, fails, expires, broadcasts, confirms,
  Db, write_calls, step,
}
use lexe_public.Payments.Manager.Claims.{ClaimOutcome, claimable_protocol}
use lexe_public.Payments.Manager.Refinement.{note-write_calls}

module _ {Invoice Tx : Type 0} (d : PaymentsData Invoice Tx) (db : Db Invoice Tx) where
  abbrev pub Untouched : Outcome Invoice Tx → Type 0
  Untouched o = (o.after ≡ d) × (write_calls db o.calls ≡ db)

  abbrev SafeOnError : Outcome Invoice Tx → Type 0
  SafeOnError o = (x : Error) → o.result ≡ err x → Untouched o

  persist_commit-error :
      (m : Result Error (Payment Invoice Tx)) (b : Bool) → SafeOnError (persist_commit d m b)
  unfolding persist_commit write_calls
  persist_commit-error (err e) b x h = (refl, refl)
  persist_commit-error (ok p) true x h = cc
  persist_commit-error (ok p) false x h = (refl, refl)

  create_commit-error :
      (m : Result Error (Payment Invoice Tx)) (b : Bool) → SafeOnError (create_commit d m b)
  unfolding create_commit write_calls
  create_commit-error (err e) b x h = (refl, refl)
  create_commit-error (ok p) true x h = cc
  create_commit-error (ok p) false x h = (refl, refl)

  batch_commit-error :
      (hashes : List Bytes) (ps : List (Payment Invoice Tx)) (b : Bool)
      → SafeOnError (batch_commit d (map (λ h. abandon_payment h) hashes) ps b)
  unfolding batch_commit write_calls
  batch_commit-error hashes ps true x h = cc
  batch_commit-error [] ps false x h = (refl, refl)
  batch_commit-error (y ∷ hashes) ps false x h = batch_commit-error hashes ps false x h

  confs_commit-error :
      (m : Result Error (List (Payment Invoice Tx))) (b : Bool) → SafeOnError (confs_commit d m b)
  unfolding confs_commit write_calls
  confs_commit-error (err e) b x h = (refl, refl)
  confs_commit-error (ok ps) b x h = batch_commit-error [] ps b x h

  note-error :
      (o : Outcome Invoice Tx) (cs : List (Call Invoice Tx))
      → write_calls db (cs ++ o.calls) ≡ write_calls db o.calls
      → SafeOnError o
      → SafeOnError (record o { calls = cs ++ o.calls })
  note-error o cs same f x h = ((f x h).0, same ∙ (f x h).1)

  claim-error :
      (hash : Bytes) (purpose : Result Error LxPaymentPurpose)
      (check : LxPaymentPurpose → Result Error (Payment Invoice Tx)) (b : Bool)
      (o : Outcome Invoice Tx)
      → ClaimOutcome d hash purpose check b o
      → SafeOnError o
  claim-error hash purpose check b o (inl s) x h = cc (s.success)
  claim-error hash purpose check b o (inr t) x h = (t.0.unchanged, t.0.unwritten db)

  -- An entry point of the manager that returns an error leaves the memory and the database as
  -- they were.
  pub step_error-Untouched :
      (lib : Library Invoice Tx) (e : Event Invoice Tx) {x : Error}
      → (step lib d e).result ≡ err x
      → Untouched (step lib d e)
  unfolding step new_payment update_payment_note payment_claimed payment_sent payment_failed
      expire_invoices onchain_send_broadcasted update_onchain_confs
  step_error-Untouched lib (registers p b) {x} h = create_commit-error _ b x h
  step_error-Untouched lib (updates_note update answer b) {x} h =
      note-error _ _ (note-write_calls d db _ update.index _) (persist_commit-error _ b) x h
  step_error-Untouched lib (claimable hash amt purpose now b) {x} h =
      claim-error hash _ _ b _ (claimable_protocol lib d hash amt purpose now b) x h
  step_error-Untouched lib (claimed hash amt purpose now b) {x} h = persist_commit-error _ b x h
  step_error-Untouched lib (sent hash preimage fees now b) {x} h = persist_commit-error _ b x h
  step_error-Untouched lib (fails hash failure now b) {x} h = persist_commit-error _ b x h
  step_error-Untouched lib (expires unix_duration now b) {x} h = batch_commit-error _ _ b x h
  step_error-Untouched lib (broadcasts i txid b) {x} h = persist_commit-error _ b x h
  step_error-Untouched lib (confirms ids confs now b) {x} h = confs_commit-error _ b x h
