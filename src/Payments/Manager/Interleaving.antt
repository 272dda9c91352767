-- ===== src/Payments/Manager/Interleaving.antt =====
-- The payments that a round of `check_onchain_confs` looks up stay pending while the lock is dropped
-- (lexe-ln/src/payments/manager.rs): every entry point but the round itself keeps them.
pub mod Checks
pub mod Steps
use lexe_public.Base.{
  ℕ, Bool, true, false, Option, none, some, List, [], ◌∷◌, ◌≡◌, refl, sym, ap, ◌∙◌, ◌≢◌, ◌⊎◌, inl,
  inr, Result, ok, err, map_option, some_inj, ensure, ◌>>◌, All, arith,
}
use lexe_public.Base.Maps.{get-insert, get-remove}
use lexe_public.Ids.{
  Bytes, TimestampMs, LxPaymentId, LxPaymentId-discrete, PaymentStatus, lightning,
}
use lexe_public.Payments.Library.{Library, Error}
use lexe_public.Payments.Payment.{
  Payment, payment_id, payment_status, inbound_invoice, outbound_invoice,
}
use mathlib.Core.Path.{subst}
use lexe_public.Payments.Inbound.{iip_check_invoice_expiry}
use lexe_public.Payments.Outbound.{oip_check_invoice_expiry}
use lexe_public.Payments.Onchain.{os_broadcasted}
use lexe_public.Payments.Manager.{
  payment_check_expiry, PaymentsData, get_pending, commit, check_new_payment,
}
use lexe_public.Payments.Manager.Handlers.{
  Call, claim_checked, payment_broadcasted, persist_commit, create_commit, batch_commit, commit_all,
}

module _ {Invoice Tx : Type 0} where
  -- There is a pending payment under the id.
  abbrev pub IsPending : PaymentsData Invoice Tx → LxPaymentId → Type 0
  IsPending d id = (p : Payment Invoice Tx) × (get_pending id d ≡ some p)

pub ensured :
    {B : Type 0} (b : Bool) (e : Error) (m : Result Error B) {q : B}
    → (ensure b e >> m) ≡ ok q
    → b ≡ true
ensured true e m h = refl
ensured false e m h = cc

abbrev pub is_onchain_id : LxPaymentId → Bool
is_onchain_id (lightning hash) = false
is_onchain_id (LxPaymentId.onchain_send cid) = true
is_onchain_id (LxPaymentId.onchain_recv txid) = true

module _ {Invoice Tx : Type 0} where
  -- A commit of the payment does not finalize the id.
  abbrev pub Harmless : LxPaymentId → Payment Invoice Tx → Type 0
  Harmless id q = (payment_id q ≢ id) ⊎ (payment_status q ≡ PaymentStatus.pending)

module _ {Invoice Tx : Type 0} (d : PaymentsData Invoice Tx) (id : LxPaymentId)
    (q : Payment Invoice Tx) where
  commit_other : payment_id q ≢ id → get_pending id (commit d q) ≡ get_pending id d
  unfolding commit
  commit_other ne = ground (
    arith,
    ne,
    get-insert LxPaymentId-discrete id (payment_id q) q d.pending,
    get-remove LxPaymentId-discrete id (payment_id q) d.pending,
  )

  commit_same :
      payment_status q ≡ PaymentStatus.pending
      → payment_id q ≡ id
      → get_pending id (commit d q) ≡ some q
  unfolding commit
  commit_same h e =
      ground (arith, h, e, get-insert LxPaymentId-discrete id (payment_id q) q d.pending)

  pub commit-IsPending : IsPending d id → Harmless id q → IsPending (commit d q) id
  commit-IsPending (p, h) (inl ne) = (p, commit_other ne ∙ h)
  commit-IsPending (p, h) (inr s) = elim (LxPaymentId-discrete (payment_id q) id) [
    | yes e ↦ (q, commit_same s e)
    | no ne ↦ (p, commit_other ne ∙ h)
  ]

module _ {Invoice Tx : Type 0} where
  mapped :
      {A : Type 0} (f : A → Payment Invoice Tx) (o : Option A) (q : Payment Invoice Tx)
      → map_option f o ≡ some q
      → (a : A) × (f a ≡ q)
  mapped f none q h = cc
  mapped f (some a) q h = (a, some_inj h)

  new_absent :
      (d : PaymentsData Invoice Tx) (p q : Payment Invoice Tx)
      → check_new_payment d p ≡ ok q
      → (p ≡ q) × (get_pending (payment_id p) d ≡ none)
  unfolding check_new_payment
  new_absent d p q h = ground arith

  pub broadcasted_pending :
      (p q : Payment Invoice Tx) (txid : Bytes)
      → payment_broadcasted p txid ≡ ok q
      → payment_status q ≡ PaymentStatus.pending
  unfolding payment_broadcasted os_broadcasted payment_status
  broadcasted_pending p q txid h = ground arith

  pub expired_lightning :
      (lib : Library Invoice Tx) (p q : Payment Invoice Tx) (unix_duration : ℕ) (now : TimestampMs)
      → payment_check_expiry lib p unix_duration now ≡ some q
      → (hash : Bytes) × (payment_id q ≡ lightning hash)
  unfolding payment_check_expiry payment_id
  expired_lightning lib (inbound_invoice iip) q unix_duration now h =
      let (a, e) =
        mapped inbound_invoice (iip_check_invoice_expiry lib iip unix_duration now) q h in
      (a.hash, ap payment_id (sym e))
  expired_lightning lib (outbound_invoice oip) q unix_duration now h =
      let (a, e) = mapped outbound_invoice (oip_check_invoice_expiry lib oip unix_duration) q h in
      (a.hash, ap payment_id (sym e))
  expired_lightning lib _ q unix_duration now h = cc

module _ {Invoice Tx : Type 0} (id : LxPaymentId) where
  pub commit_all-IsPending :
      (d : PaymentsData Invoice Tx) (ps : List (Payment Invoice Tx))
      → All (Harmless id) ps
      → IsPending d id
      → IsPending (commit_all d ps) id
  unfolding commit_all
  commit_all-IsPending d [] a h = h
  commit_all-IsPending d (p ∷ ps) a h =
      commit_all-IsPending (commit d p) ps a.1 (commit-IsPending d id p h a.0)

  module _ (d : PaymentsData Invoice Tx) (there : IsPending d id) where
    pub persist_commit-IsPending :
        (m : Result Error (Payment Invoice Tx)) (b : Bool)
        → ((q : Payment Invoice Tx) → m ≡ ok q → Harmless id q)
        → IsPending (persist_commit d m b).after id
    unfolding persist_commit
    persist_commit-IsPending (err e) b k = there
    persist_commit-IsPending (ok q) true k = commit-IsPending d id q there (k q refl)
    persist_commit-IsPending (ok q) false k = there

    pub create_commit-IsPending :
        (m : Result Error (Payment Invoice Tx)) (b : Bool)
        → ((q : Payment Invoice Tx) → m ≡ ok q → Harmless id q)
        → IsPending (create_commit d m b).after id
    unfolding create_commit
    create_commit-IsPending (err e) b k = there
    create_commit-IsPending (ok q) true k = commit-IsPending d id q there (k q refl)
    create_commit-IsPending (ok q) false k = there

    pub batch_commit-IsPending :
        (cs : List (Call Invoice Tx)) (ps : List (Payment Invoice Tx)) (b : Bool)
        → All (Harmless id) ps
        → IsPending (batch_commit d cs ps b).after id
    unfolding batch_commit
    batch_commit-IsPending cs ps true k = commit_all-IsPending d ps k there
    batch_commit-IsPending cs ps false k = there

    pub claim_checked-IsPending :
        (hash preimage : Bytes) (m : Result Error (Payment Invoice Tx)) (b : Bool)
        → ((q : Payment Invoice Tx) → m ≡ ok q → Harmless id q)
        → IsPending (claim_checked d hash preimage m b).after id
    unfolding claim_checked
    claim_checked-IsPending hash preimage (err e) b k = there
    claim_checked-IsPending hash preimage (ok q) true k = commit-IsPending d id q there (k q refl)
    claim_checked-IsPending hash preimage (ok q) false k = there

    pub new-Harmless : (p q : Payment Invoice Tx) → check_new_payment d p ≡ ok q → Harmless id q
    new-Harmless p q h =
        let (same, absent) = new_absent d p q h in
        inl
          (λ e. let gone : get_pending id d ≡ none = rw (← e, ← same) absent in cc (gone, there.1))

  pub other-Harmless :
      (q : Payment Invoice Tx) (hash : Bytes)
      → is_onchain_id id ≡ true
      → payment_id q ≡ lightning hash
      → Harmless id q
  other-Harmless q hash onchain e =
      inl (λ h. cc (subst (λ i. is_onchain_id i ≡ true) (sym h ∙ e) onchain))
