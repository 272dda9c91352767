-- ===== src/Payments/Manager/Receipts.antt =====
-- The two entry points that receive a payment: `payment_claimable`, then `payment_claimed`
-- (lexe-ln/src/payments/manager.rs).
use lexe_public.Base.{ℕ, true, false, some, [], ◌∷◌, ◌≡◌, refl, ◌∙◌, ok, arith}
use lexe_public.Base.Maps.{get-insert}
use lexe_public.Ids.{TimestampMs, LxPaymentId, LxPaymentId-discrete, lightning, PaymentStatus}
use lexe_public.Payments.Library.{Library}
use lexe_public.Payments.Inbound.{
  PaymentPurpose, invoice_payment, try_from_purpose, purpose_preimage, InboundInvoicePayment,
  InboundInvoicePaymentStatus, iip_check_payment_claimable, iip_check_payment_claimed,
}
use lexe_public.Payments.Payment.{inbound_invoice, payment_status, payment_id}
use lexe_public.Payments.Manager.{
  PaymentsData, get_pending, is_finalized, commit, payment_check_claimable, check_payment_claimable,
  payment_check_claimed, check_payment_claimed, claim_or_create,
}
use lexe_public.Payments.Manager.Handlers.{
  persist_payment, claim_funds, persist_commit, claim_checked, claim_purpose, payment_claimable,
  payment_claimed,
}
use lexe_public.Payments.Manager.Histories.{claimed-finalizes}

module _ {Invoice Tx : Type 0} (lib : Library Invoice Tx) where
  -- The purpose that LDK reports for a payment of this invoice.
  abbrev pub purpose_of : InboundInvoicePayment Invoice → PaymentPurpose
  purpose_of p = invoice_payment (some p.preimage) p.secret

  abbrev pub claiming_copy : InboundInvoicePayment Invoice → ℕ → InboundInvoicePayment Invoice
  claiming_copy p amount = record p {
    recvd_amount = some amount;
    status = InboundInvoicePaymentStatus.claiming;
  }

  check_claimable-pending :
      (p : InboundInvoicePayment Invoice) (amount : ℕ) (now : TimestampMs)
      → payment_status {Invoice = Invoice} {Tx = Tx} (inbound_invoice p) ≡ PaymentStatus.pending
      → lib.is_expired p.invoice now ≡ false
      → iip_check_payment_claimable {Tx = Tx} lib p p.hash p.secret p.preimage amount now
        ≡ ok (claiming_copy p amount)
  unfolding iip_check_payment_claimable payment_status
  check_claimable-pending p amount now s x = ground arith

  check_claimed-claiming :
      (p : InboundInvoicePayment Invoice) (amount : ℕ) (now : TimestampMs)
      → iip_check_payment_claimed (claiming_copy p amount) p.hash p.secret p.preimage amount now
        ≡ ok (record p {
          recvd_amount = some amount;
          status = InboundInvoicePaymentStatus.completed;
          finalized_at = some now;
        })
  unfolding iip_check_payment_claimed
  check_claimed-claiming p amount now = ground arith

  claimable-Settles :
      (d : PaymentsData Invoice Tx) (p : InboundInvoicePayment Invoice) (amount : ℕ)
      (now : TimestampMs)
      → get_pending (lightning p.hash) d ≡ some (inbound_invoice p)
      → is_finalized (lightning p.hash) d ≡ false
      → payment_status {Invoice = Invoice} {Tx = Tx} (inbound_invoice p) ≡ PaymentStatus.pending
      → lib.is_expired p.invoice now ≡ false
      → payment_claimable lib d p.hash amount (purpose_of p) now true ≡ record {
        after = commit d (inbound_invoice (claiming_copy p amount));
        calls =
            persist_payment (inbound_invoice (claiming_copy p amount)) true
            ∷ claim_funds p.preimage
            ∷ [];
        result = ok tt;
      }
  unfolding payment_claimable try_from_purpose claim_purpose check_payment_claimable claim_or_create
      payment_check_claimable claim_checked purpose_preimage
  claimable-Settles d p amount now e f s x =
      rw (f, e, check_claimable-pending p amount now s x) refl

  -- While the claiming payment is pending, its claim finalizes it.
  claiming-claimed :
      (d : PaymentsData Invoice Tx) (p : InboundInvoicePayment Invoice) (amount : ℕ)
      (now : TimestampMs)
      → get_pending (lightning p.hash) d ≡ some (inbound_invoice (claiming_copy p amount))
      → is_finalized (lightning p.hash) d ≡ false
      → (payment_claimed d p.hash amount (purpose_of p) now true).result ≡ ok tt
  unfolding payment_claimed try_from_purpose check_payment_claimed payment_check_claimed
      persist_commit
  claiming-claimed d p amount now e f = rw (f, e, check_claimed-claiming p amount now) refl

  committed-claiming :
      (d : PaymentsData Invoice Tx) (p : InboundInvoicePayment Invoice) (amount : ℕ)
      → get_pending (lightning p.hash) (commit d (inbound_invoice (claiming_copy p amount)))
        ≡ some (inbound_invoice (claiming_copy p amount))
  unfolding commit payment_status payment_id
  committed-claiming d p amount = ground (
    arith,
    get-insert LxPaymentId-discrete (lightning p.hash) (lightning p.hash)
        (inbound_invoice (claiming_copy p amount)) d.pending,
  )

  commit-unfinalized :
      (d : PaymentsData Invoice Tx) (p : InboundInvoicePayment Invoice) (amount : ℕ)
      (id : LxPaymentId)
      → is_finalized id (commit d (inbound_invoice (claiming_copy p amount))) ≡ is_finalized id d
  unfolding commit payment_status
  commit-unfinalized d p amount id = refl

  -- If an inbound invoice payment is pending in memory under its hash, its hash is not
  -- finalized, its invoice has not expired, and the persister succeeds, then
  -- `payment_claimable` with the preimage and the secret of the invoice stores the payment as
  -- claiming and claims the funds with that preimage, and a `payment_claimed` right after it
  -- succeeds and finalizes the hash.
  pub receive_completes :
      (d : PaymentsData Invoice Tx) (p : InboundInvoicePayment Invoice) (amount : ℕ)
      (now later : TimestampMs)
      → get_pending (lightning p.hash) d ≡ some (inbound_invoice p)
      → is_finalized (lightning p.hash) d ≡ false
      → payment_status {Invoice = Invoice} {Tx = Tx} (inbound_invoice p) ≡ PaymentStatus.pending
      → lib.is_expired p.invoice now ≡ false
      → let first = payment_claimable lib d p.hash amount (purpose_of p) now true in
        let second = payment_claimed first.after p.hash amount (purpose_of p) later true in
        (first.calls
          ≡ persist_payment (inbound_invoice (claiming_copy p amount)) true
            ∷ claim_funds p.preimage
            ∷ [])
        × (first.result ≡ ok tt)
        × (second.result ≡ ok tt)
        × (is_finalized (lightning p.hash) second.after ≡ true)
  receive_completes d p amount now later e f s x =
      let h = claimable-Settles d p amount now e f s x in
      let k =
        claiming-claimed (commit d (inbound_invoice (claiming_copy p amount))) p amount later
          (committed-claiming d p amount) (commit-unfinalized d p amount (lightning p.hash) ∙ f) in
      rw h (refl, refl, k, claimed-finalizes _ p.hash amount (purpose_of p) later true k)
