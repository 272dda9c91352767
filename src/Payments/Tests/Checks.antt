-- ===== src/Payments/Tests/Checks.antt =====
-- Checks of single payments, and the theorems on checks at those inputs.
use lexe_public.Base.{ℕ, some, [], ◌∷◌, ◌≡◌, refl, ok, ℕ_discrete}
use lexe_public.Ids.{Bytes, Bytes-discrete, PaymentStatus}
use lexe_public.Payments.Inbound.{
  LxPaymentPurpose, InboundInvoicePaymentStatus, iip_check_payment_claimable,
  iip_check_payment_claimed, iip_check_invoice_expiry,
}
use lexe_public.Payments.Outbound.{
  OutboundInvoicePaymentStatus, LxOutboundPaymentFailure, oip_check_payment_sent,
  oip_check_payment_failed, new_outbound_invoice,
}
use lexe_public.Payments.Onchain.{
  OnchainSendStatus, OnchainSendStatus-discrete, TxConfStatus, os_check_onchain_conf,
  os_broadcasted, new_onchain_send,
}
use lexe_public.Payments.Payment.{
  Payment, onchain_send, inbound_invoice, outbound_invoice, payment_status, assert_invariants,
}
use lexe_public.Payments.Soundness.{IsSound, Advances}
use lexe_public.Payments.Transitions.{
  claimable, claimed, run_check, run_checks, run_checks-Advances,
}
use lexe_public.Payments.Confirmations.{settled, check_conf-settled}
use lexe_public.Payments.Manager.{
  payment_check_claimable, payment_check_claimed, payment_check_sent, payment_check_failed,
  payment_check_expiry, payment_check_conf,
}
use lexe_public.Payments.Manager.Handlers.{payment_broadcasted}
use lexe_public.Payments.Tests.{
  sample_library, sample_invoice, sample_payment, sample_send, sample_pay, sample-IsSound,
}

abbrev claiming_payment : Payment ℕ Bytes
claiming_payment = inbound_invoice (record sample_invoice {
  recvd_amount = some 900;
  status = InboundInvoicePaymentStatus.claiming;
})

claimable_run :
    payment_check_claimable sample_library sample_payment
      (1 ∷ [])
      900
      (LxPaymentPurpose.invoice (3 ∷ []) (2 ∷ []))
      20
    ≡ ok claiming_payment
unfolding payment_check_claimable iip_check_payment_claimable Bytes-discrete ℕ_discrete
claimable_run = refl

abbrev claimed_payment : Payment ℕ Bytes
claimed_payment = inbound_invoice (record sample_invoice {
  recvd_amount = some 900;
  status = InboundInvoicePaymentStatus.completed;
  finalized_at = some 21;
})

claimed_run :
    payment_check_claimed sample_payment
      (1 ∷ [])
      900
      (LxPaymentPurpose.invoice (3 ∷ []) (2 ∷ []))
      21
    ≡ ok claimed_payment
unfolding payment_check_claimed iip_check_payment_claimed Bytes-discrete ℕ_discrete
claimed_run = refl

abbrev expired_payment : Payment ℕ Bytes
expired_payment =
    inbound_invoice (record sample_invoice {
      status = InboundInvoicePaymentStatus.expired;
      finalized_at = some 61;
    })

expiry_run : payment_check_expiry sample_library sample_payment 60 61 ≡ some expired_payment
unfolding payment_check_expiry iip_check_invoice_expiry
expiry_run = refl

abbrev paid : Payment ℕ Bytes
paid = outbound_invoice (record sample_pay {
  preimage = some (1 ∷ []);
  fees = 3;
  status = OutboundInvoicePaymentStatus.completed;
  finalized_at = some 30;
})

sent_run :
    payment_check_sent sample_library (outbound_invoice sample_pay) (1 ∷ []) (1 ∷ []) (some 3) 30
    ≡ ok paid
unfolding payment_check_sent oip_check_payment_sent new_outbound_invoice Bytes-discrete ℕ_discrete
sent_run = refl

abbrev unpaid : Payment ℕ Bytes
unpaid = outbound_invoice (record sample_pay {
  status = OutboundInvoicePaymentStatus.failed;
  failure = some LxOutboundPaymentFailure.no_route;
  finalized_at = some 30;
})

failed_run :
    payment_check_failed (outbound_invoice sample_pay) (1 ∷ []) LxOutboundPaymentFailure.no_route 30
    ≡ ok unpaid
unfolding payment_check_failed oip_check_payment_failed new_outbound_invoice Bytes-discrete
    ℕ_discrete
failed_run = refl

abbrev created_payment : Payment ℕ Bytes
created_payment = onchain_send sample_send

abbrev broadcasted_send : Payment ℕ Bytes
broadcasted_send = onchain_send (record sample_send { status = OnchainSendStatus.broadcasted })

broadcasted-IsSound : IsSound broadcasted_send
unfolding assert_invariants new_onchain_send
broadcasted-IsSound = record { stamped = refl; fields = refl }

broadcasted_run : payment_broadcasted created_payment (9 ∷ []) ≡ ok broadcasted_send
unfolding payment_broadcasted os_broadcasted new_onchain_send Bytes-discrete ℕ_discrete
broadcasted_run = refl

-- Two of the six confirmations.
abbrev confirmed_send : Payment ℕ Bytes
confirmed_send =
    onchain_send (record sample_send { status = OnchainSendStatus.partially_confirmed })

conf_run :
    payment_check_conf broadcasted_send (TxConfStatus.in_best_chain 2) 40 ≡ ok (some confirmed_send)
unfolding payment_check_conf os_check_onchain_conf new_onchain_send OnchainSendStatus-discrete
conf_run = refl

check_conf-settled_example : payment_status confirmed_send ≡ settled (TxConfStatus.in_best_chain 2)
check_conf-settled_example =
    check_conf-settled broadcasted_send confirmed_send (TxConfStatus.in_best_chain 2) 40 conf_run

confirmed_pending : payment_status confirmed_send ≡ PaymentStatus.pending
unfolding payment_status
confirmed_pending = refl

run_checks-Advances_example : Advances sample_payment claimed_payment
unfolding run_checks run_check payment_check_claimable payment_check_claimed
    iip_check_payment_claimable iip_check_payment_claimed Bytes-discrete ℕ_discrete
run_checks-Advances_example =
    run_checks-Advances sample_library
      (claimable (1 ∷ []) 900 (LxPaymentPurpose.invoice (3 ∷ []) (2 ∷ [])) 20)
      (claimed (1 ∷ []) 900 (LxPaymentPurpose.invoice (3 ∷ []) (2 ∷ [])) 21 ∷ []) sample_payment
      claimed_payment sample-IsSound refl
