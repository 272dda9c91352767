-- ===== src/Payments/AppView.antt =====
-- What the app sees of a payment: `BasicPayment::from` and the status texts
-- (lexe-ln/src/payments/mod.rs, lexe-ln/src/payments/outbound.rs).
pub mod Received
use lexe_public.Base.{ℕ, Option, none, some, String}
use lexe_public.Payments.Inbound.{InboundInvoicePaymentStatus, InboundSpontaneousPaymentStatus}
use lexe_public.Payments.Outbound.{
  LxOutboundPaymentFailure, OutboundInvoicePaymentStatus, OutboundSpontaneousPaymentStatus,
}
use lexe_public.Payments.Onchain.{OnchainSendStatus, OnchainReceiveStatus}
use lexe_public.Payments.Payment.{
  Payment, onchain_send, onchain_receive, inbound_invoice, inbound_spontaneous, outbound_invoice,
  outbound_spontaneous, payment_index, payment_kind, payment_direction, payment_invoice,
  payment_replacement, payment_amount, payment_fees, payment_status, payment_note,
  payment_finalized_at,
}
use lexe_public.PaymentDb.Basic.{BasicPayment}

onchain_send_str : OnchainSendStatus → String
onchain_send_str OnchainSendStatus.created = "created"
onchain_send_str OnchainSendStatus.broadcasted = "broadcasted"
onchain_send_str OnchainSendStatus.partially_confirmed = "partially confirmed (1-5 confirmations)"
onchain_send_str OnchainSendStatus.replacement_broadcasted = "being replaced"
onchain_send_str OnchainSendStatus.partially_replaced =
    "being replaced (replacement has 1-5 confirmations)"
onchain_send_str OnchainSendStatus.fully_confirmed = "fully confirmed (6+ confirmations)"
onchain_send_str OnchainSendStatus.fully_replaced =
    "fully replaced (replacement has 6+ confirmations)"
onchain_send_str OnchainSendStatus.dropped = "dropped from mempool"

onchain_receive_str : OnchainReceiveStatus → String
onchain_receive_str OnchainReceiveStatus.zeroconf = "in mempool awaiting confirmations"
onchain_receive_str OnchainReceiveStatus.partially_confirmed =
    "partially confirmed (1-5 confirmations)"
onchain_receive_str OnchainReceiveStatus.partially_replaced =
    "being replaced (replacement has 1-5 confirmations)"
onchain_receive_str OnchainReceiveStatus.fully_confirmed = "fully confirmed (6+ confirmations)"
onchain_receive_str OnchainReceiveStatus.fully_replaced =
    "fully replaced (replacement has 6+ confirmations)"
onchain_receive_str OnchainReceiveStatus.dropped = "dropped from mempool"

inbound_invoice_str : InboundInvoicePaymentStatus → String
inbound_invoice_str InboundInvoicePaymentStatus.invoice_generated = "invoice generated"
inbound_invoice_str InboundInvoicePaymentStatus.claiming = "claiming"
inbound_invoice_str InboundInvoicePaymentStatus.completed = "completed"
inbound_invoice_str InboundInvoicePaymentStatus.expired = "invoice expired"

inbound_spontaneous_str : InboundSpontaneousPaymentStatus → String
inbound_spontaneous_str InboundSpontaneousPaymentStatus.claiming = "claiming"
inbound_spontaneous_str InboundSpontaneousPaymentStatus.completed = "completed"

outbound_invoice_str : OutboundInvoicePaymentStatus → String
outbound_invoice_str OutboundInvoicePaymentStatus.pending = "pending"
outbound_invoice_str OutboundInvoicePaymentStatus.abandoning = "abandoning"
outbound_invoice_str OutboundInvoicePaymentStatus.completed = "completed"
outbound_invoice_str OutboundInvoicePaymentStatus.failed = "failed"

outbound_spontaneous_str : OutboundSpontaneousPaymentStatus → String
outbound_spontaneous_str OutboundSpontaneousPaymentStatus.pending = "pending"
outbound_spontaneous_str OutboundSpontaneousPaymentStatus.completed = "completed"
outbound_spontaneous_str OutboundSpontaneousPaymentStatus.failed = "failed"

failure_str : LxOutboundPaymentFailure → String
failure_str LxOutboundPaymentFailure.no_retries = "no successful payment after all retry attempts"
failure_str LxOutboundPaymentFailure.rejected = "the recipient rejected our payment"
failure_str LxOutboundPaymentFailure.abandoned = "the payment was canceled"
failure_str LxOutboundPaymentFailure.expired =
    "the invoice expired before we could complete the payment"
failure_str LxOutboundPaymentFailure.no_route = "could not find usable route to send payment over"
failure_str LxOutboundPaymentFailure.lexe_err = "probable bug in LEXE user node payment router"
failure_str LxOutboundPaymentFailure.unknown = "unknown error, app is likely out-of-date"

outbound_str : Option LxOutboundPaymentFailure → OutboundInvoicePaymentStatus → String
unfolding failure_str outbound_invoice_str
outbound_str none status = outbound_invoice_str status
outbound_str (some failure) status = failure_str failure

module _ {Invoice Tx : Type 0} where
  unfoldable pub payment_status_str : Payment Invoice Tx → String
  unfolding onchain_send_str onchain_receive_str inbound_invoice_str inbound_spontaneous_str
      outbound_str outbound_spontaneous_str
  payment_status_str (onchain_send os) = onchain_send_str os.status
  payment_status_str (onchain_receive r) = onchain_receive_str r.status
  payment_status_str (inbound_invoice iip) = inbound_invoice_str iip.status
  payment_status_str (inbound_spontaneous isp) = inbound_spontaneous_str isp.status
  payment_status_str (outbound_invoice oip) = outbound_str oip.failure oip.status
  payment_status_str (outbound_spontaneous osp) = outbound_spontaneous_str osp.status

  unfoldable pub basic_payment : Payment Invoice Tx → BasicPayment Invoice
  basic_payment p = record {
    index = payment_index p;
    kind = payment_kind p;
    direction = payment_direction p;
    invoice = payment_invoice p;
    replacement = payment_replacement p;
    amount = payment_amount p;
    fees = payment_fees p;
    status = payment_status p;
    status_str = payment_status_str p;
    note = payment_note p;
    finalized_at = payment_finalized_at p;
  }
