-- ===== src/Payments/Payment.antt =====
-- The sum of all payment kinds and its getters (lexe-ln/src/payments/mod.rs).
use lexe_public.Base.{ℕ, Bool, true, false, Option, none, some, String}
use lexe_public.Ids.{
  Bytes, TimestampMs, LxPaymentId, lightning, PaymentIndex, PaymentKind, PaymentDirection,
  PaymentStatus,
}
use lexe_public.Payments.Inbound.{
  InboundInvoicePayment, InboundSpontaneousPayment, InboundInvoicePaymentStatus,
  InboundSpontaneousPaymentStatus,
}
use lexe_public.Payments.Outbound.{
  OutboundInvoicePayment, OutboundSpontaneousPayment, OutboundInvoicePaymentStatus,
  OutboundSpontaneousPaymentStatus,
}
use lexe_public.Payments.Onchain.{
  OnchainSend, OnchainReceive, OnchainSendStatus, OnchainReceiveStatus,
}

pub data Payment (Invoice Tx : Type 0) : Type 0 where
  onchain_send : OnchainSend Tx → Payment Invoice Tx
  onchain_receive : OnchainReceive Tx → Payment Invoice Tx
  inbound_invoice : InboundInvoicePayment Invoice → Payment Invoice Tx
  inbound_spontaneous : InboundSpontaneousPayment → Payment Invoice Tx
  outbound_invoice : OutboundInvoicePayment Invoice → Payment Invoice Tx
  outbound_spontaneous : OutboundSpontaneousPayment → Payment Invoice Tx

-- `From<…Status> for PaymentStatus`
unfoldable pub from_onchain_send : OnchainSendStatus → PaymentStatus
from_onchain_send OnchainSendStatus.created = PaymentStatus.pending
from_onchain_send OnchainSendStatus.broadcasted = PaymentStatus.pending
from_onchain_send OnchainSendStatus.partially_confirmed = PaymentStatus.pending
from_onchain_send OnchainSendStatus.replacement_broadcasted = PaymentStatus.pending
from_onchain_send OnchainSendStatus.partially_replaced = PaymentStatus.pending
from_onchain_send OnchainSendStatus.fully_confirmed = PaymentStatus.completed
from_onchain_send OnchainSendStatus.fully_replaced = PaymentStatus.failed
from_onchain_send OnchainSendStatus.dropped = PaymentStatus.failed

unfoldable pub from_onchain_receive : OnchainReceiveStatus → PaymentStatus
from_onchain_receive OnchainReceiveStatus.zeroconf = PaymentStatus.pending
from_onchain_receive OnchainReceiveStatus.partially_confirmed = PaymentStatus.pending
from_onchain_receive OnchainReceiveStatus.partially_replaced = PaymentStatus.pending
from_onchain_receive OnchainReceiveStatus.fully_confirmed = PaymentStatus.completed
from_onchain_receive OnchainReceiveStatus.fully_replaced = PaymentStatus.failed
from_onchain_receive OnchainReceiveStatus.dropped = PaymentStatus.failed

unfoldable pub from_inbound_invoice : InboundInvoicePaymentStatus → PaymentStatus
from_inbound_invoice InboundInvoicePaymentStatus.invoice_generated = PaymentStatus.pending
from_inbound_invoice InboundInvoicePaymentStatus.claiming = PaymentStatus.pending
from_inbound_invoice InboundInvoicePaymentStatus.completed = PaymentStatus.completed
from_inbound_invoice InboundInvoicePaymentStatus.expired = PaymentStatus.failed

unfoldable pub from_inbound_spontaneous : InboundSpontaneousPaymentStatus → PaymentStatus
from_inbound_spontaneous InboundSpontaneousPaymentStatus.claiming = PaymentStatus.pending
from_inbound_spontaneous InboundSpontaneousPaymentStatus.completed = PaymentStatus.completed

unfoldable pub from_outbound_invoice : OutboundInvoicePaymentStatus → PaymentStatus
from_outbound_invoice OutboundInvoicePaymentStatus.pending = PaymentStatus.pending
from_outbound_invoice OutboundInvoicePaymentStatus.abandoning = PaymentStatus.pending
from_outbound_invoice OutboundInvoicePaymentStatus.completed = PaymentStatus.completed
from_outbound_invoice OutboundInvoicePaymentStatus.failed = PaymentStatus.failed

unfoldable pub from_outbound_spontaneous : OutboundSpontaneousPaymentStatus → PaymentStatus
from_outbound_spontaneous OutboundSpontaneousPaymentStatus.pending = PaymentStatus.pending
from_outbound_spontaneous OutboundSpontaneousPaymentStatus.completed = PaymentStatus.completed
from_outbound_spontaneous OutboundSpontaneousPaymentStatus.failed = PaymentStatus.failed

-- `Option::or` and `Option::unwrap_or`.
abbrev or_option : {A : Type 0} → Option A → Option A → Option A
or_option (some a) b = some a
or_option none b = b

abbrev unwrap_or : {A : Type 0} → Option A → A → A
unwrap_or (some a) b = a
unwrap_or none b = b

module _ {Invoice Tx : Type 0} where
  unfoldable pub payment_id : Payment Invoice Tx → LxPaymentId
  payment_id (onchain_send os) = LxPaymentId.onchain_send os.cid
  payment_id (onchain_receive r) = LxPaymentId.onchain_recv r.txid
  payment_id (inbound_invoice iip) = lightning iip.hash
  payment_id (inbound_spontaneous isp) = lightning isp.hash
  payment_id (outbound_invoice oip) = lightning oip.hash
  payment_id (outbound_spontaneous osp) = lightning osp.hash

  unfoldable pub payment_kind : Payment Invoice Tx → PaymentKind
  payment_kind (onchain_send os) = PaymentKind.onchain
  payment_kind (onchain_receive r) = PaymentKind.onchain
  payment_kind (inbound_invoice iip) = PaymentKind.invoice
  payment_kind (inbound_spontaneous isp) = PaymentKind.spontaneous
  payment_kind (outbound_invoice oip) = PaymentKind.invoice
  payment_kind (outbound_spontaneous osp) = PaymentKind.spontaneous

  unfoldable pub payment_direction : Payment Invoice Tx → PaymentDirection
  payment_direction (onchain_send os) = PaymentDirection.outbound
  payment_direction (onchain_receive r) = PaymentDirection.inbound
  payment_direction (inbound_invoice iip) = PaymentDirection.inbound
  payment_direction (inbound_spontaneous isp) = PaymentDirection.inbound
  payment_direction (outbound_invoice oip) = PaymentDirection.outbound
  payment_direction (outbound_spontaneous osp) = PaymentDirection.outbound

  unfoldable pub payment_invoice : Payment Invoice Tx → Option Invoice
  payment_invoice (onchain_send os) = none
  payment_invoice (onchain_receive r) = none
  payment_invoice (inbound_invoice iip) = some iip.invoice
  payment_invoice (inbound_spontaneous isp) = none
  payment_invoice (outbound_invoice oip) = some oip.invoice
  payment_invoice (outbound_spontaneous osp) = none

  unfoldable pub payment_replacement : Payment Invoice Tx → Option Bytes
  payment_replacement (onchain_send os) = os.replacement
  payment_replacement (onchain_receive r) = r.replacement
  payment_replacement (inbound_invoice iip) = none
  payment_replacement (inbound_spontaneous isp) = none
  payment_replacement (outbound_invoice oip) = none
  payment_replacement (outbound_spontaneous osp) = none

  unfoldable pub payment_amount : Payment Invoice Tx → Option ℕ
  payment_amount (onchain_send os) = some os.amount
  payment_amount (onchain_receive r) = some r.amount
  payment_amount (inbound_invoice iip) = or_option iip.recvd_amount iip.invoice_amount
  payment_amount (inbound_spontaneous isp) = some isp.amount
  payment_amount (outbound_invoice oip) = some oip.amount
  payment_amount (outbound_spontaneous osp) = some osp.amount

  unfoldable pub payment_fees : Payment Invoice Tx → ℕ
  payment_fees (onchain_send os) = os.fees
  payment_fees (onchain_receive r) = 0
  payment_fees (inbound_invoice iip) = unwrap_or iip.onchain_fees 0
  payment_fees (inbound_spontaneous isp) = unwrap_or isp.onchain_fees 0
  payment_fees (outbound_invoice oip) = oip.fees
  payment_fees (outbound_spontaneous osp) = osp.fees

  unfoldable pub payment_status : Payment Invoice Tx → PaymentStatus
  unfolding from_onchain_send from_onchain_receive from_inbound_invoice from_inbound_spontaneous
      from_outbound_invoice from_outbound_spontaneous
  payment_status (onchain_send os) = from_onchain_send os.status
  payment_status (onchain_receive r) = from_onchain_receive r.status
  payment_status (inbound_invoice iip) = from_inbound_invoice iip.status
  payment_status (inbound_spontaneous isp) = from_inbound_spontaneous isp.status
  payment_status (outbound_invoice oip) = from_outbound_invoice oip.status
  payment_status (outbound_spontaneous osp) = from_outbound_spontaneous osp.status

  unfoldable pub payment_note : Payment Invoice Tx → Option String
  payment_note (onchain_send os) = os.note
  payment_note (onchain_receive r) = r.note
  payment_note (inbound_invoice iip) = iip.note
  payment_note (inbound_spontaneous isp) = isp.note
  payment_note (outbound_invoice oip) = oip.note
  payment_note (outbound_spontaneous osp) = osp.note

  unfoldable pub set_note : Payment Invoice Tx → Option String → Payment Invoice Tx
  set_note (onchain_send os) n = onchain_send (record os { note = n })
  set_note (onchain_receive r) n = onchain_receive (record r { note = n })
  set_note (inbound_invoice iip) n = inbound_invoice (record iip { note = n })
  set_note (inbound_spontaneous isp) n = inbound_spontaneous (record isp { note = n })
  set_note (outbound_invoice oip) n = outbound_invoice (record oip { note = n })
  set_note (outbound_spontaneous osp) n = outbound_spontaneous (record osp { note = n })

  unfoldable pub payment_created_at : Payment Invoice Tx → TimestampMs
  payment_created_at (onchain_send os) = os.created_at
  payment_created_at (onchain_receive r) = r.created_at
  payment_created_at (inbound_invoice iip) = iip.created_at
  payment_created_at (inbound_spontaneous isp) = isp.created_at
  payment_created_at (outbound_invoice oip) = oip.created_at
  payment_created_at (outbound_spontaneous osp) = osp.created_at

  unfoldable pub payment_finalized_at : Payment Invoice Tx → Option TimestampMs
  payment_finalized_at (onchain_send os) = os.finalized_at
  payment_finalized_at (onchain_receive r) = r.finalized_at
  payment_finalized_at (inbound_invoice iip) = iip.finalized_at
  payment_finalized_at (inbound_spontaneous isp) = isp.finalized_at
  payment_finalized_at (outbound_invoice oip) = oip.finalized_at
  payment_finalized_at (outbound_spontaneous osp) = osp.finalized_at

  unfoldable pub payment_index : Payment Invoice Tx → PaymentIndex
  payment_index p = record { created_at = payment_created_at p; id = payment_id p }

-- The condition that `assert_invariants` checks: a payment has a `finalized_at` iff it is final.
abbrev stamped : PaymentStatus → Option TimestampMs → Bool
stamped PaymentStatus.pending none = true
stamped PaymentStatus.pending (some t) = false
stamped PaymentStatus.completed none = false
stamped PaymentStatus.completed (some t) = true
stamped PaymentStatus.failed none = false
stamped PaymentStatus.failed (some t) = true

unfoldable pub assert_invariants : {Invoice Tx : Type 0} → Payment Invoice Tx → Bool
unfolding payment_status payment_finalized_at
assert_invariants p = stamped (payment_status p) (payment_finalized_at p)
