-- ===== src/Payments/Outbound.antt =====
-- Outbound Lightning payments (lexe-ln/src/payments/outbound.rs). A method returns the changed clone;
-- the clock that it reads is the argument `now`. Log lines are left out.
use lexe_public.Base.{
  ℕ, Bool, true, false, Option, none, some, String, Result, ok, err, ◌>>◌, ensure,
}
use lexe_public.Ids.{Bytes, TimestampMs, same}
use lexe_public.Payments.Library.{
  Library, Error, hashes_differ, preimage_not_of_hash, already_final,
}

pub data OutboundInvoicePaymentStatus : Type 0 where
  pending abandoning completed failed : OutboundInvoicePaymentStatus

pub data OutboundSpontaneousPaymentStatus : Type 0 where
  pending completed failed : OutboundSpontaneousPaymentStatus

pub data LxOutboundPaymentFailure : Type 0 where
  no_retries rejected abandoned expired no_route lexe_err unknown : LxOutboundPaymentFailure

-- `PaymentFailureReason` of LDK.
pub data PaymentFailureReason : Type 0 where
  recipient_rejected user_abandoned retries_exhausted : PaymentFailureReason
  payment_expired route_not_found unexpected_error : PaymentFailureReason

unfoldable pub from_failure_reason : PaymentFailureReason → LxOutboundPaymentFailure
from_failure_reason recipient_rejected = rejected
from_failure_reason user_abandoned = abandoned
from_failure_reason retries_exhausted = no_retries
from_failure_reason payment_expired = expired
from_failure_reason route_not_found = no_route
from_failure_reason unexpected_error = lexe_err

pub record OutboundInvoicePayment (Invoice : Type 0) : Type 0 where
  pub invoice : Invoice
  pub hash : Bytes
  pub secret : Bytes
  pub preimage : Option Bytes
  pub amount : ℕ
  pub fees : ℕ
  pub status : OutboundInvoicePaymentStatus
  pub failure : Option LxOutboundPaymentFailure
  pub note : Option String
  pub created_at : TimestampMs
  pub finalized_at : Option TimestampMs

pub record OutboundSpontaneousPayment : Type 0 where
  pub hash : Bytes
  pub preimage : Bytes
  pub amount : ℕ
  pub fees : ℕ
  pub status : OutboundSpontaneousPaymentStatus
  pub note : Option String
  pub created_at : TimestampMs
  pub finalized_at : Option TimestampMs

-- The `match self.status` of `check_payment_sent` and `check_payment_failed`.
not_final : OutboundInvoicePaymentStatus → Result Error (Unit {0})
not_final OutboundInvoicePaymentStatus.pending = ok tt
not_final abandoning = ok tt
not_final OutboundInvoicePaymentStatus.completed = err already_final
not_final OutboundInvoicePaymentStatus.failed = err already_final

is_initiated : OutboundInvoicePaymentStatus → Bool
is_initiated OutboundInvoicePaymentStatus.pending = true
is_initiated abandoning = false
is_initiated OutboundInvoicePaymentStatus.completed = false
is_initiated OutboundInvoicePaymentStatus.failed = false

-- `maybe_fees_paid.unwrap_or_else(|| *estimated_fees)`
final_fees : Option ℕ → ℕ → ℕ
final_fees (some fees_paid) estimated_fees = fees_paid
final_fees none estimated_fees = estimated_fees

module _ {Invoice Tx : Type 0} (lib : Library Invoice Tx) where
  -- The route's totals, which LDK computes, are arguments.
  unfoldable pub new_outbound_invoice :
      Invoice → ℕ → ℕ → Option String → TimestampMs → OutboundInvoicePayment Invoice
  new_outbound_invoice inv total_amount total_fees note now = record {
    invoice = inv;
    hash = lib.payment_hash inv;
    secret = lib.payment_secret inv;
    preimage = none;
    amount = total_amount;
    fees = total_fees;
    status = OutboundInvoicePaymentStatus.pending;
    failure = none;
    note = note;
    created_at = now;
    finalized_at = none;
  }

  unfoldable pub oip_check_payment_sent :
      OutboundInvoicePayment Invoice
      → Bytes
      → Bytes
      → Option ℕ
      → TimestampMs
      → Result Error (OutboundInvoicePayment Invoice)
  unfolding not_final final_fees
  oip_check_payment_sent p hash preimage maybe_fees_paid now = do
    ensure (same hash p.hash) hashes_differ
    ensure (same hash (lib.sha256 preimage)) preimage_not_of_hash
    not_final p.status
    ok (record p {
      preimage = some preimage;
      fees = final_fees maybe_fees_paid p.fees;
      status = OutboundInvoicePaymentStatus.completed;
      finalized_at = some now;
    })

  unfoldable pub oip_check_invoice_expiry :
      OutboundInvoicePayment Invoice → ℕ → Option (OutboundInvoicePayment Invoice)
  unfolding is_initiated
  oip_check_invoice_expiry p unix_duration = elim (lib.would_expire p.invoice unix_duration) [
    | false ↦ none
    | true ↦ elim (is_initiated p.status) [
      | true ↦ some (record p { status = abandoning })
      | false ↦ none
    ]
  ]

unfoldable pub oip_check_payment_failed :
    {Invoice : Type 0}
    → OutboundInvoicePayment Invoice
    → Bytes
    → LxOutboundPaymentFailure
    → TimestampMs
    → Result Error (OutboundInvoicePayment Invoice)
unfolding not_final
oip_check_payment_failed p hash reason now = do
  ensure (same hash p.hash) hashes_differ
  not_final p.status
  ok (record p {
    status = OutboundInvoicePaymentStatus.failed;
    failure = some reason;
    finalized_at = some now;
  })
