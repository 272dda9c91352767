-- ===== src/Payments/Inbound.antt =====
-- Inbound Lightning payments (lexe-ln/src/payments/inbound.rs). A method returns the changed clone;
-- the clock that it reads is the argument `now`. Log lines are left out.
use lexe_public.Base.{
  ℕ, Bool, true, false, not, Option, none, some, String, Result, ok, err, ◌>>=◌, ◌>>◌, ensure,
  context, ◌==◌,
}
use lexe_public.Ids.{Bytes, TimestampMs, same}
use lexe_public.Payments.Library.{
  Library, Error, hashes_differ, preimages_differ, secrets_differ, amounts_differ,
  invoice_has_expired, already_final, already_claimed, already_expired, purpose_without_preimage,
}

-- `PaymentPurpose` of LDK: the preimage of an invoice payment may be missing.
pub data PaymentPurpose : Type 0 where
  invoice_payment : Option Bytes → Bytes → PaymentPurpose
  spontaneous_payment : Bytes → PaymentPurpose

pub data LxPaymentPurpose : Type 0 where
  invoice : (preimage : Bytes) → (secret : Bytes) → LxPaymentPurpose
  spontaneous : (preimage : Bytes) → LxPaymentPurpose

unfoldable pub purpose_preimage : LxPaymentPurpose → Bytes
purpose_preimage (invoice preimage secret) = preimage
purpose_preimage (spontaneous preimage) = preimage

unfoldable pub try_from_purpose : PaymentPurpose → Result Error LxPaymentPurpose
try_from_purpose (invoice_payment payment_preimage secret) = do
  preimage ← context payment_preimage purpose_without_preimage
  ok (invoice preimage secret)
try_from_purpose (spontaneous_payment preimage) = ok (spontaneous preimage)

pub data InboundInvoicePaymentStatus : Type 0 where
  invoice_generated claiming completed expired : InboundInvoicePaymentStatus

pub record InboundInvoicePayment (Invoice : Type 0) : Type 0 where
  pub invoice : Invoice
  pub hash : Bytes
  pub secret : Bytes
  pub preimage : Bytes
  pub invoice_amount : Option ℕ
  pub recvd_amount : Option ℕ
  pub onchain_fees : Option ℕ
  pub status : InboundInvoicePaymentStatus
  pub note : Option String
  pub created_at : TimestampMs
  pub finalized_at : Option TimestampMs

pub data InboundSpontaneousPaymentStatus : Type 0 where
  claiming completed : InboundSpontaneousPaymentStatus

pub record InboundSpontaneousPayment : Type 0 where
  pub hash : Bytes
  pub preimage : Bytes
  pub amount : ℕ
  pub onchain_fees : Option ℕ
  pub status : InboundSpontaneousPaymentStatus
  pub note : Option String
  pub created_at : TimestampMs
  pub finalized_at : Option TimestampMs

-- The `match self.status` of the two checks on an invoice payment.
claimable_status : InboundInvoicePaymentStatus → Result Error (Unit {0})
claimable_status invoice_generated = ok tt
claimable_status claiming = ok tt
claimable_status completed = err already_final
claimable_status expired = err already_final

claimed_status : InboundInvoicePaymentStatus → Result Error (Unit {0})
claimed_status invoice_generated = ok tt
claimed_status claiming = ok tt
claimed_status completed = err already_claimed
claimed_status expired = err already_expired

expirable_status : InboundInvoicePaymentStatus → Bool
expirable_status invoice_generated = true
expirable_status claiming = false
expirable_status completed = false
expirable_status expired = false

module _ {Invoice Tx : Type 0} (lib : Library Invoice Tx) where
  unfoldable pub new_inbound_invoice :
      Invoice → Bytes → Bytes → Bytes → TimestampMs → InboundInvoicePayment Invoice
  new_inbound_invoice inv hash secret preimage now = record {
    invoice = inv;
    hash = hash;
    secret = secret;
    preimage = preimage;
    invoice_amount = lib.amount_milli_satoshis inv;
    recvd_amount = none;
    onchain_fees = none;
    status = invoice_generated;
    note = none;
    created_at = now;
    finalized_at = none;
  }

  unfoldable pub iip_check_payment_claimable :
      InboundInvoicePayment Invoice
      → Bytes
      → Bytes
      → Bytes
      → ℕ
      → TimestampMs
      → Result Error (InboundInvoicePayment Invoice)
  unfolding claimable_status
  iip_check_payment_claimable p hash secret preimage amount now = do
    ensure (same hash p.hash) hashes_differ
    ensure (same preimage p.preimage) preimages_differ
    ensure (same secret p.secret) secrets_differ
    ensure (not (lib.is_expired p.invoice now)) invoice_has_expired
    claimable_status p.status
    ok (record p { recvd_amount = some amount; status = claiming })

  unfoldable pub iip_check_invoice_expiry :
      InboundInvoicePayment Invoice → ℕ → TimestampMs → Option (InboundInvoicePayment Invoice)
  unfolding expirable_status
  iip_check_invoice_expiry p unix_duration now = elim (lib.would_expire p.invoice unix_duration) [
    | false ↦ none
    | true ↦ elim (expirable_status p.status) [
      | true ↦ some (record p { status = expired; finalized_at = some now })
      | false ↦ none
    ]
  ]

unfoldable pub iip_check_payment_claimed :
    {Invoice : Type 0}
    → InboundInvoicePayment Invoice
    → Bytes
    → Bytes
    → Bytes
    → ℕ
    → TimestampMs
    → Result Error (InboundInvoicePayment Invoice)
unfolding claimed_status
iip_check_payment_claimed p hash secret preimage amount now = do
  ensure (same hash p.hash) hashes_differ
  ensure (same preimage p.preimage) preimages_differ
  ensure (same secret p.secret) secrets_differ
  claimed_status p.status
  ok (record p { recvd_amount = some amount; status = completed; finalized_at = some now })

unfoldable pub new_inbound_spontaneous : Bytes → Bytes → ℕ → TimestampMs → InboundSpontaneousPayment
new_inbound_spontaneous hash preimage amount now = record {
  hash = hash;
  preimage = preimage;
  amount = amount;
  onchain_fees = none;
  status = claiming;
  note = none;
  created_at = now;
  finalized_at = none;
}

isp_is_claiming : InboundSpontaneousPaymentStatus → Bool
isp_is_claiming claiming = true
isp_is_claiming completed = false

unfoldable pub isp_check_payment_claimable :
    InboundSpontaneousPayment → Bytes → Bytes → ℕ → Result Error InboundSpontaneousPayment
unfolding isp_is_claiming
isp_check_payment_claimable p hash preimage amount = do
  ensure (same hash p.hash) hashes_differ
  ensure (amount == p.amount) amounts_differ
  ensure (same preimage p.preimage) preimages_differ
  ensure (isp_is_claiming p.status) already_final
  ok p

unfoldable pub isp_check_payment_claimed :
    InboundSpontaneousPayment
    → Bytes
    → Bytes
    → ℕ
    → TimestampMs
    → Result Error InboundSpontaneousPayment
unfolding isp_is_claiming
isp_check_payment_claimed p hash preimage amount now = do
  ensure (same hash p.hash) hashes_differ
  ensure (same preimage p.preimage) preimages_differ
  ensure (amount == p.amount) amounts_differ
  ensure (isp_is_claiming p.status) already_claimed
  ok (record p { status = completed; finalized_at = some now })
