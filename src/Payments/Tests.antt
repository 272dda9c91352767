-- ===== src/Payments/Tests.antt =====
-- Concrete payments and a memory that holds one; the children run the code on them and apply the
-- theorems to them.
mod Runs
mod Checks
mod View
use lexe_public.Base.{
  ℕ, true, false, none, some, List, [], ◌∷◌, ◌≡◌, refl, ◌⊎◌, ok, err, ltb, ℕ_discrete,
}
use lexe_public.Base.Maps.{get, contains}
use lexe_public.Ids.{Bytes, Bytes-discrete, LxPaymentId-discrete, lightning}
use lexe_public.Payments.Library.{Library, persist_failed}
use lexe_public.Payments.Inbound.{
  PaymentPurpose, InboundInvoicePayment, InboundInvoicePaymentStatus, new_inbound_invoice,
  iip_check_payment_claimed, try_from_purpose,
}
use lexe_public.Payments.Payment.{Payment, inbound_invoice, assert_invariants}
use lexe_public.Payments.Soundness.{IsSound}
use lexe_public.Payments.Manager.{PaymentsData, check_payment_claimed}
use lexe_public.Payments.Manager.Handlers.{payment_claimed, payment_claimable, persist_commit}
use lexe_public.Payments.Manager.Events.{Event, registers, claimable, claimed, run, step}
use lexe_public.Payments.Manager.Storage.{Follows}
use lexe_public.Payments.Manager.Histories.{empty-Refines, run-Follows, never_claimed_twice}
use lexe_public.Payments.Manager.Errors.{Untouched, step_error-Untouched}
use lexe_public.Payments.Outbound.{OutboundInvoicePayment, new_outbound_invoice}
use lexe_public.Payments.Onchain.{OnchainSend, ConfirmationPriority, new_onchain_send}
use lexe_public.Payments.Payment.{onchain_send, outbound_invoice}

-- An invoice is the time at which it expires, and a transaction its own id.
abbrev pub sample_library : Library ℕ Bytes
sample_library = record {
  amount_milli_satoshis = λ i. some 1000;
  payment_hash = λ i. 1 ∷ [];
  payment_secret = λ i. 2 ∷ [];
  is_expired = λ i now. ltb i now;
  would_expire = λ i t. ltb i t;
  txid = λ t. t;
  sha256 = λ b. b;
}

abbrev pub sample_invoice : InboundInvoicePayment ℕ
sample_invoice = record {
  invoice = 50;
  hash = 1 ∷ [];
  secret = 2 ∷ [];
  preimage = 3 ∷ [];
  invoice_amount = some 1000;
  recvd_amount = none;
  onchain_fees = none;
  status = InboundInvoicePaymentStatus.invoice_generated;
  note = none;
  created_at = 7;
  finalized_at = none;
}

abbrev pub sample_payment : Payment ℕ Bytes
sample_payment = inbound_invoice sample_invoice

abbrev pub sample_purpose : PaymentPurpose
sample_purpose = PaymentPurpose.invoice_payment (some (3 ∷ [])) (2 ∷ [])

abbrev pub sample_data : PaymentsData ℕ Bytes
sample_data = record { pending = (lightning (1 ∷ []), sample_payment) ∷ []; finalized = [] }

abbrev pub empty_data : PaymentsData ℕ Bytes
empty_data = record { pending = []; finalized = [] }

sample_created :
    inbound_invoice (new_inbound_invoice sample_library 50 (1 ∷ []) (2 ∷ []) (3 ∷ []) 7)
    ≡ sample_payment
unfolding new_inbound_invoice
sample_created = refl

pub sample-IsSound : IsSound sample_payment
unfolding assert_invariants
sample-IsSound = record { stamped = refl; fields = refl }

abbrev pub sample_history : List (Event ℕ Bytes)
sample_history =
    registers sample_payment true
    ∷ claimable (1 ∷ []) 1000 sample_purpose 20 false
    ∷ claimable (1 ∷ []) 1000 sample_purpose 21 true
    ∷ claimed (1 ∷ []) 1000 sample_purpose 22 true
    ∷ []

abbrev pub sample_send : OnchainSend Bytes
sample_send =
    new_onchain_send {Invoice = ℕ} sample_library (9 ∷ []) (4 ∷ []) 700 ConfirmationPriority.normal
      none 5 7

abbrev pub sample_pay : OutboundInvoicePayment ℕ
sample_pay = new_outbound_invoice sample_library 50 900 4 none 7

pub send-IsSound : IsSound {Invoice = ℕ} (onchain_send sample_send)
unfolding assert_invariants new_onchain_send
send-IsSound = record { stamped = refl; fields = refl }

pub pay-IsSound : IsSound {Tx = Bytes} (outbound_invoice sample_pay)
unfolding assert_invariants new_outbound_invoice
pay-IsSound = record { stamped = refl; fields = (refl, refl) }
