-- ===== src/Payments/Tests/View.antt =====
-- The receipt of a payment to an invoice without an amount, as the app's database follows it.
use lexe_public.Base.{ℕ, false, none, some, List, [], ◌∷◌, ◌≡◌, refl, err, arith, ℕ_discrete}
use lexe_public.Ids.{Bytes, Bytes-discrete, PaymentIndex}
use lexe_public.Payments.Library.{Library}
use lexe_public.Payments.Inbound.{
  InboundInvoicePayment, InboundInvoicePaymentStatus, iip_check_payment_claimable,
  iip_check_payment_claimed,
}
use lexe_public.Payments.Payment.{payment_status, payment_amount, payment_kind, payment_direction}
use lexe_public.Payments.AppView.{basic_payment}
use lexe_public.Payments.AppView.Received.{view, received_payment_panics}
use lexe_public.PaymentDb.Basic.{
  BasicPayment, Descriptions, cmp_index, is_strict_total_order, is_pending, is_finalized, is_junk,
  is_pending_not_junk, is_finalized_not_junk, description_str,
}
use lexe_public.PaymentDb.State.{as_u32, positions}
use lexe_public.PaymentDb.Invariant.{IsConsistent}
use lexe_public.PaymentDb.Storage.{PaymentDb, write_payment}
use lexe_public.PaymentDb.Update.{panic, update_pending_payment}
use lexe_public.PaymentDb.Tests.{list_bitmap, list_laws, roomy, Payment-discrete}

abbrev described_texts : Descriptions (Unit {0})
described_texts = record { direct_description = λ _. some "coffee"; is_empty = λ _. false }

abbrev unit_library : Library (Unit {0}) Bytes
unit_library = record {
  amount_milli_satoshis = λ i. none;
  payment_hash = λ i. 1 ∷ [];
  payment_secret = λ i. 2 ∷ [];
  is_expired = λ i now. false;
  would_expire = λ i t. false;
  txid = λ t. t;
  sha256 = λ b. b;
}

abbrev open_invoice : InboundInvoicePayment (Unit {0})
open_invoice = record {
  invoice = tt;
  hash = 1 ∷ [];
  secret = 2 ∷ [];
  preimage = 3 ∷ [];
  invoice_amount = none;
  recvd_amount = none;
  onchain_fees = none;
  status = InboundInvoicePaymentStatus.invoice_generated;
  note = none;
  created_at = 7;
  finalized_at = none;
}

abbrev open_claiming : InboundInvoicePayment (Unit {0})
open_claiming = record open_invoice {
  recvd_amount = some 500;
  status = InboundInvoicePaymentStatus.claiming;
}

abbrev open_completed : InboundInvoicePayment (Unit {0})
open_completed = record open_claiming {
  status = InboundInvoicePaymentStatus.completed;
  finalized_at = some 9;
}

abbrev open_db : PaymentDb (Unit {0}) (List ℕ) (List (PaymentIndex × BasicPayment (Unit {0})))
open_db = record {
  ffs = [];
  state = record {
    payments = view Bytes open_invoice ∷ [];
    pending = 0 ∷ [];
    pending_not_junk = [];
    finalized_not_junk = [];
  };
}

open_db-IsConsistent : IsConsistent list_bitmap described_texts open_db.state
unfolding is_strict_total_order cmp_index positions is_pending is_finalized is_junk
    is_pending_not_junk is_finalized_not_junk as_u32 basic_payment payment_status payment_amount
    payment_kind payment_direction
open_db-IsConsistent = record {
  sorted = refl;
  pending = refl;
  pending_not_junk = refl;
  finalized_not_junk = refl;
  fits = omega arith;
}

received_payment_panics_example :
    (update_pending_payment list_bitmap described_texts roomy Payment-discrete
      (update_pending_payment list_bitmap described_texts roomy Payment-discrete open_db
        (view Bytes open_claiming)).0
      (view Bytes open_completed)).1
    ≡ err panic
unfolding write_payment description_str iip_check_payment_claimable iip_check_payment_claimed
    Bytes-discrete ℕ_discrete
received_payment_panics_example =
    received_payment_panics unit_library list_bitmap list_laws described_texts roomy
      Payment-discrete open_db 0 open_invoice open_claiming open_completed (1 ∷ []) (2 ∷ [])
      (3 ∷ []) 500 8 9 open_db-IsConsistent refl refl refl refl refl refl refl refl (λ d p. refl)
