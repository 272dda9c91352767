-- ===== src/Payments/AppView/Received.antt =====
-- An inbound invoice payment without an amount, from its invoice to its completion, as the app's
-- database follows it (lexe-ln/src/payments/inbound.rs, app-rs/src/payments.rs).
use lexe_public.Base.{
  ℕ, true, false, none, some, is_some, ◌≡◌, refl, ◌∙◌, ap, get_elem?, ok, err, arith,
}
use lexe_public.Ids.{Bytes, TimestampMs}
use lexe_public.Payments.Library.{Library}
use lexe_public.Payments.Inbound.{
  InboundInvoicePayment, InboundInvoicePaymentStatus, iip_check_payment_claimable,
  iip_check_payment_claimed,
}
use lexe_public.Payments.Payment.{
  inbound_invoice, payment_status, payment_amount, payment_kind, payment_direction, payment_index,
  payment_id, payment_created_at, payment_note, payment_invoice,
}
use lexe_public.Payments.AppView.{basic_payment}
use lexe_public.PaymentDb.Basic.{
  BasicPayment, Descriptions, is_pending, is_junk, note_or_description, description_str,
}
use lexe_public.PaymentDb.Bitmap.{Bitmap, BitmapLaws}
use lexe_public.PaymentDb.Invariant.{IsConsistent}
use lexe_public.PaymentDb.Storage.{Ffs, PaymentDb, write_payment}
use lexe_public.PaymentDb.Update.{panic, update_pending_payment}
use lexe_public.PaymentDb.Update.Junk.{update_pending_payment_panics}

module _ {Invoice : Type 0} where
  -- What a check that succeeds makes of the payment.
  claimed_is :
      (p q : InboundInvoicePayment Invoice) (hash secret preimage : Bytes) (amount : ℕ)
      (now : TimestampMs)
      → iip_check_payment_claimed p hash secret preimage amount now ≡ ok q
      → q ≡ record p {
        recvd_amount = some amount;
        status = InboundInvoicePaymentStatus.completed;
        finalized_at = some now;
      }
  unfolding iip_check_payment_claimed
  claimed_is p q hash secret preimage amount now h = ground (arith, h)

module _ {Invoice Tx : Type 0} where
  claimable_is :
      (lib : Library Invoice Tx) (p q : InboundInvoicePayment Invoice)
      (hash secret preimage : Bytes) (amount : ℕ) (now : TimestampMs)
      → iip_check_payment_claimable lib p hash secret preimage amount now ≡ ok q
      → q ≡ record p { recvd_amount = some amount; status = InboundInvoicePaymentStatus.claiming }
  unfolding iip_check_payment_claimable
  claimable_is lib p q hash secret preimage amount now h = ground (arith, h)

module _ {Invoice : Type 0} (Tx : Type 0) where
  -- The invoice payment as the app gets it.
  abbrev pub view : InboundInvoicePayment Invoice → BasicPayment Invoice
  view p = basic_payment {Tx = Tx} (inbound_invoice p)

module _ {Invoice : Type 0} (Tx : Type 0) (text : Descriptions Invoice) where
  generated_is_junk :
      (p : InboundInvoicePayment Invoice)
      → p.status ≡ InboundInvoicePaymentStatus.invoice_generated
      → p.invoice_amount ≡ none
      → p.recvd_amount ≡ none
      → (is_pending (view Tx p) ≡ true) × (is_junk text (view Tx p) ≡ true)
  unfolding is_pending is_junk basic_payment payment_status payment_amount payment_kind
      payment_direction
  generated_is_junk p s a r = rw (s, a, r) (refl, refl)

  claiming_is_not_junk :
      (p : InboundInvoicePayment Invoice) (amount : ℕ)
      → p.note ≡ none
      → is_some (description_str text p.invoice) ≡ true
      → (is_pending (
            view Tx record p {
              recvd_amount = some amount;
              status = InboundInvoicePaymentStatus.claiming;
            })
          ≡ true)
        × (is_junk text (
              view Tx record p {
                recvd_amount = some amount;
                status = InboundInvoicePaymentStatus.claiming;
              })
            ≡ false)
  unfolding is_pending is_junk note_or_description basic_payment payment_status payment_amount
      payment_kind payment_direction payment_note payment_invoice
  claiming_is_not_junk p amount n d = rw (n, d) (refl, refl)

module _ {Invoice Tx B D : Type 0} (lib : Library Invoice Tx) (bm : Bitmap B) (laws : BitmapLaws bm)
    (text : Descriptions Invoice) (ffs : Ffs Invoice D)
    (same_payment : Discrete (BasicPayment Invoice)) where
  -- Let the app's consistent database hold an inbound invoice payment as the node first
  -- reports it, generated, with a description but no note and no amount. If the node's check
  -- of a claimable payment and then its check of the claimed payment succeed on it, every
  -- write of the app succeeds, and the app is updated after the first check and again after
  -- the second, then the second update panics.
  pub received_payment_panics :
      (db : PaymentDb Invoice B D) (v : ℕ)
      (generated claiming completed : InboundInvoicePayment Invoice) (hash secret preimage : Bytes)
      (amount : ℕ) (claimed_at completed_at : TimestampMs)
      → IsConsistent bm text db.state
      → get_elem? db.state.payments v ≡ some (view Tx generated)
      → generated.status ≡ InboundInvoicePaymentStatus.invoice_generated
      → generated.invoice_amount ≡ none
      → generated.recvd_amount ≡ none
      → generated.note ≡ none
      → is_some (description_str text generated.invoice) ≡ true
      → iip_check_payment_claimable lib generated hash secret preimage amount claimed_at
        ≡ ok claiming
      → iip_check_payment_claimed claiming hash secret preimage amount completed_at ≡ ok completed
      → ((d : D) (p : BasicPayment Invoice) → (write_payment ffs d p).1 ≡ true)
      → (update_pending_payment bm text ffs same_payment
          (update_pending_payment bm text ffs same_payment db (view Tx claiming)).0
          (view Tx completed)).1
        ≡ err panic
  unfolding is_pending basic_payment payment_status payment_index payment_id payment_created_at
  received_payment_panics db v p q r hash secret preimage amount t u c there s a n note_none d
        claimable claimed writes =
      let (was, junk) = generated_is_junk Tx text p s a n in
      let (still, not_junk) = claiming_is_not_junk Tx text p amount note_none d in
      let first = claimable_is lib p q hash secret preimage amount t claimable in
      let second = claimed_is q r hash secret preimage amount u claimed in
      let first_index = ap (λ (x : InboundInvoicePayment Invoice). (view Tx x).index) first in
      let second_index = ap (λ (x : InboundInvoicePayment Invoice). (view Tx x).index) second in
      update_pending_payment_panics bm laws text ffs same_payment db v (view Tx p) (view Tx q)
        (view Tx r) c there was junk
        (ap (λ (x : InboundInvoicePayment Invoice). is_pending (view Tx x)) first ∙ still)
        (ap (λ (x : InboundInvoicePayment Invoice). is_junk text (view Tx x)) first ∙ not_junk)
        first_index (ap (λ (x : InboundInvoicePayment Invoice). is_pending (view Tx x)) second)
        (second_index ∙ first_index) (writes db.ffs (view Tx q))
        (writes (update_pending_payment bm text ffs same_payment db (view Tx q)).0.ffs (view Tx r))
