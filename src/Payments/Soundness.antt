-- ===== src/Payments/Soundness.antt =====
-- What holds of a single payment between two checks, and what a check may change.
use lexe_public.Base.{ℕ, Bool, true, false, Option, some, ◌≡◌, ok, is_some, arith}
use lexe_public.Ids.{Bytes, TimestampMs, PaymentStatus}
use lexe_public.Payments.Library.{Library}
use lexe_public.Payments.Inbound.{
  InboundInvoicePaymentStatus, LxPaymentPurpose, iip_check_payment_claimable,
  iip_check_payment_claimed, iip_check_invoice_expiry, isp_check_payment_claimable,
  isp_check_payment_claimed,
}
use lexe_public.Payments.Outbound.{
  OutboundInvoicePaymentStatus, LxOutboundPaymentFailure, oip_check_payment_sent,
  oip_check_payment_failed, oip_check_invoice_expiry,
}
use lexe_public.Payments.Onchain.{
  TxConfStatus, OnchainSendStatus, OnchainReceiveStatus, os_check_onchain_conf,
  or_check_onchain_conf, os_broadcasted,
}
use lexe_public.Payments.Payment.{
  Payment, onchain_send, onchain_receive, inbound_invoice, inbound_spontaneous, outbound_invoice,
  outbound_spontaneous, payment_id, payment_status, payment_created_at, assert_invariants,
}
use lexe_public.Payments.Manager.{
  payment_check_claimable, payment_check_claimed, payment_check_sent, payment_check_failed,
  payment_check_expiry, payment_check_conf,
}
use lexe_public.Payments.Manager.Handlers.{payment_broadcasted}

-- Whether money of an invoice has been received.
abbrev iip_received : InboundInvoicePaymentStatus → Bool
iip_received InboundInvoicePaymentStatus.invoice_generated = false
iip_received InboundInvoicePaymentStatus.claiming = true
iip_received InboundInvoicePaymentStatus.completed = true
iip_received InboundInvoicePaymentStatus.expired = false

abbrev oip_completed : OutboundInvoicePaymentStatus → Bool
oip_completed OutboundInvoicePaymentStatus.completed = true
oip_completed _ = false

abbrev oip_failed : OutboundInvoicePaymentStatus → Bool
oip_failed OutboundInvoicePaymentStatus.failed = true
oip_failed _ = false

abbrev os_replaced : OnchainSendStatus → Bool
os_replaced OnchainSendStatus.partially_replaced = true
os_replaced OnchainSendStatus.fully_replaced = true
os_replaced _ = false

abbrev or_replaced : OnchainReceiveStatus → Bool
or_replaced OnchainReceiveStatus.partially_replaced = true
or_replaced OnchainReceiveStatus.fully_replaced = true
or_replaced _ = false

module _ {Invoice Tx : Type 0} where
  -- The fields that are present exactly in certain states.
  abbrev pub FieldsMatch : Payment Invoice Tx → Type 0
  FieldsMatch (onchain_send os) = is_some os.replacement ≡ os_replaced os.status
  FieldsMatch (onchain_receive r) = is_some r.replacement ≡ or_replaced r.status
  FieldsMatch (inbound_invoice iip) = is_some iip.recvd_amount ≡ iip_received iip.status
  FieldsMatch (inbound_spontaneous isp) = Unit
  FieldsMatch (outbound_invoice oip) =
      (is_some oip.preimage ≡ oip_completed oip.status)
      × (is_some oip.failure ≡ oip_failed oip.status)
  FieldsMatch (outbound_spontaneous osp) = Unit

  pub record IsSound (p : Payment Invoice Tx) : Type 0 where
    pub stamped : assert_invariants p ≡ true
    pub fields : FieldsMatch p

  -- What an accepted check does: it starts from a pending payment, keeps its identity, and leaves a
  -- sound payment.
  pub record Advances (p q : Payment Invoice Tx) : Type 0 where
    pub was_pending : payment_status p ≡ PaymentStatus.pending
    pub same_id : payment_id q ≡ payment_id p
    pub same_created_at : payment_created_at q ≡ payment_created_at p
    pub sound : IsSound q

  -- If `check_payment_claimed` accepts a sound payment, the payment was pending, and the
  -- result has its id and its creation time and is sound.
  pub check_claimed-Advances :
      (p q : Payment Invoice Tx) (hash : Bytes) (amount : ℕ) (purpose : LxPaymentPurpose)
      (now : TimestampMs)
      → IsSound p
      → payment_check_claimed p hash amount purpose now ≡ ok q
      → Advances p q
  unfolding payment_check_claimed iip_check_payment_claimed isp_check_payment_claimed payment_status
      payment_id payment_created_at assert_invariants
  check_claimed-Advances (inbound_invoice iip) q hash amount (LxPaymentPurpose.invoice pre secret)
        now s e =
      ground arith
  check_claimed-Advances (inbound_spontaneous iip) q hash amount (LxPaymentPurpose.spontaneous pre)
        now s e =
      ground arith
  check_claimed-Advances _ q hash amount _ now s e = ground arith

  -- If `check_payment_failed` accepts a sound payment, the payment was pending, and the
  -- result has its id and its creation time and is sound.
  pub check_failed-Advances :
      (p q : Payment Invoice Tx) (hash : Bytes) (failure : LxOutboundPaymentFailure)
      (now : TimestampMs)
      → IsSound p
      → payment_check_failed p hash failure now ≡ ok q
      → Advances p q
  unfolding payment_check_failed oip_check_payment_failed payment_status payment_id
      payment_created_at assert_invariants
  check_failed-Advances (outbound_invoice oip) q hash failure now s e = ground arith
  check_failed-Advances _ q hash failure now s e = ground arith

  -- If `check_onchain_conf` changes a sound payment, the payment was pending, and the result
  -- has its id and its creation time and is sound.
  pub check_conf-Advances :
      (p q : Payment Invoice Tx) (conf : TxConfStatus) (now : TimestampMs)
      → IsSound p
      → payment_check_conf p conf now ≡ ok (some q)
      → Advances p q
  unfolding payment_check_conf os_check_onchain_conf or_check_onchain_conf payment_status payment_id
      payment_created_at assert_invariants
  check_conf-Advances (onchain_send os) q conf now s e = ground arith
  check_conf-Advances (onchain_receive r) q conf now s e = ground arith
  check_conf-Advances _ q conf now s e = ground arith

  -- If `broadcasted` accepts a sound payment, the payment was pending, and the result has its
  -- id and its creation time and is sound.
  pub check_broadcasted-Advances :
      (p q : Payment Invoice Tx) (txid : Bytes)
      → IsSound p
      → payment_broadcasted p txid ≡ ok q
      → Advances p q
  unfolding payment_broadcasted os_broadcasted payment_status payment_id payment_created_at
      assert_invariants
  check_broadcasted-Advances (onchain_send os) q txid s e = ground arith
  check_broadcasted-Advances _ q txid s e = ground arith

module _ {Invoice Tx : Type 0} (lib : Library Invoice Tx) where
  -- If `check_payment_claimable` accepts a sound payment, the payment was pending, and the
  -- result has its id and its creation time and is sound.
  pub check_claimable-Advances :
      (p q : Payment Invoice Tx) (hash : Bytes) (amount : ℕ) (purpose : LxPaymentPurpose)
      (now : TimestampMs)
      → IsSound p
      → payment_check_claimable lib p hash amount purpose now ≡ ok q
      → Advances p q
  unfolding payment_check_claimable iip_check_payment_claimable isp_check_payment_claimable
      payment_status payment_id payment_created_at assert_invariants
  check_claimable-Advances (inbound_invoice iip) q hash amount (LxPaymentPurpose.invoice pre secret)
        now s e =
      ground arith
  check_claimable-Advances (inbound_spontaneous iip) q hash amount
        (LxPaymentPurpose.spontaneous pre) now s e =
      ground arith
  check_claimable-Advances _ q hash amount _ now s e = ground arith

  -- If `check_payment_sent` accepts a sound payment, the payment was pending, and the result
  -- has its id and its creation time and is sound.
  pub check_sent-Advances :
      (p q : Payment Invoice Tx) (hash preimage : Bytes) (fees : Option ℕ) (now : TimestampMs)
      → IsSound p
      → payment_check_sent lib p hash preimage fees now ≡ ok q
      → Advances p q
  unfolding payment_check_sent oip_check_payment_sent payment_status payment_id payment_created_at
      assert_invariants
  check_sent-Advances (outbound_invoice oip) q hash preimage fees now s e = ground arith
  check_sent-Advances _ q hash preimage fees now s e = ground arith

  -- If `check_invoice_expiry` changes a sound payment, the payment was pending, and the
  -- result has its id and its creation time and is sound.
  pub check_expiry-Advances :
      (p q : Payment Invoice Tx) (unix_duration : ℕ) (now : TimestampMs)
      → IsSound p
      → payment_check_expiry lib p unix_duration now ≡ some q
      → Advances p q
  unfolding payment_check_expiry iip_check_invoice_expiry oip_check_invoice_expiry payment_status
      payment_id payment_created_at assert_invariants
  check_expiry-Advances (inbound_invoice iip) q unix_duration now s e = ground arith
  check_expiry-Advances (outbound_invoice oip) q unix_duration now s e = ground arith
  check_expiry-Advances _ q unix_duration now s e = ground arith
