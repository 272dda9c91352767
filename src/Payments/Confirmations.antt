-- ===== src/Payments/Confirmations.antt =====
-- What a confirmation report makes of an on-chain payment (`check_onchain_conf` of
-- lexe-ln/src/payments/onchain.rs).
use lexe_public.Base.{Bool, true, false, none, some, ◌≡◌, ◌≢◌, ok, err, ltb, arith, if◌then◌else◌}
use lexe_public.Ids.{TimestampMs, PaymentStatus}
use lexe_public.Payments.Library.{Error}
use lexe_public.Payments.Onchain.{
  TxConfStatus, zero_conf, in_best_chain, has_replacement, tx_dropped, os_check_onchain_conf,
  or_check_onchain_conf,
}
use lexe_public.Payments.Payment.{Payment, onchain_send, onchain_receive, payment_status}
use lexe_public.Payments.Manager.{payment_check_conf}

-- Six confirmations settle a transaction, whether its own or those of a replacement.
abbrev pub settled : TxConfStatus → PaymentStatus
settled zero_conf = PaymentStatus.pending
settled (in_best_chain confs) =
    if ltb confs 6 then PaymentStatus.pending else PaymentStatus.completed
settled (has_replacement confs rp_txid) =
    if ltb confs 6 then PaymentStatus.pending else PaymentStatus.failed
settled tx_dropped = PaymentStatus.failed

module _ {Invoice Tx : Type 0} where
  abbrev pub is_onchain : Payment Invoice Tx → Bool
  is_onchain (onchain_send os) = true
  is_onchain (onchain_receive r) = true
  is_onchain _ = false

  -- When a confirmation check changes a payment, the new status is the one that the report
  -- settles: completed for six or more confirmations of the transaction, failed for six or
  -- more of a replacement or a dropped transaction, and pending otherwise.
  pub check_conf-settled :
      (p q : Payment Invoice Tx) (conf : TxConfStatus) (now : TimestampMs)
      → payment_check_conf p conf now ≡ ok (some q)
      → payment_status q ≡ settled conf
  unfolding payment_check_conf os_check_onchain_conf or_check_onchain_conf payment_status
  check_conf-settled (onchain_send os) q conf now e = ground arith
  check_conf-settled (onchain_receive r) q conf now e = ground arith
  check_conf-settled _ q conf now e = ground arith

  pub check_conf-answers :
      (p : Payment Invoice Tx) (conf : TxConfStatus) (now : TimestampMs) (e : Error)
      → is_onchain p ≡ true
      → payment_status p ≡ PaymentStatus.pending
      → payment_check_conf p conf now ≢ err e
  unfolding payment_check_conf os_check_onchain_conf or_check_onchain_conf payment_status
  check_conf-answers (onchain_send os) conf now e k h = ground arith
  check_conf-answers (onchain_receive r) conf now e k h = ground arith
  check_conf-answers _ conf now e k h = ground arith

  -- When a confirmation check changes a payment and leaves it pending, the same report
  -- changes nothing a second time.
  pub check_conf-repeated :
      (p q : Payment Invoice Tx) (conf : TxConfStatus) (now later : TimestampMs)
      → payment_check_conf p conf now ≡ ok (some q)
      → payment_status q ≡ PaymentStatus.pending
      → payment_check_conf q conf later ≡ ok none
  unfolding payment_check_conf os_check_onchain_conf or_check_onchain_conf payment_status
  check_conf-repeated (onchain_send os) q conf now later e h = ground arith
  check_conf-repeated (onchain_receive r) q conf now later e h = ground arith
  check_conf-repeated _ q conf now later e h = ground arith
