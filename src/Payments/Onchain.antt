-- ===== src/Payments/Onchain.antt =====
-- On-chain payments (lexe-ln/src/payments/onchain.rs) and the confirmation status that drives them
-- (lexe-ln/src/esplora.rs). A method returns the changed clone; the clock is the argument `now`.
-- Log lines are left out.
use lexe_public.Base.{
  ℕ, Bool, true, false, ◌&&◌, Option, none, some, String, Result, ok, err, ◌>>=◌, ◌>>◌, ensure, ltb,
  if◌then◌else◌, ite,
}
use lexe_public.Ids.{Bytes, TimestampMs, same}
use lexe_public.Payments.Library.{
  Library, Error, txids_differ, has_confirmations, tx_being_replaced, tx_partially_replaced,
  tx_was_final, tx_already_finalized,
}

pub data TxConfStatus : Type 0 where
  zero_conf : TxConfStatus
  in_best_chain : (confs : ℕ) → TxConfStatus
  has_replacement : (confs : ℕ) → (rp_txid : Bytes) → TxConfStatus
  tx_dropped : TxConfStatus

pub data ConfirmationPriority : Type 0 where
  high normal background : ConfirmationPriority

abbrev pub onchain_confirmation_threshold : ℕ
onchain_confirmation_threshold = 6

pub data OnchainSendStatus : Type 0 where
  created broadcasted replacement_broadcasted : OnchainSendStatus
  partially_confirmed partially_replaced fully_confirmed fully_replaced dropped : OnchainSendStatus

pub data OnchainReceiveStatus : Type 0 where
  zeroconf partially_confirmed partially_replaced fully_confirmed : OnchainReceiveStatus
  fully_replaced dropped : OnchainReceiveStatus

unfoldable pub OnchainSendStatus-discrete : Discrete OnchainSendStatus
OnchainSendStatus-discrete = hlevel

unfoldable pub OnchainReceiveStatus-discrete : Discrete OnchainReceiveStatus
OnchainReceiveStatus-discrete = hlevel

pub record OnchainSend (Tx : Type 0) : Type 0 where
  pub cid : Bytes
  pub txid : Bytes
  pub tx : Tx
  pub replacement : Option Bytes
  pub priority : ConfirmationPriority
  pub amount : ℕ
  pub fees : ℕ
  pub status : OnchainSendStatus
  pub created_at : TimestampMs
  pub note : Option String
  pub finalized_at : Option TimestampMs

pub record OnchainReceive (Tx : Type 0) : Type 0 where
  pub txid : Bytes
  pub tx : Tx
  pub replacement : Option Bytes
  pub amount : ℕ
  pub status : OnchainReceiveStatus
  pub created_at : TimestampMs
  pub note : Option String
  pub finalized_at : Option TimestampMs

-- The derived `==` of `Option<LxTxid>`.
abbrev same_replacement : Option Bytes → Option Bytes → Bool
same_replacement none none = true
same_replacement (some a) (some b) = same a b
same_replacement _ _ = false

new_replacement : TxConfStatus → Option Bytes
new_replacement (has_replacement confs rp_txid) = some rp_txid
new_replacement _ = none

broadcastable : OnchainSendStatus → Result Error (Unit {0})
broadcastable created = ok tt
broadcastable broadcasted = ok tt
broadcastable OnchainSendStatus.partially_confirmed = err has_confirmations
broadcastable replacement_broadcasted = err tx_being_replaced
broadcastable OnchainSendStatus.partially_replaced = err tx_partially_replaced
broadcastable OnchainSendStatus.fully_confirmed = err tx_was_final
broadcastable OnchainSendStatus.fully_replaced = err tx_was_final
broadcastable OnchainSendStatus.dropped = err tx_was_final

-- The first `match` of `check_onchain_conf`: `false` returns early with no change.
conf_checkable : OnchainSendStatus → Result Error Bool
conf_checkable created = ok false
conf_checkable broadcasted = ok true
conf_checkable OnchainSendStatus.partially_confirmed = ok true
conf_checkable replacement_broadcasted = ok true
conf_checkable OnchainSendStatus.partially_replaced = ok true
conf_checkable OnchainSendStatus.fully_confirmed = err tx_already_finalized
conf_checkable OnchainSendStatus.fully_replaced = err tx_already_finalized
conf_checkable OnchainSendStatus.dropped = err tx_already_finalized

on_zero_conf : OnchainSendStatus → OnchainSendStatus
on_zero_conf replacement_broadcasted = replacement_broadcasted
on_zero_conf _ = broadcasted

send_new_status : OnchainSendStatus → TxConfStatus → OnchainSendStatus
unfolding on_zero_conf
send_new_status status zero_conf = on_zero_conf status
send_new_status status (in_best_chain confs) =
    if ltb confs onchain_confirmation_threshold
    then OnchainSendStatus.partially_confirmed
    else OnchainSendStatus.fully_confirmed
send_new_status status (has_replacement confs rp_txid) =
    if ltb confs onchain_confirmation_threshold
    then OnchainSendStatus.partially_replaced
    else OnchainSendStatus.fully_replaced
send_new_status status tx_dropped = OnchainSendStatus.dropped

-- `matches!(new_status, FullyConfirmed | FullyReplaced | Dropped)`
send_is_final : OnchainSendStatus → Bool
send_is_final OnchainSendStatus.fully_confirmed = true
send_is_final OnchainSendStatus.fully_replaced = true
send_is_final OnchainSendStatus.dropped = true
send_is_final _ = false

recv_conf_checkable : OnchainReceiveStatus → Result Error (Unit {0})
recv_conf_checkable zeroconf = ok tt
recv_conf_checkable OnchainReceiveStatus.partially_confirmed = ok tt
recv_conf_checkable OnchainReceiveStatus.partially_replaced = ok tt
recv_conf_checkable OnchainReceiveStatus.fully_confirmed = err tx_already_finalized
recv_conf_checkable OnchainReceiveStatus.fully_replaced = err tx_already_finalized
recv_conf_checkable OnchainReceiveStatus.dropped = err tx_already_finalized

recv_new_status : TxConfStatus → OnchainReceiveStatus
recv_new_status zero_conf = zeroconf
recv_new_status (in_best_chain confs) =
    if ltb confs onchain_confirmation_threshold
    then OnchainReceiveStatus.partially_confirmed
    else OnchainReceiveStatus.fully_confirmed
recv_new_status (has_replacement confs rp_txid) =
    if ltb confs onchain_confirmation_threshold
    then OnchainReceiveStatus.partially_replaced
    else OnchainReceiveStatus.fully_replaced
recv_new_status tx_dropped = OnchainReceiveStatus.dropped

recv_is_final : OnchainReceiveStatus → Bool
recv_is_final OnchainReceiveStatus.fully_confirmed = true
recv_is_final OnchainReceiveStatus.fully_replaced = true
recv_is_final OnchainReceiveStatus.dropped = true
recv_is_final _ = false

abbrev stamp_if : Bool → TimestampMs → Option TimestampMs → Option TimestampMs
stamp_if true now old = some now
stamp_if false now old = old

module _ {Tx : Type 0} where
  unfoldable pub os_broadcasted : OnchainSend Tx → Bytes → Result Error (OnchainSend Tx)
  unfolding broadcastable
  os_broadcasted p broadcasted_txid = do
    ensure (same broadcasted_txid p.txid) txids_differ
    broadcastable p.status
    ok (record p { status = broadcasted })

  -- The part behind the first `match`.
  os_update_conf : OnchainSend Tx → TxConfStatus → TimestampMs → Option (OnchainSend Tx)
  unfolding send_new_status new_replacement send_is_final
  os_update_conf p conf now =
      let s = send_new_status p.status conf in
      let r = new_replacement conf in
      if ite (OnchainSendStatus-discrete p.status s) true false && same_replacement p.replacement r
      then none
      else some (record p {
        status = s;
        replacement = r;
        finalized_at = stamp_if (send_is_final s) now p.finalized_at;
      })

  unfoldable pub os_check_onchain_conf :
      OnchainSend Tx → TxConfStatus → TimestampMs → Result Error (Option (OnchainSend Tx))
  unfolding conf_checkable os_update_conf
  os_check_onchain_conf p conf now = do
    go_on ← conf_checkable p.status
    ok (if go_on then os_update_conf p conf now else none)

  or_update_conf : OnchainReceive Tx → TxConfStatus → TimestampMs → Option (OnchainReceive Tx)
  unfolding recv_new_status new_replacement recv_is_final
  or_update_conf p conf now =
      let s = recv_new_status conf in
      let r = new_replacement conf in
      if ite (OnchainReceiveStatus-discrete p.status s) true false
        && same_replacement p.replacement r
      then none
      else some (record p {
        status = s;
        replacement = r;
        finalized_at = stamp_if (recv_is_final s) now p.finalized_at;
      })

  unfoldable pub or_check_onchain_conf :
      OnchainReceive Tx → TxConfStatus → TimestampMs → Result Error (Option (OnchainReceive Tx))
  unfolding recv_conf_checkable or_update_conf
  or_check_onchain_conf p conf now = do recv_conf_checkable p.status; ok (or_update_conf p conf now)

module _ {Invoice Tx : Type 0} (lib : Library Invoice Tx) where
  -- `PayOnchainRequest` is given by its fields.
  unfoldable pub new_onchain_send :
      Tx → Bytes → ℕ → ConfirmationPriority → Option String → ℕ → TimestampMs → OnchainSend Tx
  new_onchain_send tx cid amount priority note fees now = record {
    cid = cid;
    txid = lib.txid tx;
    tx = tx;
    replacement = none;
    priority = priority;
    amount = amount;
    fees = fees;
    status = created;
    created_at = now;
    note = note;
    finalized_at = none;
  }

  unfoldable pub new_onchain_receive : Tx → ℕ → TimestampMs → OnchainReceive Tx
  new_onchain_receive tx amount now = record {
    txid = lib.txid tx;
    tx = tx;
    replacement = none;
    amount = amount;
    status = zeroconf;
    created_at = now;
    note = none;
    finalized_at = none;
  }
