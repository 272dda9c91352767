-- ===== src/Payments/Manager.antt =====
-- `PaymentsData`, the state machine behind the payments manager
-- (lexe-ln/src/payments/manager.rs, `impl PaymentsData`, and `check_payment_claimable` of
-- inbound.rs). `CheckedPayment` and `PersistedPayment` are the payments that they wrap.
pub mod Handlers
pub mod Events
pub mod Storage
pub mod Commits
pub mod Checks
pub mod Batches
pub mod Confs
pub mod Refinement
pub mod Claims
pub mod Receipts
pub mod Interleaving
pub mod Rounds
pub mod Restart
pub mod Histories
pub mod Errors
use lexe_public.Base.{
  ℕ, Bool, true, false, not, Option, none, some, List, [], ◌∷◌, Result, ok, err, ◌>>=◌, ◌>>◌,
  ensure, context, map_ok, map_option, is_some, ◌||◌,
}
use lexe_public.Base.Maps.{get, insert, remove, contains, add}
use lexe_public.Ids.{
  Bytes, TimestampMs, LxPaymentId, lightning, LxPaymentId-discrete, PaymentStatus,
}
use lexe_public.Payments.Library.{
  Library, Error, exists_pending, exists_finalized, duplicate_or_final, not_inbound,
  no_such_invoice, was_finalized, no_pending_payment, not_outbound, todo, conf_without_payment,
  not_onchain,
}
use lexe_public.Payments.Inbound.{
  LxPaymentPurpose, invoice, spontaneous, iip_check_payment_claimable, iip_check_payment_claimed,
  iip_check_invoice_expiry, new_inbound_spontaneous, isp_check_payment_claimable,
  isp_check_payment_claimed,
}
use lexe_public.Payments.Outbound.{
  LxOutboundPaymentFailure, oip_check_payment_sent, oip_check_payment_failed,
  oip_check_invoice_expiry,
}
use lexe_public.Payments.Onchain.{TxConfStatus, os_check_onchain_conf, or_check_onchain_conf}
use lexe_public.Payments.Payment.{
  Payment, onchain_send, onchain_receive, inbound_invoice, inbound_spontaneous, outbound_invoice,
  outbound_spontaneous, payment_id, payment_status,
}

pub record PaymentsData (Invoice Tx : Type 0) : Type 0 where
  pub pending : List (LxPaymentId × Payment Invoice Tx)
  pub finalized : List LxPaymentId

module _ {Invoice Tx : Type 0} where
  abbrev pub get_pending : LxPaymentId → PaymentsData Invoice Tx → Option (Payment Invoice Tx)
  get_pending id d = get LxPaymentId-discrete id d.pending

  abbrev pub is_finalized : LxPaymentId → PaymentsData Invoice Tx → Bool
  is_finalized id d = contains LxPaymentId-discrete id d.finalized

  commit_as : PaymentStatus → PaymentsData Invoice Tx → Payment Invoice Tx → PaymentsData Invoice Tx
  commit_as PaymentStatus.pending d p = record d {
    pending = insert LxPaymentId-discrete (payment_id p) p d.pending;
  }
  commit_as PaymentStatus.completed d p = record {
    pending = remove LxPaymentId-discrete (payment_id p) d.pending;
    finalized = add LxPaymentId-discrete (payment_id p) d.finalized;
  }
  commit_as PaymentStatus.failed d p = record {
    pending = remove LxPaymentId-discrete (payment_id p) d.pending;
    finalized = add LxPaymentId-discrete (payment_id p) d.finalized;
  }

  -- The debug assertion of the real function is the invariant `assert_invariants`.
  unfoldable pub commit : PaymentsData Invoice Tx → Payment Invoice Tx → PaymentsData Invoice Tx
  unfolding commit_as
  commit d p = commit_as (payment_status p) d p

  unfoldable pub contains_payment_id : PaymentsData Invoice Tx → LxPaymentId → Bool
  contains_payment_id d id = is_some (get_pending id d) || is_finalized id d

  unfoldable pub check_new_payment :
      PaymentsData Invoice Tx → Payment Invoice Tx → Result Error (Payment Invoice Tx)
  check_new_payment d p = do
    ensure (not (is_some (get_pending (payment_id p) d))) exists_pending
    ensure (not (is_finalized (payment_id p) d)) exists_finalized
    ok p

  -- `PaymentsData::check_payment_claimed` on the payment that is found.
  unfoldable pub payment_check_claimed :
      Payment Invoice Tx
      → Bytes
      → ℕ
      → LxPaymentPurpose
      → TimestampMs
      → Result Error (Payment Invoice Tx)
  payment_check_claimed (inbound_invoice iip) hash amount (invoice preimage secret) now =
      map_ok inbound_invoice (iip_check_payment_claimed iip hash secret preimage amount now)
  payment_check_claimed (inbound_spontaneous isp) hash amount (spontaneous preimage) now =
      map_ok inbound_spontaneous (isp_check_payment_claimed isp hash preimage amount now)
  payment_check_claimed _ hash amount purpose now = err not_inbound

  unfoldable pub check_payment_claimed :
      PaymentsData Invoice Tx
      → Bytes
      → ℕ
      → LxPaymentPurpose
      → TimestampMs
      → Result Error (Payment Invoice Tx)
  unfolding payment_check_claimed
  check_payment_claimed d hash amount purpose now = do
    ensure (not (is_finalized (lightning hash) d)) was_finalized
    p ← context (get_pending (lightning hash) d) no_pending_payment
    payment_check_claimed p hash amount purpose now

  unfoldable pub payment_check_failed :
      Payment Invoice Tx
      → Bytes
      → LxOutboundPaymentFailure
      → TimestampMs
      → Result Error (Payment Invoice Tx)
  payment_check_failed (outbound_invoice oip) hash failure now =
      map_ok outbound_invoice (oip_check_payment_failed oip hash failure now)
  payment_check_failed (outbound_spontaneous osp) hash failure now = err todo
  payment_check_failed _ hash failure now = err not_outbound

  unfoldable pub check_payment_failed :
      PaymentsData Invoice Tx
      → Bytes
      → LxOutboundPaymentFailure
      → TimestampMs
      → Result Error (Payment Invoice Tx)
  unfolding payment_check_failed
  check_payment_failed d hash failure now = do
    ensure (not (is_finalized (lightning hash) d)) was_finalized
    p ← context (get_pending (lightning hash) d) no_pending_payment
    payment_check_failed p hash failure now

  unfoldable pub payment_check_conf :
      Payment Invoice Tx → TxConfStatus → TimestampMs → Result Error (Option (Payment Invoice Tx))
  payment_check_conf (onchain_send os) conf now =
      map_ok (map_option onchain_send) (os_check_onchain_conf os conf now)
  payment_check_conf (onchain_receive r) conf now =
      map_ok (map_option onchain_receive) (or_check_onchain_conf r conf now)
  payment_check_conf _ conf now = err not_onchain

  -- The `map` and `filter_map` over the zipped iterators, collected: the first error ends it.
  unfoldable pub check_onchain_confs :
      PaymentsData Invoice Tx
      → List LxPaymentId
      → List TxConfStatus
      → TimestampMs
      → Result Error (List (Payment Invoice Tx))
  unfolding payment_check_conf
  check_onchain_confs d (id ∷ ids) (conf ∷ confs) now = do
    p ← context (get_pending id d) conf_without_payment
    maybe_checked ← payment_check_conf p conf now
    rest ← check_onchain_confs d ids confs now
    ok (elim maybe_checked [ none ↦ rest | some checked ↦ checked ∷ rest ])
  check_onchain_confs d _ _ now = ok []

module _ {Invoice Tx : Type 0} (lib : Library Invoice Tx) where
  -- `Payment::check_payment_claimable`
  unfoldable pub payment_check_claimable :
      Payment Invoice Tx
      → Bytes
      → ℕ
      → LxPaymentPurpose
      → TimestampMs
      → Result Error (Payment Invoice Tx)
  payment_check_claimable (inbound_invoice iip) hash amount (invoice preimage secret) now =
      map_ok inbound_invoice (iip_check_payment_claimable lib iip hash secret preimage amount now)
  payment_check_claimable (inbound_spontaneous isp) hash amount (spontaneous preimage) now =
      map_ok inbound_spontaneous (isp_check_payment_claimable isp hash preimage amount)
  payment_check_claimable _ hash amount purpose now = err not_inbound

  -- The `match` on the pending payment that is there, or is not.
  unfoldable pub claim_or_create :
      PaymentsData Invoice Tx
      → Option (Payment Invoice Tx)
      → Bytes
      → ℕ
      → LxPaymentPurpose
      → TimestampMs
      → Result Error (Payment Invoice Tx)
  unfolding payment_check_claimable
  claim_or_create d (some p) hash amount purpose now =
      payment_check_claimable p hash amount purpose now
  claim_or_create d none hash amount (spontaneous preimage) now =
      check_new_payment d (inbound_spontaneous (new_inbound_spontaneous hash preimage amount now))
  claim_or_create d none hash amount (invoice preimage secret) now = err no_such_invoice

  unfoldable pub check_payment_claimable :
      PaymentsData Invoice Tx
      → Bytes
      → ℕ
      → LxPaymentPurpose
      → TimestampMs
      → Result Error (Payment Invoice Tx)
  unfolding claim_or_create
  check_payment_claimable d hash amount purpose now = do
    ensure (not (is_finalized (lightning hash) d)) duplicate_or_final
    claim_or_create d (get_pending (lightning hash) d) hash amount purpose now

  unfoldable pub payment_check_sent :
      Payment Invoice Tx
      → Bytes
      → Bytes
      → Option ℕ
      → TimestampMs
      → Result Error (Payment Invoice Tx)
  payment_check_sent (outbound_invoice oip) hash preimage fees now =
      map_ok outbound_invoice (oip_check_payment_sent lib oip hash preimage fees now)
  payment_check_sent (outbound_spontaneous osp) hash preimage fees now = err todo
  payment_check_sent _ hash preimage fees now = err not_outbound

  unfoldable pub check_payment_sent :
      PaymentsData Invoice Tx
      → Bytes
      → Bytes
      → Option ℕ
      → TimestampMs
      → Result Error (Payment Invoice Tx)
  unfolding payment_check_sent
  check_payment_sent d hash preimage fees now = do
    ensure (not (is_finalized (lightning hash) d)) was_finalized
    p ← context (get_pending (lightning hash) d) no_pending_payment
    payment_check_sent p hash preimage fees now

  unfoldable pub payment_check_expiry :
      Payment Invoice Tx → ℕ → TimestampMs → Option (Payment Invoice Tx)
  payment_check_expiry (inbound_invoice iip) unix_duration now =
      map_option inbound_invoice (iip_check_invoice_expiry lib iip unix_duration now)
  payment_check_expiry (outbound_invoice oip) unix_duration now =
      map_option outbound_invoice (oip_check_invoice_expiry lib oip unix_duration)
  payment_check_expiry _ unix_duration now = none

  -- The hash that `inspect` pushes on `oip_hashes`.
  abandoned_hash : Payment Invoice Tx → List Bytes → List Bytes
  abandoned_hash (outbound_invoice oip) hashes = oip.hash ∷ hashes
  abandoned_hash _ hashes = hashes

  unfoldable pub expire_all :
      List (LxPaymentId × Payment Invoice Tx)
      → ℕ
      → TimestampMs
      → List (Payment Invoice Tx) × List Bytes
  unfolding payment_check_expiry abandoned_hash
  expire_all [] unix_duration now = ([], [])
  expire_all ((id, p) ∷ m) unix_duration now =
      let (checked, hashes) = expire_all m unix_duration now in
      elim (payment_check_expiry p unix_duration now) [
        | none ↦ (checked, hashes)
        | some q ↦ (q ∷ checked, abandoned_hash q hashes)
      ]

  unfoldable pub check_invoice_expiries :
      PaymentsData Invoice Tx → ℕ → TimestampMs → List (Payment Invoice Tx) × List Bytes
  unfolding expire_all
  check_invoice_expiries d unix_duration now = expire_all d.pending unix_duration now
