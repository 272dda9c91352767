-- ===== src/Payments/Manager/Handlers.antt =====
-- The entry points of `PaymentsManager` (lexe-ln/src/payments/manager.rs). Each holds the lock for
-- its whole length, so it is a function of the data and of the answers of its collaborators: whether
-- the persister stored what it was given, what the backend fetched, what Esplora reported. Its calls
-- of the persister and of LDK's channel manager are listed in order. Log lines and the events that
-- tests listen to are left out.
use lexe_public.Base.{
  ℕ, Bool, true, false, not, Option, none, some, List, [], ◌∷◌, ◌++◌, map, String, Result, ok, err,
  ◌>>=◌, ◌>>◌, ensure, context, map_ok, if◌then◌else◌, ite,
}
use lexe_public.Ids.{Bytes, TimestampMs, LxPaymentId, LxPaymentId-discrete, PaymentIndex}
use lexe_public.Payments.Library.{
  Library, Error, was_finalized, no_such_payment, not_onchain_send, no_such_note_target, not_in_db,
  persist_failed, id_mismatch,
}
use lexe_public.Payments.Inbound.{
  PaymentPurpose, LxPaymentPurpose, try_from_purpose, purpose_preimage,
}
use lexe_public.Payments.Outbound.{LxOutboundPaymentFailure}
use lexe_public.Payments.Onchain.{TxConfStatus, os_broadcasted}
use lexe_public.Payments.Payment.{Payment, onchain_send, onchain_receive, payment_id, set_note}
use lexe_public.Payments.Manager.{
  PaymentsData, get_pending, is_finalized, commit, check_new_payment, check_payment_claimable,
  check_payment_claimed, check_payment_sent, check_payment_failed, check_invoice_expiries,
  check_onchain_confs,
}

pub data FailureCode : Type 0 where
  incorrect_or_unknown_payment_details temporary_node_failure : FailureCode

-- A call of the persister carries its answer.
pub data Call (Invoice Tx : Type 0) : Type 0 where
  create_payment : Payment Invoice Tx → Bool → Call Invoice Tx
  persist_payment : Payment Invoice Tx → Bool → Call Invoice Tx
  persist_payment_batch : List (Payment Invoice Tx) → Bool → Call Invoice Tx
  get_payment : PaymentIndex → Call Invoice Tx
  fail_htlc_backwards : Bytes → FailureCode → Call Invoice Tx
  claim_funds : Bytes → Call Invoice Tx
  abandon_payment : Bytes → Call Invoice Tx

pub record Outcome (Invoice Tx : Type 0) : Type 0 where
  pub after : PaymentsData Invoice Tx
  pub calls : List (Call Invoice Tx)
  pub result : Result Error (Unit {0})

pub record UpdatePaymentNote : Type 0 where
  pub index : PaymentIndex
  pub note : Option String

abbrev is_same_id : LxPaymentId → LxPaymentId → Bool
is_same_id a b = ite (LxPaymentId-discrete a b) true false

module _ {Invoice Tx : Type 0} where
  -- The tail of most handlers: persist what was checked, then commit it.
  unfoldable pub persist_commit :
      PaymentsData Invoice Tx → Result Error (Payment Invoice Tx) → Bool → Outcome Invoice Tx
  persist_commit d (err e) persisted = record { after = d; calls = []; result = err e }
  persist_commit d (ok checked) true = record {
    after = commit d checked;
    calls = persist_payment checked true ∷ [];
    result = ok tt;
  }
  persist_commit d (ok checked) false = record {
    after = d;
    calls = persist_payment checked false ∷ [];
    result = err persist_failed;
  }

  unfoldable pub create_commit :
      PaymentsData Invoice Tx → Result Error (Payment Invoice Tx) → Bool → Outcome Invoice Tx
  create_commit d (err e) persisted = record { after = d; calls = []; result = err e }
  create_commit d (ok checked) true = record {
    after = commit d checked;
    calls = create_payment checked true ∷ [];
    result = ok tt;
  }
  create_commit d (ok checked) false = record {
    after = d;
    calls = create_payment checked false ∷ [];
    result = err persist_failed;
  }

  unfoldable pub new_payment :
      PaymentsData Invoice Tx → Payment Invoice Tx → Bool → Outcome Invoice Tx
  unfolding create_commit
  new_payment d p persisted = create_commit d (check_new_payment d p) persisted

  -- `NodePersister::get_payment` (node/src/persister.rs) on what the backend sent: an error, or the
  -- decrypted payment if there is one.
  unfoldable pub fetched_payment :
      PaymentIndex → Result Error (Option (Payment Invoice Tx)) → Result Error (Payment Invoice Tx)
  fetched_payment index answer = do
    maybe_payment ← answer
    p ← context maybe_payment not_in_db
    ensure (is_same_id (payment_id p) index.id) id_mismatch
    ok p

  -- The copy that the note is set on.
  unfoldable pub note_target :
      PaymentsData Invoice Tx
      → Option (Payment Invoice Tx)
      → PaymentIndex
      → Result Error (Option (Payment Invoice Tx))
      → Result Error (Payment Invoice Tx)
  unfolding fetched_payment
  note_target d (some p) index answer = ok p
  note_target d none index answer = do
    ensure (is_finalized index.id d) no_such_note_target
    fetched_payment index answer

  unfoldable pub note_fetches :
      PaymentsData Invoice Tx → Option (Payment Invoice Tx) → PaymentIndex → List (Call Invoice Tx)
  note_fetches d (some p) index = []
  note_fetches d none index = if is_finalized index.id d then get_payment index ∷ [] else []

  unfoldable pub update_payment_note :
      PaymentsData Invoice Tx
      → UpdatePaymentNote
      → Result Error (Option (Payment Invoice Tx))
      → Bool
      → Outcome Invoice Tx
  unfolding note_target note_fetches
  update_payment_note d update answer persisted =
      let local = get_pending update.index.id d in
      let target = note_target d local update.index answer in
      let o = persist_commit d (map_ok (λ p. set_note p update.note) target) persisted in
      record o { calls = note_fetches d local update.index ++ o.calls }

  unfoldable pub payment_claimed :
      PaymentsData Invoice Tx → Bytes → ℕ → PaymentPurpose → TimestampMs → Bool → Outcome Invoice Tx
  payment_claimed d hash amt_msat purpose now persisted =
      persist_commit d
        (try_from_purpose purpose >>= λ p. check_payment_claimed d hash amt_msat p now) persisted

  unfoldable pub payment_failed :
      PaymentsData Invoice Tx
      → Bytes
      → LxOutboundPaymentFailure
      → TimestampMs
      → Bool
      → Outcome Invoice Tx
  payment_failed d hash failure now persisted =
      persist_commit d (check_payment_failed d hash failure now) persisted

  unfoldable pub payment_broadcasted :
      Payment Invoice Tx → Bytes → Result Error (Payment Invoice Tx)
  payment_broadcasted (onchain_send os) txid = map_ok onchain_send (os_broadcasted os txid)
  payment_broadcasted _ txid = err not_onchain_send

  unfoldable pub check_broadcasted :
      PaymentsData Invoice Tx → LxPaymentId → Bytes → Result Error (Payment Invoice Tx)
  unfolding payment_broadcasted
  check_broadcasted d id txid = do
    ensure (not (is_finalized id d)) was_finalized
    p ← context (get_pending id d) no_such_payment
    payment_broadcasted p txid

  unfoldable pub onchain_send_broadcasted :
      PaymentsData Invoice Tx → LxPaymentId → Bytes → Bool → Outcome Invoice Tx
  onchain_send_broadcasted d id txid persisted =
      persist_commit d (check_broadcasted d id txid) persisted

  -- The loop that commits a persisted batch.
  unfoldable pub commit_all :
      PaymentsData Invoice Tx → List (Payment Invoice Tx) → PaymentsData Invoice Tx
  commit_all d [] = d
  commit_all d (p ∷ ps) = commit_all (commit d p) ps

  unfoldable pub batch_commit :
      PaymentsData Invoice Tx
      → List (Call Invoice Tx)
      → List (Payment Invoice Tx)
      → Bool
      → Outcome Invoice Tx
  batch_commit d before checked true = record {
    after = commit_all d checked;
    calls = before ++ persist_payment_batch checked true ∷ [];
    result = ok tt;
  }
  batch_commit d before checked false = record {
    after = d;
    calls = before ++ persist_payment_batch checked false ∷ [];
    result = err persist_failed;
  }

  -- The first lock of `check_onchain_confs`: the payments whose transactions are looked up.
  unfoldable pub pending_onchain_ids : List (LxPaymentId × Payment Invoice Tx) → List LxPaymentId
  pending_onchain_ids [] = []
  pending_onchain_ids ((id, onchain_send os) ∷ m) =
      LxPaymentId.onchain_send os.cid ∷ pending_onchain_ids m
  pending_onchain_ids ((id, onchain_receive r) ∷ m) =
      LxPaymentId.onchain_recv r.txid ∷ pending_onchain_ids m
  pending_onchain_ids ((id, p) ∷ m) = pending_onchain_ids m

  unfoldable pub confs_commit :
      PaymentsData Invoice Tx → Result Error (List (Payment Invoice Tx)) → Bool → Outcome Invoice Tx
  unfolding batch_commit
  confs_commit d (err e) persisted = record { after = d; calls = []; result = err e }
  confs_commit d (ok checked) persisted = batch_commit d [] checked persisted

  -- Its second lock, with the statuses that Esplora reported for those ids.
  unfoldable pub update_onchain_confs :
      PaymentsData Invoice Tx
      → List LxPaymentId
      → List TxConfStatus
      → TimestampMs
      → Bool
      → Outcome Invoice Tx
  unfolding confs_commit
  update_onchain_confs d ids confs now persisted =
      confs_commit d (check_onchain_confs d ids confs now) persisted

  -- `payment_claimable` behind its check: a payment that may not be claimed is failed back.
  unfoldable pub claim_checked :
      PaymentsData Invoice Tx
      → Bytes
      → Bytes
      → Result Error (Payment Invoice Tx)
      → Bool
      → Outcome Invoice Tx
  claim_checked d hash preimage (err e) persisted = record {
    after = d;
    calls = fail_htlc_backwards hash incorrect_or_unknown_payment_details ∷ [];
    result = err e;
  }
  claim_checked d hash preimage (ok checked) true = record {
    after = commit d checked;
    calls = persist_payment checked true ∷ claim_funds preimage ∷ [];
    result = ok tt;
  }
  claim_checked d hash preimage (ok checked) false = record {
    after = d;
    calls = persist_payment checked false ∷ fail_htlc_backwards hash temporary_node_failure ∷ [];
    result = err persist_failed;
  }

module _ {Invoice Tx : Type 0} (lib : Library Invoice Tx) where
  unfoldable pub claim_purpose :
      PaymentsData Invoice Tx
      → Bytes
      → ℕ
      → Result Error LxPaymentPurpose
      → TimestampMs
      → Bool
      → Outcome Invoice Tx
  unfolding claim_checked
  claim_purpose d hash amt_msat (err e) now persisted = record {
    after = d;
    calls = fail_htlc_backwards hash incorrect_or_unknown_payment_details ∷ [];
    result = err e;
  }
  claim_purpose d hash amt_msat (ok purpose) now persisted =
      claim_checked d hash (purpose_preimage purpose)
        (check_payment_claimable lib d hash amt_msat purpose now) persisted

  unfoldable pub payment_claimable :
      PaymentsData Invoice Tx → Bytes → ℕ → PaymentPurpose → TimestampMs → Bool → Outcome Invoice Tx
  unfolding claim_purpose
  payment_claimable d hash amt_msat purpose now persisted =
      claim_purpose d hash amt_msat (try_from_purpose purpose) now persisted

  unfoldable pub payment_sent :
      PaymentsData Invoice Tx → Bytes → Bytes → Option ℕ → TimestampMs → Bool → Outcome Invoice Tx
  payment_sent d hash preimage maybe_fees_paid now persisted =
      persist_commit d (check_payment_sent lib d hash preimage maybe_fees_paid now) persisted

  -- `PaymentsManager::check_invoice_expiries`: newly expired outbound payments are abandoned first.
  unfoldable pub expire_invoices :
      PaymentsData Invoice Tx → ℕ → TimestampMs → Bool → Outcome Invoice Tx
  expire_invoices d unix_duration now persisted =
      let (checked, oip_hashes) = check_invoice_expiries lib d unix_duration now in
      batch_commit d (map (λ h. abandon_payment h) oip_hashes) checked persisted
