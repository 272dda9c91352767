-- ===== src/Payments/Manager/Events.antt =====
-- A history of the payments manager: its entry points as events, and the database that the
-- persister's calls build up.
use lexe_public.Base.{ℕ, Bool, true, Option, List, [], ◌∷◌, Result}
use lexe_public.Base.Maps.{insert}
use lexe_public.Ids.{Bytes, TimestampMs, LxPaymentId, LxPaymentId-discrete}
use lexe_public.Payments.Library.{Library, Error}
use lexe_public.Payments.Inbound.{PaymentPurpose}
use lexe_public.Payments.Outbound.{LxOutboundPaymentFailure}
use lexe_public.Payments.Onchain.{TxConfStatus}
use lexe_public.Payments.Payment.{Payment, payment_id}
use lexe_public.Payments.Manager.{PaymentsData}
use lexe_public.Payments.Manager.Handlers.{
  Outcome, Call, create_payment, persist_payment, persist_payment_batch, UpdatePaymentNote,
  new_payment, update_payment_note, payment_claimable, payment_claimed, payment_sent,
  payment_failed, expire_invoices, onchain_send_broadcasted, update_onchain_confs,
}

-- Each event carries the clock and the answers of the collaborators; the last one says whether the
-- persister succeeded.
pub data Event (Invoice Tx : Type 0) : Type 0 where
  registers : Payment Invoice Tx → Bool → Event Invoice Tx
  updates_note :
      UpdatePaymentNote → Result Error (Option (Payment Invoice Tx)) → Bool → Event Invoice Tx
  claimable : Bytes → ℕ → PaymentPurpose → TimestampMs → Bool → Event Invoice Tx
  claimed : Bytes → ℕ → PaymentPurpose → TimestampMs → Bool → Event Invoice Tx
  sent : Bytes → Bytes → Option ℕ → TimestampMs → Bool → Event Invoice Tx
  fails : Bytes → LxOutboundPaymentFailure → TimestampMs → Bool → Event Invoice Tx
  expires : ℕ → TimestampMs → Bool → Event Invoice Tx
  broadcasts : LxPaymentId → Bytes → Bool → Event Invoice Tx
  confirms : List LxPaymentId → List TxConfStatus → TimestampMs → Bool → Event Invoice Tx

-- The database: one row for each payment id.
abbrev pub Db : (Invoice Tx : Type 0) → Type 0
Db Invoice Tx = List (LxPaymentId × Payment Invoice Tx)

module _ {Invoice Tx : Type 0} where
  unfoldable pub upsert : Db Invoice Tx → Payment Invoice Tx → Db Invoice Tx
  upsert db p = insert LxPaymentId-discrete (payment_id p) p db

  unfoldable pub upsert_all : Db Invoice Tx → List (Payment Invoice Tx) → Db Invoice Tx
  upsert_all db [] = db
  upsert_all db (p ∷ ps) = upsert_all (upsert db p) ps

  -- A call that succeeds writes; one that fails writes nothing.
  unfoldable pub write_call : Db Invoice Tx → Call Invoice Tx → Db Invoice Tx
  write_call db (create_payment p true) = upsert db p
  write_call db (persist_payment p true) = upsert db p
  write_call db (persist_payment_batch ps true) = upsert_all db ps
  write_call db _ = db

  unfoldable pub write_calls : Db Invoice Tx → List (Call Invoice Tx) → Db Invoice Tx
  unfolding write_call
  write_calls db [] = db
  write_calls db (c ∷ cs) = write_calls (write_call db c) cs

module _ {Invoice Tx : Type 0} (lib : Library Invoice Tx) where
  unfoldable pub step : PaymentsData Invoice Tx → Event Invoice Tx → Outcome Invoice Tx
  step d (registers p persisted) = new_payment d p persisted
  step d (updates_note update answer persisted) = update_payment_note d update answer persisted
  step d (claimable hash amt purpose now persisted) =
      payment_claimable lib d hash amt purpose now persisted
  step d (claimed hash amt purpose now persisted) = payment_claimed d hash amt purpose now persisted
  step d (sent hash preimage fees now persisted) =
      payment_sent lib d hash preimage fees now persisted
  step d (fails hash failure now persisted) = payment_failed d hash failure now persisted
  step d (expires unix_duration now persisted) = expire_invoices lib d unix_duration now persisted
  step d (broadcasts id txid persisted) = onchain_send_broadcasted d id txid persisted
  step d (confirms ids confs now persisted) = update_onchain_confs d ids confs now persisted

  -- The data and the database behind a history.
  unfoldable pub run :
      PaymentsData Invoice Tx
      → Db Invoice Tx
      → List (Event Invoice Tx)
      → PaymentsData Invoice Tx × Db Invoice Tx
  run d db [] = (d, db)
  run d db (e ∷ es) = let o = step d e in run o.after (write_calls db o.calls) es
