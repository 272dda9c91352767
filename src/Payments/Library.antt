-- ===== src/Payments/Library.antt =====
-- What the payments code takes from outside the repository, and the errors that it returns.
use lexe_public.Base.{ℕ, Bool, Option}
use lexe_public.Ids.{Bytes, TimestampMs}

-- Functions of lightning-invoice, rust-bitcoin and bitcoin_hashes. A `Duration` since the epoch
-- and the clock that `is_expired` reads are numbers.
pub record Library (Invoice Tx : Type 0) : Type 0 where
  pub amount_milli_satoshis : Invoice → Option ℕ
  pub payment_hash : Invoice → Bytes
  pub payment_secret : Invoice → Bytes
  pub is_expired : Invoice → TimestampMs → Bool
  pub would_expire : Invoice → ℕ → Bool
  pub txid : Tx → Bytes
  pub sha256 : Bytes → Bytes

-- `anyhow` errors by their message; what `.context(..)` wraps round one is left out. `todo` is the
-- panic of `todo!()`.
pub data Error : Type 0 where
  hashes_differ preimages_differ secrets_differ amounts_differ : Error
  invoice_has_expired already_final already_claimed already_expired : Error
  preimage_not_of_hash purpose_without_preimage : Error
  txids_differ has_confirmations tx_being_replaced tx_partially_replaced tx_was_final : Error
  tx_already_finalized : Error
  exists_pending exists_finalized duplicate_or_final not_inbound no_such_invoice : Error
  was_finalized no_pending_payment not_outbound todo : Error
  conf_without_payment not_onchain no_such_payment not_onchain_send : Error
  no_such_note_target not_in_db persist_failed id_mismatch backend_error : Error
