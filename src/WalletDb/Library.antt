-- ===== src/WalletDb/Library.antt =====
-- What the wallet database takes from the bdk and bitcoin crates. The structs and the enum are theirs, with
-- the fields that the code names; the other types and their orders are parameters.
use lexe_public.Base.{ℕ, Bool, Option, Result}
use lexe_public.Base.BTree.{Order}

pub record Bdk : Type 1 where
  pub Script : Type 0
  pub OutPoint : Type 0
  pub TxOut : Type 0
  pub Txid : Type 0
  pub Transaction : Type 0
  pub BlockTime : Type 0
  pub SyncTime : Type 0
  -- `Transaction::txid`
  pub txid_of : Transaction → Txid
  pub script_order : Order Script
  pub outpoint_order : Order OutPoint
  pub txid_order : Order Txid

pub data KeychainKind : Type 0 where
  external internal : KeychainKind

pub data BdkError : Type 0 where
  checksum_mismatch generic : BdkError

abbrev pub BdkResult : Type 0 → Type 0
BdkResult A = Result BdkError A

pub record LocalUtxo (bdk : Bdk) : Type 0 where
  pub outpoint : bdk.OutPoint
  pub txout : bdk.TxOut
  pub keychain : KeychainKind
  pub is_spent : Bool

pub record TransactionDetails (bdk : Bdk) : Type 0 where
  pub transaction : Option bdk.Transaction
  pub txid : bdk.Txid
  pub received : ℕ
  pub sent : ℕ
  pub fee : Option ℕ
  pub confirmation_time : Option bdk.BlockTime
