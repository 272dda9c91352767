-- ===== src/IdText.antt =====
-- The text and the order of payment ids (common/src/ln/payments.rs, common/src/ln/hashes.rs). The
-- codes of `_`, `l`, `n`, `o`, `r` and `s` are 95, 108, 110, 111, 114 and 115.
pub mod Roundtrip
pub mod Order
pub mod Digits
pub mod Index
mod Tests
use Prim.Native.Nat.{Ordering}
use mathlib.Core.List.{reverse}
use lexe_public.Base.{
  ℕ, Bool, true, false, Option, none, some, List, [], ◌∷◌, ◌++◌, Result, ok, err, ◌>>=◌, context,
  map_ok, ◌==◌, if◌then◌else◌,
}
use lexe_public.Ids.{Bytes, same, LxPaymentId, onchain_send, onchain_recv, lightning}
use lexe_public.Hex.{Chars, DecodeError, encode, decode_to_slice}
use lexe_public.Hex.Order.{lex}

-- `Txid` of rust-bitcoin: its `Display` and its `FromStr`, whose error is dropped.
pub record TxidText : Type 0 where
  pub display_txid : Bytes → Chars
  pub txid_from_str : Chars → Option Bytes

pub data IdError : Type 0 where
  missing_kind missing_id wrong_format unknown_kind : IdError
  invalid_client_payment_id invalid_txid invalid_payment_hash : IdError

cons_part : ℕ → List Chars → List Chars
cons_part c [] = (c ∷ []) ∷ []
cons_part c (part ∷ parts) = (c ∷ part) ∷ parts

-- `str::split` at a character.
unfoldable pub split : ℕ → Chars → List Chars
unfolding cons_part
split sep [] = [] ∷ []
split sep (c ∷ s) = let parts = split sep s in if c == sep then [] ∷ parts else cons_part c parts

unfoldable pub prefix : LxPaymentId → Chars
prefix (onchain_send cid) = 111 ∷ 115 ∷ []
prefix (onchain_recv txid) = 111 ∷ 114 ∷ []
prefix (lightning hash) = 108 ∷ 110 ∷ []

-- `.context(..)` on a decoded array.
read_or : Result DecodeError Bytes → IdError → Result IdError Bytes
read_or (ok bytes) e = ok bytes
read_or (err _) e = err e

-- `<[u8; 32]>::from_hex`, whose error becomes the context.
unfoldable pub from_hex : Chars → IdError → Result IdError Bytes
unfolding read_or
from_hex s e = read_or (decode_to_slice s 32) e

-- The order `cmp` of payment ids: the order of their texts' kinds first.
unfoldable pub cmp : LxPaymentId → LxPaymentId → Ordering
unfolding prefix
cmp (onchain_send a) (onchain_send b) = lex a b
cmp (onchain_recv a) (onchain_recv b) = lex (reverse a) (reverse b)
cmp (lightning a) (lightning b) = lex a b
cmp s o = lex (prefix s) (prefix o)

module _ (text : TxidText) where
  inner : LxPaymentId → Chars
  inner (onchain_send cid) = encode cid
  inner (onchain_recv txid) = text.display_txid txid
  inner (lightning hash) = encode hash

  unfoldable pub display : LxPaymentId → Chars
  unfolding prefix inner
  display id = prefix id ++ 95 ∷ inner id

  of_kind : Chars → Chars → Result IdError LxPaymentId
  unfolding from_hex
  of_kind kind id =
      if same kind (111 ∷ 115 ∷ [])
      then map_ok onchain_send (from_hex id invalid_client_payment_id)
      else if same kind (111 ∷ 114 ∷ [])
      then map_ok onchain_recv (context (text.txid_from_str id) invalid_txid)
      else if same kind (108 ∷ 110 ∷ [])
      then map_ok lightning (from_hex id invalid_payment_hash)
      else err unknown_kind

  of_parts : List Chars → Result IdError LxPaymentId
  unfolding of_kind
  of_parts [] = err missing_kind
  of_parts (kind ∷ []) = err missing_id
  of_parts (kind ∷ id ∷ []) = of_kind kind id
  of_parts (kind ∷ id ∷ extra ∷ parts) = err wrong_format

  unfoldable pub from_str : Chars → Result IdError LxPaymentId
  unfolding of_parts split
  from_str kind_id = of_parts (split 95 kind_id)
