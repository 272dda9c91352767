-- ===== src/IdText/Order.antt =====
-- `Ord` of payment ids against their texts (common/src/ln/payments.rs).
use mathlib.Core.List.{reverse}
use lexe_public.Base.{◌≡◌, refl}
use lexe_public.Ids.{LxPaymentId, onchain_send, onchain_recv, lightning}
use lexe_public.Hex.Order.{lex, lex-encode}
use lexe_public.IdText.{TxidText, prefix, inner, display, cmp}
use lexe_public.IdText.Roundtrip.{IsArray, id_bytes, TxidLaws, AreBytes-reverse}

module _ (text : TxidText) (laws : TxidLaws text) where
  -- The order `cmp` of two payment ids of 32 bytes is the lexicographic order of their texts,
  -- where `Txid` is displayed in hex with its last byte first.
  pub cmp-display :
      (a b : LxPaymentId)
      → IsArray (id_bytes a)
      → IsArray (id_bytes b)
      → lex (display text a) (display text b) ≡ cmp a b
  unfolding display prefix inner cmp
  cmp-display (onchain_send a) (onchain_send b) k h = lex-encode a b k.bytes h.bytes
  cmp-display (onchain_send a) (onchain_recv b) k h = refl
  cmp-display (onchain_send a) (lightning b) k h = refl
  cmp-display (onchain_recv a) (onchain_send b) k h = refl
  cmp-display (onchain_recv a) (onchain_recv b) k h =
      rw (laws.display_backward a k, laws.display_backward b h)
        (lex-encode (reverse a) (reverse b) (AreBytes-reverse a k.bytes)
          (AreBytes-reverse b h.bytes))
  cmp-display (onchain_recv a) (lightning b) k h = refl
  cmp-display (lightning a) (onchain_send b) k h = refl
  cmp-display (lightning a) (onchain_recv b) k h = refl
  cmp-display (lightning a) (lightning b) k h = lex-encode a b k.bytes h.bytes
