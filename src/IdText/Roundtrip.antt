-- ===== src/IdText/Roundtrip.antt =====
-- `FromStr` against `Display` of payment ids (common/src/ln/payments.rs).
use mathlib.Core.Path.{subst}
use mathlib.Core.List.{reverse, reverse_aux}
use lexe_public.Base.{
  ℕ, ◌/◌, ◌%◌, ◌<◌, false, some, [], ◌∷◌, ◌≡◌, refl, length, ok, arith, ◌==◌, ℕ_discrete,
}
use lexe_public.Ids.{Bytes, Bytes-discrete, LxPaymentId, onchain_send, onchain_recv, lightning}
use lexe_public.Hex.{hex_digit, encode, decode_to_slice}
use lexe_public.Hex.Roundtrip.{AreBytes, decode_to_slice-encode}
use lexe_public.IdText.{
  TxidText, IdError, cons_part, split, prefix, from_hex, read_or, inner, display, of_kind, of_parts,
  from_str,
}

-- An array `[u8; 32]`.
pub record IsArray (bs : Bytes) : Type 0 where
  pub size : length bs ≡ 32
  pub bytes : AreBytes bs

abbrev pub id_bytes : LxPaymentId → Bytes
id_bytes (onchain_send cid) = cid
id_bytes (onchain_recv txid) = txid
id_bytes (lightning hash) = hash

-- What rust-bitcoin documents of `Txid`: it is displayed in hex, last byte first, and read back.
pub record TxidLaws (text : TxidText) : Type 0 where
  pub display_backward : (t : Bytes) → IsArray t → text.display_txid t ≡ encode (reverse t)
  pub parse_display : (t : Bytes) → IsArray t → text.txid_from_str (text.display_txid t) ≡ some t

no_underscore : (d : ℕ) → d < 16 → (hex_digit d == 95) ≡ false
unfolding hex_digit
no_underscore d h = ground arith

-- A text in hex is one part.
split-encode : (bs : Bytes) → AreBytes bs → split 95 (encode bs) ≡ encode bs ∷ []
unfolding split encode cons_part
split-encode [] a = refl
split-encode (b ∷ bs) a =
    rw
      (
        no_underscore (b / 16) (omega arith),
        no_underscore (b % 16) (omega arith),
        split-encode bs a.1,
      )
      refl

from_hex-encode : (bs : Bytes) (e : IdError) → IsArray bs → from_hex (encode bs) e ≡ ok bs
unfolding from_hex read_or
from_hex-encode bs e a =
    let read =
      subst (λ n. decode_to_slice (encode bs) n ≡ ok bs) a.size
        (decode_to_slice-encode bs a.bytes) in
    rw (from_hex, read) refl

AreBytes-reverse_aux : (bs acc : Bytes) → AreBytes bs → AreBytes acc → AreBytes (reverse_aux bs acc)
AreBytes-reverse_aux [] acc a b = b
AreBytes-reverse_aux (x ∷ bs) acc a b = AreBytes-reverse_aux bs (x ∷ acc) a.1 (a.0, b)

pub AreBytes-reverse : (bs : Bytes) → AreBytes bs → AreBytes (reverse bs)
AreBytes-reverse bs a = AreBytes-reverse_aux bs [] a tt

module _ (text : TxidText) (laws : TxidLaws text) where
  -- A payment id of 32 bytes, of any kind, is read back from its text, where `Txid` is
  -- displayed in hex with its last byte first and read back.
  pub from_str-display :
      (id : LxPaymentId) → IsArray (id_bytes id) → from_str text (display text id) ≡ ok id
  unfolding from_str display prefix inner split cons_part of_parts of_kind Bytes-discrete ℕ_discrete
  from_str-display (onchain_send cid) a =
      rw (split-encode cid a.bytes, from_hex-encode cid _ a) refl
  from_str-display (onchain_recv txid) a =
      rw
        (
          laws.display_backward txid a,
          split-encode (reverse txid) (AreBytes-reverse txid a.bytes),
          ← laws.display_backward txid a,
          laws.parse_display txid a,
        )
        refl
  from_str-display (lightning hash) a =
      rw (split-encode hash a.bytes, from_hex-encode hash _ a) refl
