-- ===== src/IdText/Tests.antt =====
-- Concrete texts and ids, and the theorems on texts at those inputs.
use mathlib.Core.Path.{subst}
use mathlib.Core.List.{reverse, reverse_aux, reverse-reverse}
use lexe_public.Base.{
  ◌+◌, Option, none, some, [], ◌∷◌, ◌≡◌, refl, ap, length, replicate, Result, ok, err, map, arith,
}
use lexe_public.Ids.{Bytes, PaymentIndex, onchain_recv, lightning}
use lexe_public.Hex.{
  DecodeError, encode, decode, decode_to_slice, hex_str_to_chunks, as_chunks, decode_to_slice_inner,
  decode_chunks, decode_nibble,
}
use lexe_public.Hex.Roundtrip.{
  AreBytes, decode-encode, encode-decode, to_lower, decode_to_slice-encode,
}
use lexe_public.Hex.Order.{lex, lex-encode}
use lexe_public.IdText.{TxidText, display, from_str, cmp}
use lexe_public.IdText.Roundtrip.{IsArray, TxidLaws, AreBytes-reverse, from_str-display}
use lexe_public.IdText.Order.{cmp-display}
use lexe_public.IdText.Index.{display_index, index_from_str}
use lexe_public.IdText.Index.Laws.{index_from_str-display}

-- The text of `test_encode` of hex.rs.
abbrev sample_bytes : Bytes
sample_bytes = 1 ∷ 52 ∷ 137 ∷ 0 ∷ 171 ∷ 255 ∷ []

sample_bytes-AreBytes : AreBytes sample_bytes
sample_bytes-AreBytes = ground arith

decode-encode_example : decode (encode sample_bytes) ≡ ok sample_bytes
decode-encode_example = decode-encode sample_bytes sample_bytes-AreBytes

-- `aB`
mixed_run : decode (97 ∷ 66 ∷ []) ≡ ok (171 ∷ [])
unfolding decode hex_str_to_chunks as_chunks decode_to_slice_inner decode_chunks decode_nibble
mixed_run = refl

encode-decode_example : (encode (171 ∷ []) ≡ map to_lower (97 ∷ 66 ∷ [])) × AreBytes (171 ∷ [])
encode-decode_example = encode-decode (97 ∷ 66 ∷ []) (171 ∷ []) mixed_run

lex-encode_example :
    lex (encode sample_bytes) (encode (1 ∷ 53 ∷ [])) ≡ lex sample_bytes (1 ∷ 53 ∷ [])
lex-encode_example = lex-encode sample_bytes (1 ∷ 53 ∷ []) sample_bytes-AreBytes (ground arith)

-- A `Txid` that is displayed and read the way rust-bitcoin documents.
reversed : Result DecodeError Bytes → Option Bytes
reversed (ok bytes) = some (reverse bytes)
reversed (err _) = none

abbrev sample_text : TxidText
unfolding reversed
sample_text = record {
  display_txid = λ t. encode (reverse t);
  txid_from_str = λ s. reversed (decode_to_slice s 32);
}

length-reverse_aux : (xs acc : Bytes) → length (reverse_aux xs acc) ≡ length xs + length acc
length-reverse_aux [] acc = omega arith
length-reverse_aux (x ∷ xs) acc = omega (arith, length-reverse_aux xs (x ∷ acc))

reverse-IsArray : (t : Bytes) → IsArray t → IsArray (reverse t)
reverse-IsArray t a = record {
  size = omega (arith, length-reverse_aux t [], a.size);
  bytes = AreBytes-reverse t a.bytes;
}

sample_text-TxidLaws : TxidLaws sample_text
unfolding reversed
sample_text-TxidLaws = record {
  display_backward = λ t a. refl;
  parse_display = λ t a.
      let b = reverse-IsArray t a in
      let read =
        subst (λ n. decode_to_slice (encode (reverse t)) n ≡ ok (reverse t)) b.size
          (decode_to_slice-encode (reverse t) b.bytes) in
      rw read (ap some (reverse-reverse t));
}

abbrev sample_hash : Bytes
sample_hash = 2 ∷ replicate 31 171

sample_hash-IsArray : IsArray sample_hash
sample_hash-IsArray = record { size = refl; bytes = ground arith }

from_str-display_example :
    from_str sample_text (display sample_text (lightning sample_hash)) ≡ ok (lightning sample_hash)
from_str-display_example =
    from_str-display sample_text sample_text-TxidLaws (lightning sample_hash) sample_hash-IsArray

abbrev other_hash : Bytes
other_hash = 1 ∷ replicate 31 200

other_hash-IsArray : IsArray other_hash
other_hash-IsArray = record { size = refl; bytes = ground arith }

cmp-display_example :
    lex
      (display sample_text (onchain_recv sample_hash))
      (display sample_text (onchain_recv other_hash))
    ≡ cmp (onchain_recv sample_hash) (onchain_recv other_hash)
cmp-display_example =
    cmp-display sample_text sample_text-TxidLaws (onchain_recv sample_hash)
      (onchain_recv other_hash) sample_hash-IsArray other_hash-IsArray

abbrev an_index : PaymentIndex
an_index = record { created_at = 1687385080000; id = lightning sample_hash }

abbrev a_later_index : PaymentIndex
a_later_index = record { created_at = 1687385080001; id = onchain_recv sample_hash }

index_from_str-display_example :
    index_from_str sample_text (display_index sample_text an_index) ≡ ok an_index
index_from_str-display_example =
    index_from_str-display sample_text sample_text-TxidLaws an_index (omega arith)
      sample_hash-IsArray
