-- ===== src/Hex.antt =====
-- The hex codec (common/src/hex.rs). A string is the list of its bytes; the codes of `0`, `A` and `a`
-- are 48, 65 and 97.
pub mod Roundtrip
pub mod Order
use lexe_public.Base.{
  ℕ, ◌+◌, ◌-◌, ◌*◌, ◌/◌, ◌%◌, Bool, true, false, ◌&&◌, List, [], ◌∷◌, length, Result, ok, err,
  ◌>>=◌, ◌>>◌, ensure, ltb, leb, ◌==◌, if◌then◌else◌,
}
use lexe_public.Ids.{Bytes}

abbrev pub Chars : Type 0
Chars = List ℕ

pub data DecodeError : Type 0 where
  bad_output_length invalid_character odd_input_length : DecodeError

-- The digit that `{:x}` writes for a number below 16.
unfoldable pub hex_digit : ℕ → ℕ
hex_digit d = if ltb d 10 then 48 + d else 87 + d

-- `write!(f, "{byte:02x}")` for each byte.
unfoldable pub encode : Bytes → Chars
unfolding hex_digit
encode [] = []
encode (byte ∷ bytes) = hex_digit (byte / 16) ∷ hex_digit (byte % 16) ∷ encode bytes

-- `as_chunks_stable::<2>`
unfoldable pub as_chunks : Chars → List (ℕ × ℕ) × Chars
as_chunks [] = ([], [])
as_chunks (c ∷ []) = ([], c ∷ [])
as_chunks (c ∷ d ∷ s) = let (chunks, extra) = as_chunks s in ((c, d) ∷ chunks, extra)

no_extra : List (ℕ × ℕ) × Chars → Result DecodeError (List (ℕ × ℕ))
no_extra (chunks, []) = ok chunks
no_extra (chunks, c ∷ extra) = err odd_input_length

unfoldable pub hex_str_to_chunks : Chars → Result DecodeError (List (ℕ × ℕ))
unfolding as_chunks no_extra
hex_str_to_chunks hex = no_extra (as_chunks hex)

unfoldable pub decode_nibble : ℕ → Result DecodeError ℕ
decode_nibble x =
    if leb 48 x && leb x 57
    then ok (x - 48)
    else if leb 97 x && leb x 102
    then ok (x - 97 + 10)
    else if leb 65 x && leb x 70
    then ok (x - 65 + 10)
    else err invalid_character

-- The loop over the chunks. A nibble is below 16, so `(hi << 4) | lo` is a sum.
unfoldable pub decode_chunks : List (ℕ × ℕ) → Result DecodeError Bytes
unfolding decode_nibble
decode_chunks [] = ok []
decode_chunks ((c_hi, c_lo) ∷ chunks) = do
  b_hi ← decode_nibble c_hi
  b_lo ← decode_nibble c_lo
  bytes ← decode_chunks chunks
  ok ((b_hi * 16 + b_lo) ∷ bytes)

-- The output buffer is given by its length; the result is what it holds on success.
unfoldable pub decode_to_slice_inner : List (ℕ × ℕ) → ℕ → Result DecodeError Bytes
unfolding decode_chunks
decode_to_slice_inner chunks n = do
  ensure (length chunks == n) bad_output_length
  decode_chunks chunks

unfoldable pub decode : Chars → Result DecodeError Bytes
unfolding hex_str_to_chunks decode_to_slice_inner
decode hex = do chunks ← hex_str_to_chunks hex; decode_to_slice_inner chunks (length chunks)

unfoldable pub decode_to_slice : Chars → ℕ → Result DecodeError Bytes
unfolding hex_str_to_chunks decode_to_slice_inner
decode_to_slice hex n = do chunks ← hex_str_to_chunks hex; decode_to_slice_inner chunks n
