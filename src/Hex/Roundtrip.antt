-- ===== src/Hex/Roundtrip.antt =====
-- Encoding against decoding (common/src/hex.rs).
use lexe_public.Base.{
  ℕ, suc, ◌+◌, ◌*◌, ◌/◌, ◌%◌, ◌<◌, ◌≡◌, refl, sym, ◌∙◌, ap, List, [], ◌∷◌, length, All, ok,
  >>=-eq-ok, leb, ◌&&◌, if◌then◌else◌, arith, map,
}
use lexe_public.Ids.{Bytes}
use lexe_public.Hex.{
  Chars, hex_digit, encode, as_chunks, hex_str_to_chunks, decode_nibble, decode_chunks,
  decode_to_slice_inner, decode, decode_to_slice,
}

-- A list of `u8`s.
abbrev pub AreBytes : Bytes → Type 0
AreBytes bs = All (λ (b : ℕ). b < 256) bs

decode_nibble-hex_digit : (d : ℕ) → d < 16 → decode_nibble (hex_digit d) ≡ ok d
unfolding decode_nibble hex_digit
decode_nibble-hex_digit d h = ground arith

pair-bytes : (b : ℕ) → b < 256 → (b / 16 < 16) × (b % 16 < 16) × (b / 16 * 16 + b % 16 ≡ b)
pair-bytes b h = (omega arith, omega arith, omega arith)

-- The chunks of a text that was encoded.
digits : Bytes → List (ℕ × ℕ)
digits [] = []
digits (b ∷ bs) = (hex_digit (b / 16), hex_digit (b % 16)) ∷ digits bs

as_chunks-encode : (bs : Bytes) → as_chunks (encode bs) ≡ (digits bs, [])
unfolding as_chunks encode digits
as_chunks-encode [] = refl
as_chunks-encode (b ∷ bs) = rw (as_chunks-encode bs) refl

length-digits : (bs : Bytes) → length (digits bs) ≡ length bs
unfolding digits
length-digits [] = refl
length-digits (b ∷ bs) = ap suc (length-digits bs)

decode_chunks-digits : (bs : Bytes) → AreBytes bs → decode_chunks (digits bs) ≡ ok bs
unfolding decode_chunks digits
decode_chunks-digits [] a = refl
decode_chunks-digits (b ∷ bs) a =
    let (hi, lo, sum) = pair-bytes b a.0 in
    rw
      (
        decode_nibble-hex_digit (b / 16) hi,
        decode_nibble-hex_digit (b % 16) lo,
        decode_chunks-digits bs a.1,
        sum,
      )
      refl

hex_str_to_chunks-encode : (bs : Bytes) → hex_str_to_chunks (encode bs) ≡ ok (digits bs)
unfolding hex_str_to_chunks
hex_str_to_chunks-encode bs = rw (as_chunks-encode bs) refl

-- A buffer of the right length is filled.
decode_to_slice_inner-fits :
    (chunks : List (ℕ × ℕ)) (n : ℕ)
    → length chunks ≡ n
    → decode_to_slice_inner chunks n ≡ decode_chunks chunks
unfolding decode_to_slice_inner
decode_to_slice_inner-fits chunks n h = ground arith

pub decode_to_slice-encode :
    (bs : Bytes) → AreBytes bs → decode_to_slice (encode bs) (length bs) ≡ ok bs
unfolding decode_to_slice
decode_to_slice-encode bs a = rw (hex_str_to_chunks-encode bs) (
    decode_to_slice_inner-fits (digits bs) (length bs) (length-digits bs)
    ∙ decode_chunks-digits bs a)

-- A text that `encode` made of `u8`s is decoded to them.
pub decode-encode : (bs : Bytes) → AreBytes bs → decode (encode bs) ≡ ok bs
unfolding decode
decode-encode bs a =
    rw (hex_str_to_chunks-encode bs)
      (decode_to_slice_inner-fits (digits bs) (length (digits bs)) refl ∙ decode_chunks-digits bs a)

-- `to_ascii_lowercase`
abbrev pub to_lower : ℕ → ℕ
to_lower c = if leb 65 c && leb c 90 then c + 32 else c

hex_digit-decode_nibble : (c d : ℕ) → decode_nibble c ≡ ok d → (d < 16) × (hex_digit d ≡ to_lower c)
unfolding decode_nibble hex_digit
hex_digit-decode_nibble c d h = ground arith

encode-decode_chunks :
    (s : Chars) (bs : Bytes)
    → (as_chunks s).1 ≡ []
    → decode_chunks (as_chunks s).0 ≡ ok bs
    → (encode bs ≡ map to_lower s) × AreBytes bs
unfolding as_chunks decode_chunks encode
encode-decode_chunks [] bs e h = let same : [] ≡ bs = cc in rw (← same) (refl, tt)
encode-decode_chunks (c ∷ []) bs e h = cc
encode-decode_chunks (c ∷ d ∷ s) bs e h =
    let (hi, h₁, k₁) = >>=-eq-ok (decode_nibble c) _ h in
    let (lo, h₂, k₂) = >>=-eq-ok (decode_nibble d) _ k₁ in
    let (rest, h₃, k₃) = >>=-eq-ok (decode_chunks (as_chunks s).0) _ k₂ in
    let (hi_small, hi_digit) = hex_digit-decode_nibble c hi h₁ in
    let (lo_small, lo_digit) = hex_digit-decode_nibble d lo h₂ in
    let (same, bytes) = encode-decode_chunks s rest e h₃ in
    let all : (hi * 16 + lo) ∷ rest ≡ bs = cc in
    let quotient : (hi * 16 + lo) / 16 ≡ hi = omega arith in
    let remainder : (hi * 16 + lo) % 16 ≡ lo = omega arith in
    rw (← all) (rw (quotient, remainder, hi_digit, lo_digit, same) refl, (omega arith, bytes))

no_extra-ok :
    (s : Chars) (chunks : List (ℕ × ℕ))
    → hex_str_to_chunks s ≡ ok chunks
    → ((as_chunks s).1 ≡ []) × ((as_chunks s).0 ≡ chunks)
unfolding hex_str_to_chunks
no_extra-ok s chunks h = ground arith

-- What `decode` accepts it decodes to `u8`s, and encoding them gives the text back in lower
-- case.
pub encode-decode :
    (s : Chars) (bs : Bytes) → decode s ≡ ok bs → (encode bs ≡ map to_lower s) × AreBytes bs
unfolding decode
encode-decode s bs h =
    let (chunks, h₁, k₁) = >>=-eq-ok (hex_str_to_chunks s) _ h in
    let (even, same) = no_extra-ok s chunks h₁ in
    let decoded = sym (decode_to_slice_inner-fits chunks (length chunks) refl) ∙ k₁ in
    encode-decode_chunks s bs even (rw same decoded)
