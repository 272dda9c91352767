-- ===== src/IdText/Index/Laws.antt =====
-- `FromStr` against `Display` of `PaymentIndex`, and the order of its texts
-- (common/src/ln/payments.rs).
use Prim.Native.Nat.{compare}
use lexe_public.Base.{
  ℕ, zero, suc, ◌+◌, ◌-◌, ◌*◌, ◌/◌, ◌%◌, ◌^◌, ◌<◌, false, some, [], ◌∷◌, ◌++◌, ◌≡◌, refl, sym, ◌∙◌,
  ap, length, length-append, ok, ◌==◌, All-map, arith,
}
use mathlib.Core.List.{append-nil, append_assoc}
use mathlib.Core.List.{reverse}
use lexe_public.Ids.{Bytes, LxPaymentId, PaymentIndex, onchain_send, onchain_recv, lightning}
use lexe_public.Hex.{hex_digit, encode}
use lexe_public.Hex.Roundtrip.{AreBytes}
use lexe_public.IdText.Roundtrip.{IsArray, id_bytes, TxidLaws, AreBytes-reverse, from_str-display}
use lexe_public.IdText.Order.{cmp-display}
use lexe_public.PaymentDb.Basic.{cmp_index}
use lexe_public.Hex.{Chars}
use lexe_public.Hex.Order.{then_with, lex}
use lexe_public.IdText.{TxidText, prefix, inner, display}
use lexe_public.IdText.Digits.{pow10, AreDigits, AreDigits-append, Lacks, split_two}
use lexe_public.IdText.Index.{
  padded, parse_digits, magnitude, in_bounds, timestamp_from_str, map_err, display_index,
  index_of_parts, index_from_str,
}

lex-padded :
    (k m n : ℕ) (xs ys : Chars)
    → m < pow10 k
    → n < pow10 k
    → lex (padded k m ++ xs) (padded k n ++ ys) ≡ then_with (compare m n) (lex xs ys)
unfolding padded
lex-padded zero m n xs ys h i =
    let m_is : m ≡ 0 = omega arith in let n_is : n ≡ 0 = omega arith in rw (m_is, n_is) refl
lex-padded (suc k) m n xs ys h i =
    let left = append_assoc (padded k (m / 10)) ((48 + m % 10) ∷ []) xs in
    let right = append_assoc (padded k (n / 10)) ((48 + n % 10) ∷ []) ys in
    rw
      (
        left,
        right,
        lex-padded k (m / 10) (n / 10) ((48 + m % 10) ∷ xs) ((48 + n % 10) ∷ ys) (omega arith)
            (omega arith),
      )
      (ground arith)

parse_digits-padded :
    (k n : ℕ) (rest : Chars)
    → n < pow10 k
    → parse_digits 0 (padded k n ++ rest) ≡ parse_digits n rest
unfolding padded parse_digits
parse_digits-padded zero n rest h = ap (λ m. parse_digits m rest) (omega arith)
parse_digits-padded (suc k) n rest h =
    let split_off = append_assoc (padded k (n / 10)) ((48 + n % 10) ∷ []) rest in
    let value : n / 10 * 10 + (48 + n % 10 - 48) ≡ n = omega arith in
    rw (split_off, parse_digits-padded k (n / 10) ((48 + n % 10) ∷ rest) (omega arith), value)
      (ground arith)

padded-AreDigits : (k n : ℕ) → AreDigits (padded k n)
unfolding padded
padded-AreDigits zero n = tt
padded-AreDigits (suc k) n =
    AreDigits-append (padded k (n / 10)) ((48 + n % 10) ∷ []) (padded-AreDigits k (n / 10))
      ((omega arith, omega arith), tt)

length-padded : (k n : ℕ) → length (padded k n) ≡ k
unfolding padded
length-padded zero n = refl
length-padded (suc k) n =
    omega (arith, length-append (padded k (n / 10)) ((48 + n % 10) ∷ []), length-padded k (n / 10))

-- Digits have no sign.
timestamp_from_str_digits :
    (s : Chars) → AreDigits s → 0 < length s → timestamp_from_str s ≡ in_bounds (parse_digits 0 s)
unfolding timestamp_from_str magnitude
timestamp_from_str_digits [] h k = absurd (omega arith)
timestamp_from_str_digits (c ∷ s) h k = ground (arith, h.0)

timestamp_from_str-padded : (n : ℕ) → n < 2 ^ 63 → timestamp_from_str (padded 19 n) ≡ ok n
unfolding in_bounds parse_digits
timestamp_from_str-padded n h =
    let value = parse_digits-padded 19 n [] (omega arith) in
    let whole = append-nil (padded 19 n) in
    let number : parse_digits 0 (padded 19 n) ≡ some n = ap (parse_digits 0) (sym whole) ∙ value in
    rw
      (
        timestamp_from_str_digits (padded 19 n) (padded-AreDigits 19 n)
            (omega (arith, length-padded 19 n)),
        number,
      )
      (ground arith)

no_dash : (d : ℕ) → d < 16 → (hex_digit d == 45) ≡ false
unfolding hex_digit
no_dash d h = ground arith

encode-Lacks : (bs : Bytes) → AreBytes bs → Lacks 45 (encode bs)
unfolding encode
encode-Lacks [] a = tt
encode-Lacks (b ∷ bs) a =
    (no_dash (b / 16) (omega (arith, a.0)), (no_dash (b % 16) (omega arith), encode-Lacks bs a.1))

module _ (text : TxidText) (laws : TxidLaws text) where
  display-Lacks : (id : LxPaymentId) → IsArray (id_bytes id) → Lacks 45 (display text id)
  unfolding display prefix inner
  display-Lacks (onchain_send cid) a = (refl, (refl, (refl, encode-Lacks cid a.bytes)))
  display-Lacks (onchain_recv txid) a =
      rw (laws.display_backward txid a)
        (refl, (refl, (refl, encode-Lacks (reverse txid) (AreBytes-reverse txid a.bytes))))
  display-Lacks (lightning hash) a = (refl, (refl, (refl, encode-Lacks hash a.bytes)))

  -- A payment index with a timestamp that fits an `i64` and an id of 32 bytes is read back
  -- from its text, where `Txid` is displayed in hex with its last byte first and read back.
  pub index_from_str-display :
      (i : PaymentIndex)
      → i.created_at < 2 ^ 63
      → IsArray (id_bytes i.id)
      → index_from_str text (display_index text i) ≡ ok i
  unfolding index_from_str index_of_parts map_err display_index
  index_from_str-display i h a =
      let digits =
        All-map (padded 19 i.created_at) (λ c k. ground (arith, k))
          (padded-AreDigits 19 i.created_at) in
      let parts =
        split_two 45 (padded 19 i.created_at) (display text i.id) digits (display-Lacks i.id a) in
      rw
        (
          index_from_str,
          display_index,
          parts,
          timestamp_from_str-padded i.created_at h,
          from_str-display text laws i.id a,
        )
        refl

  -- The order of two payment indexes, with timestamps that fit an `i64` and ids of 32 bytes,
  -- is the lexicographic order of their texts, where `Txid` is displayed in hex with its last
  -- byte first.
  pub cmp_index-display :
      (i j : PaymentIndex)
      → i.created_at < 2 ^ 63
      → j.created_at < 2 ^ 63
      → IsArray (id_bytes i.id)
      → IsArray (id_bytes j.id)
      → lex (display_index text i) (display_index text j) ≡ cmp_index i j
  unfolding display_index cmp_index
  cmp_index-display i j h k a b =
      lex-padded 19 i.created_at j.created_at (45 ∷ display text i.id) (45 ∷ display text j.id)
        (omega arith) (omega arith)
      ∙ ap (then_with (compare i.created_at j.created_at)) (cmp-display text laws i.id j.id a b)
