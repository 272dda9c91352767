-- ===== src/IdText/Index.antt =====
-- The text of `PaymentIndex` (common/src/ln/payments.rs) and of `TimestampMs` (common/src/time.rs). The
-- codes of `+`, `-`, `0` and `9` are 43, 45, 48 and 57.
pub mod Laws
use lexe_public.Base.{
  ℕ, zero, suc, ◌+◌, ◌-◌, ◌*◌, ◌/◌, ◌%◌, ◌^◌, Bool, true, false, Option, none, some, List, [], ◌∷◌,
  ◌++◌, Result, ok, err, ◌>>=◌, context, ◌==◌, leb, ltb, ◌&&◌, map_ok, if◌then◌else◌,
}
use lexe_public.Ids.{TimestampMs, LxPaymentId, PaymentIndex}
use lexe_public.Hex.{Chars}
use lexe_public.IdText.{TxidText, IdError, split, display, from_str}

-- `{:0width$}` of a number with at most that many digits.
unfoldable pub padded : ℕ → ℕ → Chars
padded zero n = []
padded (suc width) n = padded width (n / 10) ++ (48 + n % 10) ∷ []

unfoldable pub parse_digits : ℕ → Chars → Option ℕ
parse_digits n [] = some n
parse_digits n (c ∷ s) =
    let rest = parse_digits (n * 10 + (c - 48)) s in if leb 48 c && leb c 57 then rest else none

-- The digits after a sign, of which there is one at least.
unfoldable pub magnitude : Chars → Option ℕ
magnitude [] = none
magnitude (c ∷ s) = parse_digits 0 (c ∷ s)

pub data TimeError : Type 0 where
  negative : TimeError
  not_a_number : TimeError

-- A number of at least zero that fits an `i64`.
in_bounds : Option ℕ → Result TimeError TimestampMs
in_bounds none = err not_a_number
in_bounds (some n) = if ltb n (2 ^ 63) then ok n else err not_a_number

-- A number after a minus sign.
below_zero : Option ℕ → Result TimeError TimestampMs
below_zero none = err not_a_number
below_zero (some n) =
    if n == 0 then ok 0 else if leb n (2 ^ 63) then err negative else err not_a_number

-- `i64::from_str`, and the test for a negative number.
unfoldable pub timestamp_from_str : Chars → Result TimeError TimestampMs
unfolding in_bounds below_zero
timestamp_from_str [] = err not_a_number
timestamp_from_str (c ∷ s) =
    if c == 45
    then below_zero (magnitude s)
    else if c == 43
    then in_bounds (magnitude s)
    else in_bounds (magnitude (c ∷ s))

pub data IndexError : Type 0 where
  missing_created_at missing_index_id wrong_index_format : IndexError
  invalid_timestamp : TimeError → IndexError
  invalid_id : IdError → IndexError

map_err : {E F A : Type 0} → (E → F) → Result E A → Result F A
map_err f (ok a) = ok a
map_err f (err e) = err (f e)

module _ (text : TxidText) where
  unfoldable pub display_index : PaymentIndex → Chars
  display_index i = padded 19 i.created_at ++ 45 ∷ display text i.id

  index_of_parts : List Chars → Result IndexError PaymentIndex
  unfolding map_err
  index_of_parts [] = err missing_created_at
  index_of_parts (createdat_str ∷ []) = err missing_index_id
  index_of_parts (createdat_str ∷ id_str ∷ []) = do
    created_at ← map_err invalid_timestamp (timestamp_from_str createdat_str)
    id ← map_err invalid_id (from_str text id_str)
    ok record { created_at = created_at; id = id }
  index_of_parts (createdat_str ∷ id_str ∷ extra ∷ parts) = err wrong_index_format

  unfoldable pub index_from_str : Chars → Result IndexError PaymentIndex
  unfolding index_of_parts
  index_from_str createdat_id = index_of_parts (split 45 createdat_id)
