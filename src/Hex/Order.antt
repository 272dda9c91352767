-- ===== src/Hex/Order.antt =====
-- The order of texts in hex (common/src/hex.rs) and of the bytes they stand for.
use Prim.Native.Nat.{compare, Ordering, lt, eq, gt}
use lexe_public.Base.{ℕ, ◌+◌, ◌*◌, ◌/◌, ◌%◌, ◌<◌, ◌≡◌, refl, List, [], ◌∷◌, arith}
use lexe_public.Ids.{Bytes}
use lexe_public.Hex.{hex_digit, encode}
use lexe_public.Hex.Roundtrip.{AreBytes}

-- `Ordering::then` and the order of slices.
abbrev pub then_with : Ordering → Ordering → Ordering
then_with eq o = o
then_with lt o = lt
then_with gt o = gt

abbrev pub lex : List ℕ → List ℕ → Ordering
lex [] [] = eq
lex [] (y ∷ ys) = lt
lex (x ∷ xs) [] = gt
lex (x ∷ xs) (y ∷ ys) = then_with (compare x y) (lex xs ys)

compare-hex_digit : (d e : ℕ) → d < 16 → e < 16 → compare (hex_digit d) (hex_digit e) ≡ compare d e
unfolding hex_digit
compare-hex_digit d e h k = ground arith

compare-pair :
    (h l k m : ℕ) (o : Ordering)
    → l < 16
    → m < 16
    → then_with (compare h k) (then_with (compare l m) o)
      ≡ then_with (compare (h * 16 + l) (k * 16 + m)) o
compare-pair h l k m o a b = ground arith

compare-byte :
    (x y : ℕ) (o : Ordering)
    → x < 256
    → y < 256
    → then_with
        (compare (hex_digit (x / 16)) (hex_digit (y / 16)))
        (then_with (compare (hex_digit (x % 16)) (hex_digit (y % 16))) o)
      ≡ then_with (compare x y) o
compare-byte x y o a b =
    let x_is : x / 16 * 16 + x % 16 ≡ x = omega arith in
    let y_is : y / 16 * 16 + y % 16 ≡ y = omega arith in
    rw
      (
        compare-hex_digit (x / 16) (y / 16) (omega arith) (omega arith),
        compare-hex_digit (x % 16) (y % 16) (omega arith) (omega arith),
        compare-pair (x / 16) (x % 16) (y / 16) (y % 16) o (omega arith) (omega arith),
        x_is,
        y_is,
      )
      refl

pub lex-encode :
    (xs ys : Bytes) → AreBytes xs → AreBytes ys → lex (encode xs) (encode ys) ≡ lex xs ys
unfolding encode
lex-encode [] [] a b = refl
lex-encode [] (y ∷ ys) a b = refl
lex-encode (x ∷ xs) [] a b = refl
lex-encode (x ∷ xs) (y ∷ ys) a b =
    rw (lex-encode xs ys a.1 b.1) (compare-byte x y (lex xs ys) a.0 b.0)
