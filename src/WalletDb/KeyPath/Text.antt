-- ===== src/WalletDb/KeyPath/Text.antt =====
-- The text of a path (lexe-ln/src/wallet/db/mod.rs), read back.
use mathlib.Core.List.{append_assoc, append-nil}
use lexe_public.Base.{
  ℕ, zero, suc, ◌+◌, ◌-◌, ◌*◌, ◌/◌, ◌%◌, ◌^◌, ◌<◌, some, [], ◌∷◌, ◌++◌, ◌≡◌, refl, sym, ◌∙◌, ap,
  inl, inr, ok, ltb, Bool-cases, All-map, length, length-append, arith, ltb→lt,
}
use lexe_public.Hex.{Chars}
use lexe_public.IdText.Digits.{pow10, AreDigits, AreDigits-append, Lacks, split_two}
use lexe_public.IdText.Index.{parse_digits, magnitude}
use lexe_public.WalletDb.Library.{KeychainKind, external, internal}
use lexe_public.WalletDb.KeyPath.{
  KeyPath, decimal, keychain_str, display_path, str_eq, keychain_from_str, fits_u32, u32_from_str,
  path_of_parts, path_from_str,
}

parse_digits-decimal :
    (k n : ℕ) (rest : Chars)
    → n < pow10 k
    → parse_digits 0 (decimal k n ++ rest) ≡ parse_digits n rest
unfolding decimal parse_digits
parse_digits-decimal zero n rest h = ap (λ m. parse_digits m rest) (omega arith)
parse_digits-decimal (suc k) n rest h = elim (Bool-cases (ltb n 10)) [
  | inl e ↦ rw e (ground arith)
  | inr e ↦
      let split_off = append_assoc (decimal k (n / 10)) ((48 + n % 10) ∷ []) rest in
      let value : n / 10 * 10 + (48 + n % 10 - 48) ≡ n = omega arith in
      rw (e, split_off, parse_digits-decimal k (n / 10) ((48 + n % 10) ∷ rest) (omega arith), value)
        (ground arith)
]

decimal-AreDigits : (k n : ℕ) → AreDigits (decimal k n)
unfolding decimal
decimal-AreDigits zero n = tt
decimal-AreDigits (suc k) n = elim (Bool-cases (ltb n 10)) [
  | inl e ↦ rw e ((omega (arith, ltb→lt n 10 e), omega (arith, ltb→lt n 10 e)), tt)
  | inr e ↦ rw e (
      AreDigits-append (decimal k (n / 10)) ((48 + n % 10) ∷ []) (decimal-AreDigits k (n / 10))
        ((omega arith, omega arith), tt))
]

decimal_nonempty : (k n : ℕ) → 0 < length (decimal (suc k) n)
unfolding decimal
decimal_nonempty k n = ground (arith, length-append (decimal k (n / 10)) ((48 + n % 10) ∷ []))

u32_from_str_digits :
    (s : Chars) → AreDigits s → 0 < length s → u32_from_str s ≡ fits_u32 (parse_digits 0 s)
unfolding u32_from_str magnitude
u32_from_str_digits [] h k = absurd (omega arith)
u32_from_str_digits (c ∷ s) h k = ground (arith, h.0)

u32_from_str-decimal : (n : ℕ) → n < 2 ^ 32 → u32_from_str (decimal 10 n) ≡ some n
unfolding fits_u32 parse_digits
u32_from_str-decimal n h =
    let number : parse_digits 0 (decimal 10 n) ≡ some n =
      ap (parse_digits 0) (sym (append-nil (decimal 10 n)))
      ∙ parse_digits-decimal 10 n [] (omega arith) in
    rw (u32_from_str_digits (decimal 10 n) (decimal-AreDigits 10 n) (decimal_nonempty 9 n), number)
      (ground arith)

keychain_str-Lacks : (k : KeychainKind) → Lacks 64 (keychain_str k)
unfolding keychain_str
keychain_str-Lacks external = (refl, (refl, (refl, tt)))
keychain_str-Lacks internal = (refl, (refl, (refl, tt)))

keychain_from_str-keychain_str : (k : KeychainKind) → keychain_from_str (keychain_str k) ≡ ok k
unfolding keychain_from_str keychain_str str_eq
keychain_from_str-keychain_str external = refl
keychain_from_str-keychain_str internal = refl

-- A path whose child fits a `u32` is read back from its text.
pub path_from_str-display : (p : KeyPath) → p.child < 2 ^ 32 → path_from_str (display_path p) ≡ ok p
unfolding path_of_parts path_from_str display_path
path_from_str-display p h =
    let digits =
      All-map (decimal 10 p.child) (λ c k. ground (arith, k)) (decimal-AreDigits 10 p.child) in
    let parts =
      split_two 64 (keychain_str p.keychain) (decimal 10 p.child) (keychain_str-Lacks p.keychain)
        digits in
    rw
      (
        path_from_str,
        display_path,
        parts,
        keychain_from_str-keychain_str p.keychain,
        u32_from_str-decimal p.child h,
      )
      refl
