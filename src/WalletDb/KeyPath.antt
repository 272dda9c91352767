-- ===== src/WalletDb/KeyPath.antt =====
-- `Path` of lexe-ln/src/wallet/db/mod.rs: a keychain and a child index, with its order and its text. The
-- codes of `@`, `+` and `0` are 64, 43 and 48.
pub mod Text
use Prim.Native.Nat.{compare, Ordering}
use Prim.Native.Nat.Ordering.{lt, eq, gt}
use lexe_public.Base.{
  ℕ, zero, suc, ◌+◌, ◌/◌, ◌%◌, ◌^◌, Option, none, some, List, [], ◌∷◌, ◌++◌, Result, ok, err, ◌>>=◌,
  context, ◌≡◌, Bool, true, false, ◌&&◌, ◌==◌, ltb, if◌then◌else◌, arith,
}
use lexe_public.Base.BTree.{Order}
use lexe_public.Hex.{Chars}
use lexe_public.IdText.{split}
use lexe_public.IdText.Index.{magnitude}
use lexe_public.WalletDb.Library.{KeychainKind, external, internal}

pub record KeyPath : Type 0 where
  pub keychain : KeychainKind
  pub child : ℕ

-- The match on the two keychains.
cmp_keychains : KeychainKind → KeychainKind → Ordering → Ordering
cmp_keychains external internal children = lt
cmp_keychains internal external children = gt
cmp_keychains external external children = children
cmp_keychains internal internal children = children

unfoldable pub cmp_path : KeyPath → KeyPath → Ordering
unfolding cmp_keychains
cmp_path a b = cmp_keychains a.keychain b.keychain (compare a.child b.child)

-- `{}` of a `u32` with at most that many digits.
unfoldable pub decimal : ℕ → ℕ → Chars
decimal zero n = []
decimal (suc digits) n =
    let rest = decimal digits (n / 10) in
    if ltb n 10 then (48 + n) ∷ [] else rest ++ (48 + n % 10) ∷ []

keychain_str : KeychainKind → Chars
keychain_str external = b'e' ∷ b'x' ∷ b't' ∷ []
keychain_str internal = b'i' ∷ b'n' ∷ b't' ∷ []

unfoldable pub display_path : KeyPath → Chars
unfolding keychain_str
display_path p = keychain_str p.keychain ++ 64 ∷ decimal 10 p.child

pub data PathError : Type 0 where
  wrong_path_format wrong_keychain invalid_child : PathError

-- `==` of `str`.
str_eq : Chars → Chars → Bool
str_eq [] [] = true
str_eq [] (b ∷ t) = false
str_eq (a ∷ s) [] = false
str_eq (a ∷ s) (b ∷ t) = a == b && str_eq s t

keychain_from_str : Chars → Result PathError KeychainKind
unfolding str_eq keychain_str
keychain_from_str s =
    if str_eq s (keychain_str external)
    then ok external
    else if str_eq s (keychain_str internal)
    then ok internal
    else err wrong_keychain

fits_u32 : Option ℕ → Option ℕ
fits_u32 none = none
fits_u32 (some n) = if ltb n (2 ^ 32) then some n else none

-- `u32::from_str`
unfoldable pub u32_from_str : Chars → Option ℕ
unfolding fits_u32
u32_from_str [] = none
u32_from_str (c ∷ s) = if c == 43 then fits_u32 (magnitude s) else fits_u32 (magnitude (c ∷ s))

path_of_parts : List Chars → Result PathError KeyPath
path_of_parts (keychain_str ∷ child_str ∷ []) = do
  keychain ← keychain_from_str keychain_str
  child ← context (u32_from_str child_str) invalid_child
  ok record { keychain = keychain; child = child }
path_of_parts _ = err wrong_path_format

unfoldable pub path_from_str : Chars → Result PathError KeyPath
unfolding path_of_parts keychain_from_str
path_from_str s = path_of_parts (split 64 s)

pub cmp_reflexive : (a : KeyPath) → cmp_path a a ≡ eq
unfolding cmp_path
cmp_reflexive a = ground arith

module _ (a b : KeyPath) where
  pub cmp_antisymmetric : cmp_path a b ≡ eq → a ≡ b
  unfolding cmp_path
  cmp_antisymmetric h = ground arith

  pub cmp_below : cmp_path a b ≡ gt → cmp_path b a ≡ lt
  unfolding cmp_path
  cmp_below h = ground arith

  pub cmp_above : cmp_path a b ≡ lt → cmp_path b a ≡ gt
  unfolding cmp_path
  cmp_above h = ground arith

pub cmp_transitive : (a b c : KeyPath) → cmp_path a b ≡ lt → cmp_path b c ≡ lt → cmp_path a c ≡ lt
unfolding cmp_path
cmp_transitive a b c h k = ground arith

-- External paths are less than internal ones.
unfoldable pub path_order : Order KeyPath
path_order = record {
  cmp = cmp_path;
  reflexive = cmp_reflexive;
  antisymmetric = cmp_antisymmetric;
  below = cmp_below;
  above = cmp_above;
  transitive = cmp_transitive;
}
