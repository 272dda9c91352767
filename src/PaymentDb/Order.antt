-- ===== src/PaymentDb/Order.antt =====
-- The order of payment indexes (the derived `Ord` of `PaymentIndex` in common/src/ln/payments.rs), and
-- the sorted lists of app-rs/src/payments.rs.
use Prim.Native.Nat.{Ordering, compare}
use mathlib.Core.List.{reverse}
use lexe_public.Base.{
  Bool-cases, inl, inr, ℕ, true, false, List, [], ◌∷◌, ◌++◌, ◌≡◌, refl, sym, ◌∙◌, ap, All, All-map,
  arith,
}
use lexe_public.Ids.{Bytes, LxPaymentId, PaymentIndex, onchain_send, onchain_recv, lightning}
use lexe_public.Hex.Order.{then_with, lex}
use lexe_public.IdText.{prefix, cmp}
use lexe_public.PaymentDb.Basic.{cmp_index, is_lt, is_strict_total_order}

abbrev pub ordered_bytes : LxPaymentId → Bytes
ordered_bytes (onchain_send cid) = cid
ordered_bytes (onchain_recv txid) = reverse txid
ordered_bytes (lightning hash) = hash

abbrev pub ordered : PaymentIndex → List ℕ
ordered i = i.created_at ∷ prefix i.id ++ ordered_bytes i.id

cmp-lex :
    (a b : LxPaymentId) → cmp a b ≡ lex (prefix a ++ ordered_bytes a) (prefix b ++ ordered_bytes b)
unfolding cmp prefix
cmp-lex (onchain_send a) (onchain_send b) = refl
cmp-lex (onchain_send a) (onchain_recv b) = refl
cmp-lex (onchain_send a) (lightning b) = refl
cmp-lex (onchain_recv a) (onchain_send b) = refl
cmp-lex (onchain_recv a) (onchain_recv b) = refl
cmp-lex (onchain_recv a) (lightning b) = refl
cmp-lex (lightning a) (onchain_send b) = refl
cmp-lex (lightning a) (onchain_recv b) = refl
cmp-lex (lightning a) (lightning b) = refl

pub cmp_index-lex : (a b : PaymentIndex) → cmp_index a b ≡ lex (ordered a) (ordered b)
unfolding cmp_index
cmp_index-lex a b = ap (then_with (compare a.created_at b.created_at)) (cmp-lex a.id b.id)

lex_same : (xs : List ℕ) → lex xs xs ≡ Ordering.eq
lex_same [] = refl
lex_same (x ∷ xs) = ground (arith, lex_same xs)

lex_trans :
    (xs ys zs : List ℕ)
    → is_lt (lex xs ys) ≡ true
    → is_lt (lex ys zs) ≡ true
    → is_lt (lex xs zs) ≡ true
lex_trans [] [] [] h k = h
lex_trans [] (y ∷ ys) [] h k = cc
lex_trans [] ys (z ∷ zs) h k = refl
lex_trans (x ∷ xs) [] zs h k = cc
lex_trans (x ∷ xs) (y ∷ ys) [] h k = cc
lex_trans (x ∷ xs) (y ∷ ys) (z ∷ zs) h k = ground (arith, lex_trans xs ys zs)

pub cmp_index_trans :
    (a b c : PaymentIndex)
    → is_lt (cmp_index a b) ≡ true
    → is_lt (cmp_index b c) ≡ true
    → is_lt (cmp_index a c) ≡ true
cmp_index_trans a b c h k =
    ap is_lt (cmp_index-lex a c)
    ∙ lex_trans (ordered a) (ordered b) (ordered c) (ap is_lt (sym (cmp_index-lex a b)) ∙ h)
        (ap is_lt (sym (cmp_index-lex b c)) ∙ k)

pub cmp_index_same : (a : PaymentIndex) → is_lt (cmp_index a a) ≡ false
cmp_index_same a = ap is_lt (cmp_index-lex a a ∙ lex_same (ordered a))

pub cmp_index_asym :
    (a b : PaymentIndex) → is_lt (cmp_index a b) ≡ true → is_lt (cmp_index b a) ≡ false
cmp_index_asym a b h = elim (Bool-cases (is_lt (cmp_index b a))) [
  | inl back ↦
      let round = cmp_index_trans a b a h back in
      let never = cmp_index_same a in ground (arith, round, never)
  | inr never_back ↦ never_back
]

-- The first of a sorted list is less than all the others.
pub sorted_first :
    (x : PaymentIndex) (l : List PaymentIndex)
    → is_strict_total_order (x ∷ l) ≡ true
    → All (λ y. is_lt (cmp_index x y) ≡ true) l
unfolding is_strict_total_order
sorted_first x [] h = tt
sorted_first x (y ∷ l) h =
    let less : is_lt (cmp_index x y) ≡ true = ground (arith, h) in
    let rest : is_strict_total_order (y ∷ l) ≡ true = ground (arith, h) in
    (less, All-map l (λ z k. cmp_index_trans x y z less k) (sorted_first y l rest))

pub sorted_rest :
    (x : PaymentIndex) (l : List PaymentIndex)
    → is_strict_total_order (x ∷ l) ≡ true
    → is_strict_total_order l ≡ true
unfolding is_strict_total_order
sorted_rest x [] h = refl
sorted_rest x (y ∷ l) h = ground (arith, h)
