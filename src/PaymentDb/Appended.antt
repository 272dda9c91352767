-- ===== src/PaymentDb/Appended.antt =====
-- The positions that a test holds at, when payments are appended to the list
-- (`insert_new_payments` of app-rs/src/payments.rs).
use lexe_public.Base.{
  ℕ, suc, ◌+◌, ◌≤◌, ◌<◌, Bool, true, false, none, some, List, [], ◌∷◌, ◌++◌, map, ◌≡◌, refl, ap,
  length, All, All-map, Bool-cases, inl, inr, arith,
}
use lexe_public.Ids.{PaymentIndex}
use lexe_public.PaymentDb.Basic.{is_strict_total_order}
use lexe_public.PaymentDb.Bitmap.{member, put}
use lexe_public.PaymentDb.State.{positions, last}
use lexe_public.PaymentDb.Insert.{is_before}
use lexe_public.PaymentDb.Indexes.{u32_limit, as_u32_small}

-- A value above all others goes to the end.
pub put_end : (x : ℕ) (l : List ℕ) → All (λ y. y < x) l → put x l ≡ l ++ x ∷ []
unfolding put
put_end x [] h = refl
put_end x (y ∷ l) h = ground (arith, put_end x l h.1, h.0)

pub member_above : (x : ℕ) (l : List ℕ) → All (λ y. y < x) l → member x l ≡ false
member_above x [] h = refl
member_above x (y ∷ l) h = ground (arith, member_above x l h.1, h.0)

pub member_end : (x : ℕ) (l : List ℕ) → member x (l ++ x ∷ []) ≡ true
member_end x [] = ground arith
member_end x (y ∷ l) = ground (arith, member_end x l)

module _ {A : Type 0} (f : A → Bool) where
  pub positions-append :
      (n : ℕ) (xs ys : List A)
      → positions f n (xs ++ ys) ≡ positions f n xs ++ positions f (n + length xs) ys
  unfolding positions
  positions-append n [] ys = ap (λ k. positions f k ys) (omega arith)
  positions-append n (x ∷ xs) ys =
      let same : n + suc (length xs) ≡ suc n + length xs = omega arith in
      rw same (ground (arith, positions-append (suc n) xs ys))

  pub positions_below :
      (n : ℕ) (xs : List A)
      → n + length xs ≤ u32_limit
      → All (λ v. v < n + length xs) (positions f n xs)
  unfolding positions
  positions_below n [] h = tt
  positions_below n (x ∷ xs) h =
      let rest =
        All-map (positions f (suc n) xs) (λ v k. omega (arith, k))
          (positions_below (suc n) xs (omega arith)) in
      elim (Bool-cases (f x)) [
        | inl e ↦ rw e (omega (arith, as_u32_small n (omega arith)), rest)
        | inr e ↦ rw e rest
      ]

-- Sorted indexes, and later ones after them.
pub is_strict_total_order-append :
    (xs : List PaymentIndex) (y : PaymentIndex) (ys : List PaymentIndex)
    → is_strict_total_order xs ≡ true
    → is_before (last xs) y ≡ true
    → is_strict_total_order (y ∷ ys) ≡ true
    → is_strict_total_order (xs ++ y ∷ ys) ≡ true
unfolding is_strict_total_order is_before last
is_strict_total_order-append [] y ys a b c = c
is_strict_total_order-append (x ∷ []) y ys a b c = ground (arith, b, c)
is_strict_total_order-append (x ∷ z ∷ xs) y ys a b c =
    ground (arith, a, is_strict_total_order-append (z ∷ xs) y ys)

pub last-map :
    {A B : Type 0} (f : A → B) (xs : List A)
    → last (map f xs) ≡ elim (last xs) [ none ↦ none | some x ↦ some (f x) ]
unfolding last
last-map f [] = refl
last-map f (x ∷ []) = refl
last-map f (x ∷ y ∷ xs) = last-map f (y ∷ xs)
