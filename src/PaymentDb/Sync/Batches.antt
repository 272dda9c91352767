-- ===== src/PaymentDb/Sync/Batches.antt =====
-- The batches of new payments that a node returns (`get_new_payments`, app-rs/src/payments.rs).
use lexe_public.Base.{
  ℕ, zero, suc, ◌+◌, ◌≤◌, ◌<◌, Bool, true, false, List, [], ◌∷◌, ◌++◌, ◌≡◌, refl, ap, length, All,
  arith,
}
use lexe_public.Ids.{PaymentIndex}
use lexe_public.PaymentDb.Basic.{BasicPayment, cmp_index, is_lt, is_strict_total_order}
use lexe_public.PaymentDb.State.{filter, last}
use lexe_public.PaymentDb.Order.{cmp_index_same, cmp_index_asym, sorted_first, sorted_rest}
use lexe_public.PaymentDb.Insert.{is_before}
use lexe_public.PaymentDb.Insert.Batch.{keys, keys-append}
use lexe_public.PaymentDb.Sync.{take, drop}

module _ {A : Type 0} where
  pub take-drop : (n : ℕ) (xs : List A) → take n xs ++ drop n xs ≡ xs
  unfolding take drop
  take-drop n [] = refl
  take-drop zero (x ∷ xs) = refl
  take-drop (suc n) (x ∷ xs) = ap (λ l. x ∷ l) (take-drop n xs)

  -- A batch shorter than the limit is the last one.
  pub take_all : (n : ℕ) (xs : List A) → length (take n xs) < n → take n xs ≡ xs
  unfolding take
  take_all n [] h = refl
  take_all zero (x ∷ xs) h = absurd (omega arith)
  take_all (suc n) (x ∷ xs) h = ap (λ l. x ∷ l) (take_all n xs (omega arith))

  pub length-drop :
      (n : ℕ) (xs : List A) → n ≤ length (take n xs) → length (drop n xs) + n ≡ length xs
  unfolding take drop
  length-drop zero [] h = refl
  length-drop (suc n) [] h = absurd (omega arith)
  length-drop zero (x ∷ xs) h = omega arith
  length-drop (suc n) (x ∷ xs) h = omega (arith, length-drop n xs (omega arith))

-- Sorted lists, cut in two.
pub sorted-append :
    (xs : List PaymentIndex) (y : PaymentIndex) (ys : List PaymentIndex)
    → is_strict_total_order (xs ++ y ∷ ys) ≡ true
    → (is_before (last xs) y ≡ true) × (is_strict_total_order (y ∷ ys) ≡ true)
unfolding is_strict_total_order is_before last
sorted-append [] y ys h = (refl, h)
sorted-append (x ∷ []) y ys h =
    let less : is_lt (cmp_index x y) ≡ true = ground (arith, h) in
    let rest : is_strict_total_order (y ∷ ys) ≡ true = ground (arith, h) in (less, rest)
sorted-append (x ∷ z ∷ xs) y ys h = sorted-append (z ∷ xs) y ys (sorted_rest x (z ∷ xs ++ y ∷ ys) h)

pub sorted_start :
    (xs ys : List PaymentIndex)
    → is_strict_total_order (xs ++ ys) ≡ true
    → is_strict_total_order xs ≡ true
unfolding is_strict_total_order
sorted_start [] ys h = refl
sorted_start (x ∷ []) ys h = refl
sorted_start (x ∷ z ∷ xs) ys h =
    let rest = sorted_start (z ∷ xs) ys (sorted_rest x (z ∷ xs ++ ys) h) in ground (arith, h, rest)

-- The first of a sorted list is not after the last.
not_before_last :
    (x z : PaymentIndex) (l : List PaymentIndex)
    → is_strict_total_order (x ∷ z ∷ l) ≡ true
    → is_before (last (z ∷ l)) x ≡ false
unfolding is_before last is_strict_total_order
not_before_last x z [] h = cmp_index_asym x z (sorted_first x (z ∷ []) h).0
not_before_last x z (w ∷ l) h =
    let rest = sorted_rest z (w ∷ l) (sorted_rest x (z ∷ w ∷ l) h) in
    let less = (sorted_first x (z ∷ w ∷ l) h).1 in not_before_last x w l (rw (less.0, rest) refl)

module _ {Invoice : Type 0} where
  filter_kept :
      (f : BasicPayment Invoice → Bool) (xs : List (BasicPayment Invoice))
      → All (λ x. f x ≡ true) xs
      → filter f xs ≡ xs
  unfolding filter
  filter_kept f [] h = refl
  filter_kept f (x ∷ xs) h = let rest = filter_kept f xs h.1 in ground (arith, h.0, rest)

  All-map_keys :
      (P : PaymentIndex → Type 0) (xs : List (BasicPayment Invoice))
      → All P (keys xs)
      → All (λ (x : BasicPayment Invoice). P x.index) xs
  All-map_keys P [] h = tt
  All-map_keys P (x ∷ xs) h = (h.0, All-map_keys P xs h.1)

  each_kept :
      (xs : List (BasicPayment Invoice)) → All (λ (x : BasicPayment Invoice). true ≡ true) xs
  each_kept [] = tt
  each_kept (x ∷ xs) = (refl, each_kept xs)

  -- The payments that come after the last of a sorted list are those that follow it.
  pub filter_after :
      (xs ys : List (BasicPayment Invoice))
      → is_strict_total_order (keys (xs ++ ys)) ≡ true
      → filter (λ p. is_before (last (keys xs)) p.index) (xs ++ ys) ≡ ys
  unfolding filter is_before last
  filter_after [] ys h = filter_kept (λ _. true) ys (each_kept ys)
  filter_after (x ∷ []) ys h =
      let less =
        All-map_keys (λ k. is_lt (cmp_index x.index k) ≡ true) ys
          (sorted_first x.index (keys ys) h) in
      let same = cmp_index_same x.index in
      let rest = filter_kept (λ p. is_lt (cmp_index x.index p.index)) ys less in
      ground (arith, same, rest)
  filter_after (x ∷ z ∷ xs) ys h =
      let before = not_before_last x.index z.index (keys xs) (
        sorted_start (x.index ∷ z.index ∷ keys xs) (keys ys)
          (rw (keys-append (x ∷ z ∷ xs) ys) at h)) in
      let rest = filter_after (z ∷ xs) ys (sorted_rest x.index (keys (z ∷ xs ++ ys)) h) in
      rw before rest
