-- ===== src/PaymentDb/Counts.antt =====
-- How many items `skip` passes over, and the rank of a bitmap (app-rs/src/payments.rs,
-- `get_finalized_payment_by_scroll_idx`).
use lexe_public.Base.{
  ℕ, zero, suc, ◌+◌, ◌≤◌, ◌<◌, Bool, not, List, [], ◌∷◌, ◌++◌, ◌≡◌, refl, ◌∙◌, ap, length,
  get_elem?, ltb, dec_le, arith, if◌then◌else◌,
}
use lexe_public.PaymentDb.Bitmap.{count_le}
use lexe_public.PaymentDb.State.{enumerate, filter, rev, skip, positions}
use lexe_public.PaymentDb.Indexes.{u32_limit, as_u32_small, length-rev, length-enumerate}

module _ {A : Type 0} where
  -- How many of the first items a test holds of.
  pub skipped : (A → Bool) → ℕ → List A → ℕ
  skipped f n [] = 0
  skipped f zero (x ∷ xs) = 0
  skipped f (suc n) (x ∷ xs) = (if f x then 1 else 0) + skipped f n xs

  pub get-filter-skip :
      (f : A → Bool) (xs : List A) (n j : ℕ)
      → get_elem? (filter (λ x. not (f x)) xs) (n + j)
        ≡ get_elem? (filter (λ x. not (f x)) (skip n xs)) (skipped f n xs + j)
  unfolding filter skip skipped
  get-filter-skip f [] zero j = refl
  get-filter-skip f [] (suc n) j = refl
  get-filter-skip f (x ∷ xs) zero j = refl
  get-filter-skip f (x ∷ xs) (suc n) j =
      ground (arith, get-filter-skip f xs n j, get-filter-skip f xs n (suc j))

  skipped-append :
      (f : A → Bool) (n : ℕ) (xs ys : List A)
      → n ≤ length xs
      → skipped f n (xs ++ ys) ≡ skipped f n xs
  unfolding skipped
  skipped-append f zero [] [] h = refl
  skipped-append f zero [] (y ∷ ys) h = refl
  skipped-append f (suc n) [] ys h = absurd (omega arith)
  skipped-append f zero (x ∷ xs) ys h = refl
  skipped-append f (suc n) (x ∷ xs) ys h =
      ap (λ k. (if f x then 1 else 0) + k) (skipped-append f n xs ys (omega arith))

  skipped_end :
      (f : A → Bool) (xs : List A) (y : A)
      → skipped f (suc (length xs)) (xs ++ y ∷ [])
        ≡ skipped f (length xs) xs + (if f y then 1 else 0)
  unfolding skipped
  skipped_end f [] y = ground arith
  skipped_end f (x ∷ xs) y = ground (arith, skipped_end f xs y)

pub count_lt : ℕ → List ℕ → ℕ
count_lt r [] = 0
count_lt r (y ∷ l) = (if ltb y r then 1 else 0) + count_lt r l

pub count_le-count_lt : (r : ℕ) (l : List ℕ) → count_le r l ≡ count_lt (suc r) l
unfolding count_le count_lt
count_le-count_lt r [] = refl
count_le-count_lt r (y ∷ l) = ground (arith, count_le-count_lt r l)

module _ {A : Type 0} (f : A → Bool) where
  abbrev test : ℕ × A → Bool
  test e = f e.1

  count_lt-positions :
      (n r : ℕ) (xs : List A)
      → n + length xs ≤ u32_limit
      → r ≤ n
      → count_lt r (positions f n xs) ≡ 0
  unfolding positions count_lt
  count_lt-positions n r [] h k = refl
  count_lt-positions n r (x ∷ xs) h k =
      ground (arith, as_u32_small n, count_lt-positions (suc n) r xs)

  positions-step :
      (n r : ℕ) (x : A) (xs : List A)
      → n < u32_limit
      → count_lt r (positions f n (x ∷ xs))
        ≡ (if f x then (if ltb n r then 1 else 0) else 0) + count_lt r (positions f (suc n) xs)
  unfolding positions count_lt
  positions-step n r x xs h = ground (arith, as_u32_small n)

  length-positions-step :
      (n : ℕ) (x : A) (xs : List A)
      → length (positions f n (x ∷ xs)) ≡ (if f x then 1 else 0) + length (positions f (suc n) xs)
  unfolding positions
  length-positions-step n x xs = ground arith

  skipped_or_before_nil :
      (n s r : ℕ) → skipped test s [] + count_lt r (positions f n []) ≡ length (positions f n [])
  unfolding skipped positions count_lt
  skipped_or_before_nil n s r = refl

  -- What is skipped from the end of the list, and what lies before it.
  pub skipped_or_before :
      (n s r : ℕ) (xs : List A)
      → n + length xs ≤ u32_limit
      → r + s ≡ n + length xs
      → s ≤ length xs
      → skipped test s (rev (enumerate n xs)) + count_lt r (positions f n xs)
        ≡ length (positions f n xs)
  unfolding rev enumerate
  skipped_or_before n s r [] h k i = skipped_or_before_nil n s r
  skipped_or_before n s r (x ∷ xs) h k i =
      let before = rev (enumerate (suc n) xs) in
      let len : length before ≡ length xs =
        length-rev (enumerate (suc n) xs) ∙ length-enumerate (suc n) xs in
      rw (positions-step n r x xs (omega arith), length-positions-step n x xs)
        (elim (dec_le s (length xs)) [
          | yes inner ↦
              rw (skipped-append test s before ((n, x) ∷ []) (rw len inner))
                (ground (arith, skipped_or_before (suc n) s r xs))
          | no outer ↦
              let all : s ≡ suc (length before) = omega (arith, len) in
              rw (all, skipped_end test before (n, x), len)
                (ground (
                  arith,
                  skipped_or_before (suc n) (length xs) (suc n) xs,
                  count_lt-positions (suc n) (suc n) xs,
                  count_lt-positions (suc n) r xs,
                ))
        ])
