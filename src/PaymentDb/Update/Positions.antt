-- ===== src/PaymentDb/Update/Positions.antt =====
-- The positions that a test holds at, when one payment of the list is replaced
-- (`update_pending_payment` of app-rs/src/payments.rs).
use lexe_public.Base.{
  ℕ, zero, suc, ◌+◌, ◌≤◌, ◌<◌, Bool, true, false, some, List, [], ◌∷◌, map, ◌≡◌, refl, sym, ◌∙◌, ap,
  length, get_elem?, arith, some_inj,
}
use lexe_public.PaymentDb.Bitmap.{member, put, drop_value}
use lexe_public.PaymentDb.State.{positions}
use lexe_public.PaymentDb.Indexes.{u32_limit, as_u32_small}
use lexe_public.PaymentDb.Update.{set_at}

module _ {A : Type 0} where
  pub length-set_at : (i : ℕ) (a : A) (xs : List A) → length (set_at i a xs) ≡ length xs
  unfolding set_at
  length-set_at i a [] = refl
  length-set_at zero a (x ∷ xs) = refl
  length-set_at (suc i) a (x ∷ xs) = ap suc (length-set_at i a xs)

  pub get_elem?-set_at :
      (i : ℕ) (a b : A) (xs : List A)
      → get_elem? xs i ≡ some b
      → get_elem? (set_at i a xs) i ≡ some a
  unfolding set_at
  get_elem?-set_at i a b [] h = cc
  get_elem?-set_at zero a b (x ∷ xs) h = refl
  get_elem?-set_at (suc i) a b (x ∷ xs) h = get_elem?-set_at i a b xs h

  pub map-set_at :
      {B : Type 0} (f : A → B) (i : ℕ) (a b : A) (xs : List A)
      → get_elem? xs i ≡ some b
      → f a ≡ f b
      → map f (set_at i a xs) ≡ map f xs
  unfolding set_at
  map-set_at f i a b [] h e = refl
  map-set_at f zero a b (x ∷ xs) h e = ap (λ y. y ∷ map f xs) (e ∙ ap f (sym (some_inj h)))
  map-set_at f (suc i) a b (x ∷ xs) h e = ap (λ l. f x ∷ l) (map-set_at f i a b xs h e)

module _ {A : Type 0} (f : A → Bool) where
  -- All positions from `n` on are at least `n`.
  member_before :
      (n v : ℕ) (xs : List A)
      → n + length xs ≤ u32_limit
      → v < n
      → member v (positions f n xs) ≡ false
  unfolding positions
  member_before n v [] h k = refl
  member_before n v (x ∷ xs) h k = ground (arith, as_u32_small n, member_before (suc n) v xs)

  drop_before :
      (n v : ℕ) (xs : List A)
      → n + length xs ≤ u32_limit
      → v < n
      → drop_value v (positions f n xs) ≡ positions f n xs
  unfolding positions drop_value
  drop_before n v [] h k = refl
  drop_before n v (x ∷ xs) h k = ground (arith, as_u32_small n, drop_before (suc n) v xs)

  put_before :
      (n v : ℕ) (xs : List A)
      → n + length xs ≤ u32_limit
      → v < n
      → put v (positions f n xs) ≡ v ∷ positions f n xs
  unfolding positions put
  put_before n v [] h k = refl
  put_before n v (x ∷ xs) h k = ground (arith, as_u32_small n, put_before (suc n) v xs)

  pub member-positions :
      (n i : ℕ) (xs : List A) (x : A)
      → n + length xs ≤ u32_limit
      → get_elem? xs i ≡ some x
      → member (n + i) (positions f n xs) ≡ f x
  unfolding positions
  member-positions n i [] x h e = cc
  member-positions n zero (y ∷ xs) x h e =
      let same = some_inj e in
      rw (← same) (ground (arith, as_u32_small n, member_before (suc n) n xs))
  member-positions n (suc i) (y ∷ xs) x h e =
      let rest = member-positions (suc n) i xs x (omega arith) e in
      let same : suc n + i ≡ n + suc i = omega arith in
      let found = rw same at rest in ground (arith, as_u32_small n, found)

  pub positions-set_same :
      (n i : ℕ) (xs : List A) (x a : A)
      → get_elem? xs i ≡ some x
      → f a ≡ f x
      → positions f n (set_at i a xs) ≡ positions f n xs
  unfolding positions set_at
  positions-set_same n i [] x a e s = cc
  positions-set_same n zero (y ∷ xs) x a e s =
      let same = some_inj e in ground (arith, s ∙ ap f (sym same))
  positions-set_same n (suc i) (y ∷ xs) x a e s =
      ground (arith, positions-set_same (suc n) i xs x a e s)

  pub positions-set_off :
      (n i : ℕ) (xs : List A) (a : A)
      → n + length xs ≤ u32_limit
      → i < length xs
      → f a ≡ false
      → positions f n (set_at i a xs) ≡ drop_value (n + i) (positions f n xs)
  unfolding positions set_at drop_value
  positions-set_off n i [] a h k e = absurd (omega arith)
  positions-set_off n zero (y ∷ xs) a h k e =
      ground (arith, e, as_u32_small n, drop_before (suc n) n xs)
  positions-set_off n (suc i) (y ∷ xs) a h k e =
      let rest = positions-set_off (suc n) i xs a (omega arith) (omega arith) e in
      let same : suc n + i ≡ n + suc i = omega arith in
      let found = rw same at rest in ground (arith, as_u32_small n, found)

  pub positions-set_on :
      (n i : ℕ) (xs : List A) (a : A)
      → n + length xs ≤ u32_limit
      → i < length xs
      → f a ≡ true
      → positions f n (set_at i a xs) ≡ put (n + i) (positions f n xs)
  unfolding positions set_at put
  positions-set_on n i [] a h k e = absurd (omega arith)
  positions-set_on n zero (y ∷ xs) a h k e =
      ground (arith, e, as_u32_small n, put_before (suc n) n xs)
  positions-set_on n (suc i) (y ∷ xs) a h k e =
      let rest = positions-set_on (suc n) i xs a (omega arith) (omega arith) e in
      let same : suc n + i ≡ n + suc i = omega arith in
      let found = rw same at rest in ground (arith, as_u32_small n, found)
