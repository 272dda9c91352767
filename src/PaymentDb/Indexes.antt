-- ===== src/PaymentDb/Indexes.antt =====
-- The positions that an index holds (`build_index` of app-rs/src/payments.rs), and the entries of the
-- list that they point at.
use mathlib.Core.Path.{subst}
use mathlib.Core.List.{append-nil}
use lexe_public.Base.{
  ℕ, zero, suc, ◌+◌, ◌-◌, ◌≤◌, ◌<◌, Bool, none, some, List, [], ◌∷◌, ◌++◌, ◌≡◌, refl, ap, inl, inr,
  Bool-cases, some_inj, All-map, length, length-append, get_elem?, ltb, All, arith, if◌then◌else◌,
}
use lexe_public.PaymentDb.State.{as_u32, enumerate, filter, rev, positions}

-- A `u32` counts every payment.
abbrev pub u32_limit : ℕ
u32_limit = 4294967296

pub as_u32_small : (n : ℕ) → n < u32_limit → as_u32 n ≡ n
unfolding as_u32
as_u32_small n h = omega arith

pub All-filter :
    {A : Type 0} (P : A → Type 0) (f : A → Bool) (xs : List A) → All P xs → All P (filter f xs)
unfolding filter
All-filter P f [] a = tt
All-filter P f (x ∷ xs) a = elim (Bool-cases (f x)) [
  | inl e ↦ rw e (a.0, All-filter P f xs a.1)
  | inr e ↦ rw e (All-filter P f xs a.1)
]

pub All-get :
    {A : Type 0} (P : A → Type 0) (xs : List A) (i : ℕ) (a : A)
    → All P xs
    → get_elem? xs i ≡ some a
    → P a
All-get P [] i a h e = cc
All-get P (x ∷ xs) zero a h e = subst P (some_inj e) h.0
All-get P (x ∷ xs) (suc i) a h e = All-get P xs i a h.1 e

module _ {A : Type 0} where
  pub length-enumerate : (n : ℕ) (xs : List A) → length (enumerate n xs) ≡ length xs
  unfolding enumerate
  length-enumerate n [] = refl
  length-enumerate n (x ∷ xs) = ap suc (length-enumerate (suc n) xs)

  pub length-rev : (xs : List A) → length (rev xs) ≡ length xs
  unfolding rev
  length-rev [] = refl
  length-rev (x ∷ xs) = omega (arith, length-append (rev xs) (x ∷ []), length-rev xs)

  pub filter-append :
      (f : A → Bool) (xs ys : List A) → filter f (xs ++ ys) ≡ filter f xs ++ filter f ys
  unfolding filter
  filter-append f [] ys = refl
  filter-append f (x ∷ xs) ys = ground (arith, filter-append f xs ys)

  pub filter-rev : (f : A → Bool) (xs : List A) → filter f (rev xs) ≡ rev (filter f xs)
  unfolding filter rev
  filter-rev f [] = refl
  filter-rev f (x ∷ xs) =
      ground
        (arith, filter-append f (rev xs) (x ∷ []), filter-rev f xs, append-nil (rev (filter f xs)))

  pub get_elem?-append :
      (xs ys : List A) (i : ℕ)
      → get_elem? (xs ++ ys) i
        ≡ (if ltb i (length xs) then get_elem? xs i else get_elem? ys (i - length xs))
  get_elem?-append [] ys i = ground arith
  get_elem?-append (x ∷ xs) ys zero = ground arith
  get_elem?-append (x ∷ xs) ys (suc i) = ground (arith, get_elem?-append xs ys i)

  pub get_elem?-rev :
      (xs : List A) (i j : ℕ) → i + suc j ≡ length xs → get_elem? (rev xs) i ≡ get_elem? xs j
  unfolding rev
  get_elem?-rev [] i j h = absurd (omega (arith, h))
  get_elem?-rev (x ∷ xs) i zero h =
      ground (arith, get_elem?-append (rev xs) (x ∷ []) i, length-rev xs)
  get_elem?-rev (x ∷ xs) i (suc j) h =
      ground (arith, get_elem?-append (rev xs) (x ∷ []) i, length-rev xs, get_elem?-rev xs i j)

  pub get_elem?-end : (xs : List A) (i : ℕ) → length xs ≤ i → get_elem? xs i ≡ none
  get_elem?-end [] i h = refl
  get_elem?-end (x ∷ xs) zero h = absurd (omega arith)
  get_elem?-end (x ∷ xs) (suc i) h = get_elem?-end xs i (omega arith)

  pub get_elem?-some : (xs : List A) (i : ℕ) → i < length xs → (a : A) × (get_elem? xs i ≡ some a)
  get_elem?-some [] i h = absurd (omega arith)
  get_elem?-some (x ∷ xs) zero h = (x, refl)
  get_elem?-some (x ∷ xs) (suc i) h = get_elem?-some xs i (omega arith)

  pub get_elem?-enumerate :
      (n i : ℕ) (xs : List A) (x : A)
      → get_elem? xs i ≡ some x
      → get_elem? (enumerate n xs) i ≡ some (n + i, x)
  unfolding enumerate
  get_elem?-enumerate n i [] x e = cc
  get_elem?-enumerate n zero (y ∷ xs) x e = ground (arith, e)
  get_elem?-enumerate n (suc i) (y ∷ xs) x e = ground (arith, get_elem?-enumerate (suc n) i xs x e)

  -- The entries of a list that a test holds of.
  abbrev pub entries : (A → Bool) → ℕ → List A → List (ℕ × A)
  entries f n xs = filter (λ (e : ℕ × A). f e.1) (enumerate n xs)

  enumerate-get_elem? :
      (n : ℕ) (xs : List A)
      → All (λ (e : ℕ × A). (n ≤ e.0) × (get_elem? xs (e.0 - n) ≡ some e.1)) (enumerate n xs)
  unfolding enumerate
  enumerate-get_elem? n [] = tt
  enumerate-get_elem? n (x ∷ xs) = (
    (omega arith, let e : n - n ≡ 0 = omega arith in rw e refl),
    All-map (enumerate (suc n) xs)
        (λ e h.
          let s : e.0 - n ≡ suc (e.0 - suc n) = omega (arith, h.0) in
          (omega (arith, h.0), rw s h.1))
        (enumerate-get_elem? (suc n) xs),
  )

  pub entries-get_elem? :
      (f : A → Bool) (xs : List A) (i v : ℕ) (x : A)
      → get_elem? (entries f 0 xs) i ≡ some (v, x)
      → get_elem? xs v ≡ some x
  entries-get_elem? f xs i v x e =
      let Here = λ (e : ℕ × A). (0 ≤ e.0) × (get_elem? xs (e.0 - 0) ≡ some e.1) in
      let h =
        All-get Here (entries f 0 xs) i (v, x)
          (All-filter Here (λ (e : ℕ × A). f e.1) (enumerate 0 xs) (enumerate-get_elem? 0 xs)) e in
      let same : v - 0 ≡ v = omega arith in rw same at h.1

  pub length-positions :
      (f : A → Bool) (n : ℕ) (xs : List A) → length (positions f n xs) ≡ length (entries f n xs)
  unfolding positions enumerate filter
  length-positions f n [] = refl
  length-positions f n (x ∷ xs) = ground (arith, length-positions f (suc n) xs)

  pub positions-get_elem? :
      (f : A → Bool) (n : ℕ) (xs : List A) (i v : ℕ) (x : A)
      → n + length xs ≤ u32_limit
      → get_elem? (entries f n xs) i ≡ some (v, x)
      → get_elem? (positions f n xs) i ≡ some v
  unfolding positions enumerate filter
  positions-get_elem? f n [] i v x h e = cc
  positions-get_elem? f n (y ∷ xs) zero v x h e =
      ground (arith, as_u32_small n, positions-get_elem? f (suc n) xs zero v x)
  positions-get_elem? f n (y ∷ xs) (suc i) v x h e =
      ground (
        arith,
        positions-get_elem? f (suc n) xs i v x,
        positions-get_elem? f (suc n) xs (suc i) v x,
      )
