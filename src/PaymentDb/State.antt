-- ===== src/PaymentDb/State.antt =====
-- `PaymentDbState`: the payments, the indexes, and the lookups (app-rs/src/payments.rs).
use lexe_public.Base.{
  ℕ, zero, suc, ◌+◌, ◌-◌, ◌%◌, Bool, Option, none, some, List, [], ◌∷◌, ◌++◌, length, if◌then◌else◌,
  ℕ_discrete,
}
use lexe_public.Ids.{PaymentIndex}
use lexe_public.PaymentDb.Basic.{BasicPayment}
use lexe_public.PaymentDb.Bitmap.{Bitmap}

pub data Panic : Type 0 where
  panicked : Panic

-- `as u32`
unfoldable pub as_u32 : ℕ → ℕ
as_u32 n = n % 4294967296

-- A subtraction of `usize`s, as a release build makes it.
unfoldable pub usize_sub : ℕ → ℕ → ℕ
usize_sub a b = (a + 18446744073709551616 - b) % 18446744073709551616

pub record DbState (Invoice B : Type 0) : Type 0 where
  pub payments : List (BasicPayment Invoice)
  pub pending : B
  pub pending_not_junk : B
  pub finalized_not_junk : B

unfoldable pub PaymentIndex-discrete : Discrete PaymentIndex
PaymentIndex-discrete = hlevel ℕ_discrete

module _ {A : Type 0} where
  -- `enumerate`, from a first number on.
  unfoldable pub enumerate : ℕ → List A → List (ℕ × A)
  enumerate n [] = []
  enumerate n (x ∷ xs) = (n, x) ∷ enumerate (suc n) xs

  unfoldable pub filter : (A → Bool) → List A → List A
  filter f [] = []
  filter f (x ∷ xs) = let rest = filter f xs in if f x then x ∷ rest else rest

  -- `rev` and `skip` of iterators.
  unfoldable pub rev : List A → List A
  rev [] = []
  rev (x ∷ xs) = rev xs ++ x ∷ []

  unfoldable pub skip : ℕ → List A → List A
  skip n [] = []
  skip zero (x ∷ xs) = x ∷ xs
  skip (suc n) (x ∷ xs) = skip n xs

  unfoldable pub last : List A → Option A
  last [] = none
  last (x ∷ []) = some x
  last (x ∷ y ∷ xs) = last (y ∷ xs)

-- The `filter_map` of `build_index`.
unfoldable pub positions : {A : Type 0} → (A → Bool) → ℕ → List A → List ℕ
positions f n [] = []
positions f n (x ∷ xs) = let rest = positions f (suc n) xs in if f x then as_u32 n ∷ rest else rest

module _ {Invoice B : Type 0} where
  unfoldable pub num_payments : DbState Invoice B → ℕ
  num_payments s = length s.payments

module _ {Invoice B : Type 0} (bm : Bitmap B) where
  -- `none` is the panic of its `expect`.
  unfoldable pub build_index :
      (BasicPayment Invoice → Bool) → List (BasicPayment Invoice) → Option B
  build_index f payments = bm.from_sorted_iter (positions f 0 payments)

  unfoldable pub empty : DbState Invoice B
  empty = record {
    payments = [];
    pending = bm.new;
    pending_not_junk = bm.new;
    finalized_not_junk = bm.new;
  }

  unfoldable pub num_pending : DbState Invoice B → ℕ
  num_pending s = bm.len s.pending

  unfoldable pub num_finalized : DbState Invoice B → ℕ
  unfolding num_payments num_pending usize_sub
  num_finalized s = usize_sub (num_payments s) (num_pending s)

  unfoldable pub num_pending_not_junk : DbState Invoice B → ℕ
  num_pending_not_junk s = bm.len s.pending_not_junk

  unfoldable pub num_finalized_not_junk : DbState Invoice B → ℕ
  num_finalized_not_junk s = bm.len s.finalized_not_junk
