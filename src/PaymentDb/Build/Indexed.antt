-- ===== src/PaymentDb/Build/Indexed.antt =====
-- The state that `from_unsorted_vec` makes (app-rs/src/payments.rs).
use lexe_public.Base.{
  ℕ, suc, ◌+◌, ◌≤◌, Bool, List, [], ◌∷◌, ◌≡◌, refl, length, some, Bool-cases, inl, inr, arith,
}
use lexe_public.Ids.{PaymentIndex}
use lexe_public.PaymentDb.Basic.{
  BasicPayment, Descriptions, is_pending, is_pending_not_junk, is_finalized_not_junk,
}
use lexe_public.PaymentDb.Bitmap.{Bitmap, BitmapLaws, AscendsFrom}
use lexe_public.PaymentDb.State.{DbState, positions, build_index}
use lexe_public.PaymentDb.Invariant.{IsConsistent}
use lexe_public.PaymentDb.Indexes.{u32_limit, as_u32_small}
use lexe_public.PaymentDb.Build.{sort_unstable, dedup, build_state, from_unsorted_vec}
use lexe_public.PaymentDb.Build.Sorting.{
  has_index, dedup-sorted, has_index-from_unsorted, length-from_unsorted,
}

AscendsFrom-lower : (m n : ℕ) (l : List ℕ) → m ≤ n → AscendsFrom n l → AscendsFrom m l
AscendsFrom-lower m n [] h a = tt
AscendsFrom-lower m n (x ∷ l) h a = (omega (arith, a.0), a.1)

positions-ascend :
    {A : Type 0} (f : A → Bool) (n : ℕ) (xs : List A)
    → n + length xs ≤ u32_limit
    → AscendsFrom n (positions f n xs)
unfolding positions
positions-ascend f n [] h = tt
positions-ascend f n (x ∷ xs) h =
    let rest = positions-ascend f (suc n) xs (omega arith) in
    let here = as_u32_small n (omega arith) in
    elim (Bool-cases (f x)) [
      | inl e ↦ rw (e, here) (omega arith, rest)
      | inr e ↦ rw e (AscendsFrom-lower n (suc n) (positions f (suc n) xs) (omega arith) rest)
    ]

module _ {Invoice B : Type 0} (bm : Bitmap B) (laws : BitmapLaws bm)
    (text : Descriptions Invoice) where
  -- From at most 2^32 payments in any order and with any repetitions `from_unsorted_vec`
  -- builds, without a panic, a consistent state that has a payment of an index just when the
  -- given payments have one.
  pub from_unsorted_vec-IsConsistent :
      (ps : List (BasicPayment Invoice))
      → length ps ≤ u32_limit
      → (s : DbState Invoice B) × (from_unsorted_vec bm text ps ≡ some s)
        × IsConsistent bm text s
        × ((i : PaymentIndex) → has_index i s.payments ≡ has_index i ps)
  unfolding from_unsorted_vec build_state build_index
  from_unsorted_vec-IsConsistent ps h =
      let sorted = dedup (sort_unstable ps) in
      let fits : length sorted ≤ u32_limit = omega (arith, length-from_unsorted ps) in
      let (pending, made, holds) =
        laws.from_sorted (positions is_pending 0 sorted)
          (positions-ascend is_pending 0 sorted (omega arith)) in
      let (not_junk, made_not_junk, holds_not_junk) =
        laws.from_sorted (positions (is_pending_not_junk text) 0 sorted)
          (positions-ascend (is_pending_not_junk text) 0 sorted (omega arith)) in
      let (final, made_final, holds_final) =
        laws.from_sorted (positions (is_finalized_not_junk text) 0 sorted)
          (positions-ascend (is_finalized_not_junk text) 0 sorted (omega arith)) in
      let s : DbState Invoice B = record {
        payments = sorted;
        pending = pending;
        pending_not_junk = not_junk;
        finalized_not_junk = final;
      } in
      (
        s,
        rw (from_unsorted_vec, made, made_not_junk, made_final) refl,
        record {
          sorted = dedup-sorted ps;
          pending = holds;
          pending_not_junk = holds_not_junk;
          finalized_not_junk = holds_final;
          fits = fits;
        },
        λ i. has_index-from_unsorted i ps,
      )
