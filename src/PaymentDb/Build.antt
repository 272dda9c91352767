-- ===== src/PaymentDb/Build.antt =====
-- `PaymentDbState::from_unsorted_vec` (app-rs/src/payments.rs), which makes the state of the payments
-- that were read from the disk.
pub mod Sorting
pub mod Indexed
use lexe_public.Base.{ℕ, Bool, true, false, Option, none, some, List, [], ◌∷◌, ite, if◌then◌else◌}
use lexe_public.Ids.{PaymentIndex}
use lexe_public.PaymentDb.Basic.{
  BasicPayment, Descriptions, cmp_index, is_lt, is_pending, is_pending_not_junk,
  is_finalized_not_junk,
}
use lexe_public.PaymentDb.Bitmap.{Bitmap}
use lexe_public.PaymentDb.State.{DbState, PaymentIndex-discrete, build_index}

module _ {Invoice : Type 0} where
  -- `sort_unstable_by`, by the payments' indexes.
  unfoldable pub insert_sorted :
      BasicPayment Invoice → List (BasicPayment Invoice) → List (BasicPayment Invoice)
  insert_sorted p [] = p ∷ []
  insert_sorted p (q ∷ l) =
      let rest = insert_sorted p l in
      if is_lt (cmp_index q.index p.index) then q ∷ rest else p ∷ q ∷ l

  unfoldable pub sort_unstable : List (BasicPayment Invoice) → List (BasicPayment Invoice)
  sort_unstable [] = []
  sort_unstable (p ∷ ps) = insert_sorted p (sort_unstable ps)

  -- `dedup_by`, after a payment that is kept.
  unfoldable pub dedup_after :
      BasicPayment Invoice → List (BasicPayment Invoice) → List (BasicPayment Invoice)
  dedup_after x [] = []
  dedup_after x (y ∷ l) =
      let same = dedup_after x l in
      let other = dedup_after y l in ite (PaymentIndex-discrete y.index x.index) same (y ∷ other)

  unfoldable pub dedup : List (BasicPayment Invoice) → List (BasicPayment Invoice)
  dedup [] = []
  dedup (x ∷ l) = x ∷ dedup_after x l

module _ {Invoice B : Type 0} (bm : Bitmap B) (text : Descriptions Invoice) where
  build_state :
      List (BasicPayment Invoice) → Option B → Option B → Option B → Option (DbState Invoice B)
  build_state payments (some pending) (some pending_not_junk) (some finalized_not_junk) =
      some record {
        payments = payments;
        pending = pending;
        pending_not_junk = pending_not_junk;
        finalized_not_junk = finalized_not_junk;
      }
  build_state payments _ _ _ = none

  -- `none` is the panic of an `expect`.
  unfoldable pub from_unsorted_vec : List (BasicPayment Invoice) → Option (DbState Invoice B)
  unfolding build_state
  from_unsorted_vec payments =
      let sorted = dedup (sort_unstable payments) in
      build_state sorted (build_index bm is_pending sorted)
        (build_index bm (is_pending_not_junk text) sorted)
        (build_index bm (is_finalized_not_junk text) sorted)
