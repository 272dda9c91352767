-- ===== src/PaymentDb/Lookups.antt =====
-- The lookups of `PaymentDbState` (app-rs/src/payments.rs). `panicked` stands for the panic of an
-- `expect` or of an index out of bounds.
use lexe_public.Base.{
  ℕ, suc, ◌-◌, Option, none, some, List, [], ◌∷◌, ite, get_elem?, leb, Result, ok, ◌>>=◌, context,
  map_option, if◌then◌else◌,
}
use lexe_public.Ids.{LxPaymentId, PaymentIndex}
use lexe_public.PaymentDb.Basic.{BasicPayment, is_finalized}
use lexe_public.PaymentDb.Bitmap.{Bitmap}
use lexe_public.PaymentDb.State.{
  Panic, panicked, DbState, PaymentIndex-discrete, as_u32, enumerate, filter, rev, skip, last,
  num_payments, num_pending, num_finalized, num_pending_not_junk, num_finalized_not_junk,
}

module _ {Invoice : Type 0} where
  -- What `binary_search_by_key` finds in a sorted slice with no key twice.
  unfoldable pub position : PaymentIndex → ℕ → List (BasicPayment Invoice) → Option ℕ
  position index n [] = none
  position index n (p ∷ ps) =
      ite (PaymentIndex-discrete p.index index) (some n) (position index (suc n) ps)

  -- `self.payments[vec_idx]`
  unfoldable pub at_index : List (BasicPayment Invoice) → ℕ → Result Panic (BasicPayment Invoice)
  at_index payments vec_idx = context (get_elem? payments vec_idx) panicked

module _ {Invoice B : Type 0} where
  unfoldable pub get_vec_idx_by_payment_index : DbState Invoice B → PaymentIndex → Option ℕ
  unfolding position
  get_vec_idx_by_payment_index s index = position index 0 s.payments

  unfoldable pub latest_payment_index : DbState Invoice B → Option PaymentIndex
  unfolding last
  latest_payment_index s = map_option (λ p. p.index) (last s.payments)

  unfoldable pub get_payment_by_vec_idx : DbState Invoice B → ℕ → Option (BasicPayment Invoice)
  get_payment_by_vec_idx s vec_idx = get_elem? s.payments vec_idx

  unfoldable pub get_payment_by_scroll_idx :
      DbState Invoice B → ℕ → Result Panic (Option (ℕ × BasicPayment Invoice))
  unfolding num_payments at_index
  get_payment_by_scroll_idx s scroll_idx =
      let n = num_payments s in
      if leb n scroll_idx
      then ok none
      else do p ← at_index s.payments (n - scroll_idx - 1); ok (some (n - scroll_idx - 1, p))

module _ {Invoice B : Type 0} (bm : Bitmap B) where
  ids_at : List (BasicPayment Invoice) → List ℕ → Result Panic (List LxPaymentId)
  unfolding at_index
  ids_at payments [] = ok []
  ids_at payments (vec_idx ∷ l) = do
    p ← at_index payments vec_idx
    ids ← ids_at payments l
    ok (p.index.id ∷ ids)

  unfoldable pub pending_ids : DbState Invoice B → Result Panic (List LxPaymentId)
  unfolding ids_at
  pending_ids s = ids_at s.payments (bm.iter s.pending)

  -- The body that the three lookups by `select` share: the bitmap, and its length.
  unfoldable pub select_by_scroll_idx :
      B → ℕ → List (BasicPayment Invoice) → ℕ → Result Panic (Option (ℕ × BasicPayment Invoice))
  unfolding at_index
  select_by_scroll_idx bits n payments scroll_idx = if leb n scroll_idx then ok none else do
    vec_idx ← context (bm.select bits (as_u32 (n - scroll_idx - 1))) panicked
    p ← at_index payments vec_idx
    ok (some (vec_idx, p))

  unfoldable pub get_pending_payment_by_scroll_idx :
      DbState Invoice B → ℕ → Result Panic (Option (ℕ × BasicPayment Invoice))
  unfolding select_by_scroll_idx num_pending
  get_pending_payment_by_scroll_idx s = select_by_scroll_idx s.pending (num_pending bm s) s.payments

  unfoldable pub get_pending_not_junk_payment_by_scroll_idx :
      DbState Invoice B → ℕ → Result Panic (Option (ℕ × BasicPayment Invoice))
  unfolding select_by_scroll_idx num_pending_not_junk
  get_pending_not_junk_payment_by_scroll_idx s =
      select_by_scroll_idx s.pending_not_junk (num_pending_not_junk bm s) s.payments

  unfoldable pub get_finalized_not_junk_payment_by_scroll_idx :
      DbState Invoice B → ℕ → Result Panic (Option (ℕ × BasicPayment Invoice))
  unfolding select_by_scroll_idx num_finalized_not_junk
  get_finalized_not_junk_payment_by_scroll_idx s =
      select_by_scroll_idx s.finalized_not_junk (num_finalized_not_junk bm s) s.payments

  -- A bitmap's rank is at most its length, so the second subtraction is exact.
  unfoldable pub get_finalized_payment_by_scroll_idx :
      DbState Invoice B → ℕ → Result Panic (Option (ℕ × BasicPayment Invoice))
  get_finalized_payment_by_scroll_idx s scroll_idx =
      let rev_idx = num_payments s - scroll_idx - 1 in
      let num_pending_below = num_pending bm s - bm.rank s.pending (as_u32 rev_idx) in
      if leb (num_finalized bm s) scroll_idx then ok none else do
        found ←
            context
              (get_elem?
                (filter (λ e. is_finalized e.1) (skip scroll_idx (rev (enumerate 0 s.payments))))
                num_pending_below)
              panicked
        ok (some found)
