-- ===== src/PaymentDb/Invariant.antt =====
-- The integrity of the in-memory state (`debug_assert_invariants` of app-rs/src/payments.rs).
use lexe_public.Base.{true, map, ◌≡◌, ◌≤◌, length}
use lexe_public.PaymentDb.Basic.{
  BasicPayment, Descriptions, is_strict_total_order, is_pending, is_pending_not_junk,
  is_finalized_not_junk,
}
use lexe_public.PaymentDb.Bitmap.{Bitmap}
use lexe_public.PaymentDb.State.{DbState, positions}
use lexe_public.PaymentDb.Indexes.{u32_limit}

-- The payments are sorted by their index, each bitmap holds the positions that it would be built
-- from, and a `u32` counts the payments.
pub record IsConsistent {Invoice B : Type 0} (bm : Bitmap B) (text : Descriptions Invoice)
    (s : DbState Invoice B) : Type 0 where
  pub sorted : is_strict_total_order (map (λ (p : BasicPayment Invoice). p.index) s.payments) ≡ true
  pub pending : bm.iter s.pending ≡ positions is_pending 0 s.payments
  pub pending_not_junk :
      bm.iter s.pending_not_junk ≡ positions (is_pending_not_junk text) 0 s.payments
  pub finalized_not_junk :
      bm.iter s.finalized_not_junk ≡ positions (is_finalized_not_junk text) 0 s.payments
  pub fits : length s.payments ≤ u32_limit
