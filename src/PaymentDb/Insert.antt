-- ===== src/PaymentDb/Insert.antt =====
-- `PaymentDb::insert_new_payments` (app-rs/src/payments.rs).
pub mod Loop
pub mod Batch
pub mod Retry
use lexe_public.Base.{
  ℕ, suc, ◌+◌, Bool, true, false, Option, none, some, List, [], ◌∷◌, ◌++◌, map, Result, ok, err,
  if◌then◌else◌,
}
use lexe_public.Ids.{PaymentIndex}
use lexe_public.PaymentDb.Basic.{
  BasicPayment, Descriptions, cmp_index, is_lt, is_strict_total_order, is_pending,
  is_pending_not_junk, is_finalized_not_junk,
}
use lexe_public.PaymentDb.Bitmap.{Bitmap}
use lexe_public.PaymentDb.State.{DbState, as_u32, num_payments}
use lexe_public.PaymentDb.Lookups.{latest_payment_index}
use lexe_public.PaymentDb.Storage.{Ffs, PaymentDb, write_payment}

pub data InsertError : Type 0 where
  not_sorted_or_unique : InsertError
  older_than_db : InsertError
  already_pending : InsertError
  already_pending_not_junk : InsertError
  already_finalized_not_junk : InsertError
  io_error : InsertError

-- `<` of `Option<&PaymentIndex>` and `Some(_)`
unfoldable pub is_before : Option PaymentIndex → PaymentIndex → Bool
is_before none index = true
is_before (some latest) index = is_lt (cmp_index latest index)

-- A bitmap with the position put in when the test holds, and the error when it is there already.
unfoldable pub index_if :
    {B : Type 0} → Bitmap B → Bool → B → ℕ → InsertError → B × Result InsertError (Unit {0})
index_if bm test bits vec_idx already_in =
    let (inserted, not_already_in) = bm.insert bits vec_idx in
    if test then (inserted, if not_already_in then ok tt else err already_in) else (bits, ok tt)

module _ {Invoice B : Type 0} (bm : Bitmap B) (text : Descriptions Invoice) where
  index_finalized :
      DbState Invoice B
      → ℕ
      → BasicPayment Invoice
      → DbState Invoice B × Result InsertError (Unit {0})
  unfolding index_if
  index_finalized s vec_idx p =
      let (bits, done) =
        index_if bm (is_finalized_not_junk text p) s.finalized_not_junk vec_idx
          already_finalized_not_junk in
      (record s { finalized_not_junk = bits }, done)

  index_not_junk :
      DbState Invoice B
      → ℕ
      → BasicPayment Invoice
      → DbState Invoice B × Result InsertError (Unit {0})
  unfolding index_if index_finalized
  index_not_junk s vec_idx p =
      let (bits, done) =
        index_if bm (is_pending_not_junk text p) s.pending_not_junk vec_idx
          already_pending_not_junk in
      let next = record s { pending_not_junk = bits } in
      elim done [ err e ↦ (next, err e) | ok _ ↦ index_finalized next vec_idx p ]

  -- The insertions into the indexes, each with its early return.
  unfoldable pub index_new :
      DbState Invoice B
      → ℕ
      → BasicPayment Invoice
      → DbState Invoice B × Result InsertError (Unit {0})
  unfolding index_if index_not_junk
  index_new s vec_idx p =
      let (bits, done) = index_if bm (is_pending p) s.pending vec_idx already_pending in
      let next = record s { pending = bits } in
      elim done [ err e ↦ (next, err e) | ok _ ↦ index_not_junk next vec_idx p ]

-- `payments.append`
module _ {Invoice B D : Type 0} where
  unfoldable pub append_payments :
      PaymentDb Invoice B D → List (BasicPayment Invoice) → PaymentDb Invoice B D
  append_payments db ps = record db {
    state = record db.state { payments = db.state.payments ++ ps };
  }

module _ {Invoice B D : Type 0} (bm : Bitmap B) (text : Descriptions Invoice)
    (ffs : Ffs Invoice D) where
  unfoldable pub insert_loop :
      PaymentDb Invoice B D
      → ℕ
      → List (BasicPayment Invoice)
      → PaymentDb Invoice B D × Result InsertError (Unit {0})
  unfolding index_new write_payment as_u32
  insert_loop db vec_idx [] = (db, ok tt)
  insert_loop db vec_idx (p ∷ ps) =
      let (indexed, done) = index_new bm text db.state vec_idx p in
      let (disk, written) = write_payment ffs db.ffs p in
      let rest = insert_loop record { ffs = disk; state = indexed } (as_u32 (suc vec_idx)) ps in
      elim done [
        | err e ↦ (record db { state = indexed }, err e)
        | ok _ ↦ if written then rest else (record { ffs = disk; state = indexed }, err io_error)
      ]

  unfoldable pub insert_new_payments :
      PaymentDb Invoice B D
      → List (BasicPayment Invoice)
      → PaymentDb Invoice B D × Result InsertError (Unit {0})
  insert_new_payments db [] = (db, ok tt)
  insert_new_payments db (oldest ∷ ps) =
      let new_payments = oldest ∷ ps in
      let (inserted, done) = insert_loop db (as_u32 (num_payments db.state)) new_payments in
      if is_strict_total_order (map (λ p. p.index) new_payments)
      then if is_before (latest_payment_index db.state) oldest.index
        then elim done [
          | err e ↦ (inserted, err e)
          | ok _ ↦ (append_payments inserted new_payments, ok tt)
        ]
        else (db, err older_than_db)
      else (db, err not_sorted_or_unique)
