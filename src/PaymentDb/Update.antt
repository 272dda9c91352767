-- ===== src/PaymentDb/Update.antt =====
-- `update_pending_payment`, `update_pending_payments` and `update_payment_note` of `PaymentDb`
-- (app-rs/src/payments.rs).
pub mod Positions
pub mod Pending
pub mod Note
pub mod Junk
pub mod Batch
use lexe_public.Base.{
  ℕ, zero, suc, ◌+◌, Bool, true, false, not, ◌&&◌, Option, none, some, String, List, [], ◌∷◌,
  Result, ok, err, context, get_elem?, if◌then◌else◌, ite,
}
use lexe_public.Ids.{PaymentIndex}
use lexe_public.PaymentDb.Basic.{
  BasicPayment, Descriptions, is_pending, is_pending_not_junk, is_finalized_not_junk,
}
use lexe_public.PaymentDb.Bitmap.{Bitmap}
use lexe_public.PaymentDb.State.{DbState, as_u32}
use lexe_public.PaymentDb.Lookups.{get_vec_idx_by_payment_index}
use lexe_public.PaymentDb.Storage.{Ffs, PaymentDb, write_payment}

-- How an update ends early. `panic` and `unwrap_none` are panics.
pub data UpdateError : Type 0 where
  panic : UpdateError
  write_failed : UpdateError

pub data NoteError : Type 0 where
  non_existent_payment : NoteError
  unwrap_none : NoteError
  failed_to_write : NoteError

module _ {A : Type 0} where
  -- `*existing_payment = updated_payment`, at a place of the list.
  unfoldable pub set_at : ℕ → A → List A → List A
  set_at i a [] = []
  set_at zero a (x ∷ xs) = a ∷ xs
  set_at (suc i) a (x ∷ xs) = x ∷ set_at i a xs

module _ {B : Type 0} (bm : Bitmap B) where
  -- A bitmap with the position taken out, or put in, when the test holds, and whether the assertion on
  -- what the bitmap answers then holds.
  unfoldable pub remove_if : Bool → B → ℕ → B × Bool
  remove_if test bits vec_idx =
      let (removed, was_in) = bm.remove bits vec_idx in
      if test then (removed, was_in) else (bits, true)

  unfoldable pub insert_if : Bool → B → ℕ → B × Bool
  insert_if test bits vec_idx =
      let (inserted, was_not_in) = bm.insert bits vec_idx in
      if test then (inserted, was_not_in) else (bits, true)

module _ {Invoice B : Type 0} (bm : Bitmap B) (text : Descriptions Invoice) where
  -- The three updates of the indexes; a `false` is a failed assertion.
  unfoldable pub reindex :
      DbState Invoice B → ℕ → BasicPayment Invoice → BasicPayment Invoice → DbState Invoice B × Bool
  reindex s vec_idx existing updated =
      let (pending, was_in) =
        remove_if bm (is_pending existing && not (is_pending updated)) s.pending vec_idx in
      let (pending_not_junk, was_in_not_junk) =
        remove_if bm (is_pending_not_junk text existing && not (is_pending_not_junk text updated))
          s.pending_not_junk vec_idx in
      let (finalized_not_junk, was_not_in) =
        insert_if bm
          (not (is_finalized_not_junk text existing) && is_finalized_not_junk text updated)
          s.finalized_not_junk vec_idx in
      if was_in
      then if was_in_not_junk
        then (
          record s {
            pending = pending;
            pending_not_junk = pending_not_junk;
            finalized_not_junk = finalized_not_junk;
          },
          was_not_in,
        )
        else (record s { pending = pending; pending_not_junk = pending_not_junk }, false)
      else (record s { pending = pending }, false)

module _ {Invoice B D : Type 0} (bm : Bitmap B) (text : Descriptions Invoice)
    (ffs : Ffs Invoice D) where
  -- A changed payment is written, then the indexes and the payments follow.
  unfoldable pub apply_update :
      PaymentDb Invoice B D
      → ℕ
      → BasicPayment Invoice
      → BasicPayment Invoice
      → PaymentDb Invoice B D × Result UpdateError ℕ
  apply_update db vec_idx existing updated =
      let (disk, written) = write_payment ffs db.ffs updated in
      let (indexed, fine) = reindex bm text db.state (as_u32 vec_idx) existing updated in
      if written
      then if fine
        then (
          record {
            ffs = disk;
            state = record indexed { payments = set_at vec_idx updated db.state.payments };
          },
          ok 1,
        )
        else (record { ffs = disk; state = indexed }, err panic)
      else (record db { ffs = disk }, err write_failed)

module _ {Invoice B D : Type 0} (bm : Bitmap B) (text : Descriptions Invoice) (ffs : Ffs Invoice D)
    (same : Discrete (BasicPayment Invoice)) where
  -- The update at the position that was found, of the payment that is there.
  unfoldable pub update_at :
      PaymentDb Invoice B D
      → ℕ
      → BasicPayment Invoice
      → BasicPayment Invoice
      → PaymentDb Invoice B D × Result UpdateError ℕ
  update_at db vec_idx existing updated =
      ite (same updated existing) (db, ok 0) (apply_update bm text ffs db vec_idx existing updated)

  unfoldable pub update_pending_payment :
      PaymentDb Invoice B D → BasicPayment Invoice → PaymentDb Invoice B D × Result UpdateError ℕ
  update_pending_payment db updated = elim (get_vec_idx_by_payment_index db.state updated.index) [
    | none ↦ (db, err panic)
    | some vec_idx ↦ elim (get_elem? db.state.payments vec_idx) [
      | none ↦ (db, err panic)
      | some existing ↦ update_at db vec_idx existing updated
    ]
  ]

  add_updated :
      ℕ
      → PaymentDb Invoice B D × Result UpdateError ℕ
      → PaymentDb Invoice B D × Result UpdateError ℕ
  add_updated n (db, ok num_updated) = (db, ok (n + num_updated))
  add_updated n (db, err e) = (db, err e)

  -- The loop, with the early return of `?`.
  unfoldable pub update_pending_payments :
      PaymentDb Invoice B D
      → List (BasicPayment Invoice)
      → PaymentDb Invoice B D × Result UpdateError ℕ
  unfolding add_updated
  update_pending_payments db [] = (db, ok 0)
  update_pending_payments db (p ∷ ps) =
      let (next, done) = update_pending_payment db p in
      let rest = update_pending_payments next ps in
      elim done [ err e ↦ (next, err e) | ok n ↦ add_updated n rest ]

module _ {Invoice B D : Type 0} (ffs : Ffs Invoice D) where
  -- The note is set in memory, and then written.
  unfoldable pub note_at :
      PaymentDb Invoice B D
      → ℕ
      → BasicPayment Invoice
      → PaymentDb Invoice B D × Result NoteError (Unit {0})
  note_at db vec_idx payment =
      let (disk, written) = write_payment ffs db.ffs payment in
      let noted = record db.state { payments = set_at vec_idx payment db.state.payments } in
      (record { ffs = disk; state = noted }, if written then ok tt else err failed_to_write)

  unfoldable pub update_payment_note :
      PaymentDb Invoice B D
      → PaymentIndex
      → Option String
      → PaymentDb Invoice B D × Result NoteError (Unit {0})
  unfolding note_at
  update_payment_note db index message = elim (get_vec_idx_by_payment_index db.state index) [
    | none ↦ (db, err non_existent_payment)
    | some vec_idx ↦ elim (get_elem? db.state.payments vec_idx) [
      | none ↦ (db, err unwrap_none)
      | some payment ↦ note_at db vec_idx record payment { note = message }
    ]
  ]
