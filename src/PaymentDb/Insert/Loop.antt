-- ===== src/PaymentDb/Insert/Loop.antt =====
-- The loop of `insert_new_payments` (app-rs/src/payments.rs): the indexes after each payment.
use mathlib.Core.List.{append-nil, append_assoc}
use lexe_public.Base.{
  suc, ◌+◌, ◌<◌, Bool, true, false, not, List, [], ◌∷◌, ◌++◌, ◌≡◌, refl, sym, ◌∙◌, ap, length, inl,
  inr, Bool-cases, Result, ok, err, arith, length-append,
}
use lexe_public.PaymentDb.Basic.{
  BasicPayment, Descriptions, is_pending, is_pending_not_junk, is_finalized_not_junk,
}
use lexe_public.PaymentDb.Bitmap.{Bitmap, BitmapLaws, member, put}
use lexe_public.PaymentDb.State.{DbState, as_u32, positions}
use lexe_public.PaymentDb.Storage.{Ffs, PaymentDb, write_payment, all_written}
use lexe_public.PaymentDb.Indexes.{u32_limit, as_u32_small}
use lexe_public.PaymentDb.Appended.{put_end, member_above, positions-append, positions_below}
use lexe_public.PaymentDb.Insert.{
  InsertError, already_pending, already_pending_not_junk, already_finalized_not_junk, io_error,
  index_if, index_finalized, index_not_junk, index_new, insert_loop,
}

-- Each bitmap holds the positions that its test holds at in the list.
pub record IsIndexed {Invoice B : Type 0} (bm : Bitmap B) (text : Descriptions Invoice)
    (s : DbState Invoice B) (xs : List (BasicPayment Invoice)) : Type 0 where
  pub pending : bm.iter s.pending ≡ positions is_pending 0 xs
  pub pending_not_junk : bm.iter s.pending_not_junk ≡ positions (is_pending_not_junk text) 0 xs
  pub finalized_not_junk :
      bm.iter s.finalized_not_junk ≡ positions (is_finalized_not_junk text) 0 xs

-- What the loop returns, by whether each write succeeds.
abbrev pub outcome : Bool → Result InsertError (Unit {0})
outcome true = ok tt
outcome false = err io_error

module _ {A B : Type 0} (bm : Bitmap B) (laws : BitmapLaws bm) where
  -- The next position is not in the bitmap, and goes to its end when the test holds.
  pub index_if_end :
      (f : A → Bool) (bits : B) (xs : List A) (p : A) (already_in : InsertError)
      → bm.iter bits ≡ positions f 0 xs
      → length xs < u32_limit
      → ((index_if bm (f p) bits (length xs) already_in).1 ≡ ok tt)
        × (bm.iter (index_if bm (f p) bits (length xs) already_in).0 ≡ positions f 0 (xs ++ p ∷ []))
  unfolding index_if positions
  index_if_end f bits xs p already_in same h =
      let from_zero : 0 + length xs ≡ length xs = omega arith in
      let low = positions_below f 0 xs (omega arith) in
      let below = rw from_zero at low in
      let fresh : (bm.insert bits (length xs)).1 ≡ true =
        laws.insert_new bits (length xs)
        ∙ ap not (
            ap (λ l. member (length xs) l) same
            ∙ member_above (length xs) (positions f 0 xs) below) in
      let inserted =
        laws.iter_insert bits (length xs)
        ∙ ap (put (length xs)) same
        ∙ put_end (length xs) (positions f 0 xs) below in
      let appended = positions-append f 0 xs (p ∷ []) in
      let here : as_u32 (length xs) ≡ length xs = as_u32_small (length xs) h in
      elim (Bool-cases (f p)) [
        | inl e ↦ rw (appended, from_zero, here, e) (rw fresh refl, inserted)
        | inr e ↦ rw (appended, e, append-nil (positions f 0 xs)) (refl, same)
      ]

module _ {Invoice B D : Type 0} (bm : Bitmap B) (laws : BitmapLaws bm) (text : Descriptions Invoice)
    (ffs : Ffs Invoice D) where
  pub index_new_end :
      (s : DbState Invoice B) (xs : List (BasicPayment Invoice)) (p : BasicPayment Invoice)
      → IsIndexed bm text s xs
      → length xs < u32_limit
      → ((index_new bm text s (length xs) p).1 ≡ ok tt)
        × IsIndexed bm text (index_new bm text s (length xs) p).0 (xs ++ p ∷ [])
        × ((index_new bm text s (length xs) p).0.payments ≡ s.payments)
  unfolding index_new index_not_junk index_finalized
  index_new_end s xs p c h =
      let (ok_pending, pending) =
        index_if_end bm laws is_pending s.pending xs p already_pending c.pending h in
      let (ok_pending_not_junk, pending_not_junk) =
        index_if_end bm laws (is_pending_not_junk text) s.pending_not_junk xs p
          already_pending_not_junk c.pending_not_junk h in
      let (ok_finalized, finalized_not_junk) =
        index_if_end bm laws (is_finalized_not_junk text) s.finalized_not_junk xs p
          already_finalized_not_junk c.finalized_not_junk h in
      rw (index_new, ok_pending)
        (rw (index_not_junk, ok_pending_not_junk)
          (rw (index_finalized, ok_finalized)
            (
              refl,
              record {
                pending = pending;
                pending_not_junk = pending_not_junk;
                finalized_not_junk = finalized_not_junk;
              },
              refl,
            )))

  -- From indexes that match, the loop ends well when each write does; it then indexes the batch.
  pub insert_loop_end :
      (db : PaymentDb Invoice B D) (xs ps : List (BasicPayment Invoice))
      → IsIndexed bm text db.state xs
      → length xs + length ps < u32_limit
      → ((insert_loop bm text ffs db (length xs) ps).1 ≡ outcome (all_written ffs db.ffs ps))
        × ((insert_loop bm text ffs db (length xs) ps).0.state.payments ≡ db.state.payments)
        × (all_written ffs db.ffs ps ≡ true
            → IsIndexed bm text (insert_loop bm text ffs db (length xs) ps).0.state (xs ++ ps))
  unfolding insert_loop
  insert_loop_end db xs [] c h = rw (append-nil xs) (refl, refl, λ _. c)
  insert_loop_end db xs (p ∷ ps) c h =
      let (indexed_ok, indexed, payments) = index_new_end db.state xs p c (omega arith) in
      let next : as_u32 (suc (length xs)) ≡ length (xs ++ p ∷ []) =
        as_u32_small (suc (length xs)) (omega arith) ∙ omega (arith, length-append xs (p ∷ [])) in
      let (rest_ok, rest_payments, rest) =
        insert_loop_end
          record {
            ffs = (write_payment ffs db.ffs p).0;
            state = (index_new bm text db.state (length xs) p).0;
          }
          (xs ++ p ∷ []) ps indexed (omega (arith, length-append xs (p ∷ []))) in
      let grown : xs ++ p ∷ ps ≡ (xs ++ p ∷ []) ++ ps = sym (append_assoc xs (p ∷ []) ps) in
      rw (insert_loop, indexed_ok, next)
        (elim (Bool-cases ((write_payment ffs db.ffs p).1)) [
          | inl e ↦ rw (e, grown) (rest_ok, rest_payments ∙ payments, rest)
          | inr e ↦ rw e (refl, payments, λ bad. cc)
        ])
