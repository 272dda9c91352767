-- ===== src/PaymentDb/Update/Junk.antt =====
-- A junk payment that gets a note, and is finalized later: `update_payment_note`, then
-- `update_pending_payment` (app-rs/src/payments.rs).
use lexe_public.Base.{
  ℕ, ◌+◌, ◌≤◌, Bool, true, false, Option, some, String, List, ◌≡◌, refl, if_neg, sym, ◌∙◌, ap, map,
  length, get_elem?, arith, ok, err,
}
use lexe_public.PaymentDb.Basic.{
  BasicPayment, Descriptions, is_strict_total_order, is_pending, is_finalized, is_junk,
  is_pending_not_junk, is_finalized_not_junk,
}
use lexe_public.PaymentDb.Bitmap.{Bitmap, BitmapLaws, member}
use lexe_public.PaymentDb.State.{DbState, as_u32, positions}
use lexe_public.PaymentDb.Find.{get_vec_idx_by_payment_index_iff}
use lexe_public.PaymentDb.Invariant.{IsConsistent}
use lexe_public.PaymentDb.Storage.{Ffs, PaymentDb, write_payment}
use lexe_public.PaymentDb.Indexes.{u32_limit, as_u32_small}
use lexe_public.PaymentDb.Update.{
  panic, set_at, remove_if, insert_if, reindex, apply_update, update_at, update_pending_payment,
  note_at, update_payment_note,
}
use lexe_public.PaymentDb.Update.Positions.{get_elem?-set_at, member-positions}
use lexe_public.PaymentDb.Update.Pending.{get_elem?_inside}
use lexe_public.PaymentDb.Update.Note.{set_at-sorted, note_found}

module _ {Invoice B : Type 0} (bm : Bitmap B) (laws : BitmapLaws bm)
    (text : Descriptions Invoice) where
  -- What a bitmap answers for a payment's place.
  member_at :
      (f : BasicPayment Invoice → Bool) (bits : B) (xs : List (BasicPayment Invoice)) (v : ℕ)
      (x : BasicPayment Invoice)
      → bm.iter bits ≡ positions f 0 xs
      → length xs ≤ u32_limit
      → get_elem? xs v ≡ some x
      → (bm.remove bits v).1 ≡ f x
  member_at f bits xs v x same h there =
      let from_zero : 0 + v ≡ v = omega arith in
      laws.remove_old bits v
      ∙ ap (member v) same
      ∙ rw from_zero at (member-positions f 0 v xs x (omega arith) there)

  finalized_not_pending :
      (p : BasicPayment Invoice) → is_pending p ≡ false → is_pending_not_junk text p ≡ false
  unfolding is_pending_not_junk
  finalized_not_pending p h = ground (arith, h)

  -- The assertion on the index of the pending payments that are not junk fails.
  reindex_panics :
      (s : DbState Invoice B) (v : ℕ) (before noted updated : BasicPayment Invoice)
      (payments : List (BasicPayment Invoice))
      → IsConsistent bm text s
      → get_elem? s.payments v ≡ some before
      → is_pending_not_junk text before ≡ false
      → is_pending before ≡ true
      → is_pending noted ≡ true
      → is_pending_not_junk text noted ≡ true
      → is_pending updated ≡ false
      → (reindex bm text record s { payments = payments } (as_u32 v) noted updated).1 ≡ false
  unfolding reindex remove_if
  reindex_panics s v x n a l c there junk was is not_junk done =
      let narrow : as_u32 v ≡ v =
        as_u32_small v (omega (arith, get_elem?_inside s.payments v x there, c.fits)) in
      let fine = member_at is_pending s.pending s.payments v x c.pending c.fits there ∙ was in
      let missing =
        member_at (is_pending_not_junk text) s.pending_not_junk s.payments v x c.pending_not_junk
          c.fits there
        ∙ junk in
      let gone = finalized_not_pending a done in
      rw (narrow, is, done, not_junk, gone, fine, missing) refl

module _ {Invoice B D : Type 0} (bm : Bitmap B) (laws : BitmapLaws bm) (text : Descriptions Invoice)
    (ffs : Ffs Invoice D) (same : Discrete (BasicPayment Invoice)) where
  update_panics :
      (db : PaymentDb Invoice B D) (v : ℕ) (existing updated : BasicPayment Invoice)
      → is_strict_total_order (map (λ (p : BasicPayment Invoice). p.index) db.state.payments) ≡ true
      → get_elem? db.state.payments v ≡ some existing
      → existing.index ≡ updated.index
      → is_pending existing ≡ true
      → is_pending updated ≡ false
      → (reindex bm text db.state (as_u32 v) existing updated).1 ≡ false
      → (write_payment ffs db.ffs updated).1 ≡ true
      → (update_pending_payment bm text ffs same db updated).1 ≡ err panic
  unfolding update_pending_payment update_at apply_update
  update_panics db v x a sorted there key was done fails written =
      let found = (get_vec_idx_by_payment_index_iff db.state a.index v sorted).1 (x, there, key) in
      let applied : (apply_update bm text ffs db v x a).1 ≡ err panic =
        rw (apply_update, written, fails) refl in
      let other : ¬ (a ≡ x) = λ e. let now = ap is_pending e in ground (arith, now, was, done) in
      rw (update_pending_payment, found, there, update_at)
        (ap (λ r. r.1) (if_neg (same a x) other (db, ok 0) (apply_update bm text ffs db v x a))
          ∙ applied)

  -- The update leaves the indexes alone.
  unjunked :
      (db : PaymentDb Invoice B D) (v : ℕ) (existing claimed : BasicPayment Invoice)
      → IsConsistent bm text db.state
      → get_elem? db.state.payments v ≡ some existing
      → is_pending existing ≡ true
      → is_junk text existing ≡ true
      → is_pending claimed ≡ true
      → is_junk text claimed ≡ false
      → claimed.index ≡ existing.index
      → (write_payment ffs db.ffs claimed).1 ≡ true
      → update_pending_payment bm text ffs same db claimed ≡ (
        record {
          ffs = (write_payment ffs db.ffs claimed).0;
          state = record db.state { payments = set_at v claimed db.state.payments };
        },
        ok 1,
      )
  unfolding update_pending_payment update_at apply_update reindex remove_if insert_if
      is_pending_not_junk is_finalized_not_junk is_finalized
  unjunked db v x n c there was junk still not_junk key written =
      let found =
        (get_vec_idx_by_payment_index_iff db.state n.index v c.sorted).1 (x, there, sym key) in
      let other : ¬ (n ≡ x) =
        λ e. let now = ap (is_junk text) e in ground (arith, now, junk, not_junk) in
      let applied = apply_update bm text ffs db v x n in
      let applied_is : applied ≡ (
        record {
          ffs = (write_payment ffs db.ffs n).0;
          state = record db.state { payments = set_at v n db.state.payments };
        },
        ok 1,
      ) =
        rw (apply_update, written, reindex, was, still, junk) refl in
      rw (update_pending_payment, found, there, update_at)
        (if_neg (same n x) other (db, ok 0) applied ∙ applied_is)

  -- If `update_payment_note` gives a payment that a consistent database holds as pending and
  -- junk a note with which it is not junk, then an update after it that finalizes the
  -- payment, and is written, panics.
  pub update_payment_note_panics :
      (db : PaymentDb Invoice B D) (v : ℕ) (existing updated : BasicPayment Invoice)
      (message : Option String)
      → IsConsistent bm text db.state
      → get_elem? db.state.payments v ≡ some existing
      → is_pending existing ≡ true
      → is_junk text existing ≡ true
      → is_junk text record existing { note = message } ≡ false
      → updated.index ≡ existing.index
      → is_pending updated ≡ false
      → (write_payment ffs (update_payment_note ffs db existing.index message).0.ffs updated).1
        ≡ true
      → (update_pending_payment bm text ffs same
          (update_payment_note ffs db existing.index message).0
          updated).1
        ≡ err panic
  unfolding note_at is_pending_not_junk is_pending
  update_payment_note_panics db v x a message c there was junk not_junk key done written =
      let noted = record x { note = message } in
      let after = update_payment_note ffs db x.index message in
      let notes : after ≡ note_at ffs db v noted = note_found bm text ffs db v x message c there in
      let was_junk : is_pending_not_junk text x ≡ false = ground (arith, was, junk) in
      let is : is_pending_not_junk text noted ≡ true = ground (arith, was, not_junk) in
      let sorted = set_at-sorted bm text db.state v x noted c there refl in
      let here = get_elem?-set_at v noted x db.state.payments there in
      let fails =
        reindex_panics bm laws text db.state v x noted a (set_at v noted db.state.payments) c there
          was_junk was was is done in
      ap (λ r. (update_pending_payment bm text ffs same r.0 a).1) notes
      ∙ update_panics (note_at ffs db v noted).0 v noted a sorted here (sym key) was done fails
          (ap (λ r. (write_payment ffs r.0.ffs a).1) (sym notes) ∙ written)

  -- If an update that is written makes a payment that a consistent database holds as pending
  -- and junk one that is pending and not junk, then an update after it that finalizes the
  -- payment, and is written, panics.
  pub update_pending_payment_panics :
      (db : PaymentDb Invoice B D) (v : ℕ) (existing claimed updated : BasicPayment Invoice)
      → IsConsistent bm text db.state
      → get_elem? db.state.payments v ≡ some existing
      → is_pending existing ≡ true
      → is_junk text existing ≡ true
      → is_pending claimed ≡ true
      → is_junk text claimed ≡ false
      → claimed.index ≡ existing.index
      → is_pending updated ≡ false
      → updated.index ≡ existing.index
      → (write_payment ffs db.ffs claimed).1 ≡ true
      → (write_payment ffs (update_pending_payment bm text ffs same db claimed).0.ffs updated).1
        ≡ true
      → (update_pending_payment bm text ffs same
          (update_pending_payment bm text ffs same db claimed).0
          updated).1
        ≡ err panic
  unfolding is_pending_not_junk
  update_pending_payment_panics db v x n a c there was junk still not_junk key done key_then written
        written_then =
      let was_junk : is_pending_not_junk text x ≡ false = ground (arith, was, junk) in
      let is : is_pending_not_junk text n ≡ true = ground (arith, still, not_junk) in
      let first = unjunked db v x n c there was junk still not_junk key written in
      let payments = set_at v n db.state.payments in
      let sorted = set_at-sorted bm text db.state v x n c there key in
      let here = get_elem?-set_at v n x db.state.payments there in
      let fails =
        reindex_panics bm laws text db.state v x n a payments c there was_junk was still is done in
      ap (λ r. (update_pending_payment bm text ffs same r.0 a).1) first
      ∙ update_panics
          record {
            ffs = (write_payment ffs db.ffs n).0;
            state = record db.state { payments = payments };
          }
          v n a sorted here (key ∙ sym key_then) still done fails
          (ap (λ r. (write_payment ffs r.0.ffs a).1) (sym first) ∙ written_then)
