-- ===== src/PaymentDb/Update/Note.antt =====
-- `update_payment_note` (app-rs/src/payments.rs), which leaves the indexes alone.
use lexe_public.Base.{
  ℕ, true, Option, some, String, ◌≡◌, refl, sym, ◌∙◌, ap, map, get_elem?, arith, ok, err,
  if◌then◌else◌,
}
use lexe_public.PaymentDb.Basic.{
  BasicPayment, Descriptions, is_strict_total_order, is_pending, is_finalized, is_junk,
  is_pending_not_junk, is_finalized_not_junk,
}
use lexe_public.PaymentDb.Bitmap.{Bitmap}
use lexe_public.PaymentDb.State.{DbState}
use lexe_public.PaymentDb.Find.{get_vec_idx_by_payment_index_iff}
use lexe_public.PaymentDb.Invariant.{IsConsistent}
use lexe_public.PaymentDb.Storage.{Ffs, PaymentDb, write_payment}
use lexe_public.PaymentDb.Update.{failed_to_write, set_at, note_at, update_payment_note}
use lexe_public.PaymentDb.Update.Positions.{
  length-set_at, map-set_at, get_elem?-set_at, positions-set_same,
}

module _ {Invoice B : Type 0} (bm : Bitmap B) (text : Descriptions Invoice) where
  pub set_at-sorted :
      (s : DbState Invoice B) (v : ℕ) (existing updated : BasicPayment Invoice)
      → IsConsistent bm text s
      → get_elem? s.payments v ≡ some existing
      → updated.index ≡ existing.index
      → is_strict_total_order
          (map (λ (p : BasicPayment Invoice). p.index) (set_at v updated s.payments))
        ≡ true
  set_at-sorted s v x a c there key =
      ap is_strict_total_order
        (map-set_at (λ (p : BasicPayment Invoice). p.index) v a x s.payments there key)
      ∙ c.sorted

  noted-IsConsistent :
      (s : DbState Invoice B) (v : ℕ) (existing updated : BasicPayment Invoice)
      → IsConsistent bm text s
      → get_elem? s.payments v ≡ some existing
      → updated.index ≡ existing.index
      → is_pending updated ≡ is_pending existing
      → is_junk text updated ≡ is_junk text existing
      → IsConsistent bm text record s { payments = set_at v updated s.payments }
  unfolding is_pending_not_junk is_finalized_not_junk is_finalized
  noted-IsConsistent s v x a c there key pending junk =
      let not_junk : is_pending_not_junk text a ≡ is_pending_not_junk text x =
        ground (arith, pending, junk) in
      let final : is_finalized_not_junk text a ≡ is_finalized_not_junk text x =
        ground (arith, pending, junk) in
      record {
        sorted = set_at-sorted s v x a c there key;
        pending = c.pending ∙ sym (positions-set_same is_pending 0 v s.payments x a there pending);
        pending_not_junk =
            c.pending_not_junk
            ∙ sym (positions-set_same (is_pending_not_junk text) 0 v s.payments x a there not_junk);
        finalized_not_junk =
            c.finalized_not_junk
            ∙ sym (positions-set_same (is_finalized_not_junk text) 0 v s.payments x a there final);
        fits = omega (arith, length-set_at v a s.payments, c.fits);
      }

module _ {Invoice B D : Type 0} (bm : Bitmap B) (text : Descriptions Invoice)
    (ffs : Ffs Invoice D) where
  pub note_found :
      (db : PaymentDb Invoice B D) (v : ℕ) (existing : BasicPayment Invoice)
      (message : Option String)
      → IsConsistent bm text db.state
      → get_elem? db.state.payments v ≡ some existing
      → update_payment_note ffs db existing.index message
        ≡ note_at ffs db v record existing { note = message }
  unfolding update_payment_note
  note_found db v x message c there =
      let found =
        (get_vec_idx_by_payment_index_iff db.state x.index v c.sorted).1 (x, there, refl) in
      rw (update_payment_note, found, there) refl

  -- A note for a payment of a consistent database that does not change whether the payment is
  -- junk is set in memory and leaves the database consistent, whether the write succeeds or
  -- not; the result is `Ok` just when it does.
  pub update_payment_note-IsConsistent :
      (db : PaymentDb Invoice B D) (v : ℕ) (existing : BasicPayment Invoice)
      (message : Option String)
      → IsConsistent bm text db.state
      → get_elem? db.state.payments v ≡ some existing
      → is_junk text record existing { note = message } ≡ is_junk text existing
      → ((update_payment_note ffs db existing.index message).1 ≡ (
          if (write_payment ffs db.ffs record existing { note = message }).1
          then ok tt
          else err failed_to_write))
        × (get_elem? (update_payment_note ffs db existing.index message).0.state.payments v
            ≡ some record existing { note = message })
        × IsConsistent bm text (update_payment_note ffs db existing.index message).0.state
  unfolding note_at is_pending
  update_payment_note-IsConsistent db v x message c there junk =
      let noted = record x { note = message } in
      rw (note_found db v x message c there) (
        refl,
        get_elem?-set_at v noted x db.state.payments there,
        noted-IsConsistent bm text db.state v x noted c there refl refl junk,
      )
