-- ===== src/PaymentDb/Update/Pending.antt =====
-- `update_pending_payment` (app-rs/src/payments.rs): the indexes after an update.
use lexe_public.Base.{
  ℕ, zero, suc, ◌+◌, ◌≤◌, ◌<◌, Bool, true, not, ◌&&◌, some, List, [], ◌∷◌, ◌≡◌, refl, sym, ◌∙◌, ap,
  length, get_elem?, arith, some_inj, Bool-cases, inl, inr, ite, Result, ok, err, if◌then◌else◌,
}
use lexe_public.PaymentDb.Basic.{
  BasicPayment, Descriptions, is_strict_total_order, is_pending, is_finalized, is_pending_not_junk,
  is_finalized_not_junk,
}
use lexe_public.PaymentDb.Bitmap.{Bitmap, BitmapLaws, member, put, drop_value}
use lexe_public.PaymentDb.State.{DbState, as_u32, positions}
use lexe_public.PaymentDb.Find.{get_vec_idx_by_payment_index_iff}
use lexe_public.PaymentDb.Invariant.{IsConsistent}
use lexe_public.PaymentDb.Storage.{Ffs, PaymentDb, write_payment}
use lexe_public.PaymentDb.Indexes.{u32_limit, as_u32_small}
use lexe_public.PaymentDb.Update.{
  UpdateError, write_failed, set_at, remove_if, insert_if, reindex, apply_update, update_at,
  update_pending_payment,
}
use lexe_public.PaymentDb.Update.Positions.{
  length-set_at, map-set_at, member-positions, positions-set_same, positions-set_off,
  positions-set_on,
}

pub get_elem?_inside :
    {A : Type 0} (xs : List A) (i : ℕ) (a : A) → get_elem? xs i ≡ some a → i < length xs
get_elem?_inside [] i a h = cc
get_elem?_inside (x ∷ xs) zero a h = omega arith
get_elem?_inside (x ∷ xs) (suc i) a h = omega (arith, get_elem?_inside xs i a h)

set_at_there :
    {A : Type 0} (xs : List A) (i : ℕ) (a : A) → get_elem? xs i ≡ some a → set_at i a xs ≡ xs
unfolding set_at
set_at_there [] i a h = refl
set_at_there (x ∷ xs) zero a h = ap (λ b. b ∷ xs) (sym (some_inj h))
set_at_there (x ∷ xs) (suc i) a h = ap (λ l. x ∷ l) (set_at_there xs i a h)

module _ {A B : Type 0} (bm : Bitmap B) (laws : BitmapLaws bm) (f : A → Bool) (bits : B)
    (xs : List A) where
  remove_if_set :
      (v : ℕ) (x a : A)
      → bm.iter bits ≡ positions f 0 xs
      → length xs ≤ u32_limit
      → get_elem? xs v ≡ some x
      → (f a ≡ true → f x ≡ true)
      → ((remove_if bm (f x && not (f a)) bits v).1 ≡ true)
        × (bm.iter (remove_if bm (f x && not (f a)) bits v).0 ≡ positions f 0 (set_at v a xs))
  unfolding remove_if
  remove_if_set v x a same h there off =
      let inside = get_elem?_inside xs v x there in
      let from_zero : 0 + v ≡ v = omega arith in
      let found = rw from_zero at (member-positions f 0 v xs x (omega arith) there) in
      let was_in = laws.remove_old bits v ∙ ap (member v) same ∙ found in
      let removed = laws.iter_remove bits v ∙ ap (drop_value v) same in
      elim (Bool-cases (f a)) [
        | inl on ↦
            rw (off on, on)
              (refl, same ∙ sym (positions-set_same f 0 v xs x a there (on ∙ sym (off on))))
        | inr no_more ↦
            let gone =
              rw from_zero at (positions-set_off f 0 v xs a (omega arith) inside no_more) in
            elim (Bool-cases (f x)) [
              | inl was ↦ rw (was, no_more) (was_in ∙ was, removed ∙ sym gone)
              | inr was_not ↦
                  rw was_not (
                    refl,
                    same ∙ sym (positions-set_same f 0 v xs x a there (no_more ∙ sym was_not)),
                  )
            ]
      ]

  insert_if_set :
      (v : ℕ) (x a : A)
      → bm.iter bits ≡ positions f 0 xs
      → length xs ≤ u32_limit
      → get_elem? xs v ≡ some x
      → (f x ≡ true → f a ≡ true)
      → ((insert_if bm (not (f x) && f a) bits v).1 ≡ true)
        × (bm.iter (insert_if bm (not (f x) && f a) bits v).0 ≡ positions f 0 (set_at v a xs))
  unfolding insert_if
  insert_if_set v x a same h there on =
      let inside = get_elem?_inside xs v x there in
      let from_zero : 0 + v ≡ v = omega arith in
      let found = rw from_zero at (member-positions f 0 v xs x (omega arith) there) in
      let was_not_in = laws.insert_new bits v ∙ ap (λ l. not (member v l)) same ∙ ap not found in
      let inserted = laws.iter_insert bits v ∙ ap (put v) same in
      elim (Bool-cases (f x)) [
        | inl was ↦
            rw was (refl, same ∙ sym (positions-set_same f 0 v xs x a there (on was ∙ sym was)))
        | inr was_not ↦ elim (Bool-cases (f a)) [
          | inl is ↦
              let there_now =
                rw from_zero at (positions-set_on f 0 v xs a (omega arith) inside is) in
              rw (was_not, is) (was_not_in ∙ ap not was_not, inserted ∙ sym there_now)
          | inr is_not ↦
              rw (was_not, is_not)
                (refl, same ∙ sym (positions-set_same f 0 v xs x a there (is_not ∙ sym was_not)))
        ]
      ]

module _ {Invoice B : Type 0} (bm : Bitmap B) (laws : BitmapLaws bm)
    (text : Descriptions Invoice) where
  -- What an update of a pending payment makes of the indexes.
  reindex_set :
      (s : DbState Invoice B) (v : ℕ) (existing updated : BasicPayment Invoice)
      → IsConsistent bm text s
      → get_elem? s.payments v ≡ some existing
      → existing.index ≡ updated.index
      → (is_pending updated ≡ true → is_pending existing ≡ true)
      → (is_pending_not_junk text updated ≡ true → is_pending_not_junk text existing ≡ true)
      → (is_finalized_not_junk text existing ≡ true → is_finalized_not_junk text updated ≡ true)
      → ((reindex bm text s (as_u32 v) existing updated).1 ≡ true)
        × IsConsistent bm text record (reindex bm text s (as_u32 v) existing updated).0 {
          payments = set_at v updated s.payments;
        }
  unfolding reindex
  reindex_set s v x a c there key pending not_junk final =
      let narrow : as_u32 v ≡ v =
        as_u32_small v (omega (arith, get_elem?_inside s.payments v x there, c.fits)) in
      let (fine, bits) =
        remove_if_set bm laws is_pending s.pending s.payments v x a c.pending c.fits there
          pending in
      let (fine_not_junk, bits_not_junk) =
        remove_if_set bm laws (is_pending_not_junk text) s.pending_not_junk s.payments v x a
          c.pending_not_junk c.fits there not_junk in
      let (fine_final, bits_final) =
        insert_if_set bm laws (is_finalized_not_junk text) s.finalized_not_junk s.payments v x a
          c.finalized_not_junk c.fits there final in
      rw (reindex, narrow, fine, fine_not_junk)
        (
          fine_final,
          record {
            sorted =
                ap is_strict_total_order (
                  map-set_at (λ (p : BasicPayment Invoice). p.index) v a x s.payments there
                    (sym key))
                ∙ c.sorted;
            pending = bits;
            pending_not_junk = bits_not_junk;
            finalized_not_junk = bits_final;
            fits = omega (arith, length-set_at v a s.payments, c.fits);
          },
        )

module _ {Invoice B D : Type 0} (bm : Bitmap B) (laws : BitmapLaws bm) (text : Descriptions Invoice)
    (ffs : Ffs Invoice D) where
  apply_update-IsConsistent :
      (db : PaymentDb Invoice B D) (updated existing : BasicPayment Invoice) (v : ℕ)
      → IsConsistent bm text db.state
      → get_elem? db.state.payments v ≡ some existing
      → existing.index ≡ updated.index
      → is_pending existing ≡ true
      → (is_pending_not_junk text updated ≡ true → is_pending_not_junk text existing ≡ true)
      → ((apply_update bm text ffs db v existing updated).1
          ≡ (if (write_payment ffs db.ffs updated).1 then ok 1 else err write_failed))
        × ((apply_update bm text ffs db v existing updated).0.state.payments ≡ (
            if (write_payment ffs db.ffs updated).1
            then set_at v updated db.state.payments
            else db.state.payments))
        × IsConsistent bm text (apply_update bm text ffs db v existing updated).0.state
  unfolding apply_update is_finalized_not_junk is_finalized
  apply_update-IsConsistent db a x v c there key pending not_junk =
      let never : is_finalized_not_junk text x ≡ true → is_finalized_not_junk text a ≡ true =
        λ h. ground (arith, pending, h) in
      let (fine, after) =
        reindex_set bm laws text db.state v x a c there key (λ _. pending) not_junk never in
      elim (Bool-cases (write_payment ffs db.ffs a).1) [
        | inl written ↦ rw (apply_update, written, fine) (refl, refl, after)
        | inr failed ↦ rw (apply_update, failed) (refl, refl, c)
      ]

  module _ (same : Discrete (BasicPayment Invoice)) where
    -- An update of a payment that a consistent database holds as pending, which does not
    -- make it pending and not junk unless it was so, passes all assertions. It returns zero
    -- if nothing changed, one if the write succeeds and the error of the write if not; the
    -- payment is replaced just when the write succeeds, and the database is consistent
    -- after it in each case.
    pub update_pending_payment-IsConsistent :
        (db : PaymentDb Invoice B D) (updated existing : BasicPayment Invoice) (v : ℕ)
        → IsConsistent bm text db.state
        → get_elem? db.state.payments v ≡ some existing
        → existing.index ≡ updated.index
        → is_pending existing ≡ true
        → (is_pending_not_junk text updated ≡ true → is_pending_not_junk text existing ≡ true)
        → ((update_pending_payment bm text ffs same db updated).1
            ≡ ite
                (same updated existing)
                (ok 0)
                (if (write_payment ffs db.ffs updated).1 then ok 1 else err write_failed))
          × ((update_pending_payment bm text ffs same db updated).0.state.payments ≡ (
              if (write_payment ffs db.ffs updated).1
              then set_at v updated db.state.payments
              else db.state.payments))
          × IsConsistent bm text (update_pending_payment bm text ffs same db updated).0.state
    unfolding update_pending_payment update_at
    update_pending_payment-IsConsistent db a x v c there key pending not_junk =
        let found =
          (get_vec_idx_by_payment_index_iff db.state a.index v c.sorted).1 (x, there, key) in
        let fails : Result UpdateError ℕ =
          if (write_payment ffs db.ffs a).1 then ok 1 else err write_failed in
        let payments =
          if (write_payment ffs db.ffs a).1
          then set_at v a db.state.payments
          else db.state.payments in
        let applied = apply_update bm text ffs db v x a in
        rw (update_pending_payment, found, there, update_at)
          (elim (same a x)
            as (λ d.
              ((ite d (db, ok 0) applied).1 ≡ ite d (ok 0) fails)
              × ((ite d (db, ok 0) applied).0.state.payments ≡ payments)
              × IsConsistent bm text (ite d (db, ok 0) applied).0.state) [
                | yes e ↦
                    let unchanged = set_at_there db.state.payments v a (there ∙ ap some (sym e)) in
                    (refl, ground (arith, unchanged), c)
                | no e ↦ apply_update-IsConsistent db a x v c there key pending not_junk
              ])
