-- ===== src/PaymentDb/Insert/Batch.antt =====
-- A batch of `insert_new_payments` (app-rs/src/payments.rs): when it is taken in, and what is left of
-- one that is not.
use mathlib.Core.List.{append-nil}
use lexe_public.Base.{
  ◌+◌, ◌≤◌, ◌<◌, Bool, true, false, List, [], ◌∷◌, ◌++◌, map, ◌≡◌, refl, sym, ◌∙◌, ap, length,
  length-append, inl, inr, Bool-cases, ok, err, arith, ◌&&◌, map_option, if◌then◌else◌,
}
use lexe_public.Ids.{PaymentIndex}
use lexe_public.PaymentDb.Basic.{
  BasicPayment, Descriptions, is_strict_total_order, is_pending, is_pending_not_junk,
  is_finalized_not_junk,
}
use lexe_public.PaymentDb.Bitmap.{Bitmap, BitmapLaws}
use lexe_public.PaymentDb.State.{DbState, as_u32, positions, last, num_payments}
use lexe_public.PaymentDb.Lookups.{latest_payment_index}
use lexe_public.PaymentDb.Invariant.{IsConsistent}
use lexe_public.PaymentDb.Storage.{Ffs, PaymentDb, all_written}
use lexe_public.PaymentDb.Indexes.{u32_limit, as_u32_small}
use lexe_public.PaymentDb.Appended.{is_strict_total_order-append}
use lexe_public.PaymentDb.Insert.{
  not_sorted_or_unique, older_than_db, io_error, is_before, append_payments, insert_loop,
  insert_new_payments,
}
use lexe_public.PaymentDb.Insert.Loop.{IsIndexed, outcome, insert_loop_end}

module _ {Invoice : Type 0} where
  abbrev pub keys : List (BasicPayment Invoice) → List PaymentIndex
  keys ps = map (λ (p : BasicPayment Invoice). p.index) ps

  -- Newer than what the database holds.
  abbrev pub is_newer : {B : Type 0} → DbState Invoice B → List (BasicPayment Invoice) → Bool
  is_newer s [] = true
  is_newer s (p ∷ ps) = is_before (latest_payment_index s) p.index

  pub keys-append : (xs ys : List (BasicPayment Invoice)) → keys (xs ++ ys) ≡ keys xs ++ keys ys
  keys-append [] ys = refl
  keys-append (x ∷ xs) ys = ap (λ l. x.index ∷ l) (keys-append xs ys)

  pub latest-keys :
      (xs : List (BasicPayment Invoice))
      → map_option (λ (p : BasicPayment Invoice). p.index) (last xs) ≡ last (keys xs)
  unfolding last
  latest-keys [] = refl
  latest-keys (x ∷ []) = refl
  latest-keys (x ∷ y ∷ xs) = latest-keys (y ∷ xs)

module _ {Invoice B D : Type 0} (bm : Bitmap B) (laws : BitmapLaws bm) (text : Descriptions Invoice)
    (ffs : Ffs Invoice D) where
  keys_sorted :
      (s : DbState Invoice B) (p : BasicPayment Invoice) (ps : List (BasicPayment Invoice))
      → is_strict_total_order (keys s.payments) ≡ true
      → is_newer s (p ∷ ps) ≡ true
      → is_strict_total_order (keys (p ∷ ps)) ≡ true
      → is_strict_total_order (keys (s.payments ++ p ∷ ps)) ≡ true
  unfolding latest_payment_index
  keys_sorted s p ps old newer new =
      let latest = latest-keys s.payments in
      rw (keys-append s.payments (p ∷ ps)) (
        is_strict_total_order-append (keys s.payments) p.index (keys ps) old (rw latest at newer)
          new)

  -- The loop, from where the batch starts.
  pub insert_loop_start :
      (db : PaymentDb Invoice B D) (ps : List (BasicPayment Invoice))
      → IsConsistent bm text db.state
      → length db.state.payments + length ps < u32_limit
      → ((insert_loop bm text ffs db (as_u32 (num_payments db.state)) ps).1
          ≡ outcome (all_written ffs db.ffs ps))
        × ((insert_loop bm text ffs db (as_u32 (num_payments db.state)) ps).0.state.payments
            ≡ db.state.payments)
        × (all_written ffs db.ffs ps ≡ true
            → IsIndexed bm text
                (insert_loop bm text ffs db (as_u32 (num_payments db.state)) ps).0.state
                (db.state.payments ++ ps))
  unfolding num_payments
  insert_loop_start db ps c h =
      let start : as_u32 (num_payments db.state) ≡ length db.state.payments =
        as_u32_small (length db.state.payments) (omega arith) in
      let indexed : IsIndexed bm text db.state db.state.payments = record {
        pending = c.pending;
        pending_not_junk = c.pending_not_junk;
        finalized_not_junk = c.finalized_not_junk;
      } in
      rw start (insert_loop_end bm laws text ffs db db.state.payments ps indexed h)

  appended-IsConsistent :
      (db : PaymentDb Invoice B D) (ps xs : List (BasicPayment Invoice))
      → db.state.payments ≡ xs
      → IsIndexed bm text db.state (xs ++ ps)
      → is_strict_total_order (keys (xs ++ ps)) ≡ true
      → length xs + length ps ≤ u32_limit
      → IsConsistent bm text (append_payments db ps).state
  unfolding append_payments
  appended-IsConsistent db ps xs same indexed sorted h =
      let all : db.state.payments ++ ps ≡ xs ++ ps = ap (λ l. l ++ ps) same in
      record {
        sorted = ap (λ l. is_strict_total_order (keys l)) all ∙ sorted;
        pending = indexed.pending ∙ ap (positions is_pending 0) (sym all);
        pending_not_junk =
            indexed.pending_not_junk ∙ ap (positions (is_pending_not_junk text) 0) (sym all);
        finalized_not_junk =
            indexed.finalized_not_junk ∙ ap (positions (is_finalized_not_junk text) 0) (sym all);
        fits = omega (arith, ap length all, length-append xs ps);
      }

  -- A batch that is sorted, newer than a consistent database, and such that each write
  -- succeeds and fewer than 2^32 payments result, is inserted: `insert_new_payments` returns
  -- `Ok`, the batch is appended, and the database is consistent again.
  pub insert_new_payments-IsConsistent :
      (db : PaymentDb Invoice B D) (ps : List (BasicPayment Invoice))
      → IsConsistent bm text db.state
      → length db.state.payments + length ps < u32_limit
      → is_strict_total_order (keys ps) ≡ true
      → is_newer db.state ps ≡ true
      → all_written ffs db.ffs ps ≡ true
      → ((insert_new_payments bm text ffs db ps).1 ≡ ok tt)
        × ((insert_new_payments bm text ffs db ps).0.state.payments ≡ db.state.payments ++ ps)
        × IsConsistent bm text (insert_new_payments bm text ffs db ps).0.state
  unfolding insert_new_payments append_payments num_payments
  insert_new_payments-IsConsistent db [] c h sorted newer written =
      rw (append-nil db.state.payments) (refl, refl, c)
  insert_new_payments-IsConsistent db (p ∷ ps) c h sorted newer written =
      let (done, payments, indexed) = insert_loop_start db (p ∷ ps) c h in
      let all = keys_sorted db.state p ps c.sorted newer sorted in
      rw (insert_new_payments, sorted, newer, done, written)
        (
          refl,
          ap (λ l. l ++ p ∷ ps) payments,
          appended-IsConsistent
              (insert_loop bm text ffs db (as_u32 (num_payments db.state)) (p ∷ ps)).0 (p ∷ ps)
              db.state.payments payments (indexed written) all (omega (arith, h)),
        )

  none_sorted : is_strict_total_order (keys {Invoice = Invoice} []) ≡ true
  unfolding is_strict_total_order
  none_sorted = refl

  -- If a batch for a consistent database is not sorted, not newer, or has a write that fails,
  -- with fewer than 2^32 payments in all, then `insert_new_payments` returns the error of the
  -- first of these that is so, never that a payment is already in an index, and the payments
  -- in memory are as before.
  pub insert_new_payments_refuses :
      (db : PaymentDb Invoice B D) (ps : List (BasicPayment Invoice))
      → IsConsistent bm text db.state
      → length db.state.payments + length ps < u32_limit
      → (is_strict_total_order (keys ps) && is_newer db.state ps && all_written ffs db.ffs ps)
        ≡ false
      → ((insert_new_payments bm text ffs db ps).1
          ≡ err (
              if is_strict_total_order (keys ps)
              then if is_newer db.state ps then io_error else older_than_db
              else not_sorted_or_unique))
        × ((insert_new_payments bm text ffs db ps).0.state.payments ≡ db.state.payments)
  unfolding insert_new_payments
  insert_new_payments_refuses db [] c h bad = ground (arith, none_sorted, bad)
  insert_new_payments_refuses db (p ∷ ps) c h bad =
      let (done, payments, _) = insert_loop_start db (p ∷ ps) c h in
      rw (insert_new_payments, done)
        (elim (Bool-cases (is_strict_total_order (keys (p ∷ ps)))) [
          | inr e ↦ rw e (refl, refl)
          | inl e ↦ elim (Bool-cases (is_newer db.state (p ∷ ps))) [
            | inr older ↦ rw (e, older) (refl, refl)
            | inl newer ↦
                let failed : all_written ffs db.ffs (p ∷ ps) ≡ false =
                  ground (arith, bad, e, newer) in
                rw (e, newer, failed) (refl, payments)
          ]
        ])
