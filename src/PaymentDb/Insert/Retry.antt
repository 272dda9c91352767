-- ===== src/PaymentDb/Insert/Retry.antt =====
-- `insert_new_payments` after a write that failed (app-rs/src/payments.rs): the indexes keep what the
-- loop put into them.
use lexe_public.Base.{
  ℕ, suc, ◌+◌, ◌<◌, Bool, true, false, not, List, [], ◌∷◌, ◌≡◌, refl, ◌∙◌, ap, length, err, arith,
  map_option,
}
use lexe_public.PaymentDb.Basic.{BasicPayment, Descriptions, is_strict_total_order, is_pending}
use lexe_public.PaymentDb.Bitmap.{Bitmap, BitmapLaws, member, put}
use lexe_public.PaymentDb.State.{DbState, last, as_u32, num_payments}
use lexe_public.PaymentDb.Lookups.{latest_payment_index}
use lexe_public.PaymentDb.Invariant.{IsConsistent}
use lexe_public.PaymentDb.Storage.{Ffs, PaymentDb, write_payment, all_written}
use lexe_public.PaymentDb.Indexes.{u32_limit}
use lexe_public.PaymentDb.Insert.{
  InsertError, already_pending, io_error, is_before, index_if, index_finalized, index_not_junk,
  index_new, insert_loop, insert_new_payments,
}
use lexe_public.PaymentDb.Insert.Batch.{keys, is_newer, insert_loop_start}

member-put : (v x : ℕ) (l : List ℕ) → member v l ≡ true → member v (put x l) ≡ true
unfolding put
member-put v x [] h = cc
member-put v x (y ∷ l) h = ground (arith, member-put v x l, h)

member-put_same : (x : ℕ) (l : List ℕ) → member x (put x l) ≡ true
unfolding put
member-put_same x [] = ground arith
member-put_same x (y ∷ l) = ground (arith, member-put_same x l)

module _ {B : Type 0} (bm : Bitmap B) (laws : BitmapLaws bm) where
  index_if_keeps :
      (test : Bool) (bits : B) (v x : ℕ) (e : InsertError)
      → member v (bm.iter bits) ≡ true
      → member v (bm.iter (index_if bm test bits x e).0) ≡ true
  unfolding index_if
  index_if_keeps false bits v x e h = h
  index_if_keeps true bits v x e h =
      ap (member v) (laws.iter_insert bits x) ∙ member-put v x (bm.iter bits) h

  index_if_inserts :
      (bits : B) (x : ℕ) (e : InsertError) → member x (bm.iter (index_if bm true bits x e).0) ≡ true
  unfolding index_if
  index_if_inserts bits x e =
      ap (member x) (laws.iter_insert bits x) ∙ member-put_same x (bm.iter bits)

  index_if_refuses :
      (bits : B) (x : ℕ) (e : InsertError)
      → member x (bm.iter bits) ≡ true
      → (index_if bm true bits x e).1 ≡ err e
  unfolding index_if
  index_if_refuses bits x e h =
      let old : (bm.insert bits x).1 ≡ false = laws.insert_new bits x ∙ ap not h in rw old refl

module _ {Invoice B : Type 0} (bm : Bitmap B) (text : Descriptions Invoice) where
  index_not_junk_pending :
      (s : DbState Invoice B) (x : ℕ) (p : BasicPayment Invoice)
      → (index_not_junk bm text s x p).0.pending ≡ s.pending
  unfolding index_not_junk index_finalized
  index_not_junk_pending s x p = ground arith

  index_new_keeps :
      (laws : BitmapLaws bm) (s : DbState Invoice B) (v x : ℕ) (p : BasicPayment Invoice)
      → member v (bm.iter s.pending) ≡ true
      → member v (bm.iter (index_new bm text s x p).0.pending) ≡ true
  unfolding index_new
  index_new_keeps laws s v x p h =
      let kept = index_if_keeps bm laws (is_pending p) s.pending v x already_pending h in
      ground (
        arith,
        kept,
        index_not_junk_pending
            record s { pending = (index_if bm (is_pending p) s.pending x already_pending).0 } x p,
      )

  index_new_inserts :
      (laws : BitmapLaws bm) (s : DbState Invoice B) (x : ℕ) (p : BasicPayment Invoice)
      → is_pending p ≡ true
      → member x (bm.iter (index_new bm text s x p).0.pending) ≡ true
  unfolding index_new
  index_new_inserts laws s x p h =
      let put_in = index_if_inserts bm laws s.pending x already_pending in
      rw (index_new, h)
        (ground (
          arith,
          put_in,
          index_not_junk_pending
              record s { pending = (index_if bm true s.pending x already_pending).0 } x p,
        ))

  index_new_refuses :
      (laws : BitmapLaws bm) (s : DbState Invoice B) (x : ℕ) (p : BasicPayment Invoice)
      → is_pending p ≡ true
      → member x (bm.iter s.pending) ≡ true
      → (index_new bm text s x p).1 ≡ err already_pending
  unfolding index_new
  index_new_refuses laws s x p h old =
      let refused = index_if_refuses bm laws s.pending x already_pending old in
      rw (index_new, h, refused) refl

module _ {Invoice B D : Type 0} (bm : Bitmap B) (laws : BitmapLaws bm) (text : Descriptions Invoice)
    (ffs : Ffs Invoice D) where
  insert_loop_keeps :
      (db : PaymentDb Invoice B D) (v x : ℕ) (ps : List (BasicPayment Invoice))
      → member v (bm.iter db.state.pending) ≡ true
      → member v (bm.iter (insert_loop bm text ffs db x ps).0.state.pending) ≡ true
  unfolding insert_loop
  insert_loop_keeps db v x [] h = h
  insert_loop_keeps db v x (p ∷ ps) h =
      let indexed = index_new bm text db.state x p in
      let kept = index_new_keeps bm text laws db.state v x p h in
      let rest =
        insert_loop_keeps record { ffs = (write_payment ffs db.ffs p).0; state = indexed.0 } v
          (as_u32 (suc x)) ps kept in
      ground (arith, kept, rest)

  insert_loop_inserts :
      (db : PaymentDb Invoice B D) (x : ℕ) (p : BasicPayment Invoice)
      (ps : List (BasicPayment Invoice))
      → is_pending p ≡ true
      → member x (bm.iter (insert_loop bm text ffs db x (p ∷ ps)).0.state.pending) ≡ true
  unfolding insert_loop
  insert_loop_inserts db x p ps h =
      let indexed = index_new bm text db.state x p in
      let put_in = index_new_inserts bm text laws db.state x p h in
      let rest =
        insert_loop_keeps record { ffs = (write_payment ffs db.ffs p).0; state = indexed.0 } x
          (as_u32 (suc x)) ps put_in in
      ground (arith, put_in, rest)

  insert_loop_refuses :
      (db : PaymentDb Invoice B D) (x : ℕ) (p : BasicPayment Invoice)
      (ps : List (BasicPayment Invoice))
      → is_pending p ≡ true
      → member x (bm.iter db.state.pending) ≡ true
      → (insert_loop bm text ffs db x (p ∷ ps)).1 ≡ err already_pending
  unfolding insert_loop
  insert_loop_refuses db x p ps h old =
      rw (insert_loop, index_new_refuses bm text laws db.state x p h old) refl

  insert_new_payments_fails :
      (db : PaymentDb Invoice B D) (p : BasicPayment Invoice) (ps : List (BasicPayment Invoice))
      → IsConsistent bm text db.state
      → length db.state.payments + length (p ∷ ps) < u32_limit
      → is_strict_total_order (keys (p ∷ ps)) ≡ true
      → is_newer db.state (p ∷ ps) ≡ true
      → all_written ffs db.ffs (p ∷ ps) ≡ false
      → (insert_new_payments bm text ffs db (p ∷ ps) ≡ (
        (insert_loop bm text ffs db (as_u32 (num_payments db.state)) (p ∷ ps)).0,
        err io_error,
      ))
        × ((insert_loop bm text ffs db (as_u32 (num_payments db.state)) (p ∷ ps)).0.state.payments
            ≡ db.state.payments)
  unfolding insert_new_payments
  insert_new_payments_fails db p ps c h sorted newer failed =
      let (done, payments, _) = insert_loop_start bm laws text ffs db (p ∷ ps) c h in
      (rw (insert_new_payments, sorted, newer, done, failed) refl, payments)

  insert_new_payments_again :
      (db : PaymentDb Invoice B D) (p : BasicPayment Invoice) (ps : List (BasicPayment Invoice))
      → is_strict_total_order (keys (p ∷ ps)) ≡ true
      → is_newer db.state (p ∷ ps) ≡ true
      → is_pending p ≡ true
      → member (as_u32 (num_payments db.state)) (bm.iter db.state.pending) ≡ true
      → (insert_new_payments bm text ffs db (p ∷ ps)).1 ≡ err already_pending
  unfolding insert_new_payments
  insert_new_payments_again db p ps sorted newer is old =
      rw
        (
          insert_new_payments,
          sorted,
          newer,
          insert_loop_refuses db (as_u32 (num_payments db.state)) p ps is old,
        )
        refl

  -- If a sorted and newer batch for a consistent database has a write that fails, fewer than
  -- 2^32 payments in all, and a first payment that is pending, then inserting it fails with
  -- the error of the write, and inserting it again fails because the first payment is already
  -- in the pending index, whatever the disk has become.
  pub insert_new_payments_retry :
      (db : PaymentDb Invoice B D) (p : BasicPayment Invoice) (ps : List (BasicPayment Invoice))
      (d : D)
      → IsConsistent bm text db.state
      → length db.state.payments + length (p ∷ ps) < u32_limit
      → is_strict_total_order (keys (p ∷ ps)) ≡ true
      → is_newer db.state (p ∷ ps) ≡ true
      → all_written ffs db.ffs (p ∷ ps) ≡ false
      → is_pending p ≡ true
      → ((insert_new_payments bm text ffs db (p ∷ ps)).1 ≡ err io_error)
        × ((insert_new_payments bm text ffs
              record (insert_new_payments bm text ffs db (p ∷ ps)).0 { ffs = d }
              (p ∷ ps)).1
            ≡ err already_pending)
  unfolding num_payments latest_payment_index
  insert_new_payments_retry db p ps d c h sorted newer failed is =
      let (fails, payments) = insert_new_payments_fails db p ps c h sorted newer failed in
      let next = (insert_loop bm text ffs db (as_u32 (num_payments db.state)) (p ∷ ps)).0 in
      let again = record next { ffs = d } in
      let still : is_newer again.state (p ∷ ps) ≡ true =
        ap
          (λ (l : List (BasicPayment Invoice)).
            is_before (map_option (λ q. q.index) (last l)) p.index)
          payments
        ∙ newer in
      let same : as_u32 (num_payments again.state) ≡ as_u32 (num_payments db.state) =
        ap (λ (l : List (BasicPayment Invoice)). as_u32 (length l)) payments in
      let old =
        ap (λ n. member n (bm.iter again.state.pending)) same
        ∙ insert_loop_inserts db (as_u32 (num_payments db.state)) p ps is in
      (
        ap (λ r. r.1) fails,
        ap (λ r. (insert_new_payments bm text ffs record r.0 { ffs = d } (p ∷ ps)).1) fails
            ∙ insert_new_payments_again again p ps sorted still is old,
      )
