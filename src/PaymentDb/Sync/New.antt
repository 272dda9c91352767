-- ===== src/PaymentDb/Sync/New.antt =====
-- `sync_new_payments` (app-rs/src/payments.rs), against a node whose payments continue the database's.
use mathlib.Core.List.{append_assoc}
use lexe_public.Base.{
  ℕ, zero, suc, ◌+◌, ◌<◌, true, false, Option, some, List, [], ◌∷◌, ◌++◌, ◌≡◌, refl, sym, ◌∙◌, ap,
  length, length-append, ltb, dec_lt, ok, arith,
}
use lexe_public.Ids.{PaymentIndex}
use lexe_public.PaymentDb.Basic.{BasicPayment, Descriptions, is_strict_total_order}
use lexe_public.PaymentDb.Bitmap.{Bitmap, BitmapLaws}
use lexe_public.PaymentDb.State.{filter}
use lexe_public.PaymentDb.Lookups.{latest_payment_index}
use lexe_public.PaymentDb.Invariant.{IsConsistent}
use lexe_public.PaymentDb.Storage.{Ffs, PaymentDb, write_payment, all_written}
use lexe_public.PaymentDb.Indexes.{u32_limit}
use lexe_public.PaymentDb.Insert.{is_before, insert_new_payments}
use lexe_public.PaymentDb.Insert.Batch.{
  keys, keys-append, is_newer, latest-keys, insert_new_payments-IsConsistent,
}
use lexe_public.PaymentDb.Sync.{AppNodeRunApi, take, drop, sync_new_loop, sync_new_payments}
use lexe_public.PaymentDb.Sync.Batches.{
  take-drop, take_all, length-drop, sorted-append, sorted_start, filter_after,
}

module _ {Invoice B D N : Type 0} (bm : Bitmap B) (laws : BitmapLaws bm)
    (text : Descriptions Invoice) (ffs : Ffs Invoice D) (api : AppNodeRunApi Invoice N)
    (writes : (d : D) (i : PaymentIndex) (p : BasicPayment Invoice)
      → (ffs.write d i p).1 ≡ true) where
  all_writes : (d : D) (ps : List (BasicPayment Invoice)) → all_written ffs d ps ≡ true
  unfolding write_payment
  all_writes d [] = refl
  all_writes d (p ∷ ps) =
      let rest = all_writes (ffs.write d p.index p).0 ps in rw (writes d p.index p, rest) refl

  batch_sorted :
      (db : PaymentDb Invoice B D) (batch rest : List (BasicPayment Invoice))
      → is_strict_total_order (keys (db.state.payments ++ (batch ++ rest))) ≡ true
      → (is_strict_total_order (keys batch) ≡ true) × (is_newer db.state batch ≡ true)
  unfolding latest_payment_index is_strict_total_order
  batch_sorted db [] rest h = (refl, refl)
  batch_sorted db (p ∷ ps) rest h =
      let split = keys-append db.state.payments (p ∷ ps ++ rest) in
      let (newer, sorted) =
        sorted-append (keys db.state.payments) p.index (keys (ps ++ rest)) (rw split at h) in
      let inner = keys-append (p ∷ ps) rest in
      (
        sorted_start (keys (p ∷ ps)) (keys rest) (rw inner at sorted),
        ap (λ l. is_before l p.index) (latest-keys db.state.payments) ∙ newer,
      )

  -- One batch of the node's, taken in.
  insert_batch :
      (db : PaymentDb Invoice B D) (batch rest : List (BasicPayment Invoice))
      → IsConsistent bm text db.state
      → is_strict_total_order (keys (db.state.payments ++ (batch ++ rest))) ≡ true
      → length db.state.payments + length batch < u32_limit
      → ((insert_new_payments bm text ffs db batch).1 ≡ ok tt)
        × ((insert_new_payments bm text ffs db batch).0.state.payments ≡ db.state.payments ++ batch)
        × IsConsistent bm text (insert_new_payments bm text ffs db batch).0.state
  insert_batch db batch rest c sorted h =
      let (batch_is, newer) = batch_sorted db batch rest sorted in
      insert_new_payments-IsConsistent bm laws text ffs db batch c h batch_is newer
        (all_writes db.ffs batch)

  module _ (all : List (BasicPayment Invoice)) (sorted : is_strict_total_order (keys all) ≡ true)
      (small : length all < u32_limit)
      (holds : (node : N) (start : Option PaymentIndex) (limit : ℕ)
        → (api.get_new_payments node start limit).1
          ≡ some (take limit (filter (λ p. is_before start p.index) all))) where
    answers :
        (db : PaymentDb Invoice B D) (missing : List (BasicPayment Invoice)) (node : N) (limit : ℕ)
        → all ≡ db.state.payments ++ missing
        → (api.get_new_payments node (latest_payment_index db.state) limit).1
          ≡ some (take limit missing)
    unfolding latest_payment_index
    answers db missing node limit is =
        let latest = latest-keys db.state.payments in
        let after : filter (λ p. is_before (latest_payment_index db.state) p.index) all ≡ missing =
          rw (is, latest) (filter_after db.state.payments missing (rw is at sorted)) in
        holds node (latest_payment_index db.state) limit ∙ ap (λ l. some (take limit l)) after

    loop_complete :
        (fuel batch_size : ℕ) (db : PaymentDb Invoice B D) (missing : List (BasicPayment Invoice))
        (node : N) (num_new : ℕ)
        → 0 < batch_size
        → length missing < fuel
        → IsConsistent bm text db.state
        → all ≡ db.state.payments ++ missing
        → ((sync_new_loop bm text ffs api fuel batch_size db node num_new).result
            ≡ some (ok (num_new + length missing)))
          × ((sync_new_loop bm text ffs api fuel batch_size db node num_new).db.state.payments
              ≡ all)
          × IsConsistent bm text
              (sync_new_loop bm text ffs api fuel batch_size db node num_new).db.state
    unfolding sync_new_loop
    loop_complete zero batch_size db missing node n b h c is = absurd (omega arith)
    loop_complete (suc fuel) batch_size db missing node n b h c is =
        let batch = take batch_size missing in
        let rest = drop batch_size missing in
        let cut : batch ++ rest ≡ missing = take-drop batch_size missing in
        let answer = answers db missing node batch_size is in
        let whole : db.state.payments ++ (batch ++ rest) ≡ all =
          ap (λ l. db.state.payments ++ l) cut ∙ sym is in
        let total = length-append db.state.payments missing in
        let parts = length-append batch rest in
        let fits : length db.state.payments + length batch < u32_limit =
          omega (arith, small, total, parts, ap length cut, ap length is) in
        let (done, payments, after) =
          insert_batch db batch rest c (ap (λ l. is_strict_total_order (keys l)) whole ∙ sorted)
            fits in
        rw (sync_new_loop, answer, done)
          (elim (dec_lt (length batch) batch_size) [
            | yes short ↦
                let all_taken = take_all batch_size missing short in
                let last_one : ltb (length batch) batch_size ≡ true = ground (arith, short) in
                rw last_one (
                  ap (λ (l : List (BasicPayment Invoice)). some (ok (n + length l))) all_taken,
                  payments ∙ ap (λ l. db.state.payments ++ l) all_taken ∙ sym is,
                  after,
                )
            | no full ↦
                let more : ltb (length batch) batch_size ≡ false = ground (arith, full) in
                let inserted = (insert_new_payments bm text ffs db batch).0 in
                let next =
                  (api.get_new_payments node (latest_payment_index db.state) batch_size).0 in
                let left = length-drop batch_size missing (omega arith) in
                let still : all ≡ inserted.state.payments ++ rest =
                  sym whole
                  ∙ sym (append_assoc db.state.payments batch rest)
                  ∙ ap (λ l. l ++ rest) (sym payments) in
                let (result, payments_then, after_then) =
                  loop_complete fuel batch_size inserted rest next (n + length batch) b
                    (omega arith) after still in
                let count : n + length batch + length rest ≡ n + length missing =
                  omega (arith, parts, ap length cut) in
                rw more (result ∙ ap (λ k. some (ok k)) count, payments_then, after_then)
          ])

    -- Let the node hold the payments of a consistent database followed by missing ones,
    -- sorted and fewer than 2^32, and answer each request with the first ones after the
    -- index that is asked for, at most as many as the batch size, which is positive; let
    -- every write succeed. Then with fuel for one round more than there are missing
    -- payments `sync_new_payments` ends well, counts the missing payments, and leaves a
    -- consistent database that holds what the node holds.
    pub sync_new_payments_complete :
        (fuel batch_size : ℕ) (db : PaymentDb Invoice B D) (missing : List (BasicPayment Invoice))
        (node : N)
        → 0 < batch_size
        → length missing < fuel
        → IsConsistent bm text db.state
        → all ≡ db.state.payments ++ missing
        → ((sync_new_payments bm text ffs api fuel batch_size db node).result
            ≡ some (ok (length missing)))
          × ((sync_new_payments bm text ffs api fuel batch_size db node).db.state.payments ≡ all)
          × IsConsistent bm text
              (sync_new_payments bm text ffs api fuel batch_size db node).db.state
    unfolding sync_new_payments
    sync_new_payments_complete fuel batch_size db missing node b h c is =
        let (result, payments, after) = loop_complete fuel batch_size db missing node 0 b h c is in
        (result ∙ ap (λ k. some (ok k)) (omega arith), payments, after)
