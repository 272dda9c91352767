-- ===== src/PaymentDb/Sync.antt =====
-- `sync_payments` (app-rs/src/payments.rs): the app asks the node for the state of its pending payments,
-- and then for new ones. The node's API is a parameter; `none` is an error of a request.
pub mod Batches
pub mod New
use lexe_public.Base.{
  ℕ, zero, suc, ◌+◌, Bool, true, false, Option, none, some, List, [], ◌∷◌, length, ltb, ◌==◌,
  Result, ok, err, if◌then◌else◌,
}
use lexe_public.Ids.{LxPaymentId, PaymentIndex}
use lexe_public.PaymentDb.Basic.{BasicPayment, Descriptions}
use lexe_public.PaymentDb.Bitmap.{Bitmap}
use lexe_public.PaymentDb.State.{DbState, num_pending}
use lexe_public.PaymentDb.Lookups.{latest_payment_index, pending_ids}
use lexe_public.PaymentDb.Storage.{Ffs, PaymentDb}
use lexe_public.PaymentDb.Insert.{InsertError, insert_new_payments}
use lexe_public.PaymentDb.Update.{UpdateError, update_pending_payments}

-- The two requests of `AppNodeRunApi`, on the state of the node.
pub record AppNodeRunApi (Invoice N : Type 0) : Type 0 where
  pub get_new_payments : N → Option PaymentIndex → ℕ → N × Option (List (BasicPayment Invoice))
  pub get_payments_by_ids : N → List LxPaymentId → N × Option (List (BasicPayment Invoice))

pub data SyncError : Type 0 where
  request_failed : SyncError
  more_than_expected : SyncError
  insert_failed : InsertError → SyncError
  update_failed : UpdateError → SyncError
  index_out_of_bounds : SyncError
  zero_batch_size : SyncError

pub record PaymentSyncSummary : Type 0 where
  pub num_updated : ℕ
  pub num_new : ℕ

pub record Synced (Invoice B D N A : Type 0) : Type 0 where
  pub db : PaymentDb Invoice B D
  pub node : N
  -- `none` when the loop has run out of fuel
  pub result : Option (Result SyncError A)

unfoldable pub any_changes : PaymentSyncSummary → Bool
any_changes s = if ltb 0 s.num_new then true else ltb 0 s.num_updated

module _ {A : Type 0} where
  unfoldable pub take : ℕ → List A → List A
  take n [] = []
  take zero (x ∷ xs) = []
  take (suc n) (x ∷ xs) = x ∷ take n xs

  unfoldable pub drop : ℕ → List A → List A
  drop n [] = []
  drop zero (x ∷ xs) = x ∷ xs
  drop (suc n) (x ∷ xs) = drop n xs

  -- `chunks`, of at most as many chunks as the fuel says.
  chunks_of : ℕ → ℕ → List A → List (List A)
  chunks_of zero n xs = []
  chunks_of (suc fuel) n [] = []
  chunks_of (suc fuel) n (x ∷ xs) = take n (x ∷ xs) ∷ chunks_of fuel n (drop n (x ∷ xs))

  unfoldable pub chunks : ℕ → List A → List (List A)
  unfolding chunks_of
  chunks n xs = chunks_of (length xs) n xs

module _ {Invoice B D N : Type 0} (bm : Bitmap B) (text : Descriptions Invoice)
    (ffs : Ffs Invoice D) (api : AppNodeRunApi Invoice N) where
  -- The loop, with fuel. Each round asks for what comes after the latest payment of the database.
  unfoldable pub sync_new_loop : ℕ → ℕ → PaymentDb Invoice B D → N → ℕ → Synced Invoice B D N ℕ
  sync_new_loop zero batch_size db node num_new = record { db = db; node = node; result = none }
  sync_new_loop (suc fuel) batch_size db node num_new =
      let (next, answer) = api.get_new_payments node (latest_payment_index db.state) batch_size in
      elim answer [
        | none ↦ record { db = db; node = next; result = some (err request_failed) }
        | some payments ↦
            let (inserted, done) = insert_new_payments bm text ffs db payments in
            let rest = sync_new_loop fuel batch_size inserted next (num_new + length payments) in
            elim done [
              | err e ↦ record { db = inserted; node = next; result = some (err (insert_failed e)) }
              | ok _ ↦
                  if ltb (length payments) batch_size
                  then record {
                    db = inserted;
                    node = next;
                    result = some (ok (num_new + length payments));
                  }
                  else rest
            ]
      ]

  unfoldable pub sync_new_payments : ℕ → ℕ → PaymentDb Invoice B D → N → Synced Invoice B D N ℕ
  sync_new_payments fuel batch_size db node = sync_new_loop fuel batch_size db node 0

  module _ (same : Discrete (BasicPayment Invoice)) where
    unfoldable pub sync_chunks :
        List (List LxPaymentId) → PaymentDb Invoice B D → N → ℕ → Synced Invoice B D N ℕ
    sync_chunks [] db node num_updated = record {
      db = db;
      node = node;
      result = some (ok num_updated);
    }
    sync_chunks (ids ∷ batches) db node num_updated =
        let (next, answer) = api.get_payments_by_ids node ids in
        elim answer [
          | none ↦ record { db = db; node = next; result = some (err request_failed) }
          | some payments ↦
              let (updated, done) = update_pending_payments bm text ffs same db payments in
              if ltb (length ids) (length payments)
              then record { db = db; node = next; result = some (err more_than_expected) }
              else elim done [
                | err e ↦ record {
                  db = updated;
                  node = next;
                  result = some (err (update_failed e));
                }
                | ok n ↦ sync_chunks batches updated next (num_updated + n)
              ]
        ]

    unfoldable pub sync_pending_payments : ℕ → PaymentDb Invoice B D → N → Synced Invoice B D N ℕ
    sync_pending_payments batch_size db node =
        if num_pending bm db.state == 0
        then record { db = db; node = node; result = some (ok 0) }
        else elim (pending_ids bm db.state) [
          | err _ ↦ record { db = db; node = node; result = some (err index_out_of_bounds) }
          | ok ids ↦ sync_chunks (chunks batch_size ids) db node 0
        ]

    unfoldable pub summarize :
        ℕ → Option (Result SyncError ℕ) → Option (Result SyncError PaymentSyncSummary)
    summarize num_updated none = none
    summarize num_updated (some (err e)) = some (err e)
    summarize num_updated (some (ok num_new)) =
        some (ok record { num_updated = num_updated; num_new = num_new })

    unfoldable pub after_pending :
        ℕ → ℕ → Synced Invoice B D N ℕ → Synced Invoice B D N PaymentSyncSummary
    after_pending fuel batch_size first = elim first.result [
      | none ↦ record { db = first.db; node = first.node; result = none }
      | some r ↦ elim r [
        | err e ↦ record { db = first.db; node = first.node; result = some (err e) }
        | ok num_updated ↦
            let second = sync_new_payments fuel batch_size first.db first.node in
            record {
              db = second.db;
              node = second.node;
              result = summarize num_updated second.result;
            }
      ]
    ]

    unfoldable pub sync_payments :
        ℕ → ℕ → PaymentDb Invoice B D → N → Synced Invoice B D N PaymentSyncSummary
    sync_payments fuel batch_size db node =
        if ltb 0 batch_size
        then after_pending fuel batch_size (sync_pending_payments batch_size db node)
        else record { db = db; node = node; result = some (err zero_batch_size) }
