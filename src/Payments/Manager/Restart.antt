-- ===== src/Payments/Manager/Restart.antt =====
-- The data that the manager starts with (`PaymentsManager::new` of lexe-ln/src/payments/manager.rs).
use lexe_public.Base.{
  false, ◌||◌, Option, none, some, List, [], ◌∷◌, ◌≡◌, refl, sym, ◌∙◌, ◌⊎◌, inl, inr, All, arith,
  if◌then◌else◌,
}
use lexe_public.Base.Maps.{get, insert, get-insert, contains, add, contains-add}
use lexe_public.Ids.{LxPaymentId, LxPaymentId-discrete, PaymentStatus}
use lexe_public.Payments.Library.{Library}
use lexe_public.Payments.Payment.{Payment, payment_id, payment_status}
use lexe_public.Payments.Soundness.{IsSound}
use lexe_public.Payments.Manager.{PaymentsData, get_pending, is_finalized}
use lexe_public.Payments.Manager.Events.{Event, Db, run}
use lexe_public.Payments.Manager.Storage.{
  Entries, Entries-insert, Refines, is_pending_status, pending_row, final_row,
}
use lexe_public.Payments.Manager.Histories.{AdmissibleRun, run-Follows}

load_finalized : List LxPaymentId → List LxPaymentId → List LxPaymentId
load_finalized s [] = s
load_finalized s (id ∷ ids) = load_finalized (add LxPaymentId-discrete id s) ids

contains-load :
    (id : LxPaymentId) (ids s : List LxPaymentId)
    → contains LxPaymentId-discrete id (load_finalized s ids)
      ≡ (contains LxPaymentId-discrete id s || contains LxPaymentId-discrete id ids)
unfolding load_finalized contains
contains-load id [] s = ground arith
contains-load id (j ∷ ids) s = ground (
  arith,
  contains-load id ids (add LxPaymentId-discrete j s),
  contains-add LxPaymentId-discrete id j s,
)

PaymentStatus-cases :
    (s : PaymentStatus) → (s ≡ PaymentStatus.pending) ⊎ (is_pending_status s ≡ false)
PaymentStatus-cases PaymentStatus.pending = inl refl
PaymentStatus-cases PaymentStatus.completed = inr refl
PaymentStatus-cases PaymentStatus.failed = inr refl

module _ {Invoice Tx : Type 0} where
  -- `filter_map` and `collect` into the `HashMap`: a payment that is not pending is skipped, which
  -- is what a release build does.
  load_pending :
      List (LxPaymentId × Payment Invoice Tx)
      → List (Payment Invoice Tx)
      → List (LxPaymentId × Payment Invoice Tx)
  load_pending m [] = m
  load_pending m (p ∷ ps) =
      load_pending
        (if is_pending_status (payment_status p)
          then insert LxPaymentId-discrete (payment_id p) p m
          else m)
        ps

  unfoldable pub new_data : List (Payment Invoice Tx) → List LxPaymentId → PaymentsData Invoice Tx
  unfolding load_pending load_finalized
  new_data pending_payments finalized_payment_ids = record {
    pending = load_pending [] pending_payments;
    finalized = load_finalized [] finalized_payment_ids;
  }

  abbrev pub Any : (Payment Invoice Tx → Type 0) → List (Payment Invoice Tx) → Type 0
  Any P [] = ⊥
  Any P (x ∷ xs) = P x ⊎ Any P xs

  -- The answers of `read_pending_payments` and `read_finalized_payment_ids`: every pending row and
  -- no other, and the ids of the finalized rows.
  pub record Answers (db : Db Invoice Tx) (ps : List (Payment Invoice Tx)) (ids : List LxPaymentId)
      : Type 0 where
    pub rows :
        All
          (λ (p : Payment Invoice Tx).
            (get LxPaymentId-discrete (payment_id p) db ≡ some p)
            × (payment_status p ≡ PaymentStatus.pending))
          ps
    pub complete :
        (id : LxPaymentId) (p : Payment Invoice Tx)
        → get LxPaymentId-discrete id db ≡ some p
        → payment_status p ≡ PaymentStatus.pending
        → Any (λ q. payment_id q ≡ id) ps
    pub finals :
        (id : LxPaymentId)
        → contains LxPaymentId-discrete id ids ≡ final_row (get LxPaymentId-discrete id db)

module _ {Invoice Tx : Type 0} (db : Db Invoice Tx) where
  abbrev Row : Payment Invoice Tx → Type 0
  Row p =
      (get LxPaymentId-discrete (payment_id p) db ≡ some p)
      × (payment_status p ≡ PaymentStatus.pending)

  Row-pending_row :
      (id : LxPaymentId) (p : Payment Invoice Tx)
      → Row p
      → payment_id p ≡ id
      → some p ≡ pending_row (get LxPaymentId-discrete id db)
  Row-pending_row id p r e = ground arith

  load-stays :
      (id : LxPaymentId) (ps : List (Payment Invoice Tx))
      (m : List (LxPaymentId × Payment Invoice Tx))
      → All Row ps
      → get LxPaymentId-discrete id m ≡ pending_row (get LxPaymentId-discrete id db)
      → get LxPaymentId-discrete id (load_pending m ps)
        ≡ pending_row (get LxPaymentId-discrete id db)
  unfolding load_pending
  load-stays id [] m a h = h
  load-stays id (p ∷ ps) m a h = load-stays id ps _ a.1 (
      ground (
        arith,
        a.0.1,
        h,
        Row-pending_row id p a.0,
        get-insert LxPaymentId-discrete id (payment_id p) p m,
      ))

  load-appears :
      (id : LxPaymentId) (ps : List (Payment Invoice Tx))
      (m : List (LxPaymentId × Payment Invoice Tx))
      → All Row ps
      → Any (λ q. payment_id q ≡ id) ps
      → get LxPaymentId-discrete id (load_pending m ps)
        ≡ pending_row (get LxPaymentId-discrete id db)
  unfolding load_pending
  load-appears id [] m a k = absurd k
  load-appears id (p ∷ ps) m a (inl e) = load-stays id ps _ a.1 (
      ground (
        arith,
        a.0.1,
        Row-pending_row id p a.0 e,
        get-insert LxPaymentId-discrete id (payment_id p) p m,
      ))
  load-appears id (p ∷ ps) m a (inr k) = load-appears id ps _ a.1 k

  Entries-load :
      (ps : List (Payment Invoice Tx)) (m : List (LxPaymentId × Payment Invoice Tx))
      → ((id : LxPaymentId) (p : Payment Invoice Tx)
          → get LxPaymentId-discrete id db ≡ some p
          → IsSound p)
      → All Row ps
      → Entries m
      → Entries (load_pending m ps)
  unfolding load_pending
  Entries-load [] m s a en = en
  Entries-load (p ∷ ps) m s a en =
      Entries-load ps _ s a.1 (rw a.0.1 (Entries-insert p m (s (payment_id p) p a.0.0) a.0.1 en))

module _ {Invoice Tx : Type 0} (db : Db Invoice Tx) (ps : List (Payment Invoice Tx))
    (ids : List LxPaymentId) (k : Answers db ps ids) where
  load-get :
      (id : LxPaymentId) (o : Option (Payment Invoice Tx))
      → get LxPaymentId-discrete id db ≡ o
      → ((p : Payment Invoice Tx)
          → o ≡ some p
          → payment_status p ≡ PaymentStatus.pending
          → Any (λ q. payment_id q ≡ id) ps)
      → get LxPaymentId-discrete id (load_pending [] ps)
        ≡ pending_row (get LxPaymentId-discrete id db)
  unfolding get
  load-get id none e c = load-stays db id ps [] k.rows (rw e refl)
  load-get id (some p) e c = elim (PaymentStatus-cases (payment_status p)) [
    | inl h ↦ load-appears db id ps [] k.rows (c p refl h)
    | inr h ↦ load-stays db id ps [] k.rows (ground (arith, e, h))
  ]

  pub new_data-Refines :
      ((id : LxPaymentId) (p : Payment Invoice Tx)
        → get LxPaymentId-discrete id db ≡ some p
        → IsSound p)
      → Refines (new_data ps ids) db
  unfolding new_data contains
  new_data-Refines s = record {
    entries = Entries-load db ps [] s k.rows tt;
    pend = λ id. load-get id _ refl (k.complete id);
    fin = λ id. contains-load id ids [] ∙ k.finals id;
    sound = s;
  }

module _ {Invoice Tx : Type 0} (lib : Library Invoice Tx) where
  -- Let an admissible history start from a view of the database. If the manager is then
  -- started again, from all pending rows and the ids of the finalized rows, each lookup of
  -- the new memory, in the pending map and in the finalized set, gives what it gave before,
  -- and the new memory is again a view of the database.
  pub restart_recovers :
      (d : PaymentsData Invoice Tx) (db : Db Invoice Tx) (es : List (Event Invoice Tx))
      (ps : List (Payment Invoice Tx)) (ids : List LxPaymentId) (id : LxPaymentId)
      → Refines d db
      → AdmissibleRun lib d db es
      → Answers (run lib d db es).1 ps ids
      → (get_pending id (new_data ps ids) ≡ get_pending id (run lib d db es).0)
        × (is_finalized id (new_data ps ids) ≡ is_finalized id (run lib d db es).0)
        × Refines (new_data ps ids) (run lib d db es).1
  restart_recovers d db es ps ids id r a k =
      let before = (run-Follows lib d db es r a).refines in
      let after = new_data-Refines (run lib d db es).1 ps ids k before.sound in
      (after.pend id ∙ sym (before.pend id), after.fin id ∙ sym (before.fin id), after)
