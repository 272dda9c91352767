-- ===== src/Payments/Manager/Storage.antt =====
-- The manager's memory as a view of the database (lexe-ln/src/payments/manager.rs).
use mathlib.Core.Path.{subst}
use lexe_public.Base.{
  Bool, true, false, Option, none, some, List, [], ◌∷◌, ◌≡◌, refl, sym, ap, ◌⊎◌, String, ◌≢◌, All,
  arith, ite, some_inj, if_pos, if_neg, ◌∙◌,
}
use lexe_public.Base.Maps.{get, insert, remove}
use lexe_public.Ids.{LxPaymentId, LxPaymentId-discrete, PaymentStatus}
use lexe_public.Payments.Payment.{Payment, payment_id, payment_status, payment_note, set_note}
use lexe_public.Payments.Soundness.{IsSound}
use lexe_public.Payments.Manager.{PaymentsData, get_pending, is_finalized}
use lexe_public.Payments.Manager.Events.{Db}

abbrev pub is_pending_status : PaymentStatus → Bool
is_pending_status PaymentStatus.pending = true
is_pending_status PaymentStatus.completed = false
is_pending_status PaymentStatus.failed = false

module _ {Invoice Tx : Type 0} where
  -- The rows that `read_pending_payments` and `read_finalized_payment_ids` would return.
  abbrev pub pending_row : Option (Payment Invoice Tx) → Option (Payment Invoice Tx)
  pending_row none = none
  pending_row (some p) = elim (is_pending_status (payment_status p)) [
    | true ↦ some p
    | false ↦ none
  ]

  abbrev pub final_row : Option (Payment Invoice Tx) → Bool
  final_row none = false
  final_row (some p) = elim (is_pending_status (payment_status p)) [ true ↦ false | false ↦ true ]

  -- Each entry of the pending map is a sound pending payment under its own id, and no id has two.
  abbrev pub Entries : List (LxPaymentId × Payment Invoice Tx) → Type 0
  Entries [] = Unit
  Entries ((j, p) ∷ m) =
      (payment_id p ≡ j)
      × IsSound p
      × (payment_status p ≡ PaymentStatus.pending)
      × All (λ (e : LxPaymentId × Payment Invoice Tx). e.0 ≢ j) m
      × Entries m

  pub record Refines (d : PaymentsData Invoice Tx) (db : Db Invoice Tx) : Type 0 where
    pub entries : Entries d.pending
    pub pend : (id : LxPaymentId) → get_pending id d ≡ pending_row (get LxPaymentId-discrete id db)
    pub fin : (id : LxPaymentId) → is_finalized id d ≡ final_row (get LxPaymentId-discrete id db)
    pub sound :
        (id : LxPaymentId) (p : Payment Invoice Tx)
        → get LxPaymentId-discrete id db ≡ some p
        → IsSound p

  -- What a payment has to fulfil when it is committed: its id is not finalized yet, or it is the
  -- row of its id with another note.
  pub record CanCommit (d : PaymentsData Invoice Tx) (db : Db Invoice Tx) (p : Payment Invoice Tx)
      : Type 0 where
    pub sound : IsSound p
    pub target :
        (is_finalized (payment_id p) d ≡ false)
        ⊎ ((q : Payment Invoice Tx) × (n : Option String) × (get LxPaymentId-discrete
                (payment_id p)
                db
              ≡ some q)
            × (p ≡ set_note q n))

  pub set_note-keeps :
      (p : Payment Invoice Tx) (n : Option String)
      → (payment_id (set_note p n) ≡ payment_id p)
        × (payment_status (set_note p n) ≡ payment_status p)
  unfolding set_note payment_id payment_status
  set_note-keeps p n = ground arith

  -- A finalized row changes by its note at most.
  abbrev pub FinalKept : Db Invoice Tx → Db Invoice Tx → Type 0
  FinalKept db db' =
      (id : LxPaymentId) (p : Payment Invoice Tx)
      → get LxPaymentId-discrete id db ≡ some p
      → is_pending_status (payment_status p) ≡ false
      → (n : Option String) × (get LxPaymentId-discrete id db' ≡ some (set_note p n))

  -- The memory and the database after an event on the database `db`.
  pub record Follows (db : Db Invoice Tx) (d' : PaymentsData Invoice Tx) (db' : Db Invoice Tx)
      : Type 0 where
    pub refines : Refines d' db'
    pub kept : FinalKept db db'

  pub set_note-set_note :
      (p : Payment Invoice Tx) (m n : Option String) → set_note (set_note p m) n ≡ set_note p n
  unfolding set_note
  set_note-set_note p m n = ground arith

  pub set_note_self : (p : Payment Invoice Tx) → p ≡ set_note p (payment_note p)
  unfolding set_note payment_note
  set_note_self p = ground arith

  pub FinalKept-refl : (db : Db Invoice Tx) → FinalKept db db
  FinalKept-refl db id p e h = (payment_note p, e ∙ ap some (set_note_self p))

  pub FinalKept-trans : (a b c : Db Invoice Tx) → FinalKept a b → FinalKept b c → FinalKept a c
  FinalKept-trans a b c f g id p e h =
      let (m, e₁) = f id p e h in
      let (n, e₂) = g id (set_note p m) e₁ (ap is_pending_status (set_note-keeps p m).1 ∙ h) in
      (n, e₂ ∙ ap some (set_note-set_note p m n))

  All-ne-insert :
      (k j : LxPaymentId) (p : Payment Invoice Tx) (m : List (LxPaymentId × Payment Invoice Tx))
      → k ≢ j
      → All (λ (e : LxPaymentId × Payment Invoice Tx). e.0 ≢ j) m
      → All (λ (e : LxPaymentId × Payment Invoice Tx). e.0 ≢ j) (insert LxPaymentId-discrete k p m)
  unfolding insert
  All-ne-insert k j p [] ne a = (ne, tt)
  All-ne-insert k j p ((i, q) ∷ m) ne a = ground (arith, All-ne-insert k j p m ne a.1)

  pub Entries-insert :
      (p : Payment Invoice Tx) (m : List (LxPaymentId × Payment Invoice Tx))
      → IsSound p
      → payment_status p ≡ PaymentStatus.pending
      → Entries m
      → Entries (insert LxPaymentId-discrete (payment_id p) p m)
  unfolding insert
  Entries-insert p [] s h en = (refl, s, h, tt, tt)
  Entries-insert p ((i, q) ∷ m) s h en =
      elim (LxPaymentId-discrete i (payment_id p))
        as (λ (c : Dec (i ≡ payment_id p)). Entries (
          ite c ((payment_id p, p) ∷ m)
            ((i, q) ∷ insert LxPaymentId-discrete (payment_id p) p m))) [
              | yes e ↦ (
                refl,
                s,
                h,
                subst
                    (λ (k : LxPaymentId). All (λ (x : LxPaymentId × Payment Invoice Tx). x.0 ≢ k) m)
                    e en.3,
                en.4,
              )
              | no ne ↦ (
                en.0,
                en.1,
                en.2,
                All-ne-insert (payment_id p) i p m (λ k. ne (sym k)) en.3,
                Entries-insert p m s h en.4,
              )
            ]

  All-ne-remove :
      (k j : LxPaymentId) (m : List (LxPaymentId × Payment Invoice Tx))
      → All (λ (e : LxPaymentId × Payment Invoice Tx). e.0 ≢ j) m
      → All (λ (e : LxPaymentId × Payment Invoice Tx). e.0 ≢ j) (remove LxPaymentId-discrete k m)
  unfolding remove
  All-ne-remove k j [] a = tt
  All-ne-remove k j ((i, q) ∷ m) a = ground (arith, All-ne-remove k j m a.1)

  pub Entries-remove :
      (k : LxPaymentId) (m : List (LxPaymentId × Payment Invoice Tx))
      → Entries m
      → Entries (remove LxPaymentId-discrete k m)
  unfolding remove
  Entries-remove k [] en = tt
  Entries-remove k ((i, q) ∷ m) en =
      elim (LxPaymentId-discrete i k)
        as (λ (c : Dec (i ≡ k)).
          Entries
            (ite c (remove LxPaymentId-discrete k m) ((i, q) ∷ remove LxPaymentId-discrete k m))) [
              | yes e ↦ Entries-remove k m en.4
              | no ne ↦ (en.0, en.1, en.2, All-ne-remove k i m en.3, Entries-remove k m en.4)
            ]

  pub get-Entries :
      (id : LxPaymentId) (p : Payment Invoice Tx) (m : List (LxPaymentId × Payment Invoice Tx))
      → Entries m
      → get LxPaymentId-discrete id m ≡ some p
      → (payment_id p ≡ id) × IsSound p × (payment_status p ≡ PaymentStatus.pending)
  unfolding get
  get-Entries id p [] en h = cc
  get-Entries id p ((i, q) ∷ m) en h = elim (LxPaymentId-discrete i id) [
    | yes e ↦
        let same : q ≡ p = some_inj (rw (if_pos _ e, get) at h) in
        (rw (← same) (en.0 ∙ e), rw (← same) en.1, rw (← same) en.2)
    | no ne ↦ get-Entries id p m en.4 (rw (if_neg _ ne, get) at h)
  ]
