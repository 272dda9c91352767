-- ===== src/Payments/Manager/Checks.antt =====
-- The `check_*` methods of `PaymentsData` (lexe-ln/src/payments/manager.rs): what they accept, for a commit.
use mathlib.Core.Path.{subst}
use lexe_public.Base.{
  inl, ℕ, Bool, true, false, Option, none, some, ◌≡◌, refl, Result, ok, ensure, context, ◌>>=◌,
  ◌>>◌, arith,
}
use lexe_public.Ids.{Bytes, TimestampMs, LxPaymentId, lightning, PaymentStatus}
use lexe_public.Payments.Library.{Library, Error}
use lexe_public.Payments.Inbound.{LxPaymentPurpose, invoice, spontaneous, new_inbound_spontaneous}
use lexe_public.Payments.Outbound.{LxOutboundPaymentFailure}
use lexe_public.Payments.Payment.{
  Payment, inbound_spontaneous, payment_id, payment_status, assert_invariants,
}
use lexe_public.Payments.Soundness.{
  IsSound, Advances, check_claimed-Advances, check_failed-Advances, check_claimable-Advances,
  check_sent-Advances, check_broadcasted-Advances,
}
use lexe_public.Payments.Manager.{
  PaymentsData, get_pending, is_finalized, check_payment_claimed, check_payment_failed,
  check_payment_claimable, claim_or_create, check_payment_sent, check_new_payment,
  payment_check_claimed, payment_check_failed, payment_check_sent,
}
use lexe_public.Payments.Manager.Handlers.{check_broadcasted, payment_broadcasted}
use lexe_public.Payments.Manager.Events.{Db}
use lexe_public.Payments.Manager.Storage.{Refines, CanCommit, get-Entries}

-- A check that looks up a payment and accepts has found one.
pub found :
    {A B : Type 0} (b : Bool) (o : Option A) (f : A → Result Error B) (e₁ e₂ : Error) {q : B}
    → (ensure b e₁ >> (context o e₂ >>= f)) ≡ ok q
    → (a : A) × (o ≡ some a) × (f a ≡ ok q)
found true (some a) f e₁ e₂ h = (a, refl, h)
found true none f e₁ e₂ h = cc
found false o f e₁ e₂ h = cc

pub ensure_then :
    {B : Type 0} (b : Bool) (e : Error) (m : Result Error B) {q : B}
    → (ensure b e >> m) ≡ ok q
    → m ≡ ok q
ensure_then true e m h = h
ensure_then false e m h = cc

new_spontaneous-IsSound :
    {Invoice Tx : Type 0} (hash preimage : Bytes) (amount : ℕ) (now : TimestampMs)
    → IsSound {Invoice = Invoice} {Tx = Tx}
        (inbound_spontaneous (new_inbound_spontaneous hash preimage amount now))
unfolding new_inbound_spontaneous assert_invariants
new_spontaneous-IsSound hash preimage amount now = record { stamped = refl; fields = tt }

module _ {Invoice Tx : Type 0} (d : PaymentsData Invoice Tx) (db : Db Invoice Tx)
    (r : Refines d db) where
  pub pending-not-final :
      (id : LxPaymentId) (p : Payment Invoice Tx)
      → get_pending id d ≡ some p
      → is_finalized id d ≡ false
  pending-not-final id p h = ground (arith, r.pend id, r.fin id)

  pub pending-Entries :
      (id : LxPaymentId) (p : Payment Invoice Tx)
      → get_pending id d ≡ some p
      → (payment_id p ≡ id) × IsSound p × (payment_status p ≡ PaymentStatus.pending)
  pending-Entries id p h = get-Entries id p d.pending r.entries h

  -- A payment that a check made from a pending one.
  pub Advances-CanCommit :
      (id : LxPaymentId) (p q : Payment Invoice Tx)
      → get_pending id d ≡ some p
      → Advances p q
      → CanCommit d db q
  Advances-CanCommit id p q h a = record {
    sound = a.sound;
    target = inl (rw (a.same_id, (pending-Entries id p h).0) (pending-not-final id p h));
  }

  new-eq :
      (p q : Payment Invoice Tx)
      → check_new_payment d p ≡ ok q
      → (p ≡ q) × (is_finalized (payment_id p) d ≡ false)
  unfolding check_new_payment
  new-eq p q h = ground arith

  pub new-CanCommit :
      (p q : Payment Invoice Tx) → IsSound p → check_new_payment d p ≡ ok q → CanCommit d db q
  new-CanCommit p q s h =
      let (e, f) = new-eq p q h in subst (CanCommit d db) e (record { sound = s; target = inl f })

  pub claimed-CanCommit :
      (q : Payment Invoice Tx) (hash : Bytes) (amount : ℕ) (purpose : LxPaymentPurpose)
      (now : TimestampMs)
      → check_payment_claimed d hash amount purpose now ≡ ok q
      → CanCommit d db q
  unfolding check_payment_claimed
  claimed-CanCommit q hash amount purpose now h =
      let (p, e, k) =
        found _ (get_pending (lightning hash) d)
          (λ x. payment_check_claimed x hash amount purpose now) _ _ h in
      Advances-CanCommit (lightning hash) p q e
        (check_claimed-Advances p q hash amount purpose now (pending-Entries _ p e).1 k)

  pub failed-CanCommit :
      (q : Payment Invoice Tx) (hash : Bytes) (failure : LxOutboundPaymentFailure)
      (now : TimestampMs)
      → check_payment_failed d hash failure now ≡ ok q
      → CanCommit d db q
  unfolding check_payment_failed
  failed-CanCommit q hash failure now h =
      let (p, e, k) =
        found _ (get_pending (lightning hash) d) (λ x. payment_check_failed x hash failure now) _ _
          h in
      Advances-CanCommit (lightning hash) p q e
        (check_failed-Advances p q hash failure now (pending-Entries _ p e).1 k)

  pub broadcasted-CanCommit :
      (q : Payment Invoice Tx) (id : LxPaymentId) (txid : Bytes)
      → check_broadcasted d id txid ≡ ok q
      → CanCommit d db q
  unfolding check_broadcasted
  broadcasted-CanCommit q id txid h =
      let (p, e, k) = found _ (get_pending id d) (λ x. payment_broadcasted x txid) _ _ h in
      Advances-CanCommit id p q e (check_broadcasted-Advances p q txid (pending-Entries _ p e).1 k)

  module _ (lib : Library Invoice Tx) where
    pub sent-CanCommit :
        (q : Payment Invoice Tx) (hash preimage : Bytes) (fees : Option ℕ) (now : TimestampMs)
        → check_payment_sent lib d hash preimage fees now ≡ ok q
        → CanCommit d db q
    unfolding check_payment_sent
    sent-CanCommit q hash preimage fees now h =
        let (p, e, k) =
          found _ (get_pending (lightning hash) d)
            (λ x. payment_check_sent lib x hash preimage fees now) _ _ h in
        Advances-CanCommit (lightning hash) p q e
          (check_sent-Advances lib p q hash preimage fees now (pending-Entries _ p e).1 k)

    claim_or_create-CanCommit :
        (o : Option (Payment Invoice Tx)) (q : Payment Invoice Tx) (hash : Bytes) (amount : ℕ)
        (purpose : LxPaymentPurpose) (now : TimestampMs)
        → get_pending (lightning hash) d ≡ o
        → claim_or_create lib d o hash amount purpose now ≡ ok q
        → CanCommit d db q
    unfolding claim_or_create
    claim_or_create-CanCommit (some p) q hash amount purpose now e h =
        Advances-CanCommit (lightning hash) p q e
          (check_claimable-Advances lib p q hash amount purpose now (pending-Entries _ p e).1 h)
    claim_or_create-CanCommit none q hash amount (spontaneous preimage) now e h =
        new-CanCommit _ q (new_spontaneous-IsSound hash preimage amount now) h
    claim_or_create-CanCommit none q hash amount (invoice preimage secret) now e h = cc

    pub claimable-CanCommit :
        (q : Payment Invoice Tx) (hash : Bytes) (amount : ℕ) (purpose : LxPaymentPurpose)
        (now : TimestampMs)
        → check_payment_claimable lib d hash amount purpose now ≡ ok q
        → CanCommit d db q
    unfolding check_payment_claimable
    claimable-CanCommit q hash amount purpose now h =
        claim_or_create-CanCommit (get_pending (lightning hash) d) q hash amount purpose now refl
          (ensure_then _ _ _ h)
