-- ===== src/Payments/Manager/Interleaving/Checks.antt =====
-- No check of the manager (lexe-ln/src/payments/manager.rs), but that of confirmations, accepts a payment
-- that would finalize a pending on-chain one.
use lexe_public.Base.{
  ℕ, true, Option, none, some, List, [], ◌∷◌, ◌≡◌, sym, ap, ◌∙◌, inl, inr, Result, ok, map_ok, All,
  Option-cases, String,
}
use lexe_public.Ids.{Bytes, TimestampMs, LxPaymentId, PaymentIndex, lightning}
use lexe_public.Payments.Library.{Library, Error}
use lexe_public.Payments.Payment.{Payment, payment_id, set_note}
use lexe_public.Payments.Manager.Refinement.{map_ok-eq-ok, fetched-eq}
use lexe_public.Payments.Outbound.{LxOutboundPaymentFailure}
use lexe_public.Payments.Inbound.{LxPaymentPurpose, invoice, spontaneous}
use lexe_public.Payments.Soundness.{
  Advances, check_claimed-Advances, check_failed-Advances, check_claimable-Advances,
  check_sent-Advances,
}
use lexe_public.Payments.Manager.{
  check_payment_claimed, check_payment_failed, claim_or_create, check_payment_sent,
  payment_check_claimed, payment_check_failed, payment_check_sent, payment_check_expiry, expire_all,
  PaymentsData, get_pending, is_finalized,
}
use lexe_public.Payments.Manager.Handlers.{check_broadcasted, payment_broadcasted, note_target}
use lexe_public.Payments.Manager.Checks.{found, ensure_then, pending-Entries, pending-not-final}
use lexe_public.Payments.Manager.Events.{Db}
use lexe_public.Payments.Manager.Storage.{Refines, set_note-keeps}
use lexe_public.Payments.Manager.Interleaving.{
  IsPending, is_onchain_id, Harmless, new-Harmless, other-Harmless, broadcasted_pending,
  expired_lightning, ensured,
}

module _ {Invoice Tx : Type 0} (id : LxPaymentId) where
  module _ (onchain : is_onchain_id id ≡ true) (d : PaymentsData Invoice Tx) (db : Db Invoice Tx)
      (r : Refines d db) (there : IsPending d id) where
    lightning-Harmless :
        (hash : Bytes) (p q : Payment Invoice Tx)
        → get_pending (lightning hash) d ≡ some p
        → Advances p q
        → Harmless id q
    lightning-Harmless hash p q h a =
        other-Harmless id q hash onchain
          (a.same_id ∙ (pending-Entries d db r (lightning hash) p h).0)

    pub claimed-Harmless :
        (q : Payment Invoice Tx) (hash : Bytes) (amount : ℕ) (purpose : LxPaymentPurpose)
        (now : TimestampMs)
        → check_payment_claimed d hash amount purpose now ≡ ok q
        → Harmless id q
    unfolding check_payment_claimed
    claimed-Harmless q hash amount purpose now h =
        let (p, e, k) =
          found _ (get_pending (lightning hash) d)
            (λ x. payment_check_claimed x hash amount purpose now) _ _ h in
        lightning-Harmless hash p q e
          (check_claimed-Advances p q hash amount purpose now (pending-Entries d db r _ p e).1 k)

    pub failed-Harmless :
        (q : Payment Invoice Tx) (hash : Bytes) (failure : LxOutboundPaymentFailure)
        (now : TimestampMs)
        → check_payment_failed d hash failure now ≡ ok q
        → Harmless id q
    unfolding check_payment_failed
    failed-Harmless q hash failure now h =
        let (p, e, k) =
          found _ (get_pending (lightning hash) d) (λ x. payment_check_failed x hash failure now) _
            _ h in
        lightning-Harmless hash p q e
          (check_failed-Advances p q hash failure now (pending-Entries d db r _ p e).1 k)

    pub broadcasted-Harmless :
        (q : Payment Invoice Tx) (i : LxPaymentId) (txid : Bytes)
        → check_broadcasted d i txid ≡ ok q
        → Harmless id q
    unfolding check_broadcasted
    broadcasted-Harmless q i txid h =
        let (p, e, k) = found _ (get_pending i d) (λ x. payment_broadcasted x txid) _ _ h in
        inr (broadcasted_pending p q txid k)

    pub note-Harmless :
        (o : Option (Payment Invoice Tx)) (index : PaymentIndex)
        (answer : Result Error (Option (Payment Invoice Tx))) (n : Option String)
        (q : Payment Invoice Tx)
        → get_pending index.id d ≡ o
        → map_ok (λ p. set_note p n) (note_target d o index answer) ≡ ok q
        → Harmless id q
    unfolding note_target
    note-Harmless (some x) index answer n q e h =
        let same : set_note x n ≡ q = cc in
        inr (rw (← same, (set_note-keeps x n).1) (pending-Entries d db r index.id x e).2)
    note-Harmless none index answer n q e h =
        let (p, got, same) = map_ok-eq-ok d db r (λ x. set_note x n) _ q h in
        let final = ensured (is_finalized index.id d) _ _ got in
        let (answered, named) = fetched-eq d db r index answer p (ensure_then _ _ _ got) in
        let note_id : payment_id q ≡ index.id =
          ap payment_id (sym same) ∙ (set_note-keeps p n).0 ∙ named in
        inl (λ is_id.
          let its_own : is_finalized id d ≡ true = rw (← (sym note_id ∙ is_id)) final in
          cc (its_own, pending-not-final d db r id there.0 there.1))

    module _ (lib : Library Invoice Tx) where
      pub sent-Harmless :
          (q : Payment Invoice Tx) (hash preimage : Bytes) (fees : Option ℕ) (now : TimestampMs)
          → check_payment_sent lib d hash preimage fees now ≡ ok q
          → Harmless id q
      unfolding check_payment_sent
      sent-Harmless q hash preimage fees now h =
          let (p, e, k) =
            found _ (get_pending (lightning hash) d)
              (λ x. payment_check_sent lib x hash preimage fees now) _ _ h in
          lightning-Harmless hash p q e
            (check_sent-Advances lib p q hash preimage fees now (pending-Entries d db r _ p e).1 k)

      pub claim_or_create-Harmless :
          (o : Option (Payment Invoice Tx)) (q : Payment Invoice Tx) (hash : Bytes) (amount : ℕ)
          (purpose : LxPaymentPurpose) (now : TimestampMs)
          → get_pending (lightning hash) d ≡ o
          → claim_or_create lib d o hash amount purpose now ≡ ok q
          → Harmless id q
      unfolding claim_or_create
      claim_or_create-Harmless (some p) q hash amount purpose now e h =
          lightning-Harmless hash p q e (
            check_claimable-Advances lib p q hash amount purpose now
              (pending-Entries d db r _ p e).1 h)
      claim_or_create-Harmless none q hash amount (spontaneous preimage) now e h =
          new-Harmless id d there _ q h
      claim_or_create-Harmless none q hash amount (invoice preimage secret) now e h = cc

      pub expire_all-Harmless :
          (m : List (LxPaymentId × Payment Invoice Tx)) (unix_duration : ℕ) (now : TimestampMs)
          → All (Harmless id) (expire_all lib m unix_duration now).0
      unfolding expire_all
      expire_all-Harmless [] unix_duration now = tt
      expire_all-Harmless ((j, p) ∷ m) unix_duration now =
          elim (Option-cases (payment_check_expiry lib p unix_duration now)) [
            | inl e ↦ rw (e, expire_all) (expire_all-Harmless m unix_duration now)
            | inr (q, e) ↦
                rw (e, expire_all)
                  (
                    (let (hash, named) = expired_lightning lib p q unix_duration now e in
                        other-Harmless id q hash onchain named),
                    expire_all-Harmless m unix_duration now,
                  )
          ]
