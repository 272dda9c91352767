-- ===== src/Payments/Transitions.antt =====
-- The checks of single payments, in sequence (lexe-ln/src/payments).
use lexe_public.Base.{ℕ, Option, none, some, List, [], ◌∷◌, ◌≡◌, refl, ◌∙◌, Result, ok, err}
use lexe_public.Ids.{Bytes, TimestampMs}
use lexe_public.Payments.Library.{Library}
use lexe_public.Payments.Inbound.{LxPaymentPurpose}
use lexe_public.Payments.Outbound.{LxOutboundPaymentFailure}
use lexe_public.Payments.Onchain.{TxConfStatus}
use lexe_public.Payments.Payment.{Payment}
use lexe_public.Payments.Manager.{
  payment_check_claimable, payment_check_claimed, payment_check_sent, payment_check_failed,
  payment_check_expiry, payment_check_conf,
}
use lexe_public.Payments.Manager.Handlers.{payment_broadcasted}
use lexe_public.Payments.Soundness.{
  IsSound, Advances, check_claimable-Advances, check_claimed-Advances, check_sent-Advances,
  check_failed-Advances, check_conf-Advances, check_broadcasted-Advances, check_expiry-Advances,
}

-- A check with what it is given.
pub data Check : Type 0 where
  claimable : (hash : Bytes) (amount : ℕ) (purpose : LxPaymentPurpose) (now : TimestampMs) → Check
  claimed : (hash : Bytes) (amount : ℕ) (purpose : LxPaymentPurpose) (now : TimestampMs) → Check
  sent : (hash preimage : Bytes) (fees : Option ℕ) (now : TimestampMs) → Check
  failed : (hash : Bytes) (failure : LxOutboundPaymentFailure) (now : TimestampMs) → Check
  conf : (status : TxConfStatus) (now : TimestampMs) → Check
  broadcasted : (txid : Bytes) → Check
  expiry : (unix_duration : ℕ) (now : TimestampMs) → Check

accepted : {E A : Type 0} → Result E A → Option A
accepted (ok a) = some a
accepted (err e) = none

changed : {E A : Type 0} → Result E (Option A) → Option A
changed (ok a) = a
changed (err e) = none

accepted-ok : {E A : Type 0} (r : Result E A) {a : A} → accepted r ≡ some a → r ≡ ok a
unfolding accepted
accepted-ok (ok a) h = cc
accepted-ok (err e) h = cc

changed-ok : {E A : Type 0} (r : Result E (Option A)) {a : A} → changed r ≡ some a → r ≡ ok (some a)
unfolding changed
changed-ok (ok a) h = cc
changed-ok (err e) h = cc

module _ {Invoice Tx : Type 0} (lib : Library Invoice Tx) where
  -- The payment that a check accepts or changes.
  unfoldable pub run_check : Check → Payment Invoice Tx → Option (Payment Invoice Tx)
  unfolding accepted changed
  run_check (claimable hash amount purpose now) p =
      accepted (payment_check_claimable lib p hash amount purpose now)
  run_check (claimed hash amount purpose now) p =
      accepted (payment_check_claimed p hash amount purpose now)
  run_check (sent hash preimage fees now) p =
      accepted (payment_check_sent lib p hash preimage fees now)
  run_check (failed hash failure now) p = accepted (payment_check_failed p hash failure now)
  run_check (conf status now) p = changed (payment_check_conf p status now)
  run_check (broadcasted txid) p = accepted (payment_broadcasted p txid)
  run_check (expiry unix_duration now) p = payment_check_expiry lib p unix_duration now

  -- A check, and then others, each on what the one before it left; `none` when one turns away.
  unfoldable pub run_checks : Check → List Check → Payment Invoice Tx → Option (Payment Invoice Tx)
  run_checks c [] p = run_check c p
  run_checks c (d ∷ cs) p = elim (run_check c p) [ none ↦ none | some q ↦ run_checks d cs q ]

  check-Advances :
      (c : Check) (p q : Payment Invoice Tx) → IsSound p → run_check c p ≡ some q → Advances p q
  unfolding run_check
  check-Advances (claimable hash amount purpose now) p q s h =
      check_claimable-Advances lib p q hash amount purpose now s (accepted-ok _ h)
  check-Advances (claimed hash amount purpose now) p q s h =
      check_claimed-Advances p q hash amount purpose now s (accepted-ok _ h)
  check-Advances (sent hash preimage fees now) p q s h =
      check_sent-Advances lib p q hash preimage fees now s (accepted-ok _ h)
  check-Advances (failed hash failure now) p q s h =
      check_failed-Advances p q hash failure now s (accepted-ok _ h)
  check-Advances (conf status now) p q s h = check_conf-Advances p q status now s (changed-ok _ h)
  check-Advances (broadcasted txid) p q s h =
      check_broadcasted-Advances p q txid s (accepted-ok _ h)
  check-Advances (expiry unix_duration now) p q s h =
      check_expiry-Advances lib p q unix_duration now s h

  after_some :
      {A B : Type 0} (o : Option A) (f : A → Option B) {b : B}
      → elim o as (λ _. Option B) [ none ↦ none | some a ↦ f a ] ≡ some b
      → (a : A) × (o ≡ some a) × (f a ≡ some b)
  after_some none f h = cc
  after_some (some a) f h = (a, refl, h)

  -- Let a sound payment go through a sequence of checks, at least one, of any of the seven
  -- kinds (claimable, claimed, sent, failed, confirmations, broadcast, expiry), each made on
  -- what the one before it left. If each accepts or changes the payment, the payment was
  -- pending, and the result has its id and its creation time and is sound.
  pub run_checks-Advances :
      (c : Check) (cs : List Check) (p q : Payment Invoice Tx)
      → IsSound p
      → run_checks c cs p ≡ some q
      → Advances p q
  unfolding run_checks
  run_checks-Advances c [] p q s h = check-Advances c p q s h
  run_checks-Advances c (d ∷ cs) p q s h =
      let (r, first, others) = after_some (run_check c p) (run_checks d cs) h in
      let one = check-Advances c p r s first in
      let more = run_checks-Advances d cs r q one.sound others in
      record {
        was_pending = one.was_pending;
        same_id = more.same_id ∙ one.same_id;
        same_created_at = more.same_created_at ∙ one.same_created_at;
        sound = more.sound;
      }
