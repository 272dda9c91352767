-- ===== src/Payments/Manager/Claims.antt =====
-- The outcomes of `payment_claimable` (lexe-ln/src/payments/manager.rs).
use lexe_public.Base.{
  ℕ, suc, Bool, true, false, List, [], ◌∷◌, ◌≡◌, refl, ◌≢◌, ◌⊎◌, inl, inr, Result, ok, err, arith,
}
use lexe_public.Ids.{Bytes, TimestampMs, lightning}
use lexe_public.Payments.Library.{Library, Error}
use lexe_public.Payments.Inbound.{
  PaymentPurpose, LxPaymentPurpose, try_from_purpose, purpose_preimage,
}
use lexe_public.Payments.Payment.{Payment}
use lexe_public.Payments.Manager.{PaymentsData, is_finalized, commit, check_payment_claimable}
use lexe_public.Payments.Manager.Handlers.{
  Outcome, Call, persist_payment, claim_funds, fail_htlc_backwards, claim_checked, claim_purpose,
  payment_claimable,
}
use lexe_public.Payments.Manager.Events.{Db, write_calls}

module _ {Invoice Tx : Type 0} where
  -- How many claims there are.
  abbrev pub claims : List (Call Invoice Tx) → ℕ
  claims [] = 0
  claims (claim_funds preimage ∷ cs) = suc (claims cs)
  claims (_ ∷ cs) = claims cs

  -- The hashes of the HTLCs that are failed back.
  abbrev pub htlc_failures : List (Call Invoice Tx) → List Bytes
  htlc_failures [] = []
  htlc_failures (fail_htlc_backwards hash code ∷ cs) = hash ∷ htlc_failures cs
  htlc_failures (_ ∷ cs) = htlc_failures cs

  pub record TurnsAway (d : PaymentsData Invoice Tx) (hash : Bytes) (o : Outcome Invoice Tx)
      : Type 0 where
    pub unchanged : o.after ≡ d
    pub unwritten : (db : Db Invoice Tx) → write_calls db o.calls ≡ db
    pub no_claim : claims o.calls ≡ 0
    pub one_failure : htlc_failures o.calls ≡ hash ∷ []
    pub failure : o.result ≢ ok tt

  -- The outcome of a `payment_claimable` of `hash` with a purpose and a check. It settles if both succeed
  -- and the persister stores the checked payment: the funds are then claimed with the purpose's preimage.
  pub record Settles (d : PaymentsData Invoice Tx) (purpose : Result Error LxPaymentPurpose)
      (check : LxPaymentPurpose → Result Error (Payment Invoice Tx)) (persisted : Bool)
      (o : Outcome Invoice Tx) : Type 0 where
    pub given : LxPaymentPurpose
    pub accepted : purpose ≡ ok given
    pub payment : Payment Invoice Tx
    pub checked : check given ≡ ok payment
    pub stored : persisted ≡ true
    pub calls : o.calls ≡ persist_payment payment true ∷ claim_funds (purpose_preimage given) ∷ []
    pub committed : o.after ≡ commit d payment
    pub success : o.result ≡ ok tt

  -- Why a claim is turned away: the purpose or the payment is refused with the error that is returned, or
  -- the checked payment is not stored.
  abbrev pub Refused :
      Result Error LxPaymentPurpose
      → (LxPaymentPurpose → Result Error (Payment Invoice Tx))
      → Bool
      → Outcome Invoice Tx
      → Type 0
  Refused purpose check persisted o =
      ((e : Error) × (purpose ≡ err e) × (o.result ≡ err e))
      ⊎ ((given : LxPaymentPurpose) × (purpose ≡ ok given)
          × ((e : Error) × (check given ≡ err e) × (o.result ≡ err e)))
      ⊎ (persisted ≡ false)

  abbrev pub ClaimOutcome :
      PaymentsData Invoice Tx
      → Bytes
      → Result Error LxPaymentPurpose
      → (LxPaymentPurpose → Result Error (Payment Invoice Tx))
      → Bool
      → Outcome Invoice Tx
      → Type 0
  ClaimOutcome d hash purpose check persisted o =
      Settles d purpose check persisted o ⊎ (TurnsAway d hash o × Refused purpose check persisted o)

  claim_checked-cases :
      (d : PaymentsData Invoice Tx) (hash : Bytes) (given : LxPaymentPurpose)
      (check : LxPaymentPurpose → Result Error (Payment Invoice Tx))
      (m : Result Error (Payment Invoice Tx)) (b : Bool)
      → check given ≡ m
      → ClaimOutcome d hash (ok given) check b (claim_checked d hash (purpose_preimage given) m b)
  unfolding claim_checked write_calls
  claim_checked-cases d hash given check (err e) b h = inr (
    record {
      unchanged = refl;
      unwritten = λ db. refl;
      no_claim = refl;
      one_failure = refl;
      failure = λ k. cc;
    },
    inr (inl (given, refl, (e, h, refl))),
  )
  claim_checked-cases d hash given check (ok q) true h = inl (record {
    given = given;
    accepted = refl;
    payment = q;
    checked = h;
    stored = refl;
    calls = refl;
    committed = refl;
    success = refl;
  })
  claim_checked-cases d hash given check (ok q) false h = inr (
    record {
      unchanged = refl;
      unwritten = λ db. refl;
      no_claim = refl;
      one_failure = refl;
      failure = λ k. cc;
    },
    inr (inr refl),
  )

module _ {Invoice Tx : Type 0} (lib : Library Invoice Tx) where
  claim_purpose-cases :
      (d : PaymentsData Invoice Tx) (hash : Bytes) (amt : ℕ) (m : Result Error LxPaymentPurpose)
      (now : TimestampMs) (b : Bool)
      → ClaimOutcome d hash m
          (λ p. check_payment_claimable lib d hash amt p now)
          b
          (claim_purpose lib d hash amt m now b)
  unfolding claim_purpose write_calls
  claim_purpose-cases d hash amt (err e) now b = inr (
    record {
      unchanged = refl;
      unwritten = λ db. refl;
      no_claim = refl;
      one_failure = refl;
      failure = λ h. cc;
    },
    inl (e, refl, refl),
  )
  claim_purpose-cases d hash amt (ok purpose) now b =
      claim_checked-cases d hash purpose (λ p. check_payment_claimable lib d hash amt p now)
        (check_payment_claimable lib d hash amt purpose now) b refl

  -- A `payment_claimable` does one of two things. It settles: the purpose is converted, the
  -- check of the payment succeeds, the persister stores the payment that the check gave, and
  -- then the funds are claimed with the preimage of the purpose; that payment is committed
  -- and `Ok` returned. Or it turns the payment away: it claims nothing, fails back the HTLC
  -- of this hash and no other, once, writes nothing, leaves the memory as it was and returns
  -- an error; then the purpose or the payment was refused with that error, or the checked
  -- payment was not stored.
  pub claimable_protocol :
      (d : PaymentsData Invoice Tx) (hash : Bytes) (amt : ℕ) (purpose : PaymentPurpose)
      (now : TimestampMs) (b : Bool)
      → ClaimOutcome d hash
          (try_from_purpose purpose)
          (λ p. check_payment_claimable lib d hash amt p now)
          b
          (payment_claimable lib d hash amt purpose now b)
  unfolding payment_claimable
  claimable_protocol d hash amt purpose now b =
      claim_purpose-cases d hash amt (try_from_purpose purpose) now b

  -- A payment that is final is turned away whatever the persister would say.
  pub final_turned_away :
      (d : PaymentsData Invoice Tx) (hash : Bytes) (amt : ℕ) (purpose : PaymentPurpose)
      (now : TimestampMs) (b : Bool)
      → is_finalized (lightning hash) d ≡ true
      → TurnsAway d hash (payment_claimable lib d hash amt purpose now b)
  unfolding payment_claimable claim_purpose claim_checked check_payment_claimable write_calls
      try_from_purpose
  final_turned_away d hash amt purpose now b h = ground arith
