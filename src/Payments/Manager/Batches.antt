-- ===== src/Payments/Manager/Batches.antt =====
-- The batches of the manager (lexe-ln/src/payments/manager.rs): lists of checked payments
-- that are committed one after the other.
use lexe_public.Base.{
  ℕ, some, List, [], ◌∷◌, ◌≡◌, refl, sym, ◌≢◌, ◌∙◌, All, arith, inl, inr, Option-cases, if_pos,
  if_neg, inr,
}
use lexe_public.Base.Maps.{get, contains-add, get-insert}
use lexe_public.Ids.{TimestampMs, LxPaymentId, LxPaymentId-discrete}
use lexe_public.Payments.Library.{Library}
use lexe_public.Payments.Payment.{Payment, payment_id}
use lexe_public.Payments.Soundness.{IsSound, Advances, check_expiry-Advances}
use lexe_public.Payments.Manager.{
  PaymentsData, commit, expire_all, check_invoice_expiries, payment_check_expiry,
}
use lexe_public.Payments.Manager.Handlers.{commit_all}
use lexe_public.Payments.Manager.Events.{Db, upsert, upsert_all}
use lexe_public.Payments.Manager.Commits.{commit-Follows}
use lexe_public.Payments.Manager.Storage.{
  Refines, CanCommit, Entries, Follows, FinalKept-refl, FinalKept-trans,
}
use lexe_public.Payments.Manager.Checks.{Advances-CanCommit}

module _ {Invoice Tx : Type 0} where
  abbrev pub OtherId : LxPaymentId → Payment Invoice Tx → Type 0
  OtherId id q = payment_id q ≢ id

  abbrev pub BatchOk : PaymentsData Invoice Tx → Db Invoice Tx → List (Payment Invoice Tx) → Type 0
  BatchOk d db [] = Unit
  BatchOk d db (p ∷ ps) = CanCommit d db p × All (OtherId (payment_id p)) ps × BatchOk d db ps

  commit-keeps :
      (d : PaymentsData Invoice Tx) (db : Db Invoice Tx) (p q : Payment Invoice Tx)
      → payment_id q ≢ payment_id p
      → CanCommit d db q
      → CanCommit (commit d p) (upsert db p) q
  unfolding commit upsert
  commit-keeps d db p q ne c = record {
    sound = c.sound;
    target = elim c.target [
      | inl f ↦ inl (
          ground
            (arith, f, contains-add LxPaymentId-discrete (payment_id q) (payment_id p) d.finalized))
      | inr (x, n, row, same) ↦ inr (
        x,
        n,
        get-insert LxPaymentId-discrete (payment_id q) (payment_id p) p db
            ∙ if_neg (LxPaymentId-discrete (payment_id p) (payment_id q)) (λ k. ne (sym k)) _ _
            ∙ row,
        same,
      )
    ];
  }

  BatchOk-commit :
      (d : PaymentsData Invoice Tx) (db : Db Invoice Tx) (p : Payment Invoice Tx)
      (ps : List (Payment Invoice Tx))
      → All (OtherId (payment_id p)) ps
      → BatchOk d db ps
      → BatchOk (commit d p) (upsert db p) ps
  BatchOk-commit d db p [] a b = tt
  BatchOk-commit d db p (q ∷ ps) a b =
      (commit-keeps d db p q a.0 b.0, b.1, BatchOk-commit d db p ps a.1 b.2)

  pub commit_all-Follows :
      (d : PaymentsData Invoice Tx) (db : Db Invoice Tx) (ps : List (Payment Invoice Tx))
      → Refines d db
      → BatchOk d db ps
      → Follows db (commit_all d ps) (upsert_all db ps)
  unfolding commit_all upsert_all
  commit_all-Follows d db [] r b = record { refines = r; kept = FinalKept-refl db }
  commit_all-Follows d db (p ∷ ps) r b =
      let f = commit-Follows d db p r b.0 in
      let g =
        commit_all-Follows (commit d p) (upsert db p) ps f.refines
          (BatchOk-commit d db p ps b.1 b.2) in
      record {
        refines = g.refines;
        kept = FinalKept-trans db (upsert db p) (upsert_all (upsert db p) ps) f.kept g.kept;
      }

  -- The entries of a map with distinct keys are what a lookup finds.
  abbrev pub Found :
      List (LxPaymentId × Payment Invoice Tx) → LxPaymentId × Payment Invoice Tx → Type 0
  Found m e = get LxPaymentId-discrete e.0 m ≡ some e.1

  Found-cons :
      (j : LxPaymentId) (p : Payment Invoice Tx) (m l : List (LxPaymentId × Payment Invoice Tx))
      → All (λ (e : LxPaymentId × Payment Invoice Tx). e.0 ≢ j) l
      → All (Found m) l
      → All (Found ((j, p) ∷ m)) l
  unfolding get
  Found-cons j p m [] a f = tt
  Found-cons j p m (e ∷ l) a f =
      (rw (if_neg (LxPaymentId-discrete j e.0) (λ k. a.0 (sym k))) f.0, Found-cons j p m l a.1 f.1)

  pub Entries-Found : (m : List (LxPaymentId × Payment Invoice Tx)) → Entries m → All (Found m) m
  unfolding get
  Entries-Found [] en = tt
  Entries-Found ((j, p) ∷ m) en =
      (if_pos (LxPaymentId-discrete j j) refl _ _, Found-cons j p m m en.3 (Entries-Found m en.4))

module _ {Invoice Tx : Type 0} (lib : Library Invoice Tx) (d : PaymentsData Invoice Tx)
    (db : Db Invoice Tx) (r : Refines d db) (unix_duration : ℕ) (now : TimestampMs) where
  expire-Advances :
      (p q : Payment Invoice Tx)
      → IsSound p
      → payment_check_expiry lib p unix_duration now ≡ some q
      → Advances p q
  expire-Advances p q s h = check_expiry-Advances lib p q unix_duration now s h

  expire_all-OtherId :
      (k : LxPaymentId) (m : List (LxPaymentId × Payment Invoice Tx))
      → All (λ (e : LxPaymentId × Payment Invoice Tx). e.0 ≢ k) m
      → Entries m
      → All (OtherId k) (expire_all lib m unix_duration now).0
  unfolding expire_all
  expire_all-OtherId k [] a en = tt
  expire_all-OtherId k ((j, p) ∷ m) a en =
      elim (Option-cases (payment_check_expiry lib p unix_duration now)) [
        | inl e ↦ rw (e, expire_all) (expire_all-OtherId k m a.1 en.4)
        | inr (q, e) ↦
            rw (e, expire_all)
              (
                (λ h. a.0 (sym en.0 ∙ sym (expire-Advances p q en.1 e).same_id ∙ h)),
                expire_all-OtherId k m a.1 en.4,
              )
      ]

  expire_all-BatchOk :
      (m : List (LxPaymentId × Payment Invoice Tx))
      → Entries m
      → All (Found d.pending) m
      → BatchOk d db (expire_all lib m unix_duration now).0
  unfolding expire_all
  expire_all-BatchOk [] en f = tt
  expire_all-BatchOk ((j, p) ∷ m) en f =
      elim (Option-cases (payment_check_expiry lib p unix_duration now)) [
        | inl e ↦ rw (e, expire_all) (expire_all-BatchOk m en.4 f.1)
        | inr (q, e) ↦
            let adv = expire-Advances p q en.1 e in
            rw (e, expire_all)
              (
                Advances-CanCommit d db r j p q f.0 adv,
                rw (adv.same_id, en.0) (expire_all-OtherId j m en.3 en.4),
                expire_all-BatchOk m en.4 f.1,
              )
      ]

  pub expiries-BatchOk : BatchOk d db (check_invoice_expiries lib d unix_duration now).0
  unfolding check_invoice_expiries
  expiries-BatchOk = expire_all-BatchOk d.pending r.entries (Entries-Found d.pending r.entries)
