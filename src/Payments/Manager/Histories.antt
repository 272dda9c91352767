-- ===== src/Payments/Manager/Histories.antt =====
-- Whole histories of the payments manager (lexe-ln/src/payments/manager.rs).
use lexe_public.Base.{
  ℕ, Bool, true, false, List, [], ◌∷◌, ◌≡◌, refl, inl, inr, Result, ok, err, arith, >>=-eq-ok,
}
use lexe_public.Base.Maps.{contains-add, get, contains}
use lexe_public.Ids.{
  Bytes, TimestampMs, LxPaymentId, LxPaymentId-discrete, lightning, PaymentStatus,
}
use lexe_public.Payments.Library.{Library, Error}
use lexe_public.Payments.Inbound.{
  PaymentPurpose, LxPaymentPurpose, try_from_purpose, iip_check_payment_claimed,
  isp_check_payment_claimed,
}
use lexe_public.Payments.Payment.{
  Payment, payment_id, payment_status, inbound_invoice, inbound_spontaneous,
}
use lexe_public.Payments.Manager.{
  PaymentsData, get_pending, is_finalized, commit, payment_check_claimed, check_payment_claimed,
}
use lexe_public.Payments.Manager.Handlers.{
  Outcome, Call, persist_commit, create_commit, batch_commit, confs_commit, commit_all, new_payment,
  update_payment_note, payment_claimable, payment_claimed, payment_sent, payment_failed,
  expire_invoices, onchain_send_broadcasted, update_onchain_confs,
}
use lexe_public.Payments.Manager.Events.{
  Event, registers, updates_note, claimable, claimed, sent, fails, expires, broadcasts, confirms,
  Db, write_calls, step, run,
}
use lexe_public.Payments.Manager.Storage.{Refines, Follows, FinalKept-refl, FinalKept-trans}
use lexe_public.Payments.Manager.Claims.{
  ClaimOutcome, TurnsAway, claimable_protocol, final_turned_away,
}
use lexe_public.Payments.Manager.Checks.{found}
use lexe_public.Payments.Manager.Refinement.{Admissible, step-Follows}

module _ {Invoice Tx : Type 0} where
  pub empty-Refines :
      Refines {Invoice = Invoice} {Tx = Tx} (record { pending = []; finalized = [] }) []
  unfolding get contains
  empty-Refines = record { entries = tt; pend = λ id. refl; fin = λ id. refl; sound = λ id p h. cc }

  -- A commit never takes an id out of the finalized set.
  commit-finalized :
      (d : PaymentsData Invoice Tx) (p : Payment Invoice Tx) (id : LxPaymentId)
      → is_finalized id d ≡ true
      → is_finalized id (commit d p) ≡ true
  unfolding commit
  commit-finalized d p id h =
      ground (arith, contains-add LxPaymentId-discrete id (payment_id p) d.finalized)

  commit_all-finalized :
      (d : PaymentsData Invoice Tx) (ps : List (Payment Invoice Tx)) (id : LxPaymentId)
      → is_finalized id d ≡ true
      → is_finalized id (commit_all d ps) ≡ true
  unfolding commit_all
  commit_all-finalized d [] id h = h
  commit_all-finalized d (p ∷ ps) id h =
      commit_all-finalized (commit d p) ps id (commit-finalized d p id h)

  claimed-completes :
      (p q : Payment Invoice Tx) (hash : Bytes) (amount : ℕ) (purpose : LxPaymentPurpose)
      (now : TimestampMs)
      → payment_check_claimed p hash amount purpose now ≡ ok q
      → (payment_status q ≡ PaymentStatus.completed) × (payment_id q ≡ lightning hash)
  unfolding payment_check_claimed iip_check_payment_claimed isp_check_payment_claimed payment_status
      payment_id
  claimed-completes (inbound_invoice p) q hash amount (LxPaymentPurpose.invoice pre secret) now h =
      ground arith
  claimed-completes (inbound_spontaneous p) q hash amount (LxPaymentPurpose.spontaneous pre) now h =
      ground arith
  claimed-completes _ q hash amount _ now h = cc

module _ {Invoice Tx : Type 0} where
  persist_commit-finalized :
      (d : PaymentsData Invoice Tx) (m : Result Error (Payment Invoice Tx)) (b : Bool)
      (id : LxPaymentId)
      → is_finalized id d ≡ true
      → is_finalized id (persist_commit d m b).after ≡ true
  unfolding persist_commit
  persist_commit-finalized d (err e) b id h = h
  persist_commit-finalized d (ok p) true id h = commit-finalized d p id h
  persist_commit-finalized d (ok p) false id h = h

  create_commit-finalized :
      (d : PaymentsData Invoice Tx) (m : Result Error (Payment Invoice Tx)) (b : Bool)
      (id : LxPaymentId)
      → is_finalized id d ≡ true
      → is_finalized id (create_commit d m b).after ≡ true
  unfolding create_commit
  create_commit-finalized d (err e) b id h = h
  create_commit-finalized d (ok p) true id h = commit-finalized d p id h
  create_commit-finalized d (ok p) false id h = h

  batch_commit-finalized :
      (d : PaymentsData Invoice Tx) (cs : List (Call Invoice Tx)) (ps : List (Payment Invoice Tx))
      (b : Bool) (id : LxPaymentId)
      → is_finalized id d ≡ true
      → is_finalized id (batch_commit d cs ps b).after ≡ true
  unfolding batch_commit
  batch_commit-finalized d cs ps true id h = commit_all-finalized d ps id h
  batch_commit-finalized d cs ps false id h = h

  confs_commit-finalized :
      (d : PaymentsData Invoice Tx) (m : Result Error (List (Payment Invoice Tx))) (b : Bool)
      (id : LxPaymentId)
      → is_finalized id d ≡ true
      → is_finalized id (confs_commit d m b).after ≡ true
  unfolding confs_commit
  confs_commit-finalized d (err e) b id h = h
  confs_commit-finalized d (ok ps) b id h = batch_commit-finalized d [] ps b id h

  persist_commit-ok :
      (d : PaymentsData Invoice Tx) (m : Result Error (Payment Invoice Tx)) (b : Bool)
      → (persist_commit d m b).result ≡ ok tt
      → (q : Payment Invoice Tx) × (m ≡ ok q) × ((persist_commit d m b).after ≡ commit d q)
  unfolding persist_commit
  persist_commit-ok d (err e) b h = cc
  persist_commit-ok d (ok q) true h = (q, refl, refl)
  persist_commit-ok d (ok q) false h = cc

  commit-completed :
      (d : PaymentsData Invoice Tx) (q : Payment Invoice Tx)
      → payment_status q ≡ PaymentStatus.completed
      → is_finalized (payment_id q) (commit d q) ≡ true
  unfolding commit
  commit-completed d q h =
      ground (arith, contains-add LxPaymentId-discrete (payment_id q) (payment_id q) d.finalized)

  pub claimed-finalizes :
      (d : PaymentsData Invoice Tx) (hash : Bytes) (amt : ℕ) (purpose : PaymentPurpose)
      (now : TimestampMs) (b : Bool)
      → (payment_claimed d hash amt purpose now b).result ≡ ok tt
      → is_finalized (lightning hash) (payment_claimed d hash amt purpose now b).after ≡ true
  unfolding payment_claimed check_payment_claimed
  claimed-finalizes d hash amt purpose now b h =
      let (q, e, after) = persist_commit-ok d _ b h in
      let (p, _, k) = >>=-eq-ok (try_from_purpose purpose) _ e in
      let (x, _, c) =
        found _ (get_pending (lightning hash) d) (λ y. payment_check_claimed y hash amt p now) _ _
          k in
      let (done, same) = claimed-completes x q hash amt p now c in
      rw (after, ← same) (commit-completed d q done)

module _ {Invoice Tx : Type 0} (lib : Library Invoice Tx) where
  claimable-finalized :
      (d : PaymentsData Invoice Tx) (hash : Bytes) (purpose : Result Error LxPaymentPurpose)
      (check : LxPaymentPurpose → Result Error (Payment Invoice Tx)) (b : Bool)
      (o : Outcome Invoice Tx) (id : LxPaymentId)
      → ClaimOutcome d hash purpose check b o
      → is_finalized id d ≡ true
      → is_finalized id o.after ≡ true
  claimable-finalized d hash purpose check b o id (inl s) h =
      rw s.committed (commit-finalized d s.payment id h)
  claimable-finalized d hash purpose check b o id (inr t) h = rw t.0.unchanged h

  step-finalized :
      (d : PaymentsData Invoice Tx) (e : Event Invoice Tx) (id : LxPaymentId)
      → is_finalized id d ≡ true
      → is_finalized id (step lib d e).after ≡ true
  unfolding step new_payment update_payment_note payment_claimed payment_sent payment_failed
      expire_invoices onchain_send_broadcasted update_onchain_confs
  step-finalized d (registers p b) id h = create_commit-finalized d _ b id h
  step-finalized d (updates_note update answer b) id h = persist_commit-finalized d _ b id h
  step-finalized d (claimable hash amt purpose now b) id h =
      claimable-finalized d hash _ _ b _ id (claimable_protocol lib d hash amt purpose now b) h
  step-finalized d (claimed hash amt purpose now b) id h = persist_commit-finalized d _ b id h
  step-finalized d (sent hash preimage fees now b) id h = persist_commit-finalized d _ b id h
  step-finalized d (fails hash failure now b) id h = persist_commit-finalized d _ b id h
  step-finalized d (expires unix_duration now b) id h = batch_commit-finalized d _ _ b id h
  step-finalized d (broadcasts i txid b) id h = persist_commit-finalized d _ b id h
  step-finalized d (confirms ids confs now b) id h = confs_commit-finalized d _ b id h

  run-finalized :
      (d : PaymentsData Invoice Tx) (db : Db Invoice Tx) (es : List (Event Invoice Tx))
      (id : LxPaymentId)
      → is_finalized id d ≡ true
      → is_finalized id (run lib d db es).0 ≡ true
  unfolding run
  run-finalized d db [] id h = h
  run-finalized d db (e ∷ es) id h =
      run-finalized (step lib d e).after (write_calls db (step lib d e).calls) es id
        (step-finalized d e id h)

  -- Once `payment_claimed` has succeeded for a hash, then after any further history every
  -- `payment_claimable` for that hash is turned away: it releases no preimage, fails the HTLC
  -- back once, writes nothing, changes nothing and returns an error.
  pub never_claimed_twice :
      (d : PaymentsData Invoice Tx) (db : Db Invoice Tx) (hash : Bytes) (amt : ℕ)
      (purpose : PaymentPurpose) (now : TimestampMs) (es : List (Event Invoice Tx)) (amt' : ℕ)
      (purpose' : PaymentPurpose) (now' : TimestampMs) (b : Bool)
      → (payment_claimed d hash amt purpose now true).result ≡ ok tt
      → let d' = (run lib d db (claimed hash amt purpose now true ∷ es)).0 in
        TurnsAway d' hash (payment_claimable lib d' hash amt' purpose' now' b)
  unfolding run step
  never_claimed_twice d db hash amt purpose now es amt' purpose' now' b h =
      final_turned_away lib _ hash amt' purpose' now' b (
        run-finalized (step lib d (claimed hash amt purpose now true)).after _ es (lightning hash)
          (claimed-finalizes d hash amt purpose now true h))

  -- Each event is admissible where it happens.
  abbrev pub AdmissibleRun :
      PaymentsData Invoice Tx → Db Invoice Tx → List (Event Invoice Tx) → Type 0
  AdmissibleRun d db [] = Unit
  AdmissibleRun d db (e ∷ es) =
      Admissible db e × AdmissibleRun (step lib d e).after (write_calls db (step lib d e).calls) es

  -- From a memory that is a view of the database (`Refines`), any admissible history of the
  -- manager's entry points, whatever the persister, the backend and Esplora answer, leaves a
  -- memory that is a view of the database behind it: the pending map holds the pending rows,
  -- the finalized set the ids of the others, and every row is sound. A row that was final
  -- when the history began is in the end the same but for its note. Admissible means that new
  -- payments are sound, that the backend fetches the row it holds, and that the ids of a
  -- confirmation check are distinct.
  pub run-Follows :
      (d : PaymentsData Invoice Tx) (db : Db Invoice Tx) (es : List (Event Invoice Tx))
      → Refines d db
      → AdmissibleRun d db es
      → Follows db (run lib d db es).0 (run lib d db es).1
  unfolding run
  run-Follows d db [] r a = record { refines = r; kept = FinalKept-refl db }
  run-Follows d db (e ∷ es) r a =
      let f = step-Follows d db r lib e a.0 in
      let g =
        run-Follows (step lib d e).after (write_calls db (step lib d e).calls) es f.refines a.1 in
      record {
        refines = g.refines;
        kept = FinalKept-trans db (write_calls db (step lib d e).calls) _ f.kept g.kept;
      }
