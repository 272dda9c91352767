-- ===== src/Payments/Manager/Refinement.antt =====
-- The entry points of the manager (lexe-ln/src/payments/manager.rs) against the database.
use mathlib.Core.Path.{subst}
use lexe_public.Base.{
  ℕ, Bool, true, false, Option, none, some, List, [], ◌∷◌, ◌++◌, ◌≡◌, refl, ◌∙◌, ap, Result, ok,
  err, map_ok, String, arith, inl, inr, map, >>=-eq-ok,
}
use lexe_public.Base.Maps.{get}
use lexe_public.Ids.{Bytes, TimestampMs, LxPaymentId, LxPaymentId-discrete, PaymentIndex}
use lexe_public.Payments.Library.{Library, Error}
use lexe_public.Payments.Inbound.{LxPaymentPurpose, try_from_purpose}
use lexe_public.Payments.Payment.{Payment, payment_id, set_note, payment_note, assert_invariants}
use lexe_public.Payments.Soundness.{IsSound}
use lexe_public.Payments.Manager.{PaymentsData, get_pending}
use lexe_public.Payments.Manager.Handlers.{
  Outcome, Call, abandon_payment, UpdatePaymentNote, persist_commit, new_payment,
  update_payment_note, payment_claimable, payment_claimed, payment_sent, payment_failed,
  expire_invoices, onchain_send_broadcasted, update_onchain_confs, note_target, fetched_payment,
  note_fetches, batch_commit, confs_commit, create_commit, claim_checked, claim_purpose,
}
use lexe_public.Payments.Manager.Events.{
  Event, registers, updates_note, claimable, claimed, sent, fails, expires, broadcasts, confirms,
  Db, write_calls, step,
}
use lexe_public.Payments.Manager.Commits.{commit-Follows}
use lexe_public.Payments.Manager.Storage.{
  Refines, Follows, FinalKept-refl, CanCommit, set_note-keeps, set_note-set_note, set_note_self,
}
use lexe_public.Payments.Manager.Checks.{
  ensure_then, pending-not-final, pending-Entries, new-CanCommit, claimed-CanCommit,
  failed-CanCommit, broadcasted-CanCommit, sent-CanCommit, claimable-CanCommit,
}
use lexe_public.Payments.Manager.Batches.{BatchOk, commit_all-Follows, expiries-BatchOk}
use lexe_public.Payments.Manager.Confs.{AllDistinct, confs-BatchOk}

module _ {Invoice Tx : Type 0} where
  -- What the callers grant: a new payment is sound, the backend answers with the row it holds, and
  -- the ids whose confirmations are checked are distinct.
  abbrev pub Admissible : Db Invoice Tx → Event Invoice Tx → Type 0
  Admissible db (registers p persisted) = IsSound p
  Admissible db (updates_note update answer persisted) =
      (p : Payment Invoice Tx)
      → answer ≡ ok (some p)
      → get LxPaymentId-discrete update.index.id db ≡ some p
  Admissible db (confirms ids confs now persisted) = AllDistinct ids
  Admissible db _ = Unit

  abbrev pub After : Db Invoice Tx → Outcome Invoice Tx → Type 0
  After db o = Follows db o.after (write_calls db o.calls)

  pub note-write_calls :
      (d : PaymentsData Invoice Tx) (db : Db Invoice Tx) (o : Option (Payment Invoice Tx))
      (index : PaymentIndex) (cs : List (Call Invoice Tx))
      → write_calls db (note_fetches d o index ++ cs) ≡ write_calls db cs
  unfolding note_fetches write_calls
  note-write_calls d db (some x) index cs = refl
  note-write_calls d db none index cs = ground arith

  set_note-IsSound :
      (p : Payment Invoice Tx) (n : Option String) → IsSound p → IsSound (set_note p n)
  unfolding set_note assert_invariants
  set_note-IsSound p n s = ground arith

module _ {Invoice Tx : Type 0} (d : PaymentsData Invoice Tx) (db : Db Invoice Tx)
    (r : Refines d db) where
  stays : Follows db d db
  stays = record { refines = r; kept = FinalKept-refl db }

  persist_commit-Follows :
      (m : Result Error (Payment Invoice Tx)) (b : Bool)
      → ((q : Payment Invoice Tx) → m ≡ ok q → CanCommit d db q)
      → After db (persist_commit d m b)
  unfolding persist_commit write_calls
  persist_commit-Follows (err e) b c = stays
  persist_commit-Follows (ok q) true c = commit-Follows d db q r (c q refl)
  persist_commit-Follows (ok q) false c = stays

  create_commit-Follows :
      (m : Result Error (Payment Invoice Tx)) (b : Bool)
      → ((q : Payment Invoice Tx) → m ≡ ok q → CanCommit d db q)
      → After db (create_commit d m b)
  unfolding create_commit write_calls
  create_commit-Follows (err e) b c = stays
  create_commit-Follows (ok q) true c = commit-Follows d db q r (c q refl)
  create_commit-Follows (ok q) false c = stays

  claim_checked-Follows :
      (hash preimage : Bytes) (m : Result Error (Payment Invoice Tx)) (b : Bool)
      → ((q : Payment Invoice Tx) → m ≡ ok q → CanCommit d db q)
      → After db (claim_checked d hash preimage m b)
  unfolding claim_checked write_calls
  claim_checked-Follows hash preimage (err e) b c = stays
  claim_checked-Follows hash preimage (ok q) true c = commit-Follows d db q r (c q refl)
  claim_checked-Follows hash preimage (ok q) false c = stays

  batch_commit-Follows :
      (hashes : List Bytes) (ps : List (Payment Invoice Tx)) (b : Bool)
      → BatchOk d db ps
      → After db (batch_commit d (map (λ h. abandon_payment h) hashes) ps b)
  unfolding batch_commit write_calls
  batch_commit-Follows [] ps true k = commit_all-Follows d db ps r k
  batch_commit-Follows [] ps false k = stays
  batch_commit-Follows (h ∷ hashes) ps true k = batch_commit-Follows hashes ps true k
  batch_commit-Follows (h ∷ hashes) ps false k = batch_commit-Follows hashes ps false k

  set_note-CanCommit :
      (p : Payment Invoice Tx) (n : Option String)
      → CanCommit d db p
      → CanCommit d db (set_note p n)
  set_note-CanCommit p n c = record {
    sound = set_note-IsSound p n c.sound;
    target = elim c.target [
      | inl f ↦ inl (rw (set_note-keeps p n).0 f)
      | inr (q, m, row, same) ↦ inr (
        q,
        n,
        rw (set_note-keeps p n).0 row,
        ap (λ x. set_note x n) same ∙ set_note-set_note q m n,
      )
    ];
  }

  row-CanCommit :
      (id : LxPaymentId) (p : Payment Invoice Tx)
      → get LxPaymentId-discrete id db ≡ some p
      → payment_id p ≡ id
      → CanCommit d db p
  row-CanCommit id p e same = record {
    sound = r.sound id p e;
    target = inr (p, payment_note p, rw same e, set_note_self p);
  }

  pub fetched-eq :
      (index : PaymentIndex) (answer : Result Error (Option (Payment Invoice Tx)))
      (p : Payment Invoice Tx)
      → fetched_payment index answer ≡ ok p
      → (answer ≡ ok (some p)) × (payment_id p ≡ index.id)
  unfolding fetched_payment
  fetched-eq index (ok (some x)) p h = ground arith
  fetched-eq index (ok none) p h = cc
  fetched-eq index (err e) p h = cc

  -- The copy whose note is set: the pending one, or the row of a finalized payment.
  note_target-CanCommit :
      (o : Option (Payment Invoice Tx)) (index : PaymentIndex)
      (answer : Result Error (Option (Payment Invoice Tx))) (p : Payment Invoice Tx)
      → get_pending index.id d ≡ o
      → ((x : Payment Invoice Tx)
          → answer ≡ ok (some x)
          → get LxPaymentId-discrete index.id db ≡ some x)
      → note_target d o index answer ≡ ok p
      → CanCommit d db p
  unfolding note_target
  note_target-CanCommit (some x) index answer p e a h =
      let (same_id, s, _) = pending-Entries d db r index.id x e in
      let same : x ≡ p = cc in
      subst (CanCommit d db) same
        (record { sound = s; target = inl (rw same_id (pending-not-final d db r index.id x e)) })
  note_target-CanCommit none index answer p e a h =
      let (got, same_id) = fetched-eq index answer p (ensure_then _ _ _ h) in
      row-CanCommit index.id p (a p got) same_id

  pub map_ok-eq-ok :
      (f : Payment Invoice Tx → Payment Invoice Tx) (m : Result Error (Payment Invoice Tx))
      (q : Payment Invoice Tx)
      → map_ok f m ≡ ok q
      → (p : Payment Invoice Tx) × (m ≡ ok p) × (f p ≡ q)
  map_ok-eq-ok f (ok p) q h = (p, refl, cc)
  map_ok-eq-ok f (err e) q h = cc

  note-Follows :
      (update : UpdatePaymentNote) (answer : Result Error (Option (Payment Invoice Tx))) (b : Bool)
      → Admissible db (updates_note update answer b)
      → After db (update_payment_note d update answer b)
  unfolding update_payment_note
  note-Follows update answer b a =
      let local = get_pending update.index.id d in
      let target = note_target d local update.index answer in
      rw (note-write_calls d db local update.index _) (
        persist_commit-Follows (map_ok (λ p. set_note p update.note) target) b λ q h.
          let (p, e, same) = map_ok-eq-ok (λ p. set_note p update.note) target q h in
          subst (CanCommit d db) same (
            set_note-CanCommit p update.note
              (note_target-CanCommit local update.index answer p refl a e)))

  confs_commit-Follows :
      (m : Result Error (List (Payment Invoice Tx))) (b : Bool)
      → ((ps : List (Payment Invoice Tx)) → m ≡ ok ps → BatchOk d db ps)
      → After db (confs_commit d m b)
  unfolding confs_commit write_calls
  confs_commit-Follows (err e) b k = stays
  confs_commit-Follows (ok ps) true k = commit_all-Follows d db ps r (k ps refl)
  confs_commit-Follows (ok ps) false k = stays

  module _ (lib : Library Invoice Tx) where
    claimable-Follows :
        (hash : Bytes) (amt : ℕ) (m : Result Error LxPaymentPurpose) (now : TimestampMs) (b : Bool)
        → After db (claim_purpose lib d hash amt m now b)
    unfolding claim_purpose write_calls
    claimable-Follows hash amt (err e) now b = stays
    claimable-Follows hash amt (ok purpose) now b =
        claim_checked-Follows hash _ _ b
          λ q h. claimable-CanCommit d db r lib q hash amt purpose now h

    -- Every entry point keeps the refinement.
    pub step-Follows : (e : Event Invoice Tx) → Admissible db e → After db (step lib d e)
    unfolding step new_payment payment_claimable payment_claimed payment_sent payment_failed
        expire_invoices onchain_send_broadcasted update_onchain_confs
    step-Follows (registers p b) a = create_commit-Follows _ b λ q h. new-CanCommit d db r p q a h
    step-Follows (updates_note update answer b) a = note-Follows update answer b a
    step-Follows (claimable hash amt purpose now b) a =
        claimable-Follows hash amt (try_from_purpose purpose) now b
    step-Follows (claimed hash amt purpose now b) a = persist_commit-Follows _ b λ q h.
        let (p, _, k) = >>=-eq-ok (try_from_purpose purpose) _ h in
        claimed-CanCommit d db r q hash amt p now k
    step-Follows (sent hash preimage fees now b) a =
        persist_commit-Follows _ b λ q h. sent-CanCommit d db r lib q hash preimage fees now h
    step-Follows (fails hash failure now b) a =
        persist_commit-Follows _ b λ q h. failed-CanCommit d db r q hash failure now h
    step-Follows (expires unix_duration now b) a =
        batch_commit-Follows _ _ b (expiries-BatchOk lib d db r unix_duration now)
    step-Follows (broadcasts id txid b) a =
        persist_commit-Follows _ b λ q h. broadcasted-CanCommit d db r q id txid h
    step-Follows (confirms ids confs now b) a =
        confs_commit-Follows _ b λ ps h. confs-BatchOk d db r now ids confs ps a h
