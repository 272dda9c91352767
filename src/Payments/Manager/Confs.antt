-- ===== src/Payments/Manager/Confs.antt =====
-- The batch that `check_onchain_confs` makes (lexe-ln/src/payments/manager.rs), for ids that
-- are distinct.
use mathlib.Core.Path.{subst}
use lexe_public.Base.{
  Option, none, some, List, [], ◌∷◌, ◌≡◌, refl, sym, ◌≢◌, ◌∙◌, ap, ok, context, All, arith,
  >>=-eq-ok,
}
use lexe_public.Ids.{TimestampMs, LxPaymentId}
use lexe_public.Payments.Library.{Error}
use lexe_public.Payments.Onchain.{TxConfStatus}
use lexe_public.Payments.Payment.{Payment, payment_id}
use lexe_public.Payments.Soundness.{Advances, check_conf-Advances}
use lexe_public.Payments.Manager.{
  PaymentsData, get_pending, check_onchain_confs, payment_check_conf,
}
use lexe_public.Payments.Manager.Events.{Db}
use lexe_public.Payments.Manager.Storage.{Refines, CanCommit}
use lexe_public.Payments.Manager.Checks.{Advances-CanCommit, pending-Entries}
use lexe_public.Payments.Manager.Batches.{BatchOk, OtherId}

abbrev pub AllDistinct : List LxPaymentId → Type 0
AllDistinct [] = Unit
AllDistinct (i ∷ is) = All (λ (j : LxPaymentId). j ≢ i) is × AllDistinct is

context-eq-ok : {A : Type 0} (o : Option A) (e : Error) {a : A} → context o e ≡ ok a → o ≡ some a
context-eq-ok none e h = cc
context-eq-ok (some a) e h = cc

module _ {Invoice Tx : Type 0} where
  abbrev cons_some :
      Option (Payment Invoice Tx) → List (Payment Invoice Tx) → List (Payment Invoice Tx)
  cons_some none rest = rest
  cons_some (some q) rest = q ∷ rest

  -- An accepted round of the conf check.
  record ConfRound (d : PaymentsData Invoice Tx) (id : LxPaymentId) (ids : List LxPaymentId)
      (conf : TxConfStatus) (confs : List TxConfStatus) (now : TimestampMs)
      (ps : List (Payment Invoice Tx)) : Type 0 where
    payment : Payment Invoice Tx
    is_there : get_pending id d ≡ some payment
    checked : Option (Payment Invoice Tx)
    accepted : payment_check_conf payment conf now ≡ ok checked
    rest : List (Payment Invoice Tx)
    others : check_onchain_confs d ids confs now ≡ ok rest
    all : ps ≡ cons_some checked rest

  confs-nil :
      (d : PaymentsData Invoice Tx) (confs : List TxConfStatus) (now : TimestampMs)
      (ps : List (Payment Invoice Tx))
      → check_onchain_confs d [] confs now ≡ ok ps
      → [] ≡ ps
  unfolding check_onchain_confs
  confs-nil d [] now ps h = cc
  confs-nil d (c ∷ cs) now ps h = cc

  confs-no_status :
      (d : PaymentsData Invoice Tx) (ids : List LxPaymentId) (now : TimestampMs)
      (ps : List (Payment Invoice Tx))
      → check_onchain_confs d ids [] now ≡ ok ps
      → [] ≡ ps
  unfolding check_onchain_confs
  confs-no_status d [] now ps h = cc
  confs-no_status d (i ∷ is) now ps h = cc

  conf_round :
      (d : PaymentsData Invoice Tx) (id : LxPaymentId) (ids : List LxPaymentId)
      (conf : TxConfStatus) (confs : List TxConfStatus) (now : TimestampMs)
      (ps : List (Payment Invoice Tx))
      → check_onchain_confs d (id ∷ ids) (conf ∷ confs) now ≡ ok ps
      → ConfRound d id ids conf confs now ps
  unfolding check_onchain_confs
  conf_round d id ids conf confs now ps h =
      let (p, e₁, h₁) = >>=-eq-ok (context (get_pending id d) _) _ h in
      let (o, e₂, h₂) = >>=-eq-ok (payment_check_conf p conf now) _ h₁ in
      let (rest, e₃, h₃) = >>=-eq-ok (check_onchain_confs d ids confs now) _ h₂ in
      record {
        payment = p;
        is_there = context-eq-ok (get_pending id d) _ e₁;
        checked = o;
        accepted = e₂;
        rest = rest;
        others = e₃;
        all = ground arith;
      }

module _ {Invoice Tx : Type 0} (d : PaymentsData Invoice Tx) (db : Db Invoice Tx) (r : Refines d db)
    (now : TimestampMs) where
  conf-Advances :
      (id : LxPaymentId) (p q : Payment Invoice Tx) (conf : TxConfStatus)
      → get_pending id d ≡ some p
      → payment_check_conf p conf now ≡ ok (some q)
      → Advances p q × (payment_id p ≡ id)
  conf-Advances id p q conf e h =
      let (same, s, _) = pending-Entries d db r id p e in
      (check_conf-Advances p q conf now s h, same)

  All-cons_some :
      (k : LxPaymentId) (o : Option (Payment Invoice Tx)) (rest : List (Payment Invoice Tx))
      → ((q : Payment Invoice Tx) → o ≡ some q → OtherId k q)
      → All (OtherId k) rest
      → All (OtherId k) (cons_some o rest)
  All-cons_some k none rest f a = a
  All-cons_some k (some q) rest f a = (f q refl, a)

  confs-OtherId :
      (k : LxPaymentId) (ids : List LxPaymentId) (confs : List TxConfStatus)
      (ps : List (Payment Invoice Tx))
      → All (λ (j : LxPaymentId). j ≢ k) ids
      → check_onchain_confs d ids confs now ≡ ok ps
      → All (OtherId k) ps
  confs-OtherId k [] confs ps a h = subst (All (OtherId k)) (confs-nil d confs now ps h) tt
  confs-OtherId k (id ∷ ids) [] ps a h =
      subst (All (OtherId k)) (confs-no_status d (id ∷ ids) now ps h) tt
  confs-OtherId k (id ∷ ids) (conf ∷ confs) ps a h =
      let c = conf_round d id ids conf confs now ps h in
      subst (All (OtherId k)) (sym c.all) (
        All-cons_some k c.checked c.rest
          (λ q e.
            let (adv, same) = conf-Advances id c.payment q conf c.is_there (c.accepted ∙ ap ok e) in
            λ g. a.0 (sym same ∙ sym adv.same_id ∙ g))
          (confs-OtherId k ids confs c.rest a.1 c.others))

  cons_some-BatchOk :
      (id : LxPaymentId) (o : Option (Payment Invoice Tx)) (rest : List (Payment Invoice Tx))
      → ((q : Payment Invoice Tx) → o ≡ some q → CanCommit d db q × (payment_id q ≡ id))
      → All (OtherId id) rest
      → BatchOk d db rest
      → BatchOk d db (cons_some o rest)
  cons_some-BatchOk id none rest f a b = b
  cons_some-BatchOk id (some q) rest f a b = ((f q refl).0, rw (f q refl).1 a, b)

  pub confs-BatchOk :
      (ids : List LxPaymentId) (confs : List TxConfStatus) (ps : List (Payment Invoice Tx))
      → AllDistinct ids
      → check_onchain_confs d ids confs now ≡ ok ps
      → BatchOk d db ps
  confs-BatchOk [] confs ps a h = subst (BatchOk d db) (confs-nil d confs now ps h) tt
  confs-BatchOk (id ∷ ids) [] ps a h =
      subst (BatchOk d db) (confs-no_status d (id ∷ ids) now ps h) tt
  confs-BatchOk (id ∷ ids) (conf ∷ confs) ps a h =
      let c = conf_round d id ids conf confs now ps h in
      subst (BatchOk d db) (sym c.all) (
        cons_some-BatchOk id c.checked c.rest
          (λ q e.
            let (adv, same) = conf-Advances id c.payment q conf c.is_there (c.accepted ∙ ap ok e) in
            (Advances-CanCommit d db r id c.payment q c.is_there adv, adv.same_id ∙ same))
          (confs-OtherId id ids confs c.rest a.0 c.others)
          (confs-BatchOk ids confs c.rest a.1 c.others))
