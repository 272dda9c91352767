-- ===== src/PaymentDb/Update/Batch.antt =====
-- A batch of `update_pending_payments` (app-rs/src/payments.rs).
use lexe_public.Base.{
  ℕ, zero, suc, ◌+◌, true, some, List, [], ◌∷◌, ◌≡◌, refl, sym, ◌∙◌, ap, get_elem?, All, some_inj,
  ◌⊎◌, inl, inr, ℕ_discrete, Result, ok, err, if_pos, if_neg,
}
use lexe_public.PaymentDb.Basic.{BasicPayment, Descriptions, is_pending, is_pending_not_junk}
use lexe_public.PaymentDb.Bitmap.{Bitmap, BitmapLaws}
use lexe_public.PaymentDb.Invariant.{IsConsistent}
use lexe_public.PaymentDb.Storage.{Ffs, PaymentDb, write_payment}
use lexe_public.PaymentDb.Update.{
  UpdateError, set_at, update_pending_payment, update_pending_payments, add_updated,
}
use lexe_public.PaymentDb.Update.Positions.{get_elem?-set_at}
use lexe_public.PaymentDb.Update.Pending.{update_pending_payment-IsConsistent}

get_elem?-set_at_other :
    {A : Type 0} (i j : ℕ) (a : A) (xs : List A)
    → ¬ (i ≡ j)
    → get_elem? (set_at j a xs) i ≡ get_elem? xs i
unfolding set_at
get_elem?-set_at_other i j a [] h = refl
get_elem?-set_at_other zero zero a (x ∷ xs) h = absurd (h refl)
get_elem?-set_at_other zero (suc j) a (x ∷ xs) h = refl
get_elem?-set_at_other (suc i) zero a (x ∷ xs) h = refl
get_elem?-set_at_other (suc i) (suc j) a (x ∷ xs) h =
    get_elem?-set_at_other i j a xs (λ e. h (ap suc e))

module _ {Invoice : Type 0} where
  -- The list holds the payment.
  abbrev pub Holds : List (BasicPayment Invoice) → BasicPayment Invoice → Type 0
  Holds xs p = (v : ℕ) × (get_elem? xs v ≡ some p)

  -- The payment is an update of a pending payment of the list, and is not newly one that is pending and
  -- not junk.
  abbrev pub Updates :
      Descriptions Invoice → List (BasicPayment Invoice) → BasicPayment Invoice → Type 0
  Updates text xs p =
      (v : ℕ) × (x : BasicPayment Invoice) × (get_elem? xs v ≡ some x)
      × (x.index ≡ p.index)
      × (is_pending x ≡ true)
      × (is_pending_not_junk text p ≡ true → is_pending_not_junk text x ≡ true)

  -- No two payments have one index.
  abbrev pub AreDistinct : List (BasicPayment Invoice) → Type 0
  AreDistinct [] = Unit
  AreDistinct (p ∷ ps) =
      All (λ (q : BasicPayment Invoice). ¬ (q.index ≡ p.index)) ps × AreDistinct ps

  -- What stands at a place after a batch: what stood there, or a payment of the batch with its index.
  abbrev pub KeptOrReplaced :
      List (BasicPayment Invoice)
      → List (BasicPayment Invoice)
      → List (BasicPayment Invoice)
      → ℕ
      → Type 0
  KeptOrReplaced ps before after w =
      (get_elem? after w ≡ get_elem? before w)
      ⊎ ((y q : BasicPayment Invoice) × (get_elem? before w ≡ some y)
          × (get_elem? after w ≡ some q)
          × (y.index ≡ q.index)
          × Holds ps q)

  after_first :
      (v w : ℕ) (p x : BasicPayment Invoice) (ps before after : List (BasicPayment Invoice))
      → get_elem? before v ≡ some x
      → x.index ≡ p.index
      → KeptOrReplaced ps (set_at v p before) after w
      → KeptOrReplaced (p ∷ ps) before after w
  after_first v w p x ps before after here key (inl e) = elim (ℕ_discrete w v) [
    | yes s ↦ inr (x, p, rw s here, e ∙ rw s (get_elem?-set_at v p x before here), key, (0, refl))
    | no n ↦ inl (e ∙ get_elem?-set_at_other w v p before n)
  ]
  after_first v w p x ps before after here key (inr (y, q, there, at, same, (k, in_batch))) =
      elim (ℕ_discrete w v) [
        | yes s ↦
            let is_p : y ≡ p = some_inj (sym there ∙ rw s (get_elem?-set_at v p x before here)) in
            inr (
              x,
              q,
              rw s here,
              at,
              key ∙ ap (λ (z : BasicPayment Invoice). z.index) (sym is_p) ∙ same,
              (suc k, in_batch),
            )
        | no n ↦
            inr (
              y,
              q,
              sym (get_elem?-set_at_other w v p before n) ∙ there,
              at,
              same,
              (suc k, in_batch),
            )
      ]

  kept_at :
      (v w : ℕ) (p x y : BasicPayment Invoice) (xs : List (BasicPayment Invoice))
      → get_elem? xs v ≡ some x
      → x.index ≡ p.index
      → get_elem? xs w ≡ some y
      → ¬ (y.index ≡ p.index)
      → get_elem? (set_at v p xs) w ≡ some y
  kept_at v w p x y xs here key there other =
      let apart : ¬ (w ≡ v) = λ e.
        let same : y ≡ x = some_inj (sym there ∙ ap (get_elem? xs) e ∙ here) in
        other (ap (λ (z : BasicPayment Invoice). z.index) same ∙ key) in
      get_elem?-set_at_other w v p xs apart ∙ there

  Updates-kept :
      (text : Descriptions Invoice) (v : ℕ) (p x : BasicPayment Invoice)
      (xs ps : List (BasicPayment Invoice))
      → get_elem? xs v ≡ some x
      → x.index ≡ p.index
      → All (λ (q : BasicPayment Invoice). ¬ (q.index ≡ p.index)) ps
      → All (Updates text xs) ps
      → All (Updates text (set_at v p xs)) ps
  Updates-kept text v p x xs [] here key apart h = tt
  Updates-kept text v p x xs (q ∷ ps) here key apart h =
      let (w, y, there, same, was, not_junk) = h.0 in
      let kept = kept_at v w p x y xs here key there (λ e. apart.0 (sym same ∙ e)) in
      ((w, y, kept, same, was, not_junk), Updates-kept text v p x xs ps here key apart.1 h.1)

  apart_sym :
      (p : BasicPayment Invoice) (ps : List (BasicPayment Invoice))
      → All (λ (q : BasicPayment Invoice). ¬ (q.index ≡ p.index)) ps
      → All (λ (q : BasicPayment Invoice). ¬ (p.index ≡ q.index)) ps
  apart_sym p [] h = tt
  apart_sym p (q ∷ ps) h = ((λ e. h.0 (sym e)), apart_sym p ps h.1)

module _ {Invoice B D : Type 0} (bm : Bitmap B) (text : Descriptions Invoice) where
  -- What a batch leaves: it ends well, the state is sound, other payments stay, and the updates are held.
  record Updated (db : PaymentDb Invoice B D) (ps : List (BasicPayment Invoice))
      (after : PaymentDb Invoice B D × Result UpdateError ℕ) : Type 0 where
    result : (n : ℕ) × (after.1 ≡ ok n)
    sound : IsConsistent bm text after.0.state
    others :
        (w : ℕ) (y : BasicPayment Invoice)
        → get_elem? db.state.payments w ≡ some y
        → All (λ (q : BasicPayment Invoice). ¬ (y.index ≡ q.index)) ps
        → get_elem? after.0.state.payments w ≡ some y
    held : All (Holds after.0.state.payments) ps
    places : (w : ℕ) → KeptOrReplaced ps db.state.payments after.0.state.payments w

module _ {Invoice B D : Type 0} (bm : Bitmap B) (laws : BitmapLaws bm) (text : Descriptions Invoice)
    (ffs : Ffs Invoice D) (same : Discrete (BasicPayment Invoice)) where
  add_updated_ok :
      (n m : ℕ) (r : PaymentDb Invoice B D × Result UpdateError ℕ)
      → r.1 ≡ ok m
      → add_updated bm text ffs same n r ≡ (r.0, ok (n + m))
  unfolding add_updated
  add_updated_ok n m (db, ok k) h = cc
  add_updated_ok n m (db, err e) h = cc

  module _ (writes : (d : D) (p : BasicPayment Invoice) → (write_payment ffs d p).1 ≡ true) where
    one_update :
        (db : PaymentDb Invoice B D) (p : BasicPayment Invoice) (v : ℕ) (x : BasicPayment Invoice)
        → IsConsistent bm text db.state
        → get_elem? db.state.payments v ≡ some x
        → x.index ≡ p.index
        → is_pending x ≡ true
        → (is_pending_not_junk text p ≡ true → is_pending_not_junk text x ≡ true)
        → (n : ℕ) × ((update_pending_payment bm text ffs same db p).1 ≡ ok n)
          × ((update_pending_payment bm text ffs same db p).0.state.payments
              ≡ set_at v p db.state.payments)
          × IsConsistent bm text (update_pending_payment bm text ffs same db p).0.state
    one_update db p v x c there key was not_junk =
        let (result, payments, sound) =
          update_pending_payment-IsConsistent bm laws text ffs same db p x v c there key was
            not_junk in
        let written = writes db.ffs p in
        let replaced = rw written at payments in
        let done = rw written at result in
        elim (same p x) [
          | yes e ↦ (0, done ∙ if_pos (same p x) e (ok 0) (ok 1), replaced, sound)
          | no e ↦ (1, done ∙ if_neg (same p x) e (ok 0) (ok 1), replaced, sound)
        ]

    update_pending_payments-Updated :
        (db : PaymentDb Invoice B D) (ps : List (BasicPayment Invoice))
        → IsConsistent bm text db.state
        → AreDistinct ps
        → All (Updates text db.state.payments) ps
        → Updated bm text db ps (update_pending_payments bm text ffs same db ps)
    unfolding update_pending_payments
    update_pending_payments-Updated db [] c d h = record {
      result = (0, refl);
      sound = c;
      others = λ w y there apart. there;
      held = tt;
      places = λ w. inl refl;
    }
    update_pending_payments-Updated db (p ∷ ps) c d h =
        let (v, x, there, key, was, not_junk) = h.0 in
        let (n, done, payments, sound) = one_update db p v x c there key was not_junk in
        let kept : All
            (Updates text (update_pending_payment bm text ffs same db p).0.state.payments) ps =
          rw (payments) (Updates-kept text v p x db.state.payments ps there key d.0 h.1) in
        let rest =
          update_pending_payments-Updated (update_pending_payment bm text ffs same db p).0 ps sound
            d.1 kept in
        let (m, rest_done) = rest.result in
        let whole : update_pending_payments bm text ffs same db (p ∷ ps) ≡ (
          (update_pending_payments bm text ffs same (update_pending_payment bm text ffs same db p).0
              ps).0,
          ok (n + m),
        ) =
          rw (update_pending_payments, done)
            (add_updated_ok n m
              (update_pending_payments bm text ffs same
                (update_pending_payment bm text ffs same db p).0 ps)
              rest_done) in
        let others : (w : ℕ) (y : BasicPayment Invoice)
            → get_elem? db.state.payments w ≡ some y
            → All (λ (q : BasicPayment Invoice). ¬ (y.index ≡ q.index)) (p ∷ ps)
            → get_elem?
                (update_pending_payments bm text ffs same
                  (update_pending_payment bm text ffs same db p).0 ps).0.state.payments
                w
              ≡ some y =
          λ w y at apart.
            rest.others w y
              (rw (payments) (kept_at v w p x y db.state.payments there key at apart.0)) apart.1 in
        let held =
          rest.others v p (rw (payments) (get_elem?-set_at v p x db.state.payments there))
            (apart_sym p ps d.0) in
        let ended : Updated bm text db (p ∷ ps) (
          (update_pending_payments bm text ffs same (update_pending_payment bm text ffs same db p).0
              ps).0,
          ok (n + m),
        ) =
          record {
            result = (n + m, refl);
            sound = rest.sound;
            others = others;
            held = ((v, held), rest.held);
            places = λ w.
                after_first v w p x ps db.state.payments _ there key
                  (rw payments at (rest.places w));
          } in
        rw (whole) ended

    -- If the state is consistent, every write succeeds, the given payments have distinct
    -- indexes, and each is an update of a pending payment of the database that is not newly
    -- pending and not junk, then `update_pending_payments` returns a number, leaves a
    -- consistent state that holds each given payment, and at any place keeps what was there
    -- or puts a given payment with the same index.
    pub update_pending_payments-IsConsistent :
        (db : PaymentDb Invoice B D) (ps : List (BasicPayment Invoice))
        → IsConsistent bm text db.state
        → AreDistinct ps
        → All (Updates text db.state.payments) ps
        → (w : ℕ)
        → ((n : ℕ) × ((update_pending_payments bm text ffs same db ps).1 ≡ ok n))
          × IsConsistent bm text (update_pending_payments bm text ffs same db ps).0.state
          × All (Holds (update_pending_payments bm text ffs same db ps).0.state.payments) ps
          × KeptOrReplaced ps db.state.payments
              (update_pending_payments bm text ffs same db ps).0.state.payments
              w
    update_pending_payments-IsConsistent db ps c d h w =
        let updated = update_pending_payments-Updated db ps c d h in
        (updated.result, updated.sound, updated.held, updated.places w)
