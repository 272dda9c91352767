-- ===== src/PaymentDb/Tests/Updates.antt =====
-- The theorems on updates, at concrete databases.
use lexe_public.Base.{
  All, ◌+◌, suc, ℕ, ap, arith, some, [], ◌∷◌, ◌≡◌, refl, get_elem?, ℕ_discrete, ite, ok, err,
}
use lexe_public.Base.Maps.{insert}
use lexe_public.Ids.{PaymentIndex}
use lexe_public.PaymentDb.Basic.{is_pending, is_junk, is_pending_not_junk}
use lexe_public.PaymentDb.State.{PaymentIndex-discrete}
use lexe_public.PaymentDb.Lookups.{get_vec_idx_by_payment_index}
use lexe_public.PaymentDb.Invariant.{IsConsistent}
use lexe_public.PaymentDb.Storage.{write_payment}
use lexe_public.PaymentDb.Update.{
  panic, set_at, update_pending_payment, update_pending_payments, update_payment_note,
}
use lexe_public.PaymentDb.Update.Batch.{Holds, KeptOrReplaced, update_pending_payments-IsConsistent}
use lexe_public.PaymentDb.Update.Pending.{update_pending_payment-IsConsistent}
use lexe_public.PaymentDb.Update.Note.{update_payment_note-IsConsistent}
use lexe_public.PaymentDb.Update.Junk.{update_payment_note_panics, update_pending_payment_panics}
use lexe_public.PaymentDb.Tests.{
  list_bitmap, list_laws, texts, disks, an_index, coffee_paid, no_amount, coffee,
  three-IsConsistent, a_db, Payment-discrete, coffee_paid_now, plain_coffee, plain-IsConsistent,
  plain_db, roomy, roomy_db, any_coffee, any_db, any-IsConsistent,
}

update_payment_note-IsConsistent_example :
    ((update_payment_note disks a_db (an_index 30) (some "tea")).1 ≡ ok tt)
    × (get_elem? (update_payment_note disks a_db (an_index 30) (some "tea")).0.state.payments 2
        ≡ some record coffee { note = some "tea" })
    × IsConsistent list_bitmap texts
        (update_payment_note disks a_db (an_index 30) (some "tea")).0.state
unfolding write_payment is_junk
update_payment_note-IsConsistent_example =
    update_payment_note-IsConsistent list_bitmap texts disks a_db 2 coffee (some "tea")
      three-IsConsistent refl refl

update_pending_payment-IsConsistent_example :
    ((update_pending_payment list_bitmap texts disks Payment-discrete a_db coffee_paid_now).1
      ≡ ite (Payment-discrete coffee_paid_now coffee) (ok 0) (ok 1))
    × ((update_pending_payment list_bitmap texts disks Payment-discrete a_db
          coffee_paid_now).0.state.payments
        ≡ coffee_paid ∷ no_amount ∷ coffee_paid_now ∷ [])
    × IsConsistent list_bitmap texts
        (update_pending_payment list_bitmap texts disks Payment-discrete a_db
          coffee_paid_now).0.state
unfolding write_payment set_at is_pending is_pending_not_junk
update_pending_payment-IsConsistent_example =
    update_pending_payment-IsConsistent list_bitmap list_laws texts disks Payment-discrete a_db
      coffee_paid_now coffee 2 three-IsConsistent refl refl refl (λ _. refl)

update_payment_note_panics_example :
    (update_pending_payment list_bitmap texts disks Payment-discrete
      (update_payment_note disks plain_db (an_index 30) (some "tea")).0
      coffee_paid_now).1
    ≡ err panic
unfolding write_payment is_pending is_junk update_payment_note get_vec_idx_by_payment_index
    PaymentIndex-discrete insert ℕ_discrete
update_payment_note_panics_example =
    update_payment_note_panics list_bitmap list_laws texts disks Payment-discrete plain_db 0
      plain_coffee coffee_paid_now (some "tea") plain-IsConsistent refl refl refl refl refl refl
      refl

update_pending_payment_panics_example :
    (update_pending_payment list_bitmap texts roomy Payment-discrete
      (update_pending_payment list_bitmap texts roomy Payment-discrete any_db coffee).0
      coffee_paid_now).1
    ≡ err panic
unfolding write_payment is_pending is_junk
update_pending_payment_panics_example =
    update_pending_payment_panics list_bitmap list_laws texts roomy Payment-discrete any_db 0
      any_coffee coffee coffee_paid_now any-IsConsistent refl refl refl refl refl refl refl refl
      refl refl

indexes_differ : (a k : ℕ) → ¬ (an_index (a + suc k) ≡ an_index a)
indexes_differ a k e =
    let dates : a + suc k ≡ a = ap (λ (i : PaymentIndex). i.created_at) e in omega arith

update_pending_payments-IsConsistent_example :
    ((n : ℕ) × ((update_pending_payments list_bitmap texts roomy Payment-discrete roomy_db
          (no_amount ∷ coffee_paid_now ∷ [])).1
        ≡ ok n))
    × IsConsistent list_bitmap texts
        (update_pending_payments list_bitmap texts roomy Payment-discrete roomy_db
          (no_amount ∷ coffee_paid_now ∷ [])).0.state
    × All
        (Holds
          (update_pending_payments list_bitmap texts roomy Payment-discrete roomy_db
            (no_amount ∷ coffee_paid_now ∷ [])).0.state.payments)
        (no_amount ∷ coffee_paid_now ∷ [])
    × KeptOrReplaced
        (no_amount ∷ coffee_paid_now ∷ [])
        roomy_db.state.payments
        (update_pending_payments list_bitmap texts roomy Payment-discrete roomy_db
          (no_amount ∷ coffee_paid_now ∷ [])).0.state.payments
        0
unfolding write_payment is_pending is_pending_not_junk is_junk
update_pending_payments-IsConsistent_example =
    update_pending_payments-IsConsistent list_bitmap list_laws texts roomy Payment-discrete
      (λ d p. refl) roomy_db (no_amount ∷ coffee_paid_now ∷ []) three-IsConsistent
      ((indexes_differ 20 9, tt), (tt, tt))
      ((1, no_amount, refl, refl, refl, (λ h. h)), ((2, coffee, refl, refl, refl, (λ _. refl)), tt))
      0
