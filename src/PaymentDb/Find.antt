-- ===== src/PaymentDb/Find.antt =====
-- `get_vec_idx_by_payment_index` (app-rs/src/payments.rs).
use mathlib.Core.Path.{subst}
use lexe_public.Base.{
  ℕ, zero, suc, ◌+◌, ◌-◌, ◌≤◌, true, some, List, [], ◌∷◌, ◌≡◌, refl, sym, ◌∙◌, ap, get_elem?, arith,
  some_inj, ite, ◌↔◌, map, All, if_pos, if_neg,
}
use lexe_public.Ids.{PaymentIndex}
use lexe_public.PaymentDb.Basic.{BasicPayment, cmp_index, is_lt, is_strict_total_order}
use lexe_public.PaymentDb.Order.{sorted_first, sorted_rest, cmp_index_same}
use lexe_public.PaymentDb.State.{DbState, PaymentIndex-discrete}
use lexe_public.PaymentDb.Lookups.{position, get_vec_idx_by_payment_index}

module _ {Invoice : Type 0} where
  position_found :
      (index : PaymentIndex) (n v : ℕ) (xs : List (BasicPayment Invoice))
      → position index n xs ≡ some v
      → (x : BasicPayment Invoice) × (n ≤ v) × (get_elem? xs (v - n) ≡ some x) × (x.index ≡ index)
  unfolding position
  position_found index n v [] h = cc
  position_found index n v (y ∷ xs) h =
      elim (PaymentIndex-discrete y.index index)
          as (λ d.
            ite d (some n) (position index (suc n) xs) ≡ some v
            → (x : BasicPayment Invoice) × (n ≤ v)
              × (get_elem? (y ∷ xs) (v - n) ≡ some x)
              × (x.index ≡ index)) [
                | yes here ↦ λ found.
                    let same : n ≡ v = some_inj found in
                    let at_zero : v - n ≡ 0 = omega arith in (y, omega arith, rw at_zero refl, here)
                | no other ↦ λ found.
                    let (x, below, there, key) = position_found index (suc n) v xs found in
                    let next : v - n ≡ suc (v - suc n) = omega arith in
                    (x, omega arith, rw next there, key)
              ]
        h

  pub get_vec_idx-some :
      {B : Type 0} (s : DbState Invoice B) (index : PaymentIndex) (v : ℕ)
      → get_vec_idx_by_payment_index s index ≡ some v
      → (x : BasicPayment Invoice) × (get_elem? s.payments v ≡ some x) × (x.index ≡ index)
  unfolding get_vec_idx_by_payment_index
  get_vec_idx-some s index v h =
      let (x, _, there, key) = position_found index 0 v s.payments h in
      let same : v - 0 ≡ v = omega arith in (x, rw same at there, key)

  All-map_get :
      (P : PaymentIndex → Type 0) (xs : List (BasicPayment Invoice)) (i : ℕ)
      (x : BasicPayment Invoice)
      → All P (map (λ (p : BasicPayment Invoice). p.index) xs)
      → get_elem? xs i ≡ some x
      → P x.index
  All-map_get P [] i x h e = cc
  All-map_get P (y ∷ xs) zero x h e =
      subst (λ (p : BasicPayment Invoice). P p.index) (some_inj e) h.0
  All-map_get P (y ∷ xs) (suc i) x h e = All-map_get P xs i x h.1 e

  position_complete :
      (n i : ℕ) (xs : List (BasicPayment Invoice)) (x : BasicPayment Invoice)
      → is_strict_total_order (map (λ (p : BasicPayment Invoice). p.index) xs) ≡ true
      → get_elem? xs i ≡ some x
      → position x.index n xs ≡ some (n + i)
  unfolding position
  position_complete n i [] x h e = cc
  position_complete n zero (y ∷ xs) x h e =
      if_pos (PaymentIndex-discrete y.index x.index)
        (ap (λ (p : BasicPayment Invoice). p.index) (some_inj e)) (some n)
        (position x.index (suc n) xs)
      ∙ ap some (omega arith)
  position_complete n (suc i) (y ∷ xs) x h e =
      let keys = map (λ (p : BasicPayment Invoice). p.index) xs in
      let less =
        All-map_get (λ k. is_lt (cmp_index y.index k) ≡ true) xs i x (sorted_first y.index keys h)
          e in
      let other : ¬ (y.index ≡ x.index) = λ same.
        let never = cmp_index_same x.index in
        let now = ap (λ k. is_lt (cmp_index k x.index)) (sym same) ∙ less in
        ground (arith, never, now) in
      if_neg (PaymentIndex-discrete y.index x.index) other (some n) (position x.index (suc n) xs)
      ∙ position_complete (suc n) i xs x (sorted_rest y.index keys h) e
      ∙ ap some (omega arith)

  -- In a database whose payments are sorted, `get_vec_idx_by_payment_index` returns a place
  -- just when the payment there has the index.
  pub get_vec_idx_by_payment_index_iff :
      {B : Type 0} (s : DbState Invoice B) (index : PaymentIndex) (v : ℕ)
      → is_strict_total_order (map (λ (p : BasicPayment Invoice). p.index) s.payments) ≡ true
      → (get_vec_idx_by_payment_index s index ≡ some v)
        ↔ ((x : BasicPayment Invoice) × (get_elem? s.payments v ≡ some x) × (x.index ≡ index))
  unfolding get_vec_idx_by_payment_index
  get_vec_idx_by_payment_index_iff s index v h = (
    get_vec_idx-some s index v,
    λ found.
        let (x, there, same) = found in
        ap (λ k. position k 0 s.payments) (sym same)
        ∙ position_complete 0 v s.payments x h there
        ∙ ap some (omega arith),
  )
