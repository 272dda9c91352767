-- ===== src/PaymentDb/Scroll.antt =====
-- The lookups by scroll index against the list that the app shows, newest first
-- (app-rs/src/payments.rs).
use lexe_public.Base.{
  ℕ, suc, ◌+◌, ◌-◌, ◌≤◌, ◌<◌, Bool, not, none, some, List, [], ◌∷◌, ◌≡◌, refl, sym, ◌∙◌, ap, length,
  get_elem?, dec_le, ok, arith,
}
use lexe_public.PaymentDb.Basic.{
  BasicPayment, Descriptions, is_pending, is_finalized, is_pending_not_junk, is_finalized_not_junk,
}
use lexe_public.PaymentDb.Bitmap.{Bitmap, BitmapLaws, count_le}
use lexe_public.PaymentDb.State.{
  DbState, as_u32, usize_sub, enumerate, filter, rev, skip, positions, num_payments, num_pending,
  num_finalized, num_pending_not_junk, num_finalized_not_junk,
}
use lexe_public.PaymentDb.Lookups.{
  at_index, select_by_scroll_idx, get_payment_by_scroll_idx, get_pending_payment_by_scroll_idx,
  get_finalized_payment_by_scroll_idx, get_pending_not_junk_payment_by_scroll_idx,
  get_finalized_not_junk_payment_by_scroll_idx,
}
use lexe_public.PaymentDb.Indexes.{
  u32_limit, as_u32_small, length-enumerate, length-rev, filter-rev, get_elem?-rev, get_elem?-end,
  get_elem?-some, get_elem?-enumerate, entries, entries-get_elem?, length-positions,
  positions-get_elem?,
}
use lexe_public.PaymentDb.Counts.{
  skipped, get-filter-skip, count_lt, count_le-count_lt, skipped_or_before,
}
use lexe_public.PaymentDb.Invariant.{IsConsistent}

module _ {A : Type 0} where
  -- The entries that a test holds of, with their places in the list, newest first.
  abbrev pub newest_first : (A → Bool) → List A → List (ℕ × A)
  newest_first f xs = rev (entries f 0 xs)

  -- An entry counted from the newest, and from the oldest.
  newest_first-get :
      (f : A → Bool) (xs : List A) (i : ℕ)
      → i < length (entries f 0 xs)
      → (e : ℕ × A) × (get_elem? (entries f 0 xs) (length (entries f 0 xs) - i - 1) ≡ some e)
        × (get_elem? (newest_first f xs) i ≡ some e)
  newest_first-get f xs i h =
      let k : ℕ = length (entries f 0 xs) - i - 1 in
      let (e, found) = get_elem?-some (entries f 0 xs) k (omega arith) in
      (e, found, get_elem?-rev (entries f 0 xs) i k (omega arith) ∙ found)

  newest_first_end :
      (f : A → Bool) (xs : List A) (i : ℕ)
      → length (entries f 0 xs) ≤ i
      → get_elem? (newest_first f xs) i ≡ none
  newest_first_end f xs i h =
      get_elem?-end (newest_first f xs) i (omega (arith, length-rev (entries f 0 xs), h))

  length-filter-le : (f : A → Bool) (xs : List A) → length (filter f xs) ≤ length xs
  unfolding filter
  length-filter-le f [] = omega arith
  length-filter-le f (x ∷ xs) = ground (arith, length-filter-le f xs)

  length-filter-not :
      (f : A → Bool) (xs : List A)
      → length (filter f xs) + length (filter (λ x. not (f x)) xs) ≡ length xs
  unfolding filter
  length-filter-not f [] = refl
  length-filter-not f (x ∷ xs) = ground (arith, length-filter-not f xs)

module _ {Invoice B : Type 0} (bm : Bitmap B) (laws : BitmapLaws bm) where
  select_by_scroll_idx-newest :
      (f : BasicPayment Invoice → Bool) (bits : B) (payments : List (BasicPayment Invoice)) (i : ℕ)
      → length payments ≤ u32_limit
      → bm.iter bits ≡ positions f 0 payments
      → select_by_scroll_idx bm bits (bm.len bits) payments i
        ≡ ok (get_elem? (newest_first f payments) i)
  unfolding select_by_scroll_idx at_index
  select_by_scroll_idx-newest f bits payments i small same =
      let n : bm.len bits ≡ length (entries f 0 payments) =
        laws.len_iter bits ∙ ap length same ∙ length-positions f 0 payments in
      let bound : length (entries f 0 payments) ≤ length payments = omega (
        arith,
        length-filter-le (λ (e : ℕ × BasicPayment Invoice). f e.1) (enumerate 0 payments),
        length-enumerate 0 payments,
      ) in
      rw n (elim (dec_le (length (entries f 0 payments)) i) [
        | yes out ↦ ground (arith, newest_first_end f payments i out)
        | no inside ↦
            let (e, found, newest) = newest_first-get f payments i (omega arith) in
            let k : ℕ = length (entries f 0 payments) - i - 1 in
            let chosen : bm.select bits (as_u32 k) ≡ some e.0 =
              ap (bm.select bits) (as_u32_small k (omega arith))
              ∙ laws.select_iter bits k
              ∙ ap (λ l. get_elem? l k) same
              ∙ positions-get_elem? f 0 payments k e.0 e.1 (omega arith) found in
            let there = entries-get_elem? f payments k e.0 e.1 found in
            ground (arith, chosen, there, newest)
      ])

  -- The items to skip among the finalized ones are the pending ones that were skipped before.
  skipped-pending :
      (s : DbState Invoice B) (i : ℕ)
      → bm.iter s.pending ≡ positions is_pending 0 s.payments
      → length s.payments ≤ u32_limit
      → i < length s.payments
      → num_pending bm s - bm.rank s.pending (as_u32 (num_payments s - i - 1))
        ≡ skipped
            (λ (e : ℕ × BasicPayment Invoice). is_pending e.1)
            i
            (rev (enumerate 0 s.payments))
  unfolding num_pending num_payments
  skipped-pending s i same small h =
      let r : ℕ = length s.payments - i - 1 in
      let ranked : bm.rank s.pending (as_u32 r)
          ≡ count_lt (suc r) (positions is_pending 0 s.payments) =
        ap (bm.rank s.pending) (as_u32_small r (omega arith))
        ∙ laws.rank_iter s.pending r
        ∙ ap (count_le r) same
        ∙ count_le-count_lt r (positions is_pending 0 s.payments) in
      let all =
        skipped_or_before is_pending 0 i (suc r) s.payments (omega arith) (omega arith)
          (omega arith) in
      omega (arith, ranked, all, laws.len_iter s.pending, ap length same)

  num_finalized-length :
      (s : DbState Invoice B)
      → bm.iter s.pending ≡ positions is_pending 0 s.payments
      → length s.payments ≤ u32_limit
      → num_finalized bm s ≡ length (entries is_finalized 0 s.payments)
  unfolding num_finalized num_payments num_pending usize_sub is_finalized
  num_finalized-length s same small =
      let both =
        length-filter-not (λ (e : ℕ × BasicPayment Invoice). is_pending e.1)
          (enumerate 0 s.payments) in
      omega (
        arith,
        both,
        length-enumerate 0 s.payments,
        laws.len_iter s.pending,
        ap length same,
        length-positions is_pending 0 s.payments,
      )

  finalized-newest :
      (s : DbState Invoice B) (i : ℕ)
      → bm.iter s.pending ≡ positions is_pending 0 s.payments
      → length s.payments ≤ u32_limit
      → get_finalized_payment_by_scroll_idx bm s i
        ≡ ok (get_elem? (newest_first is_finalized s.payments) i)
  unfolding get_finalized_payment_by_scroll_idx is_finalized
  finalized-newest s i same small =
      let n = num_finalized-length s same small in
      let fewer : length (entries is_finalized 0 s.payments) ≤ length s.payments = omega (
        arith,
        length-filter-le (λ (e : ℕ × BasicPayment Invoice). is_finalized e.1)
            (enumerate 0 s.payments),
        length-enumerate 0 s.payments,
      ) in
      elim (dec_le (length (entries is_finalized 0 s.payments)) i) [
        | yes out ↦ ground (arith, n, newest_first_end is_finalized s.payments i out)
        | no inside ↦
            let (e, _, newest) = newest_first-get is_finalized s.payments i (omega arith) in
            let kept = filter (λ (e : ℕ × BasicPayment Invoice). is_finalized e.1) in
            let all = rev (enumerate 0 s.payments) in
            let shifted =
              get-filter-skip (λ (e : ℕ × BasicPayment Invoice). is_pending e.1) all i 0 in
            let plain =
              filter-rev (λ (e : ℕ × BasicPayment Invoice). is_finalized e.1)
                (enumerate 0 s.payments) in
            let same_place : i + 0 ≡ i = omega arith in
            let same_skip : num_pending bm s - bm.rank s.pending (as_u32 (num_payments s - i - 1))
                ≡ skipped (λ (e : ℕ × BasicPayment Invoice). is_pending e.1) i all + 0 =
              omega (arith, skipped-pending s i same small (omega arith)) in
            let found : get_elem? (kept (skip i all))
                  (num_pending bm s - bm.rank s.pending (as_u32 (num_payments s - i - 1)))
                ≡ some e =
              ap (get_elem? (kept (skip i all))) same_skip
              ∙ sym shifted
              ∙ ap (get_elem? (kept all)) same_place
              ∙ ap (λ l. get_elem? l i) plain
              ∙ newest in
            rw (found, newest, n) (ground arith)
      ]

  all_newest :
      (s : DbState Invoice B) (i : ℕ)
      → get_payment_by_scroll_idx s i ≡ ok (get_elem? (rev (enumerate 0 s.payments)) i)
  unfolding get_payment_by_scroll_idx num_payments at_index
  all_newest s i =
      let n : length (enumerate 0 s.payments) ≡ length s.payments = length-enumerate 0 s.payments in
      elim (dec_le (length s.payments) i) [
        | yes out ↦ ground (
          arith,
          get_elem?-end (rev (enumerate 0 s.payments)) i
              (omega (arith, n, length-rev (enumerate 0 s.payments), out)),
        )
        | no inside ↦
            let k : ℕ = length s.payments - i - 1 in
            let (p, found) = get_elem?-some s.payments k (omega arith) in
            let there =
              get_elem?-rev (enumerate 0 s.payments) i k (omega arith)
              ∙ get_elem?-enumerate 0 k s.payments p found in
            ground (arith, found, there)
      ]

  -- In a consistent state of the app's payment database, each of the five lookups by a scroll
  -- index finds just the entry at that place of the payments that it is about, newest first,
  -- with its place in the list, or nothing past the end; none of them panics.
  pub scroll_lookups :
      (text : Descriptions Invoice) (s : DbState Invoice B) (i : ℕ)
      → IsConsistent bm text s
      → (get_payment_by_scroll_idx s i ≡ ok (get_elem? (rev (enumerate 0 s.payments)) i))
        × (get_pending_payment_by_scroll_idx bm s i
            ≡ ok (get_elem? (newest_first is_pending s.payments) i))
        × (get_finalized_payment_by_scroll_idx bm s i
            ≡ ok (get_elem? (newest_first is_finalized s.payments) i))
        × (get_pending_not_junk_payment_by_scroll_idx bm s i
            ≡ ok (get_elem? (newest_first (is_pending_not_junk text) s.payments) i))
        × (get_finalized_not_junk_payment_by_scroll_idx bm s i
            ≡ ok (get_elem? (newest_first (is_finalized_not_junk text) s.payments) i))
  unfolding num_pending num_pending_not_junk num_finalized_not_junk
      get_pending_payment_by_scroll_idx get_pending_not_junk_payment_by_scroll_idx
      get_finalized_not_junk_payment_by_scroll_idx
  scroll_lookups text s i c = (
    all_newest s i,
    select_by_scroll_idx-newest is_pending s.pending s.payments i c.fits c.pending,
    finalized-newest s i c.pending c.fits,
    select_by_scroll_idx-newest (is_pending_not_junk text) s.pending_not_junk s.payments i c.fits
        c.pending_not_junk,
    select_by_scroll_idx-newest (is_finalized_not_junk text) s.finalized_not_junk s.payments i
        c.fits c.finalized_not_junk,
  )
