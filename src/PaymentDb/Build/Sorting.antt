-- ===== src/PaymentDb/Build/Sorting.antt =====
-- The sorting and the deduplication of `from_unsorted_vec` (app-rs/src/payments.rs).
use mathlib.Core.List.{reverse, reverse-reverse}
use lexe_public.Base.{
  ℕ, suc, ◌≤◌, Bool, true, false, ◌||◌, List, [], ◌∷◌, ◌++◌, ◌≡◌, refl, sym, ◌∙◌, ap, length, All,
  All-map, Bool-cases, inl, inr, ite, arith,
}
use lexe_public.Ids.{LxPaymentId, PaymentIndex, onchain_send, onchain_recv, lightning}
use lexe_public.Hex.Order.{lex}
use lexe_public.IdText.{prefix}
use lexe_public.PaymentDb.Basic.{BasicPayment, cmp_index, is_lt, is_strict_total_order}
use lexe_public.PaymentDb.State.{PaymentIndex-discrete}
use lexe_public.PaymentDb.Order.{ordered, ordered_bytes, cmp_index-lex, cmp_index_asym}
use lexe_public.PaymentDb.Insert.Batch.{keys}
use lexe_public.PaymentDb.Build.{insert_sorted, sort_unstable, dedup_after, dedup}

lex_cotrans :
    (xs ys zs : List ℕ) → is_lt (lex xs zs) ≡ true → (is_lt (lex xs ys) || is_lt (lex ys zs)) ≡ true
lex_cotrans [] [] zs h = h
lex_cotrans [] (y ∷ ys) zs h = refl
lex_cotrans (x ∷ xs) [] [] h = cc
lex_cotrans (x ∷ xs) [] (z ∷ zs) h = refl
lex_cotrans (x ∷ xs) (y ∷ ys) [] h = cc
lex_cotrans (x ∷ xs) (y ∷ ys) (z ∷ zs) h = ground (arith, lex_cotrans xs ys zs)

lex_equal : (xs ys : List ℕ) → is_lt (lex xs ys) ≡ false → is_lt (lex ys xs) ≡ false → xs ≡ ys
lex_equal [] [] h k = refl
lex_equal [] (y ∷ ys) h k = cc
lex_equal (x ∷ xs) [] h k = cc
lex_equal (x ∷ xs) (y ∷ ys) h k = ground (arith, lex_equal xs ys)

-- The kind and the bytes make the id.
id_of_text : (a b : LxPaymentId) → prefix a ++ ordered_bytes a ≡ prefix b ++ ordered_bytes b → a ≡ b
unfolding prefix
id_of_text (onchain_send a) (onchain_send b) h = cc
id_of_text (onchain_send a) (onchain_recv b) h = ground (arith, h)
id_of_text (onchain_send a) (lightning b) h = ground (arith, h)
id_of_text (onchain_recv a) (onchain_send b) h = ground (arith, h)
id_of_text (onchain_recv a) (onchain_recv b) h =
    let same : reverse a ≡ reverse b = cc in
    ap onchain_recv (sym (reverse-reverse a) ∙ ap reverse same ∙ reverse-reverse b)
id_of_text (onchain_recv a) (lightning b) h = ground (arith, h)
id_of_text (lightning a) (onchain_send b) h = ground (arith, h)
id_of_text (lightning a) (onchain_recv b) h = ground (arith, h)
id_of_text (lightning a) (lightning b) h = cc

cmp_index_equal :
    (a b : PaymentIndex) → is_lt (cmp_index a b) ≡ false → is_lt (cmp_index b a) ≡ false → a ≡ b
cmp_index_equal a b h k =
    let same =
      lex_equal (ordered a) (ordered b) (ap is_lt (sym (cmp_index-lex a b)) ∙ h)
        (ap is_lt (sym (cmp_index-lex b a)) ∙ k) in
    let times : a.created_at ≡ b.created_at = cc in
    let texts : prefix a.id ++ ordered_bytes a.id ≡ prefix b.id ++ ordered_bytes b.id = cc in
    let ids = id_of_text a.id b.id texts in cc

cmp_index_cotrans :
    (a b c : PaymentIndex)
    → is_lt (cmp_index a c) ≡ true
    → (is_lt (cmp_index a b) || is_lt (cmp_index b c)) ≡ true
cmp_index_cotrans a b c h =
    let split =
      lex_cotrans (ordered a) (ordered b) (ordered c) (ap is_lt (sym (cmp_index-lex a c)) ∙ h) in
    rw (cmp_index-lex a b, cmp_index-lex b c) split

once : {P : Type 0} (d : Dec P) (b : Bool) → ite d true b ≡ ite d true (ite d true b)
once (yes p) b = refl
once (no p) b = refl

module _ {Invoice : Type 0} where
  -- No payment of the list comes before this one.
  abbrev IsFirst : BasicPayment Invoice → List (BasicPayment Invoice) → Type 0
  IsFirst x l = All (λ (y : BasicPayment Invoice). is_lt (cmp_index y.index x.index) ≡ false) l

  abbrev IsSorted : List (BasicPayment Invoice) → Type 0
  IsSorted [] = Unit
  IsSorted (x ∷ l) = IsFirst x l × IsSorted l

  All-insert_sorted :
      (P : BasicPayment Invoice → Type 0) (p : BasicPayment Invoice)
      (l : List (BasicPayment Invoice))
      → P p
      → All P l
      → All P (insert_sorted p l)
  unfolding insert_sorted
  All-insert_sorted P p [] h k = (h, tt)
  All-insert_sorted P p (q ∷ l) h k =
      let rest = All-insert_sorted P p l h k.1 in
      elim (Bool-cases (is_lt (cmp_index q.index p.index))) [
        | inl e ↦ rw e (k.0, rest)
        | inr e ↦ rw e (h, k)
      ]

  not_before :
      (x y z : BasicPayment Invoice)
      → is_lt (cmp_index y.index x.index) ≡ false
      → is_lt (cmp_index z.index y.index) ≡ false
      → is_lt (cmp_index z.index x.index) ≡ false
  not_before x y z h k = elim (Bool-cases (is_lt (cmp_index z.index x.index))) [
    | inl less ↦
        let split = cmp_index_cotrans z.index y.index x.index less in ground (arith, split, h, k)
    | inr fine ↦ fine
  ]

  insert_sorted-IsSorted :
      (p : BasicPayment Invoice) (l : List (BasicPayment Invoice))
      → IsSorted l
      → IsSorted (insert_sorted p l)
  unfolding insert_sorted
  insert_sorted-IsSorted p [] h = (tt, tt)
  insert_sorted-IsSorted p (q ∷ l) h = elim (Bool-cases (is_lt (cmp_index q.index p.index))) [
    | inl e ↦ rw e (
      All-insert_sorted (λ y. is_lt (cmp_index y.index q.index) ≡ false) p l
          (cmp_index_asym q.index p.index e) h.0,
      insert_sorted-IsSorted p l h.1,
    )
    | inr e ↦ rw e ((e, All-map l (λ y k. not_before p q y e k) h.0), h)
  ]

  sort_unstable-IsSorted : (ps : List (BasicPayment Invoice)) → IsSorted (sort_unstable ps)
  unfolding sort_unstable
  sort_unstable-IsSorted [] = tt
  sort_unstable-IsSorted (p ∷ ps) =
      insert_sorted-IsSorted p (sort_unstable ps) (sort_unstable-IsSorted ps)

  dedup_after-sorted :
      (x : BasicPayment Invoice) (l : List (BasicPayment Invoice))
      → IsSorted (x ∷ l)
      → is_strict_total_order (keys (x ∷ dedup_after x l)) ≡ true
  unfolding dedup_after is_strict_total_order
  dedup_after-sorted x [] h = refl
  dedup_after-sorted x (y ∷ l) h =
      elim (PaymentIndex-discrete y.index x.index)
        as (λ d.
          is_strict_total_order (keys (x ∷ ite d (dedup_after x l) (y ∷ dedup_after y l))) ≡ true) [
            | yes e ↦ dedup_after-sorted x l (h.0.1, h.1.1)
            | no e ↦ elim (Bool-cases (is_lt (cmp_index x.index y.index))) [
              | inl less ↦ rw less (dedup_after-sorted y l h.1)
              | inr fails ↦ absurd (e (cmp_index_equal y.index x.index h.0.0 fails))
            ]
          ]

  dedup_of_sorted :
      (l : List (BasicPayment Invoice)) → IsSorted l → is_strict_total_order (keys (dedup l)) ≡ true
  unfolding dedup is_strict_total_order
  dedup_of_sorted [] h = refl
  dedup_of_sorted (x ∷ l) h = dedup_after-sorted x l h

  pub dedup-sorted :
      (ps : List (BasicPayment Invoice))
      → is_strict_total_order (keys (dedup (sort_unstable ps))) ≡ true
  dedup-sorted ps = dedup_of_sorted (sort_unstable ps) (sort_unstable-IsSorted ps)

  -- Whether a payment of the list has the index.
  unfoldable pub has_index : PaymentIndex → List (BasicPayment Invoice) → Bool
  has_index i [] = false
  has_index i (x ∷ l) = ite (PaymentIndex-discrete x.index i) true (has_index i l)

  has_index-insert :
      (i : PaymentIndex) (p : BasicPayment Invoice) (l : List (BasicPayment Invoice))
      → has_index i (insert_sorted p l) ≡ has_index i (p ∷ l)
  unfolding has_index insert_sorted
  has_index-insert i p [] = refl
  has_index-insert i p (q ∷ l) = ground (arith, has_index-insert i p l)

  has_index-sort :
      (i : PaymentIndex) (ps : List (BasicPayment Invoice))
      → has_index i (sort_unstable ps) ≡ has_index i ps
  unfolding has_index sort_unstable
  has_index-sort i [] = refl
  has_index-sort i (p ∷ ps) =
      has_index-insert i p (sort_unstable ps)
      ∙ ap (λ b. ite (PaymentIndex-discrete p.index i) true b) (has_index-sort i ps)

  has_index-dedup_after :
      (i : PaymentIndex) (x : BasicPayment Invoice) (l : List (BasicPayment Invoice))
      → has_index i (x ∷ dedup_after x l) ≡ has_index i (x ∷ l)
  unfolding has_index dedup_after
  has_index-dedup_after i x [] = refl
  has_index-dedup_after i x (y ∷ l) =
      let kept = has_index-dedup_after i x l in
      let other = has_index-dedup_after i y l in
      elim (PaymentIndex-discrete y.index x.index)
        as (λ d.
          has_index i (x ∷ ite d (dedup_after x l) (y ∷ dedup_after y l))
          ≡ has_index i (x ∷ y ∷ l)) [
            | yes e ↦ rw e (kept ∙ once (PaymentIndex-discrete x.index i) (has_index i l))
            | no e ↦ ap (λ b. ite (PaymentIndex-discrete x.index i) true b) other
          ]

  has_index-dedup :
      (i : PaymentIndex) (l : List (BasicPayment Invoice)) → has_index i (dedup l) ≡ has_index i l
  unfolding dedup
  has_index-dedup i [] = refl
  has_index-dedup i (x ∷ l) = has_index-dedup_after i x l

  pub has_index-from_unsorted :
      (i : PaymentIndex) (ps : List (BasicPayment Invoice))
      → has_index i (dedup (sort_unstable ps)) ≡ has_index i ps
  has_index-from_unsorted i ps = has_index-dedup i (sort_unstable ps) ∙ has_index-sort i ps

  length-insert_sorted :
      (p : BasicPayment Invoice) (l : List (BasicPayment Invoice))
      → length (insert_sorted p l) ≡ suc (length l)
  unfolding insert_sorted
  length-insert_sorted p [] = refl
  length-insert_sorted p (q ∷ l) = ground (arith, length-insert_sorted p l)

  length-sort : (ps : List (BasicPayment Invoice)) → length (sort_unstable ps) ≡ length ps
  unfolding sort_unstable
  length-sort [] = refl
  length-sort (p ∷ ps) = length-insert_sorted p (sort_unstable ps) ∙ ap suc (length-sort ps)

  length-dedup_after :
      (x : BasicPayment Invoice) (l : List (BasicPayment Invoice))
      → length (dedup_after x l) ≤ length l
  unfolding dedup_after
  length-dedup_after x [] = omega arith
  length-dedup_after x (y ∷ l) = ground (arith, length-dedup_after x l, length-dedup_after y l)

  pub length-from_unsorted :
      (ps : List (BasicPayment Invoice)) → length (dedup (sort_unstable ps)) ≤ length ps
  unfolding dedup
  length-from_unsorted ps = bounded (sort_unstable ps) (length-sort ps)
    where
      bounded :
          (l : List (BasicPayment Invoice)) → length l ≡ length ps → length (dedup l) ≤ length ps
      bounded [] h = omega (arith, h)
      bounded (x ∷ l) h = omega (arith, h, length-dedup_after x l)
