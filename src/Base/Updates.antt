-- ===== src/Base/Updates.antt =====
-- A lookup in a `BTreeMap` after an insertion or a removal, as the update of a function.
use Prim.Native.Nat.Ordering.{lt, eq, gt}
use mathlib.Core.Path.{◌≡◌, refl, ap, ◌∙◌}
use native.Mathlib.Omega.{arith}
use mathlib.Core.Logic.{◌⊎◌, inl, inr}
use mathlib.Core.Option.{Option, none, some}
use mathlib.Core.List.{List}
use lexe_public.Base.BTree.{
  Order, Ordering-cases, get, insert, remove, Ascends, get-insert, get-insert_other, get-remove,
  get-remove_other,
}

module _ {K V : Type 0} (o : Order K) where
  -- A function with one value changed.
  unfoldable pub update : (K → Option V) → K → Option V → K → Option V
  update f k v i = elim (o.cmp i k) [ lt ↦ f i | eq ↦ v | gt ↦ f i ]

  pub get-insert_at :
      (k : K) (v : V) (m : List (K × V)) (i : K)
      → get o i (insert o k v m) ≡ update (λ j. get o j m) k (some v) i
  unfolding update
  get-insert_at k v m i = elim (Ordering-cases (o.cmp i k)) [
    | inl e ↦ rw (e, update) (get-insert_other o i k v m (λ s. cc (o.reflexive k)))
    | inr (inl e) ↦
        rw (e, update)
          (ap (λ j. get o j (insert o k v m)) (o.antisymmetric i k e) ∙ get-insert o k v m)
    | inr (inr e) ↦ rw (e, update) (get-insert_other o i k v m (λ s. cc (o.reflexive k)))
  ]

  pub get-remove_at :
      (k : K) (m : List (K × V))
      → Ascends o m
      → (i : K) → get o i (remove o k m) ≡ update (λ j. get o j m) k none i
  unfolding update
  get-remove_at k m h i = elim (Ordering-cases (o.cmp i k)) [
    | inl e ↦ rw (e, update) (get-remove_other o i k m h (λ s. cc (o.reflexive k)))
    | inr (inl e) ↦
        rw (e, update)
          (ap (λ j. get o j (remove o k m)) (o.antisymmetric i k e) ∙ get-remove o k m h)
    | inr (inr e) ↦ rw (e, update) (get-remove_other o i k m h (λ s. cc (o.reflexive k)))
  ]

  pub update_self : (f : K → Option V) (k : K) (v : Option V) → update f k v k ≡ v
  unfolding update
  update_self f k v = rw (o.reflexive k, update) refl

  pub update_other :
      (f : K → Option V) (k : K) (v : Option V) (i : K) → ¬ (i ≡ k) → update f k v i ≡ f i
  unfolding update
  update_other f k v i h = ground (arith, o.antisymmetric i k)

module _ {K : Type 0} (o : Order K) where
  pub same_or_not : (i k : K) → (i ≡ k) ⊎ (¬ (i ≡ k))
  same_or_not i k = elim (Ordering-cases (o.cmp i k)) [
    | inl e ↦ inr (λ s. cc (o.reflexive k))
    | inr (inl e) ↦ inl (o.antisymmetric i k e)
    | inr (inr e) ↦ inr (λ s. cc (o.reflexive k))
  ]
