-- ===== src/Base/BTree.antt =====
-- `BTreeMap` and the bound `Ord` on its keys: an ascending list of entries, one for each key.
use Prim.Native.Nat.{Ordering}
use Prim.Native.Nat.Ordering.{lt, eq, gt}
use mathlib.Core.Path.{◌≡◌, refl, subst, sym, ◌∙◌}
use mathlib.Core.Logic.{◌⊎◌, inl, inr}
use mathlib.Core.Option.{Option, none, some}
use mathlib.Core.List.{List, [], ◌∷◌}
use native.Mathlib.Omega.{arith}
use lexe_public.Base.Results.{some_inj}
use lexe_public.Base.Lists.{All, All-map}

-- A total order, with the laws that Rust's `Ord` asks for. Its `==` is read as `≡`.
pub record Order (K : Type 0) : Type 0 where
  pub cmp : K → K → Ordering
  pub reflexive : (a : K) → cmp a a ≡ eq
  pub antisymmetric : (a b : K) → cmp a b ≡ eq → a ≡ b
  pub below : (a b : K) → cmp a b ≡ gt → cmp b a ≡ lt
  pub above : (a b : K) → cmp a b ≡ lt → cmp b a ≡ gt
  pub transitive : (a b c : K) → cmp a b ≡ lt → cmp b c ≡ lt → cmp a c ≡ lt

pub Ordering-cases : (x : Ordering) → (x ≡ lt) ⊎ (x ≡ eq) ⊎ (x ≡ gt)
Ordering-cases lt = inl refl
Ordering-cases eq = inr (inl refl)
Ordering-cases gt = inr (inr refl)

pair_path : {A B : Type 0} {a c : A} {b d : B} → a ≡ c → b ≡ d → ◌≡◌ {A = A × B} (a, b) (c, d)
pair_path p q = cc

module _ {K V : Type 0} (o : Order K) where
  unfoldable pub get : K → List (K × V) → Option V
  get k [] = none
  get k ((j, w) ∷ m) = elim (o.cmp k j) [ lt ↦ none | eq ↦ some w | gt ↦ get k m ]

  unfoldable pub insert : K → V → List (K × V) → List (K × V)
  insert k v [] = (k, v) ∷ []
  insert k v ((j, w) ∷ m) = elim (o.cmp k j) [
    | lt ↦ (k, v) ∷ (j, w) ∷ m
    | eq ↦ (k, v) ∷ m
    | gt ↦ (j, w) ∷ insert k v m
  ]

  unfoldable pub remove : K → List (K × V) → List (K × V)
  remove k [] = []
  remove k ((j, w) ∷ m) = elim (o.cmp k j) [ lt ↦ (j, w) ∷ m | eq ↦ m | gt ↦ (j, w) ∷ remove k m ]

  -- The keys ascend.
  abbrev pub Ascends : List (K × V) → Type 0
  Ascends [] = Unit
  Ascends ((j, w) ∷ m) = All (λ (e : K × V). o.cmp j e.0 ≡ lt) m × Ascends m

  pub get-insert : (k : K) (v : V) (m : List (K × V)) → get k (insert k v m) ≡ some v
  unfolding get insert
  get-insert k v [] = rw (o.reflexive k)
  get-insert k v ((j, w) ∷ m) = ground (arith, o.reflexive k, get-insert k v m)

  pub get-insert_other :
      (i k : K) (v : V) (m : List (K × V)) → ¬ (i ≡ k) → get i (insert k v m) ≡ get i m
  unfolding get insert
  get-insert_other i k v [] h = ground (arith, o.antisymmetric i k)
  get-insert_other i k v ((j, w) ∷ m) h = ground (
    arith,
    o.antisymmetric i k,
    o.antisymmetric k j,
    o.transitive i k j,
    get-insert_other i k v m h,
  )

  All-below :
      (i j : K) (m : List (K × V))
      → o.cmp i j ≡ lt
      → All (λ (e : K × V). o.cmp j e.0 ≡ lt) m
      → All (λ (e : K × V). o.cmp i e.0 ≡ lt) m
  All-below i j m h a = All-map m (λ (e : K × V) below. o.transitive i j e.0 h below) a

  pub get_absent :
      (k : K) (m : List (K × V)) → All (λ (e : K × V). o.cmp k e.0 ≡ lt) m → get k m ≡ none
  unfolding get
  get_absent k [] h = refl
  get_absent k ((j, w) ∷ m) h = rw (h.0, get) refl

  pub All-insert :
      (P : K × V → Type 0) (k : K) (v : V) (m : List (K × V))
      → P (k, v)
      → All P m
      → All P (insert k v m)
  unfolding insert
  All-insert P k v [] p h = (p, tt)
  All-insert P k v ((j, w) ∷ m) p h = elim (Ordering-cases (o.cmp k j)) [
    | inl e ↦ rw (e, insert) (p, h)
    | inr (inl e) ↦ rw (e, insert) (p, h.1)
    | inr (inr e) ↦ rw (e, insert) (h.0, All-insert P k v m p h.1)
  ]

  pub All-remove : (P : K × V → Type 0) (k : K) (m : List (K × V)) → All P m → All P (remove k m)
  unfolding remove
  All-remove P k [] h = tt
  All-remove P k ((j, w) ∷ m) h = elim (Ordering-cases (o.cmp k j)) [
    | inl e ↦ rw (e, remove) h
    | inr (inl e) ↦ rw (e, remove) (h.1)
    | inr (inr e) ↦ rw (e, remove) (h.0, All-remove P k m h.1)
  ]

  pub Ascends-insert : (k : K) (v : V) (m : List (K × V)) → Ascends m → Ascends (insert k v m)
  unfolding insert
  Ascends-insert k v [] h = (tt, tt)
  Ascends-insert k v ((j, w) ∷ m) h = elim (Ordering-cases (o.cmp k j)) [
    | inl e ↦ rw (e, insert) ((e, All-below k j m e h.0), h)
    | inr (inl e) ↦
        let same : j ≡ k = sym (o.antisymmetric k j e) in
        let above : All (λ (d : K × V). o.cmp k d.0 ≡ lt) m =
          subst (λ (i : K). All (λ (d : K × V). o.cmp i d.0 ≡ lt) m) same h.0 in
        rw (e, insert) (above, h.1)
    | inr (inr e) ↦
        rw (e, insert)
          (All-insert (λ d. o.cmp j d.0 ≡ lt) k v m (o.below k j e) h.0, Ascends-insert k v m h.1)
  ]

  pub Ascends-remove : (k : K) (m : List (K × V)) → Ascends m → Ascends (remove k m)
  unfolding remove
  Ascends-remove k [] h = tt
  Ascends-remove k ((j, w) ∷ m) h = elim (Ordering-cases (o.cmp k j)) [
    | inl e ↦ rw (e, remove) h
    | inr (inl e) ↦ rw (e, remove) (h.1)
    | inr (inr e) ↦
        rw (e, remove) (All-remove (λ d. o.cmp j d.0 ≡ lt) k m h.0, Ascends-remove k m h.1)
  ]

  pub get-remove : (k : K) (m : List (K × V)) → Ascends m → get k (remove k m) ≡ none
  unfolding get remove
  get-remove k [] h = refl
  get-remove k ((j, w) ∷ m) h = elim (Ordering-cases (o.cmp k j)) [
    | inl e ↦ rw (e, remove, e, get) refl
    | inr (inl e) ↦
        let above : All (λ (d : K × V). o.cmp k d.0 ≡ lt) m =
          subst (λ (i : K). All (λ (d : K × V). o.cmp i d.0 ≡ lt) m) (sym (o.antisymmetric k j e))
            h.0 in
        rw (e, remove) (get_absent k m above)
    | inr (inr e) ↦ ground (arith, get-remove k m h.1)
  ]

  pub get-remove_other :
      (i k : K) (m : List (K × V)) → Ascends m → ¬ (i ≡ k) → get i (remove k m) ≡ get i m
  unfolding get remove
  get-remove_other i k [] h d = refl
  get-remove_other i k ((j, w) ∷ m) h d = elim (Ordering-cases (o.cmp k j)) [
    | inl e ↦ rw (e, remove) refl
    | inr (inl e) ↦ elim (Ordering-cases (o.cmp i j)) [
      | inl f ↦ rw (e, remove, f, get) (get_absent i m (All-below i j m f h.0))
      | inr (inl f) ↦ absurd (d (o.antisymmetric i j f ∙ sym (o.antisymmetric k j e)))
      | inr (inr f) ↦ rw (e, remove, f, get) refl
    ]
    | inr (inr e) ↦ ground (arith, get-remove_other i k m h.1 d)
  ]

  -- A predicate on all entries holds of what a lookup finds.
  pub All-get :
      (P : K × V → Type 0) (k : K) (v : V) (m : List (K × V))
      → All P m
      → get k m ≡ some v
      → P (k, v)
  unfolding get
  All-get P k v [] h e = cc
  All-get P k v ((j, w) ∷ m) h e = elim (Ordering-cases (o.cmp k j)) [
    | inl f ↦ cc (rw (f, get) at e)
    | inr (inl f) ↦
        let value : w ≡ v = some_inj (rw (f, get) at e) in
        subst (λ (d : K × V). P d) (pair_path (sym (o.antisymmetric k j f)) value) h.0
    | inr (inr f) ↦ All-get P k v m h.1 (rw (f, get) at e)
  ]

  weaken :
      (j : K) (w : V) (m rest : List (K × V))
      → All (λ (e : K × V). o.cmp j e.0 ≡ lt) rest
      → All (λ (e : K × V). get e.0 m ≡ some e.1) rest
      → All (λ (e : K × V). get e.0 ((j, w) ∷ m) ≡ some e.1) rest
  unfolding get
  weaken j w m [] h a = tt
  weaken j w m ((i, v) ∷ rest) h a = (rw (o.above j i h.0, get) a.0, weaken j w m rest h.1 a.1)

  -- Every entry is found.
  pub get_entries : (m : List (K × V)) → Ascends m → All (λ (e : K × V). get e.0 m ≡ some e.1) m
  unfolding get
  get_entries [] h = tt
  get_entries ((j, w) ∷ m) h =
      (rw (o.reflexive j, get) refl, weaken j w m m h.0 (get_entries m h.1))
