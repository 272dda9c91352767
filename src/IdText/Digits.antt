-- ===== src/IdText/Digits.antt =====
-- Texts of digits, and texts that `str::split` cuts in two.
use lexe_public.Base.{
  ℕ, zero, suc, ◌*◌, ◌≤◌, true, false, List, [], ◌∷◌, ◌++◌, ◌≡◌, refl, sym, ap, ◌∙◌, ◌⊎◌, inl, inr,
  ◌==◌, All, Bool-cases, arith,
}
use lexe_public.Hex.{Chars}
use lexe_public.IdText.{split, cons_part}

abbrev pub pow10 : ℕ → ℕ
pow10 zero = 1
pow10 (suc k) = 10 * pow10 k

-- A list of digits.
abbrev pub AreDigits : Chars → Type 0
AreDigits s = All (λ c. (48 ≤ c) × (c ≤ 57)) s

pub AreDigits-append : (s t : Chars) → AreDigits s → AreDigits t → AreDigits (s ++ t)
AreDigits-append [] t h k = k
AreDigits-append (c ∷ s) t h k = (h.0, AreDigits-append s t h.1 k)

-- No character is the separator.
abbrev pub Lacks : ℕ → Chars → Type 0
Lacks sep s = All (λ c. (c == sep) ≡ false) s

module _ (sep : ℕ) where
  separator : (sep == sep) ≡ true
  separator = ground arith

  split_one : (s : Chars) → Lacks sep s → split sep s ≡ s ∷ []
  unfolding split cons_part
  split_one [] h = refl
  split_one (c ∷ s) h = rw (h.0, split_one s h.1) refl

  pub split_two : (s t : Chars) → Lacks sep s → Lacks sep t → split sep (s ++ sep ∷ t) ≡ s ∷ t ∷ []
  unfolding split cons_part
  split_two [] t h k = rw (separator, split_one t k) refl
  split_two (c ∷ s) t h k = rw (h.0, split_two s t h.1 k) refl

  -- The part before the first separator and the parts after it.
  pub split_shape :
      (s : Chars) → (part : Chars) × (parts : List Chars) × (split sep s ≡ part ∷ parts)
  unfolding split cons_part
  split_shape [] = ([], [], refl)
  split_shape (c ∷ s) =
      let (part, parts, same) = split_shape s in
      elim (Bool-cases (c == sep)) [
        | inl e ↦ ([], part ∷ parts, rw (e, same) refl)
        | inr e ↦ (c ∷ part, parts, rw (e, same) refl)
      ]

  pub split_append : (s t : Chars) → split sep (s ++ sep ∷ t) ≡ split sep s ++ split sep t
  unfolding split cons_part
  split_append [] t = rw separator refl
  split_append (c ∷ s) t =
      let (part, parts, same) = split_shape s in
      elim (Bool-cases (c == sep)) [
        | inl e ↦ rw (e, split_append s t) refl
        | inr e ↦ rw (e, split_append s t, same) refl
      ]

  pub split_single : (s part : Chars) → split sep s ≡ part ∷ [] → Lacks sep s × (s ≡ part)
  unfolding split cons_part
  split_single [] part h = (tt, cc)
  split_single (c ∷ s) part h =
      let (first, parts, same) = split_shape s in
      elim (Bool-cases (c == sep)) [
        | inl e ↦ cc (rw (e, same) at h)
        | inr e ↦
            let whole : ◌≡◌ {A = List Chars} ((c ∷ first) ∷ parts) (part ∷ []) =
              rw (e, same) at h in
            let none_left : parts ≡ [] = cc whole in
            let (lacks, own) =
              split_single s first (same ∙ ap (λ (l : List Chars). first ∷ l) none_left) in
            let is_part : ◌≡◌ {A = Chars} (c ∷ first) part = cc whole in
            ((e, lacks), ap (λ (l : Chars). c ∷ l) own ∙ is_part)
      ]

  pub split_nil : (a b : Chars) → ¬ (split sep [] ≡ a ∷ b ∷ [])
  unfolding split
  split_nil a b h = cc

  -- How a text with one separator is cut.
  pub split_pair :
      (c : ℕ) (s a b : Chars)
      → split sep (c ∷ s) ≡ a ∷ b ∷ []
      → ((c == sep) ≡ true) × (a ≡ []) × (s ≡ b)
        ⊎ (((c == sep) ≡ false)
            × ((first : Chars) × (a ≡ c ∷ first) × (split sep s ≡ first ∷ b ∷ [])))
  unfolding split cons_part
  split_pair c s a b h =
      let (first, parts, same) = split_shape s in
      elim (Bool-cases (c == sep)) [
        | inl e ↦
            let whole : ◌≡◌ {A = List Chars} ([] ∷ first ∷ parts) (a ∷ b ∷ []) =
              rw (e, same) at h in
            let none_left : ◌≡◌ {A = List Chars} (first ∷ parts) (b ∷ []) = cc whole in
            let empty : [] ≡ a = cc whole in
            inl (e, sym empty, (split_single s b (same ∙ none_left)).1)
        | inr e ↦
            let whole : ◌≡◌ {A = List Chars} ((c ∷ first) ∷ parts) (a ∷ b ∷ []) =
              rw (e, same) at h in
            let left : parts ≡ b ∷ [] = cc whole in
            let front : ◌≡◌ {A = Chars} (c ∷ first) a = cc whole in
            inr (e, (first, sym front, same ∙ ap (λ (l : List Chars). first ∷ l) left))
      ]
