-- ===== src/ApprovedVersions/Bounds.antt =====
-- What an approval leaves (`approve_and_revoke` of node/src/approved_versions.rs).
use lexe_public.Base.{
  ◌≤◌, Bool, true, ◌||◌, Option, none, some, List, [], ◌∷◌, ◌++◌, ◌≡◌, refl, ◌∙◌, ap, not, length,
  ok, >>=-eq-ok, is_some, arith,
}
use lexe_public.Base.Maps.{get}
use lexe_public.Ids.{Bytes}
use lexe_public.ApprovedVersions.{
  Approved, Approval, roll, roll_over, yank, enter, insert_version, approve_and_revoke, is_nonempty,
}

module _ {V : Type 0} where
  roll-bound : (m : Approved V) → (length (roll m).1 ≤ 3) × ((roll m).0 ++ (roll m).1 ≡ m)
  unfolding roll
  roll-bound [] = (omega arith, refl)
  roll-bound (e ∷ m) = ground (arith, roll-bound m)

  append_assoc : (xs ys zs : Approved V) → (xs ++ ys) ++ zs ≡ xs ++ (ys ++ zs)
  append_assoc [] ys zs = refl
  append_assoc (x ∷ xs) ys zs = ap (λ l. x ∷ l) (append_assoc xs ys zs)

  module _ (dec : Discrete V) (before : V → V → Bool) where
    roll_over-ok :
        (version : V) (b a : Approval V)
        → roll_over dec before version b ≡ ok a
        → (is_some (get dec version a.approved) ≡ true)
          × (a.approved ≡ (roll b.approved).1)
          × (a.revoked ≡ b.revoked ++ (roll b.approved).0)
          × (a.updated ≡ (b.updated || is_nonempty (roll b.approved).0))
    unfolding roll_over
    roll_over-ok version b a h = ground arith

    -- Whatever versions are yanked, when `approve_and_revoke` succeeds, at most three
    -- versions are approved and the current version is one of them.
    pub approve_and_revoke-bound :
        (yanked_versions : List V) (yanked_measurements : List Bytes) (version : V)
        (measurement : Bytes) (m : Approved V) (a : Approval V)
        → approve_and_revoke dec before yanked_versions yanked_measurements version measurement m
          ≡ ok a
        → (length a.approved ≤ 3) × (is_some (get dec version a.approved) ≡ true)
    unfolding approve_and_revoke
    approve_and_revoke-bound versions measurements version measurement m a h =
        let (e, _, h₁) =
          >>=-eq-ok (enter dec before (get dec version m) version measurement m) _ h in
        let (b, _, h₂) = >>=-eq-ok (yank dec before versions measurements e) _ h₁ in
        let (there, kept, _, _) = roll_over-ok version b a h₂ in
        (rw kept (roll-bound b.approved).0, there)

    -- The map that the current version was entered into.
    abbrev pub with_current : Option Bytes → V → Bytes → Approved V → Approved V
    unfolding insert_version
    with_current none version measurement m = insert_version dec before version measurement m
    with_current (some _) version measurement m = m

    enter-ok :
        (o : Option Bytes) (version : V) (measurement : Bytes) (m : Approved V) (e : Approval V)
        → enter dec before o version measurement m ≡ ok e
        → (e.approved ≡ with_current o version measurement m)
          × (e.revoked ≡ [])
          × (e.updated ≡ not (is_some o))
          × ((w : Bytes) → o ≡ some w → w ≡ measurement)
    unfolding enter
    enter-ok none version measurement m e h = ground arith
    enter-ok (some w) version measurement m e h = ground arith

    -- With no yanked version, when `approve_and_revoke` succeeds, the revoked versions
    -- followed by the approved ones are the old list with the current version entered in
    -- its place if it was missing; the list counts as updated exactly if the current
    -- version was missing or some version was revoked; and a current version that was there
    -- has the current measurement.
    pub approve_and_revoke-conserves :
        (version : V) (measurement : Bytes) (m : Approved V) (a : Approval V)
        → approve_and_revoke dec before [] [] version measurement m ≡ ok a
        → (a.revoked ++ a.approved ≡ with_current (get dec version m) version measurement m)
          × (a.updated ≡ (not (is_some (get dec version m)) || is_nonempty a.revoked))
          × ((w : Bytes) → get dec version m ≡ some w → w ≡ measurement)
    unfolding approve_and_revoke yank
    approve_and_revoke-conserves version measurement m a h =
        let (e, entered, h₁) =
          >>=-eq-ok (enter dec before (get dec version m) version measurement m) _ h in
        let (map_is, none_yet, flag, same_measurement) =
          enter-ok (get dec version m) version measurement m e entered in
        let (_, kept, revoked, updated) = roll_over-ok version e a h₁ in
        let all : a.revoked ≡ (roll e.approved).0 = rw (revoked, none_yet) refl in
        (
          rw (all, kept) ((roll-bound e.approved).1 ∙ map_is),
          rw (updated, flag, all) refl,
          same_measurement,
        )
