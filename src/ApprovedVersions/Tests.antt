-- ===== src/ApprovedVersions/Tests.antt =====
-- An approval of a fourth version, and the theorems at that input.
use lexe_public.Base.{
  ℕ, ◌≤◌, true, ◌||◌, not, [], ◌∷◌, ◌++◌, ◌≡◌, refl, length, ok, some, is_some, ltb, ℕ_discrete,
}
use lexe_public.Base.Maps.{get}
use lexe_public.Ids.{Bytes}
use lexe_public.ApprovedVersions.{
  Approved, Approval, roll, roll_over, enter, insert_version, yank, approve_and_revoke, is_nonempty,
}
use lexe_public.ApprovedVersions.Bounds.{
  approve_and_revoke-bound, approve_and_revoke-conserves, with_current,
}

abbrev three_versions : Approved ℕ
three_versions = (1, 10 ∷ []) ∷ (2, 20 ∷ []) ∷ (3, 30 ∷ []) ∷ []

abbrev approval : Approval ℕ
approval = record {
  approved = (2, 20 ∷ []) ∷ (3, 30 ∷ []) ∷ (4, 40 ∷ []) ∷ [];
  updated = true;
  revoked = (1, 10 ∷ []) ∷ [];
}

approval-run : approve_and_revoke ℕ_discrete ltb [] [] 4 (40 ∷ []) three_versions ≡ ok approval
unfolding approve_and_revoke enter insert_version yank roll_over roll get ℕ_discrete
approval-run = refl

approve_and_revoke-bound_example :
    (length approval.approved ≤ 3) × (is_some (get ℕ_discrete 4 approval.approved) ≡ true)
approve_and_revoke-bound_example =
    approve_and_revoke-bound ℕ_discrete ltb [] [] 4 (40 ∷ []) three_versions approval approval-run

approve_and_revoke-conserves_example :
    (approval.revoked ++ approval.approved
      ≡ with_current ℕ_discrete ltb (get ℕ_discrete 4 three_versions) 4 (40 ∷ []) three_versions)
    × (approval.updated
        ≡ (not (is_some (get ℕ_discrete 4 three_versions)) || is_nonempty approval.revoked))
    × ((w : Bytes) → get ℕ_discrete 4 three_versions ≡ some w → w ≡ 40 ∷ [])
approve_and_revoke-conserves_example =
    approve_and_revoke-conserves ℕ_discrete ltb 4 (40 ∷ []) three_versions approval approval-run
