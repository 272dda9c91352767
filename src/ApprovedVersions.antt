-- ===== src/ApprovedVersions.antt =====
-- The list of approved node versions (node/src/approved_versions.rs). A `BTreeMap` is a list in the
-- order of its keys; versions and their order are the semver crate's, and parameters. The constants
-- of yanked versions and measurements are arguments.
pub mod Bounds
mod Tests
use lexe_public.Base.{
  ℕ, Bool, true, false, ◌||◌, Option, none, some, List, [], ◌∷◌, ◌++◌, length, Result, ok, err,
  ◌>>=◌, ◌>>◌, ensure, leb, is_some, if◌then◌else◌,
}
use lexe_public.Base.Maps.{get, remove, contains}
use lexe_public.Ids.{Bytes, Bytes-discrete, same}

pub data ApprovalError : Type 0 where
  measurement_mismatch yanked_measurement_unknown too_old : ApprovalError

abbrev pub max_size : ℕ
max_size = 3

abbrev pub Approved : Type 0 → Type 0
Approved V = List (V × Bytes)

pub record Approval (V : Type 0) : Type 0 where
  pub approved : Approved V
  pub updated : Bool
  pub revoked : Approved V

abbrev is_nonempty : {V : Type 0} → Approved V → Bool
is_nonempty [] = false
is_nonempty (e ∷ m) = true

module _ {V : Type 0} where
  -- The loop with `pop_first`: what it removes, and what stays.
  roll : Approved V → Approved V × Approved V
  roll [] = ([], [])
  roll (e ∷ m) =
      let rest = roll m in
      if leb (length (e ∷ m)) max_size then ([], e ∷ m) else (e ∷ rest.0, rest.1)

  module _ (dec : Discrete V) (before : V → V → Bool) where
    -- `insert` of a vacant entry.
    insert_version : V → Bytes → Approved V → Approved V
    insert_version k v [] = (k, v) ∷ []
    insert_version k v ((j, w) ∷ m) =
        let rest = insert_version k v m in if before k j then (k, v) ∷ (j, w) ∷ m else (j, w) ∷ rest

    enter : Option Bytes → V → Bytes → Approved V → Result ApprovalError (Approval V)
    unfolding insert_version
    enter (some occ_measurement) version measurement m = do
      ensure (same occ_measurement measurement) measurement_mismatch
      ok (record { approved = m; updated = false; revoked = [] })
    enter none version measurement m =
        ok
          (record { approved = insert_version version measurement m; updated = true; revoked = [] })

    yank_one : Option Bytes → V → List Bytes → Approval V → Result ApprovalError (Approval V)
    yank_one none version measurements a = ok a
    yank_one (some measurement) version measurements a = do
      ensure (contains Bytes-discrete measurement measurements) yanked_measurement_unknown
      ok (record {
        approved = remove dec version a.approved;
        updated = true;
        revoked = a.revoked ++ (version, measurement) ∷ [];
      })

    yank : List V → List Bytes → Approval V → Result ApprovalError (Approval V)
    unfolding yank_one
    yank [] measurements a = ok a
    yank (version ∷ versions) measurements a = do
      b ← yank_one (get dec version a.approved) version measurements a
      yank versions measurements b

    roll_over : V → Approval V → Result ApprovalError (Approval V)
    unfolding roll
    roll_over version a = do
      let (old, kept) = roll a.approved
      ensure (is_some (get dec version kept)) too_old
      ok (record {
        approved = kept;
        updated = a.updated || is_nonempty old;
        revoked = a.revoked ++ old;
      })

    -- The result holds the map behind the call; a map that an error leaves is dropped.
    unfoldable pub approve_and_revoke :
        List V → List Bytes → V → Bytes → Approved V → Result ApprovalError (Approval V)
    unfolding enter yank roll_over
    approve_and_revoke yanked_versions yanked_measurements cur_version cur_measurement m = do
      a ← enter (get dec cur_version m) cur_version cur_measurement m
      b ← yank yanked_versions yanked_measurements a
      roll_over cur_version b
