-- ===== src/Gvfs/Cache/Calls/Histories.antt =====
-- Histories of calls of `GoogleVfs` (gdrive/src/gvfs.rs) as histories of a key-value store.
use lexe_public.Base.{List, [], ◌∷◌}
use lexe_public.Gvfs.Files.{Drive, GoogleVfs}
use lexe_public.Gvfs.Cache.{DriveLaws, IsCached, view}
use lexe_public.Gvfs.Cache.Calls.{VfsOp, Answers, call}
use lexe_public.Gvfs.Cache.Calls.Answers.{call-Answers}
use lexe_public.Gvfs.Cache.Calls.Refusals.{Explained, call-Explained}

-- The answers of all calls of a list, each for the state that the calls before it leave.
abbrev pub AllAnswer :
    {Network D : Type 0} {drive : Drive D}
    → DriveLaws drive
    → List VfsOp
    → GoogleVfs Network D
    → Type 0
AllAnswer laws [] g = Unit {0}
AllAnswer {drive = drive} laws (op ∷ ops) g =
    Answers op (view laws g) (view laws (call drive op g).0) (call drive op g).1
    × Explained laws op g (call drive op g).1
    × AllAnswer laws ops (call drive op g).0

module _ {Network D : Type 0} {drive : Drive D} (laws : DriveLaws drive) where
  -- From a cache whose entries ascend and name distinct files of the drive under valid ids,
  -- any list of `get_file`, `create_file`, `upsert_file` and `delete_file` calls is one on a
  -- map from file ids to bytes, if the drive does what `DriveLaws` states. A call that
  -- succeeds reads or changes the map at its file alone: a creation only if the file was
  -- absent, a deletion only if it was there. A call that fails leaves the map, and its error
  -- has its reason: the file exists, it does not, its id is invalid, or the request to the
  -- drive failed.
  pub calls-AllAnswer :
      (ops : List VfsOp) (g : GoogleVfs Network D) → IsCached laws g → AllAnswer laws ops g
  calls-AllAnswer [] g c = tt
  calls-AllAnswer (op ∷ ops) g c =
      let (answer, after) = call-Answers laws op g c in
      (answer, call-Explained laws op g c, calls-AllAnswer ops (call drive op g).0 after)
