-- ===== src/Gvfs/Directory/Downloads.antt =====
-- The loop of `get_directory` (gdrive/src/gvfs.rs), and its downloads.
use lexe_public.Base.{
  Option, none, some, List, [], ◌∷◌, ◌≡◌, refl, sym, ap, ◌∙◌, Result, ok, err, All, ◌⊎◌, inl, inr,
}
use mathlib.Core.Path.{subst}
use lexe_public.Ids.{Bytes, Bytes-discrete}
use lexe_public.Gvfs.FileId.{VfsDirectory, VfsFileId, GvfsFileId, cmp_file_id, try_from}
use lexe_public.Gvfs.FileId.Conversion.{to_vfile_id-try_from}
use lexe_public.Gvfs.Files.{GFileId, VfsFile, Drive, GvfsError, download_failed}
use lexe_public.Gvfs.Cache.{DriveLaws}
use lexe_public.Gvfs.Directory.{
  Cached, range_from, keep_from, collect_subdir, push_subdir, download_all, vfile_of, push_vfile,
}
use lexe_public.Gvfs.Directory.Range.{in_directory, while_in}

-- What the loop collects for the entries of the directory.
abbrev pub Matches : Cached → List (GFileId × GvfsFileId) → Type 0
Matches [] [] = Unit {0}
Matches (e ∷ m) (x ∷ l) = (x.0 ≡ e.1) × (try_from e.0 ≡ ok x.1) × Matches m l
Matches m l = ⊥

module _ (P : VfsFileId × GFileId → Type 0) where
  keep-All :
      (o : Prim.Native.Nat.Ordering) (e : VfsFileId × GFileId) (m : Cached)
      → P e
      → All P m
      → All P (keep_from o e m)
  keep-All Prim.Native.Nat.Ordering.lt e m p h = h
  keep-All Prim.Native.Nat.Ordering.eq e m p h = (p, h)
  keep-All Prim.Native.Nat.Ordering.gt e m p h = (p, h)

  pub range-All :
      (lower_bound : VfsFileId) (m : Cached) → All P m → All P (range_from lower_bound m)
  unfolding range_from
  range-All lower_bound [] h = tt
  range-All lower_bound (e ∷ m) h =
      keep-All (cmp_file_id e.0 lower_bound) e (range_from lower_bound m) h.0
        (range-All lower_bound m h.1)

  pub in-All : (vdir : VfsDirectory) (m : Cached) → All P m → All P (in_directory vdir m)
  in-All vdir [] h = tt
  in-All vdir (e ∷ m) h =
      elim (Bytes-discrete e.0.dir.dirname vdir.dirname)
        as (λ x. All P (elim x [ yes s ↦ e ∷ in_directory vdir m | no n ↦ in_directory vdir m ])) [
          | yes s ↦ (h.0, in-All vdir m h.1)
          | no n ↦ in-All vdir m h.1
        ]

abbrev pub Valid : VfsFileId × GFileId → Type 0
Valid e = (gvfile_id : GvfsFileId) × (try_from e.0 ≡ ok gvfile_id)

pub collect-Matches :
    (vdir : VfsDirectory) (m : Cached)
    → All Valid m
    → (l : List (GFileId × GvfsFileId)) × (collect_subdir vdir m ≡ some l)
      × Matches (while_in vdir m) l
unfolding collect_subdir
collect-Matches vdir [] h = ([], refl, tt)
collect-Matches vdir (e ∷ m) h =
    let (gvfile_id, name) = h.0 in
    let (l, collected, matches) = collect-Matches vdir m h.1 in
    elim (Bytes-discrete e.0.dir.dirname vdir.dirname)
      as (λ x.
        (l : List (GFileId × GvfsFileId)) × (elim x [
          | yes same ↦ push_subdir e.1 (try_from e.0) (collect_subdir vdir m)
          | no other ↦ some []
        ]
          ≡ some l)
        × Matches (elim x [ yes s ↦ e ∷ while_in vdir m | no n ↦ [] ]) l) [
          | yes s ↦ ((e.1, gvfile_id) ∷ l, rw (name, collected) refl, (refl, name, matches))
          | no n ↦ ([], refl, tt)
        ]

-- One of the downloads of the entries' files, made one after the other, fails.
abbrev pub Failing : {D : Type 0} → Drive D → Cached → D → Type 0
Failing drive [] d = ⊥
Failing drive (e ∷ m) d =
    ((drive.download_blob_file d e.1).1 ≡ none) ⊎ Failing drive m (drive.download_blob_file d e.1).0

module _ {D : Type 0} {drive : Drive D} (laws : DriveLaws drive) (start : D) where
  abbrev pub Files : Cached → List VfsFile → Type 0
  Files [] [] = Unit {0}
  Files (e ∷ m) (f ∷ files) = (f.id ≡ e.0) × (laws.content start e.1 ≡ some f.bytes) × Files m files
  Files m files = ⊥

  -- The files of the entries, or the error of a failed download.
  abbrev pub Got : Cached → Type 0 → Result GvfsError (List VfsFile) → Type 0
  Got m Failure (ok files) = Files m files
  Got m Failure (err e) = (e ≡ download_failed) × Failure

  push_ok :
      (e : VfsFileId × GFileId) (m : Cached) (bytes : Bytes) (Before After : Type 0)
      (r : Result GvfsError (List VfsFile))
      → laws.content start e.1 ≡ some bytes
      → (After → Before)
      → Got m After r
      → Got (e ∷ m) Before (push_vfile (ok record { id = e.0; bytes = bytes }) r)
  push_ok e m bytes Before After (ok files) here later h = (refl, here, h)
  push_ok e m bytes Before After (err x) here later h = (h.0, later h.1)

  push-Got :
      (e : VfsFileId × GFileId) (m : Cached) (gvfile_id : GvfsFileId) (o : Option Bytes)
      (Before After : Type 0) (r : Result GvfsError (List VfsFile))
      → try_from e.0 ≡ ok gvfile_id
      → ((bytes : Bytes) → o ≡ some bytes → laws.content start e.1 ≡ some bytes)
      → (o ≡ none → Before)
      → (After → Before)
      → Got m After r
      → Got (e ∷ m) Before (push_vfile (vfile_of gvfile_id o) r)
  push-Got e m gvfile_id none Before After r name here failed later h = (refl, failed refl)
  push-Got e m gvfile_id (some bytes) Before After r name here failed later h =
      rw (to_vfile_id-try_from e.0 gvfile_id name)
        (push_ok e m bytes Before After r (here bytes refl) later h)

  pub download-Got :
      (m : Cached) (l : List (GFileId × GvfsFileId)) (d : D)
      → ((gid : GFileId) → laws.content d gid ≡ laws.content start gid)
      → Matches m l
      → ((gid : GFileId) → laws.content (download_all drive l d).0 gid ≡ laws.content start gid)
        × Got m (Failing drive m d) (download_all drive l d).1
  unfolding download_all
  download-Got [] [] d same h = (same, tt)
  download-Got [] (x ∷ l) d same h = elim h [ ]
  download-Got (e ∷ m) [] d same h = elim h [ ]
  download-Got (e ∷ m) (x ∷ l) d same (gid_same, name, h) =
      let answer = drive.download_blob_file d x.0 in
      let rest = download-Got m l answer.0 (λ gid. laws.download_keeps d x.0 gid ∙ same gid) h in
      (
        rest.0,
        push-Got e m x.1 answer.1 (Failing drive (e ∷ m) d) (Failing drive m answer.0)
            (download_all drive l answer.0).1 name
            (λ bytes got.
              ap (laws.content start) (sym gid_same)
              ∙ sym (same x.0)
              ∙ laws.downloaded d x.0 bytes got)
            (λ failed.
              inl (subst (λ gid. (drive.download_blob_file d gid).1 ≡ none) gid_same failed))
            (λ later.
              inr
                (subst (λ gid. Failing drive m (drive.download_blob_file d gid).0) gid_same later))
            rest.1,
      )
