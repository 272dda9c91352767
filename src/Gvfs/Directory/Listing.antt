-- ===== src/Gvfs/Directory/Listing.antt =====
-- What `get_directory` (gdrive/src/gvfs.rs) lists.
use lexe_public.Base.{some, List, [], ◌∷◌, ◌≡◌, refl, ap, ◌∙◌, Result, ok, err, All, All-map}
use mathlib.Core.Path.{subst}
use lexe_public.Base.BTree.{get, get_entries}
use lexe_public.Ids.{Bytes-discrete}
use lexe_public.Gvfs.FileId.{VfsDirectory, VfsFileId, GvfsFileId, file_id}
use lexe_public.Gvfs.FileId.Laws.{file_id_order}
use lexe_public.Gvfs.Files.{
  GFileId, VfsFile, Drive, GoogleVfs, GvfsError, vfs_root, download_failed,
}
use lexe_public.Gvfs.Cache.{DriveLaws, IsCached, view, view_present}
use lexe_public.Gvfs.Cache.Changes.{keep-IsCached}
use lexe_public.Gvfs.Directory.{
  Cached, range_from, collect_subdir, download_all, listed, get_directory, singleton_directory,
}
use lexe_public.Gvfs.Directory.Range.{in_directory, while_in-range}
use lexe_public.Gvfs.Directory.Downloads.{
  Matches, Files, Got, Valid, Failing, range-All, in-All, collect-Matches, download-Got,
}

abbrev pub ids : Cached → List VfsFileId
ids [] = []
ids (e ∷ m) = e.0 ∷ ids m

abbrev pub file_ids : List VfsFile → List VfsFileId
file_ids [] = []
file_ids (f ∷ files) = f.id ∷ file_ids files

-- The files of a directory in the order of their names, each with what a reader of it gets, or the error
-- of a download that fails for one of them.
abbrev pub Lists :
    {Network D : Type 0} {drive : Drive D}
    → DriveLaws drive
    → VfsDirectory
    → GoogleVfs Network D
    → Result GvfsError (List VfsFile)
    → Type 0
Lists laws vdir g (ok files) =
    (file_ids files ≡ ids (in_directory vdir g.gid_cache))
    × All (λ (f : VfsFile). view laws g f.id ≡ some f.bytes) files
Lists {drive = drive} laws vdir g (err e) =
    (e ≡ download_failed) × Failing drive (in_directory vdir g.gid_cache) g.client

allowed-directory :
    {Network D : Type 0} (drive : Drive D) (vdir : VfsDirectory) (g : GoogleVfs Network D)
    → ¬ (vdir.dirname ≡ singleton_directory)
    → get_directory drive vdir g
      ≡ listed drive g (collect_subdir vdir (range_from (file_id vdir.dirname []) g.gid_cache))
unfolding get_directory
allowed-directory drive vdir g allowed =
    let vfiles =
      listed drive g (collect_subdir vdir (range_from (file_id vdir.dirname []) g.gid_cache)) in
    elim (Bytes-discrete vdir.dirname singleton_directory)
      as (λ x. elim x [ yes same ↦ (g, err vfs_root) | no other ↦ vfiles ] ≡ vfiles) [
        | yes same ↦ elim (allowed same) [ ]
        | no other ↦ refl
      ]

module _ {Network D : Type 0} {drive : Drive D} (laws : DriveLaws drive) where
  Files-Lists :
      (g : GoogleVfs Network D) (m : Cached) (files : List VfsFile)
      → All (λ (e : VfsFileId × GFileId). get file_id_order e.0 g.gid_cache ≡ some e.1) m
      → Files laws g.client m files
      → (file_ids files ≡ ids m) × All (λ (f : VfsFile). view laws g f.id ≡ some f.bytes) files
  Files-Lists g [] [] a h = (refl, tt)
  Files-Lists g [] (f ∷ files) a h = elim h [ ]
  Files-Lists g (e ∷ m) [] a h = elim h [ ]
  Files-Lists g (e ∷ m) (f ∷ files) a (same, stored, h) =
      let (ids_same, read) = Files-Lists g m files a.1 h in
      (
        cc (same, ids_same),
        (ap (view laws g) same ∙ view_present laws e.0 g e.1 a.0 ∙ stored, read),
      )

  Got-Lists :
      (vdir : VfsDirectory) (g : GoogleVfs Network D) (r : Result GvfsError (List VfsFile))
      → All
          (λ (e : VfsFileId × GFileId). get file_id_order e.0 g.gid_cache ≡ some e.1)
          (in_directory vdir g.gid_cache)
      → Got laws g.client
          (in_directory vdir g.gid_cache)
          (Failing drive (in_directory vdir g.gid_cache) g.client)
          r
      → Lists laws vdir g r
  Got-Lists vdir g (ok files) a h = Files-Lists g (in_directory vdir g.gid_cache) files a h
  Got-Lists vdir g (err e) a h = h

  listed-Got :
      (g : GoogleVfs Network D) (m : Cached) (l : List (GFileId × GvfsFileId))
      → IsCached laws g
      → Matches m l
      → Got laws g.client m (Failing drive m g.client) (listed drive g (some l)).1
        × (view laws (listed drive g (some l)).0 ≡ view laws g)
        × IsCached laws (listed drive g (some l)).0
  unfolding listed
  listed-Got g [] [] c h = (tt, refl, c)
  listed-Got g [] (x ∷ l) c h = elim h [ ]
  listed-Got g (e ∷ m) [] c h = elim h [ ]
  listed-Got g (e ∷ m) (x ∷ l) c h =
      let (same, got) = download-Got laws g.client (e ∷ m) (x ∷ l) g.client (λ gid. refl) h in
      let (kept, cached) =
        keep-IsCached laws g (download_all drive (x ∷ l) g.client).0 c
          (λ gid old k. same gid ∙ k) in
      (got, kept, cached)

  -- From a cache whose entries ascend and name distinct files of the drive under valid ids,
  -- and for a directory other than the root, `get_directory` lists the cached ids of that
  -- directory in their order, each with the bytes that a reader of the file gets, or returns
  -- the error of a download if one of its downloads of these files, made one after the other,
  -- fails; this if the drive does what `DriveLaws` states. It never panics, and leaves what a
  -- reader sees and the invariants of the cache.
  pub get_directory-Lists :
      (vdir : VfsDirectory) (g : GoogleVfs Network D)
      → ¬ (vdir.dirname ≡ singleton_directory)
      → IsCached laws g
      → Lists laws vdir g (get_directory drive vdir g).1
        × (view laws (get_directory drive vdir g).0 ≡ view laws g)
        × IsCached laws (get_directory drive vdir g).0
  get_directory-Lists vdir g allowed c =
      let found = get_entries file_id_order g.gid_cache c.ascends in
      let valid : All Valid g.gid_cache = All-map g.gid_cache (λ e h. c.valid e.0 e.1 h) found in
      let lower_bound = file_id vdir.dirname [] in
      let (l, collected, matches) =
        collect-Matches vdir (range_from lower_bound g.gid_cache)
          (range-All Valid lower_bound g.gid_cache valid) in
      let (got, kept, cached) =
        listed-Got g (in_directory vdir g.gid_cache) l c
          (subst (λ m. Matches m l) (while_in-range vdir g.gid_cache c.ascends) matches) in
      rw (allowed-directory drive vdir g allowed, collected)
        (
          Got-Lists vdir g (listed drive g (some l)).1
              (in-All (λ e. get file_id_order e.0 g.gid_cache ≡ some e.1) vdir g.gid_cache found)
              got,
          kept,
          cached,
        )
