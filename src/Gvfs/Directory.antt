-- ===== src/Gvfs/Directory.antt =====
-- `get_directory` of `GoogleVfs` (gdrive/src/gvfs.rs). A dot has the code 46.
pub mod Range
pub mod Downloads
pub mod Listing
use Prim.Native.Nat.{Ordering}
use Prim.Native.Nat.Ordering.{lt, eq, gt}
use lexe_public.Base.{Option, none, some, List, [], ◌∷◌, Result, ok, err, map_ok, map_option}
use lexe_public.Ids.{Bytes, Bytes-discrete}
use lexe_public.Hex.{Chars}
use lexe_public.Gvfs.FileId.{
  VfsDirectory, VfsFileId, FileIdError, GvfsFileId, file_id, cmp_file_id, try_from, to_vfile_id,
}
use lexe_public.Gvfs.Files.{
  GFileId, VfsFile, Drive, GoogleVfs, GvfsError, download_failed, vfs_root, panicked,
}

abbrev pub singleton_directory : Chars
singleton_directory = 46 ∷ []

abbrev pub Cached : Type 0
Cached = List (VfsFileId × GFileId)

abbrev pub keep_from : Ordering → VfsFileId × GFileId → Cached → Cached
keep_from lt e rest = rest
keep_from eq e rest = e ∷ rest
keep_from gt e rest = e ∷ rest

-- `BTreeMap::range`, from a lower bound on.
unfoldable pub range_from : VfsFileId → Cached → Cached
range_from lower_bound [] = []
range_from lower_bound (e ∷ m) =
    keep_from (cmp_file_id e.0 lower_bound) e (range_from lower_bound m)

abbrev pub push_subdir :
    GFileId
    → Result FileIdError GvfsFileId
    → Option (List (GFileId × GvfsFileId))
    → Option (List (GFileId × GvfsFileId))
push_subdir gid (err e) rest = none
push_subdir gid (ok gvfile_id) rest = map_option (λ l. (gid, gvfile_id) ∷ l) rest

-- The entries up to the first one of another directory. `none` is a panic.
unfoldable pub collect_subdir : VfsDirectory → Cached → Option (List (GFileId × GvfsFileId))
collect_subdir vdir [] = some []
collect_subdir vdir (e ∷ m) =
    let rest = push_subdir e.1 (try_from e.0) (collect_subdir vdir m) in
    elim (Bytes-discrete e.0.dir.dirname vdir.dirname) [ yes same ↦ rest | no other ↦ some [] ]

abbrev pub vfile_with : Bytes → Option VfsFileId → Result GvfsError VfsFile
vfile_with bytes none = err panicked
vfile_with bytes (some id) = ok record { id = id; bytes = bytes }

abbrev pub vfile_of : GvfsFileId → Option Bytes → Result GvfsError VfsFile
vfile_of gvfile_id none = err download_failed
vfile_of gvfile_id (some bytes) = vfile_with bytes (to_vfile_id gvfile_id)

abbrev pub push_vfile :
    Result GvfsError VfsFile → Result GvfsError (List VfsFile) → Result GvfsError (List VfsFile)
push_vfile (err e) rest = err e
push_vfile (ok vfile) rest = map_ok (λ l. vfile ∷ l) rest

module _ {D : Type 0} (drive : Drive D) where
  -- All downloads are made, and the first error is the result. They are made here in the order of the list.
  unfoldable pub download_all :
      List (GFileId × GvfsFileId) → D → D × Result GvfsError (List VfsFile)
  download_all [] d = (d, ok [])
  download_all ((gid, gvfile_id) ∷ l) d =
      let answer = drive.download_blob_file d gid in
      let rest = download_all l answer.0 in
      (rest.0, push_vfile (vfile_of gvfile_id answer.1) rest.1)

module _ {Network D : Type 0} (drive : Drive D) where
  unfoldable pub listed :
      GoogleVfs Network D
      → Option (List (GFileId × GvfsFileId))
      → GoogleVfs Network D × Result GvfsError (List VfsFile)
  unfolding download_all
  listed g none = (g, err panicked)
  listed g (some []) = (g, ok [])
  listed g (some (e ∷ l)) =
      let answer = download_all drive (e ∷ l) g.client in (record g { client = answer.0 }, answer.1)

  unfoldable pub get_directory :
      VfsDirectory → GoogleVfs Network D → GoogleVfs Network D × Result GvfsError (List VfsFile)
  unfolding listed
  get_directory vdir g =
      let lower_bound = file_id vdir.dirname [] in
      let vfiles = listed g (collect_subdir vdir (range_from lower_bound g.gid_cache)) in
      elim (Bytes-discrete vdir.dirname singleton_directory) [
        | yes same ↦ (g, err vfs_root)
        | no other ↦ vfiles
      ]
