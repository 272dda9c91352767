-- ===== src/Gvfs/Cache.antt =====
-- What the requests to Google Drive do, as far as `GoogleVfs` (gdrive/src/gvfs.rs) relies on it, and the
-- invariants of its cache.
pub mod Changes
pub mod Operations
pub mod Calls
use lexe_public.Base.{true, false, Option, none, some, List, ◌≡◌, refl, ok}
use lexe_public.Base.BTree.{get, Ascends}
use lexe_public.Ids.{Bytes}
use lexe_public.Hex.{Chars}
use lexe_public.Gvfs.FileId.{VfsFileId, GvfsFileId, try_from}
use lexe_public.Gvfs.FileId.Laws.{file_id_order}
use lexe_public.Gvfs.Files.{GFileId, GFile, Drive, GoogleVfs}

-- What is stored under each id, and how the requests read and change it. A request that fails changes
-- nothing, and a created file has an id that was not in use.
pub record DriveLaws {D : Type 0} (drive : Drive D) : Type 0 where
  pub content : D → GFileId → Option Bytes
  pub created :
      (d : D) (parent_id : GFileId) (name : Chars) (bytes : Bytes) (file : GFile)
      → (drive.create_blob_file d parent_id name bytes).1 ≡ some file
      → (content d file.id ≡ none)
        × (content (drive.create_blob_file d parent_id name bytes).0 file.id ≡ some bytes)
  pub create_keeps :
      (d : D) (parent_id : GFileId) (name : Chars) (bytes : Bytes) (gid : GFileId) (old : Bytes)
      → content d gid ≡ some old
      → content (drive.create_blob_file d parent_id name bytes).0 gid ≡ some old
  pub updated :
      (d : D) (gid : GFileId) (bytes : Bytes)
      → (drive.update_blob_file d gid bytes).1 ≡ true
      → content (drive.update_blob_file d gid bytes).0 gid ≡ some bytes
  pub update_fails :
      (d : D) (gid : GFileId) (bytes : Bytes)
      → (drive.update_blob_file d gid bytes).1 ≡ false
      → content (drive.update_blob_file d gid bytes).0 gid ≡ content d gid
  pub update_keeps :
      (d : D) (gid : GFileId) (bytes : Bytes) (other : GFileId)
      → ¬ (other ≡ gid)
      → content (drive.update_blob_file d gid bytes).0 other ≡ content d other
  pub downloaded :
      (d : D) (gid : GFileId) (bytes : Bytes)
      → (drive.download_blob_file d gid).1 ≡ some bytes
      → content d gid ≡ some bytes
  pub download_keeps :
      (d : D) (gid other : GFileId)
      → content (drive.download_blob_file d gid).0 other ≡ content d other
  pub delete_fails :
      (d : D) (gid : GFileId)
      → (drive.delete_file d gid).1 ≡ false
      → content (drive.delete_file d gid).0 gid ≡ content d gid
  pub delete_keeps :
      (d : D) (gid other : GFileId)
      → ¬ (other ≡ gid)
      → content (drive.delete_file d gid).0 other ≡ content d other

-- The bytes under an id of the cache, if it has one.
unfoldable pub read_cached :
    {D : Type 0} {drive : Drive D} → DriveLaws drive → D → Option GFileId → Option Bytes
read_cached laws d none = none
read_cached laws d (some gid) = laws.content d gid

module _ {Network D : Type 0} {drive : Drive D} (laws : DriveLaws drive) where
  -- What a reader of the file system sees: the bytes of each file, or that there is none.
  unfoldable pub view : GoogleVfs Network D → VfsFileId → Option Bytes
  unfolding read_cached
  view g vfile_id = read_cached laws g.client (get file_id_order vfile_id g.gid_cache)

  -- The invariants of the cache: the entries ascend, each names a file of the drive, no two name one
  -- file, and each id is the id of a file in Google Drive.
  pub record IsCached (g : GoogleVfs Network D) : Type 0 where
    pub ascends : Ascends file_id_order g.gid_cache
    pub held :
        (id : VfsFileId) (gid : GFileId)
        → get file_id_order id g.gid_cache ≡ some gid
        → (bytes : Bytes) × (laws.content g.client gid ≡ some bytes)
    pub apart :
        (i j : VfsFileId) (gid : GFileId)
        → get file_id_order i g.gid_cache ≡ some gid
        → get file_id_order j g.gid_cache ≡ some gid
        → i ≡ j
    pub valid :
        (id : VfsFileId) (gid : GFileId)
        → get file_id_order id g.gid_cache ≡ some gid
        → (gvfile_id : GvfsFileId) × (try_from id ≡ ok gvfile_id)

-- What the cache says of a file is what a reader sees.
module _ {Network D : Type 0} {drive : Drive D} (laws : DriveLaws drive) where
  pub view_absent :
      (id : VfsFileId) (g : GoogleVfs Network D)
      → get file_id_order id g.gid_cache ≡ none
      → view laws g id ≡ none
  unfolding view read_cached
  view_absent id g e = rw e refl

  pub view_present :
      (id : VfsFileId) (g : GoogleVfs Network D) (gid : GFileId)
      → get file_id_order id g.gid_cache ≡ some gid
      → view laws g id ≡ laws.content g.client gid
  unfolding view read_cached
  view_present id g gid e = rw e refl
