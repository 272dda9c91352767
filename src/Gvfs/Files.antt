-- ===== src/Gvfs/Files.antt =====
-- `GoogleVfs` (gdrive/src/gvfs.rs): the files below one folder of Google Drive, with a cache of their Google
-- ids. The requests of `GDriveClient` (gdrive/src/api.rs) are the parameter `Drive`.
use lexe_public.Base.{Bool, true, false, Option, none, some, List, Result, ok, err, is_some}
use lexe_public.Base.BTree.{get, insert, remove}
use lexe_public.Ids.{Bytes}
use lexe_public.Hex.{Chars}
use lexe_public.Gvfs.FileId.{VfsFileId, FileIdError, GvfsFileId, try_from}
use lexe_public.Gvfs.FileId.Laws.{file_id_order}

abbrev pub GFileId : Type 0
GFileId = Chars

pub record GFile : Type 0 where
  pub id : GFileId
  pub name : Chars
  pub mime_type : Chars

-- The field `bytes` is called `data` in the source.
pub record VfsFile : Type 0 where
  pub id : VfsFileId
  pub bytes : Bytes

-- The requests, each with the state of the drive and of the network after it. `none` and `false` are errors.
pub record Drive (D : Type 0) : Type 0 where
  pub create_blob_file : D → (parent_id : GFileId) → (name : Chars) → Bytes → D × Option GFile
  pub update_blob_file : D → GFileId → Bytes → D × Bool
  pub download_blob_file : D → GFileId → D × Option Bytes
  pub delete_file : D → GFileId → D × Bool

pub data GvfsError : Type 0 where
  create_dupe not_found : GvfsError
  invalid_id : FileIdError → GvfsError
  create_failed update_failed download_failed delete_failed : GvfsError
  vfs_root panicked : GvfsError

pub record GvfsRoot (Network : Type 0) : Type 0 where
  pub network : Network
  pub gid : GFileId

pub record GoogleVfs (Network D : Type 0) : Type 0 where
  pub client : D
  pub gvfs_root : GvfsRoot Network
  pub gid_cache : List (VfsFileId × GFileId)

module _ {Network D : Type 0} (drive : Drive D) where
  unfoldable pub file_exists : GoogleVfs Network D → VfsFileId → Bool
  file_exists g vfile_id = is_some (get file_id_order vfile_id g.gid_cache)

  unfoldable pub downloaded :
      GoogleVfs Network D
      → VfsFileId
      → D × Option Bytes
      → GoogleVfs Network D × Result GvfsError (Option VfsFile)
  downloaded g vfile_id (d, none) = (record g { client = d }, err download_failed)
  downloaded g vfile_id (d, some bytes) =
      (record g { client = d }, ok (some record { id = vfile_id; bytes = bytes }))

  unfoldable pub get_file :
      GoogleVfs Network D → VfsFileId → GoogleVfs Network D × Result GvfsError (Option VfsFile)
  unfolding downloaded
  get_file g vfile_id = elim (get file_id_order vfile_id g.gid_cache) [
    | none ↦ (g, ok none)
    | some gid ↦ downloaded g vfile_id (drive.download_blob_file g.client gid)
  ]

  -- The answer of the upload goes into the cache.
  unfoldable pub uploaded :
      GoogleVfs Network D
      → VfsFileId
      → D × Option GFile
      → GoogleVfs Network D × Result GvfsError (Unit {0})
  uploaded g vfile_id (d, none) = (record g { client = d }, err create_failed)
  uploaded g vfile_id (d, some file) = (
    record g { client = d; gid_cache = insert file_id_order vfile_id file.id g.gid_cache },
    ok tt,
  )

  -- The upload of a file that is not cached.
  unfoldable pub upload :
      GoogleVfs Network D
      → VfsFile
      → Result FileIdError GvfsFileId
      → GoogleVfs Network D × Result GvfsError (Unit {0})
  unfolding uploaded
  upload g vfile (err e) = (g, err (invalid_id e))
  upload g vfile (ok gvfile_id) =
      uploaded g vfile.id
        (drive.create_blob_file g.client g.gvfs_root.gid gvfile_id.inner vfile.bytes)

  unfoldable pub create_file :
      GoogleVfs Network D → VfsFile → GoogleVfs Network D × Result GvfsError (Unit {0})
  unfolding upload
  create_file g vfile = elim (get file_id_order vfile.id g.gid_cache) [
    | some gid ↦ (g, err create_dupe)
    | none ↦ upload g vfile (try_from vfile.id)
  ]

  unfoldable pub updated :
      GoogleVfs Network D → D × Bool → GoogleVfs Network D × Result GvfsError (Unit {0})
  updated g (d, true) = (record g { client = d }, ok tt)
  updated g (d, false) = (record g { client = d }, err update_failed)

  unfoldable pub upsert_file :
      GoogleVfs Network D → VfsFile → GoogleVfs Network D × Result GvfsError (Unit {0})
  unfolding upload updated
  upsert_file g vfile = elim (get file_id_order vfile.id g.gid_cache) [
    | some gid ↦ updated g (drive.update_blob_file g.client gid vfile.bytes)
    | none ↦ upload g vfile (try_from vfile.id)
  ]

  -- The entry that is removed was found before, so the `expect` on `remove` holds.
  unfoldable pub deleted :
      GoogleVfs Network D → VfsFileId → D × Bool → GoogleVfs Network D × Result GvfsError (Unit {0})
  deleted g vfile_id (d, true) =
      (record g { client = d; gid_cache = remove file_id_order vfile_id g.gid_cache }, ok tt)
  deleted g vfile_id (d, false) = (record g { client = d }, err delete_failed)

  unfoldable pub delete_file :
      GoogleVfs Network D → VfsFileId → GoogleVfs Network D × Result GvfsError (Unit {0})
  unfolding deleted
  delete_file g vfile_id = elim (get file_id_order vfile_id g.gid_cache) [
    | none ↦ (g, err not_found)
    | some gid ↦ deleted g vfile_id (drive.delete_file g.client gid)
  ]
