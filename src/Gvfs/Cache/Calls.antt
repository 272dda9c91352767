-- ===== src/Gvfs/Cache/Calls.antt =====
-- The calls of `GoogleVfs` (gdrive/src/gvfs.rs), what an answer says of the store, and why a call fails.
pub mod Answers
pub mod Refusals
pub mod Histories
use lexe_public.Base.{
  Bool, true, false, Option, none, some, List, [], ◌∷◌, ◌≡◌, refl, sym, ap, ◌∙◌, inl, inr, Result,
  ok, err, map_ok,
}
use lexe_public.Base.BTree.{get}
use lexe_public.Base.Updates.{update}
use lexe_public.Ids.{Bytes}
use lexe_public.Gvfs.FileId.{VfsFileId, GvfsFileId, FileIdError, try_from}
use lexe_public.Gvfs.FileId.Laws.{file_id_order}
use lexe_public.Gvfs.Files.{
  VfsFile, Drive, GvfsError, GoogleVfs, get_file, create_file, upsert_file, delete_file, downloaded,
  upload, GFileId, create_dupe, invalid_id, create_failed, update_failed, download_failed,
  delete_failed, not_found,
}
use lexe_public.Gvfs.Cache.{DriveLaws, IsCached, view, read_cached}
use lexe_public.Gvfs.Cache.Changes.{Option-cases, keep-IsCached}
use lexe_public.Gvfs.Cache.Operations.{Store, Writes, upload-Writes, updated-Writes, deleted-Writes}

-- A call of the file system, and its answer.
pub data VfsOp : Type 0 where
  get_op : VfsFileId → VfsOp
  create_op : VfsFile → VfsOp
  upsert_op : VfsFile → VfsOp
  delete_op : VfsFileId → VfsOp

-- What a reader gets: the file with the bytes that are stored, or nothing.
abbrev pub Reads : Store → VfsFileId → Option VfsFile → Type 0
Reads store id none = store id ≡ none
Reads store id (some vfile) = (vfile.id ≡ id) × (store id ≡ some vfile.bytes)

-- What an answer says of the store, for each call.
abbrev pub Answers : VfsOp → Store → Store → Result GvfsError (Option VfsFile) → Type 0
Answers (get_op id) before after (ok found) = (after ≡ before) × Reads before id found
Answers (create_op vfile) before after (ok a) =
    (after ≡ update file_id_order before vfile.id (some vfile.bytes)) × (before vfile.id ≡ none)
Answers (upsert_op vfile) before after (ok a) =
    after ≡ update file_id_order before vfile.id (some vfile.bytes)
Answers (delete_op id) before after (ok a) =
    (after ≡ update file_id_order before id none) × ((bytes : Bytes) × (before id ≡ some bytes))
Answers op before after (err e) = after ≡ before

-- Why a call fails, for each error that it returns. Any other error would have no reason.
abbrev pub Reason :
    {Network D : Type 0} {drive : Drive D}
    → DriveLaws drive
    → VfsOp
    → GoogleVfs Network D
    → GvfsError
    → Type 0
Reason {drive = drive} laws (get_op id) g download_failed =
    (gid : GFileId) × (get file_id_order id g.gid_cache ≡ some gid)
    × ((drive.download_blob_file g.client gid).1 ≡ none)
Reason laws (create_op vfile) g create_dupe = (bytes : Bytes) × (view laws g vfile.id ≡ some bytes)
Reason laws (create_op vfile) g (invalid_id e) = try_from vfile.id ≡ err e
Reason {drive = drive} laws (create_op vfile) g create_failed =
    (gvfile_id : GvfsFileId) × (try_from vfile.id ≡ ok gvfile_id)
    × ((drive.create_blob_file g.client g.gvfs_root.gid gvfile_id.inner vfile.bytes).1 ≡ none)
Reason laws (upsert_op vfile) g (invalid_id e) = try_from vfile.id ≡ err e
Reason {drive = drive} laws (upsert_op vfile) g create_failed =
    (gvfile_id : GvfsFileId) × (try_from vfile.id ≡ ok gvfile_id)
    × ((drive.create_blob_file g.client g.gvfs_root.gid gvfile_id.inner vfile.bytes).1 ≡ none)
Reason {drive = drive} laws (upsert_op vfile) g update_failed =
    (gid : GFileId) × (get file_id_order vfile.id g.gid_cache ≡ some gid)
    × ((drive.update_blob_file g.client gid vfile.bytes).1 ≡ false)
Reason laws (delete_op id) g not_found = view laws g id ≡ none
Reason {drive = drive} laws (delete_op id) g delete_failed =
    (gid : GFileId) × (get file_id_order id g.gid_cache ≡ some gid)
    × ((drive.delete_file g.client gid).1 ≡ false)
Reason laws op g e = ⊥

module _ {Network D : Type 0} (drive : Drive D) where
  done :
      GoogleVfs Network D × Result GvfsError (Unit {0})
      → GoogleVfs Network D × Result GvfsError (Option VfsFile)
  done (g, r) = (g, map_ok (λ _. none) r)

  unfoldable pub call :
      VfsOp → GoogleVfs Network D → GoogleVfs Network D × Result GvfsError (Option VfsFile)
  unfolding done
  call (get_op id) g = get_file drive g id
  call (create_op vfile) g = done (create_file drive g vfile)
  call (upsert_op vfile) g = done (upsert_file drive g vfile)
  call (delete_op id) g = done (delete_file drive g id)
