-- ===== src/Gvfs/Cache/Calls/Refusals.antt =====
-- The errors of `GoogleVfs` (gdrive/src/gvfs.rs), and their reasons.
use lexe_public.Base.{
  Bool, true, false, Option, none, some, ◌≡◌, refl, ap, ◌∙◌, inl, inr, Result, ok, err, map_ok,
}
use lexe_public.Base.BTree.{get}
use lexe_public.Ids.{Bytes}
use lexe_public.Gvfs.FileId.{VfsFileId, try_from}
use lexe_public.Gvfs.FileId.Laws.{file_id_order}
use lexe_public.Gvfs.Files.{
  VfsFile, Drive, GvfsError, GoogleVfs, get_file, create_file, upsert_file, delete_file, downloaded,
  upload, updated, deleted, GFileId,
}
use lexe_public.Gvfs.Cache.{DriveLaws, IsCached}
use lexe_public.Gvfs.Cache.Changes.{Option-cases}
use lexe_public.Gvfs.Cache.Calls.{VfsOp, get_op, create_op, upsert_op, delete_op, Reason, call}
use lexe_public.Gvfs.Files.{create_failed, invalid_id, uploaded, GFile}
use lexe_public.Gvfs.FileId.{FileIdError, GvfsFileId}
use lexe_public.Gvfs.Cache.{view_absent, view_present}

-- Whether an answer is an error that the call has a reason for.
abbrev pub Explained :
    {Network D : Type 0} {drive : Drive D} {A : Type 0}
    → DriveLaws drive
    → VfsOp
    → GoogleVfs Network D
    → Result GvfsError A
    → Type 0
Explained laws op g (ok a) = Unit {0}
Explained laws op g (err e) = Reason laws op g e

module _ {Network D : Type 0} {drive : Drive D} (laws : DriveLaws drive) where
  Explained-map :
      {A B : Type 0} (f : A → B) (op : VfsOp) (g : GoogleVfs Network D) (r : Result GvfsError A)
      → Explained laws op g r
      → Explained laws op g (map_ok f r)
  Explained-map f op g (ok a) h = h
  Explained-map f op g (err e) h = h

  uploaded-Explained :
      (op : VfsOp) (g : GoogleVfs Network D) (id : VfsFileId) (d : D) (file : Option GFile)
      → (file ≡ none → Reason laws op g create_failed)
      → Explained laws op g (uploaded drive g id (d, file)).1
  unfolding uploaded
  uploaded-Explained op g id d none failed = failed refl
  uploaded-Explained op g id d (some file) failed = tt

  upload-Explained :
      (op : VfsOp) (g : GoogleVfs Network D) (vfile : VfsFile)
      (name : Result FileIdError GvfsFileId)
      → ((e : FileIdError) → name ≡ err e → Reason laws op g (invalid_id e))
      → ((gvfile_id : GvfsFileId)
          → name ≡ ok gvfile_id
          → (drive.create_blob_file g.client g.gvfs_root.gid gvfile_id.inner vfile.bytes).1 ≡ none
          → Reason laws op g create_failed)
      → Explained laws op g (upload drive g vfile name).1
  unfolding upload
  upload-Explained op g vfile (err e) invalid failed = invalid e refl
  upload-Explained op g vfile (ok gvfile_id) invalid failed =
      let answer = drive.create_blob_file g.client g.gvfs_root.gid gvfile_id.inner vfile.bytes in
      uploaded-Explained op g vfile.id answer.0 answer.1 (failed gvfile_id refl)

  create-Explained :
      (vfile : VfsFile) (g : GoogleVfs Network D)
      → IsCached laws g
      → Explained laws (create_op vfile) g (create_file drive g vfile).1
  unfolding create_file
  create-Explained vfile g c = elim (Option-cases (get file_id_order vfile.id g.gid_cache)) [
    | inl e ↦
        rw (e, create_file)
          (upload-Explained (create_op vfile) g vfile (try_from vfile.id) (λ e h. h)
            (λ gvfile_id h failed. (gvfile_id, h, failed)))
    | inr (gid, e) ↦
        let (bytes, h) = c.held vfile.id gid e in
        rw (e, create_file) (bytes, view_present laws vfile.id g gid e ∙ h)
  ]

  updated-Explained :
      (vfile : VfsFile) (g : GoogleVfs Network D) (gid : GFileId) (d : D) (done : Bool)
      → get file_id_order vfile.id g.gid_cache ≡ some gid
      → drive.update_blob_file g.client gid vfile.bytes ≡ (d, done)
      → Explained laws (upsert_op vfile) g (updated drive g (d, done)).1
  unfolding updated
  updated-Explained vfile g gid d true cached e = tt
  updated-Explained vfile g gid d false cached e = (gid, cached, ap (λ (p : D × Bool). p.1) e)

  upsert-Explained :
      (vfile : VfsFile) (g : GoogleVfs Network D)
      → Explained laws (upsert_op vfile) g (upsert_file drive g vfile).1
  unfolding upsert_file
  upsert-Explained vfile g = elim (Option-cases (get file_id_order vfile.id g.gid_cache)) [
    | inl e ↦
        rw (e, upsert_file)
          (upload-Explained (upsert_op vfile) g vfile (try_from vfile.id) (λ e h. h)
            (λ gvfile_id h failed. (gvfile_id, h, failed)))
    | inr (gid, e) ↦
        let answer = drive.update_blob_file g.client gid vfile.bytes in
        rw (e, upsert_file) (updated-Explained vfile g gid answer.0 answer.1 e refl)
  ]

  downloaded-Explained :
      (id : VfsFileId) (g : GoogleVfs Network D) (gid : GFileId) (d : D) (bytes : Option Bytes)
      → get file_id_order id g.gid_cache ≡ some gid
      → drive.download_blob_file g.client gid ≡ (d, bytes)
      → Explained laws (get_op id) g (downloaded drive g id (d, bytes)).1
  unfolding downloaded
  downloaded-Explained id g gid d (some bytes) cached e = tt
  downloaded-Explained id g gid d none cached e =
      (gid, cached, ap (λ (p : D × Option Bytes). p.1) e)

  get-Explained :
      (id : VfsFileId) (g : GoogleVfs Network D)
      → Explained laws (get_op id) g (get_file drive g id).1
  unfolding get_file
  get-Explained id g = elim (Option-cases (get file_id_order id g.gid_cache)) [
    | inl e ↦ rw (e, get_file) tt
    | inr (gid, e) ↦
        let answer = drive.download_blob_file g.client gid in
        rw (e, get_file) (downloaded-Explained id g gid answer.0 answer.1 e refl)
  ]

  deleted-Explained :
      (id : VfsFileId) (g : GoogleVfs Network D) (gid : GFileId) (d : D) (done : Bool)
      → get file_id_order id g.gid_cache ≡ some gid
      → drive.delete_file g.client gid ≡ (d, done)
      → Explained laws (delete_op id) g (deleted drive g id (d, done)).1
  unfolding deleted
  deleted-Explained id g gid d true cached e = tt
  deleted-Explained id g gid d false cached e = (gid, cached, ap (λ (p : D × Bool). p.1) e)

  delete-Explained :
      (id : VfsFileId) (g : GoogleVfs Network D)
      → Explained laws (delete_op id) g (delete_file drive g id).1
  unfolding delete_file
  delete-Explained id g = elim (Option-cases (get file_id_order id g.gid_cache)) [
    | inl e ↦ rw (e, delete_file) (view_absent laws id g e)
    | inr (gid, e) ↦
        let answer = drive.delete_file g.client gid in
        rw (e, delete_file) (deleted-Explained id g gid answer.0 answer.1 e refl)
  ]

  pub call-Explained :
      (op : VfsOp) (g : GoogleVfs Network D)
      → IsCached laws g
      → Explained laws op g (call drive op g).1
  unfolding call
  call-Explained (get_op id) g c = get-Explained id g
  call-Explained (create_op vfile) g c =
      Explained-map (λ _. none) (create_op vfile) g (create_file drive g vfile).1
        (create-Explained vfile g c)
  call-Explained (upsert_op vfile) g c =
      Explained-map (λ _. none) (upsert_op vfile) g (upsert_file drive g vfile).1
        (upsert-Explained vfile g)
  call-Explained (delete_op id) g c =
      Explained-map (λ _. none) (delete_op id) g (delete_file drive g id).1 (delete-Explained id g)
