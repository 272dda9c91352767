-- ===== src/Gvfs/Cache/Calls/Answers.antt =====
-- The calls of `GoogleVfs` (gdrive/src/gvfs.rs) as calls of a key-value store.
use lexe_public.Base.{Option, none, some, ◌≡◌, refl, ◌∙◌, inl, inr, Result, ok, err, map_ok}
use lexe_public.Base.BTree.{get}
use lexe_public.Ids.{Bytes}
use lexe_public.Gvfs.FileId.{VfsFileId, try_from}
use lexe_public.Gvfs.FileId.Laws.{file_id_order}
use lexe_public.Gvfs.Files.{
  VfsFile, Drive, GvfsError, GoogleVfs, get_file, create_file, upsert_file, delete_file, downloaded,
  upload, updated, deleted,
}
use lexe_public.Gvfs.Cache.{DriveLaws, IsCached, view}
use lexe_public.Gvfs.Cache.Changes.{Option-cases, keep-IsCached}
use lexe_public.Gvfs.Cache.Operations.{Store, Writes, upload-Writes, updated-Writes, deleted-Writes}
use lexe_public.Gvfs.Cache.Calls.{VfsOp, get_op, create_op, upsert_op, delete_op, Answers, call}
use lexe_public.Gvfs.Cache.{view_absent, view_present}

-- A write's answer is the answer of its call.
create_answer :
    (before after : Store) (vfile : VfsFile) (r : Result GvfsError (Unit {0}))
    → Writes before after r vfile.id (some vfile.bytes)
    → before vfile.id ≡ none
    → Answers (create_op vfile) before after (map_ok (λ _. none) r)
create_answer before after vfile (ok done) w absent = (w, absent)
create_answer before after vfile (err e) w absent = w

upsert_answer :
    (before after : Store) (vfile : VfsFile) (r : Result GvfsError (Unit {0}))
    → Writes before after r vfile.id (some vfile.bytes)
    → Answers (upsert_op vfile) before after (map_ok (λ _. none) r)
upsert_answer before after vfile (ok done) w = w
upsert_answer before after vfile (err e) w = w

delete_answer :
    (before after : Store) (id : VfsFileId) (r : Result GvfsError (Unit {0}))
    → Writes before after r id none
    → (bytes : Bytes) × (before id ≡ some bytes)
    → Answers (delete_op id) before after (map_ok (λ _. none) r)
delete_answer before after id (ok done) w there = (w, there)
delete_answer before after id (err e) w there = w

module _ {Network D : Type 0} {drive : Drive D} (laws : DriveLaws drive) where
  downloaded-Answers :
      (id : VfsFileId) (g : GoogleVfs Network D) (d : D) (bytes : Option Bytes)
      → (view laws (record g { client = d }) ≡ view laws g)
        × IsCached laws (record g { client = d })
      → ((found : Bytes) → bytes ≡ some found → view laws g id ≡ some found)
      → Answers
          (get_op id)
          (view laws g)
          (view laws (downloaded drive g id (d, bytes)).0)
          (downloaded drive g id (d, bytes)).1
        × IsCached laws (downloaded drive g id (d, bytes)).0
  unfolding downloaded
  downloaded-Answers id g d none kept found = kept
  downloaded-Answers id g d (some bytes) kept found = ((kept.0, (refl, found bytes refl)), kept.1)

  get-Answers :
      (id : VfsFileId) (g : GoogleVfs Network D)
      → IsCached laws g
      → Answers
          (get_op id)
          (view laws g)
          (view laws (get_file drive g id).0)
          (get_file drive g id).1
        × IsCached laws (get_file drive g id).0
  unfolding get_file
  get-Answers id g c = elim (Option-cases (get file_id_order id g.gid_cache)) [
    | inl e ↦ rw (e, get_file) ((refl, view_absent laws id g e), c)
    | inr (gid, e) ↦
        let answer = drive.download_blob_file g.client gid in
        rw (e, get_file)
          (downloaded-Answers id g answer.0 answer.1
            (keep-IsCached laws g answer.0 c (λ k old h. laws.download_keeps g.client gid k ∙ h))
            (λ found h. view_present laws id g gid e ∙ laws.downloaded g.client gid found h))
  ]

  create-Answers :
      (vfile : VfsFile) (g : GoogleVfs Network D)
      → IsCached laws g
      → Answers
          (create_op vfile)
          (view laws g)
          (view laws (call drive (create_op vfile) g).0)
          (call drive (create_op vfile) g).1
        × IsCached laws (call drive (create_op vfile) g).0
  unfolding call create_file
  create-Answers vfile g c = elim (Option-cases (get file_id_order vfile.id g.gid_cache)) [
    | inr (gid, e) ↦ rw (e, create_file) (refl, c)
    | inl e ↦
        let name = try_from vfile.id in
        let written = upload-Writes laws g vfile name c refl in
        let after = upload drive g vfile name in
        rw (e, create_file)
          (
            create_answer (view laws g) (view laws after.0) vfile after.1 written.0
                (view_absent laws vfile.id g e),
            written.1,
          )
  ]

  upsert-Answers :
      (vfile : VfsFile) (g : GoogleVfs Network D)
      → IsCached laws g
      → Answers
          (upsert_op vfile)
          (view laws g)
          (view laws (call drive (upsert_op vfile) g).0)
          (call drive (upsert_op vfile) g).1
        × IsCached laws (call drive (upsert_op vfile) g).0
  unfolding call upsert_file
  upsert-Answers vfile g c = elim (Option-cases (get file_id_order vfile.id g.gid_cache)) [
    | inl e ↦
        let name = try_from vfile.id in
        let written = upload-Writes laws g vfile name c refl in
        let after = upload drive g vfile name in
        rw (e, upsert_file)
          (upsert_answer (view laws g) (view laws after.0) vfile after.1 written.0, written.1)
    | inr (gid, e) ↦
        let answer = drive.update_blob_file g.client gid vfile.bytes in
        let written = updated-Writes laws g vfile gid answer.0 answer.1 c e refl in
        let after = updated drive g answer in
        rw (e, upsert_file)
          (upsert_answer (view laws g) (view laws after.0) vfile after.1 written.0, written.1)
  ]

  delete-Answers :
      (id : VfsFileId) (g : GoogleVfs Network D)
      → IsCached laws g
      → Answers
          (delete_op id)
          (view laws g)
          (view laws (call drive (delete_op id) g).0)
          (call drive (delete_op id) g).1
        × IsCached laws (call drive (delete_op id) g).0
  unfolding call delete_file
  delete-Answers id g c = elim (Option-cases (get file_id_order id g.gid_cache)) [
    | inl e ↦ rw (e, delete_file) (refl, c)
    | inr (gid, e) ↦
        let answer = drive.delete_file g.client gid in
        let written = deleted-Writes laws g id gid answer.0 answer.1 c e refl in
        let after = deleted drive g id answer in
        let (bytes, h) = c.held id gid e in
        rw (e, delete_file)
          (
            delete_answer (view laws g) (view laws after.0) id after.1 written.0
                (bytes, view_present laws id g gid e ∙ h),
            written.1,
          )
  ]

  pub call-Answers :
      (op : VfsOp) (g : GoogleVfs Network D)
      → IsCached laws g
      → Answers op (view laws g) (view laws (call drive op g).0) (call drive op g).1
        × IsCached laws (call drive op g).0
  unfolding call
  call-Answers (get_op id) g c = get-Answers id g c
  call-Answers (create_op vfile) g c = create-Answers vfile g c
  call-Answers (upsert_op vfile) g c = upsert-Answers vfile g c
  call-Answers (delete_op id) g c = delete-Answers id g c
