-- ===== src/Gvfs/Cache/Operations.antt =====
-- The operations of `GoogleVfs` (gdrive/src/gvfs.rs) as operations of a key-value store.
use lexe_public.Base.{
  Bool, true, false, Option, none, some, ◌≡◌, refl, sym, ap, ◌∙◌, Result, ok, err,
}
use lexe_public.Base.BTree.{get}
use lexe_public.Base.Updates.{update}
use lexe_public.Ids.{Bytes, Bytes-discrete}
use lexe_public.Gvfs.FileId.{VfsFileId, FileIdError, GvfsFileId, try_from}
use lexe_public.Gvfs.FileId.Laws.{file_id_order}
use lexe_public.Gvfs.Files.{
  GFileId, GFile, VfsFile, Drive, GvfsError, GoogleVfs, upload, uploaded, updated, deleted,
}
use lexe_public.Gvfs.Cache.{DriveLaws, IsCached, view}
use lexe_public.Gvfs.Cache.Changes.{
  keep-IsCached, insert-IsCached, change-IsCached, remove-IsCached,
}

abbrev pub Store : Type 0
Store = VfsFileId → Option Bytes

-- A write of a key-value store: one that is refused changes nothing.
abbrev pub Writes : Store → Store → Result GvfsError (Unit {0}) → VfsFileId → Option Bytes → Type 0
Writes before after (ok done) id value = after ≡ update file_id_order before id value
Writes before after (err e) id value = after ≡ before

module _ {D : Type 0} {drive : Drive D} (laws : DriveLaws drive) where
  -- What a request leaves of all ids if it leaves one and all others.
  everywhere :
      (d before : D) (gid : GFileId)
      → laws.content d gid ≡ laws.content before gid
      → ((other : GFileId) → ¬ (other ≡ gid) → laws.content d other ≡ laws.content before other)
      → (other : GFileId) (old : Bytes) → laws.content before other ≡ some old
      → laws.content d other ≡ some old
  everywhere d before gid here others other old h = elim (Bytes-discrete other gid) [
    | yes s ↦ ap (laws.content d) s ∙ here ∙ sym (ap (laws.content before) s) ∙ h
    | no n ↦ others other n ∙ h
  ]

module _ {Network D : Type 0} {drive : Drive D} (laws : DriveLaws drive) where
  uploaded-Writes :
      (g : GoogleVfs Network D) (vfile : VfsFile) (gvfile_id : GvfsFileId) (d : D)
      (file : Option GFile)
      → IsCached laws g
      → try_from vfile.id ≡ ok gvfile_id
      → drive.create_blob_file g.client g.gvfs_root.gid gvfile_id.inner vfile.bytes ≡ (d, file)
      → Writes
          (view laws g)
          (view laws (uploaded drive g vfile.id (d, file)).0)
          (uploaded drive g vfile.id (d, file)).1
          vfile.id
          (some vfile.bytes)
        × IsCached laws (uploaded drive g vfile.id (d, file)).0
  unfolding uploaded
  uploaded-Writes g vfile gvfile_id d none c name e = keep-IsCached laws g d c (λ gid old h.
      rw (ap (λ p. p.0) e) at
        (laws.create_keeps g.client g.gvfs_root.gid gvfile_id.inner vfile.bytes gid old h))
  uploaded-Writes g vfile gvfile_id d (some file) c name e =
      let made =
        laws.created g.client g.gvfs_root.gid gvfile_id.inner vfile.bytes file (ap (λ p. p.1) e) in
      insert-IsCached laws g d vfile.id file.id vfile.bytes gvfile_id c name made.0
        (rw (ap (λ p. p.0) e) at made.1)
        (λ gid old h.
          rw (ap (λ p. p.0) e) at
            (laws.create_keeps g.client g.gvfs_root.gid gvfile_id.inner vfile.bytes gid old h))

  pub upload-Writes :
      (g : GoogleVfs Network D) (vfile : VfsFile) (name : Result FileIdError GvfsFileId)
      → IsCached laws g
      → try_from vfile.id ≡ name
      → Writes
          (view laws g)
          (view laws (upload drive g vfile name).0)
          (upload drive g vfile name).1
          vfile.id
          (some vfile.bytes)
        × IsCached laws (upload drive g vfile name).0
  unfolding upload
  upload-Writes g vfile (err e) c name = (refl, c)
  upload-Writes g vfile (ok gvfile_id) c name =
      let answer = drive.create_blob_file g.client g.gvfs_root.gid gvfile_id.inner vfile.bytes in
      uploaded-Writes g vfile gvfile_id answer.0 answer.1 c name refl

  pub updated-Writes :
      (g : GoogleVfs Network D) (vfile : VfsFile) (gid : GFileId) (d : D) (done : Bool)
      → IsCached laws g
      → get file_id_order vfile.id g.gid_cache ≡ some gid
      → drive.update_blob_file g.client gid vfile.bytes ≡ (d, done)
      → Writes
          (view laws g)
          (view laws (updated drive g (d, done)).0)
          (updated drive g (d, done)).1
          vfile.id
          (some vfile.bytes)
        × IsCached laws (updated drive g (d, done)).0
  unfolding updated
  updated-Writes g vfile gid d true c cached e =
      let client = ap (λ (p : D × Bool). p.0) e in
      change-IsCached laws g d vfile.id gid vfile.bytes c cached
        (rw client at (laws.updated g.client gid vfile.bytes (ap (λ p. p.1) e)))
        (λ other n. rw client at (laws.update_keeps g.client gid vfile.bytes other n))
  updated-Writes g vfile gid d false c cached e =
      let client = ap (λ (p : D × Bool). p.0) e in
      keep-IsCached laws g d c (
        everywhere laws d g.client gid
          (rw client at (laws.update_fails g.client gid vfile.bytes (ap (λ p. p.1) e)))
          (λ other n. rw client at (laws.update_keeps g.client gid vfile.bytes other n)))

  pub deleted-Writes :
      (g : GoogleVfs Network D) (id : VfsFileId) (gid : GFileId) (d : D) (done : Bool)
      → IsCached laws g
      → get file_id_order id g.gid_cache ≡ some gid
      → drive.delete_file g.client gid ≡ (d, done)
      → Writes
          (view laws g)
          (view laws (deleted drive g id (d, done)).0)
          (deleted drive g id (d, done)).1
          id
          none
        × IsCached laws (deleted drive g id (d, done)).0
  unfolding deleted
  deleted-Writes g id gid d true c cached e =
      let client = ap (λ (p : D × Bool). p.0) e in
      remove-IsCached laws g d id gid c cached
        (λ other n. rw client at (laws.delete_keeps g.client gid other n))
  deleted-Writes g id gid d false c cached e =
      let client = ap (λ (p : D × Bool). p.0) e in
      keep-IsCached laws g d c (
        everywhere laws d g.client gid
          (rw client at (laws.delete_fails g.client gid (ap (λ p. p.1) e)))
          (λ other n. rw client at (laws.delete_keeps g.client gid other n)))
