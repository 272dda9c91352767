-- ===== src/Gvfs/Tests.antt =====
-- A concrete drive.
pub mod Runs
use lexe_public.Base.{
  Bool, true, false, Option, none, some, List, [], ◌∷◌, ◌≡◌, refl, ok, ap, ◌∙◌, err, some_inj,
  arith,
}
use lexe_public.Base.BTree.{get}
use lexe_public.IdText.{split}
use lexe_public.Ids.{Bytes, Bytes-discrete}
use lexe_public.Hex.{Chars}
use lexe_public.Gvfs.FileId.{
  VfsFileId, GvfsFileId, file_id, try_from, to_vfile_id, validate, empty_filename,
}
use lexe_public.Gvfs.FileId.Conversion.{to_vfile_id-try_from, try_from-to_vfile_id}
use lexe_public.Gvfs.Files.{GFileId, GFile, Drive, GoogleVfs}
use lexe_public.Gvfs.Cache.{DriveLaws, IsCached}
use lexe_public.Gvfs.Cache.Calls.{VfsOp, get_op, create_op, upsert_op, delete_op}
use lexe_public.Gvfs.Cache.Calls.{call}
use lexe_public.Gvfs.Cache.Calls.Answers.{call-Answers}
use lexe_public.Gvfs.Cache.{view}
use lexe_public.Gvfs.Files.{create_file, upload, uploaded}
use lexe_public.Gvfs.FileId.{VfsDirectory, split_once, cmp_file_id}
use lexe_public.Gvfs.FileId.Laws.{file_id_order}
use lexe_public.Base.{map_ok, ℕ_discrete}
use lexe_public.Base.BTree.{insert}
use lexe_public.Gvfs.Directory.{get_directory, collect_subdir, range_from, listed, download_all}
use lexe_public.Gvfs.Directory.Listing.{Lists, get_directory-Lists, file_ids}
use lexe_public.Gvfs.Cache.Calls.Histories.{AllAnswer, calls-AllAnswer}

-- A drive that stores each file under its name.
abbrev pub Disk : Type 0
Disk = GFileId → Option Bytes

abbrev set : Disk → GFileId → Option Bytes → Disk
set d k v i = elim (Bytes-discrete i k) [ yes e ↦ v | no n ↦ d i ]

set_self : (d : Disk) (k : GFileId) (v : Option Bytes) → set d k v k ≡ v
set_self d k v = elim (Bytes-discrete k k) as (λ x. elim x [ yes e ↦ v | no n ↦ d k ] ≡ v) [
  | yes e ↦ refl
  | no n ↦ elim (n refl) [ ]
]

set_other :
    (d : Disk) (k : GFileId) (v : Option Bytes) (i : GFileId) → ¬ (i ≡ k) → set d k v i ≡ d i
set_other d k v i n = elim (Bytes-discrete i k) as (λ x. elim x [ yes e ↦ v | no n ↦ d i ] ≡ d i) [
  | yes e ↦ elim (n e) [ ]
  | no m ↦ refl
]

abbrev place : Disk → Chars → Bytes → Option Bytes → Disk × Option GFile
place d name bytes none =
    (set d name (some bytes), some record { id = name; name = name; mime_type = [] })
place d name bytes (some old) = (d, none)

abbrev change : Disk → GFileId → Option Bytes → Option Bytes → Disk × Bool
change d gid v none = (d, false)
change d gid v (some old) = (set d gid v, true)

abbrev pub disk : Drive Disk
disk = record {
  create_blob_file = λ d parent_id name bytes. place d name bytes (d name);
  update_blob_file = λ d gid bytes. change d gid (some bytes) (d gid);
  download_blob_file = λ d gid. (d, d gid);
  delete_file = λ d gid. change d gid none (d gid);
}

pub place-made :
    (d : Disk) (name : Chars) (bytes : Bytes) (o : Option Bytes) (file : GFile)
    → d name ≡ o
    → (place d name bytes o).1 ≡ some file
    → (d file.id ≡ none) × ((place d name bytes o).0 file.id ≡ some bytes)
place-made d name bytes none file e h =
    rw (← ap (λ (f : GFile). f.id) (some_inj h)) (e, set_self d name (some bytes))
place-made d name bytes (some old) file e h = cc

pub place-kept :
    (d : Disk) (name : Chars) (bytes : Bytes) (o : Option Bytes) (gid : GFileId) (old : Bytes)
    → d name ≡ o
    → d gid ≡ some old
    → (place d name bytes o).0 gid ≡ some old
place-kept d name bytes none gid old e h =
    set_other d name (some bytes) gid (λ s. let found : d name ≡ some old = rw s at h in cc) ∙ h
place-kept d name bytes (some there) gid old e h = h

pub change_done :
    (d : Disk) (gid : GFileId) (v o : Option Bytes)
    → (change d gid v o).1 ≡ true
    → (change d gid v o).0 gid ≡ v
change_done d gid v none h = cc
change_done d gid v (some old) h = set_self d gid v

pub change_fails :
    (d : Disk) (gid : GFileId) (v o : Option Bytes)
    → (change d gid v o).1 ≡ false
    → (change d gid v o).0 gid ≡ d gid
change_fails d gid v none h = refl
change_fails d gid v (some old) h = cc

pub change_keeps :
    (d : Disk) (gid : GFileId) (v o : Option Bytes) (other : GFileId)
    → ¬ (other ≡ gid)
    → (change d gid v o).0 other ≡ d other
change_keeps d gid v none other n = refl
change_keeps d gid v (some old) other n = set_other d gid v other n

abbrev pub disk_laws : DriveLaws disk
disk_laws = record {
  content = λ d. d;
  created = λ d parent_id name bytes file h. place-made d name bytes (d name) file refl h;
  create_keeps =
      λ d parent_id name bytes gid old h. place-kept d name bytes (d name) gid old refl h;
  updated = λ d gid bytes h. change_done d gid (some bytes) (d gid) h;
  update_fails = λ d gid bytes h. change_fails d gid (some bytes) (d gid) h;
  update_keeps = λ d gid bytes other n. change_keeps d gid (some bytes) (d gid) other n;
  downloaded = λ d gid bytes h. h;
  download_keeps = λ d gid other. refl;
  delete_fails = λ d gid h. change_fails d gid none (d gid) h;
  delete_keeps = λ d gid other n. change_keeps d gid none (d gid) other n;
}

-- An empty folder.
abbrev pub a_vfs : GoogleVfs Bool Disk
a_vfs = record {
  client = λ gid. none;
  gvfs_root = record { network = true; gid = [] };
  gid_cache = [];
}

pub a_vfs-IsCached : IsCached disk_laws a_vfs
unfolding get
a_vfs-IsCached = record {
  ascends = tt;
  held = λ id gid h. grind arith;
  apart = λ i j gid h k. grind arith;
  valid = λ id gid h. grind arith;
}
