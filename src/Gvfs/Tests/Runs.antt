-- ===== src/Gvfs/Tests/Runs.antt =====
-- Files on a concrete drive, and the theorems at those inputs.
use lexe_public.Base.{Bool, some, List, [], ◌∷◌, ◌≡◌, refl, ok, err, map_ok, ℕ_discrete}
use lexe_public.Base.BTree.{get, insert}
use lexe_public.IdText.{split}
use lexe_public.Ids.{Bytes-discrete}
use lexe_public.Gvfs.FileId.{
  VfsFileId, GvfsFileId, file_id, try_from, to_vfile_id, validate, empty_filename, VfsDirectory,
  split_once, cmp_file_id,
}
use lexe_public.Gvfs.FileId.Conversion.{to_vfile_id-try_from, try_from-to_vfile_id}
use lexe_public.Gvfs.Files.{GoogleVfs, create_file, upload, uploaded}
use lexe_public.Gvfs.Cache.{IsCached, view}
use lexe_public.Gvfs.Cache.Calls.{VfsOp, get_op, create_op, upsert_op, delete_op, call}
use lexe_public.Gvfs.Cache.Calls.Answers.{call-Answers}
use lexe_public.Gvfs.FileId.Laws.{file_id_order}
use lexe_public.Gvfs.Directory.{get_directory, collect_subdir, range_from, listed, download_all}
use lexe_public.Gvfs.Directory.Listing.{Lists, get_directory-Lists, file_ids}
use lexe_public.Gvfs.Cache.Calls.Histories.{AllAnswer, calls-AllAnswer}
use lexe_public.Gvfs.Tests.{Disk, disk, disk_laws, a_vfs, a_vfs-IsCached}

-- `a/b`, and a file without a name.
abbrev a_b : VfsFileId
a_b = file_id (97 ∷ []) (98 ∷ [])

abbrev nameless : VfsFileId
nameless = file_id (97 ∷ []) []

abbrev calls : List VfsOp
calls =
    create_op record { id = a_b; bytes = 1 ∷ [] }
    ∷ create_op record { id = a_b; bytes = 2 ∷ [] }
    ∷ upsert_op record { id = a_b; bytes = 3 ∷ [] }
    ∷ get_op a_b
    ∷ create_op record { id = nameless; bytes = [] }
    ∷ delete_op a_b
    ∷ delete_op a_b
    ∷ get_op a_b
    ∷ []

calls-AllAnswer_example : AllAnswer disk_laws calls a_vfs
calls-AllAnswer_example = calls-AllAnswer disk_laws calls a_vfs a_vfs-IsCached

abbrev a_gvfile_id : GvfsFileId
a_gvfile_id = record { inner = 97 ∷ 47 ∷ 98 ∷ [] }

to_vfile_id-try_from_example : to_vfile_id a_gvfile_id ≡ some a_b
unfolding try_from validate split
to_vfile_id-try_from_example = to_vfile_id-try_from a_b a_gvfile_id refl

nameless_refused : try_from nameless ≡ err empty_filename
unfolding try_from validate split
nameless_refused = refl

try_from-to_vfile_id_example :
    (id : VfsFileId) × (to_vfile_id a_gvfile_id ≡ some id) × (try_from id ≡ ok a_gvfile_id)
unfolding validate split
try_from-to_vfile_id_example = try_from-to_vfile_id a_gvfile_id refl

-- The drive after `a/c`, `ab/b` and `a/b` were created.
abbrev with_ac : GoogleVfs Bool Disk
with_ac =
    (call disk (create_op record { id = file_id (97 ∷ []) (99 ∷ []); bytes = 1 ∷ [] }) a_vfs).0

abbrev with_ab : GoogleVfs Bool Disk
with_ab =
    (call disk (create_op record { id = file_id (97 ∷ 98 ∷ []) (98 ∷ []); bytes = 2 ∷ [] })
      with_ac).0

abbrev three_files : GoogleVfs Bool Disk
three_files = (call disk (create_op record { id = a_b; bytes = 3 ∷ [] }) with_ab).0

with_ac-IsCached : IsCached disk_laws with_ac
with_ac-IsCached =
    (call-Answers disk_laws (create_op record { id = file_id (97 ∷ []) (99 ∷ []); bytes = 1 ∷ [] })
      a_vfs a_vfs-IsCached).1

with_ab-IsCached : IsCached disk_laws with_ab
with_ab-IsCached =
    (call-Answers disk_laws
      (create_op record { id = file_id (97 ∷ 98 ∷ []) (98 ∷ []); bytes = 2 ∷ [] }) with_ac
      with_ac-IsCached).1

three_files-IsCached : IsCached disk_laws three_files
three_files-IsCached =
    (call-Answers disk_laws (create_op record { id = a_b; bytes = 3 ∷ [] }) with_ab
      with_ab-IsCached).1

abbrev directory_a : VfsDirectory
directory_a = record { dirname = 97 ∷ [] }

get_directory-Lists_example :
    Lists disk_laws directory_a three_files (get_directory disk directory_a three_files).1
    × (view disk_laws (get_directory disk directory_a three_files).0 ≡ view disk_laws three_files)
    × IsCached disk_laws (get_directory disk directory_a three_files).0
get_directory-Lists_example =
    get_directory-Lists disk_laws directory_a three_files (λ h. cc) three_files-IsCached

directory_a_files :
    map_ok file_ids (get_directory disk directory_a three_files).1
    ≡ ok (a_b ∷ file_id (97 ∷ []) (99 ∷ []) ∷ [])
unfolding get_directory collect_subdir range_from listed download_all call create_file upload
    uploaded get insert cmp_file_id file_id_order try_from validate split to_vfile_id split_once
    Bytes-discrete ℕ_discrete
directory_a_files = refl
