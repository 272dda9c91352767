-- ===== src/Gvfs/FileId.antt =====
-- `VfsFileId` (common/src/api/vfs.rs) with its derived order, and `GvfsFileId` (gdrive/src/gvfs_file_id.rs).
-- The code of `/` is 47.
pub mod Laws
pub mod Conversion
use Prim.Native.Nat.{Ordering}
use Prim.Native.Nat.Ordering.{lt, eq, gt}
use lexe_public.Base.{
  ℕ, Bool, true, false, Option, none, some, List, [], ◌∷◌, ◌++◌, ◌≡◌, refl, Result, ok, err, ◌==◌,
  if◌then◌else◌, map_ok, map_option, arith,
}
use lexe_public.Base.BTree.{Order}
use lexe_public.Hex.{Chars}
use lexe_public.Hex.Order.{then_with, lex}
use lexe_public.IdText.{split}

pub record VfsDirectory : Type 0 where
  pub dirname : Chars

pub record VfsFileId : Type 0 where
  pub dir : VfsDirectory
  pub filename : Chars

-- `VfsFileId::new`
abbrev pub file_id : Chars → Chars → VfsFileId
file_id dirname filename = record { dir = record { dirname = dirname }; filename = filename }

-- By the directory's name, and then by the file's.
unfoldable pub cmp_file_id : VfsFileId → VfsFileId → Ordering
cmp_file_id a b = then_with (lex a.dir.dirname b.dir.dirname) (lex a.filename b.filename)

pub data FileIdError : Type 0 where
  no_slash more_than_one_slash empty_dirname empty_filename : FileIdError

is_empty : Chars → Bool
is_empty [] = true
is_empty (c ∷ s) = false

-- What `validate` tests of the parts between slashes.
validate_parts : List Chars → Result FileIdError (Unit {0})
unfolding is_empty
validate_parts [] = err no_slash
validate_parts (dirname ∷ []) = err no_slash
validate_parts (dirname ∷ filename ∷ []) =
    if is_empty dirname
    then err empty_dirname
    else if is_empty filename
    then err empty_filename
    else ok tt
validate_parts (dirname ∷ filename ∷ extra ∷ parts) = err more_than_one_slash

unfoldable pub validate : Chars → Result FileIdError (Unit {0})
unfolding validate_parts
validate s = validate_parts (split 47 s)

pub record GvfsFileId : Type 0 where
  pub inner : Chars

unfoldable pub gvfs_from_str : Chars → Result FileIdError GvfsFileId
gvfs_from_str s = map_ok (λ _. record { inner = s }) (validate s)

unfoldable pub try_from : VfsFileId → Result FileIdError GvfsFileId
try_from id =
    let inner = id.dir.dirname ++ 47 ∷ id.filename in
    map_ok (λ _. record { inner = inner }) (validate inner)

-- `str::split_once` at a slash.
unfoldable pub split_once : Chars → Option (Chars × Chars)
split_once [] = none
split_once (c ∷ s) =
    let rest = map_option (λ (p : Chars × Chars). (c ∷ p.0, p.1)) (split_once s) in
    if c == 47 then some ([], s) else rest

-- `none` is the panic of a broken invariant.
unfoldable pub to_vfile_id : GvfsFileId → Option VfsFileId
to_vfile_id g = map_option (λ (p : Chars × Chars). file_id p.0 p.1) (split_once g.inner)
