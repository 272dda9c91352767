-- ===== src/Gvfs/FileId/Conversion.antt =====
-- The conversions between the two kinds of file ids (gdrive/src/gvfs_file_id.rs).
use lexe_public.Base.{
  some, List, [], ◌∷◌, ◌++◌, ◌≡◌, refl, sym, ap, ◌∙◌, inl, inr, Result, ok, err, arith, map_ok,
}
use lexe_public.Hex.{Chars}
use lexe_public.IdText.{split}
use lexe_public.IdText.Digits.{
  Lacks, split_shape, split_append, split_single, split_pair, split_nil,
}
use lexe_public.Gvfs.FileId.{
  VfsFileId, validate, validate_parts, GvfsFileId, try_from, split_once, to_vfile_id, file_id,
  FileIdError,
}

two_parts :
    (parts : List Chars)
    → validate_parts parts ≡ ok tt
    → (dirname filename : Chars) × (parts ≡ dirname ∷ filename ∷ [])
unfolding validate_parts
two_parts [] h = cc
two_parts (d ∷ []) h = cc
two_parts (d ∷ f ∷ []) h = (d, f, refl)
two_parts (d ∷ f ∷ x ∷ xs) h = cc

split_once_slash : (d f : Chars) → Lacks 47 d → split_once (d ++ 47 ∷ f) ≡ some (d, f)
unfolding split_once
split_once_slash [] f h = refl
split_once_slash (c ∷ d) f h = rw (h.0, split_once_slash d f h.1) refl

single : (xs ys : List Chars) (y b : Chars) → xs ++ (y ∷ ys) ≡ b ∷ [] → xs ≡ []
single [] ys y b h = refl
single (x ∷ []) ys y b h = cc
single (x ∷ z ∷ xs) ys y b h = cc

-- A name that is valid as a path has no slash in its directory.
valid-Lacks : (d f : Chars) → validate (d ++ 47 ∷ f) ≡ ok tt → Lacks 47 d
unfolding validate
valid-Lacks d f h =
    let (a, b, two) = two_parts (split 47 (d ++ 47 ∷ f)) h in
    let (x, xs, left) = split_shape 47 d in
    let (y, ys, right) = split_shape 47 f in
    let whole : ◌≡◌ {A = List Chars} (x ∷ (xs ++ (y ∷ ys))) (a ∷ b ∷ []) =
      ap (λ (l : List Chars). l ++ (y ∷ ys)) (sym left)
      ∙ ap (λ (l : List Chars). split 47 d ++ l) (sym right)
      ∙ sym (split_append 47 d f)
      ∙ two in
    let alone : xs ≡ [] = single xs ys y b (cc whole) in
    (split_single 47 d x (left ∙ ap (λ (l : List Chars). x ∷ l) alone)).0

validated :
    (r : Result FileIdError (Unit {0})) (f : GvfsFileId) (g : GvfsFileId)
    → map_ok (λ _. f) r ≡ ok g
    → (r ≡ ok tt) × (f ≡ g)
validated (ok tt) f g h = (refl, cc)
validated (err e) f g h = cc

-- X
pub to_vfile_id-try_from :
    (id : VfsFileId) (g : GvfsFileId) → try_from id ≡ ok g → to_vfile_id g ≡ some id
unfolding try_from to_vfile_id
to_vfile_id-try_from id g h =
    let inner = id.dir.dirname ++ 47 ∷ id.filename in
    let (valid, same) = validated (validate inner) (record { inner = inner }) g h in
    let lacks = valid-Lacks id.dir.dirname id.filename valid in
    rw (← same, split_once_slash id.dir.dirname id.filename lacks) refl

split_two_once :
    (s a b : Chars) → split 47 s ≡ a ∷ b ∷ [] → (split_once s ≡ some (a, b)) × (a ++ 47 ∷ b ≡ s)
unfolding split_once
split_two_once [] a b h = absurd (split_nil 47 a b h)
split_two_once (c ∷ s) a b h = elim (split_pair 47 c s a b h) [
  | inl (e, empty, own) ↦
      let slash : 47 ≡ c = ground arith in (rw (e, empty, own) refl, rw (empty, slash, own) refl)
  | inr (e, (first, front, more)) ↦
      let (once, whole) = split_two_once s first b more in
      rw (e, once, front) (refl, ap (λ (l : Chars). c ∷ l) whole)
]

-- A `GvfsFileId` whose text passes `validate` is converted to a `VfsFileId` without a panic,
-- and that id is converted back to it.
pub try_from-to_vfile_id :
    (g : GvfsFileId)
    → validate g.inner ≡ ok tt
    → (id : VfsFileId) × (to_vfile_id g ≡ some id) × (try_from id ≡ ok g)
unfolding try_from to_vfile_id validate
try_from-to_vfile_id g h =
    let (a, b, two) = two_parts (split 47 g.inner) h in
    let (once, whole) = split_two_once g.inner a b two in
    (file_id a b, rw once refl, rw (whole, h) refl)
