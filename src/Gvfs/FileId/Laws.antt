-- ===== src/Gvfs/FileId/Laws.antt =====
-- The order of file ids (common/src/api/vfs.rs) is a total order.
use Prim.Native.Nat.Ordering.{lt, eq, gt}
use lexe_public.Base.{[], ◌∷◌, ◌≡◌, refl, arith}
use lexe_public.Base.BTree.{Order}
use lexe_public.Hex.{Chars}
use lexe_public.Hex.Order.{then_with, lex}
use lexe_public.Gvfs.FileId.{VfsFileId, cmp_file_id}

pub lex_reflexive : (s : Chars) → lex s s ≡ eq
unfolding lex then_with
lex_reflexive [] = refl
lex_reflexive (c ∷ s) = ground (arith, lex_reflexive s)

pub lex_antisymmetric : (s t : Chars) → lex s t ≡ eq → s ≡ t
unfolding lex then_with
lex_antisymmetric [] [] h = refl
lex_antisymmetric [] (d ∷ t) h = cc
lex_antisymmetric (c ∷ s) [] h = cc
lex_antisymmetric (c ∷ s) (d ∷ t) h = ground (arith, lex_antisymmetric s t)

lex_below : (s t : Chars) → lex s t ≡ gt → lex t s ≡ lt
unfolding lex then_with
lex_below [] [] h = cc
lex_below [] (d ∷ t) h = cc
lex_below (c ∷ s) [] h = refl
lex_below (c ∷ s) (d ∷ t) h = ground (arith, lex_below s t)

lex_above : (s t : Chars) → lex s t ≡ lt → lex t s ≡ gt
unfolding lex then_with
lex_above [] [] h = cc
lex_above [] (d ∷ t) h = refl
lex_above (c ∷ s) [] h = cc
lex_above (c ∷ s) (d ∷ t) h = ground (arith, lex_above s t)

lex_transitive : (s t u : Chars) → lex s t ≡ lt → lex t u ≡ lt → lex s u ≡ lt
unfolding lex then_with
lex_transitive [] [] u h k = cc
lex_transitive [] (d ∷ t) [] h k = cc
lex_transitive [] (d ∷ t) (e ∷ u) h k = refl
lex_transitive (c ∷ s) [] u h k = cc
lex_transitive (c ∷ s) (d ∷ t) [] h k = cc
lex_transitive (c ∷ s) (d ∷ t) (e ∷ u) h k = ground (arith, lex_transitive s t u)

pub file_id_reflexive : (a : VfsFileId) → cmp_file_id a a ≡ eq
unfolding cmp_file_id
file_id_reflexive a = rw (lex_reflexive a.dir.dirname, lex_reflexive a.filename) refl

module _ (a b : VfsFileId) where
  pub file_id_antisymmetric : cmp_file_id a b ≡ eq → a ≡ b
  unfolding cmp_file_id then_with
  file_id_antisymmetric h = ground (
    arith,
    lex_antisymmetric a.dir.dirname b.dir.dirname,
    lex_antisymmetric a.filename b.filename,
  )

  pub file_id_below : cmp_file_id a b ≡ gt → cmp_file_id b a ≡ lt
  unfolding cmp_file_id then_with
  file_id_below h = ground (
    arith,
    lex_below a.dir.dirname b.dir.dirname,
    lex_below a.filename b.filename,
    lex_antisymmetric a.dir.dirname b.dir.dirname,
    lex_reflexive a.dir.dirname,
  )

  pub file_id_above : cmp_file_id a b ≡ lt → cmp_file_id b a ≡ gt
  unfolding cmp_file_id then_with
  file_id_above h = ground (
    arith,
    lex_above a.dir.dirname b.dir.dirname,
    lex_above a.filename b.filename,
    lex_antisymmetric a.dir.dirname b.dir.dirname,
    lex_reflexive a.dir.dirname,
  )

pub file_id_transitive :
    (a b c : VfsFileId) → cmp_file_id a b ≡ lt → cmp_file_id b c ≡ lt → cmp_file_id a c ≡ lt
unfolding cmp_file_id then_with
file_id_transitive a b c h k = ground (
  arith,
  lex_transitive a.dir.dirname b.dir.dirname c.dir.dirname,
  lex_transitive a.filename b.filename c.filename,
  lex_antisymmetric a.dir.dirname b.dir.dirname,
  lex_antisymmetric b.dir.dirname c.dir.dirname,
  lex_reflexive a.dir.dirname,
)

-- By the directory's name, and then by the file's.
unfoldable pub file_id_order : Order VfsFileId
file_id_order = record {
  cmp = cmp_file_id;
  reflexive = file_id_reflexive;
  antisymmetric = file_id_antisymmetric;
  below = file_id_below;
  above = file_id_above;
  transitive = file_id_transitive;
}
