-- ===== src/Gvfs/Directory/Range.antt =====
-- The range of the cache that `get_directory` (gdrive/src/gvfs.rs) reads is that of one directory.
use Prim.Native.Nat.{Ordering}
use Prim.Native.Nat.Ordering.{lt, eq, gt}
use lexe_public.Base.{[], ◌∷◌, ◌≡◌, refl, sym, ap, ◌∙◌, inl, inr, All, All-map}
use lexe_public.Base.BTree.{Ascends, Ordering-cases}
use lexe_public.Ids.{Bytes-discrete}
use lexe_public.Hex.{Chars}
use lexe_public.Hex.Order.{lex}
use lexe_public.Gvfs.FileId.{VfsDirectory, VfsFileId, file_id, cmp_file_id}
use lexe_public.Gvfs.FileId.Laws.{file_id_order, lex_reflexive, lex_antisymmetric}
use lexe_public.Gvfs.Files.{GFileId}
use lexe_public.Gvfs.Directory.{Cached, range_from}

-- The entries of a directory.
abbrev pub in_directory : VfsDirectory → Cached → Cached
in_directory vdir [] = []
in_directory vdir (e ∷ m) = elim (Bytes-discrete e.0.dir.dirname vdir.dirname) [
  | yes same ↦ e ∷ in_directory vdir m
  | no other ↦ in_directory vdir m
]

-- The entries up to the first one of another directory.
abbrev pub while_in : VfsDirectory → Cached → Cached
while_in vdir [] = []
while_in vdir (e ∷ m) = elim (Bytes-discrete e.0.dir.dirname vdir.dirname) [
  | yes same ↦ e ∷ while_in vdir m
  | no other ↦ []
]

module _ (vdir : VfsDirectory) (e : VfsFileId × GFileId) (m : Cached) where
  in_yes : e.0.dir.dirname ≡ vdir.dirname → in_directory vdir (e ∷ m) ≡ e ∷ in_directory vdir m
  in_yes same =
      elim (Bytes-discrete e.0.dir.dirname vdir.dirname)
        as (λ x.
          elim x [ yes s ↦ e ∷ in_directory vdir m | no n ↦ in_directory vdir m ]
          ≡ e ∷ in_directory vdir m) [ yes s ↦ refl | no n ↦ elim (n same) [ ] ]

  in_no : ¬ (e.0.dir.dirname ≡ vdir.dirname) → in_directory vdir (e ∷ m) ≡ in_directory vdir m
  in_no other =
      elim (Bytes-discrete e.0.dir.dirname vdir.dirname)
        as (λ x.
          elim x [ yes s ↦ e ∷ in_directory vdir m | no n ↦ in_directory vdir m ]
          ≡ in_directory vdir m) [ yes s ↦ elim (other s) [ ] | no n ↦ refl ]

  while_yes : e.0.dir.dirname ≡ vdir.dirname → while_in vdir (e ∷ m) ≡ e ∷ while_in vdir m
  while_yes same =
      elim (Bytes-discrete e.0.dir.dirname vdir.dirname)
        as (λ x. elim x [ yes s ↦ e ∷ while_in vdir m | no n ↦ [] ] ≡ e ∷ while_in vdir m) [
          | yes s ↦ refl
          | no n ↦ elim (n same) [ ]
        ]

  while_no : ¬ (e.0.dir.dirname ≡ vdir.dirname) → while_in vdir (e ∷ m) ≡ []
  while_no other =
      elim (Bytes-discrete e.0.dir.dirname vdir.dirname)
        as (λ x. elim x [ yes s ↦ e ∷ while_in vdir m | no n ↦ [] ] ≡ []) [
          | yes s ↦ elim (other s) [ ]
          | no n ↦ refl
        ]

module _ (e : VfsFileId × GFileId) (m : Cached) where
  range_drop :
      (lower_bound : VfsFileId)
      → cmp_file_id e.0 lower_bound ≡ lt
      → range_from lower_bound (e ∷ m) ≡ range_from lower_bound m
  unfolding range_from
  range_drop lower_bound h = rw h refl

  range_keep :
      (lower_bound : VfsFileId)
      → ¬ (cmp_file_id e.0 lower_bound ≡ lt)
      → range_from lower_bound (e ∷ m) ≡ e ∷ range_from lower_bound m
  unfolding range_from
  range_keep lower_bound h = elim (Ordering-cases (cmp_file_id e.0 lower_bound)) [
    | inl below ↦ elim (h below) [ ]
    | inr (inl same) ↦ rw same refl
    | inr (inr above) ↦ rw above refl
  ]

lex_nil : (s : Chars) → ¬ (lex s [] ≡ lt)
lex_nil [] h = cc
lex_nil (c ∷ s) h = cc

below_or_not : (x : Ordering) → Dec (x ≡ lt)
below_or_not lt = yes refl
below_or_not eq = no (λ h. cc)
below_or_not gt = no (λ h. cc)

-- A file of the directory is not below the bound.
bound_below :
    (id : VfsFileId) (dirname : Chars)
    → id.dir.dirname ≡ dirname
    → ¬ (cmp_file_id id (file_id dirname []) ≡ lt)
unfolding cmp_file_id
bound_below id dirname same h =
    let r : lex id.dir.dirname dirname ≡ eq = rw same (lex_reflexive dirname) in
    lex_nil id.filename (rw r at h)

-- Behind a file of a later directory there is no file of the directory.
later_dir :
    (id next : VfsFileId) (dirname : Chars)
    → ¬ (id.dir.dirname ≡ dirname)
    → ¬ (cmp_file_id id (file_id dirname []) ≡ lt)
    → cmp_file_id id next ≡ lt
    → ¬ (next.dir.dirname ≡ dirname)
unfolding cmp_file_id
later_dir id next dirname other above h same = elim (Ordering-cases (lex id.dir.dirname dirname)) [
  | inl below ↦ above (rw below refl)
  | inr (inl equal) ↦ other (lex_antisymmetric id.dir.dirname dirname equal)
  | inr (inr greater) ↦
      let r : lex id.dir.dirname next.dir.dirname ≡ gt = rw same greater in cc (rw r at h)
]

in_none :
    (vdir : VfsDirectory) (m : Cached)
    → All (λ (e : VfsFileId × GFileId). ¬ (e.0.dir.dirname ≡ vdir.dirname)) m
    → in_directory vdir m ≡ []
in_none vdir [] h = refl
in_none vdir (e ∷ m) h = in_no vdir e m h.0 ∙ in_none vdir m h.1

-- The loop over the range sees the entries of the directory.
pub while_in-range :
    (vdir : VfsDirectory) (m : Cached)
    → Ascends file_id_order m
    → while_in vdir (range_from (file_id vdir.dirname []) m) ≡ in_directory vdir m
unfolding range_from file_id_order
while_in-range vdir [] a = refl
while_in-range vdir (e ∷ m) a =
    let lower_bound = file_id vdir.dirname [] in
    let rest = while_in-range vdir m a.1 in
    elim (Bytes-discrete e.0.dir.dirname vdir.dirname) [
      | yes same ↦
          ap (while_in vdir) (range_keep e m lower_bound (bound_below e.0 vdir.dirname same))
          ∙ while_yes vdir e (range_from lower_bound m) same
          ∙ ap (λ (l : Cached). e ∷ l) rest
          ∙ sym (in_yes vdir e m same)
      | no other ↦ elim (below_or_not (cmp_file_id e.0 lower_bound)) [
        | yes below ↦
            ap (while_in vdir) (range_drop e m lower_bound below)
            ∙ rest
            ∙ sym (in_no vdir e m other)
        | no above ↦
            ap (while_in vdir) (range_keep e m lower_bound above)
            ∙ while_no vdir e (range_from lower_bound m) other
            ∙ sym (
                in_no vdir e m other
                ∙ in_none vdir m
                    (All-map m (λ x h. later_dir e.0 x.0 vdir.dirname other above h) a.0))
      ]
    ]
