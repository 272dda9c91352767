-- ===== src/Gvfs/Cache/Changes.antt =====
-- The changes that the operations of `GoogleVfs` (gdrive/src/gvfs.rs) make to the cache and to the drive.
use lexe_public.Base.{
  Option, none, some, List, ◌≡◌, refl, sym, ap, ◌∙◌, inl, inr, ◌⊎◌, ok, some_inj,
}
use mathlib.Core.Path.{fun_ext}
use lexe_public.Base.BTree.{
  get, insert, remove, Ascends, get-insert, get-insert_other, get-remove, get-remove_other,
  Ascends-insert, Ascends-remove,
}
use lexe_public.Base.Updates.{update, update_self, update_other, same_or_not}
use lexe_public.Ids.{Bytes, Bytes-discrete}
use lexe_public.Gvfs.FileId.{VfsFileId, GvfsFileId, try_from}
use lexe_public.Gvfs.FileId.Laws.{file_id_order}
use lexe_public.Gvfs.Files.{GFileId, Drive, GoogleVfs}
use lexe_public.Gvfs.Cache.{DriveLaws, IsCached, view, read_cached}

pub Option-cases : {A : Type 0} (o : Option A) → (o ≡ none) ⊎ ((a : A) × (o ≡ some a))
Option-cases none = inl refl
Option-cases (some a) = inr (a, refl)

-- What a lookup finds after an insertion, and after a removal.
after_insert :
    (id : VfsFileId) (gid : GFileId) (m : List (VfsFileId × GFileId)) (i : VfsFileId) (k : GFileId)
    → get file_id_order i (insert file_id_order id gid m) ≡ some k
    → (i ≡ id) × (k ≡ gid) ⊎ ((¬ (i ≡ id)) × (get file_id_order i m ≡ some k))
after_insert id gid m i k h = elim (same_or_not file_id_order i id) [
  | inl e ↦
      let found : get file_id_order id (insert file_id_order id gid m) ≡ some k = rw e at h in
      inl (e, some_inj (sym found ∙ get-insert file_id_order id gid m))
  | inr n ↦ inr (n, sym (get-insert_other file_id_order i id gid m n) ∙ h)
]

after_remove :
    (id : VfsFileId) (m : List (VfsFileId × GFileId)) (i : VfsFileId) (k : GFileId)
    → Ascends file_id_order m
    → get file_id_order i (remove file_id_order id m) ≡ some k
    → (¬ (i ≡ id)) × (get file_id_order i m ≡ some k)
after_remove id m i k a h = elim (same_or_not file_id_order i id) [
  | inl e ↦
      let found : get file_id_order id (remove file_id_order id m) ≡ some k = rw e at h in
      cc (found, get-remove file_id_order id m a)
  | inr n ↦ (n, sym (get-remove_other file_id_order i id m a n) ∙ h)
]

module _ {Network D : Type 0} {drive : Drive D} (laws : DriveLaws drive) where
  -- A request that leaves what is stored.
  pub keep-IsCached :
      (g : GoogleVfs Network D) (d : D)
      → IsCached laws g
      → ((gid : GFileId) (old : Bytes)
          → laws.content g.client gid ≡ some old
          → laws.content d gid ≡ some old)
      → (view laws (record g { client = d }) ≡ view laws g)
        × IsCached laws (record g { client = d })
  unfolding view read_cached
  keep-IsCached g d c keeps = (
    fun_ext (λ i. elim (Option-cases (get file_id_order i g.gid_cache)) [
      | inl e ↦ rw e refl
      | inr (gid, e) ↦ let (bytes, h) = c.held i gid e in rw e (keeps gid bytes h ∙ sym h)
    ]),
    record {
      ascends = c.ascends;
      held = λ i gid e. let (bytes, h) = c.held i gid e in (bytes, keeps gid bytes h);
      apart = c.apart;
      valid = c.valid;
    },
  )

  -- A file that is new in the drive goes into the cache.
  pub insert-IsCached :
      (g : GoogleVfs Network D) (d : D) (id : VfsFileId) (gid : GFileId) (bytes : Bytes)
      (gvfile_id : GvfsFileId)
      → IsCached laws g
      → try_from id ≡ ok gvfile_id
      → laws.content g.client gid ≡ none
      → laws.content d gid ≡ some bytes
      → ((other : GFileId) (old : Bytes)
          → laws.content g.client other ≡ some old
          → laws.content d other ≡ some old)
      → (view laws (record g { client = d; gid_cache = insert file_id_order id gid g.gid_cache })
          ≡ update file_id_order (view laws g) id (some bytes))
        × IsCached laws
            (record g { client = d; gid_cache = insert file_id_order id gid g.gid_cache })
  unfolding view read_cached
  insert-IsCached g d id gid bytes gvfile_id c name fresh there keeps =
      let o = file_id_order in
      let new_self = get-insert o id gid g.gid_cache in
      (
        fun_ext (λ i. elim (same_or_not o i id) [
          | inl e ↦ rw (e, new_self, update_self o (view laws g) id (some bytes)) there
          | inr n ↦
              rw
                (
                  get-insert_other o i id gid g.gid_cache n,
                  update_other o (view laws g) id (some bytes) i n,
                )
                (ap (λ (f : VfsFileId → Option Bytes). f i) (keep-IsCached g d c keeps).0)
        ]),
        record {
          ascends = Ascends-insert o id gid g.gid_cache c.ascends;
          held = λ i k e. elim (after_insert id gid g.gid_cache i k e) [
            | inl (is_new, same) ↦ (bytes, rw same there)
            | inr (n, old) ↦ let (kept, h) = c.held i k old in (kept, keeps k kept h)
          ];
          apart = λ i j k e f. elim (after_insert id gid g.gid_cache i k e) [
            | inl (i_new, same) ↦ elim (after_insert id gid g.gid_cache j k f) [
              | inl (j_new, again) ↦ i_new ∙ sym j_new
              | inr (n, old) ↦ let (kept, h) = c.held j k old in cc
            ]
            | inr (n, old) ↦ elim (after_insert id gid g.gid_cache j k f) [
              | inl (j_new, again) ↦ let (kept, h) = c.held i k old in cc
              | inr (m, other) ↦ c.apart i j k old other
            ]
          ];
          valid = λ i k e. elim (after_insert id gid g.gid_cache i k e) [
            | inl (is_new, same) ↦ (gvfile_id, rw is_new name)
            | inr (n, old) ↦ c.valid i k old
          ];
        },
      )

  -- The bytes of a cached file change.
  pub change-IsCached :
      (g : GoogleVfs Network D) (d : D) (id : VfsFileId) (gid : GFileId) (bytes : Bytes)
      → IsCached laws g
      → get file_id_order id g.gid_cache ≡ some gid
      → laws.content d gid ≡ some bytes
      → ((other : GFileId) → ¬ (other ≡ gid) → laws.content d other ≡ laws.content g.client other)
      → (view laws (record g { client = d }) ≡ update file_id_order (view laws g) id (some bytes))
        × IsCached laws (record g { client = d })
  unfolding view read_cached
  change-IsCached g d id gid bytes c cached there keeps =
      let o = file_id_order in
      (
        fun_ext (λ i. elim (same_or_not o i id) [
          | inl e ↦ rw (e, cached, update_self o (view laws g) id (some bytes)) there
          | inr n ↦ elim (Option-cases (get o i g.gid_cache)) [
            | inl none_there ↦
                rw (update_other o (view laws g) id (some bytes) i n, none_there) refl
            | inr (k, found) ↦
                let other : ¬ (k ≡ gid) = λ s. n (c.apart i id gid (rw s at found) cached) in
                rw (update_other o (view laws g) id (some bytes) i n, found) (keeps k other)
          ]
        ]),
        record {
          ascends = c.ascends;
          held = λ i k e. elim (Bytes-discrete k gid) [
            | yes s ↦ (bytes, rw s there)
            | no n ↦ let (kept, h) = c.held i k e in (kept, keeps k n ∙ h)
          ];
          apart = c.apart;
          valid = c.valid;
        },
      )

  -- A cached file leaves the cache.
  pub remove-IsCached :
      (g : GoogleVfs Network D) (d : D) (id : VfsFileId) (gid : GFileId)
      → IsCached laws g
      → get file_id_order id g.gid_cache ≡ some gid
      → ((other : GFileId) → ¬ (other ≡ gid) → laws.content d other ≡ laws.content g.client other)
      → (view laws (record g { client = d; gid_cache = remove file_id_order id g.gid_cache })
          ≡ update file_id_order (view laws g) id none)
        × IsCached laws (record g { client = d; gid_cache = remove file_id_order id g.gid_cache })
  unfolding view read_cached
  remove-IsCached g d id gid c cached keeps =
      let o = file_id_order in
      let other : (i : VfsFileId) (k : GFileId)
          → ¬ (i ≡ id)
          → get o i g.gid_cache ≡ some k
          → ¬ (k ≡ gid) =
        λ i k n found s. n (c.apart i id gid (rw s at found) cached) in
      (
        fun_ext (λ i. elim (same_or_not o i id) [
          | inl e ↦
              rw (e, get-remove o id g.gid_cache c.ascends, update_self o (view laws g) id none)
                refl
          | inr n ↦ elim (Option-cases (get o i g.gid_cache)) [
            | inl none_there ↦
                rw
                  (
                    get-remove_other o i id g.gid_cache c.ascends n,
                    update_other o (view laws g) id none i n,
                    none_there,
                  )
                  refl
            | inr (k, found) ↦
                rw
                  (
                    get-remove_other o i id g.gid_cache c.ascends n,
                    update_other o (view laws g) id none i n,
                    found,
                  )
                  (keeps k (other i k n found))
          ]
        ]),
        record {
          ascends = Ascends-remove o id g.gid_cache c.ascends;
          held = λ i k e.
              let (n, old) = after_remove id g.gid_cache i k c.ascends e in
              let (kept, h) = c.held i k old in (kept, keeps k (other i k n old) ∙ h);
          apart = λ i j k e f.
              c.apart i j k (after_remove id g.gid_cache i k c.ascends e).1
                (after_remove id g.gid_cache j k c.ascends f).1;
          valid = λ i k e. c.valid i k (after_remove id g.gid_cache i k c.ascends e).1;
        },
      )
