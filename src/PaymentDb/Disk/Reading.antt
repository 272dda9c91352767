-- ===== src/PaymentDb/Disk/Reading.antt =====
-- What `PaymentDbState::read` makes of a directory (app-rs/src/payments.rs).
use lexe_public.Base.{
  ◌≤◌, Bool, true, false, some, List, [], ◌∷◌, ◌≡◌, refl, sym, ◌∙◌, ap, length, All, ok, err,
  Result-cases, inl, inr, ite, if_pos, arith,
}
use lexe_public.Ids.{PaymentIndex}
use lexe_public.Hex.{Chars}
use lexe_public.IdText.{TxidText}
use lexe_public.IdText.Index.{IndexError, index_from_str}
use lexe_public.PaymentDb.Basic.{BasicPayment, Descriptions}
use lexe_public.PaymentDb.Bitmap.{Bitmap, BitmapLaws}
use lexe_public.PaymentDb.State.{DbState, PaymentIndex-discrete}
use lexe_public.PaymentDb.Invariant.{IsConsistent}
use lexe_public.PaymentDb.Indexes.{u32_limit}
use lexe_public.PaymentDb.Build.Sorting.{has_index}
use lexe_public.PaymentDb.Build.Indexed.{from_unsorted_vec-IsConsistent}
use lexe_public.PaymentDb.Disk.{Directory, of_file, read_file, read_files, read_state}

module _ {Invoice D : Type 0} (text : TxidText) (dir : Directory Invoice D) where
  -- A file that is named by an index holds a payment of that index.
  abbrev pub Holds : D → Chars → Type 0
  Holds d filename =
      (i : PaymentIndex)
      → index_from_str text filename ≡ ok i
      → (p : BasicPayment Invoice) × (dir.contents d filename ≡ ok p) × (p.index ≡ i)

  -- Whether a file is named by the index.
  pub has_file : PaymentIndex → List Chars → Bool
  has_file i [] = false
  has_file i (filename ∷ filenames) = elim (index_from_str text filename) [
    | err _ ↦ has_file i filenames
    | ok j ↦ ite (PaymentIndex-discrete j i) true (has_file i filenames)
  ]

  read_file-Holds :
      (d : D) (filename : Chars) (p : BasicPayment Invoice)
      → dir.contents d filename ≡ ok p
      → read_file text dir d filename p.index ≡ ok p
  unfolding read_file of_file
  read_file-Holds d filename p h =
      rw (read_file, h, if_pos (PaymentIndex-discrete p.index p.index) refl true false) refl

  has_file-skip :
      (i : PaymentIndex) (filename : Chars) (filenames : List Chars) (e : IndexError)
      → index_from_str text filename ≡ err e
      → has_file i (filename ∷ filenames) ≡ has_file i filenames
  unfolding has_file
  has_file-skip i filename filenames e named = rw (has_file, named) refl

  has_file-named :
      (i : PaymentIndex) (filename : Chars) (filenames : List Chars) (j : PaymentIndex)
      → index_from_str text filename ≡ ok j
      → has_file i (filename ∷ filenames)
        ≡ ite (PaymentIndex-discrete j i) true (has_file i filenames)
  unfolding has_file
  has_file-named i filename filenames j named = rw (has_file, named) refl

  read_files-Holds :
      (d : D) (filenames : List Chars)
      → All (Holds d) filenames
      → (ps : List (BasicPayment Invoice)) × (read_files text dir d filenames ≡ ok ps)
        × (length ps ≤ length filenames)
        × ((i : PaymentIndex) → has_index i ps ≡ has_file i filenames)
  unfolding read_files has_index has_file
  read_files-Holds d [] h = ([], refl, omega arith, λ i. refl)
  read_files-Holds d (filename ∷ filenames) h =
      let (ps, rest, fewer, same) = read_files-Holds d filenames h.1 in
      elim (Result-cases (index_from_str text filename)) [
        | inr (e, named) ↦
            rw (read_files, named)
              (
                ps,
                rest,
                omega (arith, fewer),
                λ i. same i ∙ sym (has_file-skip i filename filenames e named),
              )
        | inl (j, named) ↦
            let (p, contents, key) = h.0 j named in
            let file : read_file text dir d filename j ≡ ok p =
              ap (read_file text dir d filename) (sym key)
              ∙ read_file-Holds d filename p contents in
            (
              p ∷ ps,
              rw (read_files, named, file, rest) refl,
              omega (arith, fewer),
              λ i.
                  ap (λ k. ite (PaymentIndex-discrete k i) true (has_index i ps)) key
                  ∙ ap (λ b. ite (PaymentIndex-discrete j i) true b) (same i)
                  ∙ sym (has_file-named i filename filenames j named),
            )
      ]

module _ {Invoice B D : Type 0} (bm : Bitmap B) (laws : BitmapLaws bm)
    (descriptions : Descriptions Invoice) (text : TxidText) (dir : Directory Invoice D) where
  -- If the directory has at most 2^32 files, and each that is named by a payment index holds
  -- a payment of that index, then reading it succeeds with a consistent state, which has a
  -- payment of an index just when a file is named by the index.
  pub read_state-IsConsistent :
      (d : D) (filenames : List Chars)
      → dir.filenames d ≡ some filenames
      → All (Holds text dir d) filenames
      → length filenames ≤ u32_limit
      → (s : DbState Invoice B) × (read_state bm descriptions text dir d ≡ ok s)
        × IsConsistent bm descriptions s
        × ((i : PaymentIndex) → has_index i s.payments ≡ has_file text dir i filenames)
  unfolding read_state
  read_state-IsConsistent d filenames named holds small =
      let (ps, files, fewer, same) = read_files-Holds text dir d filenames holds in
      let (s, built, sound, has) =
        from_unsorted_vec-IsConsistent bm laws descriptions ps (omega (arith, fewer)) in
      (s, rw (read_state, named, files, built) refl, sound, λ i. has i ∙ same i)
