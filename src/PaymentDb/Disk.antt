-- ===== src/PaymentDb/Disk.antt =====
-- `PaymentDb::read`, `PaymentDb::delete` and `PaymentDbState::read` (app-rs/src/payments.rs). The
-- directory is a parameter: the names of its files, what reading and deserializing a file gives, and the
-- deletion of all files, with an answer `false` for an error.
pub mod Reading
use lexe_public.Base.{
  ℕ, Bool, true, false, Option, none, some, List, [], ◌∷◌, Result, ok, err, ◌>>=◌, ◌>>◌, ensure,
  context, ite,
}
use lexe_public.Ids.{PaymentIndex}
use lexe_public.Hex.{Chars}
use lexe_public.IdText.{TxidText}
use lexe_public.IdText.Index.{index_from_str}
use lexe_public.PaymentDb.Basic.{BasicPayment, Descriptions}
use lexe_public.PaymentDb.Bitmap.{Bitmap}
use lexe_public.PaymentDb.State.{DbState, PaymentIndex-discrete, empty}
use lexe_public.PaymentDb.Storage.{PaymentDb}
use lexe_public.PaymentDb.Build.{from_unsorted_vec}

pub data FileError : Type 0 where
  unreadable : FileError
  not_deserialized : FileError

-- `build_panicked` is the panic of an `expect` in `from_unsorted_vec`.
pub data ReadError : Type 0 where
  directory_error : ReadError
  file_error : FileError → ReadError
  contents_mismatch : ReadError
  build_panicked : ReadError

pub record Directory (Invoice D : Type 0) : Type 0 where
  pub filenames : D → Option (List Chars)
  pub contents : D → Chars → Result FileError (BasicPayment Invoice)
  pub delete_all : D → D × Bool

module _ {Invoice D : Type 0} (text : TxidText) (dir : Directory Invoice D) where
  of_file : Result FileError (BasicPayment Invoice) → Result ReadError (BasicPayment Invoice)
  of_file (ok p) = ok p
  of_file (err e) = err (file_error e)

  -- A file whose name is an index.
  unfoldable pub read_file : D → Chars → PaymentIndex → Result ReadError (BasicPayment Invoice)
  unfolding of_file
  read_file d filename payment_index = do
    payment ← of_file (dir.contents d filename)
    ensure (ite (PaymentIndex-discrete payment.index payment_index) true false) contents_mismatch
    ok payment

  -- The visitor, from file to file; files with other names are skipped.
  unfoldable pub read_files : D → List Chars → Result ReadError (List (BasicPayment Invoice))
  unfolding read_file
  read_files d [] = ok []
  read_files d (filename ∷ filenames) =
      let rest = read_files d filenames in
      elim (index_from_str text filename) [
        | err _ ↦ rest
        | ok payment_index ↦ do
          payment ← read_file d filename payment_index
          payments ← rest
          ok (payment ∷ payments)
      ]

module _ {Invoice B D : Type 0} (bm : Bitmap B) (descriptions : Descriptions Invoice)
    (text : TxidText) (dir : Directory Invoice D) where
  unfoldable pub read_state : D → Result ReadError (DbState Invoice B)
  read_state d = do
    filenames ← context (dir.filenames d) directory_error
    payments ← read_files text dir d filenames
    context (from_unsorted_vec bm descriptions payments) build_panicked

  unfoldable pub read : D → Result ReadError (PaymentDb Invoice B D)
  read d = do state ← read_state d; ok record { ffs = d; state = state }

  unfoldable pub delete : PaymentDb Invoice B D → PaymentDb Invoice B D × Bool
  delete db =
      let (disk, deleted) = dir.delete_all db.ffs in
      (record { ffs = disk; state = empty bm }, deleted)
