-- ===== src/PaymentDb/Storage.antt =====
-- `Ffs` (app-rs/src/ffs.rs) as `PaymentDb` uses it, a parameter: an answer `false` is an `io::Error`,
-- after which the files may be in any state. `PaymentDb::write_payment` names the file after the
-- payment's index.
use lexe_public.Base.{Bool, true, List, [], ◌∷◌, ◌&&◌}
use lexe_public.Ids.{PaymentIndex}
use lexe_public.PaymentDb.Basic.{BasicPayment}
use lexe_public.PaymentDb.State.{DbState}

pub record Ffs (Invoice D : Type 0) : Type 0 where
  pub write : D → PaymentIndex → BasicPayment Invoice → D × Bool

pub record PaymentDb (Invoice B D : Type 0) : Type 0 where
  pub ffs : D
  pub state : DbState Invoice B

module _ {Invoice D : Type 0} (ffs : Ffs Invoice D) where
  unfoldable pub write_payment : D → BasicPayment Invoice → D × Bool
  write_payment d p = ffs.write d p.index p

  -- Every write of the batch succeeds, one after the other.
  abbrev pub all_written : D → List (BasicPayment Invoice) → Bool
  all_written d [] = true
  all_written d (p ∷ ps) = (write_payment d p).1 && all_written (write_payment d p).0 ps
