-- ===== src/PaymentDb/Tests.antt =====
-- A bitmap, disks and databases with a few payments, to state the theorems at.
mod Batches
mod Updates
use text.Mathlib.Text.{◌==◌ as str_eq}
use text.Mathlib.TextEquality.{eq_iff}
use lexe_public.Base.{
  ℕ, Bool, true, false, not, Option, none, some, List, [], ◌∷◌, ◌++◌, ◌≡◌, refl, length, get_elem?,
  arith, String, Bool-cases, inl, inr, ℕ_discrete, ◌↔◌, ite, ok, err, if◌then◌else◌,
}
use lexe_public.Base.Maps.{get, insert}
use lexe_public.Ids.{PaymentIndex, lightning, PaymentKind, PaymentDirection, PaymentStatus}
use lexe_public.IdText.{cmp}
use lexe_public.PaymentDb.Basic.{
  BasicPayment, Descriptions, cmp_index, is_strict_total_order, is_pending, is_finalized, is_junk,
  is_pending_not_junk, is_finalized_not_junk,
}
use lexe_public.PaymentDb.Bitmap.{Bitmap, BitmapLaws, member, put, drop_value, count_le}
use lexe_public.PaymentDb.State.{
  DbState, PaymentIndex-discrete, positions, enumerate, rev, as_u32, filter,
}
use lexe_public.PaymentDb.Lookups.{
  get_vec_idx_by_payment_index, latest_payment_index, get_payment_by_scroll_idx,
  get_pending_payment_by_scroll_idx, get_finalized_payment_by_scroll_idx,
  get_pending_not_junk_payment_by_scroll_idx, get_finalized_not_junk_payment_by_scroll_idx,
}
use lexe_public.PaymentDb.Invariant.{IsConsistent}
use lexe_public.PaymentDb.Scroll.{scroll_lookups, newest_first}
use lexe_public.PaymentDb.Storage.{Ffs, PaymentDb, write_payment}
use lexe_public.PaymentDb.Find.{get_vec_idx_by_payment_index_iff}
use lexe_public.PaymentDb.Insert.{
  is_before, io_error, already_pending, older_than_db, insert_new_payments,
}
use lexe_public.PaymentDb.Insert.Batch.{
  insert_new_payments-IsConsistent, insert_new_payments_refuses,
}
use lexe_public.PaymentDb.Insert.Retry.{insert_new_payments_retry}
use lexe_public.PaymentDb.Sync.{AppNodeRunApi, take, sync_new_payments}
use lexe_public.PaymentDb.Sync.New.{sync_new_payments_complete}
use lexe_public.PaymentDb.Build.{from_unsorted_vec}
use lexe_public.PaymentDb.Build.Sorting.{has_index}
use lexe_public.PaymentDb.Build.Indexed.{from_unsorted_vec-IsConsistent}
use lexe_public.PaymentDb.Update.{panic, set_at, update_pending_payment, update_payment_note}
use lexe_public.PaymentDb.Update.Pending.{update_pending_payment-IsConsistent}
use lexe_public.PaymentDb.Update.Note.{update_payment_note-IsConsistent}
use lexe_public.PaymentDb.Update.Junk.{update_payment_note_panics, update_pending_payment_panics}

-- A bitmap as the ascending list of its values.
abbrev pub list_bitmap : Bitmap (List ℕ)
list_bitmap = record {
  new = [];
  insert = λ b x. (put x b, not (member x b));
  remove = λ b x. (drop_value x b, member x b);
  len = λ b. length b;
  rank = λ b x. count_le x b;
  select = λ b n. get_elem? b n;
  iter = λ b. b;
  from_sorted_iter = λ l. some l;
}

abbrev pub list_laws : BitmapLaws list_bitmap
list_laws = record {
  iter_new = refl;
  iter_insert = λ b x. refl;
  insert_new = λ b x. refl;
  iter_remove = λ b x. refl;
  remove_old = λ b x. refl;
  len_iter = λ b. refl;
  rank_iter = λ b x. refl;
  select_iter = λ b n. refl;
  from_sorted = λ l h. (l, refl, refl);
}

abbrev pub texts : Descriptions (Unit {0})
texts = record { direct_description = λ _. none; is_empty = λ _. false }

abbrev pub Payment : Type 0
Payment = BasicPayment (Unit {0})

abbrev pub Disk : Type 0
Disk = Bool × List (PaymentIndex × Payment)

-- A disk, which may be full.
abbrev pub disks : Ffs (Unit {0}) Disk
disks = record {
  write =
      λ d i p. if d.0 then (d, false) else ((false, insert PaymentIndex-discrete i p d.1), true);
}

abbrev pub an_index : ℕ → PaymentIndex
an_index n = record { created_at = n; id = lightning (n ∷ []) }

abbrev pub payment : ℕ → PaymentStatus → Option ℕ → Payment
payment n status amount = record {
  index = an_index n;
  kind = PaymentKind.invoice;
  direction = PaymentDirection.inbound;
  invoice = none;
  replacement = none;
  amount = amount;
  fees = 0;
  status = status;
  status_str = "";
  note = some "coffee";
  finalized_at = none;
}

abbrev pub coffee_paid : Payment
coffee_paid = payment 10 PaymentStatus.completed (some 1000)

-- Junk, since it has no amount.
abbrev pub no_amount : Payment
no_amount = payment 20 PaymentStatus.pending none

abbrev pub coffee : Payment
coffee = payment 30 PaymentStatus.pending (some 2000)

abbrev pub three : DbState (Unit {0}) (List ℕ)
three = record {
  payments = coffee_paid ∷ no_amount ∷ coffee ∷ [];
  pending = 1 ∷ 2 ∷ [];
  pending_not_junk = 2 ∷ [];
  finalized_not_junk = 0 ∷ [];
}

pub three-IsConsistent : IsConsistent list_bitmap texts three
unfolding is_strict_total_order cmp_index positions is_pending is_finalized is_junk
    is_pending_not_junk is_finalized_not_junk as_u32
three-IsConsistent = record {
  sorted = refl;
  pending = refl;
  pending_not_junk = refl;
  finalized_not_junk = refl;
  fits = omega arith;
}

abbrev pub a_db : PaymentDb (Unit {0}) (List ℕ) Disk
a_db = record { ffs = (false, []); state = three }

abbrev pub full_db : PaymentDb (Unit {0}) (List ℕ) Disk
full_db = record { ffs = (true, []); state = three }

abbrev pub tea : Payment
tea = payment 40 PaymentStatus.pending (some 500)

pub String-discrete : Discrete String
String-discrete s t = elim (Bool-cases (str_eq s t)) [
  | inl e ↦ yes ((eq_iff s t).0 e)
  | inr e ↦ no (λ same. let never = (eq_iff s t).1 same in ground (arith, e, never))
]

pub Payment-discrete : Discrete Payment
Payment-discrete = hlevel (ℕ_discrete, String-discrete)

abbrev pub coffee_paid_now : Payment
coffee_paid_now = payment 30 PaymentStatus.completed (some 2000)

-- A payment with an amount that is junk for want of a note.
abbrev pub plain_coffee : Payment
plain_coffee = record coffee { note = none }

abbrev pub plain : DbState (Unit {0}) (List ℕ)
plain = record {
  payments = plain_coffee ∷ [];
  pending = 0 ∷ [];
  pending_not_junk = [];
  finalized_not_junk = [];
}

pub plain-IsConsistent : IsConsistent list_bitmap texts plain
unfolding is_strict_total_order cmp_index positions is_pending is_finalized is_junk
    is_pending_not_junk is_finalized_not_junk as_u32
plain-IsConsistent = record {
  sorted = refl;
  pending = refl;
  pending_not_junk = refl;
  finalized_not_junk = refl;
  fits = omega arith;
}

abbrev pub plain_db : PaymentDb (Unit {0}) (List ℕ) Disk
plain_db = record { ffs = (false, []); state = plain }

-- A disk that is never full.
abbrev pub roomy : Ffs (Unit {0}) (List (PaymentIndex × Payment))
roomy = record { write = λ d i p. (insert PaymentIndex-discrete i p d, true) }

abbrev pub roomy_db : PaymentDb (Unit {0}) (List ℕ) (List (PaymentIndex × Payment))
roomy_db = record { ffs = []; state = three }

abbrev pub cake : Payment
cake = payment 50 PaymentStatus.failed (some 700)

abbrev pub five : List Payment
five = coffee_paid ∷ no_amount ∷ coffee ∷ tea ∷ cake ∷ []

abbrev pub a_node : AppNodeRunApi (Unit {0}) (Unit {0})
a_node = record {
  get_new_payments =
      λ n start limit. (n, some (take limit (filter (λ p. is_before start p.index) five)));
  get_payments_by_ids = λ n ids. (n, none);
}

-- An invoice without an amount, and the same while its funds are claimed.
abbrev pub any_coffee : Payment
any_coffee = payment 30 PaymentStatus.pending none

abbrev pub any_db : PaymentDb (Unit {0}) (List ℕ) (List (PaymentIndex × Payment))
any_db = record { ffs = []; state = record plain { payments = any_coffee ∷ [] } }

pub any-IsConsistent : IsConsistent list_bitmap texts any_db.state
unfolding is_strict_total_order cmp_index positions is_pending is_finalized is_junk
    is_pending_not_junk is_finalized_not_junk as_u32
any-IsConsistent = record {
  sorted = refl;
  pending = refl;
  pending_not_junk = refl;
  finalized_not_junk = refl;
  fits = omega arith;
}
