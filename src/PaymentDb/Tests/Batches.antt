-- ===== src/PaymentDb/Tests/Batches.antt =====
-- The theorems on lookups, insertions, syncs and reading, at concrete databases.
use lexe_public.Base.{
  ℕ, true, false, none, some, List, [], ◌∷◌, ◌++◌, ◌≡◌, ap, refl, get_elem?, arith, Result, ok, err,
}
use lexe_public.Base.Maps.{insert}
use lexe_public.Ids.{PaymentIndex}
use lexe_public.IdText.{cmp}
use lexe_public.PaymentDb.Basic.{
  cmp_index, is_strict_total_order, is_pending, is_finalized, is_pending_not_junk,
  is_finalized_not_junk,
}
use lexe_public.PaymentDb.State.{DbState, enumerate, rev}
use lexe_public.PaymentDb.Lookups.{
  latest_payment_index, get_payment_by_scroll_idx, get_pending_payment_by_scroll_idx,
  get_finalized_payment_by_scroll_idx, get_pending_not_junk_payment_by_scroll_idx,
  get_finalized_not_junk_payment_by_scroll_idx,
}
use lexe_public.PaymentDb.Invariant.{IsConsistent}
use lexe_public.PaymentDb.Scroll.{scroll_lookups, newest_first}
use lexe_public.PaymentDb.Storage.{write_payment}
use lexe_public.PaymentDb.Insert.{
  is_before, io_error, already_pending, older_than_db, insert_new_payments,
}
use lexe_public.PaymentDb.Insert.Batch.{
  insert_new_payments-IsConsistent, insert_new_payments_refuses,
}
use lexe_public.PaymentDb.Insert.Retry.{insert_new_payments_retry}
use lexe_public.PaymentDb.Sync.{sync_new_payments}
use lexe_public.PaymentDb.Sync.New.{sync_new_payments_complete}
use lexe_public.PaymentDb.Build.{from_unsorted_vec}
use lexe_public.PaymentDb.Build.Sorting.{has_index}
use lexe_public.PaymentDb.Build.Indexed.{from_unsorted_vec-IsConsistent}
use lexe_public.Hex.{Chars, encode}
use lexe_public.IdText.{TxidText}
use lexe_public.IdText.Index.{IndexError, index_from_str, display_index}
use lexe_public.PaymentDb.Disk.{Directory, FileError, unreadable, read_state}
use lexe_public.PaymentDb.Disk.Reading.{Holds, has_file, read_state-IsConsistent}
use lexe_public.PaymentDb.Tests.{
  list_bitmap, list_laws, texts, Payment, disks, an_index, coffee_paid, coffee, three,
  three-IsConsistent, a_db, full_db, tea, roomy, roomy_db, cake, five, a_node,
}

scroll_lookups_example :
    (get_payment_by_scroll_idx three 1 ≡ ok (get_elem? (rev (enumerate 0 three.payments)) 1))
    × (get_pending_payment_by_scroll_idx list_bitmap three 1
        ≡ ok (get_elem? (newest_first is_pending three.payments) 1))
    × (get_finalized_payment_by_scroll_idx list_bitmap three 1
        ≡ ok (get_elem? (newest_first is_finalized three.payments) 1))
    × (get_pending_not_junk_payment_by_scroll_idx list_bitmap three 1
        ≡ ok (get_elem? (newest_first (is_pending_not_junk texts) three.payments) 1))
    × (get_finalized_not_junk_payment_by_scroll_idx list_bitmap three 1
        ≡ ok (get_elem? (newest_first (is_finalized_not_junk texts) three.payments) 1))
scroll_lookups_example = scroll_lookups list_bitmap list_laws texts three 1 three-IsConsistent

insert_new_payments-IsConsistent_example :
    ((insert_new_payments list_bitmap texts disks a_db (tea ∷ [])).1 ≡ ok tt)
    × ((insert_new_payments list_bitmap texts disks a_db (tea ∷ [])).0.state.payments
        ≡ three.payments ++ tea ∷ [])
    × IsConsistent list_bitmap texts
        (insert_new_payments list_bitmap texts disks a_db (tea ∷ [])).0.state
unfolding is_strict_total_order cmp_index cmp latest_payment_index write_payment insert is_before
insert_new_payments-IsConsistent_example =
    insert_new_payments-IsConsistent list_bitmap list_laws texts disks a_db (tea ∷ [])
      three-IsConsistent (omega arith) refl refl refl

insert_new_payments_refuses_example :
    ((insert_new_payments list_bitmap texts disks a_db (coffee ∷ [])).1 ≡ err older_than_db)
    × ((insert_new_payments list_bitmap texts disks a_db (coffee ∷ [])).0.state.payments
        ≡ three.payments)
unfolding is_strict_total_order cmp_index cmp latest_payment_index write_payment insert is_before
insert_new_payments_refuses_example =
    insert_new_payments_refuses list_bitmap list_laws texts disks a_db (coffee ∷ [])
      three-IsConsistent (omega arith) refl

insert_new_payments_retry_example :
    ((insert_new_payments list_bitmap texts disks full_db (tea ∷ [])).1 ≡ err io_error)
    × ((insert_new_payments list_bitmap texts disks
          record (insert_new_payments list_bitmap texts disks full_db (tea ∷ [])).0 {
            ffs = (false, []);
          }
          (tea ∷ [])).1
        ≡ err already_pending)
unfolding is_strict_total_order cmp_index latest_payment_index write_payment is_pending is_before
insert_new_payments_retry_example =
    insert_new_payments_retry list_bitmap list_laws texts disks full_db tea [] (false, [])
      three-IsConsistent (omega arith) refl refl refl refl

sync_new_payments_complete_example :
    ((sync_new_payments list_bitmap texts roomy a_node 3 1 roomy_db tt).result ≡ some (ok 2))
    × ((sync_new_payments list_bitmap texts roomy a_node 3 1 roomy_db tt).db.state.payments ≡ five)
    × IsConsistent list_bitmap texts
        (sync_new_payments list_bitmap texts roomy a_node 3 1 roomy_db tt).db.state
unfolding is_strict_total_order cmp_index
sync_new_payments_complete_example =
    sync_new_payments_complete list_bitmap list_laws texts roomy a_node (λ d i p. refl) five refl
      (omega arith) (λ n start limit. refl) 3 1 roomy_db (tea ∷ cake ∷ []) tt (omega arith)
      (omega arith) three-IsConsistent refl

from_unsorted_vec-IsConsistent_example :
    (s : DbState (Unit {0}) (List ℕ)) × (from_unsorted_vec list_bitmap texts
        (coffee ∷ tea ∷ coffee_paid ∷ coffee ∷ [])
      ≡ some s)
    × IsConsistent list_bitmap texts s
    × ((i : PaymentIndex)
        → has_index i s.payments ≡ has_index i (coffee ∷ tea ∷ coffee_paid ∷ coffee ∷ []))
from_unsorted_vec-IsConsistent_example =
    from_unsorted_vec-IsConsistent list_bitmap list_laws texts
      (coffee ∷ tea ∷ coffee_paid ∷ coffee ∷ []) (omega arith)

-- A directory with two files, whose names are read, and whose contents follow the names.
abbrev a_text : TxidText
a_text = record { display_txid = λ t. encode t; txid_from_str = λ s. none }

abbrev two_names : List Chars
two_names = (120 ∷ []) ∷ display_index a_text (an_index 40) ∷ []

abbrev named_after : Result IndexError PaymentIndex → Result FileError Payment
named_after (ok i) = ok record tea { index = i }
named_after (err _) = err unreadable

abbrev a_directory : Directory (Unit {0}) (Unit {0})
a_directory = record {
  filenames = λ d. some two_names;
  contents = λ d name. named_after (index_from_str a_text name);
  delete_all = λ d. (d, true);
}

each-Holds : (name : Chars) → Holds a_text a_directory tt name
each-Holds name i named = (record tea { index = i }, ap named_after named, refl)

read_state-IsConsistent_example :
    (s : DbState (Unit {0}) (List ℕ)) × (read_state list_bitmap texts a_text a_directory tt ≡ ok s)
    × IsConsistent list_bitmap texts s
    × ((i : PaymentIndex) → has_index i s.payments ≡ has_file a_text a_directory i two_names)
read_state-IsConsistent_example =
    read_state-IsConsistent list_bitmap list_laws texts a_text a_directory tt two_names refl
      (each-Holds (120 ∷ []), (each-Holds (display_index a_text (an_index 40)), tt)) (omega arith)
