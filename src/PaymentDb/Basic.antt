-- ===== src/PaymentDb/Basic.antt =====
-- `BasicPayment`, the payment that the app sees, and the order of its index
-- (common/src/ln/payments.rs, common/src/iter.rs, common/src/ln/invoice.rs).
use Prim.Native.Nat.{Ordering, compare}
use lexe_public.Base.{
  ℕ, Bool, true, false, ◌&&◌, ◌||◌, not, Option, none, some, List, [], ◌∷◌, String, is_some,
  if◌then◌else◌,
}
use lexe_public.Ids.{Bytes, TimestampMs, PaymentIndex, PaymentKind, PaymentDirection, PaymentStatus}
use lexe_public.Hex.Order.{then_with}
use lexe_public.IdText.{cmp}

pub record BasicPayment (Invoice : Type 0) : Type 0 where
  pub index : PaymentIndex
  pub kind : PaymentKind
  pub direction : PaymentDirection
  pub invoice : Option Invoice
  pub replacement : Option Bytes
  pub amount : Option ℕ
  pub fees : ℕ
  pub status : PaymentStatus
  pub status_str : String
  pub note : Option String
  pub finalized_at : Option TimestampMs

-- The text of an inline `description()` of lightning-invoice, if it is one, and the test of a text.
pub record Descriptions (Invoice : Type 0) : Type 0 where
  pub direct_description : Invoice → Option String
  pub is_empty : String → Bool

-- The derived order of `PaymentIndex`.
unfoldable pub cmp_index : PaymentIndex → PaymentIndex → Ordering
cmp_index a b = then_with (compare a.created_at b.created_at) (cmp a.id b.id)

abbrev pub is_lt : Ordering → Bool
is_lt Ordering.lt = true
is_lt Ordering.eq = false
is_lt Ordering.gt = false

-- `is_strict_total_order`: each item is less than the next.
unfoldable pub is_strict_total_order : List PaymentIndex → Bool
is_strict_total_order [] = true
is_strict_total_order (x ∷ []) = true
is_strict_total_order (x ∷ y ∷ l) = is_lt (cmp_index x y) && is_strict_total_order (y ∷ l)

abbrev is_completed : PaymentStatus → Bool
is_completed PaymentStatus.completed = true
is_completed _ = false

abbrev is_invoice : PaymentKind → Bool
is_invoice PaymentKind.invoice = true
is_invoice _ = false

abbrev is_inbound : PaymentDirection → Bool
is_inbound PaymentDirection.inbound = true
is_inbound _ = false

abbrev pending_status : PaymentStatus → Bool
pending_status PaymentStatus.pending = true
pending_status PaymentStatus.completed = false
pending_status PaymentStatus.failed = false

module _ {Invoice : Type 0} where
  unfoldable pub is_pending : BasicPayment Invoice → Bool
  is_pending p = pending_status p.status

  unfoldable pub is_finalized : BasicPayment Invoice → Bool
  unfolding is_pending
  is_finalized p = not (is_pending p)

  module _ (text : Descriptions Invoice) where
    non_empty : Option String → Option String
    non_empty none = none
    non_empty (some s) = if text.is_empty s then none else some s

    -- `LxInvoice::description_str`
    unfoldable pub description_str : Invoice → Option String
    unfolding non_empty
    description_str i = non_empty (text.direct_description i)

    described : Option String → Option Invoice → Option String
    unfolding description_str
    described (some note) invoice = some note
    described none none = none
    described none (some i) = description_str i

    unfoldable pub note_or_description : BasicPayment Invoice → Option String
    unfolding non_empty described
    note_or_description p = described (non_empty p.note) p.invoice

    unfoldable pub is_junk : BasicPayment Invoice → Bool
    unfolding note_or_description
    is_junk p =
        not (is_completed p.status)
        && is_invoice p.kind
        && is_inbound p.direction
        && (not (is_some p.amount) || not (is_some (note_or_description p)))

    unfoldable pub is_pending_not_junk : BasicPayment Invoice → Bool
    unfolding is_pending is_junk
    is_pending_not_junk p = is_pending p && not (is_junk p)

    unfoldable pub is_finalized_not_junk : BasicPayment Invoice → Bool
    unfolding is_finalized is_junk
    is_finalized_not_junk p = is_finalized p && not (is_junk p)
