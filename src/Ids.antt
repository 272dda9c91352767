-- ===== src/Ids.antt =====
-- Identifiers of payments (common/src/ln/payments.rs). Hashes, preimages, secrets, transaction ids
-- and client ids are newtypes over 32 bytes; here they are lists of bytes.
use lexe_public.Base.{ℕ, List, ℕ_discrete, Bool, true, false, ite}

abbrev pub Bytes : Type 0
Bytes = List ℕ

unfoldable pub Bytes-discrete : Discrete (List ℕ)
Bytes-discrete = hlevel ℕ_discrete

-- The derived `==` of the newtypes.
abbrev pub same : Bytes → Bytes → Bool
same a b = ite (Bytes-discrete a b) true false

abbrev pub TimestampMs : Type 0
TimestampMs = ℕ

pub data LxPaymentId : Type 0 where
  onchain_send : Bytes → LxPaymentId
  onchain_recv : Bytes → LxPaymentId
  lightning : Bytes → LxPaymentId

unfoldable pub LxPaymentId-discrete : Discrete LxPaymentId
LxPaymentId-discrete = hlevel ℕ_discrete

pub record PaymentIndex : Type 0 where
  pub created_at : TimestampMs
  pub id : LxPaymentId

pub data PaymentKind : Type 0 where
  onchain invoice spontaneous : PaymentKind

pub data PaymentDirection : Type 0 where
  inbound outbound : PaymentDirection

pub data PaymentStatus : Type 0 where
  pending completed failed : PaymentStatus
