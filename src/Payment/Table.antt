-- ===== src/Payment/Table.antt =====
-- payment-service's tables, schemas and their states (services/payment-service/app/models.py,
-- schemas.py).
use micro_mart.Shared.Int.{ℤ}
use micro_mart.Shared.{ℕ, String, Bool, true, false, Option, List, ◌==◌, first_where}

pub data PaymentStatus : Type 0 where
  pending approved rejected refunded : PaymentStatus

pub data RefundStatus : Type 0 where
  pending completed failed : RefundStatus

pub record Payment : Type 0 where
  pub id : ℕ
  pub order_id : ℕ
  pub user_id : ℤ
  pub amount : ℕ
  pub status : PaymentStatus
  pub pg_transaction_id : Option String
  pub failure_reason : Option String
  pub processed_at : Option ℕ

pub record Refund : Type 0 where
  pub id : ℕ
  pub payment_id : ℕ
  pub amount : ℕ
  pub reason : Option String
  pub status : RefundStatus
  pub processed_at : Option ℕ

pub record PaymentDb : Type 0 where
  pub payments : List Payment
  pub refunds : List Refund
  pub next_payment : ℕ
  pub next_refund : ℕ

pub record PaymentCreateRequest : Type 0 where
  pub order_id : ℕ
  pub user_id : ℤ
  pub amount : ℕ

pub record RefundCreateRequest : Type 0 where
  pub amount : ℕ
  pub reason : Option String

-- The responses have the fields of the rows.
abbrev pub PaymentResponse : Type 0
PaymentResponse = Payment

abbrev pub RefundResponse : Type 0
RefundResponse = Refund

-- `select(Payment).where(Payment.id == payment_id)`
abbrev pub find : ℕ → List Payment → Option Payment
find payment_id = first_where (λ p. p.id == payment_id)

-- `select(Payment).where(Payment.order_id == order_id)`
abbrev pub find_order : ℕ → List Payment → Option Payment
find_order order_id = first_where (λ p. p.order_id == order_id)

abbrev pub is_approved : PaymentStatus → Bool
is_approved approved = true
is_approved _ = false

abbrev pub is_completed : RefundStatus → Bool
is_completed completed = true
is_completed _ = false
