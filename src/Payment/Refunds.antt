-- ===== src/Payment/Refunds.antt =====
-- `create_refund_service` (services/payment-service/app/services/payment_service.py), as its two
-- halves: what it reads and decides, and what it writes. Nothing is locked between them.
use micro_mart.Shared.{
  ℕ, suc, Bool, ◌&&◌, not, none, some, List, [], ◌∷◌, ◌++◌, ◌==◌, Result, ok, err, Action,
  if◌then◌else◌, update_where, sum_by, keep_if,
}
use micro_mart.Shared.Int.{pos, sub_ℕ, ltb_ℤ, eqb_ℤ}
use micro_mart.Shared.Http.{HttpError, plain_error, coded_error}
use micro_mart.Shared.Session.{Session, commit}
use micro_mart.Payment.Table.{
  Payment, PaymentStatus, Refund, RefundStatus, PaymentDb, RefundCreateRequest, RefundResponse,
  find, is_approved, is_completed,
}

-- The completed refunds of a payment, summed.
abbrev pub already_refunded : ℕ → List Refund → ℕ
already_refunded payment_id refunds =
    sum_by (λ r. r.amount)
      (keep_if (λ r. r.payment_id == payment_id && is_completed r.status) refunds)

-- Whether the refund empties the payment.
unfoldable pub plan_refund : ℕ → RefundCreateRequest → PaymentDb → Result HttpError Bool
plan_refund payment_id payload db = elim (find payment_id db.payments) [
  | none ↦ err (plain_error 404)
  | some p ↦
      let refundable = sub_ℕ p.amount (already_refunded payment_id db.refunds) in
      if not (is_approved p.status)
      then err (coded_error 400 (some "REFUND_NOT_ALLOWED"))
      else if ltb_ℤ refundable (pos payload.amount)
      then err (coded_error 422 (some "REFUND_AMOUNT_EXCEEDED"))
      else ok (eqb_ℤ (pos payload.amount) refundable)
]

abbrev pub new_refund : ℕ → RefundCreateRequest → ℕ → ℕ → Refund
new_refund payment_id payload now id = record {
  id = id;
  payment_id = payment_id;
  amount = payload.amount;
  reason = payload.reason;
  status = RefundStatus.completed;
  processed_at = some now;
}

abbrev pub as_refunded : Payment → Payment
as_refunded p = record p { status = PaymentStatus.refunded }

unfoldable pub write_refund : ℕ → RefundCreateRequest → ℕ → Bool → PaymentDb → PaymentDb
write_refund payment_id payload now full db = record db {
  payments =
      if full then update_where (λ p. p.id == payment_id) as_refunded db.payments else db.payments;
  refunds = db.refunds ++ new_refund payment_id payload now db.next_refund ∷ [];
  next_refund = suc db.next_refund;
}

unfoldable pub create_refund_service :
    ℕ → RefundCreateRequest → ℕ → Action (Session PaymentDb) HttpError RefundResponse
create_refund_service payment_id payload now s = elim (plan_refund payment_id payload s.working) [
  | err e ↦ (err e, s)
  | ok full ↦ (
    ok (new_refund payment_id payload now s.working.next_refund),
    commit (record s { working = write_refund payment_id payload now full s.working }),
  )
]
