-- ===== src/Payment/Invariant.antt =====
-- What holds of the payments between two requests.
pub mod Creation
pub mod Refunding
use micro_mart.Shared.{
  ℕ, suc, ◌+◌, ◌-◌, ◌≤◌, ◌<◌, ◌≡◌, refl, ◌≢◌, ◌⊎◌, inl, inr, Bool, true, false, ◌&&◌, not, Option,
  none, some, List, [], ◌∷◌, ◌++◌, arith, Result, ok, err, ◌==◌, Bool-cases, Option-cases,
  first_where, update_where, if◌then◌else◌, All, All-append, ltb,
}
use micro_mart.Shared.Http.{HttpError}
use micro_mart.Shared.Session.{Session, in_session, open_session, commit}
use micro_mart.Payment.Table.{
  Payment, PaymentStatus, Refund, PaymentDb, PaymentCreateRequest, RefundCreateRequest, find,
  find_order, is_approved,
}
use micro_mart.Payment.Service.{
  Chance, is_chaos_failure, new_payment, rejected_payment, approved_payment, is_found,
  duplicate_payment, save_payment, insert_payment, create_payment_service,
}
use micro_mart.Payment.Refunds.{
  already_refunded, plan_refund, new_refund, as_refunded, write_refund, create_refund_service,
}
use micro_mart.Payment.Lookup.{
  DistinctBy, append-DistinctBy, update-DistinctBy, update_last, find-fresh, found_unique,
  already_refunded-append, already_refunded-fresh, found_id, found_All,
}

-- The refunds of a payment, by its status: some of it left, none of it touched, all of it back.
-- No committed payment is pending.
abbrev pub Balanced : PaymentStatus → ℕ → ℕ → Type 0
Balanced PaymentStatus.pending total amount = ⊥
Balanced PaymentStatus.approved total amount = total < amount
Balanced PaymentStatus.rejected total amount = total ≡ 0
Balanced PaymentStatus.refunded total amount = total ≡ amount

pub record IsSettled (refunds : List Refund) (next : ℕ) (p : Payment) : Type 0 where
  pub numbered : p.id < next
  pub charged : 1 ≤ p.amount
  pub balanced : Balanced p.status (already_refunded p.id refunds) p.amount

pub record IsLedger (db : PaymentDb) : Type 0 where
  pub ids : DistinctBy (λ p. p.id) db.payments
  pub orders : DistinctBy (λ p. p.order_id) db.payments
  pub rows : All (IsSettled db.refunds db.next_payment) db.payments
  pub references : All (λ r. r.payment_id < db.next_payment) db.refunds

-- The row that a new payment ends as.
abbrev pub final_payment : Chance → PaymentCreateRequest → ℕ → Payment
final_payment c payload id =
    if is_chaos_failure c
    then rejected_payment c (new_payment payload id)
    else approved_payment c (new_payment payload id)

abbrev pub with_payment : Chance → PaymentCreateRequest → PaymentDb → PaymentDb
with_payment c payload db = record db {
  payments = db.payments ++ final_payment c payload db.next_payment ∷ [];
  next_payment = suc db.next_payment;
}

pub numbered_rows :
    (rs : List Refund) (n : ℕ) (ps : List Payment)
    → All (IsSettled rs n) ps
    → All (λ q. q.id < n) ps
numbered_rows rs n [] a = tt
numbered_rows rs n (x ∷ xs) a = (a.0.numbered, numbered_rows rs n xs a.1)

-- A payment whose order has no payment yet is appended, in its final state, by one commit.
pub insert_payment-eq :
    (c : Chance) (payload : PaymentCreateRequest) (db : PaymentDb)
    → IsLedger db
    → find_order payload.order_id db.payments ≡ none
    → (insert_payment c payload (open_session db)).1 ≡ record {
      working = with_payment c payload db;
      committed = with_payment c payload db;
      log = with_payment c payload db ∷ [];
    }
unfolding insert_payment
insert_payment-eq c payload db l none_yet =
    let new = new_payment payload db.next_payment in
    let below = numbered_rows db.refunds db.next_payment db.payments l.rows in
    ground (
      arith,
      update_last db.next_payment (λ q. rejected_payment c new) db.payments new below refl,
      update_last db.next_payment (λ q. approved_payment c new) db.payments new below refl,
    )
