-- ===== src/Tests/PaymentTests.antt =====
-- payment-service on one payment.
use micro_mart.Shared.Int.{pos}
use micro_mart.Shared.{
  ℕ, ◌≤◌, ◌<◌, ◌≡◌, ◌≢◌, ◌↔◌, refl, none, some, List, [], ◌∷◌, ok, err, Bool, arith, All,
  if◌then◌else◌,
}
use micro_mart.Shared.Session.{in_session, open_session}
use micro_mart.Payment.Table.{
  Payment, PaymentStatus, PaymentDb, PaymentCreateRequest, RefundCreateRequest, find, find_order,
}
use micro_mart.Payment.Service.{Chance, is_found, create_payment_service}
use micro_mart.Payment.Refunds.{already_refunded, plan_refund, write_refund, create_refund_service}
use micro_mart.Payment.Lookup.{DistinctBy}
use micro_mart.Payment.Invariant.{IsLedger, with_payment}
use micro_mart.Payment.Invariant.Creation.{create_payment-db}
use micro_mart.Payment.Invariant.Refunding.{create_refund-db}
use micro_mart.Payment.Ledger.{run_settled, create_payment-not_pending}
use micro_mart.Payment.Races.{refund_race}
use micro_mart.Payment.Routes.{Request, run}

abbrev paid : Payment
paid = record {
  id = 1;
  order_id = 7;
  user_id = pos 3;
  amount = 1000;
  status = PaymentStatus.approved;
  pg_transaction_id = some "tx";
  failure_reason = none;
  processed_at = some 5;
}

abbrev books : PaymentDb
books = record { payments = paid ∷ []; refunds = []; next_payment = 2; next_refund = 1 }

books-IsLedger : IsLedger books
books-IsLedger = record {
  ids = (refl, tt);
  orders = (refl, tt);
  rows = (record { numbered = omega arith; charged = omega arith; balanced = omega arith }, tt);
  references = tt;
}

-- No failures; and one that always fails.
abbrev calm : Chance
calm = record { chaos_failure_rate = 0; draw = 40; transaction = "tx2"; processed_at = 9 }

abbrev chaos : Chance
chaos = record { chaos_failure_rate = 100; draw = 40; transaction = "tx3"; processed_at = 9 }

abbrev order_eight : PaymentCreateRequest
order_eight = record { order_id = 8; user_id = pos 3; amount = 500 }

abbrev give_back : RefundCreateRequest
give_back = record { amount = 600; reason = none }

abbrev week : List Request
week =
    Request.create "token" calm order_eight
    ∷ Request.refund "token" 1 give_back 11
    ∷ Request.refund "token" 1 give_back 12
    ∷ Request.create "token" chaos order_eight
    ∷ []

run_settled_example :
    let db' = run "token" week books in
    DistinctBy (λ p. p.order_id) db'.payments
    × ((k : ℕ) (p : Payment)
        → find k db'.payments ≡ some p
        → (already_refunded k db'.refunds ≤ p.amount)
          × ((already_refunded k db'.refunds ≡ p.amount) ↔ (p.status ≡ PaymentStatus.refunded))
          × (p.status ≢ PaymentStatus.pending))
run_settled_example = run_settled "token" week books books-IsLedger

create_payment-not_pending_example :
    let s = (create_payment_service chaos order_eight (open_session books)).1 in
    All (λ d. All (λ p. p.status ≢ PaymentStatus.pending) d.payments) (books ∷ s.committed ∷ s.log)
create_payment-not_pending_example =
    create_payment-not_pending chaos order_eight books (omega arith) books-IsLedger

create_payment-db_example : (in_session (create_payment_service calm order_eight) books).1 ≡ (
    if is_found (find_order 8 books.payments) then books else with_payment calm order_eight books)
create_payment-db_example = create_payment-db calm order_eight books books-IsLedger

refund_race_example :
    (full : Bool) × (full' : Bool) × (plan_refund 1 give_back books ≡ ok full)
    × (plan_refund 1 give_back books ≡ ok full')
    × (1000
        < already_refunded 1
            (write_refund 1 give_back 12 full' (write_refund 1 give_back 12 full books)).refunds)
refund_race_example =
    refund_race 1 give_back give_back 12 books paid refl refl (omega arith) (omega arith)
      (omega arith)

create_refund-db_example :
    (in_session (create_refund_service 1 give_back 12) books).1
    ≡ elim (plan_refund 1 give_back books) [
      | ok full ↦ write_refund 1 give_back 12 full books
      | err e ↦ books
    ]
create_refund-db_example = create_refund-db 1 give_back 12 books
