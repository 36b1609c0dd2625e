-- ===== src/Payment/Ledger.antt =====
-- Histories of payment-service: the ledger stays sound, no order is charged twice, no more is
-- refunded than was paid.
use micro_mart.Shared.{
  ℕ, ◌≤◌, ◌<◌, ◌≡◌, refl, ◌≢◌, ◌↔◌, String, some, List, [], ◌∷◌, arith, All, Option-cases, inl, inr,
}
use micro_mart.Shared.Session.{in_session, open_session}
use micro_mart.Payment.Table.{
  Payment, PaymentStatus, Refund, PaymentDb, PaymentCreateRequest, find, find_order,
}
use micro_mart.Payment.Service.{Chance, create_payment_service, get_payment_service}
use micro_mart.Payment.Refunds.{already_refunded}
use micro_mart.Payment.Lookup.{DistinctBy, found_All, found_id}
use micro_mart.Payment.Invariant.{IsLedger, IsSettled, Balanced, with_payment, insert_payment-eq}
use micro_mart.Payment.Invariant.Creation.{create_payment-IsLedger, with_payment-IsLedger}
use micro_mart.Payment.Invariant.Refunding.{create_refund-IsLedger}
use micro_mart.Payment.Routes.{
  valid_payment, valid_refund, create_payment, get_payment, create_refund, Request, handle, run,
}

get-IsLedger :
    (k : ℕ) (db : PaymentDb) → IsLedger db → IsLedger (in_session (get_payment_service k) db).1
unfolding get_payment_service
get-IsLedger k db l = ground arith

pub handle-IsLedger :
    (token : String) (r : Request) (db : PaymentDb) → IsLedger db → IsLedger (handle token r db)
unfolding handle create_payment get_payment create_refund valid_payment valid_refund
handle-IsLedger token (Request.create header c u) db l =
    ground (arith, create_payment-IsLedger c u db)
handle-IsLedger token (Request.get header k) db l = ground (arith, get-IsLedger k db l)
handle-IsLedger token (Request.refund header k u now) db l =
    ground (arith, create_refund-IsLedger k u now db)

run-IsLedger :
    (token : String) (rs : List Request) (db : PaymentDb) → IsLedger db → IsLedger (run token rs db)
unfolding run
run-IsLedger token [] db l = l
run-IsLedger token (r ∷ rs) db l =
    run-IsLedger token rs (handle token r db) (handle-IsLedger token r db l)

refunded-le :
    (status : PaymentStatus) (total amount : ℕ) → Balanced status total amount → total ≤ amount
refunded-le PaymentStatus.pending total amount b = absurd b
refunded-le PaymentStatus.approved total amount b = omega arith
refunded-le PaymentStatus.rejected total amount b = omega arith
refunded-le PaymentStatus.refunded total amount b = omega arith

refunded_iff :
    (status : PaymentStatus) (total amount : ℕ)
    → 1 ≤ amount
    → Balanced status total amount
    → (total ≡ amount) ↔ (status ≡ PaymentStatus.refunded)
refunded_iff PaymentStatus.pending total amount h b = absurd b
refunded_iff PaymentStatus.approved total amount h b = (λ e. absurd (omega arith), λ e. cc)
refunded_iff PaymentStatus.rejected total amount h b = (λ e. absurd (omega arith), λ e. cc)
refunded_iff PaymentStatus.refunded total amount h b = (λ e. refl, λ e. b)

not_pending :
    (status : PaymentStatus) (total amount : ℕ)
    → Balanced status total amount
    → status ≢ PaymentStatus.pending
not_pending PaymentStatus.pending total amount b = absurd b
not_pending PaymentStatus.approved total amount b = cc
not_pending PaymentStatus.rejected total amount b = cc
not_pending PaymentStatus.refunded total amount b = cc

-- After any sequence of requests, one at a time, from a sound ledger: no two payments have the
-- same order, and of a payment that is found no more than its amount has been refunded, with the
-- status REFUNDED exactly when all of it has been. It is never PENDING.
pub run_settled :
    (token : String) (rs : List Request) (db : PaymentDb)
    → IsLedger db
    → let db' = run token rs db in
      DistinctBy (λ p. p.order_id) db'.payments
      × ((k : ℕ) (p : Payment)
          → find k db'.payments ≡ some p
          → (already_refunded k db'.refunds ≤ p.amount)
            × ((already_refunded k db'.refunds ≡ p.amount) ↔ (p.status ≡ PaymentStatus.refunded))
            × (p.status ≢ PaymentStatus.pending))
run_settled token rs db l =
    let sound = run-IsLedger token rs db l in
    let db' = run token rs db in
    (
      sound.orders,
      λ k p e.
          let row =
            found_All (IsSettled db'.refunds db'.next_payment) k db'.payments p sound.rows e in
          let named = found_id k db'.payments p e in
          rw (← named) (
            refunded-le p.status _ p.amount row.balanced,
            refunded_iff p.status _ p.amount row.charged row.balanced,
            not_pending p.status _ p.amount row.balanced,
          ),
    )

rows_not_pending :
    (rs : List Refund) (n : ℕ) (ps : List Payment)
    → All (IsSettled rs n) ps
    → All (λ p. p.status ≢ PaymentStatus.pending) ps
rows_not_pending rs n [] a = tt
rows_not_pending rs n (x ∷ xs) a =
    (not_pending x.status _ x.amount a.0.balanced, rows_not_pending rs n xs a.1)

-- From a sound ledger, for a payment of a positive amount: the database before, every database
-- that is committed while the payment is created, and the last one, have no PENDING payment.
pub create_payment-not_pending :
    (c : Chance) (payload : PaymentCreateRequest) (db : PaymentDb)
    → 0 < payload.amount
    → IsLedger db
    → let s = (create_payment_service c payload (open_session db)).1 in
      All (λ d. All (λ p. p.status ≢ PaymentStatus.pending) d.payments) (db ∷ s.committed ∷ s.log)
unfolding create_payment_service
create_payment-not_pending c payload db paid l =
    let before = rows_not_pending db.refunds db.next_payment db.payments l.rows in
    elim (Option-cases (find_order payload.order_id db.payments)) [
      | inl free ↦
          let new = with_payment c payload db in
          let sound = with_payment-IsLedger c payload db paid free l in
          let after = rows_not_pending new.refunds new.next_payment new.payments sound.rows in
          rw (free, insert_payment-eq c payload db l free) (before, (after, (after, tt)))
      | inr (p, taken) ↦ rw taken (before, (before, tt))
    ]
