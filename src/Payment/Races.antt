-- ===== src/Payment/Races.antt =====
-- Two requests at once, as orders of their halves: both check or plan before either writes.
use micro_mart.Shared.{
  ℕ, suc, ◌+◌, ◌≤◌, ◌<◌, ◌≡◌, Bool, true, none, some, List, [], ◌∷◌, ◌++◌, arith, ok, err, ◌==◌,
}
use micro_mart.Shared.Session.{in_session, open_session}
use micro_mart.Payment.Table.{
  Payment, PaymentStatus, PaymentDb, PaymentCreateRequest, RefundCreateRequest, find, find_order,
}
use micro_mart.Payment.Service.{
  Chance, is_found, duplicate_payment, check_duplicate, insert_payment,
}
use micro_mart.Payment.Refunds.{already_refunded, new_refund, plan_refund, write_refund}
use micro_mart.Payment.Lookup.{already_refunded-append}
use micro_mart.Payment.Invariant.{IsLedger, with_payment, insert_payment-eq}

find_order-append :
    (k : ℕ) (ps : List Payment) (p : Payment)
    → p.order_id ≡ k
    → is_found (find_order k (ps ++ p ∷ [])) ≡ true
find_order-append k [] p e = ground arith
find_order-append k (x ∷ xs) p e = ground (arith, find_order-append k xs p e)

inserted :
    (c : Chance) (payload : PaymentCreateRequest) (db : PaymentDb)
    → IsLedger db
    → find_order payload.order_id db.payments ≡ none
    → (in_session (insert_payment c payload) db).1 ≡ with_payment c payload db
inserted c payload db l free = ground (arith, insert_payment-eq c payload db l free)

refused :
    (c : Chance) (payload : PaymentCreateRequest) (db : PaymentDb)
    → is_found (find_order payload.order_id db.payments) ≡ true
    → in_session (insert_payment c payload) db ≡ (err duplicate_payment, db)
unfolding insert_payment
refused c payload db taken = ground arith

-- Two payment requests for one order without a payment, from a sound ledger, that have both passed
-- the check before either inserts: the first to insert adds one payment, the second is refused as
-- a duplicate by the UNIQUE constraint and changes nothing, whatever their amounts and draws.
pub insert_race :
    (c c' : Chance) (first second : PaymentCreateRequest) (db : PaymentDb)
    → IsLedger db
    → find_order first.order_id db.payments ≡ none
    → second.order_id ≡ first.order_id
    → let db' = (in_session (insert_payment c first) db).1 in
      (check_duplicate first (open_session db) ≡ (ok tt, open_session db))
      × (check_duplicate second (open_session db) ≡ (ok tt, open_session db))
      × (db' ≡ with_payment c first db)
      × (in_session (insert_payment c' second) db' ≡ (err duplicate_payment, db'))
unfolding check_duplicate
insert_race c c' first second db l free same =
    let added = inserted c first db l free in
    (
      ground arith,
      ground arith,
      added,
      refused c' second _
          (rw (added, same) (find_order-append first.order_id db.payments _ (ground arith))),
    )

-- Two refunds of one approved payment, each within what is left when it is planned, but not
-- together: if both are planned before either is written, both are accepted and more is refunded
-- than was paid.
pub refund_race :
    (k : ℕ) (a b : RefundCreateRequest) (now : ℕ) (db : PaymentDb) (p : Payment)
    → find k db.payments ≡ some p
    → p.status ≡ PaymentStatus.approved
    → already_refunded k db.refunds + a.amount ≤ p.amount
    → already_refunded k db.refunds + b.amount ≤ p.amount
    → p.amount < already_refunded k db.refunds + a.amount + b.amount
    → (full : Bool) × (full' : Bool) × (plan_refund k a db ≡ ok full)
      × (plan_refund k b db ≡ ok full')
      × (p.amount
          < already_refunded k (write_refund k b now full' (write_refund k a now full db)).refunds)
unfolding plan_refund write_refund
refund_race k a b now db p found approved fits_a fits_b over =
    let taken = already_refunded k db.refunds in
    (
      taken + a.amount == p.amount,
      taken + b.amount == p.amount,
      ground arith,
      ground arith,
      ground (
        arith,
        already_refunded-append k db.refunds (new_refund k a now db.next_refund),
        already_refunded-append k (db.refunds ++ new_refund k a now db.next_refund ∷ [])
            (new_refund k b now (suc db.next_refund)),
      ),
    )
