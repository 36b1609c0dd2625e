-- ===== src/Payment/Invariant/Creation.antt =====
-- A payment request keeps the ledger sound.
use micro_mart.Shared.{
  ℕ, suc, ◌<◌, ◌≡◌, none, List, [], ◌∷◌, arith, Option-cases, inl, inr, if◌then◌else◌, All,
  All-append,
}
use micro_mart.Shared.Session.{in_session}
use micro_mart.Payment.Table.{Payment, Refund, PaymentDb, PaymentCreateRequest, find_order}
use micro_mart.Payment.Service.{Chance, is_found, create_payment_service}
use micro_mart.Payment.Lookup.{append-DistinctBy, find-fresh, already_refunded-fresh}
use micro_mart.Payment.Invariant.{
  IsSettled, IsLedger, final_payment, with_payment, numbered_rows, insert_payment-eq,
}

weaken_rows :
    (rs : List Refund) (n : ℕ) (ps : List Payment)
    → All (IsSettled rs n) ps
    → All (IsSettled rs (suc n)) ps
weaken_rows rs n [] a = tt
weaken_rows rs n (x ∷ xs) a = (
  record { numbered = omega arith; charged = a.0.charged; balanced = a.0.balanced },
  weaken_rows rs n xs a.1,
)

weaken_references :
    (rs : List Refund) (n : ℕ) → All (λ r. r.payment_id < n) rs → All (λ r. r.payment_id < suc n) rs
weaken_references [] n a = tt
weaken_references (x ∷ xs) n a = (omega arith, weaken_references xs n a.1)

pub with_payment-IsLedger :
    (c : Chance) (payload : PaymentCreateRequest) (db : PaymentDb)
    → 0 < payload.amount
    → find_order payload.order_id db.payments ≡ none
    → IsLedger db
    → IsLedger (with_payment c payload db)
with_payment-IsLedger c payload db paid none_yet l =
    let row = final_payment c payload db.next_payment in
    let below = numbered_rows db.refunds db.next_payment db.payments l.rows in
    record {
      ids =
          append-DistinctBy (λ p. p.id) db.payments row
            (ground (arith, find-fresh db.next_payment db.payments below)) l.ids;
      orders = append-DistinctBy (λ p. p.order_id) db.payments row (ground arith) l.orders;
      rows =
          All-append (IsSettled db.refunds (suc db.next_payment)) db.payments (row ∷ [])
            (weaken_rows db.refunds db.next_payment db.payments l.rows)
            (ground (arith, already_refunded-fresh db.next_payment db.refunds l.references), tt);
      references = weaken_references db.refunds db.next_payment l.references;
    }

-- The database after a payment request, from a sound ledger: unchanged if the order has a payment,
-- else with one row more, which is approved or rejected.
pub create_payment-db :
    (c : Chance) (payload : PaymentCreateRequest) (db : PaymentDb)
    → IsLedger db
    → (in_session (create_payment_service c payload) db).1 ≡ (
        if is_found (find_order payload.order_id db.payments)
        then db
        else with_payment c payload db)
unfolding create_payment_service
create_payment-db c payload db l = elim (Option-cases (find_order payload.order_id db.payments)) [
  | inl free ↦ ground (arith, insert_payment-eq c payload db l free)
  | inr (p, taken) ↦ ground arith
]

pub create_payment-IsLedger :
    (c : Chance) (payload : PaymentCreateRequest) (db : PaymentDb)
    → 0 < payload.amount
    → IsLedger db
    → IsLedger (in_session (create_payment_service c payload) db).1
create_payment-IsLedger c payload db paid l =
    rw (create_payment-db c payload db l)
      (elim (Option-cases (find_order payload.order_id db.payments)) [
        | inl free ↦ rw free (with_payment-IsLedger c payload db paid free l)
        | inr (p, taken) ↦ rw taken l
      ])
