-- ===== src/Payment/Invariant/Refunding.antt =====
-- A refund request keeps the ledger sound.
use micro_mart.Shared.{
  ℕ, ◌+◌, ◌≤◌, ◌<◌, ◌≡◌, refl, ap, ◌≢◌, ◌⊎◌, inl, inr, Bool, true, false, ◌&&◌, some, List, [], ◌∷◌,
  ◌++◌, arith, ok, err, ◌==◌, Option-cases, Result-cases, update_where, if◌then◌else◌, All,
  All-append,
}
use micro_mart.Shared.Session.{in_session}
use micro_mart.Payment.Table.{
  Payment, PaymentStatus, Refund, PaymentDb, RefundCreateRequest, find, is_approved,
}
use micro_mart.Payment.Refunds.{
  already_refunded, plan_refund, new_refund, as_refunded, write_refund, create_refund_service,
}
use micro_mart.Payment.Lookup.{
  update-DistinctBy, found_unique, already_refunded-append, found_id, found_All,
}
use micro_mart.Payment.Invariant.{IsSettled, IsLedger}

-- What a plan that was accepted has read.
pub record Planned (k : ℕ) (u : RefundCreateRequest) (db : PaymentDb) (full : Bool) (p : Payment)
    : Type 0 where
  pub found : find k db.payments ≡ some p
  pub approved : p.status ≡ PaymentStatus.approved
  pub fits : already_refunded k db.refunds + u.amount ≤ p.amount
  pub empties : full ≡ (already_refunded k db.refunds + u.amount == p.amount)

is_approved-eq : (t : PaymentStatus) → is_approved t ≡ true → t ≡ PaymentStatus.approved
is_approved-eq PaymentStatus.pending h = cc
is_approved-eq PaymentStatus.approved h = refl
is_approved-eq PaymentStatus.rejected h = cc
is_approved-eq PaymentStatus.refunded h = cc

-- For a positive amount; over a ledger where no more is refunded than was paid.
pub plan_refund-Planned :
    (k : ℕ) (u : RefundCreateRequest) (db : PaymentDb) (full : Bool)
    → 0 < u.amount
    → plan_refund k u db ≡ ok full
    → (p : Payment) × Planned k u db full p
unfolding plan_refund
plan_refund-Planned k u db full paid e = elim (Option-cases (find k db.payments)) [
  | inl missing ↦ absurd (ground arith)
  | inr (p, found) ↦ (
    p,
    record {
      found = found;
      approved = is_approved-eq p.status (ground arith);
      fits = ground arith;
      empties = ground arith;
    },
  )
]

row-IsSettled :
    (k n : ℕ) (u : RefundCreateRequest) (now id : ℕ) (rs : List Refund) (full : Bool)
    (p x : Payment)
    → 0 < u.amount
    → p.status ≡ PaymentStatus.approved
    → already_refunded k rs + u.amount ≤ p.amount
    → full ≡ (already_refunded k rs + u.amount == p.amount)
    → (x.id ≢ k) ⊎ (x ≡ p)
    → p.id ≡ k
    → IsSettled rs n x
    → IsSettled
        (rs ++ new_refund k u now id ∷ [])
        n
        (if full && x.id == k then as_refunded x else x)
row-IsSettled k n u now id rs full p x paid approved fits empties (inl other) named s =
    ground (arith, already_refunded-append x.id rs (new_refund k u now id))
row-IsSettled k n u now id rs full p x paid approved fits empties (inr same) named s = ground (
  arith,
  already_refunded-append k rs (new_refund k u now id),
  already_refunded-append x.id rs (new_refund k u now id),
)

rows-IsSettled :
    (k n : ℕ) (u : RefundCreateRequest) (now id : ℕ) (rs : List Refund) (full : Bool) (p : Payment)
    (ps : List Payment)
    → 0 < u.amount
    → p.status ≡ PaymentStatus.approved
    → already_refunded k rs + u.amount ≤ p.amount
    → full ≡ (already_refunded k rs + u.amount == p.amount)
    → p.id ≡ k
    → All (λ x. (x.id ≢ k) ⊎ (x ≡ p)) ps
    → All (IsSettled rs n) ps
    → All
        (IsSettled (rs ++ new_refund k u now id ∷ []) n)
        (update_where (λ x. full && x.id == k) as_refunded ps)
rows-IsSettled k n u now id rs full p [] paid approved fits empties named o s = tt
rows-IsSettled k n u now id rs full p (x ∷ xs) paid approved fits empties named o s = (
  row-IsSettled k n u now id rs full p x paid approved fits empties o.0 named s.0,
  rows-IsSettled k n u now id rs full p xs paid approved fits empties named o.1 s.1,
)

update-if :
    (full : Bool) (k : ℕ) (ps : List Payment)
    → (if full then update_where (λ p. p.id == k) as_refunded ps else ps)
      ≡ update_where (λ x. full && x.id == k) as_refunded ps
update-if true k ps = refl
update-if false k [] = refl
update-if false k (x ∷ xs) = ap (λ t. x ∷ t) (update-if false k xs)

pub write_refund-IsLedger :
    (k : ℕ) (u : RefundCreateRequest) (now : ℕ) (full : Bool) (db : PaymentDb) (p : Payment)
    → 0 < u.amount
    → Planned k u db full p
    → IsLedger db
    → IsLedger (write_refund k u now full db)
unfolding write_refund
write_refund-IsLedger k u now full db p paid plan l =
    let named = found_id k db.payments p plan.found in
    let row = found_All (IsSettled db.refunds db.next_payment) k db.payments p l.rows plan.found in
    record {
      ids = rw (update-if full k db.payments) (
          update-DistinctBy (λ q. q.id) (λ x. full && x.id == k) as_refunded db.payments (λ q. refl)
            l.ids);
      orders = rw (update-if full k db.payments) (
          update-DistinctBy (λ q. q.order_id) (λ x. full && x.id == k) as_refunded db.payments
            (λ q. refl) l.orders);
      rows = rw (update-if full k db.payments) (
          rows-IsSettled k db.next_payment u now db.next_refund db.refunds full p db.payments paid
            plan.approved plan.fits plan.empties named
            (found_unique k db.payments p l.ids plan.found) l.rows);
      references =
          All-append (λ r. r.payment_id < db.next_payment) db.refunds _ l.references
            (ground (arith, row.numbered), tt);
    }

-- A refund that its plan refuses changes nothing; one that it accepts is written at once.
pub create_refund-db :
    (k : ℕ) (u : RefundCreateRequest) (now : ℕ) (db : PaymentDb)
    → (in_session (create_refund_service k u now) db).1
      ≡ elim (plan_refund k u db) [ ok full ↦ write_refund k u now full db | err e ↦ db ]
unfolding create_refund_service
create_refund-db k u now db = ground arith

pub create_refund-IsLedger :
    (k : ℕ) (u : RefundCreateRequest) (now : ℕ) (db : PaymentDb)
    → 0 < u.amount
    → IsLedger db
    → IsLedger (in_session (create_refund_service k u now) db).1
create_refund-IsLedger k u now db paid l =
    rw (create_refund-db k u now db) (elim (Result-cases (plan_refund k u db)) [
      | inl (full, planned) ↦
          let (p, plan) = plan_refund-Planned k u db full paid planned in
          rw planned (write_refund-IsLedger k u now full db p paid plan l)
      | inr (e, refused) ↦ rw refused l
    ])
