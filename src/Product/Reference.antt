-- ===== src/Product/Reference.antt =====
-- The contract of the stock operations, on the table seen as a map from ids to rows: look the row
-- up, test it, write it back. The service does the test and the write in one UPDATE and looks
-- for the reason afterwards.
use micro_mart.Shared.{
  ℕ, ◌+◌, ◌-◌, ◌≡◌, refl, true, not, Option, none, some, Result, ok, err, Option-cases, inl, inr,
  arith, ltb, ◌==◌, if◌then◌else◌,
}
use micro_mart.Shared.Http.{HttpError, plain_error, coded_error}
use micro_mart.Product.Table.{
  Product, StockDeductRequest, StockDeductResponse, StockRestoreRequest, StockRestoreResponse, find,
}
use micro_mart.Product.Stock.{
  Store, deductible, deducted, deduct_refusal, deduct_stock_service, restorable, restored,
  restore_stock_service,
}
use micro_mart.Product.Lookup.{Unique, first_where-eq-guarded, find-update_at, find-id}

abbrev pub Shelf : Type 0
Shelf = ℕ → Option Product

abbrev pub put : ℕ → Product → Shelf → Shelf
put k p shelf = λ j. if j == k then some p else shelf j

-- Look up, then test, then write.
pub deduct_reference :
    ℕ → StockDeductRequest → ℕ → Shelf → Result HttpError StockDeductResponse × Shelf
deduct_reference k payload now shelf = elim (shelf k) [
  | none ↦ (err (plain_error 404), shelf)
  | some p ↦
      if not p.is_active
      then (err (plain_error 404), shelf)
      else if not (p.version == payload.expected_version)
      then (err (coded_error 409 (some "VERSION_CONFLICT")), shelf)
      else if ltb p.stock payload.quantity
      then (err (coded_error 409 (some "INSUFFICIENT_STOCK")), shelf)
      else (
        ok (record {
          product_id = k;
          remaining_stock = p.stock - payload.quantity;
          new_version = p.version + 1;
        }),
        put k (deducted payload now p) shelf,
      )
]

pub restore_reference :
    ℕ → StockRestoreRequest → ℕ → Shelf → Result HttpError StockRestoreResponse × Shelf
restore_reference k payload now shelf = elim (shelf k) [
  | none ↦ (err (plain_error 404), shelf)
  | some p ↦
      if p.is_active
      then (
        ok (record {
          product_id = k;
          remaining_stock = p.stock + payload.quantity;
          new_version = p.version + 1;
        }),
        put k (restored payload now p) shelf,
      )
      else (err (plain_error 404), shelf)
]

pub deductible-id :
    (k : ℕ) (payload : StockDeductRequest) (p : Product) → deductible k payload p ≡ true → p.id ≡ k
deductible-id k payload p h = ground arith

pub restorable-id : (k : ℕ) (p : Product) → restorable k p ≡ true → p.id ≡ k
restorable-id k p h = ground arith

-- On a table with distinct ids the deduction answers as its contract does, on every branch, and
-- leaves every id with the row that the contract gives it.
pub deduct_stock_service-refines :
    (k : ℕ) (payload : StockDeductRequest) (s : Store)
    → Unique s.products
    → let (answer, s') = deduct_stock_service k payload s in
      let (expected, shelf) = deduct_reference k payload s.now (λ j. find j s.products) in
      (answer ≡ expected) × ((j : ℕ) → find j s'.products ≡ shelf j)
unfolding deduct_stock_service deduct_reference deduct_refusal
deduct_stock_service-refines k payload s u =
    let row =
      first_where-eq-guarded k (deductible k payload) s.products (deductible-id k payload) u in
    elim (Option-cases (find k s.products)) [
      | inl missing ↦ (ground (arith, row), λ j. ground (arith, row))
      | inr (p, e) ↦
          let same = find-id k s.products p e in
          let later = λ (j : ℕ).
            find-update_at k j (deductible k payload) (deducted payload s.now) s.products p
              (deductible-id k payload) (λ q. refl) e in
          (ground (arith, row), λ j. ground (arith, row, later j))
    ]

-- On a table with distinct ids the restore answers as its contract does, on every branch, and
-- leaves every id with the row that the contract gives it.
pub restore_stock_service-refines :
    (k : ℕ) (payload : StockRestoreRequest) (s : Store)
    → Unique s.products
    → let (answer, s') = restore_stock_service k payload s in
      let (expected, shelf) = restore_reference k payload s.now (λ j. find j s.products) in
      (answer ≡ expected) × ((j : ℕ) → find j s'.products ≡ shelf j)
unfolding restore_stock_service restore_reference
restore_stock_service-refines k payload s u =
    let row = first_where-eq-guarded k (restorable k) s.products (restorable-id k) u in
    elim (Option-cases (find k s.products)) [
      | inl missing ↦ (ground (arith, row), λ j. ground (arith, row))
      | inr (p, e) ↦
          let same = find-id k s.products p e in
          let later = λ (j : ℕ).
            find-update_at k j (restorable k) (restored payload s.now) s.products p
              (restorable-id k) (λ q. refl) e in
          (ground (arith, row), λ j. ground (arith, row, later j))
    ]
