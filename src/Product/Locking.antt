-- ===== src/Product/Locking.antt =====
-- The optimistic lock of the stock deduction, and its inverse.
use micro_mart.Shared.{
  ℕ, ◌+◌, ◌≤◌, ◌≡◌, refl, true, false, some, ok, err, arith, Option-cases, inl, inr, ◌==◌,
  first_where,
}
use micro_mart.Shared.Http.{coded_error}
use micro_mart.Product.Table.{
  Product, StockDeductRequest, StockDeductResponse, StockRestoreRequest, find,
}
use micro_mart.Product.Stock.{
  Store, deductible, deducted, deduct_refusal, deduct_stock_service, restorable, restored,
  restore_stock_service,
}
use micro_mart.Product.Lookup.{
  Unique, guarded, first_where-eq-guarded, find-id, find-update_at, update_where-Unique,
}
use micro_mart.Product.Reference.{deductible-id, restorable-id}

-- What a deduction that succeeded has found and done.
pub record Deducted (k : ℕ) (payload : StockDeductRequest) (s s' : Store) (p : Product)
    : Type 0 where
  pub found : find k s.products ≡ some p
  pub active : p.is_active ≡ true
  pub current : p.version ≡ payload.expected_version
  pub enough : payload.quantity ≤ p.stock
  pub written : find k s'.products ≡ some (deducted payload s.now p)
  pub others : (j : ℕ) → (j == k) ≡ false → find j s'.products ≡ find j s.products
  pub distinct : Unique s'.products
  pub clock : s'.now ≡ s.now

pub deduct-Deducted :
    (k : ℕ) (payload : StockDeductRequest) (s s' : Store) (r : StockDeductResponse)
    → Unique s.products
    → deduct_stock_service k payload s ≡ (ok r, s')
    → (p : Product) × Deducted k payload s s' p
unfolding deduct_stock_service
deduct-Deducted k payload s s' r u e = elim (Option-cases (find k s.products)) [
  | inl missing ↦ absurd (ground (arith, row))
  | inr (p, found) ↦
      let at = λ (j : ℕ).
        find-update_at k j (deductible k payload) (deducted payload s.now) s.products p
          (deductible-id k payload) (λ q. refl) found in
      (
        p,
        record {
          found = found;
          active = ground (arith, row);
          current = ground (arith, row);
          enough = ground (arith, row);
          written = ground (arith, row, at k);
          others = λ j n. ground (arith, row, at j);
          distinct = ground (
            arith,
            row,
            update_where-Unique (deductible k payload) (deducted payload s.now) s.products
                (λ q. refl) u,
          );
          clock = ground (arith, row);
        },
      )
]
  where
    row :
        first_where (deductible k payload) s.products
        ≡ guarded (deductible k payload) (find k s.products)
    row = first_where-eq-guarded k (deductible k payload) s.products (deductible-id k payload) u

-- On a table with distinct ids: after a deduction has succeeded, a second one that was prepared
-- against the same version is refused with VERSION_CONFLICT, whatever its quantity, and changes
-- nothing.
pub second_deduct-conflict :
    (k : ℕ) (first second : StockDeductRequest) (s s' : Store) (r : StockDeductResponse)
    → Unique s.products
    → second.expected_version ≡ first.expected_version
    → deduct_stock_service k first s ≡ (ok r, s')
    → deduct_stock_service k second s' ≡ (err (coded_error 409 (some "VERSION_CONFLICT")), s')
unfolding deduct_stock_service deduct_refusal
second_deduct-conflict k first second s s' r u same e =
    let (p, d) = deduct-Deducted k first s s' r u e in
    ground (
      arith,
      d,
      first_where-eq-guarded k (deductible k second) s'.products (deductible-id k second)
          d.distinct,
    )

-- On a table with distinct ids: restoring the quantity that a deduction took gives the product its
-- stock back, at the same price, with the version two further on, and leaves the other products as
-- they were before both.
pub restore-deduct :
    (k : ℕ) (payload : StockDeductRequest) (s s' : Store) (r : StockDeductResponse)
    → Unique s.products
    → deduct_stock_service k payload s ≡ (ok r, s')
    → let back : StockRestoreRequest = record { quantity = payload.quantity } in
      let s'' = (restore_stock_service k back s').1 in
      (p : Product) × (q : Product) × (find k s.products ≡ some p)
      × (find k s''.products ≡ some q)
      × (q.stock ≡ p.stock)
      × (q.version ≡ p.version + 2)
      × (q.price ≡ p.price)
      × ((j : ℕ) → (j == k) ≡ false → find j s''.products ≡ find j s.products)
unfolding restore_stock_service
restore-deduct k payload s s' r u e =
    let (p, d) = deduct-Deducted k payload s s' r u e in
    let back : StockRestoreRequest = record { quantity = payload.quantity } in
    let q = restored back s'.now (deducted payload s.now p) in
    let row = first_where-eq-guarded k (restorable k) s'.products (restorable-id k) d.distinct in
    let same = find-id k s.products p d.found in
    let at = λ (j : ℕ).
      find-update_at k j (restorable k) (restored back s'.now) s'.products
        (deducted payload s.now p) (restorable-id k) (λ x. refl) d.written in
    (
      p,
      q,
      d.found,
      ground (arith, d, row, at k),
      ground (arith, d),
      ground (arith, d),
      refl,
      λ j n. ground (arith, d, d.others j n, row, at j),
    )
