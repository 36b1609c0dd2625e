-- ===== src/Order/Totals.antt =====
-- The rows and the total of a new order, and the order among those of the database.
use micro_mart.Shared.{
  ℕ, suc, ◌+◌, ◌*◌, ◌≡◌, refl, false, none, some, List, [], ◌∷◌, ◌++◌, arith, ◌==◌, Option-cases,
  Bool-cases, inl, inr, keep_if, Dict, lookup, sum_by,
}
use micro_mart.Product.Table.{ProductResponse}
use micro_mart.Order.Table.{Order, OrderItem, OrderItemRequest, find}
use micro_mart.Order.Placing.{total_amount, order_item, order_items}
use micro_mart.Order.Deduction.{Covers}

-- The total of an order, and what its rows add up to.
pub total_amount-order_items :
    (order_id now : ℕ) (products : Dict ProductResponse) (items : List OrderItemRequest)
    (id total : ℕ) (rows : List OrderItem)
    → total_amount products items ≡ some total
    → order_items order_id now products items id ≡ some rows
    → total ≡ sum_by (λ r. r.subtotal) rows
unfolding total_amount order_items
total_amount-order_items order_id now products [] id total rows t r = ground arith
total_amount-order_items order_id now products (i ∷ is) id total rows t r =
    elim (Option-cases (lookup i.product_id products)) [
      | inl e ↦ absurd (ground arith)
      | inr (p, e) ↦ elim (Option-cases (total_amount products is)) [
        | inl e' ↦ absurd (ground arith)
        | inr (m, e') ↦ elim (Option-cases (order_items order_id now products is (suc id))) [
          | inl e'' ↦ absurd (ground arith)
          | inr (rest, e'') ↦
              ground
                (arith, total_amount-order_items order_id now products is (suc id) m rest e' e'')
        ]
      ]
    ]

-- With every product read, there is a total and there are rows.
pub total_amount-Covers :
    (products : Dict ProductResponse) (items : List OrderItemRequest)
    → Covers products items
    → (total : ℕ) × (total_amount products items ≡ some total)
unfolding total_amount
total_amount-Covers products [] c = (0, refl)
total_amount-Covers products (i ∷ is) ((p, e), c) =
    let (m, e') = total_amount-Covers products is c in (p.price * i.quantity + m, ground arith)

pub order_items-Covers :
    (order_id now : ℕ) (products : Dict ProductResponse) (items : List OrderItemRequest) (id : ℕ)
    → Covers products items
    → (rows : List OrderItem) × (order_items order_id now products items id ≡ some rows)
unfolding order_items
order_items-Covers order_id now products [] id c = ([], refl)
order_items-Covers order_id now products (i ∷ is) id ((p, e), c) =
    let (rest, e') = order_items-Covers order_id now products is (suc id) c in
    (order_item order_id now p i id ∷ rest, ground arith)

-- The rows of an order carry its id.
pub rows-keep_if :
    (order_id now : ℕ) (products : Dict ProductResponse) (items : List OrderItemRequest) (id : ℕ)
    (rows : List OrderItem)
    → order_items order_id now products items id ≡ some rows
    → keep_if (λ r. r.order_id == order_id) rows ≡ rows
unfolding order_items
rows-keep_if order_id now products [] id rows r = ground arith
rows-keep_if order_id now products (i ∷ is) id rows r =
    elim (Option-cases (lookup i.product_id products)) [
      | inl e ↦ absurd (ground arith)
      | inr (p, e) ↦ elim (Option-cases (order_items order_id now products is (suc id))) [
        | inl e'' ↦ absurd (ground arith)
        | inr (rest, e'') ↦ ground (arith, rows-keep_if order_id now products is (suc id) rest e'')
      ]
    ]

pub keep_if-fresh :
    (k : ℕ) (old rows : List OrderItem)
    → keep_if (λ r. r.order_id == k) old ≡ []
    → keep_if (λ r. r.order_id == k) (old ++ rows) ≡ keep_if (λ r. r.order_id == k) rows
keep_if-fresh k [] rows e = refl
keep_if-fresh k (x ∷ xs) rows e = elim (Bool-cases (x.order_id == k)) [
  | inl a ↦ absurd (ground arith)
  | inr a ↦ ground (arith, keep_if-fresh k xs rows)
]

pub find-append :
    (k : ℕ) (os : List Order) (o : Order)
    → find k os ≡ none
    → o.id ≡ k
    → find k (os ++ o ∷ []) ≡ some o
find-append k [] o e i = ground arith
find-append k (x ∷ xs) o e i = ground (arith, find-append k xs o)

pub find-append_ne :
    (j : ℕ) (os : List Order) (o : Order) → (j == o.id) ≡ false → find j (os ++ o ∷ []) ≡ find j os
find-append_ne j [] o n = ground arith
find-append_ne j (x ∷ xs) o n = ground (arith, find-append_ne j xs o)
