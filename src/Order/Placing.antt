-- ===== src/Order/Placing.antt =====
-- The first two stages of `create_order` (services/order-service/app/services/order_service.py):
-- the products are read, then the order and its items are stored. Metrics and log lines are left
-- out.
use micro_mart.Shared.Int.{ℤ}
use micro_mart.Shared.{
  ℕ, suc, ◌+◌, ◌*◌, String, false, not, Option, none, some, List, [], ◌∷◌, ◌++◌, ◌==◌, ok, err,
  Action, ◌>>=◌, ◌>>◌, pure, throw, throw_if, modify, Dict, lookup, insert, update_where,
}
use micro_mart.Shared.Http.{coded_error}
use micro_mart.Shared.Session.{commit}
use micro_mart.Product.Table.{ProductResponse}
use micro_mart.Order.Table.{Order, OrderStatus, SagaStatus, OrderItem, OrderItemRequest}
use micro_mart.Order.Clients.{
  Remote, World, Exception, product_error, http, uncaught, saved, get_product,
}

-- `db.commit()`
abbrev pub save : {S : Type 0} → World S → World S
save w = record w { session = commit w.session; trace = w.trace ++ saved w.session.working ∷ [] }

-- The attributes of the order are set, and written by the commit.
abbrev pub write_order : {S : Type 0} → Order → World S → World S
write_order o w = record w {
  session = record (w.session) {
    working = record (w.session.working) {
      orders = update_where (λ q. q.id == o.id) (λ q. o) w.session.working.orders;
    };
  };
}

unfoldable pub save_order : {S : Type 0} → Order → Action (World S) Exception (Unit {0})
save_order o = modify (λ w. save (write_order o w))

abbrev pub catch_product :
    {S A : Type 0}
    → Action (World S) Exception A
    → (Option String → ℕ → Action (World S) Exception A)
    → Action (World S) Exception A
catch_product m handler w =
    let (r, w') = m w in
    elim r [
      | ok a ↦ (ok a, w')
      | err e ↦ elim e [
        | product_error code status ↦ handler code status w'
        | other ↦ (err other, w')
      ]
    ]

-- `sum(products[item.product_id]["price"] * item.quantity for item in payload.items)`
unfoldable pub total_amount : Dict ProductResponse → List OrderItemRequest → Option ℕ
total_amount products [] = some 0
total_amount products (i ∷ is) = elim (lookup i.product_id products) [
  | none ↦ none
  | some p ↦ elim (total_amount products is) [
    | none ↦ none
    | some n ↦ some (p.price * i.quantity + n)
  ]
]

abbrev pub order_item : ℕ → ℕ → ProductResponse → OrderItemRequest → ℕ → OrderItem
order_item order_id now p i id = record {
  id = id;
  order_id = order_id;
  product_id = i.product_id;
  product_name = p.name;
  unit_price = p.price;
  quantity = i.quantity;
  discount_amount = 0;
  subtotal = p.price * i.quantity;
  created_at = now;
}

-- The loop over `payload.items` that adds the order's items, numbered from `id`.
unfoldable pub order_items :
    ℕ → ℕ → Dict ProductResponse → List OrderItemRequest → ℕ → Option (List OrderItem)
order_items order_id now products [] id = some []
order_items order_id now products (i ∷ is) id = elim (lookup i.product_id products) [
  | none ↦ none
  | some p ↦ elim (order_items order_id now products is (suc id)) [
    | none ↦ none
    | some rest ↦ some (order_item order_id now p i id ∷ rest)
  ]
]

abbrev pub new_order : ℕ → ℤ → ℕ → ℕ → Order
new_order id user_id total now = record {
  id = id;
  user_id = user_id;
  status = OrderStatus.pending;
  total_amount = total;
  payment_id = none;
  failure_reason = none;
  saga_status = SagaStatus.started;
  stock_deducted = false;
  created_at = now;
}

abbrev pub count_items : List OrderItem → ℕ
count_items [] = 0
count_items (i ∷ is) = suc (count_items is)

-- Stage 2: the order and its items are stored, PENDING and STARTED.
unfoldable pub place_order :
    {S : Type 0}
    → ℤ
    → List OrderItemRequest
    → Dict ProductResponse
    → Action (World S) Exception Order
place_order user_id items products w =
    let db = w.session.working in
    let id = db.next_order in
    elim (total_amount products items) [
      | none ↦ (err uncaught, w)
      | some total ↦ elim (order_items id w.now products items db.next_item) [
        | none ↦ (err uncaught, w)
        | some rows ↦ (
          ok (new_order id user_id total w.now),
          save (record w {
            session = record (w.session) {
              working = record {
                orders = db.orders ++ new_order id user_id total w.now ∷ [];
                items = db.items ++ rows;
                next_order = suc db.next_order;
                next_item = db.next_item + count_items rows;
              };
            };
          }),
        )
      ]
    ]

module _ {S : Type 0} (net : Remote S) where
  -- Stage 1: every product is read before anything is written.
  unfoldable pub fetch_products :
      List OrderItemRequest
      → Dict ProductResponse
      → Action (World S) Exception (Dict ProductResponse)
  fetch_products [] products = pure products
  fetch_products (i ∷ is) products = do
    product ←
        catch_product (get_product net i.product_id)
          (λ code status. throw (http (coded_error status code)))
    throw_if (not product.is_active) (http (coded_error 422 (some "PRODUCT_INACTIVE")))
    fetch_products is (insert i.product_id product products)
