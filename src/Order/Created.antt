-- ===== src/Order/Created.antt =====
-- The whole of `create_order`: reading the products, storing the order, the saga.
use micro_mart.Shared.Int.{ℤ}
use micro_mart.Shared.{
  ℕ, ◌≡◌, refl, ap, none, some, List, [], ◌∷◌, ◌++◌, arith, ◌==◌, ok, keep_if, Dict, sum_by,
}
use micro_mart.Product.Table.{ProductResponse}
use micro_mart.Order.Table.{Order, OrderDb, OrderItem, OrderItemRequest, find}
use micro_mart.Order.Clients.{World}
use micro_mart.Order.Placing.{total_amount, order_items, new_order, place_order}
use micro_mart.Order.Rows.{Stored}
use micro_mart.Order.Deduction.{Covers}
use micro_mart.Order.Totals.{
  total_amount-order_items, total_amount-Covers, order_items-Covers, rows-keep_if, keep_if-fresh,
  find-append,
}

-- The id that the next order gets is not in use.
pub record IsFresh (db : OrderDb) : Type 0 where
  pub no_order : find db.next_order db.orders ≡ none
  pub no_items : keep_if (λ r. r.order_id == db.next_order) db.items ≡ []

-- What storing a new order does: it gets the next id and the total of its rows, which are those of
-- the request.
pub record Placement {S : Type 0} (user_id : ℤ) (items : List OrderItemRequest)
    (products : Dict ProductResponse) (w w' : World S) (order : Order) : Type 0 where
  pub rows : List OrderItem
  pub is_new :
      order ≡ new_order w.session.working.next_order user_id (sum_by (λ r. r.subtotal) rows) w.now
  pub from_request :
      order_items order.id w.now products items w.session.working.next_item ≡ some rows
  pub orders : w'.session.committed.orders ≡ w.session.working.orders ++ order ∷ []
  pub own_items : keep_if (λ r. r.order_id == order.id) w'.session.committed.items ≡ rows
  pub stored : Stored w'.session.committed order w'
  pub same_remote : w'.remote ≡ w.remote

module _ {S : Type 0} (user_id : ℤ) (items : List OrderItemRequest)
    (products : Dict ProductResponse) where
  place_order-eq :
      (total : ℕ) (rows : List OrderItem) (w : World S)
      → total_amount products items ≡ some total
      → order_items w.session.working.next_order w.now products items w.session.working.next_item
        ≡ some rows
      → let order = new_order w.session.working.next_order user_id total w.now in
        let (r, w') = place_order user_id items products w in
        (r ≡ ok order)
        × (w'.session.committed.orders ≡ w.session.working.orders ++ order ∷ [])
        × (w'.session.committed.items ≡ w.session.working.items ++ rows)
        × (w'.session.working ≡ w'.session.committed)
        × (w'.remote ≡ w.remote)
  unfolding place_order
  place_order-eq total rows w t r = ground arith

  pub place_order-Placement :
      (w : World S)
      → IsFresh w.session.working
      → Covers products items
      → (order : Order) × ((place_order user_id items products w).0 ≡ ok order)
        × Placement user_id items products w (place_order user_id items products w).1 order
  place_order-Placement w fresh c =
      let db = w.session.working in
      let (total, t) = total_amount-Covers products items c in
      let (rows, r) = order_items-Covers db.next_order w.now products items db.next_item c in
      let (is_ok, orders, its, clean, remote) = place_order-eq total rows w t r in
      let order = new_order db.next_order user_id total w.now in
      (
        order,
        is_ok,
        record {
          rows = rows;
          is_new =
              ap (λ n. new_order db.next_order user_id n w.now)
                (total_amount-order_items db.next_order w.now products items db.next_item total rows
                  t r);
          from_request = r;
          orders = orders;
          own_items = ground (
            arith,
            its,
            keep_if-fresh db.next_order db.items rows fresh.no_items,
            rows-keep_if db.next_order w.now products items db.next_item rows r,
          );
          stored = record {
            found =
                ground
                  (arith, orders, find-append db.next_order db.orders order fresh.no_order refl);
            clean = clean;
            others = λ j n. refl;
            same_items = refl;
          };
          same_remote = remote;
        },
      )
