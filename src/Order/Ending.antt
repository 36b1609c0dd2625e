-- ===== src/Order/Ending.antt =====
-- How `create_order` ends, seen from outside: the answer, the database and the stock.
use micro_mart.Shared.Int.{ℤ}
use micro_mart.Shared.{
  ℕ, ◌+◌, ◌≡◌, refl, ap, sym, subst, ◌∙◌, ◌⊎◌, Bool, true, false, none, some, List, ◌==◌, arith,
  Result, ok, err, inl, inr, sum_by, if◌then◌else◌, Dict, [],
}
use micro_mart.Product.Table.{ProductResponse}
use micro_mart.Order.Table.{
  Order, OrderStatus, SagaStatus, OrderItemRequest, OrderCreateRequest, OrderResponse, find,
}
use micro_mart.Order.Clients.{Remote, World, Exception}
use micro_mart.Order.Placing.{place_order, fetch_products}
use micro_mart.Order.Saga.{
  run_saga, create_order, failed_order, order_response, deducted_order, asking_order,
}
use micro_mart.Order.Laws.{KeepsStock, taken, pairs}
use micro_mart.Order.Rows.{Stored}
use micro_mart.Order.Placed.{Untouched, Fetched, fetch_products-Fetched}
use micro_mart.Order.Totals.{find-append_ne}
use micro_mart.Order.Outcome.{finished, Rejected, Outcome, run_saga-Outcome}
use micro_mart.Order.Created.{IsFresh, Placement, place_order-Placement}

module _ {S : Type 0} (net : Remote S) (stock : S → ℕ → ℕ) (law : KeepsStock net stock) where
  -- The order is stored as completed, with its payment, and answered so; the answer's total is that
  -- of its items; each requested quantity has been taken once.
  pub record Completed (user_id : ℤ) (items : List OrderItemRequest) (w w' : World S)
      (response : OrderResponse) : Type 0 where
    pub order : Order
    pub stored : find response.id w'.session.committed.orders ≡ some order
    pub answer : response ≡ order_response order w'.session.committed.items
    pub owner : order.user_id ≡ user_id
    pub new_id : response.id ≡ w.session.committed.next_order
    pub completed :
        (response.status ≡ OrderStatus.completed)
        × (order.status ≡ OrderStatus.completed)
        × (order.saga_status ≡ SagaStatus.completed)
    pub payment : (k : ℕ) × (order.payment_id ≡ some k) × (response.payment_id ≡ some k)
    pub total : response.total_amount ≡ sum_by (λ r. r.subtotal) response.items
    pub others :
        (j : ℕ)
        → (j == response.id) ≡ false
        → find j w'.session.committed.orders ≡ find j w.session.committed.orders
    pub taken_once : (j : ℕ) → stock w'.remote j + taken (pairs items) j ≡ stock w.remote j

  -- The order is stored as failed. It says whether the stock is rolled back, and if so it is.
  pub record Abandoned (w w' : World S) : Type 0 where
    pub order : Order
    pub stored : find w.session.committed.next_order w'.session.committed.orders ≡ some order
    pub failed : order.status ≡ OrderStatus.failed
    pub unpaid : order.payment_id ≡ none
    pub rolled_back : Bool
    pub saga :
        order.saga_status
        ≡ (if rolled_back then SagaStatus.stock_rolled_back else SagaStatus.stock_rollback_needed)
    pub back : rolled_back ≡ true → (j : ℕ) → stock w'.remote j ≡ stock w.remote j
    pub others :
        (j : ℕ)
        → (j == w.session.committed.next_order) ≡ false
        → find j w'.session.committed.orders ≡ find j w.session.committed.orders

  abbrev pub Ending :
      ℤ → List OrderItemRequest → World S → Result Exception OrderResponse × World S → Type 0
  Ending user_id items w (ok response, w') = Completed user_id items w w' response
  Ending user_id items w (err e, w') = Untouched net stock law w w' ⊎ Abandoned w w'

  module _ (user_id : ℤ) (items : List OrderItemRequest) (products : Dict ProductResponse)
      (w w1 w2 : World S) (order : Order) (clean : w.session.working ≡ w.session.committed)
      (u : Untouched net stock law w w1) (p : Placement user_id items products w1 w2 order) where
    placed-id : order.id ≡ w.session.committed.next_order
    placed-id =
        ap (λ o. o.id) p.is_new
        ∙ ap (λ s. s.working.next_order) u.same_session
        ∙ ap (λ d. d.next_order) clean

    placed-others :
        (j : ℕ)
        → (j == order.id) ≡ false
        → find j w2.session.committed.orders ≡ find j w.session.committed.orders
    placed-others j n =
        ap (find j) p.orders
        ∙ find-append_ne j w1.session.working.orders order n
        ∙ ap (λ s. find j s.working.orders) u.same_session
        ∙ ap (λ d. find j d.orders) clean

    placed-stock : (j : ℕ) → stock w2.remote j ≡ stock w.remote j
    placed-stock j = ap (λ s. stock s j) p.same_remote ∙ u.same_stock j

    placed-Completed :
        (k : ℕ) (w' : World S)
        → Stored w2.session.committed (finished net stock law w2.session.committed order k) w'
        → ((j : ℕ) → stock w'.remote j + taken (pairs items) j ≡ stock w2.remote j)
        → Completed user_id items w w' (
            order_response
              (finished net stock law w2.session.committed order k)
              w2.session.committed.items)
    placed-Completed k w' h m = record {
      order = finished net stock law w2.session.committed order k;
      stored = h.found;
      answer =
          ap (order_response (finished net stock law w2.session.committed order k))
            (sym h.same_items);
      owner = ap (λ o. o.user_id) p.is_new;
      new_id = placed-id;
      completed = (refl, refl, refl);
      payment = (k, refl, refl);
      total = ap (λ o. o.total_amount) p.is_new ∙ ap (sum_by (λ r. r.subtotal)) (sym p.own_items);
      others = λ j n. h.others j n ∙ placed-others j n;
      taken_once = λ j. m j ∙ placed-stock j;
    }

    before-fields :
        (before : Order)
        → (before ≡ order) ⊎ (before ≡ asking_order (deducted_order order))
        → (before.id ≡ order.id) × (before.payment_id ≡ none)
    before-fields before (inl e) =
        (ap (λ o. o.id) e, ap (λ o. o.payment_id) e ∙ ap (λ o. o.payment_id) p.is_new)
    before-fields before (inr e) =
        (ap (λ o. o.id) e, ap (λ o. o.payment_id) e ∙ ap (λ o. o.payment_id) p.is_new)

    placed-Abandoned :
        (w' : World S) → Rejected net stock law w2.session.committed order w2 w' → Abandoned w w'
    placed-Abandoned w' h =
        let (id, unpaid) = before-fields h.before h.stage in
        record {
          order = failed_order h.rolled_back h.reason h.before;
          stored =
              ap (λ k. find k w'.session.committed.orders) (sym (id ∙ placed-id)) ∙ h.stored.found;
          failed = refl;
          unpaid = unpaid;
          rolled_back = h.rolled_back;
          saga = refl;
          back = λ t j. h.back t j ∙ placed-stock j;
          others = λ j n.
              h.stored.others j (ap (λ k. j == k) (id ∙ placed-id) ∙ n)
              ∙ placed-others j (ap (λ k. j == k) placed-id ∙ n);
        }

    placed-Ending :
        (out : Result Exception OrderResponse × World S)
        → Outcome net stock law w2.session.committed order items w2 out
        → Ending user_id items w out
    placed-Ending (ok response, w') (k, same, h, m) = rw same (placed-Completed k w' h m)
    placed-Ending (err e, w') h = inr (placed-Abandoned w' h)

  create_order-err :
      (n : ℕ) (user_id : ℤ) (payload : OrderCreateRequest) (e : Exception) (w w1 : World S)
      → fetch_products net payload.items [] w ≡ (err e, w1)
      → create_order net n user_id payload w ≡ (err e, w1)
  unfolding create_order
  create_order-err n user_id payload e w w1 f = ground arith

  create_order-placed :
      (n : ℕ) (user_id : ℤ) (payload : OrderCreateRequest) (products : Dict ProductResponse)
      (order : Order) (w w1 w2 : World S)
      → fetch_products net payload.items [] w ≡ (ok products, w1)
      → place_order user_id payload.items products w1 ≡ (ok order, w2)
      → create_order net n user_id payload w ≡ run_saga net n products payload.items order w2
  unfolding create_order
  create_order-placed n user_id payload products order w w1 w2 f p = ground arith

  fetch_products-Ending :
      (n : ℕ) (user_id : ℤ) (payload : OrderCreateRequest) (w : World S)
      (out : Result Exception (Dict ProductResponse) × World S)
      → w.session.working ≡ w.session.committed
      → IsFresh w.session.committed
      → fetch_products net payload.items [] w ≡ out
      → Fetched net stock law payload.items [] w out
      → Ending user_id payload.items w (create_order net n user_id payload w)
  fetch_products-Ending n user_id payload w (err e, w1) clean fresh f u =
      rw (create_order-err n user_id payload e w w1 f) (inl u)
  fetch_products-Ending n user_id payload w (ok products, w1) clean fresh f (c, unused, u) =
      let same = ap (λ s. s.working) u.same_session ∙ clean in
      let (order, is_ok, p) =
        place_order-Placement user_id payload.items products w1 (subst IsFresh (sym same) fresh)
          c in
      let w2 = (place_order user_id payload.items products w1).1 in
      rw (create_order-placed n user_id payload products order w w1 w2 f (ap (λ r. (r, w2)) is_ok))
        (placed-Ending user_id payload.items products w w1 w2 order clean u p _ (
          run_saga-Outcome net stock law w2.session.committed order n products payload.items w2 c
            p.stored))

  -- A request in a session with nothing pending and the next order's id unused, over services that
  -- move stock only as they report. If `create_order` answers, the order is stored COMPLETED with
  -- its payment and for the user, the answer is that order with its items, whose subtotals add up
  -- to its total, and each requested quantity has left the stock once. If it raises, either no
  -- order was stored and no stock has moved, or the new order is stored FAILED and unpaid, and if
  -- it is STOCK_ROLLED_BACK every product has the stock it had. No other order is changed.
  pub create_order-Ending :
      (n : ℕ) (user_id : ℤ) (payload : OrderCreateRequest) (w : World S)
      → w.session.working ≡ w.session.committed
      → IsFresh w.session.committed
      → Ending user_id payload.items w (create_order net n user_id payload w)
  create_order-Ending n user_id payload w clean fresh =
      fetch_products-Ending n user_id payload w (fetch_products net payload.items [] w) clean fresh
        refl (fetch_products-Fetched net stock law payload.items [] w)
