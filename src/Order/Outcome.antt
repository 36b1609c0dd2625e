-- ===== src/Order/Outcome.antt =====
-- The saga as a whole, from the first commit on: how it ends, what it has stored, and what stock
-- it has moved.
use micro_mart.Shared.{
  ℕ, ◌+◌, ◌≡◌, refl, ◌⊎◌, String, Bool, true, Option, some, List, [], arith, Result, ok, err, inl,
  inr, Dict,
}
use micro_mart.Product.Table.{ProductResponse}
use micro_mart.Payment.Table.{PaymentResponse}
use micro_mart.Order.Table.{Order, OrderDb, OrderItemRequest, OrderResponse, find}
use micro_mart.Order.Clients.{Remote, World, Exception}
use micro_mart.Order.Placing.{save_order}
use micro_mart.Order.Saga.{
  deducted_order, asking_order, completed_order, failed_order, order_response,
  publish_order_completed, load_order, deduct_all, charge, complete, run_saga,
}
use micro_mart.Order.Laws.{taken, pairs, KeepsStock}
use micro_mart.Order.Rows.{Stored, save_order-Stored, frame-Stored}
use micro_mart.Order.Deduction.{Covers, Deduction, deduct_all-Deduction}
use micro_mart.Order.Charging.{Charged, charge-Charged}
use micro_mart.Order.Charging.Asking.{save_order-remote}

module _ {S : Type 0} (net : Remote S) (stock : S → ℕ → ℕ) (law : KeepsStock net stock)
    (base : OrderDb) (order : Order) where
  -- The order as it stands when it is paid for.
  abbrev pub finished : ℕ → Order
  finished payment_id = completed_order payment_id (asking_order (deducted_order order))

  load_order-found :
      (o : Order) (w : World S)
      → find o.id w.session.working.orders ≡ some o
      → load_order o.id w ≡ (ok (order_response o w.session.working.items), w)
  unfolding load_order
  load_order-found o w e = ground arith

  publish-session :
      (o : Order) (w : World S)
      → ((publish_order_completed o w).0 ≡ ok tt)
        × ((publish_order_completed o w).1.session ≡ w.session)
        × ((publish_order_completed o w).1.remote ≡ w.remote)
  unfolding publish_order_completed
  publish-session o w = ground arith

  -- What the saga leaves when it fails: the order is FAILED, from the stage it had reached, and
  -- if it says that the stock is rolled back, then all of it is.
  pub record Rejected (w w' : World S) : Type 0 where
    pub before : Order
    pub stage : (before ≡ order) ⊎ (before ≡ asking_order (deducted_order order))
    pub reason : Option String
    pub rolled_back : Bool
    pub stored : Stored base (failed_order rolled_back reason before) w'
    pub back : rolled_back ≡ true → (j : ℕ) → stock w'.remote j ≡ stock w.remote j

  abbrev pub Outcome :
      List OrderItemRequest → World S → Result Exception OrderResponse × World S → Type 0
  Outcome items w (ok response, w') =
      (payment_id : ℕ) × (response ≡ order_response (finished payment_id) base.items)
      × Stored base (finished payment_id) w'
      × ((j : ℕ) → stock w'.remote j + taken (pairs items) j ≡ stock w.remote j)
  Outcome items w (err e, w') = Rejected w w'

  complete-eq :
      (p : PaymentResponse) (w w' : World S)
      → (publish_order_completed (finished p.id) (save_order (finished p.id) w).1).1 ≡ w'
      → find order.id w'.session.working.orders ≡ some (finished p.id)
      → complete net order p w ≡ (ok (order_response (finished p.id) w'.session.working.items), w')
  unfolding complete save_order
  complete-eq p w w' e found = ground (
    arith,
    load_order-found (finished p.id) w',
    publish-session (finished p.id) (save_order (finished p.id) w).1,
  )

  complete-Outcome :
      (items : List OrderItemRequest) (p : PaymentResponse) (w w' : World S)
      → Stored base (asking_order (deducted_order order)) w'
      → ((j : ℕ) → stock w'.remote j + taken (pairs items) j ≡ stock w.remote j)
      → Outcome items w (complete net order p w')
  complete-Outcome items p w w' h m =
      let saved = (save_order (finished p.id) w').1 in
      let last = (publish_order_completed (finished p.id) saved).1 in
      let (unused, same, still) = publish-session (finished p.id) saved in
      let kept =
        frame-Stored base (finished p.id) saved last same (
          save_order-Stored base (asking_order (deducted_order order)) (finished p.id) w' refl h) in
      rw (complete-eq p w' last refl (ground (arith, kept.clean, kept.found))) (
        p.id,
        ground (arith, kept.clean, kept.same_items),
        kept,
        λ j. ground (arith, m j, still, save_order-remote (finished p.id) w'),
      )

  -- The payment stage, after the deduction.
  run_saga-paid :
      (n : ℕ) (products : Dict ProductResponse) (items : List OrderItemRequest)
      (done : List (ℕ × ℕ)) (p : PaymentResponse) (w w' w'' : World S)
      → deduct_all net n order products items [] w ≡ (ok done, w')
      → charge net order done w' ≡ (ok p, w'')
      → run_saga net n products items order w ≡ complete net order p w''
  unfolding run_saga
  run_saga-paid n products items done p w w' w'' d c = ground arith

  run_saga-declined :
      (n : ℕ) (products : Dict ProductResponse) (items : List OrderItemRequest)
      (done : List (ℕ × ℕ)) (e : Exception) (w w' w'' : World S)
      → deduct_all net n order products items [] w ≡ (ok done, w')
      → charge net order done w' ≡ (err e, w'')
      → run_saga net n products items order w ≡ (err e, w'')
  unfolding run_saga
  run_saga-declined n products items done e w w' w'' d c = ground arith

  run_saga-failed :
      (n : ℕ) (products : Dict ProductResponse) (items : List OrderItemRequest) (e : Exception)
      (w w' : World S)
      → deduct_all net n order products items [] w ≡ (err e, w')
      → run_saga net n products items order w ≡ (err e, w')
  unfolding run_saga
  run_saga-failed n products items e w w' d = ground arith

  charge-Outcome :
      (n : ℕ) (products : Dict ProductResponse) (items : List OrderItemRequest)
      (done : List (ℕ × ℕ)) (w w' : World S) (out : Result Exception PaymentResponse × World S)
      → deduct_all net n order products items [] w ≡ (ok done, w')
      → ((j : ℕ) → stock w'.remote j + taken done j ≡ stock w.remote j)
      → done ≡ pairs items
      → charge net order done w' ≡ out
      → Charged net stock law base order done w' out
      → Outcome items w (run_saga net n products items order w)
  charge-Outcome n products items done w w' (ok p, w'') d m same c (h, still, unused) =
      rw (run_saga-paid n products items done p w w' w'' d c)
        (complete-Outcome items p w w'' h (λ j. ground (arith, m j, still j, same)))
  charge-Outcome n products items done w w' (err e, w'') d m same c h =
      rw (run_saga-declined n products items done e w w' w'' d c) record {
        before = asking_order (deducted_order order);
        stage = inr refl;
        reason = h.code;
        rolled_back = h.rolled_back;
        stored = h.stored;
        back = λ t j. ground (arith, m j, h.back t j);
      }

  deducted-Outcome :
      (n : ℕ) (products : Dict ProductResponse) (items : List OrderItemRequest) (w : World S)
      (out : Result Exception (List (ℕ × ℕ)) × World S)
      → deduct_all net n order products items [] w ≡ out
      → Deduction net stock law base order items [] w out
      → Outcome items w (run_saga net n products items order w)
  deducted-Outcome n products items w (ok done, w') d (same, h, m) =
      charge-Outcome n products items done w w' (charge net order done w') d
        (λ j. ground (arith, m j)) same refl (charge-Charged net stock law base order done w' h)
  deducted-Outcome n products items w (err e, w') d h =
      rw (run_saga-failed n products items e w w' d) record {
        before = order;
        stage = inl refl;
        reason = h.code;
        rolled_back = h.rolled_back;
        stored = h.stored;
        back = λ t j. ground (arith, h.back t j);
      }

  -- From a stored order with every requested product read, over services that move stock only as
  -- they report: the saga succeeds, the order is stored COMPLETED with its payment, is what is
  -- answered, and every item has been taken once; or it raises, the order is stored FAILED, and if
  -- it is stored as STOCK_ROLLED_BACK then every product has the stock it had. No other order and
  -- no item is changed.
  pub run_saga-Outcome :
      (n : ℕ) (products : Dict ProductResponse) (items : List OrderItemRequest) (w : World S)
      → Covers products items
      → Stored base order w
      → Outcome items w (run_saga net n products items order w)
  run_saga-Outcome n products items w c h =
      deducted-Outcome n products items w (deduct_all net n order products items [] w) refl
        (deduct_all-Deduction net stock law base order n products items [] w c h)
