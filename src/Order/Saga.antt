-- ===== src/Order/Saga.antt =====
-- The order saga from the first commit on: `create_order` and `_publish_order_completed`
-- (services/order-service/app/services/order_service.py). Its stages are functions of their own,
-- composed in the order of the code; metrics and log lines are left out.
use micro_mart.Shared.Int.{ℤ}
use micro_mart.Shared.{
  ℕ, String, Bool, true, ◌&&◌, ◌||◌, Option, none, some, List, [], ◌∷◌, ◌++◌, ◌==◌, ok, err, Action,
  ◌>>=◌, ◌>>◌, pure, throw, or_throw, if◌then◌else◌, Dict, lookup, keep_if,
}
use micro_mart.Shared.Http.{coded_error}
use micro_mart.Product.Table.{ProductResponse}
use micro_mart.Payment.Table.{PaymentResponse}
use micro_mart.Order.Table.{
  Order, OrderStatus, SagaStatus, OrderItem, OrderItemRequest, OrderCreateRequest, OrderResponse,
  find,
}
use micro_mart.Order.Clients.{
  Remote, World, Exception, payment_error, http, uncaught, deduct_attempts, restore_stock,
  request_payment,
}
use micro_mart.Order.Placing.{save_order, catch_product, place_order, fetch_products}

abbrev pub failed_order : Bool → Option String → Order → Order
failed_order rolled_back reason o = record o {
  status = OrderStatus.failed;
  saga_status =
      if rolled_back then SagaStatus.stock_rolled_back else SagaStatus.stock_rollback_needed;
  failure_reason = reason;
}

-- `_payment_status_map.get(e.status_code, 502)`
abbrev pub payment_status : ℕ → ℕ
payment_status status =
    if status == 402 then 402 else if status == 504 then 504 else if status == 503 then 503 else 502

module _ {S : Type 0} (net : Remote S) where
  -- The rollback loop: every deducted item is restored, and one failure is remembered.
  unfoldable pub restore_all : List (ℕ × ℕ) → Bool → Action (World S) Exception Bool
  restore_all [] success = pure success
  restore_all ((product_id, quantity) ∷ rest) success = do
    restored ← restore_stock net product_id quantity
    restore_all rest (success && restored)

  -- Stage 3 fails: what was deducted is restored, then the order is stored as FAILED.
  unfoldable pub fail_deduction :
      Order → List (ℕ × ℕ) → Option String → ℕ → Action (World S) Exception (List (ℕ × ℕ))
  fail_deduction order done code status = do
    rollback_success ← restore_all done true
    save_order (failed_order rollback_success code order)
    throw (http (coded_error status code))

  -- Stage 3: the items are deducted in turn; the pairs that were deducted are returned.
  unfoldable pub deduct_all :
      ℕ
      → Order
      → Dict ProductResponse
      → List OrderItemRequest
      → List (ℕ × ℕ)
      → Action (World S) Exception (List (ℕ × ℕ))
  deduct_all max_retry order products [] done = pure done
  deduct_all max_retry order products (i ∷ is) done = do
    product ← or_throw (lookup i.product_id products) uncaught
    now_done ←
        catch_product
          (deduct_attempts net max_retry i.product_id i.quantity product.version >>= λ _.
            pure (done ++ (i.product_id, i.quantity) ∷ []))
          (fail_deduction order done)
    deduct_all max_retry order products is now_done

abbrev pub catch_payment :
    {S A : Type 0}
    → Action (World S) Exception A
    → (Option String → ℕ → Action (World S) Exception A)
    → Action (World S) Exception A
catch_payment m handler w =
    let (r, w') = m w in
    elim r [
      | ok a ↦ (ok a, w')
      | err e ↦ elim e [
        | payment_error code status ↦ handler code status w'
        | other ↦ (err other, w')
      ]
    ]

-- The states that the saga stores between the deduction and the end.
abbrev pub deducted_order : Order → Order
deducted_order o = record o {
  status = OrderStatus.stock_deducted;
  saga_status = SagaStatus.stock_deducted;
  stock_deducted = true;
}

abbrev pub asking_order : Order → Order
asking_order o = record o {
  status = OrderStatus.payment_requested;
  saga_status = SagaStatus.payment_requested;
}

abbrev pub marked_order : Option String → Order → Order
marked_order code o = record o {
  saga_status = SagaStatus.stock_rollback_needed;
  failure_reason = code;
}

abbrev pub completed_order : ℕ → Order → Order
completed_order payment_id o = record o {
  status = OrderStatus.completed;
  saga_status = SagaStatus.completed;
  payment_id = some payment_id;
}

-- Best effort: with no client, a closed one or a failing `publish`, nothing is sent.
unfoldable pub publish_order_completed :
    {S : Type 0} → Order → Action (World S) Exception (Unit {0})
publish_order_completed o w = elim w.nats [
  | none ↦ (ok tt, w)
  | some nc ↦ if nc.is_closed || nc.raises then (ok tt, w) else (
    ok tt,
    record w {
      published =
          w.published
          ++ record {
            order_id = o.id;
            user_id = o.user_id;
            total_amount = o.total_amount;
            payment_id = o.payment_id;
          }
            ∷ [];
    },
  )
]

abbrev pub order_response : Order → List OrderItem → OrderResponse
order_response o items = record {
  id = o.id;
  user_id = o.user_id;
  status = o.status;
  total_amount = o.total_amount;
  payment_id = o.payment_id;
  failure_reason = o.failure_reason;
  items = keep_if (λ i. i.order_id == o.id) items;
  created_at = o.created_at;
}

-- The last SELECT, with `scalar_one`.
unfoldable pub load_order : {S : Type 0} → ℕ → Action (World S) Exception OrderResponse
load_order order_id w = elim (find order_id w.session.working.orders) [
  | none ↦ (err uncaught, w)
  | some o ↦ (ok (order_response o w.session.working.items), w)
]

module _ {S : Type 0} (net : Remote S) where
  -- Stage 5 fails: the order is marked for recovery first, then the stock is restored.
  unfoldable pub fail_payment :
      Order → List (ℕ × ℕ) → Option String → ℕ → Action (World S) Exception PaymentResponse
  fail_payment order done code status = do
    save_order (marked_order code order)
    rollback_success ← restore_all net done true
    save_order (failed_order rollback_success code order)
    throw (http (coded_error (payment_status status) code))

  -- Stages 4 and 5.
  unfoldable pub charge : Order → List (ℕ × ℕ) → Action (World S) Exception PaymentResponse
  charge order done = do
    save_order (deducted_order order)
    save_order (asking_order (deducted_order order))
    catch_payment (request_payment net order.id order.user_id order.total_amount)
        (fail_payment (asking_order (deducted_order order)) done)

  -- Stage 6.
  unfoldable pub complete : Order → PaymentResponse → Action (World S) Exception OrderResponse
  complete order payment = do
    let finished = completed_order payment.id (asking_order (deducted_order order))
    save_order finished
    publish_order_completed finished
    load_order order.id

  -- What follows the first commit.
  unfoldable pub run_saga :
      ℕ
      → Dict ProductResponse
      → List OrderItemRequest
      → Order
      → Action (World S) Exception OrderResponse
  run_saga max_retry products items order = do
    done ← deduct_all net max_retry order products items []
    payment ← charge order done
    complete order payment

  unfoldable pub create_order :
      ℕ → ℤ → OrderCreateRequest → Action (World S) Exception OrderResponse
  create_order max_retry user_id payload = do
    products ← fetch_products net payload.items []
    order ← place_order user_id payload.items products
    run_saga max_retry products payload.items order
