-- ===== src/Order/Charging/Asking.antt =====
-- The request of the payment stage, and the status that its failure is answered with.
use micro_mart.Shared.{ℕ, ◌≡◌, refl, ◌∙◌, true, false, ◌||◌, ◌==◌, arith, Result}
use micro_mart.Payment.Table.{PaymentResponse}
use micro_mart.Order.Table.{Order, OrderStatus, SagaStatus, OrderDb}
use micro_mart.Order.Clients.{Remote, World, Exception, request_payment}
use micro_mart.Order.Placing.{save_order}
use micro_mart.Order.Saga.{deducted_order, asking_order, payment_status}
use micro_mart.Order.Rows.{Stored, save_order-Stored}

-- Storing an order moves no stock.
pub save_order-remote :
    {S : Type 0} (o : Order) (w : World S) → (save_order o w).1.remote ≡ w.remote
unfolding save_order
save_order-remote o w = refl

pub payment_status-kept :
    (status : ℕ)
    → (status == 402 || (status == 503 || status == 504)) ≡ true
    → payment_status status ≡ status
payment_status-kept status e = ground arith

pub payment_status-other :
    (status : ℕ)
    → (status == 402 || (status == 503 || status == 504)) ≡ false
    → payment_status status ≡ 502
payment_status-other status e = ground arith

module _ {S : Type 0} (net : Remote S) (base : OrderDb) (order : Order) where
  -- The payment of the order is requested in a world in which the order is stored as
  -- PAYMENT_REQUESTED and the services are as in `w`, and `r` is what the request comes to.
  pub record Asked (w : World S) (r : Result Exception PaymentResponse) : Type 0 where
    pub there : World S
    pub stored :
        Stored base
          (record order {
            status = OrderStatus.payment_requested;
            saga_status = SagaStatus.payment_requested;
            stock_deducted = true;
          })
          there
    pub same_services : there.remote ≡ w.remote
    pub answered : (request_payment net order.id order.user_id order.total_amount there).0 ≡ r

  -- The world in which the payment is requested.
  abbrev pub asking_world : World S → World S
  asking_world w =
      (save_order (asking_order (deducted_order order)) (save_order (deducted_order order) w).1).1

  pub asking_world-Stored :
      (w : World S)
      → Stored base order w
      → Stored base (asking_order (deducted_order order)) (asking_world w)
  asking_world-Stored w h =
      save_order-Stored base (deducted_order order) _ _ refl
        (save_order-Stored base order (deducted_order order) w refl h)

  pub asking_world-Asked :
      (w : World S) (r : Result Exception PaymentResponse)
      → Stored base order w
      → (request_payment net order.id order.user_id order.total_amount (asking_world w)).0 ≡ r
      → Asked w r
  asking_world-Asked w r h e = record {
    there = asking_world w;
    stored = asking_world-Stored w h;
    same_services =
        save_order-remote (asking_order (deducted_order order))
          (save_order (deducted_order order) w).1
        ∙ save_order-remote (deducted_order order) w;
    answered = e;
  }
