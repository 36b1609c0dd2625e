-- ===== src/Network/Laws.antt =====
-- The deployed services keep the law that the saga relies on.
use micro_mart.Shared.{
  ℕ, suc, ◌+◌, ◌≡◌, ◌≢◌, refl, ap, ◌∙◌, Bool, true, false, arith, err, if◌then◌else◌,
}
use micro_mart.Shared.Http.{Reply}
use micro_mart.Product.Table.{ProductResponse, StockDeductRequest, StockRestoreRequest, find}
use micro_mart.Product.Conservation.{stock_of}
use micro_mart.Product.Routes.{
  get_product as product_route, deduct_stock as deduct_route, restore_stock as restore_route,
}
use micro_mart.Payment.Routes.{create_payment as payment_route}
use micro_mart.Payment.Table.{PaymentCreateRequest, PaymentResponse}
use micro_mart.Order.Clients.{uncaught, judge_deduct, judge_product, judge_restore, judge_payment}
use micro_mart.Order.Laws.{at, is_deducted, KeepsStock}
use micro_mart.Network.{
  Fault, delivered, timed_out, unreachable, Sound, deliver, lose, Deployment, on_get, on_deduct,
  on_restore, on_pay, network, stock_in,
}
use micro_mart.Network.Replies.{
  judge_deduct-proper, judge_restore-proper, judge_product-proper, judge_payment-proper,
  deduct_route-proper, deduct_route-moves, restore_route-proper, restore_route-moves,
  product_route-proper, product_route-products, payment_route-proper,
}

module _ (d : Deployment) where
  lose-stock :
      {A : Type 0} (b : Bool) (x : Reply A × Sound) (j : ℕ)
      → stock_in d (lose b x).1 j ≡ stock_in d x.1 j
  lose-stock true x j = refl
  lose-stock false x j = refl

  lose-body_product :
      (b : Bool) (x : Reply ProductResponse × Sound)
      → judge_product x.0 ≢ err uncaught
      → judge_product (lose b x).0 ≢ err uncaught
  unfolding judge_product
  lose-body_product true x h = ground arith
  lose-body_product false x h = h

  lose-body_payment :
      (b : Bool) (x : Reply PaymentResponse × Sound)
      → judge_payment x.0 ≢ err uncaught
      → judge_payment (lose b x).0 ≢ err uncaught
  unfolding judge_payment
  lose-body_payment true x h = ground arith
  lose-body_payment false x h = h

  reading_law :
      (f : Fault) (k : ℕ) (s : Sound) (j : ℕ)
      → stock_in d (deliver f (on_get d k) s).1 j ≡ stock_in d s j
  reading_law delivered k s j =
      ap (λ ps. stock_of (find j ps)) (product_route-products d.settings k s.services.store)
  reading_law timed_out k s j = refl
  reading_law unreachable k s j = refl

  deducting_law :
      (f : Fault) (k : ℕ) (u : StockDeductRequest) (s : Sound) (j : ℕ)
      → let (reply, s') = deliver f (on_deduct d k u) s in
        stock_in d s' j + (if is_deducted (judge_deduct reply) then at k u.quantity j else 0)
        ≡ stock_in d s j
  unfolding judge_deduct
  deducting_law delivered k u s j =
      let store = s.services.store in
      let r = (deduct_route d.settings d.order_token k u store).0 in
      ground (
        arith,
        judge_deduct-proper r (deduct_route-proper d.settings k u store d.order_token),
        deduct_route-moves d.settings k u store d.order_token j s.sound.unique,
      )
  deducting_law timed_out k u s j = ground arith
  deducting_law unreachable k u s j = ground arith

  restoring_law :
      (f : Fault) (k : ℕ) (u : StockRestoreRequest) (s : Sound) (j : ℕ)
      → let (reply, s') = deliver f (on_restore d k u) s in
        stock_in d s' j ≡ stock_in d s j + (if judge_restore reply then at k u.quantity j else 0)
  unfolding judge_restore
  restoring_law delivered k u s j =
      let store = s.services.store in
      let r = (restore_route d.settings d.order_token k u store).0 in
      ground (
        arith,
        judge_restore-proper r (restore_route-proper d.settings k u store d.order_token),
        restore_route-moves d.settings k u store d.order_token j s.sound.unique,
      )
  restoring_law timed_out k u s j = ground arith
  restoring_law unreachable k u s j = ground arith

  paying_law :
      (f : Fault) (u : PaymentCreateRequest) (s : Sound) (j : ℕ)
      → stock_in d (deliver f (on_pay d u) s).1 j ≡ stock_in d s j
  paying_law delivered u s j = refl
  paying_law timed_out u s j = refl
  paying_law unreachable u s j = refl

  product_body_law :
      (f : Fault) (k : ℕ) (s : Sound) → judge_product (deliver f (on_get d k) s).0 ≢ err uncaught
  unfolding judge_product
  product_body_law delivered k s =
      unfold judge_product in
      judge_product-proper (product_route d.settings k s.services.store).0
        (product_route-proper d.settings k s.services.store)
  product_body_law timed_out k s = ground arith
  product_body_law unreachable k s = ground arith

  payment_body_law :
      (f : Fault) (u : PaymentCreateRequest) (s : Sound)
      → judge_payment (deliver f (on_pay d u) s).0 ≢ err uncaught
  unfolding judge_payment
  payment_body_law delivered u s =
      judge_payment-proper
        (payment_route d.payment_token d.order_token (d.chance (suc s.services.calls)) u
          s.services.payments).0
        (payment_route-proper d.payment_token d.order_token (d.chance (suc s.services.calls)) u
          s.services.payments)
  payment_body_law timed_out u s = ground arith
  payment_body_law unreachable u s = ground arith

  -- The routes of product-service and payment-service, over a network that may lose requests, and
  -- replies to readings and payments, but no reply to a deduction or a restore that was executed:
  -- between sound states, stock moves exactly as the clients read their replies, and the bodies that
  -- they parse are there, whatever the tokens are.
  pub network-KeepsStock : KeepsStock (network d) (stock_in d)
  unfolding network
  network-KeepsStock = record {
    reading = λ k s j.
        lose-stock (d.reply_lost s.services.calls) _ j
        ∙ reading_law (d.fault s.services.calls) k s j;
    deducting = λ k q v s j.
        deducting_law (d.fault s.services.calls) k (record { quantity = q; expected_version = v }) s
          j;
    restoring = λ k q s j. restoring_law (d.fault s.services.calls) k (record { quantity = q }) s j;
    paying = λ o u a s j.
        lose-stock (d.reply_lost s.services.calls) _ j
        ∙ paying_law (d.fault s.services.calls) (record { order_id = o; user_id = u; amount = a }) s
            j;
    product_body = λ k s.
        lose-body_product (d.reply_lost s.services.calls) _
          (product_body_law (d.fault s.services.calls) k s);
    payment_body = λ o u a s. lose-body_payment (d.reply_lost s.services.calls) _ (
        payment_body_law (d.fault s.services.calls)
          (record { order_id = o; user_id = u; amount = a }) s);
  }
