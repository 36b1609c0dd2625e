-- ===== src/Network/Lost.antt =====
-- A payment that was made and whose reply is lost (services/order-service/app/services/
-- order_service.py over services/payment-service/app/services/payment_service.py).
use Prim.Native.String.{◌++◌ as text_append}
use micro_mart.Shared.{
  ℕ, suc, ◌≡◌, refl, ap, ◌∙◌, subst, String, str_eq, eq_refl, Bool, true, false, ◌&&◌, none, some,
  List, [], ◌∷◌, ◌++◌, arith, Result, err,
}
use micro_mart.Shared.Http.{coded_error}
use micro_mart.Product.Table.{StockRestoreRequest}
use micro_mart.Payment.Table.{
  Payment, PaymentStatus, PaymentCreateRequest, PaymentResponse, find_order, PaymentDb,
}
use micro_mart.Payment.Service.{Chance, is_chaos_failure, new_payment, approved_payment}
use micro_mart.Payment.Routes.{
  create_payment as payment_route, verify_internal_service, valid_payment,
}
use micro_mart.Payment.Invariant.{IsLedger, with_payment}
use micro_mart.Payment.Invariant.Creation.{create_payment-db}
use micro_mart.Order.Table.{Order, OrderDb}
use micro_mart.Order.Clients.{
  World, Exception, http, payment_error, request_payment, restore_stock, judge_payment,
  judge_restore,
}
use micro_mart.Order.Saga.{charge, restore_all, asking_order, deducted_order, marked_order}
use micro_mart.Order.Placing.{save_order}
use micro_mart.Order.Balance.{restore_all-stock}
use micro_mart.Order.Rows.{Stored}
use micro_mart.Order.Charging.{Declined, Charged, charge-Charged, charge-err, fail_payment-eq}
use micro_mart.Order.Charging.Asking.{asking_world}
use micro_mart.Network.{
  Fault, delivered, timed_out, unreachable, Sound, Deployment, deliver, on_restore, network,
  stock_in,
}
use micro_mart.Network.Laws.{network-KeepsStock}

abbrev pub payments_of : World Sound → PaymentDb
payments_of w = w.remote.services.payments

-- What order-service sends for an order.
abbrev pub payment_of : Order → PaymentCreateRequest
payment_of o = record { order_id = o.id; user_id = o.user_id; amount = o.total_amount }

module _ (d : Deployment) where
  restore-payments :
      (f : Fault) (k : ℕ) (u : StockRestoreRequest) (s : Sound)
      → (deliver f (on_restore d k u) s).1.services.payments ≡ s.services.payments
  restore-payments delivered k u s = refl
  restore-payments timed_out k u s = refl
  restore-payments unreachable k u s = refl

  -- The rollback loop does not reach payment-service.
  restore_all-payments :
      (ds : List (ℕ × ℕ)) (b : Bool) (w : World Sound)
      → payments_of (restore_all (network d) ds b w).1 ≡ payments_of w
  unfolding restore_all restore_stock network
  restore_all-payments [] b w = refl
  restore_all-payments ((k, q) ∷ ds) b w =
      restore_all-payments ds (b && judge_restore ((network d).restore_stock k q w.remote).0)
        (restore_stock (network d) k q w).1
      ∙ restore-payments (d.fault w.remote.services.calls) k (record { quantity = q }) w.remote

  find_order-append :
      (ps : List Payment) (p : Payment)
      → find_order p.order_id ps ≡ none
      → find_order p.order_id (ps ++ p ∷ []) ≡ some p
  find_order-append [] p h = ground arith
  find_order-append (x ∷ ps) p h = ground (arith, find_order-append ps p)

  paid_route :
      (token : String) (c : Chance) (u : PaymentCreateRequest) (db : PaymentDb)
      → IsLedger db
      → find_order u.order_id db.payments ≡ none
      → valid_payment u ≡ true
      → str_eq token "" ≡ false
      → (payment_route token token c u db).1 ≡ with_payment c u db
  unfolding payment_route verify_internal_service
  paid_route token c u db l free valid configured =
      ground (arith, create_payment-db c u db l, eq_refl token)

  -- The payment is made, and answered as timed out.
  request_payment-lost :
      (order : Order) (w : World Sound)
      → IsLedger (payments_of w)
      → find_order order.id (payments_of w).payments ≡ none
      → valid_payment (payment_of order) ≡ true
      → str_eq d.payment_token "" ≡ false
      → d.order_token ≡ d.payment_token
      → d.fault w.remote.services.calls ≡ delivered
      → d.reply_lost w.remote.services.calls ≡ true
      → let (r, w') = request_payment (network d) order.id order.user_id order.total_amount w in
        (r ≡ err (payment_error (some "PAYMENT_TIMEOUT") 504))
        × (payments_of w'
            ≡ with_payment
                (d.chance (suc w.remote.services.calls))
                (payment_of order)
                (payments_of w))
  unfolding request_payment network judge_payment payment_route verify_internal_service
  request_payment-lost order w l free valid configured same there lost =
      rw (there, lost, same)
        (
          refl,
          paid_route d.payment_token (d.chance (suc w.remote.services.calls)) (payment_of order)
              (payments_of w) l free valid configured,
        )

  module _ (base : OrderDb) (order : Order) where
    Charged-err :
        (done : List (ℕ × ℕ)) (w : World Sound) (x : Result Exception PaymentResponse × World Sound)
        (e : Exception)
        → Charged (network d) (stock_in d) (network-KeepsStock d) base order done w x
        → x.0 ≡ err e
        → Declined (network d) (stock_in d) (network-KeepsStock d) base order done w x.1 e
    Charged-err done w x e h f =
        subst
          (λ r. Charged (network d) (stock_in d) (network-KeepsStock d) base order done w (r, x.1))
          f h

    -- Let a stored order that has no payment be charged over the deployed services. If the payment is
    -- delivered and approved and its reply is lost, then `charge` raises 504, the order has an approved
    -- payment of its amount in payment-service, and the order is stored FAILED, with its stock back if it
    -- is stored as STOCK_ROLLED_BACK.
    pub charge_lost :
        (done : List (ℕ × ℕ)) (w : World Sound)
        → Stored base order w
        → IsLedger (payments_of w)
        → find_order order.id (payments_of w).payments ≡ none
        → valid_payment (payment_of order) ≡ true
        → str_eq d.payment_token "" ≡ false
        → d.order_token ≡ d.payment_token
        → d.fault w.remote.services.calls ≡ delivered
        → d.reply_lost w.remote.services.calls ≡ true
        → is_chaos_failure (d.chance (suc w.remote.services.calls)) ≡ false
        → let (r, w') = charge (network d) order done w in
          let c = d.chance (suc w.remote.services.calls) in
          (r ≡ err (http (coded_error 504 (some "PAYMENT_TIMEOUT"))))
          × (find_order order.id (payments_of w').payments
              ≡ some (record {
                id = (payments_of w).next_payment;
                order_id = order.id;
                user_id = order.user_id;
                amount = order.total_amount;
                status = PaymentStatus.approved;
                pg_transaction_id = some (text_append "PG-" c.transaction);
                failure_reason = none;
                processed_at = some c.processed_at;
              }))
          × Declined
              (network d)
              (stock_in d)
              (network-KeepsStock d)
              base
              order
              done
              w
              w'
              (http (coded_error 504 (some "PAYMENT_TIMEOUT")))
    unfolding save_order
    charge_lost done w h l free valid configured same there lost approved =
        let net = network d in
        let law = network-KeepsStock d in
        let o = asking_order (deducted_order order) in
        let asked = asking_world net base order w in
        let (raised, made) =
          request_payment-lost order asked l free valid configured same there lost in
        let w1 = (request_payment net order.id order.user_id order.total_amount asked).1 in
        let marked = (save_order (marked_order (some "PAYMENT_TIMEOUT") o) w1).1 in
        let (b, flag, unused) = restore_all-stock net (stock_in d) law done true marked 0 in
        let whole =
          charge-err net (stock_in d) law base order done (some "PAYMENT_TIMEOUT") 504 w raised
          ∙ fail_payment-eq net (stock_in d) law base order o done (some "PAYMENT_TIMEOUT") 504 b w1
              flag in
        let answer = ap (λ x. x.0) whole in
        (
          answer,
          ap (λ x. find_order order.id (payments_of x.1).payments) whole
              ∙ ap (λ db. find_order order.id db.payments)
                  (restore_all-payments done true marked ∙ made)
              ∙ rw approved (
                  find_order-append (payments_of w).payments
                    (approved_payment (d.chance (suc w.remote.services.calls))
                      (new_payment (payment_of order) (payments_of w).next_payment))
                    free),
          Charged-err done w (charge net order done w) _
              (charge-Charged net (stock_in d) law base order done w h) answer,
        )
