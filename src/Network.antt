-- ===== src/Network.antt =====
-- The services put together: order-service's clients over the routes of product-service
-- (services/product-service/app/routes/products.py) and payment-service
-- (services/payment-service/app/routes/payments.py). The network may lose a request before it
-- arrives, and the reply to a reading or a payment; a reply about stock that was moved comes back.
pub mod Replies
pub mod Laws
pub mod Lost
use micro_mart.Shared.{
  ℕ, suc, ◌+◌, ◌-◌, ◌≡◌, ◌≢◌, refl, ap, ◌∙◌, String, Bool, true, false, not, ◌&&◌, Option, none,
  some, List, [], ◌∷◌, ◌==◌, arith, Result, ok, err, Result-cases, Option-cases, inl, inr,
  if◌then◌else◌, first_where,
}
use micro_mart.Shared.Http.{HttpError, Body, Reply, error_body, error_reply}
use micro_mart.Shared.Session.{in_session, open_session}
use micro_mart.Product.Table.{
  Product, ProductResponse, StockDeductRequest, StockDeductResponse, StockRestoreRequest,
  StockRestoreResponse, find,
}
use micro_mart.Product.Stock.{
  Store, deductible, deducted, deduct_refusal, deduct_stock_service, restorable, restored,
  restore_stock_service,
}
use micro_mart.Product.Catalog.{get_product_service, get_from_database}
use micro_mart.Product.Lookup.{Unique, first_where-eq-guarded, find-id, find-update_at}
use micro_mart.Product.Reference.{deductible-id, restorable-id}
use micro_mart.Product.Invariant.{IsStore, handle-IsStore}
use micro_mart.Product.Conservation.{stock_of}
use micro_mart.Product.Routes.{
  Settings, Event, handle, verify_internal_service, get_product as product_route,
  deduct_stock as deduct_route, restore_stock as restore_route,
}
use micro_mart.Payment.Routes.{
  create_payment as payment_route, verify_internal_service as verify_payment_token,
}
use micro_mart.Payment.Table.{PaymentDb, Payment, PaymentResponse, PaymentCreateRequest}
use micro_mart.Payment.Service.{
  Chance, create_payment_service, check_duplicate, insert_payment, flush_payment, settle_payment,
}
use micro_mart.Order.Clients.{
  Remote, Exception, uncaught, Verdict, judge_deduct, judge_product, judge_restore, judge_payment,
}
use micro_mart.Order.Laws.{at, is_deducted, KeepsStock}

-- What becomes of a request: delivered, lost in a timeout, or refused by the connection.
pub data Fault : Type 0 where
  delivered timed_out unreachable : Fault

-- Both services, and the number of requests so far.
pub record Services : Type 0 where
  pub store : Store
  pub payments : PaymentDb
  pub calls : ℕ

-- What FastAPI answers: the declared status with the payload, or the error.
abbrev pub reply_of : {A B : Type 0} → ℕ → (A → B) → Result HttpError A → Reply B
reply_of status f (ok a) = Reply.response status (Body.payload (f a))
reply_of status f (err e) = error_reply e

abbrev pub succeeded : {A : Type 0} → Result HttpError A → Bool
succeeded (ok a) = true
succeeded (err e) = false

-- Both services, with the table sound.
pub record Sound : Type 0 where
  pub services : Services
  pub sound : IsStore services.store

abbrev count_call : Sound → Sound
count_call s = record s { services = record (s.services) { calls = suc s.services.calls } }

abbrev pub deliver : {A : Type 0} → Fault → (Sound → Reply A × Sound) → Sound → Reply A × Sound
deliver delivered f s = f (count_call s)
deliver timed_out f s = (Reply.timeout, count_call s)
deliver unreachable f s = (Reply.request_error, count_call s)

-- The reply is lost after the request was executed.
abbrev pub lose : {A S : Type 0} → Bool → Reply A × S → Reply A × S
lose true (reply, s) = (Reply.timeout, s)
lose false (reply, s) = (reply, s)

-- The services' settings, the token that order-service sends, and for each request what becomes of
-- it, whether its reply is lost, and the payment's chance.
pub record Deployment : Type 0 where
  pub settings : Settings
  pub payment_token : String
  pub order_token : String
  pub fault : ℕ → Fault
  pub reply_lost : ℕ → Bool
  pub chance : ℕ → Chance

module _ (d : Deployment) where
  pub handled-IsStore_get :
      (k : ℕ) (s : Sound) → IsStore (product_route d.settings k s.services.store).1
  unfolding handle
  handled-IsStore_get k s = handle-IsStore d.settings (Event.get k) s.services.store s.sound

  pub handled-IsStore_deduct :
      (k : ℕ) (u : StockDeductRequest) (s : Sound)
      → IsStore (deduct_route d.settings d.order_token k u s.services.store).1
  unfolding handle
  handled-IsStore_deduct k u s =
      handle-IsStore d.settings (Event.deduct d.order_token k u) s.services.store s.sound

  pub handled-IsStore_restore :
      (k : ℕ) (u : StockRestoreRequest) (s : Sound)
      → IsStore (restore_route d.settings d.order_token k u s.services.store).1
  unfolding handle
  handled-IsStore_restore k u s =
      handle-IsStore d.settings (Event.restore d.order_token k u) s.services.store s.sound

module _ (d : Deployment) where
  abbrev pub on_get : ℕ → Sound → Reply ProductResponse × Sound
  on_get k s =
      let (r, store) = product_route d.settings k s.services.store in
      (
        reply_of 200 (λ p. p) r,
        record {
          services = record (s.services) { store = store };
          sound = handled-IsStore_get d k s;
        },
      )

  abbrev pub on_deduct : ℕ → StockDeductRequest → Sound → Reply (Unit {0}) × Sound
  on_deduct k u s =
      let (r, store) = deduct_route d.settings d.order_token k u s.services.store in
      (
        reply_of 200 (λ _. tt) r,
        record {
          services = record (s.services) { store = store };
          sound = handled-IsStore_deduct d k u s;
        },
      )

  abbrev pub on_restore : ℕ → StockRestoreRequest → Sound → Reply (Unit {0}) × Sound
  on_restore k u s =
      let (r, store) = restore_route d.settings d.order_token k u s.services.store in
      (
        reply_of 200 (λ _. tt) r,
        record {
          services = record (s.services) { store = store };
          sound = handled-IsStore_restore d k u s;
        },
      )

  abbrev pub on_pay : PaymentCreateRequest → Sound → Reply PaymentResponse × Sound
  on_pay u s =
      let (r, payments) =
        payment_route d.payment_token d.order_token (d.chance s.services.calls) u
          s.services.payments in
      (reply_of 201 (λ p. p) r, record s { services = record (s.services) { payments = payments } })

  -- The clients' requests, each in the JSON that they send.
  unfoldable pub network : Remote Sound
  network = record {
    get_product = λ k s.
        lose (d.reply_lost s.services.calls) (deliver (d.fault s.services.calls) (on_get k) s);
    deduct_stock = λ k q v s.
        deliver (d.fault s.services.calls)
          (on_deduct k (record { quantity = q; expected_version = v })) s;
    restore_stock =
        λ k q s. deliver (d.fault s.services.calls) (on_restore k (record { quantity = q })) s;
    create_payment = λ o u a s. lose (d.reply_lost s.services.calls) (
        deliver (d.fault s.services.calls)
          (on_pay (record { order_id = o; user_id = u; amount = a })) s);
  }

  -- What product-service holds of a product.
  abbrev pub stock_in : Sound → ℕ → ℕ
  stock_in s j = stock_of (find j s.services.store.products)
