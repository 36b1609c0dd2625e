-- ===== src/Order/BestEffort.antt =====
-- The NATS client has no part in an order (services/order-service/app/services/order_service.py).
pub mod Actions
mod Stages
use micro_mart.Shared.Int.{ℤ}
use micro_mart.Shared.{
  ℕ, zero, suc, ◌≡◌, refl, sym, ap, ◌∙◌, String, Bool, true, false, ◌&&◌, ◌||◌, ◌++◌, Option, none,
  some, List, [], ◌∷◌, ◌==◌, Action, Result, ◌>>=◌, ◌>>◌, pure, throw, throw_if, or_throw, not,
  insert, if◌then◌else◌, ok, err, arith, Result-cases, Option-cases, Bool-cases, inl, inr, Dict,
  lookup,
}
use micro_mart.Shared.Http.{coded_error}
use micro_mart.Product.Table.{ProductResponse}
use micro_mart.Payment.Table.{PaymentResponse}
use micro_mart.Order.Table.{Order, find, OrderCreateRequest, OrderItemRequest}
use micro_mart.Order.Clients.{
  Remote, World, Nats, OrderCompleted, Exception, Verdict, deducted, conflict, refused,
  judge_deduct, judge_product, get_product, deduct_attempts, restore_stock, request_payment,
  product_error, payment_error, http, uncaught, catch, reread_error, ask, Call,
}
use micro_mart.Order.Placing.{
  total_amount, order_items, catch_product, save_order, place_order, fetch_products,
}
use micro_mart.Order.Saga.{
  completed_order, failed_order, marked_order, deducted_order, asking_order, payment_status,
  catch_payment, restore_all, fail_deduction, deduct_all, fail_payment, charge, complete,
  publish_order_completed, load_order, run_saga, create_order,
}
use micro_mart.Order.BestEffort.Actions.{
  with_nats, IsBlind, IsBestEffort, bind-IsBlind, if-IsBlind, catch_product-IsBlind,
  catch_payment-IsBlind, or_throw-IsBlind, judged-IsBlind, bind-IsBestEffort,
}
use micro_mart.Order.BestEffort.Stages.{
  save_order-IsBlind, deduct_all-IsBlind, charge-IsBlind, fetch_products-IsBlind,
  place_order-IsBlind,
}

publish-ok :
    {S : Type 0} (o : Order) (w : World S)
    → (published : List OrderCompleted) × (publish_order_completed o w
        ≡ (ok tt, record w { published = published }))
unfolding publish_order_completed
publish-ok o w = elim (Option-cases w.nats) [
  | inl e ↦ (w.published, ground arith)
  | inr (nc, e) ↦ elim (Bool-cases (nc.is_closed || nc.raises)) [
    | inl f ↦ (w.published, ground arith)
    | inr f ↦ (
      w.published
          ++ record {
            order_id = o.id;
            user_id = o.user_id;
            total_amount = o.total_amount;
            payment_id = o.payment_id;
          }
            ∷ [],
      ground arith,
    )
  ]
]

load_order-IsBlind : {S : Type 0} (id : ℕ) → IsBlind {S = S} (load_order id)
unfolding load_order
load_order-IsBlind id = record {
  same = λ n w. elim (Option-cases (find id w.session.working.orders)) [
    | inl e ↦ ground arith
    | inr (o, e) ↦ ground arith
  ];
}

publish_load-IsBestEffort :
    {S : Type 0} (o : Order) (id : ℕ)
    → IsBestEffort {S = S} (publish_order_completed o >> load_order id)
publish_load-IsBestEffort o id = record {
  answer = λ n w.
      let (ps, e) = publish-ok o (with_nats n w) in
      let (qs, f) = publish-ok o w in
      let load = load_order-IsBlind id in
      ap (λ x. (((λ v. (x.0, v)) >>= λ u. load_order id) x.1).0) e
      ∙ sym (ap (λ x. x.0) (load.same none (record w { nats = n; published = ps })))
      ∙ ap (λ x. x.0) (load.same none (record w { published = qs }))
      ∙ sym (ap (λ x. (((λ v. (x.0, v)) >>= λ u. load_order id) x.1).0) f);
  left = λ n w.
      let (ps, e) = publish-ok o (with_nats n w) in
      let (qs, f) = publish-ok o w in
      let load = load_order-IsBlind id in
      ap (λ x. with_nats none ((((λ v. (x.0, v)) >>= λ u. load_order id) x.1).1)) e
      ∙ sym (ap (λ x. x.1) (load.same none (record w { nats = n; published = ps })))
      ∙ ap (λ x. x.1) (load.same none (record w { published = qs }))
      ∙ sym (ap (λ x. with_nats none ((((λ v. (x.0, v)) >>= λ u. load_order id) x.1).1)) f);
}

module _ {S : Type 0} (net : Remote S) where
  complete-IsBestEffort : (o : Order) (p : PaymentResponse) → IsBestEffort (complete net o p)
  unfolding complete
  complete-IsBestEffort o p =
      let finished = completed_order p.id (asking_order (deducted_order o)) in
      bind-IsBestEffort (save_order finished) _ (save_order-IsBlind net finished)
        (λ u. publish_load-IsBestEffort finished o.id)

  run_saga-IsBestEffort :
      (r : ℕ) (products : Dict ProductResponse) (items : List OrderItemRequest) (o : Order)
      → IsBestEffort (run_saga net r products items o)
  unfolding run_saga
  run_saga-IsBestEffort r products items o =
      bind-IsBestEffort (deduct_all net r o products items []) _
        (deduct_all-IsBlind net r o products items [])
        (λ done.
          bind-IsBestEffort (charge net o done) _ (charge-IsBlind net o done)
            (complete-IsBestEffort o))

  saga-IsBestEffort :
      (r : ℕ) (user_id : ℤ) (payload : OrderCreateRequest)
      → IsBestEffort (create_order net r user_id payload)
  unfolding create_order
  saga-IsBestEffort r user_id payload =
      bind-IsBestEffort (fetch_products net payload.items []) _
        (fetch_products-IsBlind net payload.items [])
        (λ products.
          bind-IsBestEffort (place_order user_id payload.items products) _
            (place_order-IsBlind net user_id payload.items products)
            (run_saga-IsBestEffort r products payload.items))

  -- Whatever NATS client order-service holds, none, a closed one, one that raises or one that publishes,
  -- `create_order` answers the same, and leaves the same of the called services, the database, the trace
  -- and the clock.
  pub create_order_best_effort :
      (r : ℕ) (user_id : ℤ) (payload : OrderCreateRequest) (nats : Option Nats) (w : World S)
      → ((create_order net r user_id payload (record w { nats = nats })).0
          ≡ (create_order net r user_id payload w).0)
        × (with_nats none (create_order net r user_id payload (record w { nats = nats })).1
            ≡ with_nats none (create_order net r user_id payload w).1)
  create_order_best_effort r user_id payload nats w =
      let same = saga-IsBestEffort r user_id payload in
      let other : World S = record w { nats = nats } in
      (
        sym (same.answer none other) ∙ same.answer none w,
        sym (same.left none other) ∙ same.left none w,
      )
