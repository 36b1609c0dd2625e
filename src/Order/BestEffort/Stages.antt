-- ===== src/Order/BestEffort/Stages.antt =====
-- The stages of an order before its event is published
-- (services/order-service/app/services/order_service.py, http_clients.py).
use micro_mart.Shared.Int.{ℤ}
use micro_mart.Shared.{
  ℕ, zero, suc, refl, String, Bool, true, ◌&&◌, ◌++◌, Option, some, List, [], ◌∷◌, ◌==◌, pure,
  throw, throw_if, or_throw, not, insert, arith, Option-cases, inl, inr, Dict, lookup,
}
use micro_mart.Shared.Http.{coded_error}
use micro_mart.Product.Table.{ProductResponse}
use micro_mart.Order.Table.{Order, OrderItemRequest}
use micro_mart.Order.Clients.{
  Remote, judge_deduct, get_product, deduct_attempts, restore_stock, request_payment, product_error,
  http, uncaught, catch, reread_error, ask, Call,
}
use micro_mart.Order.Placing.{
  total_amount, order_items, catch_product, save_order, place_order, fetch_products,
}
use micro_mart.Order.Saga.{
  failed_order, marked_order, deducted_order, asking_order, payment_status, restore_all,
  fail_deduction, deduct_all, fail_payment, charge,
}
use micro_mart.Order.BestEffort.Actions.{
  IsBlind, bind-IsBlind, if-IsBlind, catch_product-IsBlind, catch_payment-IsBlind, or_throw-IsBlind,
  judged-IsBlind,
}

module _ {S : Type 0} (net : Remote S) where
  get_product-IsBlind : (k : ℕ) → IsBlind (get_product net k)
  unfolding get_product
  get_product-IsBlind k = record { same = λ n w. refl }

  pub save_order-IsBlind : (o : Order) → IsBlind {S = S} (save_order o)
  unfolding save_order
  save_order-IsBlind o = record { same = λ n w. refl }

  restore_all-IsBlind : (ds : List (ℕ × ℕ)) (b : Bool) → IsBlind (restore_all net ds b)
  unfolding restore_all restore_stock
  restore_all-IsBlind [] b = record { same = λ n w. refl }
  restore_all-IsBlind ((k, q) ∷ ds) b =
      bind-IsBlind (restore_stock net k q) (λ restored. restore_all net ds (b && restored))
        (record { same = λ n w. refl }) (λ restored. restore_all-IsBlind ds (b && restored))

  deduct_attempts-IsBlind : (left k q v : ℕ) → IsBlind (deduct_attempts net left k q v)
  unfolding deduct_attempts get_product
  deduct_attempts-IsBlind zero k q v = record { same = λ n w. refl }
  deduct_attempts-IsBlind (suc left) k q v =
      bind-IsBlind (ask (Call.deduct k q v) (net.deduct_stock k q v)) _
        (record { same = λ n w. refl })
        (λ reply.
          judged-IsBlind (judge_deduct reply) (pure tt) _ (record { same = λ n w. refl })
            (if-IsBlind (left == 0) (throw (product_error (some "ORDER_STOCK_CONFLICT") 409)) _
              (record { same = λ n w. refl })
              (bind-IsBlind (catch reread_error (get_product net k))
                (λ fresh. deduct_attempts net left k q fresh.version)
                (record { same = λ n w. refl })
                (λ fresh. deduct_attempts-IsBlind left k q fresh.version))))

  fail_deduction-IsBlind :
      (o : Order) (done : List (ℕ × ℕ)) (code : Option String) (status : ℕ)
      → IsBlind (fail_deduction net o done code status)
  unfolding fail_deduction
  fail_deduction-IsBlind o done code status =
      bind-IsBlind (restore_all net done true) _ (restore_all-IsBlind done true) (λ b.
        bind-IsBlind (save_order (failed_order b code o))
          (λ u. throw (http (coded_error status code))) (save_order-IsBlind (failed_order b code o))
          (λ u. record { same = λ n w. refl }))

  pub deduct_all-IsBlind :
      (r : ℕ) (o : Order) (products : Dict ProductResponse) (is : List OrderItemRequest)
      (done : List (ℕ × ℕ))
      → IsBlind (deduct_all net r o products is done)
  unfolding deduct_all
  deduct_all-IsBlind r o products [] done = record { same = λ n w. refl }
  deduct_all-IsBlind r o products (i ∷ is) done =
      bind-IsBlind (or_throw (lookup i.product_id products) uncaught) _
        (or_throw-IsBlind (lookup i.product_id products) uncaught)
        (λ p.
          bind-IsBlind _ _
            (catch_product-IsBlind _ (fail_deduction net o done)
              (bind-IsBlind (deduct_attempts net r i.product_id i.quantity p.version)
                (λ u. pure (done ++ (i.product_id, i.quantity) ∷ []))
                (deduct_attempts-IsBlind r i.product_id i.quantity p.version)
                (λ u. record { same = λ n w. refl }))
              (fail_deduction-IsBlind o done))
            (λ now_done. deduct_all-IsBlind r o products is now_done))

  fail_payment-IsBlind :
      (o : Order) (done : List (ℕ × ℕ)) (code : Option String) (status : ℕ)
      → IsBlind (fail_payment net o done code status)
  unfolding fail_payment
  fail_payment-IsBlind o done code status =
      bind-IsBlind (save_order (marked_order code o)) _ (save_order-IsBlind (marked_order code o))
        (λ u. bind-IsBlind (restore_all net done true) _ (restore_all-IsBlind done true) (λ b.
          bind-IsBlind (save_order (failed_order b code o))
            (λ u. throw (http (coded_error (payment_status status) code)))
            (save_order-IsBlind (failed_order b code o)) (λ u. record { same = λ n w. refl })))

  pub charge-IsBlind : (o : Order) (done : List (ℕ × ℕ)) → IsBlind (charge net o done)
  unfolding charge request_payment
  charge-IsBlind o done =
      bind-IsBlind (save_order (deducted_order o)) _ (save_order-IsBlind (deducted_order o)) (λ u.
        bind-IsBlind (save_order (asking_order (deducted_order o))) _
          (save_order-IsBlind (asking_order (deducted_order o)))
          (λ u.
            catch_payment-IsBlind (request_payment net o.id o.user_id o.total_amount) _
              (record { same = λ n w. refl })
              (fail_payment-IsBlind (asking_order (deducted_order o)) done)))

  pub fetch_products-IsBlind :
      (is : List OrderItemRequest) (products : Dict ProductResponse)
      → IsBlind (fetch_products net is products)
  unfolding fetch_products get_product
  fetch_products-IsBlind [] products = record { same = λ n w. refl }
  fetch_products-IsBlind (i ∷ is) products =
      bind-IsBlind
        (catch_product (get_product net i.product_id)
          (λ code status. throw (http (coded_error status code))))
        _
        (catch_product-IsBlind (get_product net i.product_id)
          (λ code status. throw (http (coded_error status code))) (get_product-IsBlind i.product_id)
          (λ code status. record { same = λ n w. refl }))
        (λ p.
          bind-IsBlind
            (throw_if (not p.is_active) (http (coded_error 422 (some "PRODUCT_INACTIVE")))) _
            (record { same = λ n w. refl })
            (λ u. fetch_products-IsBlind is (insert i.product_id p products)))

  pub place_order-IsBlind :
      (user_id : ℤ) (items : List OrderItemRequest) (products : Dict ProductResponse)
      → IsBlind {S = S} (place_order user_id items products)
  unfolding place_order
  place_order-IsBlind user_id items products = record {
    same = λ n w. elim (Option-cases (total_amount products items)) [
      | inl e ↦ ground arith
      | inr (total, e) ↦
          elim (Option-cases (
            order_items w.session.working.next_order w.now products items
              w.session.working.next_item)) [ inl f ↦ ground arith | inr (rows, f) ↦ ground arith ]
    ];
  }
