-- ===== src/Order/Recovery.antt =====
-- What a crash of order-service can fall between: the order of commits and requests in the saga's
-- compensations; and what a lost reply leaves.
use micro_mart.Shared.{
  ℕ, suc, ◌≡◌, refl, sym, ◌∙◌, Bool, true, ◌&&◌, Option, some, List, [], ◌∷◌, ◌++◌, arith, ◌==◌, ok,
  err, String, Dict, lookup, update_where, if◌then◌else◌,
}
use mathlib.Core.List.{append-nil, append_assoc}
use micro_mart.Shared.Http.{coded_error, Reply}
use micro_mart.Product.Table.{ProductResponse}
use micro_mart.Order.Table.{Order, OrderStatus, SagaStatus, OrderDb, OrderItemRequest, find}
use micro_mart.Order.Clients.{
  Remote, World, Call, Effect, saved, asked, product_error, http, deduct_attempts, restore_stock,
  judge_deduct, judge_restore,
}
use micro_mart.Order.Placing.{save_order}
use micro_mart.Order.Saga.{
  failed_order, marked_order, restore_all, fail_deduction, fail_payment, deduct_all, run_saga,
}
use micro_mart.Order.Rows.{find-replace_self}

-- The requests that restore a list.
abbrev pub restores : List (ℕ × ℕ) → List Effect
restores [] = []
restores ((k, q) ∷ ds) = asked (Call.restore k q) ∷ restores ds

-- The database with the order's row replaced.
abbrev pub with_order : Order → OrderDb → OrderDb
with_order o db = record db { orders = update_where (λ q. q.id == o.id) (λ q. o) db.orders }

module _ {S : Type 0} (net : Remote S) where
  restore_all-trace :
      (ds : List (ℕ × ℕ)) (b : Bool) (w : World S)
      → (r : Bool) × ((restore_all net ds b w).0 ≡ ok r)
        × ((restore_all net ds b w).1.trace ≡ w.trace ++ restores ds)
        × ((restore_all net ds b w).1.session ≡ w.session)
  unfolding restore_all restore_stock
  restore_all-trace [] b w = (b, refl, sym (append-nil w.trace), refl)
  restore_all-trace ((k, q) ∷ ds) b w =
      let answer = judge_restore (net.restore_stock k q w.remote).0 in
      let (r, e, t, s) = restore_all-trace ds (b && answer) (restore_stock net k q w).1 in
      (r, e, t ∙ append_assoc w.trace (asked (Call.restore k q) ∷ []) (restores ds), s)

  append_middle :
      (xs ys : List Effect) (a b : Effect)
      → ((xs ++ a ∷ []) ++ ys) ++ b ∷ [] ≡ xs ++ a ∷ (ys ++ b ∷ [])
  append_middle xs ys a b =
      append_assoc (xs ++ a ∷ []) ys (b ∷ []) ∙ append_assoc xs (a ∷ []) (ys ++ b ∷ [])

  -- What a failed payment does, for an order that is in the database, in this order: the order is
  -- committed as STOCK_ROLLBACK_NEEDED, the restores of `done` are requested one by one, the order
  -- is committed as FAILED, STOCK_ROLLED_BACK or STOCK_ROLLBACK_NEEDED; nothing else is committed
  -- or requested.
  pub fail_payment-trace :
      (order : Order) (done : List (ℕ × ℕ)) (code : Option String) (status : ℕ) (w : World S)
      → find order.id w.session.working.orders ≡ some order
      → let marked =
          with_order
            (record order { saga_status = SagaStatus.stock_rollback_needed; failure_reason = code })
            w.session.working in
        (rolled_back : Bool) × ((fail_payment net order done code status w).1.trace
          ≡ w.trace
            ++ saved marked
              ∷ (restores done
                  ++ saved (
                      with_order
                        (record order {
                          status = OrderStatus.failed;
                          saga_status =
                              if rolled_back
                              then SagaStatus.stock_rolled_back
                              else SagaStatus.stock_rollback_needed;
                          failure_reason = code;
                        })
                        marked)
                    ∷ []))
        × (find order.id marked.orders
            ≡ some (record order {
              saga_status = SagaStatus.stock_rollback_needed;
              failure_reason = code;
            }))
  unfolding fail_payment save_order
  fail_payment-trace order done code status w found =
      let marked = with_order (marked_order code order) w.session.working in
      let after = (save_order (marked_order code order) w).1 in
      let (r, e, t, s) = restore_all-trace done true after in
      (
        r,
        ground (
          arith,
          e,
          t,
          s,
          append_middle w.trace (restores done) (saved marked)
              (saved (with_order (failed_order r code order) marked)),
        ),
        find-replace_self order (marked_order code order) w.session.working.orders found refl,
      )

  -- What a failed deduction does, in this order: the restores of `done` are requested one by one,
  -- the order is committed as FAILED, STOCK_ROLLED_BACK or STOCK_ROLLBACK_NEEDED; nothing else is
  -- committed or requested.
  pub fail_deduction-trace :
      (order : Order) (done : List (ℕ × ℕ)) (code : Option String) (status : ℕ) (w : World S)
      → (rolled_back : Bool) × ((fail_deduction net order done code status w).1.trace
          ≡ w.trace
            ++ (restores done
                ++ saved (
                    with_order
                      (record order {
                        status = OrderStatus.failed;
                        saga_status =
                            if rolled_back
                            then SagaStatus.stock_rolled_back
                            else SagaStatus.stock_rollback_needed;
                        failure_reason = code;
                      })
                      w.session.working)
                  ∷ []))
  unfolding fail_deduction save_order
  fail_deduction-trace order done code status w =
      let (r, e, t, s) = restore_all-trace done true w in
      (
        r,
        ground (
          arith,
          e,
          t,
          s,
          append_assoc w.trace (restores done)
              (saved (with_order (failed_order r code order) w.session.working) ∷ []),
        ),
      )

  -- The deduction of the first item is executed, and its reply is lost.
  timed_out-err :
      (n k q v : ℕ) (s' : S) (w : World S)
      → net.deduct_stock k q v w.remote ≡ (Reply.timeout, s')
      → ((deduct_attempts net (suc n) k q v w).0
          ≡ err (product_error (some "STOCK_DEDUCT_TIMEOUT") 504))
        × ((deduct_attempts net (suc n) k q v w).1.remote ≡ s')
  unfolding deduct_attempts judge_deduct
  timed_out-err n k q v s' w e = ground arith

  -- If the first deduction of an order that is in the database times out, whatever it did to the
  -- services' state `s'`, then the saga, with at least one round, raises 504, leaves `s'`, and
  -- commits the order as FAILED and STOCK_ROLLED_BACK.
  pub timed_out-rolled_back :
      (n : ℕ) (products : Dict ProductResponse) (i : OrderItemRequest) (is : List OrderItemRequest)
      (order : Order) (p : ProductResponse) (s' : S) (w : World S)
      → lookup i.product_id products ≡ some p
      → find order.id w.session.working.orders ≡ some order
      → net.deduct_stock i.product_id i.quantity p.version w.remote ≡ (Reply.timeout, s')
      → let (r, w') = run_saga net (suc n) products (i ∷ is) order w in
        (r ≡ err (http (coded_error 504 (some "STOCK_DEDUCT_TIMEOUT"))))
        × (w'.remote ≡ s')
        × (find order.id w'.session.committed.orders
            ≡ some (record order {
              status = OrderStatus.failed;
              saga_status = SagaStatus.stock_rolled_back;
              failure_reason = some "STOCK_DEDUCT_TIMEOUT";
            }))
  unfolding run_saga deduct_all fail_deduction restore_all save_order deduct_attempts judge_deduct
  timed_out-rolled_back n products i is order p s' w found stored e =
      let failed = failed_order true (some "STOCK_DEDUCT_TIMEOUT") order in
      (
        ground arith,
        ground arith,
        ground (arith, find-replace_self order failed w.session.working.orders stored refl),
      )
