-- ===== src/Tests/RequestTests.antt =====
-- What is asked of order-service, and what it leaves behind when a step fails.
use micro_mart.Shared.Int.{ℤ, pos}
use micro_mart.Shared.{◌+◌, ◌≡◌, refl, true, Option, none, some, [], ◌∷◌, err}
use micro_mart.Shared.Session.{open_session}
use micro_mart.Product.Table.{product_response}
use micro_mart.Order.Clients.{World}
use micro_mart.Order.Saga.{run_saga, fail_payment, create_order}
use micro_mart.Order.BestEffort.{create_order_best_effort}
use micro_mart.Order.BestEffort.Actions.{with_nats}
use micro_mart.Order.Admission.{Admitted, create_order-Admitted}
use micro_mart.Order.Recovery.{
  with_order as with_row, fail_payment-trace, fail_deduction-trace, timed_out-rolled_back,
}
use micro_mart.Shared.{if◌then◌else◌, ℕ, Bool, String, str_eq, ◌⊎◌, ◌-◌}
use micro_mart.Shared.Http.{Reply, Body, coded_error, plain_error}
use micro_mart.Order.Table.{find as find_order}
use micro_mart.Order.Clients.{Remote, Call, saved, asked, http}
use micro_mart.Order.Saga.{marked_order, failed_order, fail_deduction}
use micro_mart.Order.Queries.{create_order as create_order_route}
use micro_mart.Network.{network}
use micro_mart.Tests.OrderData.{
  pencil, lucky, world, items, basket, placed, with_order, ordered_world, read_products,
}

-- The request header of user 3.
abbrev parse_three : String → Option ℤ
parse_three t = if str_eq t "3" then some (pos 3) else none

create_order-Admitted_example :
    let out = create_order_route parse_three (network lucky) 3 "3" basket world in
    ((status : ℕ) × (out ≡ (err (http (plain_error status)), world))
      × ((status ≡ 400) ⊎ (status ≡ 401) ⊎ (status ≡ 422)))
    ⊎ Admitted parse_three (network lucky) 3 "3" basket world out
create_order-Admitted_example = create_order-Admitted parse_three (network lucky) 3 "3" basket world

fail_payment-trace_example :
    let marked = with_row (marked_order (some "PAYMENT_REJECTED") placed) with_order in
    (rolled_back : Bool) × ((fail_payment
        (network lucky)
        placed
        ((1, 2) ∷ (2, 1) ∷ [])
        (some "PAYMENT_REJECTED")
        402
        ordered_world).1.trace
      ≡ saved marked
        ∷ asked (Call.restore 1 2)
        ∷ asked (Call.restore 2 1)
        ∷ saved (with_row (failed_order rolled_back (some "PAYMENT_REJECTED") placed) marked)
        ∷ [])
    × (find_order 1 marked.orders ≡ some (marked_order (some "PAYMENT_REJECTED") placed))
fail_payment-trace_example =
    fail_payment-trace (network lucky) placed ((1, 2) ∷ (2, 1) ∷ []) (some "PAYMENT_REJECTED") 402
      ordered_world refl

fail_deduction-trace_example :
    (rolled_back : Bool) × ((fail_deduction
        (network lucky)
        placed
        ((1, 2) ∷ [])
        (some "INSUFFICIENT_STOCK")
        409
        ordered_world).1.trace
      ≡ asked (Call.restore 1 2)
        ∷ saved (with_row (failed_order rolled_back (some "INSUFFICIENT_STOCK") placed) with_order)
        ∷ [])
fail_deduction-trace_example =
    fail_deduction-trace (network lucky) placed ((1, 2) ∷ []) (some "INSUFFICIENT_STOCK") 409
      ordered_world

-- The services execute a deduction, and the reply is lost.
abbrev losing : Remote ℕ
losing = record {
  get_product = λ k s. (Reply.request_error, s);
  deduct_stock = λ k q v s. (Reply.timeout, s - q);
  restore_stock = λ k q s. (Reply.response 200 (Body.payload tt), s + q);
  create_payment = λ o u a s. (Reply.request_error, s);
}

abbrev losing_world : World ℕ
losing_world = record {
  remote = 5;
  session = open_session with_order;
  trace = [];
  nats = none;
  published = [];
  now = 20;
}

timed_out-rolled_back_example :
    let (r, w') = run_saga losing 3 read_products items placed losing_world in
    (r ≡ err (http (coded_error 504 (some "STOCK_DEDUCT_TIMEOUT"))))
    × (w'.remote ≡ 3)
    × (find_order 1 w'.session.committed.orders
        ≡ some (failed_order true (some "STOCK_DEDUCT_TIMEOUT") placed))
timed_out-rolled_back_example =
    timed_out-rolled_back losing 2 read_products (record { product_id = 1; quantity = 2 })
      (record { product_id = 2; quantity = 1 } ∷ []) placed (product_response pencil) 3 losing_world
      refl refl refl

-- The world without a NATS client.
create_order_best_effort_example :
    let silent = create_order (network lucky) 3 (pos 3) basket (record world { nats = none }) in
    (silent.0 ≡ (create_order (network lucky) 3 (pos 3) basket world).0)
    × (with_nats none silent.1
        ≡ with_nats none (create_order (network lucky) 3 (pos 3) basket world).1)
create_order_best_effort_example =
    create_order_best_effort (network lucky) 3 (pos 3) basket none world
