-- ===== src/Tests/OrderTests.antt =====
-- An order over the deployed services.
use micro_mart.Shared.Int.{pos}
use micro_mart.Shared.{◌<◌, ◌≡◌, refl, Option, none, some, List, [], ok, err, arith, Result}
use micro_mart.Product.Table.{product_response}
use micro_mart.Product.Stock.{deduct_stock_service, restore_stock_service}
use micro_mart.Product.Catalog.{get_product_service}
use micro_mart.Product.Cache.{get_cached_product, set_cached_product, invalidate_product_cache}
use micro_mart.Product.Routes.{
  get_product as product_route, deduct_stock as deduct_route, restore_stock as restore_route,
  valid_deduct, valid_restore, verify_internal_service as verify_token,
}
use micro_mart.Payment.Routes.{
  create_payment as payment_route, valid_payment, verify_internal_service,
}
use micro_mart.Payment.Service.{
  create_payment_service, check_duplicate, insert_payment, flush_payment, settle_payment,
}
use micro_mart.Order.Table.{OrderStatus, OrderResponse, OrderListResponse}
use micro_mart.Order.Clients.{
  Exception, deduct_attempts, get_product, judge_deduct, judge_product, judge_payment,
  judge_restore, request_payment, restore_stock,
}
use micro_mart.Order.Placing.{fetch_products, place_order, save_order, total_amount, order_items}
use micro_mart.Order.Saga.{
  create_order, run_saga, deduct_all, charge, complete, fail_payment, restore_all,
  publish_order_completed, load_order,
}
use micro_mart.Order.Laws.{KeepsStock}
use micro_mart.Order.Deduction.{Deduction, deduct_all-Deduction}
use micro_mart.Order.Ending.{Ending, create_order-Ending}
use micro_mart.Order.Queries.{list_orders}
use micro_mart.Order.Privacy.{Readable, OwnPage, create_order-get_order, list_orders-OwnPage}
use micro_mart.Network.{network, stock_in}
use micro_mart.Network.Laws.{network-KeepsStock}
use micro_mart.Tests.OrderData.{
  pencil, book, lucky, unlucky, world, items, basket, no_orders-IsFresh, placed, with_order,
  ordered_world, placed-Stored, read_products,
}

network-KeepsStock_example : KeepsStock (network lucky) (stock_in lucky)
network-KeepsStock_example = network-KeepsStock lucky

create_order-Ending_example :
    Ending
      (network lucky)
      (stock_in lucky)
      (network-KeepsStock lucky)
      (pos 3)
      items
      world
      (create_order (network lucky) 3 (pos 3) basket world)
create_order-Ending_example =
    create_order-Ending (network lucky) (stock_in lucky) (network-KeepsStock lucky) 3 (pos 3) basket
      world refl no_orders-IsFresh

create_order-get_order_example :
    Readable (pos 3) (create_order (network lucky) 3 (pos 3) basket world)
create_order-get_order_example =
    create_order-get_order (network lucky) (stock_in lucky) (network-KeepsStock lucky) 3 (pos 3)
      basket world refl no_orders-IsFresh

deduct_all-Deduction_example :
    Deduction
      (network lucky)
      (stock_in lucky)
      (network-KeepsStock lucky)
      with_order
      placed
      items
      []
      ordered_world
      (deduct_all (network lucky) 3 placed read_products items [] ordered_world)
deduct_all-Deduction_example =
    deduct_all-Deduction (network lucky) (stock_in lucky) (network-KeepsStock lucky) with_order
      placed 3 read_products items [] ordered_world
      ((product_response pencil, refl), ((product_response book, refl), tt)) placed-Stored

list_orders-OwnPage_example :
    (rows : List OrderListResponse) × (list_orders (λ o. o.id) (pos 3) 1 20 with_order
      ≡ (ok rows, with_order))
    × OwnPage (λ o. 0 < o.id) (pos 3) 20 rows
list_orders-OwnPage_example =
    list_orders-OwnPage (λ o. 0 < o.id) (λ o. o.id) (pos 3) 1 20 with_order (omega arith, tt)

abbrev status_of : Result Exception OrderResponse → Option OrderStatus
status_of (ok r) = some r.status
status_of (err e) = none

-- The order is completed, and what it took is gone.
runs :
    let (r, w') = create_order (network lucky) 3 (pos 3) basket world in
    (status_of r ≡ some OrderStatus.completed)
    × (stock_in lucky w'.remote 1 ≡ 3)
    × (stock_in lucky w'.remote 2 ≡ 2)
unfolding create_order fetch_products place_order run_saga deduct_all deduct_attempts charge
    complete save_order request_payment publish_order_completed load_order total_amount order_items
    get_product judge_deduct judge_product judge_payment network product_route deduct_route
    payment_route get_product_service get_cached_product set_cached_product deduct_stock_service
    invalidate_product_cache verify_token verify_internal_service create_payment_service
    check_duplicate insert_payment flush_payment settle_payment valid_deduct valid_payment
runs = (refl, refl, refl)

-- The payment is rejected: the order has failed and the stock is back.
runs_back :
    let (r, w') = create_order (network unlucky) 3 (pos 3) basket world in
    (status_of r ≡ none) × (stock_in unlucky w'.remote 1 ≡ 5) × (stock_in unlucky w'.remote 2 ≡ 3)
unfolding create_order fetch_products place_order run_saga deduct_all deduct_attempts charge
    complete save_order request_payment publish_order_completed load_order total_amount order_items
    get_product judge_deduct judge_product judge_payment network product_route deduct_route
    payment_route get_product_service get_cached_product set_cached_product deduct_stock_service
    invalidate_product_cache verify_token verify_internal_service create_payment_service
    check_duplicate insert_payment flush_payment settle_payment valid_deduct valid_payment
    fail_payment restore_all restore_stock judge_restore restore_route restore_stock_service
    valid_restore
runs_back = (refl, refl, refl)
