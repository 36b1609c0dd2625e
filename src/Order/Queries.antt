-- ===== src/Order/Queries.antt =====
-- What order-service answers about stored orders, and its HTTP boundary: `get_order` and
-- `list_orders` (services/order-service/app/services/order_service.py), routes/orders.py and
-- dependencies.py. `parse_int` is Python's `int` on a header.
use micro_mart.Shared.Int.{ℤ, eqb_ℤ}
use micro_mart.Shared.{
  ℕ, ◌-◌, ◌*◌, String, str_eq, ◌&&◌, not, Option, none, some, List, ok, err, Action, ◌>>=◌, ◌>>◌,
  throw_if, or_throw, if◌then◌else◌, keep_if, take, drop, map, ltb, leb,
}
use micro_mart.Shared.Http.{plain_error, coded_error}
use micro_mart.Shared.Sort.{sort_desc}
use micro_mart.Order.Table.{
  Order, OrderDb, OrderCreateRequest, OrderResponse, OrderListResponse, valid_order, find,
}
use micro_mart.Order.Clients.{Remote, World, Exception, http}
use micro_mart.Order.Saga.{order_response}
use micro_mart.Order.Saga.{create_order as create_order_service}

unfoldable pub get_order : ℕ → ℤ → Action OrderDb Exception OrderResponse
get_order order_id user_id db = elim (find order_id db.orders) [
  | none ↦ (err (http (coded_error 404 (some "ORDER_NOT_FOUND"))), db)
  | some o ↦
      if not (eqb_ℤ o.user_id user_id)
      then (err (http (coded_error 403 (some "FORBIDDEN"))), db)
      else (ok (order_response o db.items), db)
]

abbrev pub list_response : Order → OrderListResponse
list_response o = record {
  id = o.id;
  status = o.status;
  total_amount = o.total_amount;
  created_at = o.created_at;
}

-- `page` starts at 1 (the route's `Query(ge=1)`). SQL leaves the order of rows with one `created_at`
-- open: `ties` is what the database orders them by in this query.
unfoldable pub list_orders :
    (Order → ℕ) → ℤ → ℕ → ℕ → Action OrderDb Exception (List OrderListResponse)
list_orders ties user_id page page_size db =
    let offset = (page - 1) * page_size in
    (
      ok (
          map list_response (
            take page_size (
              drop offset (
                sort_desc (λ o. o.created_at)
                  (sort_desc ties (keep_if (λ o. eqb_ℤ o.user_id user_id) db.orders)))))),
      db,
    )

module _ (parse_int : String → Option ℤ) where
  unfoldable pub get_current_user_id : {W : Type 0} → String → Action W Exception ℤ
  get_current_user_id x_user_id = do
    throw_if (str_eq x_user_id "") (http (plain_error 401))
    or_throw (parse_int x_user_id) (http (plain_error 400))

  -- The body is validated with the headers, before the handler runs.
  unfoldable pub create_order :
      {S : Type 0}
      → Remote S
      → ℕ
      → String
      → OrderCreateRequest
      → Action (World S) Exception OrderResponse
  create_order net max_retry x_user_id payload = do
    user_id ← get_current_user_id x_user_id
    throw_if (not (valid_order payload)) (http (plain_error 422))
    create_order_service net max_retry user_id payload

  unfoldable pub get_order_route : String → ℕ → Action OrderDb Exception OrderResponse
  get_order_route x_user_id order_id = do
    user_id ← get_current_user_id x_user_id
    get_order order_id user_id

  unfoldable pub list_orders_route :
      (Order → ℕ) → String → ℕ → ℕ → Action OrderDb Exception (List OrderListResponse)
  list_orders_route ties x_user_id page page_size = do
    user_id ← get_current_user_id x_user_id
    throw_if (not (ltb 0 page && (ltb 0 page_size && leb page_size 100))) (http (plain_error 422))
    list_orders ties user_id page page_size
