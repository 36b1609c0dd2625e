-- ===== src/Product/Stock.antt =====
-- The stock operations of product-service: `deduct_stock_service` and `restore_stock_service`
-- (services/product-service/app/services/product_service.py). Each is one UPDATE statement, so
-- the rows change at once; the metrics and log lines are left out.
use micro_mart.Shared.{
  ℕ, ◌+◌, ◌-◌, Bool, ◌&&◌, not, none, some, List, Action, ok, err, leb, ◌==◌, first_where,
  update_where, if◌then◌else◌,
}
use micro_mart.Shared.Http.{HttpError, plain_error, coded_error}
use micro_mart.Product.Table.{
  Product, StockDeductRequest, StockDeductResponse, StockRestoreRequest, StockRestoreResponse, find,
}
use micro_mart.Product.Cache.{Redis, invalidate_product_cache}

-- The database, its clock, and the cache.
pub record Store : Type 0 where
  pub products : List Product
  pub next_id : ℕ
  pub now : ℕ
  pub redis : Redis

-- The WHERE clause of the deduction.
abbrev pub deductible : ℕ → StockDeductRequest → Product → Bool
deductible product_id payload p =
    p.id == product_id
    && p.is_active
    && p.version == payload.expected_version
    && leb payload.quantity p.stock

-- Its VALUES, and `onupdate=func.now()`.
abbrev pub deducted : StockDeductRequest → ℕ → Product → Product
deducted payload now p = record p {
  stock = p.stock - payload.quantity;
  version = p.version + 1;
  updated_at = now;
}

-- Why no row matched: the second SELECT of `deduct_stock_service`.
unfoldable pub deduct_refusal : ℕ → StockDeductRequest → List Product → HttpError
deduct_refusal product_id payload products = elim (find product_id products) [
  | none ↦ plain_error 404
  | some p ↦
      if not p.is_active
      then plain_error 404
      else if not (p.version == payload.expected_version)
      then coded_error 409 (some "VERSION_CONFLICT")
      else coded_error 409 (some "INSUFFICIENT_STOCK")
]

-- `RETURNING Product.stock, Product.version`, read by `fetchone`, is the first row that matched,
-- as it stands after the update.
unfoldable pub deduct_stock_service :
    ℕ → StockDeductRequest → Action Store HttpError StockDeductResponse
deduct_stock_service product_id payload s =
    elim (first_where (deductible product_id payload) s.products) [
      | none ↦ (err (deduct_refusal product_id payload s.products), s)
      | some p ↦ (
        ok (record {
          product_id = product_id;
          remaining_stock = (deducted payload s.now p).stock;
          new_version = (deducted payload s.now p).version;
        }),
        record s {
          products =
              update_where (deductible product_id payload) (deducted payload s.now) s.products;
          redis = invalidate_product_cache product_id s.redis;
        },
      )
    ]

abbrev pub restorable : ℕ → Product → Bool
restorable product_id p = p.id == product_id && p.is_active

abbrev pub restored : StockRestoreRequest → ℕ → Product → Product
restored payload now p = record p {
  stock = p.stock + payload.quantity;
  version = p.version + 1;
  updated_at = now;
}

unfoldable pub restore_stock_service :
    ℕ → StockRestoreRequest → Action Store HttpError StockRestoreResponse
restore_stock_service product_id payload s = elim (first_where (restorable product_id) s.products) [
  | none ↦ (err (plain_error 404), s)
  | some p ↦ (
    ok (record {
      product_id = product_id;
      remaining_stock = (restored payload s.now p).stock;
      new_version = (restored payload s.now p).version;
    }),
    record s {
      products = update_where (restorable product_id) (restored payload s.now) s.products;
      redis = invalidate_product_cache product_id s.redis;
    },
  )
]
