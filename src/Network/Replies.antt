-- ===== src/Network/Replies.antt =====
-- What the routes that order-service calls answer, and what that means to its clients.
use micro_mart.Shared.{
  ℕ, ◌+◌, ◌≡◌, ◌≢◌, refl, String, Bool, true, not, ◌&&◌, ◌==◌, arith, Result, ok, err, Option-cases,
  inl, inr, if◌then◌else◌,
}
use micro_mart.Shared.Http.{HttpError}
use micro_mart.Shared.Session.{in_session}
use micro_mart.Product.Table.{
  ProductResponse, StockDeductRequest, StockDeductResponse, StockRestoreRequest,
  StockRestoreResponse, find,
}
use micro_mart.Product.Stock.{
  Store, deductible, deducted, deduct_refusal, deduct_stock_service, restorable, restored,
  restore_stock_service,
}
use micro_mart.Product.Catalog.{get_product_service}
use micro_mart.Product.Lookup.{Unique, first_where-eq-guarded, find-id, find-update_at}
use micro_mart.Product.Reference.{deductible-id, restorable-id}
use micro_mart.Product.Conservation.{stock_of}
use micro_mart.Product.Routes.{
  Settings, verify_internal_service, get_product as product_route, deduct_stock as deduct_route,
  restore_stock as restore_route,
}
use micro_mart.Payment.Routes.{
  create_payment as payment_route, verify_internal_service as verify_payment_token,
}
use micro_mart.Payment.Table.{PaymentDb, PaymentResponse, PaymentCreateRequest}
use micro_mart.Payment.Service.{
  Chance, create_payment_service, check_duplicate, insert_payment, flush_payment, settle_payment,
}
use micro_mart.Order.Clients.{uncaught, judge_deduct, judge_product, judge_restore, judge_payment}
use micro_mart.Order.Laws.{at, is_deducted}
use micro_mart.Network.{reply_of, succeeded}

-- An error is answered with a status that is no success.
abbrev pub proper : {A : Type 0} → Result HttpError A → Bool
proper (ok a) = true
proper (err e) = not (e.status_code == 200) && not (e.status_code == 201)

pub judge_deduct-proper :
    (r : Result HttpError StockDeductResponse)
    → proper r ≡ true
    → is_deducted (judge_deduct (reply_of 200 (λ _. tt) r)) ≡ succeeded r
unfolding judge_deduct
judge_deduct-proper (ok a) g = refl
judge_deduct-proper (err e) g = ground arith

pub judge_restore-proper :
    (r : Result HttpError StockRestoreResponse)
    → proper r ≡ true
    → judge_restore (reply_of 200 (λ _. tt) r) ≡ succeeded r
unfolding judge_restore
judge_restore-proper (ok a) g = refl
judge_restore-proper (err e) g = ground arith

pub judge_product-proper :
    (r : Result HttpError ProductResponse)
    → proper r ≡ true
    → judge_product (reply_of 200 (λ p. p) r) ≢ err uncaught
unfolding judge_product
judge_product-proper (ok a) g = ground arith
judge_product-proper (err e) g = ground arith

pub judge_payment-proper :
    (r : Result HttpError PaymentResponse)
    → proper r ≡ true
    → judge_payment (reply_of 201 (λ p. p) r) ≢ err uncaught
unfolding judge_payment
judge_payment-proper (ok a) g = ground arith
judge_payment-proper (err e) g = ground arith

module _ (settings : Settings) (k : ℕ) (u : StockDeductRequest) (s : Store) where
  pub deduct_route-proper : (token : String) → proper (deduct_route settings token k u s).0 ≡ true
  unfolding deduct_route verify_internal_service deduct_stock_service deduct_refusal
  deduct_route-proper token = ground arith

  deduct_service-moves :
      (j : ℕ)
      → Unique s.products
      → stock_of (find j (deduct_stock_service k u s).1.products)
          + (if succeeded (deduct_stock_service k u s).0 then at k u.quantity j else 0)
        ≡ stock_of (find j s.products)
  unfolding deduct_stock_service
  deduct_service-moves j unique = elim (Option-cases (find k s.products)) [
    | inl missing ↦
        ground
          (arith, first_where-eq-guarded k (deductible k u) s.products (deductible-id k u) unique)
    | inr (p, e) ↦ ground (
      arith,
      find-id k s.products p e,
      first_where-eq-guarded k (deductible k u) s.products (deductible-id k u) unique,
      find-update_at k j (deductible k u) (deducted u s.now) s.products p (deductible-id k u)
          (λ q. refl) e,
    )
  ]

  pub deduct_route-moves :
      (token : String) (j : ℕ)
      → Unique s.products
      → stock_of (find j (deduct_route settings token k u s).1.products)
          + (if succeeded (deduct_route settings token k u s).0 then at k u.quantity j else 0)
        ≡ stock_of (find j s.products)
  unfolding deduct_route verify_internal_service
  deduct_route-moves token j unique = ground (arith, deduct_service-moves j unique)

module _ (settings : Settings) (k : ℕ) (u : StockRestoreRequest) (s : Store) where
  pub restore_route-proper : (token : String) → proper (restore_route settings token k u s).0 ≡ true
  unfolding restore_route verify_internal_service restore_stock_service
  restore_route-proper token = ground arith

  restore_service-moves :
      (j : ℕ)
      → Unique s.products
      → stock_of (find j (restore_stock_service k u s).1.products)
        ≡ stock_of (find j s.products)
          + (if succeeded (restore_stock_service k u s).0 then at k u.quantity j else 0)
  unfolding restore_stock_service
  restore_service-moves j unique = elim (Option-cases (find k s.products)) [
    | inl missing ↦
        ground (arith, first_where-eq-guarded k (restorable k) s.products (restorable-id k) unique)
    | inr (p, e) ↦ ground (
      arith,
      find-id k s.products p e,
      first_where-eq-guarded k (restorable k) s.products (restorable-id k) unique,
      find-update_at k j (restorable k) (restored u s.now) s.products p (restorable-id k)
          (λ q. refl) e,
    )
  ]

  pub restore_route-moves :
      (token : String) (j : ℕ)
      → Unique s.products
      → stock_of (find j (restore_route settings token k u s).1.products)
        ≡ stock_of (find j s.products)
          + (if succeeded (restore_route settings token k u s).0 then at k u.quantity j else 0)
  unfolding restore_route verify_internal_service
  restore_route-moves token j unique = ground (arith, restore_service-moves j unique)

module _ (settings : Settings) (k : ℕ) (s : Store) where
  pub product_route-proper : proper (product_route settings k s).0 ≡ true
  unfolding product_route get_product_service
  product_route-proper = ground arith

  pub product_route-products : (product_route settings k s).1.products ≡ s.products
  unfolding product_route get_product_service
  product_route-products = ground arith

payment_service-proper :
    (c : Chance) (u : PaymentCreateRequest) (d : PaymentDb)
    → proper (in_session (create_payment_service c u) d).0 ≡ true
unfolding create_payment_service check_duplicate insert_payment flush_payment settle_payment
payment_service-proper c u d = ground arith

pub payment_route-proper :
    (token header : String) (c : Chance) (u : PaymentCreateRequest) (d : PaymentDb)
    → proper (payment_route token header c u d).0 ≡ true
unfolding payment_route verify_payment_token
payment_route-proper token header c u d = ground (arith, payment_service-proper c u d)
