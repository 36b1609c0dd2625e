-- ===== src/Product/Routes.antt =====
-- The HTTP boundary of product-service: routes/products.py, dependencies.py and the `Field` and
-- `Query` constraints of schemas.py. FastAPI runs the dependencies first; a constraint that fails
-- is answered by 422.
use Prim.Native.String.{count}
use micro_mart.Shared.{
  ℕ, ◌+◌, String, str_eq, Bool, true, ◌&&◌, not, Option, none, some, List, [], ◌∷◌, Action, ◌>>◌,
  throw_if, ltb, leb, keep_if,
}
use micro_mart.Shared.Http.{HttpError, plain_error}
use micro_mart.Product.Table.{
  Product, ProductCreate, ProductUpdate, ProductResponse, ProductListResponse, StockDeductRequest,
  StockDeductResponse, StockRestoreRequest, StockRestoreResponse,
}
use micro_mart.Product.Cache.{is_detail}
use micro_mart.Product.Stock.{Store, deduct_stock_service, restore_stock_service}
use micro_mart.Product.Catalog.{
  list_products_service, get_product_service, create_product_service, update_product_service,
  delete_product_service,
}

pub record Settings : Type 0 where
  pub internal_service_token : String
  pub product_cache_ttl : ℕ
  pub max_page_size : ℕ

unfoldable pub require_admin : String → Action Store HttpError (Unit {0})
require_admin x_user_role = throw_if (not (str_eq x_user_role "admin")) (plain_error 403)

-- `hmac.compare_digest` compares the texts.
unfoldable pub verify_internal_service : Settings → String → Action Store HttpError (Unit {0})
verify_internal_service settings x_internal_token = do
  throw_if (str_eq settings.internal_service_token "") (plain_error 500)
  throw_if (not (str_eq x_internal_token settings.internal_service_token)) (plain_error 401)

abbrev pub holds {ℓ} : {A : Type ℓ} → (A → Bool) → Option A → Bool
holds test none = true
holds test (some a) = test a

abbrev pub text_within : ℕ → ℕ → String → Bool
text_within low high s = leb low (count s) && leb (count s) high

unfoldable pub valid_create : ProductCreate → Bool
valid_create u =
    text_within 1 200 u.name && holds (text_within 0 2000) u.description && ltb 0 u.price

unfoldable pub valid_update : ProductUpdate → Bool
valid_update u =
    holds (text_within 1 200) u.name
    && holds (text_within 0 2000) u.description
    && holds (ltb 0) u.price

unfoldable pub valid_deduct : StockDeductRequest → Bool
valid_deduct u = ltb 0 u.quantity && ltb 0 u.expected_version

unfoldable pub valid_restore : StockRestoreRequest → Bool
valid_restore u = ltb 0 u.quantity

abbrev pub validate : Bool → Action Store HttpError (Unit {0})
validate valid = throw_if (not valid) (plain_error 422)

module _ (settings : Settings) where
  unfoldable pub list_products :
      (Product → ℕ) → String → ℕ → ℕ → Bool → Action Store HttpError ProductListResponse
  list_products ties x_user_role page page_size active_only = do
    validate (ltb 0 page && ltb 0 page_size && leb page_size settings.max_page_size)
    list_products_service ties x_user_role page page_size active_only

  unfoldable pub get_product : ℕ → Action Store HttpError ProductResponse
  get_product product_id = get_product_service settings.product_cache_ttl product_id

  unfoldable pub create_product : String → ProductCreate → Action Store HttpError ProductResponse
  unfolding require_admin
  create_product x_user_role payload = do
    require_admin x_user_role
    validate (valid_create payload)
    create_product_service payload

  unfoldable pub update_product :
      String → ℕ → ProductUpdate → Action Store HttpError ProductResponse
  unfolding require_admin
  update_product x_user_role product_id payload = do
    require_admin x_user_role
    validate (valid_update payload)
    update_product_service product_id payload

  unfoldable pub delete_product : String → ℕ → Action Store HttpError (Unit {0})
  unfolding require_admin
  delete_product x_user_role product_id = do
    require_admin x_user_role
    delete_product_service product_id

  unfoldable pub deduct_stock :
      String → ℕ → StockDeductRequest → Action Store HttpError StockDeductResponse
  unfolding verify_internal_service
  deduct_stock x_internal_token product_id payload = do
    verify_internal_service settings x_internal_token
    validate (valid_deduct payload)
    deduct_stock_service product_id payload

  unfoldable pub restore_stock :
      String → ℕ → StockRestoreRequest → Action Store HttpError StockRestoreResponse
  unfolding verify_internal_service
  restore_stock x_internal_token product_id payload = do
    verify_internal_service settings x_internal_token
    validate (valid_restore payload)
    restore_stock_service product_id payload

-- One event of the service's life: a request, the passing of time, or the expiry of a cache entry.
pub data Event : Type 0 where
  list : (Product → ℕ) → String → ℕ → ℕ → Bool → Event
  get : ℕ → Event
  create : String → ProductCreate → Event
  update : String → ℕ → ProductUpdate → Event
  delete : String → ℕ → Event
  deduct : String → ℕ → StockDeductRequest → Event
  restore : String → ℕ → StockRestoreRequest → Event
  wait : ℕ → Event
  expire : ℕ → Event

unfoldable pub handle : Settings → Event → Store → Store
handle settings (Event.list ties role page size active) s =
    (list_products settings ties role page size active s).1
handle settings (Event.get k) s = (get_product settings k s).1
handle settings (Event.create role u) s = (create_product settings role u s).1
handle settings (Event.update role k u) s = (update_product settings role k u s).1
handle settings (Event.delete role k) s = (delete_product settings role k s).1
handle settings (Event.deduct token k u) s = (deduct_stock settings token k u s).1
handle settings (Event.restore token k u) s = (restore_stock settings token k u s).1
handle settings (Event.wait n) s = record s { now = s.now + n }
handle settings (Event.expire k) s = record s {
  redis = record (s.redis) { entries = keep_if (λ e. not (is_detail k e.0)) s.redis.entries };
}

unfoldable pub run : Settings → List Event → Store → Store
run settings [] s = s
run settings (e ∷ es) s = run settings es (handle settings e s)
