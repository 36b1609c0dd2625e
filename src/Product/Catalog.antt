-- ===== src/Product/Catalog.antt =====
-- The catalogue operations of product-service (services/product-service/app/services/
-- product_service.py): list, get, create, update, soft delete.
use micro_mart.Shared.{
  ℕ, suc, ◌+◌, ◌-◌, ◌*◌, String, str_eq, Bool, true, false, ◌&&◌, ◌||◌, not, Option, none, some,
  List, [], ◌∷◌, ◌++◌, map, Action, ok, err, ltb, ◌==◌, first_where, update_where, keep_if, length,
  take, drop, if◌then◌else◌,
}
use micro_mart.Shared.Http.{HttpError, plain_error}
use micro_mart.Shared.Sort.{sort_desc}
use micro_mart.Product.Table.{
  Product, ProductCreate, ProductUpdate, ProductResponse, ProductListResponse, product_response,
  find,
}
use micro_mart.Product.Cache.{get_cached_product, set_cached_product, invalidate_product_cache}
use micro_mart.Product.Stock.{Store}

-- The rows that the conditions of the listing select.
abbrev pub listed : Bool → List Product → List Product
listed active_only products = if active_only then keep_if (λ p. p.is_active) products else products

-- `page` starts at 1 (the route's `Query(ge=1)`). SQL leaves the order of rows with one `created_at`
-- open: `ties` is what the database orders them by in this query.
unfoldable pub list_products_service :
    (Product → ℕ) → String → ℕ → ℕ → Bool → Action Store HttpError ProductListResponse
list_products_service ties x_user_role page page_size active_only s =
    let offset = (page - 1) * page_size in
    if not active_only && not (str_eq x_user_role "admin") then (err (plain_error 403), s) else (
      ok (record {
        items = map product_response (
            take page_size (
              drop offset
                (sort_desc (λ p. p.created_at) (sort_desc ties (listed active_only s.products)))));
        total = length (listed active_only s.products);
        page = page;
        page_size = page_size;
        has_next = ltb (offset + page_size) (length (listed active_only s.products));
      }),
      s,
    )

-- The SELECT behind a cache miss, and the `setex` after it.
abbrev pub get_from_database : ℕ → ℕ → Action Store HttpError ProductResponse
get_from_database ttl product_id s =
    elim (first_where (λ p. p.id == product_id && p.is_active) s.products) [
      | none ↦ (err (plain_error 404), s)
      | some p ↦ (
        ok (product_response p),
        record s { redis = set_cached_product product_id (product_response p) ttl s.redis },
      )
    ]

-- `product_cache_ttl` is a setting.
unfoldable pub get_product_service : ℕ → ℕ → Action Store HttpError ProductResponse
get_product_service ttl product_id s =
    let (hit, redis) = get_cached_product product_id s.redis in
    elim hit [
      | some v ↦ (ok v, record s { redis = redis })
      | none ↦ get_from_database ttl product_id (record s { redis = redis })
    ]

-- The columns that the payload does not give have the defaults of the model.
unfoldable pub new_product : ProductCreate → ℕ → ℕ → Product
new_product payload id now = record {
  id = id;
  name = payload.name;
  description = payload.description;
  price = payload.price;
  stock = payload.stock;
  version = 1;
  is_active = true;
  created_at = now;
  updated_at = now;
}

unfoldable pub create_product_service : ProductCreate → Action Store HttpError ProductResponse
create_product_service payload s =
    let p = new_product payload s.next_id s.now in
    (ok (product_response p), record s { products = s.products ++ p ∷ []; next_id = suc s.next_id })

-- `setattr` for each field that is not None.
abbrev pub given {ℓ} : {A : Type ℓ} → Option A → A → A
given none old = old
given (some new) old = new

abbrev pub given_text : Option String → Option String → Option String
given_text none old = old
given_text (some new) old = some new

-- SQLAlchemy issues an UPDATE only if some attribute has a new value.
abbrev pub same_text : Option String → Option String → Bool
same_text none none = true
same_text (some a) (some b) = str_eq a b
same_text _ _ = false

abbrev pub same_flag : Bool → Bool → Bool
same_flag true b = b
same_flag false b = not b

abbrev pub is_change : ProductUpdate → Product → Bool
is_change u p =
    not (str_eq (given u.name p.name) p.name)
    || not (same_text (given_text u.description p.description) p.description)
    || not (given u.price p.price == p.price)
    || not (given u.stock p.stock == p.stock)
    || not (same_flag (given u.is_active p.is_active) p.is_active)

unfoldable pub updated : ProductUpdate → ℕ → Product → Product
updated u now p = record p {
  name = given u.name p.name;
  description = given_text u.description p.description;
  price = given u.price p.price;
  stock = given u.stock p.stock;
  is_active = given u.is_active p.is_active;
  updated_at = if is_change u p then now else p.updated_at;
}

unfoldable pub update_product_service : ℕ → ProductUpdate → Action Store HttpError ProductResponse
update_product_service product_id payload s = elim (find product_id s.products) [
  | none ↦ (err (plain_error 404), s)
  | some p ↦ (
    ok (product_response (updated payload s.now p)),
    record s {
      products = update_where (λ q. q.id == product_id) (updated payload s.now) s.products;
      redis = invalidate_product_cache product_id s.redis;
    },
  )
]

abbrev pub deactivated : ℕ → Product → Product
deactivated now p = record p {
  is_active = false;
  updated_at = if p.is_active then now else p.updated_at;
}

unfoldable pub delete_product_service : ℕ → Action Store HttpError (Unit {0})
delete_product_service product_id s = elim (find product_id s.products) [
  | none ↦ (err (plain_error 404), s)
  | some p ↦ (
    ok tt,
    record s {
      products = update_where (λ q. q.id == product_id) (deactivated s.now) s.products;
      redis = invalidate_product_cache product_id s.redis;
    },
  )
]
