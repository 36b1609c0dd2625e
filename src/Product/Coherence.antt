-- ===== src/Product/Coherence.antt =====
-- The cache and the table: while no Redis call fails, a cached detail is the row as it stands, so
-- that reading through the cache is reading the table.
pub mod Events
pub mod Stale
use micro_mart.Shared.{
  ℕ, suc, ◌+◌, ◌≡◌, refl, ◌≢◌, String, Bool, true, false, ◌&&◌, not, Option, none, some, List, [],
  ◌∷◌, ◌++◌, Result, ok, err, arith, Option-cases, Bool-cases, inl, inr, ◌==◌, ==_iff, first_where,
  update_where, keep_if, if◌then◌else◌, All, leb, ltb,
}
use micro_mart.Shared.Http.{HttpError, plain_error, coded_error}
use micro_mart.Product.Table.{
  Product, ProductCreate, ProductUpdate, ProductResponse, StockDeductRequest, StockDeductResponse,
  StockRestoreRequest, product_response, find,
}
use micro_mart.Product.Cache.{
  CacheKey, detail, listing, Redis, cached, delete_detail, delete_listings, is_detail, is_listing,
  get_cached_product, set_cached_product, invalidate_product_cache,
}
use micro_mart.Product.Stock.{
  Store, deductible, deducted, deduct_stock_service, restorable, restored, restore_stock_service,
}
use micro_mart.Product.Catalog.{
  new_product, create_product_service, updated, update_product_service, deactivated,
  delete_product_service, get_from_database, get_product_service, list_products_service,
}
use micro_mart.Product.Lookup.{
  Unique, guarded, first_where-eq-guarded, find-id, find-update_where_ne, find-append_new,
}
use micro_mart.Product.Reference.{deductible-id, restorable-id}
use micro_mart.Product.Routes.{
  Settings, list_products, get_product, create_product, update_product, delete_product,
  deduct_stock, restore_stock, Event, handle, run,
}
use micro_mart.Product.Invariant.{IsStore, handle-IsStore}

-- What a reader of the table sees of a product: nothing unless it is active.
abbrev pub visible : Option Product → Option ProductResponse
visible none = none
visible (some p) = if p.is_active then some (product_response p) else none

abbrev pub Fresh : List Product → CacheKey × ℕ × ProductResponse → Type 0
Fresh ps (detail k, ttl, v) = visible (find k ps) ≡ some v
Fresh ps (listing page size, ttl, v) = Unit

pub record Coherent (ps : List Product) (r : Redis) : Type 0 where
  pub fresh : All (Fresh ps) r.entries
  pub reliable : r.faults ≡ []

abbrev pub Entry : Type 0
Entry = CacheKey × ℕ × ProductResponse

abbrev choose :
    (P : Entry → Type 0) (b : Bool) (e : Entry) (es : List Entry)
    → P e
    → All P es
    → All P (if b then e ∷ es else es)
choose P true e es p a = (p, a)
choose P false e es p a = a

pub keep_if-All :
    (P : Entry → Type 0) (t : Entry → Bool) (es : List Entry) → All P es → All P (keep_if t es)
keep_if-All P t [] a = tt
keep_if-All P t (e ∷ es) a = choose P (t e) e (keep_if t es) a.0 (keep_if-All P t es a.1)

-- A change of the table that only touches the product `k` leaves the entries of the others fresh.
touch :
    (k : ℕ) (ps ps' : List Product) (es : List Entry)
    → ((j : ℕ) → j ≢ k → find j ps' ≡ find j ps)
    → All (Fresh ps) es
    → All (Fresh ps') (delete_detail k es)
touch k ps ps' [] h a = tt
touch k ps ps' ((detail j, ttl, v) ∷ es) h a = elim (Bool-cases (j == k)) [
  | inl same ↦ rw same (touch k ps ps' es h a.1)
  | inr other ↦ rw other (rw (h j (λ e. ground arith)) a.0, touch k ps ps' es h a.1)
]
touch k ps ps' ((listing page size, ttl, v) ∷ es) h a = (tt, touch k ps ps' es h a.1)

invalidate_entries :
    (k : ℕ) (r : Redis)
    → r.faults ≡ []
    → ((invalidate_product_cache k r).entries ≡ delete_listings (delete_detail k r.entries))
      × ((invalidate_product_cache k r).faults ≡ [])
unfolding invalidate_product_cache
invalidate_entries k r h = ground arith

pub invalidate-Coherent :
    (k : ℕ) (ps ps' : List Product) (r : Redis)
    → ((j : ℕ) → j ≢ k → find j ps' ≡ find j ps)
    → Coherent ps r
    → Coherent ps' (invalidate_product_cache k r)
invalidate-Coherent k ps ps' r h c =
    let (entries, faults) = invalidate_entries k r c.reliable in
    record {
      fresh = rw entries (
          keep_if-All (Fresh ps') (λ e. not (is_listing e.0)) _
            (touch k ps ps' r.entries h c.fresh));
      reliable = faults;
    }

set_entries :
    (k ttl : ℕ) (v : ProductResponse) (r : Redis)
    → r.faults ≡ []
    → ((set_cached_product k v ttl r).entries ≡ (detail k, ttl, v) ∷ delete_detail k r.entries)
      × ((set_cached_product k v ttl r).faults ≡ [])
unfolding set_cached_product
set_entries k ttl v r h = ground arith

pub set-Coherent :
    (k ttl : ℕ) (v : ProductResponse) (ps : List Product) (r : Redis)
    → visible (find k ps) ≡ some v
    → Coherent ps r
    → Coherent ps (set_cached_product k v ttl r)
set-Coherent k ttl v ps r e c =
    let (entries, faults) = set_entries k ttl v r c.reliable in
    record {
      fresh = rw entries (e, keep_if-All (Fresh ps) (λ e. not (is_detail k e.0)) r.entries c.fresh);
      reliable = faults;
    }

pub cached-visible :
    (k : ℕ) (ps : List Product) (es : List Entry) (v : ProductResponse)
    → All (Fresh ps) es
    → cached k es ≡ some v
    → visible (find k ps) ≡ some v
cached-visible k ps [] v a e = ground arith
cached-visible k ps ((detail j, ttl, w) ∷ es) v a e = ground (arith, cached-visible k ps es v a.1)
cached-visible k ps ((listing page size, ttl, w) ∷ es) v a e = cached-visible k ps es v a.1 e

abbrev pub IsCoherent : Store → Type 0
IsCoherent s = Coherent s.products s.redis

-- The answer that the table alone gives.
abbrev pub read_table : ℕ → List Product → Result HttpError ProductResponse
read_table k ps = elim (visible (find k ps)) [ none ↦ err (plain_error 404) | some v ↦ ok v ]

pub active-id : (k : ℕ) (p : Product) → (p.id == k && p.is_active) ≡ true → p.id ≡ k
active-id k p h = ground arith

get_from_database-eq :
    (ttl k : ℕ) (s : Store)
    → Unique s.products
    → (get_from_database ttl k s).0 ≡ read_table k s.products
get_from_database-eq ttl k s u =
    let row = first_where-eq-guarded k (λ p. p.id == k && p.is_active) s.products (active-id k) u in
    elim (Option-cases (find k s.products)) [
      | inl missing ↦ ground (arith, row)
      | inr (p, e) ↦ ground (arith, row, find-id k s.products p e)
    ]

-- On a table with distinct ids, while every cached detail is the row as it stands and active,
-- reading a product through the cache answers as the table does, also when Redis fails.
pub get_product_service-eq-read_table :
    (ttl k : ℕ) (s : Store)
    → Unique s.products
    → All (Fresh s.products) s.redis.entries
    → (get_product_service ttl k s).0 ≡ read_table k s.products
unfolding get_product_service get_cached_product
get_product_service-eq-read_table ttl k s u a =
    let (hit, redis) = get_cached_product k s.redis in
    elim (Option-cases (cached k s.redis.entries)) [
      | inl miss ↦ ground (arith, get_from_database-eq ttl k (record s { redis = redis }) u)
      | inr (v, hit) ↦ ground (
        arith,
        get_from_database-eq ttl k (record s { redis = redis }) u,
        cached-visible k s.products s.redis.entries v a hit,
      )
    ]
