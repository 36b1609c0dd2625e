-- ===== src/Product/Coherence/Stale.antt =====
-- What a failed invalidation leaves behind: the version in the cache is the one before the change.
use micro_mart.Shared.{ℕ, ◌≡◌, true, some, [], ◌∷◌, ok, err, arith}
use micro_mart.Shared.Http.{coded_error}
use micro_mart.Product.Table.{ProductResponse, StockDeductRequest, StockDeductResponse}
use micro_mart.Product.Cache.{cached, get_cached_product, invalidate_product_cache}
use micro_mart.Product.Stock.{Store, deduct_stock_service}
use micro_mart.Product.Catalog.{get_product_service}
use micro_mart.Product.Lookup.{Unique}
use micro_mart.Product.Locking.{second_deduct-conflict}

kept_entries :
    (k : ℕ) (payload : StockDeductRequest) (s s' : Store) (r : StockDeductResponse)
    → s.redis.faults ≡ true ∷ []
    → deduct_stock_service k payload s ≡ (ok r, s')
    → (s'.redis.entries ≡ s.redis.entries) × (s'.redis.faults ≡ [])
unfolding deduct_stock_service invalidate_product_cache
kept_entries k payload s s' r f e = ground arith

-- On a table with distinct ids, where the product is cached in the version that a successful
-- deduction expected and the one Redis call that fails is the one that should drop it: reading the
-- product still gives the cached version, without changing anything, and a deduction of any
-- quantity with the version that was read is refused with VERSION_CONFLICT and changes nothing.
pub stale_read-conflict :
    (ttl k : ℕ) (payload : StockDeductRequest) (s s' : Store) (r : StockDeductResponse)
    (v : ProductResponse)
    → Unique s.products
    → cached k s.redis.entries ≡ some v
    → v.version ≡ payload.expected_version
    → s.redis.faults ≡ true ∷ []
    → deduct_stock_service k payload s ≡ (ok r, s')
    → (get_product_service ttl k s' ≡ (ok v, s'))
      × ((quantity : ℕ)
          → deduct_stock_service k (record { quantity = quantity; expected_version = v.version }) s'
            ≡ (err (coded_error 409 (some "VERSION_CONFLICT")), s'))
unfolding get_product_service get_cached_product
stale_read-conflict ttl k payload s s' r v u hit current fault e =
    let (entries, faults) = kept_entries k payload s s' r fault e in
    (
      ground arith,
      λ quantity.
          second_deduct-conflict k payload
            (record { quantity = quantity; expected_version = v.version }) s s' r u current e,
    )
