-- ===== src/Product/Cache.antt =====
-- The Redis cache of product-service (services/product-service/app/cache.py). A key holds the
-- response that was stored and its time to live. Redis itself is not modelled further: a call
-- may fail, as the list of faults says (head first; the calls past its end succeed).
use micro_mart.Shared.{
  ℕ, Bool, true, false, not, Option, none, some, List, [], ◌∷◌, ◌==◌, keep_if, if◌then◌else◌,
}
use micro_mart.Product.Table.{ProductResponse}

-- `product:detail:{id}` and `product:list:p{page}:s{size}`
pub data CacheKey : Type 0 where
  detail : ℕ → CacheKey
  listing : ℕ → ℕ → CacheKey

pub record Redis : Type 0 where
  pub entries : List (CacheKey × ℕ × ProductResponse)
  pub faults : List Bool

-- Whether the next call fails.
abbrev pub call_fails : Redis → Bool
call_fails r = elim r.faults [ [] ↦ false | b ∷ bs ↦ b ]

abbrev pub after_call : Redis → Redis
after_call r = record r { faults = elim r.faults [ [] ↦ [] | b ∷ bs ↦ bs ] }

-- `_product_key(product_id)`
abbrev pub product_key : ℕ → CacheKey
product_key product_id = detail product_id

abbrev pub is_detail : ℕ → CacheKey → Bool
is_detail product_id (detail j) = j == product_id
is_detail product_id (listing page size) = false

-- The pattern `product:list:*`.
abbrev pub is_listing : CacheKey → Bool
is_listing (detail j) = false
is_listing (listing page size) = true

abbrev pub cached : ℕ → List (CacheKey × ℕ × ProductResponse) → Option ProductResponse
cached product_id [] = none
cached product_id ((k, ttl, v) ∷ es) =
    if is_detail product_id k then some v else cached product_id es

abbrev pub delete_detail :
    ℕ → List (CacheKey × ℕ × ProductResponse) → List (CacheKey × ℕ × ProductResponse)
delete_detail product_id = keep_if (λ e. not (is_detail product_id e.0))

-- The SCAN loop: every key that matches the pattern is deleted.
abbrev pub delete_listings :
    List (CacheKey × ℕ × ProductResponse) → List (CacheKey × ℕ × ProductResponse)
delete_listings = keep_if (λ e. not (is_listing e.0))

-- `none` on a miss and on a Redis fault.
unfoldable pub get_cached_product : ℕ → Redis → Option ProductResponse × Redis
get_cached_product product_id r =
    (if call_fails r then none else cached product_id r.entries, after_call r)

-- `setex`: the old entry of the key is replaced.
unfoldable pub set_cached_product : ℕ → ProductResponse → ℕ → Redis → Redis
set_cached_product product_id response ttl r =
    if call_fails r then after_call r else record (after_call r) {
      entries = (product_key product_id, ttl, response) ∷ delete_detail product_id r.entries;
    }

-- The fault of one call leaves what the earlier call deleted.
delete_detail_key : ℕ → Redis → Redis
delete_detail_key product_id r = record (after_call r) {
  entries = delete_detail product_id r.entries;
}

scan_listings : Redis → Redis
scan_listings r =
    if call_fails r
    then after_call r
    else record (after_call r) { entries = delete_listings r.entries }

unfoldable pub invalidate_product_cache : ℕ → Redis → Redis
unfolding delete_detail_key scan_listings
invalidate_product_cache product_id r =
    if call_fails r then after_call r else scan_listings (delete_detail_key product_id r)
