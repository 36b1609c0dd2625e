-- ===== src/Product/Coherence/Events.antt =====
-- Every event of product-service keeps the cache coherent, while no Redis call fails.
use micro_mart.Shared.{
  ℕ, ◌≡◌, refl, ◌&&◌, not, List, [], ◌∷◌, ◌++◌, arith, Option-cases, inl, inr, ◌==◌, ==_iff,
  update_where, All,
}
use micro_mart.Product.Table.{
  Product, ProductCreate, ProductUpdate, StockDeductRequest, StockRestoreRequest, product_response,
  find,
}
use micro_mart.Product.Cache.{detail, listing, is_detail, get_cached_product, after_call}
use micro_mart.Product.Stock.{
  Store, deductible, deducted, deduct_stock_service, restorable, restored, restore_stock_service,
}
use micro_mart.Product.Catalog.{
  new_product, create_product_service, updated, update_product_service, deactivated,
  delete_product_service, get_from_database, get_product_service, list_products_service,
}
use micro_mart.Product.Lookup.{
  Unique, first_where-eq-guarded, find-id, find-update_where_ne, find-append_new,
}
use micro_mart.Product.Reference.{deductible-id, restorable-id}
use micro_mart.Product.Routes.{
  Settings, list_products, get_product, create_product, update_product, delete_product,
  deduct_stock, restore_stock, Event, handle, run,
}
use micro_mart.Product.Invariant.{IsStore, handle-IsStore, run-IsStore}
use micro_mart.Product.Coherence.{
  Fresh, Coherent, IsCoherent, Entry, keep_if-All, invalidate-Coherent, set-Coherent, active-id,
  read_table, get_product_service-eq-read_table,
}

append-Fresh :
    (ps : List Product) (q : Product) (es : List Entry)
    → All (Fresh ps) es
    → All (Fresh (ps ++ q ∷ [])) es
append-Fresh ps q [] a = tt
append-Fresh ps q ((detail j, ttl, v) ∷ es) a =
    (ground (arith, find-append_new j ps q), append-Fresh ps q es a.1)
append-Fresh ps q ((listing page size, ttl, v) ∷ es) a = (tt, append-Fresh ps q es a.1)

create-IsCoherent :
    (u : ProductCreate) (s : Store) → IsCoherent s → IsCoherent (create_product_service u s).1
unfolding create_product_service
create-IsCoherent u s c = record {
  fresh = append-Fresh s.products (new_product u s.next_id s.now) s.redis.entries c.fresh;
  reliable = c.reliable;
}

update-IsCoherent :
    (k : ℕ) (u : ProductUpdate) (s : Store)
    → IsCoherent s
    → IsCoherent (update_product_service k u s).1
unfolding update_product_service updated
update-IsCoherent k u s c = ground (
  arith,
  invalidate-Coherent k s.products (update_where (λ q. q.id == k) (updated u s.now) s.products)
      s.redis
      (λ j.
        find-update_where_ne k j (λ q. q.id == k) (updated u s.now) s.products
          (λ q h. (==_iff q.id k).0 h) (λ q. refl))
      c,
)

delete-IsCoherent : (k : ℕ) (s : Store) → IsCoherent s → IsCoherent (delete_product_service k s).1
unfolding delete_product_service
delete-IsCoherent k s c = ground (
  arith,
  invalidate-Coherent k s.products (update_where (λ q. q.id == k) (deactivated s.now) s.products)
      s.redis
      (λ j.
        find-update_where_ne k j (λ q. q.id == k) (deactivated s.now) s.products
          (λ q h. (==_iff q.id k).0 h) (λ q. refl))
      c,
)

deduct-IsCoherent :
    (k : ℕ) (u : StockDeductRequest) (s : Store)
    → IsCoherent s
    → IsCoherent (deduct_stock_service k u s).1
unfolding deduct_stock_service
deduct-IsCoherent k u s c = ground (
  arith,
  invalidate-Coherent k s.products (update_where (deductible k u) (deducted u s.now) s.products)
      s.redis
      (λ j.
        find-update_where_ne k j (deductible k u) (deducted u s.now) s.products (deductible-id k u)
          (λ q. refl))
      c,
)

restore-IsCoherent :
    (k : ℕ) (u : StockRestoreRequest) (s : Store)
    → IsCoherent s
    → IsCoherent (restore_stock_service k u s).1
unfolding restore_stock_service
restore-IsCoherent k u s c = ground (
  arith,
  invalidate-Coherent k s.products (update_where (restorable k) (restored u s.now) s.products)
      s.redis
      (λ j.
        find-update_where_ne k j (restorable k) (restored u s.now) s.products (restorable-id k)
          (λ q. refl))
      c,
)

get_from_database-IsCoherent :
    (ttl k : ℕ) (s : Store)
    → Unique s.products
    → IsCoherent s
    → IsCoherent (get_from_database ttl k s).1
get_from_database-IsCoherent ttl k s u c =
    let row = first_where-eq-guarded k (λ p. p.id == k && p.is_active) s.products (active-id k) u in
    elim (Option-cases (find k s.products)) [
      | inl missing ↦ ground (arith, row)
      | inr (p, e) ↦ ground (
        arith,
        row,
        find-id k s.products p e,
        set-Coherent k ttl (product_response p) s.products s.redis,
      )
    ]

get-IsCoherent :
    (ttl k : ℕ) (s : Store)
    → Unique s.products
    → IsCoherent s
    → IsCoherent (get_product_service ttl k s).1
unfolding get_product_service get_cached_product
get-IsCoherent ttl k s u c =
    let after : Store = record s { redis = after_call s.redis } in
    let kept : Coherent s.products (after_call s.redis) = record {
      fresh = c.fresh;
      reliable = ground arith;
    } in
    ground (arith, kept, get_from_database-IsCoherent ttl k after u kept)

expire-IsCoherent :
    (settings : Settings) (k : ℕ) (s : Store)
    → IsCoherent s
    → IsCoherent (handle settings (Event.expire k) s)
unfolding handle
expire-IsCoherent settings k s c = record {
  fresh = keep_if-All (Fresh s.products) (λ e. not (is_detail k e.0)) s.redis.entries c.fresh;
  reliable = c.reliable;
}

handle-IsCoherent :
    (settings : Settings) (e : Event) (s : Store)
    → Unique s.products
    → IsCoherent s
    → IsCoherent (handle settings e s)
unfolding handle list_products get_product create_product update_product delete_product deduct_stock
    restore_stock list_products_service
handle-IsCoherent settings (Event.list ties role page size active) s u c = ground arith
handle-IsCoherent settings (Event.get k) s u c = get-IsCoherent settings.product_cache_ttl k s u c
handle-IsCoherent settings (Event.create role p) s u c = ground (arith, create-IsCoherent p s)
handle-IsCoherent settings (Event.update role k p) s u c = ground (arith, update-IsCoherent k p s)
handle-IsCoherent settings (Event.delete role k) s u c = ground (arith, delete-IsCoherent k s c)
handle-IsCoherent settings (Event.deduct token k p) s u c =
    ground (arith, deduct-IsCoherent k p s c)
handle-IsCoherent settings (Event.restore token k p) s u c =
    ground (arith, restore-IsCoherent k p s c)
handle-IsCoherent settings (Event.wait n) s u c = c
handle-IsCoherent settings (Event.expire k) s u c = expire-IsCoherent settings k s c

run-IsCoherent :
    (settings : Settings) (es : List Event) (s : Store)
    → IsStore s
    → IsCoherent s
    → IsCoherent (run settings es s)
unfolding run
run-IsCoherent settings [] s w c = c
run-IsCoherent settings (e ∷ es) s w c =
    run-IsCoherent settings es (handle settings e s) (handle-IsStore settings e s w)
      (handle-IsCoherent settings e s w.unique c)

-- From a sound table with a coherent cache, and with no Redis call failing: after any history the
-- route that reads one product answers as the table alone does, the row if it is there and active,
-- 404 otherwise.
pub run-get_product :
    (settings : Settings) (es : List Event) (s : Store) (k : ℕ)
    → IsStore s
    → IsCoherent s
    → (get_product settings k (run settings es s)).0 ≡ read_table k (run settings es s).products
unfolding get_product
run-get_product settings es s k w c =
    get_product_service-eq-read_table settings.product_cache_ttl k (run settings es s)
      (run-IsStore settings es s w).unique (run-IsCoherent settings es s w c).fresh
