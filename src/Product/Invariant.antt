-- ===== src/Product/Invariant.antt =====
-- What holds of the products table between two events.
use micro_mart.Shared.{
  ℕ, suc, ◌≤◌, ◌<◌, ◌≡◌, refl, Bool, true, List, [], ◌∷◌, arith, ◌==◌, update_where, All,
  All-append,
}
use micro_mart.Product.Table.{
  Product, ProductCreate, ProductUpdate, StockDeductRequest, StockRestoreRequest,
}
use micro_mart.Product.Stock.{
  Store, deductible, deducted, deduct_stock_service, restorable, restored, restore_stock_service,
}
use micro_mart.Product.Catalog.{
  new_product, create_product_service, updated, update_product_service, deactivated,
  delete_product_service, get_product_service, list_products_service,
}
use micro_mart.Product.Lookup.{Unique, update_where-Unique, update_where-All, append_new-Unique}
use micro_mart.Product.Routes.{
  Settings, list_products, get_product, create_product, update_product, delete_product,
  deduct_stock, restore_stock, valid_create, valid_update, Event, handle, run,
}

-- Ids are below the sequence's next value, versions start at 1, prices are positive.
pub record IsRow (next_id : ℕ) (p : Product) : Type 0 where
  pub numbered : p.id < next_id
  pub versioned : 1 ≤ p.version
  pub priced : 1 ≤ p.price

pub record IsTable (next_id : ℕ) (products : List Product) : Type 0 where
  pub unique : Unique products
  pub rows : All (IsRow next_id) products

abbrev pub IsStore : Store → Type 0
IsStore s = IsTable s.next_id s.products

update_where-IsTable :
    (n : ℕ) (t : Product → Bool) (f : Product → Product) (ps : List Product)
    → ((p : Product) → (f p).id ≡ p.id)
    → ((p : Product) → IsRow n p → t p ≡ true → IsRow n (f p))
    → IsTable n ps
    → IsTable n (update_where t f ps)
update_where-IsTable n t f ps i h w = record {
  unique = update_where-Unique t f ps i w.unique;
  rows = update_where-All (IsRow n) t f ps h w.rows;
}

weaken_rows : (n : ℕ) (ps : List Product) → All (IsRow n) ps → All (IsRow (suc n)) ps
weaken_rows n [] a = tt
weaken_rows n (x ∷ xs) a = (omega arith, weaken_rows n xs a.1)

numbered_rows : (n : ℕ) (ps : List Product) → All (IsRow n) ps → All (λ p. p.id < n) ps
numbered_rows n [] a = tt
numbered_rows n (x ∷ xs) a = (a.0.numbered, numbered_rows n xs a.1)

create-IsStore :
    (u : ProductCreate) (s : Store)
    → valid_create u ≡ true
    → IsStore s
    → IsStore (create_product_service u s).1
unfolding create_product_service new_product valid_create
create-IsStore u s v w =
    let row = new_product u s.next_id s.now in
    record {
      unique =
          append_new-Unique s.products row (numbered_rows s.next_id s.products w.rows) w.unique;
      rows =
          All-append (IsRow (suc s.next_id)) s.products (row ∷ [])
            (weaken_rows s.next_id s.products w.rows) (ground arith, tt);
    }

update-IsStore :
    (k : ℕ) (u : ProductUpdate) (s : Store)
    → valid_update u ≡ true
    → IsStore s
    → IsStore (update_product_service k u s).1
unfolding update_product_service updated valid_update
update-IsStore k u s v w = ground (
  arith,
  update_where-IsTable s.next_id (λ q. q.id == k) (updated u s.now) s.products (λ p. refl)
      (λ p r t. ground arith) w,
)

delete-IsStore : (k : ℕ) (s : Store) → IsStore s → IsStore (delete_product_service k s).1
unfolding delete_product_service
delete-IsStore k s w = ground (
  arith,
  update_where-IsTable s.next_id (λ q. q.id == k) (deactivated s.now) s.products (λ p. refl)
      (λ p r t. ground arith) w,
)

pub deduct-IsStore :
    (k : ℕ) (u : StockDeductRequest) (s : Store)
    → IsStore s
    → IsStore (deduct_stock_service k u s).1
unfolding deduct_stock_service
deduct-IsStore k u s w = ground (
  arith,
  update_where-IsTable s.next_id (deductible k u) (deducted u s.now) s.products (λ p. refl)
      (λ p r t. ground arith) w,
)

pub restore-IsStore :
    (k : ℕ) (u : StockRestoreRequest) (s : Store)
    → IsStore s
    → IsStore (restore_stock_service k u s).1
unfolding restore_stock_service
restore-IsStore k u s w = ground (
  arith,
  update_where-IsTable s.next_id (restorable k) (restored u s.now) s.products (λ p. refl)
      (λ p r t. ground arith) w,
)

pub get-IsStore : (ttl k : ℕ) (s : Store) → IsStore s → IsStore (get_product_service ttl k s).1
unfolding get_product_service
get-IsStore ttl k s w = ground arith

-- Every event keeps the table sound, whatever the request holds: the routes refuse what would not.
pub handle-IsStore :
    (settings : Settings) (e : Event) (s : Store) → IsStore s → IsStore (handle settings e s)
unfolding handle list_products get_product create_product update_product delete_product deduct_stock
    restore_stock list_products_service
handle-IsStore settings (Event.list ties role page size active) s w = ground arith
handle-IsStore settings (Event.get k) s w = get-IsStore settings.product_cache_ttl k s w
handle-IsStore settings (Event.create role u) s w = ground (arith, create-IsStore u s)
handle-IsStore settings (Event.update role k u) s w = ground (arith, update-IsStore k u s)
handle-IsStore settings (Event.delete role k) s w = ground (arith, delete-IsStore k s w)
handle-IsStore settings (Event.deduct token k u) s w = ground (arith, deduct-IsStore k u s w)
handle-IsStore settings (Event.restore token k u) s w = ground (arith, restore-IsStore k u s w)
handle-IsStore settings (Event.wait n) s w = w
handle-IsStore settings (Event.expire k) s w = w

-- Through any sequence of events, from a sound table, ids stay distinct and below the next id,
-- versions stay at least 1 and prices stay positive.
pub run-IsStore :
    (settings : Settings) (es : List Event) (s : Store) → IsStore s → IsStore (run settings es s)
unfolding run
run-IsStore settings [] s w = w
run-IsStore settings (e ∷ es) s w =
    run-IsStore settings es (handle settings e s) (handle-IsStore settings e s w)
