-- ===== src/Product/Conservation.antt =====
-- Stock is conserved: over any history, what a product holds is what it held, less what was
-- deducted, plus what was restored.
use micro_mart.Shared.{
  ℕ, ◌+◌, ◌≡◌, refl, Bool, true, false, ◌&&◌, Option, none, some, List, [], ◌∷◌, Result, ok, err,
  arith, Option-cases, inl, inr, ◌==◌, ◌⊎◌, ◌≢◌, if◌then◌else◌, All,
}
use micro_mart.Product.Table.{
  Product, ProductCreate, ProductUpdate, StockDeductRequest, StockRestoreRequest, find,
}
use micro_mart.Product.Stock.{
  Store, deductible, deducted, deduct_stock_service, restorable, restored, restore_stock_service,
}
use micro_mart.Product.Catalog.{
  new_product, create_product_service, updated, update_product_service, deactivated,
  delete_product_service, get_product_service, list_products_service,
}
use micro_mart.Product.Lookup.{
  Unique, first_where-eq-guarded, find-id, find-update_at, find-update_where, find-append_new,
}
use micro_mart.Product.Reference.{deductible-id, restorable-id}
use micro_mart.Product.Routes.{
  Settings, list_products, get_product, create_product, update_product, delete_product,
  deduct_stock, restore_stock, Event, handle, run,
}
use micro_mart.Product.Invariant.{IsStore, handle-IsStore}

-- What the answers of one event say about the stock of `k`: taken out, put in, changes.
pub record Traffic : Type 0 where
  pub taken : ℕ
  pub added : ℕ
  pub changes : ℕ

abbrev quiet : Traffic
quiet = record { taken = 0; added = 0; changes = 0 }

abbrev is_ok : {E A : Type 0} → Result E A → Bool
is_ok (ok a) = true
is_ok (err e) = false

pub traffic : Settings → ℕ → Event → Store → Traffic
traffic settings k (Event.deduct token j u) s =
    if j == k && is_ok (deduct_stock settings token j u s).0
    then record { taken = u.quantity; added = 0; changes = 1 }
    else quiet
traffic settings k (Event.restore token j u) s =
    if j == k && is_ok (restore_stock settings token j u s).0
    then record { taken = 0; added = u.quantity; changes = 1 }
    else quiet
traffic settings k e s = quiet

abbrev ◌+ₜ◌ : Traffic → Traffic → Traffic
◌+ₜ◌ a b = record {
  taken = a.taken + b.taken;
  added = a.added + b.added;
  changes = a.changes + b.changes;
}

pub traffic_of : Settings → ℕ → List Event → Store → Traffic
traffic_of settings k [] s = quiet
traffic_of settings k (e ∷ es) s =
    ◌+ₜ◌ (traffic settings k e s) (traffic_of settings k es (handle settings e s))

-- The event is no administrator's update that sets the stock of `k`.
abbrev pub LeavesStock : ℕ → Event → Type 0
LeavesStock k (Event.update role j u) = (j ≢ k) ⊎ (u.stock ≡ none)
LeavesStock k e = Unit

abbrev pub is_present : Option Product → Bool
is_present none = false
is_present (some p) = true

abbrev pub stock_of : Option Product → ℕ
stock_of none = 0
stock_of (some p) = p.stock

abbrev pub version_of : Option Product → ℕ
version_of none = 0
version_of (some p) = p.version

-- The row `after` is what the traffic makes of the row `before`.
pub record Follows (t : Traffic) (before after : Option Product) : Type 0 where
  pub present : is_present after ≡ true
  pub balance : stock_of after + t.taken ≡ stock_of before + t.added
  pub bumped : version_of after ≡ version_of before + t.changes

module _ (k : ℕ) (s : Store) (here : is_present (find k s.products) ≡ true) where
  get-Follows :
      (ttl j : ℕ)
      → Follows quiet (find k s.products) (find k (get_product_service ttl j s).1.products)
  unfolding get_product_service
  get-Follows ttl j = ground arith

  create-Follows :
      (u : ProductCreate)
      → Follows quiet (find k s.products) (find k (create_product_service u s).1.products)
  unfolding create_product_service
  create-Follows u = ground (arith, find-append_new k s.products (new_product u s.next_id s.now))

  update-Follows :
      (j : ℕ) (u : ProductUpdate)
      → (j ≢ k) ⊎ (u.stock ≡ none)
      → Follows quiet (find k s.products) (find k (update_product_service j u s).1.products)
  unfolding update_product_service updated
  update-Follows j u l = elim (Option-cases (find k s.products)) [
    | inl missing ↦ absurd (ground arith)
    | inr (p, e) ↦
        let same = find-id k s.products p e in
        ground
          (arith, find-update_where k (λ q. q.id == j) (updated u s.now) s.products (λ q. refl))
  ]

  delete-Follows :
      (j : ℕ) → Follows quiet (find k s.products) (find k (delete_product_service j s).1.products)
  unfolding delete_product_service
  delete-Follows j =
      ground
        (arith, find-update_where k (λ q. q.id == j) (deactivated s.now) s.products (λ q. refl))

  deduct-Follows :
      (j : ℕ) (u : StockDeductRequest)
      → Unique s.products
      → Follows
          (if j == k && is_ok (deduct_stock_service j u s).0
            then record { taken = u.quantity; added = 0; changes = 1 }
            else quiet)
          (find k s.products)
          (find k (deduct_stock_service j u s).1.products)
  unfolding deduct_stock_service
  deduct-Follows j u unique = elim (Option-cases (find j s.products)) [
    | inl missing ↦
        ground
          (arith, first_where-eq-guarded j (deductible j u) s.products (deductible-id j u) unique)
    | inr (p, e) ↦ ground (
      arith,
      find-id j s.products p e,
      first_where-eq-guarded j (deductible j u) s.products (deductible-id j u) unique,
      find-update_at j k (deductible j u) (deducted u s.now) s.products p (deductible-id j u)
          (λ q. refl) e,
    )
  ]

  restore-Follows :
      (j : ℕ) (u : StockRestoreRequest)
      → Unique s.products
      → Follows
          (if j == k && is_ok (restore_stock_service j u s).0
            then record { taken = 0; added = u.quantity; changes = 1 }
            else quiet)
          (find k s.products)
          (find k (restore_stock_service j u s).1.products)
  unfolding restore_stock_service
  restore-Follows j u unique = elim (Option-cases (find j s.products)) [
    | inl missing ↦
        ground (arith, first_where-eq-guarded j (restorable j) s.products (restorable-id j) unique)
    | inr (p, e) ↦ ground (
      arith,
      find-id j s.products p e,
      first_where-eq-guarded j (restorable j) s.products (restorable-id j) unique,
      find-update_at j k (restorable j) (restored u s.now) s.products p (restorable-id j)
          (λ q. refl) e,
    )
  ]

handle-Follows :
    (settings : Settings) (k : ℕ) (e : Event) (s : Store)
    → IsStore s
    → LeavesStock k e
    → is_present (find k s.products) ≡ true
    → Follows (traffic settings k e s) (find k s.products) (find k (handle settings e s).products)
unfolding handle traffic list_products get_product create_product update_product delete_product
    deduct_stock restore_stock list_products_service
handle-Follows settings k (Event.list ties role page size active) s w l here = ground arith
handle-Follows settings k (Event.get j) s w l here =
    get-Follows k s here settings.product_cache_ttl j
handle-Follows settings k (Event.create role u) s w l here =
    ground (arith, create-Follows k s here u)
handle-Follows settings k (Event.update role j u) s w l here =
    ground (arith, update-Follows k s here j u l)
handle-Follows settings k (Event.delete role j) s w l here =
    ground (arith, delete-Follows k s here j)
handle-Follows settings k (Event.deduct token j u) s w l here =
    ground (arith, deduct-Follows k s here j u w.unique)
handle-Follows settings k (Event.restore token j u) s w l here =
    ground (arith, restore-Follows k s here j u w.unique)
handle-Follows settings k (Event.wait n) s w l here = ground arith
handle-Follows settings k (Event.expire j) s w l here = ground arith

-- Over any history, from a sound table that has product `k`, in which no administrator overwrites
-- its stock: the product is still there, its stock plus what was taken is its first stock plus
-- what was restored, and its version has grown by one for each change of the stock.
pub run-Follows :
    (settings : Settings) (k : ℕ) (es : List Event) (s : Store)
    → IsStore s
    → All (LeavesStock k) es
    → is_present (find k s.products) ≡ true
    → Follows (traffic_of settings k es s) (find k s.products) (find k (run settings es s).products)
unfolding run traffic_of
run-Follows settings k [] s w l here = ground arith
run-Follows settings k (e ∷ es) s w l here =
    let now = handle-Follows settings k e s w l.0 here in
    let later =
      run-Follows settings k es (handle settings e s) (handle-IsStore settings e s w) l.1
        now.present in
    record {
      present = later.present;
      balance = omega (arith, now.balance, later.balance);
      bumped = omega (arith, now.bumped, later.bumped);
    }
