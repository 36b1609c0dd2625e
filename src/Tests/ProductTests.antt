-- ===== src/Tests/ProductTests.antt =====
-- product-service on two products.
use micro_mart.Shared.{
  ℕ, ◌+◌, ◌*◌, ◌≤◌, ◌≡◌, refl, false, true, none, some, List, [], ◌∷◌, ok, err, arith, ◌==◌, inr,
  All, map, take, length, if◌then◌else◌,
}
use mathlib.Core.List.{Perm}
use micro_mart.Shared.Http.{coded_error}
use micro_mart.Shared.Sort.{IsDesc}
use micro_mart.Product.Table.{
  Product, StockDeductRequest, StockDeductResponse, StockRestoreRequest, product_response, find,
}
use micro_mart.Product.Cache.{CacheKey}
use micro_mart.Product.Stock.{Store, deduct_stock_service, restore_stock_service}
use micro_mart.Product.Catalog.{get_product_service, list_products_service}
use micro_mart.Product.Lookup.{Unique}
use micro_mart.Product.Reference.{
  deduct_reference, restore_reference, deduct_stock_service-refines, restore_stock_service-refines,
}
use micro_mart.Product.Routes.{Settings, Event, run, get_product}
use micro_mart.Product.Invariant.{IsStore, run-IsStore}
use micro_mart.Product.Locking.{restore-deduct}
use micro_mart.Product.Conservation.{Follows, LeavesStock, traffic_of, run-Follows}
use micro_mart.Product.Coherence.{read_table}
use micro_mart.Product.Coherence.Events.{run-get_product}
use micro_mart.Product.Coherence.Stale.{stale_read-conflict}
use micro_mart.Product.Paging.{first_pages, newest_first, shown, page_of, first_pages_tile}

abbrev pencil : Product
pencil = record {
  id = 1;
  name = "pencil";
  description = none;
  price = 100;
  stock = 5;
  version = 1;
  is_active = true;
  created_at = 1;
  updated_at = 1;
}

abbrev book : Product
book = record pencil { id = 2; name = "book"; price = 900; stock = 3; version = 4; created_at = 2 }

abbrev shop : Store
shop = record {
  products = pencil ∷ book ∷ [];
  next_id = 3;
  now = 10;
  redis = record { entries = []; faults = [] };
}

abbrev settings : Settings
settings = record { internal_service_token = "token"; product_cache_ttl = 60; max_page_size = 100 }

abbrev two : StockDeductRequest
two = record { quantity = 2; expected_version = 1 }

abbrev three : StockDeductRequest
three = record { quantity = 3; expected_version = 1 }

abbrev give_two : StockRestoreRequest
give_two = record { quantity = 2 }

abbrev sold : StockDeductResponse
sold = record { product_id = 1; remaining_stock = 3; new_version = 2 }

shop-Unique : Unique shop.products
shop-Unique = (refl, (refl, tt))

shop-IsStore : IsStore shop
shop-IsStore = record {
  unique = shop-Unique;
  rows = (
    record { numbered = omega arith; versioned = omega arith; priced = omega arith },
    (record { numbered = omega arith; versioned = omega arith; priced = omega arith }, tt),
  );
}

sale_succeeds : deduct_stock_service 1 two shop ≡ (ok sold, (deduct_stock_service 1 two shop).1)
unfolding deduct_stock_service
sale_succeeds = refl

deduct_stock_service-refines_example :
    let (answer, s') = deduct_stock_service 1 two shop in
    let (expected, shelf) = deduct_reference 1 two shop.now (λ j. find j shop.products) in
    (answer ≡ expected) × ((j : ℕ) → find j s'.products ≡ shelf j)
deduct_stock_service-refines_example = deduct_stock_service-refines 1 two shop shop-Unique

restore_stock_service-refines_example :
    let (answer, s') = restore_stock_service 2 give_two shop in
    let (expected, shelf) = restore_reference 2 give_two shop.now (λ j. find j shop.products) in
    (answer ≡ expected) × ((j : ℕ) → find j s'.products ≡ shelf j)
restore_stock_service-refines_example = restore_stock_service-refines 2 give_two shop shop-Unique

restore-deduct_example :
    let back : StockRestoreRequest = record { quantity = two.quantity } in
    let s'' = (restore_stock_service 1 back (deduct_stock_service 1 two shop).1).1 in
    (p : Product) × (q : Product) × (find 1 shop.products ≡ some p)
    × (find 1 s''.products ≡ some q)
    × (q.stock ≡ p.stock)
    × (q.version ≡ p.version + 2)
    × (q.price ≡ p.price)
    × ((j : ℕ) → (j == 1) ≡ false → find j s''.products ≡ find j shop.products)
restore-deduct_example =
    restore-deduct 1 two shop (deduct_stock_service 1 two shop).1 sold shop-Unique sale_succeeds

-- Two sales, one of them too late, and a restore.
abbrev day : List Event
day =
    Event.get 1
    ∷ Event.deduct "token" 1 two
    ∷ Event.deduct "token" 1 three
    ∷ Event.wait 5
    ∷ Event.restore "token" 1 give_two
    ∷ Event.update "admin" 2 (record {
      name = none;
      description = none;
      price = some 950;
      stock = none;
      is_active = none;
    })
    ∷ []

day-LeavesStock : All (LeavesStock 1) day
day-LeavesStock = (tt, (tt, (tt, (tt, (tt, (inr refl, tt))))))

run-IsStore_example : IsStore (run settings day shop)
run-IsStore_example = run-IsStore settings day shop shop-IsStore

run-Follows_example :
    Follows
      (traffic_of settings 1 day shop)
      (find 1 shop.products)
      (find 1 (run settings day shop).products)
run-Follows_example = run-Follows settings 1 day shop shop-IsStore day-LeavesStock refl

-- The pencil is cached.
abbrev warm_shop : Store
warm_shop = record shop {
  redis = record { entries = (CacheKey.detail 1, 60, product_response pencil) ∷ []; faults = [] };
}

run-get_product_example :
    (get_product settings 1 (run settings day warm_shop)).0
    ≡ read_table 1 (run settings day warm_shop).products
run-get_product_example =
    run-get_product settings day warm_shop 1 shop-IsStore
      (record { fresh = (refl, tt); reliable = refl })

-- The pencil is cached, and the next Redis call fails.
abbrev faulty_shop : Store
faulty_shop = record shop {
  redis = record {
    entries = (CacheKey.detail 1, 60, product_response pencil) ∷ [];
    faults = true ∷ [];
  };
}

sale_succeeds_anyway :
    deduct_stock_service 1 two faulty_shop ≡ (ok sold, (deduct_stock_service 1 two faulty_shop).1)
unfolding deduct_stock_service
sale_succeeds_anyway = refl

stale_read-conflict_example :
    let s' = (deduct_stock_service 1 two faulty_shop).1 in
    (get_product_service 60 1 s' ≡ (ok (product_response pencil), s'))
    × ((quantity : ℕ)
        → deduct_stock_service 1 (record { quantity = quantity; expected_version = 1 }) s'
          ≡ (err (coded_error 409 (some "VERSION_CONFLICT")), s'))
stale_read-conflict_example =
    stale_read-conflict 60 1 two faulty_shop (deduct_stock_service 1 two faulty_shop).1 sold
      (product_response pencil) shop-Unique refl refl refl sale_succeeds_anyway

-- The database breaks ties by the id in one query, and by the stock in the other.
abbrev shop_ties : ℕ → Product → ℕ
shop_ties n p = if n == 1 then p.id else p.stock

first_pages_tile_example :
    (first_pages shop_ties "customer" 1 true 2 shop
      ≡ map product_response (take (2 * 1) (newest_first true shop)))
    × (list_products_service (shop_ties 2) "customer" 2 1 true shop
        ≡ (ok (page_of 1 1 true shop), shop))
    × (length (shown true shop.products) ≤ 2 * 1
        → first_pages shop_ties "customer" 1 true 2 shop
          ≡ map product_response (newest_first true shop))
    × IsDesc (λ (p : Product). p.created_at) (newest_first true shop)
    × Perm (newest_first true shop) (shown true shop.products)
first_pages_tile_example =
    first_pages_tile shop_ties "customer" 1 true 1 shop refl ((refl, tt), (tt, tt))
