-- ===== src/Product/Paging.antt =====
-- The pages of the listing: newest first, and together the whole.
use micro_mart.Shared.{
  ℕ, zero, suc, ◌+◌, ◌-◌, ◌*◌, ◌≤◌, ◌≡◌, refl, ap, ◌∙◌, String, str_eq, Bool, true, false, ◌||◌,
  not, keep_if, ltb, sym, List, [], ◌∷◌, ◌++◌, map, Result, ok, err, arith, length, take, drop,
}
use mathlib.Core.List.{Perm, map-append}
use micro_mart.Shared.Sort.{
  sort_desc, IsDesc, HasDistinctKeys, sort_desc-IsDesc, length-sort_desc, sort_desc-ties,
  sort_desc-Perm,
}
use micro_mart.Shared.Http.{HttpError}
use micro_mart.Product.Table.{Product, ProductResponse, ProductListResponse, product_response}
use micro_mart.Product.Stock.{Store}
use micro_mart.Product.Catalog.{listed, list_products_service}

module _ {A : Type 0} where
  pub take-add : (n m : ℕ) (xs : List A) → take n xs ++ take m (drop n xs) ≡ take (n + m) xs
  take-add zero m xs = let e : 0 + m ≡ m = omega arith in rw e
  take-add (suc n) zero [] = let e : suc n + 0 ≡ suc n = omega arith in rw e
  take-add (suc n) (suc m) [] = let e : suc n + suc m ≡ suc (n + suc m) = omega arith in rw e
  take-add (suc n) m (x ∷ xs) =
      let e : suc n + m ≡ suc (n + m) = omega arith in rw e (ap (λ t. x ∷ t) (take-add n m xs))

  pub take_all : (n : ℕ) (xs : List A) → length xs ≤ n → take n xs ≡ xs
  take_all zero [] h = refl
  take_all zero (x ∷ xs) h = absurd (omega arith)
  take_all (suc n) [] h = refl
  take_all (suc n) (x ∷ xs) h = ap (λ t. x ∷ t) (take_all n xs (omega arith))

-- What a client sees of the table: the active products, or all of them.
abbrev pub shown : Bool → List Product → List Product
shown active_only = keep_if (λ p. not active_only || p.is_active)

-- The whole listing, newest first.
abbrev pub newest_first : Bool → Store → List Product
newest_first active_only s = sort_desc (λ p. p.created_at) (shown active_only s.products)

abbrev pub items_of : Result HttpError ProductListResponse → List ProductResponse
items_of (ok r) = r.items
items_of (err e) = []

-- The items of pages 1 to n, in that order; page k is read with the ties of `ties k`.
pub first_pages : (ℕ → Product → ℕ) → String → ℕ → Bool → ℕ → Store → List ProductResponse
first_pages ties role page_size active_only zero s = []
first_pages ties role page_size active_only (suc n) s =
    first_pages ties role page_size active_only n s
    ++ items_of (list_products_service (ties (suc n)) role (suc n) page_size active_only s).0

-- Who may list: the active products anyone, all of them an administrator.
abbrev pub may_list : String → Bool → Bool
may_list role active_only = active_only || str_eq role "admin"

listed-shown : (active : Bool) (ps : List Product) → listed active ps ≡ shown active ps
listed-shown true ps = refl
listed-shown false [] = refl
listed-shown false (p ∷ ps) = ap (λ t. p ∷ t) (listed-shown false ps)

-- The times of what is shown differ.
abbrev pub HasDistinctTimes : Bool → Store → Type 0
HasDistinctTimes active s = HasDistinctKeys (λ p. p.created_at) (shown active s.products)

sorted-newest_first :
    (ties : Product → ℕ) (active : Bool) (s : Store)
    → HasDistinctTimes active s
    → sort_desc (λ p. p.created_at) (sort_desc ties (listed active s.products))
      ≡ newest_first active s
sorted-newest_first ties active s d =
    ap (λ ps. sort_desc (λ (p : Product). p.created_at) (sort_desc ties ps))
      (listed-shown active s.products)
    ∙ sort_desc-ties (λ p. p.created_at) ties (shown active s.products) d

-- Page `suc n` of the listing.
abbrev pub page_of : ℕ → ℕ → Bool → Store → ProductListResponse
page_of size n active s = record {
  items = map product_response (take size (drop (n * size) (newest_first active s)));
  total = length (shown active s.products);
  page = suc n;
  page_size = size;
  has_next = ltb (suc n * size) (length (shown active s.products));
}

one_page :
    (ties : Product → ℕ) (role : String) (size : ℕ) (active : Bool) (n : ℕ) (s : Store)
    → may_list role active ≡ true
    → HasDistinctTimes active s
    → list_products_service ties role (suc n) size active s ≡ (ok (page_of size n active s), s)
unfolding list_products_service
one_page ties role size active n s h d =
    let e : suc n - 1 ≡ n = omega arith in
    let e' : suc n * size ≡ n * size + size = grind arith in
    rw (e, e', sorted-newest_first ties active s d, listed-shown active s.products) (ground arith)

first_pages-eq-take :
    (ties : ℕ → Product → ℕ) (role : String) (size : ℕ) (active : Bool) (n : ℕ) (s : Store)
    → may_list role active ≡ true
    → HasDistinctTimes active s
    → first_pages ties role size active n s
      ≡ map product_response (take (n * size) (newest_first active s))
unfolding first_pages
first_pages-eq-take ties role size active zero s h d = let e : 0 * size ≡ 0 = omega arith in rw e
first_pages-eq-take ties role size active (suc n) s h d =
    let e : suc n * size ≡ n * size + size = grind arith in
    rw
      (
        first_pages-eq-take ties role size active n s h d,
        one_page (ties (suc n)) role size active n s h d,
        e,
        ← take-add (n * size) size (newest_first active s),
      )
      (sym (map-append product_response _ _))

-- A client that may see the listing and reads the pages from the first on, where no two of the
-- products shown have one time, has after page n the first n pages' worth of the listing, newest
-- first and without gap or repetition, however the database orders ties in each query. Page n
-- gives the number of all products shown and whether there are more than n pages hold, and where
-- there are not, the client has the whole listing. The listing is the products shown, in an order in
-- which no time is later than the one before.
pub first_pages_tile :
    (ties : ℕ → Product → ℕ) (role : String) (size : ℕ) (active : Bool) (n : ℕ) (s : Store)
    → may_list role active ≡ true
    → HasDistinctTimes active s
    → (first_pages ties role size active (suc n) s
        ≡ map product_response (take (suc n * size) (newest_first active s)))
      × (list_products_service (ties (suc n)) role (suc n) size active s
          ≡ (ok (page_of size n active s), s))
      × (length (shown active s.products) ≤ suc n * size
          → first_pages ties role size active (suc n) s
            ≡ map product_response (newest_first active s))
      × IsDesc (λ (p : Product). p.created_at) (newest_first active s)
      × Perm (newest_first active s) (shown active s.products)
first_pages_tile ties role size active n s h d =
    let key : Product → ℕ = λ p. p.created_at in
    (
      first_pages-eq-take ties role size active (suc n) s h d,
      one_page (ties (suc n)) role size active n s h d,
      λ last.
          first_pages-eq-take ties role size active (suc n) s h d
          ∙ ap (map product_response) (
              take_all (suc n * size) (newest_first active s)
                (let all = length-sort_desc key (shown active s.products) in omega (arith, all))),
      sort_desc-IsDesc key (shown active s.products),
      sort_desc-Perm key (shown active s.products),
    )
