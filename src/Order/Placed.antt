-- ===== src/Order/Placed.antt =====
-- What comes before the first commit of the saga: the products read, the order and its items stored.
use micro_mart.Shared.{
  ℕ, ◌≡◌, refl, ◌∙◌, true, false, some, List, [], ◌∷◌, arith, ◌==◌, Result, ok, err, Bool-cases,
  inl, inr, if◌then◌else◌, Dict, lookup, insert, lookup-insert,
}
use micro_mart.Shared.Http.{coded_error}
use micro_mart.Product.Table.{ProductResponse}
use micro_mart.Order.Table.{OrderItemRequest}
use micro_mart.Order.Clients.{
  Remote, World, Exception, product_error, payment_error, http, uncaught, get_product,
}
use micro_mart.Order.Placing.{fetch_products}
use micro_mart.Order.Laws.{KeepsStock}
use micro_mart.Order.Balance.{get_product-stock}
use micro_mart.Order.Rows.{get_product-session}
use micro_mart.Order.Deduction.{Covers}

-- Every read product stays read.
pub Covers-insert :
    (k : ℕ) (p : ProductResponse) (products : Dict ProductResponse) (items : List OrderItemRequest)
    → Covers products items
    → Covers (insert k p products) items
Covers-insert k p products [] c = tt
Covers-insert k p products (i ∷ is) ((q, e), c) = (
  (if i.product_id == k then p else q, ground (arith, lookup-insert i.product_id k p products)),
  Covers-insert k p products is c,
)

module _ {S : Type 0} (net : Remote S) (stock : S → ℕ → ℕ) (law : KeepsStock net stock) where
  -- Reading products stores nothing and moves nothing.
  pub record Untouched (w w' : World S) : Type 0 where
    pub same_session : w'.session ≡ w.session
    pub same_stock : (j : ℕ) → stock w'.remote j ≡ stock w.remote j

  abbrev pub Fetched :
      List OrderItemRequest
      → Dict ProductResponse
      → World S
      → Result Exception (Dict ProductResponse) × World S
      → Type 0
  Fetched items products w (ok products', w') =
      Covers products' items
      × ((k : ℕ) (p : ProductResponse)
          → lookup k products ≡ some p
          → (q : ProductResponse) × (lookup k products' ≡ some q))
      × Untouched w w'
  Fetched items products w (err e, w') = Untouched w w'

  fetch-cons_ok :
      (i : OrderItemRequest) (is : List OrderItemRequest) (products : Dict ProductResponse)
      (p : ProductResponse) (w w' : World S)
      → get_product net i.product_id w ≡ (ok p, w')
      → p.is_active ≡ true
      → fetch_products net (i ∷ is) products w
        ≡ fetch_products net is (insert i.product_id p products) w'
  unfolding fetch_products
  fetch-cons_ok i is products p w w' e a = ground arith

  fetch-cons_err :
      (i : OrderItemRequest) (is : List OrderItemRequest) (products : Dict ProductResponse)
      (x : Exception) (w w' : World S)
      → get_product net i.product_id w ≡ (err x, w')
      → (e : Exception) × (fetch_products net (i ∷ is) products w ≡ (err e, w'))
  unfolding fetch_products
  fetch-cons_err i is products (product_error code status) w w' e =
      (http (coded_error status code), ground arith)
  fetch-cons_err i is products (payment_error code status) w w' e =
      (payment_error code status, ground arith)
  fetch-cons_err i is products (http x) w w' e = (http x, ground arith)
  fetch-cons_err i is products uncaught w w' e = (uncaught, ground arith)

  fetch-cons_inactive :
      (i : OrderItemRequest) (is : List OrderItemRequest) (products : Dict ProductResponse)
      (p : ProductResponse) (w w' : World S)
      → get_product net i.product_id w ≡ (ok p, w')
      → p.is_active ≡ false
      → fetch_products net (i ∷ is) products w
        ≡ (err (http (coded_error 422 (some "PRODUCT_INACTIVE"))), w')
  unfolding fetch_products
  fetch-cons_inactive i is products p w w' e a = ground arith

  Fetched-cons :
      (i : OrderItemRequest) (is : List OrderItemRequest) (products : Dict ProductResponse)
      (p : ProductResponse) (w w' : World S)
      (out : Result Exception (Dict ProductResponse) × World S)
      → Untouched w w'
      → Fetched is (insert i.product_id p products) w' out
      → Fetched (i ∷ is) products w out
  Fetched-cons i is products p w w' (ok products', w'') u (c, kept, v) = (
    (kept i.product_id p (ground (arith, lookup-insert i.product_id i.product_id p products)), c),
    λ k q e.
        kept k (if k == i.product_id then p else q)
          (ground (arith, lookup-insert k i.product_id p products)),
    record {
      same_session = v.same_session ∙ u.same_session;
      same_stock = λ j. v.same_stock j ∙ u.same_stock j;
    },
  )
  Fetched-cons i is products p w w' (err e, w'') u v = record {
    same_session = v.same_session ∙ u.same_session;
    same_stock = λ j. v.same_stock j ∙ u.same_stock j;
  }

  fetch_one-Untouched :
      (k : ℕ) (w w' : World S) (r : Result Exception ProductResponse)
      → get_product net k w ≡ (r, w')
      → Untouched w w'
  fetch_one-Untouched k w w' r e = record {
    same_session = ground (arith, e, get_product-session net k w);
    same_stock = λ j. ground (arith, e, get_product-stock net stock law k w j);
  }

  fetch-cons :
      (i : OrderItemRequest) (is : List OrderItemRequest) (products : Dict ProductResponse)
      (w w' : World S) (r : Result Exception ProductResponse)
      → get_product net i.product_id w ≡ (r, w')
      → ((p : ProductResponse)
          → Fetched is
              (insert i.product_id p products)
              w'
              (fetch_products net is (insert i.product_id p products) w'))
      → Fetched (i ∷ is) products w (fetch_products net (i ∷ is) products w)
  fetch-cons i is products w w' (ok p) e rest =
      let u = fetch_one-Untouched i.product_id w w' (ok p) e in
      elim (Bool-cases p.is_active) [
        | inl a ↦
            rw (fetch-cons_ok i is products p w w' e a)
              (Fetched-cons i is products p w w' _ u (rest p))
        | inr a ↦ rw (fetch-cons_inactive i is products p w w' e a) u
      ]
  fetch-cons i is products w w' (err x) e rest =
      let (y, same) = fetch-cons_err i is products x w w' e in
      rw same (fetch_one-Untouched i.product_id w w' (err x) e)

  fetch_products-nil :
      (products : Dict ProductResponse) (w : World S)
      → fetch_products net [] products w ≡ (ok products, w)
  unfolding fetch_products
  fetch_products-nil products w = refl

  -- Reading the products of an order touches nothing, and if it succeeds every requested product
  -- has been read.
  pub fetch_products-Fetched :
      (items : List OrderItemRequest) (products : Dict ProductResponse) (w : World S)
      → Fetched items products w (fetch_products net items products w)
  fetch_products-Fetched [] products w =
      rw (fetch_products-nil products w)
        (tt, λ k p e. (p, e), record { same_session = refl; same_stock = λ j. refl })
  fetch_products-Fetched (i ∷ is) products w =
      let answer = get_product net i.product_id w in
      fetch-cons i is products w answer.1 answer.0 refl
        (λ p. fetch_products-Fetched is (insert i.product_id p products) answer.1)
