-- ===== src/Order/Privacy.antt =====
-- Who sees which order.
use micro_mart.Shared.Int.{ℤ, eqb_ℤ, eqb_ℤ-eq}
use micro_mart.Shared.{
  ℕ, ◌-◌, ◌*◌, ◌≡◌, ◌≤◌, refl, ◌∙◌, Bool, true, some, List, [], ◌∷◌, zero, suc, arith, Result, ok,
  err, Bool-cases, inl, inr, if◌then◌else◌, keep_if, take, drop, map, All, length,
}
use micro_mart.Shared.Http.{coded_error}
use micro_mart.Shared.Sort.{sort_desc, IsDesc, sort_desc-IsDesc, sort_desc-All}
use micro_mart.Order.Table.{
  Order, OrderDb, OrderCreateRequest, OrderResponse, OrderListResponse, find,
}
use micro_mart.Order.Clients.{Remote, World, Exception, http}
use micro_mart.Order.Saga.{order_response, create_order}
use micro_mart.Order.Laws.{KeepsStock}
use micro_mart.Order.Created.{IsFresh}
use micro_mart.Order.Ending.{Ending, create_order-Ending}
use micro_mart.Order.Queries.{get_order, list_response, list_orders}

module _ {ℓ} {A : Type 0} (P : A → Type ℓ) where
  take-All : (n : ℕ) (xs : List A) → All P xs → All P (take n xs)
  take-All zero xs h = tt
  take-All (suc n) [] h = tt
  take-All (suc n) (x ∷ xs) (p, h) = (p, take-All n xs h)

  drop-All : (n : ℕ) (xs : List A) → All P xs → All P (drop n xs)
  drop-All zero xs h = h
  drop-All (suc n) [] h = tt
  drop-All (suc n) (x ∷ xs) (p, h) = drop-All n xs h

  keep_if-All :
      (t : A → Bool) (xs : List A) → All P xs → All (λ x. P x × (t x ≡ true)) (keep_if t xs)
  keep_if-All t [] h = tt
  keep_if-All t (x ∷ xs) (p, h) = elim (Bool-cases (t x)) [
    | inl e ↦ rw e ((p, e), keep_if-All t xs h)
    | inr e ↦ rw e (keep_if-All t xs h)
  ]

All-map_pred :
    {A : Type 0} (P Q : A → Type 0) → ((a : A) → P a → Q a) → (xs : List A) → All P xs → All Q xs
All-map_pred P Q f [] h = tt
All-map_pred P Q f (x ∷ xs) (p, h) = (f x p, All-map_pred P Q f xs h)

map-All :
    {A B : Type 0} (P : B → Type 0) (f : A → B) (xs : List A)
    → All (λ x. P (f x)) xs
    → All P (map f xs)
map-All P f [] h = tt
map-All P f (x ∷ xs) (p, h) = (p, map-All P f xs h)

module _ {A : Type 0} (key : A → ℕ) where
  take-IsDesc : (n : ℕ) (xs : List A) → IsDesc key xs → IsDesc key (take n xs)
  take-IsDesc zero xs h = tt
  take-IsDesc (suc n) [] h = tt
  take-IsDesc (suc n) (x ∷ xs) (p, h) = (take-All _ n xs p, take-IsDesc n xs h)

  drop-IsDesc : (n : ℕ) (xs : List A) → IsDesc key xs → IsDesc key (drop n xs)
  drop-IsDesc zero xs h = h
  drop-IsDesc (suc n) [] h = tt
  drop-IsDesc (suc n) (x ∷ xs) (p, h) = drop-IsDesc n xs h

map-IsDesc :
    {A B : Type 0} (f : A → B) (key : B → ℕ) (xs : List A)
    → IsDesc (λ x. key (f x)) xs
    → IsDesc key (map f xs)
map-IsDesc f key [] h = tt
map-IsDesc f key (x ∷ xs) (p, h) = (map-All (λ y. key y ≤ key (f x)) f xs p, map-IsDesc f key xs h)

length-map-take : {A B : Type 0} (f : A → B) (n : ℕ) (xs : List A) → length (map f (take n xs)) ≤ n
length-map-take f zero xs = omega arith
length-map-take f (suc n) [] = omega arith
length-map-take f (suc n) (x ∷ xs) = omega (arith, length-map-take f n xs)

abbrev pub OwnRow : (Order → Type 0) → ℤ → OrderListResponse → Type 0
OwnRow Q user_id r = (o : Order) × Q o × (o.user_id ≡ user_id) × (r ≡ list_response o)

-- The rows of one user's page: summaries of that user's orders, for whatever holds of all orders;
-- newest first; no more than the page holds.
pub record OwnPage (Q : Order → Type 0) (user_id : ℤ) (page_size : ℕ)
    (rows : List OrderListResponse) : Type 0 where
  pub own : All (OwnRow Q user_id) rows
  pub newest_first : IsDesc (λ r. r.created_at) rows
  pub bounded : length rows ≤ page_size

abbrev IsOwn : (Order → Type 0) → ℤ → Order → Type 0
IsOwn Q user_id o = Q o × ((eqb_ℤ o.user_id user_id) ≡ true)

-- A page of `list_orders` holds only summaries of the user's own stored orders (`Q` is any
-- property of all of them), newest first, and at most `page_size` of them, however the database
-- orders the rows with one time.
pub list_orders-OwnPage :
    (Q : Order → Type 0) (ties : Order → ℕ) (user_id : ℤ) (page page_size : ℕ) (db : OrderDb)
    → All Q db.orders
    → (rows : List OrderListResponse) × (list_orders ties user_id page page_size db ≡ (ok rows, db))
      × OwnPage Q user_id page_size rows
unfolding list_orders
list_orders-OwnPage Q ties user_id page page_size db h =
    let own = keep_if (λ o. eqb_ℤ o.user_id user_id) db.orders in
    let arranged = sort_desc ties own in
    let sorted = sort_desc (λ o. o.created_at) arranged in
    let skipped = drop ((page - 1) * page_size) sorted in
    (
      map list_response (take page_size skipped),
      refl,
      record {
        own = map-All (OwnRow Q user_id) list_response (take page_size skipped) (
            All-map_pred (IsOwn Q user_id) (λ o. OwnRow Q user_id (list_response o))
              (λ o (q, e). (o, q, eqb_ℤ-eq o.user_id user_id e, refl)) (take page_size skipped)
              (take-All (IsOwn Q user_id) page_size skipped (
                drop-All (IsOwn Q user_id) ((page - 1) * page_size) sorted (
                  sort_desc-All (IsOwn Q user_id) (λ o. o.created_at) arranged
                    (sort_desc-All (IsOwn Q user_id) ties own
                      (keep_if-All Q (λ o. eqb_ℤ o.user_id user_id) db.orders h))))));
        newest_first =
            map-IsDesc list_response (λ r. r.created_at) (take page_size skipped)
              (take-IsDesc (λ o. o.created_at) page_size skipped
                (drop-IsDesc (λ o. o.created_at) ((page - 1) * page_size) sorted
                  (sort_desc-IsDesc (λ o. o.created_at) arranged)));
        bounded = length-map-take list_response page_size skipped;
      },
    )

-- What the owner and others get of a stored order.
get_order-stored :
    (user_id : ℤ) (o : Order) (db : OrderDb) (id : ℕ)
    → find id db.orders ≡ some o
    → get_order id user_id db ≡ (
      if eqb_ℤ o.user_id user_id
          then ok (order_response o db.items)
          else err (http (coded_error 403 (some "FORBIDDEN"))),
      db,
    )
unfolding get_order
get_order-stored user_id o db id e = ground arith

abbrev pub Readable : {S : Type 0} → ℤ → Result Exception OrderResponse × World S → Type 0
Readable user_id (ok response, w') =
    (reader : ℤ)
    → get_order response.id reader w'.session.committed ≡ (
      if eqb_ℤ user_id reader then ok response else err (http (coded_error 403 (some "FORBIDDEN"))),
      w'.session.committed,
    )
Readable user_id (err e, w') = Unit

module _ {S : Type 0} (net : Remote S) (stock : S → ℕ → ℕ) (law : KeepsStock net stock) where
  ended-Readable :
      (user_id : ℤ) (payload : OrderCreateRequest) (w : World S)
      (out : Result Exception OrderResponse × World S)
      → Ending net stock law user_id payload.items w out
      → Readable user_id out
  ended-Readable user_id payload w (ok response, w') h = λ reader.
      get_order-stored reader h.order w'.session.committed response.id h.stored
      ∙ ground (arith, h.answer, h.owner)
  ended-Readable user_id payload w (err e, w') h = tt

  -- In a session with nothing pending and the next order's id unused, over services that move
  -- stock only as they report: when `create_order` answers, `get_order` for that user answers the
  -- same, and refuses any other user with 403.
  pub create_order-get_order :
      (n : ℕ) (user_id : ℤ) (payload : OrderCreateRequest) (w : World S)
      → w.session.working ≡ w.session.committed
      → IsFresh w.session.committed
      → Readable user_id (create_order net n user_id payload w)
  create_order-get_order n user_id payload w clean fresh =
      ended-Readable user_id payload w (create_order net n user_id payload w)
        (create_order-Ending net stock law n user_id payload w clean fresh)
