-- ===== src/Order/Admission.antt =====
-- Which requests the boundary of order-service lets through to the saga.
use micro_mart.Shared.Int.{ℤ}
use micro_mart.Shared.{
  ℕ, ◌≤◌, ◌≡◌, ◌≢◌, ◌↔◌, ◌⊎◌, refl, true, false, Option, some, List, [], ◌∷◌, arith, Result, err,
  String, str_eq, All, length, Bool-cases, Option-cases, inl, inr,
}
use micro_mart.Shared.Http.{plain_error}
use micro_mart.Order.Table.{
  OrderItemRequest, OrderCreateRequest, OrderResponse, all_valid, requested, has_duplicates,
  valid_order,
}
use micro_mart.Order.Clients.{Remote, World, Exception, http}
use micro_mart.Order.Saga.{create_order as create_order_service}
use micro_mart.Order.Queries.{get_current_user_id, create_order}

-- A product with an id, at least one of it, at most a hundred.
pub record IsItem (i : OrderItemRequest) : Type 0 where
  pub named : 1 ≤ i.product_id
  pub some_of_it : 1 ≤ i.quantity
  pub not_too_many : i.quantity ≤ 100

-- No product is asked for twice.
abbrev pub Distinct : List OrderItemRequest → Type 0
Distinct [] = Unit
Distinct (i ∷ is) = All (λ j. j.product_id ≢ i.product_id) is × Distinct is

requested_iff :
    (k : ℕ) (is : List OrderItemRequest) → (requested k is ≡ false) ↔ All (λ j. j.product_id ≢ k) is
requested_iff k [] = (λ e. tt, λ h. refl)
requested_iff k (i ∷ is) =
    let (to, from) = requested_iff k is in
    (λ e. (ground arith, to (ground arith)), λ (n, h). ground (arith, from h))

has_duplicates_iff : (is : List OrderItemRequest) → (has_duplicates is ≡ false) ↔ Distinct is
has_duplicates_iff [] = (λ e. tt, λ h. refl)
has_duplicates_iff (i ∷ is) =
    let (to, from) = has_duplicates_iff is in
    let (to', from') = requested_iff i.product_id is in
    (λ e. (to' (ground arith), to (ground arith)), λ (n, h). ground (arith, from' n, from h))

all_valid_iff : (is : List OrderItemRequest) → (all_valid is ≡ true) ↔ All IsItem is
all_valid_iff [] = (λ e. tt, λ h. refl)
all_valid_iff (i ∷ is) =
    let (to, from) = all_valid_iff is in
    (
      λ e. (
        record { named = ground arith; some_of_it = ground arith; not_too_many = ground arith },
        to (ground arith),
      ),
      λ (p, h). ground (arith, p.named, p.some_of_it, p.not_too_many, from h),
    )

-- A request is valid exactly if it asks for something, every item names a product and a quantity
-- from 1 to 100, and no product is asked for twice.
pub valid_order_iff :
    (payload : OrderCreateRequest)
    → (valid_order payload ≡ true)
      ↔ ((1 ≤ length payload.items) × All IsItem payload.items × Distinct payload.items)
unfolding valid_order
valid_order_iff payload =
    let (to, from) = all_valid_iff payload.items in
    let (to', from') = has_duplicates_iff payload.items in
    (
      λ e. (ground arith, to (ground arith), to' (ground arith)),
      λ (n, h, d). ground (arith, from h, from' d),
    )

-- The handler has run for a user that the header names, on a sound request.
pub record Admitted {S : Type 0} (parse_int : String → Option ℤ) (net : Remote S) (n : ℕ)
    (header : String) (payload : OrderCreateRequest) (w : World S)
    (out : Result Exception OrderResponse × World S) : Type 0 where
  pub user_id : ℤ
  pub named : parse_int header ≡ some user_id
  pub asks : 1 ≤ length payload.items
  pub items : All IsItem payload.items
  pub distinct : Distinct payload.items
  pub handled : out ≡ create_order_service net n user_id payload w

-- The route of `create_order` either answers 400, 401 or 422 and has done nothing, or the header
-- names a user, the request asks for something, each item for 1 to 100 of a product, none of them
-- twice, and the result is the handler's for that user.
pub create_order-Admitted :
    {S : Type 0} (parse_int : String → Option ℤ) (net : Remote S) (n : ℕ) (header : String)
    (payload : OrderCreateRequest) (w : World S)
    → let out = create_order parse_int net n header payload w in
      ((status : ℕ) × (out ≡ (err (http (plain_error status)), w))
        × ((status ≡ 400) ⊎ (status ≡ 401) ⊎ (status ≡ 422)))
      ⊎ Admitted parse_int net n header payload w out
unfolding create_order get_current_user_id
create_order-Admitted parse_int net n header payload w = elim (Bool-cases (str_eq header "")) [
  | inl e ↦ inl (401, ground arith, inr (inl refl))
  | inr e ↦ elim (Option-cases (parse_int header)) [
    | inl e' ↦ inl (400, ground arith, inl refl)
    | inr (user_id, e') ↦ elim (Bool-cases (valid_order payload)) [
      | inl v ↦
          let (asks, items, distinct) = (valid_order_iff payload).0 v in
          inr (record {
            user_id = user_id;
            named = e';
            asks = asks;
            items = items;
            distinct = distinct;
            handled = ground arith;
          })
      | inr v ↦ inl (422, ground arith, inr (inr refl))
    ]
  ]
]
