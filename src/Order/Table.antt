-- ===== src/Order/Table.antt =====
-- order-service's tables, schemas and states (services/order-service/app/models.py, schemas.py).
-- `updated_at` is left out.
use micro_mart.Shared.Int.{ℤ}
use micro_mart.Shared.{
  ℕ, String, Bool, true, false, ◌&&◌, ◌||◌, not, Option, List, [], ◌∷◌, ◌==◌, ltb, leb, first_where,
  length,
}

pub data OrderStatus : Type 0 where
  pending stock_deducted payment_requested completed failed cancelled : OrderStatus

pub data SagaStatus : Type 0 where
  started stock_deducted payment_requested completed stock_rollback_needed stock_rolled_back
        failed :
      SagaStatus

pub record Order : Type 0 where
  pub id : ℕ
  pub user_id : ℤ
  pub status : OrderStatus
  pub total_amount : ℕ
  pub payment_id : Option ℕ
  pub failure_reason : Option String
  pub saga_status : SagaStatus
  pub stock_deducted : Bool
  pub created_at : ℕ

pub record OrderItem : Type 0 where
  pub id : ℕ
  pub order_id : ℕ
  pub product_id : ℕ
  pub product_name : String
  pub unit_price : ℕ
  pub quantity : ℕ
  pub discount_amount : ℕ
  pub subtotal : ℕ
  pub created_at : ℕ

pub record OrderDb : Type 0 where
  pub orders : List Order
  pub items : List OrderItem
  pub next_order : ℕ
  pub next_item : ℕ

pub record OrderItemRequest : Type 0 where
  pub product_id : ℕ
  pub quantity : ℕ

pub record OrderCreateRequest : Type 0 where
  pub items : List OrderItemRequest

pub record OrderResponse : Type 0 where
  pub id : ℕ
  pub user_id : ℤ
  pub status : OrderStatus
  pub total_amount : ℕ
  pub payment_id : Option ℕ
  pub failure_reason : Option String
  pub items : List OrderItem
  pub created_at : ℕ

pub record OrderListResponse : Type 0 where
  pub id : ℕ
  pub status : OrderStatus
  pub total_amount : ℕ
  pub created_at : ℕ

abbrev pub valid_item : OrderItemRequest → Bool
valid_item i = ltb 0 i.product_id && (ltb 0 i.quantity && leb i.quantity 100)

abbrev pub all_valid : List OrderItemRequest → Bool
all_valid [] = true
all_valid (i ∷ is) = valid_item i && all_valid is

abbrev pub requested : ℕ → List OrderItemRequest → Bool
requested product_id [] = false
requested product_id (i ∷ is) = i.product_id == product_id || requested product_id is

-- `len(product_ids) != len(set(product_ids))`
abbrev pub has_duplicates : List OrderItemRequest → Bool
has_duplicates [] = false
has_duplicates (i ∷ is) = requested i.product_id is || has_duplicates is

-- `OrderCreateRequest` with its `Field` constraints and `check_duplicate_product_ids`.
unfoldable pub valid_order : OrderCreateRequest → Bool
valid_order payload =
    ltb 0 (length payload.items) && (all_valid payload.items && not (has_duplicates payload.items))

-- `select(Order).where(Order.id == order_id)`
abbrev pub find : ℕ → List Order → Option Order
find order_id = first_where (λ o. o.id == order_id)
