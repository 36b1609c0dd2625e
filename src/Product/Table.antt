-- ===== src/Product/Table.antt =====
-- product-service's `products` table, its request and response schemas
-- (services/product-service/app/models.py, schemas.py). Ids are only compared, so they are
-- naturals; a negative path id matches no row.
use micro_mart.Shared.{ℕ, String, Bool, Option, List, ◌==◌, first_where}

pub record Product : Type 0 where
  pub id : ℕ
  pub name : String
  pub description : Option String
  pub price : ℕ
  pub stock : ℕ
  pub version : ℕ
  pub is_active : Bool
  pub created_at : ℕ
  pub updated_at : ℕ

pub record ProductCreate : Type 0 where
  pub name : String
  pub description : Option String
  pub price : ℕ
  pub stock : ℕ

pub record ProductUpdate : Type 0 where
  pub name : Option String
  pub description : Option String
  pub price : Option ℕ
  pub stock : Option ℕ
  pub is_active : Option Bool

pub record ProductResponse : Type 0 where
  pub name : String
  pub description : Option String
  pub price : ℕ
  pub stock : ℕ
  pub id : ℕ
  pub version : ℕ
  pub is_active : Bool
  pub created_at : ℕ
  pub updated_at : ℕ

pub record ProductListResponse : Type 0 where
  pub items : List ProductResponse
  pub total : ℕ
  pub page : ℕ
  pub page_size : ℕ
  pub has_next : Bool

pub record StockDeductRequest : Type 0 where
  pub quantity : ℕ
  pub expected_version : ℕ

pub record StockDeductResponse : Type 0 where
  pub product_id : ℕ
  pub remaining_stock : ℕ
  pub new_version : ℕ

pub record StockRestoreRequest : Type 0 where
  pub quantity : ℕ

pub record StockRestoreResponse : Type 0 where
  pub product_id : ℕ
  pub remaining_stock : ℕ
  pub new_version : ℕ

-- `ProductResponse.model_validate(product)`
abbrev pub product_response : Product → ProductResponse
product_response p = record {
  name = p.name;
  description = p.description;
  price = p.price;
  stock = p.stock;
  id = p.id;
  version = p.version;
  is_active = p.is_active;
  created_at = p.created_at;
  updated_at = p.updated_at;
}

-- `select(Product).where(Product.id == product_id)`, `scalar_one_or_none`
abbrev pub find : ℕ → List Product → Option Product
find product_id = first_where (λ p. p.id == product_id)
