-- ===== src/User/Table.antt =====
-- user-service's table and schemas (services/user-service/app/models.py, schemas.py), and what its
-- handlers take from libraries. The times of a user's row are left out. An EmailStr is the text that
-- its validation gave.
use micro_mart.Shared.{ℕ, ◌<◌, ◌≡◌, String, str_eq, Bool, Option, some, List, ◌==◌, first_where}
use micro_mart.Shared.Texts.{Text}

pub record User : Type 0 where
  pub id : ℕ
  pub email : String
  pub hashed_password : String
  pub role : String
  pub token_version : ℕ
  pub is_active : Bool

pub record UserDb : Type 0 where
  pub users : List User
  pub next_user : ℕ

pub record RegisterRequest : Type 0 where
  pub email : String
  pub password : String

pub record LoginRequest : Type 0 where
  pub email : String
  pub password : String
  pub device : String

pub record LogoutRequest : Type 0 where
  pub refresh_token : String

pub record RefreshRequest : Type 0 where
  pub refresh_token : String

-- The token type is the constant "bearer", left out.
pub record TokenResponse : Type 0 where
  pub access_token : String
  pub refresh_token : String

-- The answer of a registration.
pub record Registered : Type 0 where
  pub user_id : ℕ
  pub email : String

-- The payload of an access token.
pub record Claims : Type 0 where
  pub sub : Option Text
  pub role : Option String
  pub token_version : ℕ
  pub iat : ℕ
  pub exp : ℕ

-- passlib and jose. `hash` takes what it draws, `decode` the time; it gives none for any JWTError.
pub record Libraries : Type 0 where
  pub hash : ℕ → String → String
  pub verify : String → String → Bool
  pub encode : Claims → String
  pub decode : ℕ → String → Option Claims

-- What jose documents of a payload: its token decodes to it until it expires.
abbrev pub Decodes : Libraries → Claims → Type 0
Decodes libraries c =
    (later : ℕ) → later < c.exp → libraries.decode later (libraries.encode c) ≡ some c

-- `get_user_by_email`, `get_user_by_id`
abbrev pub get_user_by_email : String → List User → Option User
get_user_by_email email = first_where (λ u. str_eq u.email email)

abbrev pub get_user_by_id : ℕ → List User → Option User
get_user_by_id user_id = first_where (λ u. u.id == user_id)
