-- ===== src/Tests/IdentityTests.antt =====
-- A user of user-service who orders through api-gateway.
use micro_mart.Shared.Int.{ℤ, pos}
use micro_mart.Shared.{
  ℕ, ◌≡◌, refl, ap, sym, ◌∙◌, String, str_eq, eq_iff, Bool, true, false, ◌&&◌, Option, none, some,
  [], ◌∷◌, ok, arith, if◌then◌else◌, Bool-cases, Option-cases, inl, inr,
}
use micro_mart.Shared.Texts.{Text, codes, same, same_law}
use micro_mart.Shared.Decimal.{int, int-str, digits}
use micro_mart.User.Table.{User, LoginRequest, Libraries, Claims, TokenResponse, get_user_by_email}
use micro_mart.User.Service.{Settings, World, login_service, create_access_token}
use micro_mart.User.Links.{empty_redis}
use micro_mart.Gateway.Paths.{is_public_path, uses_optional_auth}
use micro_mart.Gateway.{get_public_key}
use micro_mart.Gateway.Dispatch.{
  Request, Payload, Decoded, Jwt, key_id, GatewayState, call_next, dispatch, verify_jwt,
}
use micro_mart.Order.Table.{valid_order}
use micro_mart.Order.Queries.{create_order}
use micro_mart.Order.Saga.{create_order as create_order_service}
use micro_mart.Network.{network}
use micro_mart.Identity.{payload_of, login_order}
use micro_mart.Tests.OrderData.{lucky, world, basket}

abbrev ada : User
ada = record {
  id = 1;
  email = "ada@shop";
  hashed_password = "#pw";
  role = "customer";
  token_version = 0;
  is_active = true;
}

abbrev settings : Settings
settings = record { access_token_expire_minutes = 15; refresh_token_expire_days = 7 }

abbrev names_ada : Option Text → Option String → Bool
names_ada (some sub) (some role) = same sub (codes "1") && str_eq role "customer"
names_ada _ _ = false

-- The payloads that name ada are signed as one token, all others as another.
abbrev libraries : Libraries
libraries = record {
  hash = λ salt p. "#pw";
  verify = λ p h. str_eq p "pw";
  encode = λ c. if names_ada c.sub c.role then "tok" else "other";
  decode = λ now t. none;
}

abbrev ada_payload : Payload
ada_payload = record { sub = some (codes "1"); role = some (codes "customer") }

abbrev jwt : Jwt ℕ
jwt = record {
  kid = λ t. key_id (some "a");
  decode = λ now key t.
      if same t (codes "tok") then Decoded.payload ada_payload else Decoded.invalid (codes "bad");
  problem = [];
}

names_ada-payload_of : (c : Claims) → names_ada c.sub c.role ≡ true → ada_payload ≡ payload_of c
names_ada-payload_of c e = elim (Option-cases c.sub) [
  | inl f ↦ absurd (ground arith)
  | inr (sub, f) ↦ elim (Option-cases c.role) [
    | inl g ↦ absurd (ground arith)
    | inr (role, g) ↦
        let same_role : role ≡ "customer" = (eq_iff role "customer").0 (ground arith) in
        ground (arith, ap codes same_role, same_law sub (codes "1"))
  ]
]

interop :
    (key : ℕ) (p : Payload) (c : Claims)
    → jwt.decode 120 key (codes (libraries.encode c)) ≡ Decoded.payload p
    → p ≡ payload_of c
interop key p c e = elim (Bool-cases (names_ada c.sub c.role)) [
  | inl f ↦
      let read : Decoded.payload ada_payload ≡ Decoded.payload p =
        sym (ap (λ b. jwt.decode 120 key (codes (if b then "tok" else "other"))) f) ∙ e in
      ground (arith, names_ada-payload_of c f)
  | inr f ↦
      let bad : Decoded.invalid (codes "bad") ≡ Decoded.payload p =
        sym (ap (λ b. jwt.decode 120 key (codes (if b then "tok" else "other"))) f) ∙ e in
      absurd (ground arith)
]

abbrev shop : World
shop = record { db = record { users = ada ∷ []; next_user = 2 }; redis = empty_redis; now = 100 }

abbrev login_body : LoginRequest
login_body = record { email = "ada@shop"; password = "pw"; device = "web" }

abbrev pair : TokenResponse
pair = record { access_token = "tok"; refresh_token = "t1" }

abbrev logged : World
logged = (login_service libraries settings login_body "t1" shop).1

logged_in : login_service libraries settings login_body "t1" shop ≡ (ok pair, logged)
unfolding login_service create_access_token digits
logged_in = refl

abbrev gateway : GatewayState ℕ
gateway = record {
  cache = record { keys = ("a", 7) ∷ []; fetched_at = 100 };
  counters = record { auth = []; failures = []; requests = [] };
}

abbrev asked : Request
asked = record {
  method = codes "POST";
  path = codes "/orders";
  query = [];
  headers = (codes "authorization", codes "Bearer tok") ∷ [];
  body = [];
}

abbrev passed : Request
passed = record asked {
  headers =
      (codes "authorization", codes "Bearer tok")
      ∷ (codes "x-user-id", codes "1")
      ∷ (codes "x-user-role", codes "customer")
      ∷ [];
}

asked_passes : (dispatch jwt 60 120 none asked gateway).0 ≡ call_next passed
unfolding dispatch is_public_path uses_optional_auth verify_jwt get_public_key
asked_passes = refl

abbrev as_integer : Option ℕ → Option ℤ
as_integer none = none
as_integer (some n) = some (pos n)

-- Python's `int` on the decimals.
abbrev parse_decimal : String → Option ℤ
parse_decimal s = as_integer (int (codes s))

login_order_example :
    (u : User) × (get_user_by_email "ada@shop" shop.db.users ≡ some u)
    × (create_order parse_decimal (network lucky) 3 "1" basket world
        ≡ create_order_service (network lucky) 3 (pos u.id) basket world)
unfolding valid_order
login_order_example =
    login_order libraries settings jwt 60 120 parse_decimal login_body "t1" shop logged pair none
      asked passed gateway (λ hs. hs) (codes "http://order-service:8000") "1" (network lucky) 3
      basket world logged_in interop (λ s n e. ap as_integer (ap int e ∙ int-str n)) (λ hs. refl)
      refl asked_passes refl refl
