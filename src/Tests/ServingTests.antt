-- ===== src/Tests/ServingTests.antt =====
-- api-gateway with keys that are numbers and one token.
use micro_mart.Shared.{
  inl, ℕ, ◌≡◌, false, ◌≢◌, refl, ◌⊎◌, true, Option, none, some, List, [], ◌∷◌, ◌++◌, arith,
  if◌then◌else◌,
}
use micro_mart.Shared.Texts.{Text, codes, same, slash}
use micro_mart.Gateway.{JwksCache, get_public_key}
use micro_mart.Gateway.Paths.{Urls, is_public_path, uses_optional_auth, classify_path}
use micro_mart.Gateway.Dispatch.{
  Request, Payload, Decoded, Jwt, key_id, GatewayState, call_next, refused, raised, dispatch,
  verify_jwt, Reason, classify_auth_failure, or_text, extract_bearer_token,
}
use micro_mart.Gateway.Proxy.{Outgoing, Upstream, answered, outgoing, serve}
use micro_mart.Gateway.Headers.{told}
use micro_mart.Gateway.Identity.{IsVerified, dispatch_identity}
use micro_mart.User.Jwks.{
  Jwk, rsa, number, get_jwks_service, int_to_base64url, to_bytes, bits, base64url,
}
use micro_mart.Gateway.Trust.{keys_of, get_public_key-get_jwks_service}
use micro_mart.Gateway.Serving.{classify_path_products, serve-requests}

abbrev held : JwksCache ℕ
held = record { keys = ("a", 7) ∷ []; fetched_at = 100 }

abbrev gateway : GatewayState ℕ
gateway = record { cache = held; counters = record { auth = []; failures = []; requests = [] } }

abbrev ada : Payload
ada = record { sub = some (codes "1"); role = none }

abbrev jwt : Jwt ℕ
jwt = record {
  kid = λ t. key_id (some "a");
  decode = λ now key t.
      if same t (codes "tok") then Decoded.payload ada else Decoded.invalid (codes "bad");
  problem = [];
}

-- A client that names itself an administrator.
abbrev forged : Text → Request
forged token = record {
  method = codes "POST";
  path = codes "/orders";
  query = [];
  headers =
      (codes "x-user-role", codes "admin")
      ∷ (codes "authorization", codes "Bearer " ++ token)
      ∷ (codes "x-user-id", codes "9")
      ∷ [];
  body = [];
}

abbrev passed : Request
passed = record (forged (codes "tok")) {
  headers =
      (codes "authorization", codes "Bearer tok")
      ∷ (codes "x-user-id", codes "1")
      ∷ (codes "x-user-role", codes "customer")
      ∷ [];
}

forged_passes : (dispatch jwt 60 120 none (forged (codes "tok")) gateway).0 ≡ call_next passed
unfolding dispatch is_public_path uses_optional_auth verify_jwt get_public_key
forged_passes = refl

dispatch_identity_example :
    let sent = (outgoing (λ hs. hs) passed (codes "http://order-service:8000")).headers in
    ((is_public_path (codes "POST") (codes "/orders") ≡ true) × (told sent ≡ (none, none)))
    ⊎ ((token : Text) × (p : Payload) × (extract_bearer_token (forged (codes "tok")).headers
          ≡ some token)
        × IsVerified jwt 60 120 token
            (dispatch jwt 60 120 none (forged (codes "tok")) gateway).1.cache
            p
        × (told sent ≡ (some (or_text p.sub []), some (or_text p.role (codes "customer")))))
dispatch_identity_example =
    dispatch_identity jwt 60 120 none (forged (codes "tok")) passed gateway (λ hs. hs)
      (codes "http://order-service:8000") (λ hs. refl) forged_passes

abbrev urls : Urls
urls = record {
  user_service_url = codes "http://user-service:8000";
  product_service_url = codes "http://product-service:8000";
  order_service_url = codes "http://order-service:8000";
}

abbrev empty_reply : Outgoing → Upstream
empty_reply o = answered (record { status_code = 201; headers = []; content = [] })

serve-requests_example :
    let out = serve (λ hs. hs) empty_reply jwt 60 120 urls none (forged (codes "other")) gateway in
    (((reason : Option Reason) × ((dispatch jwt 60 120 none (forged (codes "other")) gateway).0
          ≡ refused reason))
      × ((out.0.status_code ≡ 401) × (out.1.counters.requests ≡ [])))
    ⊎ ((((dispatch jwt 60 120 none (forged (codes "other")) gateway).0 ≡ raised)
          × ((out.0.status_code ≡ 500) × (out.1.counters.requests ≡ [])))
        ⊎ (((request' : Request) × ((dispatch jwt 60 120 none (forged (codes "other")) gateway).0
                ≡ call_next request'))
            × (out.1.counters.requests
                ≡ (codes "POST", classify_path (codes "/orders"), out.0.status_code) ∷ [])))
serve-requests_example =
    serve-requests jwt 60 120 (λ hs. hs) empty_reply urls none (forged (codes "other")) gateway

-- A bad token is refused.
bad_refused :
    (dispatch jwt 60 120 none (forged (codes "other")) gateway).0 ≡ refused (some Reason.invalid)
unfolding dispatch is_public_path uses_optional_auth verify_jwt get_public_key classify_auth_failure
bad_refused = refl

not_empty : (c : ℕ) (s : Text) → (c ∷ s) ≢ []
not_empty c s e = absurd (ground arith)

classify_path_products_example :
    classify_path (codes "/products/" ++ codes "12" ++ slash ∷ codes "a/b")
    ≡ codes "/products/{id}/" ++ codes "a/b"
classify_path_products_example =
    classify_path_products (codes "12") (codes "a/b") (refl, (refl, tt)) (not_empty 49 (50 ∷ []))

abbrev no_keys : JwksCache (ℕ × ℕ)
no_keys = record { keys = []; fetched_at = 0 }

-- A key with the numbers 70000 and 65537, that PyJWT reads as the pair of them.
get_public_key-get_jwks_service_example :
    (jwks : List Jwk) × (get_jwks_service (rsa 70000 65537) ≡ some jwks)
    × (let out =
          get_public_key 60 120 none
            (some (keys_of (λ n e. (n, e)) (λ j. (number j.n, number j.e)) jwks))
            no_keys in
        (out.asked ≡ false) ⊎ (out.key ≡ some (70000, 65537)))
get_public_key-get_jwks_service_example =
    get_public_key-get_jwks_service (λ n e. (n, e)) (λ j. (number j.n, number j.e)) 70000 65537 60
      120 none no_keys (λ j. refl) (inl refl)

encoded_65537 : int_to_base64url 65537 ≡ some (0 ∷ 16 ∷ 0 ∷ 1 ∷ [])
unfolding int_to_base64url to_bytes bits base64url
encoded_65537 = refl
