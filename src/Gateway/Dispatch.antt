-- ===== src/Gateway/Dispatch.antt =====
-- What api-gateway does with a request before it is proxied: `verify_jwt`
-- (services/api-gateway/app/middleware/auth.py), `AuthMiddleware` and `MetricsMiddleware`
-- (services/api-gateway/app/main.py). Reading a token is PyJWT's, an argument; a header is its name, as
-- the server gives it, and its value.
use micro_mart.Shared.{
  ℕ, String, ◌&&◌, not, Option, none, some, List, [], ◌∷◌, ◌++◌, Result, ok, err, keep_if,
  if◌then◌else◌,
}
use micro_mart.Shared.Texts.{Text, codes, same, starts_with, lower, two_parts}
use micro_mart.Gateway.{JwksCache, get_public_key}
use micro_mart.Gateway.Paths.{is_public_path, uses_optional_auth, classify_path}

abbrev pub Headers : Type 0
Headers = List (Text × Text)

pub record Request : Type 0 where
  pub method : Text
  pub path : Text
  pub query : Text
  pub headers : Headers
  pub body : Text

pub record Reply : Type 0 where
  pub status_code : ℕ
  pub headers : Headers
  pub content : Text

-- `payload.get("sub")` and `payload.get("role")`, as texts.
pub record Payload : Type 0 where
  pub sub : Option Text
  pub role : Option Text

pub data Decoded : Type 0 where
  payload : Payload → Decoded
  expired invalid : Text → Decoded

-- What `jwt.get_unverified_header(token).get("kid")` comes to: the key id, if there is one; a
-- DecodeError; or another InvalidTokenError, for a key id that is no string.
pub data KeyId : Type 0 where
  key_id : Option String → KeyId
  decode_error invalid_token_error : KeyId

-- PyJWT: the key id in a token's header, and `jwt.decode`, which goes by the clock. `problem` is what
-- an exception of the key cache says.
pub record Jwt (K : Type 0) : Type 0 where
  pub kid : Text → KeyId
  pub decode : ℕ → K → Text → Decoded
  pub problem : Text

abbrev pub identity_headers : List Text
identity_headers = codes "x-user-id" ∷ codes "x-user-role" ∷ []

-- `del headers[name]`, `headers[name] = value`
abbrev pub del_header : Text → Headers → Headers
del_header name = keep_if (λ h. not (same h.0 name))

abbrev pub set_header : Text → Text → Headers → Headers
set_header name value headers = del_header name headers ++ (name, value) ∷ []

abbrev pub del_headers : List Text → Headers → Headers
del_headers [] headers = headers
del_headers (name ∷ names) headers = del_headers names (del_header name headers)

abbrev pub bearer_of : Option (Text × Text) → Option Text
bearer_of none = none
bearer_of (some (scheme, rest)) = if same (lower scheme) (codes "bearer") then some rest else none

abbrev pub extract_bearer_token : Headers → Option Text
extract_bearer_token [] = none
extract_bearer_token ((name, value) ∷ headers) =
    if same (lower name) (codes "authorization")
    then bearer_of (two_parts value)
    else extract_bearer_token headers

pub data Reason : Type 0 where
  expired jwks_error invalid : Reason

unfoldable pub classify_auth_failure : Text → Reason
classify_auth_failure message =
    if starts_with message (codes "expired:")
    then Reason.expired
    else if starts_with message (codes "jwks_error:")
    then Reason.jwks_error
    else Reason.invalid

-- A ValueError with its message, or another exception.
pub data AuthError : Type 0 where
  value_error : Text → AuthError
  uncaught : AuthError

module _ {K : Type 0} (jwt : Jwt K) (ttl now : ℕ) where
  abbrev pub decoded : Decoded → Result AuthError Payload
  decoded (Decoded.payload p) = ok p
  decoded (Decoded.expired e) = err (value_error (codes "expired:" ++ e))
  decoded (Decoded.invalid e) = err (value_error (codes "invalid:" ++ e))

  -- The answer of user-service is an argument, as for the cache. Of the header's exceptions only
  -- DecodeError becomes a ValueError.
  unfoldable pub verify_jwt :
      Option (List (Option String × K))
      → Text
      → JwksCache K
      → Result AuthError Payload × JwksCache K
  verify_jwt answer token c = elim (jwt.kid token) [
    | decode_error ↦ (err (value_error (codes "invalid:" ++ jwt.problem)), c)
    | invalid_token_error ↦ (err uncaught, c)
    | key_id kid ↦
        let out = get_public_key ttl now kid answer c in
        elim out.key [
          | none ↦ (err (value_error (codes "jwks_error:" ++ jwt.problem)), out.cache)
          | some key ↦ (decoded (jwt.decode now key token), out.cache)
        ]
  ]

-- gateway_auth_total by result, gateway_auth_failure_total by reason, gateway_requests_total by its
-- labels: each is the list of what was added.
pub data AuthResult : Type 0 where
  no_token failure success : AuthResult

pub record Counters : Type 0 where
  pub auth : List AuthResult
  pub failures : List Reason
  pub requests : List (Text × Text × ℕ)

pub record GatewayState (K : Type 0) : Type 0 where
  pub cache : JwksCache K
  pub counters : Counters

-- A request is handed on, with the headers as they are by then, or answered 401 at once, or an
-- exception leaves the middleware.
pub data Verdict : Type 0 where
  call_next : Request → Verdict
  refused : Option Reason → Verdict
  raised : Verdict

abbrev pub count_auth : AuthResult → Counters → Counters
count_auth r c = record c { auth = r ∷ c.auth }

abbrev pub count_failure : Reason → Counters → Counters
count_failure r c = record c { auth = AuthResult.failure ∷ c.auth; failures = r ∷ c.failures }

abbrev pub or_text : Option Text → Text → Text
or_text none t = t
or_text (some s) t = s

-- The headers of a verified user.
abbrev pub identify : Payload → Headers → Headers
identify p headers =
    set_header (codes "x-user-role") (or_text p.role (codes "customer"))
      (set_header (codes "x-user-id") (or_text p.sub []) headers)

module _ {K : Type 0} (jwt : Jwt K) (ttl now : ℕ) where
  abbrev pub judge :
      Request → Result AuthError Payload × JwksCache K → GatewayState K → Verdict × GatewayState K
  judge request (err uncaught, cache) g = (raised, record g { cache = cache })
  judge request (err (value_error message), cache) g =
      let reason = classify_auth_failure message in
      (refused (some reason), record { cache = cache; counters = count_failure reason g.counters })
  judge request (ok p, cache) g = (
    call_next (record request { headers = identify p request.headers }),
    record { cache = cache; counters = count_auth AuthResult.success g.counters },
  )

  -- `AuthMiddleware.dispatch`, up to `call_next`.
  unfoldable pub dispatch :
      Option (List (Option String × K)) → Request → GatewayState K → Verdict × GatewayState K
  dispatch answer request g =
      let is_public = is_public_path request.method request.path in
      let bearer_token = extract_bearer_token request.headers in
      let stripped : Request = record request {
        headers = del_headers identity_headers request.headers;
      } in
      if is_public && not (uses_optional_auth request.method request.path)
      then (call_next stripped, g)
      else elim bearer_token [
        | none ↦
            if is_public
            then (call_next stripped, g)
            else (refused none, record g { counters = count_auth AuthResult.no_token g.counters })
        | some token ↦ judge stripped (verify_jwt jwt ttl now answer token g.cache) g
      ]

-- `MetricsMiddleware.dispatch`, the time apart.
unfoldable pub count_request : Request → Reply → Counters → Counters
count_request request response c = record c {
  requests = (request.method, classify_path request.path, response.status_code) ∷ c.requests;
}
