-- ===== src/Identity.antt =====
-- The services put together by who a request is from: the access token of a login of user-service
-- (services/user-service/app/services/auth_service.py), checked by api-gateway
-- (services/api-gateway/app/main.py, services/api-gateway/app/middleware/auth.py), and the header that
-- order-service reads (services/order-service/app/dependencies.py).
use micro_mart.Shared.Int.{ℤ, pos}
use micro_mart.Shared.{
  ℕ, ◌≡◌, sym, ap, ◌∙◌, inl, inr, String, str_eq, eq_iff, true, false, Option, none, some, List, [],
  ok, arith, Option-cases, Bool-cases,
}
use micro_mart.Shared.Texts.{Text, codes}
use micro_mart.Shared.Decimal.{str, is_empty, is_empty-digits}
use micro_mart.User.Table.{User, LoginRequest, TokenResponse, Libraries, Claims, get_user_by_email}
use micro_mart.User.Service.{Settings, World, login_service, create_access_token, claims_of}
use micro_mart.Gateway.Dispatch.{
  Headers, Request, Payload, Decoded, Jwt, GatewayState, call_next, dispatch, extract_bearer_token,
  or_text,
}
use micro_mart.Gateway.Headers.{told}
use micro_mart.Gateway.Identity.{dispatch_identity}
use micro_mart.Gateway.Proxy.{outgoing}
use micro_mart.Order.Table.{OrderCreateRequest, valid_order}
use micro_mart.Order.Clients.{Remote, World as OrderWorld}
use micro_mart.Order.Saga.{create_order as create_order_service}
use micro_mart.Order.Queries.{get_current_user_id, create_order}

abbrev codes_of : Option String → Option Text
codes_of none = none
codes_of (some s) = some (codes s)

-- The claims as PyJWT gives them.
abbrev pub payload_of : Claims → Payload
payload_of c = record { sub = c.sub; role = codes_of c.role }

-- A login that is answered with tokens found its user, and signed the user's claims.
login_service_signed :
    (libraries : Libraries) (settings : Settings) (body : LoginRequest) (token : String)
    (w w' : World) (response : TokenResponse)
    → login_service libraries settings body token w ≡ (ok response, w')
    → (u : User) × (get_user_by_email body.email w.db.users ≡ some u)
      × (response.access_token ≡ libraries.encode (claims_of libraries settings w.now u))
unfolding login_service create_access_token
login_service_signed libraries settings body token w w' response e =
    elim (Option-cases (get_user_by_email body.email w.db.users)) [
      | inl f ↦ absurd (ground arith)
      | inr (u, f) ↦ elim (Bool-cases (libraries.verify body.password u.hashed_password)) [
        | inr g ↦ absurd (ground arith)
        | inl g ↦ elim (Bool-cases u.is_active) [
          | inr h ↦ absurd (ground arith)
          | inl h ↦ (u, f, ground arith)
        ]
      ]
    ]

not_empty : (s : String) (n : ℕ) → codes s ≡ str n → str_eq s "" ≡ false
not_empty s n e = elim (Bool-cases (str_eq s "")) [
  | inr f ↦ f
  | inl f ↦ absurd (
      ground (
        arith,
        is_empty-digits n n,
        ap is_empty e,
        ap (λ t. is_empty (codes t)) ((eq_iff s "").0 f),
      ))
]

module _ {K : Type 0} (libraries : Libraries) (settings : Settings) (jwt : Jwt K) (ttl now : ℕ)
    (parse_int : String → Option ℤ) where
  -- Let a login be answered with tokens, and let api-gateway hand on a request with its access token, so
  -- that the service behind is given a user in the header X-User-ID. Where a key with which PyJWT reads
  -- what jose signed gives the payload that was signed, and `int` reads what `str` wrote: the user who
  -- logged in is the one for whom order-service creates the order, if the order asked for is valid.
  pub login_order :
      {S : Type 0} (body : LoginRequest) (token : String) (w w' : World) (response : TokenResponse)
      (answer : Option (List (Option String × K))) (request request' : Request) (g : GatewayState K)
      (inject : Headers → Headers) (target_url : Text) (x_user_id : String) (net : Remote S)
      (max_retry : ℕ) (payload : OrderCreateRequest) (v : OrderWorld S)
      → login_service libraries settings body token w ≡ (ok response, w')
      → ((key : K) (p : Payload) (c : Claims)
          → jwt.decode now key (codes (libraries.encode c)) ≡ Decoded.payload p
          → p ≡ payload_of c)
      → ((s : String) (n : ℕ) → codes s ≡ str n → parse_int s ≡ some (pos n))
      → ((hs : Headers) → told (inject hs) ≡ told hs)
      → extract_bearer_token request.headers ≡ some (codes response.access_token)
      → (dispatch jwt ttl now answer request g).0 ≡ call_next request'
      → (told (outgoing inject request' target_url).headers).0 ≡ some (codes x_user_id)
      → valid_order payload ≡ true
      → (u : User) × (get_user_by_email body.email w.db.users ≡ some u)
        × (create_order parse_int net max_retry x_user_id payload v
            ≡ create_order_service net max_retry (pos u.id) payload v)
  unfolding create_order get_current_user_id
  login_order body token w w' response answer request request' g inject target_url x_user_id net
        max_retry payload v logged interop reads keeps bearer passed header valid =
      let (u, found, signed) =
        login_service_signed libraries settings body token w w' response logged in
      elim (dispatch_identity jwt ttl now answer request request' g inject target_url keeps
        passed) [
          | inl (free, none_told) ↦ absurd (ground arith)
          | inr (shown, p, carried, verified, told_them) ↦
              let same : codes (libraries.encode (claims_of libraries settings w.now u)) ≡ shown =
                ground arith in
              let read =
                interop verified.key p (claims_of libraries settings w.now u)
                  (ap (jwt.decode now verified.key) same ∙ verified.read) in
              let sub : or_text p.sub [] ≡ str u.id = ap (λ q. or_text q.sub []) read in
              let given : codes x_user_id ≡ str u.id =
                ap (λ o. or_text o []) (sym header ∙ ap (λ x. x.0) told_them) ∙ sub in
              (u, found, ground (arith, not_empty x_user_id u.id given, reads x_user_id u.id given))
        ]
