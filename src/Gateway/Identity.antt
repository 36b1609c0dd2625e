-- ===== src/Gateway/Identity.antt =====
-- Who a request comes from, as a service behind api-gateway is told: `AuthMiddleware.dispatch`
-- (services/api-gateway/app/main.py) and the headers of `proxy_request`
-- (services/api-gateway/app/services/proxy_service.py).
use micro_mart.Shared.{
  ℕ, ◌≡◌, refl, ap, ◌∙◌, subst, ◌⊎◌, inl, inr, String, true, ◌&&◌, not, Option, none, some, List,
  [], ok, arith, Option-cases, Bool-cases, Result-cases,
}
use micro_mart.Shared.Texts.{Text, codes, same}
use micro_mart.Gateway.{JwksCache, get_public_key, get_key}
use micro_mart.Gateway.Keys.{get_public_key_sound}
use micro_mart.Gateway.Paths.{is_public_path, uses_optional_auth}
use micro_mart.Gateway.Dispatch.{
  Headers, Request, Payload, Decoded, Jwt, KeyId, key_id, decode_error, invalid_token_error,
  GatewayState, call_next, dispatch, verify_jwt, decoded, identity_headers, del_headers, identify,
  or_text, extract_bearer_token,
}
use micro_mart.Gateway.Headers.{told, told-del_headers, told-identify}
use micro_mart.Gateway.Proxy.{forwarded_headers, outgoing}

KeyId-cases :
    (k : KeyId)
    → ((k ≡ decode_error) ⊎ (k ≡ invalid_token_error)) ⊎ ((kid : Option String) × (k ≡ key_id kid))
KeyId-cases decode_error = inl (inl refl)
KeyId-cases invalid_token_error = inl (inr refl)
KeyId-cases (key_id kid) = inr (kid, refl)

module _ {K : Type 0} (jwt : Jwt K) (ttl now : ℕ) where
  -- PyJWT read the payload from the token, with a key that the cache has.
  pub record IsVerified (token : Text) (c : JwksCache K) (p : Payload) : Type 0 where
    pub kid : Option String
    pub name : String
    pub key : K
    pub named : jwt.kid token ≡ key_id kid
    pub cached : get_key name c.keys ≡ some key
    pub read : jwt.decode now key token ≡ Decoded.payload p

  decoded-ok : (d : Decoded) (p : Payload) → decoded jwt ttl now d ≡ ok p → d ≡ Decoded.payload p
  decoded-ok (Decoded.payload q) p e = ground arith
  decoded-ok (Decoded.expired q) p e = absurd (ground arith)
  decoded-ok (Decoded.invalid q) p e = absurd (ground arith)

  pub verify_jwt_sound :
      (answer : Option (List (Option String × K))) (token : Text) (c : JwksCache K) (p : Payload)
      → (verify_jwt jwt ttl now answer token c).0 ≡ ok p
      → IsVerified token (verify_jwt jwt ttl now answer token c).1 p
  unfolding verify_jwt
  verify_jwt_sound answer token c p e = elim (KeyId-cases (jwt.kid token)) [
    | inl (inl f) ↦ absurd (ground arith)
    | inl (inr f) ↦ absurd (ground arith)
    | inr (kid, f) ↦ elim (Option-cases (get_public_key ttl now kid answer c).key) [
      | inl g ↦ absurd (ground arith)
      | inr (key, g) ↦
          let ((name, looked, cached), same) = get_public_key_sound ttl now kid answer c key g in
          record {
            kid = kid;
            name = name;
            key = key;
            named = f;
            cached = ground arith;
            read = decoded-ok (jwt.decode now key token) p (ground arith);
          }
    ]
  ]

  abbrev pub stripped : Request → Request
  stripped request = record request { headers = del_headers identity_headers request.headers }

  abbrev pub verified : Request → Payload → Request
  verified request p = record request {
    headers = identify p (del_headers identity_headers request.headers);
  }

  -- A request that is handed on is anonymous, on a public path, or has a token that was verified.
  pub dispatch-call_next :
      (answer : Option (List (Option String × K))) (request request' : Request) (g : GatewayState K)
      → let out = dispatch jwt ttl now answer request g in
        out.0 ≡ call_next request'
        → ((is_public_path request.method request.path ≡ true) × (request' ≡ stripped request))
          ⊎ ((token : Text) × (p : Payload) × (extract_bearer_token request.headers ≡ some token)
              × IsVerified token out.1.cache p
              × (request' ≡ verified request p))
  unfolding dispatch
  dispatch-call_next answer request request' g e =
      elim (Bool-cases (
        is_public_path request.method request.path
        && not (uses_optional_auth request.method request.path))) [
          | inl free ↦ inl (ground arith, ground arith)
          | inr guarded ↦ elim (Option-cases (extract_bearer_token request.headers)) [
            | inl f ↦ inl (ground arith, ground arith)
            | inr (token, f) ↦ elim (Result-cases (verify_jwt jwt ttl now answer token g.cache).0) [
              | inr (message, h) ↦ absurd (ground arith)
              | inl (p, h) ↦ inr (
                token,
                p,
                f,
                subst (λ c. IsVerified token c p) (ground arith)
                    (verify_jwt_sound answer token g.cache p h),
                ground arith,
              )
            ]
          ]
        ]

  -- Whatever headers a client sends, a request that is handed on tells the service behind either no
  -- user and no role, on a public path, or the user and the role of a token that the request carries
  -- and that was verified with a key of the cache; a payload without a role stands for a customer.
  pub dispatch_identity :
      (answer : Option (List (Option String × K))) (request request' : Request) (g : GatewayState K)
      (inject : Headers → Headers) (target_url : Text)
      → ((hs : Headers) → told (inject hs) ≡ told hs)
      → (dispatch jwt ttl now answer request g).0 ≡ call_next request'
      → let sent = (outgoing inject request' target_url).headers in
        ((is_public_path request.method request.path ≡ true) × (told sent ≡ (none, none)))
        ⊎ ((token : Text) × (p : Payload) × (extract_bearer_token request.headers ≡ some token)
            × IsVerified token (dispatch jwt ttl now answer request g).1.cache p
            × (told sent ≡ (some (or_text p.sub []), some (or_text p.role (codes "customer")))))
  dispatch_identity answer request request' g inject target_url keeps e =
      elim (dispatch-call_next answer request request' g e) [
        | inl (free, same) ↦ inl (
          free,
          keeps (forwarded_headers request'.headers [])
              ∙ ap (λ r. told (forwarded_headers r.headers [])) same
              ∙ told-del_headers request.headers,
        )
        | inr (token, p, f, v, same) ↦ inr (
          token,
          p,
          f,
          v,
          keeps (forwarded_headers request'.headers [])
              ∙ ap (λ r. told (forwarded_headers r.headers [])) same
              ∙ told-identify p (del_headers identity_headers request.headers),
        )
      ]
