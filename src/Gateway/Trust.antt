-- ===== src/Gateway/Trust.antt =====
-- api-gateway's cache of keys (services/api-gateway/app/middleware/auth.py) over what user-service
-- answers (`get_jwks_service`, services/user-service/app/services/auth_service.py).
use micro_mart.Shared.{
  ℕ, ◌≡◌, refl, ◌⊎◌, inl, inr, String, str_eq, eq_refl, false, Option, none, some, List, [], ◌∷◌,
  arith, if◌then◌else◌, map, Option-cases,
}
use micro_mart.Gateway.{JwksCache, get_public_key, get_locked, refresh, cached_key, is_expired}
use micro_mart.User.Jwks.{Jwk, rsa, number, get_jwks_service, get_jwks_service-number}

module _ {K : Type 0} (make : ℕ → ℕ → K) (from_jwk : Jwk → K) where
  -- `RSAAlgorithm.from_jwk` makes the key of the numbers that the texts stand for.
  abbrev pub Reads : Type 0
  Reads = (j : Jwk) → from_jwk j ≡ make (number j.n) (number j.e)

  abbrev pub keys_of : List Jwk → List (Option String × K)
  keys_of = map (λ j. (some j.kid, from_jwk j))

  cached_key-single :
      (name : String) (k : K) (kid : Option String)
      → str_eq name "" ≡ false
      → (kid ≡ none) ⊎ (kid ≡ some name)
      → cached_key kid ((name, k) ∷ []) ≡ some k
  cached_key-single name k kid full (inl e) = ground (arith, eq_refl name)
  cached_key-single name k kid full (inr e) = ground (arith, eq_refl name)

  -- Over the RSA key of user-service, which always answers: if a request makes api-gateway ask it, a
  -- token without a key id and a token with the id that user-service gives are checked with that key.
  pub get_public_key-get_jwks_service :
      (n e ttl now : ℕ) (kid : Option String) (c : JwksCache K)
      → Reads
      → (kid ≡ none) ⊎ (kid ≡ some "micromart-key-1")
      → (jwks : List Jwk) × (get_jwks_service (rsa n e) ≡ some jwks)
        × (let out = get_public_key ttl now kid (some (keys_of jwks)) c in
            (out.asked ≡ false) ⊎ (out.key ≡ some (make n e)))
  unfolding get_public_key get_locked refresh
  get_public_key-get_jwks_service n e ttl now kid c reads known =
      let (j, p, named, q, r) = get_jwks_service-number n e in
      let key = reads j in
      let fresh = cached_key-single "micromart-key-1" (from_jwk j) kid refl known in
      (
        j ∷ [],
        p,
        elim (Option-cases (if is_expired ttl now c then none else cached_key kid c.keys)) [
          | inr (k, hit) ↦ inl (ground arith)
          | inl miss ↦ inr (ground arith)
        ],
      )
