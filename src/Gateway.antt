-- ===== src/Gateway.antt =====
-- api-gateway: the cache of public keys (`JWKSCache`, services/api-gateway/app/middleware/auth.py).
-- A key is of any type; what user-service answers to one request for its keys is an argument, none
-- for any failure. Metrics and log lines are left out. Numbers stand for the clock.
pub mod Keys
pub mod Paths
pub mod Dispatch
pub mod Proxy
pub mod Headers
pub mod Identity
pub mod Serving
pub mod Trust
use micro_mart.Shared.{
  ℕ, ◌+◌, ◌-◌, String, str_eq, Bool, true, false, ◌&&◌, not, Option, none, some, List, [], ◌∷◌,
  Result, ok, err, ltb, if◌then◌else◌,
}

-- `key_data.get("kid", "default")`
abbrev pub kid_of : Option String → String
kid_of none = "default"
kid_of (some kid) = kid

-- An empty text is false in Python.
abbrev pub truthy : Option String → Bool
truthy none = false
truthy (some kid) = not (str_eq kid "")

module _ {K : Type 0} where
  -- A dictionary keyed by texts, in insertion order.
  abbrev pub get_key : String → List (String × K) → Option K
  get_key kid [] = none
  get_key kid ((name, k) ∷ keys) = if str_eq kid name then some k else get_key kid keys

  abbrev pub put_key : String → K → List (String × K) → List (String × K)
  put_key kid k [] = (kid, k) ∷ []
  put_key kid k ((name, old) ∷ keys) =
      if str_eq kid name then (name, k) ∷ keys else (name, old) ∷ put_key kid k keys

  -- The loop over `jwks["keys"]`.
  abbrev pub read_keys : List (Option String × K) → List (String × K) → List (String × K)
  read_keys [] keys = keys
  read_keys ((kid, k) ∷ rest) keys = read_keys rest (put_key (kid_of kid) k keys)

  -- `next(iter(self._keys), None)`
  abbrev pub first_kid : List (String × K) → Option String
  first_kid [] = none
  first_kid ((name, k) ∷ keys) = some name

  -- `lookup_kid = kid or next(iter(self._keys), None)`
  abbrev pub lookup_kid : Option String → List (String × K) → Option String
  lookup_kid kid keys = if truthy kid then kid else first_kid keys

  -- `if lookup_kid and lookup_kid in self._keys`
  abbrev pub cached_key : Option String → List (String × K) → Option K
  cached_key kid keys = elim (lookup_kid kid keys) [
    | none ↦ none
    | some name ↦ if str_eq name "" then none else get_key name keys
  ]

pub record JwksCache (K : Type 0) : Type 0 where
  pub keys : List (String × K)
  pub fetched_at : ℕ

-- What a request for a key comes to, and whether user-service was asked.
pub record KeyAnswer (K : Type 0) : Type 0 where
  pub key : Option K
  pub cache : JwksCache K
  pub asked : Bool

module _ {K : Type 0} (ttl now : ℕ) where
  abbrev pub is_expired : JwksCache K → Bool
  is_expired c = ltb ttl (now - c.fetched_at)

  -- `none`: the exception is raised again, as there is no key to go on with.
  unfoldable pub refresh : Option (List (Option String × K)) → JwksCache K → Option (JwksCache K)
  refresh none c = elim c.keys [ [] ↦ none | k ∷ ks ↦ some c ]
  refresh (some answer) c = some (record { keys = read_keys answer []; fetched_at = now })

  -- What follows the taking of the lock, on the cache as it is by then.
  unfoldable pub get_locked :
      Option String → Option (List (Option String × K)) → JwksCache K → KeyAnswer K
  get_locked kid answer c = elim (if is_expired c then none else cached_key kid c.keys) [
    | some k ↦ record { key = some k; cache = c; asked = false }
    | none ↦ elim (refresh answer c) [
      | none ↦ record { key = none; cache = c; asked = true }
      | some c' ↦ record { key = cached_key kid c'.keys; cache = c'; asked = true }
    ]
  ]

  unfoldable pub get_public_key :
      Option String → Option (List (Option String × K)) → JwksCache K → KeyAnswer K
  get_public_key kid answer c = elim (if is_expired c then none else cached_key kid c.keys) [
    | some k ↦ record { key = some k; cache = c; asked = false }
    | none ↦ get_locked kid answer c
  ]
