-- ===== src/Gateway/Keys.antt =====
-- The key cache: which key is given, when user-service is asked, what an outage leaves.
use micro_mart.Shared.{
  ℕ, ◌-◌, ◌≤◌, ◌≡◌, String, str_eq, true, false, Option, none, some, List, [], arith, if◌then◌else◌,
  Option-cases, Bool-cases, inl, inr,
}
use micro_mart.Gateway.{
  get_key, lookup_kid, cached_key, read_keys, JwksCache, is_expired, refresh, get_locked,
  get_public_key,
}

module _ {K : Type 0} where
  cached_key-get_key :
      (kid : Option String) (keys : List (String × K)) (k : K)
      → cached_key kid keys ≡ some k
      → (name : String) × (lookup_kid kid keys ≡ some name) × (get_key name keys ≡ some k)
  cached_key-get_key kid keys k e = elim (Option-cases (lookup_kid kid keys)) [
    | inl miss ↦ absurd (ground arith)
    | inr (name, found) ↦ elim (Bool-cases (str_eq name "")) [
      | inl empty ↦ absurd (ground arith)
      | inr full ↦ (name, found, ground arith)
    ]
  ]

  -- A key that is given is in the cache, as it is afterwards, under the kid that was asked for, or
  -- under the first one if none was. If user-service was not asked, the cache is as it was and not
  -- older than its time to live.
  pub get_public_key_sound :
      (ttl now : ℕ) (kid : Option String) (answer : Option (List (Option String × K)))
      (c : JwksCache K) (k : K)
      → let out = get_public_key ttl now kid answer c in
        out.key ≡ some k
        → ((name : String) × (lookup_kid kid out.cache.keys ≡ some name)
            × (get_key name out.cache.keys ≡ some k))
          × (out.asked ≡ false → (out.cache ≡ c) × (now - c.fetched_at ≤ ttl))
  unfolding get_public_key get_locked
  get_public_key_sound ttl now kid answer c k e =
      elim (Option-cases (if is_expired ttl now c then none else cached_key kid c.keys)) [
        | inr (k', hit) ↦
            (ground (arith, cached_key-get_key kid c.keys k), λ a. (ground arith, ground arith))
        | inl miss ↦ elim (Option-cases (refresh ttl now answer c)) [
          | inl down ↦ absurd (ground arith)
          | inr (c', up) ↦
              (ground (arith, cached_key-get_key kid c'.keys k), λ a. absurd (ground arith))
        ]
      ]

  -- While user-service does not answer, a cache that has the key goes on giving it, however old it
  -- is, and stays as it is.
  pub get_public_key-outage :
      (ttl now : ℕ) (kid : Option String) (c : JwksCache K) (k : K)
      → cached_key kid c.keys ≡ some k
      → ((get_public_key ttl now kid none c).key ≡ some k)
        × ((get_public_key ttl now kid none c).cache ≡ c)
  unfolding get_public_key get_locked refresh
  get_public_key-outage ttl now kid c k e = (ground arith, ground arith)

  -- If a request misses the key and user-service answers with keys that have it, it gives that key,
  -- and a second request that gets the lock afterwards, within the time to live, gives the same key,
  -- without asking user-service and leaving the cache as it is.
  pub get_locked-waiter :
      (ttl now later : ℕ) (kid : Option String) (answer : List (Option String × K))
      (again : Option (List (Option String × K))) (c : JwksCache K) (k : K)
      → cached_key kid (read_keys answer []) ≡ some k
      → later - now ≤ ttl
      → (get_public_key ttl now kid (some answer) c).asked ≡ true
      → let first = get_public_key ttl now kid (some answer) c in
        (first.key ≡ some k)
        × (get_locked ttl later kid again first.cache
            ≡ record { key = some k; cache = first.cache; asked = false })
  unfolding get_public_key get_locked refresh
  get_locked-waiter ttl now later kid answer again c k e l a = (ground arith, ground arith)
