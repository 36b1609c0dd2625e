-- ===== src/Gateway/Serving.antt =====
-- What api-gateway answers and counts (services/api-gateway/app/main.py).
use micro_mart.Shared.{
  ℕ, ◌≡◌, ◌≢◌, refl, ap, ◌⊎◌, inl, inr, String, false, Option, List, [], ◌∷◌, ◌++◌, ◌==◌, arith,
  Option-cases, Bool-cases, Result-cases, All,
}
use micro_mart.Shared.Texts.{Text, codes, slash, split_slash, join_slash, onto_first}
use micro_mart.Gateway.Paths.{Urls, classify_path}
use micro_mart.Gateway.Dispatch.{
  Headers, Request, Jwt, GatewayState, Verdict, call_next, refused, raised, dispatch, Reason,
  count_request, extract_bearer_token, verify_jwt,
}
use micro_mart.Gateway.Identity.{dispatch-call_next}
use micro_mart.Gateway.Proxy.{Outgoing, Upstream, serve}

split_slash_cons : (s : Text) → (t : Text) × (ts : List Text) × (split_slash s ≡ t ∷ ts)
split_slash_cons [] = ([], [], refl)
split_slash_cons (c ∷ s) =
    let (t, ts, e) = split_slash_cons s in
    elim (Bool-cases (c == slash)) [
      | inl f ↦ ([], t ∷ ts, ground arith)
      | inr f ↦ (c ∷ t, ts, ground arith)
    ]

join_slash-onto_first :
    (c : ℕ) (t : Text) (ts : List Text)
    → join_slash (onto_first c (t ∷ ts)) ≡ c ∷ join_slash (t ∷ ts)
join_slash-onto_first c t [] = refl
join_slash-onto_first c t (u ∷ us) = refl

-- What is split at the slashes is joined again.
pub join_slash-split_slash : (s : Text) → join_slash (split_slash s) ≡ s
join_slash-split_slash [] = refl
join_slash-split_slash (c ∷ s) =
    let (t, ts, e) = split_slash_cons s in
    elim (Bool-cases (c == slash)) [
      | inl f ↦ ground (arith, join_slash-split_slash s)
      | inr f ↦ ground (arith, join_slash-split_slash s, join_slash-onto_first c t ts)
    ]

-- No slash in a text.
abbrev pub IsPart : Text → Type 0
IsPart = All (λ c. (c == slash) ≡ false)

split_slash_part :
    (id tail : Text) → IsPart id → split_slash (id ++ slash ∷ tail) ≡ id ∷ split_slash tail
split_slash_part [] tail p = ground arith
split_slash_part (c ∷ id) tail p = ground (arith, split_slash_part id tail p.1, p.0)

-- The group of a path under /products/<id>/ has no id, but all of what follows it, so that there are as
-- many groups as such ends of a path.
pub classify_path_products :
    (id tail : Text)
    → IsPart id
    → id ≢ []
    → classify_path (codes "/products/" ++ id ++ slash ∷ tail) ≡ codes "/products/{id}/" ++ tail
unfolding classify_path
classify_path_products [] tail p n = absurd (n refl)
classify_path_products (c ∷ id) tail p n =
    let (t, ts, e) = split_slash_cons tail in
    ground (arith, split_slash_part (c ∷ id) tail p, join_slash-split_slash tail)

Verdict-cases :
    (v : Verdict)
    → ((reason : Option Reason) × (v ≡ refused reason))
      ⊎ ((v ≡ raised) ⊎ ((r : Request) × (v ≡ call_next r)))
Verdict-cases (refused reason) = inl (reason, refl)
Verdict-cases raised = inr (inl refl)
Verdict-cases (call_next r) = inr (inr (r, refl))

module _ {K : Type 0} (jwt : Jwt K) (ttl now : ℕ) (inject : Headers → Headers)
    (send : Outgoing → Upstream) (settings : Urls) where
  dispatch-requests :
      (answer : Option (List (Option String × K))) (request : Request) (g : GatewayState K)
      → (dispatch jwt ttl now answer request g).1.counters.requests ≡ g.counters.requests
  unfolding dispatch
  dispatch-requests answer request g = elim (Option-cases (extract_bearer_token request.headers)) [
    | inl f ↦ ground arith
    | inr (token, f) ↦ elim (Result-cases (verify_jwt jwt ttl now answer token g.cache).0) [
      | inl (p, h) ↦ ground arith
      | inr (message, h) ↦ ground arith
    ]
  ]

  same_group :
      (answer : Option (List (Option String × K))) (request request' : Request) (g : GatewayState K)
      → (dispatch jwt ttl now answer request g).0 ≡ call_next request'
      → (request'.method ≡ request.method) × (request'.path ≡ request.path)
  same_group answer request request' g e =
      elim (dispatch-call_next jwt ttl now answer request request' g e) [
        | inl (free, f) ↦ (ap (λ r. r.method) f, ap (λ r. r.path) f)
        | inr (token, p, t, v, f) ↦ (ap (λ r. r.method) f, ap (λ r. r.path) f)
      ]

  -- A request that authentication refuses is answered 401, and one whose authentication raises 500;
  -- neither is counted among the requests. A request that is handed on is counted once, under its
  -- method, its path's group and the status of its reply.
  pub serve-requests :
      (answer : Option (List (Option String × K))) (request : Request) (g : GatewayState K)
      → let out = serve inject send jwt ttl now settings answer request g in
        (((reason : Option Reason) × ((dispatch jwt ttl now answer request g).0 ≡ refused reason))
          × ((out.0.status_code ≡ 401) × (out.1.counters.requests ≡ g.counters.requests)))
        ⊎ ((((dispatch jwt ttl now answer request g).0 ≡ raised)
              × ((out.0.status_code ≡ 500) × (out.1.counters.requests ≡ g.counters.requests)))
            ⊎ (((request' : Request) × ((dispatch jwt ttl now answer request g).0
                    ≡ call_next request'))
                × (out.1.counters.requests
                    ≡ (request.method, classify_path request.path, out.0.status_code)
                      ∷ g.counters.requests)))
  unfolding serve count_request
  serve-requests answer request g =
      let unchanged = dispatch-requests answer request g in
      elim (Verdict-cases (dispatch jwt ttl now answer request g).0) [
        | inl (reason, e) ↦ inl ((reason, e), (ground arith, ground arith))
        | inr (inl e) ↦ inr (inl (e, (ground arith, ground arith)))
        | inr (inr (request', e)) ↦
            let (same_method, same_path) = same_group answer request request' g e in
            inr (inr ((request', e), ground arith))
      ]
