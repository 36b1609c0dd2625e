-- ===== src/Gateway/Headers.antt =====
-- Reading a header after `AuthMiddleware.dispatch` has written some
-- (services/api-gateway/app/main.py), and after `proxy_request` has put them into a dictionary
-- (services/api-gateway/app/services/proxy_service.py).
use micro_mart.Shared.{
  ◌≡◌, refl, subst, sym, true, false, Option, none, some, [], ◌∷◌, ◌++◌, if◌then◌else◌, arith,
  Bool-cases, inl, inr,
}
use micro_mart.Shared.Texts.{Text, codes, same, same_law, lower}
use micro_mart.Gateway.Dispatch.{
  Headers, del_header, set_header, Payload, identify, or_text, del_headers, identity_headers,
}
use micro_mart.Gateway.Proxy.{
  forwarded_headers, get_header, put_header, is_among, hop_by_hop_headers,
}

abbrev pub or_else : {A : Type 0} → Option A → Option A → Option A
or_else none b = b
or_else (some a) b = some a

-- The last value of a header.
abbrev pub last_value : Text → Headers → Option Text
last_value name [] = none
last_value name ((k, v) ∷ headers) =
    or_else (last_value name headers) (if same k name then some v else none)

get_header-put_header :
    (j k v : Text) (d : Headers)
    → get_header j (put_header k v d) ≡ (if same j k then some v else get_header j d)
get_header-put_header j k v [] = refl
get_header-put_header j k v ((i, w) ∷ d) =
    ground (arith, same_law j k, same_law k i, same_law j i, get_header-put_header j k v d)

-- The names that the proxy keeps under any spelling.
abbrev pub IsKept : Text → Type 0
IsKept name = (k : Text) → same k name ≡ true → is_among hop_by_hop_headers (lower k) ≡ false

pub forwarded_headers_last :
    (name : Text) (hs acc : Headers)
    → IsKept name
    → get_header name (forwarded_headers hs acc)
      ≡ or_else (last_value name hs) (get_header name acc)
forwarded_headers_last name [] acc kept = refl
forwarded_headers_last name ((k, v) ∷ hs) acc kept =
    elim (Bool-cases (is_among hop_by_hop_headers (lower k))) [
      | inl hop ↦ ground (arith, forwarded_headers_last name hs acc kept, kept k)
      | inr free ↦ ground (
        arith,
        forwarded_headers_last name hs (put_header k v acc) kept,
        get_header-put_header name k v acc,
        same_law name k,
        same_law k name,
      )
    ]

last_value-del_header :
    (name other : Text) (hs : Headers)
    → last_value name (del_header other hs) ≡ (if same name other then none else last_value name hs)
last_value-del_header name other [] = ground arith
last_value-del_header name other ((k, v) ∷ hs) = ground (
  arith,
  last_value-del_header name other hs,
  same_law k other,
  same_law k name,
  same_law name other,
)

last_value-append :
    (name k v : Text) (hs : Headers)
    → last_value name (hs ++ (k, v) ∷ []) ≡ (if same k name then some v else last_value name hs)
last_value-append name k v [] = ground arith
last_value-append name k v (h ∷ hs) = ground (arith, last_value-append name k v hs)

last_value-set_header :
    (name other v : Text) (hs : Headers)
    → last_value name (set_header other v hs)
      ≡ (if same name other then some v else last_value name hs)
last_value-set_header name other v hs = ground (
  arith,
  last_value-append name other v (del_header other hs),
  last_value-del_header name other hs,
  same_law name other,
  same_law other name,
)

-- A constant that is no hop-by-hop header is kept.
pub constant-IsKept : (name : Text) → is_among hop_by_hop_headers (lower name) ≡ false → IsKept name
constant-IsKept name e k f =
    subst (λ x. is_among hop_by_hop_headers (lower x) ≡ false) (sym ((same_law k name).0 f)) e

pub user_id-IsKept : IsKept (codes "x-user-id")
user_id-IsKept = constant-IsKept (codes "x-user-id") refl

pub user_role-IsKept : IsKept (codes "x-user-role")
user_role-IsKept = constant-IsKept (codes "x-user-role") refl

-- The identity that a service reads.
abbrev pub told : Headers → Option Text × Option Text
told headers = (get_header (codes "x-user-id") headers, get_header (codes "x-user-role") headers)

-- Both of two headers deleted, and both set, as the dictionary has them.
module _ (a b : Text) (kept_a : IsKept a) (kept_b : IsKept b) (other : same a b ≡ false) where
  forwarded-del_header :
      (hs : Headers)
      → let d = forwarded_headers (del_header b (del_header a hs)) [] in
        (get_header a d ≡ none) × (get_header b d ≡ none)
  forwarded-del_header hs =
      let both = del_header b (del_header a hs) in
      (
        ground (
          arith,
          forwarded_headers_last a both [] kept_a,
          last_value-del_header a b (del_header a hs),
          last_value-del_header a a hs,
          same_law a a,
        ),
        ground (
          arith,
          forwarded_headers_last b both [] kept_b,
          last_value-del_header b b (del_header a hs),
          same_law b b,
        ),
      )

  forwarded-set_header :
      (v w : Text) (hs : Headers)
      → let d = forwarded_headers (set_header b w (set_header a v hs)) [] in
        (get_header a d ≡ some v) × (get_header b d ≡ some w)
  forwarded-set_header v w hs =
      let both = set_header b w (set_header a v hs) in
      (
        ground (
          arith,
          forwarded_headers_last a both [] kept_a,
          last_value-set_header a b w (set_header a v hs),
          last_value-set_header a a v hs,
          same_law a a,
        ),
        ground (
          arith,
          forwarded_headers_last b both [] kept_b,
          last_value-set_header b b w (set_header a v hs),
          same_law b b,
        ),
      )

pub told-del_headers :
    (hs : Headers) → told (forwarded_headers (del_headers identity_headers hs) []) ≡ (none, none)
told-del_headers hs =
    let (no_id, no_role) =
      forwarded-del_header (codes "x-user-id") (codes "x-user-role") user_id-IsKept user_role-IsKept
        refl hs in
    λ i. (no_id i, no_role i)

pub told-identify :
    (p : Payload) (hs : Headers)
    → told (forwarded_headers (identify p hs) [])
      ≡ (some (or_text p.sub []), some (or_text p.role (codes "customer")))
told-identify p hs =
    let (id, role) =
      forwarded-set_header (codes "x-user-id") (codes "x-user-role") user_id-IsKept user_role-IsKept
        refl (or_text p.sub []) (or_text p.role (codes "customer")) hs in
    λ i. (id i, role i)
