-- ===== src/User/Concurrent/Alone.antt =====
-- A request whose commands no other comes between
-- (services/user-service/app/services/auth_service.py).
use micro_mart.Shared.{
  ℕ, ◌≡◌, refl, ap, ◌∙◌, String, str_eq, eq_iff, eq_refl, Bool, true, false, not, none, some, List,
  [], ◌∷◌, ◌++◌, ◌==◌, map, if◌then◌else◌, ◌&&◌, arith, Option-cases, Bool-cases, inl, inr, keep_if,
}
use micro_mart.Shared.Timed.{Timed, get, ttl}
use micro_mart.User.Table.{get_user_by_email, get_user_by_id}
use micro_mart.User.Tokens.{
  SessionKey, session_eq, Redis, get_session, get_token, create_refresh_token, rotate_refresh_token,
  revoke_refresh_token, revoke_all_refresh_tokens, scan_tokens, is_in,
}
use micro_mart.User.Lookups.{session_law}
use micro_mart.User.Service.{World}
use micro_mart.User.Concurrent.Commands.{
  Write, delete_session, delete_token, write, execute, Program, answer, ask_session, ask_ttl,
  ask_token, scan, pipeline, find_email, find_id, clock, create_commands, rotate_commands,
  revoke_commands, collect, clear, revoke_all_commands,
}

-- `scan_iter("refresh:user:{user_id}:*")`
abbrev pub keys_of : ℕ → Timed SessionKey String → List SessionKey
keys_of user_id [] = []
keys_of user_id (((i, device), token, deadline) ∷ d) =
    let rest = keys_of user_id d in if i == user_id then (i, device) ∷ rest else rest

unfoldable pub alone : {A : Type 0} → Program A → World → A × World
alone (answer a) w = (a, w)
alone (ask_session i d k) w = alone (k (get_session w.now i d w.redis)) w
alone (ask_ttl i d k) w = alone (k (ttl session_eq w.now (i, d) w.redis.sessions)) w
alone (ask_token t k) w = alone (k (get_token w.now t w.redis)) w
alone (scan i k) w = alone (k (keys_of i w.redis.sessions)) w
alone (pipeline ws p) w = alone p (record w { redis = execute w.now ws w.redis })
alone (find_email e k) w = alone (k (get_user_by_email e w.db.users)) w
alone (find_id i k) w = alone (k (get_user_by_id i w.db.users)) w
alone (clock k) w = alone (k w.now) w

module _ {A : Type 0} (rest : Program A) (w : World) where
  pub alone-create :
      (expire : ℕ) (token : String) (i : ℕ) (d : String)
      → alone (create_commands expire token i d rest) w
        ≡ alone rest (record w { redis = create_refresh_token expire w.now token i d w.redis })
  unfolding alone execute create_refresh_token
  alone-create expire token i d = elim (Option-cases (get_session w.now i d w.redis)) [
    | inl e ↦ ground arith
    | inr (x, e) ↦ ground arith
  ]

  pub alone-rotate :
      (expire : ℕ) (token : String) (i : ℕ) (d : String)
      → alone (rotate_commands expire token i d rest) w
        ≡ alone rest (record w { redis = rotate_refresh_token expire w.now token i d w.redis })
  unfolding alone execute rotate_refresh_token
  alone-rotate expire token i d = elim (Option-cases (get_session w.now i d w.redis)) [
    | inl e ↦ ground arith
    | inr (x, e) ↦ ground arith
  ]

  pub alone-revoke :
      (i : ℕ) (d : String)
      → alone (revoke_commands i d rest) w
        ≡ alone rest (record w { redis = revoke_refresh_token w.now i d w.redis })
  unfolding alone execute revoke_refresh_token
  alone-revoke i d = elim (Option-cases (get_session w.now i d w.redis)) [
    | inl e ↦ ground arith
    | inr (x, e) ↦ ground arith
  ]

-- What deleting many keys comes to.
abbrev is_key_in : SessionKey → List SessionKey → Bool
is_key_in key [] = false
is_key_in key (k ∷ ks) = if session_eq k key then true else is_key_in key ks

keep_if_again :
    {X : Type 0} (p q r : X → Bool) (d : List X)
    → ((x : X) → (p x && q x) ≡ r x)
    → keep_if p (keep_if q d) ≡ keep_if r d
keep_if_again p q r [] h = refl
keep_if_again p q r (x ∷ d) h = ground (arith, h x, keep_if_again p q r d h)

keep_if-true : {X : Type 0} (p : X → Bool) (d : List X) → ((x : X) → p x ≡ true) → keep_if p d ≡ d
keep_if-true p [] h = refl
keep_if-true p (x ∷ d) h = ground (arith, h x, keep_if-true p d h)

str_eq_comm : (s t : String) → str_eq s t ≡ str_eq t s
str_eq_comm s t = elim (Bool-cases (str_eq s t)) [
  | inl e ↦ ground (arith, eq_iff s t, eq_refl t)
  | inr e ↦ elim (Bool-cases (str_eq t s)) [
    | inl f ↦ ground (arith, eq_iff t s, eq_refl s)
    | inr f ↦ ground arith
  ]
]

execute-append :
    (now : ℕ) (xs ys : List Write) (r : Redis)
    → execute now (xs ++ ys) r ≡ execute now ys (execute now xs r)
unfolding execute
execute-append now [] ys r = refl
execute-append now (x ∷ xs) ys r = execute-append now xs ys (write now x r)

execute-delete_token :
    (now : ℕ) (ts : List String) (r : Redis)
    → execute now (map delete_token ts) r
      ≡ record r { tokens = keep_if (λ e. not (is_in now e.0 ts)) r.tokens }
unfolding execute
execute-delete_token now [] r =
    ground (arith, keep_if-true (λ e. not (is_in now e.0 [])) r.tokens (λ e. refl))
execute-delete_token now (t ∷ ts) r = ground (
  arith,
  execute-delete_token now ts (write now (delete_token t) r),
  keep_if_again (λ e. not (is_in now e.0 ts)) (λ e. not (str_eq t e.0))
      (λ e. not (is_in now e.0 (t ∷ ts))) r.tokens (λ e. ground (arith, str_eq_comm e.0 t)),
)

execute-delete_session :
    (now : ℕ) (keys : List SessionKey) (r : Redis)
    → execute now (map delete_session keys) r
      ≡ record r { sessions = keep_if (λ e. not (is_key_in e.0 keys)) r.sessions }
unfolding execute
execute-delete_session now [] r =
    ground (arith, keep_if-true (λ e. not (is_key_in e.0 [])) r.sessions (λ e. refl))
execute-delete_session now (k ∷ keys) r = ground (
  arith,
  execute-delete_session now keys (write now (delete_session k) r),
  keep_if_again (λ e. not (is_key_in e.0 keys)) (λ e. not (session_eq k e.0))
      (λ e. not (is_key_in e.0 (k ∷ keys))) r.sessions (λ e. ground arith),
)

-- The dictionary has an entry under the key, alive or not.
abbrev has : SessionKey → Timed SessionKey String → Bool
has key [] = false
has key (e ∷ d) = if session_eq e.0 key then true else has key d

is_key_in-keys_of :
    (i : ℕ) (d : Timed SessionKey String) (k : SessionKey)
    → is_key_in k (keys_of i d) ≡ ((k.0 == i) && has k d)
is_key_in-keys_of i [] k = ground arith
is_key_in-keys_of i (((j, x), t, end) ∷ d) (k, y) =
    ground (arith, is_key_in-keys_of i d (k, y), session_law (j, x) (k, y))

keep_if-keys_of :
    (i : ℕ) (all d : Timed SessionKey String)
    → ((k : SessionKey) → has k d ≡ true → has k all ≡ true)
    → keep_if (λ e. not (is_key_in e.0 (keys_of i all))) d ≡ keep_if (λ e. not (e.0.0 == i)) d
keep_if-keys_of i all [] h = refl
keep_if-keys_of i all (((j, x), t, end) ∷ d) h = ground (
  arith,
  keep_if-keys_of i all d (λ k e. h k (ground arith)),
  is_key_in-keys_of i all (j, x),
  h (j, x) (ground (arith, eq_refl x)),
)

abbrev tokens_of : ℕ → Timed SessionKey String → List SessionKey → List String
tokens_of now d [] = []
tokens_of now d (k ∷ keys) = elim (get session_eq now k d) [
  | none ↦ tokens_of now d keys
  | some t ↦ t ∷ tokens_of now d keys
]

tokens_of-keys_of :
    (now i : ℕ) (all d : Timed SessionKey String)
    → tokens_of now all (keys_of i d) ≡ scan_tokens now i all d
tokens_of-keys_of now i all [] = refl
tokens_of-keys_of now i all (((j, x), t, end) ∷ d) = ground (arith, tokens_of-keys_of now i all d)

alone-collect :
    {A : Type 0} (keys : List SessionKey) (rest : List String → Program A) (w : World)
    → alone (collect keys rest) w ≡ alone (rest (tokens_of w.now w.redis.sessions keys)) w
unfolding alone
alone-collect [] rest w = refl
alone-collect ((i, d) ∷ keys) rest w =
    alone-collect keys
      (λ tokens.
        rest (elim (get_session w.now i d w.redis) [ none ↦ tokens | some t ↦ t ∷ tokens ]))
      w

abbrev cleared : ℕ → List SessionKey → Redis → Redis
cleared now keys r = record {
  sessions = keep_if (λ e. not (is_key_in e.0 keys)) r.sessions;
  tokens = keep_if (λ e. not (is_in now e.0 (tokens_of now r.sessions keys))) r.tokens;
}

execute-cleared :
    (now : ℕ) (keys : List SessionKey) (r : Redis)
    → execute now (map delete_session keys ++ map delete_token (tokens_of now r.sessions keys)) r
      ≡ cleared now keys r
execute-cleared now keys r =
    rw
      (
        execute-append now (map delete_session keys)
            (map delete_token (tokens_of now r.sessions keys)) r,
        execute-delete_session now keys r,
        execute-delete_token now (tokens_of now r.sessions keys)
            (record r { sessions = keep_if (λ e. not (is_key_in e.0 keys)) r.sessions }),
      )
      refl

alone-clear :
    {A : Type 0} (keys : List SessionKey) (rest : Program A) (w : World)
    → alone (clear keys rest) w ≡ alone rest (record w { redis = cleared w.now keys w.redis })
unfolding alone
alone-clear [] rest w = ground (
  arith,
  keep_if-true (λ e. not (is_key_in e.0 [])) w.redis.sessions (λ e. refl),
  keep_if-true (λ e. not (is_in w.now e.0 [])) w.redis.tokens (λ e. refl),
)
alone-clear (k ∷ keys) rest w =
    alone-collect (k ∷ keys)
      (λ tokens. pipeline (map delete_session (k ∷ keys) ++ map delete_token tokens) rest) w
    ∙ ap (λ r. alone rest (record w { redis = r })) (execute-cleared w.now (k ∷ keys) w.redis)

pub alone-revoke_all :
    {A : Type 0} (rest : Program A) (w : World) (i : ℕ)
    → alone (revoke_all_commands i rest) w
      ≡ alone rest (record w { redis = revoke_all_refresh_tokens w.now i w.redis })
unfolding alone revoke_all_refresh_tokens
alone-revoke_all rest w i =
    let keys = keys_of i w.redis.sessions in
    let sessions = keep_if-keys_of i w.redis.sessions w.redis.sessions (λ k e. e) in
    let tokens = tokens_of-keys_of w.now i w.redis.sessions w.redis.sessions in
    alone-clear keys rest w ∙ rw (sessions, tokens) refl
