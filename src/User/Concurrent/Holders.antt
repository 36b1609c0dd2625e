-- ===== src/User/Concurrent/Holders.antt =====
-- Which sessions may hold a token while requests run at once (services/user-service/app/auth.py).
use micro_mart.Shared.{
  ℕ, ◌+◌, ◌≡◌, ◌≢◌, String, Bool, true, false, not, ◌&&◌, some, List, [], ◌∷◌, arith, Option-cases,
  inl, inr,
}
use micro_mart.Shared.Timed.{look_earlier, look-setex, look-delete}
use micro_mart.User.Tokens.{SessionKey, session_eq, Redis, get_session}
use micro_mart.User.Lookups.{session, session_law}
use micro_mart.User.Concurrent.Commands.{
  Write, set_session, set_token, delete_session, delete_token, write, execute,
}

-- The sessions that hold `t` are among those of the test.
abbrev pub IsWithin : String → (SessionKey → Bool) → ℕ → Redis → Type 0
IsWithin t test now r = (i : ℕ) (d : String) → get_session now i d r ≡ some t → test (i, d) ≡ true

abbrev pub nowhere : SessionKey → Bool
nowhere key = false

-- No session is given `t`.
abbrev pub Withholds : String → List Write → Type 0
Withholds t [] = Unit
Withholds t (set_session key ttl token ∷ ws) = (token ≢ t) × Withholds t ws
Withholds t (set_token token ttl value ∷ ws) = Withholds t ws
Withholds t (delete_session key ∷ ws) = Withholds t ws
Withholds t (delete_token token ∷ ws) = Withholds t ws

-- What is left of the test after the writes: a session that is written to has another token.
abbrev pub narrowed : (SessionKey → Bool) → List Write → SessionKey → Bool
narrowed test [] = test
narrowed test (set_session key ttl token ∷ ws) = narrowed (λ k. test k && not (session_eq key k)) ws
narrowed test (set_token token ttl value ∷ ws) = narrowed test ws
narrowed test (delete_session key ∷ ws) = narrowed (λ k. test k && not (session_eq key k)) ws
narrowed test (delete_token token ∷ ws) = narrowed test ws

set_session-IsWithin :
    (t : String) (test : SessionKey → Bool) (now : ℕ) (r : Redis) (key : SessionKey) (ttl : ℕ)
    (token : String)
    → token ≢ t
    → IsWithin t test now r
    → IsWithin t
        (λ k. test k && not (session_eq key k))
        now
        (write now (set_session key ttl token) r)
set_session-IsWithin t test now r key ttl token other h i d e =
    ground (arith, look-setex session_eq session_law now now (i, d) key ttl token r.sessions, h i d)

delete_session-IsWithin :
    (t : String) (test : SessionKey → Bool) (now : ℕ) (r : Redis) (key : SessionKey)
    → IsWithin t test now r
    → IsWithin t (λ k. test k && not (session_eq key k)) now (write now (delete_session key) r)
delete_session-IsWithin t test now r key h i d e =
    ground (arith, look-delete session_eq session_law now (i, d) key r.sessions, h i d)

pub execute-narrowed :
    (t : String) (test : SessionKey → Bool) (now : ℕ) (ws : List Write) (r : Redis)
    → Withholds t ws
    → IsWithin t test now r
    → IsWithin t (narrowed test ws) now (execute now ws r)
unfolding execute
execute-narrowed t test now [] r c h = h
execute-narrowed t test now (set_session key ttl token ∷ ws) r c h =
    execute-narrowed t (λ k. test k && not (session_eq key k)) now ws _ c.1
      (set_session-IsWithin t test now r key ttl token c.0 h)
execute-narrowed t test now (set_token token ttl value ∷ ws) r c h =
    execute-narrowed t test now ws _ c h
execute-narrowed t test now (delete_session key ∷ ws) r c h =
    execute-narrowed t (λ k. test k && not (session_eq key k)) now ws _ c
      (delete_session-IsWithin t test now r key h)
execute-narrowed t test now (delete_token token ∷ ws) r c h = execute-narrowed t test now ws _ c h

narrowed-test :
    (test : SessionKey → Bool) (ws : List Write) (k : SessionKey)
    → narrowed test ws k ≡ true
    → test k ≡ true
narrowed-test test [] k e = e
narrowed-test test (set_session key ttl token ∷ ws) k e =
    ground (arith, narrowed-test (λ k. test k && not (session_eq key k)) ws k e)
narrowed-test test (set_token token ttl value ∷ ws) k e = narrowed-test test ws k e
narrowed-test test (delete_session key ∷ ws) k e =
    ground (arith, narrowed-test (λ k. test k && not (session_eq key k)) ws k e)
narrowed-test test (delete_token token ∷ ws) k e = narrowed-test test ws k e

pub execute-IsWithin :
    (t : String) (test : SessionKey → Bool) (now : ℕ) (ws : List Write) (r : Redis)
    → Withholds t ws
    → IsWithin t test now r
    → IsWithin t test now (execute now ws r)
execute-IsWithin t test now ws r c h i d e =
    narrowed-test test ws (i, d) (execute-narrowed t test now ws r c h i d e)

pub wait-IsWithin :
    (t : String) (test : SessionKey → Bool) (now n : ℕ) (r : Redis)
    → IsWithin t test now r
    → IsWithin t test (now + n) r
wait-IsWithin t test now n r h i d e = elim (Option-cases (session (now + n) i d r)) [
  | inl f ↦ absurd (ground arith)
  | inr ((x, end), f) ↦
      ground (arith, look_earlier session_eq now (now + n) (i, d) r.sessions x end, h i d)
]
