-- ===== src/User/Tokens.antt =====
-- The refresh tokens of user-service (services/user-service/app/auth.py). Redis is two dictionaries
-- of entries that expire: refresh:user:{id}:{device} holds a token, refresh:token:{token} holds its
-- owner, as such or as a tombstone. Codec is about the texts of these keys and values. A pipeline is
-- one step. What `uuid.uuid4` draws is an argument; it is no empty text.
use micro_mart.Shared.{
  ℕ, ◌*◌, String, str_eq, Bool, true, false, ◌&&◌, Option, none, some, List, [], ◌∷◌, ◌==◌, ltb,
  keep_if, not, if◌then◌else◌,
}
use micro_mart.Shared.Timed.{Timed, delete, setex, get, ttl}

-- The user and the device.
abbrev pub SessionKey : Type 0
SessionKey = ℕ × String

abbrev pub session_eq : SessionKey → SessionKey → Bool
session_eq (i, d) (j, e) = i == j && str_eq d e

-- "{user_id}:{device}" and "REVOKED:{user_id}:{device}".
pub data Owner : Type 0 where
  live revoked : ℕ → String → Owner

pub record Redis : Type 0 where
  pub sessions : Timed SessionKey String
  pub tokens : Timed String Owner

abbrev pub get_session : ℕ → ℕ → String → Redis → Option String
get_session now user_id device r = get session_eq now (user_id, device) r.sessions

abbrev pub get_token : ℕ → String → Redis → Option Owner
get_token now token r = get str_eq now token r.tokens

-- `setex` of the session and of the token, the end of both pipelines.
abbrev pub store_token : ℕ → ℕ → ℕ → String → String → Redis → Redis
store_token now seconds user_id device token r = record {
  sessions = setex session_eq now (user_id, device) seconds token r.sessions;
  tokens = setex str_eq now token seconds (live user_id device) r.tokens;
}

-- `expire_seconds = settings.refresh_token_expire_days * 24 * 60 * 60`
abbrev pub expire_seconds : ℕ → ℕ
expire_seconds refresh_token_expire_days = refresh_token_expire_days * 24 * 60 * 60

module _ (seconds now : ℕ) where
  unfoldable pub create_refresh_token : String → ℕ → String → Redis → Redis
  create_refresh_token token user_id device r = elim (get_session now user_id device r) [
    | none ↦ store_token now seconds user_id device token r
    | some existing ↦
        store_token now seconds user_id device token
          (record r { tokens = delete str_eq existing r.tokens })
  ]

  abbrev pub tombstone_ttl : ℕ → String → Redis → ℕ
  tombstone_ttl user_id device r =
      let remaining = ttl session_eq now (user_id, device) r.sessions in
      if ltb 0 remaining then remaining else seconds

  unfoldable pub rotate_refresh_token : String → ℕ → String → Redis → Redis
  rotate_refresh_token token user_id device r = elim (get_session now user_id device r) [
    | none ↦ store_token now seconds user_id device token r
    | some existing ↦ store_token now seconds user_id device token (record r {
      tokens =
          setex str_eq now existing (tombstone_ttl user_id device r) (revoked user_id device)
            r.tokens;
    })
  ]

-- What `get_user_id_from_refresh_token` comes to: None, TokenReusedException, or the owner.
pub data Found : Type 0 where
  missing : Found
  reused : ℕ → Found
  owned : ℕ → String → Found

module _ (now : ℕ) where
  unfoldable pub verify_refresh_token : ℕ → String → String → Redis → Bool
  verify_refresh_token user_id token device r = elim (get_session now user_id device r) [
    | none ↦ false
    | some stored ↦ str_eq stored token
  ]

  unfoldable pub revoke_refresh_token : ℕ → String → Redis → Redis
  revoke_refresh_token user_id device r = elim (get_session now user_id device r) [
    | none ↦ r
    | some stored ↦
        let remaining = ttl session_eq now (user_id, device) r.sessions in
        record {
          sessions = delete session_eq (user_id, device) r.sessions;
          tokens =
              if ltb 0 remaining
              then setex str_eq now stored remaining (revoked user_id device) r.tokens
              else delete str_eq stored r.tokens;
        }
  ]

  -- `scan_iter("refresh:user:{user_id}:*")` with the `get` of each key, over all sessions.
  abbrev pub scan_tokens : ℕ → Timed SessionKey String → Timed SessionKey String → List String
  scan_tokens user_id sessions [] = []
  scan_tokens user_id sessions (((i, device), token, deadline) ∷ d) =
      let rest = scan_tokens user_id sessions d in
      if i == user_id
      then elim (get session_eq now (i, device) sessions) [ none ↦ rest | some t ↦ t ∷ rest ]
      else rest

  abbrev pub is_in : String → List String → Bool
  is_in token [] = false
  is_in token (t ∷ ts) = if str_eq token t then true else is_in token ts

  -- With no session nothing is deleted, which is what deleting nothing does.
  unfoldable pub revoke_all_refresh_tokens : ℕ → Redis → Redis
  revoke_all_refresh_tokens user_id r = record {
    sessions = keep_if (λ e. not (e.0.0 == user_id)) r.sessions;
    tokens = keep_if (λ e. not (is_in e.0 (scan_tokens user_id r.sessions r.sessions))) r.tokens;
  }

  unfoldable pub get_user_id_from_refresh_token : String → Redis → Found
  get_user_id_from_refresh_token token r = elim (get_token now token r) [
    | none ↦ missing
    | some (live user_id device) ↦ owned user_id device
    | some (revoked user_id device) ↦ reused user_id
  ]
