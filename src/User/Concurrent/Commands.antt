-- ===== src/User/Concurrent/Commands.antt =====
-- The handlers login, refresh and logout (services/user-service/app/services/auth_service.py, auth.py)
-- as the commands that they send to Redis and the database, one after the other: each `await` of the
-- source is a command, and a pipeline is one command, as Redis runs MULTI/EXEC. Between two commands
-- of one request those of others can run. A routine takes what follows it as its last argument. What
-- `uuid.uuid4` draws is an argument; it is no empty text.
use micro_mart.Shared.{
  ℕ, String, str_eq, Bool, false, not, Option, none, some, List, [], ◌∷◌, ◌++◌, ◌==◌, ltb, ok, err,
  map, if◌then◌else◌, Result,
}
use micro_mart.Shared.Http.{HttpError, plain_error}
use micro_mart.Shared.Timed.{delete, setex, ttl}
use micro_mart.User.Table.{
  User, LoginRequest, LogoutRequest, RefreshRequest, TokenResponse, Libraries,
}
use micro_mart.User.Tokens.{SessionKey, session_eq, Owner, live, revoked, Redis}
use micro_mart.User.Service.{Settings, seconds, subject, create_access_token}

-- What a pipeline is made of.
pub data Write : Type 0 where
  set_session : SessionKey → ℕ → String → Write
  set_token : String → ℕ → Owner → Write
  delete_session : SessionKey → Write
  delete_token : String → Write

abbrev pub write : ℕ → Write → Redis → Redis
write now (set_session key ttl token) r = record r {
  sessions = setex session_eq now key ttl token r.sessions;
}
write now (set_token token ttl value) r = record r {
  tokens = setex str_eq now token ttl value r.tokens;
}
write now (delete_session key) r = record r { sessions = delete session_eq key r.sessions }
write now (delete_token token) r = record r { tokens = delete str_eq token r.tokens }

unfoldable pub execute : ℕ → List Write → Redis → Redis
execute now [] r = r
execute now (x ∷ xs) r = execute now xs (write now x r)

-- A request at work: it has its answer, or waits for what a command gives.
pub data Program (A : Type 0) : Type 0 where
  answer : A → Program A
  ask_session : ℕ → String → (Option String → Program A) → Program A
  ask_ttl : ℕ → String → (ℕ → Program A) → Program A
  ask_token : String → (Option Owner → Program A) → Program A
  scan : ℕ → (List SessionKey → Program A) → Program A
  pipeline : List Write → Program A → Program A
  find_email : String → (Option User → Program A) → Program A
  find_id : ℕ → (Option User → Program A) → Program A
  clock : (ℕ → Program A) → Program A

-- The last two commands of both pipelines.
abbrev pub storing : ℕ → String → ℕ → String → List Write
storing expire token user_id device =
    set_session (user_id, device) expire token ∷ set_token token expire (live user_id device) ∷ []

-- `if existing_token: pipe.delete(...)`
abbrev pub creation : ℕ → String → ℕ → String → Option String → List Write
creation expire token user_id device none = storing expire token user_id device
creation expire token user_id device (some existing) =
    delete_token existing ∷ storing expire token user_id device

abbrev pub rotation : ℕ → String → ℕ → String → Option String → ℕ → List Write
rotation expire token user_id device none tombstone_ttl = storing expire token user_id device
rotation expire token user_id device (some existing) tombstone_ttl =
    set_token existing tombstone_ttl (revoked user_id device) ∷ storing expire token user_id device

abbrev pub revocation : ℕ → String → String → ℕ → List Write
revocation user_id device stored remaining_ttl =
    delete_session (user_id, device)
    ∷ (if ltb 0 remaining_ttl
        then set_token stored remaining_ttl (revoked user_id device)
        else delete_token stored)
    ∷ []

module _ {A : Type 0} where
  abbrev pub create_commands : ℕ → String → ℕ → String → Program A → Program A
  create_commands expire token user_id device rest =
      ask_session user_id device
        (λ existing. pipeline (creation expire token user_id device existing) rest)

  abbrev pub rotate_commands : ℕ → String → ℕ → String → Program A → Program A
  rotate_commands expire token user_id device rest = ask_session user_id device (λ existing.
      ask_ttl user_id device (λ remaining.
        let tombstone_ttl = if ltb 0 remaining then remaining else expire in
        pipeline (rotation expire token user_id device existing tombstone_ttl) rest))

  abbrev pub revoke_stored : ℕ → String → Program A → Option String → Program A
  revoke_stored user_id device rest none = rest
  revoke_stored user_id device rest (some stored) =
      ask_ttl user_id device
        (λ remaining. pipeline (revocation user_id device stored remaining) rest)

  abbrev pub revoke_commands : ℕ → String → Program A → Program A
  revoke_commands user_id device rest =
      ask_session user_id device (revoke_stored user_id device rest)

  -- `redis.get(key)` for each key of the scan.
  abbrev pub collect : List SessionKey → (List String → Program A) → Program A
  collect [] rest = rest []
  collect ((i, d) ∷ keys) rest =
      ask_session i d (λ value.
        collect keys (λ tokens. rest (elim value [ none ↦ tokens | some t ↦ t ∷ tokens ])))

  abbrev pub clear : List SessionKey → Program A → Program A
  clear [] rest = rest
  clear (key ∷ keys) rest =
      collect (key ∷ keys)
        (λ tokens. pipeline (map delete_session (key ∷ keys) ++ map delete_token tokens) rest)

  abbrev pub revoke_all_commands : ℕ → Program A → Program A
  revoke_all_commands user_id rest = scan user_id (λ keys. clear keys rest)

  abbrev pub verify_commands : ℕ → String → String → (Bool → Program A) → Program A
  verify_commands user_id token device rest =
      ask_session user_id device
        (λ stored. rest (elim stored [ none ↦ false | some t ↦ str_eq t token ]))

-- Every session of the user is closed, then the request is refused.
abbrev pub close_commands : {A : Type 0} → ℕ → Program (Result HttpError A)
close_commands user_id = revoke_all_commands user_id (answer (err (plain_error 401)))

module _ (libraries : Libraries) (settings : Settings) where
  abbrev pub issue_commands :
      String → ℕ → String → Option User → Program (Result HttpError TokenResponse)
  issue_commands token user_id device none = answer (err (plain_error 401))
  issue_commands token user_id device (some user) =
      if not user.is_active
      then answer (err (plain_error 401))
      else clock (λ now. rotate_commands (seconds settings) token user_id device (
          answer (
            ok (record {
              access_token = create_access_token libraries settings now user;
              refresh_token = token;
            }))))

  abbrev pub refresh_found :
      String → String → Option Owner → Program (Result HttpError TokenResponse)
  refresh_found shown token none = answer (err (plain_error 401))
  refresh_found shown token (some (revoked user_id device)) = close_commands user_id
  refresh_found shown token (some (live user_id device)) =
      verify_commands user_id shown device (λ is_valid.
        if is_valid
        then find_id user_id (issue_commands token user_id device)
        else close_commands user_id)

  unfoldable pub refresh_commands :
      RefreshRequest → String → Program (Result HttpError TokenResponse)
  refresh_commands body token =
      ask_token body.refresh_token (refresh_found body.refresh_token token)

  abbrev pub login_found :
      LoginRequest → String → Option User → Program (Result HttpError TokenResponse)
  login_found body token none = answer (err (plain_error 401))
  login_found body token (some user) =
      if not (libraries.verify body.password user.hashed_password)
      then answer (err (plain_error 401))
      else if not user.is_active
      then answer (err (plain_error 403))
      else clock (λ now. create_commands (seconds settings) token user.id body.device (
          answer (
            ok (record {
              access_token = create_access_token libraries settings now user;
              refresh_token = token;
            }))))

  unfoldable pub login_commands : LoginRequest → String → Program (Result HttpError TokenResponse)
  login_commands body token = find_email body.email (login_found body token)

module _ (libraries : Libraries) where
  abbrev pub logout_found : ℕ → Option Owner → Program (Result HttpError (Unit {0}))
  logout_found user_id none = answer (ok tt)
  logout_found user_id (some (revoked owner device)) = answer (ok tt)
  logout_found user_id (some (live owner device)) =
      if not (owner == user_id)
      then answer (err (plain_error 403))
      else revoke_commands user_id device (answer (ok tt))

  unfoldable pub logout_commands : LogoutRequest → String → Program (Result HttpError (Unit {0}))
  logout_commands body access_token = clock (λ now.
      elim (subject libraries (libraries.decode now access_token)) [
        | none ↦ answer (err (plain_error 401))
        | some user_id ↦ ask_token body.refresh_token (logout_found user_id)
      ])
