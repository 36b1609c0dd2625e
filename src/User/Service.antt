-- ===== src/User/Service.antt =====
-- The handlers of user-service (services/user-service/app/services/auth_service.py) and the session
-- of routes/auth.py. What a handler draws (a salt, a token) is an argument; metrics and log lines
-- are left out.
use micro_mart.Shared.{
  ℕ, suc, ◌+◌, ◌*◌, String, Bool, true, false, not, Option, none, some, List, [], ◌∷◌, ◌++◌, ◌==◌,
  ok, err, Action, ◌>>=◌, ◌>>◌, pure, throw, throw_if, or_throw, gets, modify, if◌then◌else◌,
}
use micro_mart.Shared.Decimal.{str, int}
use micro_mart.Shared.Http.{HttpError, plain_error}
use micro_mart.Shared.Session.{Session, commit, rollback, in_session}
use micro_mart.User.Table.{
  User, UserDb, RegisterRequest, LoginRequest, LogoutRequest, RefreshRequest, TokenResponse,
  Registered, Claims, Libraries, get_user_by_email, get_user_by_id,
}
use micro_mart.User.Tokens.{
  Redis, missing, reused, owned, expire_seconds, create_refresh_token, rotate_refresh_token,
  verify_refresh_token, revoke_refresh_token, revoke_all_refresh_tokens,
  get_user_id_from_refresh_token,
}

pub record Settings : Type 0 where
  pub access_token_expire_minutes : ℕ
  pub refresh_token_expire_days : ℕ

abbrev pub seconds : Settings → ℕ
seconds settings = expire_seconds settings.refresh_token_expire_days

-- The database, Redis and the clock.
pub record World : Type 0 where
  pub db : UserDb
  pub redis : Redis
  pub now : ℕ

abbrev pub is_found : Option User → Bool
is_found none = false
is_found (some u) = true

abbrev pub update_redis : {E : Type 0} → (ℕ → Redis → Redis) → Action World E (Unit {0})
update_redis f = modify (λ w. record w { redis = f w.now w.redis })

-- Every session of the user is closed.
unfoldable pub close_sessions : {A : Type 0} → ℕ → Action World HttpError A
close_sessions user_id = do
  update_redis (λ now. revoke_all_refresh_tokens now user_id)
  throw (plain_error 401)

-- The checks of a token: its owner, and that it is the one that the owner's session holds.
unfoldable pub check_token : RefreshRequest → Action World HttpError (ℕ × String)
check_token body = do
  found ← gets (λ w. get_user_id_from_refresh_token w.now body.refresh_token w.redis)
  elim found [
    | reused user_id ↦ close_sessions user_id
    | missing ↦ throw (plain_error 401)
    | owned user_id device ↦ do
      is_valid ← gets (λ w. verify_refresh_token w.now user_id body.refresh_token device w.redis)
      if is_valid then pure (user_id, device) else close_sessions user_id
  ]

abbrev pub is_user_active : Option User → Bool
is_user_active none = false
is_user_active (some u) = u.is_active

unfoldable pub check_email : RegisterRequest → Action (Session UserDb) HttpError (Unit {0})
check_email body s = (
  if is_found (get_user_by_email body.email s.working.users) then err (plain_error 409) else ok tt,
  s,
)

module _ (libraries : Libraries) where
  abbrev pub password_fits : String → Option User → Bool
  password_fits password none = false
  password_fits password (some u) = libraries.verify password u.hashed_password

  -- The row that is added; the columns that are not given have the defaults of the model.
  abbrev pub new_user : RegisterRequest → ℕ → ℕ → User
  new_user body salt id = record {
    id = id;
    email = body.email;
    hashed_password = libraries.hash salt body.password;
    role = "customer";
    token_version = 0;
    is_active = true;
  }

  -- `db.add`, `db.flush` with the UNIQUE constraint on `email`, `db.commit`.
  unfoldable pub insert_user : RegisterRequest → ℕ → Action (Session UserDb) HttpError Registered
  insert_user body salt s =
      if is_found (get_user_by_email body.email s.working.users)
      then (err (plain_error 409), rollback s)
      else (
        ok (record { user_id = s.working.next_user; email = body.email }),
        commit (record s {
          working = record {
            users = s.working.users ++ new_user body salt s.working.next_user ∷ [];
            next_user = suc s.working.next_user;
          };
        }),
      )

  unfoldable pub register_service :
      RegisterRequest → ℕ → Action (Session UserDb) HttpError Registered
  register_service body salt = do check_email body; insert_user body salt

  -- `int(payload["sub"])`, none for a JWTError, a KeyError and a ValueError.
  abbrev pub subject : Option Claims → Option ℕ
  subject none = none
  subject (some c) = elim c.sub [ none ↦ none | some sub ↦ int sub ]

  unfoldable pub logout_service : LogoutRequest → String → Action World HttpError (Unit {0})
  logout_service body access_token = do
    named ← gets (λ w. subject (libraries.decode w.now access_token))
    user_id ← or_throw named (plain_error 401)
    found ← gets (λ w. get_user_id_from_refresh_token w.now body.refresh_token w.redis)
    elim found [
      | reused owner ↦ pure tt
      | missing ↦ pure tt
      | owned owner device ↦ do
        throw_if (not (owner == user_id)) (plain_error 403)
        update_redis (λ now. revoke_refresh_token now user_id device)
    ]

module _ (libraries : Libraries) (settings : Settings) where
  abbrev pub claims_of : ℕ → User → Claims
  claims_of now user = record {
    sub = some (str user.id);
    role = some user.role;
    token_version = user.token_version;
    iat = now;
    exp = now + settings.access_token_expire_minutes * 60;
  }

  unfoldable pub create_access_token : ℕ → User → String
  create_access_token now user = libraries.encode (claims_of now user)

  unfoldable pub login_service : LoginRequest → String → Action World HttpError TokenResponse
  login_service body token = do
    found ← gets (λ w. get_user_by_email body.email w.db.users)
    throw_if (not (password_fits libraries body.password found)) (plain_error 401)
    user ← or_throw found (plain_error 401)
    throw_if (not user.is_active) (plain_error 403)
    access ← gets (λ w. create_access_token w.now user)
    update_redis (λ now. create_refresh_token (seconds settings) now token user.id body.device)
    pure (record { access_token = access; refresh_token = token })

  -- What follows the checks of the token.
  unfoldable pub issue_tokens : String → ℕ → String → Action World HttpError TokenResponse
  issue_tokens token user_id device = do
    found ← gets (λ w. get_user_by_id user_id w.db.users)
    throw_if (not (is_user_active found)) (plain_error 401)
    user ← or_throw found (plain_error 401)
    access ← gets (λ w. create_access_token w.now user)
    update_redis (λ now. rotate_refresh_token (seconds settings) now token user_id device)
    pure (record { access_token = access; refresh_token = token })

  unfoldable pub refresh_service : RefreshRequest → String → Action World HttpError TokenResponse
  refresh_service body token = do owner ← check_token body; issue_tokens token owner.0 owner.1

-- One event of the service's life, with what it draws.
pub data Event : Type 0 where
  register : RegisterRequest → ℕ → Event
  login : LoginRequest → String → Event
  refresh : RefreshRequest → String → Event
  logout : LogoutRequest → String → Event
  wait : ℕ → Event

module _ (libraries : Libraries) (settings : Settings) where
  unfoldable pub handle : Event → World → World
  handle (register body salt) w = record w {
    db = (in_session (register_service libraries body salt) w.db).1;
  }
  handle (login body token) w = (login_service libraries settings body token w).1
  handle (refresh body token) w = (refresh_service libraries settings body token w).1
  handle (logout body access_token) w = (logout_service libraries body access_token w).1
  handle (wait n) w = record w { now = w.now + n }

  unfoldable pub run : List Event → World → World
  run [] w = w
  run (e ∷ es) w = run es (handle e w)
