-- ===== src/User/Concurrent/Steps.antt =====
-- Requests of user-service that run at once, their commands in any order
-- (services/user-service/app/services/auth_service.py, auth.py).
use micro_mart.Shared.{
  ℕ, ◌+◌, ◌≡◌, ◌≢◌, String, Option, none, some, List, [], ◌∷◌, Bool, true, ◌==◌, ◌&&◌,
  if◌then◌else◌, Result,
}
use micro_mart.Shared.Http.{HttpError}
use micro_mart.Shared.Timed.{ttl}
use micro_mart.User.Table.{
  User, UserDb, LoginRequest, LogoutRequest, RefreshRequest, TokenResponse, Libraries,
  get_user_by_email, get_user_by_id,
}
use micro_mart.User.Tokens.{SessionKey, session_eq, Owner, Redis, get_session, get_token}
use micro_mart.User.Service.{Settings, World}
use micro_mart.User.Concurrent.Commands.{
  Write, execute, Program, ask_session, ask_ttl, ask_token, scan, pipeline, find_email, find_id,
  clock, login_commands, refresh_commands, logout_commands,
}

-- All the keys are of the user.
abbrev pub are_of : ℕ → List SessionKey → Bool
are_of i [] = true
are_of i (key ∷ keys) = key.0 == i && are_of i keys

-- The first command of a program, its answer and what it leaves in Redis. A scan that others write
-- in between may miss keys or give ones that are gone, so it gives any keys of the user.
pub data Move {A : Type 0} (w : World) : Program A → Program A → Redis → Type 0 where
  got_session :
      (i : ℕ) (d : String) (k : Option String → Program A)
      → Move w (ask_session i d k) (k (get_session w.now i d w.redis)) w.redis
  got_ttl :
      (i : ℕ) (d : String) (k : ℕ → Program A)
      → Move w (ask_ttl i d k) (k (ttl session_eq w.now (i, d) w.redis.sessions)) w.redis
  got_token :
      (t : String) (k : Option Owner → Program A)
      → Move w (ask_token t k) (k (get_token w.now t w.redis)) w.redis
  scanned :
      (i : ℕ) (k : List SessionKey → Program A) (keys : List SessionKey)
      → are_of i keys ≡ true
      → Move w (scan i k) (k keys) w.redis
  ran : (ws : List Write) (p : Program A) → Move w (pipeline ws p) p (execute w.now ws w.redis)
  found_email :
      (e : String) (k : Option User → Program A)
      → Move w (find_email e k) (k (get_user_by_email e w.db.users)) w.redis
  found_id :
      (i : ℕ) (k : Option User → Program A)
      → Move w (find_id i k) (k (get_user_by_id i w.db.users)) w.redis
  read_clock : (k : ℕ → Program A) → Move w (clock k) (k w.now) w.redis

pub data Request : Type 0 where
  login : LoginRequest → String → Request
  refresh : RefreshRequest → String → Request
  logout : LogoutRequest → String → Request

-- What a request is at.
pub data Thread : Type 0 where
  idle : Thread
  issuing : Program (Result HttpError TokenResponse) → Thread
  leaving : Program (Result HttpError (Unit {0})) → Thread

abbrev pub drawn : Request → Option String
drawn (login body token) = some token
drawn (refresh body token) = some token
drawn (logout body access_token) = none

abbrev pub started : Libraries → Settings → Request → Thread
started libraries settings (login body token) =
    issuing (login_commands libraries settings body token)
started libraries settings (refresh body token) =
    issuing (refresh_commands libraries settings body token)
started libraries settings (logout body access_token) =
    leaving (logout_commands libraries body access_token)

pub record System : Type 0 where
  pub world : World
  pub threads : ℕ → Thread

abbrev pub update : ℕ → Thread → (ℕ → Thread) → ℕ → Thread
update n p threads m = if n == m then p else threads m

-- One step, in which no request begins that draws the token `t`. Time passes, and registrations and
-- whoever else writes the table change the accounts.
pub data Step (libraries : Libraries) (settings : Settings) (t : String) (s : System)
    : System → Type 0 where
  begin :
      (n : ℕ) (q : Request)
      → s.threads n ≡ idle
      → drawn q ≢ some t
      → Step libraries settings t s
          (record s { threads = update n (started libraries settings q) s.threads })
  issue :
      (n : ℕ) {p q : Program (Result HttpError TokenResponse)} {r : Redis}
      → s.threads n ≡ issuing p
      → Move s.world p q r
      → Step libraries settings t s (record {
        world = record s.world { redis = r };
        threads = update n (issuing q) s.threads;
      })
  leave :
      (n : ℕ) {p q : Program (Result HttpError (Unit {0}))} {r : Redis}
      → s.threads n ≡ leaving p
      → Move s.world p q r
      → Step libraries settings t s (record {
        world = record s.world { redis = r };
        threads = update n (leaving q) s.threads;
      })
  pass :
      (seconds : ℕ)
      → Step libraries settings t s
          (record s { world = record s.world { now = s.world.now + seconds } })
  settle :
      (db : UserDb) → Step libraries settings t s (record s { world = record s.world { db = db } })

pub data Reach (libraries : Libraries) (settings : Settings) (t : String) (s : System)
    : System → Type 0 where
  here : Reach libraries settings t s s
  later :
      {u v : System}
      → Reach libraries settings t s u
      → Step libraries settings t u v
      → Reach libraries settings t s v
