-- ===== src/Startup.antt =====
-- How the services start and end: the NATS client of order-service
-- (services/order-service/app/main.py, nats_client.py), the options of an engine
-- (services/order-service/app/database.py), the keys of user-service
-- (services/user-service/app/config.py), and the URL of a migration
-- (services/order-service/alembic/env.py). Creating tables and disposing of an engine are counted.
use micro_mart.Shared.{
  ℕ, suc, ◌≡◌, refl, ◌≢◌, ◌⊎◌, inl, inr, String, str_eq, eq_iff, Bool, true, false, not, Option,
  none, some, ◌||◌, Result, ok, err, if◌then◌else◌, arith, Option-cases, Bool-cases, Result-cases,
}
use micro_mart.Shared.Texts.{Text, codes, starts_with}
use micro_mart.Order.Clients.{Nats}

-- The module variable of nats_client.py, and what was done to the database and the client.
pub record App : Type 0 where
  pub client : Option Nats
  pub tables_created : ℕ
  pub closes : ℕ
  pub disposed : ℕ

-- `nats_lib.connect` gives a client, or none if it raises.
unfoldable pub startup : Bool → Option Nats → App → App
startup debug connection app =
    let ready : App =
      if debug then record app { tables_created = suc app.tables_created } else app in
    record ready { client = connection }

-- `current_nc.close()` is tried on an open client; what it raises is logged only.
abbrev pub close_client : Option Nats → App → App
close_client none app = app
close_client (some nc) app = if nc.is_closed then app else record app { closes = suc app.closes }

unfoldable pub shutdown : App → App
shutdown app =
    let closed = close_client app.client app in
    record closed { client = none; disposed = suc closed.disposed }

-- `nats_connected` of `health_check`
abbrev pub nats_connected : App → Bool
nats_connected app = elim app.client [ none ↦ false | some nc ↦ not nc.is_closed ]

-- A start serves with the client that connecting gave, if it gave one, and is healthy without; an end
-- tries to close a client that is open by then, and leaves none.
pub startup-shutdown :
    (debug : Bool) (connection : Option Nats) (app : App)
    → let served = startup debug connection app in
      (served.client ≡ connection)
      × (nats_connected (shutdown served) ≡ false)
      × ((shutdown served).closes ≡ (if nats_connected served then suc app.closes else app.closes))
      × ((shutdown served).disposed ≡ suc app.disposed)
unfolding startup shutdown
startup-shutdown debug none app = elim (Bool-cases debug) [
  | inl e ↦ (refl, refl, ground arith, ground arith)
  | inr e ↦ (refl, refl, ground arith, ground arith)
]
startup-shutdown debug (some nc) app = elim (Bool-cases debug) [
  | inl e ↦ elim (Bool-cases nc.is_closed) [
    | inl f ↦ (refl, refl, ground arith, ground arith)
    | inr f ↦ (refl, refl, ground arith, ground arith)
  ]
  | inr e ↦ elim (Bool-cases nc.is_closed) [
    | inl f ↦ (refl, refl, ground arith, ground arith)
    | inr f ↦ (refl, refl, ground arith, ground arith)
  ]
]

pub record EngineOptions : Type 0 where
  pub echo : Bool
  pub pool_pre_ping : Bool
  pub pool : Option (ℕ × ℕ)

-- The pool is its `pool_size` and `max_overflow`.
unfoldable pub engine_options : Text → Bool → ℕ → ℕ → EngineOptions
engine_options database_url debug pool_size max_overflow = record {
  echo = debug;
  pool_pre_ping = true;
  pool =
      if not (starts_with database_url (codes "sqlite"))
      then some (pool_size, max_overflow)
      else none;
}

pub record KeySettings : Type 0 where
  pub jwt_private_key_file : String
  pub jwt_public_key_file : String
  pub jwt_private_key : String
  pub jwt_public_key : String

-- A file that cannot be read, or keys that are not set.
pub data KeyError : Type 0 where
  os_error value_error : KeyError

-- `if file: key = f.read()`
abbrev pub key_of : (String → Option String) → String → String → Result KeyError String
key_of read file key =
    if str_eq file ""
    then ok key
    else elim (read file) [ none ↦ err os_error | some content ↦ ok content ]

unfoldable pub load_jwt_keys : (String → Option String) → KeySettings → Result KeyError KeySettings
load_jwt_keys read s = elim (key_of read s.jwt_private_key_file s.jwt_private_key) [
  | err e ↦ err e
  | ok private_key ↦ elim (key_of read s.jwt_public_key_file s.jwt_public_key) [
    | err e ↦ err e
    | ok public_key ↦
        if str_eq private_key "" || str_eq public_key ""
        then err value_error
        else ok (record s { jwt_private_key = private_key; jwt_public_key = public_key })
  ]
]

-- Where a file is named, what it holds is the key, whatever key is given beside it.
abbrev pub IsKeyOf : (String → Option String) → String → String → String → Type 0
IsKeyOf read file given key =
    (key ≢ "") × (((file ≡ "") × (key ≡ given)) ⊎ ((file ≢ "") × (read file ≡ some key)))

key_of_sound :
    (read : String → Option String) (file given key : String)
    → key_of read file given ≡ ok key
    → ((file ≡ "") × (key ≡ given)) ⊎ ((file ≢ "") × (read file ≡ some key))
key_of_sound read file given key e = elim (Bool-cases (str_eq file "")) [
  | inl f ↦ inl ((eq_iff file "").0 f, ground arith)
  | inr f ↦ elim (Option-cases (read file)) [
    | inl g ↦ absurd (ground arith)
    | inr (content, g) ↦ inr (λ h. ground (arith, (eq_iff file "").1 h), ground arith)
  ]
]

-- Settings that are accepted have both keys.
pub load_jwt_keys_sound :
    (read : String → Option String) (s accepted : KeySettings)
    → load_jwt_keys read s ≡ ok accepted
    → IsKeyOf read s.jwt_private_key_file s.jwt_private_key accepted.jwt_private_key
      × IsKeyOf read s.jwt_public_key_file s.jwt_public_key accepted.jwt_public_key
unfolding load_jwt_keys
load_jwt_keys_sound read s accepted e =
    elim (Result-cases (key_of read s.jwt_private_key_file s.jwt_private_key)) [
      | inr (x, f) ↦ absurd (ground arith)
      | inl (private_key, f) ↦
          elim (Result-cases (key_of read s.jwt_public_key_file s.jwt_public_key)) [
            | inr (x, g) ↦ absurd (ground arith)
            | inl (public_key, g) ↦
                elim (Bool-cases (str_eq private_key "" || str_eq public_key "")) [
                  | inl h ↦ absurd (ground arith)
                  | inr h ↦
                      let same_1 : accepted.jwt_private_key ≡ private_key = ground arith in
                      let same_2 : accepted.jwt_public_key ≡ public_key = ground arith in
                      (
                        (
                          λ k. ground (arith, eq_iff private_key ""),
                          key_of_sound read s.jwt_private_key_file s.jwt_private_key
                              accepted.jwt_private_key (ground arith),
                        ),
                        (
                          λ k. ground (arith, eq_iff public_key ""),
                          key_of_sound read s.jwt_public_key_file s.jwt_public_key
                              accepted.jwt_public_key (ground arith),
                        ),
                      )
                ]
          ]
    ]

pub data UrlError : Type 0 where
  runtime_error : UrlError

-- `_database_url`, with `os.environ.get("DATABASE_URL")`
unfoldable pub database_url : Option String → Result UrlError String
database_url none = err runtime_error
database_url (some url) = if str_eq url "" then err runtime_error else ok url
