-- ===== src/Telemetry.antt =====
-- What all services share of logging and telemetry (shared/telemetry/middleware.py, custom_logging.py,
-- setup.py, config.py). OpenTelemetry and structlog are what is registered with them, in order; times
-- are left out.
pub mod Laws
use micro_mart.Shared.{
  ℕ, String, str_eq, Bool, not, Option, none, some, List, [], ◌∷◌, ◌++◌, ◌||◌, leb, Result, ok, err,
  Action, if◌then◌else◌,
}
use micro_mart.Shared.Texts.{Text, codes, same}

-- `logger.exception` logs at the level of errors, with the traceback.
pub data Level : Type 0 where
  info warning error exception : Level

pub data Event : Type 0 where
  received : Text → Event
  failed : Event
  completed : ℕ → Event

-- A log entry: its level and event, with the method and path of the request.
pub record Entry : Type 0 where
  pub level : Level
  pub event : Event
  pub method : Text
  pub path : Text

pub record Request : Type 0 where
  pub method : Text
  pub path : Text
  pub client_host : Option Text

abbrev pub client_ip : Option Text → Text
client_ip none = codes "unknown"
client_ip (some host) = host

abbrev pub is_noisy : Text → Bool
is_noisy path = same path (codes "/health")

abbrev pub log_level : ℕ → Level
log_level status_code =
    if leb 500 status_code
    then Level.error
    else if leb 400 status_code
    then Level.warning
    else Level.info

abbrev pub entry : Request → Level → Event → Entry
entry request level event = record {
  level = level;
  event = event;
  method = request.method;
  path = request.path;
}

-- `status` is `response.status_code`. The log is kept beside the state of what follows.
module _ {W E A : Type 0} (status : A → ℕ) where
  abbrev pub after_call : Request → List Entry → Result E A × W → Result E A × (W × List Entry)
  after_call request log (ok response, w) = (
    ok response,
    (
      w,
      log ++ entry request (log_level (status response)) (Event.completed (status response)) ∷ [],
    ),
  )
  after_call request log (err e, w) =
      (err e, (w, log ++ entry request Level.exception Event.failed ∷ []))

  -- `RequestLoggingMiddleware.dispatch`
  unfoldable pub dispatch : Request → Action W E A → Action (W × List Entry) E A
  dispatch request call_next (w, log) =
      if is_noisy request.path
      then (let (r, w') = call_next w in (r, (w', log)))
      else after_call request
          (log ++ entry request Level.info (Event.received (client_ip request.client_host)) ∷ [])
          (call_next w)

-- The processors of structlog, in their order.
pub data Processor : Type 0 where
  add_log_level time_stamper merge_contextvars stack_info_renderer format_exc_info : Processor
  dict_tracebacks json_renderer console_renderer : Processor

pub data LoggingError : Type 0 where
  value_error : LoggingError

-- What structlog is configured with, and the service that is bound to its context.
pub record Logging : Type 0 where
  pub processors : List Processor
  pub service : String

abbrev pub shared_processors : List Processor
shared_processors =
    add_log_level ∷ time_stamper ∷ merge_contextvars ∷ stack_info_renderer ∷ format_exc_info ∷ []

unfoldable pub init_logging : String → String → Result LoggingError Logging
init_logging service_name log_format =
    if not (str_eq log_format "pretty" || str_eq log_format "json")
    then err value_error
    else if str_eq log_format "json"
    then ok (record {
      processors = shared_processors ++ dict_tracebacks ∷ json_renderer ∷ [];
      service = service_name;
    })
    else ok
        (record { processors = shared_processors ++ console_renderer ∷ []; service = service_name })

pub record TelemetrySettings : Type 0 where
  pub otel_enabled : Bool
  pub otel_exporter_otlp_endpoint : String
  pub otel_exporter_otlp_insecure : Bool
  pub log_format : String
  pub service_version : String

-- The service and its version; where an exporter sends, and whether without TLS.
pub record Resource : Type 0 where
  pub service_name : String
  pub service_version : String

pub record Exporter : Type 0 where
  pub endpoint : String
  pub insecure : Bool

-- A step of the set-up. An application or an engine is named by the caller's own type.
pub data Setup (App Engine : Type 0) : Type 0 where
  set_tracer_provider set_meter_provider set_logger_provider :
      Resource → Exporter → Setup App Engine
  basic_config : Setup App Engine
  set_warning_level : String → Setup App Engine
  instrument_logging instrument_httpx : Setup App Engine
  instrument_app : App → Setup App Engine
  instrument_engine : Engine → Setup App Engine
  log_done : String → String → Setup App Engine

-- Without settings those of the environment are taken, the last argument.
abbrev pub settings_or : Option TelemetrySettings → TelemetrySettings → TelemetrySettings
settings_or none environment = environment
settings_or (some settings) environment = settings

module _ {App Engine : Type 0} where
  abbrev pub app_setup : Option App → List (Setup App Engine)
  app_setup none = []
  app_setup (some app) = instrument_app app ∷ []

  abbrev pub engine_setup : Option Engine → List (Setup App Engine)
  engine_setup none = []
  engine_setup (some engine) = instrument_engine engine ∷ []

  unfoldable pub init_telemetry :
      String
      → Option Engine
      → Option TelemetrySettings
      → Option App
      → TelemetrySettings
      → List (Setup App Engine)
  init_telemetry service_name db_engine given app environment =
      let settings = settings_or given environment in
      let resource : Resource = record {
        service_name = service_name;
        service_version = settings.service_version;
      } in
      let exporter : Exporter = record {
        endpoint = settings.otel_exporter_otlp_endpoint;
        insecure = settings.otel_exporter_otlp_insecure;
      } in
      if not settings.otel_enabled
      then []
      else set_tracer_provider resource exporter
          ∷ set_meter_provider resource exporter
          ∷ set_logger_provider resource exporter
          ∷ basic_config
          ∷ set_warning_level "httpx"
          ∷ set_warning_level "httpcore"
          ∷ instrument_logging
          ∷ app_setup app
        ++ instrument_httpx ∷ engine_setup db_engine
        ++ log_done service_name settings.otel_exporter_otlp_endpoint ∷ []
