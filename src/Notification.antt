-- ===== src/Notification.antt =====
-- notification-service: the handler of order.completed messages
-- (services/notification-service/app/services/notification_service.py, schemas.py) and its connection
-- to NATS (main.py, nats_client.py). Decoding a message is json's and reading a field as an integer is
-- pydantic's, both arguments; what a send draws is an argument. Log lines are left out.
pub mod Laws
use micro_mart.Shared.{
  ℕ, suc, ◌+◌, String, Bool, true, false, ◌&&◌, not, Option, none, some, List, [], ◌∷◌, ltb, Result,
  ok, err, Action, ◌>>=◌, ◌>>◌, pure, throw, modify, throw_if, if◌then◌else◌,
}
use micro_mart.Shared.Int.{ℤ, pos, ltb_ℤ}

pub record OrderCompletedEvent : Type 0 where
  pub order_id : ℤ
  pub user_id : ℤ
  pub total_amount : ℤ
  pub payment_id : ℤ

pub data Reason : Type 0 where
  invalid_json invalid_payload simulated_send_failure unexpected_error : Reason

-- The counters and how often each histogram has recorded.
pub record Metrics : Type 0 where
  pub consumed : ℕ
  pub success : ℕ
  pub failed : List Reason
  pub processing_latency : ℕ
  pub send_latency : ℕ

-- The rate and `random.random()` are in the same small units of 1.
pub record Settings : Type 0 where
  pub notification_send_delay_ms : ℕ
  pub notification_failure_rate : ℕ

-- What a send draws, and whether its sleep raises.
pub record Draw : Type 0 where
  pub sleep_raises : Bool
  pub random : ℕ

-- NotificationSendError with its reason, or any other exception.
pub data SendError : Type 0 where
  send_error : Reason → SendError
  other : SendError

abbrev pub record_failure : Reason → Metrics → Metrics
record_failure reason m = record m { failed = reason ∷ m.failed }

abbrev pub record_processing_latency : Metrics → Metrics
record_processing_latency m = record m { processing_latency = suc m.processing_latency }

abbrev pub record_send_latency : Metrics → Metrics
record_send_latency m = record m { send_latency = suc m.send_latency }

abbrev pub fails : Settings → Draw → Bool
fails settings draw =
    ltb 0 settings.notification_failure_rate && ltb draw.random settings.notification_failure_rate

unfoldable pub simulate_notification_send :
    Settings → Draw → OrderCompletedEvent → Action Metrics SendError (Unit {0})
simulate_notification_send settings draw event = do
  throw_if (ltb 0 settings.notification_send_delay_ms && draw.sleep_raises) other
  modify record_send_latency
  throw_if (fails settings draw) (send_error Reason.simulated_send_failure)

-- A field that must be above, or not below, 0.
abbrev pub is_positive : Option ℤ → Option ℤ
is_positive none = none
is_positive (some n) = if ltb_ℤ (pos 0) n then some n else none

abbrev pub is_not_negative : Option ℤ → Option ℤ
is_not_negative none = none
is_not_negative (some n) = if ltb_ℤ n (pos 0) then none else some n

module _ {B J : Type 0} (loads : B → Option J) (read_int : String → J → Option ℤ) where
  -- `OrderCompletedEvent.model_validate`, none for a ValidationError.
  unfoldable pub model_validate : J → Option OrderCompletedEvent
  model_validate payload = elim (is_positive (read_int "order_id" payload)) [
    | none ↦ none
    | some order_id ↦ elim (is_positive (read_int "user_id" payload)) [
      | none ↦ none
      | some user_id ↦ elim (is_not_negative (read_int "total_amount" payload)) [
        | none ↦ none
        | some total_amount ↦ elim (is_positive (read_int "payment_id" payload)) [
          | none ↦ none
          | some payment_id ↦ some (record {
            order_id = order_id;
            user_id = user_id;
            total_amount = total_amount;
            payment_id = payment_id;
          })
        ]
      ]
    ]
  ]

  abbrev pub after_send : Result SendError (Unit {0}) × Metrics → Metrics
  after_send (ok u, m) = record m { success = suc m.success }
  after_send (err (send_error reason), m) = record_failure reason m
  after_send (err other, m) = record_failure Reason.unexpected_error m

  unfoldable pub handle_order_completed_message : Settings → Draw → B → Metrics → Metrics
  handle_order_completed_message settings draw raw_data m =
      let m' : Metrics = record m { consumed = suc m.consumed } in
      elim (loads raw_data) [
        | none ↦ record_processing_latency (record_failure Reason.invalid_json m')
        | some payload ↦ elim (model_validate payload) [
          | none ↦ record_processing_latency (record_failure Reason.invalid_payload m')
          | some event ↦
              record_processing_latency
                (after_send (simulate_notification_send settings draw event m'))
        ]
      ]

-- The client that nats_client.py holds, and what the start and the end of the service make of it.
pub record Client : Type 0 where
  pub is_closed : Bool

-- What connecting gives, none if it raises; whether subscribing and closing raise.
pub record Attempt : Type 0 where
  pub connection : Option Client
  pub subscribe_raises : Bool
  pub close_raises : Bool

unfoldable pub startup : Attempt → Option Client → Option Client
startup a client = elim a.connection [
  | none ↦ none
  | some nc ↦
      if not a.subscribe_raises
      then some nc
      else if nc.is_closed
      then none
      else if a.close_raises
      then some nc
      else none
]

unfoldable pub shutdown : Bool → Option Client → Option Client
shutdown close_raises none = none
shutdown close_raises (some nc) =
    if nc.is_closed then none else if close_raises then some nc else none

-- `nats_connected` of `health_check`
abbrev pub nats_connected : Option Client → Bool
nats_connected none = false
nats_connected (some nc) = not nc.is_closed
