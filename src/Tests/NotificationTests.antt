-- ===== src/Tests/NotificationTests.antt =====
-- A paid order, published by order-service and handled by notification-service.
use micro_mart.Shared.{
  ℕ, ◌≡◌, refl, ap, String, str_eq, true, false, Option, none, some, List, [], ◌∷◌, arith,
  if◌then◌else◌,
}
use micro_mart.Shared.Session.{open_session}
use micro_mart.Shared.Int.{ℤ, pos}
use micro_mart.Order.Table.{Order, OrderStatus, SagaStatus}
use micro_mart.Order.Clients.{World, OrderCompleted, Nats}
use micro_mart.Order.Saga.{publish_order_completed}
use micro_mart.Notification.{Reason, Metrics, Settings, Draw, handle_order_completed_message}
use micro_mart.Notification.Laws.{Wire, event_of, publish_order_completed_handled}

-- A message is the event itself.
abbrev opt_pos : Option ℕ → Option ℤ
opt_pos none = none
opt_pos (some n) = some (pos n)

abbrev read_int : String → OrderCompleted → Option ℤ
read_int field e =
    if str_eq field "order_id"
    then some (pos e.order_id)
    else if str_eq field "user_id"
    then some e.user_id
    else if str_eq field "total_amount"
    then some (pos e.total_amount)
    else opt_pos e.payment_id

abbrev wire : Wire (λ e. some e) read_int (λ e. e)
wire = record {
  json = λ e. e;
  decodes = λ e. refl;
  order_id = λ e. refl;
  user_id = λ e. refl;
  total_amount = λ e. refl;
  payment_id = λ e n p. ap opt_pos p;
}

abbrev paid : Order
paid = record {
  id = 5;
  user_id = pos 1;
  status = OrderStatus.completed;
  total_amount = 3000;
  payment_id = some 8;
  failure_reason = none;
  saga_status = SagaStatus.completed;
  stock_deducted = true;
  created_at = 20;
}

abbrev open_nats : Nats
open_nats = record { is_closed = false; raises = false }

abbrev world : World ℕ
world = record {
  remote = 0;
  session = open_session (record { orders = []; items = []; next_order = 6; next_item = 1 });
  trace = [];
  nats = some open_nats;
  published = [];
  now = 20;
}

abbrev always : Settings
always = record { notification_send_delay_ms = 0; notification_failure_rate = 0 }

abbrev draw : Draw
draw = record { sleep_raises = false; random = 0 }

abbrev zeros : Metrics
zeros = record { consumed = 0; success = 0; failed = []; processing_latency = 0; send_latency = 0 }

publish_order_completed_handled_example :
    ((publish_order_completed paid world).1.published ≡ event_of paid ∷ [])
    × (let m' =
          handle_order_completed_message (λ e. some e) read_int always draw (event_of paid) zeros in
        ◌≡◌ {A = ℕ × List Reason} (m'.success, m'.failed) (1, []))
publish_order_completed_handled_example =
    publish_order_completed_handled (λ e. some e) read_int (λ e. e) wire paid 8 world always draw
      zeros open_nats refl refl (omega arith) refl refl (omega arith)

-- A message that does not decode.
garbage :
    handle_order_completed_message {B = ℕ} {J = OrderCompleted}
      (λ b. none)
      read_int
      always
      draw
      0
      zeros
    ≡ record {
      consumed = 1;
      success = 0;
      failed = Reason.invalid_json ∷ [];
      processing_latency = 1;
      send_latency = 0;
    }
unfolding handle_order_completed_message
garbage = refl
