-- ===== src/Notification/Laws.antt =====
-- The handler of order.completed messages, and what order-service publishes.
use micro_mart.Shared.{
  ℕ, suc, ◌≡◌, ◌<◌, ◌⊎◌, inl, inr, String, true, false, ◌&&◌, ◌||◌, Option, none, some, List, [],
  ◌∷◌, ◌++◌, ltb, if◌then◌else◌, arith, Option-cases, Bool-cases,
}
use micro_mart.Shared.Int.{ℤ, pos, ltb_ℤ}
use micro_mart.Order.Table.{Order}
use micro_mart.Order.Clients.{World, OrderCompleted, Nats}
use micro_mart.Order.Saga.{publish_order_completed}
use micro_mart.Notification.{
  Reason, Metrics, Settings, Draw, simulate_notification_send, model_validate,
  handle_order_completed_message, fails, Attempt, Client, startup, nats_connected,
}

-- What one message adds to the counters.
pub data Report : Type 0 where
  sent : Report
  failed : Reason → Report

abbrev pub report : Report → Metrics → ℕ × List Reason
report sent m = (suc m.success, m.failed)
report (failed reason) m = (m.success, reason ∷ m.failed)

-- What a send comes to.
abbrev pub send_report : Settings → Draw → Report
send_report settings draw =
    if ltb 0 settings.notification_send_delay_ms && draw.sleep_raises
    then failed Reason.unexpected_error
    else if fails settings draw
    then failed Reason.simulated_send_failure
    else sent

-- What a message comes to.
module _ {B J : Type 0} (loads : B → Option J) (read_int : String → J → Option ℤ) where
  abbrev pub expected : Settings → Draw → B → Report
  expected settings draw raw_data = elim (loads raw_data) [
    | none ↦ failed Reason.invalid_json
    | some payload ↦ elim (model_validate loads read_int payload) [
      | none ↦ failed Reason.invalid_payload
      | some event ↦ send_report settings draw
    ]
  ]

  -- Every message is counted once as consumed and its processing is measured once, and it is counted
  -- once as a success or once as a failure with its reason: a message that does not decode, one that
  -- is no event, an exception of the send, a simulated failure, in this order.
  pub handle_order_completed_message_counted :
      (settings : Settings) (draw : Draw) (raw_data : B) (m : Metrics)
      → let m' = handle_order_completed_message loads read_int settings draw raw_data m in
        ((m'.success, m'.failed) ≡ report (expected settings draw raw_data) m)
        × ((m'.consumed ≡ suc m.consumed) × (m'.processing_latency ≡ suc m.processing_latency))
  unfolding handle_order_completed_message simulate_notification_send
  handle_order_completed_message_counted settings draw raw_data m =
      elim (Option-cases (loads raw_data)) [
        | inl e ↦ (ground arith, (ground arith, ground arith))
        | inr (payload, e) ↦ elim (Option-cases (model_validate loads read_int payload)) [
          | inl f ↦ (ground arith, (ground arith, ground arith))
          | inr (event, f) ↦ (ground arith, (ground arith, ground arith))
        ]
      ]

-- What json and pydantic document of an event that is written as JSON and read again.
pub record Wire {B J : Type 0} (loads : B → Option J) (read_int : String → J → Option ℤ)
    (dumps : OrderCompleted → B) : Type 0 where
  pub json : OrderCompleted → J
  pub decodes : (e : OrderCompleted) → loads (dumps e) ≡ some (json e)
  pub order_id : (e : OrderCompleted) → read_int "order_id" (json e) ≡ some (pos e.order_id)
  pub user_id : (e : OrderCompleted) → read_int "user_id" (json e) ≡ some e.user_id
  pub total_amount :
      (e : OrderCompleted) → read_int "total_amount" (json e) ≡ some (pos e.total_amount)
  pub payment_id :
      (e : OrderCompleted) (n : ℕ)
      → e.payment_id ≡ some n
      → read_int "payment_id" (json e) ≡ some (pos n)

abbrev pub event_of : Order → OrderCompleted
event_of o = record {
  order_id = o.id;
  user_id = o.user_id;
  total_amount = o.total_amount;
  payment_id = o.payment_id;
}

module _ {B J : Type 0} (loads : B → Option J) (read_int : String → J → Option ℤ)
    (dumps : OrderCompleted → B) (wire : Wire loads read_int dumps) where
  model_validate-event_of :
      (o : Order) (p : ℕ)
      → 0 < o.id
      → ltb_ℤ (pos 0) o.user_id ≡ true
      → o.payment_id ≡ some p
      → 0 < p
      → model_validate loads read_int (wire.json (event_of o))
        ≡ some (record {
          order_id = pos o.id;
          user_id = o.user_id;
          total_amount = pos o.total_amount;
          payment_id = pos p;
        })
  unfolding model_validate
  model_validate-event_of o p a b e c =
      let order = event_of o in
      ground (
        arith,
        wire.order_id order,
        wire.user_id order,
        wire.total_amount order,
        wire.payment_id order p e,
      )

  -- What order-service publishes for a paid order, over an open connection that takes it, is one event
  -- that notification-service finds valid: the message is counted as a success, or as a failure of the
  -- send alone.
  pub publish_order_completed_handled :
      {S : Type 0} (o : Order) (p : ℕ) (w : World S) (settings : Settings) (draw : Draw)
      (m : Metrics) (nats : Nats)
      → w.nats ≡ some nats
      → (nats.is_closed || nats.raises) ≡ false
      → 0 < o.id
      → ltb_ℤ (pos 0) o.user_id ≡ true
      → o.payment_id ≡ some p
      → 0 < p
      → ((publish_order_completed o w).1.published ≡ w.published ++ event_of o ∷ [])
        × (let m' =
              handle_order_completed_message loads read_int settings draw (dumps (event_of o)) m in
            (m'.success, m'.failed) ≡ report (send_report settings draw) m)
  unfolding publish_order_completed
  publish_order_completed_handled o p w settings draw m nats there free a b e c =
      let order = event_of o in
      let (counted, rest) =
        handle_order_completed_message_counted loads read_int settings draw (dumps order) m in
      (
        ground arith,
        ground (arith, counted, wire.decodes order, model_validate-event_of o p a b e c),
      )

-- After a start that reports the service as connected, it has subscribed, or closing has failed.
pub startup-nats_connected :
    (a : Attempt) (client : Option Client)
    → nats_connected (startup a client) ≡ true
    → (a.subscribe_raises ≡ false) ⊎ (a.close_raises ≡ true)
unfolding startup
startup-nats_connected a client e = elim (Option-cases a.connection) [
  | inl f ↦ absurd (ground arith)
  | inr (nc, f) ↦ elim (Bool-cases a.subscribe_raises) [
    | inr g ↦ inl g
    | inl g ↦ elim (Bool-cases a.close_raises) [ inl h ↦ inr h | inr h ↦ absurd (ground arith) ]
  ]
]
