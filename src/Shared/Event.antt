-- ===== src/Shared/Event.antt =====
-- shared/events.py, and the payloads that the services put into the envelope.
use food_flow.Prelude.{ℕ, String, Option, none, List}
use food_flow.Prelude.Int.{ℤ}
use food_flow.Shared.Uuid.{Uuid, IdText, str}
use food_flow.Shared.Error.{Reason}

-- Event names, which are topic names too.
pub data EventType : Type 0 where
  order_placed stock_reserved stock_rejected stock_release : EventType
  payment_succeeded payment_failed : EventType
  unknown : String → EventType

-- A Python float, by its 64 bits. The services only hand floats on.
abbrev pub Float : Type 0
Float = ℕ

-- One element of `items`, {"item_id", "quantity", "price"}.
pub record Item : Type 0 where
  pub item_id : IdText
  pub quantity : ℤ
  pub price : Float

-- The payload dict. A key that is absent is `none`; no event has other keys.
pub record Payload : Type 0 where
  pub order_id : Option IdText
  pub user_id : Option IdText
  pub restaurant_id : Option IdText
  pub items : Option (List Item)
  pub total_amount : Option Float
  pub payment_simulate : Option String
  pub reason : Option Reason

pub record Envelope : Type 0 where
  pub event_id : IdText
  pub event_type : EventType
  pub occurred_at : ℕ
  pub payload : Payload

-- What a handler draws from outside for one event: `uuid.uuid4()` and the wall clock in
-- `wrap_event`, `gen_random_uuid()` and `NOW()` in the INSERT that follows.
pub record Draw : Type 0 where
  pub event_uuid : Uuid
  pub row_uuid : Uuid
  pub clock : ℕ
  pub now : ℕ

unfoldable pub wrap_event : Draw → EventType → Payload → Envelope
wrap_event d event_type payload = record {
  event_id = str d.event_uuid;
  event_type = event_type;
  occurred_at = d.clock;
  payload = payload;
}

-- The payload {"order_id": order_id}.
abbrev pub order_only : IdText → Payload
order_only order_id = record {
  order_id = Option.some order_id;
  user_id = none;
  restaurant_id = none;
  items = none;
  total_amount = none;
  payment_simulate = none;
  reason = none;
}

-- A message as it is delivered once, with what its handler draws then.
abbrev pub Delivery : Type 0
Delivery = Draw × Envelope
