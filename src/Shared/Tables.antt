-- ===== src/Shared/Tables.antt =====
-- The two tables that the order, restaurant and payment databases each have: the transactional
-- outbox and the events that were processed (migrations/001_init.sql of each).
use food_flow.Prelude.{ℕ, Bool, false, ◌||◌, Option, none, List, [], ◌∷◌, ◌++◌, ◌==◌, if◌then◌else◌}
use food_flow.Shared.Uuid.{Uuid, IdText}
use food_flow.Shared.Error.{ok, err, unique_violation, outbox_events_pkey, processed_events_pkey}
use food_flow.Shared.Event.{EventType, Envelope, Draw}
use food_flow.Shared.Transaction.{Tx, Done}

-- A row of `outbox_events`; `published_at` is NULL until the relay has sent it.
pub record OutboxRow : Type 0 where
  pub id : Uuid
  pub topic : EventType
  pub key : Option IdText
  pub event : Envelope
  pub created_at : ℕ
  pub published_at : Option ℕ

pub record EventTables : Type 0 where
  pub outbox : List OutboxRow
  pub processed : List Uuid

-- SELECT 1 FROM processed_events WHERE event_id = $1
unfoldable pub is_in : Uuid → List Uuid → Bool
is_in u [] = false
is_in u (v ∷ vs) = v == u || is_in u vs

unfoldable pub has_row : Uuid → List OutboxRow → Bool
has_row u [] = false
has_row u (r ∷ rs) = r.id == u || has_row u rs

-- The row of INSERT INTO outbox_events (id, topic, key, payload, created_at)
-- VALUES (gen_random_uuid(), $1, $2, $3, NOW()).
abbrev pub new_row : Draw → EventType → IdText → Envelope → OutboxRow
new_row d topic key event = record {
  id = d.row_uuid;
  topic = topic;
  key = Option.some key;
  event = event;
  created_at = d.now;
  published_at = none;
}

-- The INSERT itself, which the primary key guards.
unfoldable pub insert_outbox : Draw → EventType → IdText → Envelope → Tx EventTables Done
insert_outbox d topic key event t =
    if has_row d.row_uuid t.outbox
    then (err (unique_violation outbox_events_pkey), t)
    else (ok tt, record t { outbox = t.outbox ++ new_row d topic key event ∷ [] })

-- INSERT INTO processed_events (event_id) VALUES ($1)
unfoldable pub insert_processed : Uuid → Tx EventTables Done
insert_processed u t =
    if is_in u t.processed
    then (err (unique_violation processed_events_pkey), t)
    else (ok tt, record t { processed = u ∷ t.processed })
