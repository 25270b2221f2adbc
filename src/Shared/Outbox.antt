-- ===== src/Shared/Outbox.antt =====
-- shared/outbox.py: the relay that publishes the rows of `outbox_events`.
pub mod Relay
pub mod Passes
pub mod Delivery
pub mod Loop
pub mod Relays
use food_flow.Prelude.{
  ℕ, zero, suc, ◌+◌, ◌≡◌, Bool, true, false, ◌&&◌, Option, none, some, List, [], ◌∷◌, ◌++◌, leb,
  ltb, ◌==◌, if◌then◌else◌,
}
use food_flow.Shared.Uuid.{Uuid, IdText}
use food_flow.Shared.Event.{EventType, Envelope}
use food_flow.Shared.Tables.{OutboxRow, has_row}

-- A record as the producer sends it.
pub record Sent : Type 0 where
  pub topic : EventType
  pub key : Option IdText
  pub value : Envelope

abbrev pub sent_of : OutboxRow → Sent
sent_of r = record { topic = r.topic; key = r.key; value = r.event }

-- The relay's world: its service's outbox, and what the broker has acknowledged, oldest first.
pub record World : Type 0 where
  pub outbox : List OutboxRow
  pub broker : List Sent

abbrev pub is_pending : OutboxRow → Bool
is_pending r = elim r.published_at [ none ↦ true | some _ ↦ false ]

-- The earlier of a row and the best of the rest; of two with one `created_at`, the one that stands
-- first (PostgreSQL leaves that choice open).
abbrev pub earlier : OutboxRow → Option OutboxRow → Option OutboxRow
earlier r none = some r
earlier r (some s) = if leb r.created_at s.created_at then some r else some s

-- SELECT … WHERE published_at IS NULL ORDER BY created_at LIMIT 1 FOR UPDATE SKIP LOCKED, where no
-- other relay holds a lock.
unfoldable pub next_pending : List OutboxRow → Option OutboxRow
next_pending [] = none
next_pending (r ∷ rs) = if is_pending r then earlier r (next_pending rs) else next_pending rs

abbrev pub stamp : ℕ → OutboxRow → OutboxRow
stamp now r = record r { published_at = some now }

-- UPDATE outbox_events SET published_at = NOW() WHERE id = $1
unfoldable pub mark_published : ℕ → Uuid → List OutboxRow → List OutboxRow
mark_published now id [] = []
mark_published now id (r ∷ rs) = (if r.id == id then stamp now r else r) ∷ mark_published now id rs

-- What happens to one pass: `send_and_wait` raises; it returns but the UPDATE or the commit fails; or
-- all goes well, at a time.
pub data Fate : Type 0 where
  send_fails : Fate
  commit_fails : Fate
  goes_well : ℕ → Fate

-- The end of a call: it returns the count, or raises after having published as many.
pub data Ending : Type 0 where
  returned_count : ℕ → Ending
  raised_after : ℕ → Ending
  out_of_fuel : Ending

-- One pass on a row, to its transaction's end.
unfoldable pub publish_row : Fate → OutboxRow → World → World
unfolding mark_published
publish_row send_fails r w = w
publish_row commit_fails r w = record w { broker = w.broker ++ sent_of r ∷ [] }
publish_row (goes_well now) r w = record {
  outbox = mark_published now r.id w.outbox;
  broker = w.broker ++ sent_of r ∷ [];
}

abbrev pub is_well : Fate → Bool
is_well (goes_well _) = true
is_well _ = false

-- An INSERT by the service's own transactions: the primary key guards it, and `published_at` is NULL.
unfoldable pub arrive : OutboxRow → World → World
arrive r w =
    if has_row r.id w.outbox
    then w
    else record w { outbox = w.outbox ++ record r { published_at = none } ∷ [] }

unfoldable pub arrive_all : List OutboxRow → World → World
unfolding arrive
arrive_all [] w = w
arrive_all (r ∷ rs) w = arrive_all rs (arrive r w)

-- One pass: the rows that the service inserts between the SELECT of the pass before (at the first, the
-- last poll's) and this one's, and what happens to it. The UPDATE goes by the id of its row, so that it
-- makes no difference whether a row comes before or after it.
pub record Pass : Type 0 where
  pub arrivals : List OutboxRow
  pub fate : Fate

-- The `while True` of `_poll_and_publish`, with fuel for its passes; `passes` are those to come, by their
-- number.
unfoldable pub poll_and_publish : ℕ → (ℕ → Pass) → ℕ → World → Ending × World
unfolding next_pending publish_row arrive_all
poll_and_publish zero passes published w = (out_of_fuel, w)
poll_and_publish (suc fuel) passes published w =
    let pass = passes published in
    let w' = arrive_all pass.arrivals w in
    elim (next_pending w'.outbox) [
      | none ↦ (returned_count published, w')
      | some r ↦ elim (is_well pass.fate) [
        | true ↦ poll_and_publish fuel passes (published + 1) (publish_row pass.fate r w')
        | false ↦ (raised_after published, publish_row pass.fate r w')
      ]
    ]
