-- ===== src/Shared/Outbox/Relays.antt =====
-- Several relays of shared/outbox.py on one outbox, each with one row at a time in an open transaction:
-- FOR UPDATE locks the row, and SKIP LOCKED passes over the rows that others hold.
pub mod Locking
pub mod Once
pub mod Overtaking
use food_flow.Prelude.{
  ℕ, ◌+◌, ◌≤◌, ◌≡◌, refl, sym, ap, ◌∙◌, Bool, true, false, not, Option, some, none, List, [], ◌∷◌,
  ◌++◌, arith, inl, inr, ◌==◌, ==_refl, ==_iff, if◌then◌else◌, Bool-cases,
}
use food_flow.Shared.Uuid.{Uuid}
use food_flow.Shared.Tables.{OutboxRow, has_row}
use food_flow.Shared.Outbox.{
  Sent, sent_of, World, is_pending, next_pending, mark_published, Fate, send_fails, commit_fails,
  goes_well, publish_row,
}
use food_flow.Shared.Outbox.Relay.{IsRow, HasUniqueIds}
use food_flow.Shared.Outbox.Passes.{IsValid}

-- `locked` are the rows that open transactions hold, as they were selected; `sends` are the ids of the
-- rows that were sent, oldest first.
pub record Relays : Type 0 where
  pub world : World
  pub locked : List OutboxRow
  pub sends : List Uuid

-- The rows that no transaction holds.
unfoldable pub skip_locked : List OutboxRow → List OutboxRow → List OutboxRow
skip_locked locked [] = []
skip_locked locked (r ∷ rows) =
    if has_row r.id locked then skip_locked locked rows else r ∷ skip_locked locked rows

-- The end of a transaction gives its lock back.
unfoldable pub unlock : Uuid → List OutboxRow → List OutboxRow
unlock id [] = []
unlock id (r ∷ rows) = if r.id == id then unlock id rows else r ∷ unlock id rows

-- Whether `send_and_wait` returned.
abbrev pub was_sent : Fate → Bool
was_sent send_fails = false
was_sent _ = true

-- Whether it returned and its transaction failed after it.
abbrev pub is_lost : Fate → Bool
is_lost commit_fails = true
is_lost _ = false

-- The rest of a pass of `_poll_and_publish` on a row that it has selected.
abbrev pub end_pass : Fate → OutboxRow → Relays → Relays
end_pass f r s = record {
  world = publish_row f r s.world;
  locked = unlock r.id s.locked;
  sends = if was_sent f then s.sends ++ r.id ∷ [] else s.sends;
}

-- A step of the relays or of the service that writes the outbox; `crashes` tells whether a commit can
-- fail after the send.
pub data RelayStep (crashes : Bool) (s : Relays) : Relays → Type 0 where
  arrives :
      (r : OutboxRow)
      → is_pending r ≡ true
      → has_row r.id s.world.outbox ≡ false
      → RelayStep crashes s
          (record s { world = record s.world { outbox = s.world.outbox ++ r ∷ [] } })
  selects :
      (r : OutboxRow)
      → next_pending (skip_locked s.locked s.world.outbox) ≡ some r
      → RelayStep crashes s (record s { locked = r ∷ s.locked })
  ends :
      (f : Fate) (r : OutboxRow)
      → IsRow r s.locked
      → (is_lost f ≡ true → crashes ≡ true)
      → RelayStep crashes s (end_pass f r s)

pub data RelayReach (crashes : Bool) (s : Relays) : Relays → Type 0 where
  start : RelayReach crashes s s
  later : {t u : Relays} → RelayReach crashes s t → RelayStep crashes t u → RelayReach crashes s u

-- An empty outbox, and nothing sent.
abbrev pub idle : Relays
idle = record { world = record { outbox = []; broker = [] }; locked = []; sends = [] }

-- How often the id stands in the list.
unfoldable pub times : Uuid → List Uuid → ℕ
times id [] = 0
times id (i ∷ is) = (if i == id then 1 else 0) + times id is

-- How many rows have the id, and how many of those wait.
unfoldable pub rows_of : Uuid → List OutboxRow → ℕ
rows_of id [] = 0
rows_of id (r ∷ rows) = (if r.id == id then 1 else 0) + rows_of id rows

unfoldable pub waiting_of : Uuid → List OutboxRow → ℕ
waiting_of id [] = 0
waiting_of id (r ∷ rows) =
    (if r.id == id then (if is_pending r then 1 else 0) else 0) + waiting_of id rows
