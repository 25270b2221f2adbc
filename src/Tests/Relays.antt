-- ===== src/Tests/Relays.antt =====
-- Two relays on one outbox.
use food_flow.Prelude.{ℕ, ◌+◌, ◌≤◌, ◌≡◌, refl, false, some, [], ◌∷◌, inl, arith}
use food_flow.Shared.Uuid.{str}
use food_flow.Shared.Event.{order_placed, stock_release, Draw, wrap_event, order_only}
use food_flow.Shared.Tables.{OutboxRow, new_row, has_row}
use food_flow.Shared.Outbox.{goes_well, next_pending, sent_of, publish_row, mark_published}
use food_flow.Shared.Outbox.Relays.{
  unlock, Relays, times, rows_of, waiting_of, skip_locked, RelayReach, arrives, selects, ends,
  start, later, idle,
}
use food_flow.Shared.Outbox.Relays.Locking.{IsLocking, relays-IsLocking}
use food_flow.Shared.Outbox.Relays.Once.{relays_send_once}
use food_flow.Shared.Outbox.Relays.Overtaking.{two_rows, relays_overtake}

abbrev draw : ℕ → Draw
draw n = record { event_uuid = 10 + n; row_uuid = 20 + n; clock = n; now = n }

abbrev older : OutboxRow
older =
    new_row (draw 1) order_placed (str 5) (wrap_event (draw 1) order_placed (order_only (str 5)))

abbrev younger : OutboxRow
younger =
    new_row (draw 2) stock_release (str 6) (wrap_event (draw 2) stock_release (order_only (str 6)))

-- Both rows are held, and the younger is sent and marked.
abbrev halfway : Relays
halfway = record {
  world = record {
    outbox = older ∷ record younger { published_at = some 9 } ∷ [];
    broker = sent_of younger ∷ [];
  };
  locked = older ∷ [];
  sends = 22 ∷ [];
}

Reach-halfway : RelayReach false idle halfway
unfolding has_row next_pending skip_locked publish_row mark_published unlock
Reach-halfway =
    later
      (later
        (later (later (later start (arrives older refl refl)) (arrives younger refl refl))
          (selects older refl))
        (selects younger refl))
      (ends (goes_well 9) younger (inl refl) (λ lost. cc))

relays-IsLocking_example : IsLocking halfway
relays-IsLocking_example = relays-IsLocking Reach-halfway

relays_send_once_example :
    (times 22 halfway.sends + waiting_of 22 halfway.world.outbox ≡ rows_of 22 halfway.world.outbox)
    × (rows_of 22 halfway.world.outbox ≤ 1)
relays_send_once_example = relays_send_once 22 Reach-halfway

relays_overtake_example :
    (t : Relays) × RelayReach false (two_rows older younger) t
    × (t.world.broker ≡ sent_of younger ∷ sent_of older ∷ [])
    × (next_pending (two_rows older younger).world.outbox ≡ some older)
relays_overtake_example = relays_overtake older younger 9 9 refl refl (ground arith) (omega arith)
