-- ===== src/Shared/Outbox/Relays/Overtaking.antt =====
-- With SKIP LOCKED, ORDER BY created_at does not order the sends of several relays.
use food_flow.Prelude.{
  ℕ, ◌≤◌, ◌≡◌, ◌≢◌, refl, true, false, some, [], ◌∷◌, arith, inl, ==_refl, ==_iff,
}
use food_flow.Shared.Tables.{OutboxRow, has_row}
use food_flow.Shared.Outbox.{sent_of, is_pending, next_pending, goes_well, publish_row}
use food_flow.Shared.Outbox.Relay.{IsRow}
use food_flow.Shared.Outbox.Relays.{
  Relays, skip_locked, unlock, selects, ends, RelayReach, start, later,
}

-- Two rows in the outbox, and nothing sent.
abbrev pub two_rows : OutboxRow → OutboxRow → Relays
two_rows x y = record {
  world = record { outbox = x ∷ y ∷ []; broker = [] };
  locked = [];
  sends = [];
}

module _ (x y : OutboxRow) (now now' : ℕ) (waits : is_pending x ≡ true)
    (waits' : is_pending y ≡ true) (distinct : x.id ≢ y.id)
    (older : x.created_at ≤ y.created_at) where
  first_free : next_pending (skip_locked [] (x ∷ y ∷ [])) ≡ some x
  unfolding next_pending skip_locked has_row
  first_free = ground (arith, older)

  second_free : next_pending (skip_locked (x ∷ []) (x ∷ y ∷ [])) ≡ some y
  unfolding next_pending skip_locked has_row
  second_free = ground (arith, ==_refl x.id, ==_iff x.id y.id)

  still_locked : IsRow x (unlock y.id (y ∷ x ∷ []))
  still_locked = rw one_left (inl refl)
    where
      one_left : unlock y.id (y ∷ x ∷ []) ≡ x ∷ []
      one_left = unfold unlock in ground (arith, ==_refl y.id, ==_iff x.id y.id)

  first_alone : next_pending (x ∷ y ∷ []) ≡ some x
  first_alone = unfold next_pending in ground (arith, older)

  -- Of two rows that wait, with different ids, the younger can be sent before the older, which the SELECT
  -- of a single relay finds: one relay holds the older, and another skips it.
  pub relays_overtake :
      (t : Relays) × RelayReach false (two_rows x y) t
      × (t.world.broker ≡ sent_of y ∷ sent_of x ∷ [])
      × (next_pending (two_rows x y).world.outbox ≡ some x)
  unfolding publish_row
  relays_overtake =
      let both = later (later start (selects x first_free)) (selects y second_free) in
      let y_sent = later both (ends (goes_well now) y (inl refl) (λ lost. cc)) in
      let x_sent = later y_sent (ends (goes_well now') x still_locked (λ lost. cc)) in
      (_, x_sent, refl, first_alone)
