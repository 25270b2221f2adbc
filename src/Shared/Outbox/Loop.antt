-- ===== src/Shared/Outbox/Loop.antt =====
-- run_outbox_relay of shared/outbox.py: the polls up to the shutdown, and the final flush.
use food_flow.Prelude.{
  ℕ, zero, suc, ◌+◌, ◌≤◌, ◌≡◌, Bool, true, false, List, [], ◌∷◌, map, arith, inl, inr, Bool-cases,
  Option-cases,
}
use food_flow.Shared.Outbox.{
  sent_of, World, next_pending, Pass, Ending, publish_row, is_well, arrive_all, poll_and_publish,
}
use food_flow.Shared.Outbox.Relay.{HasAll, pending, next_pending-IsRow}
use food_flow.Shared.Outbox.Passes.{IsValid, publish_row-IsValid, arrive_all-IsValid}
use food_flow.Shared.Outbox.Delivery.{Ended, drained, stopped, arriving, poll_and_publish_ends}

-- One poll: its passes, with the rows that the service inserts since the last poll and during this one,
-- and a bound on their number.
pub record Poll : Type 0 where
  pub passes : ℕ → Pass
  pub limit : ℕ

-- The call of `_poll_and_publish`, with fuel that suffices where no more rows arrive than `limit`. What it
-- raises is logged.
unfoldable pub poll_once : Poll → World → World
poll_once p w = (poll_and_publish (suc (pending w.outbox + p.limit)) p.passes 0 w).1

-- The polls up to the shutdown event, and the one after it.
unfoldable pub run_outbox_relay : List Poll → Poll → World → World
unfolding poll_once
run_outbox_relay [] final w = poll_once final w
run_outbox_relay (p ∷ ps) final w = run_outbox_relay ps final (poll_once p w)

poll_and_publish-IsValid :
    (fuel : ℕ) (passes : ℕ → Pass) (k : ℕ) (w : World)
    → IsValid w
    → IsValid (poll_and_publish fuel passes k w).1
unfolding poll_and_publish
poll_and_publish-IsValid zero passes k w v = v
poll_and_publish-IsValid (suc fuel) passes k w v =
    let pass = passes k in
    let w' = arrive_all pass.arrivals w in
    let v' = arrive_all-IsValid pass.arrivals w v in
    elim (Option-cases (next_pending w'.outbox)) [
      | inl no_row ↦ rw (poll_and_publish, no_row) v'
      | inr (r, row) ↦
          let (i, waits) = next_pending-IsRow w'.outbox r row in
          let v'' = publish_row-IsValid pass.fate r w' i v' in
          elim (Bool-cases (is_well pass.fate)) [
            | inl good ↦
                rw (poll_and_publish, row, good)
                  (poll_and_publish-IsValid fuel passes (k + 1) (publish_row pass.fate r w') v'')
            | inr bad ↦ rw (poll_and_publish, row, bad) v''
          ]
    ]

poll_once-IsValid : (p : Poll) (w : World) → IsValid w → IsValid (poll_once p w)
unfolding poll_once
poll_once-IsValid p w = poll_and_publish-IsValid (suc (pending w.outbox + p.limit)) p.passes 0 w

-- No pass of a poll goes wrong, and no more rows arrive in it than its limit.
pub record IsFlush (p : Poll) : Type 0 where
  pub good : (n : ℕ) → is_well (p.passes n).fate ≡ true
  pub few : (n : ℕ) → arriving p.passes 0 n ≤ p.limit

Ended-flushed :
    {passes : ℕ → Pass} {k m : ℕ} {w : World} {e : Ending × World}
    → Ended passes k m w e
    → ((n : ℕ) → is_well (passes n).fate ≡ true)
    → (pending e.1.outbox ≡ 0) × HasAll (map sent_of e.1.outbox) e.1.broker
Ended-flushed (drained n j w' count x empty all v) good = (empty, all)
Ended-flushed (stopped n j w' count bad x v) good = absurd (clash (good n) bad)
  where
    clash : {b : Bool} → b ≡ true → b ≡ false → ⊥
    clash p q = cc

poll_once-flushed :
    (p : Poll) (w : World)
    → IsValid w
    → IsFlush p
    → (pending (poll_once p w).outbox ≡ 0)
      × HasAll (map sent_of (poll_once p w).outbox) (poll_once p w).broker
unfolding poll_once
poll_once-flushed p w v h =
    let fuel = suc (pending w.outbox + p.limit) in
    Ended-flushed (poll_and_publish_ends fuel p.passes p.limit w v h.few (omega arith)) h.good

-- From an outbox with unique ids where every row marked as published was sent, over any polls,
-- whatever goes wrong in them and whatever rows arrive before and during them: if all passes of the
-- final flush go well and no more rows arrive in it than its limit, no row of the outbox waits at
-- the end, and the broker has the records of all rows.
pub run_outbox_relay_flushes :
    (polls : List Poll) (final : Poll) (w : World)
    → IsValid w
    → IsFlush final
    → let w' = run_outbox_relay polls final w in
      (pending w'.outbox ≡ 0) × HasAll (map sent_of w'.outbox) w'.broker
unfolding run_outbox_relay
run_outbox_relay_flushes [] final w v h = poll_once-flushed final w v h
run_outbox_relay_flushes (p ∷ polls) final w v h =
    run_outbox_relay_flushes polls final (poll_once p w) (poll_once-IsValid p w v) h
