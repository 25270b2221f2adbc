-- ===== src/Tests/Shared.antt =====
-- Concrete inputs for the consumer loop and for shared/outbox.py.
use food_flow.Prelude.{
  map, ℕ, zero, suc, ◌+◌, ◌≤◌, ◌≡◌, refl, some, List, [], ◌∷◌, arith, ◌==◌, if◌then◌else◌,
}
use food_flow.Shared.Uuid.{Uuid, str}
use food_flow.Shared.Error.{ok, err, key_error}
use food_flow.Shared.Event.{Envelope, Draw, stock_release, order_only}
use food_flow.Shared.Tables.{OutboxRow, new_row, has_row}
use food_flow.Shared.Transaction.{Tx, Done}
use food_flow.Shared.Consumer.{Consumer, run_consumer, run_consumer_commits}
use food_flow.Shared.Outbox.{
  sent_of, World, Fate, Pass, goes_well, send_fails, poll_and_publish, next_pending, publish_row,
  mark_published, raised_after, returned_count, arrive, arrive_all,
}
use food_flow.Shared.Outbox.Relay.{pending, HasAll}
use food_flow.Shared.Outbox.Loop.{Poll, run_outbox_relay, run_outbox_relay_flushes}
use food_flow.Shared.Outbox.Passes.{IsValid}
use food_flow.Shared.Outbox.Delivery.{Ended, arriving, poll_and_publish_ends}

-- A handler that counts, and refuses the message 0.
abbrev counting : ℕ → Tx ℕ Done
counting m n = (if m == 0 then err key_error else ok tt, n + m)

abbrev counter : Consumer ℕ
counter = record { db = 0; committed = 10; success = 0; error = 0 }

abbrev rounds : List (List ℕ)
rounds = (3 ∷ 0 ∷ []) ∷ [] ∷ (4 ∷ []) ∷ []

run_consumer_commits_example :
    ((run_consumer counting rounds counter).success + (run_consumer counting rounds counter).error
      ≡ 3)
    × ((run_consumer counting rounds counter).committed ≡ 13)
run_consumer_commits_example = run_consumer_commits counting rounds counter

abbrev row : Uuid → ℕ → OutboxRow
row id now =
    let d : Draw = record { event_uuid = id + 1; row_uuid = id; clock = now; now = now } in
    let event : Envelope = record {
      event_id = str (id + 1);
      event_type = stock_release;
      occurred_at = now;
      payload = order_only (str 1);
    } in
    new_row d stock_release (str 1) event

-- Two rows that wait, the younger one first.
abbrev world : World
world = record { outbox = row 20 5 ∷ row 10 4 ∷ []; broker = [] }

-- A row arrives before the first pass, which goes well; the second does not reach the broker.
abbrev passes : ℕ → Pass
passes n =
    if n == 0
    then record { arrivals = row 30 7 ∷ []; fate = goes_well 6 }
    else record { arrivals = []; fate = send_fails }

-- Rows that arrive before the first pass only.
abbrev first_pass : List OutboxRow → Fate → ℕ → Pass
first_pass rows f n = record { arrivals = if n == 0 then rows else []; fate = f }

none_later :
    (f : Fate) (rows : List OutboxRow) (k n : ℕ) → arriving (first_pass rows f) (suc k) n ≡ 0
unfolding arriving
none_later f rows k zero = refl
none_later f rows k (suc n) = ground (arith, none_later f rows (suc k) n)

world-IsValid : IsValid world
world-IsValid = record {
  unique = (unfold has_row in refl, (unfold has_row in refl, tt));
  sent = (λ h. cc, (λ h. cc, tt));
}

stops_at_second : (poll_and_publish 4 passes 0 world).0 ≡ raised_after 1
unfolding poll_and_publish next_pending publish_row mark_published arrive_all arrive has_row
stops_at_second = refl

oldest_first : next_pending world.outbox ≡ some (row 10 4)
unfolding next_pending
oldest_first = refl

-- All passes go well, and a row arrives before the first.
abbrev busy : ℕ → Pass
busy = first_pass (row 30 7 ∷ []) (goes_well 9)

busy_few : (n : ℕ) → arriving busy 0 n ≤ 1
unfolding arriving
busy_few zero = omega arith
busy_few (suc n) = omega (arith, none_later (goes_well 9) (row 30 7 ∷ []) 0 n)

poll_and_publish_ends_example : Ended busy 0 1 world (poll_and_publish 4 busy 0 world)
poll_and_publish_ends_example =
    poll_and_publish_ends 4 busy 1 world world-IsValid busy_few (unfold pending in omega arith)

counts_all : (poll_and_publish 4 busy 0 world).0 ≡ returned_count 3
unfolding poll_and_publish next_pending publish_row mark_published arrive_all arrive has_row
counts_all = refl

-- A poll in which a row arrives and the send fails, then a flush in which another arrives.
abbrev polls : List Poll
polls = record { passes = first_pass (row 40 8 ∷ []) send_fails; limit = 1 } ∷ []

abbrev flush : Poll
flush = record { passes = busy; limit = 1 }

run_outbox_relay_flushes_example :
    let w' = run_outbox_relay polls flush world in
    (pending w'.outbox ≡ 0) × HasAll (map sent_of w'.outbox) w'.broker
run_outbox_relay_flushes_example =
    run_outbox_relay_flushes polls flush world world-IsValid
      (record { good = λ n. refl; few = busy_few })
