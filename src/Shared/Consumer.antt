-- ===== src/Shared/Consumer.antt =====
-- The consumer loop, which services/order, services/restaurant and services/payment each write out
-- (`run_consumer`): fetch, handle every message in its own `try`, commit.
use food_flow.Prelude.{ℕ, ◌+◌, ◌≡◌, refl, List, [], ◌∷◌, arith, length}
use food_flow.Shared.Error.{Result, ok, err}
use food_flow.Shared.Transaction.{Tx, Done}

-- A consumer: its service's database, the offset up to which its group has committed, and the counter
-- `kafka_messages_consumed_total` by its label `status`.
pub record Consumer (S : Type 0) : Type 0 where
  pub db : S
  pub committed : ℕ
  pub success : ℕ
  pub error : ℕ

module _ {S M : Type 0} (handle : M → Tx S Done) where
  -- try: await _handle_message(…) … except Exception: …
  abbrev pub tally : Result Done × S → Consumer S → Consumer S
  tally (ok _, db') c = record c { db = db'; success = c.success + 1 }
  tally (err _, db') c = record c { db = db'; error = c.error + 1 }

  unfoldable pub consume : List M → Consumer S → Consumer S
  consume [] c = c
  consume (m ∷ ms) c = consume ms (tally (handle m c.db) c)

  -- One round of the loop on what `getmany` fetched; `commit` moves past all of it. Both are taken to
  -- return: the loop does not catch what they raise, so such a run is the rounds before it.
  unfoldable pub poll_round : List M → Consumer S → Consumer S
  unfolding consume
  poll_round [] c = c
  poll_round (m ∷ ms) c =
      let c' = consume (m ∷ ms) c in record c' { committed = c.committed + length (m ∷ ms) }

  -- The rounds up to the shutdown event.
  unfoldable pub run_consumer : List (List M) → Consumer S → Consumer S
  unfolding poll_round
  run_consumer [] c = c
  run_consumer (batch ∷ batches) c = run_consumer batches (poll_round batch c)

module _ {S M : Type 0} (handle : M → Tx S Done) (P : S → Type 0)
    (keeps : (m : M) (s : S) → P s → P (handle m s).1) where
  consume-keeps : (ms : List M) (c : Consumer S) → P c.db → P (consume handle ms c).db
  unfolding consume
  consume-keeps [] c h = h
  consume-keeps (m ∷ ms) c h =
      consume-keeps ms (tally handle (handle m c.db) c) (tallied (handle m c.db) (keeps m c.db h))
    where
      tallied : (r : Result Done × S) → P r.1 → P (tally handle r c).db
      tallied (ok a, db') p = p
      tallied (err e, db') p = p

  poll_round-keeps : (ms : List M) (c : Consumer S) → P c.db → P (poll_round handle ms c).db
  unfolding poll_round
  poll_round-keeps [] c h = h
  poll_round-keeps (m ∷ ms) c h = consume-keeps (m ∷ ms) c h

  -- What every message keeps, whatever comes of it, a whole run keeps.
  pub run_consumer-keeps :
      (batches : List (List M)) (c : Consumer S) → P c.db → P (run_consumer handle batches c).db
  unfolding run_consumer
  run_consumer-keeps [] c h = h
  run_consumer-keeps (batch ∷ batches) c h =
      run_consumer-keeps batches (poll_round handle batch c) (poll_round-keeps batch c h)

-- The messages of some rounds, one after the other.
abbrev pub total_length : {M : Type 0} → List (List M) → ℕ
total_length [] = 0
total_length (batch ∷ batches) = length batch + total_length batches

module _ {S M : Type 0} (handle : M → Tx S Done) where
  consume_counts :
      (ms : List M) (c : Consumer S)
      → ((consume handle ms c).success + (consume handle ms c).error
          ≡ c.success + c.error + length ms)
        × ((consume handle ms c).committed ≡ c.committed)
  unfolding consume
  consume_counts [] c = (omega arith, refl)
  consume_counts (m ∷ ms) c = ground (arith, consume_counts ms (tally handle (handle m c.db) c))

  poll_round_counts :
      (ms : List M) (c : Consumer S)
      → ((poll_round handle ms c).success + (poll_round handle ms c).error
          ≡ c.success + c.error + length ms)
        × ((poll_round handle ms c).committed ≡ c.committed + length ms)
  unfolding poll_round
  poll_round_counts [] c = (omega arith, omega arith)
  poll_round_counts (m ∷ ms) c = ((consume_counts (m ∷ ms) c).0, refl)

  -- The loop counts every message that it fetches once, as a success or as an error, and commits the
  -- offset past all of them: also past those whose handler raised.
  pub run_consumer_commits :
      (batches : List (List M)) (c : Consumer S)
      → ((run_consumer handle batches c).success + (run_consumer handle batches c).error
          ≡ c.success + c.error + total_length batches)
        × ((run_consumer handle batches c).committed ≡ c.committed + total_length batches)
  unfolding run_consumer
  run_consumer_commits [] c = (omega arith, omega arith)
  run_consumer_commits (batch ∷ batches) c =
      let (counted, offset) = poll_round_counts batch c in
      let (counted', offset') = run_consumer_commits batches (poll_round handle batch c) in
      (omega arith, omega arith)
