-- ===== src/Shared/Outbox/Delivery.antt =====
-- _poll_and_publish of shared/outbox.py: a call ends, and says truly what it has done.
use food_flow.Prelude.{
  ◌-◌, ℕ, zero, suc, ◌+◌, ◌≤◌, ◌<◌, ◌≡◌, false, map, length, arith, inl, inr, Bool-cases,
  Option-cases,
}
use food_flow.Shared.Outbox.{
  sent_of, World, next_pending, Pass, Ending, returned_count, raised_after, publish_row, is_well,
  arrive_all, poll_and_publish,
}
use food_flow.Shared.Outbox.Relay.{
  HasAll, pending, HasAll-drained, next_pending-IsRow, next_pending-none,
}
use food_flow.Shared.Outbox.Passes.{
  IsValid, Has, Has-trans, Has-wider, publish_row-IsValid, arrive_all-IsValid, arrive_all-Has,
  publish_row-Has,
}

-- How many rows arrive in `n` passes from pass `k` on.
unfoldable pub arriving : (ℕ → Pass) → ℕ → ℕ → ℕ
arriving passes k zero = 0
arriving passes k (suc n) = length (passes k).arrivals + arriving passes (k + 1) n

-- How a call ends that starts at `w` with `k` rows published, while at most `m` rows arrive: the outbox is
-- drained and all its rows, with those that arrived, are with the broker; or a pass failed, and the rows of the
-- passes before it are marked.
pub data Ended (passes : ℕ → Pass) (k m : ℕ) (w : World) : Ending × World → Type 0 where
  drained :
      (n j : ℕ) (w' : World)
      → n ≡ k + j
      → Has w w' j m
      → pending w'.outbox ≡ 0
      → HasAll (map sent_of w'.outbox) w'.broker
      → IsValid w'
      → Ended passes k m w (returned_count n, w')
  stopped :
      (n j : ℕ) (w' : World)
      → n ≡ k + j
      → is_well (passes n).fate ≡ false
      → Has w w' j m
      → IsValid w'
      → Ended passes k m w (raised_after n, w')

-- What comes before a pass and the pass itself are done: how the call ends from there is how it ends.
Ended-later :
    (passes : ℕ → Pass) (k a b : ℕ) (w w' : World) {e : Ending × World}
    → Has w w' 1 a
    → Ended passes (k + 1) b w' e
    → Ended passes k (a + b) w e
Ended-later passes k a b w w' x (drained n j w'' count y empty all v) =
    drained n (1 + j) w'' (omega arith) (Has-trans w w' w'' 1 j a b x y) empty all v
Ended-later passes k a b w w' x (stopped n j w'' count bad y v) =
    stopped n (1 + j) w'' (omega arith) bad (Has-trans w w' w'' 1 j a b x y) v

-- More rows may arrive than do.
Ended-wider :
    (passes : ℕ → Pass) (k a b : ℕ) (w : World) {e : Ending × World}
    → a ≤ b
    → Ended passes k a w e
    → Ended passes k b w e
Ended-wider passes k a b w le (drained n j w' count x empty all v) =
    drained n j w' count (Has-wider w w' j a b le x) empty all v
Ended-wider passes k a b w le (stopped n j w' count bad x v) =
    stopped n j w' count bad (Has-wider w w' j a b le x) v

poll_and_publish_from :
    (fuel : ℕ) (passes : ℕ → Pass) (k m : ℕ) (w : World)
    → IsValid w
    → ((n : ℕ) → arriving passes k n ≤ m)
    → pending w.outbox + m < fuel
    → Ended passes k m w (poll_and_publish fuel passes k w)
unfolding poll_and_publish arriving
poll_and_publish_from zero passes k m w v few enough = absurd (omega arith)
poll_and_publish_from (suc fuel) passes k m w v few enough =
    let pass = passes k in
    let size = length pass.arrivals in
    let w' = arrive_all pass.arrivals w in
    let x = arrive_all-Has pass.arrivals w in
    let v' = arrive_all-IsValid pass.arrivals w v in
    let one : size ≤ m = omega (arith, few 1) in
    elim (Option-cases (next_pending w'.outbox)) [
      | inl no_row ↦
          let empty = next_pending-none w'.outbox no_row in
          rw (poll_and_publish, no_row)
            (Ended-wider passes k size m w one (
              drained k 0 w' (omega arith) x empty
                (HasAll-drained w'.outbox w'.broker v'.sent empty) v'))
      | inr (r, row) ↦
          let (i, waits) = next_pending-IsRow w'.outbox r row in
          let y = publish_row-Has pass.fate r w' i waits v' in
          let v'' = publish_row-IsValid pass.fate r w' i v' in
          elim (Bool-cases (is_well pass.fate)) [
            | inl good ↦
                let y' : Has w' (publish_row pass.fate r w') 1 0 = rw good at y in
                let z = Has-trans w w' (publish_row pass.fate r w') 0 1 size 0 x y' in
                rw (poll_and_publish, row, good)
                  (Ended-wider passes k ((size + 0) + (m - size)) m w (omega (arith, one)) (
                    Ended-later passes k (size + 0) (m - size) w (publish_row pass.fate r w') z (
                      poll_and_publish_from fuel passes (k + 1) (m - size)
                        (publish_row pass.fate r w') v'' (λ n. omega (arith, few (suc n)))
                        (omega (arith, x.waiting, x.few, y'.waiting, y'.few, enough, one)))))
            | inr bad ↦
                let y' : Has w' (publish_row pass.fate r w') 0 0 = rw bad at y in
                let z = Has-trans w w' (publish_row pass.fate r w') 0 0 size 0 x y' in
                rw (poll_and_publish, row, bad)
                  (stopped k 0 (publish_row pass.fate r w') (omega arith) bad
                    (Has-wider w (publish_row pass.fate r w') 0 (size + 0) m (omega (arith, one)) z)
                    v'')
          ]
    ]

-- From an outbox with unique ids where every row marked as published was sent, while at most `m` rows
-- arrive during the call, however they fall between its passes: with fuel for more passes than the rows
-- that wait and `m`, the call ends. Either it returns as its count the rows that waited and those that
-- arrived, none of the outbox waits, and the broker has the records of all rows; or a pass fails, it raises
-- after the passes before that one, and as many of these rows are marked. The outbox has the records it had
-- and those of the rows that arrived.
pub poll_and_publish_ends :
    (fuel : ℕ) (passes : ℕ → Pass) (m : ℕ) (w : World)
    → IsValid w
    → ((n : ℕ) → arriving passes 0 n ≤ m)
    → pending w.outbox + m < fuel
    → Ended passes 0 m w (poll_and_publish fuel passes 0 w)
poll_and_publish_ends fuel passes m w = poll_and_publish_from fuel passes 0 m w
