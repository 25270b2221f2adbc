-- ===== src/Shared/Outbox/Relays/Once.antt =====
-- Several relays send each row once, but for commits that fail.
use food_flow.Prelude.{
  ℕ, ◌+◌, ◌≤◌, ◌≡◌, refl, ap, subst, ◌∙◌, true, false, List, [], ◌∷◌, ◌++◌, arith, inl, inr, ◌==◌,
  ==_refl, ==_iff, if◌then◌else◌, Bool-cases,
}
use food_flow.Shared.Uuid.{Uuid}
use food_flow.Shared.Tables.{OutboxRow, has_row}
use food_flow.Shared.Outbox.{
  is_pending, mark_published, Fate, send_fails, commit_fails, goes_well, publish_row,
}
use food_flow.Shared.Outbox.Relay.{IsRow, HasUniqueIds, other_id, mark_absent}
use food_flow.Shared.Outbox.Relays.{
  is_lost, Relays, times, rows_of, waiting_of, end_pass, RelayStep, arrives, selects, ends,
  RelayReach, start, later, idle,
}
use food_flow.Shared.Outbox.Relays.Locking.{IsLocking, relays-IsLocking}

times-append :
    (id i : Uuid) (is : List Uuid)
    → times id (is ++ i ∷ []) ≡ times id is + (if i == id then 1 else 0)
unfolding times
times-append id i [] = omega arith
times-append id i (j ∷ is) = omega (arith, times-append id i is)

rows_of-append :
    (id : Uuid) (rows : List OutboxRow) (r : OutboxRow)
    → rows_of id (rows ++ r ∷ []) ≡ rows_of id rows + (if r.id == id then 1 else 0)
unfolding rows_of
rows_of-append id [] r = omega arith
rows_of-append id (x ∷ rows) r = omega (arith, rows_of-append id rows r)

waiting_of-append :
    (id : Uuid) (rows : List OutboxRow) (r : OutboxRow)
    → is_pending r ≡ true
    → waiting_of id (rows ++ r ∷ []) ≡ waiting_of id rows + (if r.id == id then 1 else 0)
unfolding waiting_of
waiting_of-append id [] r waits = ground arith
waiting_of-append id (x ∷ rows) r waits = omega (arith, waiting_of-append id rows r waits)

rows_of-absent : (id : Uuid) (rows : List OutboxRow) → has_row id rows ≡ false → rows_of id rows ≡ 0
unfolding rows_of has_row
rows_of-absent id [] h = refl
rows_of-absent id (x ∷ rows) h = ground (arith, rows_of-absent id rows)

rows_of-le : (id : Uuid) (rows : List OutboxRow) → HasUniqueIds rows → rows_of id rows ≤ 1
unfolding rows_of
rows_of-le id [] u = omega arith
rows_of-le id (x ∷ rows) (fresh, u) = elim (Bool-cases (x.id == id)) [
  | inl own ↦ rw own (
      omega (
        arith,
        ap (λ (i : Uuid). rows_of i rows) ((==_iff x.id id).0 own),
        rows_of-absent x.id rows fresh,
      ))
  | inr other ↦ rw other (omega (arith, rows_of-le id rows u))
]

rows_of-mark :
    (now : ℕ) (i id : Uuid) (rows : List OutboxRow)
    → rows_of id (mark_published now i rows) ≡ rows_of id rows
unfolding rows_of mark_published
rows_of-mark now i id [] = refl
rows_of-mark now i id (x ∷ rows) = ground (arith, rows_of-mark now i id rows)

waiting_of-mark_head :
    (now : ℕ) (id : Uuid) (x : OutboxRow) (rows : List OutboxRow)
    → is_pending x ≡ true
    → has_row x.id rows ≡ false
    → waiting_of id (mark_published now x.id (x ∷ rows)) + (if x.id == id then 1 else 0)
      ≡ waiting_of id (x ∷ rows)
unfolding waiting_of mark_published
waiting_of-mark_head now id x rows waits fresh =
    rw (==_refl x.id, waits, mark_absent now x.id rows fresh) (ground arith)

-- Marking a row that waits leaves one less of its id.
waiting_of-mark :
    (now : ℕ) (id : Uuid) (r : OutboxRow) (rows : List OutboxRow)
    → IsRow r rows
    → is_pending r ≡ true
    → HasUniqueIds rows
    → waiting_of id (mark_published now r.id rows) + (if r.id == id then 1 else 0)
      ≡ waiting_of id rows
unfolding waiting_of mark_published
waiting_of-mark now id r [] m waits u = absurd m
waiting_of-mark now id r (x ∷ rows) (inl e) waits (fresh, u) =
    subst
      (λ (y : OutboxRow).
        waiting_of id (mark_published now y.id (x ∷ rows)) + (if y.id == id then 1 else 0)
        ≡ waiting_of id (x ∷ rows))
      e (waiting_of-mark_head now id x rows (ap is_pending e ∙ waits) fresh)
waiting_of-mark now id r (x ∷ rows) (inr m) waits (fresh, u) =
    rw (other_id x r rows m fresh) (omega (arith, waiting_of-mark now id r rows m waits u))

abbrev Counts : Uuid → Relays → Type 0
Counts id s = times id s.sends + waiting_of id s.world.outbox ≡ rows_of id s.world.outbox

pass-Counts :
    (id : Uuid) (f : Fate) (r : OutboxRow) (s : Relays)
    → IsLocking s
    → IsRow r s.locked
    → (is_lost f ≡ true → false ≡ true)
    → Counts id s
    → Counts id (end_pass f r s)
unfolding publish_row
pass-Counts id send_fails r s k m may h = h
pass-Counts id commit_fails r s k m may h = absurd (clash (may refl))
  where
    clash : false ≡ true → ⊥
    clash e = cc
pass-Counts id (goes_well now) r s k m may h =
    let (row, waits) = k.held r m in
    omega (
      arith,
      h,
      times-append id r.id s.sends,
      rows_of-mark now r.id id s.world.outbox,
      waiting_of-mark now id r s.world.outbox row waits k.valid.unique,
    )

step-Counts :
    {s t : Relays} (id : Uuid) → IsLocking s → Counts id s → RelayStep false s t → Counts id t
step-Counts {s} id k h (arrives r waits fresh) =
    omega
      (arith, h, rows_of-append id s.world.outbox r, waiting_of-append id s.world.outbox r waits)
step-Counts id k h (selects r found) = h
step-Counts {s} id k h (ends f r m may) = pass-Counts id f r s k m may h

reach-Counts : {t : Relays} (id : Uuid) → RelayReach false idle t → Counts id t
unfolding times waiting_of rows_of
reach-Counts id start = refl
reach-Counts id (later reach step) =
    step-Counts id (relays-IsLocking reach) (reach-Counts id reach) step

-- However many relays work on one outbox from the time when it was empty, if no commit fails after a send:
-- of each id there is one row at most, and it was sent once if it does not wait, and not sent if it waits.
pub relays_send_once :
    {t : Relays} (id : Uuid)
    → RelayReach false idle t
    → (times id t.sends + waiting_of id t.world.outbox ≡ rows_of id t.world.outbox)
      × (rows_of id t.world.outbox ≤ 1)
relays_send_once {t} id reach =
    (reach-Counts id reach, rows_of-le id t.world.outbox (relays-IsLocking reach).valid.unique)
