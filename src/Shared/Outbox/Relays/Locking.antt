-- ===== src/Shared/Outbox/Relays/Locking.antt =====
-- What the locks of several relays keep true of the outbox.
use food_flow.Prelude.{
  ℕ, ◌≡◌, refl, sym, ap, subst, ◌∙◌, Bool, true, false, List, [], ◌∷◌, ◌++◌, arith, inl, inr, ◌==◌,
  ==_refl, ==_iff, Bool-cases,
}
use food_flow.Shared.Uuid.{Uuid}
use food_flow.Shared.Tables.{OutboxRow, has_row}
use food_flow.Shared.Outbox.{
  Sent, World, is_pending, mark_published, Fate, send_fails, commit_fails, goes_well, publish_row,
}
use food_flow.Shared.Outbox.Relay.{IsRow, HasUniqueIds, AllSent, next_pending-IsRow}
use food_flow.Shared.Outbox.Passes.{IsValid, publish_row-IsValid}
use food_flow.Shared.Outbox.Relays.{
  Relays, skip_locked, unlock, RelayStep, arrives, selects, ends, RelayReach, start, later, idle,
}

skip_locked-IsRow :
    (locked rows : List OutboxRow) (r : OutboxRow)
    → IsRow r (skip_locked locked rows)
    → IsRow r rows × (has_row r.id locked ≡ false)
unfolding skip_locked
skip_locked-IsRow locked [] r m = absurd m
skip_locked-IsRow locked (x ∷ rows) r m = elim (Bool-cases (has_row x.id locked)) [
  | inl taken ↦ let (k, free) = skip_locked-IsRow locked rows r (rw taken at m) in (inr k, free)
  | inr free ↦ elim (other free m) [
    | inl e ↦ (inl e, ap (λ (y : OutboxRow). has_row y.id locked) (sym e) ∙ free)
    | inr k ↦ let (k', free') = skip_locked-IsRow locked rows r k in (inr k', free')
  ]
]
  where
    other :
        has_row x.id locked ≡ false
        → IsRow r (skip_locked locked (x ∷ rows))
        → IsRow r (x ∷ skip_locked locked rows)
    other free m = rw free at m

unlock-IsRow :
    (id : Uuid) (rows : List OutboxRow) (r : OutboxRow)
    → IsRow r (unlock id rows)
    → IsRow r rows × ((r.id == id) ≡ false)
unfolding unlock
unlock-IsRow id [] r m = absurd m
unlock-IsRow id (x ∷ rows) r m = elim (Bool-cases (x.id == id)) [
  | inl own ↦ let (k, other) = unlock-IsRow id rows r (rw own at m) in (inr k, other)
  | inr other ↦ elim (kept other m) [
    | inl e ↦ (inl e, ap (λ (y : OutboxRow). y.id == id) (sym e) ∙ other)
    | inr k ↦ let (k', other') = unlock-IsRow id rows r k in (inr k', other')
  ]
]
  where
    kept : (x.id == id) ≡ false → IsRow r (unlock id (x ∷ rows)) → IsRow r (x ∷ unlock id rows)
    kept other m = rw other at m

has_row-unlock :
    (i id : Uuid) (rows : List OutboxRow)
    → has_row i rows ≡ false
    → has_row i (unlock id rows) ≡ false
unfolding unlock has_row
has_row-unlock i id [] h = refl
has_row-unlock i id (x ∷ rows) h = ground (arith, has_row-unlock i id rows)

unlock-HasUniqueIds :
    (id : Uuid) (rows : List OutboxRow) → HasUniqueIds rows → HasUniqueIds (unlock id rows)
unfolding unlock
unlock-HasUniqueIds id [] u = tt
unlock-HasUniqueIds id (x ∷ rows) (fresh, u) = elim (Bool-cases (x.id == id)) [
  | inl own ↦ rw own (unlock-HasUniqueIds id rows u)
  | inr other ↦ rw other (has_row-unlock x.id id rows fresh, unlock-HasUniqueIds id rows u)
]

-- A row with another id stays as it was.
IsRow-mark :
    (now : ℕ) (id : Uuid) (rows : List OutboxRow) (r : OutboxRow)
    → IsRow r rows
    → (r.id == id) ≡ false
    → IsRow r (mark_published now id rows)
unfolding mark_published
IsRow-mark now id [] r m other = absurd m
IsRow-mark now id (x ∷ rows) r (inl e) other =
    rw (ap (λ (y : OutboxRow). y.id == id) e ∙ other) (inl e)
IsRow-mark now id (x ∷ rows) r (inr m) other = inr (IsRow-mark now id rows r m other)

IsRow_longer : (rows : List OutboxRow) (x r : OutboxRow) → IsRow r rows → IsRow r (rows ++ x ∷ [])
IsRow_longer [] x r m = absurd m
IsRow_longer (y ∷ rows) x r (inl e) = inl e
IsRow_longer (y ∷ rows) x r (inr m) = inr (IsRow_longer rows x r m)

has_row-append :
    (i : Uuid) (rows : List OutboxRow) (x : OutboxRow)
    → has_row i rows ≡ false
    → (x.id == i) ≡ false
    → has_row i (rows ++ x ∷ []) ≡ false
unfolding has_row
has_row-append i [] x h other = ground arith
has_row-append i (y ∷ rows) x h other = ground (arith, has_row-append i rows x)

append-HasUniqueIds :
    (rows : List OutboxRow) (x : OutboxRow)
    → HasUniqueIds rows
    → has_row x.id rows ≡ false
    → HasUniqueIds (rows ++ x ∷ [])
unfolding has_row
append-HasUniqueIds [] x u fresh = (refl, tt)
append-HasUniqueIds (y ∷ rows) x (h, u) fresh = (
  has_row-append y.id rows x h ground (arith, ==_iff x.id y.id, ==_iff y.id x.id, ==_refl y.id),
  append-HasUniqueIds rows x u (ground arith),
)

AllSent-arrives :
    (rows : List OutboxRow) (x : OutboxRow) (broker : List Sent)
    → is_pending x ≡ true
    → AllSent rows broker
    → AllSent (rows ++ x ∷ []) broker
AllSent-arrives [] x broker waits h = (λ sent. absurd (clash waits sent), tt)
  where
    clash : is_pending x ≡ true → is_pending x ≡ false → ⊥
    clash a b = cc
AllSent-arrives (y ∷ rows) x broker waits (h, k) = (h, AllSent-arrives rows x broker waits k)

pub record IsLocking (s : Relays) : Type 0 where
  pub valid : IsValid s.world
  pub distinct : HasUniqueIds s.locked
  pub held : (r : OutboxRow) → IsRow r s.locked → IsRow r s.world.outbox × (is_pending r ≡ true)

-- A pass touches its own row, and no other that is locked.
publish_row-IsRow :
    (f : Fate) (r x : OutboxRow) (w : World)
    → IsRow x w.outbox
    → (x.id == r.id) ≡ false
    → IsRow x (publish_row f r w).outbox
unfolding publish_row
publish_row-IsRow send_fails r x w m other = m
publish_row-IsRow commit_fails r x w m other = m
publish_row-IsRow (goes_well now) r x w m other = IsRow-mark now r.id w.outbox x m other

step-IsLocking : {crashes : Bool} {s t : Relays} → IsLocking s → RelayStep crashes s t → IsLocking t
step-IsLocking {s} k (arrives r waits fresh) = record {
  valid = record {
    unique = append-HasUniqueIds s.world.outbox r k.valid.unique fresh;
    sent = AllSent-arrives s.world.outbox r s.world.broker waits k.valid.sent;
  };
  distinct = k.distinct;
  held = λ x m. let (row, w) = k.held x m in (IsRow_longer s.world.outbox r x row, w);
}
step-IsLocking {s} k (selects r found) =
    let (m, waits) = next_pending-IsRow (skip_locked s.locked s.world.outbox) r found in
    let (row, free) = skip_locked-IsRow s.locked s.world.outbox r m in
    record {
      valid = k.valid;
      distinct = (free, k.distinct);
      held = λ x m'. elim m' [
        | inl e ↦
            subst (λ (y : OutboxRow). IsRow y s.world.outbox × (is_pending y ≡ true)) e (row, waits)
        | inr old ↦ k.held x old
      ];
    }
step-IsLocking {s} k (ends f r m may) = record {
  valid = publish_row-IsValid f r s.world (k.held r m).0 k.valid;
  distinct = unlock-HasUniqueIds r.id s.locked k.distinct;
  held = λ x m'.
      let (old, other) = unlock-IsRow r.id s.locked x m' in
      let (row, waits) = k.held x old in (publish_row-IsRow f r x s.world row other, waits);
}

idle-IsLocking : IsLocking idle
idle-IsLocking = record {
  valid = record { unique = tt; sent = tt };
  distinct = tt;
  held = λ r m. absurd m;
}

-- However many relays work on the outbox, and whatever fails: every row that is marked as published was
-- sent, no two transactions hold one row, and a row that one holds is in the outbox and waits.
pub relays-IsLocking : {crashes : Bool} {t : Relays} → RelayReach crashes idle t → IsLocking t
relays-IsLocking start = idle-IsLocking
relays-IsLocking (later reach step) = step-IsLocking (relays-IsLocking reach) step
