-- ===== src/Shared/Outbox/Relay.antt =====
-- _poll_and_publish of shared/outbox.py: it ends, and what it marks as published was sent.
use food_flow.Prelude.{
  ℕ, ◌+◌, ◌≡◌, refl, sym, ap, subst, ◌∙◌, true, false, Option, none, some, List, [], ◌∷◌, ◌++◌, map,
  arith, inl, inr, ◌⊎◌, ◌==◌, ==_refl, ==_iff, leb, if◌then◌else◌, Bool-cases,
}
use mathlib.Core.Option.{some-injective}
use food_flow.Shared.Uuid.{Uuid}
use food_flow.Shared.Tables.{OutboxRow, has_row}
use food_flow.Shared.Outbox.{Sent, sent_of, is_pending, earlier, next_pending, mark_published}

-- The record is among those that the broker has.
abbrev pub IsSent : Sent → List Sent → Type 0
IsSent s [] = ⊥
IsSent s (x ∷ xs) = (x ≡ s) ⊎ IsSent s xs

abbrev pub IsRow : OutboxRow → List OutboxRow → Type 0
IsRow r [] = ⊥
IsRow r (x ∷ xs) = (x ≡ r) ⊎ IsRow r xs

IsSent-append : (s : Sent) (xs ys : List Sent) → IsSent s xs → IsSent s (xs ++ ys)
IsSent-append s [] ys h = absurd h
IsSent-append s (x ∷ xs) ys (inl e) = inl e
IsSent-append s (x ∷ xs) ys (inr h) = inr (IsSent-append s xs ys h)

IsSent-last : (s : Sent) (xs : List Sent) → IsSent s (xs ++ s ∷ [])
IsSent-last s [] = inl refl
IsSent-last s (x ∷ xs) = inr (IsSent-last s xs)

-- The rows that wait to be sent.
unfoldable pub pending : List OutboxRow → ℕ
pending [] = 0
pending (r ∷ rs) = (if is_pending r then 1 else 0) + pending rs

earlier-cases :
    (r : OutboxRow) (o : Option OutboxRow) (s : OutboxRow)
    → earlier r o ≡ some s
    → (r ≡ s) ⊎ (o ≡ some s)
earlier-cases r none s h = inl (some-injective r s h)
earlier-cases r (some t) s h = elim (Bool-cases (leb r.created_at t.created_at)) [
  | inl e ↦ inl (some-injective r s (rw e at h))
  | inr e ↦ inr (rw e at h)
]

-- What the query returns is a row of the table, and waits.
pub next_pending-IsRow :
    (rows : List OutboxRow) (r : OutboxRow)
    → next_pending rows ≡ some r
    → IsRow r rows × (is_pending r ≡ true)
unfolding next_pending
next_pending-IsRow [] r h = cc
next_pending-IsRow (x ∷ rows) r h = elim (Bool-cases (is_pending x)) [
  | inr sent ↦ let (m, e) = next_pending-IsRow rows r (rw sent at h) in (inr m, e)
  | inl waits ↦ elim (earlier-cases x (next_pending rows) r (rw waits at h)) [
    | inl same ↦ (inl same, ap is_pending (sym same) ∙ waits)
    | inr later ↦ let (m, e) = next_pending-IsRow rows r later in (inr m, e)
  ]
]

pub next_pending-none : (rows : List OutboxRow) → next_pending rows ≡ none → pending rows ≡ 0
unfolding next_pending pending
next_pending-none [] h = refl
next_pending-none (x ∷ rows) h = elim (Bool-cases (is_pending x)) [
  | inr sent ↦ rw sent (omega (arith, next_pending-none rows (rw sent at h)))
  | inl waits ↦ absurd (earlier-some x (next_pending rows) (rw waits at h))
]
  where
    earlier-some : (x : OutboxRow) (o : Option OutboxRow) → earlier x o ≡ none → ⊥
    earlier-some x none h = cc
    earlier-some x (some y) h = ground arith

-- The primary key of the table.
abbrev pub HasUniqueIds : List OutboxRow → Type 0
HasUniqueIds [] = Unit
HasUniqueIds (r ∷ rs) = (has_row r.id rs ≡ false) × HasUniqueIds rs

pub has_row-IsRow :
    (r : OutboxRow) (rows : List OutboxRow) → IsRow r rows → has_row r.id rows ≡ true
unfolding has_row
has_row-IsRow r [] m = absurd m
has_row-IsRow r (x ∷ rows) (inl e) = rw e (ground (arith, ==_refl r.id))
has_row-IsRow r (x ∷ rows) (inr m) = ground (arith, has_row-IsRow r rows m)

-- A row further on has another id than the first.
pub other_id :
    (x r : OutboxRow) (rows : List OutboxRow)
    → IsRow r rows
    → has_row x.id rows ≡ false
    → (x.id == r.id) ≡ false
other_id x r rows m fresh =
    ground (arith, has_row-IsRow r rows m, ==_iff x.id r.id, ap (λ (i : Uuid). has_row i rows))

pub mark_absent :
    (now : ℕ) (id : Uuid) (rows : List OutboxRow)
    → has_row id rows ≡ false
    → mark_published now id rows ≡ rows
unfolding has_row mark_published
mark_absent now id [] h = refl
mark_absent now id (x ∷ rows) h = ground (arith, mark_absent now id rows)

has_row-mark :
    (now : ℕ) (id u : Uuid) (rows : List OutboxRow)
    → has_row u (mark_published now id rows) ≡ has_row u rows
unfolding has_row mark_published
has_row-mark now id u [] = refl
has_row-mark now id u (x ∷ rows) = ground (arith, has_row-mark now id u rows)

pub mark-HasUniqueIds :
    (now : ℕ) (id : Uuid) (rows : List OutboxRow)
    → HasUniqueIds rows
    → HasUniqueIds (mark_published now id rows)
unfolding mark_published
mark-HasUniqueIds now id [] u = tt
mark-HasUniqueIds now id (x ∷ rows) u =
    ground (arith, has_row-mark now id x.id rows, mark-HasUniqueIds now id rows)

pub sent_of-mark :
    (now : ℕ) (id : Uuid) (rows : List OutboxRow)
    → map sent_of (mark_published now id rows) ≡ map sent_of rows
unfolding mark_published
sent_of-mark now id [] = refl
sent_of-mark now id (x ∷ rows) = elim (Bool-cases (x.id == id)) [
  | inl own ↦ rw own (ap (λ l. sent_of x ∷ l) (sent_of-mark now id rows))
  | inr other ↦ rw other (ap (λ l. sent_of x ∷ l) (sent_of-mark now id rows))
]

pending-mark_head :
    (now : ℕ) (x : OutboxRow) (rows : List OutboxRow)
    → is_pending x ≡ true
    → has_row x.id rows ≡ false
    → pending (mark_published now x.id (x ∷ rows)) + 1 ≡ pending (x ∷ rows)
unfolding pending mark_published
pending-mark_head now x rows waits fresh =
    rw (==_refl x.id, waits) (omega (arith, ap pending (mark_absent now x.id rows fresh)))

-- Marking a row that waits leaves one less.
pub pending-mark :
    (now : ℕ) (r : OutboxRow) (rows : List OutboxRow)
    → IsRow r rows
    → is_pending r ≡ true
    → HasUniqueIds rows
    → pending (mark_published now r.id rows) + 1 ≡ pending rows
unfolding pending mark_published
pending-mark now r [] m h u = absurd m
pending-mark now r (x ∷ rows) (inl e) h (fresh, u) =
    subst (λ (y : OutboxRow). pending (mark_published now y.id (x ∷ rows)) + 1 ≡ pending (x ∷ rows))
      e (pending-mark_head now x rows (ap is_pending e ∙ h) fresh)
pending-mark now r (x ∷ rows) (inr m) h (fresh, u) =
    rw (other_id x r rows m fresh) (omega (arith, pending-mark now r rows m h u))

-- Every record of the first list is among those that the broker has.
abbrev pub HasAll : List Sent → List Sent → Type 0
HasAll [] broker = Unit
HasAll (s ∷ ss) broker = IsSent s broker × HasAll ss broker

-- Every row that counts as published was sent.
abbrev pub AllSent : List OutboxRow → List Sent → Type 0
AllSent [] broker = Unit
AllSent (r ∷ rs) broker = (is_pending r ≡ false → IsSent (sent_of r) broker) × AllSent rs broker

pub AllSent-append :
    (rows : List OutboxRow) (b : List Sent) (s : Sent) → AllSent rows b → AllSent rows (b ++ s ∷ [])
AllSent-append [] b s h = tt
AllSent-append (r ∷ rows) b s (h, k) =
    (λ e. IsSent-append (sent_of r) b (s ∷ []) (h e), AllSent-append rows b s k)

pub AllSent-mark :
    (now : ℕ) (r : OutboxRow) (rows : List OutboxRow) (b : List Sent)
    → IsRow r rows
    → HasUniqueIds rows
    → AllSent rows b
    → AllSent (mark_published now r.id rows) (b ++ sent_of r ∷ [])
unfolding mark_published
AllSent-mark now r [] b m u h = absurd m
AllSent-mark now r (x ∷ rows) b (inl e) (fresh, u) (h, k) =
    subst (λ (y : OutboxRow). AllSent (mark_published now y.id (x ∷ rows)) (b ++ sent_of y ∷ [])) e
      (rw (==_refl x.id, mark_absent now x.id rows fresh)
        (λ _. IsSent-last (sent_of x) b, AllSent-append rows b (sent_of x) k))
AllSent-mark now r (x ∷ rows) b (inr m) (fresh, u) (h, k) =
    rw (other_id x r rows m fresh)
      (λ e. IsSent-append (sent_of x) b (sent_of r ∷ []) (h e), AllSent-mark now r rows b m u k)

pub HasAll-drained :
    (rows : List OutboxRow) (b : List Sent)
    → AllSent rows b
    → pending rows ≡ 0
    → HasAll (map sent_of rows) b
unfolding pending
HasAll-drained [] b h e = tt
HasAll-drained (r ∷ rows) b (h, k) e = elim (Bool-cases (is_pending r)) [
  | inl waits ↦ absurd (ground arith)
  | inr sent ↦ (h sent, HasAll-drained rows b k (omega (arith, rw sent at e)))
]
