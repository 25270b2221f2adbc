-- ===== src/Payment/Count.antt =====
-- How many outcome events an order has in the outbox, and how many payments with that outcome.
use mathlib.Core.Option.{some-injective}
use food_flow.Prelude.{
  Bool-cases, inl, inr, ℕ, ◌+◌, ◌≤◌, ◌≡◌, refl, true, false, Bool, ◌&&◌, Option, none, some, List,
  [], ◌∷◌, ◌++◌, arith, ◌==◌, ==_refl, if◌then◌else◌,
}
use food_flow.Shared.Uuid.{Uuid, IdText, str, malformed}
use food_flow.Shared.Event.{EventType, payment_succeeded, payment_failed}
use food_flow.Shared.Table.{Table, lookup, set_row}
use food_flow.Shared.Tables.{OutboxRow}
use food_flow.Payment.Db.{outcome_status, Payment, PaymentStatus, succeeded, failed, order_paid}

abbrev pub keyed_by : Uuid → Option IdText → Bool
keyed_by o none = false
keyed_by o (some (malformed s)) = false
keyed_by o (some (str u)) = u == o

-- Is this the topic of the outcome?
abbrev pub tells : Bool → EventType → Bool
tells true payment_succeeded = true
tells false payment_failed = true
tells _ _ = false

abbrev pub row_count : Bool → Uuid → OutboxRow → ℕ
row_count b o r = if tells b r.topic && keyed_by o r.key then 1 else 0

-- The outcome rows for an order.
unfoldable pub outcomes : Bool → Uuid → List OutboxRow → ℕ
outcomes b o [] = 0
outcomes b o (r ∷ rs) = row_count b o r + outcomes b o rs

-- 1 if the payment has the outcome.
abbrev pub has_outcome : Bool → PaymentStatus → ℕ
has_outcome true succeeded = 1
has_outcome false failed = 1
has_outcome _ _ = 0

abbrev pub payment_count : Bool → Uuid → Payment → ℕ
payment_count b o p = if p.order_id == o then has_outcome b p.status else 0

-- The payments of an order that have the outcome.
unfoldable pub settled : Bool → Uuid → Table Payment → ℕ
settled b o [] = 0
settled b o ((i, p) ∷ rows) = payment_count b o p + settled b o rows

pub outcomes-append :
    (b : Bool) (o : Uuid) (rs : List OutboxRow) (r : OutboxRow)
    → outcomes b o (rs ++ r ∷ []) ≡ outcomes b o rs + row_count b o r
unfolding outcomes
outcomes-append b o [] r = omega arith
outcomes-append b o (x ∷ rs) r = omega (arith, outcomes-append b o rs r)

pub settled-set_row :
    (b : Bool) (o id : Uuid) (p p' : Payment) (rows : Table Payment)
    → lookup id rows ≡ some p
    → settled b o (set_row id p' rows) + payment_count b o p
      ≡ settled b o rows + payment_count b o p'
unfolding settled lookup set_row
settled-set_row b o id p p' [] h = cc
settled-set_row b o id p p' ((i, q) ∷ rows) h = elim (Bool-cases (i == id)) [
  | inl same ↦ rw same (rw (some-injective q p (rw same at h)) (omega arith))
  | inr other ↦ rw other (omega (arith, settled-set_row b o id p p' rows (rw other at h)))
]

-- The UNIQUE constraint on `order_id`.
abbrev pub HasUniqueOrders : Table Payment → Type 0
HasUniqueOrders [] = Unit
HasUniqueOrders ((i, p) ∷ rows) = (order_paid p.order_id rows ≡ false) × HasUniqueOrders rows

pub order_paid-set_row :
    (o id : Uuid) (p p' : Payment) (rows : Table Payment)
    → lookup id rows ≡ some p
    → p'.order_id ≡ p.order_id
    → order_paid o (set_row id p' rows) ≡ order_paid o rows
unfolding order_paid lookup set_row
order_paid-set_row o id p p' [] h e = cc
order_paid-set_row o id p p' ((i, q) ∷ rows) h e = ground (arith, order_paid-set_row o id p p' rows)

pub set_row-HasUniqueOrders :
    (id : Uuid) (p p' : Payment) (rows : Table Payment)
    → lookup id rows ≡ some p
    → p'.order_id ≡ p.order_id
    → HasUniqueOrders rows
    → HasUniqueOrders (set_row id p' rows)
unfolding lookup set_row
set_row-HasUniqueOrders id p p' [] h e u = cc
set_row-HasUniqueOrders id p p' ((i, q) ∷ rows) h e u =
    ground (arith, set_row-HasUniqueOrders id p p' rows, order_paid-set_row q.order_id id p p' rows)

settled_unpaid :
    (b : Bool) (o : Uuid) (rows : Table Payment) → order_paid o rows ≡ false → settled b o rows ≡ 0
unfolding settled order_paid
settled_unpaid b o [] h = refl
settled_unpaid b o ((i, p) ∷ rows) h = ground (arith, settled_unpaid b o rows)

settled_both :
    (o : Uuid) (rows : Table Payment)
    → order_paid o rows ≡ false
    → settled true o rows + settled false o rows ≡ 0
settled_both o rows h = omega (arith, settled_unpaid true o rows h, settled_unpaid false o rows h)

-- An order has one payment at most, so it has one outcome at most.
pub settled-le :
    (o : Uuid) (rows : Table Payment)
    → HasUniqueOrders rows
    → settled true o rows + settled false o rows ≤ 1
unfolding settled
settled-le o [] u = omega arith
settled-le o ((i, p) ∷ rows) u = ground (arith, settled-le o rows u.1, settled_both o rows)

-- A payment that has an outcome counts for its order.
pub settled-ge :
    (id : Uuid) (c : Bool) (p : Payment) (rows : Table Payment)
    → lookup id rows ≡ some p
    → p.status ≡ outcome_status c
    → 1 ≤ settled true p.order_id rows + settled false p.order_id rows
unfolding settled lookup
settled-ge id c p [] h e = cc
settled-ge id true p ((i, q) ∷ rows) h e =
    ground (arith, settled-ge id true p rows, ==_refl p.order_id)
settled-ge id false p ((i, q) ∷ rows) h e =
    ground (arith, settled-ge id false p rows, ==_refl p.order_id)
