-- ===== src/Saga/Settled.antt =====
-- The payments that a saga's outcome events tell of.
use food_flow.Prelude.{
  ◌≤◌, ◌≡◌, refl, ap, Bool, true, false, some, [], ◌∷◌, arith, inl, inr, ◌==◌, ==_iff, Bool-cases,
  leb, ==_refl,
}
use food_flow.Shared.Uuid.{Uuid}
use food_flow.Shared.Table.{Table, lookup, HasUniqueKeys}
use food_flow.Payment.Db.{Payment, PaymentStatus, order_paid, outcome_status, succeeded, failed}
use food_flow.Payment.Count.{settled, payment_count, has_outcome}

has_outcome_status : (b : Bool) (st : PaymentStatus) → 1 ≤ has_outcome b st → st ≡ outcome_status b
has_outcome_status true succeeded h = refl
has_outcome_status true failed h = absurd (omega arith)
has_outcome_status true PaymentStatus.processing h = absurd (omega arith)
has_outcome_status false succeeded h = absurd (omega arith)
has_outcome_status false failed h = refl
has_outcome_status false PaymentStatus.processing h = absurd (omega arith)

pub order_paid-lookup :
    (i : Uuid) (p : Payment) (rows : Table Payment)
    → lookup i rows ≡ some p
    → order_paid p.order_id rows ≡ true
unfolding order_paid lookup
order_paid-lookup i p [] h = cc
order_paid-lookup i p ((j, q) ∷ rows) h =
    ground (arith, order_paid-lookup i p rows, ==_refl p.order_id)

-- A payment that is counted is in the table.
pub settled_found :
    (b : Bool) (o : Uuid) (rows : Table Payment)
    → HasUniqueKeys rows
    → 1 ≤ settled b o rows
    → (i : Uuid) × (p : Payment) × (lookup i rows ≡ some p)
      × (p.order_id ≡ o)
      × (p.status ≡ outcome_status b)
unfolding settled lookup
settled_found b o [] u h = absurd (omega arith)
settled_found b o ((i, q) ∷ rows) u h = elim (Bool-cases (leb 1 (payment_count b o q))) [
  | inl counted ↦ (
    i,
    q,
    rw (==_refl i) refl,
    (==_iff q.order_id o).0 (ground arith),
    has_outcome_status b q.status (ground arith),
  )
  | inr passed ↦
      let (j, p, found, own, status) = settled_found b o rows u.1 (ground arith) in
      (
        j,
        p,
        elim (Bool-cases (i == j)) [
          | inl same ↦ absurd (twice j p ((==_iff i j).0 same) found)
          | inr distinct ↦ rw distinct found
        ],
        own,
        status,
      )
]
  where
    twice : (j : Uuid) (p : Payment) → i ≡ j → lookup j rows ≡ some p → ⊥
    twice j p e found = ground (arith, u.0, ap (λ (x : Uuid). lookup x rows) e)
