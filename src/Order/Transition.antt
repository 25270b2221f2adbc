-- ===== src/Order/Transition.antt =====
-- `transition_order` (services/order/state_machine.py).
use food_flow.Prelude.{
  Bool, ℕ, ◌≡◌, inl, inr, Option, none, some, true, false, not, Option-cases, Bool-cases, arith,
}
use food_flow.Shared.Uuid.{Uuid}
use food_flow.Shared.Error.{Result, ok, err, order_not_found, invalid_transition}
use food_flow.Shared.Table.{lookup, set_row}
use food_flow.Shared.Transaction.{Tx, Done, raise, gets, modify, raise_if, ◌>>=◌, ◌>>◌}
use food_flow.Order.Status.{Status, status_text, is_allowed, ◌⟶◌, is_allowed-⟶, ⟶-is_allowed}
use food_flow.Order.Db.{Order, Db}

-- UPDATE orders SET status = $1, updated_at = NOW() WHERE id = $2, on the row that was selected.
abbrev pub moved : ℕ → Status → Order → Order
moved now new_status o = record o { status = new_status; updated_at = now }

-- By the row that the SELECT … FOR UPDATE found.
unfoldable pub transition_row : ℕ → Uuid → Status → Option Order → Tx Db Done
transition_row now order_id new_status none = raise order_not_found
transition_row now order_id new_status (some o) = do
  raise_if (not (is_allowed o.status new_status))
      (invalid_transition (status_text o.status) (status_text new_status))
  modify (λ (db : Db). record db { orders = set_row order_id (moved now new_status o) db.orders })

-- `now` is the transaction's NOW().
unfoldable pub transition_order : ℕ → Uuid → Status → Tx Db Done
transition_order now order_id new_status = do
  row ← gets (λ (db : Db). lookup order_id db.orders)
  transition_row now order_id new_status row

-- What one call does, by the row that it finds: it raises and changes nothing, or the order moves
-- along an arrow of the diagram.
pub data Transitioned (now : ℕ) (order_id : Uuid) (t : Status) (db : Db)
    : Result Done × Db → Type 0 where
  missing :
      lookup order_id db.orders ≡ none → Transitioned now order_id t db (err order_not_found, db)
  refused :
      (o : Order)
      → lookup order_id db.orders ≡ some o
      → ¬ (o.status ⟶ t)
      → Transitioned now order_id t db
          (err (invalid_transition (status_text o.status) (status_text t)), db)
  done :
      (o : Order)
      → lookup order_id db.orders ≡ some o
      → o.status ⟶ t
      → Transitioned now order_id t db
          (ok tt, record db { orders = set_row order_id (moved now t o) db.orders })

-- `transition_order` raises ValueError for an unknown order and InvalidTransitionError off the
-- diagram, changing nothing either time; else it writes the new status and the time.
pub transition_order-Transitioned :
    (now : ℕ) (order_id : Uuid) (t : Status) (db : Db)
    → Transitioned now order_id t db (transition_order now order_id t db)
transition_order-Transitioned now order_id t db = elim (Option-cases (lookup order_id db.orders)) [
  | inl e ↦ rw (no_row e) (missing e)
  | inr (o, e) ↦ elim (Bool-cases (is_allowed o.status t)) [
    | inl on ↦ rw (goes o e on) (done o e (is_allowed-⟶ o.status t on))
    | inr off ↦ rw (stays o e off) (refused o e (λ arrow. clash (⟶-is_allowed arrow) off))
  ]
]
  where
    clash : {b : Bool} → b ≡ true → b ≡ false → ⊥
    clash p q = cc

    no_row :
        lookup order_id db.orders ≡ none
        → transition_order now order_id t db ≡ (err order_not_found, db)
    no_row e = unfold transition_order transition_row in ground arith

    goes :
        (o : Order)
        → lookup order_id db.orders ≡ some o
        → is_allowed o.status t ≡ true
        → transition_order now order_id t db
          ≡ (ok tt, record db { orders = set_row order_id (moved now t o) db.orders })
    goes o e y = unfold transition_order transition_row in ground arith

    stays :
        (o : Order)
        → lookup order_id db.orders ≡ some o
        → is_allowed o.status t ≡ false
        → transition_order now order_id t db
          ≡ (err (invalid_transition (status_text o.status) (status_text t)), db)
    stays o e n = unfold transition_order transition_row in ground arith
