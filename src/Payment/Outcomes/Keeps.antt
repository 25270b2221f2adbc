-- ===== src/Payment/Outcomes/Keeps.antt =====
-- A round of services/payment/reconciliation.py keeps the invariant.
use food_flow.Prelude.{
  ==_refl, ℕ, ◌+◌, String, ◌≡◌, sym, ◌∙◌, true, false, Bool, none, some, [], ◌∷◌, arith, inl, inr,
  ap, if◌then◌else◌, Bool-cases,
}
use mathlib.Core.Option.{some-injective}
use food_flow.Shared.Uuid.{Uuid}
use food_flow.Shared.Error.{Result, ok}
use food_flow.Shared.Event.{Draw}
use food_flow.Shared.Table.{Table, lookup, HasUniqueKeys, lookup-set_row}
use food_flow.Shared.Transaction.{Tx, ◌>>=◌}
use food_flow.Payment.Gateway.{process_payment}
use food_flow.Payment.Db.{Payment, Db}
use food_flow.Payment.Reconciliation.{
  resolve_all, stuck_payments, reconcile_stuck_payments, is_stuck,
}
use food_flow.Payment.Outcomes.{IsValid, with_outcome-IsValid, with_outcome, updated}
use food_flow.Payment.Outcomes.Pass.{Passed, failed_pass, already_resolved, resolved_here, passed}

-- Every row of a list that was read is in the table, as it was read.
abbrev pub AllIn : Table Payment → Table Payment → Type 0
AllIn [] table = Unit
AllIn ((i, p) ∷ rows) table = (lookup i table ≡ some p) × AllIn rows table

AllIn-cons :
    (rows table : Table Payment) (k : Uuid) (v : Payment)
    → lookup k table ≡ none
    → AllIn rows table
    → AllIn rows ((k, v) ∷ table)
unfolding lookup
AllIn-cons [] table k v fresh h = tt
AllIn-cons ((i, p) ∷ rows) table k v fresh h = (ground arith, AllIn-cons rows table k v fresh h.1)

AllIn-self : (table : Table Payment) → HasUniqueKeys table → AllIn table table
unfolding lookup
AllIn-self [] u = tt
AllIn-self ((i, p) ∷ rows) u =
    (ground (arith, ==_refl i), AllIn-cons rows rows i p u.0 (AllIn-self rows u.1))

AllIn-stuck :
    (now duration : ℕ) (rows table : Table Payment)
    → AllIn rows table
    → AllIn (stuck_payments now duration rows) table
unfolding stuck_payments
AllIn-stuck now duration [] table h = tt
AllIn-stuck now duration ((i, p) ∷ rows) table h = elim (Bool-cases (is_stuck now duration p)) [
  | inl stuck ↦ rw stuck (h.0, AllIn-stuck now duration rows table h.1)
  | inr fine ↦ rw fine (AllIn-stuck now duration rows table h.1)
]

-- What a row that was read still says: its id is in the table, for the same order.
abbrev SameOrders : Table Payment → Table Payment → Type 0
SameOrders [] table = Unit
SameOrders ((i, p) ∷ rows) table =
    ((q : Payment) → lookup i table ≡ some q → q.order_id ≡ p.order_id) × SameOrders rows table

AllIn-SameOrders : (rows table : Table Payment) → AllIn rows table → SameOrders rows table
AllIn-SameOrders [] table h = tt
AllIn-SameOrders ((i, p) ∷ rows) table h = (
  λ q e. ap (λ (x : Payment). x.order_id) (some-injective q p (sym e ∙ h.0)),
  AllIn-SameOrders rows table h.1,
)

SameOrders-with_outcome :
    (d : Draw) (id o : Uuid) (b : Bool) (q : Payment) (db : Db) (rows : Table Payment)
    → lookup id db.payments ≡ some q
    → SameOrders rows db.payments
    → SameOrders rows (with_outcome d id o b q db).payments
SameOrders-with_outcome d id o b q db [] e h = tt
SameOrders-with_outcome d id o b q db ((i, p) ∷ rows) e h = (
  λ r er. ground (arith, lookup-set_row i id (updated d.now b q) db.payments, h.0 q, h.0 r),
  SameOrders-with_outcome d id o b q db rows e h.1,
)

Passed-SameOrders :
    {default : String} {d : Draw} {id : Uuid} {p : Payment} {db : Db} {r : Result Bool × Db}
    (rows : Table Payment)
    → Passed default d id p db r
    → SameOrders rows db.payments
    → SameOrders rows r.1.payments
Passed-SameOrders rows (failed_pass e) h = h
Passed-SameOrders rows (already_resolved gone) h = h
Passed-SameOrders {default} {d} {id} {p} {db} rows (resolved_here q e s) h =
    SameOrders-with_outcome d id p.order_id (process_payment default p.payment_simulate) q db rows e
      h

Passed-IsValid :
    {default : String} {d : Draw} {id : Uuid} {p : Payment} {db : Db} {r : Result Bool × Db}
    → Passed default d id p db r
    → ((q : Payment) → lookup id db.payments ≡ some q → q.order_id ≡ p.order_id)
    → IsValid db
    → IsValid r.1
Passed-IsValid (failed_pass e) same v = v
Passed-IsValid (already_resolved gone) same v = v
Passed-IsValid {default} {d} {id} {p} {db} (resolved_here q e s) same v =
    rw (← same q e)
      (with_outcome-IsValid d id (process_payment default p.payment_simulate) q db e s v)

module _ (default : String) (draws : ℕ → Draw) where
  loop-IsValid :
      (rows : Table Payment) (n : ℕ) {d : Draw} {id : Uuid} {p : Payment} {db : Db}
      {r : Result Bool × Db} (rest : Bool → Tx Db ℕ)
      → Passed default d id p db r
      → ((b : Bool) (db' : Db)
          → SameOrders rows db'.payments
          → IsValid db'
          → IsValid (rest b db').1)
      → SameOrders ((id, p) ∷ rows) db.payments
      → IsValid db
      → IsValid (◌>>=◌ (λ (s : Db). r) rest db).1
  loop-IsValid rows n rest (failed_pass e) ih same v = v
  loop-IsValid rows n {db} rest (already_resolved gone) ih same v = ih false db same.1 v
  loop-IsValid rows n {d} {id} {p} {db} rest (resolved_here q e s) ih same v =
      let db' = with_outcome d id p.order_id (process_payment default p.payment_simulate) q db in
      let here : Passed default d id p db (ok true, db') = resolved_here q e s in
      ih true db' (Passed-SameOrders rows here same.1) (Passed-IsValid here same.0 v)

  resolve_all-IsValid :
      (rows : Table Payment) (pass n : ℕ) (db : Db)
      → SameOrders rows db.payments
      → IsValid db
      → IsValid (resolve_all default draws rows pass n db).1
  unfolding resolve_all
  resolve_all-IsValid [] pass n db same v = v
  resolve_all-IsValid ((id, p) ∷ rows) pass n db same v =
      loop-IsValid rows n (λ b. resolve_all default draws rows (pass + 1) (if b then n + 1 else n))
        (passed default (draws pass) id p db)
        (λ b db' h w. resolve_all-IsValid rows (pass + 1) (if b then n + 1 else n) db' h w) same v

  -- A round keeps the invariant, whether it ends or one of its passes raises.
  pub reconcile-IsValid :
      (now duration : ℕ) (db : Db)
      → IsValid db
      → IsValid (reconcile_stuck_payments default draws now duration db).1
  unfolding reconcile_stuck_payments
  reconcile-IsValid now duration db v =
      resolve_all-IsValid (stuck_payments now duration db.payments) 0 0 db
        (AllIn-SameOrders (stuck_payments now duration db.payments) db.payments
          (AllIn-stuck now duration db.payments db.payments (AllIn-self db.payments v.unique)))
        v
