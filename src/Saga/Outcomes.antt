-- ===== src/Saga/Outcomes.antt =====
-- What transaction 2 and the rounds of the worker leave of the payments: the same orders and amounts, and
-- no fewer outcomes.
use food_flow.Prelude.{
  ℕ, ◌+◌, ◌≤◌, String, ◌≡◌, refl, ◌∙◌, Bool, true, false, some, [], ◌∷◌, arith, inl, inr, ◌==◌,
  ==_iff, if◌then◌else◌, Bool-cases,
}
use mathlib.Core.Option.{some-injective}
use food_flow.Shared.Uuid.{Uuid, str}
use food_flow.Shared.Error.{Result}
use food_flow.Shared.Event.{Draw}
use food_flow.Shared.Table.{Table, lookup, lookup-set_row}
use food_flow.Shared.Tables.{OutboxRow}
use food_flow.Shared.Transaction.{Tx, ◌>>=◌}
use food_flow.Payment.Db.{Payment, Db, order_paid}
use food_flow.Payment.Consumer.{record_outcome}
use food_flow.Payment.Count.{outcomes, outcomes-append, order_paid-set_row}
use food_flow.Payment.Gateway.{process_payment}
use food_flow.Payment.Outcomes.{outcome_row, with_outcome, outcome_cases, updated}
use food_flow.Payment.Outcomes.Pass.{Passed, failed_pass, already_resolved, resolved_here, passed}
use food_flow.Payment.Reconciliation.{resolve_all, stuck_payments, reconcile_stuck_payments}
use food_flow.Saga.Rows.{AllRows, AllRows-append}

pub record Progress (db db' : Db) : Type 1 where
  pub same_orders : (o : Uuid) → order_paid o db'.payments ≡ order_paid o db.payments
  pub more : (b : Bool) (o : Uuid) → outcomes b o db.events.outbox ≤ outcomes b o db'.events.outbox
  pub same_rows :
      (i : Uuid) (p' : Payment)
      → lookup i db'.payments ≡ some p'
      → (p : Payment) × (lookup i db.payments ≡ some p)
        × (p'.order_id ≡ p.order_id)
        × (p'.amount ≡ p.amount)
  pub added :
      (P : OutboxRow → Type 0)
      → ((d : Draw) (o : Uuid) (b : Bool) → P (outcome_row d o b))
      → AllRows P db.events.outbox
      → AllRows P db'.events.outbox

pub Progress-refl : (db : Db) → Progress db db
Progress-refl db = record {
  same_orders = λ o. refl;
  more = λ b o. omega arith;
  same_rows = λ i p h. (p, h, refl, refl);
  added = λ P each h. h;
}

Progress-trans : (a b c : Db) → Progress a b → Progress b c → Progress a c
Progress-trans a b c x y = record {
  same_orders = λ o. y.same_orders o ∙ x.same_orders o;
  more = λ t o. omega (arith, x.more t o, y.more t o);
  same_rows = λ i p'' h.
      let (p', h', o', a') = y.same_rows i p'' h in
      let (p, h0, o0, a0) = x.same_rows i p' h' in (p, h0, o' ∙ o0, a' ∙ a0);
  added = λ P each h. y.added P each (x.added P each h);
}

with_outcome-same_rows :
    (d : Draw) (id o : Uuid) (b : Bool) (q : Payment) (db : Db)
    → lookup id db.payments ≡ some q
    → (i : Uuid) (p' : Payment) → lookup i (with_outcome d id o b q db).payments ≡ some p'
    → (p : Payment) × (lookup i db.payments ≡ some p)
      × (p'.order_id ≡ p.order_id)
      × (p'.amount ≡ p.amount)
with_outcome-same_rows d id o b q db e i p' h = elim (Bool-cases (id == i)) [
  | inl same ↦
      let written : updated d.now b q ≡ p' =
        some-injective (updated d.now b q) p'
          (ground (arith, lookup-set_row i id (updated d.now b q) db.payments)) in
      (q, ground (arith, ==_iff id i, e), ground arith, ground arith)
  | inr other ↦
      (p', ground (arith, lookup-set_row i id (updated d.now b q) db.payments), refl, refl)
]

with_outcome-Progress :
    (d : Draw) (id o : Uuid) (b : Bool) (q : Payment) (db : Db)
    → lookup id db.payments ≡ some q
    → Progress db (with_outcome d id o b q db)
with_outcome-Progress d id o b q db e = record {
  same_orders = λ i. order_paid-set_row i id q (updated d.now b q) db.payments e refl;
  more = λ t i. omega (arith, outcomes-append t i db.events.outbox (outcome_row d o b));
  same_rows = with_outcome-same_rows d id o b q db e;
  added = λ P each h. AllRows-append P db.events.outbox (outcome_row d o b) h (each d o b);
}

pub record_outcome-Progress :
    (d : Draw) (id o : Uuid) (b : Bool) (q : Payment) (db : Db)
    → lookup id db.payments ≡ some q
    → Progress db (record_outcome d id (str o) b db).1
record_outcome-Progress d id o b q db e = elim (outcome_cases d id o b q db e) [
  | inl (w, same) ↦ rw same (Progress-refl db)
  | inr done ↦ rw done (with_outcome-Progress d id o b q db e)
]

module _ (default : String) (draws : ℕ → Draw) where
  loop-Progress :
      (n : ℕ) {d : Draw} {id : Uuid} {p : Payment} {db : Db} {r : Result Bool × Db}
      (rest : Bool → Tx Db ℕ)
      → Passed default d id p db r
      → ((b : Bool) (db' : Db) → Progress db' (rest b db').1)
      → Progress db (◌>>=◌ (λ (s : Db). r) rest db).1
  loop-Progress n {db} rest (failed_pass e) ih = Progress-refl db
  loop-Progress n {db} rest (already_resolved gone) ih = ih false db
  loop-Progress n {d} {id} {p} {db} rest (resolved_here q e s) ih =
      let db' = with_outcome d id p.order_id (process_payment default p.payment_simulate) q db in
      Progress-trans db db' (rest true db').1
        (with_outcome-Progress d id p.order_id (process_payment default p.payment_simulate) q db e)
        (ih true db')

  resolve_all-Progress :
      (rows : Table Payment) (pass n : ℕ) (db : Db)
      → Progress db (resolve_all default draws rows pass n db).1
  unfolding resolve_all
  resolve_all-Progress [] pass n db = Progress-refl db
  resolve_all-Progress ((id, p) ∷ rows) pass n db =
      loop-Progress n (λ b. resolve_all default draws rows (pass + 1) (if b then n + 1 else n))
        (passed default (draws pass) id p db)
        (λ b db'. resolve_all-Progress rows (pass + 1) (if b then n + 1 else n) db')

  pub reconcile-Progress :
      (now duration : ℕ) (db : Db)
      → Progress db (reconcile_stuck_payments default draws now duration db).1
  unfolding reconcile_stuck_payments
  reconcile-Progress now duration db =
      resolve_all-Progress (stuck_payments now duration db.payments) 0 0 db
