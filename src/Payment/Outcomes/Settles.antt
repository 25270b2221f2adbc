-- ===== src/Payment/Outcomes/Settles.antt =====
-- A round of services/payment/reconciliation.py leaves no payment that it found stuck without an
-- outcome.
use food_flow.Prelude.{
  subst, ==_iff, ==_refl, ℕ, ◌+◌, String, ◌≡◌, refl, ◌≢◌, true, false, Bool, some, [], ◌∷◌, arith,
  inl, inr, ◌==◌, if◌then◌else◌, Bool-cases,
}
use mathlib.Core.Option.{some-injective}
use food_flow.Shared.Uuid.{Uuid}
use food_flow.Shared.Error.{Result, ok, err}
use food_flow.Shared.Event.{Draw}
use food_flow.Shared.Table.{lookup-nil, lookup-cons, Table, lookup, lookup-set_row}
use food_flow.Shared.Transaction.{◌>>=◌}
use food_flow.Payment.Gateway.{process_payment}
use food_flow.Payment.Db.{Payment, Db, PaymentStatus, processing, outcome_status}
use food_flow.Payment.Reconciliation.{
  resolve, resolve_all, stuck_payments, reconcile_stuck_payments, is_stuck, still_processing,
}
use food_flow.Payment.Outcomes.{updated}
use food_flow.Payment.Outcomes.Pass.{
  Passed, failed_pass, already_resolved, resolved_here, passed, is_processing-eq,
}

-- The payment has the outcome that the gateway gives for its directive.
abbrev pub IsSettledAs : Bool → Uuid → Db → Type 0
IsSettledAs b i db = (q : Payment) × (lookup i db.payments ≡ some q) × (q.status ≡ outcome_status b)

still-lookup :
    (i : Uuid) (p : Payment) (db : Db)
    → lookup i db.payments ≡ some p
    → p.status ≡ processing
    → still_processing (lookup i db.payments) ≡ true
still-lookup i p db e s = ground arith

outcome-settled : (b : Bool) (s : PaymentStatus) → s ≡ outcome_status b → s ≢ processing
outcome-settled true s e h = cc
outcome-settled false s e h = cc

Passed-IsSettledAs :
    {default : String} {d : Draw} {id : Uuid} {p : Payment} {db : Db} {r : Result Bool × Db}
    (b : Bool) (i : Uuid)
    → Passed default d id p db r
    → IsSettledAs b i db
    → IsSettledAs b i r.1
Passed-IsSettledAs b i (failed_pass e) h = h
Passed-IsSettledAs b i (already_resolved gone) h = h
Passed-IsSettledAs {default} {d} {id} {p} {db} b i (resolved_here q e s) (q', e', s') = (
  q',
  ground (
    arith,
    lookup-set_row i id (updated d.now (process_payment default p.payment_simulate) q) db.payments,
    outcome-settled b q'.status s',
  ),
  s',
)

Passed-lookup_ne :
    {default : String} {d : Draw} {id : Uuid} {p : Payment} {db : Db} {r : Result Bool × Db}
    (i : Uuid) (q : Payment)
    → Passed default d id p db r
    → (id == i) ≡ false
    → lookup i db.payments ≡ some q
    → lookup i r.1.payments ≡ some q
Passed-lookup_ne i q (failed_pass e) ne h = h
Passed-lookup_ne i q (already_resolved gone) ne h = h
Passed-lookup_ne {default} {d} {id} {p} {db} i q (resolved_here q' e s) ne h = ground (
  arith,
  lookup-set_row i id (updated d.now (process_payment default p.payment_simulate) q') db.payments,
)

-- The pass over the payment itself settles it.
Passed-own :
    {default : String} {d : Draw} {id : Uuid} {p : Payment} {db : Db} {r : Result Bool × Db}
    {c : Bool}
    → Passed default d id p db r
    → r.0 ≡ ok c
    → lookup id db.payments ≡ some p
    → p.status ≡ processing
    → IsSettledAs (process_payment default p.payment_simulate) id r.1
Passed-own (failed_pass e) h had s = cc
Passed-own {id} {p} {db} (already_resolved gone) h had s = cc (still-lookup id p db had s)
Passed-own {default} {d} {id} {p} {db} (resolved_here q e s') h had s = (
  updated d.now (process_payment default p.payment_simulate) q,
  ground (
    arith,
    lookup-set_row id id (updated d.now (process_payment default p.payment_simulate) q) db.payments,
    ==_refl id,
  ),
  refl,
)

module _ (default : String) (draws : ℕ → Draw) where
  pub resolve_all-IsSettledAs :
      (rows : Table Payment) (pass n : ℕ) (db : Db) (b : Bool) (i : Uuid)
      → IsSettledAs b i db
      → IsSettledAs b i (resolve_all default draws rows pass n db).1
  unfolding resolve_all
  resolve_all-IsSettledAs [] pass n db b i h = h
  resolve_all-IsSettledAs ((id, p) ∷ rows) pass n db b i h =
      onwards (resolve default (draws pass) (id, p) db)
        (Passed-IsSettledAs b i (passed default (draws pass) id p db) h)
        (λ n' db' k. resolve_all-IsSettledAs rows (pass + 1) n' db' b i k)
    where
      onwards :
          (r : Result Bool × Db)
          → IsSettledAs b i r.1
          → ((n' : ℕ) (db' : Db)
              → IsSettledAs b i db'
              → IsSettledAs b i (resolve_all default draws rows (pass + 1) n' db').1)
          → IsSettledAs b i
              (◌>>=◌
                (λ (s : Db). r)
                (λ c. resolve_all default draws rows (pass + 1) (if c then n + 1 else n))
                db).1
      onwards (ok c, db') k ih = ih (if c then n + 1 else n) db' k
      onwards (err e, db') k ih = k

  resolve_all_reaches :
      (rows : Table Payment) (pass n m : ℕ) (db : Db) (i : Uuid) (p : Payment)
      → lookup i rows ≡ some p
      → lookup i db.payments ≡ some p
      → p.status ≡ processing
      → (resolve_all default draws rows pass n db).0 ≡ ok m
      → IsSettledAs
          (process_payment default p.payment_simulate)
          i
          (resolve_all default draws rows pass n db).1
  unfolding resolve_all
  resolve_all_reaches [] pass n m db i p hr hd s h = cc (lookup-nil {V = Payment} i)
  resolve_all_reaches ((id, p') ∷ rows) pass n m db i p hr hd s h =
      onwards (resolve default (draws pass) (id, p') db) (passed default (draws pass) id p' db) h
        (λ n' db' a b c. resolve_all_reaches rows (pass + 1) n' m db' i p a b s c)
    where
      onwards :
          (r : Result Bool × Db)
          → Passed default (draws pass) id p' db r
          → (◌>>=◌
              (λ (s : Db). r)
              (λ c. resolve_all default draws rows (pass + 1) (if c then n + 1 else n))
              db).0
            ≡ ok m
          → ((n' : ℕ) (db' : Db)
              → lookup i rows ≡ some p
              → lookup i db'.payments ≡ some p
              → (resolve_all default draws rows (pass + 1) n' db').0 ≡ ok m
              → IsSettledAs
                  (process_payment default p.payment_simulate)
                  i
                  (resolve_all default draws rows (pass + 1) n' db').1)
          → IsSettledAs
              (process_payment default p.payment_simulate)
              i
              (◌>>=◌
                (λ (s : Db). r)
                (λ c. resolve_all default draws rows (pass + 1) (if c then n + 1 else n))
                db).1
      onwards (err e, db') w h ih = cc
      onwards (ok c, db') w h ih = elim (Bool-cases (id == i)) [
        | inl own ↦
            let same = (==_iff id i).0 own in
            let is_p : p' ≡ p = some-injective p' p (rw (lookup-cons, own) at hr) in
            resolve_all-IsSettledAs rows (pass + 1) (if c then n + 1 else n) db'
              (process_payment default p.payment_simulate) i
              (subst (λ x. IsSettledAs (process_payment default x.payment_simulate) i db') is_p
                (subst (λ x. IsSettledAs (process_payment default p'.payment_simulate) x db') same
                  (Passed-own w refl (rw (same, is_p) hd) (rw is_p s))))
        | inr other ↦
            ih (if c then n + 1 else n) db' (rw (lookup-cons, other) at hr)
              (Passed-lookup_ne i p w other hd) h
      ]

lookup-stuck :
    (now duration : ℕ) (rows : Table Payment) (i : Uuid) (p : Payment)
    → lookup i rows ≡ some p
    → is_stuck now duration p ≡ true
    → lookup i (stuck_payments now duration rows) ≡ some p
unfolding lookup stuck_payments
lookup-stuck now duration [] i p h s = h
lookup-stuck now duration ((j, q) ∷ rows) i p h s =
    ground (arith, lookup-stuck now duration rows i p)

-- After a round that returns, every payment that was in PROCESSING for longer than the given
-- duration when the round began has the outcome that the gateway gives for the directive stored
-- with it.
pub reconcile_settles :
    (default : String) (draws : ℕ → Draw) (now duration m : ℕ) (db : Db) (i : Uuid) (p : Payment)
    → (reconcile_stuck_payments default draws now duration db).0 ≡ ok m
    → lookup i db.payments ≡ some p
    → is_stuck now duration p ≡ true
    → IsSettledAs
        (process_payment default p.payment_simulate)
        i
        (reconcile_stuck_payments default draws now duration db).1
unfolding reconcile_stuck_payments
reconcile_settles default draws now duration m db i p h e s =
    resolve_all_reaches default draws (stuck_payments now duration db.payments) 0 0 m db i p
      (lookup-stuck now duration db.payments i p e s) e (stuck_processing p s) h
  where
    stuck_processing : (p : Payment) → is_stuck now duration p ≡ true → p.status ≡ processing
    stuck_processing p s = ground (arith, is_processing-eq p.status)
