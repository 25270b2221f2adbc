-- ===== src/Payment/Migrations.antt =====
-- What the files of services/payment/migrations make, and `_run_migrations` of services/payment/db.py.
use food_flow.Prelude.{true, List, [], ◌∷◌}
use food_flow.Shared.Transaction.{Tx, Done}
use food_flow.Shared.Migrations.{
  Object, Statement, if_not_exists, table, column, index, run_migrations,
}

-- 001_init.sql
abbrev init_sql : List Statement
init_sql =
    if_not_exists (table "payments")
    ∷ if_not_exists (table "outbox_events")
    ∷ if_not_exists (index "outbox_events" "idx_outbox_unpublished")
    ∷ if_not_exists (table "processed_events")
    ∷ []

-- 002_payment_simulate.sql
abbrev payment_simulate_sql : List Statement
payment_simulate_sql = if_not_exists (column "payments" "payment_simulate") ∷ []

-- The files, by name.
abbrev pub files : List (List Statement)
files = init_sql ∷ payment_simulate_sql ∷ []

-- The directory is there.
unfoldable pub migrate : Tx (List Object) Done
unfolding run_migrations
migrate = run_migrations true files
