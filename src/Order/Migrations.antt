-- ===== src/Order/Migrations.antt =====
-- What the files of services/order/migrations make, and `_run_migrations` of services/order/db.py.
use food_flow.Prelude.{true, List, [], ◌∷◌}
use food_flow.Shared.Transaction.{Tx, Done}
use food_flow.Shared.Migrations.{
  Object, Statement, if_not_exists, table, column, index, run_migrations,
}

-- 001_init.sql
abbrev init_sql : List Statement
init_sql =
    if_not_exists (table "orders")
    ∷ if_not_exists (index "orders" "idx_orders_user")
    ∷ if_not_exists (index "orders" "idx_orders_status")
    ∷ if_not_exists (table "outbox_events")
    ∷ if_not_exists (index "outbox_events" "idx_outbox_unpublished")
    ∷ if_not_exists (table "processed_events")
    ∷ []

-- 002_idempotency_key.sql
abbrev idempotency_key_sql : List Statement
idempotency_key_sql = if_not_exists (column "orders" "idempotency_key") ∷ []

-- The files, by name.
abbrev pub files : List (List Statement)
files = init_sql ∷ idempotency_key_sql ∷ []

-- The directory is there.
unfoldable pub migrate : Tx (List Object) Done
unfolding run_migrations
migrate = run_migrations true files
