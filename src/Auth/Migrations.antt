-- ===== src/Auth/Migrations.antt =====
-- What the files of services/auth/migrations make, and `_run_migrations` of services/auth/db.py.
use food_flow.Prelude.{true, List, [], ◌∷◌}
use food_flow.Shared.Transaction.{Tx, Done}
use food_flow.Shared.Migrations.{Object, Statement, if_not_exists, table, index, run_migrations}

-- 001_init.sql
abbrev init_sql : List Statement
init_sql =
    if_not_exists (table "users")
    ∷ if_not_exists (table "refresh_tokens")
    ∷ if_not_exists (index "refresh_tokens" "idx_refresh_tokens_user")
    ∷ if_not_exists (index "refresh_tokens" "idx_refresh_tokens_hash")
    ∷ []

-- The files, by name.
abbrev pub files : List (List Statement)
files = init_sql ∷ []

-- The directory is there.
unfoldable pub migrate : Tx (List Object) Done
unfolding run_migrations
migrate = run_migrations true files
