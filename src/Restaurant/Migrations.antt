-- ===== src/Restaurant/Migrations.antt =====
-- What the files of services/restaurant/migrations make, and `_run_migrations` of services/restaurant/db.py.
use food_flow.Prelude.{true, List, [], ◌∷◌}
use food_flow.Shared.Transaction.{Tx, Done}
use food_flow.Shared.Migrations.{
  Object, Statement, if_not_exists, table, index, row, run_migrations,
}

-- 001_init.sql
abbrev init_sql : List Statement
init_sql =
    if_not_exists (table "restaurants")
    ∷ if_not_exists (table "menu_items")
    ∷ if_not_exists (index "menu_items" "idx_menu_items_restaurant")
    ∷ if_not_exists (table "menu_item_stock")
    ∷ if_not_exists (table "stock_reservations")
    ∷ if_not_exists (table "outbox_events")
    ∷ if_not_exists (index "outbox_events" "idx_outbox_unpublished")
    ∷ if_not_exists (table "processed_events")
    ∷ []

-- 002_seed.sql
abbrev seed_sql : List Statement
seed_sql =
    if_not_exists (row "restaurants" "a1b2c3d4-e5f6-7890-abcd-ef1234567890")
    ∷ if_not_exists (row "restaurants" "b2c3d4e5-f6a7-8901-bcde-f12345678901")
    ∷ if_not_exists (row "menu_items" "11111111-1111-1111-1111-111111111111")
    ∷ if_not_exists (row "menu_items" "22222222-2222-2222-2222-222222222222")
    ∷ if_not_exists (row "menu_items" "33333333-3333-3333-3333-333333333333")
    ∷ if_not_exists (row "menu_items" "44444444-4444-4444-4444-444444444444")
    ∷ if_not_exists (row "menu_items" "55555555-5555-5555-5555-555555555555")
    ∷ if_not_exists (row "menu_item_stock" "11111111-1111-1111-1111-111111111111")
    ∷ if_not_exists (row "menu_item_stock" "22222222-2222-2222-2222-222222222222")
    ∷ if_not_exists (row "menu_item_stock" "33333333-3333-3333-3333-333333333333")
    ∷ if_not_exists (row "menu_item_stock" "44444444-4444-4444-4444-444444444444")
    ∷ if_not_exists (row "menu_item_stock" "55555555-5555-5555-5555-555555555555")
    ∷ []

-- The files, by name.
abbrev pub files : List (List Statement)
files = init_sql ∷ seed_sql ∷ []

-- The directory is there.
unfoldable pub migrate : Tx (List Object) Done
unfolding run_migrations
migrate = run_migrations true files
