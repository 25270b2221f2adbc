-- ===== src/Tests/Migrations.antt =====
-- A first start of each service on an empty database, and a restart.
use food_flow.Prelude.{◌≡◌, refl, true, List, [], ◌∷◌}
use food_flow.Shared.Error.{ok, err, duplicate_object}
use food_flow.Shared.Transaction.{transaction}
use food_flow.Shared.Migrations.{
  Statement, if_not_exists, outright, table, column, has_object, execute, execute_all, run_files,
  run_migrations,
}
use food_flow.Auth.Migrations as AuthMigrations
use food_flow.Order.Migrations as OrderMigrations
use food_flow.Payment.Migrations as PaymentMigrations
use food_flow.Restaurant.Migrations as RestaurantMigrations

auth_starts : (AuthMigrations.migrate []).0 ≡ ok tt
unfolding AuthMigrations.migrate run_migrations run_files transaction execute_all execute has_object
auth_starts = refl

order_starts : (OrderMigrations.migrate []).0 ≡ ok tt
unfolding OrderMigrations.migrate run_migrations run_files transaction execute_all execute
    has_object
order_starts = refl

payment_starts : (PaymentMigrations.migrate []).0 ≡ ok tt
unfolding PaymentMigrations.migrate run_migrations run_files transaction execute_all execute
    has_object
payment_starts = refl

restaurant_starts : (RestaurantMigrations.migrate []).0 ≡ ok tt
unfolding RestaurantMigrations.migrate run_migrations run_files transaction execute_all execute
    has_object
restaurant_starts = refl

-- A column added outright makes the second start fail, and leaves the database as it is.
abbrev outright_files : List (List Statement)
outright_files =
    (if_not_exists (table "orders") ∷ []) ∷ (outright (column "orders" "idempotency_key") ∷ []) ∷ []

outright_fails :
    let s = (run_migrations true outright_files []).1 in
    run_migrations true outright_files s ≡ (err duplicate_object, s)
unfolding run_migrations run_files transaction execute_all execute has_object
outright_fails = refl
