-- ===== src/Shared/Migrations/Restart.antt =====
-- The migrations of a start and of those after it (`_run_migrations` of services/*/db.py).
use food_flow.Prelude.{List}
use food_flow.Shared.Transaction.{Tx, Done}
use food_flow.Shared.Migrations.{Object, Statement}
use food_flow.Shared.Lifespan.Safety.{Service, order, restaurant, payment, auth}
use food_flow.Auth.Migrations as AuthMigrations
use food_flow.Order.Migrations as OrderMigrations
use food_flow.Payment.Migrations as PaymentMigrations
use food_flow.Restaurant.Migrations as RestaurantMigrations

-- The files of a service, and their run at its start.
abbrev pub files_of : Service → List (List Statement)
files_of order = OrderMigrations.files
files_of restaurant = RestaurantMigrations.files
files_of payment = PaymentMigrations.files
files_of auth = AuthMigrations.files

abbrev pub migrate_of : Service → Tx (List Object) Done
migrate_of order = OrderMigrations.migrate
migrate_of restaurant = RestaurantMigrations.migrate
migrate_of payment = PaymentMigrations.migrate
migrate_of auth = AuthMigrations.migrate
