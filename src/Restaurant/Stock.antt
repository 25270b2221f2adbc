-- ===== src/Restaurant/Stock.antt =====
-- services/restaurant/stock.py, over the tables of services/restaurant/migrations/001_init.sql.
pub mod Demand
mod Row
pub mod Reserve
pub mod Held
pub mod Release
pub mod Contract
pub mod RoundTrip
pub mod Negative
use food_flow.Prelude.{
  ℕ, ◌≡◌, Bool, true, false, Option, none, some, List, [], ◌∷◌, ◌++◌, ltb, if◌then◌else◌, not,
}
use food_flow.Prelude.Int.{ℤ, pos, ◌+ℤ◌, ◌-ℤ◌, ltb_ℤ, fits_int4}
use food_flow.Shared.Uuid.{Uuid, IdText}
use food_flow.Shared.Error.{
  Error, Result, ok, err, data_error, check_violation, out_of_range, insufficient_stock,
  item_not_found, short_of, unique_violation, stock_reservations_order_id_key,
}
use food_flow.Shared.Table.{Table, lookup, set_row, delete_row, is_some}
use food_flow.Shared.Transaction.{
  Tx, pure, raise, lift, gets, modify, raise_if, ◌>>=◌, ◌>>◌, Done, uuid_param,
}
use food_flow.Shared.Event.{Item}
use food_flow.Shared.Tables.{EventTables}

-- restaurant_db: `menu_item_stock`, `stock_reservations` (by its UNIQUE order_id), and the tables
-- of events.
pub record Db : Type 0 where
  pub stock : Table ℤ
  pub reservations : Table (List Item)
  pub events : EventTables

-- What PostgreSQL checks before it writes a `quantity`: the INTEGER range, and CHECK (>= 0).
abbrev pub checked_quantity : ℤ → Result ℤ
checked_quantity q =
    if not (fits_int4 q)
    then err out_of_range
    else if ltb_ℤ q (pos 0)
    then err check_violation
    else ok q

-- UPDATE menu_item_stock SET quantity = … WHERE item_id = …, on the row if there is one.
unfoldable pub update_stock : Uuid → (ℤ → ℤ) → Tx Db Done
update_stock i change db = elim (lookup i db.stock) [
  | none ↦ (ok tt, db)
  | some q ↦ elim (checked_quantity (change q)) [
    | err e ↦ (err e, db)
    | ok q' ↦ (ok tt, record db { stock = set_row i q' db.stock })
  ]
]

-- An int given as the argument of an INTEGER expression: asyncpg refuses what does not fit.
abbrev pub int_param : ℤ → Result ℤ
int_param q = if fits_int4 q then ok q else err data_error

-- The tests of `reserve_stock` on the row that it selected.
unfoldable pub check_stock : Item → Option ℤ → Result Done
check_stock item none = err (insufficient_stock (item_not_found item.item_id))
check_stock item (some stock) =
    if ltb_ℤ stock item.quantity
    then err (insufficient_stock (short_of item.item_id item.quantity stock))
    else ok tt

-- The body of the loop in `reserve_stock`.
unfoldable pub reserve_item : Item → Tx Db Done
unfolding update_stock check_stock
reserve_item item = do
  item_id ← lift (uuid_param item.item_id)
  stock ← gets (λ (db : Db). lookup item_id db.stock)
  lift (check_stock item stock)
  qty ← lift (int_param item.quantity)
  update_stock item_id (λ q. q -ℤ qty)

unfoldable pub reserve_items : List Item → Tx Db Done
reserve_items [] = pure tt
reserve_items (item ∷ items) = reserve_item item >> reserve_items items

-- INSERT INTO stock_reservations (order_id, items) VALUES ($1, $2)
unfoldable pub insert_reservation : Uuid → List Item → Tx Db Done
insert_reservation order_id items db =
    if is_some (lookup order_id db.reservations)
    then (err (unique_violation stock_reservations_order_id_key), db)
    else (ok tt, record db { reservations = (order_id, items) ∷ db.reservations })

unfoldable pub reserve_stock : IdText → List Item → Tx Db Done
reserve_stock order_id items = do
  reserve_items items
  order_uuid ← lift (uuid_param order_id)
  insert_reservation order_uuid items

-- The body of the loop in `release_stock`.
unfoldable pub release_item : Item → Tx Db Done
unfolding update_stock
release_item item = do
  qty ← lift (int_param item.quantity)
  item_id ← lift (uuid_param item.item_id)
  update_stock item_id (λ q. q +ℤ qty)

unfoldable pub release_items : List Item → Tx Db Done
release_items [] = pure tt
release_items (item ∷ items) = release_item item >> release_items items

-- The end of `release_stock`, by the row that it selected.
unfoldable pub release_row : Uuid → Option (List Item) → Tx Db Done
release_row order_id none = pure tt
release_row order_id (some items) = do
  release_items items
  modify (λ (db : Db). record db { reservations = delete_row order_id db.reservations })

unfoldable pub release_stock : IdText → Tx Db Done
release_stock order_id = do
  order_uuid ← lift (uuid_param order_id)
  row ← gets (λ (db : Db). lookup order_uuid db.reservations)
  release_row order_uuid row
