-- ===== src/Restaurant/Api.antt =====
-- services/restaurant/routes.py: the restaurants, and a restaurant's menu with what is in stock.
pub mod Menu
use food_flow.Prelude.{
  String, Bool, true, false, not, Option, none, some, List, [], ◌∷◌, ◌==◌, if◌then◌else◌,
}
use food_flow.Prelude.Int.{ℤ, pos}
use food_flow.Shared.Uuid.{Uuid, IdText, str}
use food_flow.Shared.Error.{Result, ok, err, http}
use food_flow.Shared.Event.{Float}
use food_flow.Shared.Table.{Table, lookup, is_some}
use food_flow.Restaurant.Stock.{Db}
use mathlib.Core.List.{map}

pub record Restaurant : Type 0 where
  pub name : String
  pub description : Option String

-- `price` is DECIMAL(10, 2), in cents.
pub record MenuItem : Type 0 where
  pub restaurant_id : Uuid
  pub name : String
  pub description : Option String
  pub price : ℤ

-- The tables that the service reads and never writes.
pub record Catalog : Type 0 where
  pub restaurants : Table Restaurant
  pub menu_items : Table MenuItem

-- A row of the join; the quantity is NULL for an item without a stock row.
pub record MenuRow : Type 0 where
  pub id : Uuid
  pub name : String
  pub description : Option String
  pub price : ℤ
  pub quantity : Option ℤ

-- ORDER BY name, under the collation of the database and with ties as PostgreSQL breaks them, and
-- float(Decimal) of an amount in cents.
pub record Queries : Type 0 where
  pub sort_restaurants : Table Restaurant → Table Restaurant
  pub sort_rows : List MenuRow → List MenuRow
  pub amount : ℤ → Float

pub record RestaurantResponse : Type 0 where
  pub id : IdText
  pub name : String
  pub description : Option String

pub record MenuItemResponse : Type 0 where
  pub id : IdText
  pub name : String
  pub description : Option String
  pub price : Float
  pub stock_quantity : ℤ

abbrev pub restaurant_response : Uuid × Restaurant → RestaurantResponse
restaurant_response (i, r) = record { id = str i; name = r.name; description = r.description }

unfoldable pub list_restaurants : Queries → Catalog → List RestaurantResponse
list_restaurants x c = map restaurant_response (x.sort_restaurants c.restaurants)

abbrev pub joined_row : Table ℤ → Uuid → MenuItem → MenuRow
joined_row stock i m = record {
  id = i;
  name = m.name;
  description = m.description;
  price = m.price;
  quantity = lookup i stock;
}

-- menu_items m LEFT JOIN menu_item_stock s ON s.item_id = m.id, WHERE m.restaurant_id = $1
unfoldable pub menu_rows : Uuid → Table ℤ → Table MenuItem → List MenuRow
menu_rows restaurant_id stock [] = []
menu_rows restaurant_id stock ((i, m) ∷ items) =
    let rest = menu_rows restaurant_id stock items in
    if m.restaurant_id == restaurant_id then joined_row stock i m ∷ rest else rest

-- r["quantity"] or 0
abbrev pub shown_quantity : Option ℤ → ℤ
shown_quantity none = pos 0
shown_quantity (some q) = q

abbrev pub menu_response : Queries → MenuRow → MenuItemResponse
menu_response x r = record {
  id = str r.id;
  name = r.name;
  description = r.description;
  price = x.amount r.price;
  stock_quantity = shown_quantity r.quantity;
}

-- The two statements run in no transaction; nothing writes the first one's table.
unfoldable pub get_menu : Queries → Catalog → Uuid → Db → Result (List MenuItemResponse)
get_menu x c restaurant_id db =
    if not (is_some (lookup restaurant_id c.restaurants))
    then err (http 404)
    else ok (map (menu_response x) (x.sort_rows (menu_rows restaurant_id db.stock c.menu_items)))
