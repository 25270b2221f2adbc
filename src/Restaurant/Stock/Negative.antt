-- ===== src/Restaurant/Stock/Negative.antt =====
-- services/restaurant/stock.py on a negative quantity, which nothing before it refuses.
use food_flow.Prelude.{ℕ, ◌+◌, ◌<◌, ◌≡◌, some, none, [], ◌∷◌, arith, ==_refl}
use food_flow.Prelude.Int.{pos, negsuc, ◌-ℤ◌}
use food_flow.Shared.Uuid.{Uuid, str}
use food_flow.Shared.Error.{ok}
use food_flow.Shared.Event.{Item, Float}
use food_flow.Shared.Table.{lookup, lookup-set_row}
use food_flow.Restaurant.Stock.{
  Db, reserve_stock, reserve_items, reserve_item, check_stock, update_stock, insert_reservation,
}

-- A line whose quantity is -(n + 1).
abbrev pub negative_line : Uuid → ℕ → Float → Item
negative_line i n price = record { item_id = str i; quantity = negsuc n; price = price }

sub-negsuc : (q n : ℕ) → pos q -ℤ negsuc n ≡ pos (q + (n + 1))
unfolding ◌-ℤ◌
sub-negsuc q n = ground arith

-- For an order with no reservation, and an item with a stock row: one line with a negative
-- quantity is reserved, and adds its amount to the stock, if the sum fits an INTEGER.
pub reserve_stock_negative :
    (o i : Uuid) (q n : ℕ) (price : Float) (db : Db)
    → lookup i db.stock ≡ some (pos q)
    → lookup o db.reservations ≡ none
    → q + (n + 1) < 2147483648
    → ((reserve_stock (str o) (negative_line i n price ∷ []) db).0 ≡ ok tt)
      × (lookup i (reserve_stock (str o) (negative_line i n price ∷ []) db).1.stock
          ≡ some (pos (q + (n + 1))))
unfolding reserve_stock reserve_items reserve_item check_stock update_stock insert_reservation
reserve_stock_negative o i q n price db has_row fresh fits = (
  ground (arith, sub-negsuc q n),
  ground (arith, sub-negsuc q n, lookup-set_row i i (pos (q + (n + 1))) db.stock, ==_refl i),
)
