-- ===== src/Restaurant/Stock/Row.antt =====
-- One pass through each of the two loops of services/restaurant/stock.py.
use food_flow.Prelude.{
  ap, ◌⊎◌, ◌≡◌, refl, true, some, none, arith, Option-cases, Bool-cases, inl, inr, ◌<◌,
}
use food_flow.Shared.Transaction.{Done}
use food_flow.Prelude.Int.{ltb_ℤ, ℤ, pos, pos_part, ◌+ℤ◌, ◌-ℤ◌, ◌≤ℤ◌, fits_int4, -ℤ_parts}
use food_flow.Shared.Uuid.{Uuid, IdText, str, malformed}
use food_flow.Shared.Error.{
  Result, item_not_found, short_of, Error, ok, err, insufficient_stock, Reason,
}
use food_flow.Shared.Event.{Item}
use food_flow.Shared.Table.{lookup, set_row}
use food_flow.Restaurant.Stock.{Db, reserve_item, release_item, checked_quantity}

-- What a pass of `reserve_stock` that succeeds has found and done.
pub record Took (item : Item) (db db' : Db) : Type 0 where
  pub id : Uuid
  pub before : ℤ
  pub is_id : item.item_id ≡ str id
  pub had : lookup id db.stock ≡ some before
  pub covered : item.quantity ≤ℤ before
  pub nonneg : pos 0 ≤ℤ before -ℤ item.quantity
  pub fits : fits_int4 (before -ℤ item.quantity) ≡ true
  pub after : db' ≡ record db { stock = set_row id (before -ℤ item.quantity) db.stock }

Took-at :
    (item : Item) (db : Db) (id : IdText)
    → item.item_id ≡ id
    → (reserve_item item db).0 ≡ ok tt
    → Took item db (reserve_item item db).1
unfolding reserve_item
Took-at item db (malformed s) e h = ground arith
Took-at item db (str u) e h = elim (Option-cases (lookup u db.stock)) [
  | inl absent ↦ ground arith
  | inr (q, had) ↦ record {
    id = u;
    before = q;
    is_id = e;
    had = had;
    covered = ground arith;
    nonneg = ground arith;
    fits = ground arith;
    after = ground arith;
  }
]

pub took :
    (item : Item) (db : Db)
    → (reserve_item item db).0 ≡ ok tt
    → Took item db (reserve_item item db).1
took item db h = Took-at item db item.item_id refl h

-- The pass succeeds on a row that covers the quantity.
pub reserve_item_covered :
    (item : Item) (db : Db) (u : Uuid) (q : ℤ)
    → item.item_id ≡ str u
    → lookup u db.stock ≡ some q
    → pos 0 ≤ℤ item.quantity
    → item.quantity ≤ℤ q
    → pos_part q < 2147483648
    → reserve_item item db ≡ (ok tt, record db { stock = set_row u (q -ℤ item.quantity) db.stock })
unfolding reserve_item
reserve_item_covered item db u q e had nn cover range = ground (arith, -ℤ_parts q item.quantity)

-- What a pass of `release_stock` that succeeds has found and done: the row's new quantity, or
-- nothing where there is no row.
pub record Gave (item : Item) (db db' : Db) : Type 0 where
  pub id : Uuid
  pub is_id : item.item_id ≡ str id
  pub nothing : lookup id db.stock ≡ none → db' ≡ db
  pub after :
      (q : ℤ)
      → lookup id db.stock ≡ some q
      → db' ≡ record db { stock = set_row id (q +ℤ item.quantity) db.stock }
  pub checked :
      (q : ℤ)
      → lookup id db.stock ≡ some q
      → checked_quantity (q +ℤ item.quantity) ≡ ok (q +ℤ item.quantity)

Gave-at :
    (item : Item) (db : Db) (id : IdText)
    → item.item_id ≡ id
    → (release_item item db).0 ≡ ok tt
    → Gave item db (release_item item db).1
unfolding release_item
Gave-at item db (malformed s) e h = ground arith
Gave-at item db (str u) e h = record {
  id = u;
  is_id = e;
  nothing = λ absent. ground arith;
  after = λ q had. ground arith;
  checked = λ q had. ground arith;
}

pub gave :
    (item : Item) (db : Db)
    → (release_item item db).0 ≡ ok tt
    → Gave item db (release_item item db).1
gave item db h = Gave-at item db item.item_id refl h

pub release_item_checked :
    (item : Item) (db : Db) (u : Uuid) (q : ℤ)
    → item.item_id ≡ str u
    → lookup u db.stock ≡ some q
    → fits_int4 item.quantity ≡ true
    → checked_quantity (q +ℤ item.quantity) ≡ ok (q +ℤ item.quantity)
    → release_item item db ≡ (ok tt, record db { stock = set_row u (q +ℤ item.quantity) db.stock })
unfolding release_item
release_item_checked item db u q e had fit c = ground arith

-- A raise leaves the database as it was before the pass.
pub reserve_item_raises :
    (item : Item) (db : Db) (e : Error)
    → (reserve_item item db).0 ≡ err e
    → (reserve_item item db).1 ≡ db
unfolding reserve_item
reserve_item_raises item db e h = ground arith

pub reserve_item-reservations :
    (item : Item) (db : Db) → (reserve_item item db).1.reservations ≡ db.reservations
unfolding reserve_item
reserve_item-reservations item db = ground arith

pub reserve_item-events : (item : Item) (db : Db) → (reserve_item item db).1.events ≡ db.events
unfolding reserve_item
reserve_item-events item db = ground arith

pub release_item-reservations :
    (item : Item) (db : Db) → (release_item item db).1.reservations ≡ db.reservations
unfolding release_item
release_item-reservations item db = ground arith

pub release_item-events : (item : Item) (db : Db) → (release_item item db).1.events ≡ db.events
unfolding release_item
release_item-events item db = ground arith

-- On a line whose id spells a UUID, with a quantity that is not negative and rows in range, the
-- pass returns or reports a shortage.
pub reserve_item_total :
    (item : Item) (db : Db) (u : Uuid)
    → item.item_id ≡ str u
    → pos 0 ≤ℤ item.quantity
    → ((q : ℤ) → lookup u db.stock ≡ some q → (pos 0 ≤ℤ q) × (pos_part q < 2147483648))
    → ((reserve_item item db).0 ≡ ok tt)
      ⊎ ((r : Reason) × ((reserve_item item db).0 ≡ err (insufficient_stock r)))
reserve_item_total item db u e nn r = elim (Option-cases (lookup u db.stock)) [
  | inl absent ↦ inr (item_not_found item.item_id, absent_row absent)
  | inr (q, had) ↦ elim (Bool-cases (ltb_ℤ q item.quantity)) [
    | inl short ↦ inr (short_of item.item_id item.quantity q, short_row q had short)
    | inr enough ↦ inl (
        ap (λ (x : Result Done × Db). x.0)
          (reserve_item_covered item db u q e had nn (ground arith) (r q had).1))
  ]
]
  where
    absent_row :
        lookup u db.stock ≡ none
        → (reserve_item item db).0 ≡ err (insufficient_stock (item_not_found item.item_id))
    absent_row absent = unfold reserve_item in ground arith

    short_row :
        (q : ℤ)
        → lookup u db.stock ≡ some q
        → ltb_ℤ q item.quantity ≡ true
        → (reserve_item item db).0
          ≡ err (insufficient_stock (short_of item.item_id item.quantity q))
    short_row q had short = unfold reserve_item in ground arith
