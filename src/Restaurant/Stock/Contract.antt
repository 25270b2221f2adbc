-- ===== src/Restaurant/Stock/Contract.antt =====
-- The contract of `reserve_stock` and `release_stock` (services/restaurant/stock.py).
use food_flow.Prelude.{
  ◌≡◌, ◌↔◌, ◌⊎◌, refl, ap, some, none, List, ◌∷◌, arith, Option-cases, inl, inr,
}
use food_flow.Prelude.Int.{◌+ℤ◌, ◌-ℤ◌, int_laws}
use food_flow.Shared.Uuid.{Uuid, str}
use food_flow.Shared.Error.{Reason, ok, err, insufficient_stock}
use food_flow.Shared.Event.{Item}
use food_flow.Shared.Table.{lookup, delete_row, HasUniqueKeys, delete_row-HasUniqueKeys}
use food_flow.Restaurant.Stock.{
  Db, reserve_items, insert_reservation, reserve_stock, release_items, release_row, release_stock,
}
use food_flow.Restaurant.Stock.Demand.{InRange, demand, IsWellFormed, IsCovered}
use food_flow.Restaurant.Stock.Reserve.{
  reserve_items_covers, reserve_items_succeeds, reserve_items_total, reserve_items-demand,
  reserve_items-InRange, reserve_items-reservations,
}
use food_flow.Restaurant.Stock.Release.{
  release_items-demand, release_items-InRange, release_items-reservations,
}
use food_flow.Restaurant.Stock.Held.{held, Conserves, held-delete_row}

-- What holds of the database between two transactions: the CHECK and the range of `quantity`, and
-- the UNIQUE constraint on `stock_reservations.order_id`.
pub record IsValid (db : Db) : Type 0 where
  pub in_range : InRange db.stock
  pub unique : HasUniqueKeys db.reservations

-- A call that returns has run the loop, and recorded its lines for an order that had none.
pub record Reserved (o : Uuid) (items : List Item) (db db' : Db) : Type 0 where
  pub looped : (reserve_items items db).0 ≡ ok tt
  pub fresh : lookup o db.reservations ≡ none
  pub after :
      db' ≡ record (reserve_items items db).1 { reservations = (o, items) ∷ db.reservations }

pub reserved :
    (o : Uuid) (items : List Item) (db : Db)
    → (reserve_stock (str o) items db).0 ≡ ok tt
    → Reserved o items db (reserve_stock (str o) items db).1
unfolding reserve_stock insert_reservation
reserved o items db h = record {
  looped = ground arith;
  fresh = ground (arith, reserve_items-reservations items db);
  after = ground (arith, reserve_items-reservations items db);
}

reserve_stock_runs :
    (o : Uuid) (items : List Item) (db : Db)
    → (reserve_items items db).0 ≡ ok tt
    → lookup o db.reservations ≡ none
    → (reserve_stock (str o) items db).0 ≡ ok tt
unfolding reserve_stock insert_reservation
reserve_stock_runs o items db h fresh = ground (arith, reserve_items-reservations items db)

reserve_stock_raises :
    (o : Uuid) (items : List Item) (db : Db) (r : Reason)
    → (reserve_items items db).0 ≡ err (insufficient_stock r)
    → (reserve_stock (str o) items db).0 ≡ err (insufficient_stock r)
unfolding reserve_stock
reserve_stock_raises o items db r h = ground arith

-- In a valid database, for lines with ids that spell UUIDs and quantities that are not negative,
-- and for an order with no reservation: `reserve_stock` returns exactly if every item that is
-- asked for has a stock row that covers all that the lines together ask of it. It either returns
-- or raises `InsufficientStockError`.
pub reserve_stock_exact :
    (o : Uuid) (items : List Item) (db : Db)
    → IsValid db
    → IsWellFormed items
    → lookup o db.reservations ≡ none
    → (((reserve_stock (str o) items db).0 ≡ ok tt) ↔ IsCovered items db.stock)
      × (((reserve_stock (str o) items db).0 ≡ ok tt)
          ⊎ ((r : Reason) × ((reserve_stock (str o) items db).0 ≡ err (insufficient_stock r))))
reserve_stock_exact o items db v w fresh = (
  (
    λ h. reserve_items_covers items db v.in_range (reserved o items db h).looped,
    λ c. reserve_stock_runs o items db (reserve_items_succeeds items db v.in_range w c) fresh,
  ),
  elim (reserve_items_total items db v.in_range w) [
    | inl e ↦ inl (reserve_stock_runs o items db e fresh)
    | inr (r, e) ↦ inr (r, reserve_stock_raises o items db r e)
  ],
)

-- A reservation takes from every stock row what its lines ask for, and holds just that.
pub reserve_stock-Conserves :
    (o : Uuid) (items : List Item) (db : Db) (i : Uuid)
    → (reserve_stock (str o) items db).0 ≡ ok tt
    → Conserves i db (reserve_stock (str o) items db).1
unfolding held
reserve_stock-Conserves o items db i h q e =
    let d = reserved o items db h in
    (
      q -ℤ demand i items,
      rw (ap (λ (x : Db). lookup i x.stock) d.after) (reserve_items-demand items db i q d.looped e),
      rw (ap (λ (x : Db). held i x.reservations) d.after) (omega int_laws),
    )

pub reserve_stock-IsValid :
    (o : Uuid) (items : List Item) (db : Db)
    → IsValid db
    → (reserve_stock (str o) items db).0 ≡ ok tt
    → IsValid (reserve_stock (str o) items db).1
reserve_stock-IsValid o items db v h =
    let d = reserved o items db h in
    rw d.after (record {
      in_range = reserve_items-InRange items db d.looped v.in_range;
      unique = (d.fresh, v.unique);
    })

-- What a release that returns has done.
pub record Released (o : Uuid) (db db' : Db) : Type 0 where
  pub none_held : lookup o db.reservations ≡ none → db' ≡ db
  pub looped :
      (items : List Item)
      → lookup o db.reservations ≡ some items
      → (release_items items db).0 ≡ ok tt
  pub after :
      (items : List Item)
      → lookup o db.reservations ≡ some items
      → db' ≡ record (release_items items db).1 { reservations = delete_row o db.reservations }

pub released :
    (o : Uuid) (db : Db)
    → (release_stock (str o) db).0 ≡ ok tt
    → Released o db (release_stock (str o) db).1
unfolding release_stock release_row
released o db h = record {
  none_held = λ e. ground arith;
  looped = λ items e. ground arith;
  after = λ items e. ground (arith, release_items-reservations items db);
}

-- A release gives back to every stock row what the order's reservation held of it.
pub release_stock-Conserves :
    (o : Uuid) (db : Db) (i : Uuid)
    → IsValid db
    → (release_stock (str o) db).0 ≡ ok tt
    → Conserves i db (release_stock (str o) db).1
release_stock-Conserves o db i v h q e =
    let d = released o db h in
    elim (Option-cases (lookup o db.reservations)) [
      | inl absent ↦ rw (d.none_held absent) (q, e, refl)
      | inr (items, had) ↦ (
        q +ℤ demand i items,
        rw (ap (λ (x : Db). lookup i x.stock) (d.after items had))
            (release_items-demand items db i q (d.looped items had) e),
        rw (ap (λ (x : Db). held i x.reservations) (d.after items had))
            (rw (← held-delete_row i o items db.reservations v.unique had) (omega int_laws)),
      )
    ]

pub release_stock-IsValid :
    (o : Uuid) (db : Db)
    → IsValid db
    → (release_stock (str o) db).0 ≡ ok tt
    → IsValid (release_stock (str o) db).1
release_stock-IsValid o db v h =
    let d = released o db h in
    elim (Option-cases (lookup o db.reservations)) [
      | inl absent ↦ rw (d.none_held absent) v
      | inr (items, had) ↦ rw (d.after items had) (record {
        in_range = release_items-InRange items db (d.looped items had) v.in_range;
        unique = delete_row-HasUniqueKeys o db.reservations v.unique;
      })
    ]
