-- ===== src/Restaurant/Stock/RoundTrip.antt =====
-- services/restaurant/stock.py: a release undoes the reservation before it.
use food_flow.Prelude.{◌≡◌, ap, some, none, List, ◌∷◌, arith, Option-cases, inl, inr}
use food_flow.Prelude.Int.{◌-ℤ◌, int_laws, -ℤ_parts, sub-add}
use food_flow.Shared.Uuid.{Uuid, str}
use food_flow.Shared.Error.{ok}
use food_flow.Shared.Event.{Item}
use food_flow.Shared.Table.{Table, lookup, delete_row, delete_row_absent}
use food_flow.Restaurant.Stock.{
  Db, reserve_items, reserve_stock, release_items, release_row, release_stock,
}
use food_flow.Restaurant.Stock.Demand.{demand, IsWellFormed}
use food_flow.Restaurant.Stock.Reserve.{
  reserve_items_covers, reserve_items-demand, reserve_items-absent,
}
use food_flow.Restaurant.Stock.Release.{
  HasRoom, release_items-demand, release_items_succeeds, release_items-absent,
}
use food_flow.Restaurant.Stock.Contract.{IsValid, reserved, released}

-- After a reservation there is room for the release, which finds the lines.
room_after_reserve :
    (o : Uuid) (items : List Item) (db : Db)
    → IsValid db
    → IsWellFormed items
    → (reserve_items items db).0 ≡ ok tt
    → HasRoom items (reserve_items items db).1.stock
room_after_reserve o items db v w h i a =
    let (q, had, cover) = reserve_items_covers items db v.in_range h i a in
    let back = v.in_range i q had in
    (
      q -ℤ demand i items,
      reserve_items-demand items db i q h had,
      omega (int_laws, -ℤ_parts q (demand i items)),
      rw (sub-add q (demand i items)) back.1,
    )

pub release_stock_runs :
    (o : Uuid) (items : List Item) (db : Db)
    → lookup o db.reservations ≡ some items
    → (release_items items db).0 ≡ ok tt
    → (release_stock (str o) db).0 ≡ ok tt
unfolding release_stock release_row
release_stock_runs o items db had h = ground arith

delete_first :
    (o : Uuid) (items : List Item) (t : Table (List Item))
    → lookup o t ≡ none
    → delete_row o ((o, items) ∷ t) ≡ t
unfolding delete_row
delete_first o items t h = ground (arith, delete_row_absent o t h)

lookup_first :
    (o : Uuid) (items : List Item) (t : Table (List Item)) → lookup o ((o, items) ∷ t) ≡ some items
unfolding lookup
lookup_first o items t = ground arith

-- In a valid database, for well-formed lines whose reservation returned: releasing it at once
-- returns, and puts every stock row and the reservations back as they were before it.
pub release-reserve :
    (o : Uuid) (items : List Item) (db : Db)
    → IsValid db
    → IsWellFormed items
    → (reserve_stock (str o) items db).0 ≡ ok tt
    → let db' = (reserve_stock (str o) items db).1 in
      ((release_stock (str o) db').0 ≡ ok tt)
      × ((i : Uuid) → lookup i (release_stock (str o) db').1.stock ≡ lookup i db.stock)
      × ((release_stock (str o) db').1.reservations ≡ db.reservations)
release-reserve o items db v w h =
    let d = reserved o items db h in
    let mid = (reserve_stock (str o) items db).1 in
    let had : lookup o mid.reservations ≡ some items =
      rw d.after (lookup_first o items db.reservations) in
    let room : HasRoom items mid.stock = rw d.after (room_after_reserve o items db v w d.looped) in
    let gives = release_items_succeeds items mid w room in
    let runs = release_stock_runs o items mid had gives in
    let back = (released o mid runs).after items had in
    (
      runs,
      λ i. rw (ap (λ (x : Db). lookup i x.stock) back) (restored o items db h v i gives),
      rw (ap (λ (x : Db). x.reservations) back, ap (λ (x : Db). x.reservations) d.after)
          (delete_first o items db.reservations d.fresh),
    )
  where
    restored :
        (o : Uuid) (items : List Item) (db : Db) (h : (reserve_stock (str o) items db).0 ≡ ok tt)
        → IsValid db
        → (i : Uuid) → (release_items items (reserve_stock (str o) items db).1).0 ≡ ok tt
        → lookup i (release_items items (reserve_stock (str o) items db).1).1.stock
          ≡ lookup i db.stock
    restored o items db h v i gives =
        let d = reserved o items db h in
        let mid = (reserve_stock (str o) items db).1 in
        elim (Option-cases (lookup i db.stock)) [
          | inl absent ↦ rw absent (
              release_items-absent items mid i gives
                (rw d.after (reserve_items-absent items db i d.looped absent)))
          | inr (q, e) ↦ rw e (
              rw (sub-add q (demand i items)) at (
                release_items-demand items mid i (q -ℤ demand i items) gives (
                  rw (ap (λ (x : Db). lookup i x.stock) d.after)
                    (reserve_items-demand items db i q d.looped e))))
        ]
