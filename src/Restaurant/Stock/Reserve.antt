-- ===== src/Restaurant/Stock/Reserve.antt =====
-- `reserve_stock` against its specification: the loop takes off every row what the lines ask of it,
-- and it succeeds exactly if the rows cover that.
use food_flow.Prelude.{
  ◌⊎◌, inr, inl, Option-cases, ◌≢◌, ◌≡◌, refl, ap, true, some, none, List, [], ◌∷◌, arith, ==_refl,
}
use food_flow.Prelude.Int.{ℤ, pos, ◌+ℤ◌, ◌-ℤ◌, ◌≤ℤ◌, int_laws, +ℤ_parts, -ℤ_parts, -ℤ_zero, -ℤ_-ℤ}
use food_flow.Shared.Uuid.{Uuid}
use food_flow.Shared.Error.{Reason, ok, err}
use food_flow.Shared.Event.{Item}
use food_flow.Shared.Table.{lookup, lookup-set_row}
use food_flow.Shared.Transaction.{returned, >>-err, >>-run, >>-ok}
use food_flow.Restaurant.Stock.{insufficient_stock, Done, Result, Db, reserve_item, reserve_items}
use food_flow.Restaurant.Stock.Demand.{
  InRange, demand-nonneg, share, demand, is_asked, IsWellFormed, IsCovered,
}
use food_flow.Restaurant.Stock.Row.{
  reserve_item_total, Took, took, reserve_item_covered, reserve_item-reservations,
  reserve_item-events,
}

-- One pass takes the line's share off the row of each item.
Took-share :
    {item : Item} {db db' : Db} (t : Took item db db') (i : Uuid) {q : ℤ}
    → lookup i db.stock ≡ some q
    → lookup i db'.stock ≡ some (q -ℤ share i item)
Took-share {item} {db} t i {q} h =
    ground (arith, lookup-set_row i t.id (t.before -ℤ item.quantity) db.stock, -ℤ_zero q)

Took-absent :
    {item : Item} {db db' : Db} (t : Took item db db') (i : Uuid)
    → lookup i db.stock ≡ none
    → lookup i db'.stock ≡ none
Took-absent {item} {db} t i h =
    ground (arith, lookup-set_row i t.id (t.before -ℤ item.quantity) db.stock)

-- A loop that succeeds takes off each row what all the lines together ask of its item.
pub reserve_items-demand :
    (items : List Item) (db : Db) (i : Uuid) (q : ℤ)
    → (reserve_items items db).0 ≡ ok tt
    → lookup i db.stock ≡ some q
    → lookup i (reserve_items items db).1.stock ≡ some (q -ℤ demand i items)
unfolding reserve_items demand
reserve_items-demand [] db i q h had = rw -ℤ_zero had
reserve_items-demand (item ∷ items) db i q h had =
    let (first, rest, same) = >>-ok (reserve_item item) (reserve_items items) db h in
    rw (same, ← -ℤ_-ℤ)
      (reserve_items-demand items (reserve_item item db).1 i (q -ℤ share i item) rest
        (Took-share (took item db first) i had))

-- A loop that succeeds found no row short.
pub demand-le :
    (items : List Item) (db : Db) (i : Uuid) (q : ℤ)
    → (reserve_items items db).0 ≡ ok tt
    → lookup i db.stock ≡ some q
    → pos 0 ≤ℤ q
    → demand i items ≤ℤ q
unfolding reserve_items demand
demand-le [] db i q h had nn = nn
demand-le (item ∷ items) db i q h had nn =
    let (first, rest, same) = >>-ok (reserve_item item) (reserve_items items) db h in
    let t = took item db first in
    let left =
      demand-le items (reserve_item item db).1 i (q -ℤ share i item) rest (Took-share t i had)
        (ground (arith, -ℤ_parts q (share i item), -ℤ_parts t.before item.quantity)) in
    omega (int_laws, +ℤ_parts (share i item) (demand i items))

asked-row :
    (items : List Item) (db : Db) (i : Uuid)
    → (reserve_items items db).0 ≡ ok tt
    → is_asked i items ≡ true
    → lookup i db.stock ≢ none
unfolding reserve_items is_asked
asked-row [] db i h a e = cc
asked-row (item ∷ items) db i h a e =
    let (first, rest, same) = >>-ok (reserve_item item) (reserve_items items) db h in
    let t = took item db first in
    ground (arith, asked-row items (reserve_item item db).1 i rest, Took-absent t i e)

pub reserve_items_covers :
    (items : List Item) (db : Db)
    → InRange db.stock
    → (reserve_items items db).0 ≡ ok tt
    → IsCovered items db.stock
reserve_items_covers items db r h i a = elim (Option-cases (lookup i db.stock)) [
  | inl e ↦ absurd (asked-row items db i h a e)
  | inr (q, e) ↦ (q, e, demand-le items db i q h e (r i q e).0)
]

Took-InRange : {item : Item} {db db' : Db} → Took item db db' → InRange db.stock → InRange db'.stock
Took-InRange {item} {db} t r i p h =
    ground (arith, lookup-set_row i t.id (t.before -ℤ item.quantity) db.stock, r i p, t.nonneg)

-- After the first line has taken its share, the rest is covered still.
IsCovered-rest :
    {item : Item} {db db' : Db} (items : List Item) (t : Took item db db')
    → IsCovered (item ∷ items) db.stock
    → IsCovered items db'.stock
unfolding is_asked demand
IsCovered-rest {item} items t c i a =
    let (q, had, cover) = c i (ground arith) in
    (
      q -ℤ share i item,
      Took-share t i had,
      omega (int_laws, +ℤ_parts (share i item) (demand i items)),
    )

-- On rows that cover every line, the loop succeeds.
pub reserve_items_succeeds :
    (items : List Item) (db : Db)
    → InRange db.stock
    → IsWellFormed items
    → IsCovered items db.stock
    → (reserve_items items db).0 ≡ ok tt
unfolding reserve_items is_asked demand
reserve_items_succeeds [] db r w c = refl
reserve_items_succeeds (item ∷ items) db r w c =
    let (u, e) = w.0 in
    let (q, had, cover) = c u (ground (arith, ==_refl u)) in
    let rest = demand-nonneg u items w.2 in
    let mine : share u item ≡ item.quantity = ground (arith, ==_refl u) in
    let both : item.quantity +ℤ demand u items ≤ℤ q = rw mine at cover in
    let enough : item.quantity ≤ℤ q =
      omega (int_laws, rest, +ℤ_parts item.quantity (demand u items)) in
    let done = reserve_item_covered item db u q e had w.1 enough (r u q had).1 in
    let first : (reserve_item item db).0 ≡ ok tt = ap (λ (x : Result Done × Db). x.0) done in
    let t = took item db first in
    let step = >>-run (reserve_item item) (reserve_items items) db done in
    rw step (
      rw (ap (λ (x : Result Done × Db). x.1) done) at (
        reserve_items_succeeds items (reserve_item item db).1 (Took-InRange t r) w.2
          (IsCovered-rest items t c)))

-- On well-formed lines the loop returns, or it reports a shortage.
pub reserve_items_total :
    (items : List Item) (db : Db)
    → InRange db.stock
    → IsWellFormed items
    → ((reserve_items items db).0 ≡ ok tt)
      ⊎ ((r : Reason) × ((reserve_items items db).0 ≡ err (insufficient_stock r)))
unfolding reserve_items
reserve_items_total [] db r w = inl refl
reserve_items_total (item ∷ items) db r w =
    elim (reserve_item_total item db w.0.0 w.0.1 w.1 (r w.0.0)) [
      | inr (why, e) ↦ inr (
        why,
        ap (λ (x : Result Done × Db). x.0) (>>-err (reserve_item item) (reserve_items items) db e),
      )
      | inl e ↦
          rw
            (>>-run (reserve_item item) (reserve_items items) db
              (returned (reserve_item item db) e))
            (reserve_items_total items (reserve_item item db).1 (Took-InRange (took item db e) r)
              w.2)
    ]

pub reserve_items-InRange :
    (items : List Item) (db : Db)
    → (reserve_items items db).0 ≡ ok tt
    → InRange db.stock
    → InRange (reserve_items items db).1.stock
unfolding reserve_items
reserve_items-InRange [] db h r = r
reserve_items-InRange (item ∷ items) db h r =
    let (first, rest, same) = >>-ok (reserve_item item) (reserve_items items) db h in
    rw same (
      reserve_items-InRange items (reserve_item item db).1 rest
        (Took-InRange (took item db first) r))

pub reserve_items-reservations :
    (items : List Item) (db : Db) → (reserve_items items db).1.reservations ≡ db.reservations
unfolding reserve_items
reserve_items-reservations [] db = refl
reserve_items-reservations (item ∷ items) db = ground (
  arith,
  reserve_item-reservations item db,
  reserve_items-reservations items (reserve_item item db).1,
)

pub reserve_items-events :
    (items : List Item) (db : Db) → (reserve_items items db).1.events ≡ db.events
unfolding reserve_items
reserve_items-events [] db = refl
reserve_items-events (item ∷ items) db =
    ground (arith, reserve_item-events item db, reserve_items-events items (reserve_item item db).1)

-- A row that is there stays, and none appears.
pub reserve_items-absent :
    (items : List Item) (db : Db) (i : Uuid)
    → (reserve_items items db).0 ≡ ok tt
    → lookup i db.stock ≡ none
    → lookup i (reserve_items items db).1.stock ≡ none
unfolding reserve_items
reserve_items-absent [] db i h e = e
reserve_items-absent (item ∷ items) db i h e =
    let (first, rest, same) = >>-ok (reserve_item item) (reserve_items items) db h in
    rw same (
      reserve_items-absent items (reserve_item item db).1 i rest
        (Took-absent (took item db first) i e))
