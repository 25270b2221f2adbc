-- ===== src/Restaurant/Stock/Release.antt =====
-- `release_stock` puts back what the reservation of its order holds.
use food_flow.Prelude.{
  ◌≡◌, refl, ap, true, some, none, List, [], ◌∷◌, arith, ==_refl, ◌<◌, Option-cases, inl, inr,
}
use food_flow.Prelude.Int.{ℤ, pos, pos_part, fits_int4, ◌+ℤ◌, ◌≤ℤ◌, +ℤ_parts, +ℤ_zero, +ℤ_assoc}
use food_flow.Shared.Uuid.{Uuid}
use food_flow.Shared.Error.{Result, ok}
use food_flow.Shared.Event.{Item}
use food_flow.Shared.Table.{Table, lookup, lookup-set_row}
use food_flow.Shared.Transaction.{Done, >>-ok, >>-run, returned}
use food_flow.Restaurant.Stock.{Db, release_item, release_items, checked_quantity}
use food_flow.Restaurant.Stock.Demand.{
  InRange, demand-nonneg, share, demand, is_asked, IsWellFormed,
}
use food_flow.Restaurant.Stock.Row.{
  Gave, gave, release_item_checked, release_item-reservations, release_item-events,
}

Gave-share :
    {item : Item} {db db' : Db} (g : Gave item db db') (i : Uuid) {q : ℤ}
    → lookup i db.stock ≡ some q
    → lookup i db'.stock ≡ some (q +ℤ share i item)
Gave-share {item} {db} g i {q} h = elim (Option-cases (lookup g.id db.stock)) [
  | inl absent ↦ ground (arith, g.nothing absent, +ℤ_zero q)
  | inr (old, had) ↦
      ground
        (arith, g.after old had, lookup-set_row i g.id (old +ℤ item.quantity) db.stock, +ℤ_zero q)
]

Gave-InRange : {item : Item} {db db' : Db} → Gave item db db' → InRange db.stock → InRange db'.stock
Gave-InRange {item} {db} g r i p h = elim (Option-cases (lookup g.id db.stock)) [
  | inl absent ↦ ground (arith, g.nothing absent, r i p)
  | inr (old, had) ↦ ground (
    arith,
    g.after old had,
    g.checked old had,
    lookup-set_row i g.id (old +ℤ item.quantity) db.stock,
    r i p,
  )
]

-- A loop that succeeds adds to each row what all the lines together have of its item.
pub release_items-demand :
    (items : List Item) (db : Db) (i : Uuid) (q : ℤ)
    → (release_items items db).0 ≡ ok tt
    → lookup i db.stock ≡ some q
    → lookup i (release_items items db).1.stock ≡ some (q +ℤ demand i items)
unfolding release_items demand
release_items-demand [] db i q h had = rw +ℤ_zero had
release_items-demand (item ∷ items) db i q h had =
    let (first, rest, same) = >>-ok (release_item item) (release_items items) db h in
    rw (same, ← +ℤ_assoc)
      (release_items-demand items (release_item item db).1 i (q +ℤ share i item) rest
        (Gave-share (gave item db first) i had))

pub release_items-InRange :
    (items : List Item) (db : Db)
    → (release_items items db).0 ≡ ok tt
    → InRange db.stock
    → InRange (release_items items db).1.stock
unfolding release_items
release_items-InRange [] db h r = r
release_items-InRange (item ∷ items) db h r =
    let (first, rest, same) = >>-ok (release_item item) (release_items items) db h in
    rw same (
      release_items-InRange items (release_item item db).1 rest
        (Gave-InRange (gave item db first) r))

pub release_items-reservations :
    (items : List Item) (db : Db) → (release_items items db).1.reservations ≡ db.reservations
unfolding release_items
release_items-reservations [] db = refl
release_items-reservations (item ∷ items) db = ground (
  arith,
  release_item-reservations item db,
  release_items-reservations items (release_item item db).1,
)

pub release_items-events :
    (items : List Item) (db : Db) → (release_items items db).1.events ≡ db.events
unfolding release_items
release_items-events [] db = refl
release_items-events (item ∷ items) db =
    ground (arith, release_item-events item db, release_items-events items (release_item item db).1)

-- Every item of the lines has a row with room for what they put back.
abbrev pub HasRoom : List Item → Table ℤ → Type 0
HasRoom items stock =
    (i : Uuid)
    → is_asked i items ≡ true
    → (q : ℤ) × (lookup i stock ≡ some q)
      × (pos 0 ≤ℤ q)
      × (pos_part (q +ℤ demand i items) < 2147483648)

room-rest :
    {item : Item} {db db' : Db} (items : List Item) (g : Gave item db db')
    → pos 0 ≤ℤ item.quantity
    → HasRoom (item ∷ items) db.stock
    → HasRoom items db'.stock
unfolding is_asked demand
room-rest {item} items g nn c i a =
    let (q, had, low, high) = c i (ground arith) in
    (
      q +ℤ share i item,
      Gave-share g i had,
      ground (arith, +ℤ_parts q (share i item)),
      rw +ℤ_assoc high,
    )

-- Where there is room, putting back well-formed lines succeeds.
pub release_items_succeeds :
    (items : List Item) (db : Db)
    → IsWellFormed items
    → HasRoom items db.stock
    → (release_items items db).0 ≡ ok tt
unfolding release_items is_asked demand
release_items_succeeds [] db w c = refl
release_items_succeeds (item ∷ items) db w c =
    let (u, e) = w.0 in
    let (q, had, low, high) = c u (ground (arith, ==_refl u)) in
    let rest = demand-nonneg u items w.2 in
    let mine : share u item ≡ item.quantity = ground (arith, ==_refl u) in
    let top : pos_part (q +ℤ (item.quantity +ℤ demand u items)) < 2147483648 = rw mine at high in
    let fit : fits_int4 item.quantity ≡ true = ground (
      arith,
      +ℤ_parts q (item.quantity +ℤ demand u items),
      +ℤ_parts item.quantity (demand u items),
    ) in
    let ok_sum : checked_quantity (q +ℤ item.quantity) ≡ ok (q +ℤ item.quantity) = ground (
      arith,
      +ℤ_parts q item.quantity,
      +ℤ_parts q (item.quantity +ℤ demand u items),
      +ℤ_parts item.quantity (demand u items),
    ) in
    let done = release_item_checked item db u q e had fit ok_sum in
    let first : (release_item item db).0 ≡ ok tt = ap (λ (x : Result Done × Db). x.0) done in
    rw (>>-run (release_item item) (release_items items) db (returned (release_item item db) first))
      (release_items_succeeds items (release_item item db).1 w.2
        (room-rest items (gave item db first) w.1 c))

Gave-absent :
    {item : Item} {db db' : Db} (g : Gave item db db') (i : Uuid)
    → lookup i db.stock ≡ none
    → lookup i db'.stock ≡ none
Gave-absent {item} {db} g i h = elim (Option-cases (lookup g.id db.stock)) [
  | inl absent ↦ ground (arith, g.nothing absent)
  | inr (old, had) ↦
      ground (arith, g.after old had, lookup-set_row i g.id (old +ℤ item.quantity) db.stock)
]

pub release_items-absent :
    (items : List Item) (db : Db) (i : Uuid)
    → (release_items items db).0 ≡ ok tt
    → lookup i db.stock ≡ none
    → lookup i (release_items items db).1.stock ≡ none
unfolding release_items
release_items-absent [] db i h e = e
release_items-absent (item ∷ items) db i h e =
    let (first, rest, same) = >>-ok (release_item item) (release_items items) db h in
    rw same (
      release_items-absent items (release_item item db).1 i rest
        (Gave-absent (gave item db first) i e))
