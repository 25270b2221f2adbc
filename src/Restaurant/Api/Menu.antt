-- ===== src/Restaurant/Api/Menu.antt =====
-- The menu of services/restaurant/routes.py against the reservations of services/restaurant/stock.py.
use food_flow.Prelude.{
  ℕ, ◌≤◌, ◌≡◌, ◌↔◌, refl, sym, subst, true, false, Option, none, some, List, [], ◌∷◌, arith, inl,
  inr, ◌⊎◌, ◌==◌, ==_iff, ==_refl, Bool-cases, Option-cases,
}
use food_flow.Prelude.Int.{ℤ, pos, ◌≤ℤ◌, +ℤ_zero}
use food_flow.Shared.Uuid.{Uuid, str}
use food_flow.Shared.Error.{Result, ok}
use food_flow.Shared.Event.{Float, Item}
use food_flow.Shared.Table.{Table, lookup, is_some}
use food_flow.Restaurant.Stock.{Db, reserve_stock}
use food_flow.Restaurant.Stock.Demand.{IsCovered, demand, is_asked}
use food_flow.Restaurant.Stock.Contract.{IsValid, reserve_stock_exact}
use food_flow.Restaurant.Api.{
  MenuItem, Catalog, MenuRow, Queries, MenuItemResponse, menu_rows, menu_response, shown_quantity,
  get_menu,
}
use mathlib.Core.List.{map}

abbrev pub IsIn : {A : Type 0} → A → List A → Type 0
IsIn a [] = ⊥
IsIn a (b ∷ l) = (b ≡ a) ⊎ IsIn a l

IsIn-map :
    {A B : Type 0} (f : A → B) (b : B) (l : List A)
    → IsIn b (map f l)
    → (a : A) × IsIn a l × (f a ≡ b)
IsIn-map f b [] h = absurd h
IsIn-map f b (x ∷ l) (inl e) = (x, inl refl, e)
IsIn-map f b (x ∷ l) (inr m) = let (a, found, e) = IsIn-map f b l m in (a, inr found, e)

-- Every row of the join has what is in stock of its item.
menu_rows-quantity :
    (restaurant_id : Uuid) (stock : Table ℤ) (items : Table MenuItem) (r : MenuRow)
    → IsIn r (menu_rows restaurant_id stock items)
    → r.quantity ≡ lookup r.id stock
unfolding menu_rows
menu_rows-quantity restaurant_id stock [] r h = absurd h
menu_rows-quantity restaurant_id stock ((i, m) ∷ items) r h =
    elim (Bool-cases (m.restaurant_id == restaurant_id)) [
      | inl own ↦ elim (rw own at h) [
        | inl e ↦ subst (λ (x : MenuRow). x.quantity ≡ lookup x.id stock) e refl
        | inr k ↦ menu_rows-quantity restaurant_id stock items r k
      ]
      | inr foreign ↦ menu_rows-quantity restaurant_id stock items r (rw foreign at h)
    ]

-- A line that orders an entry of the menu.
abbrev pub menu_line : MenuItemResponse → ℕ → Item
menu_line e n = record { item_id = e.id; quantity = pos n; price = e.price }

module _ (i : Uuid) (n : ℕ) (price : Float) (stock : Table ℤ) where
  abbrev line : List Item
  line = record { item_id = str i; quantity = pos n; price = price } ∷ []

  line-demand : demand i line ≡ pos n
  unfolding demand
  line-demand = rw (==_refl i) (+ℤ_zero (pos n))

  line-asks : is_asked i line ≡ true
  unfolding is_asked
  line-asks = ground (arith, ==_refl i)

  asks-line : (j : Uuid) → is_asked j line ≡ true → i ≡ j
  unfolding is_asked
  asks-line j h = (==_iff i j).0 (ground arith)

  covered :
      (j : Uuid)
      → i ≡ j
      → 1 ≤ n
      → pos n ≤ℤ shown_quantity (lookup i stock)
      → (q : ℤ) × (lookup j stock ≡ some q) × (demand j line ≤ℤ q)
  covered j same asked h =
      subst (λ (k : Uuid). (q : ℤ) × (lookup k stock ≡ some q) × (demand k line ≤ℤ q)) same
        (elim (Option-cases (lookup i stock)) [
          | inl absent ↦ absurd (nothing (rw absent at h))
          | inr (q, had) ↦ (q, had, rw line-demand (rw had at h))
        ])
    where
      nothing : pos n ≤ℤ shown_quantity none → ⊥
      nothing h = omega arith

  shown : IsCovered line stock → pos n ≤ℤ shown_quantity (lookup i stock)
  shown c = let (q, had, enough) = c i line-asks in rw had (rw line-demand at enough)

  line-IsCovered : 1 ≤ n → IsCovered line stock ↔ (pos n ≤ℤ shown_quantity (lookup i stock))
  line-IsCovered asked = (shown, λ h j a. covered j (asks-line j a) asked h)

-- What an entry of the menu is.
entry-row :
    (x : Queries) (c : Catalog) (restaurant_id : Uuid) (db : Db) (entries : List MenuItemResponse)
    (e : MenuItemResponse)
    → ((rows : List MenuRow) (r : MenuRow) → IsIn r (x.sort_rows rows) → IsIn r rows)
    → get_menu x c restaurant_id db ≡ ok entries
    → IsIn e entries
    → (r : MenuRow) × (r.quantity ≡ lookup r.id db.stock) × (menu_response x r ≡ e)
unfolding get_menu
entry-row x c restaurant_id db entries e adds_none h found =
    elim (Bool-cases (is_some (lookup restaurant_id c.restaurants))) [
      | inr absent ↦ absurd (refused absent)
      | inl there ↦
          let all =
            map (menu_response x) (x.sort_rows (menu_rows restaurant_id db.stock c.menu_items)) in
          let same : all ≡ entries = ok_injective (answered there) in
          let (r, is_row, shape) =
            IsIn-map (menu_response x) e
              (x.sort_rows (menu_rows restaurant_id db.stock c.menu_items))
              (subst (λ (l : List MenuItemResponse). IsIn e l) (sym same) found) in
          (
            r,
            menu_rows-quantity restaurant_id db.stock c.menu_items r
                (adds_none (menu_rows restaurant_id db.stock c.menu_items) r is_row),
            shape,
          )
    ]
  where
    refused : is_some (lookup restaurant_id c.restaurants) ≡ false → ⊥
    refused absent = ground arith

    answered :
        is_some (lookup restaurant_id c.restaurants) ≡ true
        → ◌≡◌ {A = Result (List MenuItemResponse)}
            (ok
              (map (menu_response x) (x.sort_rows (menu_rows restaurant_id db.stock c.menu_items))))
            (ok entries)
    answered there = rw there at h

    ok_injective :
        {a b : List MenuItemResponse}
        → ◌≡◌ {A = Result (List MenuItemResponse)} (ok a) (ok b)
        → a ≡ b
    ok_injective h = cc

-- In a valid database, for a restaurant that exists and an order that has no reservation, and if sorting
-- adds no rows to the menu: `reserve_stock` of one line, of at least one piece of an item as the menu shows
-- it, returns exactly if the menu shows that many in stock.
pub menu_orderable :
    (x : Queries) (c : Catalog) (restaurant_id : Uuid) (db : Db) (entries : List MenuItemResponse)
    (e : MenuItemResponse) (o : Uuid) (n : ℕ)
    → IsValid db
    → ((rows : List MenuRow) (r : MenuRow) → IsIn r (x.sort_rows rows) → IsIn r rows)
    → get_menu x c restaurant_id db ≡ ok entries
    → IsIn e entries
    → lookup o db.reservations ≡ none
    → 1 ≤ n
    → ((reserve_stock (str o) (menu_line e n ∷ []) db).0 ≡ ok tt) ↔ (pos n ≤ℤ e.stock_quantity)
menu_orderable x c restaurant_id db entries e o n v adds_none h found fresh asked =
    let (r, quantity, shape) = entry-row x c restaurant_id db entries e adds_none h found in
    let covered = line-IsCovered r.id n (x.amount r.price) db.stock asked in
    let exact =
      (reserve_stock_exact o (menu_line (menu_response x r) n ∷ []) db v
        ((r.id, refl), omega arith, tt) fresh).0 in
    subst
      (λ (y : MenuItemResponse).
        ((reserve_stock (str o) (menu_line y n ∷ []) db).0 ≡ ok tt) ↔ (pos n ≤ℤ y.stock_quantity))
      shape
      (
        λ runs.
            subst (λ (q : Option ℤ). pos n ≤ℤ shown_quantity q) (sym quantity)
              (covered.0 (exact.0 runs)),
        λ enough.
            exact.1
              (covered.1 (subst (λ (q : Option ℤ). pos n ≤ℤ shown_quantity q) quantity enough)),
      )
