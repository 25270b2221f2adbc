-- ===== src/Restaurant/Consumer/Stocked.antt =====
-- services/restaurant/consumers.py: no message adds a stock row or takes one away, so what is reserved has
-- a row to go back to.
use food_flow.Prelude.{
  ◌⊎◌, ◌≡◌, ap, sym, subst, ◌∙◌, true, false, none, some, List, ◌∷◌, arith, inl, inr, ◌==◌,
  Option-cases, Bool-cases,
}
use mathlib.Core.Option.{some-injective}
use food_flow.Prelude.Int.{ℤ}
use food_flow.Shared.Uuid.{Uuid, IdText}
use food_flow.Shared.Event.{Item, Payload, Envelope, Draw}
use food_flow.Shared.Table.{lookup, delete_row, lookup-delete_row}
use food_flow.Restaurant.Stock.{Db}
use food_flow.Restaurant.Stock.Demand.{is_asked}
use food_flow.Restaurant.Stock.Reserve.{reserve_items_covers, reserve_items-absent}
use food_flow.Restaurant.Stock.Release.{release_items-absent}
use food_flow.Restaurant.Stock.Held.{Conserves}
use food_flow.Restaurant.Stock.Contract.{IsValid, reserved, released}
use food_flow.Restaurant.Consumer.{handle_message}
use food_flow.Restaurant.Consumer.Outcome.{
  Handled, duplicate, ignored, placed_order, released_order,
}
use food_flow.Restaurant.Consumer.Placing.{Placed, accepted, rejected}
use food_flow.Restaurant.Consumer.Safety.{handle_message_rule, handle_message-Conserves}

-- An item without a stock row goes on having none.
abbrev pub KeepsAbsent : Uuid → Db → Db → Type 0
KeepsAbsent i db db' = lookup i db.stock ≡ none → lookup i db'.stock ≡ none

placed-KeepsAbsent :
    {d : Draw} {order_id : IdText} {payload : Payload} {db db' : Db} (i : Uuid)
    → Placed d order_id payload db db'
    → KeepsAbsent i db db'
placed-KeepsAbsent {db} i (accepted o items eo ei runs after) h =
    let x = reserved o items db runs in
    rw (ap (λ (x : Db). lookup i x.stock) after, ap (λ (x : Db). lookup i x.stock) x.after)
      (reserve_items-absent items db i x.looped h)
placed-KeepsAbsent i (rejected r why after) h = rw (ap (λ (x : Db). lookup i x.stock) after) h

handled-KeepsAbsent :
    {d : Draw} {event_id : Uuid} {envelope : Envelope} {db db' : Db} (i : Uuid)
    → Handled d event_id envelope db db'
    → KeepsAbsent i db db'
handled-KeepsAbsent i (duplicate seen after) h = rw after h
handled-KeepsAbsent i (ignored n m after) h = rw after h
handled-KeepsAbsent i (placed_order order_id mid et eo new p after) h =
    rw (ap (λ (x : Db). lookup i x.stock) after) (placed-KeepsAbsent i p h)
handled-KeepsAbsent {db} i (released_order o mid et eo (runs, is_mid) after) h =
    let x = released o db runs in
    rw (ap (λ (x : Db). lookup i x.stock) after, ap (λ (x : Db). lookup i x.stock) is_mid)
      (elim (Option-cases (lookup o db.reservations)) [
        | inl absent ↦ rw (ap (λ (x : Db). lookup i x.stock) (x.none_held absent)) h
        | inr (items, had) ↦
            rw (ap (λ (x : Db). lookup i x.stock) (x.after items had))
              (release_items-absent items db i (x.looped items had) h)
      ])

pub handle_message-KeepsAbsent :
    (d : Draw) (envelope : Envelope) (db : Db) (i : Uuid)
    → KeepsAbsent i db (handle_message d envelope db).1
handle_message-KeepsAbsent d envelope db i =
    handle_message_rule (KeepsAbsent i) (λ s h. h) d envelope db
      (λ event_id db' ei h. handled-KeepsAbsent i h)

-- Every item that a reservation asks for has a stock row.
abbrev pub IsStocked : Db → Type 0
IsStocked db =
    (o : Uuid) (items : List Item)
    → lookup o db.reservations ≡ some items
    → (i : Uuid) → is_asked i items ≡ true
    → (q : ℤ) × (lookup i db.stock ≡ some q)

-- The reservations of `db'` are those of `db`, or one more whose items have rows in `db`.
abbrev Stocks : Db → Db → Type 0
Stocks db db' =
    IsValid db
    → (o : Uuid) (items : List Item) → lookup o db'.reservations ≡ some items
    → (lookup o db.reservations ≡ some items)
      ⊎ ((i : Uuid) → is_asked i items ≡ true → (q : ℤ) × (lookup i db.stock ≡ some q))

placed-Stocks :
    {d : Draw} {order_id : IdText} {payload : Payload} {db db' : Db}
    → Placed d order_id payload db db'
    → Stocks db db'
placed-Stocks {db} {db'} (accepted o items eo ei runs after) v i lines had =
    let x = reserved o items db runs in
    let same : lookup i db'.reservations ≡ lookup i ((o, items) ∷ db.reservations) =
      ap (λ (y : Db). lookup i y.reservations) after
      ∙ ap (λ (y : Db). lookup i y.reservations) x.after in
    elim (Bool-cases (o == i)) [
      | inl own ↦ inr (
          subst
            (λ (l : List Item).
              (j : Uuid) → is_asked j l ≡ true → (q : ℤ) × (lookup j db.stock ≡ some q))
            (some-injective items lines (sym (mine own) ∙ sym same ∙ had))
            (λ j asked.
              let (q, e, cover) = reserve_items_covers items db v.in_range x.looped j asked in
              (q, e)))
      | inr foreign ↦ inl (sym (others foreign) ∙ sym same ∙ had)
    ]
  where
    mine : o == i ≡ true → lookup i ((o, items) ∷ db.reservations) ≡ some items
    mine own = unfold lookup in ground arith

    others : o == i ≡ false → lookup i ((o, items) ∷ db.reservations) ≡ lookup i db.reservations
    others foreign = unfold lookup in ground arith
placed-Stocks (rejected r why after) v i lines had =
    inl (sym (ap (λ (y : Db). lookup i y.reservations) after) ∙ had)

handled-Stocks :
    {d : Draw} {event_id : Uuid} {envelope : Envelope} {db db' : Db}
    → Handled d event_id envelope db db'
    → Stocks db db'
handled-Stocks (duplicate seen after) v i lines had =
    inl (sym (ap (λ (y : Db). lookup i y.reservations) after) ∙ had)
handled-Stocks (ignored n m after) v i lines had =
    inl (sym (ap (λ (y : Db). lookup i y.reservations) after) ∙ had)
handled-Stocks (placed_order order_id mid et eo new p after) v i lines had =
    placed-Stocks p v i lines (sym (ap (λ (y : Db). lookup i y.reservations) after) ∙ had)
handled-Stocks {db} {db'} (released_order o mid et eo (runs, is_mid) after) v i lines had =
    let x = released o db runs in
    let same : lookup i db'.reservations ≡ lookup i mid.reservations =
      ap (λ (y : Db). lookup i y.reservations) after in
    inl (elim (Option-cases (lookup o db.reservations)) [
      | inl absent ↦ rw (is_mid, x.none_held absent) at (sym same ∙ had)
      | inr (items, held_now) ↦ kept (rw (is_mid, x.after items held_now) at (sym same ∙ had))
    ])
  where
    kept :
        lookup i (delete_row o db.reservations) ≡ some lines → lookup i db.reservations ≡ some lines
    kept h = ground (arith, lookup-delete_row i o db.reservations)

abbrev KeepsStocked : Db → Db → Type 0
KeepsStocked db db' = IsValid db → ((i : Uuid) → Conserves i db db') → IsStocked db → IsStocked db'

handled-KeepsStocked :
    {d : Draw} {event_id : Uuid} {envelope : Envelope} {db db' : Db}
    → Handled d event_id envelope db db'
    → KeepsStocked db db'
handled-KeepsStocked h v conserves stocked o items had i asked =
    elim (handled-Stocks h v o items had) [
      | inl old ↦
          let (q, e) = stocked o items old i asked in
          let (q', e', sum) = conserves i q e in (q', e')
      | inr new ↦ let (q, e) = new i asked in let (q', e', sum) = conserves i q e in (q', e')
    ]

-- Every message keeps a stock row for all that is reserved.
pub handle_message-IsStocked :
    (d : Draw) (envelope : Envelope) (db : Db)
    → IsValid db
    → IsStocked db
    → IsStocked (handle_message d envelope db).1
handle_message-IsStocked d envelope db v =
    handle_message_rule KeepsStocked (λ s v c h. h) d envelope db
      (λ event_id db' ei h. handled-KeepsStocked h) v
      (λ i. handle_message-Conserves d envelope db i v)
