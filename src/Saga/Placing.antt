-- ===== src/Saga/Placing.antt =====
-- A request to the order service keeps the three databases consistent.
use food_flow.Prelude.{
  String, ◌≡◌, refl, sym, ap, subst, ◌∙◌, Option, none, some, [], ◌∷◌, ◌++◌, arith, inl, inr, ◌==◌,
  ==_iff, ==_refl, Bool-cases,
}
use food_flow.Prelude.Int.{ℤ}
use mathlib.Core.Option.{some-injective}
use food_flow.Shared.Uuid.{Uuid, IdText, str}
use food_flow.Shared.Error.{Result}
use food_flow.Shared.Event.{order_placed, wrap_event}
use food_flow.Shared.Table.{Table, lookup}
use food_flow.Shared.Tables.{OutboxRow}
use food_flow.Shared.Outbox.Relay.{IsRow}
use food_flow.Order.Db.{Order, Db}
use food_flow.Order.Create.{
  FloatOps, CreateDraw, CreateOrderRequest, CreateResponse, new_order, event_payload, total_amount,
  create_order,
}
use food_flow.Order.Create.Outcome.{
  Created, raised, replayed, stored, stored_db, placed_row, create_order-Created,
}
use food_flow.Order.Create.Replay.{stored-IsValid}
use food_flow.Order.Consumer.Invariant.{releases-append}
use food_flow.Saga.{Saga}
use food_flow.Saga.Rows.{
  carries_order, IsSound, AllRows-append, AllRows-IsRow, Extends, IsSound-Extends, IsRow-append,
  order_sends,
}
use food_flow.Saga.Invariant.{Consistent, IsSingle, IsExplained, Explains}
use food_flow.Saga.Offered.{str_injective}
use food_flow.Saga.Growth.{Grows, Grows-Consistent, with_order}

cons-Extends :
    (orders : Table Order) (i : Uuid) (n : Order)
    → lookup i orders ≡ none
    → Extends orders ((i, n) ∷ orders)
cons-Extends orders i n fresh o r h = elim (Bool-cases (i == o)) [
  | inl own ↦ absurd (taken (ap (λ (x : Uuid). lookup x orders) ((==_iff i o).0 own)))
  | inr other ↦ (r, unfold lookup in ground arith, refl, refl)
]
  where
    taken : lookup i orders ≡ lookup o orders → ⊥
    taken e = ground arith

module _ (f : FloatOps) (s : Saga) (c : Consistent f.to_cents s) (d : CreateDraw)
    (body : CreateOrderRequest) (u : Uuid) (cents : ℤ) (simulate key : Option String)
    (fits : f.to_cents (total_amount f body.items) ≡ some cents)
    (fresh : lookup d.order_uuid s.order.orders ≡ none) where
  abbrev order_row : OutboxRow
  order_row = placed_row f d body u simulate

  abbrev orders_after : Table Order
  orders_after = (d.order_uuid, new_order d u body cents simulate key) ∷ s.order.orders

  placed_row-IsSound : IsSound f.to_cents order_sends orders_after order_row
  unfolding wrap_event event_payload lookup
  placed_row-IsSound = record {
    order = d.order_uuid;
    keyed = refl;
    told = refl;
    typed = refl;
    sent_by = refl;
    described = λ h. record {
      row = new_order d u body cents simulate key;
      is_row = ground (arith, ==_refl d.order_uuid);
      items = refl;
      amount = total_amount f body.items;
      total = refl;
      cents = fits;
    };
  }

  -- No row of the outbox is of the new order.
  unplaced :
      (r : OutboxRow)
      → IsRow r s.order.events.outbox
      → r.topic ≡ order_placed
      → r.key ≡ some (str d.order_uuid)
      → ⊥
  unplaced r m t k =
      let sound =
        AllRows-IsRow (IsSound f.to_cents order_sends s.order.orders) s.order.events.outbox r
          c.order_rows m in
      let described = sound.described (ap carries_order t) in
      let own : sound.order ≡ d.order_uuid = str_injective (sym sound.keyed ∙ k) in
      clash sound.order described.row (ap (λ (x : Uuid). lookup x s.order.orders) own)
        described.is_row
    where
      clash :
          (o : Uuid) (r : Order)
          → lookup o s.order.orders ≡ lookup d.order_uuid s.order.orders
          → lookup o s.order.orders ≡ some r
          → ⊥
      clash o r e p = ground arith

  placed-IsSingle : IsSingle (s.order.events.outbox ++ order_row ∷ [])
  placed-IsSingle o x x' m m' t t' k k' = elim (IsRow-append s.order.events.outbox order_row x m) [
    | inl old ↦ elim (IsRow-append s.order.events.outbox order_row x' m') [
      | inl old' ↦ c.single o x x' old old' t t' k k'
      | inr e' ↦ absurd (unplaced x old t (own x x' k k' e'))
    ]
    | inr e ↦ elim (IsRow-append s.order.events.outbox order_row x' m') [
      | inl old' ↦ absurd (unplaced x' old' t' (own x' x k' k e))
      | inr e' ↦ ap (λ (y : OutboxRow). y.event.event_id) (sym e ∙ e')
    ]
  ]
    where
      own :
          (x x' : OutboxRow)
          → x.key ≡ some (str o)
          → x'.key ≡ some (str o)
          → order_row ≡ x'
          → x.key ≡ some (str d.order_uuid)
      own x x' k k' e = k ∙ sym k' ∙ sym (ap (λ (y : OutboxRow). y.key) e)

  placed-Grows :
      Grows s.order.orders orders_after s.order.events.outbox
        (s.order.events.outbox ++ order_row ∷ [])
  placed-Grows = record {
    extends =
        cons-Extends s.order.orders d.order_uuid (new_order d u body cents simulate key) fresh;
    fewer = λ o h. omega (arith, releases-append o s.order.events.outbox order_row);
    placed = λ r m t. elim (IsRow-append s.order.events.outbox order_row r m) [
      | inl old ↦ inl old
      | inr e ↦ inr (d.order_uuid, sym (ap (λ (y : OutboxRow). y.key) e), fresh)
    ];
  }

  placed-IsExplained : IsExplained orders_after s.stock.events.outbox s.payment.events.outbox
  placed-IsExplained o r h = elim (Bool-cases (d.order_uuid == o)) [
    | inr other ↦ c.explained o r (unfold lookup in ground arith)
    | inl own ↦
        let same : new_order d u body cents simulate key ≡ r =
          some-injective (new_order d u body cents simulate key) r
            (unfold lookup in ground arith) in
        subst (λ (x : Order). Explains x.status o s.stock.events.outbox s.payment.events.outbox)
          same tt
  ]

  stored-Consistent :
      Consistent f.to_cents (with_order s (stored_db f d body u cents simulate key s.order))
  stored-Consistent =
      Grows-Consistent f.to_cents s (stored_db f d body u cents simulate key s.order) placed-Grows
        (stored-IsValid f d body u cents simulate key s.order fresh c.order_valid)
        (AllRows-append (IsSound f.to_cents order_sends orders_after) s.order.events.outbox
          order_row
          (IsSound-Extends f.to_cents order_sends s.order.orders orders_after s.order.events.outbox
            placed-Grows.extends c.order_rows)
          placed_row-IsSound)
        placed-IsSingle placed-IsExplained c

Created-Consistent :
    (f : FloatOps) (d : CreateDraw) (body : CreateOrderRequest) (user : IdText)
    (simulate key : Option String) (s : Saga) {r : Result CreateResponse × Db}
    → Created f d body user simulate key s.order r
    → Consistent f.to_cents s
    → Consistent f.to_cents (with_order s r.1)
Created-Consistent f d body user simulate key s (raised e) c = c
Created-Consistent f d body user simulate key s (replayed u row e found) c = c
Created-Consistent f d body user simulate key s (stored u cents e new fits fresh unused) c =
    stored-Consistent f s c d body u cents simulate key fits fresh

-- A request keeps the three databases consistent, whatever comes of it.
pub places-Consistent :
    (f : FloatOps) (d : CreateDraw) (body : CreateOrderRequest) (user : IdText)
    (simulate key : Option String) (s : Saga)
    → Consistent f.to_cents s
    → Consistent f.to_cents (with_order s (create_order f d body user simulate key s.order).1)
places-Consistent f d body user simulate key s c =
    Created-Consistent f d body user simulate key s
      (create_order-Created f d body user simulate key s.order) c
