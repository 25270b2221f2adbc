-- ===== src/Saga/Offered.antt =====
-- Which rows a message of a topic can come from.
use food_flow.Prelude.{
  arith, ◌≡◌, refl, sym, ap, subst, ◌∙◌, Bool, true, false, Option, List, some, ◌⊎◌, inl, inr,
}
use food_flow.Prelude.Int.{ℤ}
use food_flow.Shared.Uuid.{Uuid, IdText, str}
use food_flow.Shared.Event.{
  Float, EventType, order_placed, stock_reserved, stock_rejected, stock_release, payment_succeeded,
  payment_failed, unknown, Envelope,
}
use food_flow.Shared.Tables.{OutboxRow}
use food_flow.Shared.Outbox.Relay.{IsRow}
use food_flow.Saga.{
  Saga, Offers, from_order, from_stock, from_payment, order_takes, restaurant_takes, payment_takes,
}
use food_flow.Saga.Rows.{
  carries_order, Describes, IsSound, AllRows-IsRow, order_sends, stock_sends, payment_sends,
}
use food_flow.Saga.Invariant.{Consistent}

order_topics : (t : EventType) → order_sends t ≡ true → (t ≡ order_placed) ⊎ (t ≡ stock_release)
order_topics order_placed h = inl refl
order_topics stock_release h = inr refl
order_topics stock_reserved h = cc
order_topics stock_rejected h = cc
order_topics payment_succeeded h = cc
order_topics payment_failed h = cc
order_topics (unknown s) h = cc

stock_topics : (t : EventType) → stock_sends t ≡ true → (t ≡ stock_reserved) ⊎ (t ≡ stock_rejected)
stock_topics stock_reserved h = inl refl
stock_topics stock_rejected h = inr refl
stock_topics order_placed h = cc
stock_topics stock_release h = cc
stock_topics payment_succeeded h = cc
stock_topics payment_failed h = cc
stock_topics (unknown s) h = cc

payment_topics :
    (t : EventType) → payment_sends t ≡ true → (t ≡ payment_succeeded) ⊎ (t ≡ payment_failed)
payment_topics payment_succeeded h = inl refl
payment_topics payment_failed h = inr refl
payment_topics order_placed h = cc
payment_topics stock_release h = cc
payment_topics stock_reserved h = cc
payment_topics stock_rejected h = cc
payment_topics (unknown s) h = cc

foreign : false ≡ true → ⊥
foreign h = cc

-- A row of the outbox `rows`, of topic `t`, that has the event.
pub record Source (to_cents : Float → Option ℤ) (s : Saga) (sends : EventType → Bool)
    (rows : List OutboxRow) (t : EventType) (e : Envelope) : Type 0 where
  pub row : OutboxRow
  pub in_outbox : IsRow row rows
  pub topic : row.topic ≡ t
  pub event : row.event ≡ e
  pub sound : IsSound to_cents sends s.order.orders row

module _ (to_cents : Float → Option ℤ) (s : Saga) (c : Consistent to_cents s) (t : EventType)
    (e : Envelope) where
  from_order_source :
      (r : OutboxRow)
      → IsRow r s.order.events.outbox
      → r.topic ≡ t
      → r.event ≡ e
      → Source to_cents s order_sends s.order.events.outbox t e
        × ((t ≡ order_placed) ⊎ (t ≡ stock_release))
  from_order_source r m et ee =
      let sound =
        AllRows-IsRow (IsSound to_cents order_sends s.order.orders) s.order.events.outbox r
          c.order_rows m in
      (
        record { row = r; in_outbox = m; topic = et; event = ee; sound = sound },
        order_topics t (subst (λ (x : EventType). order_sends x ≡ true) et sound.sent_by),
      )

  from_stock_source :
      (r : OutboxRow)
      → IsRow r s.stock.events.outbox
      → r.topic ≡ t
      → r.event ≡ e
      → Source to_cents s stock_sends s.stock.events.outbox t e
        × ((t ≡ stock_reserved) ⊎ (t ≡ stock_rejected))
  from_stock_source r m et ee =
      let sound =
        AllRows-IsRow (IsSound to_cents stock_sends s.order.orders) s.stock.events.outbox r
          c.stock_rows m in
      (
        record { row = r; in_outbox = m; topic = et; event = ee; sound = sound },
        stock_topics t (subst (λ (x : EventType). stock_sends x ≡ true) et sound.sent_by),
      )

  from_payment_source :
      (r : OutboxRow)
      → IsRow r s.payment.events.outbox
      → r.topic ≡ t
      → r.event ≡ e
      → Source to_cents s payment_sends s.payment.events.outbox t e
        × ((t ≡ payment_succeeded) ⊎ (t ≡ payment_failed))
  from_payment_source r m et ee =
      let sound =
        AllRows-IsRow (IsSound to_cents payment_sends s.order.orders) s.payment.events.outbox r
          c.payment_rows m in
      (
        record { row = r; in_outbox = m; topic = et; event = ee; sound = sound },
        payment_topics t (subst (λ (x : EventType). payment_sends x ≡ true) et sound.sent_by),
      )

  -- What the payment service takes is a stock.reserved row of the restaurant service.
  pub payment_source :
      payment_takes t ≡ true
      → Offers s t e
      → Source to_cents s stock_sends s.stock.events.outbox stock_reserved e
  payment_source h (from_order r m et ee) = elim (from_order_source r m et ee).1 [
    | inl k ↦ absurd (foreign (ap payment_takes (sym k) ∙ h))
    | inr k ↦ absurd (foreign (ap payment_takes (sym k) ∙ h))
  ]
  payment_source h (from_payment r m et ee) = elim (from_payment_source r m et ee).1 [
    | inl k ↦ absurd (foreign (ap payment_takes (sym k) ∙ h))
    | inr k ↦ absurd (foreign (ap payment_takes (sym k) ∙ h))
  ]
  payment_source h (from_stock r m et ee) =
      let (source, k) = from_stock_source r m et ee in
      elim k [
        | inl k ↦
            subst (λ (x : EventType). Source to_cents s stock_sends s.stock.events.outbox x e) k
              source
        | inr k ↦ absurd (foreign (ap payment_takes (sym k) ∙ h))
      ]

  -- What the restaurant service takes is a row of the order service.
  pub restaurant_source :
      restaurant_takes t ≡ true
      → Offers s t e
      → Source to_cents s order_sends s.order.events.outbox t e
        × ((t ≡ order_placed) ⊎ (t ≡ stock_release))
  restaurant_source h (from_order r m et ee) = from_order_source r m et ee
  restaurant_source h (from_payment r m et ee) = elim (from_payment_source r m et ee).1 [
    | inl k ↦ absurd (foreign (ap restaurant_takes (sym k) ∙ h))
    | inr k ↦ absurd (foreign (ap restaurant_takes (sym k) ∙ h))
  ]
  restaurant_source h (from_stock r m et ee) = elim (from_stock_source r m et ee).1 [
    | inl k ↦ absurd (foreign (ap restaurant_takes (sym k) ∙ h))
    | inr k ↦ absurd (foreign (ap restaurant_takes (sym k) ∙ h))
  ]

  -- What the order service takes is an outcome of a payment, or a rejection of the restaurant service.
  pub order_source :
      order_takes t ≡ true
      → Offers s t e
      → (Source to_cents s payment_sends s.payment.events.outbox t e
          × ((t ≡ payment_succeeded) ⊎ (t ≡ payment_failed)))
        ⊎ Source to_cents s stock_sends s.stock.events.outbox stock_rejected e
  order_source h (from_order r m et ee) = elim (from_order_source r m et ee).1 [
    | inl k ↦ absurd (foreign (ap order_takes (sym k) ∙ h))
    | inr k ↦ absurd (foreign (ap order_takes (sym k) ∙ h))
  ]
  order_source h (from_payment r m et ee) = inl (from_payment_source r m et ee)
  order_source h (from_stock r m et ee) =
      let (source, k) = from_stock_source r m et ee in
      elim k [
        | inl k ↦ absurd (foreign (ap order_takes (sym k) ∙ h))
        | inr k ↦ inr (
            subst (λ (x : EventType). Source to_cents s stock_sends s.stock.events.outbox x e) k
              source)
      ]

pub str_injective : {a b : Uuid} → ◌≡◌ {A = Option IdText} (some (str a)) (some (str b)) → a ≡ b
str_injective h = ground arith

module _ {to_cents : Float → Option ℤ} {s : Saga} {sends : EventType → Bool} {rows : List OutboxRow}
    {t : EventType} {e : Envelope} (source : Source to_cents s sends rows t e) (o : Uuid)
    (told : e.payload.order_id ≡ some (str o)) where
  own_order : source.sound.order ≡ o
  own_order =
      str_injective
        (sym source.sound.told ∙ ap (λ (x : Envelope). x.payload.order_id) source.event ∙ told)

  -- A source is keyed by the order that its event names.
  pub source-key : source.row.key ≡ some (str o)
  source-key = source.sound.keyed ∙ ap (λ (i : Uuid). some (str i)) own_order

  pub source-type : e.event_type ≡ t
  source-type =
      sym (ap (λ (x : Envelope). x.event_type) source.event) ∙ source.sound.typed ∙ source.topic

  pub source-Describes : carries_order t ≡ true → Describes to_cents s.order.orders o e.payload
  source-Describes h =
      subst (λ (i : Uuid). Describes to_cents s.order.orders i e.payload) own_order
        (subst (λ (x : Envelope). Describes to_cents s.order.orders source.sound.order x.payload)
          source.event (source.sound.described (ap carries_order source.topic ∙ h)))
