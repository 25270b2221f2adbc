-- ===== src/Payment/Idempotent.antt =====
-- A message that the payment service has handled and that is delivered again changes nothing.
use food_flow.Prelude.{
  Bool, ◌⊎◌, Option-cases, String, ◌≡◌, refl, ◌∙◌, true, false, Option, none, some, List, ◌∷◌,
  arith, inl, inr, ap, ==_refl,
}
use food_flow.Prelude.Int.{ℤ}
use food_flow.Shared.Uuid.{Uuid, IdText, str}
use food_flow.Shared.Error.{Result, ok}
use food_flow.Shared.Event.{Float, Envelope, Draw}
use food_flow.Shared.Tables.{is_in}
use food_flow.Shared.Transaction.{◌>>=◌, transaction}
use food_flow.Payment.Gateway.{process_payment}
use food_flow.Payment.Db.{Db, order_paid, publish_outcome}
use food_flow.Payment.Consumer.{
  PaymentDraw, finish_payment, handle_message, record_outcome, update_status,
}
use food_flow.Payment.Intent.{
  Begun, raised, duplicate, already_paid, intended, intended_db, begin_payment-Begun,
}

record_outcome-processed :
    (d : Draw) (id : Uuid) (t : IdText) (b : Bool) (db : Db)
    → (record_outcome d id t b db).1.events.processed ≡ db.events.processed
unfolding record_outcome transaction update_status publish_outcome
record_outcome-processed d id t b db = ground arith

module _ (to_cents : Float → Option ℤ) (default : String) (d : PaymentDraw)
    (envelope : Envelope) where
  finish_payment-processed :
      (p : Option Uuid) (db : Db)
      → (finish_payment default d envelope p db).1.events.processed ≡ db.events.processed
  unfolding finish_payment
  finish_payment-processed none db = refl
  finish_payment-processed (some id) db = elim (Option-cases envelope.payload.order_id) [
    | inl absent ↦ ground arith
    | inr (t, e) ↦ ground (
      arith,
      record_outcome-processed d.outcome id t
          (process_payment default envelope.payload.payment_simulate) db,
    )
  ]

-- Why a message finds nothing to do: its event was processed, or its order has a payment.
abbrev IsBlocked : Envelope → Db → Type 0
IsBlocked envelope db =
    ((u : Uuid) × (envelope.event_id ≡ str u) × (is_in u db.events.processed ≡ true))
    ⊎ ((o : Uuid) × (envelope.payload.order_id ≡ some (str o)) × (order_paid o db.payments ≡ true))

first_in : (u : Uuid) (us : List Uuid) → is_in u (u ∷ us) ≡ true
unfolding is_in
first_in u us = ground (arith, ==_refl u)

clash : {b : Bool} → b ≡ true → b ≡ false → ⊥
clash p q = cc

same_uuid : {u v : Uuid} {t : IdText} → t ≡ str u → t ≡ str v → u ≡ v
same_uuid p q = cc

same_order : {u v : Uuid} {t : Option IdText} → t ≡ some (str u) → t ≡ some (str v) → u ≡ v
same_order p q = cc

module _ (to_cents : Float → Option ℤ) (default : String) (d : PaymentDraw)
    (envelope : Envelope) where
  blocked-idle :
      {db : Db} {r : Result (Option Uuid) × Db}
      → Begun to_cents d envelope db r
      → IsBlocked envelope db
      → (◌>>=◌ (λ (s : Db). r) (finish_payment default d envelope) db).1 ≡ db
  unfolding finish_payment
  blocked-idle (raised e) h = refl
  blocked-idle (duplicate u ei seen) h = refl
  blocked-idle (already_paid o eo paid) h = refl
  blocked-idle {db} (intended u o cents ei eo new fresh unpaid charge) (inl (v, ev, seen)) =
      absurd (clash (ap (λ (x : Uuid). is_in x db.events.processed) (same_uuid ei ev) ∙ seen) new)
  blocked-idle {db} (intended u o cents ei eo new fresh unpaid charge) (inr (w, ew, paid)) =
      absurd (clash (ap (λ (x : Uuid). order_paid x db.payments) (same_order eo ew) ∙ paid) unpaid)

  -- A first delivery that returned leaves the message blocked.
  blocks :
      {db : Db} {r : Result (Option Uuid) × Db}
      → Begun to_cents d envelope db r
      → (◌>>=◌ (λ (s : Db). r) (finish_payment default d envelope) db).0 ≡ ok tt
      → IsBlocked envelope (◌>>=◌ (λ (s : Db). r) (finish_payment default d envelope) db).1
  blocks (raised e) h = cc
  blocks (duplicate u ei seen) h = unfold finish_payment in inl (u, ei, seen)
  blocks (already_paid o eo paid) h = unfold finish_payment in inr (o, eo, paid)
  blocks {db} (intended u o cents ei eo new fresh unpaid charge) h = inl (
    u,
    ei,
    rw
        (finish_payment-processed to_cents default d envelope (some d.payment_uuid)
          (intended_db d u o cents envelope.payload.payment_simulate db))
        (first_in u db.events.processed),
  )

-- A message whose handling returned and that is delivered once more, with whatever draws, leaves the
-- database as the first delivery left it.
pub payment_message_again :
    (to_cents : Float → Option ℤ) (default : String) (d d' : PaymentDraw) (envelope : Envelope)
    (db : Db)
    → (handle_message to_cents default d envelope db).0 ≡ ok tt
    → let db' = (handle_message to_cents default d envelope db).1 in
      (handle_message to_cents default d' envelope db').1 ≡ db'
unfolding handle_message
payment_message_again to_cents default d d' envelope db h =
    let db' = (handle_message to_cents default d envelope db).1 in
    blocked-idle to_cents default d' envelope (begin_payment-Begun to_cents d' envelope db')
      (blocks to_cents default d envelope (begin_payment-Begun to_cents d envelope db) h)
