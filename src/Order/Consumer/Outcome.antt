-- ===== src/Order/Consumer/Outcome.antt =====
-- What the transaction of services/order/consumers.py does when it commits.
use food_flow.Prelude.{
  subst, ℕ, ◌≡◌, ◌≢◌, refl, true, false, some, none, [], ◌∷◌, ◌++◌, arith, Option-cases, Bool-cases,
  inl, inr,
}
use food_flow.Shared.Uuid.{Uuid, IdText, str, malformed}
use food_flow.Shared.Error.{Result, ok}
use food_flow.Shared.Event.{
  EventType, payment_succeeded, payment_failed, stock_rejected, stock_release, Envelope, Draw,
  wrap_event, order_only,
}
use food_flow.Shared.Table.{lookup, set_row}
use food_flow.Shared.Tables.{is_in, OutboxRow, new_row}
use food_flow.Shared.Transaction.{◌>>◌, Done, >>-ok}
use food_flow.Order.Status.{Status, ◌⟶◌, confirmed, stock_unavailable}
use food_flow.Order.Db.{Order, Db, publish, mark_processed}
use food_flow.Order.Transition.{
  moved, transition_order, Transitioned, missing, refused, done, transition_order-Transitioned,
}
use food_flow.Order.Consumer.{on_payment_failed, dispatch, process}

abbrev pub with_row : Db → OutboxRow → Db
with_row db r = record db { events = record db.events { outbox = db.events.outbox ++ r ∷ [] } }

abbrev pub marked : Uuid → Db → Db
marked event_id db = record db {
  events = record db.events { processed = event_id ∷ db.events.processed };
}

abbrev pub with_order : Db → Uuid → Order → Db
with_order db order_id o = record db { orders = set_row order_id o db.orders }

-- The row of the compensation event for an order.
abbrev pub release_row : Draw → Uuid → OutboxRow
release_row d order_id =
    new_row d stock_release (str order_id) (wrap_event d stock_release (order_only (str order_id)))

-- The status that an event type asks for.
pub data Target : EventType → Status → Type 0 where
  on_success : Target payment_succeeded confirmed
  on_failure : Target payment_failed Status.payment_failed
  on_rejection : Target stock_rejected stock_unavailable

-- The rows that an event type adds to the outbox.
abbrev pub compensated : Draw → Uuid → EventType → Db → Db
compensated d order_id payment_failed db = with_row db (release_row d order_id)
compensated d order_id _ db = db

-- A committed run: it was a duplicate or of an unknown type, or the order moved along an arrow, with
-- the compensation that goes with it, and the event was marked.
pub data Handled (d : Draw) (event_id : Uuid) (envelope : Envelope) (db db' : Db) : Type 0 where
  duplicate :
      is_in event_id db.events.processed ≡ true → db' ≡ db → Handled d event_id envelope db db'
  ignored :
      ((t : Status) → ¬ Target envelope.event_type t)
      → db' ≡ db
      → Handled d event_id envelope db db'
  moved_order :
      (order_id : Uuid) (o : Order) (t : Status)
      → Target envelope.event_type t
      → envelope.payload.order_id ≡ some (str order_id)
      → lookup order_id db.orders ≡ some o
      → o.status ⟶ t
      → db'
        ≡ marked event_id
            (compensated d order_id envelope.event_type (with_order db order_id (moved d.now t o)))
      → Handled d event_id envelope db db'

transition-ok :
    {now : ℕ} {order_id : Uuid} {t : Status} {db : Db} {r : Result Done × Db}
    → Transitioned now order_id t db r
    → r.0 ≡ ok tt
    → (o : Order) × (lookup order_id db.orders ≡ some o)
      × (o.status ⟶ t)
      × (r.1 ≡ with_order db order_id (moved now t o))
transition-ok (missing e) h = cc
transition-ok (refused o e off) h = cc
transition-ok (done o e on) h = (o, e, on, refl)

pub mark-ok :
    (event_id : Uuid) (db : Db)
    → (mark_processed event_id db).0 ≡ ok tt
    → (mark_processed event_id db).1 ≡ marked event_id db
unfolding mark_processed
mark-ok event_id db h = ground arith

publish-ok :
    (d : Draw) (order_id : Uuid) (db : Db)
    → (publish d stock_release (str order_id) (order_only (str order_id)) db).0 ≡ ok tt
    → (publish d stock_release (str order_id) (order_only (str order_id)) db).1
      ≡ with_row db (release_row d order_id)
unfolding publish
publish-ok d order_id db h = ground arith

module _ (d : Draw) (event_id : Uuid) (envelope : Envelope) (db : Db) (order_id : Uuid)
    (has_order : envelope.payload.order_id ≡ some (str order_id)) where
  -- A transition followed by the mark.
  plain :
      (t : Status)
      → Target envelope.event_type t
      → ((x : Db) → compensated d order_id envelope.event_type x ≡ x)
      → ((transition_order d.now order_id t >> mark_processed event_id) db).0 ≡ ok tt
      → Handled d event_id envelope db
          ((transition_order d.now order_id t >> mark_processed event_id) db).1
  plain t target bare h =
      let (first, rest, same) =
        >>-ok (transition_order d.now order_id t) (mark_processed event_id) db h in
      let (o, e, on, after) =
        transition-ok (transition_order-Transitioned d.now order_id t db) first in
      moved_order order_id o t target has_order e on (
        rw (
          same,
          mark-ok event_id (transition_order d.now order_id t db).1 rest,
          after,
          bare (with_order db order_id (moved d.now t o)),
        ))

  with_release :
      envelope.event_type ≡ payment_failed
      → ((on_payment_failed d order_id >> mark_processed event_id) db).0 ≡ ok tt
      → Handled d event_id envelope db
          ((on_payment_failed d order_id >> mark_processed event_id) db).1
  with_release et h =
      let (first, rest, same) =
        >>-ok (on_payment_failed d order_id) (mark_processed event_id) db h in
      let (first', rest', same') = failed_parts first in
      let (o, e, on, after) =
        transition-ok (transition_order-Transitioned d.now order_id Status.payment_failed db)
          first' in
      let mid = (transition_order d.now order_id Status.payment_failed db).1 in
      moved_order order_id o Status.payment_failed (rw et on_failure) has_order e on (
        rw (
          same,
          mark-ok event_id (on_payment_failed d order_id db).1 rest,
          same',
          publish-ok d order_id mid rest',
          after,
          et,
        ))
    where
      failed_parts :
          (on_payment_failed d order_id db).0 ≡ ok tt
          → ((transition_order d.now order_id Status.payment_failed db).0 ≡ ok tt)
            × ((publish d stock_release
                  (str order_id)
                  (order_only (str order_id))
                  (transition_order d.now order_id Status.payment_failed db).1).0
                ≡ ok tt)
            × (on_payment_failed d order_id db
                ≡ publish d stock_release
                    (str order_id)
                    (order_only (str order_id))
                    (transition_order d.now order_id Status.payment_failed db).1)
      failed_parts h =
          unfold on_payment_failed in
          >>-ok (transition_order d.now order_id Status.payment_failed)
            (publish d stock_release (str order_id) (order_only (str order_id))) db h

  dispatched :
      (t : EventType)
      → envelope.event_type ≡ t
      → (dispatch d event_id order_id t db).0 ≡ ok tt
      → Handled d event_id envelope db (dispatch d event_id order_id t db).1
  unfolding dispatch
  dispatched payment_succeeded et h = plain confirmed (rw et on_success) (λ x. rw et) h
  dispatched payment_failed et h = with_release et h
  dispatched stock_rejected et h = plain stock_unavailable (rw et on_rejection) (λ x. rw et) h
  dispatched t et h =
      ignored (λ s target. let aimed = subst (λ x. Target x s) et target in elim aimed [ ]) refl

module _ (d : Draw) (event_id : Uuid) (envelope : Envelope) (db : Db) where
  processed_at :
      (text : IdText)
      → is_in event_id db.events.processed ≡ false
      → envelope.payload.order_id ≡ some text
      → (process d event_id envelope db).0 ≡ ok tt
      → Handled d event_id envelope db (process d event_id envelope db).1
  processed_at (malformed s) new had h = absurd (no_uuid h)
    where
      no_uuid : (process d event_id envelope db).0 ≢ ok tt
      no_uuid h = unfold process in ground arith
  processed_at (str order_id) new had h =
      rw goes
        (dispatched d event_id envelope db order_id had envelope.event_type refl (rw goes at h))
    where
      goes : process d event_id envelope db ≡ dispatch d event_id order_id envelope.event_type db
      goes = unfold process in ground arith

  pub processed :
      (process d event_id envelope db).0 ≡ ok tt
      → Handled d event_id envelope db (process d event_id envelope db).1
  processed h = elim (Bool-cases (is_in event_id db.events.processed)) [
    | inl seen ↦ duplicate seen (skips seen)
    | inr new ↦ elim (Option-cases envelope.payload.order_id) [
      | inl absent ↦ absurd (no_key new absent)
      | inr (text, had) ↦ processed_at text new had h
    ]
  ]
    where
      skips : is_in event_id db.events.processed ≡ true → (process d event_id envelope db).1 ≡ db
      skips seen = unfold process in ground arith

      no_key : is_in event_id db.events.processed ≡ false → envelope.payload.order_id ≡ none → ⊥
      no_key new absent = unfold process in ground arith
