-- ===== src/Saga/Answering.antt =====
-- An answer of the restaurant service to an order.placed event keeps the three databases consistent.
use food_flow.Prelude.{
  leb, ◌+◌, ◌≤◌, ◌≡◌, refl, sym, ap, subst, ◌∙◌, Bool, true, false, not, Option, some, List, [],
  ◌∷◌, ◌++◌, arith, inl, inr, ◌==◌, ==_iff, ==_refl, if◌then◌else◌, Bool-cases,
}
use food_flow.Prelude.Int.{ℤ}
use mathlib.Core.Option.{some-injective}
use food_flow.Shared.Uuid.{Uuid, str}
use food_flow.Shared.Event.{Float, Item, order_placed, Envelope}
use food_flow.Shared.Table.{lookup}
use food_flow.Shared.Tables.{OutboxRow, is_in}
use food_flow.Shared.Outbox.Relay.{IsRow}
use food_flow.Restaurant.Stock.{Db}
use food_flow.Saga.{Saga}
use food_flow.Saga.Rows.{order_sends, is_answer, answers, answers-append, Describes}
use food_flow.Saga.Invariant.{Consistent, IsDecided, HasOrder}
use food_flow.Saga.Offered.{Source, source-key, source-Describes}

-- What an answer does to the tables: accepted, its lines are reserved, or rejected, nothing is.
pub record Answers (b : Bool) (u o : Uuid) (items : List Item) (row : OutboxRow) (db db' : Db)
    : Type 0 where
  pub topic : is_answer b row.topic ≡ true
  pub other_topic : is_answer (not b) row.topic ≡ false
  pub keyed : row.key ≡ some (str o)
  pub outbox : db'.events.outbox ≡ db.events.outbox ++ row ∷ []
  pub processed : db'.events.processed ≡ u ∷ db.events.processed
  pub reserved :
      (i : Uuid)
      → lookup i db'.reservations ≡ (
          if b
          then (if o == i then some items else lookup i db.reservations)
          else lookup i db.reservations)

-- How many answers there are after it.
pub answers_after :
    (b : Bool) (u o : Uuid) (items : List Item) (row : OutboxRow) (db db' : Db) (t : Bool)
    (i : Uuid)
    → Answers b u o items row db db'
    → answers t i db'.events.outbox
      ≡ answers t i db.events.outbox
        + (if is_answer t row.topic then (if o == i then 1 else 0) else 0)
answers_after b u o items row db db' t i a =
    rw (a.outbox) (ground (arith, answers-append t i db.events.outbox row, a.keyed))

module _ (to_cents : Float → Option ℤ) (s : Saga) (c : Consistent to_cents s) (e : Envelope)
    (u o : Uuid) (source : Source to_cents s order_sends s.order.events.outbox order_placed e)
    (told : e.payload.order_id ≡ some (str o)) (is_id : e.event_id ≡ str u)
    (is_new : is_in u s.stock.events.processed ≡ false) where
  -- The order had no answer before.
  pub undecided : answers true o s.stock.events.outbox + answers false o s.stock.events.outbox ≡ 0
  undecided =
      elim (Bool-cases
        (leb 1 (answers true o s.stock.events.outbox + answers false o s.stock.events.outbox))) [
          | inr none_yet ↦ ground arith
          | inl some_answer ↦
              let (v, ev, seen) =
                c.decided.marked o (ground arith) source.row source.in_outbox source.topic
                  (source-key source o told) in
              absurd (
                clash v
                  (id_injective (sym ev ∙ ap (λ (x : Envelope). x.event_id) source.event ∙ is_id))
                  seen)
        ]
    where
      id_injective : {a b : Uuid} → str a ≡ str b → a ≡ b
      id_injective h = ground arith

      clash : (v : Uuid) → v ≡ u → is_in v s.stock.events.processed ≡ true → ⊥
      clash v h seen = ground (arith, ap (λ (x : Uuid). is_in x s.stock.events.processed) h)

  total_after :
      (b : Bool) (items : List Item) (row : OutboxRow) (db' : Db) (i : Uuid)
      → Answers b u o items row s.stock db'
      → answers true i db'.events.outbox + answers false i db'.events.outbox
        ≡ answers true i s.stock.events.outbox
          + answers false i s.stock.events.outbox
          + (if o == i then 1 else 0)
  total_after true items row db' i a = ground (
    arith,
    answers_after true u o items row s.stock db' true i a,
    answers_after true u o items row s.stock db' false i a,
    a.topic,
    a.other_topic,
  )
  total_after false items row db' i a = ground (
    arith,
    answers_after false u o items row s.stock db' true i a,
    answers_after false u o items row s.stock db' false i a,
    a.topic,
    a.other_topic,
  )

  -- What the order's own row says.
  own_order : (i : Uuid) → (o == i) ≡ true → Describes to_cents s.order.orders i e.payload
  own_order i own =
      subst (λ (x : Uuid). Describes to_cents s.order.orders x e.payload) ((==_iff o i).0 own)
        (source-Describes source o told refl)

  module _ (b : Bool) (items : List Item) (row : OutboxRow) (db' : Db)
      (a : Answers b u o items row s.stock db') where
    answered-marked :
        (i : Uuid)
        → 1 ≤ answers true i db'.events.outbox + answers false i db'.events.outbox
        → (r : OutboxRow) → IsRow r s.order.events.outbox
        → r.topic ≡ order_placed
        → r.key ≡ some (str i)
        → (v : Uuid) × (r.event.event_id ≡ str v) × (is_in v db'.events.processed ≡ true)
    answered-marked i h r m t k = elim (Bool-cases (o == i)) [
      | inl own ↦ (
        u,
        c.single i r source.row m source.in_outbox t source.topic k (
              subst (λ (x : Uuid). source.row.key ≡ some (str x)) ((==_iff o i).0 own)
                (source-key source o told))
            ∙ ap (λ (x : Envelope). x.event_id) source.event
            ∙ is_id,
        rw (a.processed) (unfold is_in in ground (arith, ==_refl u)),
      )
      | inr foreign ↦
          let (v, ev, seen) =
            c.decided.marked i (ground (arith, total_after b items row db' i a)) r m t k in
          (v, ev, rw (a.processed) (unfold is_in in ground arith))
    ]

    answered-known :
        (i : Uuid)
        → 1 ≤ answers true i db'.events.outbox + answers false i db'.events.outbox
        → HasOrder s.order.orders i
    answered-known i h = elim (Bool-cases (o == i)) [
      | inl own ↦ let row = own_order i own in (row.row, row.is_row)
      | inr foreign ↦ c.decided.known i (ground (arith, total_after b items row db' i a))
    ]

    answered-once :
        (i : Uuid) → answers true i db'.events.outbox + answers false i db'.events.outbox ≤ 1
    answered-once i = elim (Bool-cases (o == i)) [
      | inl own ↦
          let none_yet =
            subst
              (λ (x : Uuid).
                answers true x s.stock.events.outbox + answers false x s.stock.events.outbox ≡ 0)
              ((==_iff o i).0 own) undecided in
          ground (arith, total_after b items row db' i a)
      | inr foreign ↦ ground (arith, total_after b items row db' i a, c.decided.once i)
    ]

  pub accepted-IsDecided :
      (items : List Item) (row : OutboxRow) (db' : Db)
      → Answers true u o items row s.stock db'
      → e.payload.items ≡ some items
      → IsDecided s.order.orders s.order.events.outbox db'
  accepted-IsDecided items row db' a ei = record {
    once = answered-once true items row db' a;
    known = answered-known true items row db' a;
    marked = answered-marked true items row db' a;
    kept = λ i h quiet. elim (Bool-cases (o == i)) [
      | inl own ↦ (items, ground (arith, a.reserved i))
      | inr foreign ↦
          let (l, had) =
            c.decided.kept i (ground (arith, answers_after true u o items row s.stock db' true i a))
              quiet in
          (l, ground (arith, a.reserved i))
    ];
    lines = λ i l h. elim (Bool-cases (o == i)) [
      | inl own ↦
          let r = own_order i own in
          let same : items ≡ l = some-injective items l (ground (arith, a.reserved i)) in
          (
            ground (arith, answers_after true u o items row s.stock db' true i a, a.topic),
            (r.row, r.is_row, sym same ∙ some-injective items r.row.items (sym ei ∙ r.items)),
          )
      | inr foreign ↦
          let (accepted, of_order) = c.decided.lines i l (ground (arith, a.reserved i)) in
          (ground (arith, answers_after true u o items row s.stock db' true i a), of_order)
    ];
  }

  pub rejected-IsDecided :
      (items : List Item) (row : OutboxRow) (db' : Db)
      → Answers false u o items row s.stock db'
      → IsDecided s.order.orders s.order.events.outbox db'
  rejected-IsDecided items row db' a = record {
    once = answered-once false items row db' a;
    known = answered-known false items row db' a;
    marked = answered-marked false items row db' a;
    kept = λ i h quiet.
        let (l, had) =
          c.decided.kept i
            (ground (arith, answers_after false u o items row s.stock db' true i a, a.other_topic))
            quiet in
        (l, a.reserved i ∙ had);
    lines = λ i l h.
        let (accepted, of_order) = c.decided.lines i l (sym (a.reserved i) ∙ h) in
        (ground (arith, answers_after false u o items row s.stock db' true i a), of_order);
  }
