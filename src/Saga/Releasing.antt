-- ===== src/Saga/Releasing.antt =====
-- A stock.release, and with it every delivery to the restaurant service, keeps the three databases consistent.
use food_flow.Prelude.{
  ◌≤◌, ◌≡◌, refl, sym, ap, subst, ◌∙◌, true, false, Option, none, some, List, [], ◌∷◌, arith, inl,
  inr, ◌==◌, ==_iff, ==_refl, if◌then◌else◌, Bool-cases, Option-cases,
}
use food_flow.Prelude.Int.{ℤ}
use mathlib.Core.Option.{some-injective}
use food_flow.Restaurant.Consumer.Placing.{Placed}
use food_flow.Shared.Uuid.{Uuid, IdText, str}
use food_flow.Shared.Error.{ok}
use food_flow.Shared.Event.{Float, EventType, order_placed, stock_release, Envelope, Draw}
use food_flow.Shared.Table.{lookup, lookup-delete_row}
use food_flow.Shared.Tables.{EventTables, OutboxRow, is_in}
use food_flow.Shared.Outbox.Relay.{IsRow}
use food_flow.Order.Consumer.Invariant.{releases, is_release}
use food_flow.Restaurant.Stock.{Db, release_stock}
use food_flow.Restaurant.Stock.Contract.{Released, released}
use food_flow.Restaurant.Stock.Contract as StockContract
use food_flow.Restaurant.Stock.Release.{release_items-events}
use food_flow.Restaurant.Consumer.{handle_message}
use food_flow.Restaurant.Consumer.Outcome.{
  Handled, duplicate, ignored, placed_order, released_order, marked,
}
use food_flow.Restaurant.Consumer.Safety.{handle_message_rule, handled-IsValid}
use food_flow.Saga.{Saga, Offers, restaurant_takes}
use food_flow.Saga.Rows.{order_sends}
use food_flow.Saga.Invariant.{Consistent, IsDecided}
use food_flow.Saga.Offered.{Source, source-key, source-type, restaurant_source}
use food_flow.Saga.Stocking.{with_stock, stock-Consistent, placed-Consistent}

releases_head :
    (o : Uuid) (x r : OutboxRow) (rs : List OutboxRow)
    → x ≡ r
    → is_release r.topic ≡ true
    → r.key ≡ some (str o)
    → 1 ≤ releases o (x ∷ rs)
unfolding releases
releases_head o x r rs e t k =
    let tx : is_release x.topic ≡ true = ap (λ (y : OutboxRow). is_release y.topic) e ∙ t in
    let kx : x.key ≡ some (str o) = ap (λ (y : OutboxRow). y.key) e ∙ k in
    rw (tx, kx, ==_refl o) (omega arith)

releases-IsRow :
    (o : Uuid) (rs : List OutboxRow) (r : OutboxRow)
    → IsRow r rs
    → is_release r.topic ≡ true
    → r.key ≡ some (str o)
    → 1 ≤ releases o rs
unfolding releases
releases-IsRow o [] r m t k = absurd m
releases-IsRow o (x ∷ rs) r (inl e) t k = releases_head o x r rs e t k
releases-IsRow o (x ∷ rs) r (inr m) t k = omega (arith, releases-IsRow o rs r m t k)

-- What a release does to the tables: the order's reservation goes, and the event is marked.
record Frees (u o : Uuid) (db db' : Db) : Type 0 where
  outbox : db'.events.outbox ≡ db.events.outbox
  processed : db'.events.processed ≡ u ∷ db.events.processed
  reserved :
      (i : Uuid) → lookup i db'.reservations ≡ (if o == i then none else lookup i db.reservations)

released-Frees :
    (u o : Uuid) (db : Db)
    → (release_stock (str o) db).0 ≡ ok tt
    → Frees u o db (marked u (release_stock (str o) db).1)
released-Frees u o db runs =
    let d = released o db runs in
    elim (Option-cases (lookup o db.reservations)) [
      | inl absent ↦ rw (d.none_held absent) (record {
        outbox = refl;
        processed = refl;
        reserved = λ i. elim (Bool-cases (o == i)) [
          | inl own ↦
              rw own
                (ap (λ (x : Uuid). lookup x db.reservations) (sym ((==_iff o i).0 own)) ∙ absent)
          | inr foreign ↦ rw foreign refl
        ];
      })
      | inr (items, had) ↦
          let same = release_items-events items db in
          rw (d.after items had) (record {
            outbox = ap (λ (x : EventTables). x.outbox) same;
            processed = ap (λ (x : EventTables). u ∷ x.processed) same;
            reserved = λ i. lookup-delete_row i o db.reservations;
          })
    ]

module _ (to_cents : Float → Option ℤ) (s : Saga) (c : Consistent to_cents s) where
  freed-IsDecided :
      (u o : Uuid) (db' : Db)
      → 1 ≤ releases o s.order.events.outbox
      → Frees u o s.stock db'
      → IsDecided s.order.orders s.order.events.outbox db'
  freed-IsDecided u o db' asked a = record {
    once = λ i. rw (a.outbox) (c.decided.once i);
    known = λ i h. c.decided.known i (rw (sym a.outbox) h);
    marked = λ i h r m t k.
        let (v, ev, seen) = c.decided.marked i (rw (sym a.outbox) h) r m t k in
        (v, ev, rw (a.processed) (unfold is_in in ground arith));
    kept = λ i h quiet. elim (Bool-cases (o == i)) [
      | inl own ↦
          let more =
            subst (λ (x : Uuid). 1 ≤ releases x s.order.events.outbox) ((==_iff o i).0 own) asked in
          absurd (omega arith)
      | inr foreign ↦
          let (l, had) = c.decided.kept i (rw (sym a.outbox) h) quiet in
          (l, ground (arith, a.reserved i))
    ];
    lines = λ i l h.
        let (accepted, of_order) = c.decided.lines i l (ground (arith, a.reserved i)) in
        (rw (a.outbox) accepted, of_order);
  }

  freed-Consistent :
      (u o : Uuid) (db' : Db)
      → 1 ≤ releases o s.order.events.outbox
      → Frees u o s.stock db'
      → StockContract.IsValid db'
      → Consistent to_cents (with_stock s db')
  freed-Consistent u o db' asked a v =
      stock-Consistent to_cents s c db' (λ b i. rw (a.outbox) (omega arith)) v
        (rw (a.outbox) c.stock_rows) (freed-IsDecided u o db' asked a)

  module _ (d : Draw) (e : Envelope) (et : EventType) (takes : restaurant_takes et ≡ true)
      (offer : Offers s et e) where
    source : Source to_cents s order_sends s.order.events.outbox et e
    source = (restaurant_source to_cents s c et e takes offer).0

    order_told : e.payload.order_id ≡ some (str source.sound.order)
    order_told = sym (ap (λ (x : Envelope). x.payload.order_id) source.event) ∙ source.sound.told

    handled_placed :
        (u o : Uuid) (mid : Db)
        → e.event_id ≡ str u
        → e.event_type ≡ order_placed
        → e.payload.order_id ≡ some (str o)
        → is_in u s.stock.events.processed ≡ false
        → Placed d (str o) e.payload s.stock mid
        → StockContract.IsValid (marked u mid)
        → Consistent to_cents (with_stock s (marked u mid))
    handled_placed u o mid is_id is_placed told new p v =
        placed-Consistent to_cents s c d e u o
          (subst (λ (x : EventType). Source to_cents s order_sends s.order.events.outbox x e)
            (sym (source-type source o told) ∙ is_placed) source)
          told is_id new mid p v

    asked :
        (o : Uuid)
        → e.event_type ≡ stock_release
        → e.payload.order_id ≡ some (str o)
        → 1 ≤ releases o s.order.events.outbox
    asked o is_stock told =
        releases-IsRow o s.order.events.outbox source.row source.in_outbox
          (ap is_release (source.topic ∙ sym (source-type source o told) ∙ is_stock))
          (source-key source o told)

    handled-Consistent :
        (u : Uuid) (db' : Db)
        → e.event_id ≡ str u
        → Handled d u e s.stock db'
        → StockContract.IsValid db'
        → Consistent to_cents (with_stock s db')
    handled-Consistent u db' is_id (duplicate seen after) v = rw after c
    handled-Consistent u db' is_id (ignored n m after) v = rw after c
    handled-Consistent u db' is_id (placed_order t mid is_placed eo new p after) v =
        let own : t ≡ str source.sound.order =
          some-injective t (str source.sound.order) (sym eo ∙ order_told) in
        rw after (
          handled_placed u source.sound.order mid is_id is_placed order_told new
            (subst (λ (x : IdText). Placed d x e.payload s.stock mid) own p) (rw after at v))
    handled-Consistent u db' is_id (released_order o mid is_stock eo (runs, is_mid) after) v =
        let same : db' ≡ marked u (release_stock (str o) s.stock).1 =
          after ∙ ap (marked u) is_mid in
        freed-Consistent u o db' (asked o is_stock eo)
          (subst (λ (x : Db). Frees u o s.stock x) (sym same) (released-Frees u o s.stock runs)) v

    -- A delivery to the restaurant service keeps the three databases consistent.
    pub restaurant_receives-Consistent :
        Consistent to_cents (with_stock s (handle_message d e s.stock).1)
    restaurant_receives-Consistent =
        handle_message_rule
          (λ db db'. Consistent to_cents (with_stock s db) → Consistent to_cents (with_stock s db'))
          (λ db h. h) d e s.stock
          (λ u db' is_id h before.
            handled-Consistent u db' is_id h (handled-IsValid h c.stock_valid))
          c
