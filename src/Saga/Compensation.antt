-- ===== src/Saga/Compensation.antt =====
-- The stock.release of an order whose payment failed, delivered to the restaurant service.
use food_flow.Prelude.{
  ◌<◌, ◌≤◌, ◌≡◌, refl, sym, ◌∙◌, ap, subst, String, false, none, some, List, [], ◌∷◌, arith, inl,
  inr, Option-cases, Bool-cases, ◌==◌, ==_refl,
}
use mathlib.Core.Option.{some-injective}
use food_flow.Prelude.Int.{ℤ, pos, negsuc, pos_part, ◌+ℤ◌, ◌≤ℤ◌, int_laws, +ℤ_parts}
use food_flow.Shared.Uuid.{Uuid, str}
use food_flow.Shared.Error.{Result, ok}
use food_flow.Shared.Event.{Item, stock_release, Envelope, Draw}
use food_flow.Shared.Table.{Table, lookup, lookup-delete_row}
use food_flow.Shared.Tables.{is_in}
use food_flow.Order.Create.{FloatOps}
use food_flow.Restaurant.Stock.{Db, release_stock}
use food_flow.Restaurant.Stock.Demand.{demand, demand-nonneg, IsWellFormed}
use food_flow.Restaurant.Stock.Held.{held}
use food_flow.Restaurant.Consumer.Stocked.{
  IsStocked, KeepsAbsent, handle_message-KeepsAbsent, handle_message-IsStocked,
}
use food_flow.Saga.{
  Saga, Offers, Step, places, order_receives, restaurant_receives, payment_receives, payment_dies,
  reconciles, Reach, start, later,
}
use food_flow.Saga.Invariant.{Consistent}
use food_flow.Saga.Reachable.{IsFresh, Reach-Consistent}
use food_flow.Saga.Safety.{never_oversold}
use food_flow.Saga.Completion.{stock_turn}
use food_flow.Saga.Offered.{restaurant_source, source-type}
use food_flow.Restaurant.Consumer.{handle_message, handle_event, process, dispatch, mark_processed}
use food_flow.Restaurant.Consumer.Outcome.{marked}
use food_flow.Restaurant.Stock.RoundTrip.{release_stock_runs}
use food_flow.Restaurant.Stock.Contract.{released}
use food_flow.Restaurant.Stock.Release.{
  HasRoom, release_items-demand, release_items_succeeds, release_items-events,
}
use food_flow.Shared.Transaction.{Done, returned, transaction}

module _ (f : FloatOps) (default : String) where
  Step-IsStocked :
      {s t : Saga}
      → Consistent f.to_cents s
      → Step f default s t
      → IsStocked s.stock
      → IsStocked t.stock
  Step-IsStocked c (places d body user simulate key) h = h
  Step-IsStocked c (order_receives d t e takes offer) h = h
  Step-IsStocked {s} c (restaurant_receives d t e takes offer) h =
      handle_message-IsStocked d e s.stock c.stock_valid h
  Step-IsStocked c (payment_receives d t e takes offer) h = h
  Step-IsStocked c (payment_dies d t e takes offer) h = h
  Step-IsStocked c (reconciles draws now duration) h = h

  Reach-IsStocked : {s t : Saga} → IsFresh s → Reach f default s t → IsStocked t.stock
  Reach-IsStocked {s} x start = none_reserved
    where
      none_reserved : IsStocked s.stock
      none_reserved o items had = absurd (unfold lookup in ground (arith, x.no_reservations))
  Reach-IsStocked x (later r step) =
      Step-IsStocked (Reach-Consistent f default x r) step (Reach-IsStocked x r)

  Step-KeepsAbsent : {s t : Saga} (i : Uuid) → Step f default s t → KeepsAbsent i s.stock t.stock
  Step-KeepsAbsent i (places d body user simulate key) h = h
  Step-KeepsAbsent i (order_receives d t e takes offer) h = h
  Step-KeepsAbsent {s} i (restaurant_receives d t e takes offer) h =
      handle_message-KeepsAbsent d e s.stock i h
  Step-KeepsAbsent i (payment_receives d t e takes offer) h = h
  Step-KeepsAbsent i (payment_dies d t e takes offer) h = h
  Step-KeepsAbsent i (reconciles draws now duration) h = h

  Reach-KeepsAbsent : {s t : Saga} (i : Uuid) → Reach f default s t → KeepsAbsent i s.stock t.stock
  Reach-KeepsAbsent i start h = h
  Reach-KeepsAbsent i (later r step) h = Step-KeepsAbsent i step (Reach-KeepsAbsent i r h)

-- No line of a reservation has a negative quantity.
abbrev pub AllWellFormed : Table (List Item) → Type 0
AllWellFormed [] = Unit
AllWellFormed ((o, items) ∷ t) = IsWellFormed items × AllWellFormed t

held-nonneg : (i : Uuid) (t : Table (List Item)) → AllWellFormed t → pos 0 ≤ℤ held i t
unfolding held
held-nonneg i [] w = omega arith
held-nonneg i ((o, items) ∷ t) w =
    ground
      (arith, demand-nonneg i items w.0, held-nonneg i t w.1, +ℤ_parts (demand i items) (held i t))

lookup-AllWellFormed :
    (o : Uuid) (items : List Item) (t : Table (List Item))
    → AllWellFormed t
    → lookup o t ≡ some items
    → IsWellFormed items
unfolding lookup
lookup-AllWellFormed o items [] w h = absurd (ground arith)
lookup-AllWellFormed o items ((k, lines) ∷ t) w h = elim (Bool-cases (k == o)) [
  | inl own ↦ subst IsWellFormed (some-injective lines items (ground arith)) w.0
  | inr foreign ↦ lookup-AllWellFormed o items t w.1 (ground arith)
]

-- What an order has reserved is part of what is reserved.
demand-held :
    (i o : Uuid) (items : List Item) (t : Table (List Item))
    → AllWellFormed t
    → lookup o t ≡ some items
    → demand i items ≤ℤ held i t
unfolding held lookup
demand-held i o items [] w h = absurd (ground arith)
demand-held i o items ((k, lines) ∷ t) w h = elim (Bool-cases (k == o)) [
  | inl own ↦
      subst (λ (l : List Item). demand i l ≤ℤ demand i lines +ℤ held i t)
        (some-injective lines items (ground arith)) (omega (int_laws, held-nonneg i t w.1))
  | inr foreign ↦
      omega (int_laws, demand-held i o items t w.1 (ground arith), demand-nonneg i lines w.0)
]

pos_part-≤ℤ : (a b : ℤ) → a ≤ℤ b → pos_part a ≤ pos_part b
pos_part-≤ℤ (pos n) (pos m) h = omega (arith, h)
pos_part-≤ℤ (pos n) (negsuc m) h = omega (arith, h)
pos_part-≤ℤ (negsuc n) b h = omega arith

below :
    (q d h q0 : ℤ)
    → d ≤ℤ h
    → q +ℤ h ≡ q0
    → pos_part q0 < 2147483648
    → pos_part (q +ℤ d) < 2147483648
below q d h q0 part sum top =
    let low : q +ℤ d ≤ℤ q0 = subst (λ (x : ℤ). q +ℤ d ≤ℤ x) sum (omega (int_laws, part)) in
    omega (arith, pos_part-≤ℤ (q +ℤ d) q0 low, top)

module _ (f : FloatOps) (default : String) {s0 s : Saga} (x : IsFresh s0)
    (reach : Reach f default s0 s) (w : AllWellFormed s.stock.reservations) (o : Uuid)
    (items : List Item) (had : lookup o s.stock.reservations ≡ some items) where
  -- The lines of a reservation go back without an overflow.
  room : HasRoom items s.stock.stock
  room i asked =
      let (q, now) = Reach-IsStocked f default x reach o items had i asked in
      let c = Reach-Consistent f default x reach in
      elim (Option-cases (lookup i s0.stock.stock)) [
        | inl absent ↦ absurd (clash q now (Reach-KeepsAbsent f default i reach absent))
        | inr (q0, e) ↦
            let ((q', now', sum), le) = never_oversold f default i q0 x reach e in
            (
              q,
              now,
              (c.stock_valid.in_range i q now).0,
              below q (demand i items) (held i s.stock.reservations) q0
                  (demand-held i o items s.stock.reservations w had)
                  (ap (λ (y : ℤ). y +ℤ held i s.stock.reservations)
                      (some-injective q q' (sym now ∙ now'))
                    ∙ sum)
                  (x.in_range i q0 e).1,
            )
      ]
    where
      clash : (q : ℤ) → lookup i s.stock.stock ≡ some q → lookup i s.stock.stock ≡ none → ⊥
      clash q a b = cc

-- The stock.release branch, where the release returns.
releases_stock :
    (d : Draw) (e : Envelope) (u o : Uuid) (db : Db)
    → e.event_id ≡ str u
    → e.event_type ≡ stock_release
    → e.payload.order_id ≡ some (str o)
    → is_in u db.events.processed ≡ false
    → (release_stock (str o) db).0 ≡ ok tt
    → is_in u (release_stock (str o) db).1.events.processed ≡ false
    → handle_message d e db ≡ (ok tt, marked u (release_stock (str o) db).1)
releases_stock d e u o db is_id typed told new runs still_new =
    let first = returned (release_stock (str o) db) runs in
    unfold handle_message handle_event transaction process dispatch mark_processed in
    ground (arith, first)

module _ (f : FloatOps) (default : String) {s0 s : Saga} (d : Draw) (e : Envelope) (u o : Uuid)
    (items : List Item) where
  -- In every state that the services reach from fresh databases, where no line of a reservation has a
  -- negative quantity: the delivery of a stock.release event that the restaurant service has not
  -- read, for an order that has a reservation, returns; it takes the reservation away, and adds what its
  -- lines hold to any stock row, which has room for it.
  pub release_delivered :
      IsFresh s0
      → Reach f default s0 s
      → AllWellFormed s.stock.reservations
      → lookup o s.stock.reservations ≡ some items
      → Offers s stock_release e
      → e.event_id ≡ str u
      → e.payload.order_id ≡ some (str o)
      → is_in u s.stock.events.processed ≡ false
      → (i : Uuid) (q : ℤ) → lookup i s.stock.stock ≡ some q
      → ((handle_message d e s.stock).0 ≡ ok tt)
        × (lookup o (stock_turn d e s).stock.reservations ≡ none)
        × (lookup i (stock_turn d e s).stock.stock ≡ some (q +ℤ demand i items))
  release_delivered x reach w had offer is_id told new i q h =
      let c = Reach-Consistent f default x reach in
      let source = (restaurant_source f.to_cents s c stock_release e refl offer).0 in
      let gives =
        release_items_succeeds items s.stock
          (lookup-AllWellFormed o items s.stock.reservations w had)
          (room f default x reach w o items had) in
      let runs = release_stock_runs o items s.stock had gives in
      let after = (released o s.stock runs).after items had in
      let done =
        releases_stock d e u o s.stock is_id (source-type source o told) told new runs
          (rw (after, release_items-events items s.stock) new) in
      (
        ap (λ (y : Result Done × Db). y.0) done,
        rw (done, after) (ground (arith, lookup-delete_row o o s.stock.reservations, ==_refl o)),
        rw (done, after) (release_items-demand items s.stock i q gives h),
      )
