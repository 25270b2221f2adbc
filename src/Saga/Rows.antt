-- ===== src/Saga/Rows.antt =====
-- What every row of an outbox says: it is keyed by its order, and those that carry an order say what the
-- order's row says.
use food_flow.Prelude.{
  ℕ, ◌+◌, ◌≤◌, ◌≡◌, refl, sym, ap, subst, ◌∙◌, Bool, true, false, ◌&&◌, Option, none, some, List,
  [], ◌∷◌, ◌++◌, arith, inl, inr, ◌⊎◌, ◌==◌, ==_refl, if◌then◌else◌,
}
use food_flow.Prelude.Int.{ℤ}
use food_flow.Shared.Uuid.{Uuid, IdText, str, malformed}
use food_flow.Shared.Event.{
  Float, Payload, EventType, order_placed, stock_reserved, stock_rejected, stock_release,
  payment_succeeded, payment_failed,
}
use food_flow.Shared.Table.{Table, lookup}
use food_flow.Shared.Tables.{OutboxRow}
use food_flow.Shared.Outbox.Relay.{IsRow}
use food_flow.Order.Db.{Order}

-- The topics that each service's rows have.
abbrev pub order_sends : EventType → Bool
order_sends order_placed = true
order_sends stock_release = true
order_sends _ = false

abbrev pub stock_sends : EventType → Bool
stock_sends stock_reserved = true
stock_sends stock_rejected = true
stock_sends _ = false

abbrev pub payment_sends : EventType → Bool
payment_sends payment_succeeded = true
payment_sends payment_failed = true
payment_sends _ = false

-- The topics whose payload carries the order.
abbrev pub carries_order : EventType → Bool
carries_order order_placed = true
carries_order stock_reserved = true
carries_order _ = false

-- The orders table, but for the statuses and times, goes on saying what it said.
abbrev pub Extends : Table Order → Table Order → Type 0
Extends orders orders' =
    (o : Uuid) (r : Order)
    → lookup o orders ≡ some r
    → (r' : Order) × (lookup o orders' ≡ some r')
      × (r'.items ≡ r.items)
      × (r'.total_amount ≡ r.total_amount)

pub Extends-refl : (orders : Table Order) → Extends orders orders
Extends-refl orders o r h = (r, h, refl, refl)

-- An order of the table has the items and the total of the payload.
pub record Describes (to_cents : Float → Option ℤ) (orders : Table Order) (o : Uuid) (p : Payload)
    : Type 0 where
  pub row : Order
  pub is_row : lookup o orders ≡ some row
  pub items : p.items ≡ some row.items
  pub amount : Float
  pub total : p.total_amount ≡ some amount
  pub cents : to_cents amount ≡ some row.total_amount

pub record IsSound (to_cents : Float → Option ℤ) (sends : EventType → Bool) (orders : Table Order)
    (r : OutboxRow) : Type 0 where
  pub order : Uuid
  pub keyed : r.key ≡ some (str order)
  pub told : r.event.payload.order_id ≡ some (str order)
  pub typed : r.event.event_type ≡ r.topic
  pub sent_by : sends r.topic ≡ true
  pub described : carries_order r.topic ≡ true → Describes to_cents orders order r.event.payload

abbrev pub AllRows {ℓ} : (OutboxRow → Type ℓ) → List OutboxRow → Type ℓ
AllRows P [] = Unit
AllRows P (r ∷ rs) = P r × AllRows P rs

pub AllRows-IsRow {ℓ} :
    (P : OutboxRow → Type ℓ) (rs : List OutboxRow) (r : OutboxRow) → AllRows P rs → IsRow r rs → P r
AllRows-IsRow P [] r h m = absurd m
AllRows-IsRow P (x ∷ rs) r (p, h) (inl e) = subst P e p
AllRows-IsRow P (x ∷ rs) r (p, h) (inr m) = AllRows-IsRow P rs r h m

pub AllRows-append {ℓ} :
    (P : OutboxRow → Type ℓ) (rs : List OutboxRow) (r : OutboxRow)
    → AllRows P rs
    → P r
    → AllRows P (rs ++ r ∷ [])
AllRows-append P [] r h p = (p, tt)
AllRows-append P (x ∷ rs) r (q, h) p = (q, AllRows-append P rs r h p)

pub AllRows-map {ℓ} :
    (P Q : OutboxRow → Type ℓ) (rs : List OutboxRow)
    → ((r : OutboxRow) → P r → Q r)
    → AllRows P rs
    → AllRows Q rs
AllRows-map P Q [] f h = tt
AllRows-map P Q (x ∷ rs) f (p, h) = (f x p, AllRows-map P Q rs f h)

pub IsRow-append :
    (rs : List OutboxRow) (r x : OutboxRow) → IsRow x (rs ++ r ∷ []) → IsRow x rs ⊎ (r ≡ x)
IsRow-append [] r x (inl e) = inr e
IsRow-append [] r x (inr m) = absurd m
IsRow-append (y ∷ rs) r x (inl e) = inl (inl e)
IsRow-append (y ∷ rs) r x (inr m) = elim (IsRow-append rs r x m) [
  | inl k ↦ inl (inr k)
  | inr e ↦ inr e
]

Describes-Extends :
    {to_cents : Float → Option ℤ} {orders orders' : Table Order} {o : Uuid} {p : Payload}
    → Extends orders orders'
    → Describes to_cents orders o p
    → Describes to_cents orders' o p
Describes-Extends {to_cents} x d =
    let (r', is_row, items, total) = x _ d.row d.is_row in
    record {
      row = r';
      is_row = is_row;
      items = d.items ∙ ap (λ l. some l) (sym items);
      amount = d.amount;
      total = d.total;
      cents = d.cents ∙ ap (λ c. some c) (sym total);
    }

pub IsSound-Extends :
    (to_cents : Float → Option ℤ) (sends : EventType → Bool) (orders orders' : Table Order)
    (rs : List OutboxRow)
    → Extends orders orders'
    → AllRows (IsSound to_cents sends orders) rs
    → AllRows (IsSound to_cents sends orders') rs
IsSound-Extends to_cents sends orders orders' rs x =
    AllRows-map (IsSound to_cents sends orders) (IsSound to_cents sends orders') rs (λ r s. record {
      order = s.order;
      keyed = s.keyed;
      told = s.told;
      typed = s.typed;
      sent_by = s.sent_by;
      described = λ c. Describes-Extends x (s.described c);
    })

-- The rows that answer an order.placed event: stock.reserved, or stock.rejected.
abbrev pub is_answer : Bool → EventType → Bool
is_answer true stock_reserved = true
is_answer false stock_rejected = true
is_answer _ _ = false

abbrev pub keyed_by : Uuid → Option IdText → Bool
keyed_by o none = false
keyed_by o (some (malformed s)) = false
keyed_by o (some (str u)) = u == o

-- How many such rows there are for an order.
unfoldable pub answers : Bool → Uuid → List OutboxRow → ℕ
answers b o [] = 0
answers b o (r ∷ rs) = (if is_answer b r.topic && keyed_by o r.key then 1 else 0) + answers b o rs

pub answers-append :
    (b : Bool) (o : Uuid) (rs : List OutboxRow) (r : OutboxRow)
    → answers b o (rs ++ r ∷ [])
      ≡ answers b o rs + (if is_answer b r.topic && keyed_by o r.key then 1 else 0)
unfolding answers
answers-append b o [] r = omega arith
answers-append b o (x ∷ rs) r = omega (arith, answers-append b o rs r)

answers_head :
    (b : Bool) (o : Uuid) (x r : OutboxRow) (rs : List OutboxRow)
    → x ≡ r
    → is_answer b r.topic ≡ true
    → r.key ≡ some (str o)
    → 1 ≤ answers b o (x ∷ rs)
unfolding answers
answers_head b o x r rs e t k =
    let tx : is_answer b x.topic ≡ true = ap (λ (y : OutboxRow). is_answer b y.topic) e ∙ t in
    let kx : x.key ≡ some (str o) = ap (λ (y : OutboxRow). y.key) e ∙ k in
    rw (tx, kx, ==_refl o) (omega arith)

pub answers-IsRow :
    (b : Bool) (o : Uuid) (rs : List OutboxRow) (r : OutboxRow)
    → IsRow r rs
    → is_answer b r.topic ≡ true
    → r.key ≡ some (str o)
    → 1 ≤ answers b o rs
unfolding answers
answers-IsRow b o [] r m t k = absurd m
answers-IsRow b o (x ∷ rs) r (inl e) t k = answers_head b o x r rs e t k
answers-IsRow b o (x ∷ rs) r (inr m) t k = omega (arith, answers-IsRow b o rs r m t k)
