-- ===== src/Order/Api/View.antt =====
-- POST /orders, then GET /orders/{id} (services/order/routes.py), by one user.
use food_flow.Prelude.{
  String, ◌≡◌, ◌&&◌, ◌==◌, subst, refl, sym, ◌∙◌, ap, none, some, Option, [], ◌∷◌, arith, inl, inr,
  ==_iff, ==_refl, Bool-cases,
}
use mathlib.Core.Option.{some-injective}
use food_flow.Shared.Uuid.{Uuid, str}
use food_flow.Shared.Text.{same_text_refl}
use food_flow.Shared.Error.{Result, ok}
use food_flow.Shared.Table.{Table, lookup, HasUniqueKeys}
use food_flow.Order.Status.{status_text}
use food_flow.Order.Db.{Order, Db}
use food_flow.Order.Create.{
  FloatOps, CreateDraw, CreateOrderRequest, CreateResponse, check_existing, find_existing, has_key,
  create_order, new_order, accepted, already_accepted,
}
use food_flow.Order.Create.Outcome.{
  stored_db, Created, raised, replayed, stored, create_order-Created,
}
use food_flow.Shared.Response.{Texts}
use food_flow.Order.Api.{CurrentUser, OrderResponse, order_response, get_order}

ok_injective : {a b : CreateResponse} → ◌≡◌ {A = Result CreateResponse} (ok a) (ok b) → a ≡ b
ok_injective h = cc

str_injective : {a b : Uuid} → str a ≡ str b → a ≡ b
str_injective h = cc

lookup_first :
    (i j : Uuid) (o q : Order) (rows : Table Order)
    → lookup j rows ≡ none
    → lookup i rows ≡ some o
    → lookup i ((j, q) ∷ rows) ≡ some o
unfolding lookup
lookup_first i j o q rows fresh found = elim (Bool-cases (j == i)) [
  | inl same ↦ ground (arith, ap (λ (y : Uuid). lookup y rows) ((==_iff j i).0 same))
  | inr distinct ↦ rw distinct found
]

-- A row that the lookup by the key finds is in the table, and is the user's.
find_existing-lookup :
    (k : String) (u : Uuid) (row : Uuid × Order) (rows : Table Order)
    → HasUniqueKeys rows
    → find_existing k u rows ≡ some row
    → (lookup row.0 rows ≡ some row.1) × (row.1.user_id ≡ u)
unfolding find_existing
find_existing-lookup k u row [] unique h = cc
find_existing-lookup k u row ((j, q) ∷ rows) unique h =
    elim (Bool-cases (has_key k q.idempotency_key && q.user_id == u)) [
      | inr passed ↦
          let (found, own) = find_existing-lookup k u row rows unique.1 (ground arith) in
          (lookup_first row.0 j row.1 q rows unique.0 found, own)
      | inl hit ↦
          let same : (j, q) ≡ row = some-injective (j, q) row (ground arith) in
          (
            subst (λ (r : Uuid × Order). lookup r.0 ((j, q) ∷ rows) ≡ some r.1) same
                (unfold lookup in rw (==_refl j) refl),
            subst (λ (r : Uuid × Order). r.1.user_id ≡ u) same
                ((==_iff q.user_id u).0 (ground arith)),
          )
    ]

check_existing-lookup :
    (u : Uuid) (key : Option String) (row : Uuid × Order) (rows : Table Order)
    → HasUniqueKeys rows
    → check_existing u key rows ≡ some row
    → (lookup row.0 rows ≡ some row.1) × (row.1.user_id ≡ u)
unfolding check_existing
check_existing-lookup u none row rows unique h = cc
check_existing-lookup u (some k) row rows unique h =
    find_existing-lookup k u row rows unique (ground arith)

module _ (x : Texts) (email : String) (u : Uuid) where
  abbrev pub asking : CurrentUser
  asking = record { user_id = x.uuid_text u; email = email }

  own_row :
      (i : Uuid) (o : Order) (db : Db)
      → lookup i db.orders ≡ some o
      → o.user_id ≡ u
      → get_order x i asking db ≡ (ok (order_response x i o), db)
  unfolding get_order
  own_row i o db found own =
      rw found (ground (arith, same_text_refl (x.uuid_text u), ap x.uuid_text own))

  -- What a request to create was answered, and what a request to view answers after it.
  pub record IsShown (r : CreateResponse) (db : Db) : Type 0 where
    pub order : Uuid
    pub view : OrderResponse
    pub named : r.id ≡ str order
    pub answered : get_order x order asking db ≡ (ok view, db)
    pub same_status : view.status ≡ status_text r.status
    pub own : view.user_id ≡ x.uuid_text u

  shown :
      (r : CreateResponse) (db : Db) (i : Uuid) (o : Order)
      → r.id ≡ str i
      → lookup i db.orders ≡ some o
      → o.user_id ≡ u
      → o.status ≡ r.status
      → IsShown r db
  shown r db i o named found own status = record {
    order = i;
    view = order_response x i o;
    named = named;
    answered = own_row i o db found own;
    same_status = ap status_text status;
    own = ap x.uuid_text own;
  }

  module _ (f : FloatOps) (d : CreateDraw) (body : CreateOrderRequest)
      (simulate key : Option String) (db : Db) (unique : HasUniqueKeys db.orders) where
    Created-IsShown :
        {w : Result CreateResponse × Db} (r : CreateResponse)
        → Created f d body (str u) simulate key db w
        → w.0 ≡ ok r
        → IsShown r w.1
    Created-IsShown r (raised e) h = cc
    Created-IsShown r (replayed v row is_user found) h =
        let (here, own) = check_existing-lookup v key row db.orders unique found in
        subst (λ (y : CreateResponse). IsShown y db) (ok_injective h)
          (shown (already_accepted row) db row.0 row.1 refl here (own ∙ sym (str_injective is_user))
            refl)
    Created-IsShown r (stored v cents is_user new fits fresh unused) h =
        let row = new_order d v body cents simulate key in
        let db' = stored_db f d body v cents simulate key db in
        subst (λ (y : CreateResponse). IsShown y db') (ok_injective h)
          (shown (accepted d) db' d.order_uuid row refl
            (unfold lookup in rw (==_refl d.order_uuid) refl) (sym (str_injective is_user)) refl)

  -- In a database whose orders have distinct ids: if POST /orders answers a user, with a new order or with
  -- the one that their key already has, then GET /orders/{id} at once after it, by the same user and with
  -- the id of the answer, shows an order of that user, in the status of the answer, and changes nothing.
  pub get_order-create_order :
      (f : FloatOps) (d : CreateDraw) (body : CreateOrderRequest) (simulate key : Option String)
      (db : Db) (r : CreateResponse)
      → HasUniqueKeys db.orders
      → (create_order f d body (str u) simulate key db).0 ≡ ok r
      → IsShown r (create_order f d body (str u) simulate key db).1
  get_order-create_order f d body simulate key db r unique h =
      Created-IsShown f d body simulate key db unique r
        (create_order-Created f d body (str u) simulate key db) h
