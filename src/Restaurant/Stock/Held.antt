-- ===== src/Restaurant/Stock/Held.antt =====
-- What the reservations hold of an item, and the conservation of stock.
use food_flow.Prelude.{◌∙◌, ◌≡◌, refl, some, List, [], ◌∷◌}
use food_flow.Prelude.Int.{ℤ, pos, ◌+ℤ◌, int_laws}
use food_flow.Shared.Uuid.{Uuid}
use food_flow.Shared.Event.{Item}
use food_flow.Shared.Table.{Table, lookup, delete_row, HasUniqueKeys, delete_row_absent}
use food_flow.Restaurant.Stock.{Db}
use food_flow.Restaurant.Stock.Demand.{demand}

-- The quantity of item `i` that all reservations together hold.
unfoldable pub held : Uuid → Table (List Item) → ℤ
held i [] = pos 0
held i ((o, items) ∷ t) = demand i items +ℤ held i t

-- Of an item that has a stock row, what is in stock and what is reserved add up to the same in both
-- states.
abbrev pub Conserves : Uuid → Db → Db → Type 0
Conserves i db db' =
    (q : ℤ)
    → lookup i db.stock ≡ some q
    → (q' : ℤ) × (lookup i db'.stock ≡ some q')
      × (q' +ℤ held i db'.reservations ≡ q +ℤ held i db.reservations)

pub Conserves-refl : (i : Uuid) (db : Db) → Conserves i db db
Conserves-refl i db q h = (q, h, refl)

pub Conserves-trans : (i : Uuid) (a b c : Db) → Conserves i a b → Conserves i b c → Conserves i a c
Conserves-trans i a b c h k q e =
    let (q', e', s') = h q e in let (q'', e'', s'') = k q' e' in (q'', e'', s'' ∙ s')

-- Deleting the one reservation of an order takes its lines out of what is held.
pub held-delete_row :
    (i o : Uuid) (items : List Item) (t : Table (List Item))
    → HasUniqueKeys t
    → lookup o t ≡ some items
    → held i (delete_row o t) +ℤ demand i items ≡ held i t
unfolding held delete_row lookup
held-delete_row i o items [] u h = cc
held-delete_row i o items ((k, lines) ∷ t) u h =
    grind (int_laws, held-delete_row i o items t u.1, delete_row_absent o t)
