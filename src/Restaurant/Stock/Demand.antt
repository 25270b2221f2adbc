-- ===== src/Restaurant/Stock/Demand.antt =====
-- What a list of order lines asks for, item by item: the specification of services/restaurant/stock.py.
use food_flow.Prelude.{
  ◌<◌, arith, refl, Bool, false, List, [], ◌∷◌, ◌==◌, if◌then◌else◌, ◌≡◌, some, true, ◌||◌,
}
use food_flow.Prelude.Int.{pos_part, +ℤ_parts, zero-+ℤ, ℤ, pos, ◌+ℤ◌, ◌≤ℤ◌}
use food_flow.Shared.Uuid.{Uuid, IdText, str, malformed}
use food_flow.Shared.Event.{Item}
use food_flow.Shared.Table.{Table, lookup}

abbrev pub spells : Uuid → IdText → Bool
spells i (str u) = u == i
spells i (malformed _) = false

-- The quantity that one line asks of item `i`.
abbrev pub share : Uuid → Item → ℤ
share i item = if spells i item.item_id then item.quantity else pos 0

-- The quantity that all lines together ask of item `i`.
unfoldable pub demand : Uuid → List Item → ℤ
demand i [] = pos 0
demand i (item ∷ items) = share i item +ℤ demand i items

-- Some line is for item `i`.
unfoldable pub is_asked : Uuid → List Item → Bool
is_asked i [] = false
is_asked i (item ∷ items) = spells i item.item_id || is_asked i items

-- Every line has an id that spells a UUID, and a quantity that is not negative.
abbrev pub IsWellFormed : List Item → Type 0
IsWellFormed [] = Unit
IsWellFormed (item ∷ items) =
    ((u : Uuid) × (item.item_id ≡ str u)) × (pos 0 ≤ℤ item.quantity) × IsWellFormed items

-- Every item that is asked for has a stock row, which covers all that the lines ask of it.
abbrev pub IsCovered : List Item → Table ℤ → Type 0
IsCovered items stock =
    (i : Uuid)
    → is_asked i items ≡ true
    → (q : ℤ) × (lookup i stock ≡ some q) × (demand i items ≤ℤ q)

-- Every row holds a quantity of an INTEGER column that passes CHECK (quantity >= 0).
abbrev pub InRange : Table ℤ → Type 0
InRange stock =
    (i : Uuid) (q : ℤ) → lookup i stock ≡ some q → (pos 0 ≤ℤ q) × (pos_part q < 2147483648)

pub demand-nonneg : (i : Uuid) (items : List Item) → IsWellFormed items → pos 0 ≤ℤ demand i items
unfolding demand
demand-nonneg i [] h = omega arith
demand-nonneg i (item ∷ items) h =
    ground (arith, demand-nonneg i items h.2, +ℤ_parts (share i item) (demand i items))

-- Lines that ask nothing of an item have no demand for it.
pub demand_unasked :
    (i : Uuid) (items : List Item) → is_asked i items ≡ false → demand i items ≡ pos 0
unfolding demand is_asked
demand_unasked i [] h = refl
demand_unasked i (item ∷ items) h = ground (arith, demand_unasked i items, zero-+ℤ (demand i items))
