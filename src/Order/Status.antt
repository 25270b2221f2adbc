-- ===== src/Order/Status.antt =====
-- The states of services/order/state_machine.py and its table of transitions.
use food_flow.Prelude.{String, ◌≡◌, refl, Bool, true, false, ◌||◌, List, [], ◌∷◌, if◌then◌else◌}
use text.Mathlib.Text.{◌==◌ as str_eq}

-- The text of the `status` column.
pub data Status : Type 0 where
  pending confirmed payment_failed stock_unavailable : Status
  other : String → Status

-- `==` on the texts
unfoldable pub same_status : Status → Status → Bool
same_status pending pending = true
same_status confirmed confirmed = true
same_status payment_failed payment_failed = true
same_status stock_unavailable stock_unavailable = true
same_status (other s) (other t) = str_eq s t
same_status _ _ = false

abbrev pub status_text : Status → String
status_text pending = "PENDING"
status_text confirmed = "CONFIRMED"
status_text payment_failed = "PAYMENT_FAILED"
status_text stock_unavailable = "STOCK_UNAVAILABLE"
status_text (other s) = s

-- ALLOWED_TRANSITIONS
abbrev pub allowed_transitions : List (Status × List Status)
allowed_transitions = (pending, confirmed ∷ payment_failed ∷ stock_unavailable ∷ []) ∷ []

-- `new_status in allowed`
unfoldable pub contains : Status → List Status → Bool
unfolding same_status
contains s [] = false
contains s (t ∷ ts) = same_status t s || contains s ts

-- `ALLOWED_TRANSITIONS.get(current_status, set())`
unfoldable pub get_allowed : Status → List (Status × List Status) → List Status
unfolding same_status
get_allowed s [] = []
get_allowed s ((t, targets) ∷ rest) = if same_status t s then targets else get_allowed s rest

-- The test of `transition_order`.
unfoldable pub is_allowed : Status → Status → Bool
unfolding get_allowed contains
is_allowed current new_status = contains new_status (get_allowed current allowed_transitions)

-- The arrows of the diagram in the module's docstring: out of PENDING, into a terminal state.
infix 40 ◌⟶◌
pub data ◌⟶◌ : Status → Status → Type 0 where
  confirm : pending ⟶ confirmed
  fail_payment : pending ⟶ payment_failed
  reject_stock : pending ⟶ stock_unavailable

pub is_allowed-⟶ : (s t : Status) → is_allowed s t ≡ true → s ⟶ t
unfolding is_allowed
is_allowed-⟶ pending pending h = cc
is_allowed-⟶ pending confirmed h = confirm
is_allowed-⟶ pending payment_failed h = fail_payment
is_allowed-⟶ pending stock_unavailable h = reject_stock
is_allowed-⟶ pending (other t) h = cc
is_allowed-⟶ confirmed t h = cc
is_allowed-⟶ payment_failed t h = cc
is_allowed-⟶ stock_unavailable t h = cc
is_allowed-⟶ (other s) t h = cc

pub ⟶-is_allowed : {s t : Status} → s ⟶ t → is_allowed s t ≡ true
unfolding is_allowed
⟶-is_allowed confirm = refl
⟶-is_allowed fail_payment = refl
⟶-is_allowed reject_stock = refl
