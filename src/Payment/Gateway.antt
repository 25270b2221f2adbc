-- ===== src/Payment/Gateway.antt =====
-- services/payment/gateway.py
use Prim.Native.Char.{code}
use food_flow.Prelude.{
  ℕ, ◌+◌, String, Bool, true, false, not, ◌&&◌, Option, none, some, List, [], ◌∷◌, map, leb, ◌==◌,
  if◌then◌else◌, ◌≡◌, refl,
}
use food_flow.Shared.Text.{truthy}

-- The code points of a text.
abbrev pub codes : String → List ℕ
codes String.[] = []
codes (String.◌∷◌ c s) = code c ∷ codes s

-- `lower` on one character. Of the letters of "failure" only the ASCII capitals have another form, so
-- the other characters, which `lower` may change too, can be left.
abbrev pub lower : ℕ → ℕ
lower c = if leb b'A' c && leb c b'Z' then c + 32 else c

abbrev pub same_codes : List ℕ → List ℕ → Bool
same_codes [] [] = true
same_codes (a ∷ xs) (b ∷ ys) = a == b && same_codes xs ys
same_codes _ _ = false

-- directive.lower() == "failure"
unfoldable pub is_failure : String → Bool
is_failure directive = same_codes (map lower (codes directive)) (codes "failure")

-- `simulate_directive or PAYMENT_SIMULATE_DEFAULT`
abbrev pub directive_or : String → Option String → String
directive_or default none = default
directive_or default (some s) = if truthy (some s) then s else default

-- `default` is PAYMENT_SIMULATE_DEFAULT. The amount is not looked at.
unfoldable pub process_payment : String → Option String → Bool
unfolding is_failure
process_payment default simulate_directive =
    not (is_failure (directive_or default simulate_directive))

failure_is_failure : process_payment "success" (some "FAILURE") ≡ false
unfolding process_payment
failure_is_failure = refl

default_is_success : process_payment "success" none ≡ true
unfolding process_payment
default_is_success = refl
