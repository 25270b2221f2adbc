-- ===== src/Shared/Text.antt =====
-- Texts as the services test them: Python's truth value of an optional text, and its length.
use food_flow.Prelude.{ℕ, suc, String, ◌≡◌, ◌↔◌, Bool, true, false, Option, none, some}
use text.Mathlib.Text.{◌==◌}
use text.Mathlib.TextEquality.{eq_iff}
use text.Mathlib.TextPositions.{eq_refl}

-- The number of characters.
unfoldable pub text_length : String → ℕ
text_length String.[] = 0
text_length (String.◌∷◌ c s) = suc (text_length s)

abbrev pub non_empty : String → Bool
non_empty String.[] = false
non_empty (String.◌∷◌ c s) = true

-- `if text:` on an optional text
abbrev pub truthy : Option String → Bool
truthy none = false
truthy (some s) = non_empty s

abbrev pub same_text : String → String → Bool
same_text s t = s == t

pub same_text_iff : (s t : String) → (same_text s t ≡ true) ↔ (s ≡ t)
same_text_iff = eq_iff

pub same_text_refl : (s : String) → same_text s s ≡ true
same_text_refl = eq_refl
