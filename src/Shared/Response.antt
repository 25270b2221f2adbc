-- ===== src/Shared/Response.antt =====
-- How the routes of services/*/routes.py print what a row holds: Python's texts, as parameters.
use food_flow.Prelude.{ℕ, String}
use food_flow.Prelude.Int.{ℤ}
use food_flow.Shared.Uuid.{Uuid}
use food_flow.Shared.Event.{Float}

-- str(UUID), datetime.isoformat(), and float(Decimal) of an amount in cents
pub record Texts : Type 0 where
  pub uuid_text : Uuid → String
  pub time_text : ℕ → String
  pub amount : ℤ → Float
