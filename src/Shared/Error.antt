-- ===== src/Shared/Error.antt =====
-- What a handler can raise: Python's own exceptions, those of asyncpg, and those that the
-- services define (`InsufficientStockError`, `InvalidTransitionError`, `HTTPException`).
use food_flow.Prelude.{ℕ, String}
use food_flow.Prelude.Int.{ℤ}
use food_flow.Shared.Uuid.{IdText}

-- The UNIQUE and PRIMARY KEY constraints of the four schemas, as PostgreSQL names them.
pub data Constraint : Type 0 where
  outbox_events_pkey processed_events_pkey : Constraint
  orders_pkey orders_idempotency_key_key : Constraint
  stock_reservations_order_id_key : Constraint
  payments_pkey payments_order_id_key : Constraint
  users_pkey users_email_key refresh_tokens_pkey : Constraint

-- What the message of an `InsufficientStockError` says.
pub data Reason : Type 0 where
  item_not_found : IdText → Reason
  short_of : IdText → ℤ → ℤ → Reason

pub data Error : Type 0 where
  key_error index_error value_error : Error
  data_error check_violation out_of_range value_too_long undefined_table duplicate_object : Error
  unique_violation : Constraint → Error
  insufficient_stock : Reason → Error
  order_not_found : Error
  invalid_transition : String → String → Error
  http : ℕ → Error

pub data Result {ℓ} (A : Type ℓ) : Type ℓ where
  ok : A → Result A
  err : Error → Result A
