-- ===== src/Shared/Uuid.antt =====
-- UUIDs and the texts that carry them between services (`str(order_id)`, `uuid.UUID(text)`).
use food_flow.Prelude.{ℕ, String}

-- The 128-bit number.
abbrev pub Uuid : Type 0
Uuid = ℕ

-- A text where an id is expected, as `uuid.UUID(text)` reads it: the UUID that it spells, or a
-- text that spells none. Of a text that spells a UUID the hyphens and the case are not kept.
pub data IdText : Type 0 where
  str : Uuid → IdText
  malformed : String → IdText
