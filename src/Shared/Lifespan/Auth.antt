-- ===== src/Shared/Lifespan/Auth.antt =====
-- services/auth/main.py
use food_flow.Prelude.{List, [], ◌∷◌}
use food_flow.Shared.Lifespan.{Call, connect, migrate, serve, close_redis, close_pool}

abbrev pub auth_lifespan : List Call
auth_lifespan = connect ∷ migrate ∷ serve ∷ close_redis ∷ close_pool ∷ []
