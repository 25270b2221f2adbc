-- ===== src/Shared/Lifespan/Order.antt =====
-- services/order/main.py
use food_flow.Prelude.{List, [], ◌∷◌}
use food_flow.Shared.Lifespan.{
  Call, connect, migrate, start_producer, spawn, serve, set_shutdown, gather_tasks, stop_producer,
  close_pool, consumer, relay,
}

abbrev pub order_lifespan : List Call
order_lifespan =
    connect
    ∷ migrate
    ∷ start_producer
    ∷ spawn consumer
    ∷ spawn relay
    ∷ serve
    ∷ set_shutdown
    ∷ gather_tasks (consumer ∷ relay ∷ [])
    ∷ stop_producer
    ∷ close_pool
    ∷ []
