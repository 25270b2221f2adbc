-- ===== src/Shared/Lifespan/Payment.antt =====
-- services/payment/main.py
use food_flow.Prelude.{List, [], ◌∷◌}
use food_flow.Shared.Lifespan.{
  Call, connect, migrate, start_producer, spawn, serve, set_shutdown, gather_tasks, stop_producer,
  close_pool, consumer, relay, reconciliation,
}

abbrev pub payment_lifespan : List Call
payment_lifespan =
    connect
    ∷ migrate
    ∷ start_producer
    ∷ spawn consumer
    ∷ spawn relay
    ∷ spawn reconciliation
    ∷ serve
    ∷ set_shutdown
    ∷ gather_tasks (consumer ∷ relay ∷ reconciliation ∷ [])
    ∷ stop_producer
    ∷ close_pool
    ∷ []
