-- ===== src/Tests/Lifespan.antt =====
-- The payment service up to the moment when the relay has ended and the others have not.
use food_flow.Prelude.{◌≡◌, refl, true, false, [], ◌∷◌}
use food_flow.Shared.Lifespan.{
  gather_tasks, stop_producer, close_pool, consumer, relay, reconciliation, Progress, acts,
  task_ends, LifeReach, start, later, without, is_served, connect, migrate, start_producer, spawn,
  serve, set_shutdown,
}
use food_flow.Shared.Lifespan.Safety.{payment, begin, lifespan-is_served}

abbrev waiting : Progress
waiting = record {
  rest = gather_tasks (consumer ∷ relay ∷ reconciliation ∷ []) ∷ stop_producer ∷ close_pool ∷ [];
  app = record {
    pool = true;
    producer = true;
    shutdown = true;
    running = reconciliation ∷ consumer ∷ [];
  };
}

Reach-waiting : LifeReach false (begin payment) waiting
unfolding without
Reach-waiting =
    let opened =
      later (later (later start (acts connect _ refl refl)) (acts migrate _ refl refl))
        (acts start_producer _ refl refl) in
    let spawned =
      later
        (later (later opened (acts (spawn consumer) _ refl refl)) (acts (spawn relay) _ refl refl))
        (acts (spawn reconciliation) _ refl refl) in
    later (later (later spawned (acts serve _ refl refl)) (acts set_shutdown _ refl refl))
      (task_ends relay)

lifespan-is_served_example : is_served waiting.app.running waiting.app ≡ true
lifespan-is_served_example = lifespan-is_served payment Reach-waiting
