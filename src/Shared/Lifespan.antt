-- ===== src/Shared/Lifespan.antt =====
-- `lifespan` of services/*/main.py: what a service opens before it serves, and closes after it, in order,
-- while its background tasks run.
pub mod Order
pub mod Restaurant
pub mod Payment
pub mod Auth
pub mod Tasks
pub mod Safety
use food_flow.Prelude.{◌≡◌, Bool, true, false, ◌&&◌, ◌||◌, not, List, [], ◌∷◌, if◌then◌else◌}

-- asyncio.create_task(…)
pub data Task : Type 0 where
  consumer relay reconciliation : Task

abbrev pub same_task : Task → Task → Bool
same_task consumer consumer = true
same_task relay relay = true
same_task reconciliation reconciliation = true
same_task _ _ = false

-- The awaited calls of `lifespan`, and its `yield`. `connect` and `migrate` are the two of `create_pool`.
pub data Call : Type 0 where
  connect migrate start_producer : Call
  spawn : Task → Call
  gather_tasks : List Task → Call
  serve set_shutdown stop_producer close_redis close_pool : Call

-- app.state, the event, and the tasks that have not ended.
pub record App : Type 0 where
  pub pool : Bool
  pub producer : Bool
  pub shutdown : Bool
  pub running : List Task

abbrev pub blank : App
blank = record { pool = false; producer = false; shutdown = false; running = [] }

-- What a call does when it returns.
abbrev pub carry_out : Call → App → App
carry_out connect app = record app { pool = true }
carry_out start_producer app = record app { producer = true }
carry_out (spawn t) app = record app { running = t ∷ app.running }
carry_out set_shutdown app = record app { shutdown = true }
carry_out stop_producer app = record app { producer = false }
carry_out close_pool app = record app { pool = false }
carry_out _ app = app

-- The task has not ended.
unfoldable pub runs : Task → List Task → Bool
runs t [] = false
runs t (u ∷ us) = same_task u t || runs t us

abbrev pub none_runs : List Task → List Task → Bool
none_runs [] running = true
none_runs (t ∷ ts) running = not (runs t running) && none_runs ts running

-- `gather` returns when every task that it is given has ended; with return_exceptions=True it does not
-- raise for one.
abbrev pub is_ready : Call → App → Bool
is_ready (gather_tasks ts) app = none_runs ts app.running
is_ready _ app = true

-- The calls into asyncpg, aiokafka and redis can raise, and the migrations can.
abbrev pub can_raise : Call → Bool
can_raise connect = true
can_raise migrate = true
can_raise start_producer = true
can_raise stop_producer = true
can_raise close_redis = true
can_raise close_pool = true
can_raise _ = false

unfoldable pub without : Task → List Task → List Task
without t [] = []
without t (u ∷ ts) = if same_task u t then without t ts else u ∷ without t ts

-- Where `lifespan` has got to.
pub record Progress : Type 0 where
  pub rest : List Call
  pub app : App

-- A step of the service: a call returns, or raises, which leaves `lifespan`; or a task ends, whether by the
-- event or by an exception. `raises` tells whether a call can raise.
pub data LifeStep (raises : Bool) (s : Progress) : Progress → Type 0 where
  acts :
      (a : Call) (rest : List Call)
      → s.rest ≡ a ∷ rest
      → is_ready a s.app ≡ true
      → LifeStep raises s (record { rest = rest; app = carry_out a s.app })
  leaves :
      (a : Call) (rest : List Call)
      → s.rest ≡ a ∷ rest
      → can_raise a ≡ true
      → raises ≡ true
      → LifeStep raises s (record s { rest = [] })
  task_ends :
      (t : Task)
      → LifeStep raises s (record s { app = record s.app { running = without t s.app.running } })

pub data LifeReach (raises : Bool) (s : Progress) : Progress → Type 0 where
  start : LifeReach raises s s
  later : {t u : Progress} → LifeReach raises s t → LifeStep raises t u → LifeReach raises s u

-- What the body of a task calls: every one the pool, the relay the producer as well.
abbrev pub has_needs : Task → App → Bool
has_needs relay app = app.pool && app.producer
has_needs _ app = app.pool

-- All that run have what they call.
unfoldable pub is_served : List Task → App → Bool
is_served [] app = true
is_served (t ∷ ts) app = has_needs t app && is_served ts app
