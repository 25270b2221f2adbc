-- ===== src/Shared/Lifespan/Safety.antt =====
-- That a service's tasks have what they use until they end.
use food_flow.Prelude.{◌≡◌, refl, ◌∙◌, Bool, true, false, ◌&&◌, List, [], ◌∷◌, arith}
use food_flow.Shared.Lifespan.{
  Task, Call, connect, start_producer, spawn, gather_tasks, stop_producer, close_pool, App, blank,
  carry_out, is_ready, without, Progress, LifeStep, acts, leaves, task_ends, LifeReach, start,
  later, is_served,
}
use food_flow.Shared.Lifespan.Tasks.{
  without_all, Among, none_of, both, ended, without-Among, Among-without_all, is_served-Among,
  is_served-same,
}
use food_flow.Shared.Lifespan.Order.{order_lifespan}
use food_flow.Shared.Lifespan.Restaurant.{restaurant_lifespan}
use food_flow.Shared.Lifespan.Payment.{payment_lifespan}
use food_flow.Shared.Lifespan.Auth.{auth_lifespan}

pub data Service : Type 0 where
  order restaurant payment auth : Service

abbrev pub lifespan : Service → List Call
lifespan order = order_lifespan
lifespan restaurant = restaurant_lifespan
lifespan payment = payment_lifespan
lifespan auth = auth_lifespan

-- The app where a task runs until the `gather` that waits for it, which is where it must have ended.
abbrev pretend : Call → App → App
pretend (gather_tasks ts) app = record app { running = without_all ts app.running }
pretend a app = carry_out a app

-- With every task running as long as it can, all have what they need before and after each call.
unfoldable is_ordered : App → List Call → Bool
is_ordered app [] = is_served app.running app
is_ordered app (a ∷ rest) = is_served app.running app && is_ordered (pretend a app) rest

-- The app after the rest of the calls, with the tasks as above.
unfoldable finally : App → List Call → App
finally app [] = app
finally app (a ∷ rest) = finally (pretend a app) rest

-- Nothing is open and nothing runs.
abbrev IsClosed : App → Type 0
IsClosed app = (app.pool ≡ false) × (app.producer ≡ false) × (app.running ≡ [])

lifespan-IsClosed : (x : Service) → IsClosed (finally blank (lifespan x))
unfolding finally without_all without
lifespan-IsClosed order = (refl, refl, refl)
lifespan-IsClosed restaurant = (refl, refl, refl)
lifespan-IsClosed payment = (refl, refl, refl)
lifespan-IsClosed auth = (refl, refl, refl)

lifespan-is_ordered : (x : Service) → is_ordered blank (lifespan x) ≡ true
unfolding is_ordered is_served without_all without
lifespan-is_ordered order = refl
lifespan-is_ordered restaurant = refl
lifespan-is_ordered payment = refl
lifespan-is_ordered auth = refl

-- `worst` is the app with every task that has been started and not been gathered.
record IsAhead (raises : Bool) (s : Progress) : Type 0 where
  worst : App
  pool : s.app.pool ≡ worst.pool
  producer : s.app.producer ≡ worst.producer
  among : Among s.app.running worst.running
  ordered : is_ordered worst s.rest ≡ true
  closes : raises ≡ false → IsClosed (finally worst s.rest)

IsAhead-is_served :
    {raises : Bool} (s : Progress) → IsAhead raises s → is_served s.app.running s.app ≡ true
IsAhead-is_served s h =
    is_served-same s.app.running s.app h.worst h.pool h.producer
    ∙ is_served-Among h.worst h.among (now h.worst s.rest h.ordered)
  where
    now :
        (app : App) (rest : List Call)
        → is_ordered app rest ≡ true
        → is_served app.running app ≡ true
    now app [] h = unfold is_ordered in h
    now app (a ∷ rest) h = unfold is_ordered in ground arith

pool-carry_out :
    (a : Call) (x y : App) → x.pool ≡ y.pool → (carry_out a x).pool ≡ (pretend a y).pool
pool-carry_out connect x y h = refl
pool-carry_out close_pool x y h = refl
pool-carry_out _ x y h = h

producer-carry_out :
    (a : Call) (x y : App)
    → x.producer ≡ y.producer
    → (carry_out a x).producer ≡ (pretend a y).producer
producer-carry_out start_producer x y h = refl
producer-carry_out stop_producer x y h = refl
producer-carry_out _ x y h = h

Among-carry_out :
    (a : Call) (x y : App)
    → is_ready a x ≡ true
    → Among x.running y.running
    → Among (carry_out a x).running (pretend a y).running
Among-carry_out (spawn t) x y ready m = both t m
Among-carry_out (gather_tasks ts) x y ready m = Among-without_all ts ready m
Among-carry_out _ x y ready m = m

ordered-next :
    (app : App) (a : Call) (rest : List Call)
    → is_ordered app (a ∷ rest) ≡ true
    → (is_served app.running app ≡ true) × (is_ordered (pretend a app) rest ≡ true)
unfolding is_ordered
ordered-next app a rest h = (ground arith, ground arith)

clash : {b : Bool} → b ≡ true → b ≡ false → ⊥
clash p q = cc

step-IsAhead :
    {raises : Bool} {s t : Progress} → IsAhead raises s → LifeStep raises s t → IsAhead raises t
step-IsAhead {s} h (acts a rest at ready) = record {
  worst = pretend a h.worst;
  pool = pool-carry_out a s.app h.worst h.pool;
  producer = producer-carry_out a s.app h.worst h.producer;
  among = Among-carry_out a s.app h.worst ready h.among;
  ordered = (ordered-next h.worst a rest (rw at at h.ordered)).1;
  closes = λ calm. unfold finally in (rw at at (h.closes calm));
}
step-IsAhead {s} h (leaves a rest at can may) = record {
  worst = h.worst;
  pool = h.pool;
  producer = h.producer;
  among = h.among;
  ordered = unfold is_ordered in (ordered-next h.worst a rest (rw at at h.ordered)).0;
  closes = λ calm. absurd (clash may calm);
}
step-IsAhead h (task_ends t) = record {
  worst = h.worst;
  pool = h.pool;
  producer = h.producer;
  among = without-Among t h.among;
  ordered = h.ordered;
  closes = h.closes;
}

abbrev pub begin : Service → Progress
begin x = record { rest = lifespan x; app = blank }

reach-IsAhead :
    {raises : Bool} (x : Service) {t : Progress} → LifeReach raises (begin x) t → IsAhead raises t
reach-IsAhead x start = record {
  worst = blank;
  pool = refl;
  producer = refl;
  among = none_of [];
  ordered = lifespan-is_ordered x;
  closes = λ calm. lifespan-IsClosed x;
}
reach-IsAhead x (later reach step) = step-IsAhead (reach-IsAhead x reach) step

none_left : {ts us : List Task} → Among ts us → us ≡ [] → ts ≡ []
none_left (none_of us) h = refl
none_left (both t m) h = cc
none_left (ended t m) h = cc

all-IsClosed :
    {raises : Bool} (s : Progress)
    → IsAhead raises s
    → raises ≡ false
    → s.rest ≡ []
    → IsClosed s.app
all-IsClosed s h calm over =
    let (pool, producer, running) = closed h.worst (rw over at (h.closes calm)) in
    (h.pool ∙ pool, h.producer ∙ producer, none_left h.among running)
  where
    closed : (app : App) → IsClosed (finally app []) → IsClosed app
    closed app c = unfold finally in c

-- In each of the four services, at every moment from its start to its end, whatever raises and whenever
-- tasks end: a task that has not ended has its pool, and the relay has its producer too.
pub lifespan-is_served :
    {raises : Bool} {t : Progress} (x : Service)
    → LifeReach raises (begin x) t
    → is_served t.app.running t.app ≡ true
lifespan-is_served {t} x reach = IsAhead-is_served t (reach-IsAhead x reach)

-- Where no call raises: at the end no task runs, and pool and producer are closed.
lifespan_closes :
    {t : Progress} (x : Service) → LifeReach false (begin x) t → t.rest ≡ [] → IsClosed t.app
lifespan_closes {t} x reach over = all-IsClosed t (reach-IsAhead x reach) refl over
