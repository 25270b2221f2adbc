-- ===== src/Shared/Lifespan/Tasks.antt =====
-- The background tasks of services/*/main.py: which run, and what they need.
use food_flow.Prelude.{◌≡◌, refl, true, false, List, [], ◌∷◌, arith, Bool-cases, inl, inr}
use food_flow.Shared.Lifespan.{
  Task, consumer, relay, reconciliation, runs, none_runs, App, without, same_task, has_needs,
  is_served,
}

unfoldable pub without_all : List Task → List Task → List Task
without_all [] us = us
without_all (t ∷ ts) us = without_all ts (without t us)

-- The tasks of the first list, in order, are among those of the second.
pub data Among : List Task → List Task → Type 0 where
  none_of : (ts : List Task) → Among [] ts
  both : (t : Task) {ts us : List Task} → Among ts us → Among (t ∷ ts) (t ∷ us)
  ended : (t : Task) {ts us : List Task} → Among ts us → Among ts (t ∷ us)

pub without-Among : (t : Task) {ts us : List Task} → Among ts us → Among (without t ts) us
unfolding without
without-Among t (none_of us) = none_of us
without-Among t (both u {ts} {us} m) = elim (Bool-cases (same_task u t)) [
  | inl own ↦ rw own (ended u (without-Among t m))
  | inr other ↦ rw other (both u (without-Among t m))
]
without-Among t (ended u m) = ended u (without-Among t m)

-- A task that does not run among the first can be left out of the second.
Among-without :
    (t : Task) {ts us : List Task} → runs t ts ≡ false → Among ts us → Among ts (without t us)
unfolding without runs
Among-without t h (none_of us) = none_of (without t us)
Among-without t h (both u {ts} {us} m) =
    let other : same_task u t ≡ false = ground arith in
    rw other (both u (Among-without t (ground arith) m))
Among-without t h (ended u m) = elim (Bool-cases (same_task u t)) [
  | inl own ↦ rw own (Among-without t h m)
  | inr other ↦ rw other (ended u (Among-without t h m))
]

pub Among-without_all :
    (gone : List Task) {ts us : List Task}
    → none_runs gone ts ≡ true
    → Among ts us
    → Among ts (without_all gone us)
unfolding without_all
Among-without_all [] h m = m
Among-without_all (t ∷ gone) h m =
    Among-without_all gone (ground arith) (Among-without t (ground arith) m)

-- Fewer tasks need no more.
pub is_served-Among :
    {ts us : List Task} (app : App)
    → Among ts us
    → is_served us app ≡ true
    → is_served ts app ≡ true
unfolding is_served
is_served-Among app (none_of us) h = refl
is_served-Among app (both t m) h = ground (arith, is_served-Among app m)
is_served-Among app (ended t m) h = is_served-Among app m (ground arith)

has_needs-same :
    (t : Task) (app app' : App)
    → app.pool ≡ app'.pool
    → app.producer ≡ app'.producer
    → has_needs t app ≡ has_needs t app'
has_needs-same relay app app' p q = rw (p, q) refl
has_needs-same consumer app app' p q = p
has_needs-same reconciliation app app' p q = p

pub is_served-same :
    (ts : List Task) (app app' : App)
    → app.pool ≡ app'.pool
    → app.producer ≡ app'.producer
    → is_served ts app ≡ is_served ts app'
unfolding is_served
is_served-same [] app app' p q = refl
is_served-same (t ∷ ts) app app' p q =
    rw (has_needs-same t app app' p q, is_served-same ts app app' p q) refl
