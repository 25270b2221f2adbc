-- ===== src/Auth/RedisClient.antt =====
-- services/auth/redis_client.py, and the whole of `dispatch` in services/auth/rate_limiter.py, which asks
-- it for a client.
use food_flow.Prelude.{
  if◌then◌else◌, ℕ, ◌<◌, ◌≡◌, refl, String, Bool, true, false, Option, none, some, arith, inl, inr,
  ltb, ◌==◌, Bool-cases, Option-cases,
}
use food_flow.Shared.Error.{Error, Result, ok, err, http}
use food_flow.Shared.Table.{is_some}
use food_flow.Shared.Transaction.{Done}
use food_flow.Auth.RateLimiter.{
  Redis, rate_limit, client_ip, dispatch, after_incr, after_expire, verdict, window_seconds,
}

-- What the library does when it is called: `from_url` gives a client or raises, and `ping` answers or raises.
pub record Server (C : Type 0) : Type 0 where
  pub from_url : Option C
  pub answers : Bool

module _ {C : Type 0} where
  -- get_redis: what it returns, and what it leaves in `_redis_client`.
  unfoldable pub get_redis : Server C → Option C → Option C × Option C
  get_redis server (some client) = (some client, some client)
  get_redis server none = elim server.from_url [
    | none ↦ (none, none)
    | some client ↦ if server.answers then (some client, some client) else (none, none)
  ]

  -- close_redis: what it leaves in `_redis_client`, where `close` does not raise.
  unfoldable pub close_redis : Option C → Option C
  close_redis none = none
  close_redis (some client) = none

-- A request through the limiter: the answer, the state of Redis, and `_redis_client`.
unfoldable pub limited :
    {R C : Type 0}
    → Redis R
    → Server C
    → Option String
    → Option C
    → R
    → (Result Done × R) × Option C
limited redis server client cached r =
    let (found, cached') = get_redis server cached in
    (dispatch redis (is_some found) client r, cached')

-- The test refuses a count above the limit, with 429.
verdict_refuses : (n : ℕ) (e : Error) → verdict n ≡ err e → (e ≡ http 429) × (rate_limit < n)
verdict_refuses n e h = elim (Bool-cases (ltb rate_limit n)) [
  | inl over ↦ (err_injective (rw over at h), ground arith)
  | inr within ↦ absurd (passes (rw within at h))
]
  where
    err_injective : ◌≡◌ {A = Result Done} (err (http 429)) (err e) → e ≡ http 429
    err_injective k = cc

    passes : ◌≡◌ {A = Result Done} (ok tt) (err e) → ⊥
    passes k = cc

module _ {R : Type 0} (redis : Redis R) (ip : String) (e : Error) where
  after_expire_refuses :
      (n : ℕ) (w : Option Bool × R) → (after_expire n w).0 ≡ err e → verdict n ≡ err e
  after_expire_refuses n (none, r) h = cc
  after_expire_refuses n (some b, r) h = h

  after_incr_refuses :
      (w : Option ℕ × R)
      → (after_incr redis ip w).0 ≡ err e
      → (e ≡ http 429) × ((n : ℕ) × (w.0 ≡ some n) × (rate_limit < n))
  unfolding after_incr
  after_incr_refuses (none, r) h = cc
  after_incr_refuses (some n, r) h =
      let (shape, over) = verdict_refuses n e (elim (Bool-cases (n == 1)) [
        | inl first ↦ after_expire_refuses n (redis.expire ip window_seconds r) (rw first at h)
        | inr later ↦ rw later at h
      ]) in
      (shape, (n, refl, over))

dispatch_refuses :
    {R : Type 0} (redis : Redis R) (available : Bool) (client : Option String) (r : R) (e : Error)
    → (dispatch redis available client r).0 ≡ err e
    → (e ≡ http 429) × ((n : ℕ) × ((redis.incr (client_ip client) r).0 ≡ some n) × (rate_limit < n))
unfolding dispatch
dispatch_refuses redis false client r e h = cc
dispatch_refuses redis true client r e h =
    after_incr_refuses redis (client_ip client) e (redis.incr (client_ip client) r) h

-- The limiter fails open: a request is refused, with 429, only if Redis counted it above the limit; it
-- passes whatever goes wrong with the client, the PING, the INCR or the EXPIRE.
limited_refuses :
    {R C : Type 0} (redis : Redis R) (server : Server C) (client : Option String)
    (cached : Option C) (r : R) (e : Error)
    → (limited redis server client cached r).0.0 ≡ err e
    → (e ≡ http 429) × ((n : ℕ) × ((redis.incr (client_ip client) r).0 ≡ some n) × (rate_limit < n))
unfolding limited
limited_refuses redis server client cached r e h =
    dispatch_refuses redis (is_some (get_redis server cached).0) client r e h

-- A client that Redis did not answer is not kept: the next request asks again, and what is cached was
-- answered once.
get_redis-keeps :
    {C : Type 0} (server : Server C) (cached : Option C)
    → (get_redis server cached).1 ≡ (get_redis server cached).0
unfolding get_redis
get_redis-keeps server (some client) = refl
get_redis-keeps server none = elim (Option-cases server.from_url) [
  | inl absent ↦ rw absent refl
  | inr (client, made) ↦ ground arith
]
