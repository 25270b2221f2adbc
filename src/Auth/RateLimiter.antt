-- ===== src/Auth/RateLimiter.antt =====
-- services/auth/rate_limiter.py. Redis is a parameter.
use food_flow.Prelude.{
  ℕ, zero, suc, ◌+◌, ◌≡◌, String, Bool, true, Option, none, some, arith, ltb, leb, ◌==◌,
  if◌then◌else◌,
}
use food_flow.Shared.Error.{Result, ok, err, http}
use food_flow.Shared.Transaction.{Tx, Done}

-- The two commands, on the counter of a client: what each answers, or none where it raises, and the
-- state after it.
pub record Redis (R : Type 0) : Type 0 where
  pub incr : String → R → Option ℕ × R
  pub expire : String → ℕ → R → Option Bool × R

-- max requests per window
abbrev pub rate_limit : ℕ
rate_limit = 30

abbrev pub window_seconds : ℕ
window_seconds = 60

-- request.client.host if request.client else "unknown"
abbrev pub client_ip : Option String → String
client_ip none = "unknown"
client_ip (some host) = host

-- if current > RATE_LIMIT: …
abbrev pub verdict : ℕ → Result Done
verdict current = if ltb rate_limit current then err (http 429) else ok tt

-- What follows the EXPIRE: an error lets the request pass.
abbrev pub after_expire {ℓ} : {R : Type ℓ} → ℕ → Option Bool × R → Result Done × R
after_expire current (none, r) = (ok tt, r)
after_expire current (some _, r) = (verdict current, r)

module _ {R : Type 0} (redis : Redis R) where
  -- What follows a count: the expiry at the first request, where an error lets the request pass, and the
  -- test.
  unfoldable pub after_incr : String → Option ℕ × R → Result Done × R
  after_incr ip (none, r) = (ok tt, r)
  after_incr ip (some current, r) =
      if current == 1
      then after_expire current (redis.expire ip window_seconds r)
      else (verdict current, r)

  -- Whether `call_next` is awaited; `available` is whether get_redis() gave a client.
  unfoldable pub dispatch : Bool → Option String → Tx R Done
  unfolding after_incr
  dispatch available client r =
      if available
      then after_incr (client_ip client) (redis.incr (client_ip client) r)
      else (ok tt, r)

  abbrev pub is_ok : Result Done → ℕ
  is_ok (ok _) = 1
  is_ok (err _) = 0

  -- How many of `n` requests of a client pass, one after the other.
  unfoldable pub passed : ℕ → Option String → R → ℕ
  passed zero client r = 0
  passed (suc n) client r =
      is_ok (dispatch true client r).0 + passed n client (dispatch true client r).1

-- Within a window: INCR counts the client's requests, and EXPIRE answers and leaves the count.
pub record Counts {R : Type 0} (redis : Redis R) (ip : String) (count : R → ℕ) : Type 0 where
  pub answers : (r : R) → (redis.incr ip r).0 ≡ some (count r + 1)
  pub counts : (r : R) → count (redis.incr ip r).1 ≡ count r + 1
  pub expires : (r : R) → (redis.expire ip window_seconds r).0 ≡ some true
  pub keeps : (r : R) → count (redis.expire ip window_seconds r).1 ≡ count r

abbrev pub at_most : ℕ → ℕ
at_most n = if leb n rate_limit then n else rate_limit

module _ {R : Type 0} (redis : Redis R) (client : Option String) (count : R → ℕ)
    (c : Counts redis (client_ip client) count) where
  one : (r : R) → (dispatch redis true client r).0 ≡ verdict (count r + 1)
  unfolding dispatch after_incr
  one r = ground (arith, c.answers r, c.expires (redis.incr (client_ip client) r).1)

  one-count : (r : R) → count (dispatch redis true client r).1 ≡ count r + 1
  unfolding dispatch after_incr
  one-count r = ground (
    arith,
    c.answers r,
    c.counts r,
    c.expires (redis.incr (client_ip client) r).1,
    c.keeps (redis.incr (client_ip client) r).1,
  )

  passed-count :
      (n : ℕ) (r : R) → passed redis n client r + at_most (count r) ≡ at_most (count r + n)
  unfolding passed
  passed-count zero r = ground arith
  passed-count (suc n) r =
      ground (arith, one r, one-count r, passed-count n (dispatch redis true client r).1)

  -- Within one window, in which Redis counts the requests of a client and raises nothing: of n
  -- requests that a client with no count sends one after the other, n pass if n is thirty at most,
  -- and thirty otherwise.
  pub passed_limit : (n : ℕ) (r : R) → count r ≡ 0 → passed redis n client r ≡ at_most n
  passed_limit n r h = ground (arith, passed-count n r)
