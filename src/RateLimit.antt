-- ===== src/RateLimit.antt =====
-- The in-process limits of the replay gateway: backend/app/services/replays/rate_limit.py.
-- Clock readings and windows are whole ticks here (floats of seconds there); a lock makes each
-- method one step, and a method's new object is returned beside its result.
pub mod History
pub mod Window
pub mod Slots
use league_of_legnds_ai_coac.Prelude.{
  ℕ, zero, suc, ◌+◌, ◌-◌, String, Bool, true, false, Option, none, some, List, [], ◌∷◌, ◌++◌, leb,
  if◌then◌else◌, length, Outcome, ok, raise,
}
use league_of_legnds_ai_coac.Prelude.Dict.{Dict, lookup, insert, erase}

-- `bucket[0]` of an empty bucket.
pub data IndexError : Type 0 where
  index_error : IndexError

-- The result of `hit`: allowed, or refused with the ticks to wait.
pub data Verdict : Type 0 where
  allowed : Verdict
  refused : ℕ → Verdict

-- `while bucket and bucket[0] <= cutoff: bucket.popleft()`, where `cutoff = now - window`.
unfoldable pub drop_expired : ℕ → ℕ → List ℕ → List ℕ
drop_expired window now [] = []
drop_expired window now (t ∷ bucket) =
    let rest = drop_expired window now bucket in if leb (t + window) now then rest else t ∷ bucket

-- `max(bucket[0] + window - now, 0.0)`
unfoldable pub refuse : ℕ → ℕ → List ℕ → Outcome IndexError Verdict
refuse window now [] = raise index_error
refuse window now (t ∷ bucket) = ok (refused (t + window - now))

-- `hit` on the bucket of its key.
unfoldable pub hit_bucket : ℕ → ℕ → ℕ → List ℕ → Outcome IndexError Verdict × List ℕ
unfolding drop_expired refuse
hit_bucket limit window now bucket =
    let fresh = drop_expired window now bucket in
    if leb limit (length fresh)
    then (refuse window now fresh, fresh)
    else (ok allowed, fresh ++ now ∷ [])

pub record RollingWindowCounter : Type 0 where
  pub limit : ℕ
  pub window : ℕ
  pub hits : Dict (List ℕ)

-- `self._hits.setdefault(key, deque())`
unfoldable pub bucket_of : RollingWindowCounter → String → List ℕ
bucket_of c key = elim (lookup key c.hits) [ none ↦ [] | some bucket ↦ bucket ]

unfoldable pub hit :
    RollingWindowCounter → String → ℕ → Outcome IndexError Verdict × RollingWindowCounter
unfolding bucket_of
hit c key now =
    let (verdict, bucket) = hit_bucket c.limit c.window now (bucket_of c key) in
    (verdict, record c { hits = insert key bucket c.hits })

pub record ConcurrencyCounter : Type 0 where
  pub slots : ℕ
  pub active : Dict ℕ

-- `self._active.get(key, 0)`
unfoldable pub current : ConcurrencyCounter → String → ℕ
current c key = elim (lookup key c.active) [ none ↦ 0 | some n ↦ n ]

unfoldable pub acquire : ConcurrencyCounter → String → Bool × ConcurrencyCounter
unfolding current
acquire c key =
    let held = current c key in
    if leb c.slots held
    then (false, c)
    else (true, record c { active = insert key (held + 1) c.active })

unfoldable pub release : ConcurrencyCounter → String → ConcurrencyCounter
unfolding current
release c key =
    let held = current c key in
    if leb held 1
    then record c { active = erase key c.active }
    else record c { active = insert key (held - 1) c.active }

pub record ReplayRateLimitConfig : Type 0 where
  pub create_limit : ℕ
  pub create_window : ℕ
  pub request_limit : ℕ
  pub request_window : ℕ
  pub upload_concurrency_limit : ℕ

pub record ReplayGatewayRateLimiter : Type 0 where
  pub create_counter : RollingWindowCounter
  pub request_counter : RollingWindowCounter
  pub upload_concurrency : ConcurrencyCounter

-- The constructor of `ReplayGatewayRateLimiter`.
unfoldable pub rate_limiter : ReplayRateLimitConfig → ReplayGatewayRateLimiter
rate_limiter config = record {
  create_counter = record { limit = config.create_limit; window = config.create_window; hits = [] };
  request_counter = record {
    limit = config.request_limit;
    window = config.request_window;
    hits = [];
  };
  upload_concurrency = record { slots = config.upload_concurrency_limit; active = [] };
}

-- `ReplayRateLimitExceeded`, or the crash of a counter.
pub data LimitError : Type 0 where
  exceeded : ℕ → LimitError
  crashed : IndexError → LimitError

unfoldable pub raise_refusal : Outcome IndexError Verdict → Outcome LimitError (Unit {0})
raise_refusal (ok allowed) = ok tt
raise_refusal (ok (refused retry_after)) = raise (exceeded retry_after)
raise_refusal (raise e) = raise (crashed e)

unfoldable pub check_request :
    ReplayGatewayRateLimiter → String → ℕ → Outcome LimitError (Unit {0}) × ReplayGatewayRateLimiter
unfolding raise_refusal
check_request limiter client_key now =
    let (verdict, counter) = hit limiter.request_counter client_key now in
    (raise_refusal verdict, record limiter { request_counter = counter })

unfoldable pub check_create :
    ReplayGatewayRateLimiter → String → ℕ → Outcome LimitError (Unit {0}) × ReplayGatewayRateLimiter
unfolding raise_refusal
check_create limiter client_key now =
    let (verdict, counter) = hit limiter.create_counter client_key now in
    (raise_refusal verdict, record limiter { create_counter = counter })

unfoldable pub acquire_upload_slot :
    ReplayGatewayRateLimiter → String → Bool × ReplayGatewayRateLimiter
acquire_upload_slot limiter client_key =
    let (taken, counter) = acquire limiter.upload_concurrency client_key in
    (taken, record limiter { upload_concurrency = counter })

unfoldable pub release_upload_slot : ReplayGatewayRateLimiter → String → ReplayGatewayRateLimiter
release_upload_slot limiter client_key = record limiter {
  upload_concurrency = release limiter.upload_concurrency client_key;
}

unfoldable pub active_upload_slots : ReplayGatewayRateLimiter → String → ℕ
active_upload_slots limiter client_key = current limiter.upload_concurrency client_key
