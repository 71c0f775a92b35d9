-- ===== src/Gateway/RateLimit/Bucket.antt =====
-- The scripts of infrastructure/cache/rate_limiter.py over one bucket, and `consume` over many.
use bu_vi.Base.{
  ℕ, suc, ◌+◌, ◌-◌, ◌*◌, ◌/◌, min, max, String, Bool, true, false, Option, none, some, List, [],
  ◌∷◌, ◌++◌, leb, if◌then◌else◌, ◌=s◌,
}
use Prim.Native.String.{◌++◌ as ◌+s◌}

-- `BucketRule`; `refill_milli` is 1000 * refill_per_second
pub record BucketRule : Type 0 where
  pub name : String
  pub scope : String
  pub capacity : ℕ
  pub refill_milli : ℕ

pub record Bucket : Type 0 where
  pub rule : BucketRule
  pub key : String

-- `RateLimitPolicy`
pub record RateLimitPolicy : Type 0 where
  pub auth_ip : BucketRule
  pub public_ip : BucketRule
  pub authenticated_ip : BucketRule
  pub user : BucketRule
  pub tenant : BucketRule
  pub key_prefix : String

unfoldable pub before_auth : RateLimitPolicy → String → String → List Bucket
before_auth p rate_tier client_ip =
    let rule : BucketRule =
      if rate_tier =s "auth"
      then p.auth_ip
      else if rate_tier =s "public"
      then p.public_ip
      else p.authenticated_ip in
    record { rule = rule; key = p.key_prefix +s ":" +s rule.name +s ":ip:" +s client_ip } ∷ []

unfoldable pub after_auth : RateLimitPolicy → String → String → List Bucket
after_auth p tenant_id user_id =
    record {
      rule = p.user;
      key = p.key_prefix +s ":" +s p.user.name +s ":" +s tenant_id +s ":" +s user_id;
    }
    ∷ record { rule = p.tenant; key = p.key_prefix +s ":" +s p.tenant.name +s ":" +s tenant_id }
    ∷ []

-- one token
abbrev pub unit : ℕ
unit = 1000000

-- The hash under a bucket's key, and the time from which Redis has dropped it.
pub record Entry : Type 0 where
  pub tokens : ℕ
  pub ts : ℕ
  pub expires_at : ℕ

-- `math.ceil(a / b)`
unfoldable pub ceil_div : ℕ → ℕ → ℕ
ceil_div a b = (a + b - 1) / b

abbrev pub full : BucketRule → ℕ
full rule = rule.capacity * unit

-- The tokens at `now`, before the request takes one, in exact arithmetic: the script adds doubles. `max(0, now - ts)` is ℕ's subtraction.
unfoldable pub refilled : BucketRule → ℕ → Option Entry → ℕ
refilled rule now none = min (full rule) (full rule + (now - now) * rule.refill_milli)
refilled rule now (some e) = min (full rule) (e.tokens + (now - e.ts) * rule.refill_milli)

pub record Taken : Type 0 where
  pub allowed : Bool
  pub retry_ms : ℕ
  pub entry : Entry

-- TOKEN_BUCKET_LUA, on what HMGET returned. `cost` is in tokens. The arithmetic is exact: the script
-- computes in doubles and stores 14 digits, so that where the tokens are the cost or all but the cost
-- it may decide otherwise, and `retry_ms` may differ by one.
unfoldable pub token_bucket : BucketRule → ℕ → ℕ → Option Entry → Taken
token_bucket rule cost now state =
    let tokens = refilled rule now state in
    let expires = now + (ceil_div (full rule) rule.refill_milli + 1000) in
    if leb (cost * unit) tokens
    then record {
      allowed = true;
      retry_ms = 0;
      entry = record { tokens = tokens - cost * unit; ts = now; expires_at = expires };
    }
    else record {
      allowed = false;
      retry_ms = ceil_div (cost * unit - tokens) rule.refill_milli;
      entry = record { tokens = tokens; ts = now; expires_at = expires };
    }

-- TOKEN_BUCKET_REFUND_LUA
unfoldable pub refund : BucketRule → ℕ → Option Entry → Option Entry
refund rule cost none = none
refund rule cost (some e) = some (record e { tokens = min (full rule) (e.tokens + cost * unit) })

-- Redis: the buckets by key. A key is gone once its time to live has passed.
abbrev pub Store : Type 0
Store = String → Option Entry

unfoldable pub live : ℕ → Option Entry → Option Entry
live now none = none
live now (some e) = if leb e.expires_at now then none else some e

unfoldable pub write : Store → String → Option Entry → Store
write s k e j = if k =s j then e else s j

pub record Decision : Type 0 where
  pub allowed : Bool
  pub retry_after_seconds : ℕ
  -- the refusing bucket's scope, or "unavailable"
  pub scope : Option String

-- What the n-th script call meets: Redis's clock, or a RedisError.
abbrev pub Env : Type 0
Env = ℕ → Option ℕ

-- `_refund`: best effort, bucket by bucket.
unfoldable pub refund_all : Env → ℕ → List Bucket → Store → Store
refund_all env n [] s = s
refund_all env n (b ∷ bs) s =
    refund_all env (suc n) bs
      (elim (env n) [ none ↦ s | some now ↦ write s b.key (refund b.rule 1 (live now (s b.key))) ])

-- The loop of `consume`; `taken` are the buckets that gave a token, in order.
unfoldable pub consume_from : Bool → Env → ℕ → List Bucket → List Bucket → Store → Decision × Store
consume_from fail_open env n taken [] s =
    (record { allowed = true; retry_after_seconds = 0; scope = none }, s)
consume_from fail_open env n taken (b ∷ bs) s = elim (env n) [
  | none ↦ (record { allowed = fail_open; retry_after_seconds = 1; scope = some "unavailable" }, s)
  | some now ↦
      let t = token_bucket b.rule 1 now (live now (s b.key)) in
      let s' = write s b.key (some t.entry) in
      let rest = consume_from fail_open env (suc n) (taken ++ b ∷ []) bs s' in
      if t.allowed then rest else (
        record {
          allowed = false;
          retry_after_seconds = max 1 (ceil_div t.retry_ms 1000);
          scope = some b.rule.scope;
        },
        refund_all env (suc n) taken s',
      )
]

-- `RedisRateLimiter.consume`
unfoldable pub consume : Bool → Env → List Bucket → Store → Decision × Store
unfolding consume_from
consume fail_open env buckets s = consume_from fail_open env 0 [] buckets s
