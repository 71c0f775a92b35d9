-- ===== src/Gateway/RateLimit/Tests.antt =====
-- The rate limiter at concrete rules and times.
use bu_vi.Base.{◌+◌, ◌*◌, ◌≤◌, ◌≡◌, refl, false, none, some, [], ◌∷◌, arith, ◌=s◌, if◌then◌else◌}
use bu_vi.Gateway.RateLimit.Bucket.{
  BucketRule, Bucket, Entry, unit, ceil_div, refilled, token_bucket, live, Store, Env, consume,
  write, after_auth, refund_all,
}
use bu_vi.Gateway.RateLimit.Window.{allowed_after, sum, allowed_after-le}
use bu_vi.Gateway.RateLimit.Refund.{found, consume-refused_invisible}

abbrev auth_rule : BucketRule
auth_rule = record { name = "auth"; scope = "ip"; capacity = 10; refill_milli = 200 }

abbrev fresh : Entry
fresh = record { tokens = 10000000; ts = 5000; expires_at = 56000 }

allowed_after-le_example :
    allowed_after auth_rule fresh (0 ∷ 10 ∷ 7000 ∷ []) * unit
    ≤ fresh.tokens + sum (0 ∷ 10 ∷ 7000 ∷ []) * 200
unfolding ceil_div
allowed_after-le_example = allowed_after-le auth_rule fresh (0 ∷ 10 ∷ 7000 ∷ []) (omega arith) refl

abbrev user_bucket : Bucket
user_bucket = record {
  rule = record { name = "user"; scope = "user"; capacity = 2; refill_milli = 2000 };
  key = "rl:user:t1:u1";
}

abbrev tenant_bucket : Bucket
tenant_bucket = record {
  rule = record { name = "tenant"; scope = "tenant"; capacity = 1; refill_milli = 1 };
  key = "rl:tenant:t1";
}

-- The tenant bucket is empty.
abbrev store : Store
store k =
    if k =s "rl:tenant:t1"
    then some (record { tokens = 0; ts = 100; expires_at = 2000000000 })
    else none

abbrev env : Env
env n = some (1000 + n)

consume_refused :
    (consume false env (user_bucket ∷ tenant_bucket ∷ []) store).0
    ≡ record { allowed = false; retry_after_seconds = 1000; scope = some "tenant" }
unfolding consume token_bucket refilled ceil_div live refund_all write
consume_refused = refl

-- The policy names these two buckets.
after_auth_keys :
    after_auth
      (record {
        auth_ip = auth_rule;
        public_ip = auth_rule;
        authenticated_ip = auth_rule;
        user = user_bucket.rule;
        tenant = tenant_bucket.rule;
        key_prefix = "rl";
      })
      "t1"
      "u1"
    ≡ user_bucket ∷ tenant_bucket ∷ []
unfolding after_auth
after_auth_keys = refl

consume-refused_invisible_example :
    found user_bucket.rule 1500
      ((consume false env (user_bucket ∷ tenant_bucket ∷ []) store).1 user_bucket.key)
    ≡ found user_bucket.rule 1500 (store user_bucket.key)
unfolding consume token_bucket refilled ceil_div live refund_all write
consume-refused_invisible_example =
    consume-refused_invisible false env user_bucket tenant_bucket store 1000 1001 1002 1500 refl
      refl refl refl (omega arith) tt (omega arith) (omega arith) refl
