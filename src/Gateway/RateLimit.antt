-- ===== src/Gateway/RateLimit.antt =====
-- domain/policies/rate_limit.py and infrastructure/cache/rate_limiter.py of apps/api-gateway:
-- the bucket rules, the token-bucket script, its refund, and `RedisRateLimiter.consume`.
-- A bucket counts millionths of a token and its rate is in thousandths of a token per second, so
-- one millisecond refills `refill_milli` millionths: every rate of core/config.py is such a
-- multiple. The arithmetic is exact; the scripts compute in doubles and store 14 digits, and this
-- rounding is not modelled: where the tokens equal the cost, up to the rounding, a script may decide
-- otherwise than the model.
pub mod Bucket
pub mod Window
pub mod Refund
pub mod Tests
