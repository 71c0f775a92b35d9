-- ===== src/Query/Concurrency.antt =====
-- infrastructure/cache/tenant_concurrency.py of apps/query-gateway: the limiter of one process, and
-- the lease script with its release. A sorted set is a list of leases with their scores.
use bu_vi.Base.{
  ℕ, ◌+◌, ◌-◌, String, Bool, true, false, Option, none, some, List, [], ◌∷◌, leb, if◌then◌else◌,
  ◌=s◌, ◌==◌, length,
}

-- `TenantConcurrencyLimiter._active`
abbrev pub Active : Type 0
Active = String → Option ℕ

unfoldable pub active : Active → String → ℕ
active a tenant = elim (a tenant) [ none ↦ 0 | some n ↦ n ]

unfoldable pub put : Active → String → Option ℕ → Active
put a tenant v t = if tenant =s t then v else a t

-- `slot`, up to its `yield`; none: the query is refused.
unfoldable pub enter : ℕ → Active → String → Option Active
enter limit a tenant =
    if leb limit (active a tenant) then none else some (put a tenant (some (active a tenant + 1)))

-- `slot`, from its `finally`; none: a `KeyError`.
unfoldable pub leave : Active → String → Option Active
leave a tenant = elim (a tenant) [
  | none ↦ none
  | some n ↦
      let remaining = n - 1 in some (put a tenant (if remaining == 0 then none else some remaining))
]

-- A member of a tenant's sorted set, with its score.
pub record Lease : Type 0 where
  pub id : String
  pub expires_at : ℕ

-- `ZREMRANGEBYSCORE key -inf now`
unfoldable pub prune : ℕ → List Lease → List Lease
prune now [] = []
prune now (l ∷ ls) = let rest = prune now ls in if leb l.expires_at now then rest else l ∷ rest

-- `ZREM key lease`
unfoldable pub release : String → List Lease → List Lease
release id [] = []
release id (l ∷ ls) = let rest = release id ls in if l.id =s id then rest else l ∷ rest

-- `_ACQUIRE`: whether a slot was taken. ZADD of a member that is there gives it a new score.
unfoldable pub acquire : ℕ → ℕ → ℕ → String → List Lease → Bool × List Lease
acquire limit lease_ms now id leases =
    let live = prune now leases in
    if leb limit (length live)
    then (false, live)
    else (true, record { id = id; expires_at = now + lease_ms } ∷ release id live)
