-- ===== src/Gateway/Pipeline/Request.antt =====
-- application/services/request_pipeline.py of apps/api-gateway, with the parts of `RouteSpec` of
-- domain/catalog.py that it reads. Identity's introspection and the parser of IP addresses are
-- parameters.
use bu_vi.Base.{
  ℕ, ◌-◌, String, Bool, true, false, not, ◌&&◌, ◌||◌, Option, none, some, List, [], ◌∷◌, ◌++◌, ltb,
  ◌==◌, if◌then◌else◌, ◌=s◌, has, any, length, Result, ok, err,
}
use bu_vi.Auth.Principal.{Principal, has_permission, is_platform_operator, step_up_is_fresh}
use bu_vi.Gateway.RateLimit.Bucket.{
  RateLimitPolicy, Bucket, before_auth, after_auth, Store, Decision, Env, consume,
}

-- `RouteSpec`
pub record RouteSpec : Type 0 where
  pub method : String
  pub is_public : Bool
  pub permission : Option String
  pub any_permission : List String
  pub role : Option String
  pub step_up : Bool
  pub rate_tier : String

-- What the pipeline reads of a request; `forwarded` is the non-empty parts of x-forwarded-for.
pub record Request : Type 0 where
  pub peer : Option String
  pub forwarded : List String
  -- the session cookie
  pub cookie : Option String
  -- what follows `Bearer ` in the authorization header, stripped
  pub bearer : Option String

pub data Denied : Type 0 where
  rate_limited : Decision → Denied
  authentication_required introspection_failed forbidden step_up_required : Denied

-- `chain[i]`
unfoldable pub get : List String → ℕ → Option String
get [] i = none
get (x ∷ xs) i = if i == 0 then some x else get xs (i - 1)

unfoldable pub peer_of : Request → String
peer_of r = elim r.peer [ none ↦ "unknown" | some host ↦ host ]

-- `client_ip_of`; `parse` is `str(ipaddress.ip_address(text))`, none where that raises.
unfoldable pub client_ip_of : (String → Option String) → Request → ℕ → String
client_ip_of parse r hops =
    if hops == 0 || ltb (length r.forwarded) hops
    then peer_of r
    else elim (get r.forwarded (length r.forwarded - hops)) [
      | none ↦ peer_of r
      | some text ↦ elim (parse text) [ none ↦ peer_of r | some ip ↦ ip ]
    ]

-- a text that is there and not empty
abbrev pub given : Option String → Option String
given none = none
given (some t) = if t =s "" then none else some t

-- `credentials_of`: the session token and the API key.
unfoldable pub credentials_of : Request → Option String × Option String
credentials_of r = elim (given r.cookie) [
  | some cookie ↦ (some cookie, none)
  | none ↦ (none, given r.bearer)
]

-- The last four checks of `authorize`, on the caller.

unfoldable pub lacks : Option String → (String → Bool) → Bool
lacks none test = false
lacks (some t) test = not (test t)

abbrev pub is_empty : List String → Bool
is_empty [] = true
is_empty (x ∷ xs) = false

unfoldable pub check_caller : RouteSpec → ℕ → Principal → Result Denied (Option Principal)
check_caller route now p =
    if lacks (given route.permission) (has_permission p)
    then err forbidden
    else if not (is_empty route.any_permission) && not (any (has_permission p) route.any_permission)
    then err forbidden
    else if lacks (given route.role) (λ r. has r p.roles || is_platform_operator p)
    then err forbidden
    else if route.step_up && not (step_up_is_fresh p now false)
    then err step_up_required
    else ok (some p)

abbrev pub is_absent : Option String → Bool
is_absent none = true
is_absent (some t) = false

-- The caller of a request that carries a credential; `introspect` is the answer of the identity
-- service, none where the call raises.
unfoldable pub identify :
    (Option String → Option String → Option Principal) → Request → Result Denied Principal
identify introspect r =
    let (token, key) = credentials_of r in
    if is_absent token && is_absent key
    then err authentication_required
    else elim (introspect token key) [ none ↦ err introspection_failed | some p ↦ ok p ]

-- `_limit`, and then the rest.
unfoldable pub limited :
    Bool
    → Env
    → List Bucket
    → Store
    → (Store → Result Denied (Option Principal) × Store)
    → Result Denied (Option Principal) × Store
limited fail_open env buckets s rest =
    let d = consume fail_open env buckets s in
    if d.0.allowed then rest d.1 else (err (rate_limited d.0), d.1)

-- What a request meets: the setting of trusted proxies and the parser of addresses, Redis at each of
-- the two calls of the limiter, the identity service, and the time of the step-up check.
pub record World : Type 0 where
  pub parse : String → Option String
  pub trusted_proxy_hops : ℕ
  pub before : Env
  pub after : Env
  pub now : ℕ
  pub introspect : Option String → Option String → Option Principal

-- `authorize`
unfoldable pub authorize :
    Bool
    → RateLimitPolicy
    → World
    → RouteSpec
    → Request
    → Store
    → Result Denied (Option Principal) × Store
authorize fail_open policy w route r s =
    limited fail_open w.before
      (before_auth policy route.rate_tier (client_ip_of w.parse r w.trusted_proxy_hops)) s
      (λ s. if route.is_public then (ok none, s) else elim (identify w.introspect r) [
        | err e ↦ (err e, s)
        | ok p ↦
            limited fail_open w.after (after_auth policy p.tenant_id p.user_id) s
              (λ s. (check_caller route w.now p, s))
      ])

-- The loop of `read_body`; none: the body is too long.
unfoldable pub read_chunks : ℕ → List ℕ → List (List ℕ) → Option (List ℕ)
read_chunks limit body [] = some body
read_chunks limit body (chunk ∷ chunks) =
    let rest = read_chunks limit (body ++ chunk) chunks in
    if ltb limit (length (body ++ chunk)) then none else rest

-- `read_body`; `declared` is the content-length, where it is a number.
unfoldable pub read_body : ℕ → Option ℕ → List (List ℕ) → Option (List ℕ)
unfolding read_chunks
read_body limit none chunks = read_chunks limit [] chunks
read_body limit (some declared) chunks =
    if ltb limit declared then none else read_chunks limit [] chunks
