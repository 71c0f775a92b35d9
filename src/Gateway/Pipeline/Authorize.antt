-- ===== src/Gateway/Pipeline/Authorize.antt =====
-- What holds of a request that is authorized, and of one that is refused early.
use bu_vi.Base.{
  String, none, err, Option-cases, ap, =s_iff, ◌=s◌, ◌⊎◌, [], ◌∷◌, ℕ, ◌≡◌, refl, Bool, true, false,
  not, ◌||◌, Option, some, List, arith, has, any, Result, ok, err, Bool-cases, Result-cases, inl,
  inr, ◌∙◌, sym,
}
use bu_vi.Auth.Principal.{Principal, has_permission, is_platform_operator, step_up_is_fresh}
use bu_vi.Gateway.RateLimit.Bucket.{
  RateLimitPolicy, Bucket, before_auth, after_auth, Store, Env, consume,
}
use bu_vi.Gateway.Pipeline.Request.{
  introspection_failed, authentication_required, credentials_of, RouteSpec, Request, Denied,
  rate_limited, World, given, lacks, check_caller, identify, client_ip_of, limited, authorize,
  is_empty,
}

limited-ok :
    (fail_open : Bool) (env : Env) (buckets : List Bucket) (s : Store)
    (rest : Store → Result Denied (Option Principal) × Store) (out : Option Principal)
    → (limited fail_open env buckets s rest).0 ≡ ok out
    → ((consume fail_open env buckets s).0.allowed ≡ true)
      × ((rest (consume fail_open env buckets s).1).0 ≡ ok out)
unfolding limited
limited-ok fail_open env buckets s rest out h =
    elim (Bool-cases (consume fail_open env buckets s).0.allowed) [
      | inl passed ↦ (passed, rw passed at h)
      | inr refused ↦ absurd (ground arith)
    ]

-- The credential that a request gave, known to the identity service as a caller's: the session cookie,
-- or without one the bearer's API key.
pub data GaveCredential (introspect : Option String → Option String → Option Principal)
    (r : Request) (p : Principal) : Type 0 where
  gave_session :
      (token : String)
      → r.cookie ≡ some token
      → (token =s "") ≡ false
      → introspect (some token) none ≡ some p
      → GaveCredential introspect r p
  gave_key :
      (key : String)
      → (r.cookie ≡ none) ⊎ (r.cookie ≡ some "")
      → r.bearer ≡ some key
      → (key =s "") ≡ false
      → introspect none (some key) ≡ some p
      → GaveCredential introspect r p

given-some :
    (o : Option String) (t : String) → given o ≡ some t → (o ≡ some t) × ((t =s "") ≡ false)
given-some none t h = cc
given-some (some x) t h = elim (Bool-cases (x =s "")) [
  | inl e ↦ absurd (gone (rw e at h))
  | inr e ↦ let same : x ≡ t = there (rw e at h) in (ap some same, rw (sym same) e)
]
  where
    gone : none ≡ some t → ⊥
    gone h = cc

    there : some x ≡ some t → x ≡ t
    there h = cc

given-none : (o : Option String) → given o ≡ none → (o ≡ none) ⊎ (o ≡ some "")
given-none none h = inl refl
given-none (some x) h = elim (Bool-cases (x =s "")) [
  | inl e ↦ inr (ap some ((=s_iff x "").0 e))
  | inr e ↦ absurd (gone (rw e at h))
]
  where
    gone : some x ≡ none → ⊥
    gone h = cc

module _ (introspect : Option String → Option String → Option Principal) (r : Request)
    (p : Principal) where
  answered_by :
      (o : Option Principal)
      → (elim o [ none ↦ err introspection_failed | some x ↦ ok x ]) ≡ ok p
      → o ≡ some p
  answered_by none h = cc
  answered_by (some x) h = cc

  identify-GaveCredential : identify introspect r ≡ ok p → GaveCredential introspect r p
  unfolding identify credentials_of
  identify-GaveCredential h = elim (Option-cases (given r.cookie)) [
    | inr (token, e) ↦
        let (cookie, full) = given-some r.cookie token e in
        gave_session token cookie full
          (answered_by (introspect (some token) none) (rw (e, identify, credentials_of) at h))
    | inl e ↦ elim (Option-cases (given r.bearer)) [
      | inr (key, f) ↦
          let (bearer, full) = given-some r.bearer key f in
          gave_key key (given-none r.cookie e) bearer full
            (answered_by (introspect none (some key)) (rw (e, f, identify, credentials_of) at h))
      | inl f ↦ absurd (nothing (rw (e, f, identify, credentials_of) at h))
    ]
  ]
    where
      nothing : err authentication_required ≡ ok p → ⊥
      nothing h = cc

-- What the route asks of the caller, of texts that are not empty.
pub record Permitted (route : RouteSpec) (now : ℕ) (p : Principal) : Type 0 where
  pub permission :
      (t : String) → route.permission ≡ some t → (t =s "") ≡ false → has_permission p t ≡ true
  pub any_permission :
      (route.any_permission ≡ []) ⊎ (any (has_permission p) route.any_permission ≡ true)
  pub role :
      (t : String)
      → route.role ≡ some t
      → (t =s "") ≡ false
      → (has t p.roles || is_platform_operator p) ≡ true
  pub step_up : (not route.step_up || step_up_is_fresh p now false) ≡ true

lacks-false :
    (o : Option String) (test : String → Bool)
    → lacks (given o) test ≡ false
    → (t : String) → o ≡ some t
    → (t =s "") ≡ false
    → test t ≡ true
unfolding lacks
lacks-false o test h t e full = passed (test t) (rw (e, full, given) at h)
  where
    passed : (b : Bool) → not b ≡ false → b ≡ true
    passed true h = refl
    passed false h = cc

none_or_any :
    (xs : List String) (test : String → Bool)
    → (is_empty xs || any test xs) ≡ true
    → (xs ≡ []) ⊎ (any test xs ≡ true)
none_or_any [] test h = inl refl
none_or_any (x ∷ xs) test h = inr h

permitted :
    (route : RouteSpec) (now : ℕ) (p : Principal)
    → (lacks (given route.permission) (has_permission p) ≡ false)
      × ((is_empty route.any_permission || any (has_permission p) route.any_permission) ≡ true)
      × (lacks (given route.role) (λ r. has r p.roles || is_platform_operator p) ≡ false)
      × ((not route.step_up || step_up_is_fresh p now false) ≡ true)
    → Permitted route now p
permitted route now p (a, b, c, d) = record {
  permission = lacks-false route.permission (has_permission p) a;
  any_permission = none_or_any route.any_permission (has_permission p) b;
  role = lacks-false route.role (λ r. has r p.roles || is_platform_operator p) c;
  step_up = d;
}

check_caller-ok :
    (route : RouteSpec) (now : ℕ) (p : Principal) (out : Option Principal)
    → check_caller route now p ≡ ok out
    → (out ≡ some p) × Permitted route now p
unfolding check_caller
check_caller-ok route now p out h =
    let (same, a, b, c, d) = parts in (same, permitted route now p (a, b, c, d))
  where
    parts :
        (out ≡ some p)
        × (lacks (given route.permission) (has_permission p) ≡ false)
        × ((is_empty route.any_permission || any (has_permission p) route.any_permission) ≡ true)
        × (lacks (given route.role) (λ r. has r p.roles || is_platform_operator p) ≡ false)
        × ((not route.step_up || step_up_is_fresh p now false) ≡ true)
    parts = ground arith

-- On a route that is not public, a request that is authorized gave a session cookie, or without one an
-- API key as its bearer, neither of them empty, that the identity service knows, is authorized as the caller that the service named, passed the limits of its
-- address, its user and its tenant, and its caller has the permission, one of the alternative
-- permissions, the role and the fresh step-up that the route asks for.
pub authorize-ok :
    (fail_open : Bool) (policy : RateLimitPolicy) (w : World) (route : RouteSpec) (r : Request)
    (s : Store) (out : Option Principal)
    → (authorize fail_open policy w route r s).0 ≡ ok out
    → route.is_public ≡ false
    → (p : Principal) × (out ≡ some p)
      × GaveCredential w.introspect r p
      × Permitted route w.now p
      × ((consume fail_open w.before
            (before_auth policy route.rate_tier (client_ip_of w.parse r w.trusted_proxy_hops))
            s).0.allowed
          ≡ true)
      × ((consume fail_open w.after
            (after_auth policy p.tenant_id p.user_id)
            (consume fail_open w.before
              (before_auth policy route.rate_tier (client_ip_of w.parse r w.trusted_proxy_hops))
              s).1).0.allowed
          ≡ true)
unfolding authorize
authorize-ok fail_open policy w route r s out h private =
    let (first, rest) =
      limited-ok fail_open w.before
        (before_auth policy route.rate_tier (client_ip_of w.parse r w.trusted_proxy_hops)) s _ out
        h in
    elim (Result-cases (identify w.introspect r)) [
      | inl (p, e) ↦
          let (second, checked) =
            limited-ok fail_open w.after (after_auth policy p.tenant_id p.user_id) _ _ out
              (rw (private, e) at rest) in
          let (same, permitted) = check_caller-ok route w.now p out checked in
          (p, same, identify-GaveCredential w.introspect r p e, permitted, first, second)
      | inr (x, e) ↦ let bad = rw (private, e) at rest in absurd (ground arith)
    ]

limited-refused :
    (fail_open : Bool) (env : Env) (buckets : List Bucket) (s : Store)
    (rest : Store → Result Denied (Option Principal) × Store)
    → (consume fail_open env buckets s).0.allowed ≡ false
    → limited fail_open env buckets s rest ≡ (
      err (rate_limited (consume fail_open env buckets s).0),
      (consume fail_open env buckets s).1,
    )
unfolding limited
limited-refused fail_open env buckets s rest h = rw h refl

-- A request that the limit of its address refuses is answered without its credential: a request
-- from the same address that meets the same Redis, with another credential or before an identity
-- service that answers otherwise, gets the same answer and leaves the same buckets.
pub authorize-refused_early :
    (fail_open : Bool) (policy : RateLimitPolicy) (w w' : World) (route : RouteSpec)
    (r r' : Request) (s : Store)
    → client_ip_of w'.parse r' w'.trusted_proxy_hops ≡ client_ip_of w.parse r w.trusted_proxy_hops
    → w'.before ≡ w.before
    → (consume fail_open w.before
        (before_auth policy route.rate_tier (client_ip_of w.parse r w.trusted_proxy_hops))
        s).0.allowed
      ≡ false
    → authorize fail_open policy w' route r' s ≡ authorize fail_open policy w route r s
unfolding authorize
authorize-refused_early fail_open policy w w' route r r' s address same h =
    rw (address, same)
      (limited-refused fail_open w.before
          (before_auth policy route.rate_tier (client_ip_of w.parse r w.trusted_proxy_hops)) s _ h
        ∙ sym (
            limited-refused fail_open w.before
              (before_auth policy route.rate_tier (client_ip_of w.parse r w.trusted_proxy_hops)) s _
              h))
