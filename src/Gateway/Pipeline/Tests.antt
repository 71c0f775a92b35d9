-- ===== src/Gateway/Pipeline/Tests.antt =====
-- The pipeline on concrete requests.
use bu_vi.Base.{◌≡◌, refl, String, true, false, Option, none, some, [], ◌∷◌, ◌++◌, arith, has}
use bu_vi.Auth.Principal.{Principal, session, has_permission, is_platform_operator}
use bu_vi.Gateway.RateLimit.Bucket.{
  BucketRule, RateLimitPolicy, Store, before_auth, after_auth, consume, token_bucket, refilled,
  ceil_div, live, write,
}
use bu_vi.Gateway.Pipeline.Request.{
  RouteSpec, Request, World, client_ip_of, get, peer_of, credentials_of, identify, authorize,
  check_caller, lacks, limited,
}
use bu_vi.Gateway.Pipeline.Address.{client_ip_of-forged}
use bu_vi.Gateway.Pipeline.Authorize.{GaveCredential, Permitted, authorize-ok}

abbrev request : Request
request = record {
  peer = some "10.0.0.1";
  forwarded = "203.0.113.9" ∷ [];
  cookie = some "token";
  bearer = none;
}

abbrev parse : String → Option String
parse text = some text

client_ip_of-forged_example :
    client_ip_of parse (record request { forwarded = ("1.2.3.4" ∷ []) ++ request.forwarded }) 1
    ≡ client_ip_of parse request 1
client_ip_of-forged_example = client_ip_of-forged parse request 1 ("1.2.3.4" ∷ []) (omega arith)

abbrev user_rule : BucketRule
user_rule = record { name = "user"; scope = "user"; capacity = 5; refill_milli = 1000 }

abbrev no_room : BucketRule
no_room = record { name = "auth"; scope = "ip"; capacity = 0; refill_milli = 1000 }

abbrev limits : RateLimitPolicy
limits = record {
  auth_ip = no_room;
  public_ip = user_rule;
  authenticated_ip = user_rule;
  user = user_rule;
  tenant = record user_rule { name = "tenant"; scope = "tenant" };
  key_prefix = "rl";
}

abbrev dana : Principal
dana = record {
  user_id = "u1";
  tenant_id = "t1";
  permissions = "chat:use" ∷ [];
  auth_method = session;
  mfa_verified = false;
  session_id = some "s1";
  mfa_verified_at = none;
  roles = "client" ∷ [];
  mfa_method = none;
  webauthn_required = false;
}

abbrev chat : RouteSpec
chat = record {
  method = "POST";
  is_public = false;
  permission = some "chat:use";
  any_permission = [];
  role = none;
  step_up = false;
  rate_tier = "authenticated";
}

abbrev world : World
world = record {
  parse = parse;
  trusted_proxy_hops = 1;
  before = λ n. some 1000;
  after = λ n. some 1005;
  now = 7000000;
  introspect = λ token key. some dana;
}

abbrev no_buckets : Store
no_buckets = λ key. none

authorize-ok_example :
    (p : Principal) × (some dana ≡ some p)
    × GaveCredential world.introspect request p
    × Permitted chat world.now p
    × ((consume false world.before
          (before_auth limits chat.rate_tier (client_ip_of world.parse request 1))
          no_buckets).0.allowed
        ≡ true)
    × ((consume false world.after
          (after_auth limits p.tenant_id p.user_id)
          (consume false world.before
            (before_auth limits chat.rate_tier (client_ip_of world.parse request 1))
            no_buckets).1).0.allowed
        ≡ true)
unfolding client_ip_of get peer_of authorize limited identify credentials_of check_caller lacks
    has_permission is_platform_operator has consume token_bucket refilled ceil_div live write
    before_auth after_auth
authorize-ok_example = authorize-ok false limits world chat request no_buckets (some dana) refl refl

abbrev login : RouteSpec
login = record chat { is_public = true; permission = none; rate_tier = "auth" }
