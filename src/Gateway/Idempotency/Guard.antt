-- ===== src/Gateway/Idempotency/Guard.antt =====
-- application/services/idempotency.py of apps/api-gateway: `begin`, `finish` and `abandon`, over the
-- scripts of Records. Redis's clock is an argument; none: the store raises a RedisError.
use bu_vi.Base.{
  has, ℕ, String, Bool, true, false, not, ◌||◌, Option, none, some, List, [], ◌∷◌, ltb,
  if◌then◌else◌, ◌=s◌, codes, length, Result, ok, err,
}
use bu_vi.Gateway.Idempotency.Records.{
  Row, pending, completed, Rows, begin_script, release_script, complete_script, valid_key, is_final,
  record_key,
}

-- `idempotency_mode` of a route
pub data Mode : Type 0 where
  ignore no_store replay : Mode

-- `RouteSpec.idempotency_mode`
unfoldable pub idempotency_mode : String → Bool → Mode → Mode
idempotency_mode method is_public declared =
    if not (has method ("POST" ∷ "PUT" ∷ "PATCH" ∷ "DELETE" ∷ [])) || is_public
    then ignore
    else declared

abbrev pub stores_body : Mode → Bool
stores_body replay = true
stores_body _ = false

abbrev pub is_ignored : Mode → Bool
is_ignored ignore = true
is_ignored _ = false

-- A response, as far as the guard reads or writes it.
pub record Response : Type 0 where
  pub status_code : ℕ
  pub content_type : Option String
  pub set_cookie : Bool
  pub replayed : Bool
  pub body : List ℕ

pub data BeginError : Type 0 where
  key_invalid unavailable key_reused in_progress replay_unavailable : BeginError

-- `IdempotencyGuard`: without a store, active, or with a replay.
pub data Guard : Type 0 where
  inactive : Guard
  active : (key token fingerprint : String) (store_body : Bool) → Guard
  replaying : Response → Guard

-- `if existing.response.content_type:` leaves out an empty one.
abbrev pub truthy : Option String → Option String
truthy none = none
truthy (some t) = if t =s "" then none else some t

-- What `begin` makes of a record that is there.
unfoldable pub answer : String → Row → Result BeginError Guard
answer fp (pending other token) = if not (other =s fp) then err key_reused else err in_progress
answer fp (completed other response) =
    if not (other =s fp) then err key_reused else elim response.body [
      | none ↦ err replay_unavailable
      | some body ↦ ok (
          replaying (record {
            status_code = response.status_code;
            content_type = truthy response.content_type;
            set_cookie = false;
            replayed = true;
            body = body;
          }))
    ]

-- The guard of a request whose key is free, or the answer from the record that is there.
unfoldable pub begin_at :
    ℕ → String → String → String → Bool → ℕ → Rows → Result BeginError Guard × Rows
begin_at now key fp token store_body lock_ms rows =
    let found = begin_script now key (pending fp token) lock_ms rows in
    (
      elim found.0 [ none ↦ ok (active key token fp store_body) | some row ↦ answer fp row ],
      found.1,
    )

-- `begin`, for a caller given by tenant and user. The token is drawn at random by the caller.
unfoldable pub begin :
    (String → String)
    → Option ℕ
    → Mode
    → Option (String × String)
    → Option String
    → String
    → String
    → ℕ
    → Rows
    → Result BeginError Guard × Rows
begin sha256 clock mode caller none fp token lock_ms rows = (ok inactive, rows)
begin sha256 clock mode none (some key) fp token lock_ms rows = (ok inactive, rows)
begin sha256 clock mode (some (tenant_id, user_id)) (some key) fp token lock_ms rows =
    if is_ignored mode
    then (ok inactive, rows)
    else if not (valid_key (codes key))
    then (err key_invalid, rows)
    else elim clock [
      | none ↦ (err unavailable, rows)
      | some now ↦
          begin_at now (record_key sha256 tenant_id user_id key) fp token (stores_body mode) lock_ms
            rows
    ]

-- `abandon`
unfoldable pub abandon : Option ℕ → Guard → Rows → Rows
abandon (some now) (active key token fp store_body) rows = release_script now key token rows
abandon _ _ rows = rows

-- The record of a final response.
unfoldable pub completed_row : String → Bool → ℕ → Response → Row
completed_row fp store_body max_body_bytes r = completed fp (record {
  status_code = r.status_code;
  content_type = r.content_type;
  body =
      if not store_body || r.set_cookie || ltb max_body_bytes (length r.body)
      then none
      else some r.body;
})

-- `finish`
unfoldable pub finish : Option ℕ → Guard → Response → ℕ → ℕ → Rows → Rows
finish (some now) (active key token fp store_body) r ttl_ms max_body_bytes rows =
    if not (is_final r.status_code)
    then release_script now key token rows
    else complete_script now key token (completed_row fp store_body max_body_bytes r) ttl_ms rows
finish _ _ r ttl_ms max_body_bytes rows = rows
