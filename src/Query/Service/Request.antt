-- ===== src/Query/Service/Request.antt =====
-- application/services/query_service.py of apps/query-gateway: what a request is, what it meets, and its
-- authorization. A database, the secret store, the result store and metadata-service are parameters.
use bu_vi.Base.{
  ℕ, String, Bool, not, ◌&&◌, ◌||◌, Option, none, some, List, [], ◌∷◌, ltb, leb, ◌==◌,
  if◌then◌else◌, ◌=s◌, has, Result, ok, err, guard, ◌>>=◌, ◌>>◌,
}
use Prim.Native.String.{String, ◌++◌}
use bu_vi.Auth.Principal.{Principal, has_permission, is_platform_operator}
use bu_vi.Query.Policy.{Purpose, analytics_run, sql_editor, data_export, DataSourcePolicy}
use bu_vi.Query.Validator.Validate.{is_editor}

-- `ExecutionFailure`
pub data ExecutionFailure : Type 0 where
  query_timed_out destination_not_allowed source_unavailable : ExecutionFailure
  authentication_failed rejected_by_database query_failed : ExecutionFailure

-- The errors that the service raises.
pub data QueryError : Type 0 where
  validation_failed step_up_required : QueryError
  purpose_not_supported purpose_not_allowed not_permitted : QueryError
  -- raised by metadata-service's client
  policy_error : String → QueryError
  source_not_found engine_not_supported source_not_active sql_grant_required : QueryError
  query_validation_failed : QueryError
  concurrency_limited : QueryError
  source_not_available secret_store_unavailable : QueryError
  query_timeout query_execution_failed : QueryError
  result_store_unavailable : QueryError

-- `QueryLimits`
pub record QueryLimits : Type 0 where
  pub default_max_rows : ℕ
  pub max_rows_limit : ℕ
  pub default_timeout_ms : ℕ
  pub max_timeout_ms : ℕ
  pub max_result_bytes : ℕ
  pub export_step_up_rows : ℕ

-- `QueryCommand`
pub record QueryCommand : Type 0 where
  pub data_source_id : String
  pub sql : String
  pub purpose : Purpose
  pub max_rows : Option ℕ
  pub timeout_ms : Option ℕ
  pub run_id : Option String

-- `ExecutionLimits`
pub record ExecutionLimits : Type 0 where
  pub max_rows : ℕ
  pub max_bytes : ℕ
  pub timeout_ms : ℕ

-- A payload of the secret store.
pub record SecretPayload : Type 0 where
  pub host : Option String
  pub port : Option String
  pub username : Option String
  pub password : Option String
  pub sslmode : Option String

-- `ConnectionCredentials`
pub record ConnectionCredentials : Type 0 where
  pub host : String
  pub port : ℕ
  pub username : String
  pub password : String
  pub sslmode : String

-- `QueryResult`, without its rows
pub record QueryResult : Type 0 where
  pub row_count : ℕ
  pub bytes_returned : ℕ

-- The settings of `QueryService`.
pub record Settings : Type 0 where
  pub limits : QueryLimits
  pub purpose_callers : Purpose → List String
  pub vault_mount : String
  pub tenant_limit : ℕ

-- What a request meets.
pub record Outside : Type 0 where
  pub now : ℕ
  -- `PolicyLoader`: the policy of a tenant's data source, and whether a user has a grant on it
  pub load : (tenant source : String) → Result QueryError DataSourcePolicy
  pub has_sql_grant : (tenant source user : String) → Result QueryError Bool
  -- the engines that have an executor
  pub engines : List String
  -- `SecretStore.read` of a reference, an error for a SecretStoreError
  pub read_secret : String → Result QueryError (Option SecretPayload)
  -- `int(text)`; none: it raises, or the number is negative
  pub parse_int : String → Option ℕ
  -- `QueryExecutor.execute`
  pub run :
      (source database : String)
      → ConnectionCredentials
      → (sql : String) → ExecutionLimits
      → Result ExecutionFailure QueryResult
  -- `ResultStore.put`: the handle; none: a ResultStoreError
  pub put_result : QueryResult → Option String
  -- whether the usage event can be published, and the time that the database took
  pub can_meter : Bool
  pub database_ms : ℕ

-- `PURPOSE_PERMISSION.get(purpose)`
unfoldable pub permission_of : Purpose → Option String
permission_of sql_editor = some "sql:execute"
permission_of analytics_run = some "chat:use"
permission_of data_export = none

-- `_authorize`
unfoldable pub authorize_query :
    Settings → Principal → String → Purpose → Result QueryError (Unit {0})
authorize_query settings p caller purpose = elim (permission_of purpose) [
  | none ↦ err purpose_not_supported
  | some permission ↦
      guard (has caller (settings.purpose_callers purpose)) purpose_not_allowed
      >> guard (has_permission p permission) not_permitted
]

-- `value or default`
abbrev pub or_number : Option ℕ → ℕ → ℕ
or_number none default = default
or_number (some n) default = if n == 0 then default else n

-- `_execution_limits`
unfoldable pub execution_limits : QueryLimits → QueryCommand → Result QueryError ExecutionLimits
execution_limits limits c =
    let rows = or_number c.max_rows limits.default_max_rows in
    let time = or_number c.timeout_ms limits.default_timeout_ms in
    guard (not (ltb limits.max_rows_limit rows || ltb limits.max_timeout_ms time)) validation_failed
    >> ok (record { max_rows = rows; max_bytes = limits.max_result_bytes; timeout_ms = time })

-- `_grant_exempt`
unfoldable pub grant_exempt : Principal → Bool
grant_exempt p = has "org_admin" p.roles || is_platform_operator p

-- the last check of `_prepare`
unfoldable pub check_grant :
    Outside → Principal → Purpose → DataSourcePolicy → Result QueryError (Unit {0})
check_grant w p purpose policy =
    if is_editor purpose && not (grant_exempt p)
    then w.has_sql_grant p.tenant_id policy.data_source_id p.user_id
      >>= (λ granted. guard granted sql_grant_required)
    else ok tt

-- `_prepare`; the executor is that of the policy's engine.
unfoldable pub prepare :
    Settings → Outside → Principal → String → QueryCommand → Result QueryError DataSourcePolicy
prepare settings w p caller c =
    authorize_query settings p caller c.purpose
    >> (w.load p.tenant_id c.data_source_id >>= λ policy.
        guard (policy.tenant_id =s p.tenant_id) source_not_found
        >> (guard (has policy.engine w.engines) engine_not_supported
            >> (guard (policy.status =s "active") source_not_active
                >> (check_grant w p c.purpose policy >> ok policy))))

-- `expected_secret_ref`, with `vault_kv2_path`
unfoldable pub expected_secret_ref : String → String → String → String
expected_secret_ref mount tenant source =
    mount ++ "/data/" ++ "tenants/" ++ tenant ++ "/datasources/" ++ source

abbrev pub ssl_modes : List String
ssl_modes = "disable" ∷ "require" ∷ "verify-full" ∷ []

-- `payload[key]`; none: a KeyError
abbrev pub field :
    Option String → (String → Option ConnectionCredentials) → Option ConnectionCredentials
field none next = none
field (some text) next = next text

-- `from_secret_payload`; none: a ValueError
unfoldable pub from_secret_payload :
    (String → Option ℕ) → SecretPayload → Option ConnectionCredentials
from_secret_payload parse_int s = field s.sslmode (λ sslmode. field s.port (λ port.
    elim (parse_int port) [
      | none ↦ none
      | some n ↦
          if not (has sslmode ssl_modes) || not (leb 1 n && leb n 65535)
          then none
          else field s.password (λ password.
            if password =s ""
            then none
            else field s.host (λ host. field s.username (λ username. some (record {
              host = host;
              port = n;
              username = username;
              password = password;
              sslmode = sslmode;
            }))))
    ]))

abbrev pub from_payload :
    (String → Option ℕ) → Option SecretPayload → Result QueryError ConnectionCredentials
from_payload parse_int none = err source_not_active
from_payload parse_int (some payload) = elim (from_secret_payload parse_int payload) [
  | none ↦ err source_not_available
  | some credentials ↦ ok credentials
]

-- `_credentials`: what it reads is the secret under the expected reference. A failing read is a
-- SecretStoreUnavailableError.
unfoldable pub credentials :
    Settings → Outside → DataSourcePolicy → Result QueryError ConnectionCredentials
credentials settings w policy =
    let expected =
      expected_secret_ref settings.vault_mount policy.tenant_id policy.data_source_id in
    guard (policy.secret_ref =s expected) source_not_available >> elim (w.read_secret expected) [
      | err e ↦ err secret_store_unavailable
      | ok payload ↦ from_payload w.parse_int payload
    ]
