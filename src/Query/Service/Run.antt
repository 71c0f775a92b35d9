-- ===== src/Query/Service/Run.antt =====
-- application/services/query_service.py of apps/query-gateway: `validate` and `execute`, with the rows of
-- query_executions, the calls of executors, the usage events and the slots of the tenants. That the row
-- of an attempt can be written is assumed; durations and hashes are not modelled, but what is hashed.
use bu_vi.Base.{
  ℕ, String, Bool, true, false, not, ◌&&◌, Option, none, some, List, ◌∷◌, ltb, if◌then◌else◌, ◌=s◌,
  Result, ok, err, guard, ◌>>=◌, ◌>>◌,
}
use bu_vi.Auth.Principal.{Principal, step_up_is_fresh}
use bu_vi.Query.Concurrency.{Active, enter, leave}
use bu_vi.Query.Policy.{Purpose, DataSourcePolicy}
use bu_vi.Query.Validator.Sqlglot.{Sqlglot}
use bu_vi.Query.Validator.Checks.{Rejected}
use bu_vi.Query.Validator.Validate.{ValidatorLimits, is_editor, validate}
use bu_vi.Query.Service.Request.{
  ExecutionFailure, query_timed_out, destination_not_allowed, source_unavailable,
  authentication_failed, rejected_by_database, query_failed, QueryError, step_up_required,
  query_validation_failed, concurrency_limited, source_not_available, query_timeout,
  query_execution_failed, result_store_unavailable, QueryCommand, ExecutionLimits,
  ConnectionCredentials, QueryResult, Settings, Outside, execution_limits, prepare, credentials,
}

-- `QueryExecution.status`
pub data QueryStatus : Type 0 where
  validated rejected_sql succeeded failed timed_out : QueryStatus

pub data ErrorCode : Type 0 where
  by_failure : ExecutionFailure → ErrorCode
  by_error : QueryError → ErrorCode

-- `QueryExecution`
pub record QueryExecution : Type 0 where
  pub id : String
  pub tenant_id : String
  pub run_id : Option String
  pub data_source_id : String
  pub requested_by : String
  pub purpose : Purpose
  pub sql_text : String
  -- what `sql_hash` is the hash of
  pub hashed : String
  pub status : QueryStatus
  pub row_count : Option ℕ
  pub bytes_returned : Option ℕ
  pub result_handle : Option String
  pub error_code : Option ErrorCode

-- A usage event: the tenant, the milliseconds and the run.
abbrev pub UsageEvent : Type 0
UsageEvent = String × ℕ × Option String

-- What the executor of an engine is handed. It may fail before it connects to the database.
pub record ExecutorCall : Type 0 where
  pub source : String
  pub database : String
  pub credentials : ConnectionCredentials
  pub sql : String
  pub limits : ExecutionLimits

pub record Journal : Type 0 where
  pub rows : List QueryExecution
  -- the calls of executors
  pub calls : List ExecutorCall
  pub usage : List UsageEvent
  pub active : Active

-- The SQL and the tables that the validator returned, or its rejection.
abbrev pub Validation : Type 0
Validation = Result Rejected (String × List String)

-- `QueryOutcome`
pub record QueryOutcome : Type 0 where
  pub query_id : String
  pub result : QueryResult
  pub stored : String
  pub tables : List String

-- `_FAILURE_ERRORS`
abbrev pub error_of : ExecutionFailure → QueryError
error_of query_timed_out = query_timeout
error_of destination_not_allowed = source_not_available
error_of source_unavailable = source_not_available
error_of authentication_failed = source_not_available
error_of rejected_by_database = query_execution_failed
error_of query_failed = query_execution_failed

abbrev pub status_of_failure : ExecutionFailure → QueryStatus
status_of_failure query_timed_out = timed_out
status_of_failure _ = failed

abbrev pub hashed_of : String → Validation → String
hashed_of raw (err e) = raw
hashed_of raw (ok v) = if v.0 =s "" then raw else v.0

abbrev pub rows_of : Option QueryResult → Option ℕ
rows_of none = none
rows_of (some r) = some r.row_count

abbrev pub bytes_of : Option QueryResult → Option ℕ
bytes_of none = none
bytes_of (some r) = some r.bytes_returned

module _ (p : Principal) (id : String) (c : QueryCommand) where
  -- `_record`
  unfoldable pub record_query :
      Validation
      → QueryStatus
      → Option ErrorCode
      → Option QueryResult
      → Option String
      → Journal
      → Journal
  record_query v status code result handle j = record j {
    rows =
        record {
          id = id;
          tenant_id = p.tenant_id;
          run_id = c.run_id;
          data_source_id = c.data_source_id;
          requested_by = p.user_id;
          purpose = c.purpose;
          sql_text = c.sql;
          hashed = hashed_of c.sql v;
          status = status;
          row_count = rows_of result;
          bytes_returned = bytes_of result;
          result_handle = handle;
          error_code = code;
        }
        ∷ j.rows;
  }

  -- `_record` of an attempt that failed
  unfoldable pub record_error : Validation → QueryStatus → ErrorCode → Journal → Journal
  record_error v status code j = record_query v status (some code) none none j

  module _ (settings : Settings) (w : Outside) where
    -- `_meter`
    unfoldable pub meter : Journal → Journal
    meter j =
        if w.can_meter
        then record j { usage = (p.tenant_id, w.database_ms, c.run_id) ∷ j.usage }
        else j

    -- What holds of a query in its slot: its answer, with the result and its handle, and whether an
    -- executor was called.
    abbrev pub Ran : Type 0
    Ran = Result QueryError (QueryResult × String) × Bool × Journal

    abbrev pub stored_or : Validation → QueryResult → Journal → Option String → Ran
    stored_or v result j none = (
      err result_store_unavailable,
      true,
      record_error v failed (by_error result_store_unavailable) j,
    )
    stored_or v result j (some handle) = (ok (result, handle), true, j)

    -- from the answer of the database on
    abbrev pub answered : Validation → Journal → Result ExecutionFailure QueryResult → Ran
    answered v j (err failure) = (
      err (error_of failure),
      true,
      record_error v (status_of_failure failure) (by_failure failure) j,
    )
    answered v j (ok result) = stored_or v result j (w.put_result result)

    abbrev pub call_of :
        ExecutionLimits → DataSourcePolicy → String → ConnectionCredentials → ExecutorCall
    call_of limits policy sql secret = record {
      source = policy.data_source_id;
      database = policy.database_name;
      credentials = secret;
      sql = sql;
      limits = limits;
    }

    -- How a call ends.
    abbrev pub run_call : ExecutorCall → Result ExecutionFailure QueryResult
    run_call call = w.run call.source call.database call.credentials call.sql call.limits

    -- the body of the slot
    abbrev pub in_slot :
        ExecutionLimits
        → DataSourcePolicy
        → Validation
        → String
        → Journal
        → Result QueryError ConnectionCredentials
        → Ran
    in_slot limits policy v sql j (err e) = (err e, false, record_error v failed (by_error e) j)
    in_slot limits policy v sql j (ok secret) =
        let call = call_of limits policy sql secret in
        answered v (record j { calls = call ∷ j.calls }) (run_call call)

    -- The end of the slot; a tenant without one is a KeyError, which the answer gives way to.
    abbrev pub left_or : Journal → Option Active → Option Journal
    left_or j none = none
    left_or j (some a) = some (record j { active = a })

    abbrev pub metered_if : Bool → Journal → Journal
    metered_if worked j = if worked then meter j else j

    -- `execute` after the slot
    abbrev pub succeeded_or :
        Validation
        → List String
        → Result QueryError (QueryResult × String)
        → Journal
        → Result QueryError QueryOutcome × Journal
    succeeded_or v tables (err e) j = (err e, j)
    succeeded_or v tables (ok r) j = (
      ok (record { query_id = id; result = r.0; stored = r.1; tables = tables }),
      record_query v succeeded none (some r.0) (some r.1) j,
    )

    -- none: the KeyError
    unfoldable pub after_slot :
        Validation → List String → Ran → Option (Result QueryError QueryOutcome × Journal)
    after_slot v tables ran = elim (left_or ran.2 (leave ran.2.active p.tenant_id)) [
      | none ↦ none
      | some j ↦ some (succeeded_or v tables ran.0 (metered_if ran.1 j))
    ]

    -- from the limiter on
    abbrev pub limited_or :
        ExecutionLimits
        → DataSourcePolicy
        → String
        → List String
        → Journal
        → Option Active
        → Option (Result QueryError QueryOutcome × Journal)
    limited_or limits policy sql tables j none = some (err concurrency_limited, j)
    limited_or limits policy sql tables j (some a) = after_slot (ok (sql, tables)) tables (
        in_slot limits policy (ok (sql, tables)) sql (record j { active = a })
          (credentials settings w policy))

    abbrev pub accepted_or :
        ExecutionLimits
        → DataSourcePolicy
        → Journal
        → Validation
        → Option (Result QueryError QueryOutcome × Journal)
    accepted_or limits policy j (err e) = some (
      err query_validation_failed,
      record_error (err e) rejected_sql (by_error query_validation_failed) j,
    )
    accepted_or limits policy j (ok v) =
        limited_or limits policy v.0 v.1 j (enter settings.tenant_limit j.active p.tenant_id)

    module _ (caller : String) where
      -- `execute`, before it validates
      unfoldable pub admit : Result QueryError (ExecutionLimits × DataSourcePolicy)
      admit = execution_limits settings.limits c >>= (λ limits.
          guard
            (not (
              is_editor c.purpose
              && ltb settings.limits.export_step_up_rows limits.max_rows
              && not (step_up_is_fresh p w.now false)))
            step_up_required
          >> (prepare settings w p caller c >>= λ policy. ok (limits, policy)))

      module _ {Tree : Type 0} (lib : Sqlglot Tree) (bounds : ValidatorLimits) where
        -- `execute`; none: the limiter's KeyError
        unfoldable pub execute : Journal → Option (Result QueryError QueryOutcome × Journal)
        execute j = elim admit [
          | err e ↦ some (err e, j)
          | ok (limits, policy) ↦
              accepted_or limits policy j (validate lib bounds c.sql policy c.purpose)
        ]

        abbrev pub reported :
            Journal → Validation → Result QueryError (String × List String) × Journal
        reported j (err e) = (
          err query_validation_failed,
          record_error (err e) rejected_sql (by_error query_validation_failed) j,
        )
        reported j (ok v) = (ok v, record_query (ok v) validated none none none j)

        -- `validate`: the SQL and its tables
        unfoldable pub validate_only : Journal → Result QueryError (String × List String) × Journal
        validate_only j = elim (prepare settings w p caller c) [
          | err e ↦ (err e, j)
          | ok policy ↦ reported j (validate lib bounds c.sql policy c.purpose)
        ]
