-- ===== src/Query/Service/Recorded.antt =====
-- What `execute` of application/services/query_service.py of apps/query-gateway leaves behind.
use bu_vi.Base.{
  ◌∙◌, ℕ, ◌≡◌, refl, sym, String, Bool, true, false, Option, none, some, List, ◌∷◌, if◌then◌else◌,
  ◌=s◌, Result, ok, err, inl, inr, guard, ◌>>◌, ◌⊎◌, ◌∙◌,
}
use bu_vi.Auth.Principal.{Principal}
use bu_vi.Query.Concurrency.{Active}
use bu_vi.Query.Policy.{DataSourcePolicy}
use bu_vi.Query.Validator.Sqlglot.{Sqlglot}
use bu_vi.Query.Validator.Validate.{ValidatorLimits}
use bu_vi.Query.Service.Request.{
  ExecutionFailure, query_timed_out, destination_not_allowed, source_unavailable,
  authentication_failed, rejected_by_database, query_failed, QueryError, query_validation_failed,
  concurrency_limited, query_timeout, source_not_available, result_store_unavailable,
  secret_store_unavailable, QueryCommand, ExecutionLimits, ConnectionCredentials, SecretPayload,
  QueryResult, Settings, Outside, credentials, from_payload, from_secret_payload,
  expected_secret_ref,
}
use bu_vi.Query.Service.Run.{
  error_of, status_of_failure, QueryStatus, rejected_sql, succeeded, failed, timed_out, ErrorCode,
  by_error, QueryExecution, Journal, Validation, QueryOutcome, record_query, record_error, meter,
  stored_or, answered, in_slot, metered_if, admit, execute,
}
use bu_vi.Query.Service.Outcome.{ended, execute-cases}

-- The status that a row has for an answer.
abbrev pub status_of_error : QueryError → QueryStatus
status_of_error query_validation_failed = rejected_sql
status_of_error query_timeout = timed_out
status_of_error _ = failed

abbrev pub status_of_answer : Result QueryError QueryOutcome → QueryStatus
status_of_answer (ok outcome) = succeeded
status_of_answer (err e) = status_of_error e

abbrev pub handle_of : Result QueryError QueryOutcome → Option String
handle_of (ok outcome) = some outcome.stored
handle_of (err e) = none

payload_status :
    (parse_int : String → Option ℕ) (payload : Option SecretPayload) (e : QueryError)
    → from_payload parse_int payload ≡ err e
    → status_of_error e ≡ failed
payload_status parse_int none e h =
    let same : QueryError.source_not_active ≡ e = cc in rw (sym same) refl
payload_status parse_int (some payload) e h = decoded (from_secret_payload parse_int payload) h
  where
    decoded :
        (o : Option ConnectionCredentials)
        → (elim o [ none ↦ err source_not_available | some secret ↦ ok secret ]) ≡ err e
        → status_of_error e ≡ failed
    decoded none h = let same : source_not_available ≡ e = cc in rw (sym same) refl
    decoded (some secret) h = cc

credentials-status :
    (settings : Settings) (w : Outside) (policy : DataSourcePolicy) (e : QueryError)
    → credentials settings w policy ≡ err e
    → status_of_error e ≡ failed
unfolding credentials
credentials-status settings w policy e h =
    pointed
      (policy.secret_ref
        =s expected_secret_ref settings.vault_mount policy.tenant_id policy.data_source_id)
      h
  where
    read :
        (o : Result QueryError (Option SecretPayload))
        → (elim o [ err e ↦ err secret_store_unavailable | ok s ↦ from_payload w.parse_int s ])
          ≡ err e
        → status_of_error e ≡ failed
    read (err x) h = let same : secret_store_unavailable ≡ e = cc in rw (sym same) refl
    read (ok s) h = payload_status w.parse_int s e h

    pointed :
        (b : Bool)
        → (guard b source_not_available
            >> elim (w.read_secret
                (expected_secret_ref settings.vault_mount policy.tenant_id policy.data_source_id)) [
                  | err e ↦ err secret_store_unavailable
                  | ok s ↦ from_payload w.parse_int s
                ])
          ≡ err e
        → status_of_error e ≡ failed
    pointed true h = read _ h
    pointed false h = let same : source_not_available ≡ e = cc in rw (sym same) refl

module _ (p : Principal) (id : String) (c : QueryCommand) (settings : Settings) (w : Outside) where
  -- A row of this attempt, which says how it was answered.
  pub record IsRowOf (out : Result QueryError QueryOutcome) (row : QueryExecution) : Type 0 where
    pub is_query : row.id ≡ id
    pub is_tenant : row.tenant_id ≡ p.tenant_id
    pub is_user : row.requested_by ≡ p.user_id
    pub is_source : row.data_source_id ≡ c.data_source_id
    pub is_sql : row.sql_text ≡ c.sql
    pub status : row.status ≡ status_of_answer out
    pub handle : row.result_handle ≡ handle_of out

  -- One row more, or a query that the limiter turned away, which leaves nothing.
  abbrev pub Recorded : Journal → Result QueryError QueryOutcome × Journal → Type 0
  Recorded j (out, j') =
      ((out ≡ err concurrency_limited) × (j' ≡ j))
      ⊎ ((row : QueryExecution) × (j'.rows ≡ row ∷ j.rows) × IsRowOf out row)

  meter-rows : (b : Bool) (j : Journal) → (metered_if p id c settings w b j).rows ≡ j.rows
  unfolding meter
  meter-rows false j = refl
  meter-rows true j = metered w.can_meter
    where
      metered :
          (b : Bool)
          → (if b
              then record j { usage = (p.tenant_id, w.database_ms, c.run_id) ∷ j.usage }
              else j).rows
            ≡ j.rows
      metered true = refl
      metered false = refl

  error-Recorded :
      (v : Validation) (status : QueryStatus) (code : ErrorCode) (j j' : Journal) (e : QueryError)
      → status_of_error e ≡ status
      → j'.rows ≡ (record_error p id c v status code j).rows
      → Recorded j (err e, j')
  unfolding record_error record_query
  error-Recorded v status code j j' e s h = inr (
    _,
    h,
    record {
      is_query = refl;
      is_tenant = refl;
      is_user = refl;
      is_source = refl;
      is_sql = refl;
      status = sym s;
      handle = refl;
    },
  )

  succeeded-Recorded :
      (v : Validation) (outcome : QueryOutcome) (j j' : Journal)
      → j'.rows
        ≡ (record_query p id c v succeeded none (some outcome.result) (some outcome.stored) j).rows
      → Recorded j (ok outcome, j')
  unfolding record_query
  succeeded-Recorded v outcome j j' h = inr (
    _,
    h,
    record {
      is_query = refl;
      is_tenant = refl;
      is_user = refl;
      is_source = refl;
      is_sql = refl;
      status = refl;
      handle = refl;
    },
  )

  same_rows :
      (v : Validation) (status : QueryStatus) (code : Option ErrorCode)
      (result : Option QueryResult) (handle : Option String) (j j' : Journal)
      → j'.rows ≡ j.rows
      → (record_query p id c v status code result handle j').rows
        ≡ (record_query p id c v status code result handle j).rows
  unfolding record_query
  same_rows v status code result handle j j' h = rw h refl

  ended-Recorded :
      (tables : List String) (v : Validation) (a : Active) (j j' : Journal) (worked : Bool)
      (status : QueryStatus) (code : ErrorCode) (e : QueryError)
      → status_of_error e ≡ status
      → j'.rows ≡ (record_error p id c v status code j).rows
      → Recorded j (ended p id c settings w tables v a (err e, worked, j'))
  unfolding ended
  ended-Recorded tables v a j j' worked status code e s h =
      error-Recorded v status code j _ e s (meter-rows worked (record j' { active = a }) ∙ h)

  stored-Recorded :
      (tables : List String) (v : Validation) (a : Active) (j j' : Journal) (r : QueryResult)
      (handle : Option String)
      → j'.rows ≡ j.rows
      → Recorded j (ended p id c settings w tables v a (stored_or p id c settings w v r j' handle))
  unfolding ended record_error
  stored-Recorded tables v a j j' r none h =
      let code = by_error result_store_unavailable in
      ended-Recorded tables v a j (record_error p id c v failed code j') true failed code _ refl
        (same_rows v failed (some code) none none j j' h)
  stored-Recorded tables v a j j' r (some handle) h =
      succeeded-Recorded v (record { query_id = id; result = r; stored = handle; tables = tables })
        j _
        (same_rows v succeeded none (some r) (some handle) j _
          (meter-rows true (record j' { active = a }) ∙ h))

  answered-Recorded :
      (tables : List String) (v : Validation) (a : Active) (j j' : Journal)
      (answer : Result ExecutionFailure QueryResult)
      → j'.rows ≡ j.rows
      → Recorded j (ended p id c settings w tables v a (answered p id c settings w v j' answer))
  unfolding record_error
  answered-Recorded tables v a j j' (err failure) h =
      (let code = ErrorCode.by_failure failure in
        let status = status_of_failure failure in
        ended-Recorded tables v a j (record_error p id c v status code j') true status code _
          (same failure)
          (same_rows v (status_of_failure failure) (some (ErrorCode.by_failure failure)) none none j
            j' h))
    where
      same : (f : ExecutionFailure) → status_of_error (error_of f) ≡ status_of_failure f
      same query_timed_out = refl
      same destination_not_allowed = refl
      same source_unavailable = refl
      same authentication_failed = refl
      same rejected_by_database = refl
      same query_failed = refl
  answered-Recorded tables v a j j' (ok r) h = stored-Recorded tables v a j j' r (w.put_result r) h

  in_slot-Recorded :
      (limits : ExecutionLimits) (policy : DataSourcePolicy) (v : String × List String)
      (j j' : Journal) (a : Active) (secret : Result QueryError ConnectionCredentials)
      → credentials settings w policy ≡ secret
      → j'.rows ≡ j.rows
      → Recorded j (
          ended p id c settings w v.1
            (ok v)
            a
            (in_slot p id c settings w limits policy (ok v) v.0 j' secret))
  unfolding record_error
  in_slot-Recorded limits policy v j j' a (err e) h same =
      ended-Recorded v.1 (ok v) a j (record_error p id c (ok v) failed (by_error e) j') false failed
        _ e (credentials-status settings w policy e h)
        (same_rows (ok v) failed (some (by_error e)) none none j j' same)
  in_slot-Recorded limits policy v j j' a (ok secret) h same =
      answered-Recorded v.1 (ok v) a j _
        (w.run policy.data_source_id policy.database_name secret v.0 limits) same

  -- A query that passes the limits, the authorization and the policy of its data source is answered, and
  -- unless the tenant's limit turns it away, its attempt leaves exactly one row more, with the query,
  -- the tenant, the user, the data source and the SQL as sent, whose status and result handle say
  -- how it was answered: rejected, timed out, failed, or succeeded with the handle of the result.
  pub execute-Recorded :
      (caller : String) {Tree : Type 0} (lib : Sqlglot Tree) (bounds : ValidatorLimits)
      (j : Journal) (limits : ExecutionLimits) (policy : DataSourcePolicy)
      → admit p id c settings w caller ≡ ok (limits, policy)
      → (out : Result QueryError QueryOutcome × Journal) × (execute p id c settings w caller lib
            bounds j
          ≡ some out)
        × Recorded j out
  execute-Recorded caller lib bounds j limits policy admits =
      execute-cases p id c settings w caller lib bounds j (Recorded j)
        (λ e h. absurd (both e _ refl h))
        (λ limits policy e h. error-Recorded (err e) rejected_sql _ j _ _ refl refl)
        (inl (refl, refl))
        (λ limits policy v a b h valid same.
          in_slot-Recorded limits policy v j (record j { active = a }) b _ refl refl)
    where
      both :
          (e : QueryError) (r : Result QueryError (ExecutionLimits × DataSourcePolicy))
          → admit p id c settings w caller ≡ r
          → r ≡ err e
          → ⊥
      both e r x y = cc
