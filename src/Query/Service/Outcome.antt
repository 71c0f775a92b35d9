-- ===== src/Query/Service/Outcome.antt =====
-- The ends of `execute` of application/services/query_service.py of apps/query-gateway.
use bu_vi.Base.{ℕ, ◌≡◌, refl, String, Option, none, some, List, Result, ok, err}
use bu_vi.Auth.Principal.{Principal}
use bu_vi.Query.Concurrency.{Active, active, enter}
use bu_vi.Query.Slots.{enter-leave}
use bu_vi.Query.Policy.{DataSourcePolicy}
use bu_vi.Query.Validator.Sqlglot.{Sqlglot}
use bu_vi.Query.Validator.Checks.{Rejected}
use bu_vi.Query.Validator.Validate.{ValidatorLimits, validate}
use bu_vi.Query.Service.Request.{
  ExecutionFailure, QueryError, query_validation_failed, concurrency_limited, QueryCommand,
  ExecutionLimits, ConnectionCredentials, QueryResult, Settings, Outside, credentials,
}
use bu_vi.Query.Service.Run.{
  rejected_sql, by_error, Journal, Validation, QueryOutcome, record_query, record_error, Ran,
  stored_or, answered, in_slot, metered_if, succeeded_or, after_slot, limited_or, accepted_or,
  admit, execute,
}

module _ (p : Principal) (id : String) (c : QueryCommand) (settings : Settings) (w : Outside) where
  stored-active :
      (v : Validation) (r : QueryResult) (j : Journal) (handle : Option String)
      → (stored_or p id c settings w v r j handle).2.active ≡ j.active
  unfolding record_error record_query
  stored-active v r j none = refl
  stored-active v r j (some handle) = refl

  answered-active :
      (v : Validation) (j : Journal) (answer : Result ExecutionFailure QueryResult)
      → (answered p id c settings w v j answer).2.active ≡ j.active
  unfolding record_error record_query
  answered-active v j (err failure) = refl
  answered-active v j (ok r) = stored-active v r j (w.put_result r)

  in_slot-active :
      (limits : ExecutionLimits) (policy : DataSourcePolicy) (v : Validation) (sql : String)
      (j : Journal) (secret : Result QueryError ConnectionCredentials)
      → (in_slot p id c settings w limits policy v sql j secret).2.active ≡ j.active
  unfolding record_error record_query
  in_slot-active limits policy v sql j (err e) = refl
  in_slot-active limits policy v sql j (ok secret) =
      answered-active v _ (w.run policy.data_source_id policy.database_name secret sql limits)

  -- What becomes of a query that ran in a slot and left it.
  unfoldable pub ended :
      List String
      → Validation
      → Active
      → Ran p id c settings w
      → Result QueryError QueryOutcome × Journal
  ended tables v a ran =
      succeeded_or p id c settings w v tables ran.0
        (metered_if p id c settings w ran.1 (record ran.2 { active = a }))

  after_slot-ended :
      (limit : ℕ) (v : Validation) (tables : List String) (ran : Ran p id c settings w)
      (a a' : Active)
      → enter limit a p.tenant_id ≡ some a'
      → ran.2.active ≡ a'
      → (b : Active) × (after_slot p id c settings w v tables ran ≡ some (ended tables v b ran))
        × ((u : String) → active b u ≡ active a u)
  unfolding after_slot ended
  after_slot-ended limit v tables ran a a' h e =
      let (b, leaves, same) = enter-leave limit a a' p.tenant_id h in
      (b, rw (after_slot, e, leaves) refl, same)

  module _ (caller : String) {Tree : Type 0} (lib : Sqlglot Tree) (bounds : ValidatorLimits)
      (j : Journal) (P : Result QueryError QueryOutcome × Journal → Type 0) where
    abbrev pub Ends : Type 0
    Ends =
        (out : Result QueryError QueryOutcome × Journal) × (execute p id c settings w caller lib
            bounds j
          ≡ some out)
        × P out

    -- `execute` ends in one of four ways, and never with the limiter's KeyError.
    pub execute-cases :
        ((e : QueryError) → admit p id c settings w caller ≡ err e → P (err e, j))
        → ((limits : ExecutionLimits) (policy : DataSourcePolicy) (e : Rejected)
            → admit p id c settings w caller ≡ ok (limits, policy)
            → P (
              err query_validation_failed,
              record_error p id c (err e) rejected_sql (by_error query_validation_failed) j,
            ))
        → P (err concurrency_limited, j)
        → ((limits : ExecutionLimits) (policy : DataSourcePolicy) (v : String × List String)
              (a b : Active)
            → admit p id c settings w caller ≡ ok (limits, policy)
            → validate lib bounds c.sql policy c.purpose ≡ ok v
            → ((u : String) → active b u ≡ active j.active u)
            → P (
                ended v.1 (ok v) b (
                  in_slot p id c settings w limits policy
                    (ok v)
                    v.0
                    (record j { active = a })
                    (credentials settings w policy))))
        → Ends
    unfolding execute
    execute-cases refused rejected limited ran = by_admit (admit p id c settings w caller) refl
      where
        by_slot :
            (limits : ExecutionLimits) (policy : DataSourcePolicy) (v : String × List String)
            → admit p id c settings w caller ≡ ok (limits, policy)
            → validate lib bounds c.sql policy c.purpose ≡ ok v
            → (o : Option Active) → enter settings.tenant_limit j.active p.tenant_id ≡ o
            → (out : Result QueryError QueryOutcome × Journal) × (limited_or p id c settings w
                  limits policy v.0 v.1 j o
                ≡ some out)
              × P out
        by_slot limits policy v admits valid none e = (_, refl, limited)
        by_slot limits policy v admits valid (some a) e =
            let (b, ends, same) =
              after_slot-ended settings.tenant_limit (ok v) v.1
                (in_slot p id c settings w limits policy (ok v) v.0 (record j { active = a })
                  (credentials settings w policy))
                j.active a e
                (in_slot-active limits policy (ok v) v.0 (record j { active = a })
                  (credentials settings w policy)) in
            (_, ends, ran limits policy v a b admits valid same)

        by_validation :
            (limits : ExecutionLimits) (policy : DataSourcePolicy)
            → admit p id c settings w caller ≡ ok (limits, policy)
            → (answer : Validation) → validate lib bounds c.sql policy c.purpose ≡ answer
            → (out : Result QueryError QueryOutcome × Journal) × (accepted_or p id c settings w
                  limits policy j answer
                ≡ some out)
              × P out
        by_validation limits policy admits (err e) valid =
            (_, refl, rejected limits policy e admits)
        by_validation limits policy admits (ok v) valid =
            by_slot limits policy v admits valid _ refl

        by_admit :
            (answer : Result QueryError (ExecutionLimits × DataSourcePolicy))
            → admit p id c settings w caller ≡ answer
            → Ends
        by_admit (err e) admits = (_, rw (execute, admits) refl, refused e admits)
        by_admit (ok (limits, policy)) admits =
            let (out, e, holds) = by_validation limits policy admits _ refl in
            (out, rw (execute, admits) e, holds)
