-- ===== src/Query/Service/Sent.antt =====
-- What `execute` of application/services/query_service.py of apps/query-gateway hands to executors, what it
-- meters, and the slots of the tenants.
use mathlib.Core.Path.{subst}
use bu_vi.Base.{
  false, ◌≡◌, refl, String, true, some, List, ◌∷◌, if◌then◌else◌, Result, ok, inl, inr, ◌⊎◌, ap,
  ◌∙◌, Bool,
}
use bu_vi.Auth.Principal.{Principal}
use bu_vi.Query.Concurrency.{Active, active}
use bu_vi.Query.Policy.{DataSourcePolicy}
use bu_vi.Query.Validator.Sqlglot.{Sqlglot}
use bu_vi.Query.Validator.Validate.{ValidatorLimits, validate, dialect_of}
use bu_vi.Query.Validator.Vetted.{IsVetted, validate-IsVetted}
use bu_vi.Query.Validator.Reads.{ReadsAllowed, validate-ReadsAllowed}
use bu_vi.Query.Service.Request.{
  QueryError, QueryCommand, ExecutionLimits, Settings, Outside, ConnectionCredentials,
}
use bu_vi.Query.Service.Run.{
  ExecutorCall, call_of, Journal, QueryOutcome, record_query, record_error, execute, Ran,
  metered_if,
}
use bu_vi.Query.Service.Outcome.{ended, execute-cases}
use bu_vi.Query.Service.Lawful.{IsPermitted, IsBounded, admit-ok}
use bu_vi.Query.Service.Called.{
  ended-keeps, metered_usage, unmetered_usage, IsOwnSecret, Called, silent, called, in_slot-Called,
}

module _ (p : Principal) (id : String) (c : QueryCommand) (settings : Settings) (w : Outside) where
  module _ (caller : String) {Tree : Type 0} (lib : Sqlglot Tree) (bounds : ValidatorLimits) where
    -- A call of an executor that the rules allow.
    pub record IsLawful (call : ExecutorCall) : Type 0 where
      pub policy : DataSourcePolicy
      pub is_source : call.source ≡ policy.data_source_id
      pub is_database : call.database ≡ policy.database_name
      pub permitted : IsPermitted settings w p caller c policy
      pub limited : IsBounded settings w p caller c call.limits
      pub secret : IsOwnSecret settings w p.tenant_id call.source policy call.credentials
      pub dialect : String
      pub knows : dialect_of policy.engine ≡ some dialect
      pub vetted : IsVetted lib bounds dialect call.sql
      pub reads : ReadsAllowed lib policy c.purpose c.sql call.sql

    -- At most one call more, and that a lawful one.
    abbrev pub Sends : Journal → Result QueryError QueryOutcome × Journal → Type 0
    Sends j (out, j') =
        (j'.calls ≡ j.calls) ⊎ ((call : ExecutorCall) × (j'.calls ≡ call ∷ j.calls) × IsLawful call)

    lawful :
        (policy : DataSourcePolicy) (limits : ExecutionLimits) (v : String × List String)
        (secret : ConnectionCredentials)
        → IsBounded settings w p caller c limits × IsPermitted settings w p caller c policy
        → validate lib bounds c.sql policy c.purpose ≡ ok v
        → IsOwnSecret settings w policy.tenant_id policy.data_source_id policy secret
        → IsLawful (call_of p id c settings w limits policy v.0 secret)
    lawful policy limits v secret (limited, permitted) valid own =
        let (dialect, knows, vetted) =
          validate-IsVetted lib bounds c.sql policy c.purpose v valid in
        record {
          policy = policy;
          is_source = refl;
          is_database = refl;
          permitted = permitted;
          limited = limited;
          secret =
              subst (λ t. IsOwnSecret settings w t policy.data_source_id policy secret)
                permitted.is_own own;
          dialect = dialect;
          knows = knows;
          vetted = vetted;
          reads = validate-ReadsAllowed lib bounds c.sql policy c.purpose v valid;
        }

    -- Of any request, `execute` calls an executor not at all or exactly once, and then with the validator's
    -- own regenerated SELECT, which reads what the validator's rules allow, for the database of a data
    -- source that is active and of the caller's tenant, with the credentials stored under the path of
    -- that tenant and data source, and with limits on rows, bytes and time that are within the
    -- service's; the calling service may ask for the purpose, which is not an export, and the caller
    -- has its permission; the SQL editor needs a grant on the data source, unless its caller is an
    -- administrator of the tenant or a platform operator, and a fresh step-up for more rows than an
    -- export's limit.
    pub execute-Sends :
        (j : Journal)
        → (out : Result QueryError QueryOutcome × Journal) × (execute p id c settings w caller lib
              bounds j
            ≡ some out)
          × Sends j out
    unfolding record_error record_query
    execute-Sends j =
        execute-cases p id c settings w caller lib bounds j (Sends j) (λ e h. inl refl)
          (λ limits policy e h. inl refl) (inl refl)
          (λ limits policy v a b h valid same.
            by_call limits policy v b _ (admit-ok settings w p caller c id limits policy h) valid
              refl
              (in_slot-Called p id c settings w limits policy (ok v) v.0 (record j { active = a }) _
                refl))
      where
        by_call :
            (limits : ExecutionLimits) (policy : DataSourcePolicy) (v : String × List String)
            (b : Active) {k : Journal} (ran : Ran p id c settings w)
            → IsBounded settings w p caller c limits × IsPermitted settings w p caller c policy
            → validate lib bounds c.sql policy c.purpose ≡ ok v
            → k.calls ≡ j.calls
            → Called p id c settings w limits policy v.0 k ran
            → Sends j (ended p id c settings w v.1 (ok v) b ran)
        by_call limits policy v b ran ready valid old (silent worked calls usage) =
            inl ((ended-keeps p id c settings w v.1 (ok v) b ran).0 ∙ calls ∙ old)
        by_call limits policy v b ran ready valid old (called secret own worked calls usage) = inr (
          call_of p id c settings w limits policy v.0 secret,
          (ended-keeps p id c settings w v.1 (ok v) b ran).0
              ∙ calls
              ∙ ap (λ rest. call_of p id c settings w limits policy v.0 secret ∷ rest) old,
          lawful policy limits v secret ready valid own,
        )

    -- Every tenant has the slots that it had, and each call of an executor is metered, and nothing else.
    abbrev pub Settles : Journal → Result QueryError QueryOutcome × Journal → Type 0
    Settles j (out, j') =
        ((t : String) → active j'.active t ≡ active j.active t)
        × (w.can_meter ≡ false → j'.usage ≡ j.usage)
        × (w.can_meter ≡ true
            → ((j'.calls ≡ j.calls) × (j'.usage ≡ j.usage))
              ⊎ ((call : ExecutorCall) × (j'.calls ≡ call ∷ j.calls)
                  × (j'.usage ≡ (p.tenant_id, w.database_ms, c.run_id) ∷ j.usage)))

    -- However `execute` ends, with the result or with any error before, in or after the call of the
    -- executor, it gives its slot back, never to a KeyError: the limiter counts as many running queries
    -- of each tenant as before. Where usage can be published, a query that called no executor adds no
    -- usage, and one that called an executor, whether or not that could connect, adds exactly one
    -- event, with the caller's tenant, the time of the call and the run.
    pub execute-Settles :
        (j : Journal)
        → (out : Result QueryError QueryOutcome × Journal) × (execute p id c settings w caller lib
              bounds j
            ≡ some out)
          × Settles j out
    unfolding record_error record_query
    execute-Settles j =
        execute-cases p id c settings w caller lib bounds j (Settles j) (λ e h. unchanged)
          (λ limits policy e h. unchanged) unchanged
          (λ limits policy v a b h valid same.
            by_call limits policy v b _ refl refl
              (in_slot-Called p id c settings w limits policy (ok v) v.0 (record j { active = a }) _
                refl)
              same)
      where
        unchanged :
            ((t : String) → active j.active t ≡ active j.active t)
            × (w.can_meter ≡ false → j.usage ≡ j.usage)
            × (w.can_meter ≡ true
                → ((j.calls ≡ j.calls) × (j.usage ≡ j.usage))
                  ⊎ ((call : ExecutorCall) × (j.calls ≡ call ∷ j.calls)
                      × (j.usage ≡ (p.tenant_id, w.database_ms, c.run_id) ∷ j.usage)))
        unchanged = (λ t. refl, λ h. refl, λ h. inl (refl, refl))

        metered :
            (b worked : Bool) (k : Journal) (a : Active)
            → w.can_meter ≡ true
            → worked ≡ b
            → (metered_if p id c settings w worked (record k { active = a })).usage
              ≡ (if b then (p.tenant_id, w.database_ms, c.run_id) ∷ k.usage else k.usage)
        metered b worked k a h e =
            metered_usage p id c settings w a k worked h
            ∙ ap (λ t. if t then (p.tenant_id, w.database_ms, c.run_id) ∷ k.usage else k.usage) e

        by_call :
            (limits : ExecutionLimits) (policy : DataSourcePolicy) (v : String × List String)
            (b : Active) {k : Journal} (ran : Ran p id c settings w)
            → k.calls ≡ j.calls
            → k.usage ≡ j.usage
            → Called p id c settings w limits policy v.0 k ran
            → ((t : String) → active b t ≡ active j.active t)
            → Settles j (ended p id c settings w v.1 (ok v) b ran)
        by_call limits policy v b ran old spent (silent worked calls usage) same =
            let (e, f, g) = ended-keeps p id c settings w v.1 (ok v) b ran in
            (
              λ t. rw g (same t),
              λ h. f ∙ unmetered_usage p id c settings w b ran.2 ran.1 h ∙ usage ∙ spent,
              λ h. inl (e ∙ calls ∙ old, f ∙ metered false ran.1 ran.2 b h worked ∙ usage ∙ spent),
            )
        by_call limits policy v b ran old spent (called secret own worked calls usage) same =
            let (e, f, g) = ended-keeps p id c settings w v.1 (ok v) b ran in
            let call = call_of p id c settings w limits policy v.0 secret in
            (
              λ t. rw g (same t),
              λ h. f ∙ unmetered_usage p id c settings w b ran.2 ran.1 h ∙ usage ∙ spent,
              λ h. inr (
                call,
                e ∙ calls ∙ ap (λ rest. call ∷ rest) old,
                f
                    ∙ metered true ran.1 ran.2 b h worked
                    ∙ ap (λ rest. (p.tenant_id, w.database_ms, c.run_id) ∷ rest) (usage ∙ spent),
              ),
            )
