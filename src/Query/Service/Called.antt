-- ===== src/Query/Service/Called.antt =====
-- When the body of a slot in application/services/query_service.py of apps/query-gateway calls an executor.
use bu_vi.Base.{
  ap, ◌∙◌, Result-cases, inl, inr, none, some, ◌≡◌, refl, String, Bool, true, false, Option, none,
  some, List, ◌∷◌, if◌then◌else◌, ◌=s◌, =s_iff, Result, ok, err, guard-ok, ℕ,
}
use bu_vi.Auth.Principal.{Principal}
use bu_vi.Query.Concurrency.{Active}
use bu_vi.Query.Policy.{DataSourcePolicy}
use Prim.Native.String.{◌++◌}
use bu_vi.Query.Service.Request.{
  SecretPayload, from_payload, from_secret_payload, source_not_available, ExecutionFailure,
  QueryError, QueryCommand, ExecutionLimits, ConnectionCredentials, QueryResult, Settings, Outside,
  expected_secret_ref, credentials,
}
use bu_vi.Query.Service.Run.{
  call_of, run_call, Journal, Validation, record_query, record_error, meter, stored_or, answered,
  in_slot, metered_if, Ran,
}
use bu_vi.Query.Service.Outcome.{ended}

-- The reference of the secret of a tenant's data source.
abbrev pub path_of : String → String → String → String
path_of mount tenant source = mount ++ "/data/" ++ "tenants/" ++ tenant ++ "/datasources/" ++ source

-- Credentials that were read under the reference of a tenant's data source, as the policy has it too.
pub record IsOwnSecret (settings : Settings) (w : Outside) (tenant source : String)
    (policy : DataSourcePolicy) (secret : ConnectionCredentials) : Type 0 where
  pub path : policy.secret_ref ≡ path_of settings.vault_mount tenant source
  pub payload : SecretPayload
  pub stored : w.read_secret (path_of settings.vault_mount tenant source) ≡ ok (some payload)
  pub parsed : from_secret_payload w.parse_int payload ≡ some secret

from_payload-ok :
    (parse_int : String → Option ℕ) (o : Option SecretPayload) (secret : ConnectionCredentials)
    → from_payload parse_int o ≡ ok secret
    → (payload : SecretPayload) × (o ≡ some payload)
      × (from_secret_payload parse_int payload ≡ some secret)
from_payload-ok parse_int none secret h = cc
from_payload-ok parse_int (some payload) secret h =
    (payload, refl, decoded (from_secret_payload parse_int payload) h)
  where
    decoded :
        (o : Option ConnectionCredentials)
        → (elim o [ none ↦ err source_not_available | some x ↦ ok x ]) ≡ ok secret
        → o ≡ some secret
    decoded none h = cc
    decoded (some x) h = cc

credentials-ok :
    (settings : Settings) (w : Outside) (policy : DataSourcePolicy) (secret : ConnectionCredentials)
    → credentials settings w policy ≡ ok secret
    → IsOwnSecret settings w policy.tenant_id policy.data_source_id policy secret
unfolding credentials expected_secret_ref
credentials-ok settings w policy secret h =
    let expected = path_of settings.vault_mount policy.tenant_id policy.data_source_id in
    let a = guard-ok (policy.secret_ref =s expected) _ _ h in
    elim (Result-cases (w.read_secret expected)) [
      | inr (e, reads) ↦ absurd (refused (rw reads at a.1))
      | inl (o, reads) ↦
          let (payload, there, parsed) = from_payload-ok w.parse_int o secret (rw reads at a.1) in
          record {
            path = (=s_iff policy.secret_ref expected).0 a.0;
            payload = payload;
            stored = reads ∙ ap (λ x. ok x) there;
            parsed = parsed;
          }
    ]
  where
    refused : {e : QueryError} → err e ≡ ok secret → ⊥
    refused h = cc

module _ (p : Principal) (id : String) (c : QueryCommand) (settings : Settings) (w : Outside) where
  -- What the end of a query keeps of its run.
  pub ended-keeps :
      (tables : List String) (v : Validation) (a : Active) (ran : Ran p id c settings w)
      → ((ended p id c settings w tables v a ran).1.calls ≡ ran.2.calls)
        × ((ended p id c settings w tables v a ran).1.usage
            ≡ (metered_if p id c settings w ran.1 (record ran.2 { active = a })).usage)
        × ((ended p id c settings w tables v a ran).1.active ≡ a)
  unfolding ended meter record_query
  ended-keeps tables v a (out, worked, j) = by_answer out worked
    where
      by_meter :
          (m : Bool)
          → let k : Journal =
              if m
              then record j { usage = (p.tenant_id, w.database_ms, c.run_id) ∷ j.usage; active = a }
              else record j { active = a } in
            (k.calls ≡ j.calls) × (k.active ≡ a)
      by_meter true = (refl, refl)
      by_meter false = (refl, refl)

      by_answer :
          (out : Result QueryError (QueryResult × String)) (worked : Bool)
          → ((ended p id c settings w tables v a (out, worked, j)).1.calls ≡ j.calls)
            × ((ended p id c settings w tables v a (out, worked, j)).1.usage
                ≡ (metered_if p id c settings w worked (record j { active = a })).usage)
            × ((ended p id c settings w tables v a (out, worked, j)).1.active ≡ a)
      by_answer (err e) true = ((by_meter w.can_meter).0, refl, (by_meter w.can_meter).1)
      by_answer (err e) false = (refl, refl, refl)
      by_answer (ok r) true = ((by_meter w.can_meter).0, refl, (by_meter w.can_meter).1)
      by_answer (ok r) false = (refl, refl, refl)

  answered-keeps :
      (v : Validation) (j : Journal) (answer : Result ExecutionFailure QueryResult)
      → ((answered p id c settings w v j answer).1 ≡ true)
        × ((answered p id c settings w v j answer).2.calls ≡ j.calls)
        × ((answered p id c settings w v j answer).2.usage ≡ j.usage)
  unfolding record_error record_query
  answered-keeps v j (err failure) = (refl, refl, refl)
  answered-keeps v j (ok r) = by_store (w.put_result r)
    where
      by_store :
          (o : Option String)
          → ((stored_or p id c settings w v r j o).1 ≡ true)
            × ((stored_or p id c settings w v r j o).2.calls ≡ j.calls)
            × ((stored_or p id c settings w v r j o).2.usage ≡ j.usage)
      by_store none = (refl, refl, refl)
      by_store (some handle) = (refl, refl, refl)

  -- No call of an executor, or one with the secret of the data source.
  pub data Called (limits : ExecutionLimits) (policy : DataSourcePolicy) (sql : String)
      (j : Journal) (ran : Ran p id c settings w) : Type 0 where
    silent :
        ran.1 ≡ false
        → ran.2.calls ≡ j.calls
        → ran.2.usage ≡ j.usage
        → Called limits policy sql j ran
    called :
        (secret : ConnectionCredentials)
        → IsOwnSecret settings w policy.tenant_id policy.data_source_id policy secret
        → ran.1 ≡ true
        → ran.2.calls ≡ call_of p id c settings w limits policy sql secret ∷ j.calls
        → ran.2.usage ≡ j.usage
        → Called limits policy sql j ran

  pub in_slot-Called :
      (limits : ExecutionLimits) (policy : DataSourcePolicy) (v : Validation) (sql : String)
      (j : Journal) (secret : Result QueryError ConnectionCredentials)
      → credentials settings w policy ≡ secret
      → Called limits policy sql j (in_slot p id c settings w limits policy v sql j secret)
  unfolding record_error record_query
  in_slot-Called limits policy v sql j (err e) h = silent refl refl refl
  in_slot-Called limits policy v sql j (ok secret) h =
      let call = call_of p id c settings w limits policy sql secret in
      let k : Journal = record j { calls = call ∷ j.calls } in
      let (worked, calls, usage) = answered-keeps v k (run_call p id c settings w call) in
      called secret (credentials-ok settings w policy secret h) worked calls usage

  -- What is metered of a run, where usage can be published and where it cannot.
  pub metered_usage :
      (a : Active) (j : Journal) (worked : Bool)
      → w.can_meter ≡ true
      → (metered_if p id c settings w worked (record j { active = a })).usage
        ≡ (if worked then (p.tenant_id, w.database_ms, c.run_id) ∷ j.usage else j.usage)
  unfolding meter
  metered_usage a j true h = rw (meter, h) refl
  metered_usage a j false h = refl

  pub unmetered_usage :
      (a : Active) (j : Journal) (worked : Bool)
      → w.can_meter ≡ false
      → (metered_if p id c settings w worked (record j { active = a })).usage ≡ j.usage
  unfolding meter
  unmetered_usage a j true h = rw (meter, h) refl
  unmetered_usage a j false h = refl
