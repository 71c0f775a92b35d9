-- ===== src/Query/Service/Lawful.antt =====
-- Which SQL `execute` of application/services/query_service.py of apps/query-gateway sends to a database, and
-- what it meters.
use bu_vi.Base.{
  ◌<◌, ◌≢◌, ◌∙◌, ap, not_both, ℕ, ◌≤◌, ◌≡◌, refl, sym, String, true, false, not, ◌&&◌, ◌||◌, Option,
  none, some, arith, ltb, ◌=s◌, =s_iff, has, ok, err, guard, ◌>>◌, guard-ok, guard-true, >>=-eq-ok,
  Bool-cases, inl, inr, ◌⊎◌,
}
use bu_vi.Auth.Principal.{is_platform_operator, Principal, has_permission, step_up_is_fresh}
use bu_vi.Query.Policy.{sql_editor, analytics_run, data_export, DataSourcePolicy}
use bu_vi.Query.Validator.Validate.{is_editor}
use bu_vi.Query.Service.Request.{
  QueryError, QueryCommand, ExecutionLimits, Settings, Outside, permission_of, authorize_query,
  execution_limits, grant_exempt, check_grant, prepare, or_number, purpose_not_allowed,
  not_permitted,
}
use bu_vi.Query.Service.Run.{admit}

module _ (settings : Settings) (w : Outside) (p : Principal) (caller : String)
    (c : QueryCommand) where
  -- A query that its caller may run on a data source.
  pub record IsPermitted (policy : DataSourcePolicy) : Type 0 where
    pub editor : c.purpose ≡ sql_editor → has_permission p "sql:execute" ≡ true
    pub agent : c.purpose ≡ analytics_run → has_permission p "chat:use" ≡ true
    pub no_export : c.purpose ≢ data_export
    pub may_ask : has caller (settings.purpose_callers c.purpose) ≡ true
    pub loaded : w.load p.tenant_id c.data_source_id ≡ ok policy
    pub is_own : policy.tenant_id ≡ p.tenant_id
    pub is_active : policy.status ≡ "active"
    pub granted :
        c.purpose ≡ sql_editor
        → has "org_admin" p.roles ≡ false
        → is_platform_operator p ≡ false
        → w.has_sql_grant p.tenant_id policy.data_source_id p.user_id ≡ ok true

  pub record IsBounded (limits : ExecutionLimits) : Type 0 where
    pub rows : limits.max_rows ≤ settings.limits.max_rows_limit
    pub time : limits.timeout_ms ≤ settings.limits.max_timeout_ms
    pub bytes : limits.max_bytes ≡ settings.limits.max_result_bytes
    pub fresh :
        c.purpose ≡ sql_editor
        → settings.limits.export_step_up_rows < limits.max_rows
        → step_up_is_fresh p w.now false ≡ true

  authorize_query-ok :
      authorize_query settings p caller c.purpose ≡ ok tt
      → (permission : String) × (permission_of c.purpose ≡ some permission)
        × (has_permission p permission ≡ true)
        × (has caller (settings.purpose_callers c.purpose) ≡ true)
  unfolding authorize_query
  authorize_query-ok h = by_purpose (permission_of c.purpose) refl h
    where
      by_purpose :
          (o : Option String)
          → permission_of c.purpose ≡ o
          → (elim o [
            | none ↦ err QueryError.purpose_not_supported
            | some permission ↦
                guard (has caller (settings.purpose_callers c.purpose)) purpose_not_allowed
                >> guard (has_permission p permission) not_permitted
          ])
            ≡ ok tt
          → (permission : String) × (permission_of c.purpose ≡ some permission)
            × (has_permission p permission ≡ true)
            × (has caller (settings.purpose_callers c.purpose) ≡ true)
      by_purpose none e h = cc
      by_purpose (some permission) e h =
          let a = guard-ok (has caller (settings.purpose_callers c.purpose)) _ _ h in
          (permission, e, guard-true (has_permission p permission) _ a.1, a.0)

  check_grant-ok :
      (policy : DataSourcePolicy)
      → check_grant w p c.purpose policy ≡ ok tt
      → ((is_editor c.purpose && not (grant_exempt p)) ≡ false)
        ⊎ (w.has_sql_grant p.tenant_id policy.data_source_id p.user_id ≡ ok true)
  unfolding check_grant
  check_grant-ok policy h = elim (Bool-cases (is_editor c.purpose && not (grant_exempt p))) [
    | inr e ↦ inl e
    | inl e ↦
        let (granted, asks, passes) =
          >>=-eq-ok (w.has_sql_grant p.tenant_id policy.data_source_id p.user_id) _ (rw e at h) in
        inr (rw (sym (guard-true granted _ passes)) asks)
  ]

  permission-held :
      (permission wanted : String)
      → permission_of c.purpose ≡ some permission
      → has_permission p permission ≡ true
      → permission_of c.purpose ≡ some wanted
      → has_permission p wanted ≡ true
  permission-held permission wanted needs holds is =
      let same : permission ≡ wanted = unwrapped (sym needs ∙ is) in rw (sym same) holds
    where
      unwrapped : some permission ≡ some wanted → permission ≡ wanted
      unwrapped h = cc

  no_permission_for_export :
      (permission : String) → permission_of c.purpose ≡ some permission → c.purpose ≢ data_export
  unfolding permission_of
  no_permission_for_export permission needs e = none_not_some (rw e at needs)
    where
      none_not_some : none ≡ some permission → ⊥
      none_not_some h = cc

  granted_or_exempt :
      (policy : DataSourcePolicy)
      → ((is_editor c.purpose && not (grant_exempt p)) ≡ false)
        ⊎ (w.has_sql_grant p.tenant_id policy.data_source_id p.user_id ≡ ok true)
      → c.purpose ≡ sql_editor
      → has "org_admin" p.roles ≡ false
      → is_platform_operator p ≡ false
      → w.has_sql_grant p.tenant_id policy.data_source_id p.user_id ≡ ok true
  unfolding grant_exempt
  granted_or_exempt policy (inr granted) e f g = granted
  granted_or_exempt policy (inl exempt) e f g = absurd (not_both refl (rw (e, f, g) at exempt))

  prepare-ok :
      (policy : DataSourcePolicy) → prepare settings w p caller c ≡ ok policy → IsPermitted policy
  unfolding prepare permission_of grant_exempt
  prepare-ok policy h =
      let (done, authorized, rest) = >>=-eq-ok (authorize_query settings p caller c.purpose) _ h in
      let (permission, needs, holds, may_ask) = authorize_query-ok authorized in
      let (found, loads, checks) = >>=-eq-ok (w.load p.tenant_id c.data_source_id) _ rest in
      let own = guard-ok (found.tenant_id =s p.tenant_id) _ _ checks in
      let engine = guard-ok (has found.engine w.engines) _ _ own.1 in
      let status = guard-ok (found.status =s "active") _ _ engine.1 in
      let (done', grant, same) = >>=-eq-ok (check_grant w p c.purpose found) _ status.1 in
      let e : found ≡ policy = cc in
      rw (sym e) (record {
        editor = λ e. permission-held permission "sql:execute" needs holds (ap permission_of e);
        agent = λ e. permission-held permission "chat:use" needs holds (ap permission_of e);
        no_export = no_permission_for_export permission needs;
        may_ask = may_ask;
        loaded = loads;
        is_own = (=s_iff found.tenant_id p.tenant_id).0 own.0;
        is_active = (=s_iff found.status "active").0 status.0;
        granted = λ e f g. granted_or_exempt found (check_grant-ok found grant) e f g;
      })

  bounded :
      (limits : ExecutionLimits)
      → execution_limits settings.limits c ≡ ok limits
      → (not (
          is_editor c.purpose
          && ltb settings.limits.export_step_up_rows limits.max_rows
          && not (step_up_is_fresh p w.now false)))
        ≡ true
      → IsBounded limits
  unfolding execution_limits
  bounded limits h fresh =
      let rows = or_number c.max_rows settings.limits.default_max_rows in
      let time = or_number c.timeout_ms settings.limits.default_timeout_ms in
      let a =
        guard-ok
          (not (ltb settings.limits.max_rows_limit rows || ltb settings.limits.max_timeout_ms time))
          _ _ h in
      let whole : ExecutionLimits = record {
        max_rows = rows;
        max_bytes = settings.limits.max_result_bytes;
        timeout_ms = time;
      } in
      let e : whole ≡ limits = cc in
      record {
        rows = rw (sym e) (within rows time a.0).0;
        time = rw (sym e) (within rows time a.0).1;
        bytes = rw (sym e) refl;
        fresh = λ editor many. stepped many (rw editor at fresh);
      }
    where
      stepped :
          settings.limits.export_step_up_rows < limits.max_rows
          → (not (
              ltb settings.limits.export_step_up_rows limits.max_rows
              && not (step_up_is_fresh p w.now false)))
            ≡ true
          → step_up_is_fresh p w.now false ≡ true
      stepped many h = ground (arith, many, h)

      within :
          (rows time : ℕ)
          → (not
              (ltb settings.limits.max_rows_limit rows || ltb settings.limits.max_timeout_ms time))
            ≡ true
          → (rows ≤ settings.limits.max_rows_limit) × (time ≤ settings.limits.max_timeout_ms)
      within rows time h = ground (arith, h)

  pub admit-ok :
      (id : String) (limits : ExecutionLimits) (policy : DataSourcePolicy)
      → admit p id c settings w caller ≡ ok (limits, policy)
      → IsBounded limits × IsPermitted policy
  unfolding admit
  admit-ok id limits policy h =
      let (l, limited, rest) = >>=-eq-ok (execution_limits settings.limits c) _ h in
      let a =
        guard-ok
          (not (
            is_editor c.purpose
            && ltb settings.limits.export_step_up_rows l.max_rows
            && not (step_up_is_fresh p w.now false)))
          _ _ rest in
      let (q, prepares, same) = >>=-eq-ok (prepare settings w p caller c) _ a.1 in
      let l_is : l ≡ limits = cc in
      let q_is : q ≡ policy = cc in
      (rw (sym l_is) (bounded l limited a.0), rw (sym q_is) (prepare-ok q prepares))
