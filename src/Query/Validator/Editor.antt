-- ===== src/Query/Validator/Editor.antt =====
-- domain/policies/sql_validator.py of apps/query-gateway: what agents may run and what the SQL editor may.
use bu_vi.Base.{
  any, codes, length, ltb, ◌==◌, ◌≡◌, refl, String, Bool, true, false, not, ◌&&◌, Option, none,
  some, List, [], ◌∷◌, if◌then◌else◌, ◌=s◌, has, Result, ok, err, guard, >>=_mono, Option-cases,
  inl, inr, guard_mono, ltb, length, codes,
}
use bu_vi.Query.Policy.{Purpose, sql_editor, TablePolicy, DataSourcePolicy}
use bu_vi.Query.Validator.Sqlglot.{TableNode, Sqlglot}
use bu_vi.Query.Validator.Checks.{Rejected}
use bu_vi.Query.Validator.Validate.{
  ValidatorLimits, is_editor, available, look_up, resolve_table, resolve_tables, check_columns,
  resolve_statement, validate_in, validate, parse_single, check_statement, dialect_of,
}

allowed : TablePolicy → Result Rejected TablePolicy
allowed q = ok q

available-editor :
    (purpose : Purpose) (t : TableNode) (found : Option TablePolicy) (p : TablePolicy)
    → available purpose t found ≡ ok p
    → available sql_editor t found ≡ ok p
unfolding allowed
available-editor purpose t none p h = cc
available-editor purpose t (some q) p h =
    granted (not (is_editor purpose) && not q.is_visible_to_agent) _ h
  where
    granted : (b : Bool) (e : Rejected) → (if b then err e else ok q) ≡ ok p → allowed q ≡ ok p
    granted true e h = cc
    granted false e h = h

if_mono :
    {A : Type 0} (b : Bool) (x y y' : Result Rejected A) {a : A}
    → (y ≡ ok a → y' ≡ ok a)
    → (if b then x else y) ≡ ok a
    → (if b then x else y') ≡ ok a
if_mono true x y y' f h = h
if_mono false x y y' f h = f h

module _ (policy : DataSourcePolicy) (purpose : Purpose) where
  resolve_table-editor :
      (ctes : List String) (t : TableNode) (p : Option TablePolicy)
      → resolve_table policy purpose ctes t ≡ ok p
      → resolve_table policy sql_editor ctes t ≡ ok p
  unfolding resolve_table
  resolve_table-editor ctes t p h =
      >>=_mono (guard t.is_identifier _) _ _ _ (λ u e. e)
        (λ u.
          >>=_mono (guard (t.catalog =s "") _) _ _ _ (λ u e. e)
            (λ u. if_mono (t.db =s "" && has t.name ctes) (ok none) _ _ (
              >>=_mono (look_up policy t) _ _ _ (λ found e. e)
                (λ found.
                  >>=_mono (available purpose t found) _ _ _ (available-editor purpose t found)
                    (λ q e. e)))))
        h

  resolve_tables-editor :
      (ctes : List String) (ts : List TableNode) (ps : List (Option TablePolicy))
      → resolve_tables policy purpose ctes ts ≡ ok ps
      → resolve_tables policy sql_editor ctes ts ≡ ok ps
  unfolding resolve_tables
  resolve_tables-editor ctes [] ps h = h
  resolve_tables-editor ctes (t ∷ ts) ps h =
      >>=_mono (resolve_table policy purpose ctes t) _ _ _ (resolve_table-editor ctes t)
        (λ p.
          >>=_mono (resolve_tables policy purpose ctes ts) _ _ _ (resolve_tables-editor ctes ts)
            (λ ps e. e))
        h

  module _ {Tree : Type 0} (lib : Sqlglot Tree) (limits : ValidatorLimits) where
    resolve_statement-editor :
        (dialect : String) (tree : Tree) (out : String × List String)
        → resolve_statement lib limits policy purpose dialect tree ≡ ok out
        → resolve_statement lib limits policy sql_editor dialect tree ≡ ok out
    unfolding resolve_statement
    resolve_statement-editor dialect tree out h =
        >>=_mono (resolve_tables policy purpose (lib.cte_names tree) (lib.tables tree)) _ _ _
          (resolve_tables-editor (lib.cte_names tree) (lib.tables tree))
          (λ ps.
            >>=_mono _ _ _ _ (λ q e. e)
              (λ q.
                >>=_mono (if is_editor purpose then ok tt else check_columns policy (lib.columns q))
                  (ok tt) _ _ (λ u e. refl) (λ u e. e)))
          h

    validate_in-editor :
        (sql dialect : String) (out : String × List String)
        → validate_in lib limits sql policy purpose dialect ≡ ok out
        → validate_in lib limits sql policy sql_editor dialect ≡ ok out
    unfolding validate_in
    validate_in-editor sql dialect out h =
        guard_mono (not (sql =s "") && not (lib.strip sql =s "")) _ _ _
          (guard_mono (not (ltb limits.max_length (length (codes sql)))) _ _ _ (
            guard_mono (not (any (λ c. c == 0) (codes sql))) _ _ _ (
              >>=_mono (parse_single lib limits dialect sql) _ _ _ (λ tree e. e)
                (λ tree.
                  >>=_mono (check_statement lib limits dialect tree) _ _ _ (λ u e. e)
                    (λ u.
                      resolve_statement-editor dialect (lib.normalize_identifiers dialect tree)
                        out)))))
          h

    -- Whatever statement an agent or an export may run on a data source, the SQL editor may run too, and
    -- with the same SQL and the same tables: the rules for agents only take away.
    pub validate-sql_editor :
        (sql : String) (out : String × List String)
        → validate lib limits sql policy purpose ≡ ok out
        → validate lib limits sql policy sql_editor ≡ ok out
    unfolding validate
    validate-sql_editor sql out h = elim (Option-cases (dialect_of policy.engine)) [
      | inl e ↦ rw (e, validate) (rw (e, validate) at h)
      | inr (dialect, e) ↦
          rw (e, validate) (validate_in-editor sql dialect out (rw (e, validate) at h))
    ]
