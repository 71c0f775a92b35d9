-- ===== src/Query/Validator/Vetted.antt =====
-- What `validate` of domain/policies/sql_validator.py of apps/query-gateway promises of the SQL that it
-- returns.
use bu_vi.Base.{
  ◌≤◌, ◌≡◌, refl, String, true, not, ◌&&◌, List, [], ◌∷◌, Option, some, arith, ltb, if◌then◌else◌,
  ◌=s◌, all, any, codes, length, Result, ok, err, guard-ok, >>=-eq-ok, Option-cases, inl, inr, ◌==◌,
  sym,
}
use bu_vi.Query.Policy.{TablePolicy, Purpose, DataSourcePolicy}
use bu_vi.Query.Validator.Allowed.{select_roots}
use bu_vi.Query.Validator.Sqlglot.{Sqlglot, ParseFailure, unparsable, parse_too_deep}
use bu_vi.Query.Validator.Checks.{Rejected, is_instance, check_statement_shape}
use bu_vi.Query.Validator.Validate.{
  ValidatorLimits, dialect_of, single, parse_single, check_statement, check_again, qualified,
  resolve_statement, validate_in, validate, resolve_tables, schema, check_columns, referenced,
  is_editor,
}
use bu_vi.Query.Validator.Harmless.{is_harmless, check_nodes-ok, check_statement_shape-ok}

module _ {Tree : Type 0} (lib : Sqlglot Tree) (limits : ValidatorLimits) where
  -- SQL that parses to one statement, a select of at most `max_nodes` harmless nodes.
  pub record IsVetted (dialect canonical : String) : Type 0 where
    pub statement : Tree
    pub parses : lib.parse dialect canonical ≡ ok (statement ∷ [])
    pub selects : is_instance (lib.root statement) select_roots ≡ true
    pub harmless : all (is_harmless lib dialect) (lib.walk statement) ≡ true
    pub small : length (lib.walk statement) ≤ limits.max_nodes

  single-ok :
      (parsed : Result ParseFailure (List Tree)) (tree : Tree)
      → single lib limits parsed ≡ ok tree
      → parsed ≡ ok (tree ∷ [])
  single-ok (err unparsable) tree h = cc
  single-ok (err parse_too_deep) tree h = cc
  single-ok (ok []) tree h = cc
  single-ok (ok (t ∷ [])) tree h = cc
  single-ok (ok (t ∷ u ∷ ts)) tree h = cc

  pub parse_single-ok :
      (dialect sql : String) (tree : Tree)
      → parse_single lib limits dialect sql ≡ ok tree
      → lib.parse dialect sql ≡ ok (tree ∷ [])
  unfolding parse_single
  parse_single-ok dialect sql tree h = single-ok (lib.parse dialect sql) tree h

  pub vetted :
      (dialect sql : String) (tree : Tree)
      → lib.parse dialect sql ≡ ok (tree ∷ [])
      → check_statement lib limits dialect tree ≡ ok tt
      → IsVetted dialect sql
  unfolding check_statement
  vetted dialect sql tree parses h =
      let (done, shape, nodes) = >>=-eq-ok (check_statement_shape lib (lib.root tree)) _ h in
      let (harmless, fit) =
        check_nodes-ok lib limits.max_nodes dialect 1 (lib.walk tree) (omega arith) nodes in
      record {
        statement = tree;
        parses = parses;
        selects = check_statement_shape-ok lib (lib.root tree) shape;
        harmless = harmless;
        small = omega (arith, fit);
      }

  check_again-ok :
      (dialect canonical : String)
      → check_again lib limits dialect canonical ≡ ok tt
      → IsVetted dialect canonical
  unfolding check_again
  check_again-ok dialect canonical h =
      let (again, single, checked) = >>=-eq-ok (parse_single lib limits dialect canonical) _ h in
      vetted dialect canonical again (parse_single-ok dialect canonical again single) checked

  -- The parts of a successful resolution.
  pub record Resolved (policy : DataSourcePolicy) (purpose : Purpose) (dialect : String)
      (tree : Tree) (out : String × List String) : Type 0 where
    pub entries : List (Option TablePolicy)
    pub resolved : resolve_tables policy purpose (lib.cte_names tree) (lib.tables tree) ≡ ok entries
    pub printed : Tree
    pub names : out.1 ≡ lib.sorted_set (referenced entries)
    pub prints : out.0 ≡ lib.sql dialect printed
    pub columns :
        (if is_editor purpose then ok tt else check_columns policy (lib.columns printed)) ≡ ok tt
    pub is_vetted : IsVetted dialect out.0

  pub resolve_statement-ok :
      (policy : DataSourcePolicy) (purpose : Purpose) (dialect : String) (tree : Tree)
      (out : String × List String)
      → resolve_statement lib limits policy purpose dialect tree ≡ ok out
      → Resolved policy purpose dialect tree out
  unfolding resolve_statement
  resolve_statement-ok policy purpose dialect tree out h =
      let (ps, resolves, rest) =
        >>=-eq-ok (resolve_tables policy purpose (lib.cte_names tree) (lib.tables tree)) _ h in
      let (q, qualifies, checks) =
        >>=-eq-ok
          (qualified lib limits
            (lib.qualify dialect (schema policy policy.tables) (lib.set_tables ps tree)))
          _ rest in
      let (done, columns, more) =
        >>=-eq-ok (if is_editor purpose then ok tt else check_columns policy (lib.columns q)) _
          checks in
      let (done', again, same) =
        >>=-eq-ok (check_again lib limits dialect (lib.sql dialect q)) _ more in
      let e : (lib.sql dialect q, lib.sorted_set (referenced ps)) ≡ out = cc in
      record {
        entries = ps;
        resolved = resolves;
        printed = q;
        names = rw (sym e) refl;
        prints = rw (sym e) refl;
        columns = columns;
        is_vetted = rw (sym e) (check_again-ok dialect (lib.sql dialect q) again);
      }

  -- The parts of a successful validation.
  pub record Validated (sql : String) (policy : DataSourcePolicy) (purpose : Purpose)
      (out : String × List String) : Type 0 where
    pub dialect : String
    pub knows : dialect_of policy.engine ≡ some dialect
    pub parsed : Tree
    pub input : IsVetted dialect sql
    pub parses : lib.parse dialect sql ≡ ok (parsed ∷ [])
    pub rest : Resolved policy purpose dialect (lib.normalize_identifiers dialect parsed) out

  validate_in-ok :
      (sql : String) (policy : DataSourcePolicy) (purpose : Purpose) (dialect : String)
      (out : String × List String)
      → dialect_of policy.engine ≡ some dialect
      → validate_in lib limits sql policy purpose dialect ≡ ok out
      → Validated sql policy purpose out
  unfolding validate_in
  validate_in-ok sql policy purpose dialect out knows h =
      let a = guard-ok (not (sql =s "") && not (lib.strip sql =s "")) _ _ h in
      let b = guard-ok (not (ltb limits.max_length (length (codes sql)))) _ _ a.1 in
      let c = guard-ok (not (any (λ c. c == 0) (codes sql))) _ _ b.1 in
      let (tree, single, rest) = >>=-eq-ok (parse_single lib limits dialect sql) _ c.1 in
      let (done, checked, resolves) = >>=-eq-ok (check_statement lib limits dialect tree) _ rest in
      record {
        dialect = dialect;
        knows = knows;
        parsed = tree;
        input = vetted dialect sql tree (parse_single-ok dialect sql tree single) checked;
        parses = parse_single-ok dialect sql tree single;
        rest =
            resolve_statement-ok policy purpose dialect (lib.normalize_identifiers dialect tree) out
              resolves;
      }

  pub validate-ok :
      (sql : String) (policy : DataSourcePolicy) (purpose : Purpose) (out : String × List String)
      → validate lib limits sql policy purpose ≡ ok out
      → Validated sql policy purpose out
  unfolding validate
  validate-ok sql policy purpose out h = elim (Option-cases (dialect_of policy.engine)) [
    | inl e ↦ absurd (refused (rw (e, validate) at h))
    | inr (dialect, e) ↦ validate_in-ok sql policy purpose dialect out e (rw (e, validate) at h)
  ]
    where
      refused : {e : Rejected} → err e ≡ ok out → ⊥
      refused h = cc

  -- The SQL that `validate` returns, which is what a database executes, parses by itself to exactly one
  -- statement in the dialect of the data source, whose root is a SELECT or a set operation, and in
  -- whose tree of at most `max_nodes` nodes there is no writing statement, no INTO, no lock, no
  -- parameter, no qualified function, no cast to an object identifier and no function outside the
  -- allow-lists, and this however the qualifier and the printer of sqlglot changed the statement.
  pub validate-IsVetted :
      (sql : String) (policy : DataSourcePolicy) (purpose : Purpose) (out : String × List String)
      → validate lib limits sql policy purpose ≡ ok out
      → (dialect : String) × (dialect_of policy.engine ≡ some dialect) × IsVetted dialect out.0
  validate-IsVetted sql policy purpose out h =
      let v = validate-ok sql policy purpose out h in (v.dialect, v.knows, v.rest.is_vetted)
