-- ===== src/Query/Validator/Validate.antt =====
-- domain/policies/sql_validator.py of apps/query-gateway: the resolution of tables and columns, and
-- `validate`.
use bu_vi.Base.{
  ℕ, String, Bool, true, false, not, ◌&&◌, Option, none, some, List, [], ◌∷◌, ltb, ◌==◌,
  if◌then◌else◌, ◌=s◌, has, any, codes, length, Result, ok, err, guard, ◌>>=◌, ◌>>◌,
}
use Prim.Native.String.{◌++◌}
use bu_vi.Query.Policy.{
  Purpose, sql_editor, ColumnPolicy, TablePolicy, DataSourcePolicy, column, table, tables_named,
}
use bu_vi.Query.Validator.Sqlglot.{
  TableNode, ColumnNode, ParseFailure, unparsable, parse_too_deep, QualifyFailure, unknown_column,
  qualify_too_deep, unanalyzable, Sqlglot,
}
use bu_vi.Query.Validator.Checks.{
  empty_sql, too_long, invalid_characters, parse_error, multiple_statements, table_function,
  table_not_allowed, ambiguous_table, column_not_allowed, pii_column, too_complex, Rejected,
  rejected, check_statement_shape, check_nodes,
}

abbrev pub is_editor : Purpose → Bool
is_editor sql_editor = true
is_editor _ = false

-- `DIALECTS.get(engine)`
unfoldable pub dialect_of : String → Option String
dialect_of engine =
    if engine =s "postgres"
    then some "postgres"
    else if engine =s "mysql"
    then some "mysql"
    else none

-- `".".join(part for part in parts if part)`
abbrev pub dotted : List String → String
dotted [] = ""
dotted (p ∷ ps) =
    let rest = dotted ps in if p =s "" then rest else if rest =s "" then p else p ++ "." ++ rest

unfoldable pub written : TableNode → String
written t = dotted (t.catalog ∷ t.db ∷ t.name ∷ [])

-- `TablePolicy.qualified_name`
unfoldable pub qualified_name : TablePolicy → String
qualified_name t = t.schema_name ++ "." ++ t.table_name

abbrev pub one_of : TableNode → List TablePolicy → Result Rejected (Option TablePolicy)
one_of t [] = ok none
one_of t (candidate ∷ []) = ok (some candidate)
one_of t (_ ∷ _ ∷ _) = err (rejected ambiguous_table (some (written t)))

-- `resolved`, for a name with a schema and for one without
unfoldable pub look_up : DataSourcePolicy → TableNode → Result Rejected (Option TablePolicy)
look_up policy t =
    if not (t.db =s "")
    then ok (table policy t.db t.name)
    else one_of t (tables_named policy t.name policy.allowed_schemas)

abbrev pub available : Purpose → TableNode → Option TablePolicy → Result Rejected TablePolicy
available purpose t none = err (rejected table_not_allowed (some (written t)))
available purpose t (some p) =
    if not (is_editor purpose) && not p.is_visible_to_agent
    then err (rejected table_not_allowed (some (written t)))
    else ok p

-- one round of the loop of `_resolve_tables`; none: a common table expression
unfoldable pub resolve_table :
    DataSourcePolicy → Purpose → List String → TableNode → Result Rejected (Option TablePolicy)
resolve_table policy purpose ctes t =
    guard t.is_identifier (rejected table_function none)
    >> (guard (t.catalog =s "") (rejected table_not_allowed (some (written t)))
        >> (if t.db =s "" && has t.name ctes
            then ok none
            else (look_up policy t >>= λ found. available purpose t found >>= λ p. ok (some p))))

-- `_resolve_tables`
unfoldable pub resolve_tables :
    DataSourcePolicy
    → Purpose
    → List String
    → List TableNode
    → Result Rejected (List (Option TablePolicy))
resolve_tables policy purpose ctes [] = ok []
resolve_tables policy purpose ctes (t ∷ ts) =
    let rest = resolve_tables policy purpose ctes ts in
    resolve_table policy purpose ctes t >>= λ p. rest >>= λ ps. ok (p ∷ ps)

-- the names of `referenced`
unfoldable pub referenced : List (Option TablePolicy) → List String
referenced [] = []
referenced (none ∷ ps) = referenced ps
referenced (some p ∷ ps) = qualified_name p ∷ referenced ps

abbrev pub is_entered : Option TablePolicy → Bool
is_entered none = false
is_entered (some p) = true

-- `_schema`, as the tables that it enters
unfoldable pub schema : DataSourcePolicy → List TablePolicy → List TablePolicy
schema policy [] = []
schema policy (t ∷ ts) =
    let rest = schema policy ts in
    if is_entered (table policy t.schema_name t.table_name) then t ∷ rest else rest

abbrev pub is_pii_column : Option ColumnPolicy → Bool
is_pii_column none = false
is_pii_column (some c) = c.is_pii

abbrev pub column_in : Option TablePolicy → String → Option ColumnPolicy
column_in none name = none
column_in (some t) name = column t.columns name

abbrev pub is_personal : DataSourcePolicy → Option (String × String) → String → Bool
is_personal policy none name = false
is_personal policy (some s) name = is_pii_column (column_in (table policy s.0 s.1) name)

abbrev pub column_name : Option (String × String) → String → String
column_name none name = name
column_name (some s) name = s.0 ++ "." ++ s.1 ++ "." ++ name

-- `_check_columns`
unfoldable pub check_columns : DataSourcePolicy → List ColumnNode → Result Rejected (Unit {0})
check_columns policy [] = ok tt
check_columns policy (c ∷ cs) =
    let rest = check_columns policy cs in
    guard (not (is_personal policy c.source c.name))
      (rejected pii_column (some (column_name c.source c.name)))
    >> rest

unfoldable pub qualify_error : QualifyFailure → Rejected
qualify_error (unknown_column name) = rejected column_not_allowed name
qualify_error qualify_too_deep = rejected too_complex none
qualify_error unanalyzable = rejected parse_error none

-- The settings of `SqlValidator`.
pub record ValidatorLimits : Type 0 where
  pub max_length : ℕ
  pub max_nodes : ℕ

module _ {Tree : Type 0} (lib : Sqlglot Tree) (limits : ValidatorLimits) where
  abbrev pub single : Result ParseFailure (List Tree) → Result Rejected Tree
  single (err unparsable) = err (rejected parse_error none)
  single (err parse_too_deep) = err (rejected too_complex none)
  single (ok []) = err (rejected empty_sql none)
  single (ok (statement ∷ [])) = ok statement
  single (ok (_ ∷ _ ∷ _)) = err (rejected multiple_statements none)

  -- `_parse_single`
  unfoldable pub parse_single : String → String → Result Rejected Tree
  parse_single dialect sql = single (lib.parse dialect sql)

  -- `_check_statement_shape` and `_check_nodes`
  unfoldable pub check_statement : String → Tree → Result Rejected (Unit {0})
  check_statement dialect tree =
      check_statement_shape lib (lib.root tree)
      >> check_nodes lib limits.max_nodes dialect 1 (lib.walk tree)

  abbrev pub qualified : Result QualifyFailure Tree → Result Rejected Tree
  qualified (err failure) = err (qualify_error failure)
  qualified (ok tree) = ok tree

  -- the end of `_validate`: what executes must itself pass the structural checks
  unfoldable pub check_again : String → String → Result Rejected (Unit {0})
  check_again dialect canonical =
      parse_single dialect canonical >>= λ again. check_statement dialect again

  -- `_validate` from the resolution of tables on
  unfoldable pub resolve_statement :
      DataSourcePolicy → Purpose → String → Tree → Result Rejected (String × List String)
  resolve_statement policy purpose dialect tree =
      resolve_tables policy purpose (lib.cte_names tree) (lib.tables tree) >>= λ ps.
      qualified (lib.qualify dialect (schema policy policy.tables) (lib.set_tables ps tree))
      >>= λ q.
          (if is_editor purpose then ok tt else check_columns policy (lib.columns q))
          >> (check_again dialect (lib.sql dialect q)
              >> ok (lib.sql dialect q, lib.sorted_set (referenced ps)))

  -- `_validate`
  unfoldable pub validate_in :
      String → DataSourcePolicy → Purpose → String → Result Rejected (String × List String)
  validate_in sql policy purpose dialect =
      guard (not (sql =s "") && not (lib.strip sql =s "")) (rejected empty_sql none)
      >> (guard (not (ltb limits.max_length (length (codes sql)))) (rejected too_long none)
          >> (guard (not (any (λ c. c == 0) (codes sql))) (rejected invalid_characters none)
              >> (parse_single dialect sql >>= λ tree.
                  check_statement dialect tree
                  >> resolve_statement policy purpose dialect
                      (lib.normalize_identifiers dialect tree))))

  -- `validate`: the SQL to execute and the tables that it names, or why it is rejected
  unfoldable pub validate :
      String → DataSourcePolicy → Purpose → Result Rejected (String × List String)
  validate sql policy purpose = elim (dialect_of policy.engine) [
    | none ↦ err (rejected parse_error none)
    | some dialect ↦ validate_in sql policy purpose dialect
  ]
