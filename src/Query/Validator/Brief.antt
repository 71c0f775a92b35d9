-- ===== src/Query/Validator/Brief.antt =====
-- domain/policies/sql_validator.py of apps/query-gateway: how much of a statement a rejection shows.
use bu_vi.Base.{
  Bool-cases, inl, inr, ℕ, ◌-◌, ◌≤◌, Bool, true, false, not, ◌&&◌, Option, none, some, List, [],
  ◌∷◌, arith, ltb, if◌then◌else◌, ◌=s◌, ◌==◌, has, any, codes, length, Result, ok, err, guard,
  ◌>>=◌, ◌>>◌, ◌+◌,
}
use Prim.Native.String.{String}
use bu_vi.Query.Policy.{Purpose, TablePolicy, DataSourcePolicy, tables_named}
use bu_vi.Query.Validator.Sqlglot.{
  Node, TableNode, ColumnNode, ParseFailure, unparsable, parse_too_deep, QualifyFailure,
  unknown_column, qualify_too_deep, unanalyzable, Sqlglot,
}
use bu_vi.Query.Validator.Checks.{
  RejectionReason, Rejected, rejected, max_detail, clip, clipped, check_statement_shape,
  check_function, check_node, check_nodes, allowed_anonymous, is_parameter, is_qualified_call,
  is_blocked_cast, is_call, is_instance, is_write,
}
use bu_vi.Query.Validator.Allowed.{select_roots, allowed_functions}
use bu_vi.Query.Validator.Validate.{
  ValidatorLimits, is_personal, schema, is_editor, one_of, look_up, available, resolve_table,
  resolve_tables, check_columns, qualify_error, single, parse_single, check_statement, qualified,
  check_again, resolve_statement, validate_in, validate, dialect_of,
}

length-clip : (n : ℕ) (s : String) → length (codes (clip n s)) ≤ n
length-clip n String.[] = omega arith
length-clip n (String.◌∷◌ c s) = elim (Bool-cases (n == 0)) [
  | inl e ↦ rw e (omega arith)
  | inr e ↦ rw e (ground (arith, length-clip (n - 1) s, e))
]

abbrev pub Short : Option String → Type 0
Short none = Unit
Short (some text) = length (codes text) ≤ max_detail

clipped-Short : (detail : Option String) → Short (clipped detail)
clipped-Short none = tt
clipped-Short (some text) = cut (text =s "")
  where
    cut : (b : Bool) → Short (if b then none else some (clip max_detail text))
    cut true = tt
    cut false = length-clip max_detail text

-- A rejection, if it is one, with a detail of at most 128 characters.
pub data Brief {A : Type 0} : Result Rejected A → Type 0 where
  passed : {a : A} → Brief (ok a)
  cut : {e : Rejected} → Short e.detail → Brief (err e)

rejected-Brief :
    {A : Type 0} (reason : RejectionReason) (detail : Option String)
    → Brief {A = A} (err (rejected reason detail))
unfolding rejected
rejected-Brief reason detail = cut (clipped-Short detail)

guard-Brief :
    (test : Bool) (reason : RejectionReason) (detail : Option String)
    → Brief (guard test (rejected reason detail))
guard-Brief true reason detail = passed
guard-Brief false reason detail = rejected-Brief reason detail

-- A check and what follows it.
checked-Brief :
    {A : Type 0} (test : Bool) (reason : RejectionReason) (detail : Option String)
    {rest : Result Rejected A}
    → Brief rest
    → Brief (guard test (rejected reason detail) >> rest)
checked-Brief true reason detail p = p
checked-Brief false reason detail p = rejected-Brief _ _

>>=-Brief :
    {A B : Type 0} (call : Result Rejected A) (next : A → Result Rejected B)
    → Brief call
    → ((a : A) → Brief (next a))
    → Brief (call >>= next)
>>=-Brief (err e) next (cut s) k = cut s
>>=-Brief (ok a) next p k = k a

if-Brief :
    {A : Type 0} (b : Bool) {x y : Result Rejected A}
    → Brief x
    → Brief y
    → Brief (if b then x else y)
if-Brief true p q = p
if-Brief false p q = q

statement_shape-Brief :
    {Tree : Type 0} (lib : Sqlglot Tree) (n : Node) → Brief (check_statement_shape lib n)
unfolding check_statement_shape
statement_shape-Brief lib n =
    if-Brief (is_instance n select_roots) passed
      (if-Brief (is_write n) (rejected-Brief _ _) (rejected-Brief _ _))

module _ {Tree : Type 0} (lib : Sqlglot Tree) (dialect : String) where
  function-Brief : (n : Node) → Brief (check_function lib dialect n)
  unfolding check_function
  function-Brief n =
      if-Brief (has "Anonymous" n.bases)
        (guard-Brief (has (lib.lower n.name) (allowed_anonymous dialect)) _ _)
        (guard-Brief (has n.class allowed_functions) _ _)

  node-Brief : (n : Node) → Brief (check_node lib dialect n)
  unfolding check_node
  node-Brief n = checked-Brief (not (is_write n)) _ _ (
      checked-Brief (not (has "Into" n.bases)) _ _ (
        checked-Brief (not (has "Lock" n.bases)) _ _ (
          checked-Brief (not (is_parameter n)) _ _ (
            checked-Brief (not (is_qualified_call n)) _ _ (
              checked-Brief (not (is_blocked_cast n)) _ _
                (if-Brief (is_call n) (function-Brief n) passed))))))

  nodes-Brief :
      (max_nodes count : ℕ) (ns : List Node) → Brief (check_nodes lib max_nodes dialect count ns)
  unfolding check_nodes
  nodes-Brief max_nodes count [] = passed
  nodes-Brief max_nodes count (n ∷ ns) = checked-Brief (not (ltb max_nodes count)) _ _ (
      >>=-Brief (check_node lib dialect n) _ (node-Brief n)
        (λ u. nodes-Brief max_nodes (count + 1) ns))

one_of-Brief : (t : TableNode) (ts : List TablePolicy) → Brief (one_of t ts)
one_of-Brief t [] = passed
one_of-Brief t (p ∷ []) = passed
one_of-Brief t (p ∷ q ∷ ts) = rejected-Brief _ _

available-Brief :
    (purpose : Purpose) (t : TableNode) (found : Option TablePolicy)
    → Brief (available purpose t found)
available-Brief purpose t none = rejected-Brief _ _
available-Brief purpose t (some p) = if-Brief _ (rejected-Brief _ _) passed

module _ (policy : DataSourcePolicy) (purpose : Purpose) (ctes : List String) where
  table-Brief : (t : TableNode) → Brief (resolve_table policy purpose ctes t)
  unfolding resolve_table look_up
  table-Brief t = checked-Brief t.is_identifier _ _ (
      checked-Brief (t.catalog =s "") _ _ (
        if-Brief (t.db =s "" && has t.name ctes) passed (
          >>=-Brief (look_up policy t) _
            (if-Brief (not (t.db =s "")) passed
              (one_of-Brief t (tables_named policy t.name policy.allowed_schemas)))
            (λ found.
              >>=-Brief (available purpose t found) _ (available-Brief purpose t found)
                (λ p. passed)))))

  tables-Brief : (ts : List TableNode) → Brief (resolve_tables policy purpose ctes ts)
  unfolding resolve_tables
  tables-Brief [] = passed
  tables-Brief (t ∷ ts) =
      >>=-Brief (resolve_table policy purpose ctes t) _ (table-Brief t)
        (λ p. >>=-Brief (resolve_tables policy purpose ctes ts) _ (tables-Brief ts) (λ ps. passed))

columns-Brief : (policy : DataSourcePolicy) (cs : List ColumnNode) → Brief (check_columns policy cs)
unfolding check_columns
columns-Brief policy [] = passed
columns-Brief policy (c ∷ cs) =
    checked-Brief (not (is_personal policy c.source c.name)) _ _ (columns-Brief policy cs)

module _ {Tree : Type 0} (lib : Sqlglot Tree) (limits : ValidatorLimits) where
  single-Brief : (parsed : Result ParseFailure (List Tree)) → Brief (single lib limits parsed)
  single-Brief (err unparsable) = rejected-Brief _ _
  single-Brief (err parse_too_deep) = rejected-Brief _ _
  single-Brief (ok []) = rejected-Brief _ _
  single-Brief (ok (t ∷ [])) = passed
  single-Brief (ok (t ∷ u ∷ ts)) = rejected-Brief _ _

  statement-Brief :
      (dialect : String) (tree : Tree) → Brief (check_statement lib limits dialect tree)
  unfolding check_statement
  statement-Brief dialect tree =
      >>=-Brief (check_statement_shape lib (lib.root tree)) _
        (statement_shape-Brief lib (lib.root tree))
        (λ u. nodes-Brief lib dialect limits.max_nodes 1 (lib.walk tree))

  qualified-Brief : (answer : Result QualifyFailure Tree) → Brief (qualified lib limits answer)
  unfolding qualify_error
  qualified-Brief (err (unknown_column name)) = rejected-Brief _ _
  qualified-Brief (err qualify_too_deep) = rejected-Brief _ _
  qualified-Brief (err unanalyzable) = rejected-Brief _ _
  qualified-Brief (ok tree) = passed

  resolve-Brief :
      (policy : DataSourcePolicy) (purpose : Purpose) (dialect : String) (tree : Tree)
      → Brief (resolve_statement lib limits policy purpose dialect tree)
  unfolding resolve_statement check_again parse_single
  resolve-Brief policy purpose dialect tree =
      >>=-Brief (resolve_tables policy purpose (lib.cte_names tree) (lib.tables tree)) _
        (tables-Brief policy purpose (lib.cte_names tree) (lib.tables tree))
        (λ ps.
          let answer = lib.qualify dialect (schema policy policy.tables) (lib.set_tables ps tree) in
          >>=-Brief (qualified lib limits answer) _ (qualified-Brief answer) (λ q.
            >>=-Brief (if is_editor purpose then ok tt else check_columns policy (lib.columns q)) _
              (if-Brief (is_editor purpose) passed (columns-Brief policy (lib.columns q)))
              (λ u.
                >>=-Brief (check_again lib limits dialect (lib.sql dialect q)) _
                  (>>=-Brief (parse_single lib limits dialect (lib.sql dialect q)) _
                    (single-Brief (lib.parse dialect (lib.sql dialect q)))
                    (λ again. statement-Brief dialect again))
                  (λ u. passed))))

  validate_in-Brief :
      (sql : String) (policy : DataSourcePolicy) (purpose : Purpose) (dialect : String)
      → Brief (validate_in lib limits sql policy purpose dialect)
  unfolding validate_in parse_single
  validate_in-Brief sql policy purpose dialect =
      checked-Brief (not (sql =s "") && not (lib.strip sql =s "")) _ _ (
        checked-Brief (not (ltb limits.max_length (length (codes sql)))) _ _ (
          checked-Brief (not (any (λ c. c == 0) (codes sql))) _ _ (
            >>=-Brief (parse_single lib limits dialect sql) _ (single-Brief (lib.parse dialect sql))
              (λ tree.
                >>=-Brief (check_statement lib limits dialect tree) _ (statement-Brief dialect tree)
                  (λ u.
                    resolve-Brief policy purpose dialect
                      (lib.normalize_identifiers dialect tree))))))

  -- Whatever a caller sends, and whatever the parser and the qualifier say of it, a rejection shows at
  -- most 128 characters of it.
  pub validate-Brief :
      (sql : String) (policy : DataSourcePolicy) (purpose : Purpose)
      → Brief (validate lib limits sql policy purpose)
  unfolding validate
  validate-Brief sql policy purpose = by_dialect (dialect_of policy.engine)
    where
      by_dialect :
          (d : Option String)
          → Brief (elim d [
            | none ↦ err (rejected RejectionReason.parse_error none)
            | some dialect ↦ validate_in lib limits sql policy purpose dialect
          ])
      by_dialect none = rejected-Brief _ _
      by_dialect (some dialect) = validate_in-Brief sql policy purpose dialect
