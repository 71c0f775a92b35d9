-- ===== src/Query/Validator/Sqlglot.antt =====
-- What domain/policies/sql_validator.py of apps/query-gateway reads of sqlglot's trees, and the calls of
-- sqlglot and of Python's text methods that it makes, as the parameter `Sqlglot`.
use bu_vi.Base.{String, Bool, Option, List, Result}
use bu_vi.Query.Policy.{TablePolicy}

-- A node of a tree.
pub record Node : Type 0 where
  -- `type(node).__name__`
  pub class : String
  -- the names of all classes that it is an instance of
  pub bases : List String
  -- `str(node.name)` and `node.sql_name()`
  pub name : String
  pub sql_name : String
  -- the first word of a Command in upper case
  pub word : Option String
  -- `node.expression.name`, where that expression is a function
  pub called : Option String
  -- `node.to.sql(dialect=dialect).lower()` of a cast, or the empty text
  pub cast_target : String

-- A node of class Table: whether `this` is an identifier, and its names, the empty text for none.
pub record TableNode : Type 0 where
  pub is_identifier : Bool
  pub catalog : String
  pub db : String
  pub name : String

-- A column of a scope: the schema and the name of its source, where that is a table.
pub record ColumnNode : Type 0 where
  pub source : Option (String × String)
  pub name : String

pub data ParseFailure : Type 0 where
  unparsable parse_too_deep : ParseFailure

-- An OptimizeError with the column that it names, a RecursionError, and any other error.
pub data QualifyFailure : Type 0 where
  unknown_column : Option String → QualifyFailure
  qualify_too_deep unanalyzable : QualifyFailure

pub record Sqlglot (Tree : Type 0) : Type 0 where
  -- `sqlglot.parse`, without the statements that are None
  pub parse : (dialect sql : String) → Result ParseFailure (List Tree)
  pub root : Tree → Node
  -- `walk()`
  pub walk : Tree → List Node
  -- `find_all(exp.Table)` and the names of `find_all(exp.CTE)`
  pub tables : Tree → List TableNode
  pub cte_names : Tree → List String
  pub normalize_identifiers : (dialect : String) → Tree → Tree
  -- The tree with schema and name set at each table, in the order of `tables`; none: left as it is.
  pub set_tables : List (Option TablePolicy) → Tree → Tree
  -- `qualify`, given the tables of the schema in the order in which `_schema` enters them
  pub qualify : (dialect : String) → List TablePolicy → Tree → Result QualifyFailure Tree
  -- the columns of `traverse_scope`
  pub columns : Tree → List ColumnNode
  -- `sql(dialect=…, comments=False)`
  pub sql : (dialect : String) → Tree → String
  -- `str.strip`, `str.lower` and `str.upper`, and `tuple(sorted(set(…)))`
  pub strip : String → String
  pub lower : String → String
  pub upper : String → String
  pub sorted_set : List String → List String
