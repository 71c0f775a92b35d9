-- ===== src/Query/Policy.antt =====
-- domain/value_objects/policy.py of apps/query-gateway: the connection policy of one data source, which
-- is the allow-list of identifiers.
use bu_vi.Base.{String, Bool, ◌&&◌, Option, none, some, List, [], ◌∷◌, if◌then◌else◌, ◌=s◌, has}

pub data Purpose : Type 0 where
  analytics_run sql_editor data_export : Purpose

pub record ColumnPolicy : Type 0 where
  pub name : String
  pub data_type : String
  pub is_pii : Bool

pub record TablePolicy : Type 0 where
  pub schema_name : String
  pub table_name : String
  pub columns : List ColumnPolicy
  pub is_visible_to_agent : Bool

-- `TablePolicy.column`
unfoldable pub column : List ColumnPolicy → String → Option ColumnPolicy
column [] name = none
column (c ∷ cs) name = if c.name =s name then some c else column cs name

pub record DataSourcePolicy : Type 0 where
  pub data_source_id : String
  pub tenant_id : String
  pub engine : String
  pub database_name : String
  pub allowed_schemas : List String
  pub status : String
  pub secret_ref : String
  pub tables : List TablePolicy

-- Whether `__post_init__` indexes a table under a key.
unfoldable pub is_indexed : List String → String → String → TablePolicy → Bool
is_indexed allowed schema name t =
    has t.schema_name allowed && t.schema_name =s schema && t.table_name =s name

-- The entry of `_index` that the loop of `__post_init__` leaves at a key: the last table's.
unfoldable pub index : List String → List TablePolicy → String → String → Option TablePolicy
index allowed [] schema name = none
index allowed (t ∷ ts) schema name = elim (index allowed ts schema name) [
  | some later ↦ some later
  | none ↦ if is_indexed allowed schema name t then some t else none
]

-- `DataSourcePolicy.table`
unfoldable pub table : DataSourcePolicy → String → String → Option TablePolicy
table policy schema name = index policy.allowed_schemas policy.tables schema name

abbrev pub kept : Option TablePolicy → List TablePolicy → List TablePolicy
kept none rest = rest
kept (some t) rest = t ∷ rest

-- `DataSourcePolicy.tables_named`: the loop over the allowed schemas.
unfoldable pub tables_named : DataSourcePolicy → String → List String → List TablePolicy
tables_named policy name [] = []
tables_named policy name (schema ∷ schemas) =
    kept (table policy schema name) (tables_named policy name schemas)
