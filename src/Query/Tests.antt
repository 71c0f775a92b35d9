-- ===== src/Query/Tests.antt =====
-- The limiter at concrete queries.
use bu_vi.Base.{◌≡◌, refl, true, some, List, [], ◌∷◌}
use bu_vi.Base.{◌||◌, String, Result, err, ok, none, if◌then◌else◌, ◌=s◌, false, has}
use bu_vi.Auth.Principal.{Principal, session, has_permission, is_platform_operator}
use bu_vi.Query.Policy.{
  analytics_run, sql_editor, TablePolicy, DataSourcePolicy, table, tables_named, index, is_indexed,
  column,
}
use bu_vi.Query.Validator.Sqlglot.{Node, TableNode, ColumnNode, Sqlglot, unparsable}
use bu_vi.Query.Validator.Checks.{
  check_statement_shape, check_nodes, check_node, check_function, is_instance, is_write, is_cast,
  is_blocked_cast, is_parameter, is_qualified_call, is_call,
}
use bu_vi.Query.Validator.Validate.{
  ValidatorLimits, validate, validate_in, dialect_of, parse_single, check_statement,
  resolve_statement, resolve_tables, resolve_table, look_up, qualified_name, referenced,
  check_columns, check_again,
}
use bu_vi.Query.Validator.Vetted.{IsVetted, validate-IsVetted}
use bu_vi.Query.Validator.Reads.{ReadsAllowed, validate-ReadsAllowed}
use bu_vi.Query.Validator.Editor.{validate-sql_editor}
use bu_vi.Query.Validator.Brief.{Brief, validate-Brief}
use bu_vi.Query.Service.Request.{
  ExecutionFailure, query_timed_out, QueryError, QueryCommand, ExecutionLimits, SecretPayload,
  QueryResult, Settings, Outside, execution_limits, prepare, authorize_query, permission_of,
  check_grant, grant_exempt,
}
use bu_vi.Query.Service.Run.{Journal, QueryOutcome, admit, execute}
use bu_vi.Query.Service.Recorded.{Recorded, execute-Recorded}
use bu_vi.Query.Service.Sent.{Sends, execute-Sends, Settles, execute-Settles}
use bu_vi.Query.Concurrency.{active, put, enter}
use bu_vi.Query.Slots.{
  System, admitted, turned_away, Reach, here, next, empty, IsCounted, Reach-IsCounted,
}

-- Of a limit of one: `t1` is let in, and its second query is turned away.
abbrev busy : System
busy = record { table = put empty.table "t1" (some 1); running = "t1" ∷ [] }

one_admitted : Reach 1 empty busy
unfolding enter active
one_admitted = next here (admitted "t1" (put empty.table "t1" (some 1)) refl)

second_refused : Reach 1 empty busy
unfolding enter active put
second_refused = next one_admitted (turned_away "t1" refl)

Reach-IsCounted_example : IsCounted 1 busy
Reach-IsCounted_example = Reach-IsCounted 1 second_refused

-- A statement over one table of the catalog, as a parser would give it and print it.
record Statement : Type 0 where
  nodes : List Node
  reads : List TableNode
  uses : List ColumnNode

abbrev select_node : Node
select_node = record {
  class = "Select";
  bases = "Select" ∷ "Expression" ∷ [];
  name = "";
  sql_name = "";
  word = none;
  called = none;
  cast_target = "";
}

abbrev count_node : Node
count_node = record {
  class = "Count";
  bases = "Count" ∷ "AggFunc" ∷ "Func" ∷ [];
  name = "";
  sql_name = "COUNT";
  word = none;
  called = none;
  cast_target = "";
}

abbrev count_orders : Statement
count_orders = record {
  nodes = select_node ∷ count_node ∷ [];
  reads = record { is_identifier = true; catalog = ""; db = ""; name = "orders" } ∷ [];
  uses = record { source = some ("public", "orders"); name = "id" } ∷ [];
}

abbrev sent_text : String
sent_text = "select count(id) from orders"

abbrev printed_text : String
printed_text = "SELECT COUNT(orders.id) FROM public.orders"

abbrev parser : Sqlglot Statement
parser = record {
  parse = λ dialect sql.
      if sql =s sent_text || sql =s printed_text then ok (count_orders ∷ []) else err unparsable;
  root = λ s. select_node;
  walk = λ s. s.nodes;
  tables = λ s. s.reads;
  cte_names = λ s. [];
  normalize_identifiers = λ dialect s. s;
  set_tables = λ ps s. s;
  qualify = λ dialect ts s. ok s;
  columns = λ s. s.uses;
  sql = λ dialect s. printed_text;
  strip = λ t. t;
  lower = λ t. t;
  upper = λ t. t;
  sorted_set = λ ts. ts;
}

abbrev sizes : ValidatorLimits
sizes = record { max_length = 50000; max_nodes = 5000 }

abbrev orders : TablePolicy
orders = record {
  schema_name = "public";
  table_name = "orders";
  columns = record { name = "id"; data_type = "int"; is_pii = false } ∷ [];
  is_visible_to_agent = true;
}

abbrev shop : DataSourcePolicy
shop = record {
  data_source_id = "d1";
  tenant_id = "t1";
  engine = "postgres";
  database_name = "shop";
  allowed_schemas = "public" ∷ [];
  status = "active";
  secret_ref = "kv/data/tenants/t1/datasources/d1";
  tables = orders ∷ [];
}

abbrev accepted : String × List String
accepted = (printed_text, "public.orders" ∷ [])

agent_accepted : validate parser sizes sent_text shop analytics_run ≡ ok accepted
unfolding validate dialect_of validate_in parse_single check_statement check_statement_shape
    is_instance has check_nodes check_node is_write is_parameter is_qualified_call is_blocked_cast
    is_cast is_call check_function resolve_statement resolve_tables resolve_table look_up
    tables_named table index is_indexed qualified_name referenced check_columns column check_again
agent_accepted = refl

validate-IsVetted_example :
    (dialect : String) × (dialect_of shop.engine ≡ some dialect)
    × IsVetted parser sizes dialect accepted.0
validate-IsVetted_example =
    validate-IsVetted parser sizes sent_text shop analytics_run accepted agent_accepted

validate-ReadsAllowed_example : ReadsAllowed parser shop analytics_run sent_text accepted.0
validate-ReadsAllowed_example =
    validate-ReadsAllowed parser sizes sent_text shop analytics_run accepted agent_accepted

validate-sql_editor_example : validate parser sizes sent_text shop sql_editor ≡ ok accepted
validate-sql_editor_example =
    validate-sql_editor shop analytics_run parser sizes sent_text accepted agent_accepted

validate-Brief_example : Brief (validate parser sizes "drop table orders" shop sql_editor)
validate-Brief_example = validate-Brief parser sizes "drop table orders" shop sql_editor

abbrev analyst : Principal
analyst = record {
  user_id = "u1";
  tenant_id = "t1";
  permissions = "chat:use" ∷ [];
  auth_method = session;
  mfa_verified = false;
  session_id = some "s1";
  mfa_verified_at = none;
  roles = "analyst" ∷ [];
  mfa_method = none;
  webauthn_required = false;
}

abbrev command : QueryCommand
command = record {
  data_source_id = "d1";
  sql = sent_text;
  purpose = analytics_run;
  max_rows = none;
  timeout_ms = none;
  run_id = some "r1";
}

abbrev settings : Settings
settings = record {
  limits = record {
    default_max_rows = 1000;
    max_rows_limit = 10000;
    default_timeout_ms = 5000;
    max_timeout_ms = 30000;
    max_result_bytes = 1000000;
    export_step_up_rows = 5000;
  };
  purpose_callers = λ purpose. "analytics-orchestrator" ∷ [];
  vault_mount = "kv";
  tenant_limit = 2;
}

abbrev secret : SecretPayload
secret = record {
  host = some "db";
  port = some "5432";
  username = some "reader";
  password = some "pw";
  sslmode = some "require";
}

-- A database that answers `answer`.
abbrev outside : Result ExecutionFailure QueryResult → Outside
outside answer = record {
  now = 0;
  load = λ tenant source. ok shop;
  has_sql_grant = λ tenant source user. ok false;
  engines = "postgres" ∷ [];
  read_secret = λ ref. ok (some secret);
  parse_int = λ t. some 5432;
  run = λ source database credentials sql limits. answer;
  put_result = λ r. some "h1";
  can_meter = true;
  database_ms = 12;
}

abbrev ten_rows : QueryResult
ten_rows = record { row_count = 10; bytes_returned = 80 }

abbrev blank : Journal
blank = record { rows = []; calls = []; usage = []; active = λ t. none }

abbrev limits : ExecutionLimits
limits = record { max_rows = 1000; max_bytes = 1000000; timeout_ms = 5000 }

admitted_command :
    admit analyst "q1" command settings (outside (ok ten_rows)) "analytics-orchestrator"
    ≡ ok (limits, shop)
unfolding admit execution_limits prepare authorize_query permission_of has_permission
    is_platform_operator has check_grant grant_exempt
admitted_command = refl

execute-Recorded_example :
    let w = outside (ok ten_rows) in
    (out : Result QueryError QueryOutcome × Journal) × (execute analyst "q1" command settings w
        "analytics-orchestrator" parser sizes blank
      ≡ some out)
    × Recorded analyst "q1" command settings w blank out
execute-Recorded_example =
    execute-Recorded analyst "q1" command settings (outside (ok ten_rows)) "analytics-orchestrator"
      parser sizes blank limits shop admitted_command

execute-Sends_example :
    let w = outside (ok ten_rows) in
    (out : Result QueryError QueryOutcome × Journal) × (execute analyst "q1" command settings w
        "analytics-orchestrator" parser sizes blank
      ≡ some out)
    × Sends analyst "q1" command settings w "analytics-orchestrator" parser sizes blank out
execute-Sends_example =
    execute-Sends analyst "q1" command settings (outside (ok ten_rows)) "analytics-orchestrator"
      parser sizes blank

execute-Settles_example :
    let w = outside (err query_timed_out) in
    (out : Result QueryError QueryOutcome × Journal) × (execute analyst "q1" command settings w
        "analytics-orchestrator" parser sizes blank
      ≡ some out)
    × Settles analyst "q1" command settings w "analytics-orchestrator" parser sizes blank out
execute-Settles_example =
    execute-Settles analyst "q1" command settings (outside (err query_timed_out))
      "analytics-orchestrator" parser sizes blank
