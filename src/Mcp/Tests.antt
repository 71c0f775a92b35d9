-- ===== src/Mcp/Tests.antt =====
-- The tool policy at concrete servers, tools and names.
use bu_vi.Base.{◌⊎◌}
use bu_vi.Mcp.ToolPolicy.{
  default_policy, manifest_problems, manifest_loop, name_problems, class_problems, matches_rest,
  verification_problems, verify_tool, find_live,
}
use bu_vi.Mcp.Registry.{
  NewServer, register, insert_server, can_add, new_server, new_tool, begin_approval, find_server,
  tools_of, offers, change, can_move, is_movable, transition, move_row, move, reject,
}
use bu_vi.Mcp.Requests.{
  Request, registers, begins_approval, finishes_approval, rejects, grants_tool, NewGrant, handle,
  after_all, approval_at,
}
use bu_vi.Mcp.Keeping.{status_of}
use bu_vi.Mcp.UnderWay.{IsVerified}
use bu_vi.Mcp.Approving.{no_servers, handle-approves, after_all-rejected}
use bu_vi.Mcp.Granting.{AreLawful, after_all-AreLawful}
use bu_vi.Base.{
  ◌≡◌, ◌⊎◌, refl, String, true, false, not, ◌||◌, none, some, [], ◌∷◌, List, has, any, ◌=s◌, codes,
  ◌≢◌, arith,
}
use bu_vi.Mcp.ToolPolicy.{
  GrantRef, denial, grants_to, DiscoveredTool, valid_tool_name, name_length, matches_rest,
  needs_step_up,
}
use bu_vi.Mcp.Invocation.{Server, Tool, answers, Attempt, Trail, record_attempt, call_tool, invoke}
use bu_vi.Mcp.Recording.{Recorded, invoke-Recorded, invoke-calls}

abbrev to_developers : List GrantRef
to_developers = record { grantee_role = some "developer"; grantee_user_id = none } ∷ []

abbrev server_status : String
server_status = "approved"

abbrev policy : String
policy = "require_grant"

abbrev developer : List String
developer = "developer" ∷ []

abbrev declared : List (String × String)
declared = ("list_tables", "read_metadata") ∷ ("drop_table", "admin") ∷ []

abbrev live_tools : List DiscoveredTool
live_tools = record { name = "list_tables"; read_only_hint = some false } ∷ []

newline_accepted : valid_tool_name (codes "run_query\n") ≡ true
unfolding valid_tool_name name_length matches_rest
newline_accepted = refl

abbrev query_tool : Tool
query_tool = record {
  id = "t1";
  tool_class = "write";
  default_policy = policy;
  grants = to_developers;
}

abbrev approved_server : Server
approved_server = record { status = server_status }

abbrev attempt : Attempt
attempt = record {
  user_id = "u1";
  roles = developer;
  step_up_fresh = true;
  argument_bytes = 20;
  endpoint_allowed = true;
  has_token = true;
  upstream = answers false;
}

abbrev no_trail : Trail
no_trail = record { invocations = []; audits = []; denials = []; calls = 0 }

invoke-Recorded_example :
    Recorded query_tool no_trail
      (invoke 100 (some approved_server) (some query_tool) attempt no_trail)
invoke-Recorded_example = invoke-Recorded 100 approved_server query_tool attempt no_trail refl

invoke_called :
    (invoke 100 (some approved_server) (some query_tool) attempt no_trail).1.calls ≢ no_trail.calls
unfolding invoke denial needs_step_up has call_tool record_attempt
invoke_called e = omega (arith, e)

invoke-calls_example :
    ((server_status ≡ "approved")
      × (policy ≡ "require_grant")
      × (any (grants_to "u1" developer) to_developers ≡ true)
      × ((not ("write" =s "admin") || has "org_admin" developer) ≡ true)
      × ((not ("write" =s "write" || "write" =s "admin") || true) ≡ true))
    × ((true ≡ true) × (true ≡ true))
invoke-calls_example = invoke-calls 100 approved_server query_tool attempt no_trail invoke_called

abbrev new_server_s1 : NewServer
new_server_s1 = record {
  id = "s1";
  name = "warehouse";
  endpoint = some "https://mcp.example.com";
  auth_token = none;
  tools = ("query", "read_data") ∷ [];
  tool_id = λ name. name;
  secret_ref = "mcp/t1/s1";
  can_write_secret = true;
  can_insert = true;
  can_delete_secret = true;
}

abbrev waiting : List Request
waiting = registers new_server_s1 "u1" ∷ begins_approval "s1" true true ∷ []

abbrev answer_of_server : Request
answer_of_server =
    finishes_approval 0 (offers (record { name = "query"; read_only_hint = some true } ∷ [])) "u1"

approved_at_last :
    status_of "s1" (handle answer_of_server (after_all waiting no_servers)).registry.servers
    ≡ some "approved"
unfolding status_of handle after_all register insert_server can_add new_server new_tool
    manifest_problems manifest_loop name_problems class_problems valid_tool_name matches_rest
    name_length default_policy has begin_approval find_server tools_of approval_at
    verification_problems verify_tool find_live change can_move is_movable transition move_row
approved_at_last = refl

handle-approves_example :
    (status_of "s1" (after_all waiting no_servers).registry.servers ≡ some "approved")
    ⊎ IsVerified answer_of_server (after_all waiting no_servers) "s1"
handle-approves_example = handle-approves waiting answer_of_server "s1" approved_at_last

-- The server is rejected while its approval waits for the live server.
abbrev rejected_meanwhile : List Request
rejected_meanwhile =
    registers new_server_s1 "u1" ∷ begins_approval "s1" true true ∷ rejects "s1" ∷ []

is_rejected :
    status_of "s1" (after_all rejected_meanwhile no_servers).registry.servers ≡ some "rejected"
unfolding status_of handle after_all register insert_server can_add new_server new_tool
    manifest_problems manifest_loop name_problems class_problems valid_tool_name matches_rest
    name_length default_policy has begin_approval find_server tools_of reject move change can_move
    is_movable transition move_row
is_rejected = refl

after_all-rejected_example :
    status_of "s1"
      (after_all (answer_of_server ∷ []) (after_all rejected_meanwhile no_servers)).registry.servers
    ≡ some "rejected"
after_all-rejected_example =
    after_all-rejected rejected_meanwhile (answer_of_server ∷ []) "s1" is_rejected

abbrev developer_grant : NewGrant
developer_grant = record {
  id = "g1";
  server_id = "s1";
  tool_name = "query";
  role = some "developer";
  user = none;
  granted_by = "u1";
  step_up_fresh = false;
}

after_all-AreLawful_example :
    AreLawful
      (after_all
        (registers new_server_s1 "u1" ∷ grants_tool developer_grant ∷ [])
        no_servers).registry.grants
after_all-AreLawful_example =
    after_all-AreLawful (registers new_server_s1 "u1" ∷ grants_tool developer_grant ∷ [])
