-- ===== src/Mcp/ToolPolicy.antt =====
-- domain/policies/tool_policy.py of apps/mcp-gateway: classes, manifests and verification, and the
-- denial of an invocation. A problem is a constructor where the source formats a text.
use bu_vi.Base.{
  ℕ, suc, String, Bool, true, false, not, ◌&&◌, ◌||◌, Option, none, some, List, [], ◌∷◌, ◌++◌, leb,
  ltb, ◌==◌, if◌then◌else◌, ◌=s◌, has, any, length, codes,
}

-- `TOOL_CLASSES`, `READ_CLASSES`, `STEP_UP_CLASSES`
abbrev pub tool_classes : List String
tool_classes = "read_metadata" ∷ "read_data" ∷ "external_read" ∷ "write" ∷ "admin" ∷ []

abbrev pub read_classes : List String
read_classes = "read_metadata" ∷ "read_data" ∷ "external_read" ∷ []

abbrev pub step_up_classes : List String
step_up_classes = "write" ∷ "admin" ∷ []

abbrev pub max_tools : ℕ
max_tools = 100

unfoldable pub default_policy : String → String
default_policy tool_class = "require_grant"

unfoldable pub needs_step_up : String → Bool
needs_step_up tool_class = has tool_class step_up_classes

-- `[A-Za-z0-9_.-]`
abbrev pub name_char : ℕ → Bool
name_char c =
    leb b'A' c && leb c b'Z'
    || leb b'a' c && leb c b'z'
    || leb b'0' c && leb c b'9'
    || c == b'_'
    || c == b'.'
    || c == b'-'

-- The whole of the rest is name characters, or they end before one last newline: Python's `$`
-- matches there too.
unfoldable pub matches_rest : List ℕ → Bool
matches_rest [] = true
matches_rest (c ∷ []) = name_char c || c == 10
matches_rest (c ∷ d ∷ cs) = name_char c && matches_rest (d ∷ cs)

-- how many name characters the text begins with
unfoldable pub name_length : List ℕ → ℕ
name_length [] = 0
name_length (c ∷ cs) = let rest = suc (name_length cs) in if name_char c then rest else 0

-- `TOOL_NAME.match(name)`, for `^[A-Za-z0-9_.-]{1,128}$`
unfoldable pub valid_tool_name : List ℕ → Bool
valid_tool_name name = leb 1 (name_length name) && (leb (name_length name) 128 && matches_rest name)

pub data Problem : Type 0 where
  no_tools too_many_tools : Problem
  invalid_name declared_twice unknown_class : String → Problem
  not_offered not_read_only : String → Problem

-- The two tests of the loop of `manifest_problems` on one tool.
unfoldable pub name_problems : List String → String → List Problem
name_problems seen name =
    if not (valid_tool_name (codes name))
    then invalid_name name ∷ []
    else if has name seen
    then declared_twice name ∷ []
    else []

unfoldable pub class_problems : String → String → List Problem
class_problems name tool_class =
    if not (has tool_class tool_classes) then unknown_class name ∷ [] else []

-- The loop of `manifest_problems`; `seen` are the names so far.
unfoldable pub manifest_loop : List String → List (String × String) → List Problem
manifest_loop seen [] = []
manifest_loop seen ((name, tool_class) ∷ declared) =
    name_problems seen name
    ++ (class_problems name tool_class ++ manifest_loop (name ∷ seen) declared)

unfoldable pub manifest_problems : List (String × String) → List Problem
manifest_problems [] = no_tools ∷ []
manifest_problems (d ∷ ds) =
    if ltb max_tools (length (d ∷ ds)) then too_many_tools ∷ [] else manifest_loop [] (d ∷ ds)

-- `DiscoveredTool`
pub record DiscoveredTool : Type 0 where
  pub name : String
  pub read_only_hint : Option Bool

-- `{tool.name: tool for tool in discovered}`, read at a name: the last one wins.
unfoldable pub find_live : String → List DiscoveredTool → Option DiscoveredTool
find_live name [] = none
find_live name (t ∷ ts) = elim (find_live name ts) [
  | some later ↦ some later
  | none ↦ if t.name =s name then some t else none
]

-- `tool.read_only_hint is False`
abbrev pub says_not_read_only : DiscoveredTool → Bool
says_not_read_only t = elim t.read_only_hint [ none ↦ false | some b ↦ not b ]

-- What one declared tool meets on the live server.
unfoldable pub verify_tool : List DiscoveredTool → String × String → List Problem
verify_tool live (name, tool_class) = elim (find_live name live) [
  | none ↦ not_offered name ∷ []
  | some tool ↦
      if has tool_class read_classes && says_not_read_only tool then not_read_only name ∷ [] else []
]

-- `verification_problems`, over the declared tools in sorted order
unfoldable pub verification_problems : List (String × String) → List DiscoveredTool → List Problem
verification_problems [] live = []
verification_problems (d ∷ ds) live = verify_tool live d ++ verification_problems ds live

-- `GrantRef`
pub record GrantRef : Type 0 where
  pub grantee_role : Option String
  pub grantee_user_id : Option String

pub data DenialReason : Type 0 where
  server_not_approved tool_denied_by_policy not_granted admin_only step_up_required : DenialReason

abbrev pub grants_to : String → List String → GrantRef → Bool
grants_to user_id roles g =
    elim g.grantee_user_id [ none ↦ false | some u ↦ u =s user_id ]
    || elim g.grantee_role [ none ↦ false | some r ↦ has r roles ]

-- `denial`: none when the caller may invoke the tool.
unfoldable pub denial :
    String → String → String → List GrantRef → String → List String → Bool → Option DenialReason
denial server_status tool_class policy grants user_id roles step_up_fresh =
    if not (server_status =s "approved")
    then some server_not_approved
    else if not (policy =s "require_grant")
    then some tool_denied_by_policy
    else if not (any (grants_to user_id roles) grants)
    then some not_granted
    else if tool_class =s "admin" && not (has "org_admin" roles)
    then some admin_only
    else if needs_step_up tool_class && not step_up_fresh
    then some step_up_required
    else none
