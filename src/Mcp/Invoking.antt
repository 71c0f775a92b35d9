-- ===== src/Mcp/Invoking.antt =====
-- Who may invoke a tool, and which manifests pass.
use bu_vi.Base.{
  ◌≤◌, ◌<◌, ◌≡◌, ◌↔◌, refl, String, Bool, true, false, not, ◌&&◌, ◌||◌, none, some, List, [], ◌∷◌,
  ◌++◌, arith, ltb, ◌=s◌, has, any, length, codes, =s_iff,
}
use bu_vi.Mcp.ToolPolicy.{
  denial, needs_step_up, GrantRef, grants_to, step_up_required, manifest_loop, name_problems,
  class_problems, manifest_problems, tool_classes, max_tools, valid_tool_name, DiscoveredTool,
  find_live, verify_tool, verification_problems, read_classes, says_not_read_only,
}

-- A caller may invoke a tool exactly when the server is approved, the policy is `require_grant`, a
-- grant names the caller or a role of the caller, an `admin` tool has an `org_admin` as its caller,
-- and for a `write` or an `admin` tool the step-up is fresh.
pub denial-none_iff :
    (server_status tool_class policy : String) (grants : List GrantRef) (user_id : String)
    (roles : List String) (fresh : Bool)
    → (denial server_status tool_class policy grants user_id roles fresh ≡ none) ↔ (
        (server_status ≡ "approved")
        × (policy ≡ "require_grant")
        × (any (grants_to user_id roles) grants ≡ true)
        × ((not (tool_class =s "admin") || has "org_admin" roles) ≡ true)
        × ((not (tool_class =s "write" || tool_class =s "admin") || fresh) ≡ true))
unfolding denial needs_step_up has
denial-none_iff server_status tool_class policy grants user_id roles fresh = (
  λ h. ground (arith, =s_iff server_status "approved", =s_iff policy "require_grant"),
  λ h. ground (arith, =s_iff server_status "approved", =s_iff policy "require_grant"),
)

-- A caller is asked for a step-up only where a fresh one would let the tool be invoked.
pub denial-step_up :
    (server_status tool_class policy : String) (grants : List GrantRef) (user_id : String)
    (roles : List String) (fresh : Bool)
    → denial server_status tool_class policy grants user_id roles fresh ≡ some step_up_required
    → (fresh ≡ false) × (denial server_status tool_class policy grants user_id roles true ≡ none)
unfolding denial
denial-step_up server_status tool_class policy grants user_id roles fresh h = ground arith

-- What a manifest must be: each tool's name valid and not seen before, each class known.
abbrev pub GoodManifest : List String → List (String × String) → Type 0
GoodManifest seen [] = Unit
GoodManifest seen ((name, tool_class) ∷ declared) =
    (valid_tool_name (codes name) ≡ true)
    × (has name seen ≡ false)
    × (has tool_class tool_classes ≡ true)
    × GoodManifest (name ∷ seen) declared

append-nil_parts : {A : Type 0} (xs ys : List A) → xs ++ ys ≡ [] → (xs ≡ []) × (ys ≡ [])
append-nil_parts [] ys h = (refl, h)
append-nil_parts (x ∷ xs) ys h = cc

name_problems-parts :
    (seen : List String) (name : String)
    → name_problems seen name ≡ []
    → (valid_tool_name (codes name) ≡ true) × (has name seen ≡ false)
unfolding name_problems
name_problems-parts seen name h = ground arith

class_problems-known :
    (name tool_class : String)
    → class_problems name tool_class ≡ []
    → has tool_class tool_classes ≡ true
unfolding class_problems
class_problems-known name tool_class h = ground arith

manifest_loop_sound :
    (seen : List String) (declared : List (String × String))
    → manifest_loop seen declared ≡ []
    → GoodManifest seen declared
unfolding manifest_loop
manifest_loop_sound seen [] h = tt
manifest_loop_sound seen ((name, tool_class) ∷ declared) h =
    let a =
      append-nil_parts (name_problems seen name)
        (class_problems name tool_class ++ manifest_loop (name ∷ seen) declared) h in
    let b =
      append-nil_parts (class_problems name tool_class) (manifest_loop (name ∷ seen) declared)
        a.1 in
    let n = name_problems-parts seen name a.0 in
    (
      n.0,
      n.1,
      class_problems-known name tool_class b.0,
      manifest_loop_sound (name ∷ seen) declared b.1,
    )

manifest_loop_complete :
    (seen : List String) (declared : List (String × String))
    → GoodManifest seen declared
    → manifest_loop seen declared ≡ []
unfolding manifest_loop name_problems class_problems
manifest_loop_complete seen [] h = refl
manifest_loop_complete seen ((name, tool_class) ∷ declared) h =
    rw (h.0, h.1, h.2) (manifest_loop_complete (name ∷ seen) declared h.3)

-- A declared manifest passes exactly when it has at least one tool and at most a hundred, every
-- tool's name is valid and stands in it once, and every tool's class is known.
pub manifest_problems-nil_iff :
    (declared : List (String × String))
    → (manifest_problems declared ≡ [])
      ↔ ((0 < length declared) × (length declared ≤ max_tools) × GoodManifest [] declared)
unfolding manifest_problems
manifest_problems-nil_iff [] = (λ h. cc, λ h. absurd (omega arith))
manifest_problems-nil_iff (d ∷ ds) = (
  λ h.
      let small : ltb max_tools (length (d ∷ ds)) ≡ false = ground arith in
      (omega arith, ground arith, manifest_loop_sound [] (d ∷ ds) (rw small at h)),
  λ h.
      let small : ltb max_tools (length (d ∷ ds)) ≡ false = ground arith in
      rw small (manifest_loop_complete [] (d ∷ ds) h.2),
)

-- The live server offers the tool, and does not mark it as not read-only if its class is a reading
-- one.
abbrev pub Confirmed : List DiscoveredTool → String × String → Type 0
Confirmed live (name, tool_class) =
    (t : DiscoveredTool) × (find_live name live ≡ some t)
    × ((has tool_class read_classes && says_not_read_only t) ≡ false)

abbrev pub AllConfirmed : List DiscoveredTool → List (String × String) → Type 0
AllConfirmed live [] = Unit
AllConfirmed live (d ∷ ds) = Confirmed live d × AllConfirmed live ds

verify_tool_sound :
    (live : List DiscoveredTool) (d : String × String) → verify_tool live d ≡ [] → Confirmed live d
unfolding verify_tool
verify_tool_sound live (name, tool_class) h = ground arith

verify_tool_complete :
    (live : List DiscoveredTool) (d : String × String) → Confirmed live d → verify_tool live d ≡ []
unfolding verify_tool
verify_tool_complete live (name, tool_class) h = ground arith

problems_sound :
    (live : List DiscoveredTool) (ds : List (String × String))
    → verification_problems ds live ≡ []
    → AllConfirmed live ds
unfolding verification_problems
problems_sound live [] h = tt
problems_sound live (d ∷ ds) h =
    let (here, rest) = append-nil_parts _ _ h in
    (verify_tool_sound live d here, problems_sound live ds rest)

problems_complete :
    (live : List DiscoveredTool) (ds : List (String × String))
    → AllConfirmed live ds
    → verification_problems ds live ≡ []
unfolding verification_problems
problems_complete live [] h = refl
problems_complete live (d ∷ ds) h =
    rw (verify_tool_complete live d h.0) (problems_complete live ds h.1)

-- A declared manifest is verified exactly when the live server offers every declared tool and marks
-- none of those declared with a reading class as not read-only.
pub verification_problems-nil_iff :
    (declared : List (String × String)) (live : List DiscoveredTool)
    → (verification_problems declared live ≡ []) ↔ AllConfirmed live declared
verification_problems-nil_iff declared live =
    (problems_sound live declared, problems_complete live declared)
