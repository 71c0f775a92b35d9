-- ===== src/Mcp/Offering.antt =====
-- What the verification of application/services/registry.py of apps/mcp-gateway says of a live server.
use bu_vi.Base.{
  not_both, ◌≡◌, ◌≢◌, refl, sym, ◌∙◌, ap, String, Bool, true, false, not, ◌&&◌, none, some, List,
  [], ◌∷◌, ◌++◌, all, if◌then◌else◌, ◌=s◌, =s_iff, has, Bool-cases, Option-cases, inl, inr,
}
use bu_vi.Mcp.ToolPolicy.{
  Problem, not_offered, not_read_only, read_classes, DiscoveredTool, find_live, says_not_read_only,
  verify_tool, verification_problems,
}
use bu_vi.Mcp.Registry.{ToolRow, tools_of}

-- A tool that a live server offers under a declared name, the last one of that name, and that is not said
-- to change things where the declared class only reads.
pub record IsOffered (live : List DiscoveredTool) (name tool_class : String) : Type 0 where
  pub before : List DiscoveredTool
  pub tool : DiscoveredTool
  pub after : List DiscoveredTool
  pub offers : live ≡ before ++ tool ∷ after
  pub is_named : tool.name ≡ name
  pub ends_list : all (λ t. not (t.name =s name)) after ≡ true
  pub reads :
      has tool_class ("read_metadata" ∷ "read_data" ∷ "external_read" ∷ []) ≡ true
      → tool.read_only_hint ≢ some false

-- Every tool that a server declares is offered.
abbrev pub AllOffered : String → List DiscoveredTool → List ToolRow → Type 0
AllOffered id live [] = Unit
AllOffered id live (t ∷ ts) =
    (t.server_id ≡ id → IsOffered live t.tool_name t.tool_class) × AllOffered id live ts

-- Where the entry of a name comes from.
record Found (name : String) (live : List DiscoveredTool) (tool : DiscoveredTool) : Type 0 where
  before : List DiscoveredTool
  after : List DiscoveredTool
  splits : live ≡ before ++ tool ∷ after
  is_named : tool.name ≡ name
  ends_list : all (λ t. not (t.name =s name)) after ≡ true

find_live-none :
    (name : String) (live : List DiscoveredTool)
    → find_live name live ≡ none
    → all (λ t. not (t.name =s name)) live ≡ true
unfolding find_live
find_live-none name [] h = refl
find_live-none name (t ∷ ts) h = elim (Option-cases (find_live name ts)) [
  | inr (later, e) ↦ absurd (some_not_none (rw e at h))
  | inl e ↦ elim (Bool-cases (t.name =s name)) [
    | inl f ↦ absurd (some_not_none (rw (e, f) at h))
    | inr f ↦ rw f (find_live-none name ts e)
  ]
]
  where
    some_not_none : {x : DiscoveredTool} → some x ≡ none → ⊥
    some_not_none h = cc

find_live-Found :
    (name : String) (live : List DiscoveredTool) (tool : DiscoveredTool)
    → find_live name live ≡ some tool
    → Found name live tool
unfolding find_live
find_live-Found name [] tool h = cc
find_live-Found name (t ∷ ts) tool h = elim (Option-cases (find_live name ts)) [
  | inr (later, e) ↦
      let same : later ≡ tool = unwrapped (rw e at h) in
      let f = find_live-Found name ts tool (e ∙ ap some same) in
      record {
        before = t ∷ f.before;
        after = f.after;
        splits = ap (λ xs. t ∷ xs) f.splits;
        is_named = f.is_named;
        ends_list = f.ends_list;
      }
  | inl e ↦ elim (Bool-cases (t.name =s name)) [
    | inr f ↦ absurd (none_not_some (rw (e, f) at h))
    | inl f ↦
        let same : t ≡ tool = unwrapped (rw (e, f) at h) in
        record {
          before = [];
          after = ts;
          splits = ap (λ x. x ∷ ts) same;
          is_named = ap (λ x. x.name) (sym same) ∙ (=s_iff t.name name).0 f;
          ends_list = find_live-none name ts e;
        }
  ]
]
  where
    unwrapped : {x y : DiscoveredTool} → some x ≡ some y → x ≡ y
    unwrapped h = cc

    none_not_some : {x : DiscoveredTool} → none ≡ some x → ⊥
    none_not_some h = cc

reads-unless :
    (reads : Bool) (tool : DiscoveredTool) (name : String)
    → (if reads && says_not_read_only tool then not_read_only name ∷ [] else []) ≡ []
    → reads ≡ true
    → tool.read_only_hint ≢ some false
reads-unless reads tool name h r e = cons_not_nil (rw (r, e) at h)
  where
    cons_not_nil : not_read_only name ∷ [] ≡ [] → ⊥
    cons_not_nil h = cc

verify_tool-IsOffered :
    (live : List DiscoveredTool) (name tool_class : String)
    → verify_tool live (name, tool_class) ≡ []
    → IsOffered live name tool_class
unfolding verify_tool
verify_tool-IsOffered live name tool_class h = elim (Option-cases (find_live name live)) [
  | inl e ↦ absurd (cons_not_nil (rw (e, verify_tool) at h))
  | inr (tool, e) ↦
      let f = find_live-Found name live tool e in
      record {
        before = f.before;
        tool = tool;
        after = f.after;
        offers = f.splits;
        is_named = f.is_named;
        ends_list = f.ends_list;
        reads = reads-unless (has tool_class read_classes) tool name (rw (e, verify_tool) at h);
      }
]
  where
    cons_not_nil : not_offered name ∷ [] ≡ [] → ⊥
    cons_not_nil h = cc

append-nil : (xs ys : List Problem) → xs ++ ys ≡ [] → (xs ≡ []) × (ys ≡ [])
append-nil [] ys h = (refl, h)
append-nil (x ∷ xs) ys h = cc

-- A manifest without a problem is offered as a whole.
pub verification_problems-AllOffered :
    (id : String) (live : List DiscoveredTool) (ts : List ToolRow)
    → verification_problems (tools_of id ts) live ≡ []
    → AllOffered id live ts
unfolding verification_problems tools_of
verification_problems-AllOffered id live [] h = tt
verification_problems-AllOffered id live (t ∷ ts) h = elim (Bool-cases (t.server_id =s id)) [
  | inl e ↦
      let (first, rest) = append-nil (verify_tool live (t.tool_name, t.tool_class)) _ (rw e at h) in
      (
        λ own. verify_tool-IsOffered live t.tool_name t.tool_class first,
        verification_problems-AllOffered id live ts rest,
      )
  | inr e ↦ (λ own. absurd (apart own e), verification_problems-AllOffered id live ts (rw e at h))
]
  where
    apart : t.server_id ≡ id → (t.server_id =s id) ≡ false → ⊥
    apart own e = not_both ((=s_iff t.server_id id).1 own) e
