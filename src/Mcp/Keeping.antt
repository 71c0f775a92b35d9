-- ===== src/Mcp/Keeping.antt =====
-- What a change of status keeps of the servers in application/services/registry.py of apps/mcp-gateway.
use bu_vi.Base.{
  not_both, ◌≡◌, refl, sym, ◌∙◌, ap, String, Bool, true, false, ◌&&◌, ◌||◌, Option, none, some,
  List, [], ◌∷◌, any, if◌then◌else◌, ◌=s◌, =s_iff, has, Bool-cases, inl, inr,
}
use bu_vi.Mcp.Registry.{
  ServerRow, Registry, find_server, is_movable, or_same, move_row, can_move, transition, tools_of,
  moved_or, change, known_or_missing, move,
}

unfoldable pub status_of : String → List ServerRow → Option String
status_of id [] = none
status_of id (s ∷ ss) = if s.id =s id then some s.status else status_of id ss

abbrev pub moved_status : String → String → List String → String → Option String → Option String
moved_status k id from to none = none
moved_status k id from to (some st) = some (if k =s id && has st from then to else st)

unfoldable pub is_known : String → List ServerRow → Bool
is_known id ss = any (λ s. s.id =s id) ss

moved_id :
    (id : String) (from : List String) (to : String) (by : Option String) (s : ServerRow)
    → (move_row id from to by s).id ≡ s.id
unfolding move_row
moved_id id from to by s = by_test (is_movable id from s)
  where
    by_test :
        (b : Bool)
        → (if b then record s { status = to; approved_by = or_same by s.approved_by } else s).id
          ≡ s.id
    by_test true = refl
    by_test false = refl

moved-status :
    (id : String) (from : List String) (to : String) (by : Option String) (s : ServerRow)
    → (move_row id from to by s).status ≡ (if s.id =s id && has s.status from then to else s.status)
unfolding move_row is_movable
moved-status id from to by s = by_test (s.id =s id && has s.status from)
  where
    by_test :
        (b : Bool)
        → (if b then record s { status = to; approved_by = or_same by s.approved_by } else s).status
          ≡ (if b then to else s.status)
    by_test true = refl
    by_test false = refl

pub transition-status :
    (k id : String) (from : List String) (to : String) (by : Option String) (ss : List ServerRow)
    → status_of k (transition id from to by ss) ≡ moved_status k id from to (status_of k ss)
unfolding transition status_of
transition-status k id from to by [] = refl
transition-status k id from to by (s ∷ ss) = elim (Bool-cases (s.id =s k)) [
  | inl e ↦
      rw (moved_id, e, moved-status)
        (ap (λ x. some (if x =s id && has s.status from then to else s.status))
          ((=s_iff s.id k).0 e))
  | inr e ↦ rw (moved_id, e) (transition-status k id from to by ss)
]

pub transition-known :
    (k id : String) (from : List String) (to : String) (by : Option String) (ss : List ServerRow)
    → is_known k (transition id from to by ss) ≡ is_known k ss
unfolding transition is_known
transition-known k id from to by [] = refl
transition-known k id from to by (s ∷ ss) =
    rw (moved_id) (ap (λ x. s.id =s k || x) (transition-known k id from to by ss))

-- What every change of the rows keeps: the servers, their tools, and a rejection.
pub record Keeps (r r' : Registry) : Type 0 where
  pub known : (id : String) → is_known id r.servers ≡ true → is_known id r'.servers ≡ true
  pub tools :
      (id : String) → is_known id r.servers ≡ true → tools_of id r'.tools ≡ tools_of id r.tools
  pub rejection :
      (id : String)
      → status_of id r.servers ≡ some "rejected"
      → status_of id r'.servers ≡ some "rejected"

-- A change that approves nothing.
pub data Calm (r r' : Registry) : Type 0 where
  calm :
      Keeps r r'
      → ((id : String)
          → status_of id r'.servers ≡ some "approved"
          → status_of id r.servers ≡ some "approved")
      → Calm r r'

pub Keeps-same : {r r' : Registry} → r'.servers ≡ r.servers → r'.tools ≡ r.tools → Keeps r r'
Keeps-same s t = record {
  known = λ id h. rw s h;
  tools = λ id h. rw t refl;
  rejection = λ id h. rw s h;
}

pub Calm-same : {r r' : Registry} → r'.servers ≡ r.servers → r'.tools ≡ r.tools → Calm r r'
Calm-same s t = calm (Keeps-same s t) (λ id h. rw s at h)

pub change-Keeps :
    (id : String) (from : List String) (before to : String) (by : Option String) (r : Registry)
    → has "rejected" from ≡ false
    → Keeps r (change id from before to by r).1
unfolding change
change-Keeps id from before to by r final = by_rows (can_move id from r.servers)
  where
    stays : (k : String) → moved_status k id from to (some "rejected") ≡ some "rejected"
    stays k = rw final (by_test (k =s id))
      where
        by_test : (b : Bool) → some (if b && false then to else "rejected") ≡ some "rejected"
        by_test true = refl
        by_test false = refl

    by_rows : (b : Bool) → Keeps r (moved_or id from before to by r b).1
    by_rows false = Keeps-same refl refl
    by_rows true = record {
      known = λ k h. rw (transition-known k id from to by r.servers) h;
      tools = λ k h. refl;
      rejection = λ k h. rw (transition-status k id from to by r.servers, h) (stays k);
    }

change-Calm :
    (id : String) (from : List String) (before to : String) (by : Option String) (r : Registry)
    → has "rejected" from ≡ false
    → (to =s "approved") ≡ false
    → Calm r (change id from before to by r).1
unfolding change
change-Calm id from before to by r final other =
    calm (change-Keeps id from before to by r final) (by_rows (can_move id from r.servers))
  where
    back :
        (b : Bool) (st : String)
        → some (if b then to else st) ≡ some "approved"
        → some st ≡ some "approved"
    back true st h =
        let e : to ≡ "approved" = cc in absurd (not_both ((=s_iff to "approved").1 e) other)
    back false st h = h

    by_status :
        (k : String) (o : Option String)
        → moved_status k id from to o ≡ some "approved"
        → o ≡ some "approved"
    by_status k none h = h
    by_status k (some st) h = back (k =s id && has st from) st h

    by_rows :
        (b : Bool) (k : String)
        → status_of k (moved_or id from before to by r b).1.servers ≡ some "approved"
        → status_of k r.servers ≡ some "approved"
    by_rows false k h = h
    by_rows true k h =
        by_status k (status_of k r.servers) (sym (transition-status k id from to by r.servers) ∙ h)

pub move-Calm :
    (id : String) (from : List String) (to : String) (r : Registry)
    → has "rejected" from ≡ false
    → (to =s "approved") ≡ false
    → Calm r (move id from to r).1
unfolding move
move-Calm id from to r final other = by_server (find_server id r.servers)
  where
    by_server : (o : Option ServerRow) → Calm r (known_or_missing id from to r o).1
    by_server none = Calm-same refl refl
    by_server (some s) = change-Calm id from s.status to none r final other
