-- ===== src/Mcp/Registering.antt =====
-- What a registration keeps of the servers in application/services/registry.py of apps/mcp-gateway.
use bu_vi.Base.{
  not_both, ◌≡◌, refl, sym, ◌∙◌, ap, String, Bool, true, false, not, ◌&&◌, Option, none, some, List,
  [], ◌∷◌, ◌++◌, map, any, if◌then◌else◌, ◌=s◌, =s_iff, ok, err, Bool-cases, inl, inr,
}
use bu_vi.Mcp.ToolPolicy.{Problem, manifest_problems}
use bu_vi.Mcp.Registry.{
  RegistryError, ServerRow, ToolRow, AuditEvent, Registry, NewServer, has_token, new_tool,
  new_server, can_add, insert_server, manifest_or, endpoint_or, register, tools_of, Answer,
  without_secret,
}
use bu_vi.Mcp.Keeping.{status_of, is_known, Calm, calm, Calm-same}

tools_of-new :
    (id : String) (new : NewServer) (ds : List (String × String)) (ts : List ToolRow)
    → (new.id =s id) ≡ false
    → tools_of id (map (new_tool new) ds ++ ts) ≡ tools_of id ts
unfolding tools_of new_tool
tools_of-new id new [] ts e = refl
tools_of-new id new (d ∷ ds) ts e = rw e (tools_of-new id new ds ts e)

-- A server that is known does not have the id of one that can be added.
fresh :
    (id : String) (new : NewServer) (ss : List ServerRow)
    → any (λ s. s.id =s new.id) ss ≡ false
    → is_known id ss ≡ true
    → (new.id =s id) ≡ false
unfolding is_known
fresh id new ss none_has known = elim (Bool-cases (new.id =s id)) [
  | inr e ↦ e
  | inl e ↦
      let same : is_known id ss ≡ any (λ s. s.id =s new.id) ss =
        ap (λ k. any (λ s. s.id =s k) ss) (sym ((=s_iff new.id id).0 e)) in
      absurd (not_both known (same ∙ none_has))
]

pub status-known :
    (id st : String) (ss : List ServerRow) → status_of id ss ≡ some st → is_known id ss ≡ true
unfolding status_of is_known
status-known id st [] h = cc
status-known id st (s ∷ ss) h = elim (Bool-cases (s.id =s id)) [
  | inl e ↦ rw e refl
  | inr e ↦ rw e (status-known id st ss (rw e at h))
]

insert-Calm :
    (new : NewServer) (url user : String) (r : Registry) → Calm r (insert_server new url user r).1
unfolding insert_server can_add is_known status_of new_server
insert-Calm new url user r = by_row new.can_insert (any (λ s. s.id =s new.id) r.servers) refl
  where
    pending :
        (b : Bool) (o : Option String)
        → (if b then some "pending_approval" else o) ≡ some "approved"
        → o ≡ some "approved"
    pending true o h =
        let e : "pending_approval" ≡ "approved" = cc in
        absurd (not_both ((=s_iff "pending_approval" "approved").1 e) refl)
    pending false o h = h

    by_row :
        (can taken : Bool)
        → any (λ s. s.id =s new.id) r.servers ≡ taken
        → let added : Registry = record r {
          servers = new_server new url user ∷ r.servers;
          tools = map (new_tool new) new.tools ++ r.tools;
          audits = AuditEvent.server_registered new.id ∷ r.audits;
        } in
          let left : Registry = record r {
            secrets =
                if has_token new.auth_token && new.can_delete_secret
                then without_secret new.secret_ref r.secrets
                else r.secrets;
          } in
          let out : Answer =
            if can && not taken then (ok tt, added) else (err RegistryError.row_refused, left) in
          Calm r out.1
    by_row false taken e = Calm-same refl refl
    by_row true true e = Calm-same refl refl
    by_row true false e =
        calm
          (record {
            known = λ id h. rw (fresh id new r.servers e h) h;
            tools = λ id h. tools_of-new id new new.tools r.tools (fresh id new r.servers e h);
            rejection =
                λ id h. rw (fresh id new r.servers e (status-known id "rejected" r.servers h)) h;
          })
          (λ id h. pending (new.id =s id) (status_of id r.servers) h)

pub register-Calm :
    (new : NewServer) (user : String) (r : Registry) → Calm r (register new user r).1
unfolding register
register-Calm new user r = by_endpoint new.endpoint
  where
    with_secret :
        (given written : Bool) (url : String)
        → Calm r
            (if not given
              then insert_server new url user r
              else if written
              then insert_server new url user (record r { secrets = new.secret_ref ∷ r.secrets })
              else (err RegistryError.secret_store_unavailable, r)).1
    with_secret false written url = insert-Calm new url user r
    with_secret true false url = Calm-same refl refl
    with_secret true true url =
        shifted (insert-Calm new url user (record r { secrets = new.secret_ref ∷ r.secrets }))
      where
        shifted :
            {r' : Registry}
            → Calm (record r { secrets = new.secret_ref ∷ r.secrets }) r'
            → Calm r r'
        shifted (calm keeps back) =
            calm (record { known = keeps.known; tools = keeps.tools; rejection = keeps.rejection })
              back

    by_manifest : (url : String) (ps : List Problem) → Calm r (manifest_or new url user r ps).1
    by_manifest url (p ∷ ps) = Calm-same refl refl
    by_manifest url [] = with_secret (has_token new.auth_token) new.can_write_secret url

    by_endpoint : (o : Option String) → Calm r (endpoint_or new user r o).1
    by_endpoint none = Calm-same refl refl
    by_endpoint (some url) = by_manifest url (manifest_problems new.tools)
