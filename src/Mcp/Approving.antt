-- ===== src/Mcp/Approving.antt =====
-- The life of a server in application/services/registry.py of apps/mcp-gateway, with approvals that wait for
-- live servers while other requests go on.
use bu_vi.Base.{◌≡◌, String, some, List, [], ◌∷◌, ◌⊎◌}
use bu_vi.Mcp.Requests.{Request, System, handle, after_all}
use bu_vi.Mcp.Keeping.{status_of}
use bu_vi.Mcp.UnderWay.{IsReady, IsVerified, handle-Follows, handle-IsReady}

abbrev pub no_servers : System
no_servers = record {
  registry = record { servers = []; tools = []; grants = []; secrets = []; audits = [] };
  under_way = [];
}

after_all-IsReady : (qs : List Request) (s : System) → IsReady s → IsReady (after_all qs s)
unfolding after_all
after_all-IsReady [] s ready = ready
after_all-IsReady (q ∷ qs) s ready = after_all-IsReady qs (handle q s) (handle-IsReady q s ready)

-- After any requests, in which registrations, approvals, their live servers' answers, disabling,
-- rejections and grants come in any order, a request that turns a server approved is the end of an
-- approval, and the live server then offered every tool that the server declares, and said of none
-- that is declared to read only that it does not.
pub handle-approves :
    (qs : List Request) (q : Request) (id : String)
    → status_of id (handle q (after_all qs no_servers)).registry.servers ≡ some "approved"
    → (status_of id (after_all qs no_servers).registry.servers ≡ some "approved")
      ⊎ IsVerified q (after_all qs no_servers) id
handle-approves qs q id h =
    (handle-Follows q (after_all qs no_servers) (after_all-IsReady qs no_servers tt)).approves id h

rejected-later :
    (id : String) (qs : List Request) (s : System)
    → IsReady s
    → status_of id s.registry.servers ≡ some "rejected"
    → status_of id (after_all qs s).registry.servers ≡ some "rejected"
unfolding after_all
rejected-later id [] s ready h = h
rejected-later id (q ∷ qs) s ready h =
    rejected-later id qs (handle q s) (handle-IsReady q s ready)
      ((handle-Follows q s ready).keeps.rejection id h)

-- A rejected server stays rejected, whatever requests come after, the answers of approvals that began
-- before the rejection among them.
pub after_all-rejected :
    (before later : List Request) (id : String)
    → status_of id (after_all before no_servers).registry.servers ≡ some "rejected"
    → status_of id (after_all later (after_all before no_servers)).registry.servers
      ≡ some "rejected"
after_all-rejected before later id h =
    rejected-later id later (after_all before no_servers) (after_all-IsReady before no_servers tt) h
