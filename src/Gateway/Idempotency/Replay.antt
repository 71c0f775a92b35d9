-- ===== src/Gateway/Idempotency/Replay.antt =====
-- What a retry of a finished request meets.
use bu_vi.Base.{
  ℕ, ◌+◌, ◌≤◌, ◌<◌, ◌≡◌, refl, String, Bool, true, false, none, some, List, arith, all, length, ap,
  ◌∙◌, =s_refl, Result, ok, ltb,
}
use bu_vi.Gateway.Idempotency.Records.{
  pending, Rows, get_row, complete_script, release_script, is_held_by, is_final,
}
use bu_vi.Gateway.Idempotency.Guard.{
  Guard, active, replaying, Response, BeginError, truthy, answer, begin_at, finish, completed_row,
}
use bu_vi.Gateway.Idempotency.Exclusion.{
  Holds, get_row-kept, set_row-same, begin_at-found, begin_at-Holds, Event, run, run-Holds,
  is_foreign,
}

-- The holder's own scripts find its record.
held-by :
    (key fp token : String) (until now : ℕ) (rows : Rows)
    → Holds key fp token until rows
    → now < until
    → is_held_by token (get_row rows now key) ≡ true
held-by key fp token until now rows h before =
    rw (get_row-kept rows key (record { row = pending fp token; expires_at = until }) now h before)
      (=s_refl token)

finish-row :
    (key fp token : String) (until now : ℕ) (rows : Rows) (r : Response) (ttl max : ℕ)
    (store_body : Bool)
    → Holds key fp token until rows
    → now < until
    → is_final r.status_code ≡ true
    → finish (some now) (active key token fp store_body) r ttl max rows key
      ≡ some (record { row = completed_row fp store_body max r; expires_at = now + ttl })
unfolding finish complete_script
finish-row key fp token until now rows r ttl max store_body h before final =
    rw (final, held-by key fp token until now rows h before) (set_row-same rows key _)

answer-completed_row :
    (fp : String) (max : ℕ) (r : Response)
    → r.set_cookie ≡ false
    → length r.body ≤ max
    → answer fp (completed_row fp true max r)
      ≡ ok (
          replaying (record {
            status_code = r.status_code;
            content_type = truthy r.content_type;
            set_cookie = false;
            replayed = true;
            body = r.body;
          }))
unfolding answer completed_row
answer-completed_row fp max r plain short =
    let small : ltb max (length r.body) ≡ false = ground arith in rw (=s_refl fp, plain, small) refl

-- A request on a route with replays that starts, and then any events of other requests while its
-- lock lasts: if it finishes in that time with a final response that sets no cookie and
-- whose body is not too long, then a request with the same key and fingerprint gets that response
-- again, marked as replayed, for as long as the record lasts, and changes no record.
pub finish-begin_at :
    (start : ℕ) (key fp token : String) (lock_ms : ℕ) (rows rows' : Rows) (es : List Event)
    (now : ℕ) (r : Response) (ttl max later : ℕ) (token' : String) (store_body' : Bool)
    (lock_ms' : ℕ)
    → begin_at start key fp token true lock_ms rows ≡ (ok (active key token fp true), rows')
    → all (is_foreign key token (start + lock_ms)) es ≡ true
    → now < start + lock_ms
    → is_final r.status_code ≡ true
    → r.set_cookie ≡ false
    → length r.body ≤ max
    → later < now + ttl
    → begin_at later key fp token' store_body' lock_ms'
        (finish (some now) (active key token fp true) r ttl max (run es rows'))
      ≡ (
        ok (
            replaying (record {
              status_code = r.status_code;
              content_type = truthy r.content_type;
              set_cookie = false;
              replayed = true;
              body = r.body;
            })),
        finish (some now) (active key token fp true) r ttl max (run es rows'),
      )
finish-begin_at start key fp token lock_ms rows rows' es now r ttl max later token' store_body'
      lock_ms' started others before final plain short soon =
    let held =
      run-Holds key fp token (start + lock_ms) es rows' others
        (begin_at-Holds start key fp token true lock_ms rows rows' started) in
    let after = finish (some now) (active key token fp true) r ttl max (run es rows') in
    let kept =
      finish-row key fp token (start + lock_ms) now (run es rows') r ttl max true held before
        final in
    let found =
      get_row-kept after key (record { row = completed_row fp true max r; expires_at = now + ttl })
        later kept soon in
    begin_at-found later key fp token' store_body' lock_ms' after (completed_row fp true max r)
      found
    ∙ ap (λ (q : Result BeginError Guard). (q, after)) (answer-completed_row fp max r plain short)

-- A request whose response is not final gives its key back: the key has no record afterwards.
pub finish-released :
    (key fp token : String) (store_body : Bool) (until now : ℕ) (rows : Rows) (r : Response)
    (ttl max : ℕ)
    → Holds key fp token until rows
    → now < until
    → is_final r.status_code ≡ false
    → finish (some now) (active key token fp store_body) r ttl max rows key ≡ none
unfolding finish release_script
finish-released key fp token store_body until now rows r ttl max h before retry =
    rw (retry, held-by key fp token until now rows h before) (set_row-same rows key none)
