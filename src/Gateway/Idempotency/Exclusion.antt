-- ===== src/Gateway/Idempotency/Exclusion.antt =====
-- While a request holds its key, no other request with that key starts.
use bu_vi.Base.{
  ℕ, ◌+◌, ◌<◌, ◌≡◌, refl, String, Bool, true, false, not, ◌&&◌, ◌||◌, Option, none, some, List, [],
  ◌∷◌, arith, ltb, if◌then◌else◌, ◌=s◌, =s_refl, =s_iff, =s_sym, ◌∙◌, all, Bool-cases, Option-cases,
  inl, inr, Result, ok, err, ◌≢◌, ap, sym,
}
use bu_vi.Gateway.Idempotency.Records.{
  Row, pending, Kept, Rows, get_row, set_row, begin_script, release_script, complete_script,
  is_held_by, is_final, completed,
}
use bu_vi.Gateway.Idempotency.Guard.{
  Guard, inactive, active, replaying, Response, BeginError, key_reused, in_progress, answer,
  begin_at, abandon, finish, completed_row,
}

-- What the requests of all replicas do to the store, each at its time.
pub data Event : Type 0 where
  begins : (now : ℕ) (key fp token : String) (store_body : Bool) (lock_ms : ℕ) → Event
  finishes : (now : ℕ) → Guard → Response → (ttl_ms max_body_bytes : ℕ) → Event
  abandons : (now : ℕ) → Guard → Event

unfoldable pub step : Event → Rows → Rows
step (begins now key fp token store_body lock_ms) rows =
    (begin_at now key fp token store_body lock_ms rows).1
step (finishes now guard response ttl_ms max_body_bytes) rows =
    finish (some now) guard response ttl_ms max_body_bytes rows
step (abandons now guard) rows = abandon (some now) guard rows

unfoldable pub run : List Event → Rows → Rows
run [] rows = rows
run (e ∷ es) rows = run es (step e rows)

-- The guard is of another key, or was started with another token.
abbrev pub is_other : String → String → Guard → Bool
is_other key token (active k t fp store_body) = not (k =s key) || not (t =s token)
is_other key token inactive = true
is_other key token (replaying response) = true

-- The event is before the time, and is not an end of the request that holds the key.
abbrev pub is_foreign : String → String → ℕ → Event → Bool
is_foreign key token before (begins now k fp t store_body lock_ms) = ltb now before
is_foreign key token before (finishes now guard response ttl_ms max_body_bytes) =
    ltb now before && is_other key token guard
is_foreign key token before (abandons now guard) = ltb now before && is_other key token guard

-- The request with this token holds the key until the time.
abbrev pub Holds : String → String → String → ℕ → Rows → Type 0
Holds key fp token until rows =
    rows key ≡ some (record { row = pending fp token; expires_at = until })

pub get_row-kept :
    (rows : Rows) (key : String) (k : Kept) (now : ℕ)
    → rows key ≡ some k
    → now < k.expires_at
    → get_row rows now key ≡ some k.row
unfolding get_row
get_row-kept rows key k now h before = rw (h, get_row) (ground arith)

pub set_row-same : (rows : Rows) (key : String) (k : Option Kept) → set_row rows key k key ≡ k
unfolding set_row
set_row-same rows key k = rw (=s_refl key)

set_row-other :
    (rows : Rows) (key other : String) (k : Option Kept)
    → (key =s other) ≡ false
    → set_row rows key k other ≡ rows other
unfolding set_row
set_row-other rows key other k h = rw h

begin_script-Holds :
    (key fp token : String) (until : ℕ) (now : ℕ) (k : String) (row : Row) (lock_ms : ℕ)
    (rows : Rows)
    → Holds key fp token until rows
    → now < until
    → Holds key fp token until (begin_script now k row lock_ms rows).1
unfolding begin_script
begin_script-Holds key fp token until now k row lock_ms rows h before =
    elim (Bool-cases (k =s key)) [
      | inl same ↦
          let e : k ≡ key = (=s_iff k key).0 same in
          let found : get_row rows now k ≡ some (pending fp token) = rw e (
            get_row-kept rows key (record { row = pending fp token; expires_at = until }) now h
              before) in
          rw (found, begin_script) h
      | inr other ↦ elim (Option-cases (get_row rows now k)) [
        | inl e ↦ rw (e, begin_script) (set_row-other rows k key _ other ∙ h)
        | inr (r, e) ↦ rw (e, begin_script) h
      ]
    ]

Holds-if :
    (key fp token : String) (until : ℕ) (b : Bool) (new old : Rows)
    → (b ≡ true → Holds key fp token until new)
    → Holds key fp token until old
    → Holds key fp token until (if b then new else old)
Holds-if key fp token until true new old n o = n refl
Holds-if key fp token until false new old n o = o

ended-Holds :
    (key fp token : String) (until : ℕ) (now : ℕ) (k t : String) (v : Option Kept) (rows : Rows)
    → Holds key fp token until rows
    → now < until
    → (not (k =s key) || not (t =s token)) ≡ true
    → Holds key fp token until
        (if is_held_by t (get_row rows now k) then set_row rows k v else rows)
ended-Holds key fp token until now k t v rows h before other =
    Holds-if key fp token until (is_held_by t (get_row rows now k)) (set_row rows k v) rows
      (λ held. set_row-other rows k key v (foreign_key held) ∙ h) h
  where
    foreign_key : is_held_by t (get_row rows now k) ≡ true → (k =s key) ≡ false
    foreign_key held = elim (Bool-cases (k =s key)) [
      | inl same ↦
          let e : k ≡ key = (=s_iff k key).0 same in
          let found : get_row rows now k ≡ some (pending fp token) = rw e (
            get_row-kept rows key (record { row = pending fp token; expires_at = until }) now h
              before) in
          let mine : (token =s t) ≡ true = rw found at held in
          absurd (ground (arith, =s_sym t token))
      | inr differs ↦ differs
    ]

step-Holds :
    (key fp token : String) (until : ℕ) (e : Event) (rows : Rows)
    → is_foreign key token until e ≡ true
    → Holds key fp token until rows
    → Holds key fp token until (step e rows)
unfolding step begin_at finish abandon release_script complete_script
step-Holds key fp token until (begins now k f t sb lock) rows other h =
    begin_script-Holds key fp token until now k (pending f t) lock rows h (ground arith)
step-Holds key fp token until (finishes now inactive r ttl max) rows other h = h
step-Holds key fp token until (finishes now (replaying q) r ttl max) rows other h = h
step-Holds key fp token until (finishes now (active k t f sb) r ttl max) rows other h =
    Holds-if key fp token until (not (is_final r.status_code)) _ _
      (λ _. ended-Holds key fp token until now k t none rows h (ground arith) (ground arith))
      (ended-Holds key fp token until now k t
        (some (record { row = completed_row f sb max r; expires_at = now + ttl })) rows h
        (ground arith) (ground arith))
step-Holds key fp token until (abandons now inactive) rows other h = h
step-Holds key fp token until (abandons now (replaying q)) rows other h = h
step-Holds key fp token until (abandons now (active k t f sb)) rows other h =
    ended-Holds key fp token until now k t none rows h (ground arith) (ground arith)

pub run-Holds :
    (key fp token : String) (until : ℕ) (es : List Event) (rows : Rows)
    → all (is_foreign key token until) es ≡ true
    → Holds key fp token until rows
    → Holds key fp token until (run es rows)
unfolding run
run-Holds key fp token until [] rows other h = h
run-Holds key fp token until (e ∷ es) rows other h =
    run-Holds key fp token until es (step e rows) (ground arith)
      (step-Holds key fp token until e rows (ground arith) h)

pub begin_at-found :
    (now : ℕ) (key fp token : String) (store_body : Bool) (lock_ms : ℕ) (rows : Rows) (r : Row)
    → get_row rows now key ≡ some r
    → begin_at now key fp token store_body lock_ms rows ≡ (answer fp r, rows)
unfolding begin_at begin_script answer
begin_at-found now key fp token store_body lock_ms rows r e = rw (begin_script, e) refl

begin_at-free :
    (now : ℕ) (key fp token : String) (store_body : Bool) (lock_ms : ℕ) (rows : Rows)
    → get_row rows now key ≡ none
    → (begin_at now key fp token store_body lock_ms rows).1
      ≡ set_row rows key (some (record { row = pending fp token; expires_at = now + lock_ms }))
unfolding begin_at begin_script set_row
begin_at-free now key fp token store_body lock_ms rows e = rw (begin_script, e) refl

answer-not_active :
    (fp : String) (r : Row) (key f token : String) (store_body : Bool)
    → answer fp r ≢ ok (active key f token store_body)
unfolding answer
answer-not_active fp (pending other t) key f token store_body h = ground arith
answer-not_active fp (completed other response) key f token store_body h = ground arith

-- A request that starts holds its key for the time of the lock.
pub begin_at-Holds :
    (now : ℕ) (key fp token : String) (store_body : Bool) (lock_ms : ℕ) (rows rows' : Rows)
    → begin_at now key fp token store_body lock_ms rows
      ≡ (ok (active key token fp store_body), rows')
    → Holds key fp token (now + lock_ms) rows'
begin_at-Holds now key fp token store_body lock_ms rows rows' h =
    elim (Option-cases (get_row rows now key)) [
      | inl e ↦
          ap (λ (p : Result BeginError Guard × Rows). p.1 key) (sym h)
          ∙ ap (λ (k : Rows). k key) (begin_at-free now key fp token store_body lock_ms rows e)
          ∙ set_row-same rows key _
      | inr (r, e) ↦ absurd (
          answer-not_active fp r key token fp store_body (
            ap (λ (p : Result BeginError Guard × Rows). p.0)
              (sym (begin_at-found now key fp token store_body lock_ms rows r e) ∙ h)))
    ]

answer-pending :
    (fp other token : String)
    → answer fp (pending other token) ≡ err (if other =s fp then in_progress else key_reused)
unfolding answer
answer-pending fp other token = ground arith

-- A request that started, and then any events of other requests before its lock ends: they begin
-- with any keys, and they finish and abandon with other tokens or keys. A request that comes then
-- with the same key does not start: it is told that the key is in progress, or reused if its
-- fingerprint is another one.
pub begin_at-exclusive :
    (now : ℕ) (key fp token : String) (store_body : Bool) (lock_ms : ℕ) (rows rows' : Rows)
    (es : List Event) (later : ℕ) (fp' token' : String) (store_body' : Bool) (lock_ms' : ℕ)
    → begin_at now key fp token store_body lock_ms rows
      ≡ (ok (active key token fp store_body), rows')
    → all (is_foreign key token (now + lock_ms)) es ≡ true
    → later < now + lock_ms
    → begin_at later key fp' token' store_body' lock_ms' (run es rows')
      ≡ (err (if fp =s fp' then in_progress else key_reused), run es rows')
begin_at-exclusive now key fp token store_body lock_ms rows rows' es later fp' token' store_body'
      lock_ms' started others early =
    let held =
      run-Holds key fp token (now + lock_ms) es rows' others
        (begin_at-Holds now key fp token store_body lock_ms rows rows' started) in
    let found =
      get_row-kept (run es rows') key
        (record { row = pending fp token; expires_at = now + lock_ms }) later held early in
    begin_at-found later key fp' token' store_body' lock_ms' (run es rows') (pending fp token) found
    ∙ ap (λ (r : Result BeginError Guard). (r, run es rows')) (answer-pending fp' fp token)
