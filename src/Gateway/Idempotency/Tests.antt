-- ===== src/Gateway/Idempotency/Tests.antt =====
-- Two requests with one key, at concrete times.
use bu_vi.Base.{
  ◌≡◌, refl, true, false, none, some, [], ◌∷◌, List, arith, if◌then◌else◌, ◌=s◌, ok, err,
}
use bu_vi.Gateway.Idempotency.Records.{Rows, pending, get_row, set_row, begin_script, is_final}
use bu_vi.Gateway.Idempotency.Guard.{
  active, replaying, Response, begin_at, finish, in_progress, key_reused,
}
use bu_vi.Gateway.Idempotency.Exclusion.{Event, begins, abandons, run, begin_at-exclusive}
use bu_vi.Gateway.Idempotency.Replay.{finish-begin_at}

abbrev no_rows : Rows
no_rows = λ k. none

abbrev first : Rows
first k =
    if "idem:t1:u1:k" =s k
    then some (record { row = pending "f1" "a"; expires_at = 61000 })
    else none

-- Another replica tries the same key, and gives up another one.
abbrev meanwhile : List Event
meanwhile =
    begins 2000 "idem:t1:u1:k" "f1" "b" true 60000
    ∷ abandons 3000 (active "idem:t1:u2:k" "c" "f2" true)
    ∷ []

begin_at-exclusive_example :
    begin_at 4000 "idem:t1:u1:k" "f1" "d" true 60000 (run meanwhile first)
    ≡ (err (if "f1" =s "f1" then in_progress else key_reused), run meanwhile first)
unfolding begin_at begin_script get_row set_row
begin_at-exclusive_example =
    begin_at-exclusive 1000 "idem:t1:u1:k" "f1" "a" true 60000 no_rows first meanwhile 4000 "f1" "d"
      true 60000 refl refl (omega arith)

abbrev created : Response
created = record {
  status_code = 201;
  content_type = some "application/json";
  set_cookie = false;
  replayed = false;
  body = 123 ∷ 125 ∷ [];
}

finish-begin_at_example :
    begin_at 9000 "idem:t1:u1:k" "f1" "d" true 60000 (
      finish
        (some 5000)
        (active "idem:t1:u1:k" "a" "f1" true)
        created
        86400000
        65536
        (run meanwhile first))
    ≡ (
      ok (replaying (record created { replayed = true })),
      finish
          (some 5000)
          (active "idem:t1:u1:k" "a" "f1" true)
          created
          86400000
          65536
          (run meanwhile first),
    )
unfolding begin_at begin_script get_row set_row is_final
finish-begin_at_example =
    finish-begin_at 1000 "idem:t1:u1:k" "f1" "a" 60000 no_rows first meanwhile 5000 created 86400000
      65536 9000 "d" true 60000 refl refl (omega arith) refl refl (omega arith) (omega arith)

abbrev failed : Response
failed = record created { status_code = 503 }
