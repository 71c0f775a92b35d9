-- ===== src/Orchestrator/Tests.antt =====
-- The router at a concrete budget and concrete providers.
use bu_vi.Orchestrator.Posting.{
  Post, new_run, post_message, idempotency_key_reused, get_run_by_idempotency_key, is_same,
}
use bu_vi.Orchestrator.Replaying.{post_message-post_message}
use bu_vi.Base.{
  ℕ, suc, zero, ◌+◌, ◌*◌, ◌≡◌, ◌≤◌, refl, some, List, [], ◌∷◌, arith, length, Result, ok, none,
  true, false, err,
}
use bu_vi.Orchestrator.Failures.{FailureCode}
use bu_vi.Orchestrator.Router.{
  total, Run, BudgetLimits, answered, output_invalid, refused, unavailable, Call, generate,
  attempts, call_model, try_routes, charge, accept, retry, check_daily, estimate_tokens,
}
use bu_vi.Orchestrator.Budget.{Pays, IsSaved, generate-Pays, generate-within}

abbrev limits : BudgetLimits
limits = record {
  run_tokens = 10000;
  tenant_daily_tokens = 50000;
  max_tokens_per_call = 1000;
  max_repairs = 1;
}

-- The first attempt meets a refusal and an output that does not parse, the second an answer.
abbrev calls : ℕ → Call ℕ
calls zero = record {
  system_length = 300;
  user_length = 60;
  used_today = some 100;
  replies = refused 200 0 ∷ output_invalid 300 20 ∷ [];
}
calls (suc n) = record {
  system_length = 300;
  user_length = 90;
  used_today = some 620;
  replies = unavailable ∷ answered 42 300 30 ∷ [];
}

abbrev check : ℕ → ℕ → Result FailureCode (List ℕ)
check n out = ok []

abbrev start : Run
start = record {
  usage = record { input_tokens = 0; output_tokens = 0; calls = 0 };
  saved = record { input_tokens = 0; output_tokens = 0; calls = 0 };
}

two_routes : (n : ℕ) → length (calls n).replies ≤ 2
two_routes zero = omega arith
two_routes (suc n) = omega arith

generate-Pays_example :
    Pays start (generate limits calls check FailureCode.output_invalid start).1 ((1 + 1) * 2)
    × IsSaved (generate limits calls check FailureCode.output_invalid start).1
generate-Pays_example =
    generate-Pays limits calls check FailureCode.output_invalid 2 start two_routes refl

generate-within_example :
    total (generate limits calls check FailureCode.output_invalid start).1.usage ≤ 10000
unfolding generate attempts call_model try_routes charge accept retry check_daily estimate_tokens
generate-within_example =
    generate-within limits calls check FailureCode.output_invalid start 42 refl

abbrev post : Post
post = record {
  user_id = "u1";
  conversation_id = "c1";
  content = "sales by region";
  data_source_id = none;
  idempotency_key = some "k1";
}

first_accepted :
    (post_message true true "r1" [] post []).0
    ≡ ok (record { run = new_run "r1" post; replayed = false })
unfolding post_message get_run_by_idempotency_key
first_accepted = refl

post_message-post_message_example :
    post_message true false "r2" [] post (post_message true true "r1" [] post []).1 ≡ (
      ok (record { run = new_run "r1" post; replayed = true }),
      (post_message true true "r1" [] post []).1,
    )
post_message-post_message_example =
    post_message-post_message "k1" "r1" "r2" true false [] [] post []
      (record { run = new_run "r1" post; replayed = false }) refl first_accepted

-- Once the run has settled on the only data source there is, the same post is refused.
replay_refused :
    (post_message true true "r2" [] post
      (record (new_run "r1" post) { data_source_id = some "d1"; status = "running" } ∷ [])).0
    ≡ err idempotency_key_reused
unfolding post_message get_run_by_idempotency_key is_same
replay_refused = refl
