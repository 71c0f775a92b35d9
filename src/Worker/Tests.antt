-- ===== src/Worker/Tests.antt =====
-- A run request that is delivered twice, and a batch with a message that cannot be read.
use bu_vi.Base.{
  ℕ, ◌≡◌, refl, true, false, none, some, List, [], ◌∷◌, has, Option, map, not, ◌&&◌, if◌then◌else◌,
  ◌==◌,
}
use bu_vi.Orchestrator.Executor.Rows.{
  Run, is_terminal, append_event, max_seq, start_run, finish_run, save_flow_state, step_events,
}
use bu_vi.Orchestrator.Executor.Steps.{
  Moment, dies, finished, await, ensure_not_cancelled, record_event, emit, persist, charge_usage,
  say_once, say_reply, close, publish_events, handle as handle_step, run_handler, finish_step,
  perform, run_step, run_steps,
}
use bu_vi.Orchestrator.Executor.Lifecycle.{execute, begin_run, after_all}
use bu_vi.Orchestrator.Executor.Keeping.{Good}
use bu_vi.Worker.Dispatch.{ack, retry, RunDispatcher, execute_call, retry_later, decide, handle}
use bu_vi.Worker.Delivery.{
  GivenUp, call_execute, Delivery, deliver, response_of, deliver-acked, deliver-terminated,
}
use bu_vi.Worker.Usage.{handle_batch, readable, is_empty, decision_of, handle_batch_lem}

abbrev queued : Run ℕ
queued = record {
  status = "queued";
  error_code = none;
  flow_state = record {
    deadline = none;
    completed_steps = [];
    emitted_events = [];
    usage = record { input_tokens = 0; output_tokens = 0; calls = 0 };
    reply = none;
    outputs = 0;
  };
  events = [];
  assistant_messages = 0;
}

run_one-Good : Good queued
unfolding is_terminal has
run_one-Good = record {
  numbered = tt;
  keys = refl;
  distinct = tt;
  steps = tt;
  known = refl;
  open_run = refl;
}

abbrev dispatcher : RunDispatcher
dispatcher = record { retry_base = 2000; max_deliveries = some 5 }

abbrev attempt : List Moment → Delivery ℕ
attempt tape = record {
  meanwhile = [];
  refused = none;
  handlers =
      λ step state. finished (record { input_tokens = 10; output_tokens = 5; calls = 1 }) none 1;
  acquired = true;
  now = 1000;
  timeout = 300000;
  tape = tape;
}

-- The first delivery's process dies at once.
abbrev deliveries : List (Delivery ℕ)
deliveries = attempt (record { is_cancelled = false; next = dies } ∷ []) ∷ attempt [] ∷ []

deliver-acked_example : is_terminal (deliver dispatcher 1 deliveries queued).1.status ≡ true
unfolding deliver call_execute handle decide execute_call response_of retry_later execute begin_run
    start_run run_steps run_step perform ensure_not_cancelled await emit record_event
    save_flow_state run_handler handle_step charge_usage persist finish_step publish_events close
    say_reply say_once finish_run append_event max_seq is_terminal has step_events after_all
deliver-acked_example = deliver-acked dispatcher 1 deliveries queued run_one-Good refl

deliver-terminated_example :
    let xs = attempt (record { is_cancelled = false; next = dies } ∷ []) ∷ [] in
    GivenUp dispatcher 5 xs queued
unfolding deliver call_execute handle decide execute_call response_of retry_later execute begin_run
    start_run run_steps run_step perform ensure_not_cancelled await is_terminal has after_all
deliver-terminated_example =
    deliver-terminated dispatcher 5
      (attempt (record { is_cancelled = false; next = dies } ∷ []) ∷ []) queued refl

abbrev parse : ℕ → Option ℕ
parse n = if n == 0 then none else some n

abbrev batch : List ℕ
batch = 7 ∷ 0 ∷ 8 ∷ []

handle_batch_lem_example : handle_batch parse 5000 (λ rs. false) batch ≡ (
  map
      (decision_of parse (
        if not (is_empty parse (readable parse batch)) && not false
        then record { disposition = retry; delay = 5000 }
        else record { disposition = ack; delay = 0 }))
      batch,
  if is_empty parse (readable parse batch) then none else some (readable parse batch),
)
handle_batch_lem_example = handle_batch_lem parse 5000 (λ rs. false) batch
