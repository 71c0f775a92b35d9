-- ===== src/Orchestrator/Executor/Tests.antt =====
-- A run whose process dies and that is resumed, and one that times out as it publishes its end.
use bu_vi.Base.{ℕ, ◌≡◌, refl, String, true, false, none, some, List, [], ◌∷◌, has}
use bu_vi.Orchestrator.Failures.{stage_timeout}
use bu_vi.Orchestrator.Router.{Usage}
use bu_vi.Orchestrator.Executor.Rows.{
  Run, RunState, is_terminal, append_event, max_seq, start_run, finish_run, step_events,
}
use bu_vi.Orchestrator.Executor.Steps.{
  Moment, goes, raises, dies, Handled, finished, await, ensure_not_cancelled, emit, say_reply,
  close, publish_events, run_handler, perform, run_step, run_steps,
}
use bu_vi.Orchestrator.Executor.Lifecycle.{
  Event, executes, after_all, execute, outcome, begin_run, fail_run, tell_stage, tell_run,
  failed_stage, final_status,
}
use bu_vi.Orchestrator.Executor.Keeping.{Good}
use bu_vi.Orchestrator.Executor.Calm.{execute-ends}
use bu_vi.Orchestrator.Executor.Terminal.{Answered, after_all-Good, execute-Answered}

abbrev no_usage : Usage
no_usage = record { input_tokens = 0; output_tokens = 0; calls = 0 }

abbrev queued_run : Run ℕ
queued_run = record {
  status = "queued";
  error_code = none;
  flow_state = record {
    deadline = none;
    completed_steps = [];
    emitted_events = [];
    usage = no_usage;
    reply = none;
    outputs = 0;
  };
  events = [];
  assistant_messages = 0;
}

queued-Good : Good queued_run
unfolding is_terminal has
queued-Good = record {
  numbered = tt;
  keys = refl;
  distinct = tt;
  steps = tt;
  known = refl;
  open_run = refl;
}

abbrev handlers : String → RunState ℕ → Handled ℕ
handlers step state = finished no_usage none 1

abbrev calm : Moment
calm = record { is_cancelled = false; next = goes }

-- The process dies as the second step is stored, and the run is then cancelled as it is resumed.
abbrev history : List (Event ℕ)
history =
    executes handlers true 1000 300000
      (calm ∷ calm ∷ calm ∷ calm ∷ calm ∷ calm ∷ record { is_cancelled = false; next = dies } ∷ [])
    ∷ executes handlers true 60000 300000
        (calm ∷ calm ∷ record { is_cancelled = true; next = goes } ∷ [])
    ∷ []

after_all-Good_example : Good (after_all history queued_run)
after_all-Good_example = after_all-Good history queued_run queued-Good

execute-Answered_example : Answered (execute handlers true 1000 300000 (calm ∷ []) queued_run)
execute-Answered_example =
    execute-Answered handlers true 1000 300000 (calm ∷ []) queued_run queued-Good

-- A run of which only the end is left.
abbrev ending : Run ℕ
ending = record {
  status = "running";
  error_code = none;
  flow_state = record {
    deadline = some 301000;
    completed_steps =
        "persist_artifact" ∷ "validate_chart_spec" ∷ "build_chart_spec" ∷ "analyze_result"
        ∷ "execute_query" ∷ "authorize_query" ∷ "validate_sql" ∷ "generate_sql" ∷ "build_query_plan"
        ∷ "resolve_semantics" ∷ "retrieve_schema" ∷ "classify_intent" ∷ "load_context" ∷ [];
    emitted_events = [];
    usage = no_usage;
    reply = none;
    outputs = 0;
  };
  events = [];
  assistant_messages = 1;
}

-- A timeout as the stored end is published turns the completed run into a failed one, after its
-- `run.completed` event.
completed_then_failed :
    (execute handlers true 2000 300000
      (calm ∷ calm ∷ record { is_cancelled = false; next = raises stage_timeout } ∷ [])
      ending)
    ≡ (
      outcome "failed",
      record ending {
        status = "failed";
        error_code = some stage_timeout;
        flow_state = record ending.flow_state { emitted_events = "run.completed" ∷ [] };
        events = record { seq = 1; stage = "run"; status = "completed" } ∷ [];
        assistant_messages = 2;
      },
    )
unfolding execute begin_run start_run run_steps run_step perform ensure_not_cancelled await emit
    run_handler publish_events close say_reply finish_run append_event max_seq is_terminal has
    step_events fail_run tell_stage tell_run failed_stage final_status
completed_then_failed = refl

execute-ends_example :
    is_terminal (execute handlers true 1000 300000 (calm ∷ calm ∷ []) queued_run).1.status ≡ true
execute-ends_example =
    execute-ends handlers 1000 300000 (calm ∷ calm ∷ []) queued_run queued-Good (refl, (refl, tt))

abbrev failed_run : Run ℕ
failed_run = record ending { status = "failed"; error_code = some stage_timeout }
