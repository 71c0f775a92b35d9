-- ===== src/Orchestrator/Executor/Rows.antt =====
-- A run as it is stored: infrastructure/db/repositories/analytics_repository.py, the flow state of
-- domain/value_objects/run_state.py, domain/policies/flow_steps.py and `cancel` of
-- application/services/conversation_service.py of apps/analytics-orchestrator.
-- Events, emitted keys and completed steps stand with the newest first; texts of events, SSE
-- publication and time stamps are not modelled.
use bu_vi.Base.{
  ℕ, ◌+◌, max, String, Bool, true, false, Option, none, some, List, [], ◌∷◌, if◌then◌else◌, ◌=s◌,
  has,
}
use Prim.Native.String.{◌++◌ as ◌+s◌}
use bu_vi.Orchestrator.Failures.{FailureCode, cancelled}
use bu_vi.Orchestrator.Router.{Usage}

abbrev pub flow_steps : List String
flow_steps =
    "load_context" ∷ "classify_intent" ∷ "retrieve_schema" ∷ "resolve_semantics"
    ∷ "build_query_plan" ∷ "generate_sql" ∷ "validate_sql" ∷ "authorize_query" ∷ "execute_query"
    ∷ "analyze_result" ∷ "build_chart_spec" ∷ "validate_chart_spec" ∷ "persist_artifact"
    ∷ "publish_events" ∷ []

-- `StepEvents`: the stage, and whether the step has a text for its start and for its end.
pub record StepEvents : Type 0 where
  pub stage : Option String
  pub started : Bool
  pub completed : Bool

abbrev events_of : Option String → Bool → Bool → StepEvents
events_of stage started completed = record {
  stage = stage;
  started = started;
  completed = completed;
}

-- `STEP_EVENTS`
unfoldable pub step_events : String → StepEvents
step_events step =
    if step =s "classify_intent"
    then events_of (some "intent") true true
    else if step =s "retrieve_schema"
    then events_of (some "schema") true true
    else if step =s "resolve_semantics"
    then events_of (some "semantic") true true
    else if step =s "build_query_plan"
    then events_of (some "sql") true false
    else if step =s "generate_sql"
    then events_of (some "sql") false true
    else if step =s "validate_sql"
    then events_of (some "validation") true false
    else if step =s "authorize_query"
    then events_of (some "validation") false true
    else if step =s "execute_query"
    then events_of (some "execution") true true
    else if step =s "analyze_result"
    then events_of (some "visualization") true false
    else if step =s "validate_chart_spec"
    then events_of (some "visualization") false true
    else if step =s "persist_artifact"
    then events_of (some "artifact") true true
    else if step =s "publish_events"
    then events_of (some "run") false true
    else events_of none false false

abbrev pub terminal_statuses : List String
terminal_statuses = "completed" ∷ "failed" ∷ "cancelled" ∷ []

unfoldable pub is_terminal : String → Bool
is_terminal status = has status terminal_statuses

-- `AnalyticsRunState`; `outputs` are the fields that only the steps' handlers read and write.
pub record RunState (D : Type 0) : Type 0 where
  pub deadline : Option ℕ
  pub completed_steps : List String
  pub emitted_events : List String
  pub usage : Usage
  pub reply : Option String
  pub outputs : D

-- `RunEvent`
pub record RunEvent : Type 0 where
  pub seq : ℕ
  pub stage : String
  pub status : String

-- The key of an event in `emitted_events`.
abbrev pub key : String → String → String
key stage status = stage +s ("." +s status)

-- `Run`, with its events and the number of assistant messages that name it.
pub record Run (D : Type 0) : Type 0 where
  pub status : String
  pub error_code : Option FailureCode
  pub flow_state : RunState D
  pub events : List RunEvent
  pub assistant_messages : ℕ

-- `func.coalesce(func.max(RunEvent.seq), 0)`
unfoldable pub max_seq : List RunEvent → ℕ
max_seq [] = 0
max_seq (e ∷ es) = max e.seq (max_seq es)

unfoldable pub append_event : String → String → List RunEvent → List RunEvent
append_event stage status es = record { seq = max_seq es + 1; stage = stage; status = status } ∷ es

module _ {D : Type 0} where
  unfoldable pub start_run : Run D → RunState D → Run D
  start_run run flow = record run {
    status = if run.status =s "queued" then "running" else run.status;
    flow_state = flow;
  }

  unfoldable pub save_flow_state : Run D → RunState D → Run D
  save_flow_state run flow = record run { flow_state = flow }

  unfoldable pub finish_run : Run D → String → Option FailureCode → RunState D → Run D
  finish_run run status code flow = record run {
    status = status;
    error_code = code;
    flow_state = flow;
  }

  -- `_end_without_execution`
  unfoldable pub end_without_execution : Run D → String → FailureCode → Run D
  unfolding finish_run
  end_without_execution run status code =
      finish_run (record run { events = append_event "run" status run.events }) status (some code)
        (record run.flow_state {
          emitted_events = key "run" status ∷ run.flow_state.emitted_events;
        })

  -- `cancel`; a run in a terminal status is refused and stays as it is.
  unfoldable pub cancel : Run D → Run D
  unfolding is_terminal has end_without_execution append_event
  cancel run =
      if is_terminal run.status
      then run
      else if run.status =s "queued"
      then end_without_execution run "cancelled" cancelled
      else record run { status = "cancelled"; error_code = some cancelled }
