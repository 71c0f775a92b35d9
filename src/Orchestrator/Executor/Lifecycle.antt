-- ===== src/Orchestrator/Executor/Lifecycle.antt =====
-- `execute`, `_begin` and `_fail` of application/services/run_executor.py of
-- apps/analytics-orchestrator, and the history of a run over executions and cancellations.
use bu_vi.Base.{
  ℕ, ◌+◌, String, Bool, true, false, not, ◌&&◌, ◌||◌, Option, none, some, List, [], ◌∷◌, leb,
  if◌then◌else◌, ◌=s◌, has,
}
use bu_vi.Orchestrator.Failures.{FailureCode, cancelled, run_timeout}
use bu_vi.Orchestrator.Router.{Usage, total}
use bu_vi.Orchestrator.Executor.Rows.{
  RunState, Run, key, append_event, start_run, finish_run, is_terminal, cancel, step_events,
  flow_steps,
}
use bu_vi.Orchestrator.Executor.Steps.{
  Exit, ok, failed, died, Moment, World, await, Handled, run_steps,
}

abbrev pub is_cancel : FailureCode → Bool
is_cancel cancelled = true
is_cancel _ = false

-- The stage of the first step that has not finished and has one.
unfoldable pub failed_stage : List String → List String → Option String
failed_stage [] finished = none
failed_stage (step ∷ steps) finished =
    let rest = failed_stage steps finished in
    if has step finished
    then rest
    else elim (step_events step).stage [ none ↦ rest | some s ↦ some s ]

-- How an execution answers: with the run's status, or by an exception, or not at all.
pub data Answer : Type 0 where
  outcome : String → Answer
  busy lost : Answer

-- `remaining <= 0`
abbrev pub is_late : ℕ → Option ℕ → Bool
is_late now none = true
is_late now (some deadline) = leb deadline now

-- What happens to a run: it is executed, at some time, with some handlers and interruptions, or a
-- user cancels it.
pub data Event (D : Type 0) : Type 0 where
  executes :
      (handlers : String → RunState D → Handled D)
      → (acquired : Bool) → (now timeout : ℕ) → List Moment
      → Event D
  cancels : Event D

module _ {D : Type 0} where
  -- an event of `_fail`, with its key
  abbrev pub tell : String → String → Run D → Run D
  tell stage status run = record run {
    events = append_event stage status run.events;
    flow_state = record run.flow_state {
      emitted_events = key stage status ∷ run.flow_state.emitted_events;
    };
  }

  -- the event of the stage that failed
  unfoldable pub tell_stage : Option String → String → Run D → Run D
  tell_stage none status run = run
  tell_stage (some stage) status run =
      if not (stage =s "run")
        && (has (key stage "started") run.flow_state.emitted_events
            && not (has (key stage status) run.flow_state.emitted_events))
      then tell stage status run
      else run

  -- the event of the run
  unfoldable pub tell_run : String → Run D → Run D
  tell_run status run =
      if not (has "run.failed" run.flow_state.emitted_events)
        && (not (has "run.completed" run.flow_state.emitted_events)
            && not (has "run.cancelled" run.flow_state.emitted_events))
      then tell "run" status run
      else run

  unfoldable pub final_status : Run D → FailureCode → String
  final_status run code =
      if run.status =s "cancelled" || is_cancel code then "cancelled" else "failed"

  -- the transaction of `_fail`
  unfoldable pub fail_run : FailureCode → Usage → Run D → Run D
  fail_run code live_usage run =
      let usage =
        if leb (total run.flow_state.usage) (total live_usage)
        then live_usage
        else run.flow_state.usage in
      let current = record run { flow_state = record run.flow_state { usage = usage } } in
      let status = final_status run code in
      let told =
        tell_run status
          (tell_stage (failed_stage flow_steps run.flow_state.completed_steps) status current) in
      record (finish_run told status (some code) told.flow_state) {
        assistant_messages = told.assistant_messages + 1;
      }

  -- `_fail` and the outcome. If an await of `_fail` does not return, nothing was written.
  abbrev pub fail_after : FailureCode → Exit (Unit {0}) × World D → Answer × Run D
  fail_after code (ok _, w) =
      let run = fail_run code w.live.usage w.run in (outcome run.status, run)
  fail_after code (failed _, w) = (lost, w.run)
  fail_after code (died, w) = (lost, w.run)

  abbrev pub failing : FailureCode → World D → Answer × Run D
  failing code w = fail_after code (await w)

  abbrev pub concluded : Exit (Unit {0}) × World D → Answer × Run D
  concluded (ok _, w) = (outcome w.run.status, w.run)
  concluded (failed code, w) = failing code w
  concluded (died, w) = (lost, w.run)

  -- `_begin`, for a run that is not in a terminal status
  unfoldable pub begin_run : ℕ → ℕ → Run D → Run D
  begin_run now timeout run = start_run run (record run.flow_state {
    deadline = elim run.flow_state.deadline [ none ↦ some (now + timeout) | some d ↦ some d ];
  })

  -- `execute`; `acquired` is whether the run's lock was free.
  unfoldable pub execute :
      (String → RunState D → Handled D) → Bool → ℕ → ℕ → List Moment → Run D → Answer × Run D
  execute handlers acquired now timeout tape run =
      if not acquired
      then (busy, run)
      else if is_terminal run.status
      then (outcome run.status, run)
      else let begun = begin_run now timeout run in
        let w : World D = record { live = begun.flow_state; run = begun; tape = tape } in
        if is_late now begun.flow_state.deadline
        then failing run_timeout w
        else concluded (run_steps handlers flow_steps w)

  unfoldable pub after_event : Event D → Run D → Run D
  after_event (executes handlers acquired now timeout tape) run =
      (execute handlers acquired now timeout tape run).1
  after_event cancels run = cancel run

  unfoldable pub after_all : List (Event D) → Run D → Run D
  after_all [] run = run
  after_all (e ∷ es) run = after_all es (after_event e run)
