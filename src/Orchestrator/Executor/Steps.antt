-- ===== src/Orchestrator/Executor/Steps.antt =====
-- `run_step` and what it calls of application/services/run_executor.py of
-- apps/analytics-orchestrator. At each await the tape says what happens there: the run may be
-- cancelled by a user, and the await may return, raise a failure (a timeout of the stage or of the
-- run, or an unexpected error), or never return since the process dies.
use bu_vi.Base.{
  String, Bool, true, false, not, ◌&&◌, ◌||◌, Option, none, some, List, [], ◌∷◌, ◌==◌,
  if◌then◌else◌, ◌=s◌, has,
}
use bu_vi.Orchestrator.Failures.{FailureCode, cancelled}
use bu_vi.Orchestrator.Router.{Usage}
use bu_vi.Orchestrator.Executor.Rows.{
  RunState, Run, key, append_event, save_flow_state, finish_run, cancel, step_events,
}

-- How an await ends.
pub data Next : Type 0 where
  goes : Next
  raises : FailureCode → Next
  dies : Next

pub record Moment : Type 0 where
  pub is_cancelled : Bool
  pub next : Next

pub data Exit (A : Type 0) : Type 0 where
  ok : A → Exit A
  failed : FailureCode → Exit A
  died : Exit A

-- What a handler does: its usage is saved as it is charged.
pub data Handled (D : Type 0) : Type 0 where
  finished : Usage → Option String → D → Handled D
  gives_up : Usage → FailureCode → Handled D

abbrev pub answered_steps : List String
answered_steps = "load_context" ∷ "classify_intent" ∷ "publish_events" ∷ []

-- The process and the database: the state that the flow runs on, the stored run, and the moments to
-- come. After the tape, nothing happens to the run from outside.
pub record World (D : Type 0) : Type 0 where
  pub live : RunState D
  pub run : Run D
  pub tape : List Moment

-- A piece of the executor's work.
abbrev pub Act : Type 0 → Type 0 → Type 0
Act D A = World D → Exit A × World D

module _ {D : Type 0} where
  infixl 5 ◌>>=◌ ◌>>◌
  abbrev pub ◌>>=◌ : {A B : Type 0} → Act D A → (A → Act D B) → Act D B
  (m >>= k) w =
      let (e, w') = m w in elim e [ ok a ↦ k a w' | failed c ↦ (failed c, w') | died ↦ (died, w') ]

  abbrev pub ◌>>◌ : {B : Type 0} → Act D (Unit {0}) → Act D B → Act D B
  m >> k = m >>= λ _. k

  abbrev pub pass : Act D (Unit {0})
  pass w = (ok tt, w)

  abbrev pub fail_with : FailureCode → Act D (Unit {0})
  fail_with c w = (failed c, w)

  -- a write to the database and to the live state, in one transaction
  abbrev pub write : (World D → World D) → Act D (Unit {0})
  write f w = (ok tt, f w)

  abbrev pub when : (World D → Bool) → Act D (Unit {0}) → Act D (Unit {0}) → Act D (Unit {0})
  when test m n w = if test w then m w else n w

  abbrev pub ends : Next → World D → Exit (Unit {0}) × World D
  ends goes w = (ok tt, w)
  ends (raises c) w = (failed c, w)
  ends dies w = (died, w)

  abbrev pub await_on : List Moment → Act D (Unit {0})
  await_on [] w = (ok tt, w)
  await_on (m ∷ ms) w =
      ends m.next (record w { run = if m.is_cancelled then cancel w.run else w.run; tape = ms })

  unfoldable pub await : Act D (Unit {0})
  await w = await_on w.tape w

  -- `_ensure_not_cancelled`
  unfoldable pub ensure_not_cancelled : Act D (Unit {0})
  ensure_not_cancelled = do
    await
    when (λ w. w.run.status =s "cancelled") (fail_with cancelled) pass

  -- the transaction of `_emit`
  unfoldable pub record_event : String → String → World D → World D
  record_event stage status w =
      let state = record w.live { emitted_events = key stage status ∷ w.live.emitted_events } in
      record w {
        live = state;
        run =
            save_flow_state (record w.run { events = append_event stage status w.run.events })
              state;
      }

  -- `_emit`, with the publication as its last await
  unfoldable pub emit : String → String → Act D (Unit {0})
  emit stage status =
      when (λ w. has (key stage status) w.live.emitted_events) pass
        (do await; write (record_event stage status); await)

  -- `_emit` where the step has a stage and a text
  abbrev pub emit_if : Option String → Bool → String → Act D (Unit {0})
  emit_if none wanted status = pass
  emit_if (some stage) false status = pass
  emit_if (some stage) true status = emit stage status

  -- `_persist`
  unfoldable pub persist : Act D (Unit {0})
  persist = do await; write (λ w. record w { run = save_flow_state w.run w.live })

  -- `_persist_usage`, for the calls that a handler was charged for
  unfoldable pub charge_usage : Usage → World D → World D
  charge_usage u w = record w {
    live = record w.live { usage = u };
    run = save_flow_state w.run (record w.run.flow_state { usage = u });
  }

  -- a message of the assistant, unless the run has one
  unfoldable pub say_once : World D → World D
  say_once w = record w {
    run = if w.run.assistant_messages == 0 then record w.run { assistant_messages = 1 } else w.run;
  }

  -- the transaction of `_publish_events`, once the run is not cancelled
  abbrev pub say_if : Option String → World D → World D
  say_if none w = w
  say_if (some reply) w = say_once w

  unfoldable pub say_reply : World D → World D
  say_reply w = say_if w.live.reply w

  unfoldable pub close : World D → World D
  close w =
      let state = record w.live {
        emitted_events = key "run" "completed" ∷ w.live.emitted_events;
      } in
      record w {
        live = state;
        run =
            finish_run (record w.run { events = append_event "run" "completed" w.run.events })
              "completed" none state;
      }

  -- `_publish_events`, with the publication as its last await
  unfoldable pub publish_events : Act D (Unit {0})
  publish_events = do
    await
    when (λ w. w.run.status =s "cancelled") (fail_with cancelled)
        (do write (λ w. close (say_reply w)); await)

  -- what one of the other handlers did
  abbrev pub settle : Handled D → Act D (Unit {0})
  settle (gives_up u c) w = (failed c, charge_usage u w)
  settle (finished u reply outputs) w =
      let charged = charge_usage u w in
      (ok tt, record charged { live = record charged.live { reply = reply; outputs = outputs } })

  module _ (handlers : String → RunState D → Handled D) where
    unfoldable pub handle : String → Act D (Unit {0})
    handle step = do
      await
      (λ w. settle (handlers step w.live) w)
      when (λ w. step =s "persist_artifact") (do await; write say_once) pass

    unfoldable pub run_handler : String → Act D (Unit {0})
    run_handler step = if step =s "publish_events" then publish_events else handle step

    abbrev pub counted : String → World D → World D
    counted step w = record w {
      live = record w.live { completed_steps = step ∷ w.live.completed_steps };
    }

    -- what `run_step` does once the handler has returned
    unfoldable pub finish_step : String → Act D (Unit {0})
    finish_step step = do
      write (counted step)
      persist
      emit_if (step_events step).stage
          ((step_events step).completed && not (step =s "publish_events")) "completed"

    -- the body of `run_step`, once the step is not skipped
    unfoldable pub perform : String → Act D (Unit {0})
    perform step = do
      ensure_not_cancelled
      emit_if (step_events step).stage (step_events step).started "started"
      run_handler step
      finish_step step

    abbrev pub is_skipped : String → RunState D → Bool
    is_skipped step state =
        has step state.completed_steps
        || elim state.reply [ none ↦ false | some _ ↦ not (has step answered_steps) ]

    unfoldable pub run_step : String → Act D (Unit {0})
    unfolding perform
    run_step step = when (λ w. is_skipped step w.live) pass (perform step)

    -- the flow: each step after the one before it
    unfoldable pub run_steps : List String → Act D (Unit {0})
    run_steps [] = pass
    run_steps (step ∷ steps) = run_step step >> run_steps steps
