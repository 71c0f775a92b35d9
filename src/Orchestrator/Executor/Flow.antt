-- ===== src/Orchestrator/Executor/Flow.antt =====
-- Every step of the flow keeps the run, and the whole flow completes it.
use bu_vi.Base.{
  ◌≡◌, refl, String, Bool, true, false, not, ◌&&◌, ◌||◌, Option, none, some, List, [], ◌∷◌, arith,
  if◌then◌else◌, ◌=s◌, =s_sym, has, ap, all, ◌≢◌, ◌++◌, ok,
}
use bu_vi.Orchestrator.Failures.{cancelled}
use bu_vi.Orchestrator.Executor.Rows.{RunState, step_events, flow_steps}
use bu_vi.Orchestrator.Executor.Steps.{
  Exit, ok, failed, died, World, Act, ◌>>◌, pass, write, when, await, emit_if, persist, say_once,
  fail_with, ensure_not_cancelled, say_reply, close, publish_events, Handled, settle, handle,
  run_handler, counted, finish_step, perform, is_skipped, run_step, run_steps, answered_steps, Exit,
  failed,
}
use bu_vi.Orchestrator.Executor.Keeping.{
  Held, Ended, is_open, is_held, Live, Post, Triple, Triple-then, Triple-when,
}
use bu_vi.Orchestrator.Executor.Cancelling.{await-Live}
use bu_vi.Orchestrator.Executor.Events.{
  is_plain, plain_event, emit_if-Live, ensure_not_cancelled-Live, settle-Live, say_once-Live,
  say_reply-Live, close-Live, persist-Live,
}

phase_then :
    (p : Bool) (status : String) (b : Bool) (c : List String) (step : String)
    → (p || not (step =s "publish_events")) ≡ true
    → (if p then status =s "completed" else is_held status && (b && not (has "publish_events" c)))
      ≡ true
    → (if p
        then status =s "completed"
        else is_held status && (b && not (has "publish_events" (step ∷ c))))
      ≡ true
unfolding has
phase_then true status b c step other h = h
phase_then false status b c step other h = ground (arith, =s_sym step "publish_events")

last_start :
    plain_event
      (step_events "publish_events").stage
      (step_events "publish_events").started
      "started"
    ≡ true
unfolding step_events
last_start = refl

-- A step that does not publish the end of the run, nor anything that looks like it.
unfoldable is_inner : String → Bool
is_inner step =
    not (step =s "publish_events")
    && (plain_event (step_events step).stage (step_events step).started "started"
        && plain_event (step_events step).stage (step_events step).completed "completed")

abbrev inner_steps : List String
inner_steps =
    "load_context" ∷ "classify_intent" ∷ "retrieve_schema" ∷ "resolve_semantics"
    ∷ "build_query_plan" ∷ "generate_sql" ∷ "validate_sql" ∷ "authorize_query" ∷ "execute_query"
    ∷ "analyze_result" ∷ "build_chart_spec" ∷ "validate_chart_spec" ∷ "persist_artifact" ∷ []

all_inner : all is_inner inner_steps ≡ true
unfolding is_inner step_events is_plain
all_inner = refl

answered_last : not (has "publish_events" answered_steps) ≡ false
unfolding has
answered_last = refl

plain_and :
    (stage : Option String) (wanted b : Bool) (status : String)
    → plain_event stage wanted status ≡ true
    → plain_event stage (wanted && b) status ≡ true
plain_and none wanted b status h = refl
plain_and (some s) wanted b status h = ground arith

module _ {D : Type 0} (handlers : String → RunState D → Handled D) where
  publish_events-Live :
      (c : List String) → Triple {D = D} (Live false c) publish_events (Live true c)
  unfolding publish_events
  publish_events-Live c =
      Triple-then (Live false c) (Live false c) (Live true c) await
        (when (λ w. w.run.status =s "cancelled") (fail_with cancelled)
          (write (λ w. close (say_reply w)) >> await))
        (await-Live false c)
        (Triple-when (Live false c) (Live true c) (λ w. w.run.status =s "cancelled")
          (fail_with cancelled) (write (λ w. close (say_reply w)) >> await) (λ w e h. h.good)
          (λ w e h. close_then w h))
    where
      close_then :
          Triple {D = D} (Live false c) (write (λ w. close (say_reply w)) >> await) (Live true c)
      close_then =
          Triple-then (Live false c) (Live true c) (Live true c) (write (λ w. close (say_reply w)))
            await (λ w h. close-Live c (say_reply w) (say_reply-Live c w h)) (await-Live true c)

  handle-Live :
      (c : List String) (step : String)
      → Triple (Live false c) (handle handlers step) (Live false c)
  unfolding handle
  handle-Live c step = Triple-then L L L await (settled >> message) (await-Live false c) (
      Triple-then L L L settled message (λ w h. settle-Live c (handlers step w.live) w h)
        (Triple-when L L (λ w. step =s "persist_artifact") said pass
          (λ w e h.
            Triple-then L L L await (write say_once) (await-Live false c) (say_once-Live c) w h)
          (λ w e h. h)))
    where
      L : World D → Type 0
      L = Live false c

      settled : Act D (Unit {0})
      settled w = settle (handlers step w.live) w

      said : Act D (Unit {0})
      said = await >> write say_once

      message : Act D (Unit {0})
      message = when (λ w. step =s "persist_artifact") said pass

  -- A finished step counts once.
  counted-Live :
      (p : Bool) (c : List String) (step : String) (w : World D)
      → has step c ≡ false
      → (p || not (step =s "publish_events")) ≡ true
      → Live p c w
      → Live p (step ∷ c) (counted handlers step w)
  counted-Live p c step w new other h = record {
    good = h.good;
    same = h.same;
    steps = ap (step ∷◌) h.steps;
    distinct = (new, h.distinct);
    status = phase_then p w.run.status (is_open w.live.emitted_events) c step other h.status;
  }

  run_handler-Live :
      (c : List String) (step : String)
      → (step =s "publish_events") ≡ false
      → Triple (Live false c) (run_handler handlers step) (Live false c)
  unfolding run_handler
  run_handler-Live c step other w h = rw other (handle-Live c step w h)

  finish_step-Live :
      (c : List String) (step : String)
      → has step c ≡ false
      → (step =s "publish_events") ≡ false
      → plain_event
          (step_events step).stage
          ((step_events step).completed && not (step =s "publish_events"))
          "completed"
        ≡ true
      → Triple (Live false c) (finish_step handlers step) (Live false (step ∷ c))
  unfolding finish_step
  finish_step-Live c step new other plain =
      Triple-then (Live false c) (Live false (step ∷ c)) (Live false (step ∷ c))
        (write (counted handlers step)) (persist >> told)
        (λ w h. counted-Live false c step w new (ground arith) h)
        (Triple-then (Live false (step ∷ c)) (Live false (step ∷ c)) (Live false (step ∷ c)) persist
          told (persist-Live false (step ∷ c)) (emit_if-Live (step ∷ c) _ _ "completed" plain))
    where
      told : Act D (Unit {0})
      told =
          emit_if (step_events step).stage
            ((step_events step).completed && not (step =s "publish_events")) "completed"

  -- The two checks before a handler.
  entry-Live :
      (c : List String) (step : String) (k : Act D (Unit {0})) (Q : World D → Type 0)
      → plain_event (step_events step).stage (step_events step).started "started" ≡ true
      → Triple (Live false c) k Q
      → Triple
          (Live false c)
          (ensure_not_cancelled
            >> (emit_if (step_events step).stage (step_events step).started "started" >> k))
          Q
  entry-Live c step k Q plain h =
      Triple-then (Live false c) (Live false c) Q ensure_not_cancelled
        (emit_if (step_events step).stage (step_events step).started "started" >> k)
        (ensure_not_cancelled-Live c)
        (Triple-then (Live false c) (Live false c) Q
          (emit_if (step_events step).stage (step_events step).started "started") k
          (emit_if-Live c _ _ "started" plain) h)

  perform-Live :
      (c : List String) (step : String)
      → has step c ≡ false
      → (step =s "publish_events") ≡ false
      → plain_event (step_events step).stage (step_events step).started "started" ≡ true
      → plain_event
          (step_events step).stage
          ((step_events step).completed && not (step =s "publish_events"))
          "completed"
        ≡ true
      → Triple (Live false c) (perform handlers step) (Live false (step ∷ c))
  unfolding perform
  perform-Live c step new other start end =
      entry-Live c step (run_handler handlers step >> finish_step handlers step)
        (Live false (step ∷ c)) start
        (Triple-then (Live false c) (Live false c) (Live false (step ∷ c))
          (run_handler handlers step) (finish_step handlers step) (run_handler-Live c step other)
          (finish_step-Live c step new other end))

  finish_last-Live :
      (c : List String)
      → has "publish_events" c ≡ false
      → Triple
          (Live true c)
          (finish_step handlers "publish_events")
          (Live true ("publish_events" ∷ c))
  unfolding finish_step step_events
  finish_last-Live c new =
      Triple-then (Live true c) (Live true d) (Live true d)
        (write (counted handlers "publish_events")) (persist >> pass)
        (λ w h. counted-Live true c "publish_events" w new refl h)
        (Triple-then (Live true d) (Live true d) (Live true d) persist pass (persist-Live true d)
          (λ w h. h))
    where
      d : List String
      d = "publish_events" ∷ c

  perform_last-Live :
      (c : List String)
      → has "publish_events" c ≡ false
      → Triple (Live false c) (perform handlers "publish_events") (Live true ("publish_events" ∷ c))
  unfolding perform run_handler
  perform_last-Live c new =
      entry-Live c "publish_events" (publish_events >> finish_step handlers "publish_events")
        (Live true ("publish_events" ∷ c)) last_start
        (Triple-then (Live false c) (Live true c) (Live true ("publish_events" ∷ c)) publish_events
          (finish_step handlers "publish_events") (publish_events-Live c) (finish_last-Live c new))

  Post-some :
      (p : Bool) (c : List String) (out : Exit (Unit {0}) × World D)
      → Post (Live p c) out
      → Post (λ w. (d : List String) × Live p d w) out
  Post-some p c (ok u, w) h = (c, h)
  Post-some p c (failed x, w) h = h
  Post-some p c (died, w) h = h

  run_step-Held : (step : String) → is_inner step ≡ true → Triple Held (run_step handlers step) Held
  unfolding run_step is_inner
  run_step-Held step inner =
      Triple-when Held Held (λ w. is_skipped handlers step w.live) pass (perform handlers step)
        (λ w e h. h)
        (λ w e h. Post-some false (step ∷ h.0) (perform handlers step w) (
          perform-Live h.0 step (ground (arith, ap (has step) h.1.steps)) (ground arith)
            (ground arith)
            (plain_and (step_events step).stage (step_events step).completed
              (not (step =s "publish_events")) "completed" (ground arith))
            w h.1))

  run_last-Ended : Triple Held (run_step handlers "publish_events") Ended
  unfolding run_step
  run_last-Ended =
      Triple-when Held Ended (λ w. is_skipped handlers "publish_events" w.live) pass
        (perform handlers "publish_events") (λ w e h. absurd (not_skipped w h.0 h.1 e))
        (λ w e h.
          Post-some true ("publish_events" ∷ h.0) (perform handlers "publish_events" w)
            (perform_last-Live h.0 (ground (arith, h.1.status)) w h.1))
    where
      never :
          (r : Option String)
          → elim r [ none ↦ false | some _ ↦ not (has "publish_events" answered_steps) ] ≡ false
      never none = refl
      never (some _) = answered_last

      not_skipped :
          (w : World D) (c : List String)
          → Live false c w
          → is_skipped handlers "publish_events" w.live ≢ true
      not_skipped w c h e =
          ground (arith, h.status, ap (has "publish_events") h.steps, never w.live.reply)

  -- The whole flow, from a run that is executed, ends with the run completed, if it ends well.
  run_flow-Ended :
      (steps : List String)
      → all is_inner steps ≡ true
      → Triple Held (run_steps handlers (steps ++ "publish_events" ∷ [])) Ended
  unfolding run_steps
  run_flow-Ended [] h =
      Triple-then Held Ended Ended (run_step handlers "publish_events") pass run_last-Ended
        (λ w k. k)
  run_flow-Ended (step ∷ steps) h =
      Triple-then Held Held Ended (run_step handlers step)
        (run_steps handlers (steps ++ "publish_events" ∷ [])) (run_step-Held step (ground arith))
        (run_flow-Ended steps (ground arith))

  pub flow-Ended : Triple Held (run_steps handlers flow_steps) Ended
  flow-Ended = run_flow-Ended inner_steps all_inner
