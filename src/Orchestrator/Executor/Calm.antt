-- ===== src/Orchestrator/Executor/Calm.antt =====
-- An execution that nothing interrupts: no process dies and no await raises, though handlers may
-- fail and users may cancel.
use bu_vi.Base.{
  ℕ, ◌≡◌, refl, String, Bool, true, false, not, ◌&&◌, Option, none, some, List, [], ◌∷◌,
  if◌then◌else◌, ◌=s◌, has, Bool-cases, inl, inr,
}
use bu_vi.Orchestrator.Failures.{FailureCode, run_timeout}
use bu_vi.Orchestrator.Executor.Rows.{
  Run, RunState, is_terminal, flow_steps, step_events, save_flow_state, key, cancel,
}
use bu_vi.Orchestrator.Executor.Steps.{
  Next, goes, Moment, Exit, ok, failed, died, World, Act, Handled, finished, gives_up, ◌>>◌, pass,
  write, when, ends, await_on, await, fail_with, ensure_not_cancelled, emit, emit_if, persist,
  publish_events, settle, handle, run_handler, finish_step, perform, is_skipped, run_step,
  run_steps, record_event, say_once, charge_usage, say_if, counted, close, say_reply,
}
use bu_vi.Orchestrator.Executor.Lifecycle.{
  Answer, outcome, busy, lost, failing, concluded, execute, begin_run, is_late,
}
use bu_vi.Orchestrator.Executor.Keeping.{Good}
use bu_vi.Orchestrator.Executor.Terminal.{Answered, execute-Answered}

-- Every moment goes on.
abbrev pub AllGo : List Moment → Type 0
AllGo [] = Unit
AllGo (m ∷ ms) = (m.next ≡ goes) × AllGo ms

module _ {D : Type 0} where
  -- The piece has not died, and nothing interrupts what follows.
  abbrev Calm : Exit (Unit {0}) × World D → Type 0
  Calm (ok a, w) = AllGo w.tape
  Calm (failed c, w) = AllGo w.tape
  Calm (died, w) = ⊥

  record Calms (m : Act D (Unit {0})) : Type 0 where
    pub calm : (w : World D) → AllGo w.tape → Calm (m w)

  calm_then :
      (out : Exit (Unit {0}) × World D) (k : Act D (Unit {0}))
      → Calm out
      → Calms k
      → Calm (elim out.0 [ ok a ↦ k out.1 | failed c ↦ (failed c, out.1) | died ↦ (died, out.1) ])
  calm_then (ok a, w) k h n = n.calm w h
  calm_then (failed c, w) k h n = h
  calm_then (died, w) k h n = h

  Calms-then : {m k : Act D (Unit {0})} → Calms m → Calms k → Calms (m >> k)
  Calms-then {m} {k} h n = record { calm = λ w g. calm_then (m w) k (h.calm w g) n }

  Calm-if :
      (b : Bool) (x y : Exit (Unit {0}) × World D) → Calm x → Calm y → Calm (if b then x else y)
  Calm-if true x y h n = h
  Calm-if false x y h n = n

  Calms-when :
      (test : World D → Bool) {m n : Act D (Unit {0})} → Calms m → Calms n → Calms (when test m n)
  Calms-when test {m} {n} h k = record {
    calm = λ w g. Calm-if (test w) (m w) (n w) (h.calm w g) (k.calm w g);
  }

  Calms-write : (f : World D → World D) → ((w : World D) → (f w).tape ≡ w.tape) → Calms (write f)
  Calms-write f e = record { calm = λ w g. rw (e w) g }

  Calm-ends : (n : Next) (w : World D) → n ≡ goes → AllGo w.tape → Calm (ends n w)
  Calm-ends n w e g = rw e g

  Calm-await_on : (ms : List Moment) (w : World D) → AllGo ms → AllGo w.tape → Calm (await_on ms w)
  Calm-await_on [] w g h = h
  Calm-await_on (m ∷ ms) w g h = Calm-ends m.next _ g.0 g.1

  Calms-await : Calms await
  unfolding await
  Calms-await = record { calm = λ w g. Calm-await_on w.tape w g g }

  Calms-pass : Calms pass
  Calms-pass = record { calm = λ w g. g }

  Calms-fail_with : (c : FailureCode) → Calms (fail_with c)
  Calms-fail_with c = record { calm = λ w g. g }

  abbrev cancelled_now : World D → Bool
  cancelled_now w = w.run.status =s "cancelled"

  Calms-ensure_not_cancelled : Calms ensure_not_cancelled
  unfolding ensure_not_cancelled
  Calms-ensure_not_cancelled =
      Calms-then Calms-await
        (Calms-when cancelled_now (Calms-fail_with FailureCode.cancelled) Calms-pass)

  Calms-emit : (stage status : String) → Calms (emit stage status)
  unfolding emit record_event
  Calms-emit stage status =
      Calms-when (λ w. has (key stage status) w.live.emitted_events) Calms-pass
        (Calms-then Calms-await
          (Calms-then (Calms-write (record_event stage status) (λ w. refl)) Calms-await))

  Calms-emit_if :
      (stage : Option String) (wanted : Bool) (status : String)
      → Calms (emit_if stage wanted status)
  Calms-emit_if none wanted status = Calms-pass
  Calms-emit_if (some stage) false status = Calms-pass
  Calms-emit_if (some stage) true status = Calms-emit stage status

  Calms-persist : Calms persist
  unfolding persist
  Calms-persist =
      Calms-then Calms-await
        (Calms-write (λ w. record w { run = save_flow_state w.run w.live }) (λ w. refl))

  say_reply-tape : (reply : Option String) (w : World D) → (say_if reply w).tape ≡ w.tape
  unfolding say_once
  say_reply-tape none w = refl
  say_reply-tape (some r) w = refl

  Calms-publish_events : Calms publish_events
  unfolding publish_events close say_reply
  Calms-publish_events = Calms-then Calms-await (
      Calms-when cancelled_now (Calms-fail_with FailureCode.cancelled) (
        Calms-then (Calms-write (λ w. close (say_reply w)) (λ w. say_reply-tape w.live.reply w))
          Calms-await))

  Calm-settle : (h : Handled D) (w : World D) → AllGo w.tape → Calm (settle h w)
  unfolding charge_usage
  Calm-settle (gives_up u c) w g = g
  Calm-settle (finished u reply outputs) w g = g

  module _ (handlers : String → RunState D → Handled D) where
    Calms-settle : (step : String) → Calms (λ w. settle (handlers step w.live) w)
    Calms-settle step = record { calm = λ w g. Calm-settle (handlers step w.live) w g }

    Calms-handle : (step : String) → Calms (handle handlers step)
    unfolding handle say_once
    Calms-handle step = Calms-then Calms-await (
        Calms-then (Calms-settle step) (
          Calms-when (λ w. step =s "persist_artifact")
            (Calms-then Calms-await (Calms-write say_once (λ w. refl))) Calms-pass))

    Calms-run_handler : (step : String) → Calms (run_handler handlers step)
    unfolding run_handler
    Calms-run_handler step = record {
      calm = λ w g. elim (Bool-cases (step =s "publish_events")) [
        | inl e ↦ rw e (Calms-publish_events.calm w g)
        | inr e ↦ rw e ((Calms-handle step).calm w g)
      ];
    }

    Calms-finish_step : (step : String) → Calms (finish_step handlers step)
    unfolding finish_step
    Calms-finish_step step = Calms-then (Calms-write (counted handlers step) (λ w. refl)) (
        Calms-then Calms-persist (
          Calms-emit_if (step_events step).stage
            ((step_events step).completed && not (step =s "publish_events")) "completed"))

    Calms-perform : (step : String) → Calms (perform handlers step)
    unfolding perform
    Calms-perform step = Calms-then Calms-ensure_not_cancelled (
        Calms-then (Calms-emit_if (step_events step).stage (step_events step).started "started")
          (Calms-then (Calms-run_handler step) (Calms-finish_step step)))

    Calms-run_steps : (steps : List String) → Calms (run_steps handlers steps)
    unfolding run_steps run_step
    Calms-run_steps [] = Calms-pass
    Calms-run_steps (step ∷ steps) =
        Calms-then
          (Calms-when (λ w. is_skipped handlers step w.live) Calms-pass (Calms-perform step))
          (Calms-run_steps steps)

  -- The answer is a status, and not that the run is busy or that nothing came back.
  abbrev HasStatus : Answer × Run D → Type 0
  HasStatus (outcome status, run) = Unit
  HasStatus (busy, run) = ⊥
  HasStatus (lost, run) = ⊥

  HasStatus-if :
      (b : Bool) (x y : Answer × Run D) → HasStatus x → HasStatus y → HasStatus (if b then x else y)
  HasStatus-if true x y h k = h
  HasStatus-if false x y h k = k

  await_on-goes :
      (ms : List Moment) (w : World D) → AllGo ms → (w' : World D) × (await_on ms w ≡ (ok tt, w'))
  await_on-goes [] w g = (w, refl)
  await_on-goes (m ∷ ms) w g =
      (record w { run = if m.is_cancelled then cancel w.run else w.run; tape = ms }, rw (g.0) refl)

  failing-HasStatus : (code : FailureCode) (w : World D) → AllGo w.tape → HasStatus (failing code w)
  unfolding await
  failing-HasStatus code w g = let (w', e) = await_on-goes w.tape w g in rw e tt

  concluded-HasStatus : (out : Exit (Unit {0}) × World D) → Calm out → HasStatus (concluded out)
  concluded-HasStatus (ok u, w) h = tt
  concluded-HasStatus (failed code, w) h = failing-HasStatus code w h
  concluded-HasStatus (died, w) h = absurd h

  execute-HasStatus :
      (handlers : String → RunState D → Handled D) (now timeout : ℕ) (tape : List Moment)
      (run : Run D)
      → AllGo tape
      → HasStatus (execute handlers true now timeout tape run)
  unfolding execute
  execute-HasStatus handlers now timeout tape run g =
      let begun = begin_run now timeout run in
      let w : World D = record { live = begun.flow_state; run = begun; tape = tape } in
      let out = run_steps handlers flow_steps w in
      HasStatus-if (is_terminal run.status) _ _ tt (
        HasStatus-if (is_late now begun.flow_state.deadline) (failing run_timeout w) (concluded out)
          (failing-HasStatus run_timeout w g)
          (concluded-HasStatus out ((Calms-run_steps handlers flow_steps).calm w g)))

  ended_status :
      (out : Answer × Run D) → HasStatus out → Answered out → is_terminal out.1.status ≡ true
  ended_status (outcome status, run) h a = rw (a.0) (a.1)
  ended_status (busy, run) h a = absurd h
  ended_status (lost, run) h a = absurd h

  -- One execution that gets the run's lock ends a good run, from whatever step it was left at: where
  -- no await raises and the process does not die, the run is in a terminal status after it, whatever
  -- the handlers do and whenever users cancel.
  pub execute-ends :
      (handlers : String → RunState D → Handled D) (now timeout : ℕ) (tape : List Moment)
      (run : Run D)
      → Good run
      → AllGo tape
      → is_terminal (execute handlers true now timeout tape run).1.status ≡ true
  execute-ends handlers now timeout tape run h g =
      ended_status _ (execute-HasStatus handlers now timeout tape run g)
        (execute-Answered handlers true now timeout tape run h)
