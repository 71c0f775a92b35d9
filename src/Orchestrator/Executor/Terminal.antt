-- ===== src/Orchestrator/Executor/Terminal.antt =====
-- What every history of a run leaves behind.
use bu_vi.Base.{
  ◌⊎◌, String, ℕ, ◌≡◌, refl, String, Bool, true, false, not, List, [], ◌∷◌, arith, if◌then◌else◌,
  =s_iff,
}
use bu_vi.Orchestrator.Failures.{FailureCode, run_timeout}
use bu_vi.Orchestrator.Executor.Rows.{RunState, Run, start_run, is_terminal, cancel}
use bu_vi.Orchestrator.Executor.Steps.{
  Exit, ok, failed, died, Moment, World, await, await_on, ends, Next, goes, raises, dies, Handled,
}
use bu_vi.Orchestrator.Executor.Lifecycle.{
  Answer, outcome, busy, lost, failing, concluded, begin_run, is_late, execute, Event, executes,
  cancels, after_event, after_all, fail_after,
}
use bu_vi.Orchestrator.Executor.Keeping.{Held, Ended, Good, Post, terminal_if, run-open}
use bu_vi.Orchestrator.Executor.Cancelling.{cancel-Good}
use bu_vi.Orchestrator.Executor.Flow.{flow-Ended}
use bu_vi.Orchestrator.Executor.Failing.{started_text, held_open, started_known, fail_run-Good}

-- The three statuses that end a run.
abbrev pub HasEnded : String → Type 0
HasEnded status = (status ≡ "completed") ⊎ ((status ≡ "failed") ⊎ (status ≡ "cancelled"))

module _ {D : Type 0} where
  moment-Good : (b : Bool) (run : Run D) → Good run → Good (if b then cancel run else run)
  moment-Good true run h = cancel-Good run h
  moment-Good false run h = h

  ends-run : (n : Next) (w : World D) → (ends n w).1 ≡ w
  ends-run goes w = refl
  ends-run (raises c) w = refl
  ends-run dies w = refl

  await_on-Good : (ms : List Moment) (w : World D) → Good w.run → Good (await_on ms w).1.run
  await_on-Good [] w h = h
  await_on-Good (m ∷ ms) w h =
      rw
        (ends-run m.next
          (record w { run = if m.is_cancelled then cancel w.run else w.run; tape = ms }))
        (moment-Good m.is_cancelled w.run h)

  await-Good : (w : World D) → Good w.run → Good (await w).1.run
  unfolding await
  await-Good w h = await_on-Good w.tape w h

  -- An answer with a status is the stored run's, and the run has ended.
  abbrev pub Answered : Answer × Run D → Type 0
  Answered (outcome status, run) = (run.status ≡ status) × (is_terminal status ≡ true)
  Answered (busy, run) = Unit
  Answered (lost, run) = Unit

  fail_after-Good :
      (code : FailureCode) (out : Exit (Unit {0}) × World D)
      → Good out.1.run
      → Good (fail_after code out).1 × Answered (fail_after code out)
  fail_after-Good code (ok _, w) h =
      let g = fail_run-Good code w.live.usage w.run h in (g.0, (refl, g.1))
  fail_after-Good code (failed _, w) h = (h, tt)
  fail_after-Good code (died, w) h = (h, tt)

  failing-Good :
      (code : FailureCode) (w : World D)
      → Good w.run
      → Good (failing code w).1 × Answered (failing code w)
  failing-Good code w h = fail_after-Good code (await w) (await-Good w h)

  concluded-Good :
      (out : Exit (Unit {0}) × World D)
      → Post Ended out
      → Good (concluded out).1 × Answered (concluded out)
  concluded-Good (ok u, w) (c, h) =
      (h.good, (refl, terminal_if w.run.status ((=s_iff w.run.status "completed").0 h.status)))
  concluded-Good (failed code, w) h = failing-Good code w h
  concluded-Good (died, w) h = (h, tt)

  begin_run-Held :
      (now timeout : ℕ) (run : Run D) (tape : List Moment)
      → Good run
      → is_terminal run.status ≡ false
      → Held (record {
        live = (begin_run now timeout run).flow_state;
        run = begin_run now timeout run;
        tape = tape;
      })
  unfolding begin_run start_run
  begin_run-Held now timeout run tape h e =
      let (a, b, c, d) = run-open run h e in
      let r = started_text run.status (ground (arith, h.known)) in
      (
        run.flow_state.completed_steps,
        record {
          good = record {
            numbered = h.numbered;
            keys = h.keys;
            distinct = h.distinct;
            steps = h.steps;
            known = started_known _ r;
            open_run = ground arith;
          };
          same = refl;
          steps = refl;
          distinct = h.steps;
          status = held_open _ _ r (ground arith);
        },
      )

  abbrev Sound : Answer × Run D → Type 0
  Sound out = Good out.1 × Answered out

  Sound-if : (b : Bool) (x y : Answer × Run D) → Sound x → Sound y → Sound (if b then x else y)
  Sound-if true x y h k = h
  Sound-if false x y h k = k

  Sound-cases :
      (b : Bool) (x y : Answer × Run D)
      → (b ≡ true → Sound x)
      → (b ≡ false → Sound y)
      → Sound (if b then x else y)
  Sound-cases true x y h k = h refl
  Sound-cases false x y h k = k refl

  pub execute-Good :
      (handlers : String → RunState D → Handled D) (acquired : Bool) (now timeout : ℕ)
      (tape : List Moment) (run : Run D)
      → Good run
      → Good (execute handlers acquired now timeout tape run).1
        × Answered (execute handlers acquired now timeout tape run)
  unfolding execute
  execute-Good handlers acquired now timeout tape run h =
      Sound-if (not acquired) _ _ (h, tt)
        (Sound-cases (is_terminal run.status) _ _ (λ e. (h, (refl, e)))
          (λ e.
            let held = begin_run-Held now timeout run tape h e in
            Sound-if (is_late now (begin_run now timeout run).flow_state.deadline) _ _
              (failing-Good run_timeout _ held.1.good)
              (concluded-Good _ (flow-Ended handlers _ held))))

  after_event-Good : (e : Event D) (run : Run D) → Good run → Good (after_event e run)
  unfolding after_event
  after_event-Good (executes handlers acquired now timeout tape) run h =
      (execute-Good handlers acquired now timeout tape run h).0
  after_event-Good cancels run h = cancel-Good run h

  -- Whatever happens to a good run, over executions by any handlers that are interrupted anywhere,
  -- that time out, fail, or die with their process and are resumed, and over cancellations at any
  -- moment: its stored events are numbered without a gap, their keys are the ones that count as
  -- emitted, no event and no finished step is there twice, and a run that is not in a terminal
  -- status has no event that ends it.
  pub after_all-Good : (es : List (Event D)) (run : Run D) → Good run → Good (after_all es run)
  unfolding after_all
  after_all-Good [] run h = h
  after_all-Good (e ∷ es) run h = after_all-Good es (after_event e run) (after_event-Good e run h)

  -- An execution of a good run that answers with a status has stored that status, and it is a
  -- terminal one, whatever interrupted it.
  pub execute-Answered :
      (handlers : String → RunState D → Handled D) (acquired : Bool) (now timeout : ℕ)
      (tape : List Moment) (run : Run D)
      → Good run
      → Answered (execute handlers acquired now timeout tape run)
  execute-Answered handlers acquired now timeout tape run h =
      (execute-Good handlers acquired now timeout tape run h).1
