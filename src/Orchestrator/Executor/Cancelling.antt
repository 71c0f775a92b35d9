-- ===== src/Orchestrator/Executor/Cancelling.antt =====
-- A cancellation keeps the stored run good, and so does every await.
use bu_vi.Base.{
  ◌≡◌, refl, String, Bool, true, false, Option, some, List, [], ◌∷◌, arith, if◌then◌else◌, ◌=s◌,
  =s_iff, has, Bool-cases, inl, inr, ap,
}
use bu_vi.Orchestrator.Failures.{FailureCode}
use bu_vi.Orchestrator.Executor.Rows.{
  RunState, Run, append_event, finish_run, is_terminal, end_without_execution, cancel,
}
use bu_vi.Orchestrator.Executor.Steps.{
  Next, goes, raises, dies, Moment, Exit, ok, failed, died, World, await_on, await, ends,
}
use bu_vi.Orchestrator.Executor.Keeping.{
  append_event-Numbered, terminal_if, terminal_if', cancelled_ended, Good, Live, Post, Triple,
  Good-if, run-open,
}

module _ {D : Type 0} where
  end_without_execution-Good :
      (run : Run D) (code : FailureCode)
      → Good run
      → is_terminal run.status ≡ false
      → Good (end_without_execution run "cancelled" code)
  unfolding end_without_execution finish_run append_event
  end_without_execution-Good run code h e = record {
    numbered = append_event-Numbered "run" "cancelled" run.events h.numbered;
    keys = ap ("run.cancelled" ∷◌) h.keys;
    distinct = ((run-open run h e).2, h.distinct);
    steps = h.steps;
    known = cancelled_ended _;
    open_run = cancelled_ended _;
  }

  marked-Good :
      (run : Run D) (code : Option FailureCode)
      → Good run
      → Good (record run { status = "cancelled"; error_code = code })
  marked-Good run code h = record {
    numbered = h.numbered;
    keys = h.keys;
    distinct = h.distinct;
    steps = h.steps;
    known = cancelled_ended _;
    open_run = cancelled_ended _;
  }

  cancel-terminal : (run : Run D) → is_terminal run.status ≡ true → cancel run ≡ run
  unfolding cancel
  cancel-terminal run e = rw e refl

  cancel-running :
      (run : Run D)
      → run.status ≡ "running"
      → cancel run ≡ record run { status = "cancelled"; error_code = some FailureCode.cancelled }
  unfolding cancel is_terminal has
  cancel-running run e = rw e refl

  -- A user's cancellation keeps a good run good, and a run that is executed in its place.
  pub cancel-Good : (run : Run D) → Good run → Good (cancel run)
  unfolding cancel
  cancel-Good run h = elim (Bool-cases (is_terminal run.status)) [
    | inl e ↦ rw (cancel-terminal run e) h
    | inr e ↦ rw e (
        Good-if (run.status =s "queued") _ _ (end_without_execution-Good run _ h e)
          (marked-Good run _ h))
  ]

  cancel-Live :
      (p : Bool) (c : List String) (w : World D)
      → Live p c w
      → Live p c (record w { run = cancel w.run })
  cancel-Live true c w h =
      let e : w.run.status ≡ "completed" = (=s_iff w.run.status "completed").0 h.status in
      rw (cancel-terminal w.run (terminal_if w.run.status e)) h
  cancel-Live false c w h = elim (Bool-cases (w.run.status =s "running")) [
    | inl e ↦ rw (cancel-running w.run ((=s_iff w.run.status "running").0 e)) (record {
      good = marked-Good w.run _ h.good;
      same = h.same;
      steps = h.steps;
      distinct = h.distinct;
      status = ground (arith, h.status);
    })
    | inr e ↦
        let c' : w.run.status ≡ "cancelled" =
          (=s_iff w.run.status "cancelled").0 (ground (arith, h.status)) in
        rw (cancel-terminal w.run (terminal_if' w.run.status c')) h
  ]

  -- as `Live`, with a given state in the process's memory
  abbrev pub LiveAt : Bool → List String → RunState D → World D → Type 0
  LiveAt p c l w = Live p c w × (w.live ≡ l)

  ends-LiveAt :
      (p : Bool) (c : List String) (l : RunState D) (n : Next) (w : World D)
      → LiveAt p c l w
      → Post (LiveAt p c l) (ends n w)
  ends-LiveAt p c l goes w k = k
  ends-LiveAt p c l (raises x) w k = k.0.good
  ends-LiveAt p c l dies w k = k.0.good

  moved-Live :
      (p : Bool) (c : List String) (w : World D) (ms : List Moment)
      → Live p c w
      → Live p c (record w { tape = ms })
  moved-Live p c w ms h = record {
    good = h.good;
    same = h.same;
    steps = h.steps;
    distinct = h.distinct;
    status = h.status;
  }

  touched-Live :
      (p : Bool) (c : List String) (w : World D) (b : Bool)
      → Live p c w
      → Live p c (record w { run = if b then cancel w.run else w.run })
  touched-Live p c w true h = cancel-Live p c w h
  touched-Live p c w false h = h

  await_on-Live :
      (p : Bool) (c : List String) (l : RunState D) (ms : List Moment)
      → Triple (LiveAt p c l) (await_on ms) (LiveAt p c l)
  await_on-Live p c l [] w h = h
  await_on-Live p c l (m ∷ ms) w h =
      ends-LiveAt p c l m.next
        (record w { run = if m.is_cancelled then cancel w.run else w.run; tape = ms })
        (
          moved-Live p c (record w { run = if m.is_cancelled then cancel w.run else w.run }) ms
              (touched-Live p c w m.is_cancelled h.0),
          h.1,
        )

  pub await-LiveAt :
      (p : Bool) (c : List String) (l : RunState D) → Triple (LiveAt p c l) await (LiveAt p c l)
  unfolding await
  await-LiveAt p c l w h = await_on-Live p c l w.tape w h

  Post-first :
      (p : Bool) (c : List String) (l : RunState D) (out : Exit (Unit {0}) × World D)
      → Post (LiveAt p c l) out
      → Post (Live p c) out
  Post-first p c l (ok a, w) h = h.0
  Post-first p c l (failed x, w) h = h
  Post-first p c l (died, w) h = h

  pub await-Live : (p : Bool) (c : List String) → Triple {D = D} (Live p c) await (Live p c)
  await-Live p c w h = Post-first p c w.live (await w) (await-LiveAt p c w.live w (h, refl))
