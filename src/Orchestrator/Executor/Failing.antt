-- ===== src/Orchestrator/Executor/Failing.antt =====
-- What `_fail` makes of a run.
use bu_vi.Base.{
  ◌≡◌, refl, String, Bool, true, false, not, ◌&&◌, ◌||◌, Option, none, some, ◌∷◌, map, arith,
  if◌then◌else◌, ◌=s◌, =s_iff, has, Bool-cases, inl, inr, ap, leb,
}
use bu_vi.Orchestrator.Failures.{FailureCode}
use bu_vi.Orchestrator.Router.{Usage, total}
use bu_vi.Orchestrator.Executor.Rows.{Run, key, append_event, finish_run, is_terminal, flow_steps}
use bu_vi.Orchestrator.Executor.Lifecycle.{
  failed_stage, tell, tell_stage, tell_run, final_status, is_cancel, fail_run,
}
use bu_vi.Orchestrator.Executor.Keeping.{
  Numbered, Distinct, key_of, is_held, Good, append_event-Numbered,
}

ended_text :
    (b : Bool)
    → ((if b then "cancelled" else "failed") =s "failed"
        || (if b then "cancelled" else "failed") =s "cancelled")
      ≡ true
ended_text true = refl
ended_text false = refl

terminal_text :
    (status : String)
    → (status =s "failed" || status =s "cancelled") ≡ true
    → is_terminal status ≡ true
unfolding is_terminal has
terminal_text status h = ground arith

pub started_text :
    (status : String)
    → (status =s "queued" || status =s "running") ≡ true
    → ((if status =s "queued" then "running" else status) =s "running") ≡ true
started_text status h = elim (Bool-cases (status =s "queued")) [
  | inl e ↦ rw e refl
  | inr e ↦ rw e (ground arith)
]

pub held_open :
    (status : String) (b : Bool)
    → (status =s "running") ≡ true
    → b ≡ true
    → (is_held status && b) ≡ true
held_open status b h k = ground arith

pub started_known :
    (status : String)
    → (status =s "running") ≡ true
    → (is_terminal status || (status =s "queued" || status =s "running")) ≡ true
started_known status h = ground arith

module _ {D : Type 0} where
  -- A run that is good but for what an end must not repeat.
  record Told (run : Run D) : Type 0 where
    pub numbered : Numbered run.events
    pub keys : map key_of run.events ≡ run.flow_state.emitted_events
    pub distinct : Distinct run.flow_state.emitted_events
    pub steps : Distinct run.flow_state.completed_steps

  tell-Told :
      (stage status : String) (run : Run D)
      → has (key stage status) run.flow_state.emitted_events ≡ false
      → Told run
      → Told (tell stage status run)
  unfolding append_event
  tell-Told stage status run new h = record {
    numbered = append_event-Numbered stage status run.events h.numbered;
    keys = ap (key stage status ∷◌) h.keys;
    distinct = (new, h.distinct);
    steps = h.steps;
  }

  Told-if : (b : Bool) (x y : Run D) → (b ≡ true → Told x) → Told y → Told (if b then x else y)
  Told-if true x y n o = n refl
  Told-if false x y n o = o

  tell_stage-Told :
      (stage : Option String) (status : String) (run : Run D)
      → Told run
      → Told (tell_stage stage status run)
  unfolding tell_stage
  tell_stage-Told none status run h = h
  tell_stage-Told (some stage) status run h =
      Told-if _ _ _ (λ e. tell-Told stage status run (ground arith) h) h

  tell_run-Told :
      (status : String) (run : Run D)
      → ((status =s "failed" || status =s "cancelled") ≡ true)
      → Told run
      → Told (tell_run status run)
  unfolding tell_run
  tell_run-Told status run which h = Told-if _ _ _ (λ e. tell-Told "run" status run (new e) h) h
    where
      new :
          (not (has "run.failed" run.flow_state.emitted_events)
              && (not (has "run.completed" run.flow_state.emitted_events)
                  && not (has "run.cancelled" run.flow_state.emitted_events)))
            ≡ true
          → has (key "run" status) run.flow_state.emitted_events ≡ false
      new e = elim (Bool-cases (status =s "failed")) [
        | inl f ↦ rw ((=s_iff status "failed").0 f) (ground arith)
        | inr n ↦
            let c : status ≡ "cancelled" = (=s_iff status "cancelled").0 (ground arith) in
            rw c (ground arith)
      ]

  final_status-ends :
      (run : Run D) (code : FailureCode)
      → (final_status run code =s "failed" || final_status run code =s "cancelled") ≡ true
  unfolding final_status
  final_status-ends run code = ended_text (run.status =s "cancelled" || is_cancel code)

  -- `_fail` ends any good run in a terminal status, and repeats no event.
  pub fail_run-Good :
      (code : FailureCode) (u : Usage) (run : Run D)
      → Good run
      → Good (fail_run code u run) × (is_terminal (fail_run code u run).status ≡ true)
  unfolding fail_run finish_run
  fail_run-Good code u run h =
      let usage = if leb (total run.flow_state.usage) (total u) then u else run.flow_state.usage in
      let current : Run D = record run { flow_state = record run.flow_state { usage = usage } } in
      let status = final_status run code in
      let stage = failed_stage flow_steps run.flow_state.completed_steps in
      let ends = final_status-ends run code in
      let e = terminal_text status ends in
      let t : Told (tell_run status (tell_stage stage status current)) =
        tell_run-Told status (tell_stage stage status current) ends (
          tell_stage-Told stage status current (record {
            numbered = h.numbered;
            keys = h.keys;
            distinct = h.distinct;
            steps = h.steps;
          })) in
      (
        record {
          numbered = t.numbered;
          keys = t.keys;
          distinct = t.distinct;
          steps = t.steps;
          known = rw e;
          open_run = rw e;
        },
        e,
      )
