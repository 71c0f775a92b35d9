-- ===== src/Orchestrator/Executor/Events.antt =====
-- The pieces of a step keep the run, and so does the whole flow.
use bu_vi.Base.{
  ◌==◌, =s_sym, ℕ, ◌≡◌, refl, String, Bool, true, false, not, ◌&&◌, ◌||◌, Option, none, some, List,
  ◌∷◌, map, arith, if◌then◌else◌, ◌=s◌, =s_iff, has, Bool-cases, inl, inr, ap, sym, ◌∙◌, =s_sym,
}
use bu_vi.Orchestrator.Failures.{cancelled}
use bu_vi.Orchestrator.Router.{Usage}
use bu_vi.Orchestrator.Executor.Rows.{
  RunEvent, RunState, key, append_event, save_flow_state, finish_run, is_terminal,
}
use bu_vi.Orchestrator.Executor.Steps.{
  World, ◌>>◌, pass, write, when, await, record_event, emit, emit_if, persist, charge_usage,
  say_once, fail_with, ensure_not_cancelled, say_if, say_reply, close, Handled, finished, gives_up,
  settle,
}
use bu_vi.Orchestrator.Executor.Keeping.{
  Numbered, Distinct, key_of, is_open, is_held, Live, Triple, Triple-then, Triple-when,
  append_event-Numbered, terminal_if, terminal_if',
}
use bu_vi.Orchestrator.Executor.Cancelling.{await-Live, LiveAt, await-LiveAt}

-- A key that does not end the run.
unfoldable pub is_plain : String → Bool
is_plain k = not (k =s "run.completed" || k =s "run.failed" || k =s "run.cancelled")

abbrev pub plain_event : Option String → Bool → String → Bool
plain_event none wanted status = true
plain_event (some stage) wanted status = not wanted || is_plain (key stage status)

plain-open :
    (k : String) (emitted : List String)
    → is_plain k ≡ true
    → is_open (k ∷ emitted) ≡ is_open emitted
unfolding is_plain has
plain-open k emitted h =
    ground (arith, =s_sym k "run.completed", =s_sym k "run.failed", =s_sym k "run.cancelled")

open_if :
    (status : String) (b : Bool) → (is_held status && b) ≡ true → (is_terminal status || b) ≡ true
open_if status b h = ground arith

abbrev phase : Bool → List String → String → List String → Bool
phase p c status emitted =
    if p
    then status =s "completed"
    else is_held status && (is_open emitted && not (has "publish_events" c))

phase-open :
    (p : Bool) (c : List String) (status : String) (emitted : List String)
    → phase p c status emitted ≡ true
    → (is_terminal status || is_open emitted && not (has "publish_events" c)) ≡ true
phase-open true c status emitted h =
    let e = terminal_if status ((=s_iff status "completed").0 h) in ground arith
phase-open false c status emitted h = open_if status _ h

phase-known :
    (p : Bool) (c : List String) (status : String) (emitted : List String)
    → phase p c status emitted ≡ true
    → (is_terminal status || (status =s "queued" || status =s "running")) ≡ true
phase-known true c status emitted h =
    let e = terminal_if status ((=s_iff status "completed").0 h) in ground arith
phase-known false c status emitted h = ground (arith, cancelled_lem)
  where
    cancelled_lem : (status =s "cancelled") ≡ true → is_terminal status ≡ true
    cancelled_lem e = terminal_if' status ((=s_iff status "cancelled").0 e)

open_held : (b : Bool) → (is_terminal "running" || b) ≡ b
unfolding is_terminal has
open_held b = refl

module _ {D : Type 0} where
  -- Storing the live state with events that fit it.
  stored-Live :
      (p : Bool) (c : List String) (w : World D) (es : List RunEvent)
      → Numbered es
      → map key_of es ≡ w.live.emitted_events
      → Distinct w.live.emitted_events
      → w.live.completed_steps ≡ c
      → Distinct c
      → phase p c w.run.status w.live.emitted_events ≡ true
      → Live p c (record w { run = record w.run { events = es; flow_state = w.live } })
  stored-Live p c w es n k d s dc ph = record {
    good = record {
      numbered = n;
      keys = k;
      distinct = d;
      steps = rw s dc;
      known = phase-known p c w.run.status w.live.emitted_events ph;
      open_run = rw s (phase-open p c w.run.status w.live.emitted_events ph);
    };
    same = refl;
    steps = s;
    distinct = dc;
    status = ph;
  }

  Live-Distinct :
      (p : Bool) (c : List String) (w : World D) → Live p c w → Distinct w.live.emitted_events
  Live-Distinct p c w h = rw h.same h.good.distinct

  record_event-Live :
      (c : List String) (stage status : String) (w : World D)
      → is_plain (key stage status) ≡ true
      → has (key stage status) w.live.emitted_events ≡ false
      → Live false c w
      → Live false c (record_event stage status w)
  unfolding record_event save_flow_state append_event
  record_event-Live c stage status w plain new h =
      let emitted = key stage status ∷ w.live.emitted_events in
      stored-Live false c (record w { live = record w.live { emitted_events = emitted } })
        (append_event stage status w.run.events)
        (append_event-Numbered stage status w.run.events h.good.numbered)
        (ap (key stage status ∷◌) (h.good.keys ∙ sym h.same)) (new, Live-Distinct false c w h)
        h.steps h.distinct (rw (plain-open (key stage status) w.live.emitted_events plain) h.status)

  emit-Live :
      (c : List String) (stage status : String)
      → is_plain (key stage status) ≡ true
      → Triple {D = D} (Live false c) (emit stage status) (Live false c)
  unfolding emit
  emit-Live c stage status plain =
      Triple-when L L (λ w. has (key stage status) w.live.emitted_events) pass
        (await >> (write (record_event stage status) >> await)) (λ w e h. h)
        (λ w new h.
          Triple-then (LiveAt false c w.live) (LiveAt false c w.live) L await _
            (await-LiveAt false c w.live)
            (Triple-then (LiveAt false c w.live) L L (write (record_event stage status)) await
              (λ v g.
                record_event-Live c stage status v plain
                  (ap (λ (l : RunState D). has (key stage status) l.emitted_events) g.1 ∙ new) g.0)
              (await-Live false c))
            w (h, refl))
    where
      L : World D → Type 0
      L = Live false c

  pub persist-Live : (p : Bool) (c : List String) → Triple {D = D} (Live p c) persist (Live p c)
  unfolding persist save_flow_state
  persist-Live p c =
      Triple-then (Live p c) (Live p c) (Live p c) await
        (write (λ w. record w { run = save_flow_state w.run w.live })) (await-Live p c)
        (λ w h.
          stored-Live p c w w.run.events h.good.numbered (h.good.keys ∙ sym h.same)
            (Live-Distinct p c w h) h.steps h.distinct h.status)

  pub emit_if-Live :
      (c : List String) (stage : Option String) (wanted : Bool) (status : String)
      → plain_event stage wanted status ≡ true
      → Triple {D = D} (Live false c) (emit_if stage wanted status) (Live false c)
  emit_if-Live c none wanted status plain w h = h
  emit_if-Live c (some s) false status plain w h = h
  emit_if-Live c (some s) true status plain w h = emit-Live c s status plain w h

  pub ensure_not_cancelled-Live :
      (c : List String) → Triple {D = D} (Live false c) ensure_not_cancelled (Live false c)
  unfolding ensure_not_cancelled
  ensure_not_cancelled-Live c =
      Triple-then L L L await (when (λ w. w.run.status =s "cancelled") (fail_with cancelled) pass)
        (await-Live false c)
        (Triple-when L L (λ w. w.run.status =s "cancelled") (fail_with cancelled) pass
          (λ w e h. h.good) (λ w e h. h))
    where
      L : World D → Type 0
      L = Live false c

  -- Neither a charge nor a message touches the steps and the events.
  charge_usage-Live :
      (c : List String) (u : Usage) (w : World D) → Live false c w → Live false c (charge_usage u w)
  unfolding charge_usage save_flow_state
  charge_usage-Live c u w h = record {
    good = record {
      numbered = h.good.numbered;
      keys = h.good.keys;
      distinct = h.good.distinct;
      steps = h.good.steps;
      known = h.good.known;
      open_run = h.good.open_run;
    };
    same = h.same;
    steps = h.steps;
    distinct = h.distinct;
    status = h.status;
  }

  counted-Live :
      (c : List String) (w : World D) (n : ℕ)
      → Live false c w
      → Live false c (record w { run = record w.run { assistant_messages = n } })
  counted-Live c w n h = record {
    good = record {
      numbered = h.good.numbered;
      keys = h.good.keys;
      distinct = h.good.distinct;
      steps = h.good.steps;
      known = h.good.known;
      open_run = h.good.open_run;
    };
    same = h.same;
    steps = h.steps;
    distinct = h.distinct;
    status = h.status;
  }

  pub say_once-Live : (c : List String) (w : World D) → Live false c w → Live false c (say_once w)
  unfolding say_once
  say_once-Live c w h = elim (Bool-cases (w.run.assistant_messages == 0)) [
    | inl e ↦ rw e (counted-Live c w 1 h)
    | inr e ↦ rw e h
  ]

  pub settle-Live :
      (c : List String) (out : Handled D) → Triple (Live false c) (settle out) (Live false c)
  settle-Live c (gives_up u x) w h = (charge_usage-Live c u w h).good
  settle-Live c (finished u reply outputs) w h =
      let k = charge_usage-Live c u w h in
      record {
        good = k.good;
        same = k.same;
        steps = k.steps;
        distinct = k.distinct;
        status = k.status;
      }

  say_if-Live :
      (c : List String) (reply : Option String) (w : World D)
      → Live false c w
      → Live false c (say_if reply w)
  say_if-Live c none w h = h
  say_if-Live c (some _) w h = say_once-Live c w h

  pub say_reply-Live : (c : List String) (w : World D) → Live false c w → Live false c (say_reply w)
  unfolding say_reply
  say_reply-Live c w h = say_if-Live c w.live.reply w h

  -- The end of the run: no event has ended it before.
  pub close-Live : (c : List String) (w : World D) → Live false c w → Live true c (close w)
  unfolding close finish_run append_event
  close-Live c w h =
      let emitted = "run.completed" ∷ w.live.emitted_events in
      let new : has "run.completed" w.live.emitted_events ≡ false = ground (arith, h.status) in
      stored-Live true c
        (record w {
          live = record w.live { emitted_events = emitted };
          run = record w.run { status = "completed"; error_code = none };
        })
        (append_event "run" "completed" w.run.events)
        (append_event-Numbered "run" "completed" w.run.events h.good.numbered)
        (ap ("run.completed" ∷◌) (h.good.keys ∙ sym h.same)) (new, Live-Distinct false c w h)
        h.steps h.distinct refl
