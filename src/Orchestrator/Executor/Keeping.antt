-- ===== src/Orchestrator/Executor/Keeping.antt =====
-- What holds of a stored run at all times, of the process while it executes it, and how the
-- executor's pieces keep it.
use bu_vi.Base.{
  ◌+◌, ◌≡◌, refl, String, Bool, true, false, not, ◌&&◌, ◌||◌, List, [], ◌∷◌, map, length, arith,
  if◌then◌else◌, ◌=s◌, has, Bool-cases, inl, inr, ap,
}
use bu_vi.Orchestrator.Executor.Rows.{Run, RunEvent, key, max_seq, append_event, is_terminal}
use bu_vi.Orchestrator.Executor.Steps.{Exit, ok, failed, died, World, Act, ◌>>◌, when}

-- The numbers are 1, 2, ... without a gap, the newest event first.
abbrev pub Numbered : List RunEvent → Type 0
Numbered [] = Unit
Numbered (e ∷ es) = (e.seq ≡ length es + 1) × Numbered es

abbrev pub Distinct : List String → Type 0
Distinct [] = Unit
Distinct (x ∷ xs) = (has x xs ≡ false) × Distinct xs

abbrev pub key_of : RunEvent → String
key_of e = key e.stage e.status

-- no event that ends the run
abbrev pub is_open : List String → Bool
is_open emitted =
    not (has "run.completed" emitted || has "run.failed" emitted || has "run.cancelled" emitted)

abbrev pub is_held : String → Bool
is_held status = status =s "running" || status =s "cancelled"

max_seq-Numbered : (es : List RunEvent) → Numbered es → max_seq es ≡ length es
unfolding max_seq
max_seq-Numbered [] h = refl
max_seq-Numbered (e ∷ es) h = ground (arith, max_seq-Numbered es h.1)

pub append_event-Numbered :
    (stage status : String) (es : List RunEvent)
    → Numbered es
    → Numbered (append_event stage status es)
unfolding append_event
append_event-Numbered stage status es h = (ap (λ n. n + 1) (max_seq-Numbered es h), h)

pub append_event-keys :
    (stage status : String) (es : List RunEvent)
    → map key_of (append_event stage status es) ≡ key stage status ∷ map key_of es
unfolding append_event
append_event-keys stage status es = refl

pub terminal_if : (status : String) → status ≡ "completed" → is_terminal status ≡ true
unfolding is_terminal has
terminal_if status e = rw e refl

pub terminal_if' : (status : String) → status ≡ "cancelled" → is_terminal status ≡ true
unfolding is_terminal has
terminal_if' status e = rw e refl

pub cancelled_ended : (b : Bool) → (is_terminal "cancelled" || b) ≡ true
unfolding is_terminal has
cancelled_ended b = refl

module _ {D : Type 0} where
  -- The stored events are numbered without gaps; their keys are those that count as emitted, and no
  -- event and no finished step is there twice; a run that is not ended has no event that ends it.
  pub record Good (run : Run D) : Type 0 where
    pub numbered : Numbered run.events
    pub keys : map key_of run.events ≡ run.flow_state.emitted_events
    pub distinct : Distinct run.flow_state.emitted_events
    pub steps : Distinct run.flow_state.completed_steps
    pub known :
        (is_terminal run.status || (run.status =s "queued" || run.status =s "running")) ≡ true
    pub open_run :
        (is_terminal run.status
          || is_open run.flow_state.emitted_events
            && not (has "publish_events" run.flow_state.completed_steps))
        ≡ true

  -- The process executes the run, having finished the steps `c`; `ended`: it has completed it.
  pub record Live (ended : Bool) (c : List String) (w : World D) : Type 0 where
    pub good : Good w.run
    pub same : w.live.emitted_events ≡ w.run.flow_state.emitted_events
    pub steps : w.live.completed_steps ≡ c
    pub distinct : Distinct c
    pub status :
        (if ended
          then w.run.status =s "completed"
          else is_held w.run.status
            && (is_open w.live.emitted_events && not (has "publish_events" c)))
        ≡ true

  -- The process executes the run, and whatever steps it has finished.
  abbrev pub Held : World D → Type 0
  Held w = (c : List String) × Live false c w

  abbrev pub Ended : World D → Type 0
  Ended w = (c : List String) × Live true c w

  abbrev pub Post : (World D → Type 0) → Exit (Unit {0}) × World D → Type 0
  Post Q (ok a, w) = Q w
  Post Q (failed c, w) = Good w.run
  Post Q (died, w) = Good w.run

  -- From a world with `P`, the piece ends in one with `Q`, or fails or dies with a good run stored.
  abbrev pub Triple : (World D → Type 0) → Act D (Unit {0}) → (World D → Type 0) → Type 0
  Triple P m Q = (w : World D) → P w → Post Q (m w)

  Post-then :
      (Q R : World D → Type 0) (out : Exit (Unit {0}) × World D) (k : Act D (Unit {0}))
      → Post Q out
      → Triple Q k R
      → Post R (elim out.0 [ ok a ↦ k out.1 | failed c ↦ (failed c, out.1) | died ↦ (died, out.1) ])
  Post-then Q R (ok a, w) k h n = n w h
  Post-then Q R (failed c, w) k h n = h
  Post-then Q R (died, w) k h n = h

  pub Triple-then :
      (P Q R : World D → Type 0) (m k : Act D (Unit {0}))
      → Triple P m Q
      → Triple Q k R
      → Triple P (m >> k) R
  Triple-then P Q R m k h n w p = Post-then Q R (m w) k (h w p) n

  pub Triple-when :
      (P Q : World D → Type 0) (test : World D → Bool) (m n : Act D (Unit {0}))
      → ((w : World D) → test w ≡ true → P w → Post Q (m w))
      → ((w : World D) → test w ≡ false → P w → Post Q (n w))
      → Triple P (when test m n) Q
  Triple-when P Q test m n h k w p = elim (Bool-cases (test w)) [
    | inl e ↦ rw e (h w e p)
    | inr e ↦ rw e (k w e p)
  ]

  pub Good-if : (b : Bool) (x y : Run D) → Good x → Good y → Good (if b then x else y)
  Good-if true x y h k = h
  Good-if false x y h k = k

  pub run-open :
      (run : Run D)
      → Good run
      → is_terminal run.status ≡ false
      → (has "run.completed" run.flow_state.emitted_events ≡ false)
        × (has "run.failed" run.flow_state.emitted_events ≡ false)
        × (has "run.cancelled" run.flow_state.emitted_events ≡ false)
        × (has "publish_events" run.flow_state.completed_steps ≡ false)
  run-open run h e = ground (arith, h.open_run)
