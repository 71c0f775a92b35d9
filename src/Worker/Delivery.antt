-- ===== src/Worker/Delivery.antt =====
-- A run request from its first delivery on: the worker's decisions, with the orchestrator's
-- executions of the run.
use bu_vi.Base.{
  ap, ◌++◌, false, sym, ◌∙◌, ℕ, ◌+◌, ◌≤◌, ◌≡◌, ◌≢◌, refl, String, Bool, true, Option, none, some,
  List, [], ◌∷◌, arith, ◌⊎◌, inl, inr, length,
}
use bu_vi.Orchestrator.Executor.Rows.{Run, RunState, is_terminal}
use bu_vi.Orchestrator.Executor.Steps.{Moment, Handled}
use bu_vi.Orchestrator.Executor.Lifecycle.{Answer, outcome, busy, lost, execute, Event, after_all}
use bu_vi.Orchestrator.Executor.Keeping.{Good}
use bu_vi.Orchestrator.Executor.Terminal.{Answered, execute-Good, after_all-Good}
use bu_vi.Worker.Dispatch.{
  Disposition, ack, retry, terminate, RunDispatcher, execute_call, retry_later, decide, handle,
}

-- The response of `execute_run` (api/internal.py of apps/analytics-orchestrator): an exception that
-- is not a refusal gives 500 or no response.
unfoldable pub response_of : Answer → Option ℕ
response_of (outcome status) = some 200
response_of busy = some 409
response_of lost = none

-- A call that is refused before `execute_run` is entered: 401 or 403 by the check of the service's token,
-- 422 by the validation of the request.
pub data CallRefusal : Type 0 where
  not_authenticated not_allowed not_valid : CallRefusal

unfoldable pub status_of_refusal : CallRefusal → ℕ
status_of_refusal not_authenticated = 401
status_of_refusal not_allowed = 403
status_of_refusal not_valid = 422

-- One delivery, with what happens to the run before it.
pub record Delivery (D : Type 0) : Type 0 where
  pub meanwhile : List (Event D)
  pub refused : Option CallRefusal
  pub handlers : String → RunState D → Handled D
  pub acquired : Bool
  pub now : ℕ
  pub timeout : ℕ
  pub tape : List Moment

Disposition-cases : (x : Disposition) → (x ≡ ack) ⊎ ((x ≡ terminate) ⊎ (x ≡ retry))
Disposition-cases ack = inl refl
Disposition-cases terminate = inr (inl refl)
Disposition-cases retry = inr (inr refl)

not_ack : terminate ≢ ack
not_ack e = ground arith

not_terminate : ack ≢ terminate
not_terminate e = ground arith

abbrev pub settled_or : {A : Type 0} → Disposition → A → Disposition × A → Disposition × A
settled_or ack run rest = (ack, run)
settled_or terminate run rest = (terminate, run)
settled_or retry run rest = rest

abbrev pub is_refused : Option CallRefusal → Bool
is_refused none = false
is_refused (some refusal) = true

-- The response to a delivery's call, and the run then: that of the execution, or a refusal.
abbrev pub called_or : {R : Type 0} → Option CallRefusal → R → Answer × R → Option ℕ × R
called_or none before out = (response_of out.0, out.1)
called_or (some refusal) before out = (some (status_of_refusal refusal), before)

refused-terminate :
    (d : RunDispatcher) (count : ℕ) (refusal : CallRefusal)
    → (handle d count true (some (status_of_refusal refusal))).disposition ≡ terminate
unfolding handle decide execute_call retry_later status_of_refusal
refused-terminate d count not_authenticated = refl
refused-terminate d count not_allowed = refl
refused-terminate d count not_valid = refl

answered_terminate :
    (d : RunDispatcher) (count : ℕ) (answer : Answer)
    → (handle d count true (response_of answer)).disposition ≡ terminate
    → (most : ℕ) × (d.max_deliveries ≡ some most) × (most ≤ count)
unfolding handle decide response_of execute_call retry_later
answered_terminate d count (outcome status) e = absurd (ground arith)
answered_terminate d count busy e = ground arith
answered_terminate d count lost e = ground arith

module _ {D : Type 0} where
  -- `execute` of the orchestrator as one delivery calls it
  unfoldable pub call_execute : Delivery D → Run D → Option ℕ × Run D
  call_execute x run =
      let before = after_all x.meanwhile run in
      called_or x.refused before (execute x.handlers x.acquired x.now x.timeout x.tape before)

  -- The deliveries of one message, the first with this count, until the worker settles it; the
  -- disposition is `retry` where it is not settled.
  unfoldable pub deliver : RunDispatcher → ℕ → List (Delivery D) → Run D → Disposition × Run D
  deliver d count [] run = (retry, run)
  deliver d count (x ∷ xs) run =
      let out = call_execute x run in
      let rest = deliver d (count + 1) xs out.1 in
      settled_or (handle d count true out.0).disposition out.1 rest

  Answered-ack :
      (d : RunDispatcher) (count : ℕ) (out : Answer × Run D)
      → Answered out
      → (handle d count true (response_of out.0)).disposition ≡ ack
      → is_terminal out.1.status ≡ true
  unfolding handle decide response_of execute_call retry_later
  Answered-ack d count (outcome status, run) h e = rw (h.0) (h.1)
  Answered-ack d count (busy, run) h e = absurd (ground arith)
  Answered-ack d count (lost, run) h e = absurd (ground arith)

  -- A call leaves a good run good, and is answered 200 only by an execution that ended it.
  call_execute-Good :
      (d : RunDispatcher) (count : ℕ) (x : Delivery D) (run : Run D)
      → Good run
      → Good (call_execute x run).1
        × ((handle d count true (call_execute x run).0).disposition ≡ ack
            → is_terminal (call_execute x run).1.status ≡ true)
  unfolding call_execute
  call_execute-Good d count x run h = by_refusal x.refused
    where
      before : Run D
      before = after_all x.meanwhile run

      by_refusal :
          (o : Option CallRefusal)
          → let called : Option ℕ × Run D =
              called_or o before (execute x.handlers x.acquired x.now x.timeout x.tape before) in
            Good called.1
            × ((handle d count true called.0).disposition ≡ ack
                → is_terminal called.1.status ≡ true)
      by_refusal none =
          let g =
            execute-Good x.handlers x.acquired x.now x.timeout x.tape before
              (after_all-Good x.meanwhile run h) in
          (g.0, λ e. Answered-ack d count _ g.1 e)
      by_refusal (some refusal) = (
        after_all-Good x.meanwhile run h,
        λ e. absurd (not_ack (sym (refused-terminate d count refusal) ∙ e)),
      )

  called_terminate :
      (d : RunDispatcher) (count : ℕ) (x : Delivery D) (run : Run D)
      → (handle d count true (call_execute x run).0).disposition ≡ terminate
      → (is_refused x.refused ≡ true)
        ⊎ ((most : ℕ) × (d.max_deliveries ≡ some most) × (most ≤ count))
  unfolding call_execute
  called_terminate d count x run e = by_refusal x.refused e
    where
      before : Run D
      before = after_all x.meanwhile run

      by_refusal :
          (o : Option CallRefusal)
          → let called : Option ℕ × Run D =
              called_or o before (execute x.handlers x.acquired x.now x.timeout x.tape before) in
            (handle d count true called.0).disposition ≡ terminate
            → (is_refused o ≡ true) ⊎ ((most : ℕ) × (d.max_deliveries ≡ some most) × (most ≤ count))
      by_refusal none e = inr (answered_terminate d count _ e)
      by_refusal (some refusal) e = inl refl

  -- A worker acknowledges the request of a good run only after the run has reached a terminal status:
  -- over any deliveries, with calls that are refused, with executions that are interrupted and
  -- resumed, and with cancellations and other executions between them.
  pub deliver-acked :
      (d : RunDispatcher) (count : ℕ) (xs : List (Delivery D)) (run : Run D)
      → Good run
      → (deliver d count xs run).0 ≡ ack
      → is_terminal (deliver d count xs run).1.status ≡ true
  unfolding deliver
  deliver-acked d count [] run h e = absurd (ground arith)
  deliver-acked d count (x ∷ xs) run h e =
      let out = call_execute x run in
      let g = call_execute-Good d count x run h in
      elim (Disposition-cases (handle d count true out.0).disposition) [
        | inl a ↦ rw (a, deliver) (g.1 a)
        | inr (inl t) ↦ absurd (not_ack (rw (t, deliver) at e))
        | inr (inr r) ↦
            rw (r, deliver) (deliver-acked d (count + 1) xs out.1 g.0 (rw (r, deliver) at e))
      ]

  -- Where a message is given up: at a delivery that is not settled before, whose call is refused or that
  -- the stream's limit makes the last.
  pub record GivenUp (d : RunDispatcher) (count : ℕ) (xs : List (Delivery D)) (run : Run D)
      : Type 0 where
    pub before : List (Delivery D)
    pub last : Delivery D
    pub after : List (Delivery D)
    pub splits : xs ≡ before ++ last ∷ after
    pub unsettled : (deliver d count before run).0 ≡ retry
    pub cause :
        (is_refused last.refused ≡ true)
        ⊎ ((most : ℕ) × (d.max_deliveries ≡ some most) × (most ≤ count + length before))

  -- The request of a run that exists is given up only on a delivery whose call the orchestrator refuses
  -- with 401, 403 or 422, or on one that the stream's limit makes the last, and on no delivery before
  -- that one was it settled: without a limit, and as long as no call is refused, it is never given up.
  pub deliver-terminated :
      (d : RunDispatcher) (count : ℕ) (xs : List (Delivery D)) (run : Run D)
      → (deliver d count xs run).0 ≡ terminate
      → GivenUp d count xs run
  unfolding deliver
  deliver-terminated d count [] run e = absurd (ground arith)
  deliver-terminated d count (x ∷ xs) run e =
      let out = call_execute x run in
      elim (Disposition-cases (handle d count true out.0).disposition) [
        | inl a ↦ absurd (not_terminate (rw (a, deliver) at e))
        | inr (inl t) ↦ record {
          before = [];
          last = x;
          after = xs;
          splits = refl;
          unsettled = refl;
          cause = elim (called_terminate d count x run t) [
            | inl refused ↦ inl refused
            | inr (most, m, le) ↦ inr (most, m, omega arith)
          ];
        }
        | inr (inr r) ↦
            let g = deliver-terminated d (count + 1) xs out.1 (rw (r, deliver) at e) in
            record {
              before = x ∷ g.before;
              last = g.last;
              after = g.after;
              splits = ap (λ ys. x ∷ ys) g.splits;
              unsettled = rw (r, deliver) g.unsettled;
              cause = elim g.cause [
                | inl refused ↦ inl refused
                | inr (most, m, le) ↦ inr (most, m, omega arith)
              ];
            }
      ]
