-- ===== src/Orchestrator/Router.antt =====
-- application/services/model_router.py of apps/analytics-orchestrator, with `Usage` of
-- domain/value_objects/run_state.py: `generate`, `_call` and `_charge`.
-- Model providers and the token ledger answer as the environment says, call by call. `on_charged`
-- is `RunExecutor._persist_usage`: it saves the usage with the run. Usage events and a ledger that
-- fails to book a charge change nothing here, as in the source.
use bu_vi.Base.{
  ℕ, suc, zero, ◌+◌, Bool, true, false, Option, none, some, List, [], ◌∷◌, ltb, if◌then◌else◌,
  Result, ok, err, ◌/◌,
}
use bu_vi.Orchestrator.Failures.{
  FailureCode, run_budget_exceeded, tenant_budget_exceeded, budget_unavailable, model_refused,
  model_unavailable,
}

pub record Usage : Type 0 where
  pub input_tokens : ℕ
  pub output_tokens : ℕ
  pub calls : ℕ

abbrev pub total : Usage → ℕ
total u = u.input_tokens + u.output_tokens

-- The part of the run's state that the router reads and writes: the live usage, and the usage that
-- is stored with the run.
pub record Run : Type 0 where
  pub usage : Usage
  pub saved : Usage

-- `BudgetLimits`
pub record BudgetLimits : Type 0 where
  pub run_tokens : ℕ
  pub tenant_daily_tokens : ℕ
  pub max_tokens_per_call : ℕ
  pub max_repairs : ℕ

-- What a provider does with one request: an answer, or one of its three errors.
pub data Reply (Out : Type 0) : Type 0 where
  answered : Out → ℕ → ℕ → Reply Out
  output_invalid refused : ℕ → ℕ → Reply Out
  unavailable : Reply Out

-- `_charge`
unfoldable pub charge : BudgetLimits → ℕ → ℕ → Run → Result FailureCode (Unit {0}) × Run
charge limits input_tokens output_tokens run =
    let u : Usage = record {
      input_tokens = run.usage.input_tokens + input_tokens;
      output_tokens = run.usage.output_tokens + output_tokens;
      calls = run.usage.calls + 1;
    } in
    (
      if ltb limits.run_tokens (total u) then err run_budget_exceeded else ok tt,
      record { usage = u; saved = u },
    )

-- `estimate_tokens` of prompts.py, on the lengths of the two texts
unfoldable pub estimate_tokens : ℕ → ℕ → ℕ
estimate_tokens system_length user_length = (system_length + user_length) / 3 + 1

-- What one `_call` meets: its two texts, the tenant's use today (none: the ledger raises), and the
-- reply of each route in turn.
pub record Call (Out : Type 0) : Type 0 where
  pub system_length : ℕ
  pub user_length : ℕ
  pub used_today : Option ℕ
  pub replies : List (Reply Out)

module _ {Out : Type 0} where
  -- after a charge that did not raise
  abbrev pub after :
      Result FailureCode (Unit {0}) × Run
      → (Run → Result FailureCode (Option Out) × Run)
      → Result FailureCode (Option Out) × Run
  after (ok _, run) k = k run
  after (err e, run) k = (err e, run)

  -- The loop over the routes; `was_refused` is the local `refused`.
  unfoldable pub try_routes :
      BudgetLimits → List (Reply Out) → Bool → Run → Result FailureCode (Option Out) × Run
  try_routes limits [] was_refused run =
      (err (if was_refused then model_refused else model_unavailable), run)
  try_routes limits (answered out i o ∷ rest) was_refused run =
      after (charge limits i o run) (λ r. (ok (some out), r))
  try_routes limits (output_invalid i o ∷ rest) was_refused run =
      after (charge limits i o run) (λ r. (ok none, r))
  try_routes limits (refused i o ∷ rest) was_refused run =
      after (charge limits i o run) (λ r. try_routes limits rest true r)
  try_routes limits (unavailable ∷ rest) was_refused run = try_routes limits rest was_refused run

  -- The tenant's daily budget, from what the ledger says; none: it raised.
  unfoldable pub check_daily :
      BudgetLimits
      → ℕ
      → Option ℕ
      → Run
      → Result FailureCode (Option Out) × Run
      → Result FailureCode (Option Out) × Run
  check_daily limits estimate none run served = (err budget_unavailable, run)
  check_daily limits estimate (some used) run served =
      if ltb limits.tenant_daily_tokens (used + estimate)
      then (err tenant_budget_exceeded, run)
      else served

  -- `_call`: the budget guards, then the routes.
  unfoldable pub call_model : BudgetLimits → Call Out → Run → Result FailureCode (Option Out) × Run
  call_model limits c run =
      let estimate = estimate_tokens c.system_length c.user_length + limits.max_tokens_per_call in
      if ltb limits.run_tokens (total run.usage + estimate)
      then (err run_budget_exceeded, run)
      else check_daily limits estimate c.used_today run (try_routes limits c.replies false run)

  -- What the loop of `generate` makes of the problems that `check` found in an output.
  unfoldable pub accept :
      {P : Type 0}
      → Out
      → Result FailureCode (List P)
      → Run
      → (Run → Result FailureCode Out × Run)
      → Result FailureCode Out × Run
  accept out (ok []) run next = (ok out, run)
  accept out (ok (_ ∷ _)) run next = next run
  accept out (err e) run next = (err e, run)

  unfoldable pub retry :
      {P : Type 0}
      → (Out → Result FailureCode (List P))
      → Result FailureCode (Option Out) × Run
      → (Run → Result FailureCode Out × Run)
      → Result FailureCode Out × Run
  retry check (err e, run) next = (err e, run)
  retry check (ok none, run) next = next run
  retry check (ok (some out), run) next = accept out (check out) run next

  module _ {P : Type 0} where
    -- The attempts that are left, from attempt number `n` on. A check may raise, and may find other
    -- problems at another attempt.
    unfoldable pub attempts :
        BudgetLimits
        → (ℕ → Call Out)
        → (ℕ → Out → Result FailureCode (List P))
        → FailureCode
        → ℕ
        → ℕ
        → Run
        → Result FailureCode Out × Run
    attempts limits calls check exhausted zero n run = (err exhausted, run)
    attempts limits calls check exhausted (suc left) n run =
        retry (check n) (call_model limits (calls n) run)
          (λ r. attempts limits calls check exhausted left (suc n) r)

    -- `generate`
    unfoldable pub generate :
        BudgetLimits
        → (ℕ → Call Out)
        → (ℕ → Out → Result FailureCode (List P))
        → FailureCode
        → Run
        → Result FailureCode Out × Run
    unfolding attempts
    generate limits calls check exhausted run =
        attempts limits calls check exhausted (suc limits.max_repairs) 0 run
