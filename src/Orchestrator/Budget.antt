-- ===== src/Orchestrator/Budget.antt =====
-- What the router guarantees of a run's budget, of repairs, and of the usage it saves.
use bu_vi.Base.{
  ℕ, suc, zero, ◌+◌, ◌*◌, ◌≤◌, ◌<◌, ◌≡◌, refl, Bool, true, false, Option, none, some, List, [], ◌∷◌,
  ltb, arith, length, if◌then◌else◌, Result, ok, err, inl, inr, ◌⊎◌,
}
use bu_vi.Orchestrator.Failures.{FailureCode}
use bu_vi.Orchestrator.Router.{
  total, Run, BudgetLimits, Reply, answered, output_invalid, refused, unavailable, charge, after,
  try_routes, Call, check_daily, call_model, accept, retry, attempts, generate,
}

-- What a part of the router may do to a run: it only adds usage, at most `k` calls, and leaves what
-- it saved equal to the live usage if it was.
pub record Pays (before after : Run) (k : ℕ) : Type 0 where
  pub calls_up : before.usage.calls ≤ after.usage.calls
  pub calls_bound : after.usage.calls ≤ before.usage.calls + k
  pub input_up : before.usage.input_tokens ≤ after.usage.input_tokens
  pub output_up : before.usage.output_tokens ≤ after.usage.output_tokens

-- the usage that is saved is the live one
abbrev pub IsSaved : Run → Type 0
IsSaved run = run.saved ≡ run.usage

-- A step of the router from the run `before`, with at most `k` charged calls: it only adds usage,
-- it saves what it adds, and if it succeeds the run is within its budget.
pub record Sound {A : Type 0} (limits : BudgetLimits) (k : ℕ) (before : Run)
    (out : Result FailureCode A × Run) : Type 0 where
  pub pays : Pays before out.1 k
  pub saved : IsSaved before → IsSaved out.1
  pub within : (a : A) → out.0 ≡ ok a → total out.1.usage ≤ limits.run_tokens

Pays-trans : {a b c : Run} {j k : ℕ} → Pays a b j → Pays b c k → Pays a c (j + k)
Pays-trans p q = omega arith

Pays-none : (a : Run) (k : ℕ) → Pays a a k
Pays-none a k = omega arith

module _ (limits : BudgetLimits) where
  charge-Sound : (i o : ℕ) (run : Run) → Sound limits 1 run (charge limits i o run)
  unfolding charge
  charge-Sound i o run = record {
    pays = omega arith;
    saved = λ _. refl;
    within = λ a h. ground arith;
  }

  Sound-err :
      {A : Type 0} (k : ℕ) (e : FailureCode) (run : Run) → Sound {A = A} limits k run (err e, run)
  Sound-err k e run = record { pays = Pays-none run k; saved = λ h. h; within = λ a h. cc }

  Sound-ok :
      {A : Type 0} (k : ℕ) (a : A) (run : Run)
      → total run.usage ≤ limits.run_tokens
      → Sound limits k run (ok a, run)
  Sound-ok k a run h = record { pays = Pays-none run k; saved = λ s. s; within = λ _ _. h }

  -- the rule for one step after another
  Sound-then :
      {A : Type 0} {j k n : ℕ} {a b : Run} (out : Result FailureCode A × Run)
      → j + k ≤ n
      → Pays a b j
      → (IsSaved a → IsSaved b)
      → Sound limits k b out
      → Sound limits n a out
  Sound-then {j} {k} {n} out le p s q = record {
    pays = let pq = Pays-trans p q.pays in omega arith;
    saved = λ h. q.saved (s h);
    within = q.within;
  }

  weaker :
      {A : Type 0} {j n : ℕ} {a : Run} {out : Result FailureCode A × Run}
      → j ≤ n
      → Sound limits j a out
      → Sound limits n a out
  weaker {j} {n} {a} {out} le q =
      Sound-then {j = 0} {k = j} out (omega arith) (Pays-none a 0) (λ h. h) q

  Sound-if :
      {A : Type 0} {k : ℕ} {a : Run} {x y : Result FailureCode A × Run} (b : Bool)
      → Sound limits k a x
      → Sound limits k a y
      → Sound limits k a (if b then x else y)
  Sound-if true hx hy = hx
  Sound-if false hx hy = hy

  module _ {Out : Type 0} where
    accept-Sound :
        {P : Type 0} (out : Out) (found : Result FailureCode (List P)) (run : Run)
        (next : Run → Result FailureCode Out × Run) (k : ℕ)
        → total run.usage ≤ limits.run_tokens
        → ((r : Run) → Sound limits k r (next r))
        → Sound limits k run (accept out found run next)
    unfolding accept
    accept-Sound out (ok []) run next k h n = Sound-ok k out run h
    accept-Sound out (ok (p ∷ ps)) run next k h n = n run
    accept-Sound out (err e) run next k h n = Sound-err k e run

    retry-Sound :
        {P : Type 0} (check : Out → Result FailureCode (List P))
        (m : Result FailureCode (Option Out) × Run) (next : Run → Result FailureCode Out × Run)
        (j k : ℕ) (before : Run)
        → Sound limits j before m
        → ((r : Run) → Sound limits k r (next r))
        → Sound limits (j + k) before (retry check m next)
    unfolding retry
    retry-Sound check (err e, r) next j k before m n =
        Sound-then (err e, r) (omega arith) m.pays m.saved (Sound-err k e r)
    retry-Sound check (ok none, r) next j k before m n =
        Sound-then (next r) (omega arith) m.pays m.saved (n r)
    retry-Sound check (ok (some out), r) next j k before m n =
        Sound-then (accept out (check out) r next) (omega arith) m.pays m.saved
          (accept-Sound out (check out) r next k (m.within (some out) refl) n)

    Sound-after :
        (m : Result FailureCode (Unit {0}) × Run)
        (next : Run → Result FailureCode (Option Out) × Run) (k : ℕ) (before : Run)
        → Sound limits 1 before m
        → ((r : Run) → total r.usage ≤ limits.run_tokens → Sound limits k r (next r))
        → Sound limits (1 + k) before (after m next)
    Sound-after (ok u, r) next k before m n =
        Sound-then (next r) (omega arith) m.pays m.saved (n r (m.within u refl))
    Sound-after (err e, r) next k before m n =
        Sound-then (err e, r) (omega arith) m.pays m.saved (Sound-err k e r)

    try_routes-Sound :
        (replies : List (Reply Out)) (r : Bool) (run : Run)
        → Sound limits (length replies) run (try_routes limits replies r run)
    unfolding try_routes
    try_routes-Sound [] r run = Sound-err 0 _ run
    try_routes-Sound (answered out i o ∷ rest) r run = weaker (omega arith) (
        Sound-after (charge limits i o run) _ 0 run (charge-Sound i o run)
          (λ r h. Sound-ok 0 (some out) r h))
    try_routes-Sound (output_invalid i o ∷ rest) r run = weaker (omega arith) (
        Sound-after (charge limits i o run) _ 0 run (charge-Sound i o run)
          (λ r h. Sound-ok 0 none r h))
    try_routes-Sound (refused i o ∷ rest) r run = weaker (omega arith) (
        Sound-after (charge limits i o run) _ (length rest) run (charge-Sound i o run)
          (λ r h. try_routes-Sound rest true r))
    try_routes-Sound (unavailable ∷ rest) r run = weaker (omega arith) (try_routes-Sound rest r run)

    check_daily-Sound :
        (estimate : ℕ) (used : Option ℕ) (run : Run) (k : ℕ)
        (served : Result FailureCode (Option Out) × Run)
        → Sound limits k run served
        → Sound limits k run (check_daily limits estimate used run served)
    unfolding check_daily
    check_daily-Sound estimate none run k served h = Sound-err k _ run
    check_daily-Sound estimate (some used) run k served h =
        Sound-if (ltb limits.tenant_daily_tokens (used + estimate)) (Sound-err k _ run) h

    call_model-Sound :
        (c : Call Out) (run : Run) → Sound limits (length c.replies) run (call_model limits c run)
    unfolding call_model
    call_model-Sound c run = Sound-if _ (Sound-err (length c.replies) _ run) (
        check_daily-Sound _ c.used_today run (length c.replies) _
          (try_routes-Sound c.replies false run))

    -- The attempts of one `generate`, with at most `routes` replies at each.
    attempts-Sound :
        {P : Type 0} (calls : ℕ → Call Out) (check : ℕ → Out → Result FailureCode (List P))
        (exhausted : FailureCode) (routes : ℕ)
        → ((n : ℕ) → length (calls n).replies ≤ routes)
        → (left n : ℕ) (run : Run)
        → Sound limits (left * routes) run (attempts limits calls check exhausted left n run)
    unfolding attempts
    attempts-Sound calls check exhausted routes few zero n run = Sound-err _ exhausted run
    attempts-Sound calls check exhausted routes few (suc left) n run = weaker (omega arith) (
        retry-Sound (check n) (call_model limits (calls n) run)
          (λ r. attempts limits calls check exhausted left (suc n) r) routes (left * routes) run
          (weaker (few n) (call_model-Sound (calls n) run))
          (λ r. attempts-Sound calls check exhausted routes few left (suc n) r))

generate-Sound :
    {Out P : Type 0} (limits : BudgetLimits) (calls : ℕ → Call Out)
    (check : ℕ → Out → Result FailureCode (List P)) (exhausted : FailureCode) (routes : ℕ)
    (run : Run)
    → ((n : ℕ) → length (calls n).replies ≤ routes)
    → Sound limits
        ((limits.max_repairs + 1) * routes)
        run
        (generate limits calls check exhausted run)
unfolding generate
generate-Sound limits calls check exhausted routes run few =
    weaker limits (omega arith)
      (attempts-Sound limits calls check exhausted routes few (suc limits.max_repairs) 0 run)

-- A run with its usage saved, and at each attempt at most `routes` providers to ask. Whatever the
-- providers, the ledger and the checks answer, `generate` charges at most `routes` calls for each of
-- its `max_repairs + 1` attempts, never lowers the usage, and leaves all of it saved with the run,
-- also where it fails.
pub generate-Pays :
    {Out P : Type 0} (limits : BudgetLimits) (calls : ℕ → Call Out)
    (check : ℕ → Out → Result FailureCode (List P)) (exhausted : FailureCode) (routes : ℕ)
    (run : Run)
    → ((n : ℕ) → length (calls n).replies ≤ routes)
    → IsSaved run
    → Pays run (generate limits calls check exhausted run).1 ((limits.max_repairs + 1) * routes)
      × IsSaved (generate limits calls check exhausted run).1
generate-Pays limits calls check exhausted routes run few kept =
    let x = generate-Sound limits calls check exhausted routes run few in (x.pays, x.saved kept)

accept-within :
    {Out P : Type 0} (limits : BudgetLimits) (o : Out) (found : Result FailureCode (List P))
    (r : Run) (next : Run → Result FailureCode Out × Run) (out : Out)
    → total r.usage ≤ limits.run_tokens
    → ((r : Run) → (next r).0 ≡ ok out → total (next r).1.usage ≤ limits.run_tokens)
    → (accept o found r next).0 ≡ ok out
    → total (accept o found r next).1.usage ≤ limits.run_tokens
unfolding accept
accept-within limits o (ok []) r next out le n h = le
accept-within limits o (ok (p ∷ ps)) r next out le n h = n r h
accept-within limits o (err x) r next out le n h = le

retry-within :
    {Out P : Type 0} (limits : BudgetLimits) (check : Out → Result FailureCode (List P))
    (m : Result FailureCode (Option Out) × Run) (next : Run → Result FailureCode Out × Run)
    (out : Out)
    → ((a : Option Out) → m.0 ≡ ok a → total m.1.usage ≤ limits.run_tokens)
    → ((r : Run) → (next r).0 ≡ ok out → total (next r).1.usage ≤ limits.run_tokens)
    → (retry check m next).0 ≡ ok out
    → total (retry check m next).1.usage ≤ limits.run_tokens
unfolding retry
retry-within limits check (err e, r) next out w n h = absurd (ground arith)
retry-within limits check (ok none, r) next out w n h = n r h
retry-within limits check (ok (some o), r) next out w n h =
    accept-within limits o (check o) r next out (w (some o) refl) n h

attempts-within :
    {Out P : Type 0} (limits : BudgetLimits) (calls : ℕ → Call Out)
    (check : ℕ → Out → Result FailureCode (List P)) (exhausted : FailureCode) (left n : ℕ)
    (run : Run) (out : Out)
    → (attempts limits calls check exhausted left n run).0 ≡ ok out
    → total (attempts limits calls check exhausted left n run).1.usage ≤ limits.run_tokens
unfolding attempts
attempts-within limits calls check exhausted zero n run out h = cc
attempts-within limits calls check exhausted (suc left) n run out h =
    retry-within limits (check n) (call_model limits (calls n) run)
      (λ r. attempts limits calls check exhausted left (suc n) r) out
      (call_model-Sound limits (calls n) run).within
      (λ r g. attempts-within limits calls check exhausted left (suc n) r out g) h

-- Where `generate` returns an output, the run's usage is within its token budget, however many
-- routes and attempts it took.
pub generate-within :
    {Out P : Type 0} (limits : BudgetLimits) (calls : ℕ → Call Out)
    (check : ℕ → Out → Result FailureCode (List P)) (exhausted : FailureCode) (run : Run)
    (out : Out)
    → (generate limits calls check exhausted run).0 ≡ ok out
    → total (generate limits calls check exhausted run).1.usage ≤ limits.run_tokens
unfolding generate
generate-within limits calls check exhausted run out h =
    attempts-within limits calls check exhausted (suc limits.max_repairs) 0 run out h

accept-checked :
    {Out P : Type 0} (o : Out) (found : Result FailureCode (List P)) (r : Run)
    (next : Run → Result FailureCode Out × Run) (out : Out)
    → (accept o found r next).0 ≡ ok out
    → ((found ≡ ok []) × (o ≡ out)) ⊎ ((r : Run) × ((next r).0 ≡ ok out))
unfolding accept
accept-checked o (ok []) r next out h = inl (refl, cc)
accept-checked o (ok (p ∷ ps)) r next out h = inr (r, h)
accept-checked o (err x) r next out h = absurd (ground arith)

retry-checked :
    {Out P : Type 0} (check : Out → Result FailureCode (List P))
    (m : Result FailureCode (Option Out) × Run) (next : Run → Result FailureCode Out × Run)
    (out : Out)
    → (retry check m next).0 ≡ ok out
    → (check out ≡ ok []) ⊎ ((r : Run) × ((next r).0 ≡ ok out))
unfolding retry
retry-checked check (err e, r) next out h = absurd (ground arith)
retry-checked check (ok none, r) next out h = inr (r, h)
retry-checked check (ok (some o), r) next out h = elim (accept-checked o (check o) r next out h) [
  | inl (good, same) ↦ inl (rw (← same) good)
  | inr later ↦ inr later
]

attempts-checked :
    {Out P : Type 0} (limits : BudgetLimits) (calls : ℕ → Call Out)
    (check : ℕ → Out → Result FailureCode (List P)) (exhausted : FailureCode) (left n : ℕ)
    (run : Run) (out : Out)
    → (attempts limits calls check exhausted left n run).0 ≡ ok out
    → (k : ℕ) × (check k out ≡ ok []) × (k < n + left)
unfolding attempts
attempts-checked limits calls check exhausted zero n run out h = cc
attempts-checked limits calls check exhausted (suc left) n run out h =
    elim (retry-checked (check n) (call_model limits (calls n) run)
      (λ r. attempts limits calls check exhausted left (suc n) r) out h) [
        | inl good ↦ (n, good, omega arith)
        | inr (r, later) ↦
            let (k, good, le) =
              attempts-checked limits calls check exhausted left (suc n) r out later in
            (k, good, omega arith)
      ]

-- An output that `generate` returns had no problems at one of its first `max_repairs + 1` checks.
pub generate-checked :
    {Out P : Type 0} (limits : BudgetLimits) (calls : ℕ → Call Out)
    (check : ℕ → Out → Result FailureCode (List P)) (exhausted : FailureCode) (run : Run)
    (out : Out)
    → (generate limits calls check exhausted run).0 ≡ ok out
    → (k : ℕ) × (check k out ≡ ok []) × (k ≤ limits.max_repairs)
unfolding generate
generate-checked limits calls check exhausted run out h =
    let (k, good, le) =
      attempts-checked limits calls check exhausted (suc limits.max_repairs) 0 run out h in
    (k, good, omega arith)
