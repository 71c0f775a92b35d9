-- ===== src/Gateway/RateLimit/Refund.antt =====
-- `consume` over several buckets: what a request leaves behind when a later bucket refuses it.
use bu_vi.Base.{
  ℕ, ◌+◌, ◌-◌, ◌*◌, ◌≤◌, ◌<◌, ◌≡◌, refl, Bool, true, false, Option, none, some, [], ◌∷◌, arith,
  ◌=s◌, sym, ◌∙◌, ◌⊎◌, inl, inr, leb, leb→le, =s_refl, =s_sym, Bool-cases,
}
use bu_vi.Gateway.RateLimit.Bucket.{
  BucketRule, Bucket, Entry, full, ceil_div, refilled, token_bucket, refund, live, Store, write,
  Env, refund_all, consume,
}
use bu_vi.Gateway.RateLimit.Window.{
  IsKept, refilled-live, ceil_div-cover, token_bucket-IsKept, ts-token_bucket,
}

-- A bucket as the script leaves it, last used no later than `now`.
abbrev pub IsReady : BucketRule → ℕ → Option Entry → Type 0
IsReady rule now none = Unit
IsReady rule now (some e) = IsKept rule e × (e.ts ≤ now)

-- The tokens that a request at `now` finds in the bucket under a key.
unfoldable pub found : BucketRule → ℕ → Option Entry → ℕ
found rule now state = refilled rule now (live now state)

found-refilled :
    (rule : BucketRule) (now : ℕ) (state : Option Entry) (t : ℕ)
    → 0 < rule.refill_milli
    → IsReady rule t state
    → found rule now state ≡ refilled rule now state
unfolding found live
found-refilled rule now none t pos ready = refl
found-refilled rule now (some e) t pos ready = refilled-live rule now e pos ready.0

split_time : (r a b c : ℕ) → a ≤ b → b ≤ c → (c - a) * r ≡ (c - b) * r + (b - a) * r
split_time r a b c h k =
    let u = b - a in let v = c - b in let p : c - a ≡ v + u = omega arith in rw p (omega arith)

-- Refilling twice is refilling once.
refilled-refilled :
    (rule : BucketRule) (state : Option Entry) (now later expires : ℕ)
    → IsReady rule now state
    → now ≤ later
    → refilled rule later
        (some (record { tokens = refilled rule now state; ts = now; expires_at = expires }))
      ≡ refilled rule later state
unfolding refilled
refilled-refilled rule none now later expires ready le = omega arith
refilled-refilled rule (some e) now later expires ready le =
    omega (arith, split_time rule.refill_milli e.ts now later ready.1 le)

-- What is left of a bucket when a request takes a token at `now` and gives it back at `back`.
unfoldable pub taken_back : BucketRule → ℕ → ℕ → Option Entry → Option Entry
taken_back rule now back state =
    refund rule 1 (live back (some (token_bucket rule 1 now (live now state)).entry))

refilled-le-full :
    (rule : BucketRule) (now : ℕ) (state : Option Entry) → refilled rule now state ≤ full rule
unfolding refilled
refilled-le-full rule now none = omega arith
refilled-le-full rule now (some e) = omega arith

entry_of_allowed :
    (rule : BucketRule) (now : ℕ) (state : Option Entry)
    → (token_bucket rule 1 now state).allowed ≡ true
    → refund rule 1 (some (token_bucket rule 1 now state).entry)
      ≡ some (record {
        tokens = refilled rule now state;
        ts = now;
        expires_at = now + (ceil_div (full rule) rule.refill_milli + 1000);
      })
unfolding token_bucket refund
entry_of_allowed rule now state h = ground (arith, refilled-le-full rule now state)

idle-full : (r f t k n : ℕ) → f ≤ k * r → t + (k + 1000) ≤ n → f ≤ (n - t) * r
idle-full r f t k n h g = grind arith

-- A bucket unused since long before `later` is full at `later`.
refilled_idle :
    (rule : BucketRule) (state : Option Entry) (now later : ℕ)
    → 0 < rule.refill_milli
    → IsReady rule now state
    → now + (ceil_div (full rule) rule.refill_milli + 1000) ≤ later
    → refilled rule later state ≡ full rule
unfolding refilled
refilled_idle rule none now later pos ready h = omega arith
refilled_idle rule (some e) now later pos ready h =
    let fill = ceil_div (full rule) rule.refill_milli in
    omega (
      arith,
      idle-full rule.refill_milli (full rule) e.ts fill later
          (ceil_div-cover (full rule) rule.refill_milli pos) (omega arith),
    )

-- The entry after a token is taken at `now` and given back.
abbrev restored : BucketRule → ℕ → Option Entry → Entry
restored rule now state = record {
  tokens = refilled rule now state;
  ts = now;
  expires_at = now + (ceil_div (full rule) rule.refill_milli + 1000);
}

live_cases :
    (now : ℕ) (e : Entry)
    → (live now (some e) ≡ some e) ⊎ ((live now (some e) ≡ none) × (e.expires_at ≤ now))
unfolding live
live_cases now e = elim (Bool-cases (leb e.expires_at now)) [
  | inl gone ↦ inr (rw gone, leb→le _ _ gone)
  | inr kept ↦ inl (rw kept)
]

taken_back_cases :
    (rule : BucketRule) (now back : ℕ) (state : Option Entry)
    → (token_bucket rule 1 now (live now state)).allowed ≡ true
    → (taken_back rule now back state ≡ some (restored rule now (live now state)))
      ⊎ ((taken_back rule now back state ≡ none)
          × (now + (ceil_div (full rule) rule.refill_milli + 1000) ≤ back))
unfolding taken_back
taken_back_cases rule now back state allowed =
    let e = (token_bucket rule 1 now (live now state)).entry in
    elim (live_cases back e) [
      | inl kept ↦ inl (rw kept (entry_of_allowed rule now (live now state) allowed))
      | inr (gone, expired) ↦ inr (
        unfold refund in (rw gone),
        omega (
          arith,
          token_bucket-IsKept rule 1 now (live now state),
          ts-token_bucket rule 1 now (live now state),
        ),
      )
    ]

found-none : (rule : BucketRule) (now : ℕ) → found rule now none ≡ full rule
unfolding found live refilled
found-none rule now = omega arith

taken_back-found :
    (rule : BucketRule) (state : Option Entry) (now back later : ℕ)
    → 0 < rule.refill_milli
    → IsReady rule now state
    → (token_bucket rule 1 now (live now state)).allowed ≡ true
    → now ≤ back
    → back ≤ later
    → found rule later (taken_back rule now back state) ≡ found rule later state
taken_back-found rule state now back later pos ready allowed h k =
    let same : found rule later state ≡ refilled rule later state =
      found-refilled rule later state now pos ready in
    let start : refilled rule now (live now state) ≡ refilled rule now state =
      unfold found in found-refilled rule now state now pos ready in
    elim (taken_back_cases rule now back state allowed) [
      | inl kept ↦
          rw (kept, start, same)
            (found-refilled rule later (some (restored rule now state)) now pos (refl, omega arith)
              ∙ refilled-refilled rule state now later
                  (now + (ceil_div (full rule) rule.refill_milli + 1000)) ready (omega arith))
      | inr (gone, idle) ↦
          rw (gone, same, found-none)
            (sym (refilled_idle rule state now later pos ready (omega arith)))
    ]

entry_of_refused :
    (rule : BucketRule) (now : ℕ) (state : Option Entry)
    → (token_bucket rule 1 now state).allowed ≡ false
    → (token_bucket rule 1 now state).entry ≡ restored rule now state
unfolding token_bucket
entry_of_refused rule now state h = ground arith

-- A refused bucket keeps what it had.
refused-found :
    (rule : BucketRule) (state : Option Entry) (now later : ℕ)
    → 0 < rule.refill_milli
    → IsReady rule now state
    → (token_bucket rule 1 now (live now state)).allowed ≡ false
    → now ≤ later
    → found rule later (some (token_bucket rule 1 now (live now state)).entry)
      ≡ found rule later state
refused-found rule state now later pos ready refused h =
    let start : refilled rule now (live now state) ≡ refilled rule now state =
      unfold found in found-refilled rule now state now pos ready in
    let e = restored rule now (live now state) in
    rw
      (
        entry_of_refused rule now (live now state) refused,
        start,
        found-refilled rule later state now pos ready,
      )
      (found-refilled rule later (some (restored rule now state)) now pos (refl, omega arith)
        ∙ refilled-refilled rule state now later
            (now + (ceil_div (full rule) rule.refill_milli + 1000)) ready h)

module _ (fail_open : Bool) (env : Env) (u t : Bucket) (s : Store) (n₀ n₁ n₂ : ℕ)
    (first : env 0 ≡ some n₀) (second : env 1 ≡ some n₁) (third : env 2 ≡ some n₂)
    (distinct : (u.key =s t.key) ≡ false) where
  user_cleared :
      (token_bucket u.rule 1 n₀ (live n₀ (s u.key))).allowed ≡ true
      → (consume fail_open env (u ∷ t ∷ []) s).0.allowed ≡ false
      → (consume fail_open env (u ∷ t ∷ []) s).1 u.key ≡ taken_back u.rule n₀ n₂ (s u.key)
  unfolding consume taken_back refund_all write
  user_cleared a d = ground (arith, =s_refl u.key, =s_sym u.key t.key)

  user_refused :
      (token_bucket u.rule 1 n₀ (live n₀ (s u.key))).allowed ≡ false
      → (consume fail_open env (u ∷ t ∷ []) s).1 u.key
        ≡ some (token_bucket u.rule 1 n₀ (live n₀ (s u.key))).entry
  unfolding consume refund_all write
  user_refused a = ground (arith, =s_refl u.key)

-- Two buckets with different keys, as `after_auth` names them; the first has a positive rate and is
-- as the script left it; Redis answers every call, the refund at `n₂` not before the first request
-- at `n₀`. If `consume` refuses the request, whichever of the two buckets refused it, then any later
-- request finds in the first bucket the tokens that it would have found without the refused one.
pub consume-refused_invisible :
    (fail_open : Bool) (env : Env) (u t : Bucket) (s : Store) (n₀ n₁ n₂ later : ℕ)
    → env 0 ≡ some n₀
    → env 1 ≡ some n₁
    → env 2 ≡ some n₂
    → (u.key =s t.key) ≡ false
    → 0 < u.rule.refill_milli
    → IsReady u.rule n₀ (s u.key)
    → n₀ ≤ n₂
    → n₂ ≤ later
    → (consume fail_open env (u ∷ t ∷ []) s).0.allowed ≡ false
    → found u.rule later ((consume fail_open env (u ∷ t ∷ []) s).1 u.key)
      ≡ found u.rule later (s u.key)
consume-refused_invisible fail_open env u t s n₀ n₁ n₂ later first second third distinct pos ready h
      k denied =
    elim (Bool-cases (token_bucket u.rule 1 n₀ (live n₀ (s u.key))).allowed) [
      | inl cleared ↦
          rw (user_cleared fail_open env u t s n₀ n₁ n₂ first second third distinct cleared denied)
            (taken_back-found u.rule (s u.key) n₀ n₂ later pos ready cleared h k)
      | inr refused ↦
          rw (user_refused fail_open env u t s n₀ n₁ n₂ first second third distinct refused)
            (refused-found u.rule (s u.key) n₀ later pos ready refused (omega arith))
    ]
