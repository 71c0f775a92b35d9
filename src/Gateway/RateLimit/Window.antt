-- ===== src/Gateway/RateLimit/Window.antt =====
-- One bucket over time: what a series of requests can take and
-- why the key may expire.
use bu_vi.Base.{
  ℕ, ◌+◌, ◌-◌, ◌*◌, ◌≤◌, ◌<◌, ◌≡◌, Bool, true, false, Option, none, some, List, [], ◌∷◌, arith,
  if◌then◌else◌,
}
use bu_vi.Gateway.RateLimit.Bucket.{
  BucketRule, Entry, unit, full, ceil_div, refilled, token_bucket, live,
}

pub ceil_div-cover : (a b : ℕ) → 0 < b → a ≤ ceil_div a b * b
unfolding ceil_div
ceil_div-cover a b h = grind arith

-- The tokens of a bucket never exceed its capacity, whatever was stored.
pub token_bucket-le-full :
    (rule : BucketRule) (cost now : ℕ) (state : Option Entry)
    → (token_bucket rule cost now state).entry.tokens ≤ full rule
unfolding token_bucket refilled
token_bucket-le-full rule cost now none = ground arith
token_bucket-le-full rule cost now (some e) = ground arith

-- The key's time to live as the script sets it: long enough for the bucket to fill up.
abbrev pub IsKept : BucketRule → Entry → Type 0
IsKept rule e = e.expires_at ≡ e.ts + (ceil_div (full rule) rule.refill_milli + 1000)

pub token_bucket-IsKept :
    (rule : BucketRule) (cost now : ℕ) (state : Option Entry)
    → IsKept rule (token_bucket rule cost now state).entry
unfolding token_bucket
token_bucket-IsKept rule cost now state = ground arith

idle-full : (r f t k n : ℕ) → f ≤ k * r → t + (k + 1000) ≤ n → f ≤ (n - t) * r
idle-full r f t k n h g = grind arith

-- Dropping an expired key changes no later request: the bucket would have been full again.
pub refilled-live :
    (rule : BucketRule) (now : ℕ) (e : Entry)
    → 0 < rule.refill_milli
    → IsKept rule e
    → refilled rule now (live now (some e)) ≡ refilled rule now (some e)
unfolding refilled live
refilled-live rule now e pos kept = ground (
  arith,
  idle-full rule.refill_milli (full rule) e.ts (ceil_div (full rule) rule.refill_milli) now
      (ceil_div-cover (full rule) rule.refill_milli pos),
)

-- The requests that one bucket allows, each `gap` ms after the one before it.
pub allowed_after : BucketRule → Entry → List ℕ → ℕ
allowed_after rule e [] = 0
allowed_after rule e (gap ∷ gaps) =
    let t = token_bucket rule 1 (e.ts + gap) (live (e.ts + gap) (some e)) in
    (if t.allowed then 1 else 0) + allowed_after rule t.entry gaps

pub sum : List ℕ → ℕ
sum [] = 0
sum (x ∷ xs) = x + sum xs

-- A request takes a token or leaves the refilled bucket as it is.
pub token_bucket-conserves :
    (rule : BucketRule) (now : ℕ) (state : Option Entry)
    → (if (token_bucket rule 1 now state).allowed then unit else 0)
        + (token_bucket rule 1 now state).entry.tokens
      ≡ refilled rule now state
unfolding token_bucket
token_bucket-conserves rule now state = ground arith

refilled-le :
    (rule : BucketRule) (gap : ℕ) (e : Entry)
    → refilled rule (e.ts + gap) (some e) ≤ e.tokens + gap * rule.refill_milli
unfolding refilled
refilled-le rule gap e = let p : e.ts + gap - e.ts ≡ gap = omega arith in rw p (omega arith)

pub ts-token_bucket :
    (rule : BucketRule) (cost now : ℕ) (state : Option Entry)
    → (token_bucket rule cost now state).entry.ts ≡ now
unfolding token_bucket
ts-token_bucket rule cost now state = ground arith

count_step :
    (b : Bool) (n r tokens gap rest total : ℕ)
    → (if b then unit else 0) + n ≤ tokens + gap * r
    → rest * unit ≤ n + total * r
    → ((if b then 1 else 0) + rest) * unit ≤ tokens + (gap + total) * r
count_step true n r tokens gap rest total h k = omega arith
count_step false n r tokens gap rest total h k = omega arith

-- A bucket with a positive refill rate, from an entry as the script writes it: over any series of
-- requests, each a given number of milliseconds after the one before it, with expired keys dropped,
-- the allowed requests cost at most the tokens at the start and the refill of the whole time.
pub allowed_after-le :
    (rule : BucketRule) (e : Entry) (gaps : List ℕ)
    → 0 < rule.refill_milli
    → IsKept rule e
    → allowed_after rule e gaps * unit ≤ e.tokens + sum gaps * rule.refill_milli
unfolding allowed_after sum
allowed_after-le rule e [] pos kept = omega arith
allowed_after-le rule e (gap ∷ gaps) pos kept =
    let now = e.ts + gap in
    let state = live now (some e) in
    let t = token_bucket rule 1 now state in
    count_step t.allowed t.entry.tokens rule.refill_milli e.tokens gap
      (allowed_after rule t.entry gaps) (sum gaps)
      (omega (
        arith,
        token_bucket-conserves rule now state,
        refilled-live rule now e pos kept,
        refilled-le rule gap e,
      ))
      (allowed_after-le rule t.entry gaps pos (token_bucket-IsKept rule 1 now state))
