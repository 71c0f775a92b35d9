-- ===== src/Query/Slots.antt =====
-- The limiter of one process, as queries of all tenants come and go.
use bu_vi.Base.{
  ℕ, ◌+◌, ◌-◌, ◌≤◌, ◌<◌, ◌≡◌, refl, String, true, Option, none, some, List, [], ◌∷◌, arith,
  if◌then◌else◌, ◌=s◌, ◌==◌, =s_refl, =s_iff, Bool-cases, inl, inr, ◌≢◌, Option-cases, ap,
}
use bu_vi.Query.Concurrency.{Active, active, put, enter, leave}

-- The queries that hold a slot, by tenant.
unfoldable pub count : String → List String → ℕ
count t [] = 0
count t (x ∷ xs) = (if x =s t then 1 else 0) + count t xs

unfoldable pub drop_one : String → List String → List String
drop_one t [] = []
drop_one t (x ∷ xs) = if x =s t then xs else x ∷ drop_one t xs

pub record System : Type 0 where
  pub table : Active
  pub running : List String

-- A query is let in or refused, or one that runs ends, with or without an error.
pub data Step (limit : ℕ) (s : System) : System → Type 0 where
  admitted :
      (t : String) (a : Active)
      → enter limit s.table t ≡ some a
      → Step limit s (record { table = a; running = t ∷ s.running })
  turned_away : (t : String) → enter limit s.table t ≡ none → Step limit s s
  ended :
      (t : String) (a : Active)
      → 0 < count t s.running
      → leave s.table t ≡ some a
      → Step limit s (record { table = a; running = drop_one t s.running })

pub data Reach (limit : ℕ) (s : System) : System → Type 0 where
  here : Reach limit s s
  next : {t u : System} → Reach limit s t → Step limit t u → Reach limit s u

abbrev pub empty : System
empty = record { table = λ _. none; running = [] }

-- The table counts each tenant's running queries, none over the limit, and holds no zero.
pub record IsCounted (limit : ℕ) (s : System) : Type 0 where
  pub counts : (t : String) → active s.table t ≡ count t s.running
  pub bound : (t : String) → count t s.running ≤ limit
  pub no_zero : (t : String) → s.table t ≢ some 0

one : (t u x : String) → (x =s t) ≡ true → (x =s u) ≡ (t =s u)
one t u x h = rw ((=s_iff x t).0 h)

count-drop_one :
    (t u : String) (xs : List String)
    → 0 < count t xs
    → count u (drop_one t xs) + (if t =s u then 1 else 0) ≡ count u xs
unfolding drop_one count
count-drop_one t u [] h = absurd (omega arith)
count-drop_one t u (x ∷ xs) h = ground (arith, count-drop_one t u xs, one t u x)

value : Option ℕ → ℕ
value none = 0
value (some n) = n

active-value : (a : Active) (u : String) → active a u ≡ value (a u)
unfolding value active
active-value a u = elim (Option-cases (a u)) [
  | inl e ↦ rw (active, e) refl
  | inr (n, e) ↦ rw (active, e) refl
]

active-put :
    (a : Active) (t u : String) (v : Option ℕ)
    → active (put a t v) u ≡ (if t =s u then value v else active a u)
unfolding put
active-put a t u v = elim (Bool-cases (t =s u)) [
  | inl same ↦ rw (active-value (put a t v), put, same) refl
  | inr other ↦ rw (active-value (put a t v), put, other, active-value a u) refl
]

value-rest : (n : ℕ) → value (if n == 0 then none else some n) ≡ n
unfolding value
value-rest n = ground arith

put-no_zero :
    (a : Active) (t u : String) (v : Option ℕ) → a u ≢ some 0 → v ≢ some 0 → put a t v u ≢ some 0
unfolding put
put-no_zero a t u v old new z = elim (Bool-cases (t =s u)) [
  | inl same ↦ new (rw (put, same) at z)
  | inr other ↦ old (rw (put, other) at z)
]

enter-parts :
    (limit : ℕ) (a a' : Active) (t : String)
    → enter limit a t ≡ some a'
    → (a' ≡ put a t (some (active a t + 1))) × (active a t < limit)
unfolding enter
enter-parts limit a a' t h = ground arith

leave-parts :
    (a : Active) (t : String)
    → 0 < active a t
    → (a t ≡ some (active a t))
      × (leave a t ≡ some (put a t (if active a t - 1 == 0 then none else some (active a t - 1))))
unfolding leave active
leave-parts a t h = elim (Option-cases (a t)) [
  | inl e ↦ absurd (ground arith)
  | inr (n, e) ↦ rw (e, leave, active) (refl, refl)
]

same_key : (f : String → ℕ) (t u : String) → (t =s u) ≡ true → f t ≡ f u
same_key f t u h = ap f ((=s_iff t u).0 h)

admitted-IsCounted :
    (limit : ℕ) (s : System) (t : String) (a : Active)
    → enter limit s.table t ≡ some a
    → IsCounted limit s
    → IsCounted limit (record { table = a; running = t ∷ s.running })
unfolding count value
admitted-IsCounted limit s t a h inv =
    let p = enter-parts limit s.table a t h in
    record {
      counts = λ u.
          rw p.0
            (rw active-put (ground (arith, inv.counts u, same_key (λ k. active s.table k) t u)));
      bound = λ u.
          ground (arith, inv.bound u, inv.counts t, p.1, same_key (λ k. count k s.running) t u);
      no_zero = λ u z.
          put-no_zero s.table t u (some (active s.table t + 1)) (inv.no_zero u) (λ e. ground arith)
            (rw p.0 at z);
    }

ended-IsCounted :
    (limit : ℕ) (s : System) (t : String) (a : Active)
    → 0 < count t s.running
    → leave s.table t ≡ some a
    → IsCounted limit s
    → IsCounted limit (record { table = a; running = drop_one t s.running })
ended-IsCounted limit s t a held h inv =
    let n = active s.table t in
    let e : a ≡ put s.table t (if n - 1 == 0 then none else some (n - 1)) =
      ground (arith, leave-parts s.table t (omega (arith, inv.counts t))) in
    record {
      counts = λ u. rw e (
          rw (active-put, value-rest)
            (ground (
              arith,
              inv.counts u,
              inv.counts t,
              count-drop_one t u s.running held,
              same_key (λ k. active s.table k) t u,
            )));
      bound = λ u. omega (arith, count-drop_one t u s.running held, inv.bound u);
      no_zero = λ u z.
          put-no_zero s.table t u (if n - 1 == 0 then none else some (n - 1)) (inv.no_zero u)
            (λ w. ground arith) (rw e at z);
    }

Step-IsCounted : {limit : ℕ} {s t : System} → IsCounted limit s → Step limit s t → IsCounted limit t
Step-IsCounted inv (admitted t a h) = admitted-IsCounted _ _ t a h inv
Step-IsCounted inv (turned_away t h) = inv
Step-IsCounted inv (ended t a held h) = ended-IsCounted _ _ t a held h inv

-- In every state that a process reaches from its start, as queries of any tenants are admitted, are
-- turned away and end in any order, the table's number for a tenant is that of its running queries,
-- it is within the limit, and no tenant without a running query is in the table.
pub Reach-IsCounted : (limit : ℕ) {s : System} → Reach limit empty s → IsCounted limit s
unfolding active count
Reach-IsCounted limit here = record {
  counts = λ t. refl;
  bound = λ t. omega arith;
  no_zero = λ t z. ground arith;
}
Reach-IsCounted limit (next r st) = Step-IsCounted (Reach-IsCounted limit r) st

-- A query that holds a slot can give it back: after any run of the process, `slot` never raises a
-- `KeyError` as a running query ends, and the tenant's number is then one less.
pub Reach-leave :
    (limit : ℕ) {s : System} (t : String)
    → Reach limit empty s
    → 0 < count t s.running
    → (a : Active) × (leave s.table t ≡ some a) × (active a t + 1 ≡ active s.table t)
Reach-leave limit {s} t r held =
    let inv = Reach-IsCounted limit r in
    let p = leave-parts s.table t (omega (arith, inv.counts t)) in
    (_, p.1, rw (active-put, value-rest, =s_refl) (omega (arith, inv.counts t)))

-- A query that was let in gives its slot back without an error, and leaves every tenant's number as
-- it found it.
pub enter-leave :
    (limit : ℕ) (a a' : Active) (t : String)
    → enter limit a t ≡ some a'
    → (b : Active) × (leave a' t ≡ some b) × ((u : String) → active b u ≡ active a u)
unfolding active value
enter-leave limit a a' t h =
    let p = (enter-parts limit a a' t h).0 in
    let n : active a' t ≡ active a t + 1 = rw p (rw (active-put, =s_refl) refl) in
    let q = leave-parts a' t (omega (arith, n)) in
    (
      _,
      q.1,
      λ u.
          let old : active a' u ≡ (if t =s u then active a t + 1 else active a u) =
            rw p (active-put a t u (some (active a t + 1))) in
          rw (active-put, value-rest) (ground (arith, n, old, same_key (λ k. active a k) t u)),
    )
