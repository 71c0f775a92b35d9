-- ===== src/Orchestrator/Context/Choice.antt =====
-- When a run takes a data source without asking.
use bu_vi.Base.{
  ℕ, ◌+◌, ◌-◌, ◌≤◌, ◌≡◌, refl, String, Bool, true, ◌&&◌, ◌||◌, List, [], ◌∷◌, all, any, leb, ◌==◌,
  arith, Bool-cases, inl, inr, ◌∙◌, sym, ap, ◌=s◌, =s_iff,
}
use bu_vi.Orchestrator.Context.Ranking.{
  Word, ContextTable, insert, sorted, chosen, source_margin, scores, scores_before, choose,
  choose_data_source,
}

module _ {A : Type 0} (goes_first : A → A → Bool) (p : A → Bool) where
  insert-all : (x : A) (ys : List A) → all p (insert goes_first x ys) ≡ (p x && all p ys)
  insert-all x [] = refl
  insert-all x (y ∷ ys) = elim (Bool-cases (goes_first x y)) [
    | inl e ↦ rw e refl
    | inr e ↦ rw e (ground (arith, insert-all x ys))
  ]

  insert-any : (x : A) (ys : List A) → any p (insert goes_first x ys) ≡ (p x || any p ys)
  insert-any x [] = refl
  insert-any x (y ∷ ys) = elim (Bool-cases (goes_first x y)) [
    | inl e ↦ rw e refl
    | inr e ↦ rw e (ground (arith, insert-any x ys))
  ]

  pub sorted-any : (xs : List A) → any p (sorted goes_first xs) ≡ any p xs
  sorted-any [] = refl
  sorted-any (x ∷ xs) = insert-any x (sorted goes_first xs) ∙ ap (λ b. p x || b) (sorted-any xs)

  -- Sorting keeps what holds of all.
  pub sorted-all : (xs : List A) → all p (sorted goes_first xs) ≡ all p xs
  sorted-all [] = refl
  sorted-all (x ∷ xs) = insert-all x (sorted goes_first xs) ∙ ap (λ b. p x && b) (sorted-all xs)

abbrev at_most : ℕ → ℕ × String → Bool
at_most n c = leb c.0 n

-- No later score is greater.
abbrev Falling : List (ℕ × String) → Type 0
Falling [] = Unit
Falling (c ∷ cs) = (all (at_most c.0) cs ≡ true) × Falling cs

all_weaken :
    (n m : ℕ) (cs : List (ℕ × String))
    → n ≤ m
    → all (at_most n) cs ≡ true
    → all (at_most m) cs ≡ true
all_weaken n m [] le h = refl
all_weaken n m (c ∷ cs) le h = ground (arith, all_weaken n m cs le (ground arith))

module _ (before : String → String → Bool) where
  insert-Falling :
      (x : ℕ × String) (ys : List (ℕ × String))
      → Falling ys
      → Falling (insert (scores_before before) x ys)
  insert-Falling x [] h = (refl, tt)
  insert-Falling x (y ∷ ys) h = elim (Bool-cases (scores_before before x y)) [
    | inl e ↦ rw e ((ground (arith, all_weaken y.0 x.0 ys (ground arith) (h.0)), h))
    | inr e ↦ rw e (
        (
          insert-all (scores_before before) (at_most y.0) x ys ∙ ground (arith, h.0),
          insert-Falling x ys (h.1),
        ))
  ]

  sorted-Falling : (xs : List (ℕ × String)) → Falling (sorted (scores_before before) xs)
  sorted-Falling [] = tt
  sorted-Falling (x ∷ xs) = insert-Falling x (sorted (scores_before before) xs) (sorted-Falling xs)

-- a candidate with this score and id
abbrev pub is_scored : ℕ → String → ℕ × String → Bool
is_scored n id c = c.0 == n && c.1 =s id

-- another candidate, unless its score is behind by the margin
abbrev pub trails : ℕ → String → ℕ × String → Bool
trails n id c = c.1 =s id || leb (c.0 + source_margin) n

all_trail :
    (n m : ℕ) (id : String) (cs : List (ℕ × String))
    → n + source_margin ≤ m
    → all (at_most n) cs ≡ true
    → all (trails m id) cs ≡ true
all_trail n m id [] le h = refl
all_trail n m id (c ∷ cs) le h = ground (arith, all_trail n m id cs le (ground arith))

chosen_id : (a b : String) → chosen a ≡ chosen b → a ≡ b
chosen_id a b e = cc

choose-leads :
    (cs : List (ℕ × String)) (id : String)
    → Falling cs
    → choose cs ≡ chosen id
    → (n : ℕ) × (any (is_scored n id) cs ≡ true) × (all (trails n id) cs ≡ true)
choose-leads [] id f e = absurd (ground arith)
choose-leads ((n, best) ∷ []) id f e =
    let same : (best =s id) ≡ true = (=s_iff best id).1 (chosen_id best id e) in
    (n, ground arith, ground arith)
choose-leads ((n, best) ∷ (m, other) ∷ rest) id f e = elim (Bool-cases (n == 0)) [
  | inl z ↦ absurd (ground (arith, rw z at e))
  | inr z ↦ elim (Bool-cases (leb source_margin (n - m))) [
    | inr k ↦ absurd (ground (arith, rw (z, k) at e))
    | inl k ↦
        let same : (best =s id) ≡ true = (=s_iff best id).1 (chosen_id best id (rw (z, k) at e)) in
        let behind = all_trail m n id rest (ground arith) ((f.1).0) in
        (n, ground arith, ground (arith, behind))
  ]
]

module _ (findall : String → List Word) (before : String → String → Bool) where
  -- A data source is taken without asking only if it is one of the candidates and its score leads
  -- that of every other one by the margin, whatever the order of the candidates.
  pub choose_data_source-leads :
      (candidates : List (String × List ContextTable)) (terms : List Word) (id : String)
      → choose_data_source findall before candidates terms ≡ chosen id
      → (n : ℕ) × (any (is_scored n id) (scores findall before terms candidates) ≡ true)
        × (all (trails n id) (scores findall before terms candidates) ≡ true)
  unfolding choose_data_source
  choose_data_source-leads candidates terms id e =
      let cs = scores findall before terms candidates in
      let (n, found, trailing) =
        choose-leads (sorted (scores_before before) cs) id (sorted-Falling before cs) e in
      (
        n,
        sym (sorted-any (scores_before before) (is_scored n id) cs) ∙ found,
        sym (sorted-all (scores_before before) (trails n id) cs) ∙ trailing,
      )
