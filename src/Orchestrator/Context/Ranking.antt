-- ===== src/Orchestrator/Context/Ranking.antt =====
-- `_stem`, `table_score`, `rank_tables` and `choose_data_source` of
-- domain/policies/context_policy.py of apps/analytics-orchestrator. A word is a list of code points;
-- `findall` gives the words of a text in lower case, and `before` is the order of texts. A set of
-- words is a list without repetitions.
use bu_vi.Base.{
  ℕ, suc, zero, ◌+◌, ◌-◌, ◌*◌, String, Bool, true, false, not, ◌&&◌, ◌||◌, List, [], ◌∷◌, ◌++◌, max,
  ltb, leb, ◌==◌, length, if◌then◌else◌,
}
use Prim.Native.String.{◌++◌ as ◌+s◌}

abbrev pub Word : Type 0
Word = List ℕ

abbrev pub same_word : Word → Word → Bool
same_word [] [] = true
same_word [] (d ∷ ds) = false
same_word (c ∷ cs) [] = false
same_word (c ∷ cs) (d ∷ ds) = c == d && same_word cs ds

abbrev pub has_word : Word → List Word → Bool
has_word w [] = false
has_word w (v ∷ vs) = same_word w v || has_word w vs

abbrev pub reverse_onto : Word → Word → Word
reverse_onto [] out = out
reverse_onto (c ∷ cs) out = reverse_onto cs (c ∷ out)

-- `_stem`, on the word turned around: the code points 115, 101, 105 and 121 are s, e, i and y.
unfoldable pub stem_turned : ℕ → Word → Word
stem_turned length_of (c ∷ d ∷ e ∷ rest) =
    if ltb 4 length_of && (c == 115 && (d == 101 && e == 105))
    then reverse_onto rest (121 ∷ [])
    else if ltb 3 length_of && (c == 115 && not (d == 115))
    then reverse_onto rest (e ∷ d ∷ [])
    else reverse_onto rest (e ∷ d ∷ c ∷ [])
stem_turned length_of w = reverse_onto w []

unfoldable pub stem : Word → Word
stem w = stem_turned (length w) (reverse_onto w [])

abbrev pub once : Word → List Word → List Word
once w ws = if has_word w ws then ws else w ∷ ws

-- the set of the stems of some words
unfoldable pub stems : List Word → List Word
stems [] = []
stems (w ∷ ws) = once (stem w) (stems ws)

-- `len(words & terms)`
unfoldable pub common : List Word → List Word → ℕ
common [] terms = 0
common (w ∷ ws) terms = let rest = common ws terms in if has_word w terms then suc rest else rest

-- `ContextTable`, with the texts that are read here
pub record ContextTable : Type 0 where
  pub qualified_name : String
  pub table_name : String
  pub description : String
  pub columns : List String

module _ {A : Type 0} (goes_first : A → A → Bool) where
  abbrev pub insert : A → List A → List A
  insert x [] = x ∷ []
  insert x (y ∷ ys) = let rest = insert x ys in if goes_first x y then x ∷ y ∷ ys else y ∷ rest

  -- `sorted`, which is stable: `goes_first x y` where x may stand before y
  abbrev pub sorted : List A → List A
  sorted [] = []
  sorted (x ∷ xs) = insert x (sorted xs)

abbrev pub take {ℓ} : {A : Type ℓ} → ℕ → List A → List A
take zero xs = []
take (suc n) [] = []
take (suc n) (x ∷ xs) = x ∷ take n xs

abbrev pub or_else {ℓ} : {A : Type ℓ} → List A → List A → List A
or_else [] ys = ys
or_else (x ∷ xs) ys = x ∷ xs

-- Outcome of `choose_data_source`.
pub data SourceChoice : Type 0 where
  chosen : (source_id : String) → SourceChoice
  ambiguous no_match : SourceChoice

abbrev pub source_margin : ℕ
source_margin = 2

-- the order of the pairs of a score and an id, the greatest first
abbrev pub scores_before : (String → String → Bool) → ℕ × String → ℕ × String → Bool
scores_before before x y = ltb y.0 x.0 || x.0 == y.0 && not (before x.1 y.1)

abbrev pub choose : List (ℕ × String) → SourceChoice
choose [] = no_match
choose ((score, id) ∷ []) = chosen id
choose ((score, id) ∷ (next, other) ∷ rest) =
    if score == 0
    then no_match
    else if leb source_margin (score - next)
    then chosen id
    else ambiguous

module _ (findall : String → List Word) (before : String → String → Bool) where
  abbrev pub all_words : List String → List Word
  all_words [] = []
  all_words (t ∷ ts) = findall t ++ all_words ts

  unfoldable pub table_score : List Word → ContextTable → ℕ
  table_score terms t =
      3 * common (stems (findall (t.table_name +s (" " +s t.description)))) terms
      + common (stems (all_words t.columns)) terms

  abbrev pub ranks_before : List Word → ContextTable → ContextTable → Bool
  ranks_before terms t u =
      ltb (table_score terms u) (table_score terms t)
      || table_score terms t == table_score terms u
        && not (before u.qualified_name t.qualified_name)

  abbrev pub relevant : List Word → List ContextTable → List ContextTable
  relevant terms [] = []
  relevant terms (t ∷ ts) =
      let rest = relevant terms ts in if ltb 0 (table_score terms t) then t ∷ rest else rest

  unfoldable pub rank_tables : List ContextTable → List Word → ℕ → List ContextTable
  rank_tables tables terms limit =
      let ranked = sorted (ranks_before terms) tables in
      take limit (or_else (relevant terms ranked) ranked)

  -- `max(…, default=0)`
  abbrev pub best_score : List Word → List ContextTable → ℕ
  best_score terms [] = 0
  best_score terms (t ∷ ts) = max (table_score terms t) (best_score terms ts)

  unfoldable pub scores : List Word → List (String × List ContextTable) → List (ℕ × String)
  scores terms [] = []
  scores terms ((id, tables) ∷ rest) = (best_score terms tables, id) ∷ scores terms rest

  unfoldable pub choose_data_source : List (String × List ContextTable) → List Word → SourceChoice
  choose_data_source candidates terms =
      choose (sorted (scores_before before) (scores terms candidates))
