-- ===== src/Orchestrator/Context/Tests.antt =====
-- A question about stores, with two data sources.
use bu_vi.Base.{
  ℕ, ◌≡◌, refl, String, Bool, true, ◌&&◌, List, [], ◌∷◌, all, any, codes, ◌=s◌, if◌then◌else◌,
}
use bu_vi.Orchestrator.Context.Ranking.{
  Word, ContextTable, chosen, choose_data_source, scores, table_score, stems, stem, stem_turned,
  common,
}
use bu_vi.Orchestrator.Context.Choice.{is_scored, trails, choose_data_source-leads}

-- the words of the texts that are used here
abbrev some_words : String → List Word
some_words t = if t =s "stores shops" then codes "stores" ∷ codes "shops" ∷ [] else codes t ∷ []

abbrev by_name : String → String → Bool
by_name a b = a =s "sales" && b =s "store"

abbrev candidates : List (String × List ContextTable)
candidates =
    (
      "d1",
      record {
        qualified_name = "public.film";
        table_name = "film";
        description = "film";
        columns = "title" ∷ "store" ∷ [];
      }
          ∷ [],
    )
    ∷ (
      "d2",
      record {
        qualified_name = "public.stores";
        table_name = "stores";
        description = "shops";
        columns = "city" ∷ "address" ∷ [];
      }
          ∷ [],
    )
    ∷ []

abbrev terms : List Word
terms = codes "store" ∷ codes "city" ∷ []

chosen_d2 : choose_data_source some_words by_name candidates terms ≡ chosen "d2"
unfolding choose_data_source scores table_score stems stem stem_turned common
chosen_d2 = refl

choose_data_source-leads_example :
    (n : ℕ) × (any (is_scored n "d2") (scores some_words by_name terms candidates) ≡ true)
    × (all (trails n "d2") (scores some_words by_name terms candidates) ≡ true)
choose_data_source-leads_example =
    choose_data_source-leads some_words by_name candidates terms "d2" chosen_d2
