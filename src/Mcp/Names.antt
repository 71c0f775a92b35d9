-- ===== src/Mcp/Names.antt =====
-- Which texts `TOOL_NAME` accepts.
use bu_vi.Base.{
  ℕ, ◌≤◌, ◌≡◌, ◌↔◌, refl, true, List, [], ◌∷◌, ◌++◌, arith, all, length, ◌⊎◌, inl, inr, Bool-cases,
  ap,
}
use bu_vi.Mcp.ToolPolicy.{name_char, name_length, matches_rest, valid_tool_name}

matches-all : (cs : List ℕ) → all name_char cs ≡ true → matches_rest cs ≡ true
unfolding matches_rest
matches-all [] h = refl
matches-all (c ∷ []) h = ground arith
matches-all (c ∷ d ∷ cs) h = ground (arith, matches-all (d ∷ cs))

matches-newline : (cs : List ℕ) → all name_char cs ≡ true → matches_rest (cs ++ 10 ∷ []) ≡ true
unfolding matches_rest
matches-newline [] h = refl
matches-newline (c ∷ []) h = ground arith
matches-newline (c ∷ d ∷ cs) h = ground (arith, matches-newline (d ∷ cs))

length-all : (cs : List ℕ) → all name_char cs ≡ true → name_length cs ≡ length cs
unfolding name_length
length-all [] h = refl
length-all (c ∷ cs) h = ground (arith, length-all cs)

length-newline : (cs : List ℕ) → all name_char cs ≡ true → name_length (cs ++ 10 ∷ []) ≡ length cs
unfolding name_length
length-newline [] h = refl
length-newline (c ∷ cs) h = ground (arith, length-newline cs)

matches_sound :
    (n : List ℕ)
    → matches_rest n ≡ true
    → (all name_char n ≡ true) ⊎ ((cs : List ℕ) × (n ≡ cs ++ 10 ∷ []) × (all name_char cs ≡ true))
unfolding matches_rest
matches_sound [] h = inl refl
matches_sound (c ∷ []) h = elim (Bool-cases (name_char c)) [
  | inl good ↦ inl (rw good)
  | inr bad ↦ inr ([], ap (λ (x : ℕ). x ∷ []) (ground arith), refl)
]
matches_sound (c ∷ d ∷ cs) h = elim (matches_sound (d ∷ cs) (ground arith)) [
  | inl good ↦ inl (ground arith)
  | inr (init, e, good) ↦ inr (c ∷ init, ap (c ∷◌) e, ground arith)
]

-- A tool name is accepted exactly when it is 1 to 128 letters, digits, underscores, dots or dashes,
-- or is such a text with one newline after it.
pub valid_tool_name_iff :
    (n : List ℕ)
    → (valid_tool_name n ≡ true) ↔ (
        (cs : List ℕ) × ((n ≡ cs) ⊎ (n ≡ cs ++ 10 ∷ []))
        × (all name_char cs ≡ true)
        × (1 ≤ length cs)
        × (length cs ≤ 128))
unfolding valid_tool_name
valid_tool_name_iff n = (
  λ h. elim (matches_sound n (ground arith)) [
    | inl good ↦ (n, inl refl, good, ground (arith, length-all n), ground (arith, length-all n))
    | inr (cs, e, good) ↦
        (cs, inr e, good, ground (arith, length-newline cs), ground (arith, length-newline cs))
  ],
  λ h. elim h.1 [
    | inl e ↦ rw e (ground (arith, length-all h.0, matches-all h.0))
    | inr e ↦ rw e (ground (arith, length-newline h.0, matches-newline h.0))
  ],
)
