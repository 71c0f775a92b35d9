-- ===== src/Gateway/Pipeline/Body.antt =====
-- The size of a body.
use bu_vi.Base.{
  ℕ, ◌≤◌, ◌≡◌, refl, true, false, ◌||◌, Option, none, some, List, [], ◌∷◌, ◌++◌, arith, ltb,
  if◌then◌else◌, length, length-append, Bool-cases, inl, inr,
}
use bu_vi.Gateway.Pipeline.Request.{read_chunks, read_body}

abbrev pub concat : List (List ℕ) → List ℕ
concat [] = []
concat (x ∷ xs) = x ++ concat xs

append_nil : (xs : List ℕ) → xs ++ [] ≡ xs
append_nil [] = refl
append_nil (x ∷ xs) = ground (arith, append_nil xs)

append_assoc : (xs ys zs : List ℕ) → (xs ++ ys) ++ zs ≡ xs ++ (ys ++ zs)
append_assoc [] ys zs = refl
append_assoc (x ∷ xs) ys zs = ground (arith, append_assoc xs ys zs)

read_chunks-concat :
    (limit : ℕ) (body : List ℕ) (chunks : List (List ℕ))
    → length body ≤ limit
    → read_chunks limit body chunks
      ≡ (if ltb limit (length (body ++ concat chunks)) then none else some (body ++ concat chunks))
unfolding read_chunks
read_chunks-concat limit body [] h = rw append_nil (ground arith)
read_chunks-concat limit body (chunk ∷ chunks) h =
    elim (Bool-cases (ltb limit (length (body ++ chunk)))) [
      | inl long ↦
          let over : ltb limit (length (body ++ (chunk ++ concat chunks))) ≡ true =
            rw (← append_assoc body chunk (concat chunks))
              (ground (arith, length-append (body ++ chunk) (concat chunks))) in
          rw (long, over) refl
      | inr short ↦ rw short (
          rw (← append_assoc body chunk (concat chunks))
            (read_chunks-concat limit (body ++ chunk) chunks (ground arith)))
    ]

-- A body is read chunk by chunk exactly as if it were read whole: it is the chunks together, and is
-- refused exactly where the declared length, if there is one, or the real one is over the limit.
pub read_body-concat :
    (limit : ℕ) (declared : Option ℕ) (chunks : List (List ℕ))
    → read_body limit declared chunks ≡ (
        if elim declared [ none ↦ false | some n ↦ ltb limit n ]
          || ltb limit (length (concat chunks))
        then none
        else some (concat chunks))
unfolding read_body
read_body-concat limit none chunks = read_chunks-concat limit [] chunks (omega arith)
read_body-concat limit (some n) chunks =
    ground (arith, read_chunks-concat limit [] chunks (omega arith))
