-- ===== src/Query/Validator/Harmless.antt =====
-- What the structural checks of domain/policies/sql_validator.py of apps/query-gateway let through.
use bu_vi.Base.{
  ℕ, suc, ◌+◌, ◌≤◌, ◌≡◌, refl, String, Bool, true, false, not, ◌&&◌, ◌||◌, List, [], ◌∷◌, arith,
  ltb, if◌then◌else◌, has, all, length, ok, err, guard, guard-ok, Bool-cases, inl, inr, >>=-eq-ok,
}
use bu_vi.Query.Validator.Allowed.{allowed_functions, select_roots}
use bu_vi.Query.Validator.Sqlglot.{Node, Sqlglot}
use bu_vi.Query.Validator.Checks.{
  Rejected, is_instance, is_write, is_parameter, is_qualified_call, is_blocked_cast, is_call,
  allowed_anonymous, check_function, check_node, check_nodes, check_statement_shape,
}

module _ {Tree : Type 0} (lib : Sqlglot Tree) where
  unfoldable pub is_allowed_function : String → Node → Bool
  is_allowed_function dialect n =
      if has "Anonymous" n.bases
      then has (lib.lower n.name) (allowed_anonymous dialect)
      else has n.class allowed_functions

  -- A node that neither writes, nor locks, nor takes a parameter, nor calls what is not allowed.
  unfoldable pub is_harmless : String → Node → Bool
  is_harmless dialect n =
      not (is_write n)
      && not (has "Into" n.bases)
      && not (has "Lock" n.bases)
      && not (is_parameter n)
      && not (is_qualified_call n)
      && not (is_blocked_cast n)
      && (not (is_call n) || is_allowed_function dialect n)

  check_function-ok :
      (dialect : String) (n : Node) (b : Bool)
      → (if b then check_function lib dialect n else ok tt) ≡ ok tt
      → (not b || is_allowed_function dialect n) ≡ true
  unfolding check_function is_allowed_function
  check_function-ok dialect n false h = refl
  check_function-ok dialect n true h = elim (Bool-cases (has "Anonymous" n.bases)) [
    | inl e ↦ rw e (guard_passed (has (lib.lower n.name) (allowed_anonymous dialect)) _ (rw e at h))
    | inr e ↦ rw e (guard_passed (has n.class allowed_functions) _ (rw e at h))
  ]
    where
      guard_passed : (b : Bool) (e : Rejected) → guard b e ≡ ok tt → b ≡ true
      guard_passed true e h = refl
      guard_passed false e h = cc

  check_node-ok :
      (dialect : String) (n : Node)
      → check_node lib dialect n ≡ ok tt
      → is_harmless dialect n ≡ true
  unfolding check_node is_harmless
  check_node-ok dialect n h =
      let a = guard-ok (not (is_write n)) _ _ h in
      let b = guard-ok (not (has "Into" n.bases)) _ _ a.1 in
      let c = guard-ok (not (has "Lock" n.bases)) _ _ b.1 in
      let d = guard-ok (not (is_parameter n)) _ _ c.1 in
      let e = guard-ok (not (is_qualified_call n)) _ _ d.1 in
      let f = guard-ok (not (is_blocked_cast n)) _ _ e.1 in
      rw (a.0, b.0, c.0, d.0, e.0, f.0) (check_function-ok dialect n (is_call n) f.1)

  pub check_nodes-ok :
      (max_nodes : ℕ) (dialect : String) (count : ℕ) (ns : List Node)
      → count ≤ suc max_nodes
      → check_nodes lib max_nodes dialect count ns ≡ ok tt
      → (all (is_harmless dialect) ns ≡ true) × (length ns + count ≤ suc max_nodes)
  unfolding check_nodes
  check_nodes-ok max_nodes dialect count [] le h = (refl, omega (arith, le))
  check_nodes-ok max_nodes dialect count (n ∷ ns) le h =
      let within = guard-ok (not (ltb max_nodes count)) _ _ h in
      let (done, node, rest) = >>=-eq-ok (check_node lib dialect n) _ within.1 in
      let few : count + 1 ≤ suc max_nodes = ground (arith, within.0) in
      let (harmless, fit) = check_nodes-ok max_nodes dialect (count + 1) ns few rest in
      (rw (check_node-ok dialect n node) harmless, omega (arith, fit))

  pub check_statement_shape-ok :
      (n : Node) → check_statement_shape lib n ≡ ok tt → is_instance n select_roots ≡ true
  unfolding check_statement_shape
  check_statement_shape-ok n h = elim (Bool-cases (is_instance n select_roots)) [
    | inl e ↦ e
    | inr e ↦ elim (Bool-cases (is_write n)) [
      | inl w ↦ absurd (refused (rw (e, w) at h))
      | inr w ↦ absurd (refused (rw (e, w) at h))
    ]
  ]
    where
      refused : {e : Rejected} → err e ≡ ok tt → ⊥
      refused h = cc
