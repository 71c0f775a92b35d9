-- ===== src/Query/Validator/Reads.antt =====
-- domain/policies/sql_validator.py of apps/query-gateway: which tables and columns a validated
-- statement reads.
use bu_vi.Base.{
  ◌≢◌, ◌∙◌, ap, ◌≡◌, refl, sym, String, Bool, true, false, not, ◌&&◌, ◌||◌, Option, none, some,
  List, [], ◌∷◌, arith, if◌then◌else◌, ◌=s◌, =s_refl, =s_iff, has, any, all, Result, ok, err,
  guard-ok, >>=-eq-ok, Bool-cases, Option-cases, inl, inr,
}
use bu_vi.Query.Policy.{
  analytics_run, data_export, Purpose, TablePolicy, DataSourcePolicy, is_indexed, index, table,
  tables_named, sql_editor,
}
use bu_vi.Query.Validator.Sqlglot.{TableNode, Sqlglot}
use bu_vi.Query.Validator.Checks.{RejectionReason, rejected, Rejected}
use bu_vi.Query.Validator.Validate.{
  written, ValidatorLimits, is_editor, one_of, look_up, available, resolve_table, resolve_tables,
  validate, dialect_of,
}
use bu_vi.Query.Validator.Vetted.{validate-ok}
use bu_vi.Query.Validator.Personal.{AllImpersonal, columns-ok}

-- The SQL editor asks, and no agent and no export.
abbrev pub asks_editor : Purpose → Bool
asks_editor analytics_run = false
asks_editor sql_editor = true
asks_editor data_export = false

is_editor-asks : (purpose : Purpose) → is_editor purpose ≡ asks_editor purpose
is_editor-asks analytics_run = refl
is_editor-asks sql_editor = refl
is_editor-asks data_export = refl

-- A table of the policy that a name may stand for: of an allowed schema, and visible to agents where an
-- agent asks.
unfoldable pub is_meant : DataSourcePolicy → Purpose → TableNode → TablePolicy → Bool
is_meant policy purpose t p =
    has p.schema_name policy.allowed_schemas
    && p.table_name =s t.name
    && (t.db =s "" || p.schema_name =s t.db)
    && (asks_editor purpose || p.is_visible_to_agent)

unfoldable pub is_reachable : DataSourcePolicy → Purpose → List String → TableNode → Bool
is_reachable policy purpose ctes t =
    t.is_identifier
    && t.catalog =s ""
    && (t.db =s "" && has t.name ctes || any (is_meant policy purpose t) policy.tables)

index-some :
    (allowed : List String) (ts : List TablePolicy) (schema name : String) (p : TablePolicy)
    (test : TablePolicy → Bool)
    → index allowed ts schema name ≡ some p
    → test p ≡ true
    → (is_indexed allowed schema name p ≡ true) × (any test ts ≡ true)
unfolding index
index-some allowed [] schema name p test h holds = cc
index-some allowed (t ∷ ts) schema name p test h holds =
    found (index allowed ts schema name) (index-some allowed ts schema name p test) h
  where
    first :
        (b : Bool)
        → is_indexed allowed schema name t ≡ b
        → (if b then some t else none) ≡ some p
        → (is_indexed allowed schema name p ≡ true) × ((test t || any test ts) ≡ true)
    first true e h = let same : t ≡ p = cc in (rw (sym same) e, rw same (rw holds refl))
    first false e h = cc

    found :
        (later : Option TablePolicy)
        → (later ≡ some p
            → test p ≡ true
            → (is_indexed allowed schema name p ≡ true) × (any test ts ≡ true))
        → (elim later [
          | some x ↦ some x
          | none ↦ if is_indexed allowed schema name t then some t else none
        ])
          ≡ some p
        → (is_indexed allowed schema name p ≡ true) × ((test t || any test ts) ≡ true)
    found none rec h = first (is_indexed allowed schema name t) refl h
    found (some x) rec h = let r = rec h holds in (r.0, ground (arith, r.1))

tables_named-some :
    (policy : DataSourcePolicy) (name : String) (schemas : List String) (p : TablePolicy)
    → tables_named policy name schemas ≡ p ∷ []
    → (schema : String) × (table policy schema name ≡ some p)
unfolding tables_named
tables_named-some policy name [] p h = cc
tables_named-some policy name (schema ∷ schemas) p h =
    elim (Option-cases (table policy schema name)) [
      | inl e ↦ tables_named-some policy name schemas p (rw (e) at h)
      | inr (q, e) ↦ (schema, rw e (first q (rw (e) at h)))
    ]
  where
    first : (q : TablePolicy) → q ∷ tables_named policy name schemas ≡ p ∷ [] → some q ≡ some p
    first q h = cc

one_of-some :
    (t : TableNode) (ts : List TablePolicy) (p : TablePolicy)
    → one_of t ts ≡ ok (some p)
    → ts ≡ p ∷ []
one_of-some t [] p h = cc
one_of-some t (q ∷ []) p h = cc
one_of-some t (q ∷ r ∷ ts) p h = cc

-- The table that a name is looked up as is at that name's key of the index.
look_up-some :
    (policy : DataSourcePolicy) (t : TableNode) (p : TablePolicy)
    → look_up policy t ≡ ok (some p)
    → (schema : String) × (table policy schema t.name ≡ some p)
      × ((t.db =s "" || schema =s t.db) ≡ true)
unfolding look_up
look_up-some policy t p h = elim (Bool-cases (t.db =s "")) [
  | inl e ↦
      let (schema, at) =
        tables_named-some policy t.name policy.allowed_schemas p
          (one_of-some t (tables_named policy t.name policy.allowed_schemas) p (rw (e) at h)) in
      (schema, at, rw e refl)
  | inr e ↦ (t.db, found (table policy t.db t.name) _ refl (rw (e) at h), rw (e, =s_refl) refl)
]
  where
    found :
        (o : Option TablePolicy) (r : Result Rejected (Option TablePolicy))
        → r ≡ ok o
        → r ≡ ok (some p)
        → o ≡ some p
    found o r e h = cc

available-ok :
    (purpose : Purpose) (t : TableNode) (found : Option TablePolicy) (p : TablePolicy)
    → available purpose t found ≡ ok p
    → (found ≡ some p) × ((is_editor purpose || p.is_visible_to_agent) ≡ true)
available-ok purpose t none p h = cc
available-ok purpose t (some q) p h = visible (is_editor purpose) q h
  where
    hidden : (e : Rejected) (r : Result Rejected TablePolicy) → r ≡ err e → r ≡ ok p → ⊥
    hidden e r a b = cc

    visible :
        (b : Bool) (q : TablePolicy)
        → (if not b && not q.is_visible_to_agent
            then err (rejected RejectionReason.table_not_allowed (some (written t)))
            else ok q)
          ≡ ok p
        → (some q ≡ some p) × ((b || p.is_visible_to_agent) ≡ true)
    visible true q h = (cc, refl)
    visible false q h = elim (Bool-cases q.is_visible_to_agent) [
      | inl e ↦ let same : q ≡ p = cc in (cc, rw (sym same) e)
      | inr e ↦ absurd (hidden _ _ refl (rw e at h))
    ]

module _ (policy : DataSourcePolicy) (purpose : Purpose) (ctes : List String) where
  meant :
      (t : TableNode) (schema : String) (p : TablePolicy)
      → is_indexed policy.allowed_schemas schema t.name p ≡ true
      → (t.db =s "" || schema =s t.db) ≡ true
      → (asks_editor purpose || p.is_visible_to_agent) ≡ true
      → is_meant policy purpose t p ≡ true
  unfolding is_indexed is_meant
  meant t schema p h db visible = ground (arith, h, db, visible, =s_iff p.schema_name schema, same)
    where
      same : p.schema_name ≡ schema → (p.schema_name =s t.db) ≡ (schema =s t.db)
      same e = rw e refl

  table_meant :
      (t : TableNode) (found : Option TablePolicy) (p : TablePolicy)
      → look_up policy t ≡ ok found
      → available purpose t found ≡ ok p
      → any (is_meant policy purpose t) policy.tables ≡ true
  unfolding table
  table_meant t found p looks h =
      let (e, visible) = available-ok purpose t found p h in
      let (schema, at, db) = look_up-some policy t p (rw (sym e) looks) in
      let indexed =
        index-some policy.allowed_schemas policy.tables schema t.name p (λ q. true) at refl in
      (index-some policy.allowed_schemas policy.tables schema t.name p (is_meant policy purpose t)
        at
        (meant t schema p indexed.0 db
          (ap (λ b. b || p.is_visible_to_agent) (sym (is_editor-asks purpose)) ∙ visible))).1

  resolve_table-ok :
      (t : TableNode) (entry : Option TablePolicy)
      → resolve_table policy purpose ctes t ≡ ok entry
      → is_reachable policy purpose ctes t ≡ true
  unfolding resolve_table is_reachable is_meant
  resolve_table-ok t entry h =
      let a = guard-ok t.is_identifier _ _ h in
      let b = guard-ok (t.catalog =s "") _ _ a.1 in
      elim (Bool-cases (t.db =s "" && has t.name ctes)) [
        | inl e ↦ rw (a.0, b.0, e) refl
        | inr e ↦
            let (found, looks, rest) = >>=-eq-ok (look_up policy t) _ (rw e at b.1) in
            let (p, shows, same) = >>=-eq-ok (available purpose t found) _ rest in
            rw (a.0, b.0, e) (table_meant t found p looks shows)
      ]

  resolve_tables-ok :
      (ts : List TableNode) (entries : List (Option TablePolicy))
      → resolve_tables policy purpose ctes ts ≡ ok entries
      → all (is_reachable policy purpose ctes) ts ≡ true
  unfolding resolve_tables
  resolve_tables-ok [] entries h = refl
  resolve_tables-ok (t ∷ ts) entries h =
      let (entry, one, rest) = >>=-eq-ok (resolve_table policy purpose ctes t) _ h in
      let (others, more, same) = >>=-eq-ok (resolve_tables policy purpose ctes ts) _ rest in
      rw (resolve_table-ok t entry one) (resolve_tables-ok ts others more)

-- What a statement reads, given the SQL that runs.
pub record ReadsAllowed {Tree : Type 0} (lib : Sqlglot Tree) (policy : DataSourcePolicy)
    (purpose : Purpose) (sql canonical : String) : Type 0 where
  pub dialect : String
  pub knows : dialect_of policy.engine ≡ some dialect
  pub parsed : Tree
  pub parses : lib.parse dialect sql ≡ ok (parsed ∷ [])
  pub reachable :
      let tree = lib.normalize_identifiers dialect parsed in
      all (is_reachable policy purpose (lib.cte_names tree)) (lib.tables tree) ≡ true
  pub printed : Tree
  pub prints : canonical ≡ lib.sql dialect printed
  pub impersonal : purpose ≢ sql_editor → AllImpersonal policy (lib.columns printed)

-- Of SQL that `validate` accepts, each table has no catalog and either has, without a schema, the name of a
-- common table expression anywhere in the statement, which passes unchecked, or is a table of the
-- connection policy, in an allowed schema, the named one where a schema is named, and visible to
-- agents unless the SQL editor asks; and where it is not the editor, no column, in the tree that the
-- returned SQL is printed from, of a table of the policy is classified there as personal data.
pub validate-ReadsAllowed :
    {Tree : Type 0} (lib : Sqlglot Tree) (limits : ValidatorLimits) (sql : String)
    (policy : DataSourcePolicy) (purpose : Purpose) (out : String × List String)
    → validate lib limits sql policy purpose ≡ ok out
    → ReadsAllowed lib policy purpose sql out.0
validate-ReadsAllowed lib limits sql policy purpose out h =
    let v = validate-ok lib limits sql policy purpose out h in
    let tree = lib.normalize_identifiers v.dialect v.parsed in
    record {
      dialect = v.dialect;
      knows = v.knows;
      parsed = v.parsed;
      parses = v.parses;
      reachable =
          resolve_tables-ok policy purpose (lib.cte_names tree) (lib.tables tree) v.rest.entries
            v.rest.resolved;
      printed = v.rest.printed;
      prints = v.rest.prints;
      impersonal = columns-ok policy purpose (lib.columns v.rest.printed) v.rest.columns;
    }
