-- ===== src/Query/Validator/Personal.antt =====
-- domain/policies/sql_validator.py of apps/query-gateway: that a validated statement of
-- another caller than the SQL editor reads no personal column.
use bu_vi.Base.{
  ◌++◌, ◌≢◌, ◌∙◌, ap, ◌≡◌, refl, sym, String, Bool, true, false, not, ◌&&◌, none, some, List, [],
  ◌∷◌, if◌then◌else◌, ◌=s◌, =s_refl, has, all, ok, guard-ok, Bool-cases, inl, inr,
}
use bu_vi.Query.Policy.{
  analytics_run, data_export, ColumnPolicy, column, Purpose, TablePolicy, DataSourcePolicy,
  is_indexed, index, table, sql_editor,
}
use bu_vi.Query.Validator.Sqlglot.{ColumnNode}
use bu_vi.Query.Validator.Validate.{is_pii_column, column_in, is_editor, is_personal, check_columns}

check_columns-ok :
    (policy : DataSourcePolicy) (cs : List ColumnNode)
    → check_columns policy cs ≡ ok tt
    → all (λ c. not (is_personal policy c.source c.name)) cs ≡ true
unfolding check_columns
check_columns-ok policy [] h = refl
check_columns-ok policy (c ∷ cs) h =
    let a = guard-ok (not (is_personal policy c.source c.name)) _ _ h in
    rw a.0 (check_columns-ok policy cs a.1)

-- Names that no table has are not in the index.
index-none :
    (allowed : List String) (t : TablePolicy) (ts : List TablePolicy)
    → all (λ u. not (u.schema_name =s t.schema_name && u.table_name =s t.table_name)) ts ≡ true
    → index allowed ts t.schema_name t.table_name ≡ none
unfolding index is_indexed
index-none allowed t [] h = refl
index-none allowed t (x ∷ ts) h =
    let (first, rest) = both _ _ h in
    rw (index-none allowed t ts rest) (
      by_test (has x.schema_name allowed) (x.schema_name =s t.schema_name)
        (x.table_name =s t.table_name) first)
  where
    both : (a b : Bool) → (a && b) ≡ true → (a ≡ true) × (b ≡ true)
    both true b h = (refl, h)
    both false b h = cc

    by_test : (a b c : Bool) → not (b && c) ≡ true → (if a && b && c then some x else none) ≡ none
    by_test a true true h = cc
    by_test true true false h = refl
    by_test false true false h = refl
    by_test true false c h = refl
    by_test false false c h = refl

index-last :
    (allowed : List String) (before after : List TablePolicy) (t : TablePolicy)
    → has t.schema_name allowed ≡ true
    → all (λ u. not (u.schema_name =s t.schema_name && u.table_name =s t.table_name)) after ≡ true
    → index allowed (before ++ t ∷ after) t.schema_name t.table_name ≡ some t
unfolding index is_indexed
index-last allowed [] after t a h =
    rw (index-none allowed t after h, a, =s_refl t.schema_name, =s_refl t.table_name) refl
index-last allowed (x ∷ before) after t a h = rw (index-last allowed before after t a h) refl

column-first :
    (before after : List ColumnPolicy) (c : ColumnPolicy)
    → all (λ d. not (d.name =s c.name)) before ≡ true
    → column (before ++ c ∷ after) c.name ≡ some c
unfolding column
column-first [] after c h = rw (=s_refl c.name) refl
column-first (d ∷ before) after c h = elim (Bool-cases (d.name =s c.name)) [
  | inl e ↦ absurd (false_not_true (rw e at h))
  | inr e ↦ rw e (column-first before after c (rw e at h))
]
  where
    false_not_true : false ≡ true → ⊥
    false_not_true h = cc

-- A column that is not personal data: where its source is a table of the policy, in an allowed schema
-- and the last one of its names, the table's first column of the name is not classified so.
pub IsImpersonal : DataSourcePolicy → ColumnNode → Type 0
IsImpersonal policy n =
    (t : TablePolicy) (before after : List TablePolicy)
    → policy.tables ≡ before ++ t ∷ after
    → has t.schema_name policy.allowed_schemas ≡ true
    → all (λ u. not (u.schema_name =s t.schema_name && u.table_name =s t.table_name)) after ≡ true
    → n.source ≡ some (t.schema_name, t.table_name)
    → (c : ColumnPolicy) (earlier later : List ColumnPolicy) → t.columns ≡ earlier ++ c ∷ later
    → all (λ d. not (d.name =s c.name)) earlier ≡ true
    → c.name ≡ n.name
    → c.is_pii ≡ false

abbrev pub AllImpersonal : DataSourcePolicy → List ColumnNode → Type 0
AllImpersonal policy [] = Unit
AllImpersonal policy (n ∷ ns) = IsImpersonal policy n × AllImpersonal policy ns

is_personal-IsImpersonal :
    (policy : DataSourcePolicy) (n : ColumnNode)
    → is_personal policy n.source n.name ≡ false
    → IsImpersonal policy n
unfolding IsImpersonal table
is_personal-IsImpersonal policy n h t before after tables allowed last source c earlier later
      columns first name =
    let found : index policy.allowed_schemas policy.tables t.schema_name t.table_name ≡ some t =
      rw tables (index-last policy.allowed_schemas before after t allowed last) in
    let named : column t.columns n.name ≡ some c =
      rw (columns, sym name) (column-first earlier later c first) in
    sym (ap is_pii_column named)
    ∙ sym (ap (λ o. is_pii_column (column_in o n.name)) found)
    ∙ sym (ap (λ o. is_personal policy o n.name) source)
    ∙ h

pub columns-ok :
    (policy : DataSourcePolicy) (purpose : Purpose) (cs : List ColumnNode)
    → (if is_editor purpose then ok tt else check_columns policy cs) ≡ ok tt
    → purpose ≢ sql_editor
    → AllImpersonal policy cs
columns-ok policy purpose cs h other = by_purpose purpose h other
  where
    each :
        (ns : List ColumnNode)
        → all (λ n. not (is_personal policy n.source n.name)) ns ≡ true
        → AllImpersonal policy ns
    each [] k = tt
    each (n ∷ ns) k =
        let (first, rest) = both (is_personal policy n.source n.name) _ k in
        (is_personal-IsImpersonal policy n first, each ns rest)
      where
        both : (a b : Bool) → (not a && b) ≡ true → (a ≡ false) × (b ≡ true)
        both true b h = cc
        both false b h = (refl, h)

    by_purpose :
        (q : Purpose)
        → (if is_editor q then ok tt else check_columns policy cs) ≡ ok tt
        → q ≢ sql_editor
        → AllImpersonal policy cs
    by_purpose analytics_run h other = each cs (check_columns-ok policy cs h)
    by_purpose data_export h other = each cs (check_columns-ok policy cs h)
    by_purpose sql_editor h other = absurd (other refl)
