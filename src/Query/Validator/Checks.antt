-- ===== src/Query/Validator/Checks.antt =====
-- domain/policies/sql_validator.py of apps/query-gateway: the checks of a parsed statement.
use bu_vi.Base.{
  ℕ, ◌+◌, ◌-◌, String, Bool, true, false, not, ◌&&◌, Option, none, some, List, [], ◌∷◌, ltb, ◌==◌,
  if◌then◌else◌, ◌=s◌, has, any, codes, map, Result, ok, err, guard, ◌>>◌,
}
use Prim.Native.String.{String}
use bu_vi.Query.Validator.Allowed.{
  write_nodes, select_roots, allowed_functions, postgres_anonymous, mysql_anonymous, operator_bases,
}
use bu_vi.Query.Validator.Sqlglot.{Node, Sqlglot}

pub data RejectionReason : Type 0 where
  empty_sql too_long invalid_characters parse_error multiple_statements : RejectionReason
  not_a_select write_operation into_clause locking_clause parameter : RejectionReason
  function_not_allowed qualified_function table_function cast_not_allowed : RejectionReason
  table_not_allowed ambiguous_table column_not_allowed pii_column too_complex : RejectionReason

-- `_RejectedError`
pub record Rejected : Type 0 where
  pub reason : RejectionReason
  pub detail : Option String

-- `_MAX_DETAIL`
abbrev pub max_detail : ℕ
max_detail = 128

-- `text[:n]`
abbrev pub clip : ℕ → String → String
clip n String.[] = String.[]
clip n (String.◌∷◌ c s) =
    let rest = clip (n - 1) s in if n == 0 then String.[] else String.◌∷◌ c rest

-- `detail[:_MAX_DETAIL] if detail else None`
abbrev pub clipped : Option String → Option String
clipped none = none
clipped (some text) = if text =s "" then none else some (clip max_detail text)

unfoldable pub rejected : RejectionReason → Option String → Rejected
rejected reason detail = record { reason = reason; detail = clipped detail }

-- `isinstance(node, …)`
unfoldable pub is_instance : Node → List String → Bool
is_instance n classes = any (λ c. has c n.bases) classes

-- `_WRITE_NODES.get(…)`
unfoldable pub keyword_of : List (String × String) → String → Option String
keyword_of [] class = none
keyword_of (w ∷ ws) class = if w.0 =s class then some w.1 else keyword_of ws class

-- `type(node) in _WRITE_NODES`
unfoldable pub is_write : Node → Bool
is_write n = has n.class (map (λ w. w.0) write_nodes)

abbrev pub or_text : Option String → String → String
or_text none default = default
or_text (some text) default = text

-- `text.startswith(prefix)`
abbrev pub is_prefix : List ℕ → List ℕ → Bool
is_prefix [] cs = true
is_prefix (p ∷ ps) [] = false
is_prefix (p ∷ ps) (c ∷ cs) = p == c && is_prefix ps cs

-- `_BLOCKED_CAST_PREFIXES`
abbrev pub blocked_cast_prefix : String
blocked_cast_prefix = "reg"

unfoldable pub is_cast : Node → Bool
is_cast n = is_instance n ("Cast" ∷ "TryCast" ∷ [])

unfoldable pub is_blocked_cast : Node → Bool
is_blocked_cast n = is_cast n && is_prefix (codes blocked_cast_prefix) (codes n.cast_target)

unfoldable pub is_parameter : Node → Bool
is_parameter n = is_instance n ("Placeholder" ∷ "Parameter" ∷ "SessionParameter" ∷ [])

abbrev pub is_some : Option String → Bool
is_some none = false
is_some (some t) = true

unfoldable pub is_qualified_call : Node → Bool
is_qualified_call n = has "Dot" n.bases && is_some n.called

-- A call of a function, which an operator is not.
unfoldable pub is_call : Node → Bool
is_call n = has "Func" n.bases && not (is_instance n operator_bases)

-- `_ALLOWED_ANONYMOUS[dialect]`
unfoldable pub allowed_anonymous : String → List String
allowed_anonymous dialect =
    if dialect =s "postgres"
    then postgres_anonymous
    else if dialect =s "mysql"
    then mysql_anonymous
    else []

module _ {Tree : Type 0} (lib : Sqlglot Tree) where
  -- `_keyword`
  unfoldable pub keyword : Node → String
  keyword n =
      if has "Command" n.bases
      then clip 32 (or_text n.word "COMMAND")
      else or_text (keyword_of write_nodes n.class) (lib.upper n.class)

  -- `_check_statement_shape`
  unfoldable pub check_statement_shape : Node → Result Rejected (Unit {0})
  check_statement_shape n =
      if is_instance n select_roots
      then ok tt
      else if is_write n
      then err (rejected write_operation (some (keyword n)))
      else err (rejected not_a_select none)

  -- `_check_function`
  unfoldable pub check_function : String → Node → Result Rejected (Unit {0})
  check_function dialect n =
      if has "Anonymous" n.bases
      then guard (has (lib.lower n.name) (allowed_anonymous dialect))
          (rejected function_not_allowed (some (lib.lower n.name)))
      else guard (has n.class allowed_functions)
          (rejected function_not_allowed (some (lib.lower n.sql_name)))

  -- one round of the loop of `_check_nodes`, after the count
  unfoldable pub check_node : String → Node → Result Rejected (Unit {0})
  check_node dialect n =
      guard (not (is_write n)) (rejected write_operation (some (keyword n)))
      >> (guard (not (has "Into" n.bases)) (rejected into_clause none)
          >> (guard (not (has "Lock" n.bases)) (rejected locking_clause none)
              >> (guard (not (is_parameter n)) (rejected parameter none)
                  >> (guard (not (is_qualified_call n)) (rejected qualified_function n.called)
                      >> (guard (not (is_blocked_cast n))
                            (rejected cast_not_allowed (some n.cast_target))
                          >> (if is_call n then check_function dialect n else ok tt))))))

  -- `_check_nodes`, from a count on
  unfoldable pub check_nodes : ℕ → String → ℕ → List Node → Result Rejected (Unit {0})
  check_nodes max_nodes dialect count [] = ok tt
  check_nodes max_nodes dialect count (n ∷ ns) =
      let rest = check_nodes max_nodes dialect (count + 1) ns in
      guard (not (ltb max_nodes count)) (rejected too_complex none)
      >> (check_node dialect n >> rest)
