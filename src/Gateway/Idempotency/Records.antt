-- ===== src/Gateway/Idempotency/Records.antt =====
-- infrastructure/cache/idempotency_store.py and domain/policies/idempotency.py of apps/api-gateway.
-- A record is a value where the source stores it as JSON, and a body is a list of bytes where the
-- source stores it in base64. Redis drops a key once its time to live has passed.
use bu_vi.Base.{
  ℕ, ◌+◌, String, Bool, true, false, not, ◌&&◌, Option, none, some, List, [], ◌∷◌, leb, ltb, ◌==◌,
  if◌then◌else◌, ◌=s◌, any,
}
use Prim.Native.String.{◌++◌ as ◌+s◌}

-- `[\x21-\x7e]`
abbrev pub key_char : ℕ → Bool
key_char c = leb 33 c && leb c 126

-- The rest of the text up to its end, or up to one last newline.
unfoldable pub key_rest : List ℕ → ℕ → Bool
key_rest [] n = leb 1 n && leb n 255
key_rest (c ∷ cs) n =
    let rest = key_rest cs (n + 1) in
    if key_char c
    then rest
    else c == 10 && (leb 1 n && (leb n 255 && elim cs [ [] ↦ true | _ ∷ _ ↦ false ]))

-- `_KEY.match(key)`, on code points
unfoldable pub valid_key : List ℕ → Bool
unfolding key_rest
valid_key key = key_rest key 0

-- `RETRYABLE`
abbrev pub retryable : List ℕ
retryable = 401 ∷ 403 ∷ 408 ∷ 409 ∷ 425 ∷ 429 ∷ []

unfoldable pub is_final : ℕ → Bool
is_final status = ltb status 500 && not (any (λ s. status == s) retryable)

-- `record_key`; `sha256` is the hash in hexadecimal.
unfoldable pub record_key : (String → String) → String → String → String → String
record_key sha256 tenant_id principal_id key =
    "idem:" +s tenant_id +s ":" +s principal_id +s ":" +s sha256 key

-- `StoredResponse`
pub record StoredResponse : Type 0 where
  pub status_code : ℕ
  pub content_type : Option String
  -- none: the body is deliberately not stored
  pub body : Option (List ℕ)

-- The JSON of a record, by its `state`.
pub data Row : Type 0 where
  pending : (fp token : String) → Row
  completed : (fp : String) (response : StoredResponse) → Row

pub record Kept : Type 0 where
  pub row : Row
  pub expires_at : ℕ

abbrev pub Rows : Type 0
Rows = String → Option Kept

-- GET
unfoldable pub get_row : Rows → ℕ → String → Option Row
get_row rows now key = elim (rows key) [
  | none ↦ none
  | some k ↦ if leb k.expires_at now then none else some k.row
]

-- SET with PX, or DEL
unfoldable pub set_row : Rows → String → Option Kept → Rows
set_row rows key k other = if key =s other then k else rows other

-- BEGIN_LUA: the record that is there, if any, and the rows.
unfoldable pub begin_script : ℕ → String → Row → ℕ → Rows → Option Row × Rows
begin_script now key row lock_ms rows = elim (get_row rows now key) [
  | some current ↦ (some current, rows)
  | none ↦ (none, set_row rows key (some (record { row = row; expires_at = now + lock_ms })))
]

-- `record['state'] == 'pending' and record['token'] == ARGV[1]`
abbrev pub is_held_by : String → Option Row → Bool
is_held_by token none = false
is_held_by token (some (pending fp t)) = t =s token
is_held_by token (some (completed fp response)) = false

-- RELEASE_LUA
unfoldable pub release_script : ℕ → String → String → Rows → Rows
release_script now key token rows =
    if is_held_by token (get_row rows now key) then set_row rows key none else rows

-- COMPLETE_LUA
unfoldable pub complete_script : ℕ → String → String → Row → ℕ → Rows → Rows
complete_script now key token row ttl_ms rows =
    if is_held_by token (get_row rows now key)
    then set_row rows key (some (record { row = row; expires_at = now + ttl_ms }))
    else rows
