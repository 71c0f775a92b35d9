-- ===== src/Worker/Usage.antt =====
-- application/services/usage_aggregator.py of apps/worker-runtime. `parse` is
-- `BillingUsageRecorded.parse_event`, none where it raises.
use bu_vi.Base.{
  ℕ, ◌≡◌, refl, Bool, true, false, Option, none, some, List, [], ◌∷◌, map, if◌then◌else◌, ap, ◌∙◌,
  not, ◌&&◌,
}
use bu_vi.Worker.Dispatch.{ack, retry, terminate, Decision}

module _ {Bytes Record : Type 0} (parse : Bytes → Option Record) where
  -- one round of the first loop, put before the rounds after it
  abbrev pub noted :
      Option Record → List (Option Decision) × List Record → List (Option Decision) × List Record
  noted none (decisions, records) =
      (some (record { disposition = terminate; delay = 0 }) ∷ decisions, records)
  noted (some r) (decisions, records) = (none ∷ decisions, r ∷ records)

  -- The first loop: the records, and a decision for each malformed message.
  unfoldable pub read_batch : List Bytes → List (Option Decision) × List Record
  read_batch [] = ([], [])
  read_batch (message ∷ batch) = noted (parse message) (read_batch batch)

  -- `decision or outcome`
  abbrev pub or_outcome : Decision → Option Decision → Decision
  or_outcome outcome none = outcome
  or_outcome outcome (some d) = d

  abbrev pub is_empty : List Record → Bool
  is_empty [] = true
  is_empty (r ∷ rs) = false

  -- `handle`; `stored` is whether the store takes the records. The records are what it is called
  -- with, none where it is not called.
  unfoldable pub handle_batch :
      ℕ → (List Record → Bool) → List Bytes → List Decision × Option (List Record)
  handle_batch retry_delay stored batch =
      let (decisions, records) = read_batch batch in
      let failed = not (is_empty records) && not (stored records) in
      let outcome : Decision =
        if failed
        then record { disposition = retry; delay = retry_delay }
        else record { disposition = ack; delay = 0 } in
      (map (or_outcome outcome) decisions, if is_empty records then none else some records)

  -- What a batch is meant to become: the readable messages, and one decision for each message.
  abbrev pub kept : Option Record → List Record → List Record
  kept none rs = rs
  kept (some r) rs = r ∷ rs

  unfoldable pub readable : List Bytes → List Record
  readable [] = []
  readable (message ∷ batch) = kept (parse message) (readable batch)

  abbrev pub decision_for : Decision → Option Record → Decision
  decision_for outcome none = record { disposition = terminate; delay = 0 }
  decision_for outcome (some r) = outcome

  abbrev pub decision_of : Decision → Bytes → Decision
  decision_of outcome message = decision_for outcome (parse message)

  noted-kept :
      (p : Option Record) (out : List (Option Decision) × List Record)
      → (noted p out).1 ≡ kept p out.1
  noted-kept none out = refl
  noted-kept (some r) out = refl

  noted-decision :
      (outcome : Decision) (p : Option Record) (out : List (Option Decision) × List Record)
      → map (or_outcome outcome) (noted p out).0
        ≡ decision_for outcome p ∷ map (or_outcome outcome) out.0
  noted-decision outcome none out = refl
  noted-decision outcome (some r) out = refl

  read_batch-readable : (batch : List Bytes) → (read_batch batch).1 ≡ readable batch
  unfolding read_batch readable
  read_batch-readable [] = refl
  read_batch-readable (message ∷ batch) =
      noted-kept (parse message) (read_batch batch)
      ∙ ap (kept (parse message)) (read_batch-readable batch)

  read_batch-decisions :
      (outcome : Decision) (batch : List Bytes)
      → map (or_outcome outcome) (read_batch batch).0 ≡ map (decision_of outcome) batch
  unfolding read_batch
  read_batch-decisions outcome [] = refl
  read_batch-decisions outcome (message ∷ batch) =
      noted-decision outcome (parse message) (read_batch batch)
      ∙ ap (decision_of outcome message ∷◌) (read_batch-decisions outcome batch)

  -- The readable messages of a batch, and no others, are stored in one call, in order; each message
  -- gets one decision at its place: an unreadable one is given up, and the readable ones are
  -- acknowledged together if they were stored, and else retried together, so none of them is lost.
  pub handle_batch_lem :
      (retry_delay : ℕ) (stored : List Record → Bool) (batch : List Bytes)
      → handle_batch retry_delay stored batch ≡ (
        map
            (decision_of (
              if not (is_empty (readable batch)) && not (stored (readable batch))
              then record { disposition = retry; delay = retry_delay }
              else record { disposition = ack; delay = 0 }))
            batch,
        if is_empty (readable batch) then none else some (readable batch),
      )
  unfolding handle_batch
  handle_batch_lem retry_delay stored batch =
      rw (read_batch-readable batch, read_batch-decisions) refl
