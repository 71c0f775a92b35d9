-- ===== src/Worker/Dispatch.antt =====
-- application/services/run_dispatcher.py of apps/worker-runtime, and `execute` of
-- infrastructure/http/orchestrator_client.py. Delays are in milliseconds.
use bu_vi.Base.{
  ℕ, ◌-◌, ◌*◌, ◌^◌, ◌≤◌, min, max, Bool, true, false, Option, none, some, arith, leb, ◌==◌,
  if◌then◌else◌,
}

pub data Disposition : Type 0 where
  ack retry terminate : Disposition

pub record Decision : Type 0 where
  pub disposition : Disposition
  pub delay : ℕ

-- The settings of a `RunDispatcher`.
pub record RunDispatcher : Type 0 where
  pub retry_base : ℕ
  pub max_deliveries : Option ℕ

-- The response to the execute call: an HTTP status, or none where the call fails.
-- `OrchestratorUnavailableError` is none.
unfoldable pub execute_call : Option ℕ → Option ℕ
execute_call none = none
execute_call (some status) = if leb 500 status then none else some status

abbrev pub is_last : Option ℕ → ℕ → Bool
is_last none delivery_count = false
is_last (some most) delivery_count = leb most delivery_count

-- `_retry`
unfoldable pub retry_later : RunDispatcher → ℕ → ℕ → Decision
retry_later d delay delivery_count =
    if is_last d.max_deliveries delivery_count
    then record { disposition = terminate; delay = 0 }
    else record { disposition = retry; delay = delay }

unfoldable pub backoff : RunDispatcher → ℕ → ℕ
backoff d delivery_count = min (d.retry_base * 2 ^ (delivery_count - 1)) 120000

-- The end of `handle`, by the answer to the call.
unfoldable pub decide : RunDispatcher → ℕ → Option ℕ → Decision
decide d delivery_count none = retry_later d (backoff d delivery_count) delivery_count
decide d delivery_count (some status) =
    if status == 200
    then record { disposition = ack; delay = 0 }
    else if status == 404
    then record { disposition = terminate; delay = 0 }
    else if status == 409
    then retry_later d (max (backoff d delivery_count) 15000) delivery_count
    else if leb 500 status
    then retry_later d (backoff d delivery_count) delivery_count
    else record { disposition = terminate; delay = 0 }

-- `handle`; `parsed` is whether the message could be read, and `response` is that of the call.
unfoldable pub handle : RunDispatcher → ℕ → Bool → Option ℕ → Decision
handle d delivery_count parsed response =
    if parsed
    then decide d delivery_count (execute_call response)
    else record { disposition = terminate; delay = 0 }

-- No decision delays a message for more than two minutes, whatever the count of its deliveries.
pub handle-delay :
    (d : RunDispatcher) (delivery_count : ℕ) (parsed : Bool) (response : Option ℕ)
    → (handle d delivery_count parsed response).delay ≤ 120000
unfolding handle decide retry_later backoff execute_call
handle-delay d n false response = omega arith
handle-delay d n true none = ground arith
handle-delay d n true (some status) = ground arith
