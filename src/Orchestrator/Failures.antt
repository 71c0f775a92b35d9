-- ===== src/Orchestrator/Failures.antt =====
-- domain/value_objects/failures.py of apps/analytics-orchestrator: why a run failed. The messages
-- are not modelled.
pub data FailureCode : Type 0 where
  run_budget_exceeded tenant_budget_exceeded budget_unavailable stage_timeout run_timeout cancelled
        not_authorized request_not_supported no_data_source data_source_selection_required
        data_source_not_active no_relevant_data output_invalid query_rejected query_timeout
        query_failed query_concurrency_limited chart_invalid model_unavailable model_refused
        upstream_unavailable run_enqueue_failed internal_error :
      FailureCode
