-- ===== src/Scheduler/Samples.antt =====
-- The policy of config/read-api-policy.json, and requests under it, for tests and instances.
use hyperliquid.Base.{[], ◌∷◌, none, some}
use hyperliquid.Scheduler.Request.{
  RequestKey, ScheduledReadRequest, BudgetClass, RequestPriority, candidate, market, source_state,
  market_mids, exchange_metadata, order_book, follower_state, follower_open_orders, active,
  inactive, source_polling,
}
use hyperliquid.Scheduler.Policy.{ReadApiPolicy}
use hyperliquid.Scheduler.Retry.{RetryPolicy}

abbrev pub policy : ReadApiPolicy
policy = record {
  total_weight_per_window = 1200;
  reserved_weight_per_window = 360;
  source_polling_weight_per_window = 750;
  window_ms = 60000;
  max_concurrency = 8;
  queue_capacity = 256;
  endpoint_weights =
      (source_state, 2)
      ∷ (market_mids, 2)
      ∷ (exchange_metadata, 20)
      ∷ (order_book, 2)
      ∷ (follower_state, 2)
      ∷ (follower_open_orders, 20)
      ∷ [];
  source_tier_dispatch_targets_per_window = (active, 300) ∷ (inactive, 69) ∷ [];
}

abbrev pub retry_policy : RetryPolicy
retry_policy = record {
  initial_backoff_ms = 1000;
  maximum_backoff_ms = 30000;
  maximum_attempts = 5;
  maximum_lifetime_ms = 120000;
  jitter_bps = 1000;
  deterministic_seed = 12101991;
}

abbrev pub mids_key : RequestKey
mids_key = record { subject = market; kind = market_mids }

abbrev pub mids_request : ScheduledReadRequest
mids_request = record {
  key = mids_key;
  kind = market_mids;
  candidate_id = none;
  source_tier = none;
  weight = 2;
  priority = RequestPriority.normal;
  budget_class = BudgetClass.normal;
  created_at = 100;
  not_before = 100;
  expires_at = 9000;
  attempt = 0;
}

abbrev pub wallet_request : ScheduledReadRequest
wallet_request = record {
  key = record { subject = candidate "0xabc"; kind = source_state };
  kind = source_state;
  candidate_id = some "0xabc";
  source_tier = some active;
  weight = 2;
  priority = RequestPriority.high;
  budget_class = source_polling;
  created_at = 100;
  not_before = 100;
  expires_at = 9000;
  attempt = 0;
}
