-- ===== src/Tests/Verifying.antt =====
-- The checks at concrete tables.
use fleet_stream_real_time_f.Prelude.{none, some, ◌≢◌}
use fleet_stream_real_time_f.Silver.Write.{Lake, write_batch}
use fleet_stream_real_time_f.Verify.Checks.{fail, check_idempotency}
use fleet_stream_real_time_f.Verify.Replay.{check_idempotency-pass}
use fleet_stream_real_time_f.Tests.Upsert.{upsert, upsert-IsMerge}
use fleet_stream_real_time_f.Tests.Batching.{
  evaluate, rules, batch, first_call, second_call, empty_lake,
}

abbrev pub written : Lake
written = (write_batch evaluate rules (λ s. s) upsert first_call batch empty_lake).1

check_idempotency-pass_example :
    ((check_idempotency evaluate rules (λ s. s) upsert second_call batch written).0 ≢ some fail)
    × ((check_idempotency evaluate rules (λ s. s) upsert second_call batch written).0 ≢ none)
check_idempotency-pass_example =
    check_idempotency-pass evaluate rules (λ s. s) upsert upsert-IsMerge second_call batch written
