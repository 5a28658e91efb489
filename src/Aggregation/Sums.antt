-- ===== src/Aggregation/Sums.antt =====
-- The branches of `aggregate_records` that sum counters: network, CPU, memory, disk and focus, in
-- crates/heimwatch-storage/src/aggregation.rs. Sums wrap as in a release build.
use heimwatch.Prelude.{ℕ, ◌+◌, List, [], Bytes, length, wrap64, wrap32}
use heimwatch.Core.Metrics.{MetricPayload}
use heimwatch.Core.Floats.{Floats}
use heimwatch.Aggregation.Loops.{Rec, fold_payloads, rounded_mean, truncated_mean}

module _ (fl : Floats) where
  open fl use {
    F32, F64, zero_f64, add_f64, div_f64, round, f64_of_u64, f64_of_f32, f32_of_f64, u64_of_f64,
    u32_of_f64,
  }

  unfoldable pub net_step : ℕ × ℕ × ℕ → MetricPayload F32 → ℕ × ℕ × ℕ
  net_step (tx, rx, conn) (MetricPayload.net d) =
      (wrap64 (tx + d.tx_bytes), wrap64 (rx + d.rx_bytes), wrap64 (conn + d.connections))
  net_step acc _ = acc

  unfoldable pub aggregate_net : List (Rec fl) → MetricPayload F32
  unfolding net_step
  aggregate_net records =
      let (tx_sum, rx_sum, conn_sum) = fold_payloads fl net_step (0, 0, 0) records in
      MetricPayload.net (record {
        tx_bytes = tx_sum;
        rx_bytes = rx_sum;
        connections = rounded_mean fl conn_sum (length records);
      })

  unfoldable pub cpu_step : ℕ × F64 × ℕ → MetricPayload F32 → ℕ × F64 × ℕ
  cpu_step (time, usage, threads) (MetricPayload.cpu d) = (
    wrap64 (time + d.cpu_time_ns),
    add_f64 usage (f64_of_f32 d.cpu_usage_percent),
    wrap32 (threads + d.thread_count),
  )
  cpu_step acc _ = acc

  unfoldable pub aggregate_cpu : List (Rec fl) → MetricPayload F32
  unfolding cpu_step
  aggregate_cpu records =
      let (time_sum, usage_sum, thread_sum) =
        fold_payloads fl cpu_step (0, f64_of_u64 0, 0) records in
      MetricPayload.cpu (record {
        cpu_time_ns = time_sum;
        cpu_usage_percent = f32_of_f64 (div_f64 usage_sum (f64_of_u64 (length records)));
        thread_count = rounded_mean fl thread_sum (length records);
      })

  unfoldable pub mem_step : ℕ × ℕ × ℕ × ℕ → MetricPayload F32 → ℕ × ℕ × ℕ × ℕ
  mem_step (rss, vms, swap, proc) (MetricPayload.mem d) = (
    wrap64 (rss + d.rss_bytes),
    wrap64 (vms + d.vms_bytes),
    wrap64 (swap + d.swap_bytes),
    wrap64 (proc + d.process_count),
  )
  mem_step acc _ = acc

  unfoldable pub aggregate_mem : List (Rec fl) → MetricPayload F32
  unfolding mem_step
  aggregate_mem records =
      let (rss_sum, vms_sum, swap_sum, proc_sum) = fold_payloads fl mem_step (0, 0, 0, 0) records in
      let n = length records in
      MetricPayload.mem (record {
        rss_bytes = truncated_mean fl rss_sum n;
        vms_bytes = truncated_mean fl vms_sum n;
        swap_bytes = truncated_mean fl swap_sum n;
        process_count = rounded_mean fl proc_sum n;
      })

  -- the mount point is the last record's
  unfoldable pub dsk_step : ℕ × ℕ × Bytes → MetricPayload F32 → ℕ × ℕ × Bytes
  dsk_step (read, write, _) (MetricPayload.dsk d) =
      (wrap64 (read + d.read_bytes), wrap64 (write + d.write_bytes), d.mount_point)
  dsk_step (read, write, _) _ = (read, write, [])

  unfoldable pub aggregate_dsk : List (Rec fl) → MetricPayload F32
  unfolding dsk_step
  aggregate_dsk records =
      let (read_sum, write_sum, mount) = fold_payloads fl dsk_step (0, 0, []) records in
      MetricPayload.dsk
        (record { read_bytes = read_sum; write_bytes = write_sum; mount_point = mount })

  unfoldable pub foc_step : ℕ × Bytes → MetricPayload F32 → ℕ × Bytes
  foc_step (dur, _) (MetricPayload.foc d) = (wrap64 (dur + d.duration_ms), d.app_id)
  foc_step (dur, _) _ = (dur, [])

  unfoldable pub aggregate_foc : List (Rec fl) → MetricPayload F32
  unfolding foc_step
  aggregate_foc records =
      let (dur_sum, app_id) = fold_payloads fl foc_step (0, []) records in
      MetricPayload.foc (record { app_id = app_id; duration_ms = dur_sum })
