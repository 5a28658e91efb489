-- ===== src/Collector/Deltas.antt =====
-- The collectors of crates/heimwatch-collector/src/network/linux.rs, cpu/linux.rs and disk/linux.rs:
-- what each reports adds up to the counters of the kernel.
use heimwatch.Prelude.{
  ℕ, ◌+◌, ◌-◌, ◌*◌, min, u64_max, ◌≡◌, refl, sym, false, ◌||◌, List, Option, arith, Bytes, eq_bytes,
  ltb, if◌then◌else◌, Bool-cases, inl, inr,
}
use heimwatch.Core.Floats.{Floats}
use heimwatch.Core.Metrics.{MetricRecord}
use heimwatch.Aggregation.Counters.{counter, second_counter, total}
use heimwatch.Apps.{find}
use heimwatch.Collector.{
  Snapshot, LocalPidNetStats, LocalPidCpuStats, LocalPidDiskStats, pair_or_zero, or_zero, tx_rx,
  read_write, cpu_time, net_delta, cpu_delta, disk_delta, collect_network, collect_cpu,
  collect_disk,
}
use heimwatch.Collector.Polls.{Polls, Polls-growth}

-- What a record says of an application: the bytes sent or read or the time, and the bytes received or
-- written.
abbrev pub reported : {F32 : Type 0} → Bytes → MetricRecord F32 → ℕ
reported k r = if eq_bytes r.app_name k then counter r.payload else 0

abbrev pub second_reported : {F32 : Type 0} → Bytes → MetricRecord F32 → ℕ
second_reported k r = if eq_bytes r.app_name k then second_counter r.payload else 0

abbrev pub first : Option (ℕ × ℕ) → ℕ
first o = (pair_or_zero o).0

abbrev pub second : Option (ℕ × ℕ) → ℕ
second o = (pair_or_zero o).1

both-zero : (a b : ℕ) → (ltb 0 a || ltb 0 b) ≡ false → (a ≡ 0) × (b ≡ 0)
both-zero a b h = (ground arith, ground arith)

is-zero : (a : ℕ) → ltb 0 a ≡ false → a ≡ 0
is-zero a h = ground arith

module _ (fl : Floats) where
  pub net_delta-tx :
      (ts : ℕ) (name : Bytes) (prev : Option (ℕ × ℕ)) (s : LocalPidNetStats) (k : Bytes)
      → total (reported k) (net_delta fl ts name prev s)
        ≡ (if eq_bytes name k then s.tx_bytes - first prev else 0)
  unfolding net_delta
  net_delta-tx ts name prev s k =
      elim (Bool-cases (ltb 0 (s.tx_bytes - first prev) || ltb 0 (s.rx_bytes - second prev))) [
        | inl e ↦ rw e (omega arith)
        | inr e ↦
            let (tx, rx) = both-zero _ _ e in
            elim (Bool-cases (eq_bytes name k)) [
              | inl own ↦ rw (e, own) (sym tx)
              | inr other ↦ rw (e, other) refl
            ]
      ]

  pub net_delta-rx :
      (ts : ℕ) (name : Bytes) (prev : Option (ℕ × ℕ)) (s : LocalPidNetStats) (k : Bytes)
      → total (second_reported k) (net_delta fl ts name prev s)
        ≡ (if eq_bytes name k then s.rx_bytes - second prev else 0)
  unfolding net_delta
  net_delta-rx ts name prev s k =
      elim (Bool-cases (ltb 0 (s.tx_bytes - first prev) || ltb 0 (s.rx_bytes - second prev))) [
        | inl e ↦ rw e (omega arith)
        | inr e ↦
            let (tx, rx) = both-zero _ _ e in
            elim (Bool-cases (eq_bytes name k)) [
              | inl own ↦ rw (e, own) (sym rx)
              | inr other ↦ rw (e, other) refl
            ]
      ]

  pub disk_delta-read :
      (ts : ℕ) (name : Bytes) (prev : Option (ℕ × ℕ)) (s : LocalPidDiskStats) (k : Bytes)
      → total (reported k) (disk_delta fl ts name prev s)
        ≡ (if eq_bytes name k then s.read_bytes - first prev else 0)
  unfolding disk_delta
  disk_delta-read ts name prev s k =
      elim (Bool-cases (ltb 0 (s.read_bytes - first prev) || ltb 0 (s.write_bytes - second prev))) [
        | inl e ↦ rw e (omega arith)
        | inr e ↦
            let (r, w) = both-zero _ _ e in
            elim (Bool-cases (eq_bytes name k)) [
              | inl own ↦ rw (e, own) (sym r)
              | inr other ↦ rw (e, other) refl
            ]
      ]

  pub disk_delta-write :
      (ts : ℕ) (name : Bytes) (prev : Option (ℕ × ℕ)) (s : LocalPidDiskStats) (k : Bytes)
      → total (second_reported k) (disk_delta fl ts name prev s)
        ≡ (if eq_bytes name k then s.write_bytes - second prev else 0)
  unfolding disk_delta
  disk_delta-write ts name prev s k =
      elim (Bool-cases (ltb 0 (s.read_bytes - first prev) || ltb 0 (s.write_bytes - second prev))) [
        | inl e ↦ rw e (omega arith)
        | inr e ↦
            let (r, w) = both-zero _ _ e in
            elim (Bool-cases (eq_bytes name k)) [
              | inl own ↦ rw (e, own) (sym w)
              | inr other ↦ rw (e, other) refl
            ]
      ]

  cpu_delta-time :
      (capacity ts : ℕ) (name : Bytes) (prev : Option ℕ) (s : LocalPidCpuStats) (k : Bytes)
      → total (reported k) (cpu_delta fl capacity ts name prev s)
        ≡ (if eq_bytes name k then s.cpu_time_ns - or_zero prev else 0)
  unfolding cpu_delta
  cpu_delta-time capacity ts name prev s k =
      elim (Bool-cases (ltb 0 (s.cpu_time_ns - or_zero prev))) [
        | inl e ↦ rw e (omega arith)
        | inr e ↦ elim (Bool-cases (eq_bytes name k)) [
          | inl own ↦ rw (e, own) (sym (is-zero _ e))
          | inr other ↦ rw (e, other) refl
        ]
      ]

  -- Over polls in which an application has one entry in the map, every entry can be read and its
  -- two counters never go back, the bytes sent that `collect_network` reports for it add up to the
  -- growth of its counter, and so do the bytes received.
  collect_network-growth :
      (k : Bytes) (before after : Snapshot (ℕ × ℕ)) (rs : List (MetricRecord fl.F32))
      → Polls tx_rx first (collect_network fl) k before rs after
      → Polls tx_rx second (collect_network fl) k before rs after
      → (total (reported k) rs + first (find k before) ≡ first (find k after))
        × (total (second_reported k) rs + second (find k before) ≡ second (find k after))
  unfolding collect_network
  collect_network-growth k before after rs tx rx = (
    Polls-growth tx_rx (net_delta fl) reported first (net_delta-tx) k before after rs tx,
    Polls-growth tx_rx (net_delta fl) second_reported second (net_delta-rx) k before after rs rx,
  )

  -- Over polls in which an application has one entry in the map, every entry can be read and its
  -- two counters never go back, the bytes read that `collect_disk` reports for it add up to the
  -- growth of its counter, and so do the bytes written.
  collect_disk-growth :
      (k : Bytes) (before after : Snapshot (ℕ × ℕ)) (rs : List (MetricRecord fl.F32))
      → Polls read_write first (collect_disk fl) k before rs after
      → Polls read_write second (collect_disk fl) k before rs after
      → (total (reported k) rs + first (find k before) ≡ first (find k after))
        × (total (second_reported k) rs + second (find k before) ≡ second (find k after))
  unfolding collect_disk
  collect_disk-growth k before after rs r w = (
    Polls-growth read_write (disk_delta fl) reported first disk_delta-read k before after rs r,
    Polls-growth read_write (disk_delta fl) second_reported second disk_delta-write k before after
        rs w,
  )

  -- Over polls in which a name has one entry in the map, every entry can be read and its counter
  -- never goes back, the time that `collect_cpu` reports for it adds up to the growth of its
  -- counter; this holds for the names of `IGNORED_PROCESSES` too.
  pub collect_cpu-growth :
      (num_cores interval_ns : ℕ) (k : Bytes) (before after : Snapshot ℕ)
      (rs : List (MetricRecord fl.F32))
      → Polls cpu_time or_zero (collect_cpu fl num_cores interval_ns) k before rs after
      → total (reported k) rs + or_zero (find k before) ≡ or_zero (find k after)
  unfolding collect_cpu
  collect_cpu-growth num_cores interval_ns k before after rs polls =
      let capacity = min (interval_ns * num_cores) u64_max in
      Polls-growth cpu_time (cpu_delta fl capacity) reported or_zero (cpu_delta-time capacity) k
        before after rs polls
