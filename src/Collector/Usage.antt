-- ===== src/Collector/Usage.antt =====
-- What `collect_memory` of crates/heimwatch-collector/src/memory/linux.rs reports.
use mathlib.Core.List.Perm
use heimwatch.Prelude.{
  ℕ, ◌+◌, ◌≡◌, refl, ap, ◌∙◌, min, List, [], ◌∷◌, map, Option, none, some, Bytes, codes, arith,
  u64_max, u32_max, Option-cases, inl, inr,
}
use heimwatch.Error.{ok}
use heimwatch.Core.Metrics.{MetricPayload, MetricRecord}
use heimwatch.Core.Files.{FileSystem}
use heimwatch.Aggregation.Counters.{total}
use heimwatch.Apps.{HashOrder, tally}
use heimwatch.Apps.Tables.{IsTable, filled, find-tally, tally-Distinct}
use heimwatch.Collector.Memory.{
  MemStats, default_stats, scan_process, name_of, usage_of, add_usage, entries_of, memory_record,
  collect_memory,
}
use heimwatch.Collector.Status.{usages, used_by, chosen-used_by}

-- The sums of some usages, each up to the largest value of its field; nothing for none.
abbrev pub summed : List MemStats → Option MemStats
summed [] = none
summed (u ∷ us) = some (record {
  rss = min (total (λ v. v.rss) (u ∷ us)) u64_max;
  vms = min (total (λ v. v.vms) (u ∷ us)) u64_max;
  swap = min (total (λ v. v.swap) (u ∷ us)) u64_max;
  count = min (total (λ v. v.count) (u ∷ us)) u32_max;
})

abbrev capped : ℕ → ℕ → ℕ → ℕ → MemStats
capped a b c d = record {
  rss = min a u64_max;
  vms = min b u64_max;
  swap = min c u64_max;
  count = min d u32_max;
}

filled-usages :
    (a b c d : ℕ) (us : List MemStats)
    → filled default_stats add_usage (some (capped a b c d)) us
      ≡ some (
          capped
            (a + total (λ v. v.rss) us)
            (b + total (λ v. v.vms) us)
            (c + total (λ v. v.swap) us)
            (d + total (λ v. v.count) us))
filled-usages a b c d [] = ap some (ground arith)
filled-usages a b c d (u ∷ us) =
    ap (λ s. filled default_stats add_usage (some s) us) (added a b c d u)
    ∙ filled-usages (a + u.rss) (b + u.vms) (c + u.swap) (d + u.count) us
    ∙ ap some (ground arith)
  where
    added :
        (a b c d : ℕ) (u : MemStats)
        → add_usage (capped a b c d) u ≡ capped (a + u.rss) (b + u.vms) (c + u.swap) (d + u.count)
    added a b c d u = ground arith

filled-summed : (us : List MemStats) → filled default_stats add_usage none us ≡ summed us
filled-summed [] = refl
filled-summed (u ∷ us) =
    ap (λ s. filled default_stats add_usage (some s) us) first
    ∙ filled-usages (0 + u.rss) (0 + u.vms) (0 + u.swap) (0 + u.count) us
    ∙ ap some (ground arith)
  where
    first : add_usage default_stats u ≡ capped (0 + u.rss) (0 + u.vms) (0 + u.swap) (0 + u.count)
    first = ground arith

module _ (F32 : Type 0) where
  entries-usages :
      (fs : FileSystem) (app : Bytes)
      → summed (used_by fs app (entries_of (fs.read_dir (codes "/proc")))) ≡ summed (usages fs app)
  entries-usages fs app = elim (Option-cases (fs.read_dir (codes "/proc"))) [
    | inl e ↦ rw e refl
    | inr (names, e) ↦ rw e refl
  ]

  -- The record that an application should have.
  abbrev pub record_for : ℕ → Bytes × MemStats → MetricRecord F32
  record_for timestamp e = record {
    app_name = e.0;
    timestamp = timestamp;
    payload = MetricPayload.mem (record {
      rss_bytes = e.1.rss;
      vms_bytes = e.1.vms;
      swap_bytes = e.1.swap;
      process_count = e.1.count;
    });
  }

  -- Whatever the order of the map: if the clock can be read, there is one record for each application
  -- with a process in /proc whose status and name can be read. It has the sums of its processes'
  -- resident, virtual and swapped bytes, up to the largest `u64`, and their number, up to the largest
  -- `u32`. The bytes of a process are 1024 times, modulo 2^64, the number of the last line of its
  -- status that begins with `VmRSS:`, `VmSize:` or `VmSwap:` and has a number that parses, and 0 if
  -- there is none.
  pub collect_memory-IsTable :
      (o : HashOrder) (fs : FileSystem) (timestamp : ℕ)
      → (records : List (MetricRecord F32)) × (collect_memory F32 o fs (some timestamp)
          ≡ ok records)
        × IsTable (record_for timestamp) (λ app. summed (usages fs app)) records
  unfolding collect_memory
  collect_memory-IsTable o fs timestamp =
      let scanned = map (scan_process fs) (entries_of (fs.read_dir (codes "/proc"))) in
      let m = tally name_of usage_of default_stats add_usage [] scanned in
      (
        map (memory_record F32 timestamp) (o.order m),
        refl,
        record {
          totals = m;
          distinct = tally-Distinct name_of usage_of default_stats add_usage [] scanned tt;
          exact = λ app.
              find-tally name_of usage_of default_stats add_usage app [] scanned
              ∙ ap (filled default_stats add_usage none)
                  (chosen-used_by fs app (entries_of (fs.read_dir (codes "/proc"))))
              ∙ filled-summed (used_by fs app (entries_of (fs.read_dir (codes "/proc"))))
              ∙ entries-usages fs app;
          perm = Perm.map (memory_record F32 timestamp) (o.order-perm m);
        },
      )
