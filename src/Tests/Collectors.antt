-- ===== src/Tests/Collectors.antt =====
-- The collectors at a concrete map: two polls of a process that sends and receives.
use heimwatch.Prelude.{
  ℕ, ◌+◌, ◌≡◌, refl, ◌++◌, List, [], ◌∷◌, some, arith, true, Bytes, codes, replicate, eq_bytes, inl,
}
use heimwatch.Core.Metrics.{MetricRecord}
use heimwatch.Keys.Std.{from_utf8}
use heimwatch.Aggregation.Counters.{total}
use heimwatch.Error.{Result}
use heimwatch.Apps.{find}
use heimwatch.Collector.{
  PollError, Entry, Snapshot, LocalPidNetStats, LocalPidCpuStats, LocalPidDiskStats, comm_to_string,
  name_or_unknown, or_zero, collect_network, collect_cpu, collect_disk,
}
use heimwatch.Collector.Names.{comm_to_string-padded}
use heimwatch.Collector.Polls.{emitted, Polls}
use heimwatch.Collector.Deltas.{reported, collect_cpu-growth}
use heimwatch.Tests.World.{whole}

ssh_utf8 : from_utf8 (codes "ssh") ≡ true
unfolding from_utf8
ssh_utf8 = refl

comm_to_string-padded_example : comm_to_string (codes "ssh" ++ replicate 13 0) ≡ some (codes "ssh")
comm_to_string-padded_example =
    comm_to_string-padded b's' 13 (codes "sh") (refl, (refl, (refl, tt))) ssh_utf8

abbrev pub ssh : Bytes
ssh = codes "ssh"

abbrev pub field : Bytes
field = codes "ssh" ++ replicate 13 0

pub named : eq_bytes (name_or_unknown (comm_to_string field)) ssh ≡ true
named = rw (comm_to_string-padded b's' 13 (codes "sh") (refl, (refl, (refl, tt))) ssh_utf8) refl

abbrev pub net_stats : LocalPidNetStats
net_stats = record { tx_bytes = 100; rx_bytes = 50; comm = field }

abbrev pub net_map : List (Entry LocalPidNetStats)
net_map = some (field, net_stats) ∷ []

abbrev net_poll : Result PollError (List (MetricRecord ℕ)) × Snapshot (ℕ × ℕ)
net_poll = collect_network whole (some 60) (some net_map) []

abbrev pub disk_stats : LocalPidDiskStats
disk_stats = record { read_bytes = 4096; write_bytes = 0 }

abbrev pub disk_map : List (Entry LocalPidDiskStats)
disk_map = some (field, disk_stats) ∷ []

abbrev disk_poll : Result PollError (List (MetricRecord ℕ)) × Snapshot (ℕ × ℕ)
disk_poll = collect_disk whole (some 60) (some disk_map) []

abbrev cpu_stats : LocalPidCpuStats
cpu_stats = record { cpu_time_ns = 700; last_sched_in_ns = 0 }

abbrev cpu_map : List (Entry LocalPidCpuStats)
cpu_map = some (field, cpu_stats) ∷ []

abbrev cpu_poll : Result PollError (List (MetricRecord ℕ)) × Snapshot ℕ
cpu_poll = collect_cpu whole 4 1000 (some 60) (some cpu_map) []

collect_cpu-growth_example :
    total (reported ssh) ([] ++ emitted cpu_poll.0) + or_zero (find ssh [])
    ≡ or_zero (find ssh cpu_poll.1)
collect_cpu-growth_example =
    collect_cpu-growth whole 4 1000 ssh [] cpu_poll.1 ([] ++ emitted cpu_poll.0)
      (Polls.poll [] [] 60 cpu_map cpu_stats Polls.start (inl (named, refl, tt)) (omega arith))
