-- ===== src/Tests/Kernel.antt =====
-- The probes of the kernel at concrete events, over a map that is a function of the name; and the
-- terminal application after a few events.
use heimwatch.Prelude.{
  length, replicate, ℕ, ◌-◌, ◌≡◌, refl, true, false, List, [], ◌∷◌, ◌++◌, Option, some, arith,
  Bytes, codes, eq_bytes, if◌then◌else◌, saturating_add,
}
use heimwatch.Prelude.Int.{ℤ, pos, negsuc}
use heimwatch.Error.{Result, ok, err}
use heimwatch.Ebpf.Map.{BpfMap}
use heimwatch.Ebpf.{BlockRqIssueArgs, PidNetStats, PidCpuStats, PidDiskStats, is_comm_empty}
use heimwatch.Ebpf.Network.{NetEvent, run-counts}
use heimwatch.Ebpf.Disk.{run-counts_disk}
use heimwatch.Ebpf.Sched.{Switch, switch, stopped, entries, run-entries, run-interval, run-overlap}
use heimwatch.Tui.{TuiApp, AppEvent, KeyCode, Modifiers, App, new, load_initial_data, handle_event}
use heimwatch.Tui.Series.{filter_map, downsample, Thinned, downsample-Thinned}
use heimwatch.Tui.Valid.{IsValid, Reachable, Reachable-IsValid}

abbrev by_name : (V : Type 0) → BpfMap V
by_name V = record {
  State = Bytes → Option V;
  get_ptr_mut = λ m k. m k;
  write = λ k v m j. if eq_bytes k j then some v else m j;
  insert = λ k v m. ((λ j. if eq_bytes k j then some v else m j), true);
  get-write = λ m k v old j e. refl;
  get-insert = λ m k v j e. refl;
}

abbrev ssh : Bytes
ssh = codes "ssh"

abbrev idle : Bytes
idle = codes "swapper"

abbrev with_net : Bytes → Option PidNetStats
with_net k = some (record { tx_bytes = 5; rx_bytes = 7; comm = k })

abbrev calls : List NetEvent
calls =
    NetEvent.sendmsg (some 100) (some ssh)
    ∷ NetEvent.recvmsg (some (negsuc 10)) (some ssh)
    ∷ NetEvent.recvmsg (some (pos 30)) (some ssh)
    ∷ []

run-counts_example :
    heimwatch.Ebpf.Network.run (by_name PidNetStats) calls with_net ssh
    ≡ some (
        heimwatch.Ebpf.Network.plus
          (record { tx_bytes = 5; rx_bytes = 7; comm = ssh })
          (heimwatch.Ebpf.Network.total (heimwatch.Ebpf.Network.sent ssh) calls)
          (heimwatch.Ebpf.Network.total (heimwatch.Ebpf.Network.received ssh) calls))
run-counts_example =
    run-counts (by_name PidNetStats) calls with_net ssh
      (record { tx_bytes = 5; rx_bytes = 7; comm = ssh }) (omega arith) (omega arith) refl

abbrev with_disk : Bytes → Option PidDiskStats
with_disk k = some (record { read_bytes = 0; write_bytes = 9 })

abbrev requests : List (Result ℤ BlockRqIssueArgs)
requests =
    ok (record { bytes = 4096; rwbs = codes "RA"; comm = ssh })
    ∷ ok (record { bytes = 512; rwbs = codes "WS"; comm = idle })
    ∷ err (negsuc 13)
    ∷ []

ssh_named : is_comm_empty ssh ≡ false
unfolding is_comm_empty
ssh_named = refl

run-counts_disk_example :
    heimwatch.Ebpf.Disk.run (by_name PidDiskStats) requests with_disk ssh
    ≡ some (
        heimwatch.Ebpf.Disk.plus
          (record { read_bytes = 0; write_bytes = 9 })
          (heimwatch.Ebpf.Disk.total (heimwatch.Ebpf.Disk.reads ssh) requests)
          (heimwatch.Ebpf.Disk.total (heimwatch.Ebpf.Disk.writes ssh) requests))
run-counts_disk_example =
    run-counts_disk (by_name PidDiskStats) requests with_disk ssh
      (record { read_bytes = 0; write_bytes = 9 }) ssh_named (omega arith) (omega arith) refl

abbrev resting : PidCpuStats
resting = record { cpu_time_ns = 50; last_sched_in_ns = 0 }

abbrev with_cpu : Bytes → Option PidCpuStats
with_cpu k = some resting

run-entries_example :
    heimwatch.Ebpf.Sched.run
      (by_name PidCpuStats)
      (switch 10 idle ssh ∷ switch 40 ssh idle ∷ [])
      with_cpu
      ssh
    ≡ some (entries ssh (switch 10 idle ssh ∷ switch 40 ssh idle ∷ []) resting)
run-entries_example =
    run-entries (by_name PidCpuStats) (switch 10 idle ssh ∷ switch 40 ssh idle ∷ []) with_cpu ssh
      resting ssh_named refl

abbrev others : List Switch
others = switch 20 idle (codes "make") ∷ []

run-interval_example :
    heimwatch.Ebpf.Sched.run
      (by_name PidCpuStats)
      (switch 10 idle ssh ∷ (others ++ switch 40 ssh idle ∷ []))
      with_cpu
      ssh
    ≡ some (stopped (saturating_add 50 (40 - 10)))
run-interval_example =
    run-interval (by_name PidCpuStats) ssh idle ssh_named refl 10 40 others with_cpu resting
      (omega arith) (refl, refl, tt) refl

run-overlap_example :
    heimwatch.Ebpf.Sched.run
      (by_name PidCpuStats)
      (switch 10 idle ssh ∷ switch 20 idle ssh ∷ switch 30 ssh idle ∷ switch 40 ssh idle ∷ [])
      with_cpu
      ssh
    ≡ some (stopped (saturating_add 50 (30 - 20)))
run-overlap_example =
    run-overlap (by_name PidCpuStats) ssh idle ssh_named refl 10 20 30 40 with_cpu resting
      (omega arith) refl

abbrev begun : TuiApp ℕ
begun = load_initial_data (record { app = new (codes "db"); in_flight = 0 })

abbrev wide : AppEvent ℕ
wide = AppEvent.key (KeyCode.char b'+') Modifiers.plain

Reachable-IsValid_example : IsValid (handle_event 5 wide (handle_event 4 AppEvent.tick begun))
Reachable-IsValid_example =
    Reachable-IsValid (handle_event 5 wide (handle_event 4 AppEvent.tick begun)) (
      Reachable.handled 5 wide _
        (Reachable.handled 4 AppEvent.tick _ (Reachable.started (codes "db"))))

abbrev fresh : App ℕ
fresh = new (codes "db")

abbrev samples : List ℕ
samples = replicate 70 1

downsample-Thinned_example :
    Thinned (filter_map (λ n. some n) samples) (downsample (λ n. some n) samples)
downsample-Thinned_example = downsample-Thinned (λ n. some n) samples

all_shown : length (downsample (λ n. some n) samples) ≡ 70
unfolding downsample
all_shown = refl
