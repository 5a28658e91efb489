-- ===== src/Tests/Processes.antt =====
-- Runs of the daemon, of the tracker of focus, and of the readers of /proc and /sys.
use heimwatch.Prelude.{
  ℕ, ◌+◌, ◌-◌, ◌≡◌, ◌⊎◌, refl, true, false, List, [], ◌∷◌, ◌++◌, Option, none, some, Bytes, codes,
  arith, inl, inr, eq_bytes, if◌then◌else◌,
}
use heimwatch.Error.{Result, ok}
use heimwatch.Core.Metrics.{MetricRecord, MetricPayload}
use heimwatch.Core.Files.{FileSystem, join_path}
use heimwatch.Core.Text.{lines}
use heimwatch.Aggregation.Counters.{counter, second_counter, total}
use heimwatch.Apps.{find}
use heimwatch.Apps.Tables.{IsTable}
use heimwatch.Storage.Write.{CollectorEvent}
use heimwatch.Focus.{FocusState, run, create_focus_event}
use heimwatch.Focus as F
use heimwatch.Focus.Sessions.{Covers, gaps, run-sessions}
use heimwatch.Daemon.{Daemon, Phase, Happening, spawned}
use heimwatch.Daemon as D
use heimwatch.Daemon.Handed.{persist_all, sent}
use heimwatch.Daemon.Drained.{run_stores_all, run-shutdown, shutdown, receives}
use heimwatch.Daemon.Refusals.{run_refusals, queued, received, accepted, at_phase}
use heimwatch.Collector.{
  collect, collect_network, collect_disk, PollError, Snapshot, LocalPidNetStats, LocalPidDiskStats,
}
use heimwatch.Collector.Deltas.{first, second}
use heimwatch.Collector.Loop.{Wake, Standing, run_collector_loop, run_network, is_net, is_dsk}
use heimwatch.Collector.Loop.Growth.{Reading, event_count, disk_loop_growth}
use heimwatch.Collector.Loop.Failure.{run_network-failure}
use heimwatch.Collector.Memory.{collect_memory}
use heimwatch.Collector.Status.{usages}
use heimwatch.Collector.Usage.{summed, record_for, collect_memory-IsTable}
use heimwatch.Collector.Power.Route.{
  default_routes, after_header, IsFirstLowest, detect_default_interface_is_wifi,
  detect-IsFirstLowest,
}
use heimwatch.Tests.World.{world, empty, whole}
use heimwatch.Tests.Tops.{as_filled}
use heimwatch.Tests.Collectors.{ssh, net_map, disk_stats, disk_map, named}

-- Two sessions, of 5 and 2 milliseconds and some more.
abbrev happenings : List F.Happening
happenings =
    F.Happening.focused (some (codes "code")) 6200000 (some 100) 6200010
    ∷ F.Happening.shutdown_changed 8900000 (some 103)
    ∷ []

run-sessions_example :
    Covers ℕ
      (8900000 - 1000000)
      (gaps happenings)
      (run ℕ
        (record { current_app = none; focus_start = 0 })
        (F.Happening.focused (some ssh) 999990 (some 95) 1000000 ∷ happenings)).0
run-sessions_example =
    run-sessions ℕ 8900000 1000000 999990 0 (some ssh) (some 95) happenings (omega arith)
      (omega arith, omega arith, (100, refl), (omega arith, refl, (103, refl)))

abbrev an_event : CollectorEvent ℕ
an_event = record {
  app_name = ssh;
  payload = MetricPayload.foc (record { app_id = ssh; duration_ms = 5 });
  timestamp = 100;
}

abbrev later_event : CollectorEvent ℕ
later_event = record an_event { timestamp = 101 }

-- One event comes before the signal and one after it.
abbrev day : List (Happening world)
day =
    Happening.send an_event
    ∷ Happening.receive true
    ∷ Happening.ctrl_c
    ∷ Happening.send later_event
    ∷ Happening.collector_exit
    ∷ Happening.receive true
    ∷ Happening.closed
    ∷ []

abbrev evening : Daemon world
evening = record {
  storage = persist_all world (an_event ∷ later_event ∷ []) empty;
  queue = [];
  senders = 0;
  phase = Phase.completed;
}

day_outcome : D.run world day (spawned world 1 empty) ≡ some evening
unfolding D.run D.step D.act D.send_event D.exit_collector D.receive_event D.persist_next
    D.interrupt D.close spawned
day_outcome = refl

run_stores_all_example : evening.storage ≡ persist_all world (sent world day) empty
run_stores_all_example = run_stores_all world 1 empty day evening day_outcome tt refl

run-shutdown_example :
    D.run world
      (shutdown world
        (record { storage = empty; queue = an_event ∷ []; senders = 2; phase = Phase.running }))
      (record { storage = empty; queue = an_event ∷ []; senders = 2; phase = Phase.running })
    ≡ some (record {
      storage = persist_all world (an_event ∷ []) empty;
      queue = [];
      senders = 0;
      phase = Phase.completed;
    })
run-shutdown_example = run-shutdown world empty (an_event ∷ []) 2 Phase.running refl

run_refusals_example :
    (D.run world
        (receives world (an_event ∷ []) ++ Happening.receive false ∷ [])
        (at_phase world empty (an_event ∷ later_event ∷ []) 1 Phase.running)
      ≡ some (at_phase world (persist_all world (an_event ∷ []) empty) [] 1 Phase.failed))
    × (D.run world
          (received world ((an_event, false) ∷ (later_event, true) ∷ []) ++ Happening.closed ∷ [])
          (at_phase world empty
            (queued world ((an_event, false) ∷ (later_event, true) ∷ []))
            0
            Phase.draining)
        ≡ some (
            at_phase world
              (persist_all world
                (accepted world ((an_event, false) ∷ (later_event, true) ∷ []))
                empty)
              []
              0
              Phase.completed))
run_refusals_example =
    run_refusals world (an_event ∷ []) later_event [] 1
      ((an_event, false) ∷ (later_event, true) ∷ []) empty

-- The first tick fails, the second reads the map.
abbrev wakes : List (Wake (Reading LocalPidDiskStats))
wakes = Wake.tick (none, some disk_map) ∷ Wake.tick (some 60, some disk_map) ∷ Wake.shutdown ∷ []

disk_loop_growth_example :
    let (events, last) = run_collector_loop is_dsk (λ e c. collect_disk whole e.0 e.1 c) [] wakes in
    (total (event_count is_dsk counter ssh) events + first (find ssh []) ≡ first (find ssh last))
    × (total (event_count is_dsk second_counter ssh) events + second (find ssh [])
        ≡ second (find ssh last))
unfolding collect
disk_loop_growth_example =
    disk_loop_growth whole ssh [] wakes
      (inl (
        PollError.clock,
        refl,
        inr (60, disk_map, disk_stats, refl, refl, inl (named, refl, tt), omega arith, tt),
      ))
      (inl (
        PollError.clock,
        refl,
        inr (60, disk_map, disk_stats, refl, refl, inl (named, refl, tt), omega arith, tt),
      ))

abbrev poll_network :
    Reading LocalPidNetStats
    → Snapshot (ℕ × ℕ)
    → Result PollError (List (MetricRecord ℕ)) × Snapshot (ℕ × ℕ)
poll_network e c = collect_network whole e.0 e.1 c

abbrev lone : List (Wake (Reading LocalPidNetStats))
lone = Wake.tick (some 60, some []) ∷ []

abbrev third : List (Wake (Reading LocalPidNetStats))
third = Wake.tick (some 70, some net_map) ∷ []

run_network-failure_example :
    (run_network is_net poll_network [] (lone ++ Wake.tick (none, some net_map) ∷ third)
      ≡ ((run_collector_loop is_net poll_network [] lone).0, Standing.failed PollError.clock))
    × (run_collector_loop is_net poll_network [] (lone ++ Wake.tick (none, some net_map) ∷ third)
        ≡ (
          (run_collector_loop is_net poll_network [] lone).0
              ++ (run_collector_loop is_net poll_network [] third).0,
          (run_collector_loop is_net poll_network [] third).1,
        ))
unfolding run_collector_loop collect_network collect
run_network-failure_example =
    run_network-failure is_net poll_network [] lone (none, some net_map) PollError.clock [] third
      ([], [], refl, tt) refl

-- One process, and the two routes of a laptop.
abbrev pub content_of : Bytes → Option Bytes
content_of path =
    if eq_bytes path (codes "/proc/7/status")
    then some (codes "Name:\tssh\nVmSize:\t 9 kB\nVmRSS:\t 4 kB\n")
    else if eq_bytes path (codes "/proc/7/cmdline")
    then some (codes "/bin/ssh")
    else if eq_bytes path (codes "/proc/net/route")
    then some
        (codes "Iface\neth0\t00000000\t1\t3\t0\t0\t64\t0\nwlan0\t00000000\t1\t3\t0\t0\t32\t0\n")
    else none

abbrev pub laptop : FileSystem
laptop = record {
  read_to_string = content_of;
  read_dir = λ path. some (codes "7" ∷ codes "net" ∷ []);
  exists = λ path. false;
  is_dir = eq_bytes (codes "/sys/class/net/wlan0/wireless");
}

collect_memory-IsTable_example :
    (records : List (MetricRecord ℕ)) × (collect_memory ℕ as_filled laptop (some 100) ≡ ok records)
    × IsTable (record_for ℕ 100) (λ app. summed (usages laptop app)) records
collect_memory-IsTable_example = collect_memory-IsTable ℕ as_filled laptop 100

abbrev routes : Bytes
routes = codes "Iface\neth0\t00000000\t1\t3\t0\t0\t64\t0\nwlan0\t00000000\t1\t3\t0\t0\t32\t0\n"

detect-IsFirstLowest_example :
    ((default_routes (after_header (lines routes)) ≡ [])
      × (detect_default_interface_is_wifi laptop (codes "/proc/net/route") (codes "/sys/class/net")
          ≡ none))
    ⊎ ((r : Bytes × ℕ) × IsFirstLowest (default_routes (after_header (lines routes))) r
        × (detect_default_interface_is_wifi laptop
              (codes "/proc/net/route")
              (codes "/sys/class/net")
            ≡ some (
                laptop.is_dir
                  (join_path (join_path (codes "/sys/class/net") r.0) (codes "wireless")))))
detect-IsFirstLowest_example =
    detect-IsFirstLowest laptop (codes "/proc/net/route") (codes "/sys/class/net") routes refl
