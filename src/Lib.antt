-- ===== src/Lib.antt =====
-- A model of heimwatch, a monitor that records what applications use, with proofs about it.
--
-- The probes of the kernel (bpf/heimwatch-ebpf/src/main.rs) count bytes and time by the name of a
-- process. The collectors (crates/heimwatch-collector) turn the counters into records, the daemon
-- (crates/heimwatch-daemon) stores these in trees of the database sled, and the storage layer
-- (crates/heimwatch-storage) answers queries over them, aggregates old records into daily,
-- monthly and yearly ones, and deletes what has aged. The terminal application
-- (crates/heimwatch-tui) shows the answers.
--
-- Prelude: Boolean tests, machine integers (`wrap64` is an addition of a release build,
--   `saturating_add` the method; the truncated subtraction of ℕ is `saturating_sub`), lists over
--   the native numbers, byte strings and their order, signed integers and the casts to and from
--   them. A string is its UTF-8 bytes.
-- Core: crates/heimwatch-core/src/metrics.rs, with the floats as the interface `Floats`.
--   Core/Text is what the readers of /proc and /sys use of `str`; Core/Files is the file system
--   as an interface, and crates/heimwatch-core/src/process.rs.
-- Apps: the maps by application that several parts fill, with the order of a HashMap's iteration
--   as a parameter; Apps/Tables says what such a map, and a sorted and cut list of its entries,
--   holds.
-- Error: crates/heimwatch-storage/src/error.rs; the message of an `InvalidKey` is data.
-- Keys: crates/heimwatch-storage/src/keys.rs; Keys/Decimal the padded decimal, Keys/Std what is
--   used of `str` and `String`, Keys/Range the order of the keys, Keys/Decode the reading of a
--   key.
-- Sled: what is used of the crate sled, as an interface with the laws of an ordered map;
--   Sled/Memory is an implementation of it.
-- Aggregation: crates/heimwatch-storage/src/aggregation.rs; Aggregation/Bucket the calendar over
--   an interface of the crate chrono with what it documents as the laws `Civil`, Aggregation/Sums and Aggregation/Readings the branches of
--   `aggregate_records`.
-- Retention: crates/heimwatch-storage/src/retention.rs.
-- Power: crates/heimwatch-storage/src/power_calc.rs; Power/Formula writes its formula out, Power/Rows
--   and Power/Shares are proofs.
-- Storage: crates/heimwatch-storage/src/db.rs. The state is the record `StorageLayer`: the five
--   trees and the lines of the files exported so far. Storage/Write and Storage/Query are the
--   methods that write and read, Storage/Cleanup the cleanup by age, Storage/Groups and
--   Storage/Tiered the aggregations and the tiered cleanup, Storage/Top the lists of applications
--   and `get_power_stats`; Storage/Own is the specification
--   of `get_power_stats`, and the other files are proofs. `persist_event` of
--   crates/heimwatch-daemon/src/lib.rs stands in Storage/Write.
-- Ebpf: bpf/heimwatch-ebpf/src/main.rs and bpf/heimwatch-ebpf-common/src/lib.rs, over an
--   interface of a BPF map, Ebpf/Map; Ebpf/Network, Ebpf/Sched and Ebpf/Disk are about sequences
--   of events.
-- Collector: crates/heimwatch-collector/src/util.rs, network/linux.rs, cpu/linux.rs and
--   disk/linux.rs: one poll is a function of the clock, the map's entries and the previous
--   snapshot. Collector/Polls is about sequences of polls, for any such collector. Collector/Loop
--   is `run_collector_loop` and the loop of the network collector, over a list of what it wakes
--   up for. Collector/Memory is memory/linux.rs, with
--   what it reads specified in Collector/Status, Collector/Power is power/linux.rs, with the
--   interface of the route in Collector/Power/Route. Collector/Gpu is gpu/linux/mod.rs, Gpu/Sysfs
--   what the backends share, Gpu/Backends those of amd.rs, intel.rs and generic.rs, Gpu/Detect
--   detect.rs and Gpu/Fdinfo fdinfo.rs; Gpu/Order and Gpu/Totals are proofs.
-- Focus: crates/heimwatch-collector/src/focus/linux/mod.rs: the loop of `run` is a function of a
--   list of happenings with the instants that are read. Focus/Toplevels is wlrlib.rs.
-- Daemon: the loop of `run` in crates/heimwatch-daemon/src/lib.rs: a step is a function of a
--   happening, such as a send, a reception or the signal, and a run is a list of happenings in
--   any order that the channel allows.
-- Reports: crates/heimwatch-daemon/src/snapshot.rs, with what is printed as a text.
--   Reports/Commands is `run_snapshot` and `run_power_snapshot` over the collectors and the storage
--   layer, Reports/Format the formats, Reports/Tables and Reports/Gpus the tables; Reports/Cut is a
--   proof.
-- Tui: crates/heimwatch-tui/src/app.rs and events.rs; Tui/Snapshot, Tui/Series and Tui/Load are
--   about data.rs, Tui/Table is ui/table.rs; Tui/Valid, Tui/Tabs and Tui/Shown are proofs.
-- Tests: concrete inputs, with implementations of the interfaces.
--
-- Bounds: loops over records, keys and types are structural. The decimal of a timestamp is
-- computed with twenty steps, the width that the format asks for, which every `u64` fits.
--
-- Not modelled: failures of sled and of the file system (in Storage a method returns before its
-- next step on one; the daemon's loop takes the database's verdict on an event as part of the
-- happening), floating-point results, the log, and the names of exported files; the backend of
-- the feature `nvidia`, the calls of D-Bus and of the compositor, the timer of the cleanup task,
-- the daemon's command line, and the drawing but for the table.
pub mod Prelude
pub mod Core
pub mod Error
pub mod Keys
pub mod Apps
pub mod Sled
pub mod Aggregation
pub mod Retention
pub mod Power
pub mod Storage
pub mod Ebpf
pub mod Collector
pub mod Focus
pub mod Daemon
pub mod Reports
pub mod Tui
pub mod Tests
