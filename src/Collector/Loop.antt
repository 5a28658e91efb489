-- ===== src/Collector/Loop.antt =====
-- `run_collector_loop` of crates/heimwatch-collector/src/util.rs, and `run` of network/linux.rs, which has
-- a loop of its own: the polls of a collector and the events that it sends, until the shutdown.
pub mod Growth
pub mod Failure
use heimwatch.Prelude.{
  ℕ, ◌+◌, ◌≤◌, ◌≡◌, refl, sym, ap, ◌∙◌, Bool, true, false, ◌⊎◌, inl, inr, List, [], ◌∷◌, ◌++◌,
  Option, none, some, Bytes, arith, eq_bytes, if◌then◌else◌, Bool-cases, ltb, ◌||◌, ◌-◌,
}
use heimwatch.Error.{Result, ok, err}
use heimwatch.Core.Floats.{Floats}
use heimwatch.Core.Metrics.{MetricPayload, MetricRecord}
use heimwatch.Aggregation.Counters.{counter, second_counter, total, total-append}
use heimwatch.Apps.{find}
use heimwatch.Storage.Write.{CollectorEvent}
use heimwatch.Collector.{
  PollError, Entry, Snapshot, LocalPidNetStats, poll_entries, polled, collect, tx_rx, net_delta,
  collect_network,
}
use heimwatch.Collector.Polls.{Once, poll-Once, emitted}
use heimwatch.Collector.Deltas.{
  reported, second_reported, first, second, net_delta-tx, net_delta-rx,
}

-- What the loop wakes up for: a tick, with what is then read, or the shutdown signal.
pub data Wake (E : Type 0) : Type 0 where
  tick : E → Wake E
  shutdown : Wake E

module _ {F32 : Type 0} where
  abbrev pub to_event : MetricRecord F32 → CollectorEvent F32
  to_event r = record { app_name = r.app_name; payload = r.payload; timestamp = r.timestamp }

  -- `if payload_check(&record.payload) { tx.send(event) }`; a send that fails is only logged.
  unfoldable pub send_records :
      (MetricPayload F32 → Bool) → List (MetricRecord F32) → List (CollectorEvent F32)
  send_records payload_check [] = []
  send_records payload_check (r ∷ rs) =
      let rest = send_records payload_check rs in
      if payload_check r.payload then to_event r ∷ rest else rest

module _ {F32 E C Err : Type 0} (payload_check : MetricPayload F32 → Bool)
    (collect_fn : E → C → Result Err (List (MetricRecord F32)) × C) where
  -- The events of one tick in front of those of the later ones. An error is only logged.
  abbrev pub sent_then :
      Result Err (List (MetricRecord F32)) × C
      → (C → List (CollectorEvent F32) × C)
      → List (CollectorEvent F32) × C
  sent_then (err e, collector) rest = rest collector
  sent_then (ok records, collector) rest =
      let (later, last) = rest collector in (send_records payload_check records ++ later, last)

  -- The events that are sent, and the collector at the end.
  unfoldable pub run_collector_loop : C → List (Wake E) → List (CollectorEvent F32) × C
  unfolding send_records
  run_collector_loop collector [] = ([], collector)
  run_collector_loop collector (Wake.shutdown ∷ l) = ([], collector)
  run_collector_loop collector (Wake.tick e ∷ l) =
      sent_then (collect_fn e collector) (λ c. run_collector_loop c l)

-- How the network collector's loop stands: it waits, it has returned, or it has returned an error.
pub data Standing (Err : Type 0) : Type 0 where
  waiting : Standing Err
  stopped : Standing Err
  failed : Err → Standing Err

module _ {F32 E C Err : Type 0} (payload_check : MetricPayload F32 → Bool)
    (collect_fn : E → C → Result Err (List (MetricRecord F32)) × C) where
  -- `for record in self.collect_network()?`: an error returns from the loop.
  abbrev pub sent_or_failed :
      Result Err (List (MetricRecord F32)) × C
      → (C → List (CollectorEvent F32) × Standing Err)
      → List (CollectorEvent F32) × Standing Err
  sent_or_failed (err e, collector) rest = ([], Standing.failed e)
  sent_or_failed (ok records, collector) rest =
      let (later, standing) = rest collector in
      (send_records payload_check records ++ later, standing)

  unfoldable pub run_network : C → List (Wake E) → List (CollectorEvent F32) × Standing Err
  unfolding send_records
  run_network collector [] = ([], Standing.waiting)
  run_network collector (Wake.shutdown ∷ l) = ([], Standing.stopped)
  run_network collector (Wake.tick e ∷ l) =
      sent_or_failed (collect_fn e collector) (λ c. run_network c l)

-- `if let MetricPayload::Net(_)` and `matches!(p, MetricPayload::Dsk(_))`
abbrev pub is_net : {F32 : Type 0} → MetricPayload F32 → Bool
is_net (MetricPayload.net d) = true
is_net _ = false

abbrev pub is_dsk : {F32 : Type 0} → MetricPayload F32 → Bool
is_dsk (MetricPayload.dsk d) = true
is_dsk _ = false
