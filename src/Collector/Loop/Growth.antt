-- ===== src/Collector/Loop/Growth.antt =====
-- What `run_collector_loop` of crates/heimwatch-collector/src/util.rs has sent: nothing is lost in a poll
-- that fails.
use heimwatch.Prelude.{
  ℕ, ◌+◌, ◌≤◌, ◌≡◌, refl, ap, ◌∙◌, Bool, ◌⊎◌, inl, inr, List, [], ◌∷◌, Option, none, some, Bytes,
  arith, eq_bytes, if◌then◌else◌, Bool-cases, ltb, ◌||◌, ◌-◌,
}
use heimwatch.Error.{Result, ok, err}
use heimwatch.Core.Floats.{Floats}
use heimwatch.Core.Metrics.{MetricPayload, MetricRecord}
use heimwatch.Aggregation.Counters.{counter, second_counter, total, total-append}
use heimwatch.Apps.{find}
use heimwatch.Storage.Write.{CollectorEvent}
use heimwatch.Collector.{
  PollError, Entry, Snapshot, LocalPidDiskStats, poll_entries, polled, collect, read_write,
  disk_delta, collect_disk,
}
use heimwatch.Collector.Polls.{Once, poll-Once, emitted}
use heimwatch.Collector.Deltas.{first, second, disk_delta-read, disk_delta-write}
use heimwatch.Collector.Loop.{Wake, sent_then, send_records, run_collector_loop, is_dsk}

-- What a tick reads: the clock, and the map.
abbrev pub Reading : Type 0 → Type 0
Reading S = Option ℕ × Option (List (Entry S))

module _ {F32 : Type 0} (check : MetricPayload F32 → Bool) (count : MetricPayload F32 → ℕ) where
  abbrev pub event_count : Bytes → CollectorEvent F32 → ℕ
  event_count k e = if eq_bytes e.app_name k then count e.payload else 0

  abbrev pub record_count : Bytes → MetricRecord F32 → ℕ
  record_count k r =
      if check r.payload then if eq_bytes r.app_name k then count r.payload else 0 else 0

  total-send_records :
      (k : Bytes) (rs : List (MetricRecord F32))
      → total (event_count k) (send_records check rs) ≡ total (record_count k) rs
  unfolding send_records
  total-send_records k [] = refl
  total-send_records k (r ∷ rs) = elim (Bool-cases (check r.payload)) [
    | inl e ↦ rw e (omega (arith, total-send_records k rs))
    | inr e ↦ rw e (omega (arith, total-send_records k rs))
  ]

  module _ {S V : Type 0} (value : S → V)
      (delta : ℕ → Bytes → Option V → S → List (MetricRecord F32)) (part : Option V → ℕ)
      (adds : (ts : ℕ) (name : Bytes) (prev : Option V) (s : S) (k : Bytes)
        → total (record_count k) (delta ts name prev s)
          ≡ (if eq_bytes name k then part (some (value s)) - part prev else 0)) where
    abbrev pub poll :
        Reading S → Snapshot V → Result PollError (List (MetricRecord F32)) × Snapshot V
    poll (clock, map) = collect value delta clock map

    -- Until the shutdown every tick's poll fails, or reads a map in which the application `k` has one
    -- entry, with a counter that has not gone back.
    abbrev pub Steady : Bytes → Snapshot V → List (Wake (Reading S)) → Type 0
    Steady k t [] = Unit {0}
    Steady k t (Wake.shutdown ∷ l) = Unit {0}
    Steady k t (Wake.tick (clock, map) ∷ l) =
        ((e : PollError) × ((collect value delta clock map t).0 ≡ err e) × Steady k t l)
        ⊎ ((ts : ℕ) × (entries : List (Entry S)) × (s : S) × (clock ≡ some ts)
            × (map ≡ some entries)
            × Once k s entries
            × (part (find k t) ≤ part (some (value s)))
            × Steady k (collect value delta (some ts) (some entries) t).1 l)

    collect_failed :
        (clock : Option ℕ) (map : Option (List (Entry S))) (t : Snapshot V) (e : PollError)
        → (collect value delta clock map t).0 ≡ err e
        → collect value delta clock map t ≡ (err e, t)
    unfolding collect
    collect_failed none map t e h = ap (λ r. (r, t)) h
    collect_failed (some ts) none t e h = ap (λ r. (r, t)) h
    collect_failed (some ts) (some entries) t e h =
        polled_failed (poll_entries value (delta ts) t entries [] []) h
      where
        polled_failed :
            (r : Result PollError (List (MetricRecord F32) × Snapshot V))
            → (polled t r).0 ≡ err e
            → polled t r ≡ (err e, t)
        polled_failed (err f) h = ap (λ r. (r, t)) h
        polled_failed (ok (rs, new)) h = cc

    -- One tick counts what its poll gives, and the loop goes on from the state after it.
    tick-counts :
        (k : Bytes) (p : Result PollError (List (MetricRecord F32)) × Snapshot V)
        (rest : Snapshot V → List (CollectorEvent F32) × Snapshot V)
        → (total (event_count k) (sent_then check poll p rest).0
            ≡ total (record_count k) (emitted p.0) + total (event_count k) (rest p.1).0)
          × ((sent_then check poll p rest).1 ≡ (rest p.1).1)
    tick-counts k (err e, t) rest = (omega arith, refl)
    tick-counts k (ok rs, t) rest = (
      total-append (event_count k) (send_records check rs) (rest t).0
          ∙ ap (λ n. n + total (event_count k) (rest t).0) (total-send_records k rs),
      refl,
    )

    pub loop_growth :
        (k : Bytes) (t : Snapshot V) (l : List (Wake (Reading S)))
        → Steady k t l
        → total (event_count k) (run_collector_loop check poll t l).0 + part (find k t)
          ≡ part (find k (run_collector_loop check poll t l).1)
    unfolding run_collector_loop
    loop_growth k t [] h = omega arith
    loop_growth k t (Wake.shutdown ∷ l) h = omega arith
    loop_growth k t (Wake.tick (clock, map) ∷ l) (inl (e, failed, h)) =
        rw (collect_failed clock map t e failed) (loop_growth k t l h)
    loop_growth k t (Wake.tick (clock, map) ∷ l) (inr (ts, entries, s, c, m, once, up, h)) =
        let p = collect value delta (some ts) (some entries) t in
        let (counted, last) = tick-counts k p (λ u. run_collector_loop check poll u l) in
        let (grown, found) = poll-Once value delta record_count part adds ts k s entries t once in
        let later : total (event_count k) (run_collector_loop check poll p.1 l).0
              + part (some (value s))
            ≡ part (find k (run_collector_loop check poll p.1 l).1) =
          rw found at (loop_growth k p.1 l h) in
        rw (c, m, last) (omega (arith, counted, grown, later, up))

module _ (fl : Floats) where
  dsk-count :
      (count : MetricPayload fl.F32 → ℕ) (ts : ℕ) (name : Bytes) (prev : Option (ℕ × ℕ))
      (s : LocalPidDiskStats) (k : Bytes)
      → total (record_count is_dsk count k) (disk_delta fl ts name prev s)
        ≡ total
            (λ r. if eq_bytes r.app_name k then count r.payload else 0)
            (disk_delta fl ts name prev s)
  unfolding disk_delta
  dsk-count count ts name prev s k =
      elim (Bool-cases (ltb 0 (s.read_bytes - first prev) || ltb 0 (s.write_bytes - second prev))) [
        | inl e ↦ rw e refl
        | inr e ↦ rw e refl
      ]

  pub read_adds :
      (ts : ℕ) (name : Bytes) (prev : Option (ℕ × ℕ)) (s : LocalPidDiskStats) (k : Bytes)
      → total (record_count is_dsk counter k) (disk_delta fl ts name prev s)
        ≡ (if eq_bytes name k then first (some (read_write s)) - first prev else 0)
  read_adds ts name prev s k =
      dsk-count counter ts name prev s k ∙ disk_delta-read fl ts name prev s k

  pub write_adds :
      (ts : ℕ) (name : Bytes) (prev : Option (ℕ × ℕ)) (s : LocalPidDiskStats) (k : Bytes)
      → total (record_count is_dsk second_counter k) (disk_delta fl ts name prev s)
        ≡ (if eq_bytes name k then second (some (read_write s)) - second prev else 0)
  write_adds ts name prev s k =
      dsk-count second_counter ts name prev s k ∙ disk_delta-write fl ts name prev s k

  -- Over the ticks until the shutdown, of which each either fails or reads a map in which an application
  -- has one entry and its two counters have not gone back, the bytes read in the events of the loop of the
  -- disk collector add up to the growth of what the collector remembers, and so do the bytes written:
  -- a tick that fails loses nothing.
  pub disk_loop_growth :
      (k : Bytes) (t : Snapshot (ℕ × ℕ)) (l : List (Wake (Reading LocalPidDiskStats)))
      → Steady is_dsk counter read_write (disk_delta fl) first read_adds k t l
      → Steady is_dsk second_counter read_write (disk_delta fl) second write_adds k t l
      → let (events, last) = run_collector_loop is_dsk (λ e c. collect_disk fl e.0 e.1 c) t l in
        (total (event_count is_dsk counter k) events + first (find k t) ≡ first (find k last))
        × (total (event_count is_dsk second_counter k) events + second (find k t)
            ≡ second (find k last))
  unfolding collect_disk
  disk_loop_growth k t l r w = (
    loop_growth is_dsk counter read_write (disk_delta fl) first read_adds k t l r,
    loop_growth is_dsk second_counter read_write (disk_delta fl) second write_adds k t l w,
  )
