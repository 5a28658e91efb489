-- ===== src/Collector/Loop/Failure.antt =====
-- What a poll that fails does to the loops of crates/heimwatch-collector: that of the network collector,
-- network/linux.rs, ends with it, where `run_collector_loop` of util.rs goes on.
use heimwatch.Prelude.{◌≡◌, refl, sym, append_assoc, ap, ◌∙◌, Bool, List, [], ◌∷◌, ◌++◌}
use heimwatch.Error.{Result, ok, err}
use heimwatch.Core.Metrics.{MetricPayload, MetricRecord}
use heimwatch.Collector.Loop.{Wake, Standing, send_records, run_collector_loop, run_network}

module _ {F32 E C Err : Type 0} (check : MetricPayload F32 → Bool)
    (collect_fn : E → C → Result Err (List (MetricRecord F32)) × C) where
  -- Ticks whose polls succeed, one after the other.
  abbrev pub Healthy : C → List (Wake E) → Type 0
  Healthy c [] = Unit {0}
  Healthy c (Wake.shutdown ∷ l) = ⊥
  Healthy c (Wake.tick e ∷ l) =
      (records : List (MetricRecord F32)) × (next : C) × (collect_fn e c ≡ (ok records, next))
      × Healthy next l

  -- After ticks whose polls succeed, a tick whose poll fails ends the network collector's loop with its
  -- error: it has sent what `run_collector_loop` sends for the ticks before, and reads no later one. In
  -- `run_collector_loop` the later ticks go on from the collector after the failure.
  pub run_network-failure :
      (c : C) (l : List (Wake E)) (e : E) (x : Err) (next : C) (later : List (Wake E))
      → Healthy c l
      → collect_fn e (run_collector_loop check collect_fn c l).1 ≡ (err x, next)
      → (run_network check collect_fn c (l ++ Wake.tick e ∷ later)
          ≡ ((run_collector_loop check collect_fn c l).0, Standing.failed x))
        × (run_collector_loop check collect_fn c (l ++ Wake.tick e ∷ later) ≡ (
          (run_collector_loop check collect_fn c l).0
              ++ (run_collector_loop check collect_fn next later).0,
          (run_collector_loop check collect_fn next later).1,
        ))
  unfolding run_network run_collector_loop
  run_network-failure c [] e x next later h f = (rw f refl, rw f refl)
  run_network-failure c (Wake.shutdown ∷ l) e x next later h f = absurd h
  run_network-failure c (Wake.tick first ∷ l) e x next later (records, after, now, h) f =
      let (network, shared) = run_network-failure after l e x next later h (rw now at f) in
      (
        rw now (ap (λ r. (send_records check records ++ r.0, r.1)) network),
        rw now (
            ap (λ r. (send_records check records ++ r.0, r.1)) shared
            ∙ ap (λ es. (es, (run_collector_loop check collect_fn next later).1))
                (sym (
                  append_assoc (send_records check records)
                    (run_collector_loop check collect_fn after l).0
                    (run_collector_loop check collect_fn next later).0))),
      )
