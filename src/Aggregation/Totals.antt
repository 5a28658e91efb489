-- ===== src/Aggregation/Totals.antt =====
-- What `aggregate_records` of crates/heimwatch-storage/src/aggregation.rs keeps: the type, the
-- application, and the totals of the counters.
use heimwatch.Prelude.{ℕ, ◌≡◌, refl, ◌∙◌, List, [], ◌∷◌, Option, some, arith, wrap64}
use heimwatch.Core.Floats.{Floats}
use heimwatch.Core.Metrics.{MetricPayload, MetricType, metric_type}
use heimwatch.Aggregation.{aggregate_records, aggregate_payload}
use heimwatch.Aggregation.Loops.{Rec}
use heimwatch.Aggregation.Sums.{
  net_step, cpu_step, dsk_step, foc_step, aggregate_net, aggregate_cpu, aggregate_mem,
  aggregate_dsk, aggregate_foc,
}
use heimwatch.Aggregation.Readings.{aggregate_pwr, aggregate_gpu, aggregate_gpu_proc}
use heimwatch.Aggregation.Counters.{
  counter, second_counter, total, OfType, fold_total, net_adds, cpu_adds, dsk_adds, foc_adds,
  idle_total,
}

module _ (fl : Floats) where
  -- The counters of the aggregate of some records, all of one type, are the sums of theirs.
  Adds : MetricType → MetricPayload fl.F32 → List (Rec fl) → Type 0
  Adds mt p rs =
      (counter p ≡ wrap64 (total (λ r. counter r.payload) rs))
      × (second_counter p ≡ wrap64 (total (λ r. second_counter r.payload) rs))
      × (metric_type p ≡ mt)

  Adds-net :
      (rs : List (Rec fl))
      → OfType fl MetricType.net rs
      → Adds MetricType.net (aggregate_net fl rs) rs
  unfolding aggregate_net metric_type Adds
  Adds-net rs h = (
    fold_total fl (net_step fl) (λ a. a.0) counter MetricType.net (λ a p e. (net_adds fl a p e).0)
          (0, 0, 0) rs (omega arith) h
        ∙ omega arith,
    fold_total fl (net_step fl) (λ a. a.1) second_counter MetricType.net
          (λ a p e. (net_adds fl a p e).1) (0, 0, 0) rs (omega arith) h
        ∙ omega arith,
    refl,
  )

  Adds-cpu :
      (rs : List (Rec fl))
      → OfType fl MetricType.cpu rs
      → Adds MetricType.cpu (aggregate_cpu fl rs) rs
  unfolding aggregate_cpu metric_type Adds
  Adds-cpu rs h = (
    fold_total fl (cpu_step fl) (λ a. a.0) counter MetricType.cpu (cpu_adds fl)
          (0, fl.f64_of_u64 0, 0) rs (omega arith) h
        ∙ omega arith,
    omega (arith, idle_total fl second_counter MetricType.cpu no_second rs h),
    refl,
  )
    where
      no_second : (p : MetricPayload fl.F32) → metric_type p ≡ MetricType.cpu → second_counter p ≡ 0
      no_second (MetricPayload.cpu d) e = refl
      no_second _ e = cc

  Adds-dsk :
      (rs : List (Rec fl))
      → OfType fl MetricType.dsk rs
      → Adds MetricType.dsk (aggregate_dsk fl rs) rs
  unfolding aggregate_dsk metric_type Adds
  Adds-dsk rs h = (
    fold_total fl (dsk_step fl) (λ a. a.0) counter MetricType.dsk (λ a p e. (dsk_adds fl a p e).0)
          (0, 0, []) rs (omega arith) h
        ∙ omega arith,
    fold_total fl (dsk_step fl) (λ a. a.1) second_counter MetricType.dsk
          (λ a p e. (dsk_adds fl a p e).1) (0, 0, []) rs (omega arith) h
        ∙ omega arith,
    refl,
  )

  Adds-foc :
      (rs : List (Rec fl))
      → OfType fl MetricType.foc rs
      → Adds MetricType.foc (aggregate_foc fl rs) rs
  unfolding aggregate_foc metric_type Adds
  Adds-foc rs h = (
    fold_total fl (foc_step fl) (λ a. a.0) counter MetricType.foc (foc_adds fl) (0, []) rs
          (omega arith) h
        ∙ omega arith,
    omega (arith, idle_total fl second_counter MetricType.foc no_second rs h),
    refl,
  )
    where
      no_second : (p : MetricPayload fl.F32) → metric_type p ≡ MetricType.foc → second_counter p ≡ 0
      no_second (MetricPayload.foc d) e = refl
      no_second _ e = cc

  -- the other types have no counters, before and after
  abbrev Idle : MetricType → Type 0
  Idle mt =
      (p : MetricPayload fl.F32) → metric_type p ≡ mt → (counter p ≡ 0) × (second_counter p ≡ 0)

  Adds-idle :
      (mt : MetricType) (p : MetricPayload fl.F32) (rs : List (Rec fl))
      → Idle mt
      → metric_type p ≡ mt
      → OfType fl mt rs
      → Adds mt p rs
  unfolding Adds
  Adds-idle mt p rs idle e h = (
    omega (arith, idle_total fl counter mt (λ q k. (idle q k).0) rs h, (idle p e).0),
    omega (arith, idle_total fl second_counter mt (λ q k. (idle q k).1) rs h, (idle p e).1),
    e,
  )

  idle_mem : Idle MetricType.mem
  unfolding metric_type
  idle_mem (MetricPayload.mem d) e = (refl, refl)
  idle_mem _ e = cc

  idle_pwr : Idle MetricType.pwr
  unfolding metric_type
  idle_pwr (MetricPayload.pwr d) e = (refl, refl)
  idle_pwr _ e = cc

  idle_gpu : Idle MetricType.gpu
  unfolding metric_type
  idle_gpu (MetricPayload.gpu d) e = (refl, refl)
  idle_gpu _ e = cc

  idle_gpu_proc : Idle MetricType.gpu_proc
  unfolding metric_type
  idle_gpu_proc (MetricPayload.gpu_proc d) e = (refl, refl)
  idle_gpu_proc _ e = cc

  Adds-payload :
      (p : MetricPayload fl.F32) (rs : List (Rec fl))
      → OfType fl (metric_type p) rs
      → Adds (metric_type p) (aggregate_payload fl p rs) rs
  unfolding aggregate_payload metric_type aggregate_mem aggregate_pwr aggregate_gpu
      aggregate_gpu_proc
  Adds-payload (MetricPayload.net d) rs h = Adds-net rs h
  Adds-payload (MetricPayload.cpu d) rs h = Adds-cpu rs h
  Adds-payload (MetricPayload.dsk d) rs h = Adds-dsk rs h
  Adds-payload (MetricPayload.foc d) rs h = Adds-foc rs h
  Adds-payload (MetricPayload.mem d) rs h = Adds-idle MetricType.mem _ rs idle_mem refl h
  Adds-payload (MetricPayload.pwr d) rs h = Adds-idle MetricType.pwr _ rs idle_pwr refl h
  Adds-payload (MetricPayload.gpu d) rs h = Adds-idle MetricType.gpu _ rs idle_gpu refl h
  Adds-payload (MetricPayload.gpu_proc d) rs h =
      Adds-idle MetricType.gpu_proc _ rs idle_gpu_proc refl h

  -- An aggregate with the application of `r`, the timestamp `ts`, the type of `r` and the sums modulo
  -- 2^64 of the counters of `r` and `rs`.
  abbrev pub Sums : Rec fl → List (Rec fl) → ℕ → Option (Rec fl) → Type 0
  Sums r rs ts result =
      (agg : Rec fl) × (result ≡ some agg)
      × (agg.app_name ≡ r.app_name)
      × (agg.timestamp ≡ ts)
      × (metric_type agg.payload ≡ metric_type r.payload)
      × (counter agg.payload ≡ wrap64 (total (λ x. counter x.payload) (r ∷ rs)))
      × (second_counter agg.payload ≡ wrap64 (total (λ x. second_counter x.payload) (r ∷ rs)))

  -- The aggregate of one or more records of one type has that type, the first one's application and
  -- the timestamp that was asked for, and its counters are their sums modulo 2^64.
  pub aggregate_records_lem :
      (r : Rec fl) (rs : List (Rec fl)) (bucket_ts : ℕ)
      → OfType fl (metric_type r.payload) rs
      → Sums r rs bucket_ts (aggregate_records fl (r ∷ rs) bucket_ts)
  unfolding aggregate_records Adds
  aggregate_records_lem r rs bucket_ts h =
      let adds = Adds-payload r.payload (r ∷ rs) (refl, h) in
      (
        record {
          app_name = r.app_name;
          timestamp = bucket_ts;
          payload = aggregate_payload fl r.payload (r ∷ rs);
        },
        refl,
        refl,
        refl,
        adds.2,
        adds.0,
        adds.1,
      )
