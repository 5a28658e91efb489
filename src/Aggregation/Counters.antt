-- ===== src/Aggregation/Counters.antt =====
-- The counters in a payload, and that the loops of `aggregate_records` in
-- crates/heimwatch-storage/src/aggregation.rs add them up.
use heimwatch.Prelude.{
  ℕ, ◌+◌, ◌^◌, ◌<◌, ◌≡◌, refl, ◌∙◌, List, [], ◌∷◌, ◌++◌, arith, Bytes, wrap64, All,
}
use heimwatch.Core.Floats.{Floats}
use heimwatch.Core.Metrics.{MetricPayload, MetricType, metric_type}
use heimwatch.Aggregation.Loops.{Rec, fold_payloads}
use heimwatch.Aggregation.Sums.{net_step, cpu_step, dsk_step, foc_step}

-- The counters of a payload, which aggregation adds up: bytes sent or read, or time.
abbrev pub counter : {F32 : Type 0} → MetricPayload F32 → ℕ
counter (MetricPayload.net d) = d.tx_bytes
counter (MetricPayload.cpu d) = d.cpu_time_ns
counter (MetricPayload.dsk d) = d.read_bytes
counter (MetricPayload.foc d) = d.duration_ms
counter _ = 0

-- Bytes received or written.
abbrev pub second_counter : {F32 : Type 0} → MetricPayload F32 → ℕ
second_counter (MetricPayload.net d) = d.rx_bytes
second_counter (MetricPayload.dsk d) = d.write_bytes
second_counter _ = 0

abbrev pub total : {A : Type 0} → (A → ℕ) → List A → ℕ
total f [] = 0
total f (x ∷ xs) = f x + total f xs

pub total-append :
    {A : Type 0} (f : A → ℕ) (xs ys : List A) → total f (xs ++ ys) ≡ total f xs + total f ys
total-append f [] ys = omega arith
total-append f (x ∷ xs) ys = omega (arith, total-append f xs ys)

module _ (fl : Floats) where
  abbrev pub OfType : MetricType → List (Rec fl) → Type 0
  OfType mt = All (λ r. metric_type r.payload ≡ mt)

  -- A loop that adds `f` of each payload, in `u64`, ends at the sum.
  pub fold_total :
      {A : Type 0} (step : A → MetricPayload fl.F32 → A) (part : A → ℕ)
      (f : MetricPayload fl.F32 → ℕ) (mt : MetricType)
      → ((acc : A) (p : MetricPayload fl.F32)
          → metric_type p ≡ mt
          → part (step acc p) ≡ wrap64 (part acc + f p))
      → (acc : A) (rs : List (Rec fl)) → part acc < 2 ^ 64
      → OfType mt rs
      → part (fold_payloads fl step acc rs) ≡ wrap64 (part acc + total (λ r. f r.payload) rs)
  fold_total step part f mt adds acc [] small h = omega arith
  fold_total step part f mt adds acc (r ∷ rs) small (e, h) =
      let here = adds acc r.payload e in
      fold_total step part f mt adds (step acc r.payload) rs (omega arith) h ∙ omega arith

  pub net_adds :
      (acc : ℕ × ℕ × ℕ) (p : MetricPayload fl.F32)
      → metric_type p ≡ MetricType.net
      → ((net_step fl acc p).0 ≡ wrap64 (acc.0 + counter p))
        × ((net_step fl acc p).1 ≡ wrap64 (acc.1 + second_counter p))
  unfolding net_step metric_type
  net_adds (a, b, c) (MetricPayload.net d) e = (refl, refl)
  net_adds (a, b, c) _ e = cc

  pub cpu_adds :
      (acc : ℕ × fl.F64 × ℕ) (p : MetricPayload fl.F32)
      → metric_type p ≡ MetricType.cpu
      → (cpu_step fl acc p).0 ≡ wrap64 (acc.0 + counter p)
  unfolding cpu_step metric_type
  cpu_adds (a, b, c) (MetricPayload.cpu d) e = refl
  cpu_adds (a, b, c) _ e = cc

  pub dsk_adds :
      (acc : ℕ × ℕ × Bytes) (p : MetricPayload fl.F32)
      → metric_type p ≡ MetricType.dsk
      → ((dsk_step fl acc p).0 ≡ wrap64 (acc.0 + counter p))
        × ((dsk_step fl acc p).1 ≡ wrap64 (acc.1 + second_counter p))
  unfolding dsk_step metric_type
  dsk_adds (a, b, c) (MetricPayload.dsk d) e = (refl, refl)
  dsk_adds (a, b, c) _ e = cc

  pub foc_adds :
      (acc : ℕ × Bytes) (p : MetricPayload fl.F32)
      → metric_type p ≡ MetricType.foc
      → (foc_step fl acc p).0 ≡ wrap64 (acc.0 + counter p)
  unfolding foc_step metric_type
  foc_adds (a, b) (MetricPayload.foc d) e = refl
  foc_adds (a, b) _ e = cc

  -- the types that have no counter
  pub idle_total :
      (f : MetricPayload fl.F32 → ℕ) (mt : MetricType)
      → ((p : MetricPayload fl.F32) → metric_type p ≡ mt → f p ≡ 0)
      → (rs : List (Rec fl)) → OfType mt rs
      → total (λ r. f r.payload) rs ≡ 0
  idle_total f mt idle [] h = refl
  idle_total f mt idle (r ∷ rs) (e, h) = omega (arith, idle r.payload e, idle_total f mt idle rs h)
