-- ===== src/Tests/World.antt =====
-- A small world for the witnesses: whole numbers for the floats, a calendar with months of thirty
-- days, trees in memory, and a codec for the records of the tests.
use heimwatch.Prelude.{
  ℕ, zero, suc, ◌+◌, ◌*◌, ◌/◌, [], ◌∷◌, Option, none, some, Bytes, ltb, min, max, ◌^◌,
}
use heimwatch.Core.Floats.{Floats}
use heimwatch.Core.Metrics.{MetricPayload, MetricRecord}
use heimwatch.Sled.Memory.{memory}
use heimwatch.Storage.{Env, StorageLayer}
use heimwatch.Tests.Thirty.{thirty}

abbrev pub whole : Floats
whole = record {
  F32 = ℕ;
  F64 = ℕ;
  zero_f64 = 0;
  zero_f32 = 0;
  add_f64 = λ a b. a + b;
  add_f32 = λ a b. a + b;
  mul_f64 = λ a b. a * b;
  div_f64 = λ a b. a / b;
  div_f32 = λ a b. a / b;
  mul_f32 = λ a b. a * b;
  log2_f32 = λ a. a;
  max_f32 = λ a b. max a b;
  clamp_f32 = λ a lo hi. max lo (min hi a);
  lt_f32 = ltb;
  literal_f32 = λ n places. n / 10 ^ places;
  parse_f32 = λ s. none;
  round = λ a. a;
  f64_of_u64 = λ a. a;
  f32_of_u64 = λ a. a;
  f64_of_f32 = λ a. a;
  f32_of_f64 = λ a. a;
  u64_of_f64 = λ a. a;
  u32_of_f64 = λ a. a;
}

-- A number as a decimal would do; here it is its own byte.
abbrev number_of : Bytes → Option ℕ
number_of (n ∷ []) = some n
number_of _ = none

-- The records of the tests are those of windows and of the network.
abbrev encode : MetricRecord ℕ → Bytes
encode r = elim r.payload [
  | MetricPayload.foc d ↦ 2 ∷ r.timestamp ∷ d.duration_ms ∷ r.app_name
  | MetricPayload.net d ↦ 0 ∷ r.timestamp ∷ d.tx_bytes ∷ d.rx_bytes ∷ d.connections ∷ r.app_name
  | _ ↦ []
]

abbrev pub focus : Bytes → ℕ → ℕ → MetricRecord ℕ
focus app ts ms = record {
  app_name = app;
  timestamp = ts;
  payload = MetricPayload.foc (record { app_id = app; duration_ms = ms });
}

abbrev pub traffic : Bytes → ℕ → ℕ → ℕ → ℕ → MetricRecord ℕ
traffic app ts tx rx n = record {
  app_name = app;
  timestamp = ts;
  payload = MetricPayload.net (record { tx_bytes = tx; rx_bytes = rx; connections = n });
}

abbrev decode : Bytes → Option (MetricRecord ℕ)
decode (suc tag ∷ ts ∷ ms ∷ app) = some (focus app ts ms)
decode (zero ∷ ts ∷ tx ∷ rx ∷ n ∷ app) = some (traffic app ts tx rx n)
decode _ = none

abbrev pub world : Env
world = record {
  floats = whole;
  chrono = thirty;
  sled = memory;
  to_vec = encode;
  from_slice = decode;
  number_to_vec = λ n. n ∷ [];
  number_from_slice = number_of;
}

abbrev pub empty : StorageLayer world
empty = record {
  metrics = [];
  meta = [];
  metrics_1d = [];
  metrics_1m = [];
  metrics_1y = [];
  exports = [];
}
