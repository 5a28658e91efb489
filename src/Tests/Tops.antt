-- ===== src/Tests/Tops.antt =====
-- The lists of applications at concrete records: traffic of two applications, and windows of them.
use mathlib.Core.List.Perm
use heimwatch.Prelude.{ℕ, ◌≤◌, ◌≡◌, refl, List, [], ◌∷◌, some, Bytes, codes, arith}
use heimwatch.Core.Floats.{FloatOrder}
use heimwatch.Error.{ok}
use heimwatch.Core.Metrics.{MetricType, MetricRecord, AppNetworkStats}
use heimwatch.Apps.{HashOrder}
use heimwatch.Sled.Memory.{memory_range, insert, apply_batch, between}
use heimwatch.Keys.{range_start, range_end, encode_key}
use heimwatch.Keys.Decimal.{zero_padded, digits}
use heimwatch.Core.Metrics.{prefix, metric_type}
use heimwatch.Storage.{StorageLayer, decode_all, scan}
use heimwatch.Storage.Write.{insert_metrics_batch, batch_insert}
use heimwatch.Storage.Query.{get_metrics_by_type, sort_by_time, insert_by_time, raw_or_tiers}
use heimwatch.Storage.Top.{get_top_apps_by_network}
use heimwatch.Storage.Tops.{get_top_apps_by_network-IsTop}
use heimwatch.Apps.{tally, entry, sort_by}
use heimwatch.Apps.Tables.{IsTop, chosen}
use heimwatch.Storage.Top.{Fetched}
use heimwatch.Storage.Tops.{pair_sums, shown_row, all_bytes, sent_received}
use heimwatch.Tests.World.{world, empty, focus, traffic}

abbrev ssh : Bytes
ssh = codes "ssh"

abbrev code : Bytes
code = codes "code"

abbrev records : List (MetricRecord ℕ)
records =
    traffic ssh 100 5 6 0
    ∷ traffic code 110 50 7 0
    ∷ traffic ssh 120 10 20 0
    ∷ focus ssh 100 300
    ∷ focus code 115 200
    ∷ focus ssh 118 400
    ∷ []

abbrev stored : StorageLayer world
stored = insert_metrics_batch world records empty

abbrev net_records : List (MetricRecord ℕ)
net_records = traffic ssh 100 5 6 0 ∷ traffic code 110 50 7 0 ∷ traffic ssh 120 10 20 0 ∷ []

abbrev foc_records : List (MetricRecord ℕ)
foc_records = focus ssh 100 300 ∷ focus code 115 200 ∷ focus ssh 118 400 ∷ []

net_answer : get_metrics_by_type world (some 200) stored MetricType.net 50 150 ≡ ok net_records
unfolding get_metrics_by_type insert_metrics_batch decode_all scan memory_range range_start
    range_end prefix zero_padded digits encode_key batch_insert metric_type insert apply_batch
    between sort_by_time insert_by_time raw_or_tiers
net_answer = refl

foc_answer : get_metrics_by_type world (some 200) stored MetricType.foc 50 150 ≡ ok foc_records
unfolding get_metrics_by_type insert_metrics_batch decode_all scan memory_range range_start
    range_end prefix zero_padded digits encode_key batch_insert metric_type insert apply_batch
    between sort_by_time insert_by_time raw_or_tiers
foc_answer = refl

abbrev pub as_filled : HashOrder
as_filled = record { order = λ m. m; order-perm = λ m. Perm.rfl }

get_top_apps_by_network-IsTop_example :
    (rows : List AppNetworkStats) × (get_top_apps_by_network world as_filled
        (some 200)
        stored
        50
        150
        1
      ≡ ok rows)
    × IsTop shown_row
        (λ app. pair_sums (chosen (λ r. r.app_name) sent_received app net_records))
        (λ x y. all_bytes y ≤ all_bytes x)
        1
        rows
get_top_apps_by_network-IsTop_example =
    get_top_apps_by_network-IsTop world as_filled (some 200) stored 50 150 1 net_records net_answer

-- The application with the most traffic, of both.
busiest :
    get_top_apps_by_network world as_filled (some 200) stored 50 150 1
    ≡ ok (record { app_name = code; tx_bytes = 50; rx_bytes = 7 } ∷ [])
unfolding get_top_apps_by_network tally entry sort_by
busiest = rw net_answer refl

abbrev fetched : Fetched world
fetched = record {
  cpu_records = [];
  gpu_records = [];
  foc_records = foc_records;
  dsk_records = [];
  net_records = net_records;
  mem_records = [];
}

whole_order : FloatOrder world.floats
whole_order = record {
  IsNumber = λ n. Unit {0};
  lt_asym = λ x y h. ground arith;
  ge_trans = λ x y z p h k. ground arith;
}
