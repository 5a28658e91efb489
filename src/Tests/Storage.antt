-- ===== src/Tests/Storage.antt =====
-- The storage layer at concrete inputs: two windows of an editor, ten seconds apart.
use heimwatch.Prelude.{
  ◌↔◌, List, ℕ, ◌-◌, ◌*◌, ◌⊎◌, ◌≡◌, refl, sym, ◌∙◌, eq_bytes_refl, true, [], ◌∷◌, none, some, arith,
  Bytes, codes, if◌then◌else◌,
}
use heimwatch.Prelude.Int.{ℤ, pos}
use heimwatch.Error.{ok}
use heimwatch.Core.Metrics.{MetricPayload, MetricType, MetricRecord, metric_type}
use heimwatch.Keys.{encode_key}
use heimwatch.Retention.{default_retention, default_tiered, TieredRetentionConfig}
use heimwatch.Aggregation.{aggregate_records}
use heimwatch.Aggregation.Bucket.{subtract_months, day_bucket, month_bucket, year_bucket}
use heimwatch.Aggregation.Calendar.{
  Starts, IsMonthsBefore, Cast, WithoutDate, buckets_group, subtract_months_lem,
}
use heimwatch.Aggregation.Totals.{aggregate_records_lem, Sums}
use heimwatch.Sled.Memory.{get-nil}
use heimwatch.Storage.{StorageLayer, key_of}
use heimwatch.Sled.Entries.{In}
use heimwatch.Storage.Recorded.{record_of, get_metrics_by_type-persist_event}
use heimwatch.Storage.Write.{
  CollectorEvent, persist_event, insert_metric, insert_metrics_batch, get-insert_metrics_batch,
  insert_each,
}
use heimwatch.Storage.Query.{get_metrics_by_type}
use heimwatch.Storage.Stored.{visible, IsWellFormed, insert_metric-IsWellFormed, Stored}
use heimwatch.Storage.Answers.{InOrder, Exactly, query_exact}
use heimwatch.Storage.Cleanup.{cleanup_old_data, cleanup_with_config}
use heimwatch.Storage.Expiry.{old_enough}
use heimwatch.Storage.Outcomes.{cleanup_old_data_exact, Cleaned, cleanup_with_config-Cleaned}
use heimwatch.Storage.Export.{Exported, cleanup_with_config-Exported}
use heimwatch.Storage.Groups.{aggregate_batch, group_records}
use heimwatch.Storage.Conserved.{Conserves, aggregate_batch-group_records}
use heimwatch.Storage.Tiered.{cleanup_tiered, delete_yearly, keep_months}
use heimwatch.Storage.Tiers.Steps.{Ends, Safe}
use heimwatch.Storage.Tiers.{Tiered, cleanup_tiered-Ends, delete_yearly-before_epoch}
use heimwatch.Tests.Thirty.{thirty, thirty_civil}
use heimwatch.Tests.World.{whole, world, empty, focus}

abbrev code : Bytes
code = codes "code"

abbrev early : MetricRecord ℕ
early = focus code 100 500

abbrev late : MetricRecord ℕ
late = focus code 110 700

early_foc : metric_type early.payload ≡ MetricType.foc
unfolding metric_type
early_foc = refl

late_foc : metric_type late.payload ≡ MetricType.foc
unfolding metric_type
late_foc = refl

none-some : {v : Bytes} → none ≡ some v → ⊥
none-some h = cc

empty-IsWellFormed : IsWellFormed world empty.metrics
empty-IsWellFormed = record { at = λ k v h. absurd (none-some (rw (get-nil k) at h)) }

insert_metric-IsWellFormed_example : IsWellFormed world (insert_metric world early empty).metrics
insert_metric-IsWellFormed_example =
    insert_metric-IsWellFormed world early empty refl (omega arith) empty-IsWellFormed

get-insert_metrics_batch_example :
    world.sled.get
      (insert_metrics_batch world (early ∷ late ∷ []) empty).metrics
      (key_of world late)
    ≡ world.sled.get (insert_each world (early ∷ late ∷ []) empty).metrics (key_of world late)
get-insert_metrics_batch_example =
    get-insert_metrics_batch world (early ∷ late ∷ []) empty (key_of world late)

abbrev both : StorageLayer world
both = insert_metrics_batch world (early ∷ late ∷ []) empty

one-IsWellFormed : IsWellFormed world (insert_metric world early empty).metrics
one-IsWellFormed =
    insert_metric-IsWellFormed world early empty refl (omega arith) empty-IsWellFormed

early-Stored : Stored world (insert_metric world early empty).metrics early
unfolding insert_metric
early-Stored = (
  world.to_vec early,
  world.sled.get-insert empty.metrics (key_of world early) (world.to_vec early) (key_of world early)
      ∙ rw (eq_bytes_refl (key_of world early)) refl,
  refl,
)

early-visible : visible MetricType.foc 0 200 early ≡ true
unfolding metric_type
early-visible = refl

query_exact_example :
    Exactly world
      (insert_metric world early empty)
      MetricType.foc
      0
      200
      (get_metrics_by_type world none (insert_metric world early empty) MetricType.foc 0 200)
query_exact_example =
    query_exact world none (insert_metric world early empty) MetricType.foc 0 200 (omega arith)
      (omega arith) one-IsWellFormed early early-Stored early-visible

cleanup_old_data_exact_example :
    world.sled.get
      (cleanup_old_data world 1 (some 86505) both).1.metrics
      (encode_key MetricType.foc 100 code)
    ≡ (if old_enough (86505 - 1 * 86400) 100 code
        then none
        else world.sled.get both.metrics (encode_key MetricType.foc 100 code))
cleanup_old_data_exact_example =
    cleanup_old_data_exact world 1 86505 both MetricType.foc 100 code (omega arith) (omega arith)

cleanup_with_config-Cleaned_example :
    Cleaned world default_retention 86505 MetricType.foc 100 code both
      (cleanup_with_config world default_retention (some 86505) true both)
cleanup_with_config-Cleaned_example =
    cleanup_with_config-Cleaned world default_retention 86505 MetricType.foc 100 code true both
      (omega arith) (omega arith)

cleanup_with_config-Exported_example :
    Exported world both (cleanup_with_config world default_retention (some 86505) true both)
cleanup_with_config-Exported_example =
    cleanup_with_config-Exported world default_retention 86505 (omega arith) true both

-- Days 1157 and 1160 after 1970: the same month, and so the same year, of the calendar of the tests.
abbrev day_1157 : ℤ
day_1157 = pos 1157

abbrev day_1160 : ℤ
day_1160 = pos 1160

buckets_group_example :
    ((day_bucket thirty 100000000 ≡ day_bucket thirty 100224001 ↔ day_1157 ≡ day_1160)
      × (month_bucket thirty 100000000 ≡ month_bucket thirty 100224001 ↔ (
          (thirty.year day_1157 ≡ thirty.year day_1160)
          × (thirty.month day_1157 ≡ thirty.month day_1160)))
      × (year_bucket thirty 100000000 ≡ year_bucket thirty 100224001
          ↔ thirty.year day_1157 ≡ thirty.year day_1160))
    × (Starts thirty thirty_civil 100000000
          (day_bucket thirty 100000000)
          (pos 3)
          3
          (thirty_civil.day day_1157)
        × Starts thirty thirty_civil 100000000 (month_bucket thirty 100000000) (pos 3) 3 1
        × Starts thirty thirty_civil 100000000 (year_bucket thirty 100000000) (pos 3) 1 1)
buckets_group_example =
    buckets_group thirty thirty_civil 100000000 100224001 day_1157 day_1160 (omega arith)
      (omega arith) refl refl

subtract_months_lem_example :
    ((d e : ℤ) × (thirty.date_at (pos 86400000) ≡ some d)
      × IsMonthsBefore thirty thirty_civil 10 d e
      × Cast thirty thirty_civil 86400000 (omega arith) 10 e)
    ⊎ WithoutDate thirty thirty_civil 86400000 (omega arith) 10
subtract_months_lem_example = subtract_months_lem thirty thirty_civil 86400000 (omega arith) 10

aggregate_records_lem_example :
    Sums whole early (late ∷ []) 0 (aggregate_records whole (early ∷ late ∷ []) 0)
aggregate_records_lem_example =
    aggregate_records_lem whole early (late ∷ []) 0 (late_foc ∙ sym early_foc, tt)

aggregate_batch-group_records_example :
    Conserves world MetricType.foc (day_bucket thirty) (early ∷ late ∷ []) (
      aggregate_batch world MetricType.foc
        (group_records world (day_bucket thirty) (early ∷ late ∷ [])))
aggregate_batch-group_records_example =
    aggregate_batch-group_records world MetricType.foc (day_bucket thirty) (early ∷ late ∷ [])
      (early_foc, (late_foc, tt))

cleanup_tiered-Ends_example :
    Ends world
      (λ report. Tiered world default_tiered 864000 both)
      (Safe world default_tiered 864000 both)
      (cleanup_tiered world default_tiered (some 864000) true both)
cleanup_tiered-Ends_example = cleanup_tiered-Ends world default_tiered 864000 true both

abbrev ten_years : TieredRetentionConfig
ten_years = record default_tiered { yearly_keep_years = 10 }

delete_yearly-before_epoch_example :
    world.sled.get
      (delete_yearly world
        (subtract_months thirty 86400000 (keep_months ten_years))
        (record empty { metrics_1y = both.metrics })).1.metrics_1y
      (encode_key MetricType.foc 100 code)
    ≡ none
delete_yearly-before_epoch_example =
    delete_yearly-before_epoch world ten_years 86400000 224639999
      (record empty { metrics_1y = both.metrics }) MetricType.foc 100 code refl (omega arith)
      (omega arith)

abbrev seen : CollectorEvent ℕ
seen = record {
  app_name = code;
  payload = MetricPayload.foc (record { app_id = code; duration_ms = 500 });
  timestamp = 100;
}

get_metrics_by_type-persist_event_example :
    (rs : List (MetricRecord ℕ)) × (get_metrics_by_type world none
        (persist_event world seen empty)
        (metric_type seen.payload)
        0
        100
      ≡ ok rs)
    × InOrder world rs
    × In (record_of world seen) rs
get_metrics_by_type-persist_event_example =
    get_metrics_by_type-persist_event world none empty seen 0 100 refl (omega arith) (omega arith)
      (λ e. refl) (omega arith) empty-IsWellFormed
