-- ===== src/Storage/Outcomes.antt =====
-- The cleanup by age of crates/heimwatch-storage/src/db.rs as a whole: its results, its failures,
-- and the export before it.
use heimwatch.Prelude.{
  ℕ, ◌-◌, ◌*◌, ◌≤◌, ◌≡◌, refl, ◌∙◌, Bool, true, false, List, [], ◌∷◌, ◌++◌, Option, none, some,
  arith, Bytes, length, u64_max, if◌then◌else◌,
}
use heimwatch.Error.{Failure, Result, ok, err}
use heimwatch.Core.Metrics.{MetricType, all_metric_types}
use heimwatch.Retention.{RetentionConfig, CleanupReport}
use heimwatch.Keys.{encode_key}
use heimwatch.Storage.{Env, StorageLayer, retention_cutoff}
use heimwatch.Storage.Write.{set_last_cleanup_ts}
use heimwatch.Storage.Cleanup.{
  cleanup_old_data, cleanup_with_config, delete_and_report, exported_then, export_if_asked,
  export_metrics_to_jsonl, export_dir, type_cutoff,
}
use heimwatch.Storage.Expiry.{
  expired-encode_key, old_enough, get-delete_old, get-delete_types, cutoff-le,
}

module _ (env : Env) where
  -- For times in `u64`, `cleanup_old_data` removes the records up to the cutoff, of each type, and
  -- no other: at the cutoff itself those with a name up to `~`.
  pub cleanup_old_data_exact :
      (days now : ℕ) (s : StorageLayer env) (p : MetricType) (ts : ℕ) (app : Bytes)
      → now ≤ u64_max
      → ts ≤ u64_max
      → env.sled.get (cleanup_old_data env days (some now) s).1.metrics (encode_key p ts app) ≡ (
          if old_enough (now - days * 86400) ts app
          then none
          else env.sled.get s.metrics (encode_key p ts app))
  unfolding cleanup_old_data retention_cutoff
  cleanup_old_data_exact days now s p ts app hn ht =
      get-delete_old env s.metrics (now - days * 86400) all_metric_types (encode_key p ts app)
      ∙ rw (expired-encode_key (λ _. now - days * 86400) (λ _. omega arith) p ts app ht) refl

  module _ (config : RetentionConfig) (now : ℕ) (p : MetricType) (ts : ℕ) (app : Bytes) where
    -- What a run of the cleanup may leave under the key of `p`, `ts` and `app`: after a success, the
    -- record if it was not expired, and the time of the run; after a failure the trees as they were.
    abbrev pub Cleaned : StorageLayer env → Result Failure CleanupReport × StorageLayer env → Type 0
    Cleaned s (ok report, s') =
        (env.sled.get s'.metrics (encode_key p ts app) ≡ (
          if old_enough (type_cutoff config now p) ts app
          then none
          else env.sled.get s.metrics (encode_key p ts app)))
        × (s'.meta ≡ (set_last_cleanup_ts env now s).meta)
    Cleaned s (err e, s') = (s'.metrics ≡ s.metrics) × (s'.meta ≡ s.meta)

    module _ (hn : now ≤ u64_max) (ht : ts ≤ u64_max) where
      delete_and_report-Cleaned :
          (exported : ℕ) (path : Option Bytes) (s : StorageLayer env)
          → Cleaned s (delete_and_report env config now exported path s)
      unfolding delete_and_report set_last_cleanup_ts
      delete_and_report-Cleaned exported path s = (
        get-delete_types env config now 0 s.metrics all_metric_types (encode_key p ts app)
            ∙ rw
                (expired-encode_key (type_cutoff config now) (λ mt. cutoff-le config now mt hn) p ts
                  app ht)
                refl,
        refl,
      )

      exported_then-Cleaned :
          (dir : Bytes) (s : StorageLayer env) (file : List Bytes × Bool)
          → Cleaned s (exported_then env config now dir s file)
      unfolding exported_then set_last_cleanup_ts
      exported_then-Cleaned dir s (lines, false) = (refl, refl)
      exported_then-Cleaned dir s (lines, true) =
          delete_and_report-Cleaned (length lines) (some dir)
            (record s { exports = s.exports ++ lines ∷ [] })

      export_if_asked-Cleaned :
          (writable : Bool) (dir : Option Bytes) (s : StorageLayer env)
          → Cleaned s (export_if_asked env config now writable dir s)
      unfolding export_if_asked
      export_if_asked-Cleaned writable none s = delete_and_report-Cleaned 0 none s
      export_if_asked-Cleaned false (some d) s = (refl, refl)
      export_if_asked-Cleaned true (some d) s =
          exported_then-Cleaned d s (export_metrics_to_jsonl env config now s.metrics)

  -- `cleanup_with_config` on all its branches, at the key of any type, timestamp and name in `u64`: a
  -- success removes what is up to that type's cutoff, leaves all else, and notes the time in the
  -- metadata; a failure leaves the metrics and the metadata.
  pub cleanup_with_config-Cleaned :
      (config : RetentionConfig) (now : ℕ) (p : MetricType) (ts : ℕ) (app : Bytes) (writable : Bool)
      (s : StorageLayer env)
      → now ≤ u64_max
      → ts ≤ u64_max
      → Cleaned config now p ts app s (cleanup_with_config env config (some now) writable s)
  unfolding cleanup_with_config
  cleanup_with_config-Cleaned config now p ts app writable s hn ht =
      export_if_asked-Cleaned config now p ts app hn ht writable
        (export_dir config.export_before_delete config.export_dir) s
