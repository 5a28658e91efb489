-- ===== src/Storage/Export.antt =====
-- The export before a deletion in crates/heimwatch-storage/src/db.rs, beside what the deletion
-- removes.
use heimwatch.Prelude.{
  ℕ, ◌≤◌, ◌≡◌, refl, ◌∙◌, Bool, true, false, List, [], ◌∷◌, ◌++◌, Option, none, some, arith, Bytes,
  length, u64_max, inl, inr, sym, Option-cases,
}
use heimwatch.Error.{Failure, Result, ok, err}
use heimwatch.Retention.{RetentionConfig, CleanupReport}
use heimwatch.Sled.{Entries}
use heimwatch.Storage.{Env, Rec, StorageLayer}
use heimwatch.Storage.Write.{set_last_cleanup_ts}
use heimwatch.Storage.Cleanup.{
  cleanup_with_config, delete_and_report, exported_then, export_if_asked, copy_lines,
  export_metrics_to_jsonl, export_dir,
}
use heimwatch.Storage.Removed.{Removes, expired_now, deleted_count_lem, Removes-delete_types}

module _ (env : Env) where
  length-copy_lines :
      (l : Entries) → (copy_lines env l).1 ≡ true → length (copy_lines env l).0 ≡ length l
  unfolding copy_lines
  length-copy_lines [] h = refl
  length-copy_lines ((k, v) ∷ l) h = ground (arith, length-copy_lines l)

  -- One line for each entry, which prints the record that is read from its value.
  abbrev pub Printed : List Bytes → Entries → Type 0
  Printed [] [] = Unit
  Printed [] (e ∷ l) = ⊥
  Printed (line ∷ lines) [] = ⊥
  Printed (line ∷ lines) ((k, v) ∷ l) =
      ((r : Rec env) × (env.from_slice v ≡ some r) × (line ≡ env.to_vec r)) × Printed lines l

  refuted : ¬ (false ≡ true)
  refuted h = cc

  Printed-copy_lines : (l : Entries) → (copy_lines env l).1 ≡ true → Printed (copy_lines env l).0 l
  unfolding copy_lines
  Printed-copy_lines [] h = tt
  Printed-copy_lines ((k, v) ∷ l) h = elim (Option-cases (env.from_slice v)) [
    | inl e ↦ absurd (refuted (rw (e, copy_lines) at h))
    | inr (r, e) ↦
        rw (e, copy_lines, Printed) ((r, e, refl), Printed-copy_lines l (rw (e, copy_lines) at h))
  ]

  -- What a report says of an export: none was made, or a file was written with a line for every
  -- record that the run removed.
  abbrev pub Exported : StorageLayer env → Result Failure CleanupReport × StorageLayer env → Type 0
  Exported s (err e, s') = Unit
  Exported s (ok report, s') =
      (removed : Entries) × Removes env s.metrics s'.metrics removed
      × (report.deleted_count ≡ length removed)
      × (elim report.export_path [
        | none ↦ (report.exported_count ≡ 0) × (s'.exports ≡ s.exports)
        | some dir ↦
            (report.exported_count ≡ report.deleted_count)
            × ((lines : List Bytes) × (s'.exports ≡ s.exports ++ lines ∷ [])
                × (length lines ≡ report.exported_count)
                × Printed lines removed)
      ])

  module _ (config : RetentionConfig) (now : ℕ) (hn : now ≤ u64_max) where
    exported_then-Exported :
        (dir : Bytes) (s : StorageLayer env) (file : List Bytes × Bool)
        → (file.1 ≡ true
            → (length file.0 ≡ length (expired_now env config now hn s.metrics))
              × Printed file.0 (expired_now env config now hn s.metrics))
        → Exported s (exported_then env config now dir s file)
    unfolding exported_then delete_and_report set_last_cleanup_ts
    exported_then-Exported dir s (lines, false) h = tt
    exported_then-Exported dir s (lines, true) h =
        let deleted = deleted_count_lem env config now hn s.metrics in
        (
          expired_now env config now hn s.metrics,
          Removes-delete_types env config now hn s.metrics,
          deleted,
          ((h refl).0 ∙ sym deleted, (lines, refl, refl, (h refl).1)),
        )

    export_if_asked-Exported :
        (writable : Bool) (dir : Option Bytes) (s : StorageLayer env)
        → Exported s (export_if_asked env config now writable dir s)
    unfolding export_if_asked delete_and_report set_last_cleanup_ts
    export_if_asked-Exported writable none s = (
      expired_now env config now hn s.metrics,
      Removes-delete_types env config now hn s.metrics,
      deleted_count_lem env config now hn s.metrics,
      (refl, refl),
    )
    export_if_asked-Exported false (some d) s = tt
    export_if_asked-Exported true (some d) s =
        exported_then-Exported d s (export_metrics_to_jsonl env config now s.metrics) (
          unfold export_metrics_to_jsonl in
          λ h. (
            length-copy_lines (expired_now env config now hn s.metrics) h,
            Printed-copy_lines (expired_now env config now hn s.metrics) h,
          ))

    -- After a successful run of `cleanup_with_config` there is a list of entries with different keys
    -- that are exactly the keys and values that `metrics` held before the run and has no value for
    -- afterwards, as many as the reported count of deletions. A run that exports writes one file, and
    -- reports as many exports as deletions: the file has one line for each of these entries, in
    -- their order, which prints the record read from its value. A run that does not export writes no
    -- file.
    pub cleanup_with_config-Exported :
        (writable : Bool) (s : StorageLayer env)
        → Exported s (cleanup_with_config env config (some now) writable s)
    unfolding cleanup_with_config
    cleanup_with_config-Exported writable s =
        export_if_asked-Exported writable (export_dir config.export_before_delete config.export_dir)
          s
