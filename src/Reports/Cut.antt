-- ===== src/Reports/Cut.antt =====
-- When the tables of crates/heimwatch-daemon/src/snapshot.rs panic: `format_app_name` cuts a name at a
-- number of bytes.
use mathlib.Core.List.{foldl}
use heimwatch.Prelude.{
  ℕ, zero, suc, ◌≡◌, refl, ap, ◌∙◌, Bool, true, false, not, ◌&&◌, List, [], ◌∷◌, Option, none, some,
  Bytes, codes, arith, Bool-cases, inl, inr,
}
use heimwatch.Core.Floats.{Floats}
use heimwatch.Core.Text.{and_before}
use heimwatch.Core.Metrics.{MetricPayload, MetricRecord}
use heimwatch.Apps.{insert_sorted, sort_by}
use heimwatch.Reports.Format.{
  FloatFormat, continues, then_printed, printed, each, format_app_name, named_line,
}
use heimwatch.Reports.Tables.{
  table, net_row, cpu_line, disk_row, memory_row, more_cpu_time, more_disk_traffic, more_rss,
  two_columns, four_columns, net_total, cpu_total, memory_total, add_net_totals, add_cpu_totals,
  add_disk_totals, add_memory_totals, print_network_table, print_cpu_table, print_disk_table,
  print_memory_table,
}

abbrev pub is_text : Option Bytes → Bool
is_text none = false
is_text (some s) = true

abbrev pub every : {R : Type 0} → (R → Bool) → List R → Bool
every p [] = true
every p (r ∷ rs) = p r && every p rs

-- Whether no character goes on at this index of a name.
abbrev pub boundary : ℕ → Bytes → Bool
boundary n [] = true
boundary zero (b ∷ s) = not (continues b)
boundary (suc n) (b ∷ s) = boundary n s

is_text-and_before : (b : ℕ) (o : Option Bytes) → is_text (and_before b o) ≡ is_text o
is_text-and_before b none = refl
is_text-and_before b (some s) = refl

pub is_text-format_app_name : (s : Bytes) (n : ℕ) → is_text (format_app_name s n) ≡ boundary n s
unfolding format_app_name
is_text-format_app_name [] n = refl
is_text-format_app_name (b ∷ s) zero = elim (Bool-cases (continues b)) [
  | inl e ↦ rw e refl
  | inr e ↦ rw e refl
]
is_text-format_app_name (b ∷ s) (suc n) =
    is_text-and_before b (format_app_name s n) ∙ is_text-format_app_name s n

is_text-named_line :
    (s : Bytes) (n : ℕ) (text : Bytes → Bytes)
    → is_text (named_line (format_app_name s n) text) ≡ boundary n s
is_text-named_line s n text = named (format_app_name s n) ∙ is_text-format_app_name s n
  where
    named : (o : Option Bytes) → is_text (named_line o text) ≡ is_text o
    named none = refl
    named (some name) = refl

is_text-then_printed : (p q : Option Bytes) → is_text (then_printed p q) ≡ (is_text p && is_text q)
is_text-then_printed none q = refl
is_text-then_printed (some s) none = refl
is_text-then_printed (some s) (some t) = refl

module _ {R : Type 0} where
  is_text-each :
      (row : R → Option Bytes) (safe : R → Bool)
      → ((r : R) → is_text (row r) ≡ safe r)
      → (rs : List R) → is_text (each row rs) ≡ every safe rs
  unfolding each
  is_text-each row safe h [] = refl
  is_text-each row safe h (r ∷ rs) =
      is_text-then_printed (row r) (each row rs) ∙ rw (h r, is_text-each row safe h rs) refl

  every-insert_sorted :
      (safe : R → Bool) (before : R → R → Bool) (x : R) (ys : List R)
      → every safe (insert_sorted before x ys) ≡ (safe x && every safe ys)
  unfolding insert_sorted
  every-insert_sorted safe before x [] = refl
  every-insert_sorted safe before x (y ∷ ys) = elim (Bool-cases (before y x)) [
    | inr e ↦ rw e refl
    | inl e ↦
        rw (e, every) (ap (λ b. safe y && b) (every-insert_sorted safe before x ys) ∙ ground arith)
  ]

  every-sort_by :
      (safe : R → Bool) (before : R → R → Bool) (rs : List R)
      → every safe (sort_by before rs) ≡ every safe rs
  unfolding sort_by
  every-sort_by safe before [] = refl
  every-sort_by safe before (r ∷ rs) =
      every-insert_sorted safe before r (sort_by before rs)
      ∙ ap (λ b. safe r && b) (every-sort_by safe before rs)

  is_text-sorted :
      (row : R → Option Bytes) (safe : R → Bool) (before : R → R → Bool)
      → ((r : R) → is_text (row r) ≡ safe r)
      → (rs : List R) → is_text (each row (sort_by before rs)) ≡ every safe rs
  is_text-sorted row safe before h rs =
      is_text-each row safe h (sort_by before rs) ∙ every-sort_by safe before rs

is_text-table :
    (title : Bytes) (window_secs width : ℕ) (columns : Bytes) (rows : Option Bytes) (total : Bytes)
    → is_text (table title window_secs width columns rows total) ≡ is_text rows
unfolding table printed
is_text-table title window_secs width columns none total = refl
is_text-table title window_secs width columns (some s) total = refl

abbrev with_payload : {F32 : Type 0} → Bytes → ℕ → MetricPayload F32 → MetricRecord F32
with_payload app_name timestamp payload = record {
  app_name = app_name;
  timestamp = timestamp;
  payload = payload;
}

module _ (fl : Floats) (ff : FloatFormat fl) where
  -- Whether a record of this type has a name that is not cut inside a character.
  abbrev pub safe_net : MetricRecord fl.F32 → Bool
  safe_net r = elim r.payload [ MetricPayload.net d ↦ boundary 28 r.app_name | _ ↦ true ]

  abbrev pub safe_cpu : MetricRecord fl.F32 → Bool
  safe_cpu r = elim r.payload [ MetricPayload.cpu d ↦ boundary 28 r.app_name | _ ↦ true ]

  abbrev pub safe_disk : MetricRecord fl.F32 → Bool
  safe_disk r = elim r.payload [ MetricPayload.dsk d ↦ boundary 28 r.app_name | _ ↦ true ]

  abbrev pub safe_memory : MetricRecord fl.F32 → Bool
  safe_memory r = elim r.payload [ MetricPayload.mem d ↦ boundary 28 r.app_name | _ ↦ true ]

  net_row-payload :
      (a : Bytes) (t : ℕ) (p : MetricPayload fl.F32)
      → is_text (net_row fl ff (with_payload a t p)) ≡ safe_net (with_payload a t p)
  net_row-payload a t (MetricPayload.net d) = is_text-named_line a 28 _
  net_row-payload a t _ = refl

  cpu_line-payload :
      (a : Bytes) (t : ℕ) (p : MetricPayload fl.F32)
      → is_text (cpu_line fl ff (with_payload a t p)) ≡ safe_cpu (with_payload a t p)
  cpu_line-payload a t (MetricPayload.cpu d) = is_text-named_line a 28 _
  cpu_line-payload a t _ = refl

  disk_row-payload :
      (a : Bytes) (t : ℕ) (p : MetricPayload fl.F32)
      → is_text (disk_row fl ff (with_payload a t p)) ≡ safe_disk (with_payload a t p)
  disk_row-payload a t (MetricPayload.dsk d) = is_text-named_line a 28 _
  disk_row-payload a t _ = refl

  memory_row-payload :
      (a : Bytes) (t : ℕ) (p : MetricPayload fl.F32)
      → is_text (memory_row fl ff (with_payload a t p)) ≡ safe_memory (with_payload a t p)
  memory_row-payload a t (MetricPayload.mem d) = is_text-named_line a 28 _
  memory_row-payload a t _ = refl

  -- Each of the tables of traffic, of the processor, of disks and of memory is printed exactly if each
  -- record of its kind has a name of at most 28 bytes, or one in which a character ends at the 28th
  -- byte; for any other name the printing panics.
  pub print_tables_lem :
      (records : List (MetricRecord fl.F32)) (window_secs : ℕ)
      → (is_text (print_network_table fl ff records window_secs) ≡ every safe_net records)
        × (is_text (print_cpu_table fl ff records window_secs) ≡ every safe_cpu records)
        × (is_text (print_disk_table fl ff records window_secs) ≡ every safe_disk records)
        × (is_text (print_memory_table fl ff records window_secs) ≡ every safe_memory records)
  unfolding print_network_table print_cpu_table print_disk_table print_memory_table
  print_tables_lem records window_secs = (
    is_text-table (codes "Network Snapshot") window_secs 52
          (two_columns 10 (codes "App") (codes "TX") (codes "RX")) (each (net_row fl ff) records)
          (net_total fl ff (foldl (add_net_totals fl ff) (0, 0) records))
        ∙ is_text-each (net_row fl ff) safe_net
            (λ r. net_row-payload r.app_name r.timestamp r.payload) records,
    is_text-table (codes "CPU Snapshot") window_secs 70
          (two_columns 18 (codes "App") (codes "CPU Time") (codes "Usage %"))
          (each (cpu_line fl ff) (sort_by (more_cpu_time fl ff) records))
          (cpu_total fl ff (
            foldl (add_cpu_totals fl ff) (0, fl.literal_f32 0 1)
              (sort_by (more_cpu_time fl ff) records)))
        ∙ is_text-sorted (cpu_line fl ff) safe_cpu (more_cpu_time fl ff)
            (λ r. cpu_line-payload r.app_name r.timestamp r.payload) records,
    is_text-table (codes "Disk I/O Snapshot") window_secs 64
          (two_columns 10 (codes "App") (codes "Read") (codes "Write"))
          (each (disk_row fl ff) (sort_by (more_disk_traffic fl ff) records))
          (net_total fl ff
            (foldl (add_disk_totals fl ff) (0, 0) (sort_by (more_disk_traffic fl ff) records)))
        ∙ is_text-sorted (disk_row fl ff) safe_disk (more_disk_traffic fl ff)
            (λ r. disk_row-payload r.app_name r.timestamp r.payload) records,
    is_text-table (codes "Memory Usage Snapshot") window_secs 80
          (four_columns (codes "App") (codes "RSS") (codes "VMS") (codes "Swap") (codes "Procs"))
          (each (memory_row fl ff) (sort_by (more_rss fl ff) records))
          (memory_total fl ff
            (foldl (add_memory_totals fl ff) (0, 0, 0) (sort_by (more_rss fl ff) records)))
        ∙ is_text-sorted (memory_row fl ff) safe_memory (more_rss fl ff)
            (λ r. memory_row-payload r.app_name r.timestamp r.payload) records,
  )
