-- ===== src/Collector/Gpu/Fdinfo.antt =====
-- crates/heimwatch-collector/src/gpu/linux/fdinfo.rs: what each process has used of each GPU, from the
-- files /proc/<pid>/fdinfo/<fd>.
use heimwatch.Prelude.{
  ℕ, ◌*◌, Bool, true, false, ◌&&◌, List, [], ◌∷◌, ◌++◌, map, max, Option, none, some, Bytes, codes,
  eq_bytes, leb, if◌then◌else◌, wrap64, saturating_add,
}
use mathlib.Core.List.{foldl}
use heimwatch.Keys.Decimal.{to_decimal}
use heimwatch.Core.Text.{lines, trim, strip_prefix, strip_suffix, is_empty, parse_nat, parse_u32}
use heimwatch.Core.Files.{FileSystem, join_path}
use heimwatch.Apps.{HashOrder, entry}
use heimwatch.Collector.{from_utf8_lossy}
use heimwatch.Collector.Gpu.Sysfs.{is_some}

pub record DrmFdStats : Type 0 where
  pub pdev : Bytes
  pub engine_gfx_ns : Option ℕ
  pub cycles_gfx : Option ℕ
  pub total_cycles_gfx : Option ℕ
  pub memory_vram_bytes : Option ℕ

pub record ProcessGpuStats : Type 0 where
  pub pdev : Bytes
  pub engine_time : ℕ
  pub total_cycles : ℕ
  pub is_cycles_schema : Bool
  pub vram_bytes : ℕ

-- The number before a unit, times the unit, as a release build multiplies.
abbrev pub scaled_size : ℕ → Bytes → Option ℕ
scaled_size scale num_str = elim (parse_nat (trim num_str)) [
  | none ↦ none
  | some n ↦ some (wrap64 (n * scale))
]

unfoldable pub parse_memory_size : Bytes → Option ℕ
parse_memory_size text =
    let s = trim text in
    elim (strip_suffix (codes " KiB") s) [
      | some num_str ↦ scaled_size 1024 num_str
      | none ↦ elim (strip_suffix (codes " MiB") s) [
        | some num_str ↦ scaled_size 1048576 num_str
        | none ↦ elim (strip_suffix (codes " GiB") s) [
          | some num_str ↦ scaled_size 1073741824 num_str
          | none ↦ parse_nat s
        ]
      ]
    ]

abbrev pub no_stats : DrmFdStats
no_stats = record {
  pdev = [];
  engine_gfx_ns = none;
  cycles_gfx = none;
  total_cycles_gfx = none;
  memory_vram_bytes = none;
}

-- A value without ` ns` leaves the field; a number that does not parse empties it.
abbrev pub set_engine : Option Bytes → DrmFdStats → DrmFdStats
set_engine none st = st
set_engine (some ns_str) st = record st { engine_gfx_ns = parse_nat (trim ns_str) }

-- One line of a file.
unfoldable pub read_drm_line : DrmFdStats → Bytes → DrmFdStats
unfolding parse_memory_size
read_drm_line st line = elim (strip_prefix (codes "drm-pdev:\t") line) [
  | some val ↦ record st { pdev = trim val }
  | none ↦ elim (strip_prefix (codes "drm-engine-gfx:\t") line) [
    | some val ↦ set_engine (strip_suffix (codes " ns") val) st
    | none ↦ elim (strip_prefix (codes "drm-cycles-gfx:\t") line) [
      | some val ↦ record st { cycles_gfx = parse_nat (trim val) }
      | none ↦ elim (strip_prefix (codes "drm-total-cycles-gfx:\t") line) [
        | some val ↦ record st { total_cycles_gfx = parse_nat (trim val) }
        | none ↦ elim (strip_prefix (codes "drm-memory-vram:\t") line) [
          | some val ↦ record st { memory_vram_bytes = parse_memory_size val }
          | none ↦ st
        ]
      ]
    ]
  ]
]

unfoldable pub parse_drm_fdinfo : Bytes → Option DrmFdStats
unfolding read_drm_line
parse_drm_fdinfo contents =
    let st = foldl read_drm_line no_stats (lines contents) in
    if is_empty st.pdev then none else some st

abbrev pub u64_or_zero : Option ℕ → ℕ
u64_or_zero none = 0
u64_or_zero (some n) = n

-- `engine_gfx_ns.or(cycles_gfx).unwrap_or_default()`
abbrev pub engine_time_of : DrmFdStats → ℕ
engine_time_of st = elim st.engine_gfx_ns [ none ↦ u64_or_zero st.cycles_gfx | some ns ↦ ns ]

abbrev pub new_process : DrmFdStats → ProcessGpuStats
new_process st = record {
  pdev = st.pdev;
  engine_time = 0;
  total_cycles = 0;
  is_cycles_schema = is_some st.cycles_gfx;
  vram_bytes = 0;
}

-- `if let Some(n) = number { value = change(value, n) }`
abbrev pub changed_by : (ℕ → ℕ → ℕ) → ℕ → Option ℕ → ℕ
changed_by change value none = value
changed_by change value (some n) = change value n

abbrev pub add_fd : DrmFdStats → ProcessGpuStats → ProcessGpuStats
add_fd st p = record p {
  engine_time = saturating_add p.engine_time (engine_time_of st);
  total_cycles = changed_by max p.total_cycles st.total_cycles_gfx;
  vram_bytes = changed_by saturating_add p.vram_bytes st.memory_vram_bytes;
}

abbrev pub has_name : Bytes → List Bytes → Bool
has_name k [] = false
has_name k (j ∷ js) = let rest = has_name k js in if eq_bytes j k then true else rest

abbrev pub count_fd :
    List Bytes → Option DrmFdStats → List (Bytes × ProcessGpuStats) → List (Bytes × ProcessGpuStats)
count_fd known_pdevs none by_pdev = by_pdev
count_fd known_pdevs (some st) by_pdev =
    if has_name st.pdev known_pdevs
    then entry (new_process st) (add_fd st) st.pdev by_pdev
    else by_pdev

abbrev pub drm_of : Option Bytes → Option DrmFdStats
drm_of none = none
drm_of (some contents) = parse_drm_fdinfo contents

-- The entries of the files that can be read, by GPU.
unfoldable pub count_fds :
    FileSystem
    → List Bytes
    → Bytes
    → List (Bytes × ProcessGpuStats)
    → List Bytes
    → List (Bytes × ProcessGpuStats)
unfolding parse_drm_fdinfo entry
count_fds fs known_pdevs dir by_pdev [] = by_pdev
count_fds fs known_pdevs dir by_pdev (name ∷ names) =
    count_fds fs known_pdevs dir
      (count_fd known_pdevs (drm_of (fs.read_to_string (join_path dir name))) by_pdev) names

-- `format!("/proc/{}/file", pid)`
abbrev pub proc_path : ℕ → Bytes → Bytes
proc_path pid file = codes "/proc/" ++ (to_decimal pid ++ (b'/' ∷ file))

unfoldable pub app_name_of : FileSystem → ℕ → Bytes
app_name_of fs pid = elim (fs.read_to_string (proc_path pid (codes "comm"))) [
  | some content ↦ trim content
  | none ↦ codes "pid:" ++ to_decimal pid
]

abbrev pub all_digits : Bytes → Bool
all_digits [] = true
all_digits (c ∷ s) = leb b'0' c && leb c b'9' && all_digits s

abbrev pub listed : Option (List Bytes) → List Bytes
listed none = []
listed (some names) = names

abbrev pub with_process : ℕ → Bytes → Bytes × ProcessGpuStats → ℕ × Bytes × ProcessGpuStats
with_process pid app_name (pdev, stats) = (pid, app_name, stats)

-- What an entry of /proc adds to the result.
unfoldable pub scan_entry :
    HashOrder → FileSystem → List Bytes → Bytes → List (ℕ × Bytes × ProcessGpuStats)
unfolding count_fds app_name_of
scan_entry o fs known_pdevs name =
    let name_str = from_utf8_lossy name in
    if all_digits name_str
    then (elim (parse_u32 name_str) [
      | none ↦ []
      | some pid ↦
          let dir = proc_path pid (codes "fdinfo") in
          map (with_process pid (app_name_of fs pid))
            (o.order (count_fds fs known_pdevs dir [] (listed (fs.read_dir dir))))
    ])
    else []

unfoldable pub scan_entries :
    HashOrder → FileSystem → List Bytes → List Bytes → List (ℕ × Bytes × ProcessGpuStats)
unfolding scan_entry
scan_entries o fs known_pdevs [] = []
scan_entries o fs known_pdevs (name ∷ names) =
    scan_entry o fs known_pdevs name ++ scan_entries o fs known_pdevs names

unfoldable pub scan_proc_fdinfo :
    HashOrder → FileSystem → List Bytes → List (ℕ × Bytes × ProcessGpuStats)
unfolding scan_entries
scan_proc_fdinfo o fs known_pdevs =
    scan_entries o fs known_pdevs (listed (fs.read_dir (codes "/proc")))
