-- ===== src/Tui/Table.antt =====
-- crates/heimwatch-tui/src/ui/table.rs: the table of the active tab, as the texts of its cells. A cell
-- whose name is cut inside a character is a panic, `none`. The widths are percentages; drawing the
-- table on a frame is left to ratatui.
use heimwatch.Prelude.{
  ℕ, ◌+◌, ◌-◌, ◌/◌, ◌%◌, min, max, Bool, false, List, [], ◌∷◌, ◌++◌, Option, none, some, Bytes,
  codes, eq_bytes, ltb, ◌==◌, if◌then◌else◌, length, take, wrap64,
}
use heimwatch.Keys.Decimal.{to_decimal}
use heimwatch.Core.Floats.{Floats}
use heimwatch.Core.Metrics.{AppNetworkStats, AppFocusStats, AppPowerStats}
use heimwatch.Apps.Tables.{drop}
use heimwatch.Reports.Format.{FloatFormat, format_app_name, joined}
use heimwatch.Tui.Snapshot.{AppCpuStats, AppSnapshot}
use heimwatch.Tui.{App, Tab, current_tab_item_count}

-- A row of a table, and whether it is marked.
pub record Row : Type 0 where
  pub cells : List Bytes
  pub selected : Bool

pub record TableView : Type 0 where
  pub header : List Bytes
  pub rows : List Row
  pub title : Bytes
  pub column_widths : List ℕ

abbrev pub with_ellipsis : Option Bytes → Option Bytes
with_ellipsis none = none
with_ellipsis (some s) = some (s ++ (0xe2 ∷ 0x80 ∷ 0xa6 ∷ []))

-- A text of at most so many bytes, or its start and `…`.
unfoldable pub truncate : Bytes → ℕ → Option Bytes
unfolding format_app_name
truncate s max_len =
    if ltb max_len (length s) then with_ellipsis (format_app_name s (max_len - 1)) else some s

unfoldable pub format_duration_ms : ℕ → Bytes
format_duration_ms ms =
    let seconds = ms / 1000 in
    let minutes = seconds / 60 in
    let hours = minutes / 60 in
    let days = hours / 24 in
    if ltb 0 days
    then to_decimal days ++ codes " days"
    else if ltb 0 hours
    then joined (to_decimal hours ∷ codes "h " ∷ to_decimal (minutes % 60) ∷ codes "m" ∷ [])
    else if ltb 0 minutes
    then to_decimal minutes ++ codes "m"
    else to_decimal seconds ++ codes "s"

unfoldable pub cpu_time_str : ℕ → Bytes
cpu_time_str cpu_time_ns =
    let cpu_time_secs = cpu_time_ns / 1000000000 in
    if ltb cpu_time_secs 60
    then to_decimal cpu_time_secs ++ codes "s"
    else if ltb cpu_time_secs 3600
    then to_decimal (cpu_time_secs / 60) ++ codes "m"
    else to_decimal (cpu_time_secs / 3600) ++ codes "h"

-- The cells of a row after the name.
abbrev pub row_of : Option Bytes → List Bytes → Bool → Option Row
row_of none cells selected = none
row_of (some name) cells selected = some (record { cells = name ∷ cells; selected = selected })

abbrev pub then_rows : Option Row → Option (List Row) → Option (List Row)
then_rows none rows = none
then_rows (some r) none = none
then_rows (some r) (some rs) = some (r ∷ rs)

-- The rows of some entries; the first is marked if it is asked for.
unfoldable pub rows_of : {A : Type 0} → (A → Bool → Option Row) → Bool → List A → Option (List Row)
rows_of row mark [] = some []
rows_of row mark (a ∷ as_) = then_rows (row a mark) (rows_of row false as_)

-- `skip(scroll).take(visible_height)`, where the first row is marked.
unfoldable pub visible_rows :
    {A : Type 0} → (A → Bool → Option Row) → ℕ → ℕ → List A → Option (List Row)
unfolding rows_of
visible_rows row scroll visible_height entries =
    rows_of row (ltb scroll (length entries)) (take visible_height (drop scroll entries))

-- The traffic of the first entry of that name, or none.
abbrev pub traffic_for : Bytes → List AppNetworkStats → ℕ × ℕ
traffic_for name [] = (0, 0)
traffic_for name (n ∷ ns) =
    let rest = traffic_for name ns in
    if eq_bytes n.app_name name then (n.tx_bytes, n.rx_bytes) else rest

abbrev pub focus_table_row : AppFocusStats → Bool → Option Row
focus_table_row app selected =
    row_of (truncate app.app_name 28) (format_duration_ms app.total_duration_ms ∷ []) selected

unfoldable pub build_focus_table :
    {F32 : Type 0} → AppSnapshot F32 → ℕ → ℕ → Option (List Row) × Bytes × List ℕ
unfolding visible_rows truncate format_duration_ms
build_focus_table snapshot scroll visible_height = (
  visible_rows focus_table_row scroll visible_height snapshot.top_focus_apps,
  codes "Focus",
  60 ∷ 40 ∷ [],
)

unfoldable pub header_of : Tab → List Bytes
header_of Tab.overview = codes "App" ∷ codes "CPU" ∷ codes "Memory" ∷ codes "Network" ∷ []
header_of Tab.network = codes "App" ∷ codes "TX" ∷ codes "RX" ∷ codes "Total" ∷ []
header_of Tab.cpu = codes "App" ∷ codes "CPU %" ∷ codes "Threads" ∷ codes "CPU Time" ∷ []
header_of Tab.focus = codes "App" ∷ codes "Duration" ∷ []
header_of Tab.power =
    codes "App" ∷ codes "Power %" ∷ codes "CPU" ∷ codes "GPU" ∷ codes "Display" ∷ codes "Disk" ∷ []

-- `↑` and `↓`
abbrev pub up_arrow : Bytes
up_arrow = 0xe2 ∷ 0x86 ∷ 0x91 ∷ []

abbrev pub down_arrow : Bytes
down_arrow = 0xe2 ∷ 0x86 ∷ 0x93 ∷ []

abbrev pub title_str : Bytes → ℕ → ℕ → Bytes
title_str title table_scroll total_count =
    if total_count == 0
    then joined (codes " " ∷ title ∷ codes " (no data) " ∷ [])
    else joined (
        codes " "
        ∷ title
        ∷ codes " ("
        ∷ up_arrow
        ∷ down_arrow
        ∷ codes " "
        ∷ to_decimal (min table_scroll (total_count - 1))
        ∷ codes "/"
        ∷ to_decimal total_count
        ∷ codes ") "
        ∷ [])

module _ (fl : Floats) (ff : FloatFormat fl) where
  open fl use {F32}

  abbrev pub tenths : ℕ → ℕ → Bytes
  tenths bytes unit = ff.fixed_f64 1 (fl.div_f64 (fl.f64_of_u64 bytes) (fl.f64_of_u64 unit))

  unfoldable pub short_bytes : ℕ → Bytes
  short_bytes bytes =
      if ltb bytes 1024
      then to_decimal bytes ++ codes " B"
      else if ltb bytes 1048576
      then tenths bytes 1024 ++ codes " KB"
      else if ltb bytes 1073741824
      then tenths bytes 1048576 ++ codes " MB"
      else tenths bytes 1073741824 ++ codes " GB"

  -- `{:.1}%`
  abbrev pub pct : F32 → Bytes
  pct p = ff.fixed_f32 1 p ++ codes "%"

  unfoldable pub overview_row : AppSnapshot F32 → AppCpuStats F32 → Bool → Option Row
  unfolding truncate short_bytes
  overview_row snapshot cpu_stats selected =
      let traffic = traffic_for cpu_stats.app_name snapshot.top_net_apps in
      let memory_mb = snapshot.current_ram_mb / max (length snapshot.top_cpu_apps) 1 in
      row_of (truncate cpu_stats.app_name 22)
        (pct cpu_stats.cpu_usage_percent
          ∷ (to_decimal memory_mb ++ codes "MB")
          ∷ joined (
              up_arrow
              ∷ short_bytes traffic.0
              ∷ codes " "
              ∷ down_arrow
              ∷ short_bytes traffic.1
              ∷ [])
          ∷ [])
        selected

  unfoldable pub build_overview_table : AppSnapshot F32 → ℕ → ℕ → Option (List Row) × Bytes × List ℕ
  unfolding visible_rows overview_row
  build_overview_table snapshot scroll visible_height = (
    visible_rows (overview_row snapshot) scroll visible_height snapshot.top_cpu_apps,
    codes "Applications",
    30 ∷ 15 ∷ 15 ∷ 40 ∷ [],
  )

  abbrev pub network_table_row : AppNetworkStats → Bool → Option Row
  network_table_row app selected =
      row_of (truncate app.app_name 28)
        (short_bytes app.tx_bytes
          ∷ short_bytes app.rx_bytes
          ∷ short_bytes (wrap64 (app.tx_bytes + app.rx_bytes))
          ∷ [])
        selected

  unfoldable pub build_network_table : AppSnapshot F32 → ℕ → ℕ → Option (List Row) × Bytes × List ℕ
  unfolding visible_rows truncate short_bytes
  build_network_table snapshot scroll visible_height = (
    visible_rows network_table_row scroll visible_height snapshot.top_net_apps,
    codes "Network",
    40 ∷ 20 ∷ 20 ∷ 20 ∷ [],
  )

  abbrev pub cpu_table_row : AppCpuStats F32 → Bool → Option Row
  cpu_table_row cpu_stats selected =
      row_of (truncate cpu_stats.app_name 22)
        (pct cpu_stats.cpu_usage_percent
          ∷ to_decimal cpu_stats.thread_count
          ∷ cpu_time_str cpu_stats.cpu_time_ns
          ∷ [])
        selected

  unfoldable pub build_cpu_table : AppSnapshot F32 → ℕ → ℕ → Option (List Row) × Bytes × List ℕ
  unfolding visible_rows truncate cpu_time_str
  build_cpu_table snapshot scroll visible_height = (
    visible_rows cpu_table_row scroll visible_height snapshot.top_cpu_apps,
    codes "CPU",
    40 ∷ 20 ∷ 20 ∷ 20 ∷ [],
  )

  abbrev pub power_table_row : AppPowerStats F32 → Bool → Option Row
  power_table_row app selected =
      row_of (truncate app.app_name 15)
        (pct app.power_pct
          ∷ pct app.cpu_contribution
          ∷ pct app.gpu_contribution
          ∷ pct app.display_contribution
          ∷ pct app.disk_contribution
          ∷ [])
        selected

  unfoldable pub build_power_table : AppSnapshot F32 → ℕ → ℕ → Option (List Row) × Bytes × List ℕ
  unfolding visible_rows truncate
  build_power_table snapshot scroll visible_height = (
    visible_rows power_table_row scroll visible_height snapshot.top_power_apps,
    codes "Power",
    35 ∷ 13 ∷ 13 ∷ 13 ∷ 13 ∷ 13 ∷ [],
  )

  unfoldable pub build_table : App F32 → AppSnapshot F32 → Option (List Row) × Bytes × List ℕ
  unfolding build_overview_table build_network_table build_cpu_table build_focus_table
      build_power_table
  build_table app snapshot = elim app.active_tab [
    | Tab.overview ↦ build_overview_table snapshot app.table_scroll app.visible_height
    | Tab.network ↦ build_network_table snapshot app.table_scroll app.visible_height
    | Tab.cpu ↦ build_cpu_table snapshot app.table_scroll app.visible_height
    | Tab.focus ↦ build_focus_table snapshot app.table_scroll app.visible_height
    | Tab.power ↦ build_power_table snapshot app.table_scroll app.visible_height
  ]

  abbrev pub view_of : App F32 → Option (List Row) × Bytes × List ℕ → Option TableView
  view_of app (none, title, column_widths) = none
  view_of app (some rows, title, column_widths) = some (record {
    header = header_of app.active_tab;
    rows = rows;
    title = title_str title app.table_scroll (current_tab_item_count app);
    column_widths = column_widths;
  })

  -- The application with the height of the area, and the table that it draws there.
  unfoldable pub draw_table : App F32 → ℕ → App F32 × Option TableView
  unfolding build_table header_of current_tab_item_count
  draw_table app0 area_height =
      let app = record app0 { visible_height = area_height - 3 } in
      (
        app,
        elim app.snapshot [
          | none ↦ view_of app (some [], codes "Applications", [])
          | some snapshot ↦ view_of app (build_table app snapshot)
        ],
      )
