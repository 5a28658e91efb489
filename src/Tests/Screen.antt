-- ===== src/Tests/Screen.antt =====
-- The table of the terminal application on a small snapshot.
use heimwatch.Prelude.{ℕ, ◌≡◌, ◌⊎◌, refl, true, false, [], ◌∷◌, map, none, some, Bytes, codes, ◌-◌}
use heimwatch.Keys.Decimal.{to_decimal, digits}
use heimwatch.Core.Metrics.{AppNetworkStats}
use heimwatch.Reports.Format.{repeated}
use heimwatch.Reports.Cut.{every}
use heimwatch.Tui.Snapshot.{AppSnapshot}
use heimwatch.Tui.{App, Tab}
use heimwatch.Tui.Table.{TableView, draw_table, format_duration_ms}
use heimwatch.Tui.Shown.{
  fits, name_width, visible_names, first_cell, shortened, is_selected, marks, draw_table_lem,
}
use heimwatch.Tests.World.{whole}
use heimwatch.Tests.Reports.{digits_of}

abbrev stats : Bytes → AppNetworkStats
stats app_name = record { app_name = app_name; tx_bytes = 2048; rx_bytes = 5 }

abbrev long_name : Bytes
long_name = repeated 30 (codes "a")

abbrev loaded : AppSnapshot ℕ
loaded = record {
  cpu_series = [];
  mem_series = [];
  net_tx_series = [];
  net_rx_series = [];
  current_cpu_pct = 3;
  current_ram_mb = 100;
  current_net_tx = 0;
  current_net_rx = 0;
  battery_pct = none;
  charging = false;
  watt_usage = 0;
  top_net_apps =
      stats (codes "code") ∷ stats (codes "ssh") ∷ stats long_name ∷ stats (codes "zen") ∷ [];
  top_focus_apps = [];
  top_power_apps = [];
  top_cpu_apps = [];
}

abbrev screen : App ℕ
screen = record {
  active_tab = Tab.network;
  table_scroll = 1;
  visible_height = 20;
  snapshot = some loaded;
  last_refresh = none;
  db_path = codes "db";
  loading = false;
  error_message = none;
  should_quit = false;
  time_window_secs = 3600;
}

draw_table_lem_example :
    ((every
          (fits (name_width screen.active_tab))
          (visible_names screen.active_tab screen.table_scroll (5 - 3) loaded)
        ≡ true)
      × (view : TableView) × ((draw_table whole digits_of screen 5).1 ≡ some view)
      × (map first_cell view.rows
          ≡ map
              (shortened (name_width screen.active_tab))
              (visible_names screen.active_tab screen.table_scroll (5 - 3) loaded))
      × (map is_selected view.rows
          ≡ marks true (visible_names screen.active_tab screen.table_scroll (5 - 3) loaded)))
    ⊎ ((every
            (fits (name_width screen.active_tab))
            (visible_names screen.active_tab screen.table_scroll (5 - 3) loaded)
          ≡ false)
        × ((draw_table whole digits_of screen 5).1 ≡ none))
draw_table_lem_example = draw_table_lem whole digits_of screen 5 loaded refl

two_names : visible_names Tab.network 1 2 loaded ≡ codes "ssh" ∷ long_name ∷ []
two_names = refl

durations :
    map format_duration_ms (59000 ∷ 61000 ∷ 7260000 ∷ 90000000 ∷ [])
    ≡ codes "59s" ∷ codes "1m" ∷ codes "2h 1m" ∷ codes "1 days" ∷ []
unfolding format_duration_ms to_decimal digits
durations = refl
