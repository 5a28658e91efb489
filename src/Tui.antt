-- ===== src/Tui.antt =====
-- crates/heimwatch-tui/src/app.rs and events.rs: the state of the terminal application, and what it
-- does on an event. Of the drawing only the table is modelled, in
-- Tui/Table, and a load of data is counted while its result is not in.
pub mod Snapshot
pub mod Series
pub mod Load
pub mod Tabs
pub mod Valid
pub mod Table
pub mod Shown
use heimwatch.Prelude.{
  ℕ, zero, suc, ◌+◌, ◌-◌, ◌*◌, ◌/◌, ◌%◌, min, max, Bool, true, false, not, ◌&&◌, ◌||◌, List, [],
  ◌∷◌, Option, none, some, Bytes, length, ltb, ◌==◌, if◌then◌else◌,
}
use heimwatch.Tui.Snapshot.{AppSnapshot}

pub data Tab : Type 0 where
  overview network cpu focus power : Tab

-- The place of a tab in `Tab::ALL`, and `Tab::ALL[i]`.
unfoldable pub index : Tab → ℕ
index Tab.overview = 0
index Tab.network = 1
index Tab.cpu = 2
index Tab.focus = 3
index Tab.power = 4

abbrev pub all_tabs : List Tab
all_tabs = Tab.overview ∷ Tab.network ∷ Tab.cpu ∷ Tab.focus ∷ Tab.power ∷ []

-- An index out of range, which does not occur, gives the first tab.
unfoldable pub tab_at : ℕ → List Tab → Tab
tab_at i [] = Tab.overview
tab_at zero (t ∷ ts) = t
tab_at (suc i) (t ∷ ts) = tab_at i ts

pub data KeyCode : Type 0 where
  char : ℕ → KeyCode
  up down left right tab : KeyCode
  other : ℕ → KeyCode

pub data Modifiers : Type 0 where
  plain shift control : Modifiers
  combined : ℕ → Modifiers

pub data AppEvent (F32 : Type 0) : Type 0 where
  key : KeyCode → Modifiers → AppEvent F32
  tick : AppEvent F32
  resize : ℕ → ℕ → AppEvent F32
  data_ready : AppSnapshot F32 → AppEvent F32
  data_error : Bytes → AppEvent F32

pub record App (F32 : Type 0) : Type 0 where
  pub active_tab : Tab
  pub table_scroll : ℕ
  pub visible_height : ℕ
  pub snapshot : Option (AppSnapshot F32)
  pub last_refresh : Option ℕ
  pub db_path : Bytes
  pub loading : Bool
  pub error_message : Option Bytes
  pub should_quit : Bool
  pub time_window_secs : ℕ

-- The application with the number of its loads that are under way.
pub record TuiApp (F32 : Type 0) : Type 0 where
  pub app : App F32
  pub in_flight : ℕ

abbrev pub max_secs : ℕ
max_secs = 7 * 24 * 3600

abbrev pub min_secs : ℕ
min_secs = 300

module _ {F32 : Type 0} where
  unfoldable pub new : Bytes → App F32
  new db_path = record {
    active_tab = Tab.overview;
    table_scroll = 0;
    visible_height = 10;
    snapshot = none;
    last_refresh = none;
    db_path = db_path;
    loading = false;
    error_message = none;
    should_quit = false;
    time_window_secs = 86400;
  }

  unfoldable pub next_tab : App F32 → App F32
  unfolding index tab_at
  next_tab app = record app {
    active_tab = tab_at ((index app.active_tab + 1) % length all_tabs) all_tabs;
    table_scroll = 0;
  }

  unfoldable pub prev_tab : App F32 → App F32
  unfolding index tab_at
  prev_tab app =
      let current_idx = index app.active_tab in
      record app {
        active_tab =
            tab_at (if current_idx == 0 then length all_tabs - 1 else current_idx - 1) all_tabs;
        table_scroll = 0;
      }

  unfoldable pub tab_item_count : Tab → AppSnapshot F32 → ℕ
  tab_item_count Tab.overview snap = length snap.top_cpu_apps
  tab_item_count Tab.network snap = length snap.top_net_apps
  tab_item_count Tab.cpu snap = length snap.top_cpu_apps
  tab_item_count Tab.focus snap = length snap.top_focus_apps
  tab_item_count Tab.power snap = length snap.top_power_apps

  unfoldable pub current_tab_item_count : App F32 → ℕ
  unfolding tab_item_count
  current_tab_item_count app = elim app.snapshot [
    | none ↦ 0
    | some snap ↦ tab_item_count app.active_tab snap
  ]

  unfoldable pub scroll_down : App F32 → App F32
  scroll_down app =
      if ltb app.table_scroll (current_tab_item_count app - 1)
      then record app { table_scroll = app.table_scroll + 1 }
      else app

  unfoldable pub scroll_up : App F32 → App F32
  scroll_up app = record app { table_scroll = app.table_scroll - 1 }

  unfoldable pub quit : App F32 → App F32
  quit app = record app { should_quit = true }

  unfoldable pub widen_window : App F32 → App F32
  widen_window app = record app { time_window_secs = min (app.time_window_secs * 2) max_secs }

  unfoldable pub narrow_window : App F32 → App F32
  narrow_window app = record app { time_window_secs = max (app.time_window_secs / 2) min_secs }

  unfoldable pub update_snapshot : ℕ → AppSnapshot F32 → App F32 → App F32
  update_snapshot now snapshot app = record app {
    snapshot = some snapshot;
    last_refresh = some now;
    loading = false;
    error_message = none;
    table_scroll = 0;
  }

  unfoldable pub set_error : Bytes → App F32 → App F32
  set_error error app = record app { error_message = some error; loading = false }

  -- `load_initial_data`, which `run` calls once before the loop
  unfoldable pub load_initial_data : TuiApp F32 → TuiApp F32
  load_initial_data s = record s { in_flight = s.in_flight + 1 }

  -- `if !self.app.loading { self.app.loading = true; self.load_initial_data(tx).await; }`
  unfoldable pub reload : TuiApp F32 → TuiApp F32
  unfolding load_initial_data
  reload s =
      if s.app.loading
      then s
      else load_initial_data (record s { app = record s.app { loading = true } })

  abbrev pub on_app : (App F32 → App F32) → TuiApp F32 → TuiApp F32
  on_app f s = record s { app = f s.app }

  -- The arms of the match for a character, in their order.
  unfoldable pub handle_char : ℕ → Modifiers → TuiApp F32 → TuiApp F32
  handle_char c modifiers s =
      if (c == b'q') || (c == b'Q')
      then on_app quit s
      else if (c == b'c') && elim modifiers [ Modifiers.control ↦ true | _ ↦ false ]
      then on_app quit s
      else if c == b'j'
      then on_app scroll_down s
      else if c == b'k'
      then on_app scroll_up s
      else if c == b'h'
      then on_app prev_tab s
      else if c == b'l'
      then on_app next_tab s
      else if (c == b'r') || (c == b'R')
      then reload s
      else if (c == b'+') || (c == b'=')
      then reload (on_app widen_window s)
      else if c == b'-'
      then reload (on_app narrow_window s)
      else s

  unfoldable pub handle_key : KeyCode → Modifiers → TuiApp F32 → TuiApp F32
  unfolding handle_char
  handle_key (KeyCode.char c) modifiers s = handle_char c modifiers s
  handle_key KeyCode.down modifiers s = on_app scroll_down s
  handle_key KeyCode.up modifiers s = on_app scroll_up s
  handle_key KeyCode.left modifiers s = on_app prev_tab s
  handle_key KeyCode.right modifiers s = on_app next_tab s
  handle_key KeyCode.tab Modifiers.shift s = on_app prev_tab s
  handle_key KeyCode.tab modifiers s = on_app next_tab s
  handle_key (KeyCode.other c) modifiers s = s

  -- `now` is the clock of `Local::now()`; a result ends one of the loads under way.
  unfoldable pub handle_event : ℕ → AppEvent F32 → TuiApp F32 → TuiApp F32
  unfolding handle_key
  handle_event now (AppEvent.key code modifiers) s = handle_key code modifiers s
  handle_event now AppEvent.tick s = reload s
  handle_event now (AppEvent.resize w h) s = s
  handle_event now (AppEvent.data_ready snapshot) s = record {
    app = update_snapshot now snapshot s.app;
    in_flight = s.in_flight - 1;
  }
  handle_event now (AppEvent.data_error error) s = record {
    app = set_error error s.app;
    in_flight = s.in_flight - 1;
  }
