-- ===== src/Tui/Valid.antt =====
-- What holds of the terminal application of crates/heimwatch-tui/src in every state that it reaches.
use heimwatch.Prelude.{
  ℕ, ◌-◌, ◌≤◌, ◌≡◌, refl, Bool, true, false, ◌||◌, arith, Bytes, ltb, ◌==◌, if◌then◌else◌,
  Bool-cases, inl, inr,
}
use heimwatch.Tui.{
  App, AppEvent, KeyCode, Modifiers, TuiApp, max_secs, min_secs, new, next_tab, prev_tab,
  current_tab_item_count, scroll_down, scroll_up, quit, widen_window, narrow_window,
  update_snapshot, set_error, load_initial_data, reload, on_app, handle_char, handle_key,
  handle_event,
}

-- The loads that may be under way: the first one, and the one that `loading` stands for.
abbrev pub loads_of : Bool → ℕ
loads_of loading = if loading then 2 else 1

-- A load that ends takes `loading` back with it.
one_less : (n : ℕ) (loading : Bool) → n ≤ loads_of loading → n - 1 ≤ 1
one_less n true h = omega arith
one_less n false h = omega arith

module _ {F32 : Type 0} where
  -- The window is between five minutes and seven days, and the selected row is in the table.
  pub record Fits (app : App F32) : Type 0 where
    pub wide : min_secs ≤ app.time_window_secs
    pub narrow : app.time_window_secs ≤ max_secs
    pub row : app.table_scroll ≤ current_tab_item_count app - 1

  pub record IsValid (s : TuiApp F32) : Type 0 where
    pub fits : Fits s.app
    pub loads : s.in_flight ≤ loads_of s.app.loading

  Fits-next_tab : (app : App F32) → Fits app → Fits (next_tab app)
  unfolding next_tab current_tab_item_count
  Fits-next_tab app h = record { wide = h.wide; narrow = h.narrow; row = omega arith }

  Fits-prev_tab : (app : App F32) → Fits app → Fits (prev_tab app)
  unfolding prev_tab current_tab_item_count
  Fits-prev_tab app h = record { wide = h.wide; narrow = h.narrow; row = omega arith }

  Fits-scroll_down : (app : App F32) → Fits app → Fits (scroll_down app)
  unfolding scroll_down current_tab_item_count
  Fits-scroll_down app h =
      elim (Bool-cases (ltb app.table_scroll (current_tab_item_count app - 1))) [
        | inl e ↦ rw e (record { wide = h.wide; narrow = h.narrow; row = ground arith })
        | inr e ↦ rw e h
      ]

  Fits-scroll_up : (app : App F32) → Fits app → Fits (scroll_up app)
  unfolding scroll_up current_tab_item_count
  Fits-scroll_up app h = record { wide = h.wide; narrow = h.narrow; row = omega (arith, h.row) }

  Fits-quit : (app : App F32) → Fits app → Fits (quit app)
  unfolding quit current_tab_item_count
  Fits-quit app h = record { wide = h.wide; narrow = h.narrow; row = h.row }

  Fits-widen_window : (app : App F32) → Fits app → Fits (widen_window app)
  unfolding widen_window current_tab_item_count
  Fits-widen_window app h = record {
    wide = omega (arith, h.wide);
    narrow = omega arith;
    row = h.row;
  }

  Fits-narrow_window : (app : App F32) → Fits app → Fits (narrow_window app)
  unfolding narrow_window current_tab_item_count
  Fits-narrow_window app h = record {
    wide = omega arith;
    narrow = omega (arith, h.narrow);
    row = h.row;
  }

  IsValid-on_app :
      (f : App F32 → App F32) (s : TuiApp F32)
      → (f s.app).loading ≡ s.app.loading
      → Fits (f s.app)
      → IsValid s
      → IsValid (on_app f s)
  IsValid-on_app f s same fits h = record { fits = fits; loads = rw same h.loads }

  IsValid-reload : (s : TuiApp F32) → IsValid s → IsValid (reload s)
  unfolding reload load_initial_data current_tab_item_count
  IsValid-reload s h = elim (Bool-cases s.app.loading) [
    | inl e ↦
        let some_loads : s.in_flight ≤ 2 = rw e at h.loads in
        rw e (record {
          fits = record { wide = h.fits.wide; narrow = h.fits.narrow; row = h.fits.row };
          loads = some_loads;
        })
    | inr e ↦
        let few : s.in_flight ≤ 1 = rw e at h.loads in
        rw e (record {
          fits = record { wide = h.fits.wide; narrow = h.fits.narrow; row = h.fits.row };
          loads = omega arith;
        })
  ]

  loading-scroll_down : (app : App F32) → (scroll_down app).loading ≡ app.loading
  unfolding scroll_down
  loading-scroll_down app =
      elim (Bool-cases (ltb app.table_scroll (current_tab_item_count app - 1))) [
        | inl e ↦ rw e refl
        | inr e ↦ rw e refl
      ]

  IsValid-scroll_down : (s : TuiApp F32) → IsValid s → IsValid (on_app scroll_down s)
  IsValid-scroll_down s h =
      IsValid-on_app scroll_down s (loading-scroll_down s.app) (Fits-scroll_down s.app h.fits) h

  IsValid-scroll_up : (s : TuiApp F32) → IsValid s → IsValid (on_app scroll_up s)
  unfolding scroll_up
  IsValid-scroll_up s h = IsValid-on_app scroll_up s refl (Fits-scroll_up s.app h.fits) h

  IsValid-prev_tab : (s : TuiApp F32) → IsValid s → IsValid (on_app prev_tab s)
  unfolding prev_tab
  IsValid-prev_tab s h = IsValid-on_app prev_tab s refl (Fits-prev_tab s.app h.fits) h

  IsValid-next_tab : (s : TuiApp F32) → IsValid s → IsValid (on_app next_tab s)
  unfolding next_tab
  IsValid-next_tab s h = IsValid-on_app next_tab s refl (Fits-next_tab s.app h.fits) h

  IsValid-quit : (s : TuiApp F32) → IsValid s → IsValid (on_app quit s)
  unfolding quit
  IsValid-quit s h = IsValid-on_app quit s refl (Fits-quit s.app h.fits) h

  IsValid-widen_window : (s : TuiApp F32) → IsValid s → IsValid (on_app widen_window s)
  unfolding widen_window
  IsValid-widen_window s h = IsValid-on_app widen_window s refl (Fits-widen_window s.app h.fits) h

  IsValid-narrow_window : (s : TuiApp F32) → IsValid s → IsValid (on_app narrow_window s)
  unfolding narrow_window
  IsValid-narrow_window s h =
      IsValid-on_app narrow_window s refl (Fits-narrow_window s.app h.fits) h

  IsValid-if : (b : Bool) (s t : TuiApp F32) → IsValid s → IsValid t → IsValid (if b then s else t)
  IsValid-if true s t h k = h
  IsValid-if false s t h k = k

  IsValid-handle_char :
      (c : ℕ) (modifiers : Modifiers) (s : TuiApp F32)
      → IsValid s
      → IsValid (handle_char c modifiers s)
  unfolding handle_char
  IsValid-handle_char c modifiers s h =
      IsValid-if ((c == b'q') || (c == b'Q')) _ _ (IsValid-quit s h) (
        IsValid-if _ _ _ (IsValid-quit s h) (
          IsValid-if _ _ _ (IsValid-scroll_down s h) (
            IsValid-if _ _ _ (IsValid-scroll_up s h) (
              IsValid-if _ _ _ (IsValid-prev_tab s h) (
                IsValid-if _ _ _ (IsValid-next_tab s h) (
                  IsValid-if _ _ _ (IsValid-reload s h) (
                    IsValid-if _ _ _ (IsValid-reload _ (IsValid-widen_window s h))
                      (IsValid-if _ _ _ (IsValid-reload _ (IsValid-narrow_window s h)) h))))))))

  IsValid-handle_key :
      (code : KeyCode) (modifiers : Modifiers) (s : TuiApp F32)
      → IsValid s
      → IsValid (handle_key code modifiers s)
  unfolding handle_key
  IsValid-handle_key (KeyCode.char c) modifiers s h = IsValid-handle_char c modifiers s h
  IsValid-handle_key KeyCode.down modifiers s h = IsValid-scroll_down s h
  IsValid-handle_key KeyCode.up modifiers s h = IsValid-scroll_up s h
  IsValid-handle_key KeyCode.left modifiers s h = IsValid-prev_tab s h
  IsValid-handle_key KeyCode.right modifiers s h = IsValid-next_tab s h
  IsValid-handle_key KeyCode.tab Modifiers.shift s h = IsValid-prev_tab s h
  IsValid-handle_key KeyCode.tab modifiers s h = IsValid-next_tab s h
  IsValid-handle_key (KeyCode.other c) modifiers s h = h

  pub IsValid-handle_event :
      (now : ℕ) (e : AppEvent F32) (s : TuiApp F32) → IsValid s → IsValid (handle_event now e s)
  unfolding handle_event update_snapshot set_error current_tab_item_count
  IsValid-handle_event now (AppEvent.key code modifiers) s h = IsValid-handle_key code modifiers s h
  IsValid-handle_event now AppEvent.tick s h = IsValid-reload s h
  IsValid-handle_event now (AppEvent.resize w height) s h = h
  IsValid-handle_event now (AppEvent.data_ready snapshot) s h = record {
    fits = record { wide = h.fits.wide; narrow = h.fits.narrow; row = omega arith };
    loads = one_less s.in_flight s.app.loading h.loads;
  }
  IsValid-handle_event now (AppEvent.data_error error) s h = record {
    fits = record { wide = h.fits.wide; narrow = h.fits.narrow; row = h.fits.row };
    loads = one_less s.in_flight s.app.loading h.loads;
  }

  -- The states that `run` reaches: after its first load, and after each event.
  pub data Reachable : TuiApp F32 → Type 0 where
    started :
        (db_path : Bytes)
        → Reachable (load_initial_data (record { app = new db_path; in_flight = 0 }))
    handled :
        (now : ℕ) (e : AppEvent F32) (s : TuiApp F32)
        → Reachable s
        → Reachable (handle_event now e s)

  -- In every state that the application reaches, the time window is between five minutes and seven
  -- days, the selected row lies in the table (or is the first), and at most one load is under way
  -- besides the one that `loading` marks.
  pub Reachable-IsValid : (s : TuiApp F32) → Reachable s → IsValid s
  unfolding load_initial_data new current_tab_item_count
  Reachable-IsValid s (Reachable.started db_path) = record {
    fits = record { wide = omega arith; narrow = omega arith; row = omega arith };
    loads = omega arith;
  }
  Reachable-IsValid s (Reachable.handled now e t r) =
      IsValid-handle_event now e t (Reachable-IsValid t r)
