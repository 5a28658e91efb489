-- ===== src/Tui/Tabs.antt =====
-- The order of the tabs in crates/heimwatch-tui/src/app.rs.
use heimwatch.Prelude.{◌+◌, ◌-◌, ◌%◌, ◌≡◌, refl, ap, length, ◌==◌, if◌then◌else◌}
use heimwatch.Tui.{Tab, all_tabs, index, tab_at, App, next_tab, prev_tab}

abbrev following : Tab → Tab
following t = tab_at ((index t + 1) % length all_tabs) all_tabs

abbrev preceding : Tab → Tab
preceding t = tab_at (if index t == 0 then length all_tabs - 1 else index t - 1) all_tabs

round : (t : Tab) → (preceding (following t) ≡ t) × (following (preceding t) ≡ t)
unfolding index tab_at
round Tab.overview = (refl, refl)
round Tab.network = (refl, refl)
round Tab.cpu = (refl, refl)
round Tab.focus = (refl, refl)
round Tab.power = (refl, refl)

module _ {F32 : Type 0} where
  -- `prev_tab` undoes `next_tab`, and the other way round, up to the selected row, which both reset.
  prev_tab-next_tab :
      (app : App F32)
      → (prev_tab (next_tab app) ≡ record app { table_scroll = 0 })
        × (next_tab (prev_tab app) ≡ record app { table_scroll = 0 })
  unfolding prev_tab next_tab
  prev_tab-next_tab app =
      let (back, forth) = round app.active_tab in
      let at : Tab → App F32 = λ t. record app { active_tab = t; table_scroll = 0 } in
      (ap at back, ap at forth)
