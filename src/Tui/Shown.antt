-- ===== src/Tui/Shown.antt =====
-- What `draw_table` of crates/heimwatch-tui/src/ui/table.rs shows.
use heimwatch.Prelude.{
  ℕ, zero, suc, ◌-◌, ◌≡◌, ◌⊎◌, refl, ap, ◌∙◌, Bool, true, false, List, [], ◌∷◌, ◌++◌, map, Option,
  none, some, Bytes, codes, arith, ltb, if◌then◌else◌, length, take, Bool-cases, inl, inr,
}
use heimwatch.Core.Floats.{Floats}
use heimwatch.Apps.Tables.{drop}
use heimwatch.Reports.Format.{FloatFormat, continues, format_app_name}
use heimwatch.Reports.Cut.{every, boundary}
use heimwatch.Core.Metrics.{AppNetworkStats, AppFocusStats, AppPowerStats}
use heimwatch.Tui.Snapshot.{AppSnapshot, AppCpuStats}
use heimwatch.Tui.{App, Tab, current_tab_item_count}
use heimwatch.Tui.Table.{
  Row, TableView, truncate, row_of, rows_of, visible_rows, view_of, build_table, draw_table,
  header_of, title_str, build_overview_table, build_network_table, build_cpu_table,
  build_focus_table, build_power_table, overview_row,
}

-- A name in a column of `n` bytes, and whether it can be cut for it.
abbrev pub shortened : ℕ → Bytes → Bytes
shortened n s = if ltb n (length s) then take (n - 1) s ++ (0xe2 ∷ 0x80 ∷ 0xa6 ∷ []) else s

abbrev pub fits : ℕ → Bytes → Bool
fits n s = if ltb n (length s) then boundary (n - 1) s else true

-- The first of some rows is marked.
abbrev pub marks : Bool → List Bytes → List Bool
marks mark [] = []
marks mark (s ∷ names) = mark ∷ marks false names

abbrev pub first_cell : Row → Bytes
first_cell r = elim r.cells [ [] ↦ [] | c ∷ cs ↦ c ]

abbrev pub is_selected : Row → Bool
is_selected r = r.selected

-- The rows of these names, or a panic if one cannot be cut.
abbrev pub Outcome : ℕ → Bool → List Bytes → Option (List Row) → Type 0
Outcome n mark names o =
    ((every (fits n) names ≡ true)
      × (rows : List Row) × (o ≡ some rows)
      × (map first_cell rows ≡ map (shortened n) names)
      × (map is_selected rows ≡ marks mark names))
    ⊎ ((every (fits n) names ≡ false) × (o ≡ none))

cut_at :
    (k : ℕ) (s : Bytes) → format_app_name s k ≡ (if boundary k s then some (take k s) else none)
unfolding format_app_name
cut_at zero [] = refl
cut_at (suc k) [] = refl
cut_at zero (b ∷ s) = elim (Bool-cases (continues b)) [ inl e ↦ rw e refl | inr e ↦ rw e refl ]
cut_at (suc k) (b ∷ s) = elim (Bool-cases (boundary k s)) [
  | inl e ↦ rw (cut_at k s, e) refl
  | inr e ↦ rw (cut_at k s, e) refl
]

drop_past :
    {A : Type 0} (scroll : ℕ) (xs : List A) → ltb scroll (length xs) ≡ false → drop scroll xs ≡ []
drop_past zero [] h = refl
drop_past zero (x ∷ xs) h = ground arith
drop_past (suc scroll) [] h = refl
drop_past (suc scroll) (x ∷ xs) h = drop_past scroll xs (ground arith)

take-nil : {A : Type 0} (height : ℕ) → take {A = A} height [] ≡ []
take-nil zero = refl
take-nil (suc height) = refl

truncate_lem :
    (n : ℕ) (s : Bytes) → truncate s n ≡ (if fits n s then some (shortened n s) else none)
unfolding truncate
truncate_lem n s = elim (Bool-cases (ltb n (length s))) [
  | inr e ↦ rw e refl
  | inl e ↦ elim (Bool-cases (boundary (n - 1) s)) [
    | inl f ↦ rw (e, cut_at (n - 1) s, f) refl
    | inr f ↦ rw (e, cut_at (n - 1) s, f) refl
  ]
]

module _ {A : Type 0} (name : A → Bytes) (cells : A → List Bytes) (n : ℕ) where
  rows_of_lem :
      (mark : Bool) (xs : List A)
      → Outcome n mark
          (map name xs)
          (rows_of (λ a selected. row_of (truncate (name a) n) (cells a) selected) mark xs)
  unfolding rows_of
  rows_of_lem mark [] = inl (refl, [], refl, refl, refl)
  rows_of_lem mark (x ∷ xs) = elim (Bool-cases (fits n (name x))) [
    | inr f ↦ inr (rw f refl, rw (truncate_lem n (name x), f) refl)
    | inl f ↦ elim (rows_of_lem false xs) [
      | inr (u, e) ↦ inr (rw (f, u) refl, rw (truncate_lem n (name x), f, e) refl)
      | inl (u, rows, e, c, m) ↦ inl (
        rw (f, u) refl,
        record { cells = shortened n (name x) ∷ cells x; selected = mark } ∷ rows,
        rw (truncate_lem n (name x), f, e) refl,
        ap (λ cs. shortened n (name x) ∷ cs) c,
        ap (λ ms. mark ∷ ms) m,
      )
    ]
  ]

  visible_rows_lem :
      (scroll height : ℕ) (xs : List A)
      → Outcome n true (map name (take height (drop scroll xs))) (
          visible_rows
            (λ a selected. row_of (truncate (name a) n) (cells a) selected)
            scroll
            height
            xs)
  unfolding visible_rows rows_of
  visible_rows_lem scroll height xs = elim (Bool-cases (ltb scroll (length xs))) [
    | inl e ↦ rw e (rows_of_lem true (take height (drop scroll xs)))
    | inr e ↦
        let gone : take height (drop scroll xs) ≡ [] =
          rw (drop_past scroll xs e) (take-nil height) in
        rw gone (inl (refl, [], refl, refl, refl))
  ]

-- The width of the column of names, in bytes.
abbrev pub name_width : Tab → ℕ
name_width Tab.overview = 22
name_width Tab.network = 28
name_width Tab.cpu = 22
name_width Tab.focus = 28
name_width Tab.power = 15

module _ {F32 : Type 0} where
  -- The names of the tab from the scroll position on that have room in the height.
  abbrev pub visible_names : Tab → ℕ → ℕ → AppSnapshot F32 → List Bytes
  visible_names Tab.overview scroll height snap =
      map (λ a. a.app_name) (take height (drop scroll snap.top_cpu_apps))
  visible_names Tab.network scroll height snap =
      map (λ a. a.app_name) (take height (drop scroll snap.top_net_apps))
  visible_names Tab.cpu scroll height snap =
      map (λ a. a.app_name) (take height (drop scroll snap.top_cpu_apps))
  visible_names Tab.focus scroll height snap =
      map (λ a. a.app_name) (take height (drop scroll snap.top_focus_apps))
  visible_names Tab.power scroll height snap =
      map (λ a. a.app_name) (take height (drop scroll snap.top_power_apps))

module _ (fl : Floats) (ff : FloatFormat fl) where
  build_tab_lem :
      (t : Tab) (app : App fl.F32) (snap : AppSnapshot fl.F32)
      → Outcome
          (name_width t)
          true
          (visible_names t app.table_scroll app.visible_height snap)
          (build_table fl ff (record app { active_tab = t }) snap).0
  unfolding build_table build_overview_table build_network_table build_cpu_table build_focus_table
      build_power_table overview_row
  build_tab_lem Tab.overview app snap =
      visible_rows_lem (λ (a : AppCpuStats fl.F32). a.app_name) _ 22 app.table_scroll
        app.visible_height snap.top_cpu_apps
  build_tab_lem Tab.network app snap =
      visible_rows_lem (λ (a : AppNetworkStats). a.app_name) _ 28 app.table_scroll
        app.visible_height snap.top_net_apps
  build_tab_lem Tab.cpu app snap =
      visible_rows_lem (λ (a : AppCpuStats fl.F32). a.app_name) _ 22 app.table_scroll
        app.visible_height snap.top_cpu_apps
  build_tab_lem Tab.focus app snap =
      visible_rows_lem (λ (a : AppFocusStats). a.app_name) _ 28 app.table_scroll app.visible_height
        snap.top_focus_apps
  build_tab_lem Tab.power app snap =
      visible_rows_lem (λ (a : AppPowerStats fl.F32). a.app_name) _ 15 app.table_scroll
        app.visible_height snap.top_power_apps

  view_none :
      (app : App fl.F32) (b : Option (List Row) × Bytes × List ℕ)
      → b.0 ≡ none
      → view_of fl ff app b ≡ none
  view_none app (none, title, widths) h = refl
  view_none app (some rows, title, widths) h = cc

  abbrev view_with : App fl.F32 → Option (List Row) × Bytes × List ℕ → List Row → TableView
  view_with app b rows = record {
    header = header_of app.active_tab;
    rows = rows;
    title = title_str b.1 app.table_scroll (current_tab_item_count app);
    column_widths = b.2;
  }

  view_some :
      (app : App fl.F32) (b : Option (List Row) × Bytes × List ℕ) (rows : List Row)
      → b.0 ≡ some rows
      → view_of fl ff app b ≡ some (view_with app b rows)
  view_some app (none, title, widths) rows h = cc
  view_some app (some rs, title, widths) rows h = ap (λ o. view_of fl ff app (o, title, widths)) h

  -- With data, `draw_table` shows one row for each application of the active tab from the scroll
  -- position on that has room in the area, less the three lines of the frame and the header. The rows
  -- have their names in order, of which one that is too long for its column is cut and ends in `…`,
  -- and the first row is marked. If one of these names is cut inside a character, drawing panics.
  pub draw_table_lem :
      (app : App fl.F32) (area_height : ℕ) (snap : AppSnapshot fl.F32)
      → app.snapshot ≡ some snap
      → (((every
                (fits (name_width app.active_tab))
                (visible_names app.active_tab app.table_scroll (area_height - 3) snap)
              ≡ true)
            × (view : TableView) × ((draw_table fl ff app area_height).1 ≡ some view)
            × (map first_cell view.rows
                ≡ map
                    (shortened (name_width app.active_tab))
                    (visible_names app.active_tab app.table_scroll (area_height - 3) snap))
            × (map is_selected view.rows
                ≡ marks true
                    (visible_names app.active_tab app.table_scroll (area_height - 3) snap)))
          ⊎ ((every
                  (fits (name_width app.active_tab))
                  (visible_names app.active_tab app.table_scroll (area_height - 3) snap)
                ≡ false)
              × ((draw_table fl ff app area_height).1 ≡ none)))
  unfolding draw_table
  draw_table_lem app area_height snap h =
      let drawn : App fl.F32 = record app { visible_height = area_height - 3 } in
      let built : Option (List Row) × Bytes × List ℕ = build_table fl ff drawn snap in
      let drew : (draw_table fl ff app area_height).1 ≡ view_of fl ff drawn built =
        ap
          (λ (o : Option (AppSnapshot fl.F32)). elim o as (λ x. Option TableView) [
            | none ↦ view_of fl ff drawn (some [], codes "Applications", [])
            | some snapshot ↦ view_of fl ff drawn (build_table fl ff drawn snapshot)
          ])
          h in
      elim (build_tab_lem app.active_tab drawn snap) [
        | inr (u, e) ↦ inr (u, drew ∙ view_none drawn built e)
        | inl (u, rows, e, c, m) ↦
            inl (u, view_with drawn built rows, drew ∙ view_some drawn built rows e, c, m)
      ]
