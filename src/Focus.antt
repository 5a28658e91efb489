-- ===== src/Focus.antt =====
-- crates/heimwatch-collector/src/focus/linux/mod.rs: the times that applications are in focus. What
-- the compositor, the shutdown signal and the clocks give is a list of happenings.
pub mod Sessions
pub mod Toplevels
use heimwatch.Prelude.{
  ℕ, ◌-◌, ◌/◌, Bool, true, false, List, [], ◌∷◌, ◌++◌, Option, none, some, Bytes, codes, eq_bytes,
  ◌≡◌, refl, if◌then◌else◌, ◌==◌, wrap64,
}
use heimwatch.Core.Metrics.{MetricPayload}
use heimwatch.Core.Text.{strip_prefix}
use heimwatch.Storage.Write.{CollectorEvent}

-- `rest.split('.').next_back()`: what follows the last point, or all.
unfoldable pub last_component : Bytes → Bytes → Bytes
last_component acc [] = acc
last_component acc (c ∷ s) = last_component (if c == b'.' then [] else acc ++ c ∷ []) s

abbrev pub unless_prefixed : Bytes → Bytes
unless_prefixed s = elim (strip_prefix (codes "org.flatpak.") s) [
  | some rest ↦ rest
  | none ↦ elim (strip_prefix (codes "snap.") s) [ some rest ↦ last_component [] rest | none ↦ s ]
]

unfoldable pub normalize_app_id : Option Bytes → Bytes
unfolding strip_prefix last_component
normalize_app_id none = codes "Unknown"
normalize_app_id (some []) = codes "Unknown"
normalize_app_id (some (c ∷ s)) = unless_prefixed (c ∷ s)

module _ {F32 : Type 0} where
  unfoldable pub create_focus_event : Bytes → ℕ → ℕ → CollectorEvent F32
  create_focus_event app_name elapsed_ms timestamp = record {
    app_name = app_name;
    payload = MetricPayload.foc (record { app_id = app_name; duration_ms = elapsed_ms });
    timestamp = timestamp;
  }

-- `Instant`s are nanoseconds of a clock that does not go back.
pub record FocusState : Type 0 where
  pub current_app : Option Bytes
  pub focus_start : ℕ

-- What `select!` wakes up for, with the instants that are read: `at` by `elapsed`, and `restart` for
-- the next session. `clock` is the reading of the system's clock, or its failure.
pub data Happening : Type 0 where
  focused : Option Bytes → ℕ → Option ℕ → ℕ → Happening
  shutdown_changed : ℕ → Option ℕ → Happening
  listener_failed : ℕ → Option ℕ → Happening

-- `elapsed().as_millis() as u64`
abbrev pub elapsed_ms : ℕ → ℕ → ℕ
elapsed_ms start at = wrap64 ((at - start) / 1000000)

-- How a run ends: it still waits, it returns, or it returns an error of the clock.
pub data Ending : Type 0 where
  waiting returned clock_error : Ending

abbrev pub or_epoch : Option ℕ → Option ℕ
or_epoch none = some 0
or_epoch (some t) = some t

abbrev pub is_app : Bytes → Option Bytes → Bool
is_app app none = false
is_app app (some prev) = eq_bytes prev app

module _ (F32 : Type 0) where
  abbrev pub Event : Type 0
  Event = CollectorEvent F32

  -- The event of the session that ends, or an error of the clock. A send that fails is only logged.
  abbrev pub flush : FocusState → ℕ → Option ℕ → Option (List Event)
  flush s at clock = elim s.current_app [
    | none ↦ some []
    | some app ↦ elim clock [
      | none ↦ none
      | some timestamp ↦ some (create_focus_event app (elapsed_ms s.focus_start at) timestamp ∷ [])
    ]
  ]

  -- A change of focus: the events, and the new state unless the clock fails.
  unfoldable pub refocus :
      Option Bytes → ℕ → Option ℕ → ℕ → FocusState → List Event × Option FocusState
  unfolding create_focus_event normalize_app_id
  refocus raw_id at clock restart s =
      let new_app = normalize_app_id raw_id in
      if is_app new_app s.current_app then ([], some s) else (elim (flush s at clock) [
        | none ↦ ([], none)
        | some events ↦
            (events, some (record { current_app = some new_app; focus_start = restart }))
      ])

  abbrev pub ending : Option (List Event) → List Event × Ending
  ending none = ([], Ending.clock_error)
  ending (some events) = (events, Ending.returned)

  abbrev pub prepend : List Event → List Event × Ending → List Event × Ending
  prepend events (later, end) = (events ++ later, end)

  abbrev pub resume :
      List Event × Option FocusState → (FocusState → List Event × Ending) → List Event × Ending
  resume (events, none) rest = (events, Ending.clock_error)
  resume (events, some t) rest = prepend events (rest t)

  -- The loop of `run`: the events that it sends for what happens, and how it ends.
  unfoldable pub run : FocusState → List Happening → List Event × Ending
  run s [] = ([], Ending.waiting)
  run s (Happening.focused raw_id at clock restart ∷ l) =
      resume (refocus raw_id at clock restart s) (λ t. run t l)
  run s (Happening.shutdown_changed at clock ∷ l) = ending (flush s at clock)
  run s (Happening.listener_failed at clock ∷ l) = ending (flush s at (or_epoch clock))

flatpak : normalize_app_id (some (codes "org.flatpak.Firefox")) ≡ codes "Firefox"
unfolding normalize_app_id
flatpak = refl

snap : normalize_app_id (some (codes "snap.firefox.firefox")) ≡ codes "firefox"
unfolding normalize_app_id
snap = refl

plain : normalize_app_id (some (codes "org.gnome.Nautilus")) ≡ codes "org.gnome.Nautilus"
unfolding normalize_app_id
plain = refl
