-- ===== src/Focus/Sessions.antt =====
-- That the sessions which `run` of crates/heimwatch-collector/src/focus/linux/mod.rs reports cover the
-- time, up to what is rounded down.
use heimwatch.Prelude.{
  ℕ, ◌+◌, ◌-◌, ◌*◌, ◌^◌, ◌≤◌, ◌<◌, ◌≡◌, refl, true, false, Bool-cases, inl, inr, List, [], ◌∷◌,
  Option, none, some, Bytes, arith, length,
}
use heimwatch.Aggregation.Counters.{counter, total}
use heimwatch.Focus.{
  FocusState, Happening, Event, create_focus_event, normalize_app_id, elapsed_ms, is_app, refocus,
  run,
}

-- The clocks can be read, the instants do not go back after `t`, and lie below what milliseconds in
-- `u64` can count; the run closes at `end`, and what comes after is not read.
abbrev pub Timely : ℕ → ℕ → List Happening → Type 0
Timely end t [] = ⊥
Timely end t (Happening.focused raw_id at clock restart ∷ l) =
    (t ≤ at) × (at ≤ restart) × ((now : ℕ) × (clock ≡ some now)) × Timely end restart l
Timely end t (Happening.shutdown_changed at clock ∷ l) =
    (t ≤ at) × (at ≡ end) × ((now : ℕ) × (clock ≡ some now))
Timely end t (Happening.listener_failed at clock ∷ l) = (t ≤ at) × (at ≡ end) × Unit {0}

-- The time between the two instants that a change of focus reads.
abbrev pub gaps : List Happening → ℕ
gaps [] = 0
gaps (Happening.focused raw_id at clock restart ∷ l) = (restart - at) + gaps l
gaps (h ∷ l) = gaps l

Timely-earlier : (end t u : ℕ) (l : List Happening) → t ≤ u → Timely end u l → Timely end t l
Timely-earlier end t u [] le h = h
Timely-earlier end t u (Happening.focused raw_id at clock restart ∷ l) le (a, b, c, h) =
    (omega arith, b, c, h)
Timely-earlier end t u (Happening.shutdown_changed at clock ∷ l) le (a, b, c) = (omega arith, b, c)
Timely-earlier end t u (Happening.listener_failed at clock ∷ l) le (a, b, c) = (omega arith, b, c)

Timely-le : (end t : ℕ) (l : List Happening) → Timely end t l → t ≤ end
Timely-le end t [] h = absurd h
Timely-le end t (Happening.focused raw_id at clock restart ∷ l) (a, b, c, h) =
    omega (arith, Timely-le end restart l h)
Timely-le end t (Happening.shutdown_changed at clock ∷ l) (a, b, c) = omega arith
Timely-le end t (Happening.listener_failed at clock ∷ l) (a, b, c) = omega arith

module _ (F32 : Type 0) where
  abbrev pub duration_of : Event F32 → ℕ
  duration_of e = counter e.payload

  -- `whole` nanoseconds are what the events report, in milliseconds, up to less than one for each event
  -- and up to `lost`.
  abbrev pub Covers : ℕ → ℕ → List (Event F32) → Type 0
  Covers whole lost events =
      (total duration_of events * 1000000 ≤ whole)
      × (whole ≤ (total duration_of events + length events) * 1000000 + lost)

  refocus-same :
      (s : FocusState) (raw_id : Option Bytes) (at : ℕ) (clock : Option ℕ) (restart : ℕ)
      → is_app (normalize_app_id raw_id) s.current_app ≡ true
      → refocus F32 raw_id at clock restart s ≡ ([], some s)
  unfolding refocus
  refocus-same s raw_id at clock restart h = rw h refl

  refocus-other :
      (s : FocusState) (app : Bytes) (raw_id : Option Bytes) (at now restart : ℕ)
      → s.current_app ≡ some app
      → is_app (normalize_app_id raw_id) s.current_app ≡ false
      → refocus F32 raw_id at (some now) restart s ≡ (
        create_focus_event app (elapsed_ms s.focus_start at) now ∷ [],
        some (record { current_app = some (normalize_app_id raw_id); focus_start = restart }),
      )
  unfolding refocus
  refocus-other s app raw_id at now restart e h = rw (h, e) refl

  run-Covers :
      (end : ℕ) (s : FocusState) (app : Bytes) (l : List Happening)
      → s.current_app ≡ some app
      → end < 2 ^ 64 * 1000000
      → Timely end s.focus_start l
      → Covers (end - s.focus_start) (gaps l) (run F32 s l).0
  unfolding run create_focus_event
  run-Covers end s app [] e small h = absurd h
  run-Covers end s app (Happening.shutdown_changed at clock ∷ l) e small (a, b, (now, c)) =
      rw (e, c) (omega arith, omega arith)
  run-Covers end s app (Happening.listener_failed at none ∷ l) e small (a, b, u) =
      rw e (omega arith, omega arith)
  run-Covers end s app (Happening.listener_failed at (some now) ∷ l) e small (a, b, u) =
      rw e (omega arith, omega arith)
  run-Covers end s app (Happening.focused raw_id at clock restart ∷ l) e small (a, b, (now, c), h) =
      elim (Bool-cases (is_app (normalize_app_id raw_id) s.current_app)) [
        | inl same ↦
            let (low, high) =
              run-Covers end s app l e small (Timely-earlier end _ restart l (omega arith) h) in
            rw (refocus-same s raw_id at clock restart same) (low, omega arith)
        | inr other ↦
            let next : FocusState = record {
              current_app = some (normalize_app_id raw_id);
              focus_start = restart;
            } in
            let before = Timely-le end restart l h in
            let (low, high) = run-Covers end next (normalize_app_id raw_id) l refl small h in
            rw (c)
              (rw (refocus-other s app raw_id at now restart e other) (omega arith, omega arith))
      ]

  -- The first change of focus, when nothing was in focus, starts the first session. If the clocks can be
  -- read and do not go back, and the time can be counted in `u64`, the events that the run sends until it
  -- ends add up to the time since then, but for less than a millisecond each and for the time between the
  -- two instants that a change of focus reads.
  pub run-sessions :
      (end start at opened : ℕ) (raw_id : Option Bytes) (clock : Option ℕ) (l : List Happening)
      → end < 2 ^ 64 * 1000000
      → Timely end start l
      → Covers
          (end - start)
          (gaps l)
          (run F32
            (record { current_app = none; focus_start = opened })
            (Happening.focused raw_id at clock start ∷ l)).0
  unfolding run refocus
  run-sessions end start at opened raw_id clock l small h =
      run-Covers end (record { current_app = some (normalize_app_id raw_id); focus_start = start })
        (normalize_app_id raw_id) l refl small h
