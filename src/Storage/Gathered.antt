-- ===== src/Storage/Gathered.antt =====
-- The loops of `get_power_stats` in crates/heimwatch-storage/src/db.rs beside the readings of an
-- application, and its filter beside the battery state of the records.
use mathlib.Core.List.{foldl}
use heimwatch.Prelude.{
  ℕ, ◌+◌, ◌%◌, ◌^◌, ◌≡◌, refl, ap, ◌∙◌, Bool, true, false, ◌||◌, List, [], ◌∷◌, ◌++◌, Option, none,
  some, Bytes, eq_bytes, if◌then◌else◌, arith, wrap64, Bool-cases, inl, inr, Option-cases,
  append_assoc, append-nil,
}
use heimwatch.Core.Metrics.{MetricPayload}
use heimwatch.Aggregation.Counters.{total}
use heimwatch.Apps.Tables.{chosen, filled}
use heimwatch.Power.{default_metrics}
use heimwatch.Storage.{Env, Rec}
use heimwatch.Storage.Top.{
  Metrics, Payload, app_of, passing, add_cpu, add_gpu, add_focus, add_disk, add_net, add_mem,
  passes_filter, state_timestamps, contains, in_state,
}
use heimwatch.Storage.Own.{of_state, kept, readings, nonempty, sum_wrapped}

module _ (env : Env) where
  -- the filter of the code
  state_timestamps_lem :
      (b : Bool) (p : Payload env) (ts : ℕ) (rest : List ℕ)
      → (elim p [ MetricPayload.pwr d ↦ if in_state env b d then ts ∷ rest else rest | _ ↦ rest ])
        ≡ (if of_state b (record { app_name = []; timestamp = ts; payload = p })
            then ts ∷ rest
            else rest)
  state_timestamps_lem true (MetricPayload.pwr d) ts rest = refl
  state_timestamps_lem false (MetricPayload.pwr d) ts rest = refl
  state_timestamps_lem b _ ts rest = refl

  contains_lem :
      (b : Bool) (rs : List (Rec env)) (ts : ℕ)
      → contains env ts (state_timestamps env b rs) ≡ kept (some b) rs ts
  unfolding state_timestamps
  contains_lem b [] ts = refl
  contains_lem b (r ∷ rs) ts =
      ap (contains env ts)
        (state_timestamps_lem b r.payload r.timestamp (state_timestamps env b rs))
      ∙ elim (Bool-cases (of_state b r)) [
        | inl e ↦ rw e (ground (arith, contains_lem b rs ts))
        | inr e ↦ rw e (ground (arith, contains_lem b rs ts))
      ]

  pub passes_filter_lem :
      (on_battery : Option Bool) (rs : List (Rec env)) (ts : ℕ)
      → passes_filter env on_battery rs ts ≡ kept on_battery rs ts
  unfolding passes_filter
  passes_filter_lem none rs ts = refl
  passes_filter_lem (some on_battery) rs ts = contains_lem on_battery rs ts

  -- The values that one loop takes are the readings.
  chosen-readings :
      {A : Type 0} (keep : ℕ → Bool) (get : Payload env → Option A) (app : Bytes)
      (rs : List (Rec env))
      → chosen (app_of env) (passing env keep get) app rs
        ≡ readings (λ r. get r.payload) keep app rs
  chosen-readings keep get app [] = refl
  chosen-readings keep get app (r ∷ rs) = elim (Bool-cases (keep r.timestamp)) [
    | inr e ↦ rw (e, chosen, readings) (chosen-readings keep get app rs)
    | inl e ↦ elim (Option-cases (get r.payload)) [
      | inl n ↦ elim (Bool-cases (eq_bytes r.app_name app)) [
        | inl a ↦ rw (e, n, a, chosen, readings) (chosen-readings keep get app rs)
        | inr a ↦ rw (e, n, a, chosen, readings) (chosen-readings keep get app rs)
      ]
      | inr (x, n) ↦ elim (Bool-cases (eq_bytes r.app_name app)) [
        | inl a ↦
            rw (e, n, a, chosen, readings) (ap (λ xs. x ∷ xs) (chosen-readings keep get app rs))
        | inr a ↦ rw (e, n, a, chosen, readings) (chosen-readings keep get app rs)
      ]
    ]
  ]

  -- What an application's metrics are: none if nothing was added yet.
  abbrev pub made : Bool → Metrics env → Option (Metrics env)
  made false x = none
  made true x = some x

  abbrev pub Stage : Option (Metrics env) → Bool → Metrics env → Type 0
  Stage old b x = (old ≡ made b x) × (b ≡ false → x ≡ default_metrics env.floats)

  module _ {A : Type 0} (add : Metrics env → A → Metrics env) where
    filled-some :
        (x : Metrics env) (ws : List A)
        → filled (default_metrics env.floats) add (some x) ws ≡ some (foldl add x ws)
    filled-some x [] = refl
    filled-some x (w ∷ ws) = filled-some (add x w) ws

    filled-made :
        (b : Bool) (x : Metrics env) (ws : List A)
        → (b ≡ false → x ≡ default_metrics env.floats)
        → filled (default_metrics env.floats) add (made b x) ws
          ≡ made (b || nonempty ws) (foldl add x ws)
    filled-made false x [] h = refl
    filled-made true x [] h = refl
    filled-made false x (w ∷ ws) h =
        rw (h refl) (filled-some (add (default_metrics env.floats) w) ws)
    filled-made true x (w ∷ ws) h = filled-some (add x w) ws

    still_default :
        (b : Bool) (x : Metrics env) (ws : List A)
        → (b ≡ false → x ≡ default_metrics env.floats)
        → (b || nonempty ws) ≡ false
        → foldl add x ws ≡ default_metrics env.floats
    still_default false x [] h e = h refl
    still_default true x [] h e = cc
    still_default false x (w ∷ ws) h e = cc
    still_default true x (w ∷ ws) h e = cc

    -- one loop more
    pub Stage-own :
        (keep : ℕ → Bool) (get : Payload env → Option A) (app : Bytes) (rs : List (Rec env))
        (old : Option (Metrics env)) (b : Bool) (x : Metrics env)
        → Stage old b x
        → Stage
            (filled
              (default_metrics env.floats)
              add
              old
              (chosen (app_of env) (passing env keep get) app rs))
            (b || nonempty (readings (λ r. get r.payload) keep app rs))
            (foldl add x (readings (λ r. get r.payload) keep app rs))
    Stage-own keep get app rs old b x (at, h) =
        (rw (at, chosen-readings keep get app rs) (filled-made b x _ h), still_default b x _ h)

  -- a loop that appends to a field, and one that adds to it
  foldl-appends :
      {A : Type 0} (add : Metrics env → A → Metrics env) (put : List A → Metrics env)
      → ((xs : List A) (w : A) → add (put xs) w ≡ put (xs ++ w ∷ []))
      → (xs ws : List A) → foldl add (put xs) ws ≡ put (xs ++ ws)
  foldl-appends add put step xs [] = rw (append-nil xs) refl
  foldl-appends add put step xs (w ∷ ws) =
      ap (λ m. foldl add m ws) (step xs w)
      ∙ foldl-appends add put step (xs ++ w ∷ []) ws
      ∙ ap put (append_assoc xs (w ∷ []) ws)

  wrapped_again : (a w : ℕ) → wrap64 (a % 2 ^ 64 + w) ≡ (a + w) % 2 ^ 64
  wrapped_again a w = omega arith

  foldl-adds :
      (add : Metrics env → ℕ → Metrics env) (put : ℕ → Metrics env)
      → ((n w : ℕ) → add (put n) w ≡ put (wrap64 (n + w)))
      → (a : ℕ) (ws : List ℕ)
      → foldl add (put (a % 2 ^ 64)) ws ≡ put ((a + total (λ n. n) ws) % 2 ^ 64)
  foldl-adds add put step a [] = ap put (omega arith)
  foldl-adds add put step a (w ∷ ws) =
      ap (λ m. foldl add m ws) (step (a % 2 ^ 64) w ∙ ap put (wrapped_again a w))
      ∙ foldl-adds add put step (a + w) ws
      ∙ ap put (omega arith)

  from_zero : (ws : List ℕ) → (0 + total (λ n. n) ws) % 2 ^ 64 ≡ sum_wrapped ws
  from_zero ws = omega arith

  abbrev filled_in : List env.floats.F32 → List env.floats.F32 → ℕ → ℕ → ℕ → List ℕ → Metrics env
  filled_in cpu gpu focus disk net mem = record {
    cpu_pcts = cpu;
    gpu_pcts = gpu;
    focus_ms = focus;
    disk_bytes = disk;
    net_bytes = net;
    mem_rss = mem;
  }

  -- all six loops, one after the other
  pub six_loops :
      (cpu gpu : List env.floats.F32) (focus disk net mem : List ℕ)
      → foldl
          (add_mem env)
          (foldl
            (add_net env)
            (foldl
              (add_disk env)
              (foldl
                (add_focus env)
                (foldl (add_gpu env) (foldl (add_cpu env) (default_metrics env.floats) cpu) gpu)
                focus)
              disk)
            net)
          mem
        ≡ filled_in cpu gpu (sum_wrapped focus) (sum_wrapped disk) (sum_wrapped net) mem
  six_loops cpu gpu focus disk net mem =
      let c = foldl-appends (add_cpu env) (λ l. filled_in l [] 0 0 0 []) (λ l w. refl) [] cpu in
      let g = foldl-appends (add_gpu env) (λ l. filled_in cpu l 0 0 0 []) (λ l w. refl) [] gpu in
      let f = foldl-adds (add_focus env) (λ n. filled_in cpu gpu n 0 0 []) (λ n w. refl) 0 focus in
      let fs = sum_wrapped focus in
      let d = foldl-adds (add_disk env) (λ n. filled_in cpu gpu fs n 0 []) (λ n w. refl) 0 disk in
      let ds = sum_wrapped disk in
      let n = foldl-adds (add_net env) (λ n. filled_in cpu gpu fs ds n []) (λ n w. refl) 0 net in
      let ns = sum_wrapped net in
      let m =
        foldl-appends (add_mem env) (λ l. filled_in cpu gpu fs ds ns l) (λ l w. refl) [] mem in
      let f' = f ∙ ap (λ n. filled_in cpu gpu n 0 0 []) (from_zero focus) in
      let d' = d ∙ ap (λ n. filled_in cpu gpu fs n 0 []) (from_zero disk) in
      let n' = n ∙ ap (λ n. filled_in cpu gpu fs ds n []) (from_zero net) in
      let q2 = ap (λ x. foldl (add_gpu env) x gpu) c ∙ g in
      let q3 = ap (λ x. foldl (add_focus env) x focus) q2 ∙ f' in
      let q4 = ap (λ x. foldl (add_disk env) x disk) q3 ∙ d' in
      let q5 = ap (λ x. foldl (add_net env) x net) q4 ∙ n' in
      ap (λ x. foldl (add_mem env) x mem) q5 ∙ m

  pub made_if : (b : Bool) (x y : Metrics env) → x ≡ y → made b x ≡ (if b then some y else none)
  made_if false x y h = refl
  made_if true x y h = ap some h
