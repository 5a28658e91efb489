-- ===== src/Storage/Tops.antt =====
-- What the lists of applications of crates/heimwatch-storage/src/db.rs show, by traffic and by time
-- in focus.
use heimwatch.Prelude.{
  ℕ, ◌+◌, ◌^◌, ◌%◌, ◌<◌, ◌≤◌, ◌≡◌, refl, ap, ◌∙◌, true, false, List, [], ◌∷◌, Option, none, some,
  arith, wrap64, take, map, Bytes,
}
use mathlib.Core.List.{Pairwise}
use heimwatch.Error.{ok}
use heimwatch.Core.Metrics.{MetricType, MetricPayload, MetricRecord, AppNetworkStats, AppFocusStats}
use heimwatch.Aggregation.Counters.{total}
use heimwatch.Apps.{HashOrder, tally, sort_by}
use heimwatch.Apps.Tables.{IsTop, NotAfter, chosen, filled, find-tally, tally-Distinct, take-IsTop}
use heimwatch.Storage.{Env, Rec, StorageLayer}
use heimwatch.Storage.Query.{get_metrics_by_type}
use heimwatch.Storage.Top.{
  add_pair, add_u64, app_of, network_row, more_traffic, focus_row, more_focus, tx_rx_bytes,
  duration, get_top_apps_by_network, get_top_apps_by_focus,
}

-- The sums modulo 2^64 of some pairs, if there are any.
abbrev pub pair_sums : List (ℕ × ℕ) → Option (ℕ × ℕ)
pair_sums [] = none
pair_sums (w ∷ ws) = some (wrap64 (total (λ p. p.0) (w ∷ ws)), wrap64 (total (λ p. p.1) (w ∷ ws)))

abbrev pub sum_of : List ℕ → Option ℕ
sum_of [] = none
sum_of (n ∷ ns) = some (wrap64 (total (λ n. n) (n ∷ ns)))

some_pair : {a b c d : ℕ} → a ≡ c → b ≡ d → ◌≡◌ {A = Option (ℕ × ℕ)} (some (a, b)) (some (c, d))
some_pair p q = cc

filled-pairs :
    (a b : ℕ) (ws : List (ℕ × ℕ))
    → a < 2 ^ 64
    → b < 2 ^ 64
    → filled (0, 0) add_pair (some (a, b)) ws
      ≡ some (wrap64 (a + total (λ p. p.0) ws), wrap64 (b + total (λ p. p.1) ws))
filled-pairs a b [] ha hb = some_pair (omega arith) (omega arith)
filled-pairs a b ((x, y) ∷ ws) ha hb =
    filled-pairs (wrap64 (a + x)) (wrap64 (b + y)) ws (omega arith) (omega arith)
    ∙ some_pair (omega arith) (omega arith)

filled-sum :
    (a : ℕ) (ws : List ℕ)
    → a < 2 ^ 64
    → filled 0 add_u64 (some a) ws ≡ some (wrap64 (a + total (λ n. n) ws))
filled-sum a [] ha = ap some (omega arith)
filled-sum a (x ∷ ws) ha = filled-sum (wrap64 (a + x)) ws (omega arith) ∙ ap some (omega arith)

filled-pair_sums : (ws : List (ℕ × ℕ)) → filled (0, 0) add_pair none ws ≡ pair_sums ws
filled-pair_sums [] = refl
filled-pair_sums ((x, y) ∷ ws) =
    filled-pairs (wrap64 (0 + x)) (wrap64 (0 + y)) ws (omega arith) (omega arith)
    ∙ some_pair (omega arith) (omega arith)

filled-sum_of : (ws : List ℕ) → filled 0 add_u64 none ws ≡ sum_of ws
filled-sum_of [] = refl
filled-sum_of (x ∷ ws) = filled-sum (wrap64 (0 + x)) ws (omega arith) ∙ ap some (omega arith)

more_traffic_asym : (x y : AppNetworkStats) → more_traffic x y ≡ true → more_traffic y x ≡ false
more_traffic_asym x y h = ground arith

more_traffic_trans :
    (x y z : AppNetworkStats)
    → more_traffic y x ≡ false
    → more_traffic z y ≡ false
    → more_traffic z x ≡ false
more_traffic_trans x y z h k = ground arith

more_focus_asym : (x y : AppFocusStats) → more_focus x y ≡ true → more_focus y x ≡ false
more_focus_asym x y h = ground arith

more_focus_trans :
    (x y z : AppFocusStats)
    → more_focus y x ≡ false
    → more_focus z y ≡ false
    → more_focus z x ≡ false
more_focus_trans x y z h k = ground arith

Pairwise-weaken :
    {A : Type 0} {P Q : A → A → Type 0} (xs : List A)
    → ((x y : A) → P x y → Q x y)
    → Pairwise P xs
    → Pairwise Q xs
Pairwise-weaken [] f s = Pairwise.nil
Pairwise-weaken (x ∷ xs) f (Pairwise.cons below s) =
    Pairwise.cons (λ y m. f x y (below y m)) (Pairwise-weaken xs f s)

-- The row that should show an application and two sums, the traffic by which rows go down, and the
-- bytes sent and received that a record tells.
abbrev pub shown_row : Bytes × (ℕ × ℕ) → AppNetworkStats
shown_row e = record { app_name = e.0; tx_bytes = e.1.0; rx_bytes = e.1.1 }

abbrev pub all_bytes : AppNetworkStats → ℕ
all_bytes r = (r.tx_bytes + r.rx_bytes) % 2 ^ 64

abbrev pub sent_received : {F32 : Type 0} → MetricRecord F32 → Option (ℕ × ℕ)
sent_received r = elim r.payload [ MetricPayload.net d ↦ some (d.tx_bytes, d.rx_bytes) | _ ↦ none ]

module _ (env : Env) (o : HashOrder) (clock : Option ℕ) (s : StorageLayer env) (start end limit : ℕ)
    (records : List (Rec env)) where
  -- Whatever the order of the map: if the query for network records answers `records`, then the list
  -- shows the first `limit` rows of a table that is sorted by bytes sent plus bytes received, modulo
  -- 2^64, from the largest on. The table has one row for each application with a network record among
  -- `records`, with the sums of the bytes sent and of the bytes received, modulo 2^64.
  pub get_top_apps_by_network-IsTop :
      get_metrics_by_type env clock s MetricType.net start end ≡ ok records
      → (rows : List AppNetworkStats) × (get_top_apps_by_network env o clock s start end limit
          ≡ ok rows)
        × IsTop shown_row
            (λ app. pair_sums (chosen (λ r. r.app_name) sent_received app records))
            (λ x y. all_bytes y ≤ all_bytes x)
            limit
            rows
  unfolding get_top_apps_by_network tx_rx_bytes
  get_top_apps_by_network-IsTop h =
      let m = tally (app_of env) (tx_rx_bytes env) (0, 0) add_pair [] records in
      let top =
        take-IsTop network_row _ o more_traffic m
          (tally-Distinct (app_of env) (tx_rx_bytes env) (0, 0) add_pair [] records tt)
          (λ app.
            find-tally (app_of env) (tx_rx_bytes env) (0, 0) add_pair app [] records
            ∙ filled-pair_sums (chosen (app_of env) (tx_rx_bytes env) app records))
          more_traffic_asym more_traffic_trans limit in
      (
        take limit (sort_by more_traffic (map network_row (o.order m))),
        rw h refl,
        record {
          left_out = top.left_out;
          table = top.table;
          sorted = Pairwise-weaken _ (λ x y h. ground arith) top.sorted;
          size = top.size;
        },
      )

  -- Whatever the order of the map: if the query for focus records answers `records`, then the list
  -- shows the first `limit` rows of a table that is sorted by time in focus, from the longest on. The
  -- table has one row for each application with a focus record among `records`, with the sum of the
  -- times, modulo 2^64.
  get_top_apps_by_focus-IsTop :
      get_metrics_by_type env clock s MetricType.foc start end ≡ ok records
      → (rows : List AppFocusStats) × (get_top_apps_by_focus env o clock s start end limit
          ≡ ok rows)
        × IsTop focus_row
            (λ app. sum_of (chosen (app_of env) (duration env) app records))
            (NotAfter more_focus)
            limit
            rows
  unfolding get_top_apps_by_focus
  get_top_apps_by_focus-IsTop h =
      let m = tally (app_of env) (duration env) 0 add_u64 [] records in
      (
        take limit (sort_by more_focus (map focus_row (o.order m))),
        rw h refl,
        take-IsTop focus_row _ o more_focus m
            (tally-Distinct (app_of env) (duration env) 0 add_u64 [] records tt)
            (λ app.
              find-tally (app_of env) (duration env) 0 add_u64 app [] records
              ∙ filled-sum_of (chosen (app_of env) (duration env) app records))
            more_focus_asym more_focus_trans limit,
      )
