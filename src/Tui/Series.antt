-- ===== src/Tui/Series.antt =====
-- `downsample` of crates/heimwatch-tui/src/data.rs: the series of a chart, with fewer points.
use heimwatch.Prelude.{
  ℕ, zero, suc, ◌+◌, ◌-◌, ◌*◌, ◌/◌, ◌≤◌, ◌<◌, ◌≡◌, refl, ap, ◌⊎◌, List, [], ◌∷◌, Option, none, some,
  arith, length, leb, if◌then◌else◌, Bool-cases, inl, inr,
}

abbrev pub max_points : ℕ
max_points = 60

-- `records.iter().filter_map(extract).collect()`
unfoldable pub filter_map : {A B : Type 0} → (A → Option B) → List A → List B
filter_map extract [] = []
filter_map extract (r ∷ rs) = elim (extract r) [
  | none ↦ filter_map extract rs
  | some v ↦ v ∷ filter_map extract rs
]

-- `step_by(step)` after `skip` values more are left out.
unfoldable pub step_from : {A : Type 0} → ℕ → ℕ → List A → List A
step_from step skip [] = []
step_from step zero (x ∷ xs) = x ∷ step_from step (step - 1) xs
step_from step (suc skip) (x ∷ xs) = step_from step skip xs

unfoldable pub thinned : List ℕ → List ℕ
unfolding step_from
thinned values =
    if leb (length values) max_points
    then values
    else step_from (length values / max_points) 0 values

unfoldable pub downsample : {R : Type 0} → (R → Option ℕ) → List R → List ℕ
unfolding filter_map thinned
downsample extract records = thinned (filter_map extract records)

step_from-one : {A : Type 0} (xs : List A) → step_from 1 0 xs ≡ xs
unfolding step_from
step_from-one [] = refl
step_from-one (x ∷ xs) = ap (λ t. x ∷ t) (step_from-one xs)

suc-times : (n step : ℕ) → suc n * step ≡ step + n * step
suc-times n step = grind arith

length-step_from :
    {A : Type 0} (step skip : ℕ) (xs : List A)
    → skip < step
    → length (step_from step skip xs) * step ≤ length xs + (step - 1 - skip)
unfolding step_from
length-step_from step skip [] h = grind arith
length-step_from step zero (x ∷ xs) h =
    let rest = length-step_from step (step - 1) xs (omega arith) in
    omega (arith, suc-times (length (step_from step (step - 1) xs)) step, rest)
length-step_from step (suc skip) (x ∷ xs) h =
    omega (arith, length-step_from step skip xs (omega arith))

times_mono : (m n step : ℕ) → m ≤ n → m * step ≤ n * step
times_mono m n step h = grind arith

few : (r step : ℕ) → 2 ≤ step → r * step ≤ 61 * step + 58 → r ≤ 90
few r step h bound = elim (Bool-cases (leb r 90)) [
  | inl e ↦ ground arith
  | inr e ↦ omega (arith, times_mono 91 r step (ground arith))
]

-- A step of 1, for up to 119 values, leaves all of them; a longer one leaves 90 at most.
abbrev pub Thinned : List ℕ → List ℕ → Type 0
Thinned values points =
    ((length values < 120) × (points ≡ values)) ⊎ ((120 ≤ length values) × (length points ≤ 90))

thinned-Thinned : (values : List ℕ) → Thinned values (thinned values)
unfolding thinned
thinned-Thinned values = elim (Bool-cases (leb (length values) 60)) [
  | inl e ↦ rw e (inl (ground arith, refl))
  | inr e ↦ elim (Bool-cases (leb 120 (length values))) [
    | inl long ↦
        let two : 2 ≤ length values / 60 = ground arith in
        let kept = length-step_from (length values / 60) 0 values (ground arith) in
        rw e (
          inr (
            ground arith,
            few (length (step_from (length values / 60) 0 values)) (length values / 60) two
                (omega (arith, kept, two)),
          ))
    | inr short ↦
        let one : length values / 60 ≡ 1 = ground arith in
        rw (e, one) (inl (ground arith, step_from-one values))
  ]
]

-- Of the values that are extracted, `downsample` keeps all when they are fewer than 120, though its
-- `MAX_POINTS` is 60; when they are more, 90 at most are left.
pub downsample-Thinned :
    {R : Type 0} (extract : R → Option ℕ) (records : List R)
    → Thinned (filter_map extract records) (downsample extract records)
unfolding downsample
downsample-Thinned extract records = thinned-Thinned (filter_map extract records)
