-- ===== src/Collector/Power/Route.antt =====
-- `detect_default_interface_is_wifi` of crates/heimwatch-collector/src/power/linux.rs: the interface of
-- the default route with the lowest metric.
use heimwatch.Prelude.{
  ℕ, ◌≤◌, ◌<◌, ◌≡◌, refl, ap, ◌∙◌, Bool, List, [], ◌∷◌, ◌++◌, Option, none, some, Bytes, codes,
  eq_bytes, ltb, if◌then◌else◌, All, arith, Bool-cases, Option-cases, inl, inr, append_assoc,
  append-nil, sym, ◌⊎◌,
}
use heimwatch.Core.Text.{lines, trim, from_hex}
use heimwatch.Core.Files.{FileSystem, join_path}
use heimwatch.Keys.Std.{split}

-- The interface and the metric of a line, if it is that of a default route. A line has at least seven
-- fields, which are separated by tabs.
abbrev pub route_of : List Bytes → Option (Bytes × ℕ)
route_of (iface ∷ destination ∷ gateway ∷ flags ∷ refcnt ∷ uses ∷ metric_hex ∷ rest) =
    if eq_bytes (trim destination) (codes "00000000")
    then (elim (from_hex (trim metric_hex)) [ none ↦ none | some metric ↦ some (iface, metric) ])
    else none
route_of _ = none

-- The route with the lowest metric so far, and one more.
abbrev pub keep_lowest : Option (Bytes × ℕ) → Bytes × ℕ → Option (Bytes × ℕ)
keep_lowest none (iface, metric) = some (iface, metric)
keep_lowest (some (prev_iface, prev_metric)) (iface, metric) =
    if ltb metric prev_metric then some (iface, metric) else some (prev_iface, prev_metric)

unfoldable pub lowest : Option (Bytes × ℕ) → List Bytes → Option (Bytes × ℕ)
lowest default_iface [] = default_iface
lowest default_iface (line ∷ rest) =
    lowest
      (elim (route_of (split 9 line)) [
        | none ↦ default_iface
        | some r ↦ keep_lowest default_iface r
      ])
      rest

-- `lines().skip(1)`
abbrev pub after_header : List Bytes → List Bytes
after_header [] = []
after_header (header ∷ rest) = rest

unfoldable pub detect_default_interface_is_wifi : FileSystem → Bytes → Bytes → Option Bool
detect_default_interface_is_wifi fs route_path net_class_path =
    elim (fs.read_to_string route_path) [
      | none ↦ none
      | some route_content ↦ elim (lowest none (after_header (lines route_content))) [
        | none ↦ none
        | some (iface, metric) ↦
            some (fs.is_dir (join_path (join_path net_class_path iface) (codes "wireless")))
      ]
    ]

-- The default routes of some lines, in their order.
abbrev pub default_routes : List Bytes → List (Bytes × ℕ)
default_routes [] = []
default_routes (line ∷ rest) =
    let routes = default_routes rest in
    elim (route_of (split 9 line)) [ none ↦ routes | some r ↦ r ∷ routes ]

All-append : {A : Type 0} (P : A → Type 0) (xs ys : List A) → All P xs → All P ys → All P (xs ++ ys)
All-append P [] ys h k = k
All-append P (x ∷ xs) ys (p, h) k = (p, All-append P xs ys h k)

All-imp :
    {A : Type 0} (P Q : A → Type 0) (xs : List A) → ((x : A) → P x → Q x) → All P xs → All Q xs
All-imp P Q [] f h = tt
All-imp P Q (x ∷ xs) f (p, h) = (f x p, All-imp P Q xs f h)

-- A route of the list with the lowest metric, the first of those that have it.
pub record IsFirstLowest (routes : List (Bytes × ℕ)) (r : Bytes × ℕ) : Type 0 where
  pub before : List (Bytes × ℕ)
  pub after : List (Bytes × ℕ)
  pub parts : routes ≡ before ++ r ∷ after
  pub higher : All (λ q. r.1 < q.1) before
  pub not_lower : All (λ q. r.1 ≤ q.1) after

IsFirstLowest-le :
    (routes : List (Bytes × ℕ)) (r : Bytes × ℕ)
    → IsFirstLowest routes r
    → All (λ q. r.1 ≤ q.1) routes
IsFirstLowest-le routes r f = rw f.parts (
    All-append (λ q. r.1 ≤ q.1) f.before (r ∷ f.after)
      (All-imp (λ q. r.1 < q.1) (λ q. r.1 ≤ q.1) f.before (λ q h. omega arith) f.higher)
      (omega arith, f.not_lower))

-- What is kept of the routes that were seen.
abbrev KeptOf : List (Bytes × ℕ) → Option (Bytes × ℕ) → Type 0
KeptOf seen none = seen ≡ []
KeptOf seen (some r) = IsFirstLowest seen r

keep_lowest-KeptOf :
    (seen : List (Bytes × ℕ)) (kept : Option (Bytes × ℕ)) (r : Bytes × ℕ)
    → KeptOf seen kept
    → KeptOf (seen ++ r ∷ []) (keep_lowest kept r)
keep_lowest-KeptOf seen none (i, m) h = record {
  before = [];
  after = [];
  parts = rw h refl;
  higher = tt;
  not_lower = tt;
}
keep_lowest-KeptOf seen (some (j, n)) (i, m) h = elim (Bool-cases (ltb m n)) [
  | inl lower ↦ rw lower (record {
    before = seen;
    after = [];
    parts = refl;
    higher =
        All-imp (λ q. n ≤ q.1) (λ q. m < q.1) seen (λ q k. ground arith)
          (IsFirstLowest-le seen (j, n) h);
    not_lower = tt;
  })
  | inr other ↦ rw other (record {
    before = h.before;
    after = h.after ++ (i, m) ∷ [];
    parts =
        ap (λ l. l ++ (i, m) ∷ []) h.parts ∙ append_assoc h.before ((j, n) ∷ h.after) ((i, m) ∷ []);
    higher = h.higher;
    not_lower = All-append (λ q. n ≤ q.1) h.after ((i, m) ∷ []) h.not_lower (ground arith, tt);
  })
]

lowest-KeptOf :
    (seen : List (Bytes × ℕ)) (kept : Option (Bytes × ℕ)) (l : List Bytes)
    → KeptOf seen kept
    → KeptOf (seen ++ default_routes l) (lowest kept l)
unfolding lowest
lowest-KeptOf seen kept [] h = rw (append-nil seen) h
lowest-KeptOf seen kept (line ∷ rest) h = elim (Option-cases (route_of (split 9 line))) [
  | inl e ↦ rw (e, default_routes) (lowest-KeptOf seen kept rest h)
  | inr (r, e) ↦
      rw (e, default_routes, sym (append_assoc seen (r ∷ []) (default_routes rest)))
        (lowest-KeptOf (seen ++ r ∷ []) (keep_lowest kept r) rest
          (keep_lowest-KeptOf seen kept r h))
]

-- If the table of routes can be read, then there is an answer exactly if the lines after the first hold
-- a default route; and it says whether there is a directory `wireless` for the interface of the route
-- with the lowest metric, the first of those that have it.
pub detect-IsFirstLowest :
    (fs : FileSystem) (route_path net_class_path content : Bytes)
    → fs.read_to_string route_path ≡ some content
    → ((default_routes (after_header (lines content)) ≡ [])
        × (detect_default_interface_is_wifi fs route_path net_class_path ≡ none))
      ⊎ ((r : Bytes × ℕ) × IsFirstLowest (default_routes (after_header (lines content))) r
          × (detect_default_interface_is_wifi fs route_path net_class_path
              ≡ some (fs.is_dir (join_path (join_path net_class_path r.0) (codes "wireless")))))
unfolding detect_default_interface_is_wifi
detect-IsFirstLowest fs route_path net_class_path content readable =
    elim (Option-cases (lowest none (after_header (lines content)))) [
      | inl e ↦ inl (
        rw e at (lowest-KeptOf [] none (after_header (lines content)) refl),
        rw (readable, detect_default_interface_is_wifi) (rw e refl),
      )
      | inr (r, e) ↦ inr (
        r,
        rw e at (lowest-KeptOf [] none (after_header (lines content)) refl),
        rw (readable, detect_default_interface_is_wifi) (rw e refl),
      )
    ]
