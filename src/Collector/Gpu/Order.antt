-- ===== src/Collector/Gpu/Order.antt =====
-- What `enumerate_gpus` of crates/heimwatch-collector/src/gpu/linux/detect.rs gives.
use mathlib.Core.List.{Perm, Pairwise, Mem, forall_mem-cons}
use mathlib.Core.List
use mathlib.Core.List.Perm
use mathlib.Core.Bool.{Bool-set}
use heimwatch.Prelude.{
  ℕ, ◌≤◌, ◌≡◌, refl, sym, ap, ◌∙◌, true, false, List, [], ◌∷◌, Option, none, some, Bytes, codes,
  All, arith, ◌==◌, Bool-cases, Option-cases, inl, inr, ◌&&◌, ◌||◌, ◌⊎◌,
}
use heimwatch.Error.{ok, err}
use heimwatch.Core.Files.{FileSystem, join_path}
use heimwatch.Apps.{sort_by}
use heimwatch.Apps.Tables.{sort_by-perm, sort_by-sorted, All-of}
use heimwatch.Collector.Gpu.Backends.{GpuBackend, gpu_index, new_amd, new_intel, new_generic}
use heimwatch.Collector.Gpu.Detect.{
  cards_of, lower_index, vendor_id, is_driver, backend_for, resolve_driver,
  detect_and_create_backend, create_backends, enumerate_gpus,
}

-- Each element's index is at most those of the later ones.
abbrev pub AscendingBy : {A : Type 0} → (A → ℕ) → List A → Type 0
AscendingBy index [] = Unit {0}
AscendingBy index (x ∷ xs) = All (λ y. index x ≤ index y) xs × AscendingBy index xs

abbrev card_index : ℕ × Bytes → ℕ
card_index (idx, path) = idx

sorted-AscendingBy :
    (cards : List (ℕ × Bytes))
    → Pairwise (λ x y. lower_index y x ≡ false) cards
    → AscendingBy card_index cards
sorted-AscendingBy [] s = tt
sorted-AscendingBy (c ∷ cards) (Pairwise.cons below s) =
    (later cards below, sorted-AscendingBy cards s)
  where
    not_lower : (d : ℕ × Bytes) → lower_index d c ≡ false → card_index c ≤ card_index d
    not_lower (b, q) h = ground arith

    later :
        (ds : List (ℕ × Bytes))
        → ((d : ℕ × Bytes) → Mem d ds → lower_index d c ≡ false)
        → All (λ d. card_index c ≤ card_index d) ds
    later [] h = tt
    later (d ∷ ds) h =
        let (first, rest) = (forall_mem-cons (λ e. Bool-set (lower_index e c) false)).0 h in
        (not_lower d first, later ds rest)

-- The index of a backend, if there is one.
abbrev index_at : ℕ → Option GpuBackend → ℕ
index_at idx none = idx
index_at idx (some b) = gpu_index b

module _ (read_link : Bytes → Option Bytes) (fs : FileSystem) where
  backend_for-index :
      (idx : ℕ) (device_path : Bytes) (vendor : ℕ) (driver : Option Bytes)
      → gpu_index (backend_for fs idx device_path vendor driver) ≡ idx
  unfolding backend_for new_amd new_intel new_generic
  backend_for-index idx device_path vendor driver =
      elim (Bool-cases (vendor == 0x1002 && is_driver (codes "amdgpu") driver)) [
        | inl e ↦ rw e refl
        | inr e ↦
            elim (Bool-cases (
              vendor == 0x8086
              && (is_driver (codes "i915") driver || is_driver (codes "xe") driver))) [
                | inl f ↦ rw (e, f) refl
                | inr f ↦ rw (e, f) refl
              ]
      ]

  detect-index_at :
      (idx : ℕ) (path : Bytes)
      → index_at idx (detect_and_create_backend read_link fs idx path) ≡ idx
  unfolding detect_and_create_backend
  detect-index_at idx path = elim (Bool-cases (fs.exists (join_path path (codes "device")))) [
    | inl e ↦ rw e (
        backend_for-index idx (join_path path (codes "device"))
          (vendor_id
            (fs.read_to_string (join_path (join_path path (codes "device")) (codes "vendor"))))
          (resolve_driver read_link (join_path path (codes "device"))))
    | inr e ↦ rw e refl
  ]

  detect-index :
      (card : ℕ × Bytes) (b : GpuBackend)
      → detect_and_create_backend read_link fs card.0 card.1 ≡ some b
      → card_index card ≡ gpu_index b
  detect-index (idx, path) b h = sym (detect-index_at idx path) ∙ ap (index_at idx) h

  create_backends-All :
      (P : ℕ → Type 0) (cards : List (ℕ × Bytes))
      → All (λ c. P (card_index c)) cards
      → All (λ b. P (gpu_index b)) (create_backends read_link fs cards)
  unfolding create_backends List.filter_map
  create_backends-All P [] h = tt
  create_backends-All P (c ∷ cards) (p, h) =
      elim (Option-cases (detect_and_create_backend read_link fs c.0 c.1)) [
        | inl e ↦ rw e (create_backends-All P cards h)
        | inr (b, e) ↦ rw e (rw (sym (detect-index c b e)) p, create_backends-All P cards h)
      ]

  create_backends-AscendingBy :
      (cards : List (ℕ × Bytes))
      → AscendingBy card_index cards
      → AscendingBy gpu_index (create_backends read_link fs cards)
  unfolding create_backends List.filter_map
  create_backends-AscendingBy [] s = tt
  create_backends-AscendingBy (c ∷ cards) (below, s) =
      elim (Option-cases (detect_and_create_backend read_link fs c.0 c.1)) [
        | inl e ↦ rw e (create_backends-AscendingBy cards s)
        | inr (b, e) ↦ rw e (
          rw (sym (detect-index c b e)) (create_backends-All (λ n. card_index c ≤ n) cards below),
          create_backends-AscendingBy cards s,
        )
      ]

-- If /sys/class/drm is there and can be listed, the backends are those that its cards give in whatever
-- order they are listed, and they come in the order of their indices. If it is not there or cannot be
-- listed, there is an error.
pub enumerate_gpus_lem :
    (read_link : Bytes → Option Bytes) (fs : FileSystem)
    → (((names : List Bytes) × (fs.exists (codes "/sys/class/drm") ≡ true)
          × (fs.read_dir (codes "/sys/class/drm") ≡ some names)
          × (backends : List GpuBackend) × (enumerate_gpus read_link fs ≡ ok backends)
          × Perm backends (create_backends read_link fs (cards_of (codes "/sys/class/drm") names))
          × AscendingBy gpu_index backends)
        ⊎ (((fs.exists (codes "/sys/class/drm") ≡ false)
              ⊎ (fs.read_dir (codes "/sys/class/drm") ≡ none))
            × (enumerate_gpus read_link fs ≡ err tt)))
unfolding enumerate_gpus
enumerate_gpus_lem read_link fs = elim (Bool-cases (fs.exists (codes "/sys/class/drm"))) [
  | inr e ↦ inr (inl e, rw e refl)
  | inl e ↦ elim (Option-cases (fs.read_dir (codes "/sys/class/drm"))) [
    | inl f ↦ inr (inr f, rw (e, f) refl)
    | inr (names, f) ↦
        let cards = cards_of (codes "/sys/class/drm") names in
        inl (
          names,
          e,
          f,
          create_backends read_link fs (sort_by lower_index cards),
          rw (e, f) refl,
          made (sort_by-perm lower_index cards),
          create_backends-AscendingBy read_link fs (sort_by lower_index cards) (
              sorted-AscendingBy (sort_by lower_index cards) (
                sort_by-sorted lower_index (λ c. Unit {0}) (λ x y h. ground arith)
                  (λ x y z p h k. ground arith) cards (All-of _ (λ c. tt) cards))),
        )
  ]
]
  where
    made :
        {xs ys : List (ℕ × Bytes)}
        → Perm xs ys
        → Perm (create_backends read_link fs xs) (create_backends read_link fs ys)
    made p = Perm.filter_map _ p
