-- ===== src/Collector/Gpu/Totals.antt =====
-- What `scan_proc_fdinfo` of crates/heimwatch-collector/src/gpu/linux/fdinfo.rs says of a process.
use mathlib.Core.List.Perm
use heimwatch.Prelude.{
  ℕ, ◌+◌, ◌≡◌, refl, sym, ap, ◌∙◌, min, max, Bool, true, false, List, [], ◌∷◌, Option, none, some,
  Bytes, codes, arith, u64_max, All, eq_bytes, eq_bytes_iff, if◌then◌else◌, Bool-cases,
  Option-cases, inl, inr,
}
use heimwatch.Core.Text.{parse_u32}
use heimwatch.Core.Files.{FileSystem, join_path}
use heimwatch.Aggregation.Counters.{total}
use heimwatch.Apps.{HashOrder, find, entry}
use heimwatch.Apps.Tables.{Distinct, IsTable, changed, find-entry, entry-Distinct}
use heimwatch.Collector.{from_utf8_lossy}
use heimwatch.Collector.Gpu.Sysfs.{is_some}
use heimwatch.Collector.Gpu.Fdinfo.{
  DrmFdStats, ProcessGpuStats, u64_or_zero, engine_time_of, new_process, add_fd, has_name, count_fd,
  count_fds, drm_of, proc_path, app_name_of, all_digits, listed, with_process, scan_entry,
}

-- What the files of a directory say of one GPU.
abbrev pub fds_of : FileSystem → Bytes → Bytes → List Bytes → List DrmFdStats
fds_of fs dir pdev [] = []
fds_of fs dir pdev (name ∷ names) =
    let rest = fds_of fs dir pdev names in
    elim (drm_of (fs.read_to_string (join_path dir name))) [
      | none ↦ rest
      | some st ↦ if eq_bytes st.pdev pdev then st ∷ rest else rest
    ]

abbrev pub largest : (DrmFdStats → ℕ) → List DrmFdStats → ℕ
largest f [] = 0
largest f (st ∷ sts) = max (f st) (largest f sts)

-- The sums of some files' times and memory, each up to the largest `u64`, and the largest of their
-- totals of cycles; nothing for none. The first file decides whether they are cycles.
abbrev pub summed_fds : Bytes → List DrmFdStats → Option ProcessGpuStats
summed_fds pdev [] = none
summed_fds pdev (st ∷ sts) = some (record {
  pdev = pdev;
  engine_time = min (total engine_time_of (st ∷ sts)) u64_max;
  total_cycles = largest (λ s. u64_or_zero s.total_cycles_gfx) (st ∷ sts);
  is_cycles_schema = is_some st.cycles_gfx;
  vram_bytes = min (total (λ s. u64_or_zero s.memory_vram_bytes) (st ∷ sts)) u64_max;
})

abbrev grown : Option ProcessGpuStats → List DrmFdStats → Option ProcessGpuStats
grown o [] = o
grown o (st ∷ sts) = grown (some (changed (new_process st) (add_fd st) o)) sts

abbrev capped : Bytes → Bool → ℕ → ℕ → ℕ → ProcessGpuStats
capped pdev cycles a b c = record {
  pdev = pdev;
  engine_time = min a u64_max;
  total_cycles = b;
  is_cycles_schema = cycles;
  vram_bytes = min c u64_max;
}

add_fd-capped :
    (pdev : Bytes) (cycles : Bool) (a b c : ℕ) (st : DrmFdStats)
    → add_fd st (capped pdev cycles a b c)
      ≡ capped pdev cycles
          (a + engine_time_of st)
          (max b (u64_or_zero st.total_cycles_gfx))
          (c + u64_or_zero st.memory_vram_bytes)
add_fd-capped pdev cycles a b c st = elim (Option-cases st.total_cycles_gfx) [
  | inl e ↦ elim (Option-cases st.memory_vram_bytes) [
    | inl f ↦ rw (e, f) (ground arith)
    | inr (v, f) ↦ rw (e, f) (ground arith)
  ]
  | inr (n, e) ↦ elim (Option-cases st.memory_vram_bytes) [
    | inl f ↦ rw (e, f) (ground arith)
    | inr (v, f) ↦ rw (e, f) (ground arith)
  ]
]

grown-capped :
    (pdev : Bytes) (cycles : Bool) (a b c : ℕ) (sts : List DrmFdStats)
    → grown (some (capped pdev cycles a b c)) sts
      ≡ some (
          capped pdev cycles
            (a + total engine_time_of sts)
            (max b (largest (λ s. u64_or_zero s.total_cycles_gfx) sts))
            (c + total (λ s. u64_or_zero s.memory_vram_bytes) sts))
grown-capped pdev cycles a b c [] = ap some (ground arith)
grown-capped pdev cycles a b c (st ∷ sts) =
    ap (λ p. grown (some p) sts) (add_fd-capped pdev cycles a b c st)
    ∙ grown-capped pdev cycles (a + engine_time_of st) (max b (u64_or_zero st.total_cycles_gfx))
        (c + u64_or_zero st.memory_vram_bytes) sts
    ∙ ap some (ground arith)

grown-summed_fds :
    (st : DrmFdStats) (sts : List DrmFdStats)
    → grown none (st ∷ sts) ≡ summed_fds st.pdev (st ∷ sts)
grown-summed_fds st sts =
    ap (λ p. grown (some p) sts) (add_fd-capped st.pdev (is_some st.cycles_gfx) 0 0 0 st)
    ∙ grown-capped st.pdev (is_some st.cycles_gfx) (0 + engine_time_of st)
        (max 0 (u64_or_zero st.total_cycles_gfx)) (0 + u64_or_zero st.memory_vram_bytes) sts
    ∙ ap some (ground arith)

module _ (fs : FileSystem) (known_pdevs : List Bytes) (dir : Bytes) (pdev : Bytes) where
  find-count_fds :
      (m : List (Bytes × ProcessGpuStats)) (names : List Bytes)
      → has_name pdev known_pdevs ≡ true
      → find pdev (count_fds fs known_pdevs dir m names)
        ≡ grown (find pdev m) (fds_of fs dir pdev names)
  unfolding count_fds
  find-count_fds m [] known = refl
  find-count_fds m (name ∷ names) known =
      elim (Option-cases (drm_of (fs.read_to_string (join_path dir name)))) [
        | inl e ↦ rw (e, fds_of) (find-count_fds m names known)
        | inr (st, e) ↦ elim (Bool-cases (eq_bytes st.pdev pdev)) [
          | inl own ↦
              let counted : has_name st.pdev known_pdevs ≡ true =
                rw ((eq_bytes_iff st.pdev pdev).0 own) known in
              rw (e, own, counted, fds_of)
                (find-count_fds (entry (new_process st) (add_fd st) st.pdev m) names known
                  ∙ rw
                      (
                        find-entry (new_process st) (add_fd st) st.pdev pdev m,
                        own,
                        (eq_bytes_iff st.pdev pdev).0 own,
                      )
                      refl)
          | inr other ↦
              rw (e, other, fds_of)
                (find-count_fds (count_fd known_pdevs (some st) m) names known
                  ∙ ap (λ o. grown o (fds_of fs dir pdev names)) (passed_over st m other))
        ]
      ]
    where
      passed_over :
          (st : DrmFdStats) (m : List (Bytes × ProcessGpuStats))
          → eq_bytes st.pdev pdev ≡ false
          → find pdev (count_fd known_pdevs (some st) m) ≡ find pdev m
      passed_over st m other = elim (Bool-cases (has_name st.pdev known_pdevs)) [
        | inl k ↦ rw (k, find-entry (new_process st) (add_fd st) st.pdev pdev m, other) refl
        | inr u ↦ rw u refl
      ]

  find-count_fds-unknown :
      (m : List (Bytes × ProcessGpuStats)) (names : List Bytes)
      → has_name pdev known_pdevs ≡ false
      → find pdev (count_fds fs known_pdevs dir m names) ≡ find pdev m
  unfolding count_fds
  find-count_fds-unknown m [] unknown = refl
  find-count_fds-unknown m (name ∷ names) unknown =
      find-count_fds-unknown
        (count_fd known_pdevs (drm_of (fs.read_to_string (join_path dir name))) m) names unknown
      ∙ passed_over (drm_of (fs.read_to_string (join_path dir name)))
    where
      passed_over : (o : Option DrmFdStats) → find pdev (count_fd known_pdevs o m) ≡ find pdev m
      passed_over none = refl
      passed_over (some st) = elim (Bool-cases (has_name st.pdev known_pdevs)) [
        | inr u ↦ rw u refl
        | inl k ↦ elim (Bool-cases (eq_bytes st.pdev pdev)) [
          | inl own ↦
              let counted : has_name pdev known_pdevs ≡ true =
                rw (sym ((eq_bytes_iff st.pdev pdev).0 own)) k in
              cc
          | inr other ↦ rw (k, find-entry (new_process st) (add_fd st) st.pdev pdev m, other) refl
        ]
      ]

  All-fds_of : (names : List Bytes) → All (λ st. st.pdev ≡ pdev) (fds_of fs dir pdev names)
  All-fds_of [] = tt
  All-fds_of (name ∷ names) =
      elim (Option-cases (drm_of (fs.read_to_string (join_path dir name)))) [
        | inl e ↦ rw (e, fds_of) (All-fds_of names)
        | inr (st, e) ↦ elim (Bool-cases (eq_bytes st.pdev pdev)) [
          | inl own ↦ rw (e, own, fds_of) ((eq_bytes_iff st.pdev pdev).0 own, All-fds_of names)
          | inr other ↦ rw (e, other, fds_of) (All-fds_of names)
        ]
      ]

  grown-fds_of :
      (sts : List DrmFdStats)
      → All (λ st. st.pdev ≡ pdev) sts
      → grown none sts ≡ summed_fds pdev sts
  grown-fds_of [] h = refl
  grown-fds_of (st ∷ sts) (own, h) = grown-summed_fds st sts ∙ ap (λ d. summed_fds d (st ∷ sts)) own

  count_fds_lem :
      (names : List Bytes)
      → find pdev (count_fds fs known_pdevs dir [] names)
        ≡ (if has_name pdev known_pdevs then summed_fds pdev (fds_of fs dir pdev names) else none)
  count_fds_lem names = elim (Bool-cases (has_name pdev known_pdevs)) [
    | inl k ↦
        rw k
          (find-count_fds [] names k ∙ grown-fds_of (fds_of fs dir pdev names) (All-fds_of names))
    | inr u ↦ rw u (find-count_fds-unknown [] names u)
  ]

count_fds-Distinct :
    (fs : FileSystem) (known_pdevs : List Bytes) (dir : Bytes) (m : List (Bytes × ProcessGpuStats))
    (names : List Bytes)
    → Distinct m
    → Distinct (count_fds fs known_pdevs dir m names)
unfolding count_fds
count_fds-Distinct fs known_pdevs dir m [] h = h
count_fds-Distinct fs known_pdevs dir m (name ∷ names) h =
    count_fds-Distinct fs known_pdevs dir
      (count_fd known_pdevs (drm_of (fs.read_to_string (join_path dir name))) m) names
      (kept (drm_of (fs.read_to_string (join_path dir name))))
  where
    kept : (o : Option DrmFdStats) → Distinct (count_fd known_pdevs o m)
    kept none = h
    kept (some st) = elim (Bool-cases (has_name st.pdev known_pdevs)) [
      | inl k ↦ rw k (entry-Distinct (new_process st) (add_fd st) st.pdev m h)
      | inr u ↦ rw u h
    ]

-- Whatever the order of the map: a process in /proc gives one row for each known GPU that one of its
-- files names, with its name and its number, and no row for another GPU. The row has the sums of the
-- files' engine times and of their memory, each up to the largest `u64`, and the largest of their
-- totals of cycles; whether these are cycles is decided by the first of the files.
pub scan_entry-IsTable :
    (o : HashOrder) (fs : FileSystem) (known_pdevs : List Bytes) (name : Bytes) (pid : ℕ)
    → all_digits (from_utf8_lossy name) ≡ true
    → parse_u32 (from_utf8_lossy name) ≡ some pid
    → IsTable
        (with_process pid (app_name_of fs pid))
        (λ pdev.
          if has_name pdev known_pdevs
          then summed_fds pdev (
              fds_of fs
                (proc_path pid (codes "fdinfo"))
                pdev
                (listed (fs.read_dir (proc_path pid (codes "fdinfo")))))
          else none)
        (scan_entry o fs known_pdevs name)
unfolding scan_entry
scan_entry-IsTable o fs known_pdevs name pid digits number =
    let dir = proc_path pid (codes "fdinfo") in
    let names = listed (fs.read_dir dir) in
    let m = count_fds fs known_pdevs dir [] names in
    rw digits (
      rw number (record {
        totals = m;
        distinct = count_fds-Distinct fs known_pdevs dir [] names tt;
        exact = λ pdev. count_fds_lem fs known_pdevs dir pdev names;
        perm = Perm.map (with_process pid (app_name_of fs pid)) (o.order-perm m);
      }))
