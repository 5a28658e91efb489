-- ===== src/Collector/Status.antt =====
-- What crates/heimwatch-collector/src/memory/linux.rs reads of a process, told by the last lines of its
-- status file.
use mathlib.Core.List.{foldl}
use mathlib.Core.Option
use heimwatch.Prelude.{
  ℕ, ◌≡◌, refl, ap, ◌∙◌, List, [], ◌∷◌, map, Option, none, some, Bytes, codes, arith, ◌*◌, ◌%◌, ◌^◌,
  eq_bytes, eq_bytes_iff, if◌then◌else◌, Bool-cases, Option-cases, inl, inr,
}
use heimwatch.Core.Files.{FileSystem, join_path, get_process_name}
use heimwatch.Apps.Tables.{chosen}
use heimwatch.Collector.Memory.{
  MemStats, scan_process, name_of, usage_of, ProcStatus, default_status, status_of, read_line,
  set_field, read_proc_status, usage, kilobytes,
}
use heimwatch.Core.Text.{lines, split_whitespace, parse_nat, parse_u32}

-- The number that a line, in words, gives for a key, and the last such number of some lines.
abbrev pub line_value : Bytes → List Bytes → Option ℕ
line_value key (word ∷ number ∷ rest) = if eq_bytes word key then parse_nat number else none
line_value key _ = none

abbrev pub or_else : Option ℕ → Option ℕ → Option ℕ
or_else none old = old
or_else (some n) old = some n

abbrev pub last_value : Bytes → List Bytes → Option ℕ
last_value key [] = none
last_value key (line ∷ rest) =
    or_else (last_value key rest) (line_value key (split_whitespace line))

abbrev pub in_bytes : Option ℕ → ℕ
in_bytes none = 0
in_bytes (some n) = n * 1024 % 2 ^ 64

-- The bytes that a status tells for a key: the last number in kibibytes, and 0 for none.
abbrev pub bytes_for : Bytes → Bytes → ℕ
bytes_for key content = in_bytes (last_value key (lines content))

-- The name of the process of an entry of /proc and the text of its status, if it has both.
abbrev pub process_of : FileSystem → Bytes → Option (Bytes × Bytes)
process_of fs filename = elim (parse_u32 filename) [
  | none ↦ none
  | some pid ↦
      elim (fs.read_to_string (join_path (join_path (codes "/proc") filename) (codes "status"))) [
        | none ↦ none
        | some content ↦ elim (get_process_name fs pid) [
          | none ↦ none
          | some name ↦ some (name, content)
        ]
      ]
]

-- What is counted for a process
abbrev pub used : Bytes → MemStats
used content = record {
  rss = bytes_for (codes "VmRSS:") content;
  vms = bytes_for (codes "VmSize:") content;
  swap = bytes_for (codes "VmSwap:") content;
  count = 1;
}

-- What the processes of a name use.
abbrev pub used_by : FileSystem → Bytes → List Bytes → List MemStats
used_by fs app [] = []
used_by fs app (entry ∷ entries) =
    let rest = used_by fs app entries in
    elim (process_of fs entry) [
      | none ↦ rest
      | some (name, content) ↦ if eq_bytes name app then used content ∷ rest else rest
    ]

abbrev pub usages : FileSystem → Bytes → List MemStats
usages fs app =
    used_by fs app (elim (fs.read_dir (codes "/proc")) [ none ↦ [] | some names ↦ names ])

-- the three fields after one line, and after all
read_line-fields :
    (result : ProcStatus) (words : List Bytes)
    → ((read_line result words).vm_rss ≡ or_else (line_value (codes "VmRSS:") words) result.vm_rss)
      × ((read_line result words).vm_size
          ≡ or_else (line_value (codes "VmSize:") words) result.vm_size)
      × ((read_line result words).vm_swap
          ≡ or_else (line_value (codes "VmSwap:") words) result.vm_swap)
unfolding read_line set_field
read_line-fields result [] = (refl, refl, refl)
read_line-fields result (key ∷ []) = (refl, refl, refl)
read_line-fields result (key ∷ number ∷ rest) = elim (Option-cases (parse_nat number)) [
  | inl e ↦ rw e (ground arith, ground arith, ground arith)
  | inr (n, e) ↦ elim (Bool-cases (eq_bytes key (codes "VmRSS:"))) [
    | inl is_rss ↦ rw (e, (eq_bytes_iff key (codes "VmRSS:")).0 is_rss) (refl, refl, refl)
    | inr not_rss ↦ elim (Bool-cases (eq_bytes key (codes "VmSize:"))) [
      | inl is_size ↦ rw (e, (eq_bytes_iff key (codes "VmSize:")).0 is_size) (refl, refl, refl)
      | inr not_size ↦ rw (e, not_rss, not_size) (ground arith, ground arith, ground arith)
    ]
  ]
]

or_else_assoc : (a b c : Option ℕ) → or_else a (or_else b c) ≡ or_else (or_else a b) c
or_else_assoc none b c = refl
or_else_assoc (some n) b c = refl

abbrev read_lines : ProcStatus → List Bytes → ProcStatus
read_lines = foldl (λ result line. read_line result (split_whitespace line))

read_lines-fields :
    (result : ProcStatus) (text : List Bytes)
    → ((read_lines result text).vm_rss ≡ or_else (last_value (codes "VmRSS:") text) result.vm_rss)
      × ((read_lines result text).vm_size
          ≡ or_else (last_value (codes "VmSize:") text) result.vm_size)
      × ((read_lines result text).vm_swap
          ≡ or_else (last_value (codes "VmSwap:") text) result.vm_swap)
read_lines-fields result [] = (refl, refl, refl)
read_lines-fields result (line ∷ text) =
    let (rss, size, swap) = read_line-fields result (split_whitespace line) in
    let (all_rss, all_size, all_swap) =
      read_lines-fields (read_line result (split_whitespace line)) text in
    (
      all_rss
          ∙ ap (or_else (last_value (codes "VmRSS:") text)) rss
          ∙ or_else_assoc (last_value (codes "VmRSS:") text)
              (line_value (codes "VmRSS:") (split_whitespace line)) result.vm_rss,
      all_size
          ∙ ap (or_else (last_value (codes "VmSize:") text)) size
          ∙ or_else_assoc (last_value (codes "VmSize:") text)
              (line_value (codes "VmSize:") (split_whitespace line)) result.vm_size,
      all_swap
          ∙ ap (or_else (last_value (codes "VmSwap:") text)) swap
          ∙ or_else_assoc (last_value (codes "VmSwap:") text)
              (line_value (codes "VmSwap:") (split_whitespace line)) result.vm_swap,
    )

kilobytes_lem : (a : Option ℕ) → kilobytes (or_else a none) ≡ in_bytes a
kilobytes_lem none = refl
kilobytes_lem (some n) = refl

usage-status_of : (content : Bytes) → usage (status_of content) ≡ used content
unfolding status_of
usage-status_of content =
    let (rss, size, swap) = read_lines-fields default_status (lines content) in
    rw
      (
        rss,
        size,
        swap,
        kilobytes_lem (last_value (codes "VmRSS:") (lines content)),
        kilobytes_lem (last_value (codes "VmSize:") (lines content)),
        kilobytes_lem (last_value (codes "VmSwap:") (lines content)),
      )
      refl

scan_process_lem :
    (fs : FileSystem) (entry : Bytes)
    → scan_process fs entry ≡ Option.map (λ e. (e.0, used e.1)) (process_of fs entry)
unfolding scan_process read_proc_status
scan_process_lem fs entry = elim (Option-cases (parse_u32 entry)) [
  | inl e ↦ rw (e, scan_process, process_of) refl
  | inr (pid, e) ↦
      elim (Option-cases
        (fs.read_to_string (join_path (join_path (codes "/proc") entry) (codes "status")))) [
          | inl e' ↦ rw (e, e', scan_process, process_of) refl
          | inr (content, e') ↦ elim (Option-cases (get_process_name fs pid)) [
            | inl e'' ↦ rw (e, e', e'', scan_process, process_of) refl
            | inr (name, e'') ↦
                rw (e, e', e'', scan_process, process_of, usage-status_of content) refl
          ]
        ]
]

pub chosen-used_by :
    (fs : FileSystem) (app : Bytes) (entries : List Bytes)
    → chosen name_of usage_of app (map (scan_process fs) entries) ≡ used_by fs app entries
chosen-used_by fs app [] = refl
chosen-used_by fs app (entry ∷ entries) = elim (Option-cases (process_of fs entry)) [
  | inl e ↦ rw (scan_process_lem fs entry, e, used_by) (chosen-used_by fs app entries)
  | inr ((name, content), e) ↦
      rw (scan_process_lem fs entry, e, used_by, chosen-used_by fs app entries) refl
]
