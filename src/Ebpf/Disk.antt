-- ===== src/Ebpf/Disk.antt =====
-- What the block probe of bpf/heimwatch-ebpf/src/main.rs counts for a process.
use heimwatch.Prelude.{
  ℕ, ◌+◌, ◌≤◌, ◌≡◌, refl, ◌∙◌, Bool, true, false, ◌&&◌, List, [], ◌∷◌, some, arith, Bytes, eq_bytes,
  eq_bytes_iff, ◌==◌, ==_iff, if◌then◌else◌, saturating_add, u64_max, Bool-cases, inl, inr,
}
use heimwatch.Prelude.Int.{ℤ}
use heimwatch.Error.{Result, ok, err}
use heimwatch.Ebpf.Map.{BpfMap, update_or_insert-some}
use heimwatch.Ebpf.{
  PidDiskStats, BlockRqIssueArgs, is_comm_empty, is_read, is_write, issued, try_block_rq_issue,
  trace_block_rq_issue,
}

-- The bytes that a request reads and writes in the name of `k`: none for other kinds of request, and
-- none where the context cannot be read.
abbrev pub bytes_of : (Bytes → Bool) → Bytes → Result ℤ BlockRqIssueArgs → ℕ
bytes_of kind k (err e) = 0
bytes_of kind k (ok args) = if eq_bytes args.comm k && kind args.rwbs then args.bytes else 0

abbrev pub reads : Bytes → Result ℤ BlockRqIssueArgs → ℕ
reads = bytes_of is_read

abbrev pub writes : Bytes → Result ℤ BlockRqIssueArgs → ℕ
writes = bytes_of is_write

abbrev pub total : (Result ℤ BlockRqIssueArgs → ℕ) → List (Result ℤ BlockRqIssueArgs) → ℕ
total f [] = 0
total f (e ∷ es) = f e + total f es

abbrev pub plus : PidDiskStats → ℕ → ℕ → PidDiskStats
plus s r w = record {
  read_bytes = saturating_add s.read_bytes r;
  write_bytes = saturating_add s.write_bytes w;
}

saturating_zero : (n : ℕ) → n ≤ u64_max → saturating_add n 0 ≡ n
saturating_zero n h = omega arith

saturating_twice : (a b c : ℕ) → saturating_add (saturating_add a b) c ≡ saturating_add a (b + c)
saturating_twice a b c = omega arith

plus-zero : (s : PidDiskStats) → s.read_bytes ≤ u64_max → s.write_bytes ≤ u64_max → plus s 0 0 ≡ s
plus-zero s hr hw = rw (saturating_zero s.read_bytes hr, saturating_zero s.write_bytes hw) refl

read-not-write : (rwbs : Bytes) → is_read rwbs ≡ true → is_write rwbs ≡ false
read-not-write rwbs h = ground arith

bytes_of-nothing :
    (kind : Bytes → Bool) (k : Bytes) (args : BlockRqIssueArgs)
    → args.bytes ≡ 0
    → bytes_of kind k (ok args) ≡ 0
bytes_of-nothing kind k args h = ground arith

bytes_of-other :
    (kind : Bytes → Bool) (k : Bytes) (args : BlockRqIssueArgs)
    → eq_bytes args.comm k ≡ false
    → bytes_of kind k (ok args) ≡ 0
bytes_of-other kind k args h = rw h refl

names-differ :
    (comm k : Bytes) → is_comm_empty comm ≡ true → is_comm_empty k ≡ false → eq_bytes comm k ≡ false
names-differ comm k empty named = elim (Bool-cases (eq_bytes comm k)) [
  | inl own ↦ let full : is_comm_empty comm ≡ false = rw ((eq_bytes_iff comm k).0 own) named in cc
  | inr other ↦ other
]

module _ (disk : BpfMap PidDiskStats) where
  abbrev pub run : List (Result ℤ BlockRqIssueArgs) → disk.State → disk.State
  run [] m = m
  run (e ∷ es) m = run es (trace_block_rq_issue disk e m).1

  counted-issued :
      (args : BlockRqIssueArgs) (m : disk.State) (k : Bytes) (s : PidDiskStats)
      → s.read_bytes ≤ u64_max
      → s.write_bytes ≤ u64_max
      → disk.get_ptr_mut m k ≡ some s
      → disk.get_ptr_mut (issued disk args m) k
        ≡ some (plus s (reads k (ok args)) (writes k (ok args)))
  unfolding issued
  counted-issued args m k s hr hw e =
      update_or_insert-some disk args.comm _ _ m k s e ∙ elim (Bool-cases (eq_bytes args.comm k)) [
        | inr other ↦ rw (other, plus-zero s hr hw) refl
        | inl own ↦ elim (Bool-cases (is_read args.rwbs)) [
          | inl read ↦
              rw (own, read, read-not-write args.rwbs read, saturating_zero s.write_bytes hw) refl
          | inr unread ↦ elim (Bool-cases (is_write args.rwbs)) [
            | inl write ↦ rw (own, unread, write, saturating_zero s.read_bytes hr) refl
            | inr none ↦ rw (own, unread, none, plus-zero s hr hw) refl
          ]
        ]
      ]

  counted-step :
      (request : Result ℤ BlockRqIssueArgs) (m : disk.State) (k : Bytes) (s : PidDiskStats)
      → is_comm_empty k ≡ false
      → s.read_bytes ≤ u64_max
      → s.write_bytes ≤ u64_max
      → disk.get_ptr_mut m k ≡ some s
      → disk.get_ptr_mut (trace_block_rq_issue disk request m).1 k
        ≡ some (plus s (reads k request) (writes k request))
  unfolding trace_block_rq_issue try_block_rq_issue
  counted-step (err x) m k s named hr hw e = rw (plus-zero s hr hw) e
  counted-step (ok args) m k s named hr hw e = elim (Bool-cases (args.bytes == 0)) [
    | inl nothing ↦
        let zero_bytes = (==_iff args.bytes 0).0 nothing in
        rw
          (
            nothing,
            bytes_of-nothing is_read k args zero_bytes,
            bytes_of-nothing is_write k args zero_bytes,
            plus-zero s hr hw,
          )
          e
    | inr some_bytes ↦ elim (Bool-cases (is_comm_empty args.comm)) [
      | inl empty ↦
          let other = names-differ args.comm k empty named in
          rw
            (
              some_bytes,
              empty,
              bytes_of-other is_read k args other,
              bytes_of-other is_write k args other,
              plus-zero s hr hw,
            )
            e
      | inr full ↦ rw (some_bytes, full) (counted-issued args m k s hr hw e)
    ]
  ]

  -- From when a process with a name has an entry, with counters in `u64`, the map counts exactly
  -- the bytes of its requests that read and of those that write, whatever the other processes do
  -- in between; requests of other kinds count nothing, and the counters stop at the largest `u64`.
  pub run-counts_disk :
      (requests : List (Result ℤ BlockRqIssueArgs)) (m : disk.State) (k : Bytes) (s : PidDiskStats)
      → is_comm_empty k ≡ false
      → s.read_bytes ≤ u64_max
      → s.write_bytes ≤ u64_max
      → disk.get_ptr_mut m k ≡ some s
      → disk.get_ptr_mut (run requests m) k
        ≡ some (plus s (total (reads k) requests) (total (writes k) requests))
  run-counts_disk [] m k s named hr hw e = rw (plus-zero s hr hw) e
  run-counts_disk (r ∷ rs) m k s named hr hw e =
      run-counts_disk rs (trace_block_rq_issue disk r m).1 k (plus s (reads k r) (writes k r)) named
        (omega arith) (omega arith) (counted-step r m k s named hr hw e)
      ∙ rw
          (
            saturating_twice s.read_bytes (reads k r) (total (reads k) rs),
            saturating_twice s.write_bytes (writes k r) (total (writes k) rs),
          )
          refl
