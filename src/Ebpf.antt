-- ===== src/Ebpf.antt =====
-- bpf/heimwatch-ebpf/src/main.rs and bpf/heimwatch-ebpf-common/src/lib.rs: the probes of the kernel
-- that count bytes and time by the name of a process. A BPF map is the interface `BpfMap`; a probe
-- is a function of the map's state and of what the kernel hands to it. The log is left out.
pub mod Map
pub mod Network
pub mod Disk
pub mod Sched
use heimwatch.Prelude.{
  ℕ, zero, suc, ◌-◌, ◌≡◌, Bool, true, false, ◌||◌, List, [], ◌∷◌, Option, none, some, Bytes,
  replicate, eq_bytes, eq_bytes_iff, Bool-cases, Option-cases, inl, inr, ◌∙◌, refl, ltb, ◌==◌,
  if◌then◌else◌, saturating_add,
}
use heimwatch.Prelude.Int.{ℤ, pos, negsuc}
use heimwatch.Error.{Result, ok, err}
use heimwatch.Ebpf.Map.{BpfMap, update_or_insert}

pub record PidNetStats : Type 0 where
  pub tx_bytes : ℕ
  pub rx_bytes : ℕ
  pub comm : Bytes

pub record PidCpuStats : Type 0 where
  pub cpu_time_ns : ℕ
  pub last_sched_in_ns : ℕ

pub record PidDiskStats : Type 0 where
  pub read_bytes : ℕ
  pub write_bytes : ℕ

-- The contexts of the two tracepoints, with the fields that are read.
pub record SchedSwitchArgs : Type 0 where
  pub prev_comm : Bytes
  pub next_comm : Bytes

pub record BlockRqIssueArgs : Type 0 where
  pub bytes : ℕ
  pub rwbs : Bytes
  pub comm : Bytes

abbrev pub unwrap_or : {A : Type 0} → Option A → A → A
unwrap_or none d = d
unwrap_or (some a) d = a

-- `bpf_get_current_comm().unwrap_or([0u8; 16])`
abbrev pub comm_or_zeros : Option Bytes → Bytes
comm_or_zeros comm = unwrap_or comm (replicate 16 0)

-- `comm[0] == 0`; a name has sixteen bytes, so the empty list does not arise
unfoldable pub is_comm_empty : Bytes → Bool
is_comm_empty [] = true
is_comm_empty (c ∷ comm) = c == 0

-- What each of the probes answers to the kernel: 0 for a success and for an error.
abbrev pub answered : {S : Type 0} → Result ℤ Unit × S → ℕ × S
answered (ok u, s) = (0, s)
answered (err e, s) = (0, s)

module _ (net : BpfMap PidNetStats) where
  unfoldable pub try_sendmsg : Option ℕ → Option Bytes → net.State → Result ℤ Unit × net.State
  try_sendmsg arg current m =
      let size = unwrap_or arg 0 in
      let comm = comm_or_zeros current in
      (
        ok tt,
        update_or_insert net comm (λ s. record s { tx_bytes = saturating_add s.tx_bytes size })
            (record { tx_bytes = size; rx_bytes = 0; comm = comm }) m,
      )

  -- what an error or an empty read leaves, and what a positive number of bytes adds
  unfoldable pub add_received : ℤ → Bytes → net.State → net.State
  add_received (negsuc n) comm m = m
  add_received (pos zero) comm m = m
  add_received (pos (suc n)) comm m =
      update_or_insert net comm (λ s. record s { rx_bytes = saturating_add s.rx_bytes (suc n) })
        (record { tx_bytes = 0; rx_bytes = suc n; comm = comm }) m

  unfoldable pub try_recvmsg : Option ℤ → Option Bytes → net.State → Result ℤ Unit × net.State
  unfolding add_received
  try_recvmsg ret current m =
      (ok tt, add_received (unwrap_or ret (pos 0)) (comm_or_zeros current) m)

  unfoldable pub trace_sendmsg : Option ℕ → Option Bytes → net.State → ℕ × net.State
  trace_sendmsg arg current m = answered (try_sendmsg arg current m)

  unfoldable pub trace_recvmsg : Option ℤ → Option Bytes → net.State → ℕ × net.State
  trace_recvmsg ret current m = answered (try_recvmsg ret current m)

module _ (cpu : BpfMap PidCpuStats) where
  unfoldable pub sched_out : ℕ → Bytes → cpu.State → cpu.State
  sched_out now_ns prev_comm m =
      if is_comm_empty prev_comm then m else elim (cpu.get_ptr_mut m prev_comm) [
        | none ↦ m
        | some s ↦
            let delta = now_ns - s.last_sched_in_ns in
            cpu.write prev_comm
              (record {
                cpu_time_ns =
                    if ltb 0 s.last_sched_in_ns
                    then saturating_add s.cpu_time_ns delta
                    else s.cpu_time_ns;
                last_sched_in_ns = 0;
              })
              m
      ]

  unfoldable pub sched_in : ℕ → Bytes → cpu.State → cpu.State
  sched_in now_ns next_comm m =
      if is_comm_empty next_comm
      then m
      else update_or_insert cpu next_comm (λ s. record s { last_sched_in_ns = now_ns })
          (record { cpu_time_ns = 0; last_sched_in_ns = now_ns }) m

  -- `args` is what `ctx.read_at(0)` gives
  unfoldable pub try_sched_switch :
      ℕ → Result ℤ SchedSwitchArgs → cpu.State → Result ℤ Unit × cpu.State
  try_sched_switch now_ns (err e) m = (err e, m)
  try_sched_switch now_ns (ok args) m =
      (ok tt, sched_in now_ns args.next_comm (sched_out now_ns args.prev_comm m))

  unfoldable pub trace_sched_switch : ℕ → Result ℤ SchedSwitchArgs → cpu.State → ℕ × cpu.State
  trace_sched_switch now_ns args m = answered (try_sched_switch now_ns args m)

-- `rwbs.get(0).copied().unwrap_or(0)`
abbrev pub first_of : Bytes → ℕ
first_of [] = 0
first_of (c ∷ rwbs) = c

abbrev pub is_read : Bytes → Bool
is_read rwbs = (first_of rwbs == b'R') || (first_of rwbs == b'r')

abbrev pub is_write : Bytes → Bool
is_write rwbs = (first_of rwbs == b'W') || (first_of rwbs == b'w')

module _ (disk : BpfMap PidDiskStats) where
  unfoldable pub issued : BlockRqIssueArgs → disk.State → disk.State
  issued args =
      update_or_insert disk args.comm
        (λ s.
          if is_read args.rwbs
          then record s { read_bytes = saturating_add s.read_bytes args.bytes }
          else if is_write args.rwbs
          then record s { write_bytes = saturating_add s.write_bytes args.bytes }
          else s)
        (record {
          read_bytes = if is_read args.rwbs then args.bytes else 0;
          write_bytes = if is_write args.rwbs then args.bytes else 0;
        })

  unfoldable pub try_block_rq_issue :
      Result ℤ BlockRqIssueArgs → disk.State → Result ℤ Unit × disk.State
  try_block_rq_issue (err e) m = (err e, m)
  try_block_rq_issue (ok args) m =
      if args.bytes == 0
      then (ok tt, m)
      else if is_comm_empty args.comm
      then (ok tt, m)
      else (ok tt, issued args m)

  unfoldable pub trace_block_rq_issue : Result ℤ BlockRqIssueArgs → disk.State → ℕ × disk.State
  trace_block_rq_issue args m = answered (try_block_rq_issue args m)
