-- ===== src/Ebpf/Network.antt =====
-- What the two network probes of bpf/heimwatch-ebpf/src/main.rs count for a process.
use heimwatch.Prelude.{
  ℕ, zero, suc, ◌+◌, ◌≤◌, ◌≡◌, refl, ◌∙◌, List, [], ◌∷◌, Option, some, arith, Bytes, eq_bytes,
  if◌then◌else◌, saturating_add, u64_max, Bool-cases, inl, inr,
}
use heimwatch.Prelude.Int.{ℤ, pos, negsuc}
use heimwatch.Ebpf.Map.{BpfMap, update_or_insert-some}
use heimwatch.Ebpf.{
  PidNetStats, unwrap_or, comm_or_zeros, try_sendmsg, try_recvmsg, add_received, trace_sendmsg,
  trace_recvmsg,
}

-- A call of one of the two kernel functions, with what the kernel says of it.
pub data NetEvent : Type 0 where
  sendmsg : Option ℕ → Option Bytes → NetEvent
  recvmsg : Option ℤ → Option Bytes → NetEvent

abbrev positive : ℤ → ℕ
positive (pos n) = n
positive (negsuc n) = 0

-- The bytes that an event sends and receives in the name of `k`.
abbrev pub sent : Bytes → NetEvent → ℕ
sent k (NetEvent.sendmsg arg current) =
    if eq_bytes (comm_or_zeros current) k then unwrap_or arg 0 else 0
sent k (NetEvent.recvmsg ret current) = 0

abbrev pub received : Bytes → NetEvent → ℕ
received k (NetEvent.sendmsg arg current) = 0
received k (NetEvent.recvmsg ret current) =
    if eq_bytes (comm_or_zeros current) k then positive (unwrap_or ret (pos 0)) else 0

abbrev pub total : (NetEvent → ℕ) → List NetEvent → ℕ
total f [] = 0
total f (e ∷ es) = f e + total f es

-- The counters after `tx` more bytes sent and `rx` received.
abbrev pub plus : PidNetStats → ℕ → ℕ → PidNetStats
plus s tx rx = record s {
  tx_bytes = saturating_add s.tx_bytes tx;
  rx_bytes = saturating_add s.rx_bytes rx;
}

module _ (net : BpfMap PidNetStats) where
  abbrev step : NetEvent → net.State → net.State
  step (NetEvent.sendmsg arg current) m = (trace_sendmsg net arg current m).1
  step (NetEvent.recvmsg ret current) m = (trace_recvmsg net ret current m).1

  abbrev pub run : List NetEvent → net.State → net.State
  run [] m = m
  run (e ∷ es) m = run es (step e m)

  saturating_zero : (n : ℕ) → n ≤ u64_max → saturating_add n 0 ≡ n
  saturating_zero n h = omega arith

  saturating_twice : (a b c : ℕ) → saturating_add (saturating_add a b) c ≡ saturating_add a (b + c)
  saturating_twice a b c = omega arith

  plus-zero : (s : PidNetStats) → s.tx_bytes ≤ u64_max → s.rx_bytes ≤ u64_max → plus s 0 0 ≡ s
  plus-zero s ht hr = rw (saturating_zero s.tx_bytes ht, saturating_zero s.rx_bytes hr) refl

  counted-sendmsg :
      (arg : Option ℕ) (current : Option Bytes) (m : net.State) (k : Bytes) (s : PidNetStats)
      → s.tx_bytes ≤ u64_max
      → s.rx_bytes ≤ u64_max
      → net.get_ptr_mut m k ≡ some s
      → net.get_ptr_mut (trace_sendmsg net arg current m).1 k
        ≡ some (plus s (sent k (NetEvent.sendmsg arg current)) 0)
  unfolding trace_sendmsg try_sendmsg
  counted-sendmsg arg current m k s ht hr e =
      update_or_insert-some net (comm_or_zeros current) _ _ m k s e
      ∙ elim (Bool-cases (eq_bytes (comm_or_zeros current) k)) [
        | inl own ↦ rw (own, saturating_zero s.rx_bytes hr) refl
        | inr other ↦ rw (other, plus-zero s ht hr) refl
      ]

  counted-add_received :
      (n : ℤ) (comm : Bytes) (m : net.State) (k : Bytes) (s : PidNetStats)
      → s.tx_bytes ≤ u64_max
      → s.rx_bytes ≤ u64_max
      → net.get_ptr_mut m k ≡ some s
      → net.get_ptr_mut (add_received net n comm m) k
        ≡ some (plus s 0 (if eq_bytes comm k then positive n else 0))
  unfolding add_received
  counted-add_received (negsuc n) comm m k s ht hr e = elim (Bool-cases (eq_bytes comm k)) [
    | inl own ↦ rw (own, plus-zero s ht hr) e
    | inr other ↦ rw (other, plus-zero s ht hr) e
  ]
  counted-add_received (pos zero) comm m k s ht hr e = elim (Bool-cases (eq_bytes comm k)) [
    | inl own ↦ rw (own, plus-zero s ht hr) e
    | inr other ↦ rw (other, plus-zero s ht hr) e
  ]
  counted-add_received (pos (suc n)) comm m k s ht hr e =
      update_or_insert-some net comm _ _ m k s e ∙ elim (Bool-cases (eq_bytes comm k)) [
        | inl own ↦ rw (own, saturating_zero s.tx_bytes ht) refl
        | inr other ↦ rw (other, plus-zero s ht hr) refl
      ]

  counted-step :
      (e : NetEvent) (m : net.State) (k : Bytes) (s : PidNetStats)
      → s.tx_bytes ≤ u64_max
      → s.rx_bytes ≤ u64_max
      → net.get_ptr_mut m k ≡ some s
      → net.get_ptr_mut (step e m) k ≡ some (plus s (sent k e) (received k e))
  unfolding trace_recvmsg try_recvmsg
  counted-step (NetEvent.sendmsg arg current) m k s ht hr e =
      counted-sendmsg arg current m k s ht hr e
  counted-step (NetEvent.recvmsg ret current) m k s ht hr e =
      counted-add_received (unwrap_or ret (pos 0)) (comm_or_zeros current) m k s ht hr e

  -- From when a process has an entry, with counters in `u64`, the map counts exactly what it sends
  -- and what it receives, whatever the other processes do in between; a failed or an empty read
  -- counts nothing, and the counters stop at the largest `u64`.
  pub run-counts :
      (es : List NetEvent) (m : net.State) (k : Bytes) (s : PidNetStats)
      → s.tx_bytes ≤ u64_max
      → s.rx_bytes ≤ u64_max
      → net.get_ptr_mut m k ≡ some s
      → net.get_ptr_mut (run es m) k ≡ some (plus s (total (sent k) es) (total (received k) es))
  run-counts [] m k s ht hr e = rw (plus-zero s ht hr) e
  run-counts (e ∷ es) m k s ht hr h =
      run-counts es (step e m) k (plus s (sent k e) (received k e)) (omega arith) (omega arith)
        (counted-step e m k s ht hr h)
      ∙ rw
          (
            saturating_twice s.tx_bytes (sent k e) (total (sent k) es),
            saturating_twice s.rx_bytes (received k e) (total (received k) es),
          )
          refl
