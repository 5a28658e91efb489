-- ===== src/Ebpf/Sched.antt =====
-- The time that the scheduler's probe of bpf/heimwatch-ebpf/src/main.rs counts for a process.
use heimwatch.Prelude.{
  ℕ, ◌-◌, ◌<◌, ◌≡◌, refl, ap, ◌∙◌, false, List, [], ◌∷◌, some, arith, Bytes, eq_bytes, eq_bytes_iff,
  eq_bytes_refl, ◌++◌, if◌then◌else◌, saturating_add, ltb, Bool-cases, Option-cases, inl, inr,
}
use heimwatch.Prelude.Int.{ℤ}
use heimwatch.Error.{Result, ok, err}
use heimwatch.Ebpf.Map.{BpfMap, update_or_insert-some}
use heimwatch.Ebpf.{
  PidCpuStats, SchedSwitchArgs, is_comm_empty, sched_out, sched_in, try_sched_switch,
  trace_sched_switch,
}

-- A switch at a time.
abbrev pub Switch : Type 0
Switch = ℕ × Result ℤ SchedSwitchArgs

-- What a switch does to one process's entry: the time since it came on is added when it goes off.
abbrev pub off : ℕ → PidCpuStats → PidCpuStats
off now s = record {
  cpu_time_ns =
      if ltb 0 s.last_sched_in_ns
      then saturating_add s.cpu_time_ns (now - s.last_sched_in_ns)
      else s.cpu_time_ns;
  last_sched_in_ns = 0;
}

abbrev pub on : ℕ → PidCpuStats → PidCpuStats
on now s = record s { last_sched_in_ns = now }

module _ (cpu : BpfMap PidCpuStats) where
  out-entry :
      (now : ℕ) (comm k : Bytes) (m : cpu.State) (s : PidCpuStats)
      → is_comm_empty k ≡ false
      → cpu.get_ptr_mut m k ≡ some s
      → cpu.get_ptr_mut (sched_out cpu now comm m) k
        ≡ some (if eq_bytes comm k then off now s else s)
  unfolding sched_out
  out-entry now comm k m s named e = elim (Bool-cases (eq_bytes comm k)) [
    | inl own ↦
        let same = (eq_bytes_iff comm k).0 own in
        let full : is_comm_empty comm ≡ false = rw same named in
        let found : cpu.get_ptr_mut m comm ≡ some s = rw same e in
        rw (full, found) (cpu.get-write m comm (off now s) s k found ∙ rw own refl)
    | inr other ↦ elim (Bool-cases (is_comm_empty comm)) [
      | inl empty ↦ rw (empty, other) e
      | inr full ↦ elim (Option-cases (cpu.get_ptr_mut m comm)) [
        | inl absent ↦ rw (full, absent, other) e
        | inr (t, found) ↦ rw (full, found) (cpu.get-write m comm _ t k found ∙ rw other e)
      ]
    ]
  ]

  in-entry :
      (now : ℕ) (comm k : Bytes) (m : cpu.State) (s : PidCpuStats)
      → is_comm_empty k ≡ false
      → cpu.get_ptr_mut m k ≡ some s
      → cpu.get_ptr_mut (sched_in cpu now comm m) k ≡ some (if eq_bytes comm k then on now s else s)
  unfolding sched_in
  in-entry now comm k m s named e = elim (Bool-cases (is_comm_empty comm)) [
    | inl empty ↦ elim (Bool-cases (eq_bytes comm k)) [
      | inl own ↦
          let full : is_comm_empty comm ≡ false = rw ((eq_bytes_iff comm k).0 own) named in cc
      | inr other ↦ rw (empty, other) e
    ]
    | inr full ↦ rw full (update_or_insert-some cpu comm _ _ m k s e)
  ]

  abbrev pub run : List Switch → cpu.State → cpu.State
  run [] m = m
  run ((now, args) ∷ es) m = run es (trace_sched_switch cpu now args m).1

-- The same for one process alone.
abbrev pub entry : Bytes → Switch → PidCpuStats → PidCpuStats
entry k (now, err e) s = s
entry k (now, ok args) s =
    let s' = if eq_bytes args.prev_comm k then off now s else s in
    if eq_bytes args.next_comm k then on now s' else s'

abbrev pub entries : Bytes → List Switch → PidCpuStats → PidCpuStats
entries k [] s = s
entries k (e ∷ es) s = entries k es (entry k e s)

module _ (cpu : BpfMap PidCpuStats) where
  -- For a process with a name and an entry, what the map holds after any switches is what the
  -- process alone makes of its entry: it depends on no other process.
  pub run-entries :
      (es : List Switch) (m : cpu.State) (k : Bytes) (s : PidCpuStats)
      → is_comm_empty k ≡ false
      → cpu.get_ptr_mut m k ≡ some s
      → cpu.get_ptr_mut (run cpu es m) k ≡ some (entries k es s)
  unfolding trace_sched_switch try_sched_switch
  run-entries [] m k s named e = e
  run-entries ((now, err x) ∷ es) m k s named e = run-entries es m k s named e
  run-entries ((now, ok args) ∷ es) m k s named e = run-entries es _ k _ named (
      in-entry cpu now args.next_comm k (sched_out cpu now args.prev_comm m) _ named
        (out-entry cpu now args.prev_comm k m s named e))

-- Neither from nor to the process.
abbrev pub Quiet : Bytes → List Switch → Type 0
Quiet k [] = Unit
Quiet k ((now, err e) ∷ es) = Quiet k es
Quiet k ((now, ok args) ∷ es) =
    (eq_bytes args.prev_comm k ≡ false) × (eq_bytes args.next_comm k ≡ false) × Quiet k es

entries-Quiet : (k : Bytes) (es : List Switch) (s : PidCpuStats) → Quiet k es → entries k es s ≡ s
entries-Quiet k [] s q = refl
entries-Quiet k ((now, err e) ∷ es) s q = entries-Quiet k es s q
entries-Quiet k ((now, ok args) ∷ es) s (p, n, q) = rw (p, n) (entries-Quiet k es s q)

entries-append :
    (k : Bytes) (es fs : List Switch) (s : PidCpuStats)
    → entries k (es ++ fs) s ≡ entries k fs (entries k es s)
entries-append k [] fs s = refl
entries-append k (e ∷ es) fs s = entries-append k es fs (entry k e s)

abbrev pub switch : ℕ → Bytes → Bytes → Switch
switch now prev next = (now, ok (record { prev_comm = prev; next_comm = next }))

abbrev pub stopped : ℕ → PidCpuStats
stopped ns = record { cpu_time_ns = ns; last_sched_in_ns = 0 }

module _ (cpu : BpfMap PidCpuStats) (k other : Bytes) (named : is_comm_empty k ≡ false)
    (differ : eq_bytes other k ≡ false) where
  entry-on : (now : ℕ) (s : PidCpuStats) → entry k (switch now other k) s ≡ on now s
  entry-on now s = rw (differ, eq_bytes_refl k) refl

  entry-off : (now : ℕ) (s : PidCpuStats) → entry k (switch now k other) s ≡ off now s
  entry-off now s = rw (differ, eq_bytes_refl k) refl

  -- A named process with an entry that comes on at `start`, which is not 0, and goes off at `end`,
  -- with any switches among the others in between, has exactly `end - start` nanoseconds added to
  -- its time, up to the largest `u64`, and is marked as off.
  pub run-interval :
      (start end : ℕ) (es : List Switch) (m : cpu.State) (s : PidCpuStats)
      → 0 < start
      → Quiet k es
      → cpu.get_ptr_mut m k ≡ some s
      → cpu.get_ptr_mut (run cpu (switch start other k ∷ (es ++ switch end k other ∷ [])) m) k
        ≡ some (stopped (saturating_add s.cpu_time_ns (end - start)))
  run-interval start end es m s h q e =
      run-entries cpu (switch start other k ∷ (es ++ switch end k other ∷ [])) m k s named e
      ∙ ap some (
          entries-append k es (switch end k other ∷ []) (entry k (switch start other k) s)
          ∙ ap (λ x. entry k (switch end k other) (entries k es x)) (entry-on start s)
          ∙ ap (entry k (switch end k other)) (entries-Quiet k es (on start s) q)
          ∙ entry-off end (on start s)
          ∙ ap stopped (ground arith))

  -- Two processes of one name with an entry, on two processors: the first comes on at `a` and goes
  -- off at `c`, the second comes on at `b`, which is not 0, and goes off at `d`, in the order a,
  -- b, c, d. Only the time from `b` to `c` is counted.
  pub run-overlap :
      (a b c d : ℕ) (m : cpu.State) (s : PidCpuStats)
      → 0 < b
      → cpu.get_ptr_mut m k ≡ some s
      → cpu.get_ptr_mut
          (run cpu
            (switch a other k ∷ switch b other k ∷ switch c k other ∷ switch d k other ∷ [])
            m)
          k
        ≡ some (stopped (saturating_add s.cpu_time_ns (c - b)))
  run-overlap a b c d m s h e =
      run-entries cpu
        (switch a other k ∷ switch b other k ∷ switch c k other ∷ switch d k other ∷ []) m k s named
        e
      ∙ rw (differ, eq_bytes_refl k) (ap (λ n. some (stopped n)) (ground arith))
