-- ===== src/Daemon/Handed.antt =====
-- That the daemon of crates/heimwatch-daemon/src/lib.rs hands the events on in their order: what is
-- stored and what is still in the channel make up what was sent.
use heimwatch.Prelude.{
  ℕ, zero, suc, ◌≡◌, refl, sym, ap, ◌∙◌, true, false, List, [], ◌∷◌, ◌++◌, some, arith, length, ltb,
  append_assoc, append-nil, Option-cases, Bool-cases, inl, inr,
}
use heimwatch.Storage.{Env, StorageLayer}
use heimwatch.Storage.Write.{persist_event}
use heimwatch.Daemon.{
  Phase, Event, Daemon, Happening, act, has_returned, channel_capacity, send_event, exit_collector,
  persist_next, receive_event, interrupt, close, step, run,
}

module _ (env : Env) where
  abbrev pub persist_all : List (Event env) → StorageLayer env → StorageLayer env
  persist_all [] s = s
  persist_all (e ∷ es) s = persist_all es (persist_event env e s)

  abbrev pub sent : List (Happening env) → List (Event env)
  sent [] = []
  sent (Happening.send e ∷ hs) = e ∷ sent hs
  sent (h ∷ hs) = sent hs

  -- The database stores every event that is received.
  abbrev pub Obliging : List (Happening env) → Type 0
  Obliging [] = Unit {0}
  Obliging (Happening.receive false ∷ hs) = ⊥
  Obliging (h ∷ hs) = Obliging hs

  -- What has been handed on: the storage holds `done` on top of what it held, and the queue before and
  -- what was sent are `done` and the queue after, in this order.
  abbrev pub HandsOn : Daemon env → List (Event env) → Daemon env → List (Event env) → Type 0
  HandsOn d new d' done =
      (d'.storage ≡ persist_all done d.storage) × (d.queue ++ new ≡ done ++ d'.queue)

  some_eq : {A : Type 0} {a b : A} → some a ≡ some b → a ≡ b
  some_eq h = cc

  send_event-HandsOn :
      (e : Event env) (d d' : Daemon env) (n : ℕ)
      → send_event env e d n ≡ some d'
      → HandsOn d (e ∷ []) d' []
  unfolding send_event
  send_event-HandsOn e d d' zero h = cc
  send_event-HandsOn e d d' (suc n) h = elim (Bool-cases (ltb (length d.queue) channel_capacity)) [
    | inl room ↦ rw (sym (some_eq (rw room at h))) (refl, refl)
    | inr full ↦ let bad = rw full at h in cc
  ]

  exit_collector-HandsOn :
      (d d' : Daemon env) (n : ℕ) → exit_collector env d n ≡ some d' → HandsOn d [] d' []
  unfolding exit_collector
  exit_collector-HandsOn d d' zero h = cc
  exit_collector-HandsOn d d' (suc n) h = rw (sym (some_eq h)) (refl, append-nil d.queue)

  persist_next-HandsOn :
      (e : Event env) (rest : List (Event env)) (d d' : Daemon env) (p : Phase)
      → persist_next env true e rest d p ≡ some d'
      → (d'.storage ≡ persist_event env e d.storage) × (d'.queue ≡ rest)
  unfolding persist_next
  persist_next-HandsOn e rest d d' Phase.running h = rw (sym (some_eq h)) (refl, refl)
  persist_next-HandsOn e rest d d' Phase.draining h = rw (sym (some_eq h)) (refl, refl)
  persist_next-HandsOn e rest d d' Phase.completed h = cc
  persist_next-HandsOn e rest d d' Phase.failed h = cc

  receive_event-HandsOn :
      (d d' : Daemon env) (q : List (Event env))
      → receive_event env true d q ≡ some d'
      → (done : List (Event env)) × (d'.storage ≡ persist_all done d.storage)
        × (q ++ [] ≡ done ++ d'.queue)
  unfolding receive_event
  receive_event-HandsOn d d' [] h = cc
  receive_event-HandsOn d d' (e ∷ rest) h =
      let (stored, left) = persist_next-HandsOn e rest d d' d.phase h in
      (e ∷ [], stored, rw left (append-nil (e ∷ rest)))

  interrupt-HandsOn :
      (d d' : Daemon env) (p : Phase) → interrupt env d p ≡ some d' → HandsOn d [] d' []
  unfolding interrupt
  interrupt-HandsOn d d' Phase.running h = rw (sym (some_eq h)) (refl, append-nil d.queue)
  interrupt-HandsOn d d' Phase.draining h = cc
  interrupt-HandsOn d d' Phase.completed h = cc
  interrupt-HandsOn d d' Phase.failed h = cc

  close-HandsOn :
      (d d' : Daemon env) (p : Phase) (n : ℕ) (q : List (Event env))
      → close env d p n q ≡ some d'
      → HandsOn d [] d' [] × (d'.phase ≡ Phase.completed) × (q ≡ []) × (d'.queue ≡ d.queue)
  unfolding close
  close-HandsOn d d' Phase.draining zero [] h =
      rw (sym (some_eq h)) ((refl, append-nil d.queue), refl, refl, refl)
  close-HandsOn d d' Phase.draining zero (e ∷ q) h = cc
  close-HandsOn d d' Phase.draining (suc n) q h = cc
  close-HandsOn d d' Phase.running n q h = cc
  close-HandsOn d d' Phase.completed n q h = cc
  close-HandsOn d d' Phase.failed n q h = cc

  act-HandsOn :
      (h : Happening env) (d d' : Daemon env)
      → act env h d ≡ some d'
      → Obliging (h ∷ [])
      → (done : List (Event env)) × HandsOn d (sent (h ∷ [])) d' done
  unfolding act
  act-HandsOn (Happening.send e) d d' s ok = ([], send_event-HandsOn e d d' d.senders s)
  act-HandsOn Happening.collector_exit d d' s ok = ([], exit_collector-HandsOn d d' d.senders s)
  act-HandsOn (Happening.receive true) d d' s ok =
      let (done, stored, left) = receive_event-HandsOn d d' d.queue s in (done, (stored, left))
  act-HandsOn (Happening.receive false) d d' s ok = absurd ok
  act-HandsOn Happening.ctrl_c d d' s ok = ([], interrupt-HandsOn d d' d.phase s)
  act-HandsOn Happening.closed d d' s ok = ([], (close-HandsOn d d' d.phase d.senders d.queue s).0)

  step-act :
      (h : Happening env) (d d' : Daemon env)
      → step env h d ≡ some d'
      → (has_returned env d.phase ≡ false) × (act env h d ≡ some d')
  unfolding step
  step-act h d d' s = elim (Bool-cases (has_returned env d.phase)) [
    | inl e ↦ let bad = rw e at s in cc
    | inr e ↦ (e, rw e at s)
  ]

  sent-cons :
      (h : Happening env) (hs : List (Happening env)) → sent (h ∷ hs) ≡ sent (h ∷ []) ++ sent hs
  sent-cons (Happening.send e) hs = refl
  sent-cons Happening.collector_exit hs = refl
  sent-cons (Happening.receive stored) hs = refl
  sent-cons Happening.ctrl_c hs = refl
  sent-cons Happening.closed hs = refl

  Obliging-cons :
      (h : Happening env) (hs : List (Happening env))
      → Obliging (h ∷ hs)
      → Obliging (h ∷ []) × Obliging hs
  Obliging-cons (Happening.send e) hs ok = (tt, ok)
  Obliging-cons Happening.collector_exit hs ok = (tt, ok)
  Obliging-cons (Happening.receive true) hs ok = (tt, ok)
  Obliging-cons (Happening.receive false) hs ok = absurd ok
  Obliging-cons Happening.ctrl_c hs ok = (tt, ok)
  Obliging-cons Happening.closed hs ok = (tt, ok)

  persist_all-append :
      (xs ys : List (Event env)) (s : StorageLayer env)
      → persist_all (xs ++ ys) s ≡ persist_all ys (persist_all xs s)
  persist_all-append [] ys s = refl
  persist_all-append (x ∷ xs) ys s = persist_all-append xs ys (persist_event env x s)

  HandsOn-trans :
      (d m d' : Daemon env) (s1 s2 done1 done2 : List (Event env))
      → HandsOn d s1 m done1
      → HandsOn m s2 d' done2
      → HandsOn d (s1 ++ s2) d' (done1 ++ done2)
  HandsOn-trans d m d' s1 s2 done1 done2 (a, p) (b, q) = (
    b ∙ ap (persist_all done2) a ∙ sym (persist_all-append done1 done2 d.storage),
    sym (append_assoc d.queue s1 s2)
        ∙ ap (λ x. x ++ s2) p
        ∙ append_assoc done1 m.queue s2
        ∙ ap (λ x. done1 ++ x) q
        ∙ sym (append_assoc done1 done2 d'.queue),
  )

  -- A happening of a run, and the rest of it.
  run-cons :
      (h : Happening env) (hs : List (Happening env)) (d d' : Daemon env)
      → run env (h ∷ hs) d ≡ some d'
      → (m : Daemon env) × (step env h d ≡ some m) × (run env hs m ≡ some d')
  unfolding run
  run-cons h hs d d' s = elim (Option-cases (step env h d)) [
    | inl e ↦ let bad = rw (e, run) at s in cc
    | inr (m, e) ↦ (m, e, rw (e, run) at s)
  ]

  pub run-HandsOn :
      (hs : List (Happening env)) (d d' : Daemon env)
      → run env hs d ≡ some d'
      → Obliging hs
      → (done : List (Event env)) × HandsOn d (sent hs) d' done
  run-HandsOn [] d d' s ok = ([], unfold run in (rw (sym (some_eq s)) (refl, append-nil d.queue)))
  run-HandsOn (h ∷ hs) d d' s ok =
      let (m, first, rest) = run-cons h hs d d' s in
      let (here, later) = Obliging-cons h hs ok in
      let (done1, one) = act-HandsOn h d m (step-act h d m first).1 here in
      let (done2, two) = run-HandsOn hs m d' rest later in
      (done1 ++ done2, rw (sent-cons h hs) (HandsOn-trans d m d' _ _ done1 done2 one two))

  -- `run` completes only when the channel is empty.
  act-completed :
      (h : Happening env) (d d' : Daemon env)
      → has_returned env d.phase ≡ false
      → act env h d ≡ some d'
      → d'.phase ≡ Phase.completed
      → d'.queue ≡ []
  unfolding act send_event exit_collector receive_event persist_next interrupt close
  act-completed (Happening.send e) d d' a s c = ground arith
  act-completed Happening.collector_exit d d' a s c = ground arith
  act-completed (Happening.receive stored) d d' a s c = ground arith
  act-completed Happening.ctrl_c d d' a s c = ground arith
  act-completed Happening.closed d d' a s c = ground arith

  pub run-completed :
      (hs : List (Happening env)) (d d' : Daemon env)
      → has_returned env d.phase ≡ false
      → run env hs d ≡ some d'
      → d'.phase ≡ Phase.completed
      → d'.queue ≡ []
  run-completed [] d d' a s c =
      let same : d ≡ d' = some_eq (unfold run in s) in
      let bad : d.phase ≡ Phase.completed = rw same c in
      let ret : has_returned env d.phase ≡ true = rw bad refl in cc
  run-completed (h ∷ []) d d' a s c =
      let (m, first, rest) = run-cons h [] d d' s in
      let same : m ≡ d' = some_eq (unfold run in rest) in
      rw (sym same) (act-completed h d m a (step-act h d m first).1 (rw same c))
  run-completed (h ∷ g ∷ hs) d d' a s c =
      let (m, first, rest) = run-cons h (g ∷ hs) d d' s in
      let (n, second, more) = run-cons g hs m d' rest in
      run-completed (g ∷ hs) m d' (step-act g m n second).0 rest c
