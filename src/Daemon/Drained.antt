-- ===== src/Daemon/Drained.antt =====
-- What the daemon of crates/heimwatch-daemon/src/lib.rs has stored when it returns, and that it can
-- always return.
use heimwatch.Prelude.{
  ℕ, zero, suc, ◌≡◌, refl, sym, ap, ◌∙◌, true, false, List, [], ◌∷◌, ◌++◌, some, append-nil,
}
use heimwatch.Storage.{Env, StorageLayer}
use heimwatch.Storage.Write.{persist_event}
use heimwatch.Daemon.{
  Phase, Event, Daemon, Happening, act, has_returned, exit_collector, persist_next, receive_event,
  interrupt, close, step, run, spawned,
}
use heimwatch.Daemon.Handed.{persist_all, sent, Obliging, run-HandsOn, run-completed}

module _ (env : Env) where
  -- When `run` completes, and the database has stored what was received, then every event that the
  -- collectors sent, before the signal and after it, has been stored, in the order in which they were
  -- sent, on top of what the database held.
  pub run_stores_all :
      (collectors : ℕ) (s : StorageLayer env) (hs : List (Happening env)) (d : Daemon env)
      → run env hs (spawned env collectors s) ≡ some d
      → Obliging env hs
      → d.phase ≡ Phase.completed
      → d.storage ≡ persist_all env (sent env hs) s
  unfolding spawned
  run_stores_all collectors s hs d r ok c =
      let (done, (stored, order)) = run-HandsOn env hs (spawned env collectors s) d r ok in
      let empty = run-completed env hs (spawned env collectors s) d refl r c in
      let all : sent env hs ≡ done = order ∙ ap (λ x. done ++ x) empty ∙ append-nil done in
      stored ∙ ap (λ es. persist_all env es s) (sym all)

  abbrev pub exits : ℕ → List (Happening env)
  exits zero = []
  exits (suc n) = Happening.collector_exit ∷ exits n

  abbrev pub receives : List (Event env) → List (Happening env)
  receives [] = []
  receives (e ∷ q) = Happening.receive true ∷ receives q

  run-receives :
      (q : List (Event env)) (st : StorageLayer env)
      → run env
          (receives q ++ Happening.closed ∷ [])
          (record { storage = st; queue = q; senders = 0; phase = Phase.draining })
        ≡ some (record {
          storage = persist_all env q st;
          queue = [];
          senders = 0;
          phase = Phase.completed;
        })
  unfolding run step act close receive_event persist_next
  run-receives [] st = refl
  run-receives (e ∷ q) st = run-receives q (persist_event env e st)

  run-exits :
      (n : ℕ) (q : List (Event env)) (st : StorageLayer env)
      → run env
          (exits n ++ (receives q ++ Happening.closed ∷ []))
          (record { storage = st; queue = q; senders = n; phase = Phase.draining })
        ≡ some (record {
          storage = persist_all env q st;
          queue = [];
          senders = 0;
          phase = Phase.completed;
        })
  unfolding run step act exit_collector
  run-exits zero q st = run-receives q st
  run-exits (suc n) q st = run-exits n q st

  -- The signal, unless it has come already; the collectors' exits; the rest of the queue; the end.
  abbrev pub shutdown : Daemon env → List (Happening env)
  shutdown d =
      let rest = exits d.senders ++ (receives d.queue ++ Happening.closed ∷ []) in
      elim d.phase [ Phase.running ↦ Happening.ctrl_c ∷ rest | _ ↦ rest ]

  -- From every state in which `run` has not returned it can return: after the signal, unless it has come
  -- already, the exits of the collectors that are left and as many receptions as the queue is long, it
  -- completes, and every event of the queue is stored, in its order.
  pub run-shutdown :
      (st : StorageLayer env) (q : List (Event env)) (n : ℕ) (p : Phase)
      → has_returned env p ≡ false
      → run env
          (shutdown (record { storage = st; queue = q; senders = n; phase = p }))
          (record { storage = st; queue = q; senders = n; phase = p })
        ≡ some (record {
          storage = persist_all env q st;
          queue = [];
          senders = 0;
          phase = Phase.completed;
        })
  unfolding run step act interrupt
  run-shutdown st q n Phase.running a = run-exits n q st
  run-shutdown st q n Phase.draining a = run-exits n q st
  run-shutdown st q n Phase.completed a = cc
  run-shutdown st q n Phase.failed a = cc
