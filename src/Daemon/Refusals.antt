-- ===== src/Daemon/Refusals.antt =====
-- What the daemon of crates/heimwatch-daemon/src/lib.rs does when the database refuses an event.
use heimwatch.Prelude.{ℕ, ◌≡◌, refl, Bool, true, false, List, [], ◌∷◌, ◌++◌, some}
use heimwatch.Storage.{Env, StorageLayer}
use heimwatch.Storage.Write.{persist_event}
use heimwatch.Daemon.{
  Phase, Event, Daemon, Happening, act, persist_next, receive_event, close, step, run,
}
use heimwatch.Daemon.Handed.{persist_all}
use heimwatch.Daemon.Drained.{receives}

module _ (env : Env) where
  -- Events with what the database makes of each: it stores it or refuses it.
  abbrev pub Verdicts : Type 0
  Verdicts = List (Event env × Bool)

  abbrev pub queued : Verdicts → List (Event env)
  queued [] = []
  queued ((e, stored) ∷ l) = e ∷ queued l

  abbrev pub received : Verdicts → List (Happening env)
  received [] = []
  received ((e, stored) ∷ l) = Happening.receive stored ∷ received l

  abbrev pub accepted : Verdicts → List (Event env)
  accepted [] = []
  accepted ((e, true) ∷ l) = e ∷ accepted l
  accepted ((e, false) ∷ l) = accepted l

  abbrev pub at_phase : StorageLayer env → List (Event env) → ℕ → Phase → Daemon env
  at_phase st q n p = record { storage = st; queue = q; senders = n; phase = p }

  run-loop_refusal :
      (q : List (Event env)) (e : Event env) (later : List (Event env)) (n : ℕ)
      (st : StorageLayer env)
      → run env
          (receives env q ++ Happening.receive false ∷ [])
          (at_phase st (q ++ e ∷ later) n Phase.running)
        ≡ some (at_phase (persist_all env q st) later n Phase.failed)
  unfolding run step act receive_event persist_next
  run-loop_refusal [] e later n st = refl
  run-loop_refusal (f ∷ q) e later n st = run-loop_refusal q e later n (persist_event env f st)

  run-drain_refusals :
      (l : Verdicts) (st : StorageLayer env)
      → run env (received l ++ Happening.closed ∷ []) (at_phase st (queued l) 0 Phase.draining)
        ≡ some (at_phase (persist_all env (accepted l) st) [] 0 Phase.completed)
  unfolding run step act close receive_event persist_next
  run-drain_refusals [] st = refl
  run-drain_refusals ((e, true) ∷ l) st = run-drain_refusals l (persist_event env e st)
  run-drain_refusals ((e, false) ∷ l) st = run-drain_refusals l st

  -- An event that the database refuses ends the loop with an error: what came before it is stored, and
  -- it and the rest of the queue are not. In the drain after the signal the events that are refused are
  -- passed over: all others of the queue are stored, in their order, and `run` completes.
  pub run_refusals :
      (q : List (Event env)) (e : Event env) (later : List (Event env)) (n : ℕ) (l : Verdicts)
      (st : StorageLayer env)
      → (run env
            (receives env q ++ Happening.receive false ∷ [])
            (at_phase st (q ++ e ∷ later) n Phase.running)
          ≡ some (at_phase (persist_all env q st) later n Phase.failed))
        × (run env (received l ++ Happening.closed ∷ []) (at_phase st (queued l) 0 Phase.draining)
            ≡ some (at_phase (persist_all env (accepted l) st) [] 0 Phase.completed))
  run_refusals q e later n l st = (run-loop_refusal q e later n st, run-drain_refusals l st)
