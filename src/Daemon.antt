-- ===== src/Daemon.antt =====
-- crates/heimwatch-daemon/src/lib.rs, `run`: the loop over the events of the collectors, the signal
-- that ends it, and the drain of the channel. What the tasks, the channel, the signal and the database
-- do is a list of happenings, in any order that the channel allows.
pub mod Handed
pub mod Drained
pub mod Refusals
use mathlib.Core.List.{foldl}
use heimwatch.Prelude.{
  ℕ, zero, suc, ◌+◌, Bool, true, false, List, [], ◌∷◌, ◌++◌, Option, none, some, length, ltb,
  if◌then◌else◌,
}
use heimwatch.Storage.{Env, StorageLayer}
use heimwatch.Storage.Write.{CollectorEvent, persist_event}

-- `mpsc::channel::<CollectorEvent>(256)`
abbrev pub channel_capacity : ℕ
channel_capacity = 256

-- The loop over events, the drain after the signal, and the two ways to return.
pub data Phase : Type 0 where
  running draining completed failed : Phase

module _ (env : Env) where
  abbrev pub Event : Type 0
  Event = CollectorEvent env.floats.F32

  -- The tasks that still hold a sender are counted in `senders`.
  pub record Daemon : Type 0 where
    pub storage : StorageLayer env
    pub queue : List Event
    pub senders : ℕ
    pub phase : Phase

  -- A collector sends an event or exits; the daemon receives one, which the database stores or
  -- refuses; Ctrl+C is pressed; the daemon finds the channel closed.
  pub data Happening : Type 0 where
    send : Event → Happening
    collector_exit : Happening
    receive : Bool → Happening
    ctrl_c : Happening
    closed : Happening

  -- A send waits while the channel is full.
  unfoldable pub send_event : Event → Daemon → ℕ → Option Daemon
  send_event e d zero = none
  send_event e d (suc others) =
      if ltb (length d.queue) channel_capacity
      then some (record d { queue = d.queue ++ e ∷ [] })
      else none

  unfoldable pub exit_collector : Daemon → ℕ → Option Daemon
  exit_collector d zero = none
  exit_collector d (suc others) = some (record d { senders = others })

  -- `persist_event(&storage, event)?` in the loop, and `if let Err(e)` with a warning in the drain.
  unfoldable pub persist_next : Bool → Event → List Event → Daemon → Phase → Option Daemon
  persist_next true e rest d Phase.running =
      some (record d { storage = persist_event env e d.storage; queue = rest })
  persist_next true e rest d Phase.draining =
      some (record d { storage = persist_event env e d.storage; queue = rest })
  persist_next false e rest d Phase.running = some (record d { queue = rest; phase = Phase.failed })
  persist_next false e rest d Phase.draining = some (record d { queue = rest })
  persist_next stored e rest d Phase.completed = none
  persist_next stored e rest d Phase.failed = none

  unfoldable pub receive_event : Bool → Daemon → List Event → Option Daemon
  unfolding persist_next
  receive_event stored d [] = none
  receive_event stored d (e ∷ rest) = persist_next stored e rest d d.phase

  unfoldable pub interrupt : Daemon → Phase → Option Daemon
  interrupt d Phase.running = some (record d { phase = Phase.draining })
  interrupt d _ = none

  -- `recv` gives `None` once the channel is empty and no sender is left. In the loop that branch of
  -- `select!` is then disabled, and the loop goes on to wait for the signal.
  unfoldable pub close : Daemon → Phase → ℕ → List Event → Option Daemon
  close d Phase.draining zero [] = some (record d { phase = Phase.completed })
  close d _ _ _ = none

  unfoldable pub act : Happening → Daemon → Option Daemon
  unfolding send_event exit_collector receive_event interrupt close
  act (Happening.send e) d = send_event e d d.senders
  act Happening.collector_exit d = exit_collector d d.senders
  act (Happening.receive stored) d = receive_event stored d d.queue
  act Happening.ctrl_c d = interrupt d d.phase
  act Happening.closed d = close d d.phase d.senders d.queue

  abbrev pub has_returned : Phase → Bool
  has_returned Phase.running = false
  has_returned Phase.draining = false
  has_returned Phase.completed = true
  has_returned Phase.failed = true

  -- Nothing happens any more once `run` has returned.
  unfoldable pub step : Happening → Daemon → Option Daemon
  step h d = if has_returned d.phase then none else act h d

  unfoldable pub run : List Happening → Daemon → Option Daemon
  run [] d = some d
  run (h ∷ hs) d = elim (step h d) [ none ↦ none | some next ↦ run hs next ]

  -- The daemon after its collectors were spawned.
  unfoldable pub spawned : ℕ → StorageLayer env → Daemon
  spawned collectors storage = record {
    storage = storage;
    queue = [];
    senders = collectors;
    phase = Phase.running;
  }
