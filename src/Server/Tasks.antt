-- ===== src/Server/Tasks.antt =====
-- server.rs, `run_server`: the setup of the sockets for the runtime, one receive task for each, the
-- housekeeping task, and the awaits of their handles in order. A task is woken by a change of the
-- shutdown flag, with the flag's value, or by an event; the runtime wakes the tasks in any order, and one
-- that finds both takes the flag first. The watch channel and the timers are the runtime's, and so is
-- whether a socket can be set up.
use heeler.Common.{
  ℕ, zero, suc, ◌+◌, Bool, true, false, not, ◌==◌, if◌then◌else◌, List, [], ◌∷◌, Option, none, some,
  drop, length, replicate, get_or, Result, ok, err, ◌>>=◌, ◌>>◌, reject_if,
}
use heeler.Clock.{ClockSource}
use heeler.Clock.System.{ClockJump}
use heeler.Access.{IpNets}
use heeler.Server.Loop.{Tick, Event, received, recv_failed, ticked, LoopState, housekeeping, step}

-- Whether the three calls on one socket succeed.
pub record SocketSetup : Type 0 where
  pub nonblocking_ok : Bool
  pub from_std_ok : Bool
  pub local_addr_ok : Bool

pub data SetupError : Type 0 where
  set_nonblocking_failed : SetupError
  from_std_failed : SetupError
  local_addr_failed : SetupError

pub data TaskKind : Type 0 where
  recv_loop : TaskKind
  housekeeping_loop : TaskKind

pub data Wake : Type 0 where
  flag_changed : Bool → Wake
  woken : Event → Wake

unfoldable pub set_up : SocketSetup → Result SetupError (Unit {0})
set_up s = do
  reject_if (not s.nonblocking_ok) set_nonblocking_failed
  reject_if (not s.from_std_ok) from_std_failed
  reject_if (not s.local_addr_ok) local_addr_failed

-- The tasks in the order of their handles. Those that were spawned before a setup fails are dropped with
-- their handles: nothing awaits them.
unfoldable pub spawn_tasks : List SocketSetup → Result SetupError (List TaskKind)
unfolding set_up
spawn_tasks [] = ok (housekeeping_loop ∷ [])
spawn_tasks (s ∷ sockets) = do set_up s; tasks ← spawn_tasks sockets; ok (recv_loop ∷ tasks)

abbrev pub stop_task : ℕ → List Bool → List Bool
stop_task i [] = []
stop_task zero (task ∷ tasks) = false ∷ tasks
stop_task (suc i) (task ∷ tasks) = task ∷ stop_task i tasks

-- How many handles in a row an await finds done.
abbrev pub stopped_first : List Bool → ℕ
stopped_first [] = 0
stopped_first (true ∷ tasks) = 0
stopped_first (false ∷ tasks) = suc (stopped_first tasks)

module _ {S : Type 0} (clock_source : ClockSource S) (nets : IpNets)
    (system_clock : Option (Tick → S → Option ClockJump × S)) where
  -- One turn of a task's loop, and whether it goes on. The timer does not wake a receive task, nor a
  -- datagram the housekeeping.
  unfoldable pub recv_turn :
      LoopState clock_source nets system_clock
      → Wake
      → LoopState clock_source nets system_clock × Bool
  unfolding step
  recv_turn l (flag_changed on) = (l, not on)
  recv_turn l (woken (received a)) = ((step clock_source nets system_clock l (received a)).0, true)
  recv_turn l (woken recv_failed) = ((step clock_source nets system_clock l recv_failed).0, true)
  recv_turn l (woken (ticked tick)) = (l, true)

  unfoldable pub housekeeping_turn :
      LoopState clock_source nets system_clock
      → Wake
      → LoopState clock_source nets system_clock × Bool
  unfolding housekeeping
  housekeeping_turn l (flag_changed on) = (l, not on)
  housekeeping_turn l (woken (received a)) = (l, true)
  housekeeping_turn l (woken recv_failed) = (l, true)
  housekeeping_turn l (woken (ticked tick)) =
      (housekeeping clock_source nets system_clock l tick, true)

  abbrev pub turn :
      TaskKind
      → LoopState clock_source nets system_clock
      → Wake
      → LoopState clock_source nets system_clock × Bool
  turn recv_loop = recv_turn
  turn housekeeping_loop = housekeeping_turn

  -- The server, its tasks, which of them run, and how many handles have been awaited.
  pub record Tasks : Type 0 where
    pub loop : LoopState clock_source nets system_clock
    pub kinds : List TaskKind
    pub running : List Bool
    pub awaited : ℕ

  abbrev pub turned : Tasks → ℕ → LoopState clock_source nets system_clock × Bool → Tasks
  turned t i (l, goes_on) = record t {
    loop = l;
    running = if goes_on then t.running else stop_task i t.running;
  }

  -- A task that has returned is woken no more.
  unfoldable pub wake : Tasks → ℕ → Wake → Tasks
  unfolding recv_turn housekeeping_turn
  wake t i w =
      if get_or t.running i false
      then turned t i (turn (get_or t.kinds i housekeeping_loop) t.loop w)
      else t

  -- `run_server` itself, after a wake: it goes on to the next handle while the task has returned.
  abbrev pub await_tasks : Tasks → Tasks
  await_tasks t = record t { awaited = t.awaited + stopped_first (drop t.awaited t.running) }

  unfoldable pub run_tasks : Tasks → List (ℕ × Wake) → Tasks
  unfolding wake
  run_tasks t [] = t
  run_tasks t ((i, w) ∷ wakes) = run_tasks (await_tasks (wake t i w)) wakes

  abbrev pub spawned : LoopState clock_source nets system_clock → List TaskKind → Tasks
  spawned l kinds = record {
    loop = l;
    kinds = kinds;
    running = replicate (length kinds) true;
    awaited = 0;
  }

  -- `none` while it awaits a task.
  abbrev pub finished : Tasks → Option (Result SetupError (Unit {0}))
  finished t = if t.awaited == length t.kinds then some (ok tt) else none

  unfoldable pub run_server :
      LoopState clock_source nets system_clock
      → List SocketSetup
      → List (ℕ × Wake)
      → Option (Result SetupError (Unit {0}))
  unfolding spawn_tasks run_tasks
  run_server l sockets wakes = elim (spawn_tasks sockets) [
    | err e ↦ some (err e)
    | ok kinds ↦ finished (run_tasks (spawned l kinds) wakes)
  ]
