-- ===== src/Server/Shutdown.antt =====
-- server.rs, `run_server`: when it returns.
use heeler.Common.{
  ℕ, zero, suc, ◌<◌, ◌≤◌, ◌≡◌, refl, ◌⊎◌, inl, inr, Bool, true, false, not, ◌&&◌, ◌||◌, ◌==◌,
  ==_iff, ◌↔◌, List, [], ◌∷◌, ◌++◌, Option, none, some, all, length, replicate, get_or, ok, err,
  arith, ap, ◌∙◌, Bool-cases,
}
use heeler.Clock.{ClockSource}
use heeler.Clock.System.{ClockJump}
use heeler.Access.{IpNets}
use heeler.Server.Setup.{is_set_up, spawn_tasks_cases}
use heeler.Server.Awaits.{
  get_or-stop_task, length-stop_task, stopped_first-stop_task, stopped_first-drop, all_stopped,
  idle_lem, get_or-replicate,
}
use heeler.Server.Loop.{Tick, received, recv_failed, ticked, LoopState}
use heeler.Server.Tasks.{
  SocketSetup, SetupError, TaskKind, recv_loop, housekeeping_loop, Wake, flag_changed, woken,
  set_up, stop_task, stopped_first, recv_turn, housekeeping_turn, turn, Tasks, turned, wake,
  await_tasks, run_tasks, spawned, finished, run_server,
}

-- Whether the wake tells this task to stop, and whether one of a sequence does.
abbrev pub flag_is_true : Wake → Bool
flag_is_true (flag_changed on) = on
flag_is_true (woken e) = false

abbrev pub sees_flag : ℕ → List (ℕ × Wake) → Bool
sees_flag i [] = false
sees_flag i ((j, w) ∷ wakes) = (flag_is_true w && i == j) || sees_flag i wakes

module _ {S : Type 0} (clock_source : ClockSource S) (nets : IpNets)
    (system_clock : Option (Tick → S → Option ClockJump × S)) where
  -- Both loops go on exactly if they do not see the flag true.
  turn-flag_is_true :
      (k : TaskKind) (l : LoopState clock_source nets system_clock) (w : Wake)
      → (turn clock_source nets system_clock k l w).1 ≡ not (flag_is_true w)
  unfolding recv_turn housekeeping_turn
  turn-flag_is_true recv_loop l (flag_changed on) = refl
  turn-flag_is_true recv_loop l (woken (received a)) = refl
  turn-flag_is_true recv_loop l (woken recv_failed) = refl
  turn-flag_is_true recv_loop l (woken (ticked tick)) = refl
  turn-flag_is_true housekeeping_loop l (flag_changed on) = refl
  turn-flag_is_true housekeeping_loop l (woken (received a)) = refl
  turn-flag_is_true housekeeping_loop l (woken recv_failed) = refl
  turn-flag_is_true housekeeping_loop l (woken (ticked tick)) = refl

  get_or-turned :
      (t : Tasks clock_source nets system_clock) (i j : ℕ)
      (r : LoopState clock_source nets system_clock × Bool) (told : Bool)
      → r.1 ≡ not told
      → get_or (turned clock_source nets system_clock t j r).running i false
        ≡ (get_or t.running i false && not (told && i == j))
  get_or-turned t i j r true e = rw e (get_or-stop_task i j t.running)
  get_or-turned t i j r false e = rw e (ground arith)

  get_or-wake :
      (t : Tasks clock_source nets system_clock) (i j : ℕ) (w : Wake)
      → get_or (wake clock_source nets system_clock t j w).running i false
        ≡ (get_or t.running i false && not (flag_is_true w && i == j))
  unfolding wake
  get_or-wake t i j w = elim (Bool-cases (get_or t.running j false)) [
    | inl e ↦
        rw (e, wake)
          (get_or-turned t i j
            (turn clock_source nets system_clock (get_or t.kinds j housekeeping_loop) t.loop w)
            (flag_is_true w) (turn-flag_is_true (get_or t.kinds j housekeeping_loop) t.loop w))
    | inr e ↦ rw (e, wake) (idle_lem t.running i j (flag_is_true w) e)
  ]

  get_or-run_tasks :
      (t : Tasks clock_source nets system_clock) (i : ℕ) (wakes : List (ℕ × Wake))
      → get_or (run_tasks clock_source nets system_clock t wakes).running i false
        ≡ (get_or t.running i false && not (sees_flag i wakes))
  unfolding run_tasks
  get_or-run_tasks t i [] = ground arith
  get_or-run_tasks t i ((j, w) ∷ wakes) =
      let next = wake clock_source nets system_clock t j w in
      ground (
        arith,
        get_or-run_tasks (await_tasks clock_source nets system_clock next) i wakes,
        get_or-wake t i j w,
      )

  -- The await has passed the tasks that have returned, up to the first that runs.
  record IsAwaiting (n : ℕ) (t : Tasks clock_source nets system_clock) : Type 0 where
    tasks_known : length t.kinds ≡ n
    running_known : length t.running ≡ n
    passed : t.awaited ≡ stopped_first t.running

  turned-IsAwaiting :
      (n : ℕ) (t : Tasks clock_source nets system_clock) (i : ℕ)
      (r : LoopState clock_source nets system_clock × Bool)
      → IsAwaiting n t
      → IsAwaiting n
          (await_tasks clock_source nets system_clock (turned clock_source nets system_clock t i r))
  turned-IsAwaiting n t i (l, true) h = record {
    tasks_known = h.tasks_known;
    running_known = h.running_known;
    passed = stopped_first-drop t.awaited t.running (omega (arith, h.passed));
  }
  turned-IsAwaiting n t i (l, false) h = record {
    tasks_known = h.tasks_known;
    running_known = length-stop_task i t.running ∙ h.running_known;
    passed =
        stopped_first-drop t.awaited (stop_task i t.running)
          (omega (arith, h.passed, stopped_first-stop_task i t.running));
  }

  wake-IsAwaiting :
      (n : ℕ) (t : Tasks clock_source nets system_clock) (i : ℕ) (w : Wake)
      → IsAwaiting n t
      → IsAwaiting n
          (await_tasks clock_source nets system_clock (wake clock_source nets system_clock t i w))
  unfolding wake
  wake-IsAwaiting n t i w h = elim (Bool-cases (get_or t.running i false)) [
    | inl e ↦ rw (e, wake) (turned-IsAwaiting n t i _ h)
    | inr e ↦ rw (e, wake) (turned-IsAwaiting n t i (t.loop, true) h)
  ]

  run_tasks-IsAwaiting :
      (n : ℕ) (t : Tasks clock_source nets system_clock) (wakes : List (ℕ × Wake))
      → IsAwaiting n t
      → IsAwaiting n (run_tasks clock_source nets system_clock t wakes)
  unfolding run_tasks
  run_tasks-IsAwaiting n t [] h = h
  run_tasks-IsAwaiting n t ((i, w) ∷ wakes) h =
      run_tasks-IsAwaiting n
        (await_tasks clock_source nets system_clock (wake clock_source nets system_clock t i w))
        wakes (wake-IsAwaiting n t i w h)

  spawned-IsAwaiting :
      (l : LoopState clock_source nets system_clock) (kinds : List TaskKind)
      → IsAwaiting (length kinds) (spawned clock_source nets system_clock l kinds)
  spawned-IsAwaiting l kinds = record {
    tasks_known = refl;
    running_known = length-replicate (length kinds);
    passed = none_stopped (length kinds);
  }
    where
      length-replicate : (n : ℕ) → length (replicate n true) ≡ n
      length-replicate zero = refl
      length-replicate (suc n) = ap suc (length-replicate n)

      none_stopped : (n : ℕ) → 0 ≡ stopped_first (replicate n true)
      none_stopped zero = refl
      none_stopped (suc n) = refl

  finished_lem :
      (t : Tasks clock_source nets system_clock)
      → ((finished clock_source nets system_clock t ≡ none)
          ⊎ (finished clock_source nets system_clock t ≡ some (ok tt)))
        × ((finished clock_source nets system_clock t ≡ some (ok tt))
            ↔ (t.awaited ≡ length t.kinds))
  finished_lem t = elim (Bool-cases (t.awaited == length t.kinds)) [
    | inl e ↦ rw e (inr refl, (λ h. (==_iff _ _).0 e, λ h. refl))
    | inr e ↦ rw e (inl refl, (λ h. cc, λ h. absurd (cc (e, (==_iff _ _).1 h))))
  ]

  finished-run_tasks :
      (l : LoopState clock_source nets system_clock) (kinds : List TaskKind)
      (wakes : List (ℕ × Wake))
      → let t =
          run_tasks clock_source nets system_clock
            (spawned clock_source nets system_clock l kinds)
            wakes in
        (t.awaited ≡ length t.kinds) ↔ ((i : ℕ) → (length kinds ≤ i) ⊎ (sees_flag i wakes ≡ true))
  finished-run_tasks l kinds wakes =
      let start = spawned clock_source nets system_clock l kinds in
      let t = run_tasks clock_source nets system_clock start wakes in
      let inv = run_tasks-IsAwaiting (length kinds) start wakes (spawned-IsAwaiting l kinds) in
      (
        λ e i.
            let idle =
              (all_stopped t.running).0
                (omega (arith, e, inv.passed, inv.tasks_known, inv.running_known)) i in
            elim (get_or-replicate (length kinds) i) [
              | inl (big, _) ↦ inl big
              | inr (_, on) ↦ inr (ground (arith, idle, get_or-run_tasks start i wakes, on))
            ],
        λ h.
            let idle : (i : ℕ) → get_or t.running i false ≡ false = λ i.
              elim (get_or-replicate (length kinds) i) [
                | inl (_, off) ↦ ground (arith, get_or-run_tasks start i wakes, off)
                | inr (small, _) ↦ ground (arith, get_or-run_tasks start i wakes, small, h i)
              ] in
            omega (
              arith,
              (all_stopped t.running).1 idle,
              inv.passed,
              inv.tasks_known,
              inv.running_known,
            ),
      )

  -- Where each socket can be set up, `run_server` returns exactly when its tasks, one for each socket and
  -- the housekeeping, have each been woken with the flag true, in whatever order and between whatever
  -- other wakes; until then it awaits them, and its result is `Ok`. Otherwise it returns the error of the
  -- first socket that cannot be set up.
  pub run_server_returns :
      (l : LoopState clock_source nets system_clock) (sockets : List SocketSetup)
      (wakes : List (ℕ × Wake))
      → let result = run_server clock_source nets system_clock l sockets wakes in
        ((all is_set_up sockets ≡ true)
          × ((result ≡ none) ⊎ (result ≡ some (ok tt)))
          × ((result ≡ some (ok tt))
              ↔ ((i : ℕ) → (length sockets < i) ⊎ (sees_flag i wakes ≡ true))))
        ⊎ ((before : List SocketSetup) × (s : SocketSetup) × (later : List SocketSetup) × (sockets
              ≡ before ++ (s ∷ later))
            × (all is_set_up before ≡ true)
            × (e : SetupError) × (set_up s ≡ err e)
            × (result ≡ some (err e)))
  unfolding run_server
  run_server_returns l sockets wakes = elim (spawn_tasks_cases sockets) [
    | inl (good, kinds, k, n) ↦
        let t =
          run_tasks clock_source nets system_clock (spawned clock_source nets system_clock l kinds)
            wakes in
        let (either, done) = finished_lem t in
        let told = finished-run_tasks l kinds wakes in
        rw (k, run_server)
          (inl (
            good,
            either,
            (
              λ e i. elim (told.0 (done.0 e) i) [
                | inl big ↦ inl (omega (arith, big, n))
                | inr sees ↦ inr sees
              ],
              λ h. done.1 (
                  told.1 (λ i. elim (h i) [
                    | inl big ↦ inl (omega (arith, big, n))
                    | inr sees ↦ inr sees
                  ])),
            ),
          ))
    | inr (before, s, later, same, earlier, e, failed, k) ↦
        inr (before, s, later, same, earlier, e, failed, rw (k, run_server) refl)
  ]
