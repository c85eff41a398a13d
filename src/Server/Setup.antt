-- ===== src/Server/Setup.antt =====
-- server.rs, `run_server`: the setup of the sockets, which ends at the first that fails.
use heeler.Common.{
  suc, ◌≡◌, refl, ◌⊎◌, inl, inr, Bool, true, false, ◌&&◌, List, [], ◌∷◌, ◌++◌, all, length, ok, err,
  arith, ap,
}
use heeler.Server.Tasks.{
  SocketSetup, SetupError, set_nonblocking_failed, from_std_failed, local_addr_failed, TaskKind,
  recv_loop, housekeeping_loop, set_up, spawn_tasks,
}

abbrev pub is_set_up : SocketSetup → Bool
is_set_up s = s.nonblocking_ok && s.from_std_ok && s.local_addr_ok

set_up_cases :
    (s : SocketSetup)
    → ((is_set_up s ≡ true) × (set_up s ≡ ok tt))
      ⊎ ((is_set_up s ≡ false) × (e : SetupError) × (set_up s ≡ err e))
unfolding set_up
set_up_cases s = by_cases s.nonblocking_ok s.from_std_ok s.local_addr_ok
  where
    by_cases :
        (a b c : Bool)
        → let q : SocketSetup = record { nonblocking_ok = a; from_std_ok = b; local_addr_ok = c } in
          ((is_set_up q ≡ true) × (set_up q ≡ ok tt))
          ⊎ ((is_set_up q ≡ false) × (e : SetupError) × (set_up q ≡ err e))
    by_cases false b c = inr (refl, set_nonblocking_failed, refl)
    by_cases true false c = inr (refl, from_std_failed, refl)
    by_cases true true false = inr (refl, local_addr_failed, refl)
    by_cases true true true = inl (refl, refl)

-- All tasks are spawned, or there is a first socket whose setup fails.
pub spawn_tasks_cases :
    (sockets : List SocketSetup)
    → ((all is_set_up sockets ≡ true)
        × (kinds : List TaskKind) × (spawn_tasks sockets ≡ ok kinds)
        × (length kinds ≡ suc (length sockets)))
      ⊎ ((before : List SocketSetup) × (s : SocketSetup) × (later : List SocketSetup) × (sockets
            ≡ before ++ (s ∷ later))
          × (all is_set_up before ≡ true)
          × (e : SetupError) × (set_up s ≡ err e)
          × (spawn_tasks sockets ≡ err e))
unfolding spawn_tasks
spawn_tasks_cases [] = inl (refl, housekeeping_loop ∷ [], refl, refl)
spawn_tasks_cases (s ∷ sockets) = elim (set_up_cases s) [
  | inr (_, e, failed) ↦ inr ([], s, sockets, refl, refl, e, failed, rw (failed, spawn_tasks) refl)
  | inl (good, done) ↦ elim (spawn_tasks_cases sockets) [
    | inl (rest, kinds, k, n) ↦
        inl
          (ground (arith, good, rest), recv_loop ∷ kinds, rw (done, k, spawn_tasks) refl, ap suc n)
    | inr (before, f, later, same, earlier, e, failed, k) ↦ inr (
      s ∷ before,
      f,
      later,
      ap (λ l. s ∷ l) same,
      ground (arith, good, earlier),
      e,
      failed,
      rw (done, k, spawn_tasks) refl,
    )
  ]
]
