-- ===== src/Server/Awaits.antt =====
-- server.rs, `run_server`: the flags of running tasks, and how far an await of them in order comes.
use heeler.Common.{
  ℕ, zero, suc, ◌+◌, ◌<◌, ◌≤◌, ◌≡◌, refl, ◌⊎◌, inl, inr, Bool, true, false, not, ◌&&◌, ◌==◌, ==_iff,
  ◌↔◌, List, [], ◌∷◌, drop, length, replicate, get_or, arith, ap, Bool-cases,
}
use heeler.Server.Tasks.{stop_task, stopped_first}

pub get_or-stop_task :
    (i j : ℕ) (tasks : List Bool)
    → get_or (stop_task j tasks) i false ≡ (get_or tasks i false && not (i == j))
get_or-stop_task i j [] = refl
get_or-stop_task zero zero (t ∷ tasks) = ground arith
get_or-stop_task zero (suc j) (t ∷ tasks) = ground arith
get_or-stop_task (suc i) zero (t ∷ tasks) = ground arith
get_or-stop_task (suc i) (suc j) (t ∷ tasks) = ground (arith, get_or-stop_task i j tasks)

pub length-stop_task : (j : ℕ) (tasks : List Bool) → length (stop_task j tasks) ≡ length tasks
length-stop_task j [] = refl
length-stop_task zero (t ∷ tasks) = refl
length-stop_task (suc j) (t ∷ tasks) = ap suc (length-stop_task j tasks)

-- Stopping a task leaves those that an await has passed.
pub stopped_first-stop_task :
    (j : ℕ) (tasks : List Bool) → stopped_first tasks ≤ stopped_first (stop_task j tasks)
stopped_first-stop_task j [] = omega arith
stopped_first-stop_task zero (true ∷ tasks) = omega arith
stopped_first-stop_task zero (false ∷ tasks) = omega arith
stopped_first-stop_task (suc j) (true ∷ tasks) = omega arith
stopped_first-stop_task (suc j) (false ∷ tasks) = omega (arith, stopped_first-stop_task j tasks)

-- An await that goes on from a handle it has reached comes as far as one that starts anew.
pub stopped_first-drop :
    (k : ℕ) (tasks : List Bool)
    → k ≤ stopped_first tasks
    → k + stopped_first (drop k tasks) ≡ stopped_first tasks
stopped_first-drop zero tasks h = omega arith
stopped_first-drop (suc k) [] h = omega arith
stopped_first-drop (suc k) (true ∷ tasks) h = absurd (omega arith)
stopped_first-drop (suc k) (false ∷ tasks) h =
    omega (arith, stopped_first-drop k tasks (omega arith))

pub stopped_first-le : (tasks : List Bool) → stopped_first tasks ≤ length tasks
stopped_first-le [] = omega arith
stopped_first-le (true ∷ tasks) = omega arith
stopped_first-le (false ∷ tasks) = omega (arith, stopped_first-le tasks)

-- The await has passed all of them exactly if none runs.
pub all_stopped :
    (tasks : List Bool)
    → (stopped_first tasks ≡ length tasks) ↔ ((i : ℕ) → get_or tasks i false ≡ false)
all_stopped [] = (λ e i. refl, λ h. refl)
all_stopped (true ∷ tasks) = (λ e. absurd (omega arith), λ h. absurd (cc (h 0)))
all_stopped (false ∷ tasks) = (
  λ e i. elim i as (λ k. get_or (false ∷ tasks) k false ≡ false) [
    | zero ↦ refl
    | suc k ↦ (all_stopped tasks).0 (omega arith) k
  ],
  λ h. ap suc ((all_stopped tasks).1 (λ i. h (suc i))),
)

-- A task that is not running is not the one that is.
pub idle_lem :
    (tasks : List Bool) (i j : ℕ) (told : Bool)
    → get_or tasks j false ≡ false
    → get_or tasks i false ≡ (get_or tasks i false && not (told && i == j))
idle_lem tasks i j told e = elim (Bool-cases (i == j)) [
  | inl same ↦ rw ((==_iff i j).0 same, e) refl
  | inr other ↦ rw other (ground arith)
]

pub get_or-replicate :
    (n i : ℕ)
    → (n ≤ i × (get_or (replicate n true) i false ≡ false))
      ⊎ (i < n × (get_or (replicate n true) i false ≡ true))
get_or-replicate zero i = inl (omega arith, refl)
get_or-replicate (suc n) zero = inr (omega arith, refl)
get_or-replicate (suc n) (suc i) = elim (get_or-replicate n i) [
  | inl (big, e) ↦ inl (omega (arith, big), e)
  | inr (small, e) ↦ inr (omega (arith, small), e)
]
