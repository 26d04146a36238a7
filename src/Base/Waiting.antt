-- ===== src/Base/Waiting.antt =====
-- Handlers that wait, for the state machines that are cut at each `await`: any of them may go on next.
use veritas_vpn.Base.{ℕ, zero, suc, Option, none, some, List, [], ◌∷◌}

abbrev pub task_at {ℓ} : {A : Type ℓ} → ℕ → List A → Option A
task_at n [] = none
task_at zero (task ∷ tasks) = some task
task_at (suc n) (task ∷ tasks) = task_at n tasks

abbrev pub without {ℓ} : {A : Type ℓ} → ℕ → List A → List A
without n [] = []
without zero (task ∷ tasks) = tasks
without (suc n) (task ∷ tasks) = task ∷ without n tasks

-- A handler has come to its first `await`, or to its end.
abbrev pub add_task {ℓ} : {A : Type ℓ} → Option A → List A → List A
add_task none tasks = tasks
add_task (some task) tasks = task ∷ tasks

-- A handler is run on, a step at a time, with nothing in between: its state, and what it still waits for.
abbrev pub run_on : {A W : Type 0} → (A → W → W × Option A) → ℕ → W × Option A → W × Option A
run_on resume n (w, none) = (w, none)
run_on resume zero (w, some task) = (w, some task)
run_on resume (suc n) (w, some task) = run_on resume n (resume task w)
