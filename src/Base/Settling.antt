-- ===== src/Base/Settling.antt =====
-- Handlers that wait come to their ends: a rank of what each has left, which every step lowers.
use native.Mathlib.Nat.{le_refl}
use veritas_vpn.Base.{
  ℕ, zero, suc, ◌+◌, ◌<◌, ◌≤◌, ◌≡◌, refl, ap, arith, Option, none, some, List, [], ◌∷◌, is_some,
  if◌then◌else◌,
}
use veritas_vpn.Base.Waiting.{task_at, without, add_task}

module _ {A : Type 0} (rank : A → ℕ) where
  abbrev pub total : List A → ℕ
  total [] = 0
  total (task ∷ tasks) = rank task + total tasks

  abbrev pub rank_of : Option A → ℕ
  rank_of none = 0
  rank_of (some task) = rank task

  pub total-task_at :
      (n : ℕ) (tasks : List A) (task : A)
      → task_at n tasks ≡ some task
      → total tasks ≡ rank task + total (without n tasks)
  total-task_at n [] task e = ground arith
  total-task_at zero (t ∷ tasks) task e = ground arith
  total-task_at (suc n) (t ∷ tasks) task e = ground (arith, total-task_at n tasks task e)

  pub total-add_task :
      (t : Option A) (tasks : List A) → total (add_task t tasks) ≡ rank_of t + total tasks
  total-add_task none tasks = omega arith
  total-add_task (some task) tasks = refl

  pub total-zero : (tasks : List A) → ((task : A) → 1 ≤ rank task) → total tasks ≤ 0 → tasks ≡ []
  total-zero [] positive h = refl
  total-zero (task ∷ tasks) positive h = ground (arith, positive task)

-- A number that names no handler stands for the latest one.
abbrev pub chosen : {A : Type 0} → ℕ → List A → ℕ
chosen n tasks = if is_some (task_at n tasks) then n else 0

chosen-none :
    {A : Type 0} (n : ℕ) (tasks : List A) → task_at (chosen n tasks) tasks ≡ none → tasks ≡ []
chosen-none n [] e = refl
chosen-none n (task ∷ tasks) e = ground arith

module _ {A W : Type 0} (tasks : W → List A) (go_on : ℕ → W → W) (who : W → ℕ) where
  -- Nothing new begins, and the handlers that wait go on, as long as there are any, whichever the scheduler
  -- `who` names.
  unfoldable pub settle : ℕ → W → W
  settle zero w = w
  settle (suc n) w = settle n (go_on (chosen (who w) (tasks w)) w)

  pub settle-keeps :
      (P : W → Type 0) (n : ℕ) (w : W)
      → ((m : ℕ) (v : W) → P v → P (go_on m v))
      → P w
      → P (settle n w)
  unfolding settle
  settle-keeps P zero w keeps h = h
  settle-keeps P (suc n) w keeps h = settle-keeps P n _ keeps (keeps _ w h)

  module _ (rank : A → ℕ)
      (lowers : (n : ℕ) (w : W) (task : A)
        → task_at n (tasks w) ≡ some task
        → total rank (tasks (go_on n w)) < total rank (tasks w))
      (rests : (n : ℕ) (w : W) → tasks w ≡ [] → tasks (go_on n w) ≡ []) where
    step-total :
        (n bound : ℕ) (w : W) (t : Option A)
        → task_at n (tasks w) ≡ t
        → (t ≡ none → tasks w ≡ [])
        → total rank (tasks w) ≤ suc bound
        → total rank (tasks (go_on n w)) ≤ bound
    step-total n bound w none e quiet h = ground (arith, ap (total rank) (rests n w (quiet refl)))
    step-total n bound w (some task) e quiet h = ground (arith, lowers n w task e)

    settle-total : (n : ℕ) (w : W) → total rank (tasks w) ≤ n → total rank (tasks (settle n w)) ≤ 0
    unfolding settle
    settle-total zero w h = h
    settle-total (suc n) w h = settle-total n _ (
        step-total (chosen (who w) (tasks w)) n w (task_at (chosen (who w) (tasks w)) (tasks w))
          refl (chosen-none (who w) (tasks w)) h)

    -- As many steps as the ranks add up to are enough.
    pub settle-ends :
        (w : W) → ((task : A) → 1 ≤ rank task) → tasks (settle (total rank (tasks w)) w) ≡ []
    settle-ends w positive =
        total-zero rank (tasks (settle (total rank (tasks w)) w)) positive
          (settle-total (total rank (tasks w)) w (le_refl (total rank (tasks w))))
