-- ===== src/ApiRules/Bounds.antt =====
-- services/api_rules.py: an accepted job keeps to the limit on its time.
use draw_things_control.Prelude.{
  ℕ, zero, suc, ◌+◌, ◌≤◌, ◌≡◌, Option, none, some, List, [], ◌∷◌, ◌++◌, refl, length, or_else,
}
use draw_things_control.ApiRules.{ApiRun, ApiJob, timeout_of, selected, drop}

-- The time that runs take, each with the time of its child and of its finishing: those, and the wait
-- after each run but the last.
abbrev pub job_time : (ℕ → ℕ) → List (ℕ × ℕ) → ℕ
job_time wait [] = 0
job_time wait ((t, f) ∷ []) = t + f
job_time wait ((t, f) ∷ (next ∷ rest)) = t + f + wait t + job_time wait (next ∷ rest)

-- Times within the runs' timeouts and finishing budgets, run by run.
abbrev pub Within : List (ℕ × ℕ) → List (ℕ × ℕ) → Type 0
Within [] [] = Unit
Within ((t, f) ∷ rest) ((limit, budget) ∷ more) = (t ≤ limit) × (f ≤ budget) × Within rest more
Within _ _ = ⊥

abbrev budgets : List ApiRun → List (ℕ × ℕ)
budgets [] = []
budgets (r ∷ runs) = (timeout_of r, r.finishing_seconds) ∷ budgets runs

abbrev same_budgets : ℕ → ℕ → ℕ → List (ℕ × ℕ)
same_budgets zero timeout finishing = []
same_budgets (suc n) timeout finishing = (timeout, finishing) ∷ same_budgets n timeout finishing

abbrev budgets_by : List ApiRun → ApiJob → Option ℕ → List (ℕ × ℕ)
budgets_by [] job remaining =
    same_budgets (or_else remaining job.run_count) (or_else job.run_timeout_seconds 0)
      job.finishing_seconds
budgets_by (r ∷ runs) job remaining = budgets (selected job remaining)

-- The timeouts and finishing budgets of the runs that a job, or a resume, has left.
abbrev budgets_of : ApiJob → Option ℕ → List (ℕ × ℕ)
budgets_of job remaining = budgets_by job.effective_runs job remaining

-- The runs that are left: all of them for a new job, and for a resume the last ones, as many as it says.
abbrev pub RunsLeft : List ApiRun → Option ℕ → List ApiRun → Type 0
RunsLeft runs none left = left ≡ runs
RunsLeft runs (some n) left = (done : List ApiRun) × (runs ≡ done ++ left) × (length left ≡ n)

-- Their timeouts and finishing budgets; those of a job without effective runs are all the same.
abbrev pub budgets_left : List ApiRun → ApiJob → Option ℕ → List ApiRun → List (ℕ × ℕ)
budgets_left [] job remaining left =
    same_budgets (or_else remaining job.run_count) (or_else job.run_timeout_seconds 0)
      job.finishing_seconds
budgets_left (r ∷ runs) job remaining left = budgets left

drop_nil : (n : ℕ) → drop n [] ≡ []
unfolding drop
drop_nil n = refl
