-- ===== src/ApiRules.antt =====
-- services/api_rules.py: the rules and limits of a job that comes through the HTTP API. Times are in one
-- unit; a policy's wait (Cooldown), a backend's finishing budget and its estimate of an output are
-- arguments, by the run.
pub mod Bounds
mod Examples
use draw_things_control.Prelude.{
  ℕ, zero, suc, ◌+◌, ◌-◌, ◌*◌, String, Bool, true, false, not, ◌&&◌, ◌||◌, Option, none, some, List,
  [], ◌∷◌, ltb, leb, ◌==◌, is_none, or_else, length, if◌then◌else◌,
}
use draw_things_control.Errors.{Result, ok, timeout_required, limit_exceeded, raise, concat, ◌>>◌}
use draw_things_control.Ids.{number_text}

pub record ApiLimits : Type 0 where
  pub max_queued_jobs : ℕ
  pub max_job_runs : ℕ
  pub max_job_seconds : ℕ
  pub max_job_output_bytes : ℕ

-- A run of a version-2 job.
pub record ApiRun : Type 0 where
  pub number : ℕ
  pub timeout_seconds : Option ℕ
  pub finishing_seconds : ℕ
  pub output_bytes : ℕ

-- A job; the last three fields are for one without effective runs.
pub record ApiJob : Type 0 where
  pub run_count : ℕ
  pub effective_runs : List ApiRun
  pub wait_after : ℕ → ℕ
  pub run_timeout_seconds : Option ℕ
  pub finishing_seconds : ℕ
  pub estimated_output_bytes : ℕ → ℕ

abbrev pub has_runs : List ApiRun → Bool
has_runs [] = false
has_runs _ = true

check_runs : List ApiRun → Result (Unit {0})
check_runs [] = ok tt
check_runs (run ∷ runs) =
    let rest = check_runs runs in
    if is_none run.timeout_seconds
    then raise timeout_required (
        concat (
          "'runs["
          ∷ number_text (run.number - 1)
          ∷ "].knobs.timeout_seconds' is required for a job the API runs or writes"
          ∷ []))
    else rest

unfoldable pub check_job_rules : ApiJob → Result (Unit {0})
unfolding check_runs
check_job_rules job =
    if has_runs job.effective_runs
    then check_runs job.effective_runs
    else if is_none job.run_timeout_seconds
    then raise timeout_required "'run_timeout_seconds' is required for a job the API runs or writes"
    else ok tt

unfoldable pub check_queue_not_full : ℕ → ApiLimits → Result (Unit {0})
check_queue_not_full queued limits =
    if leb limits.max_queued_jobs queued
    then raise limit_exceeded (
        concat (
          number_text queued
          ∷ " entries are already queued, at the max_queued_jobs limit of "
          ∷ number_text limits.max_queued_jobs
          ∷ []))
    else ok tt

unfoldable pub drop : ℕ → List ApiRun → List ApiRun
drop n [] = []
drop zero (r ∷ runs) = r ∷ runs
drop (suc n) (r ∷ runs) = drop n runs

-- `[-runs:]`, which is everything for 0.
unfoldable pub last_runs : ℕ → List ApiRun → List ApiRun
last_runs n runs = if n == 0 then runs else drop (length runs - n) runs

unfoldable pub selected : ApiJob → Option ℕ → List ApiRun
selected job none = job.effective_runs
selected job (some remaining) = last_runs remaining job.effective_runs

abbrev pub timeout_of : ApiRun → ℕ
timeout_of run = or_else run.timeout_seconds 0

unfoldable pub sum_timeouts : List ApiRun → ℕ
sum_timeouts [] = 0
sum_timeouts (r ∷ runs) = timeout_of r + sum_timeouts runs

-- The waits after all runs but the last.
unfoldable pub sum_waits : (ℕ → ℕ) → List ApiRun → ℕ
sum_waits wait [] = 0
sum_waits wait (r ∷ []) = 0
sum_waits wait (r ∷ (q ∷ runs)) = wait (timeout_of r) + sum_waits wait (q ∷ runs)

unfoldable pub sum_finishing : List ApiRun → ℕ
sum_finishing [] = 0
sum_finishing (r ∷ runs) = r.finishing_seconds + sum_finishing runs

unfoldable pub sum_output : List ApiRun → ℕ
sum_output [] = 0
sum_output (r ∷ runs) = r.output_bytes + sum_output runs

-- `_worst_case_seconds`.
unfoldable pub worst_case_seconds : ℕ → (ℕ → ℕ) → ℕ → ℕ
worst_case_seconds timeout wait zero = 0
worst_case_seconds timeout wait (suc more) = suc more * timeout + more * wait timeout

-- The worst case and the estimated output.
unfoldable pub estimates : ApiJob → Option ℕ → ℕ × ℕ
estimates job remaining =
    let runs = or_else remaining job.run_count in
    let chosen = selected job remaining in
    if has_runs job.effective_runs
    then (
      sum_timeouts chosen + sum_waits job.wait_after chosen + sum_finishing chosen,
      sum_output chosen,
    )
    else (
      worst_case_seconds (or_else job.run_timeout_seconds 0) job.wait_after runs
          + runs * job.finishing_seconds,
      job.estimated_output_bytes runs,
    )

over : String → String → String → ℕ → ℕ → Result (Unit {0})
over before after key limit value =
    if ltb limit value
    then raise limit_exceeded (
        concat (
          before
          ∷ number_text value
          ∷ after
          ∷ " is over the "
          ∷ key
          ∷ " limit of "
          ∷ number_text limit
          ∷ []))
    else ok tt

unfoldable pub check_job_limits : ApiJob → ApiLimits → Option ℕ → Result (Unit {0})
unfolding over
check_job_limits job limits remaining = do
  over "" " runs" "max_job_runs" limits.max_job_runs (or_else remaining job.run_count)
  over "a worst case of " " seconds" "max_job_seconds" limits.max_job_seconds
      (estimates job remaining).0
  over "an estimated output of " " bytes" "max_job_output_bytes" limits.max_job_output_bytes
      (estimates job remaining).1

unfoldable pub check_api_rules : ApiJob → ApiLimits → ℕ → Option ℕ → Result (Unit {0})
check_api_rules job limits queued remaining = do
  check_job_rules job
  check_queue_not_full queued limits
  check_job_limits job limits remaining
