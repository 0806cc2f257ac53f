-- ===== src/ApiRules/Examples.antt =====
-- Tests of the rules, at a job of three runs at its limit.
use draw_things_control.Prelude.{ℕ, List, ◌≡◌, refl, none, some, [], ◌∷◌}
use draw_things_control.Errors.{ok}
use draw_things_control.ApiRules.{
  ApiRun, ApiLimits, ApiJob, check_api_rules, check_job_rules, check_queue_not_full,
  check_job_limits, estimates, worst_case_seconds,
}

abbrev job : ApiJob
job = record {
  run_count = 3;
  effective_runs = [];
  wait_after = λ seconds. seconds;
  run_timeout_seconds = some 60;
  finishing_seconds = 10;
  estimated_output_bytes = λ runs. runs;
}

abbrev limits : ApiLimits
limits = record {
  max_queued_jobs = 2;
  max_job_runs = 3;
  max_job_seconds = 330;
  max_job_output_bytes = 100;
}

at_limit : check_api_rules job limits 1 none ≡ ok tt
unfolding check_api_rules check_job_rules check_queue_not_full check_job_limits estimates
    worst_case_seconds
at_limit = refl

-- A job of three runs, and its resume with two runs left.
abbrev a_run : ℕ → ℕ → ApiRun
a_run n seconds = record {
  number = n;
  timeout_seconds = some seconds;
  finishing_seconds = 5;
  output_bytes = 10;
}

abbrev runs_left : List ApiRun
runs_left = a_run 2 40 ∷ a_run 3 50 ∷ []

abbrev three_runs : ApiJob
three_runs = record job { effective_runs = a_run 1 900 ∷ runs_left }
