-- ===== src/Executor/Examples.antt =====
-- Tests of the loop over the runs, with a park that lands while run 1 runs.
use draw_things_control.Prelude.{
  ℕ, true, false, ◌≡◌, ◌≢◌, refl, Option, none, some, [], arith, ltb, ◌==◌, if◌then◌else◌,
}
use draw_things_control.Queue.Status.{RunStatus}
use draw_things_control.Queue.Worker.Thread.{JobStatus}
use draw_things_control.Resume.Walk.{gave}
use draw_things_control.Token
use draw_things_control.Token.{Token, new_token}
use draw_things_control.Executor.{
  save_end, Env, State, Finished, run_ended, Ending, ended, raised_out, run_chain, run_runs,
  finish_job, finish_event, stopped_by, run_loop, iterate, before_run, requested, observe,
  take_park, prepare_boundary, run_needs_visual_input, run_prepared, step_run, ended_run,
  after_success, lacks_handoff, run_backend, park_at_boundary, wait_between_runs, cool_down,
  cool_loop, after_cooling,
}
use draw_things_control.Executor.Ends.{Parks, run_chain_ends}
use draw_things_control.Executor.Order.{JobSo, run_chain_outcome}

abbrev finished : Finished
finished = record {
  status = RunStatus.succeeded;
  exit_code = 0;
  record_last_frame = some "last.png";
  last_frame = some "last.png";
  output = "out.mov";
  seconds = 60;
}

-- Another thread parks at the second reading.
abbrev parks_once : ℕ → Token → Token
parks_once k t = if k == 1 then (Token.park t).1 else t

abbrev env : Env
env = record {
  total = 3;
  start = 1;
  effective = none;
  legacy_needs = λ n. true;
  backend = "draw-things";
  first_input = some "in.png";
  input_passes = true;
  plans_input = λ b. false;
  copy = λ n f. gave f;
  try_run = λ n input. run_ended finished;
  wait_after = λ seconds. 30;
  wait = λ k seconds. seconds;
  others = parks_once;
  is_signal = λ n. true;
  saves = λ p n. true;
}

abbrev fresh : State
fresh = record {
  token = record new_token { running = true };
  tick = 0;
  events = [];
  completed = 0;
  exit_code = 0;
}

abbrev parks_by : ℕ → ℕ
parks_by k = if ltb 1 k then 1 else 0

one_park : Parks env parks_by 1
unfolding Token.park
one_park = record { grows = λ k t h. ground arith; below = λ k. ground arith }

run_chain_ends_example : run_chain 2 env fresh ≢ none
run_chain_ends_example = run_chain_ends env parks_by 1 one_park 2 fresh (omega arith) (omega arith)

abbrev last_of : Option (Ending × State) → Ending × State
last_of none = (raised_out, fresh)
last_of (some p) = p

abbrev last : Ending × State
last = last_of (run_chain 2 env fresh)

parked_after_one : (run_chain 2 env fresh ≡ some last) × (last.0 ≡ ended JobStatus.parked 3)
unfolding run_chain run_runs save_end finish_job finish_event stopped_by run_loop iterate before_run
    requested observe take_park prepare_boundary run_needs_visual_input run_prepared step_run
    ended_run after_success lacks_handoff run_backend park_at_boundary wait_between_runs cool_down
    cool_loop after_cooling Token.park Token.take_park
parked_after_one = (refl, refl)

run_chain_outcome_example : JobSo env fresh last.0 last.1
run_chain_outcome_example =
    run_chain_outcome env 2 fresh last.0 last.1 refl (omega arith) parked_after_one.0
