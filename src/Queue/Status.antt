-- ===== src/Queue/Status.antt =====
-- services/queue_worker_status.py: what the worker is doing right now.
use draw_things_control.Prelude.{
  ℕ, ◌+◌, ◌-◌, Bool, true, false, Option, none, some, is_some, if◌then◌else◌,
}

-- The statuses of a run, and the job events that the status observes (jobs/events.py); `other` is any
-- other event.
pub data RunStatus : Type 0 where
  running succeeded failed timed_out interrupted : RunStatus

pub data RunEvent : Type 0 where
  run_started : ℕ → RunEvent
  run_finished : ℕ → RunStatus → RunEvent
  cooldown_began : ℕ → RunEvent
  other : RunEvent

pub record WorkerStatus : Type 0 where
  pub is_running : Bool
  pub cooldown_until : Option ℕ
  pub current_run : Option (ℕ × ℕ)
  pub between_runs_after : Option ℕ

abbrev pub idle_status : WorkerStatus
idle_status = record {
  is_running = false;
  cooldown_until = none;
  current_run = none;
  between_runs_after = none;
}

pub data StateWord : Type 0 where
  running cooling_down idle held : StateWord

unfoldable pub entry_claimed : WorkerStatus → WorkerStatus
entry_claimed s = record s { is_running = true }

unfoldable pub entry_released : WorkerStatus → WorkerStatus
entry_released s = record s { is_running = false; current_run = none; between_runs_after = none }

unfoldable pub cooldown_started : ℕ → ℕ → WorkerStatus → WorkerStatus
cooldown_started now seconds s = record s { cooldown_until = some (now + seconds) }

unfoldable pub cooldown_ended : WorkerStatus → WorkerStatus
cooldown_ended s = record s { cooldown_until = none }

abbrev run_succeeded : RunStatus → Bool
run_succeeded RunStatus.succeeded = true
run_succeeded _ = false

-- `now` is the clock's time. The run and the time it started at are one value.
unfoldable pub observe_run : ℕ → RunEvent → WorkerStatus → WorkerStatus
observe_run now (run_started n) s = record s {
  current_run = some (n, now);
  between_runs_after = none;
}
observe_run now (run_finished n status) s = record s {
  current_run = none;
  between_runs_after = if run_succeeded status then some n else none;
}
observe_run now (cooldown_began n) s = record s { between_runs_after = some n }
observe_run now other s = s

unfoldable pub generation_started : ℕ → WorkerStatus → WorkerStatus
generation_started now s = record s { current_run = some (1, now) }

unfoldable pub generation_finished : WorkerStatus → WorkerStatus
generation_finished s = record s { current_run = none }

unfoldable pub state : WorkerStatus → StateWord
state s =
    if s.is_running
    then StateWord.running
    else if is_some s.cooldown_until
    then cooling_down
    else idle

-- `QueueWorker.is_quiet`.
abbrev pub is_running_word : StateWord → Bool
is_running_word StateWord.running = true
is_running_word _ = false

-- The run and its elapsed seconds. `now` is not before the run's start.
unfoldable pub elapsed_run : ℕ → WorkerStatus → Option (ℕ × ℕ)
elapsed_run now s = elim s.current_run [ none ↦ none | some run ↦ some (run.0, now - run.1) ]
