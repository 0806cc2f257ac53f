-- ===== src/Queue/Worker/Thread.antt =====
-- services/queue_worker.py: what the worker's own thread does with a claimed entry, from the claim to
-- the wait between two jobs.
use draw_things_control.Prelude.{
  ℕ, String, Bool, true, false, ◌&&◌, ◌||◌, not, Option, none, some, if◌then◌else◌,
}
use draw_things_control.Json.{Codec}
use draw_things_control.Token
use draw_things_control.Token.{Token}
use draw_things_control.Queue.Events.{entry_changed, wait_started, wait_ended, QueueState, queued}
use draw_things_control.Queue.Rows
use draw_things_control.Queue.Rows.{QueueRow, Table}
use draw_things_control.Queue.Status
use draw_things_control.Queue.Worker.{
  Worker, StopReason, stop_cancel, stop_shutdown, label, tell, forecast_park, cancel_forecast,
}

-- How a job ended (jobs/events.py, `JobStatus`).
pub data JobStatus : Type 0 where
  running succeeded failed interrupted parked : JobStatus

-- What the locked part of `_claim_and_run_one` did: no claim, an entry put back because the server
-- stops, or an entry to run.
pub data Claimed : Type 0 where
  nothing : Claimed
  put_back : QueueRow → Claimed
  took : QueueRow → Claimed

put_back_entry : QueueRow → Worker → Worker
put_back_entry r w =
    tell (entry_changed (label r) queued) (record w { table = Rows.requeue r.id w.table })

take_entry : QueueRow → Worker → Worker
take_entry r w = tell (entry_changed (label r) r.state) (record w {
  current = some r;
  stop_reason = none;
  pending_cancel = false;
  park_pending = false;
  job_started = false;
  job_finished = false;
  release_skips_wait = false;
  status = Status.entry_claimed w.status;
})

after_claim : Option QueueRow → Worker → Claimed × Worker
unfolding put_back_entry take_entry
after_claim none w = (nothing, w)
after_claim (some r) w =
    if w.stop_event then (put_back r, put_back_entry r w) else (took r, take_entry r w)

unfoldable pub claim : Codec → String → Worker → Claimed × Worker
unfolding after_claim
claim c now w =
    if w.hold.memory.held
    then (nothing, w)
    else let (r, t) = Rows.claim_oldest c now w.table in after_claim r (record w { table = t })

-- `_start_guard` at `JobStarted`, under the lock: True when a cancel is to be applied after it.
unfoldable pub start_guard : Worker → Bool × Worker
start_guard w = (
  w.pending_cancel,
  if w.park_pending
      then forecast_park true (record w { job_started = true; token = (Token.park w.token).1 })
      else record w { job_started = true },
)

-- `_generation_start_guard`.
unfoldable pub generation_start_guard : Worker → Bool × Worker
generation_start_guard w = (w.pending_cancel, record w { job_started = true })

abbrev interrupted_state : Option StopReason → QueueState
interrupted_state (some stop_cancel) = QueueState.cancelled
interrupted_state (some stop_shutdown) = QueueState.interrupted
interrupted_state none = QueueState.failed

-- `_final_state`.
unfoldable pub final_state : JobStatus → Option StopReason → QueueState
final_state JobStatus.succeeded reason = QueueState.succeeded
final_state JobStatus.failed reason = QueueState.failed
final_state JobStatus.parked reason = QueueState.parked
final_state _ reason = interrupted_state reason

-- The observer of `JobFinished`: the entry is marked, and the job is finished, under one lock.
unfoldable pub finish_entry : Codec → QueueRow → QueueState → String → Worker → Worker
finish_entry c r state at w =
    tell (entry_changed (label r) state)
      (record w { table = Rows.finish c r.id state at none false w.table; job_finished = true })

-- `_fail_to_start`: no `JobFinished` came, so the link to an execution is cleared.
unfoldable pub fail_to_start : Codec → QueueRow → String → String → Worker → Worker
fail_to_start c r now error w = tell (entry_changed (label r) QueueState.failed) (record w {
  table = Rows.finish c r.id QueueState.failed now (some error) true w.table;
  job_finished = true;
})

-- The `except` of `_run_claimed` once `session.run` has raised.
unfoldable pub run_raised : Codec → QueueRow → Bool → String → String → Worker → Worker
unfolding fail_to_start
run_raised c r finished now error w =
    if finished
    then record w { table = Rows.set_error r.id error w.table }
    else fail_to_start c r now error w

-- The `finally` of `_claim_and_run_one`.
unfoldable pub release_entry : Worker → Worker
release_entry w =
    let w' = cancel_forecast (record w { current = none }) in
    record w' { status = Status.entry_released w'.status }

-- `_linker`: the execution's number was reserved.
unfoldable pub link : QueueRow → ℕ → Worker → Worker
link r n w = record w { table = Rows.link_execution r.id n w.table }

abbrev is_cooldown_after : QueueState → Bool
is_cooldown_after QueueState.succeeded = true
is_cooldown_after QueueState.parked = true
is_cooldown_after _ = false

-- The tests of `_wait_after`: whether the job's cooldown is waited before the next claim.
unfoldable pub waits_after : QueueRow → Worker → Bool
waits_after r w =
    if w.stop_event || w.hold.memory.held || w.release_skips_wait
    then false
    else elim (Rows.get r.id w.table) [
      | none ↦ false
      | some updated ↦ is_cooldown_after updated.state && Rows.has_queued w.table
    ]

-- The test of a poll of `_poll_wait`: whether the wait ends before its time.
unfoldable pub ends_wait : Worker → Bool
ends_wait w =
    w.stop_event || w.hold.memory.held || w.release_skips_wait || not (Rows.has_queued w.table)

unfoldable pub wait_begins : QueueRow → ℕ → ℕ → Worker → Worker
wait_begins r now seconds w =
    let status = Status.cooldown_started now seconds w.status in
    elim status.cooldown_until [
      | none ↦ record w { status = status }
      | some until ↦ tell (wait_started (label r) until) (record w { status = status })
    ]

unfoldable pub wait_ends : QueueRow → Worker → Worker
wait_ends r w = tell (wait_ended (label r)) (record w { status = Status.cooldown_ended w.status })
