-- ===== src/Queue/Worker/Examples.antt =====
-- The theorems on the worker, at a worker that claims the first of two entries.
use draw_things_control.Prelude.{
  [], arith, Bool, true, false, not, ◌&&◌, ◌⊎◌, ◌≡◌, refl, none, some, is_some, All,
}
use mathlib.Core.Option
use draw_things_control.Errors.{Result, ok}
use draw_things_control.Samples.{codec, new_entry, two_queued, saved_nothing}
use draw_things_control.Settings
use draw_things_control.Token
use draw_things_control.Queue.Callers.{is_agent}
use draw_things_control.Queue.Hold
use draw_things_control.Queue.Hold.{not_held}
use draw_things_control.Queue.Rows.{
  QueueRow, is_running, empty, new_row, set_running, submit, claim_oldest, select, ordered,
  insert_ordered, update, find_row, get,
}
use draw_things_control.Queue.Rows.Invariant.{IsWellFormed}
use draw_things_control.Queue.Rows.Samples.{two_queued-IsWellFormed}
use draw_things_control.Queue.Worker.{
  Worker, StopReason, parking_entry_id, park_running, unpark_running,
  is_running as is_entry_running, cancel_running_locked, executor_cancel,
}
use draw_things_control.Queue.Worker.Thread.{JobStatus, claim, start_guard}
use draw_things_control.Queue.Worker.Steps.{
  System, Act, step, Reach, here, next, new_worker, new_system,
}
use draw_things_control.Queue.Worker.Parks.{boundary_takes_reservation}
use draw_things_control.Queue.Worker.Cancels.{accepted_stop_reaches_job}
use draw_things_control.Queue.Worker.Single.{NoneRunning, AllAccepted, only_claimed_runs}
use draw_things_control.Queue.Worker.Owned.{among}
use draw_things_control.Queue.Worker.Outcomes.{unpark-park, first_stop_decides, stopped_row}

abbrev fresh : System
fresh = new_system codec two_queued saved_nothing

abbrev claimed : System
claimed = step codec (Act.claims "2026-01-02") fresh

abbrev started : System
started = step codec Act.starts (step codec Act.begins claimed)

to_claimed : Reach codec fresh claimed
unfolding new_worker
to_claimed = next (Act.claims "2026-01-02") here (refl, refl)

to_started : Reach codec fresh started
unfolding step new_worker claim claim_oldest submit new_row Hold.load Settings.get Token.begin
    select ordered insert_ordered update find_row get set_running
to_started = next Act.starts (next Act.begins to_claimed (refl, refl)) (refl, refl)

abbrev first_row : QueueRow
first_row = set_running codec "2026-01-02" (new_row codec (new_entry "tui") empty)

abbrev parked : System
parked = step codec (Act.parks "2026-01-02" 1 "Q0001" (some "tui")) started

boundary_takes_reservation_example :
    (Token.take_park parked.worker.token).0 ≡ is_some (parking_entry_id parked.worker)
unfolding step new_worker claim claim_oldest submit new_row Hold.load Settings.get Token.begin
    select ordered insert_ordered update find_row get set_running start_guard park_running Hold.hold
    Settings.set is_entry_running Token.park
boundary_takes_reservation_example =
    boundary_takes_reservation codec two_queued saved_nothing parked first_row
      (next (Act.parks "2026-01-02" 1 "Q0001" (some "tui")) to_started tt) refl refl refl refl

abbrev stopping : System
stopping = step codec Act.delivers (step codec (Act.cancels 1) started)

to_stopping : Reach codec fresh stopping
unfolding step new_worker claim claim_oldest submit new_row Hold.load Settings.get Token.begin
    select ordered insert_ordered update find_row get set_running start_guard cancel_running_locked
to_stopping = next Act.delivers (next (Act.cancels 1) to_started tt) (omega arith)

accepted_stop_reaches_job_example : is_some stopping.worker.token.signal ≡ true
unfolding step new_worker claim claim_oldest submit new_row Hold.load Settings.get Token.begin
    select ordered insert_ordered update find_row get set_running start_guard cancel_running_locked
    executor_cancel Token.cancel
accepted_stop_reaches_job_example =
    accepted_stop_reaches_job codec two_queued saved_nothing stopping to_stopping refl refl refl
      refl

none_running : NoneRunning two_queued
unfolding submit new_row
none_running = (refl, (refl, tt))

only_claimed_runs_example :
    IsWellFormed started.worker.table
    × All
        (λ r.
          is_running r.state ≡ true
          → ((q : QueueRow) × (started.worker.current ≡ some q)
              × (q.id ≡ r.id)
              × (started.worker.job_finished ≡ false))
            ⊎ (among r.id started.unsaved ≡ true))
        started.worker.table.rows
    × (AllAccepted to_started → started.unsaved ≡ [])
only_claimed_runs_example =
    only_claimed_runs codec two_queued saved_nothing started two_queued-IsWellFormed none_running
      to_started

abbrev a_park : Result Bool × Worker
a_park = park_running codec "2026-01-02" 1 "Q0001" (some "tui") started.worker

abbrev its_hold : Result Bool
its_hold = (Hold.hold codec "2026-01-02" (some "Q0001") (some "tui") started.worker.hold).0

abbrev can_park : Bool
can_park = is_entry_running 1 started.worker && not (is_some started.worker.stop_reason)

unpark-park_example :
    let (r, w') = a_park in
    let (r', w'') = unpark_running 1 "Q0001" (some "tui") w' in
    (r ≡ ok true)
    × (r' ≡ ok true)
    × (w''.hold.memory ≡ not_held)
    × (w''.park_pending ≡ false)
    × (started.worker.job_started ≡ true → (Token.take_park w''.token).0 ≡ false)
    × (w''.stop_reason ≡ none)
unfolding step new_worker claim claim_oldest submit new_row Hold.load Settings.get Token.begin
    select ordered insert_ordered update find_row get set_running start_guard is_entry_running
    is_agent
unpark-park_example =
    unpark-park codec "2026-01-02" 1 "Q0001" (some "tui") (some "tui") started.worker refl refl refl
      refl refl refl refl

abbrev cancelled : System
cancelled = step codec (Act.cancels 1) started

abbrev shut : System
shut = step codec Act.stops cancelled

abbrev recorded : System
recorded =
    step codec (Act.finishes first_row "2026-01-03" true)
      (step codec (Act.reads_reason JobStatus.interrupted) shut)

first_stop_decides_example :
    (shut.worker.stop_reason ≡ some StopReason.stop_cancel)
    × (get 1 recorded.worker.table
        ≡ Option.map
            (stopped_row codec StopReason.stop_cancel "2026-01-03")
            (get 1 shut.worker.table))
unfolding step new_worker claim claim_oldest submit new_row Hold.load Settings.get Token.begin
    select ordered insert_ordered update find_row get set_running start_guard cancel_running_locked
first_stop_decides_example =
    first_stop_decides {c = codec} {s = cancelled} StopReason.stop_cancel first_row "2026-01-03"
      (next Act.stops here tt) (tt, tt) refl
