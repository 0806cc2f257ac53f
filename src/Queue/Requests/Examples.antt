-- ===== src/Queue/Requests/Examples.antt =====
-- Requests to a worker that holds two queued entries, and to one that runs the first.
use draw_things_control.Prelude.{true, false, ◌≡◌, refl, none, some, is_some}
use draw_things_control.Errors.{ok, not_permitted}
use draw_things_control.Samples.{codec, new_entry, two_queued, saved_nothing}
use draw_things_control.Settings
use draw_things_control.Queue.Hold
use draw_things_control.Queue.Callers.{is_agent, check_entry_permitted}
use draw_things_control.Queue.Rows.{
  QueueRow, empty, new_row, set_running, submit, claim_oldest, select, ordered, insert_ordered,
  update, find_row, get,
}
use draw_things_control.Queue.Rows.Samples.{two_queued-IsWellFormed}
use draw_things_control.Queue.Worker.{Worker, is_entry, is_running, parking_entry_id, park_running}
use draw_things_control.Queue.Worker.Thread.{claim}
use draw_things_control.Queue.Worker.Steps.{new_worker}
use draw_things_control.Queue.Requests.{
  undisturbed, park_entry, unpark_entry, cancel_entry, entry, park_checks,
}
use draw_things_control.Queue.Requests.Refusals.{IsRefused, agent_leaves_persons_entry}
use draw_things_control.Queue.Requests.Accepted.{
  accepted_park_stands, cancel_entry_outcome, IsCancelled, IsStopping,
}

abbrev waiting : Worker
waiting = new_worker codec two_queued saved_nothing

abbrev first_row : QueueRow
first_row = new_row codec (new_entry "tui") empty

agent_leaves_persons_entry_example :
    IsRefused not_permitted waiting
      (park_entry codec "2026-01-02" "1" 1 (some "mcp") undisturbed waiting)
    × IsRefused not_permitted waiting (unpark_entry "1" 1 (some "mcp") undisturbed waiting)
    × IsRefused not_permitted waiting
        (cancel_entry codec "2026-01-02" "1" 1 (some "mcp") undisturbed waiting)
unfolding new_worker submit new_row get find_row is_agent
agent_leaves_persons_entry_example =
    agent_leaves_persons_entry codec "2026-01-02" "1" 1 (some "mcp") undisturbed waiting first_row
      refl refl refl refl

abbrev busy : Worker
busy = (claim codec "2026-01-02" waiting).1

accepted_park_stands_example :
    let w' = (park_entry codec "2026-01-03" "1" 1 (some "tui") undisturbed busy).1 in
    (w'.hold.memory.held ≡ true)
    × (is_some (parking_entry_id w') ≡ true)
    × (is_running 1 w' ≡ true)
    × (w'.stop_reason ≡ none)
unfolding new_worker claim claim_oldest submit new_row Hold.load Settings.get select ordered
    insert_ordered update find_row get set_running park_entry entry park_checks park_running
    is_running Hold.hold Settings.set check_entry_permitted is_agent
accepted_park_stands_example =
    accepted_park_stands codec "2026-01-03" "1" 1 (some "tui") undisturbed busy
      (set_running codec "2026-01-02" first_row) refl refl

cancel_entry_outcome_example :
    let (answer, w') = cancel_entry codec "2026-01-03" "1" 1 (some "tui") undisturbed waiting in
    (answer ≡ ok true → IsCancelled codec "2026-01-03" 1 waiting w')
    × (answer ≡ ok false → is_entry w'.current 1 ≡ true → IsStopping w')
unfolding new_worker submit new_row get find_row
cancel_entry_outcome_example =
    cancel_entry_outcome codec "2026-01-03" "1" 1 (some "tui") undisturbed waiting first_row refl
      two_queued-IsWellFormed
