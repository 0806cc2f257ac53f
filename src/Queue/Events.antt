-- ===== src/Queue/Events.antt =====
-- The states of a queue entry (state/queue.py) and the events that the queue publishes
-- (services/queue_events.py). A sink is attached: what it receives is the list of events.
use draw_things_control.Prelude.{ℕ, String, Bool, true, false, Option, List, ◌∷◌, [], ◌++◌}

pub data QueueState : Type 0 where
  queued running succeeded failed cancelled interrupted parked : QueueState

-- `state in FINISHED_STATES`.
abbrev pub is_finished : QueueState → Bool
is_finished queued = false
is_finished running = false
is_finished _ = true

pub data Event : Type 0 where
  entry_changed : String → QueueState → Event
  wait_started : String → ℕ → Event
  wait_ended : String → Event
  park_changed : String → Bool → Event
  held : Option String → Option String → Option String → Event
  released : Event

abbrev pub publish : Event → List Event → List Event
publish e events = events ++ e ∷ []
