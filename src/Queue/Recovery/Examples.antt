-- ===== src/Queue/Recovery/Examples.antt =====
-- Recovery of a table in which a crash left an entry running.
use draw_things_control.Prelude.{◌≡◌, none, [], ◌∷◌, if◌then◌else◌}
use mathlib.Core.Option
use draw_things_control.Samples.{codec, two_queued}
use draw_things_control.Queue.Rows.{Table, get, is_running, claim_oldest}
use draw_things_control.Queue.Rows.Samples.{two_queued-IsWellFormed}
use draw_things_control.Queue.Rows.Invariant.{claim_oldest-IsWellFormed}
use draw_things_control.Queue.Worker.Single.{NoneRunning}
use draw_things_control.Queue.Recovery.{Executions, recover_queue}
use draw_things_control.Queue.Recovery.Stopped.{recover_queue-NoneRunning}
use draw_things_control.Queue.Recovery.Entries.{recovered, execution_of, recover_queue_outcome}

abbrev crashed : Table
crashed = (claim_oldest codec "2026-01-02" two_queued).1

abbrev executions : Executions
executions = (1, record { status = "running"; finished_at = none }) ∷ []

recover_queue-NoneRunning_example :
    NoneRunning (recover_queue codec "2026-01-03" executions crashed).1
recover_queue-NoneRunning_example = recover_queue-NoneRunning codec "2026-01-03" executions crashed

recover_queue_outcome_example :
    get 1 (recover_queue codec "2026-01-03" executions crashed).1
    ≡ Option.map
        (λ r.
          if is_running r.state
          then recovered codec "2026-01-03" (execution_of r.execution_number executions) r
          else r)
        (get 1 crashed)
recover_queue_outcome_example =
    recover_queue_outcome codec "2026-01-03" executions crashed 1
      (claim_oldest-IsWellFormed codec "2026-01-02" two_queued two_queued-IsWellFormed)
