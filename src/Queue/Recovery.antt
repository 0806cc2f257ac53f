-- ===== src/Queue/Recovery.antt =====
-- services/queue_recovery.py: before the worker starts, the entries that a crash left running are
-- brought to what their executions show. Of an execution (state/executions.py) it reads the status and
-- the finish.
pub mod Stopped
pub mod Entries
mod Examples
use draw_things_control.Prelude.{
  ℕ, String, Bool, true, false, not, ◌≡◌, refl, Option, none, some, List, [], ◌∷◌, arith, any, map,
  str_eq, ◌==◌, ==_refl, All, All-weaken, All-both, if◌then◌else◌,
}
use draw_things_control.Json.{Codec}
use draw_things_control.Queue.Events.{QueueState, is_finished}
use draw_things_control.Queue.Rows
use draw_things_control.Queue.Rows.{
  QueueRow, Table, is_running, is_queued, select, ordered, update, list, set_requeued, set_finished,
  requeue, finish,
}
use draw_things_control.Queue.Rows.Lookup.{All-update_cases, All-ordered, All-of-select}
use draw_things_control.Queue.Worker.Single.{NoneRunning}

pub record Execution : Type 0 where
  pub status : String
  pub finished_at : Option String

abbrev pub Executions : Type 0
Executions = List (ℕ × Execution)

-- `executions.by_number`.
abbrev pub by_number : ℕ → Executions → Option Execution
by_number n [] = none
by_number n ((k, x) ∷ rest) = if k == n then some x else by_number n rest

-- `sweep_interrupted`.
abbrev pub sweep_one : String → Execution → Execution
sweep_one now x =
    if str_eq x.status "running"
    then record { status = "interrupted"; finished_at = some now }
    else x

unfoldable pub sweep_interrupted : String → Executions → Executions
sweep_interrupted now xs = map (λ (p : ℕ × Execution). (p.0, sweep_one now p.1)) xs

-- `_EXECUTION_TO_QUEUE_STATE.get(status, INTERRUPTED)`.
abbrev pub state_of_execution : String → QueueState
state_of_execution status =
    if str_eq status "succeeded"
    then QueueState.succeeded
    else if str_eq status "failed"
    then QueueState.failed
    else if str_eq status "parked"
    then QueueState.parked
    else QueueState.interrupted

-- `execution.finished_at or local_timestamp(clock())`: an empty text gives the clock's time too.
abbrev pub finish_time : String → Option String → String
finish_time now none = now
finish_time now (some at) = if str_eq at "" then now else at

-- The execution that an entry's link finds.
abbrev pub linked : Executions → Option ℕ → Option Execution
linked xs none = none
linked xs (some n) = by_number n xs

unfoldable pub recover_entry : Codec → String → Executions → QueueRow → Table → Table
recover_entry c now xs r t = elim (linked xs r.execution_number) [
  | none ↦ requeue r.id t
  | some x ↦
      finish c r.id (state_of_execution x.status) (finish_time now x.finished_at) none false t
]

unfoldable pub recover_all : Codec → String → Executions → List QueueRow → Table → Table
recover_all c now xs [] t = t
recover_all c now xs (r ∷ rs) t = recover_all c now xs rs (recover_entry c now xs r t)

-- The sweep of the executions comes first; `now` is the clock's time as a local timestamp.
unfoldable pub recover_queue : Codec → String → Executions → Table → Executions × Table
recover_queue c now xs t =
    let swept = sweep_interrupted now xs in (swept, recover_all c now swept (list is_running t) t)
