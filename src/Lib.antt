-- ===== src/Lib.antt =====
-- Framecontrol's job queue and what it runs on: a server that runs generation jobs one after another,
-- on a thread of its own, while people and agents submit, cancel, park, hold and release.
--
-- The parts, and where the program has them (paths from the repository's root):
-- - Token: src/framecontrol/core/process/signals.py, `CancelToken`: stop and park requests for the
--   running job. Token/Race interleaves a cancel with the start of a run; Token/Parking has sequences of
--   operations.
-- - Settings: src/framecontrol/state/settings.py. A write that the database refuses is a value.
-- - Queue/Hold: src/framecontrol/services/queue_hold.py: the hold in memory and in its settings row.
-- - Queue/Rows: src/framecontrol/state/queue.py, `QueueRepository`: the queue table. A SELECT, UPDATE or
--   DELETE is a function on the list of rows.
-- - Queue/Status, Queue/Events, Queue/Callers: src/framecontrol/services/queue_worker_status.py,
--   queue_events.py and queue_callers.py.
-- - Queue/Worker: src/framecontrol/services/queue_worker.py and queue_claim_gate.py. Worker.antt has the
--   methods that other threads call, Thread.antt what the worker's thread does with an entry, and
--   Steps.antt joins them with the executor's token to one system: a step is what one thread does under
--   one lock, and `Reach` is any sequence of allowed steps. A write that ends an entry may be refused;
--   the session, which runs the job, may raise at any time, and returns only after JobFinished. A call of `executor.cancel()` is made outside
--   the state lock, so it is a step of its own, counted while it is on its way.
-- - Queue/Requests: src/framecontrol/services/queue_park.py and queue_cancel.py. What other threads do
--   between the read of the entry and the worker's call is an arbitrary function.
-- - Queue/Recovery: src/framecontrol/services/queue_recovery.py, and what it uses of
--   src/framecontrol/state/executions.py.
-- - Tracker: src/framecontrol/jobs/timing/tracker.py and model.py: the spans of a child's stages.
-- - Segments: src/framecontrol/core/process/segments.py: a child's output in segments.
-- - PromptPairs: `_assign_runs` of src/framecontrol/jobs/prompt_pairs.py, and `schedule` of
--   src/framecontrol/jobs/definition.py.
-- - Cooldown, ExitCodes: src/framecontrol/core/cooldown.py and exit_codes.py.
-- - Errors, Ids, Json: src/framecontrol/core/errors.py and state/ids.py, and the values of Python's json
--   module. The JSON codec and the clock's formats are a parameter, `Codec`.
-- - Executions: src/framecontrol/state/execution_rows.py and executions.py: the rows of executions and of
--   their runs. Executions/Deletion has what a deletion takes out.
-- - Resume: src/framecontrol/services/resume_chain.py and queue_resume.py. Walk.antt has the walk along the
--   links, Handoff.antt what a run hands on, Entry.antt the entry's checks, its preview and its insert.
--   The parse of a stored snapshot is a parameter.
-- - History: src/framecontrol/services/history_delete.py and `resume_links` of state/queue.py.
-- - Executor: the loop over a job's runs of src/framecontrol/jobs/executor.py. Between two reads of the
--   token the other threads may change it arbitrarily: `observe` is what they do. A child's run, a wait
--   and whether a save of the records raises are parameters.
-- - Planning: src/framecontrol/jobs/planning.py and output_naming.py: a run's seed, input and new names.
-- - Finisher: src/framecontrol/jobs/run_finisher.py: what becomes of a child's output.
-- - ApiRules: src/framecontrol/services/api_rules.py: what the API's job limits refuse.
-- - JobIds: src/framecontrol/state/job_ids.py: a job name's permanent number.
-- Prelude has the shared tests and list lemmas; Samples has concrete values for the Examples modules.
--
-- Times are texts where the program keeps texts, and natural numbers where it keeps floats that it only
-- compares and copies; the cooldown's floats are decimals.
-- Fuel: in Ids a number has no more digits than its value; the walk along the links of a resume is given
-- the entry's number and one, since a link goes to a smaller number (Resume/Links); the rounds of a
-- cooldown are a parameter, enough when there are more of them than parks (Executor/Ends). The hundred
-- attempts at a free name are the program's own.
--
-- Not modelled: SQL, files, child processes, sockets, the terminal and the forecasts' statistics; the
-- one-off generations; the parse of job files and of stored snapshots; what the records hold, the first image and
-- the timing that the executor keeps beside its loop; when old executions are pruned.
pub mod Prelude
pub mod Errors
pub mod Settings
pub mod Json
pub mod Queue
pub mod Token
pub mod Ids
pub mod Tracker
pub mod Segments
pub mod ExitCodes
pub mod PromptPairs
pub mod Cooldown
pub mod Samples
pub mod Executions
pub mod Resume
pub mod History
pub mod Executor
pub mod Planning
pub mod Finisher
pub mod JobIds
pub mod ApiRules
