-- ===== src/History/Examples.antt =====
-- Tests of the deletion of executions, and its theorem at a store with a parked job.
use draw_things_control.Executions
