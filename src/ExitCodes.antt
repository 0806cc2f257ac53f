-- ===== src/ExitCodes.antt =====
-- core/exit_codes.py: the exit codes of the commands. Which numbers are signals is the platform's: a
-- parameter.
mod Laws
use draw_things_control.Prelude.{
  ℕ, suc, ◌+◌, ◌-◌, Bool, Option, none, some, ltb, leb, if◌then◌else◌,
}
use draw_things_control.Errors.{
  Code, error, invalid_input, tool_missing, not_found, busy, conflict, not_permitted,
  state_unavailable, timeout_required, outside_directory, limit_exceeded, invalid_state,
  internal_error, operational_error,
}
use draw_things_control.Queue.Events.{QueueState}

abbrev pub exit_state_unavailable : ℕ
exit_state_unavailable = 1

abbrev pub exit_invalid_input : ℕ
exit_invalid_input = 2

abbrev pub exit_parked : ℕ
exit_parked = 3

abbrev pub exit_busy : ℕ
exit_busy = 75

abbrev pub signal_exit_base : ℕ
signal_exit_base = 128

unfoldable pub exit_code_for_signal : ℕ → ℕ
exit_code_for_signal received = signal_exit_base + received

-- Python's int: `negsuc n` is minus `suc n`.
pub data ℤ : Type 0 where
  pos : ℕ → ℤ
  negsuc : ℕ → ℤ

-- A number less an integer.
unfoldable pub less : ℕ → ℤ → ℤ
less m (pos n) = if leb n m then pos (m - n) else negsuc (n - suc m)
less m (negsuc n) = pos (m + suc n)

-- `signal.Signals(n)` raises a `ValueError` where `n` is no signal.
unfoldable pub signal_for_exit_code : (ℕ → Bool) → ℕ → Option ℕ
signal_for_exit_code is_signal exit_code =
    let received = exit_code - signal_exit_base in
    if ltb signal_exit_base exit_code
    then (if is_signal received then some received else none)
    else none

-- Of a child that a signal ended: its return code is negative, minus the signal's number.
unfoldable pub exit_code_for_child_signal : ℤ → ℤ
unfolding less
exit_code_for_child_signal return_code = less signal_exit_base return_code

-- `error` is the code of an error with no code of its own, which the table does not list; nor does it
-- list sqlite3's.
unfoldable pub exit_code_for_error : Code → ℕ
exit_code_for_error busy = exit_busy
exit_code_for_error state_unavailable = exit_state_unavailable
exit_code_for_error internal_error = exit_state_unavailable
exit_code_for_error error = exit_state_unavailable
exit_code_for_error operational_error = exit_state_unavailable
exit_code_for_error _ = exit_invalid_input

-- `EXIT_CODES_BY_QUEUE_STATE`, with SIGINT 2 and SIGTERM 15; none where the table has no entry.
unfoldable pub exit_code_by_queue_state : QueueState → Option ℕ
unfolding exit_code_for_signal
exit_code_by_queue_state QueueState.succeeded = some 0
exit_code_by_queue_state QueueState.cancelled = some (exit_code_for_signal 2)
exit_code_by_queue_state QueueState.interrupted = some (exit_code_for_signal 15)
exit_code_by_queue_state QueueState.parked = some exit_parked
exit_code_by_queue_state QueueState.failed = some 1
exit_code_by_queue_state _ = none
