-- ===== src/ExitCodes/Laws.antt =====
-- core/exit_codes.py: signals and outcomes, and their exit codes.
mod Examples
use draw_things_control.Prelude.{
  ℕ, suc, ◌+◌, ◌-◌, ◌<◌, Bool, true, false, ◌≡◌, refl, Option, none, some, is_some, arith, ltb,
  if◌then◌else◌,
}
use draw_things_control.Errors.{Code}
use draw_things_control.Queue.Events.{QueueState, is_finished}
use draw_things_control.ExitCodes.{
  exit_code_for_signal, signal_for_exit_code, exit_code_for_child_signal, exit_code_for_error,
  exit_code_by_queue_state, ℤ, pos, negsuc, less,
}

-- A signal has a number above 0. The exit code of a command that it stopped reads back as that signal,
-- and a child that it ended, whose return code is minus the number, gets the same exit code.
pub signal_for_exit_code-exit_code_for_signal :
    (is_signal : ℕ → Bool) (n : ℕ)
    → is_signal (suc n) ≡ true
    → (signal_for_exit_code is_signal (exit_code_for_signal (suc n)) ≡ some (suc n))
      × (exit_code_for_child_signal (negsuc n) ≡ pos (exit_code_for_signal (suc n)))
unfolding signal_for_exit_code exit_code_for_signal exit_code_for_child_signal less
signal_for_exit_code-exit_code_for_signal is_signal n s =
    let back : (128 + suc n) - 128 ≡ suc n = omega arith in (ground (arith, back), refl)

-- A finished state has an exit code, and only a success has zero; a queued or running entry has none;
-- and no two finished states share a code.
pub exit_code_by_queue_state-is_finished :
    (state other : QueueState)
    → (is_some (exit_code_by_queue_state state) ≡ is_finished state)
      × (exit_code_by_queue_state state ≡ some 0 → state ≡ QueueState.succeeded)
      × (is_finished state ≡ true
          → exit_code_by_queue_state state ≡ exit_code_by_queue_state other
          → state ≡ other)
unfolding exit_code_by_queue_state exit_code_for_signal
exit_code_by_queue_state-is_finished state other = (ground arith, ground arith, ground arith)
