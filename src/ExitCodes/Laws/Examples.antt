-- ===== src/ExitCodes/Laws/Examples.antt =====
-- The exit codes of SIGTERM, as a stop of a command and of a child.
use draw_things_control.Prelude.{ℕ, Bool, ltb, ◌≡◌, refl, some}
use draw_things_control.ExitCodes.{
  exit_code_for_signal, signal_for_exit_code, exit_code_for_child_signal, pos, negsuc,
}
use draw_things_control.ExitCodes.Laws.{signal_for_exit_code-exit_code_for_signal}

abbrev is_signal : ℕ → Bool
is_signal n = ltb n 32

signal_for_exit_code-exit_code_for_signal_example :
    (signal_for_exit_code is_signal (exit_code_for_signal 15) ≡ some 15)
    × (exit_code_for_child_signal (negsuc 14) ≡ pos (exit_code_for_signal 15))
signal_for_exit_code-exit_code_for_signal_example =
    signal_for_exit_code-exit_code_for_signal is_signal 14 refl
