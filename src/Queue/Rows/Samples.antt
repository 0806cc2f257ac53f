-- ===== src/Queue/Rows/Samples.antt =====
-- The sample tables are well-formed.
use draw_things_control.Samples.{codec, new_entry, two_queued}
use draw_things_control.Queue.Rows.{empty, submit}
use draw_things_control.Queue.Rows.Invariant.{IsWellFormed, submit-IsWellFormed}

empty-IsWellFormed : IsWellFormed empty
empty-IsWellFormed = record { ascending = tt; consistent = tt }

pub two_queued-IsWellFormed : IsWellFormed two_queued
two_queued-IsWellFormed =
    submit-IsWellFormed codec (new_entry "mcp") (submit codec (new_entry "tui") empty).1
      (submit-IsWellFormed codec (new_entry "tui") empty empty-IsWellFormed)
