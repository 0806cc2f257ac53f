-- ===== src/Queue/Rows/Examples.antt =====
-- The theorems on the table, at a table of two queued entries.
use draw_things_control.Prelude.{
  ℕ, false, ◌&&◌, ◌⊎◌, ◌≡◌, refl, none, some, [], ◌==◌, if◌then◌else◌,
}
use mathlib.Core.Option
use draw_things_control.Samples.{codec, new_entry, two_queued}
use draw_things_control.Queue.Rows.{
  QueueRow, submit, new_row, find_row, get, claim_oldest, cancel_queued, prune, has_queued, empty,
}
use draw_things_control.Queue.Rows.Samples.{two_queued-IsWellFormed}
use draw_things_control.Queue.Rows.Invariant.{IsWellFormed, Op, step, step-IsWellFormed}
use draw_things_control.Queue.Rows.Claim.{
  Claims, claim_takes_oldest, cancel_queued_outcome, queued_of, cancelled_at,
}
use draw_things_control.Queue.Rows.Retention.{Outlives, prune_outcome}

step-IsWellFormed_example : IsWellFormed (step codec (Op.claims "2026-01-02") two_queued)
step-IsWellFormed_example =
    step-IsWellFormed codec (Op.claims "2026-01-02") two_queued tt two_queued-IsWellFormed

claim_takes_oldest_example :
    ((claim_oldest codec "2026-01-02" two_queued ≡ (none, two_queued))
      × (has_queued two_queued ≡ false))
    ⊎ ((r : QueueRow) × ((claim_oldest codec "2026-01-02" two_queued).0 ≡ some r)
        × Claims codec "2026-01-02" two_queued (claim_oldest codec "2026-01-02" two_queued).1 r)
claim_takes_oldest_example =
    claim_takes_oldest codec "2026-01-02" two_queued two_queued-IsWellFormed

cancel_queued_outcome_example :
    let (answer, t') = cancel_queued codec 2 "2026-01-02" two_queued in
    (answer ≡ queued_of (get 2 two_queued))
    × ((j : ℕ)
        → get j t' ≡ (
            if 2 == j && answer
            then Option.map (cancelled_at codec "2026-01-02") (get j two_queued)
            else get j two_queued))
cancel_queued_outcome_example =
    cancel_queued_outcome codec 2 "2026-01-02" two_queued two_queued-IsWellFormed

abbrev first_row : QueueRow
first_row = new_row codec (new_entry "tui") empty

prune_outcome_example :
    (Outlives 100 [] first_row → get 1 (prune 100 [] two_queued).1 ≡ some first_row)
    × (¬ Outlives 100 [] first_row → get 1 (prune 100 [] two_queued).1 ≡ none)
unfolding submit get find_row new_row
prune_outcome_example = prune_outcome 100 [] two_queued 1 first_row two_queued-IsWellFormed refl
