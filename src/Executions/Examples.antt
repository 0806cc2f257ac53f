-- ===== src/Executions/Examples.antt =====
-- The theorem on a dry run of a deletion, at one execution.
use draw_things_control.Prelude.{◌≡◌, [], ◌∷◌, true, false}
use draw_things_control.Executions.{delete}
use draw_things_control.Executions.Deletion.{dry_run_tells}
use draw_things_control.Resume.Samples.{execution}

dry_run_tells_example :
    ((delete true [] (1 ∷ 4 ∷ 1 ∷ []) (execution ∷ [])).0
      ≡ (delete false [] (1 ∷ 4 ∷ 1 ∷ []) (execution ∷ [])).0)
    × ((delete true [] (1 ∷ 4 ∷ 1 ∷ []) (execution ∷ [])).1 ≡ execution ∷ [])
dry_run_tells_example = dry_run_tells [] (1 ∷ 4 ∷ 1 ∷ []) (execution ∷ [])
