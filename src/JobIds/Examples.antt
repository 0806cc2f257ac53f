-- ===== src/JobIds/Examples.antt =====
-- Tests of the job numbers, with two files of which one goes.
use draw_things_control.Prelude.{true, ◌≡◌, refl, some, [], ◌∷◌}
use draw_things_control.JobIds.{
  Jobs, assign, lookup, listed, changes_nothing, number_all, number_of, clear, mark,
}
use draw_things_control.JobIds.Permanent.{lookup-assign}

abbrev two_jobs : Jobs
two_jobs = (assign ("a.yaml" ∷ "b.yaml" ∷ []) (record { rows = []; counter = 0 })).1

second_job : lookup 2 two_jobs.rows ≡ some ("b.yaml", true)
unfolding assign lookup changes_nothing number_all number_of clear mark
second_job = refl

lookup-assign_example :
    lookup 2 (assign ("c.yaml" ∷ "a.yaml" ∷ []) two_jobs).1.rows
    ≡ some ("b.yaml", listed "b.yaml" ("c.yaml" ∷ "a.yaml" ∷ []))
lookup-assign_example = lookup-assign 2 ("c.yaml" ∷ "a.yaml" ∷ []) two_jobs "b.yaml" true second_job
