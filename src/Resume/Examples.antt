-- ===== src/Resume/Examples.antt =====
-- Tests of the resume, and its theorems at concrete inputs.
use draw_things_control.Prelude.{ℕ, suc, ◌+◌, ◌≡◌, ◌≢◌, refl, none, some, false}
use draw_things_control.Errors.{ok}
use draw_things_control.Queue.Callers.{check_entry_permitted, is_agent}
use draw_things_control.Queue.Rows
use draw_things_control.Executions
use draw_things_control.Executions.{run_file, select_succeeded}
use draw_things_control.Queue.Worker.{label}
use draw_things_control.Queue.Events.{QueueState}
use draw_things_control.Queue.Rows.{QueueRow}
use draw_things_control.Queue.Rows.Invariant.{
  step, claims, IsWellFormed, finish-IsWellFormed, link_execution-IsWellFormed, submit-IsWellFormed,
}
use draw_things_control.Resume.Walk.{unfinished, walk_chain}
use draw_things_control.Resume.Handoff.{check_resume_input, effective_run}
use draw_things_control.Resume.Entry.{
  resume_entry, preview_resume, resumable, no_check, submit_directly, chain_walk, linked_execution,
  ancestor, has_succeeded, new_resumed_entry, checked_point, resumed_by_some_entry, resume_point,
  is_version_2, check_own_input, resolve_chain, point_of, parse_and_check,
}
use draw_things_control.Resume.Once.{IsLinked, links_kept}
use draw_things_control.Resume.Links.{chain_walk_ends}
use draw_things_control.Resume.Preview.{preview_of, preview_tells, accepted_was_previewed}
use draw_things_control.Resume.Samples.{env, parked_store, parked_row, resumed_row}
use draw_things_control.Samples.{codec, new_entry, load}

parked_table-IsWellFormed : IsWellFormed parked_store.queue
parked_table-IsWellFormed =
    let first = (Rows.submit codec (new_entry "tui") Rows.empty).1 in
    finish-IsWellFormed codec 1 QueueState.parked "later" none false (Rows.link_execution 1 1 first)
      refl
      (link_execution-IsWellFormed 1 1 first (
        submit-IsWellFormed codec (new_entry "tui") Rows.empty
          (record { ascending = tt; consistent = tt })))

parked_table-IsLinked : IsLinked parked_store.queue
unfolding Rows.submit Rows.new_row Rows.link_execution Rows.finish Rows.set_finished Rows.update
    Rows.get Rows.find_row
parked_table-IsLinked = record { down = (tt, tt); once = (tt, tt) }

parked_found : Rows.get 1 parked_store.queue ≡ some parked_row
unfolding Rows.submit Rows.new_row Rows.link_execution Rows.finish Rows.set_finished Rows.update
    Rows.get Rows.find_row
parked_found = refl

resumed :
    (resume_entry env no_check submit_directly (some "tui") "now" 1 parked_store).0 ≡ ok resumed_row
unfolding resume_entry new_resumed_entry check_entry_permitted is_agent checked_point
    resumed_by_some_entry Rows.get Rows.find_row Rows.list Rows.select Rows.ordered
    Rows.insert_ordered Rows.submit Rows.new_row Rows.link_execution Rows.finish Rows.set_finished
    Rows.update resume_point is_version_2 check_own_input resolve_chain chain_walk walk_chain
    linked_execution Executions.by_number select_succeeded point_of run_file parse_and_check
    check_resume_input effective_run load
resumed = refl

links_kept_example :
    IsLinked (resume_entry env no_check submit_directly (some "tui") "now" 1 parked_store).1
    × IsLinked (step codec (claims "now") parked_store.queue)
links_kept_example =
    links_kept env no_check (some "tui") "now" 1 (claims "now") parked_store tt
      parked_table-IsWellFormed parked_table-IsLinked

found_by_number : Rows.by_number 1 parked_store.queue ≡ some parked_row
unfolding Rows.by_number Rows.find_number Rows.submit Rows.new_row Rows.link_execution Rows.finish
    Rows.set_finished Rows.update
found_by_number = refl

chain_walk_ends_example :
    ((chain_walk parked_store parked_row).end ≢ unfinished)
    × (walk_chain
          (λ (q : QueueRow). q.resumes)
          (linked_execution parked_store)
          (ancestor parked_store)
          has_succeeded
          (suc (parked_row.queue_number + 5))
          parked_row
        ≡ chain_walk parked_store parked_row)
chain_walk_ends_example =
    chain_walk_ends parked_store parked_row 1 5 parked_table-IsLinked.down found_by_number

accepted_was_previewed_example :
    (n : ℕ) × (preview_resume env parked_store parked_row ≡ ok (resumable n))
    × (resumed_row.resume_first_run ≡ some n)
accepted_was_previewed_example =
    accepted_was_previewed env parked_store parked_row no_check (some "tui") "now" 1 resumed_row
      parked_found (λ j h. (j, h)) resumed

permitted :
    check_entry_permitted (label parked_row) parked_row.submitted_by (some "tui") "resume" ≡ ok tt
unfolding check_entry_permitted is_agent Rows.submit Rows.new_row
permitted = refl

preview_tells_example :
    preview_resume env parked_store parked_row
    ≡ preview_of (resume_entry env no_check submit_directly (some "tui") "now" 1 parked_store).0
preview_tells_example =
    preview_tells env parked_store parked_row (λ file size h. refl) refl (some "tui") "now" 1
      parked_found permitted
