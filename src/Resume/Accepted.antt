-- ===== src/Resume/Accepted.antt =====
-- services/queue_resume.py, `resume_entry`: what holds of a resume that is accepted, and of one that is
-- refused.
use draw_things_control.Prelude.{
  ℕ, String, ◌≡◌, refl, Option, some, arith, Option-cases, inl, inr, suc, ◌++◌, [], ◌∷◌,
}
use draw_things_control.Errors.{Failure, ok, err, Result-cases}
use draw_things_control.Queue.Rows
use draw_things_control.Queue.Rows.{QueueRow, Table}
use draw_things_control.Resume.Handoff.{JobDefinition}
use draw_things_control.Resume.Entry.{
  Env, Store, ResumeChain, checked_point, resume_entry, BeforeSubmit, submit_directly,
  new_resumed_entry,
}

-- The row that a resume adds.
abbrev pub new_resume :
    Env → Option String → String → Table → QueueRow → ResumeChain × JobDefinition → QueueRow × Table
new_resume env caller now t r (chain, job) =
    Rows.submit env.codec (new_resumed_entry r chain job.run_count now caller) t

module _ (env : Env) (before : BeforeSubmit) (caller : Option String) (now : String) (i : ℕ)
    (store : Store) where
  -- The entry that was found, the point it resumes at, and the new row.
  pub accepted_inversion :
      (row : QueueRow)
      → (resume_entry env before submit_directly caller now i store).0 ≡ ok row
      → (r : QueueRow) × (Rows.get i store.queue ≡ some r)
        × (p : ResumeChain × JobDefinition) × (checked_point env caller store r ≡ ok p)
        × (row ≡ (new_resume env caller now store.queue r p).0)
        × ((resume_entry env before submit_directly caller now i store).1
            ≡ (new_resume env caller now store.queue r p).1)
  unfolding resume_entry
  accepted_inversion row h = elim (Option-cases (Rows.get i store.queue)) [
    | inl e ↦ absurd (ground (arith, e, h))
    | inr (r, e) ↦ elim (Result-cases (checked_point env caller store r)) [
      | inr (failure, e') ↦ absurd (ground (arith, e, e', h))
      | inl (p, e') ↦ (r, e, p, e', ground (arith, e, e', h), ground (arith, e, e', h))
    ]
  ]

  pub refused_resume :
      (failure : Failure)
      → (resume_entry env before submit_directly caller now i store).0 ≡ err failure
      → (resume_entry env before submit_directly caller now i store).1 ≡ store.queue
  unfolding resume_entry
  refused_resume failure h = elim (Option-cases (Rows.get i store.queue)) [
    | inl e ↦ ground (arith, e, h)
    | inr (r, e) ↦ elim (Result-cases (checked_point env caller store r)) [
      | inr (failure', e') ↦ ground (arith, e, e', h)
      | inl (p, e') ↦ ground (arith, e, e', h)
    ]
  ]

pub new_resume-fields :
    (env : Env) (caller : Option String) (now : String) (t : Table) (r : QueueRow)
    (p : ResumeChain × JobDefinition)
    → ((new_resume env caller now t r p).0.resumes ≡ some r.queue_number)
      × ((new_resume env caller now t r p).0.resume_first_run ≡ some p.0.first_run)
      × ((new_resume env caller now t r p).0.queue_number ≡ suc t.counter)
      × ((new_resume env caller now t r p).1.rows
          ≡ t.rows ++ (new_resume env caller now t r p).0 ∷ [])
unfolding Rows.submit Rows.new_row new_resumed_entry
new_resume-fields env caller now t r p = elim (Option-cases r.snapshot) [
  | inl e ↦ rw e (refl, refl, refl, refl)
  | inr (s, e) ↦ rw e (refl, refl, refl, refl)
]
