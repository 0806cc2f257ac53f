-- ===== src/Resume/Preview.antt =====
-- services/queue_resume.py: what a preview promises of the resume itself.
use draw_things_control.Prelude.{
  ℕ, String, true, false, ◌≡◌, ap, ◌∙◌, Option, none, some, arith, or_else, inl, inr, ltb, ◌&&◌,
}
use draw_things_control.Errors.{Result, ok, err, Result-cases}
use draw_things_control.Queue.Callers.{check_entry_permitted}
use draw_things_control.Queue.Rows
use draw_things_control.Queue.Rows.{QueueRow}
use draw_things_control.Queue.Worker.{label}
use draw_things_control.Resume.Walk.{gave}
use draw_things_control.Resume.Handoff.{
  JobDefinition, check_resume_input-decode, check_resume_input-same,
}
use mathlib.Core.Path.{subst}
use draw_things_control.Resume.Accepted.{accepted_inversion, new_resume-fields}
use draw_things_control.Resume.Entry.{
  Env, Store, ResumeChain, check_own_input, parse_and_check, resume_point, checked_point,
  resolve_chain, is_h3, resume_entry, preview_resume, ResumePreview, resumable, caught,
  BeforeSubmit, no_check, submit_directly,
}

-- What the decoded parse accepts, the parse without decoding accepts.
abbrev pub DecodingIsStricter : Env → QueueRow → Type 0
DecodingIsStricter env r =
    (job : JobDefinition)
    → env.parse r true false none ≡ ok job
    → (job' : JobDefinition) × (env.parse r false false none ≡ ok job')

module _ (env : Env) (store : Store) (r : QueueRow) where
  check_own_input-decode :
      DecodingIsStricter env r
      → check_own_input env r true ≡ ok tt
      → check_own_input env r false ≡ ok tt
  unfolding check_own_input
  check_own_input-decode stricter h = elim (Result-cases (env.parse r true false none)) [
    | inl (job, e) ↦ let (job', e') = stricter job e in ground (arith, e')
    | inr (failure, e) ↦ ground (arith, e, h)
  ]

  parse_and_check-decode :
      (chain : ResumeChain) (p : ResumeChain × JobDefinition)
      → parse_and_check env r chain true ≡ ok p
      → parse_and_check env r chain false ≡ ok p
  unfolding parse_and_check
  parse_and_check-decode chain p h =
      let allow = is_h3 r && ltb 1 chain.first_run in
      elim (Result-cases (env.parse r false allow (some chain.first_run))) [
        | inl (job, e) ↦
            ground
              (arith, e, h, check_resume_input-decode env.images job chain.input chain.first_run)
        | inr (failure, e) ↦ ground (arith, e, h)
      ]

  resume_point-decode :
      (p : ResumeChain × JobDefinition)
      → DecodingIsStricter env r
      → resume_point env store r true ≡ ok p
      → resume_point env store r false ≡ ok p
  unfolding resume_point
  resume_point-decode p stricter h = elim (Result-cases (resolve_chain env.paths store r)) [
    | inl (chain, e) ↦
        ground (arith, e, h, check_own_input-decode stricter, parse_and_check-decode chain p)
    | inr (failure, e) ↦ ground (arith, e, h)
  ]

  checked_point-preview :
      (caller : Option String) (p : ResumeChain × JobDefinition)
      → DecodingIsStricter env r
      → checked_point env caller store r ≡ ok p
      → preview_resume env store r ≡ ok (resumable p.0.first_run)
  unfolding checked_point preview_resume
  checked_point-preview caller p stricter h = ground (arith, resume_point-decode p stricter)

  -- A resume of an entry that is accepted, whoever asks and whatever the front end checks, makes a
  -- new entry that starts at the run that the preview of the entry named: the preview never refuses
  -- what the resume accepts. Condition: the parse with decoding is the stricter one.
  pub accepted_was_previewed :
      (before : BeforeSubmit) (caller : Option String) (now : String) (i : ℕ) (row : QueueRow)
      → Rows.get i store.queue ≡ some r
      → DecodingIsStricter env r
      → (resume_entry env before submit_directly caller now i store).0 ≡ ok row
      → (n : ℕ) × (preview_resume env store r ≡ ok (resumable n)) × (row.resume_first_run ≡ some n)
  unfolding resume_entry
  accepted_was_previewed before caller now i row found stricter h =
      let (q, e, p, checked, made, after) =
        accepted_inversion env before caller now i store row h in
      let same : q ≡ r = ground (arith, e, found) in
      let fields = new_resume-fields env caller now store.queue q p in
      (
        p.0.first_run,
        checked_point-preview caller p stricter
            (subst (λ x. checked_point env caller store x ≡ ok p) same checked),
        ap (λ (x : QueueRow). x.resume_first_run) made ∙ fields.1,
      )

-- What a preview says of a resume's answer.
abbrev pub preview_of : Result QueueRow → Result ResumePreview
preview_of (ok row) = ok (resumable (or_else row.resume_first_run 0))
preview_of (err e) = caught e

abbrev preview_of_point : Result (ResumeChain × JobDefinition) → Result ResumePreview
preview_of_point (ok p) = ok (resumable p.0.first_run)
preview_of_point (err e) = caught e

module _ (env : Env) (store : Store) (r : QueueRow)
    (decodes : (file : String) (size : ℕ × ℕ)
      → env.images.read_size file ≡ gave size
      → env.images.decode file ≡ gave tt)
    (parses : env.parse r true false none ≡ env.parse r false false none) where
  parse_and_check-same :
      (chain : ResumeChain) → parse_and_check env r chain true ≡ parse_and_check env r chain false
  unfolding parse_and_check
  parse_and_check-same chain =
      let allow = is_h3 r && ltb 1 chain.first_run in
      elim (Result-cases (env.parse r false allow (some chain.first_run))) [
        | inl (job, e) ↦
            ground
              (arith, e, check_resume_input-same env.images decodes job chain.input chain.first_run)
        | inr (failure, e) ↦ ground (arith, e)
      ]

  resume_point-same : resume_point env store r true ≡ resume_point env store r false
  unfolding resume_point check_own_input
  resume_point-same = elim (Result-cases (resolve_chain env.paths store r)) [
    | inl (chain, e) ↦ ground (arith, e, parses, parse_and_check-same chain)
    | inr (failure, e) ↦ ground (arith, e, parses)
  ]

  checked_point-same :
      (caller : Option String)
      → check_entry_permitted (label r) r.submitted_by caller "resume" ≡ ok tt
      → preview_resume env store r ≡ preview_of_point (checked_point env caller store r)
  unfolding checked_point preview_resume
  checked_point-same caller permitted = ground (arith, permitted, resume_point-same)

  -- A preview says exactly what the resume, by a caller who may act on the entry and without a front
  -- end's own limits, answers: the run that the new entry starts at, or the text of the refusal. Conditions: every image
  -- whose header can be read decodes, and the parse with decoding agrees with the one without.
  pub preview_tells :
      (caller : Option String) (now : String) (i : ℕ)
      → Rows.get i store.queue ≡ some r
      → check_entry_permitted (label r) r.submitted_by caller "resume" ≡ ok tt
      → preview_resume env store r
        ≡ preview_of (resume_entry env no_check submit_directly caller now i store).0
  unfolding resume_entry
  preview_tells caller now i found permitted =
      let same = checked_point-same caller permitted in
      elim (Result-cases (checked_point env caller store r)) [
        | inl (p, e) ↦
            ground (arith, found, e, same, new_resume-fields env caller now store.queue r p)
        | inr (failure, e) ↦ ground (arith, found, e, same)
      ]
