-- ===== src/Resume/Entry.antt =====
-- services/queue_resume.py: the resume point of a chain, the acceptance of a resume, and its preview. The
-- parse of a stored snapshot (`parse_snapshot`) is a parameter, as are the libraries it and the checks
-- call.
use draw_things_control.Prelude.{
  ℕ, suc, ◌+◌, ◌-◌, String, Bool, true, false, not, ◌&&◌, ◌||◌, Option, none, some, List, [], ◌∷◌,
  ltb, leb, ◌==◌, str_eq, any, or_else, if◌then◌else◌,
}
use draw_things_control.Errors.{
  Code, Failure, Result, ok, err, invalid_state, internal_error, not_found, raise, concat, ◌>>◌,
}
use draw_things_control.Ids.{number_text, queue_id_text, execution_id_text}
use draw_things_control.Json.{Codec, Json, object, number, lookup}
use draw_things_control.Executions
use draw_things_control.Executions.{ExecutionRow, RunRow, Paths, named, run_file, succeeded_runs}
use draw_things_control.Queue.Events.{QueueState}
use draw_things_control.Queue.Callers.{check_entry_permitted}
use draw_things_control.Queue.Requests.{state_text}
use draw_things_control.Queue.Rows
use draw_things_control.Queue.Rows.{QueueRow, NewQueueEntry, Table}
use draw_things_control.Queue.Worker.{label}
use draw_things_control.Resume.Walk.{
  Attempt, gave, threw, Walk, returned, raised, unfinished, walk_chain,
}
use draw_things_control.Resume.Handoff.{JobDefinition, Images, h3_backend, check_resume_input}

-- `parse_snapshot(...)()`, by the entry, `decode_input`, `allow_missing_input` and `first_run`.
abbrev pub Parse : Type 0
Parse = QueueRow → Bool → Bool → Option ℕ → Result JobDefinition

pub record Env : Type 0 where
  pub codec : Codec
  pub paths : Paths
  pub images : Images
  pub parse : Parse

pub record Store : Type 0 where
  pub queue : Table
  pub executions : List ExecutionRow

pub record ResumeChain : Type 0 where
  pub first_run : ℕ
  pub input : String
  pub seed : ℕ
  pub first_image : Option String
  pub anchor : Option String
  pub execution_number : ℕ

abbrev pub is_resumable : QueueState → Bool
is_resumable QueueState.interrupted = true
is_resumable QueueState.failed = true
is_resumable QueueState.cancelled = true
is_resumable QueueState.parked = true
is_resumable _ = false

-- The errors that are `InputError`s.
abbrev pub is_input_error : Code → Bool
is_input_error Code.invalid_input = true
is_input_error Code.tool_missing = true
is_input_error Code.not_found = true
is_input_error Code.timeout_required = true
is_input_error Code.outside_directory = true
is_input_error Code.limit_exceeded = true
is_input_error Code.invalid_state = true
is_input_error _ = false

abbrev refusal : List String → Failure
refusal parts = record { code = invalid_state; text = concat parts }

-- `is_version_2`.
abbrev is_7_or_8 : Option Json → Bool
is_7_or_8 (some (number n)) = str_eq n "7" || str_eq n "8"
is_7_or_8 _ = false

abbrev version_2_value : Option Json → Bool
version_2_value (some (object members)) = is_7_or_8 (lookup "version" members)
version_2_value _ = false

unfoldable pub is_version_2 : Codec → QueueRow → Bool
is_version_2 c r = elim r.snapshot [ none ↦ false | some s ↦ version_2_value (c.loads s) ]

-- `_resumed_by_some_entry`.
abbrev pub resumes_number : ℕ → QueueRow → Bool
resumes_number n r = elim r.resumes [ none ↦ false | some k ↦ k == n ]

unfoldable pub resumed_by_some_entry : Table → ℕ → Bool
resumed_by_some_entry t n = any (resumes_number n) (Rows.list (λ _. true) t)

-- `_linked_execution`.
unfoldable pub linked_execution : Store → QueueRow → Attempt Failure (Option ExecutionRow)
linked_execution store r = elim r.execution_number [
  | none ↦ gave none
  | some n ↦ elim (Executions.by_number n store.executions) [
    | some x ↦ gave (some x)
    | none ↦ threw (
        refusal (
          label r
          ∷ "'s execution "
          ∷ execution_id_text n
          ∷ " was pruned or deleted; it cannot be resumed"
          ∷ []))
  ]
]

-- `ancestor`; the walk calls it with an entry that resumes another.
unfoldable pub ancestor : Store → QueueRow → Attempt Failure QueueRow
ancestor store r = elim r.resumes [
  | none ↦ threw (record { code = internal_error; text = "AssertionError" })
  | some n ↦ elim (Rows.by_number n store.queue) [
    | some found ↦ gave found
    | none ↦ threw (
        refusal
          (label r ∷ "'s ancestor " ∷ queue_id_text n ∷ " is gone; it cannot be resumed" ∷ []))
  ]
]

abbrev has_runs : List RunRow → Bool
has_runs [] = false
has_runs _ = true

abbrev pub has_succeeded : ExecutionRow → Bool
has_succeeded x = has_runs (succeeded_runs x)

-- The walk of an entry's chain; an entry resumes one with a smaller number, so the number bounds it.
unfoldable pub chain_walk : Store → QueueRow → Walk QueueRow ExecutionRow Failure
chain_walk store r =
    walk_chain (λ (q : QueueRow). q.resumes) (linked_execution store) (ancestor store) has_succeeded
      (suc r.queue_number) r

abbrev pub last_of {ℓ} : {A : Type ℓ} → List A → Option A
last_of [] = none
last_of (x ∷ xs) = elim (last_of xs) [ none ↦ some x | some y ↦ some y ]

-- The resume point that the last succeeded run of the walk's last execution gives.
at_or_past : ℕ → Option ℕ → Bool
at_or_past n none = false
at_or_past n (some total) = leb total n

frame_of : RunRow → Option String
frame_of run = elim (named run.last_frame) [ some f ↦ some f | none ↦ run.output ]

unfoldable pub point_of : Paths → QueueRow → ExecutionRow → RunRow → Result ResumeChain
unfolding at_or_past frame_of
point_of paths r x last =
    if at_or_past last.number x.total_runs
    then err (
        refusal (
          label r
          ∷ ": the chain already finished all "
          ∷ number_text (or_else x.total_runs 0)
          ∷ " runs; nothing to resume"
          ∷ []))
    else elim (run_file paths x (frame_of last)) [
      | none ↦ err (
          refusal
            (label r ∷ ": run " ∷ number_text last.number ∷ "'s output is gone: (no file)" ∷ []))
      | some file ↦ ok (record {
        first_run = last.number + 1;
        input = file;
        seed = or_else x.seed 0;
        first_image = x.first_image;
        anchor = last.anchor;
        execution_number = x.execution_number;
      })
    ]

no_run : QueueRow → Result ResumeChain
no_run r = err (
    refusal (
      label r
      ∷ " has no succeeded run in its chain; submit the job again instead of resuming it"
      ∷ []))

point_at : Paths → QueueRow → Option (QueueRow × Option ExecutionRow) → Result ResumeChain
unfolding no_run
point_at paths r (some (q, some x)) = elim (last_of (succeeded_runs x)) [
  | none ↦ no_run r
  | some last ↦ point_of paths r x last
]
point_at paths r _ = no_run r

-- `_resolve_chain`.
unfoldable pub resolve_chain : Paths → Store → QueueRow → Result ResumeChain
unfolding point_at
resolve_chain paths store r =
    let walk = chain_walk store r in
    elim walk.end [
      | raised e ↦ err e
      | unfinished ↦ raise internal_error "the walk did not end"
      | returned ↦ point_at paths r (last_of walk.steps)
    ]

-- `_check_own_input`.
own_input_error : QueueRow → Failure → Failure
own_input_error r e =
    if is_input_error e.code
    then refusal (label r ∷ "'s job cannot be resolved: " ∷ e.text ∷ [])
    else e

unfoldable pub check_own_input : Env → QueueRow → Bool → Result (Unit {0})
unfolding own_input_error
check_own_input env r decode = elim (env.parse r decode false none) [
  | ok job ↦ ok tt
  | err e ↦ err (own_input_error r e)
]

abbrev pub is_h3 : QueueRow → Bool
is_h3 r = str_eq r.backend h3_backend

unfoldable pub parse_and_check :
    Env → QueueRow → ResumeChain → Bool → Result (ResumeChain × JobDefinition)
parse_and_check env r chain decode =
    elim (env.parse r false (is_h3 r && ltb 1 chain.first_run) (some chain.first_run)) [
      | err e ↦ err e
      | ok job ↦ do
        check_resume_input env.images job chain.input chain.first_run decode
        ok (chain, job)
    ]

-- The resume point and the parsed job; `decode` asks for the full check of images.
unfoldable pub resume_point : Env → Store → QueueRow → Bool → Result (ResumeChain × JobDefinition)
unfolding parse_and_check
resume_point env store r decode = do
  if not (is_h3 r) && not (is_version_2 env.codec r) then check_own_input env r decode else ok tt
  elim (resolve_chain env.paths store r) [
    | err e ↦ err e
    | ok chain ↦ parse_and_check env r chain decode
  ]

check_job : QueueRow → Result (Unit {0})
check_job r =
    if str_eq r.kind "job"
    then ok tt
    else err (refusal (label r ∷ " is a one-off generation and cannot be resumed" ∷ []))

check_state : QueueRow → Table → Result (Unit {0})
check_state r t =
    if not (is_resumable r.state)
    then err (refusal (label r ∷ " cannot be resumed: it is " ∷ state_text r.state ∷ []))
    else if resumed_by_some_entry t r.queue_number
    then err (refusal (label r ∷ " already has a resume; resume the newest one instead" ∷ []))
    else ok tt

-- `_new_resumed_entry`.
unfoldable pub new_resumed_entry :
    QueueRow → ResumeChain → ℕ → String → Option String → NewQueueEntry
new_resumed_entry r chain total submitted_at submitted_by = record r.new {
  submitted_at = submitted_at;
  total_runs = total;
  resumes = some r.queue_number;
  resumes_execution = some chain.execution_number;
  resume_first_run = some chain.first_run;
  resume_input = some chain.input;
  resume_seed = some chain.seed;
  resume_first_image = chain.first_image;
  resume_anchor = chain.anchor;
  submitted_by = submitted_by;
  kind = "job";
}

-- `before_submit` and `enqueue`, as a front end gives them.
abbrev pub BeforeSubmit : Type 0
BeforeSubmit = JobDefinition → ℕ → Result (Unit {0})

abbrev pub Enqueue : Type 0
Enqueue = (Table → QueueRow × Table) → Table → Result QueueRow × Table

abbrev pub no_check : BeforeSubmit
no_check job remaining = ok tt

abbrev pub submit_directly : Enqueue
submit_directly add t = let (row, t') = add t in (ok row, t')

accept_point :
    Env
    → BeforeSubmit
    → Enqueue
    → Option String
    → String
    → Table
    → QueueRow
    → ResumeChain × JobDefinition
    → Result QueueRow × Table
accept_point env before_submit enqueue caller now t r (chain, job) =
    elim (before_submit job (job.run_count + 1 - chain.first_run)) [
      | err e ↦ (err e, t)
      | ok _ ↦
          enqueue (Rows.submit env.codec (new_resumed_entry r chain job.run_count now caller)) t
    ]

-- Every check of a resume, in the code's order, up to the point it starts from.
unfoldable pub checked_point :
    Env → Option String → Store → QueueRow → Result (ResumeChain × JobDefinition)
unfolding check_job check_state
checked_point env caller store r = do
  check_job r
  check_entry_permitted (label r) r.submitted_by caller "resume"
  check_state r store.queue
  resume_point env store r true

resume_found :
    Env
    → BeforeSubmit
    → Enqueue
    → Option String
    → String
    → Store
    → QueueRow
    → Result QueueRow × Table
unfolding checked_point accept_point
resume_found env before_submit enqueue caller now store r =
    elim (checked_point env caller store r) [
      | err e ↦ (err e, store.queue)
      | ok point ↦ accept_point env before_submit enqueue caller now store.queue r point
    ]

-- `resume_entry`: the answer, and the queue afterwards. `now` is the clock's time.
unfoldable pub resume_entry :
    Env → BeforeSubmit → Enqueue → Option String → String → ℕ → Store → Result QueueRow × Table
unfolding resume_found
resume_entry env before_submit enqueue caller now entry_id store =
    elim (Rows.get entry_id store.queue) [
      | none ↦
          (raise not_found (concat ("No queue entry " ∷ number_text entry_id ∷ [])), store.queue)
      | some r ↦ resume_found env before_submit enqueue caller now store r
    ]

-- `ResumePreview`.
pub data ResumePreview : Type 0 where
  resumable : ℕ → ResumePreview
  refused : String → ResumePreview

-- `except InputError`; another error is raised on.
abbrev pub caught : Failure → Result ResumePreview
caught e = if is_input_error e.code then ok (refused e.text) else err e

preview_point : Result (ResumeChain × JobDefinition) → Result ResumePreview
preview_point (ok (chain, job)) = ok (resumable chain.first_run)
preview_point (err e) = caught e

unfoldable pub preview_resume : Env → Store → QueueRow → Result ResumePreview
unfolding preview_point
preview_resume env store r =
    if not (str_eq r.kind "job")
    then ok (refused (concat (label r ∷ " is a one-off generation and cannot be resumed" ∷ [])))
    else if not (is_resumable r.state)
    then ok (refused (concat (label r ∷ " cannot be resumed: it is " ∷ state_text r.state ∷ [])))
    else if resumed_by_some_entry store.queue r.queue_number
    then ok
        (refused (concat (label r ∷ " already has a resume; resume the newest one instead" ∷ [])))
    else preview_point (resume_point env store r false)
