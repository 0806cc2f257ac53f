-- ===== src/Planning.antt =====
-- jobs/planning.py, `JobPlanner`: the seed of a job and the files of its runs, without running anything.
-- What a backend makes of a run (its files and its command) and what its tools need are parameters; the
-- view of a run that `job_for_run` gives is the run's number.
pub mod OutputNaming
pub mod Unused
mod Examples
use draw_things_control.Prelude.{
  ℕ, zero, suc, ◌+◌, ◌-◌, String, Bool, true, false, not, ◌&&◌, ◌||◌, Option, none, some, List, [],
  ◌∷◌, ◌++◌, any, str_eq, is_some, if◌then◌else◌, or_else,
}
use draw_things_control.Errors.{Result, ok, err}
use draw_things_control.PromptPairs.{PromptPair}
use draw_things_control.Resume.Handoff.{h3_backend}
use draw_things_control.Planning.OutputNaming.{Names, Draws, next_output_path}

pub record OutputPaths : Type 0 where
  pub handoff : Option String
  pub raw_handoff : Option String
  pub corrected_output : Option String

abbrev pub no_paths : OutputPaths
no_paths = record { handoff = none; raw_handoff = none; corrected_output = none }

-- What planning reads of a version-2 run.
pub record EffectiveView : Type 0 where
  pub backend : String
  pub settings_profile : String
  pub pipeline : String
  pub seed : Option ℕ
  pub requires_visual_input : Bool

-- What it reads of a job: `needs_visual` is `run_needs_visual_input`, and `copy_text` the text that
-- stands for the copy of the input, where the job has an input and a plan for it.
pub record PlannedJob : Type 0 where
  pub name : String
  pub output_directory : String
  pub schedule : List PromptPair
  pub effective : Option (ℕ → EffectiveView)
  pub backend : String
  pub needs_visual : ℕ → Bool
  pub extension_of : ℕ → String
  pub input : Option String
  pub copy_text : Option String
  pub requested_seed : Option ℕ
  pub requested_seed_source : String

-- The adapters, by a backend's id.
pub record Adapters : Type 0 where
  pub output_paths : String → ℕ → String → OutputPaths
  pub arguments : String → ℕ → PromptPair → Option String → String → ℕ → ℕ → List String
  pub redact : String → List String → List String
  pub check_tools : String → ℕ → Result (Unit {0})

pub record PlannedRun : Type 0 where
  pub number : ℕ
  pub pair : PromptPair
  pub input : Option String
  pub output : String
  pub last_frame : Option String
  pub arguments : List String
  pub raw_last_frame : Option String
  pub corrected_output : Option String
  pub seed : ℕ

pub record JobPreview : Type 0 where
  pub seed : ℕ
  pub seed_source : String
  pub runs : List PlannedRun
  pub commands : List (List String)

abbrev backend_of : PlannedJob → ℕ → String
backend_of job number = elim job.effective [
  | some view ↦ (view number).backend
  | none ↦ job.backend
]

-- `seed`; `drawn` is what the random seed would be.
unfoldable pub seed : PlannedJob → Option ℕ → ℕ → ℕ × String
seed job placeholder drawn = elim job.requested_seed [
  | some s ↦ (s, job.requested_seed_source)
  | none ↦ (or_else placeholder drawn, "random")
]

-- The tools of the runs `number`, `number + 1`, ...: each backend, profile and pipeline once.
-- A version-2 job has a run for each pair of its schedule. What the check learns of an installation, and
-- copies to the job, is left out: planning does not read it.
same_key : EffectiveView → EffectiveView → Bool
same_key a b =
    str_eq a.backend b.backend
    && (str_eq a.settings_profile b.settings_profile && str_eq a.pipeline b.pipeline)

unfoldable pub check_each :
    Adapters → (ℕ → EffectiveView) → List EffectiveView → ℕ → List PromptPair → Result (Unit {0})
unfolding same_key
check_each adapters view checked number [] = ok tt
check_each adapters view checked number (pair ∷ rest) =
    let run = view number in
    let later = check_each adapters view (run ∷ checked) (suc number) rest in
    if any (same_key run) checked
    then later
    else elim (adapters.check_tools run.backend number) [ err e ↦ err e | ok _ ↦ later ]

abbrev drop {ℓ} : {A : Type ℓ} → ℕ → List A → List A
drop n [] = []
drop zero (x ∷ xs) = x ∷ xs
drop (suc n) (x ∷ xs) = drop n xs

unfoldable pub check_tools : Adapters → PlannedJob → ℕ → Result (Unit {0})
unfolding check_each
check_tools adapters job first_run = elim job.effective [
  | none ↦ adapters.check_tools job.backend first_run
  | some view ↦ check_each adapters view [] first_run (drop (first_run - 1) job.schedule)
]

-- The seed of a run: its own, or the execution's.
seed_of_run : PlannedJob → ℕ → ℕ → ℕ
seed_of_run job number seed = elim job.effective [
  | some view ↦ or_else (view number).seed seed
  | none ↦ seed
]

paths_of_run : Adapters → PlannedJob → ℕ → String → OutputPaths
paths_of_run adapters job number output =
    if str_eq (backend_of job number) h3_backend && not (job.needs_visual (number + 1))
    then no_paths
    else adapters.output_paths (backend_of job number) number output

recorded_input : PlannedJob → ℕ → Option String → Option String
recorded_input job number input = elim job.effective [
  | some view ↦ if (view number).requires_visual_input then input else none
  | none ↦ if str_eq job.backend h3_backend && not (job.needs_visual number) then none else input
]

-- A version-2 view is a job of one run.
number_in_view : PlannedJob → ℕ → ℕ
number_in_view job number = if is_some job.effective then 1 else number

unfoldable pub planned :
    Adapters → PlannedJob → ℕ → PromptPair → Option String → ℕ → String → PlannedRun
unfolding seed_of_run paths_of_run recorded_input number_in_view
planned adapters job number pair input seed output =
    let paths = paths_of_run adapters job number output in
    let run_seed = seed_of_run job number seed in
    record {
      number = number;
      pair = pair;
      input = recorded_input job number input;
      output = output;
      last_frame = paths.handoff;
      arguments =
          adapters.arguments (backend_of job number) number pair input output run_seed
            (number_in_view job number);
      raw_last_frame = paths.raw_handoff;
      corrected_output = paths.corrected_output;
      seed = run_seed;
    }

-- `plan_run`: none is the error that no name is left. The second part is the next draw.
unfoldable pub plan_run :
    Names
    → Draws
    → Adapters
    → PlannedJob
    → ℕ
    → PromptPair
    → Option String
    → ℕ
    → List String
    → ℕ
    → Option (PlannedRun × ℕ)
plan_run names draws adapters job number pair input seed reserved k =
    elim (next_output_path names draws job.output_directory job.name (job.extension_of number)
      reserved k) [
        | none ↦ none
        | some (output, k') ↦ some (planned adapters job number pair input seed output, k')
      ]

abbrev pub add_path : Option String → List String → List String
add_path none paths = paths
add_path (some p) paths = p ∷ paths

-- The files that a planned run reserves.
unfoldable pub reserves : PlannedRun → List String → List String
reserves run reserved =
    run.output
    ∷ add_path run.last_frame (add_path run.raw_last_frame (add_path run.corrected_output reserved))

-- The loop of `preview`.
unfoldable pub plan_runs :
    Names
    → Draws
    → Adapters
    → PlannedJob
    → ℕ
    → ℕ
    → Option String
    → List String
    → ℕ
    → List PromptPair
    → Option (List PlannedRun)
plan_runs names draws adapters job seed number current reserved k [] = some []
plan_runs names draws adapters job seed number current reserved k (pair ∷ rest) =
    let input = if job.needs_visual number || not (is_some job.effective) then current else none in
    elim (plan_run names draws adapters job number pair input seed reserved k) [
      | none ↦ none
      | some (run, k') ↦
          elim (plan_runs names draws adapters job seed (suc number)
            (some (or_else run.last_frame run.output)) (reserves run reserved) k' rest) [
              | none ↦ none
              | some runs ↦ some (run ∷ runs)
            ]
    ]

pub first_input : PlannedJob → Option String
first_input job = elim job.input [ none ↦ none | some file ↦ some (or_else job.copy_text file) ]

commands_of : Adapters → PlannedJob → List PlannedRun → List (List String)
commands_of adapters job [] = []
commands_of adapters job (run ∷ runs) =
    adapters.redact (backend_of job run.number) run.arguments ∷ commands_of adapters job runs

-- `preview`: the answer, or that no name is left, after the check of the tools.
unfoldable pub preview :
    Names → Draws → Adapters → PlannedJob → Option ℕ → ℕ → Result (Option JobPreview)
unfolding first_input commands_of
preview names draws adapters job placeholder drawn = elim (check_tools adapters job 1) [
  | err e ↦ err e
  | ok _ ↦
      let (s, source) = seed job placeholder drawn in
      elim (plan_runs names draws adapters job s 1 (first_input job) [] 0 job.schedule) [
        | none ↦ ok none
        | some runs ↦ ok (
            some (record {
              seed = s;
              seed_source = source;
              runs = runs;
              commands = commands_of adapters job runs;
            }))
      ]
]
