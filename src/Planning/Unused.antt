-- ===== src/Planning/Unused.antt =====
-- jobs/planning.py: the files of a previewed job are free.
use draw_things_control.Prelude.{
  ℕ, suc, String, false, ◌≡◌, refl, ap, not, ◌||◌, Option, none, some, List, [], ◌∷◌, ◌++◌, ◌∙◌,
  str_eq, any, is_some, length, arith, Option-cases, inl, inr, or_else, if◌then◌else◌,
}
use mathlib.Core.Path.{subst}
use draw_things_control.Errors.{ok, Result-cases}
use draw_things_control.PromptPairs.{PromptPair}
use draw_things_control.Planning.OutputNaming.{
  Names, Draws, taken, files_of, next_output_path, try_names-free, max_attempts, last_frame_path,
  raw_last_frame_path, corrected_output_path, raw_output_path, uncorrected_output_path,
}
use draw_things_control.Planning.{
  Adapters, PlannedJob, PlannedRun, JobPreview, planned, plan_run, plan_runs, preview, reserves,
  check_tools, seed, first_input, add_path,
}

abbrev pub IsFree : Names → List String → String → Type 0
IsFree names earlier file = (any (λ q. str_eq q file) earlier ≡ false) × (names.exists file ≡ false)

abbrev pub path_of : Option String → List String
path_of none = []
path_of (some p) = p ∷ []

-- The files of a run.
abbrev pub run_files : PlannedRun → List String
run_files run =
    (run.output ∷ [])
    ++ (path_of run.last_frame ++ (path_of run.raw_last_frame ++ path_of run.corrected_output))

-- Each run's output, and the five files named from it, is not on the disk, and is none of `earlier`, to
-- which each run adds its files.
abbrev pub Unused : Names → List String → List PlannedRun → Type 0
Unused names earlier [] = Unit
Unused names earlier (run ∷ runs) =
    IsFree names earlier run.output
    × IsFree names earlier (last_frame_path names run.output)
    × IsFree names earlier (raw_last_frame_path names run.output)
    × IsFree names earlier (corrected_output_path names run.output)
    × IsFree names earlier (raw_output_path names run.output)
    × IsFree names earlier (uncorrected_output_path names run.output)
    × Unused names (run_files run ++ earlier) runs

untaken-IsFree :
    (names : Names) (earlier : List String) (file : String)
    → taken names earlier file ≡ false
    → IsFree names earlier file
unfolding taken
untaken-IsFree names earlier file h = (ground (arith, h), ground (arith, h))

untaken :
    (names : Names) (earlier : List String) (output : String) (runs : List PlannedRun) {A : Type 0}
    → any (taken names earlier) (files_of names output) ≡ false
    → A
    → IsFree names earlier output
      × IsFree names earlier (last_frame_path names output)
      × IsFree names earlier (raw_last_frame_path names output)
      × IsFree names earlier (corrected_output_path names output)
      × IsFree names earlier (raw_output_path names output)
      × IsFree names earlier (uncorrected_output_path names output)
      × A
unfolding files_of
untaken names earlier output runs h later = (
  untaken-IsFree names earlier output (ground (arith, h)),
  untaken-IsFree names earlier (last_frame_path names output) (ground (arith, h)),
  untaken-IsFree names earlier (raw_last_frame_path names output) (ground (arith, h)),
  untaken-IsFree names earlier (corrected_output_path names output) (ground (arith, h)),
  untaken-IsFree names earlier (raw_output_path names output) (ground (arith, h)),
  untaken-IsFree names earlier (uncorrected_output_path names output) (ground (arith, h)),
  later,
)

add_path-path_of :
    (o : Option String) (xs earlier : List String)
    → add_path o (xs ++ earlier) ≡ (path_of o ++ xs) ++ earlier
add_path-path_of none xs earlier = refl
add_path-path_of (some p) xs earlier = refl

path_of-nil : (o : Option String) → path_of o ++ [] ≡ path_of o
path_of-nil none = refl
path_of-nil (some p) = refl

reserves-run_files :
    (run : PlannedRun) (earlier : List String) → reserves run earlier ≡ run_files run ++ earlier
unfolding reserves
reserves-run_files run earlier =
    let raw = run.raw_last_frame in
    let last = run.last_frame in
    let end = path_of run.corrected_output in
    ap (λ x. run.output ∷ add_path last (add_path raw x))
      (add_path-path_of run.corrected_output [] earlier
        ∙ ap (λ x. x ++ earlier) (path_of-nil run.corrected_output))
    ∙ ap (λ x. run.output ∷ add_path last x) (add_path-path_of raw end earlier)
    ∙ ap (λ x. run.output ∷ x) (add_path-path_of last (path_of raw ++ end) earlier)

module _ (names : Names) (draws : Draws) (adapters : Adapters) (job : PlannedJob) (seed : ℕ) where
  plan_run_free :
      (number : ℕ) (pair : PromptPair) (input : Option String) (reserved : List String) (k : ℕ)
      (run : PlannedRun) (k' : ℕ)
      → plan_run names draws adapters job number pair input seed reserved k ≡ some (run, k')
      → any (taken names reserved) (files_of names run.output) ≡ false
  unfolding plan_run next_output_path planned
  plan_run_free number pair input reserved k run k' h =
      elim (Option-cases (
        next_output_path names draws job.output_directory job.name (job.extension_of number)
          reserved k)) [
            | inl e ↦ absurd (ground (arith, e, h))
            | inr ((path, j), e) ↦
                let free =
                  try_names-free max_attempts names draws job.output_directory job.name
                    (job.extension_of number) reserved k path j e in
                let same : run.output ≡ path = ground (arith, e, h) in rw same free
          ]

  plan_runs-Unused :
      (number : ℕ) (current : Option String) (reserved : List String) (k : ℕ)
      (schedule : List PromptPair) (runs : List PlannedRun)
      → plan_runs names draws adapters job seed number current reserved k schedule ≡ some runs
      → Unused names reserved runs × (length runs ≡ length schedule)
  unfolding plan_runs
  plan_runs-Unused number current reserved k [] [] h = (tt, refl)
  plan_runs-Unused number current reserved k [] (run ∷ runs) h = absurd (cc h)
  plan_runs-Unused number current reserved k (pair ∷ rest) runs h =
      let input =
        if job.needs_visual number || not (is_some job.effective) then current else none in
      elim (Option-cases (plan_run names draws adapters job number pair input seed reserved k)) [
        | inl e ↦ absurd (ground (arith, e, h))
        | inr ((run, k'), e) ↦
            let later =
              plan_runs names draws adapters job seed (suc number)
                (some (or_else run.last_frame run.output)) (reserves run reserved) k' rest in
            elim (Option-cases later) [
              | inl e' ↦ absurd (ground (arith, e, e', h))
              | inr (others, e') ↦
                  let ih =
                    plan_runs-Unused (suc number) (some (or_else run.last_frame run.output))
                      (reserves run reserved) k' rest others e' in
                  let same : run ∷ others ≡ runs = ground (arith, e, e', h) in
                  subst (λ all. Unused names reserved all × (length all ≡ suc (length rest))) same
                    (
                      untaken names reserved run.output others
                          (plan_run_free number pair input reserved k run k' e)
                          (subst (λ x. Unused names x others) (reserves-run_files run reserved)
                            ih.0),
                      ap suc ih.1,
                    )
            ]
      ]

-- A preview plans a run for each of the schedule's pairs, and each run's output, with each of the five
-- files named from it, is neither on the disk nor among the files planned for the runs before it.
pub preview-Unused :
    (names : Names) (draws : Draws) (adapters : Adapters) (job : PlannedJob)
    (placeholder : Option ℕ) (drawn : ℕ) (p : JobPreview)
    → preview names draws adapters job placeholder drawn ≡ ok (some p)
    → Unused names [] p.runs × (length p.runs ≡ length job.schedule)
unfolding preview
preview-Unused names draws adapters job placeholder drawn p h =
    let s = (seed job placeholder drawn).0 in
    elim (Result-cases (check_tools adapters job 1)) [
      | inr (e, refused) ↦ absurd (ground (arith, refused, h))
      | inl (done, passed) ↦
          elim (Option-cases
            (plan_runs names draws adapters job s 1 (first_input job) [] 0 job.schedule)) [
              | inl e ↦ absurd (ground (arith, passed, e, h))
              | inr (runs, e) ↦
                  let same : runs ≡ p.runs = ground (arith, passed, e, h) in
                  subst (λ all. Unused names [] all × (length all ≡ length job.schedule)) same
                    (plan_runs-Unused names draws adapters job s 1 (first_input job) [] 0
                      job.schedule runs e)
            ]
    ]
