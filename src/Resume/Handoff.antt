-- ===== src/Resume/Handoff.antt =====
-- services/queue_resume.py, `_check_resume_input`: whether a saved frame can be the input of the next
-- run. Of the parsed job (jobs/definition.py) it reads the fields below; an image is opened by a
-- third-party library, and what it answers is a parameter.
use draw_things_control.Prelude.{
  ℕ, zero, suc, ◌-◌, String, Bool, true, false, ◌≡◌, not, refl, inl, inr, Option-cases, arith, ◌&&◌,
  Option, none, some, List, [], ◌∷◌, ltb, leb, ◌==◌, str_eq, length, if◌then◌else◌,
}
use draw_things_control.Errors.{Result, ok, err, invalid_state, internal_error, raise, concat, ◌>>◌}
use draw_things_control.Ids.{number_text}
use draw_things_control.Resume.Walk.{Attempt, gave, threw, Attempt-cases}

-- `H3JobData`: its settings' size, and the pipeline of each run.
pub record H3JobData : Type 0 where
  pub width : ℕ
  pub height : ℕ
  pub pipelines : List String

-- `backend_data`: None, an H3 plan, or another backend's value.
pub data BackendData : Type 0 where
  no_data : BackendData
  h3_data : H3JobData → BackendData
  other_data : BackendData

pub record EffectiveRun : Type 0 where
  pub backend : String
  pub settings_profile : String
  pub requires_visual_input : Bool
  pub timeout_seconds : Option ℕ
  pub backend_data : BackendData

pub record JobDefinition : Type 0 where
  pub run_count : ℕ
  pub backend : String
  pub mode : String
  pub run_timeout_seconds : Option ℕ
  pub backend_data : BackendData
  pub target_size : Option (ℕ × ℕ)
  pub effective_runs : List EffectiveRun

-- `is_file`, `read_image_info` (the size, or the error's text) and `decode_image`.
pub record Images : Type 0 where
  pub is_file : String → Bool
  pub read_size : String → Attempt String (ℕ × ℕ)
  pub decode : String → Attempt String (Unit {0})

abbrev pub h3_backend : String
h3_backend = "h3"

abbrev pub item {ℓ} : {A : Type ℓ} → ℕ → List A → Option A
item n [] = none
item zero (x ∷ xs) = some x
item (suc n) (x ∷ xs) = item n xs

unfoldable pub effective_run : JobDefinition → ℕ → Option EffectiveRun
effective_run job number =
    if leb 1 number && leb number (length job.effective_runs)
    then item (number - 1) job.effective_runs
    else none

abbrev refused : List String → Result (Unit {0})
refused parts = raise invalid_state (concat parts)

abbrev size_text : ℕ × ℕ → String
size_text (w, h) = concat (number_text w ∷ "x" ∷ number_text h ∷ [])

-- What the run needs of the file: nothing, that it is there, or an image of a size.
pub data Need : Type 0 where
  nothing_needed : Need
  file_needed : Need
  image_needed : ℕ × ℕ → Need

-- The previous run hands its frame over as it is only to a run of the same H3 profile.
abbrev same_h3 : Option EffectiveRun → EffectiveRun → Bool
same_h3 none run = false
same_h3 (some previous) run =
    str_eq previous.backend run.backend
    && (str_eq previous.settings_profile run.settings_profile && str_eq run.backend h3_backend)

need_of_plan : BackendData → Result Need
need_of_plan (h3_data plan) = ok (image_needed (plan.width, plan.height))
need_of_plan _ = raise invalid_state "H3 resume has no validated run plan"

-- Of a version-2 job, after the file was found.
need_of_run : JobDefinition → ℕ → EffectiveRun → Result Need
unfolding need_of_plan
need_of_run job run effective =
    if not (same_h3 (effective_run job (run - 1)) effective)
    then ok file_needed
    else need_of_plan effective.backend_data

-- `job.backend_data.runs[run - 1].pipeline`; an index out of range is an IndexError.
need_of_pipeline : H3JobData → Option String → Result Need
need_of_pipeline plan none = raise internal_error "tuple index out of range"
need_of_pipeline plan (some pipeline) =
    if str_eq pipeline "r2av"
    then ok nothing_needed
    else ok (image_needed (plan.width, plan.height))

need_of_data : JobDefinition → ℕ → BackendData → Result Need
unfolding need_of_pipeline
need_of_data job run (h3_data plan) = need_of_pipeline plan (item (run - 1) plan.pipelines)
need_of_data job run _ = raise invalid_state "H3 resume has no validated run plan"

abbrev has_data : BackendData → Bool
has_data no_data = false
has_data _ = true

-- Of a job without effective runs.
need_of_job : JobDefinition → ℕ → Result Need
unfolding need_of_data
need_of_job job run =
    if not (str_eq job.backend h3_backend)
    then ok file_needed
    else if str_eq job.mode "h3av" && has_data job.backend_data
    then need_of_data job run job.backend_data
    else elim job.target_size [
      | none ↦ raise invalid_state "H3 resume has no input-normalization plan"
      | some size ↦ ok (image_needed size)
    ]

-- The check of the image, and the refusal that its `except` makes.
not_valid : String → String → Result (Unit {0})
not_valid handoff reason =
    refused ("H3 saved handoff " ∷ handoff ∷ " is not a valid next input: " ∷ reason ∷ [])

same_size : ℕ × ℕ → ℕ × ℕ → Bool
same_size (w, h) (w', h') = (w == w') && (h == h')

check_decoded : Images → String → Bool → Result (Unit {0})
unfolding not_valid
check_decoded images handoff decode =
    if decode
    then elim (images.decode handoff) [ gave _ ↦ ok tt | threw e ↦ not_valid handoff e ]
    else ok tt

check_image : Images → String → ℕ × ℕ → Bool → Result (Unit {0})
unfolding not_valid check_decoded same_size
check_image images handoff expected decode =
    if not (images.is_file handoff)
    then not_valid handoff "file is missing"
    else elim (images.read_size handoff) [
      | threw e ↦ not_valid handoff e
      | gave size ↦
          if not (same_size size expected)
          then not_valid handoff (
              concat ("has dimensions " ∷ size_text size ∷ ", expected " ∷ size_text expected ∷ []))
          else check_decoded images handoff decode
    ]

check_file : Images → String → Result (Unit {0})
check_file images handoff =
    if not (images.is_file handoff)
    then refused ("saved handoff is gone: " ∷ handoff ∷ [])
    else ok tt

check_need : Images → String → Bool → Need → Result (Unit {0})
unfolding check_file check_image
check_need images handoff decode nothing_needed = ok tt
check_need images handoff decode file_needed = check_file images handoff
check_need images handoff decode (image_needed expected) =
    check_image images handoff expected decode

check_needed : Images → String → Bool → Result Need → Result (Unit {0})
unfolding check_need
check_needed images handoff decode (err e) = err e
check_needed images handoff decode (ok need) = check_need images handoff decode need

check_effective : Images → JobDefinition → String → ℕ → Bool → EffectiveRun → Result (Unit {0})
unfolding check_file need_of_run check_needed
check_effective images job handoff run decode effective =
    if not effective.requires_visual_input then ok tt else do
      check_file images handoff
      check_needed images handoff decode (need_of_run job run effective)

unfoldable pub check_resume_input : Images → JobDefinition → String → ℕ → Bool → Result (Unit {0})
unfolding check_effective check_needed need_of_job
check_resume_input images job handoff run decode =
    if ltb job.run_count run
    then refused (
        "the chain's next run is "
        ∷ number_text run
        ∷ ", but the job has "
        ∷ number_text job.run_count
        ∷ " runs"
        ∷ [])
    else elim (effective_run job run) [
      | some effective ↦ check_effective images job handoff run decode effective
      | none ↦ check_needed images handoff decode (need_of_job job run)
    ]

-- The header check is part of the full check: what passes when the pixels are decoded passes when they
-- are not.
check_image-decode :
    (images : Images) (handoff : String) (expected : ℕ × ℕ)
    → check_image images handoff expected true ≡ ok tt
    → check_image images handoff expected false ≡ ok tt
unfolding check_image
check_image-decode images handoff expected h = ground arith

check_needed-decode :
    (images : Images) (handoff : String) (need : Result Need)
    → check_needed images handoff true need ≡ ok tt
    → check_needed images handoff false need ≡ ok tt
unfolding check_needed
check_needed-decode images handoff (err e) h = cc
check_needed-decode images handoff (ok nothing_needed) h = refl
check_needed-decode images handoff (ok file_needed) h = h
check_needed-decode images handoff (ok (image_needed expected)) h =
    check_image-decode images handoff expected h

check_effective-decode :
    (images : Images) (job : JobDefinition) (handoff : String) (run : ℕ) (e : EffectiveRun)
    → check_effective images job handoff run true e ≡ ok tt
    → check_effective images job handoff run false e ≡ ok tt
unfolding check_effective
check_effective-decode images job handoff run e h =
    ground (arith, check_needed-decode images handoff (need_of_run job run e))

pub check_resume_input-decode :
    (images : Images) (job : JobDefinition) (handoff : String) (run : ℕ)
    → check_resume_input images job handoff run true ≡ ok tt
    → check_resume_input images job handoff run false ≡ ok tt
unfolding check_resume_input
check_resume_input-decode images job handoff run h = elim (Option-cases (effective_run job run)) [
  | inl e ↦ ground (arith, e, check_needed-decode images handoff (need_of_job job run))
  | inr (x, e) ↦ ground (arith, e, check_effective-decode images job handoff run x)
]

-- Where every image with a readable header decodes, the two checks are the same.
module _ (images : Images)
    (decodes : (file : String) (size : ℕ × ℕ)
      → images.read_size file ≡ gave size
      → images.decode file ≡ gave tt) where
  check_image-same :
      (handoff : String) (expected : ℕ × ℕ)
      → check_image images handoff expected true ≡ check_image images handoff expected false
  unfolding check_image
  check_image-same handoff expected = elim (Attempt-cases (images.read_size handoff)) [
    | inl (size, read) ↦ ground (arith, read, decodes handoff size read)
    | inr (e, failed) ↦ ground (arith, failed)
  ]

  check_needed-same :
      (handoff : String) (need : Result Need)
      → check_needed images handoff true need ≡ check_needed images handoff false need
  unfolding check_needed
  check_needed-same handoff (err e) = refl
  check_needed-same handoff (ok nothing_needed) = refl
  check_needed-same handoff (ok file_needed) = refl
  check_needed-same handoff (ok (image_needed expected)) = check_image-same handoff expected

  check_effective-same :
      (job : JobDefinition) (handoff : String) (run : ℕ) (e : EffectiveRun)
      → check_effective images job handoff run true e
        ≡ check_effective images job handoff run false e
  unfolding check_effective
  check_effective-same job handoff run e =
      ground (arith, check_needed-same handoff (need_of_run job run e))

  pub check_resume_input-same :
      (job : JobDefinition) (handoff : String) (run : ℕ)
      → check_resume_input images job handoff run true
        ≡ check_resume_input images job handoff run false
  unfolding check_resume_input
  check_resume_input-same job handoff run = elim (Option-cases (effective_run job run)) [
    | inl e ↦ ground (arith, e, check_needed-same handoff (need_of_job job run))
    | inr (x, e) ↦ ground (arith, e, check_effective-same job handoff run x)
  ]
