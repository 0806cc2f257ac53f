-- ===== src/Planning/Examples.antt =====
-- Tests of the planning of a job of two runs.
use draw_things_control.Prelude.{
  false, true, ◌≡◌, refl, Option, none, some, [], ◌∷◌, length, map, leb, if◌then◌else◌,
}
use draw_things_control.Errors.{Result, ok}
use draw_things_control.Ids.{number_text}
use draw_things_control.PromptPairs.{PromptPair}
use draw_things_control.Planning.OutputNaming.{
  Names, Draws, next_output_path, try_names, taken, files_of, candidate, output_name,
  last_frame_path, raw_last_frame_path, corrected_output_path, raw_output_path,
  uncorrected_output_path,
}
use draw_things_control.Planning.{
  Adapters, PlannedJob, JobPreview, preview, plan_runs, plan_run, planned, reserves, check_tools,
  check_each, seed, no_paths,
}
use draw_things_control.Planning.Unused.{Unused, preview-Unused}

abbrev names : Names
names = record {
  stem = λ s. s;
  suffix = λ s. ".mov";
  with_name = λ path name. name;
  join = λ directory name. name;
  exists = λ s. false;
}

-- The second draw gives the first name again.
abbrev draws : Draws
draws k = if leb k 1 then ("now", 1) else ("now", k)

abbrev adapters : Adapters
adapters = record {
  output_paths =
      λ backend number output. record no_paths { handoff = some (last_frame_path names output) };
  arguments = λ backend number pair input output s n. output ∷ [];
  redact = λ backend command. command;
  check_tools = λ backend number. ok tt;
}

abbrev pair : PromptPair
pair = record { name = "a"; positive = "a cat"; negative = none; runs = []; default = true }

abbrev job : PlannedJob
job = record {
  name = "cat";
  output_directory = "out";
  schedule = pair ∷ pair ∷ [];
  effective = none;
  backend = "draw-things";
  needs_visual = λ n. true;
  extension_of = λ n. "mov";
  input = some "in.png";
  copy_text = none;
  requested_seed = some 7;
  requested_seed_source = "job";
}

abbrev no_preview : JobPreview
no_preview = record { seed = 0; seed_source = ""; runs = []; commands = [] }

abbrev preview_of : Result (Option JobPreview) → JobPreview
preview_of (ok (some p)) = p
preview_of _ = no_preview

abbrev previewed : JobPreview
previewed = preview_of (preview names draws adapters job none 3)

two_runs :
    (preview names draws adapters job none 3 ≡ ok (some previewed))
    × (map (λ r. r.output) previewed.runs ≡ "cat-now-1.mov" ∷ "cat-now-2.mov" ∷ [])
unfolding preview plan_runs plan_run planned reserves check_tools check_each seed next_output_path
    try_names taken files_of candidate output_name last_frame_path raw_last_frame_path
    corrected_output_path raw_output_path uncorrected_output_path number_text
two_runs = (refl, refl)

preview-Unused_example :
    Unused names [] previewed.runs × (length previewed.runs ≡ length job.schedule)
preview-Unused_example = preview-Unused names draws adapters job none 3 previewed two_runs.0
