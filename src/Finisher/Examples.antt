-- ===== src/Finisher/Examples.antt =====
-- Tests of the finishing of a run whose correction fails.
use draw_things_control.Prelude.{String, Bool, true, false, ◌≡◌, refl, Option, none, some, List, []}
use mathlib.Core.Path.{subst}
use draw_things_control.Resume.Walk.{gave}
use draw_things_control.Finisher.{Media, PlannedRun, State, CorrectionResult, finish}
use draw_things_control.Finisher.Handoff.{FinishedSo, finish_outcome}

abbrev failed_correction : List String → CorrectionResult × List String
failed_correction files = (record { succeeded = false; drift = none; checks = [] }, files)

abbrev media : Media
media = record {
  video_tagger = some (gave tt);
  checker = none;
  corrector = some failed_correction;
  extract = λ path. gave tt;
  renames = true;
  output_measurer = some (gave (1280, 720, 121));
}

abbrev run : PlannedRun
run = record {
  video = true;
  input = some "in.png";
  last_frame = some "last.png";
  raw_last_frame = some "raw.png";
  corrected_output = some "cc.mov";
  corrects = true;
}

abbrev fresh : State
fresh = record {
  files = [];
  reported = [];
  tagged = false;
  record_last_frame = none;
  record_corrected = none;
  output = none;
}

abbrev applied : Option (List String → CorrectionResult × List String) → List String → Bool
applied none files = false
applied (some g) files = (g files).0.succeeded

never_succeeds :
    (f : List String → CorrectionResult × List String) (files : List String)
    → some failed_correction ≡ some f
    → (f files).0.succeeded ≡ false
never_succeeds f files e =
    subst (λ (g : Option (List String → CorrectionResult × List String)). (applied g files) ≡ false)
      e refl

finish_outcome_example :
    FinishedSo media "last.png" none fresh
      (finish media run true none fresh).0
      (finish media run true none fresh).1
finish_outcome_example =
    finish_outcome media run true none "last.png" fresh refl
      (λ f files e good. cc (never_succeeds f files e)) refl
