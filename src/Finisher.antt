-- ===== src/Finisher.antt =====
-- jobs/run_finisher.py, `RunFinisher`: the finishing of a run whose child succeeded. The media tools are
-- third-party programs and parameters: what each answers, and for the corrector the files that it
-- leaves. A stage of the timer changes nothing here. Files are the paths that exist; the record's file
-- names stand as whole paths.
pub mod Handoff
mod Examples
use draw_things_control.Prelude.{
  ℕ, String, Bool, true, false, not, ◌&&◌, ◌||◌, Option, none, some, List, [], ◌∷◌, ◌++◌, str_eq,
  is_some, is_none, any, opt_str_eq, if◌then◌else◌,
}
use draw_things_control.ExitCodes.{exit_code_for_signal}
use draw_things_control.Queue.Status.{RunStatus}
use draw_things_control.Resume.Walk.{Attempt, gave, threw}

-- What a correction answers.
pub record CorrectionResult : Type 0 where
  pub succeeded : Bool
  pub drift : Option String
  pub checks : List String

-- The checks of the checker, by their texts; none where there is no checker.
pub record Checks : Type 0 where
  pub written : Bool
  pub output : String
  pub last_frame : String
  pub color_drift : String

-- The actual width and height of an output, and its count of frames.
abbrev pub OutputInfo : Type 0
OutputInfo = ℕ × ℕ × ℕ

pub record Media : Type 0 where
  pub video_tagger : Option (Attempt String (Unit {0}))
  pub checker : Option Checks
  pub corrector : Option (List String → CorrectionResult × List String)
  pub extract : String → Attempt String (Unit {0})
  pub renames : Bool
  pub output_measurer : Option (Attempt String OutputInfo)

-- The planned run, as far as the finishing reads it: `corrects` is the color part's, and
-- `video` the job's.
pub record PlannedRun : Type 0 where
  pub video : Bool
  pub input : Option String
  pub last_frame : Option String
  pub raw_last_frame : Option String
  pub corrected_output : Option String
  pub corrects : Bool

pub record State : Type 0 where
  pub files : List String
  pub reported : List String
  pub tagged : Bool
  pub record_last_frame : Option String
  pub record_corrected : Option String
  pub output : Option OutputInfo

-- `self._report` is given: a check is reported.
abbrev reported : Bool → String → State → State
reported reports check s = if reports then record s { reported = s.reported ++ check ∷ [] } else s

abbrev report_all : Bool → List String → State → State
report_all reports [] s = s
report_all reports (check ∷ checks) s = report_all reports checks (reported reports check s)

-- The checker that this run has: only a video's, and only if checks are reported.
abbrev checker_of : Media → PlannedRun → Bool → Option Checks
checker_of media run reports = if run.video && reports then media.checker else none

-- `_tag_video`: a video that cannot be tagged is kept as it is.
abbrev pub tag_video : Option (Attempt String (Unit {0})) → State → State
tag_video none s = s
tag_video (some (gave _)) s = record s { tagged = true }
tag_video (some (threw _)) s = s

unfoldable pub tag_step : Media → PlannedRun → State → State
tag_step media run s = if run.video then tag_video media.video_tagger s else s

unfoldable pub output_step : Bool → Option Checks → State → State
output_step reports none s = s
output_step reports (some c) s = if c.written then reported reports c.output s else s

-- What a correcting run needs: its three paths and its corrector; else it does not correct.
pub record Correcting : Type 0 where
  pub raw : String
  pub copy : String
  pub correct : List String → CorrectionResult × List String

unfoldable pub correcting_parts :
    Option (List String → CorrectionResult × List String)
    → Option String
    → Option String
    → Option String
    → Option Correcting
correcting_parts (some correct) (some raw) (some copy) (some input) =
    some (record { raw = raw; copy = copy; correct = correct })
correcting_parts _ _ _ _ = none

unfoldable pub correcting : Media → PlannedRun → Option Correcting
correcting media run =
    if run.corrects
    then correcting_parts media.corrector run.raw_last_frame run.corrected_output run.input
    else none

unfoldable pub without : String → List String → List String
without p [] = []
without p (q ∷ files) = let rest = without p files in if str_eq q p then rest else q ∷ rest

-- `_correct`: none where the uncorrected frame could not be moved to the handoff's place.
unfoldable pub correct : Media → Correcting → String → State → Option CorrectionResult × State
unfolding without
correct media c handoff s =
    let (result, files) = c.correct s.files in
    if result.succeeded
    then (some result, record s { files = files; record_corrected = some c.copy })
    else if media.renames
    then (some result, record s { files = handoff ∷ without c.raw files })
    else (none, record s { files = files })

abbrev last_frame_step : Bool → Option Checks → State → State
last_frame_step reports none s = s
last_frame_step reports (some c) s = reported reports c.last_frame s

-- The drift that the correction measured, or else the checker's.
abbrev drift_step : Bool → Option Checks → Option CorrectionResult → State → State
drift_step reports checks none s = elim checks [
  | none ↦ s
  | some c ↦ reported reports c.color_drift s
]
drift_step reports checks (some result) s = elim result.drift [
  | some drift ↦ reported reports drift s
  | none ↦ elim checks [ none ↦ s | some c ↦ reported reports c.color_drift s ]
]

abbrev checks_step : Bool → Option CorrectionResult → State → State
checks_step reports none s = s
checks_step reports (some result) s = report_all reports result.checks s

-- The frame is in its place: it is recorded, checked, and its drift measured.
unfoldable pub handed_off :
    Media → PlannedRun → Bool → String → Option CorrectionResult → State → State
handed_off media run reports handoff result s =
    let checks = checker_of media run reports in
    let s1 = record s { record_last_frame = some handoff } in
    checks_step reports result
      (drift_step reports checks result (last_frame_step reports checks s1))

-- `_measure`: a file that cannot be measured leaves the record as it is.
abbrev measure : Option (Attempt String OutputInfo) → State → State
measure none s = s
measure (some (gave info)) s = record s { output = some info }
measure (some (threw _)) s = s

-- After the extraction of a run that corrects. With no result the run fails, unless the extracted frame
-- is the handoff itself.
unfoldable pub after_correction :
    Media
    → PlannedRun
    → Bool
    → String
    → Correcting
    → Option CorrectionResult × State
    → Option (RunStatus × ℕ) × State
after_correction media run reports handoff c (none, s) =
    if not (str_eq c.raw handoff)
    then (some (RunStatus.failed, 1), s)
    else (none, measure media.output_measurer (handed_off media run reports handoff none s))
after_correction media run reports handoff c (some result, s) =
    (none, measure media.output_measurer (handed_off media run reports handoff (some result) s))

-- The frame that is extracted.
abbrev extracted : Option Correcting → String → String
extracted none handoff = handoff
extracted (some c) handoff = c.raw

unfoldable pub after_extraction :
    Media → PlannedRun → Bool → String → Option Correcting → State → Option (RunStatus × ℕ) × State
unfolding after_correction
after_extraction media run reports handoff none s =
    (none, measure media.output_measurer (handed_off media run reports handoff none s))
after_extraction media run reports handoff (some c) s =
    after_correction media run reports handoff c (correct media c handoff s)

-- A frame that could not be extracted: the run was interrupted if a stop was asked for meanwhile.
abbrev extraction_failed : Option ℕ → RunStatus × ℕ
extraction_failed none = (RunStatus.failed, 1)
extraction_failed (some g) = (RunStatus.interrupted, exit_code_for_signal g)

unfoldable pub finish_frame :
    Media → PlannedRun → Bool → Option ℕ → Option String → State → Option (RunStatus × ℕ) × State
unfolding after_extraction
finish_frame media run reports stop none s = (none, measure media.output_measurer s)
finish_frame media run reports stop (some handoff) s =
    let c = correcting media run in
    elim (media.extract (extracted c handoff)) [
      | threw e ↦ (some (extraction_failed stop), s)
      | gave _ ↦
          after_extraction media run reports handoff c
            (record s { files = extracted c handoff ∷ s.files })
    ]

-- `finish`: none when the run succeeded, else its status and exit code. `stop` is what `stop_requested`
-- answers after a failed extraction.
unfoldable pub finish :
    Media → PlannedRun → Bool → Option ℕ → State → Option (RunStatus × ℕ) × State
unfolding finish_frame tag_step output_step
finish media run reports stop s =
    finish_frame media run reports stop run.last_frame
      (output_step reports (checker_of media run reports) (tag_step media run s))
