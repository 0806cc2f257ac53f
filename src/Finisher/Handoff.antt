-- ===== src/Finisher/Handoff.antt =====
-- jobs/run_finisher.py: a run that is finished leaves the frame that it hands over.
use draw_things_control.Prelude.{
  ℕ, ◌+◌, String, Bool, true, false, ◌≡◌, ◌⊎◌, refl, ap, sym, ◌∙◌, Option, none, some, List, [],
  ◌∷◌, arith, str_eq, any, eq_iff, Option-cases, inl, inr, if_ind, opt_str_eq, if◌then◌else◌,
}
use mathlib.Core.Path.{subst}
use draw_things_control.ExitCodes.{exit_code_for_signal}
use draw_things_control.Queue.Status.{RunStatus}
use draw_things_control.Resume.Walk.{Attempt, gave, threw, Attempt-cases}
use draw_things_control.Finisher.{
  OutputInfo, tag_video, without, correcting_parts, Media, PlannedRun, State, Checks, Correcting,
  CorrectionResult, correct, correcting, handed_off, reported, report_all, finish, finish_frame,
  tag_step, output_step, after_correction, after_extraction, extraction_failed, extracted,
  checker_of, last_frame_step, drift_step, checks_step, measure,
}

abbrev pub exists : String → List String → Bool
exists p files = any (λ q. str_eq q p) files

-- A correction that succeeds wrote the handoff.
abbrev pub WritesHandoff : Media → String → Type 0
WritesHandoff media handoff =
    (run : List String → CorrectionResult × List String) (files : List String)
    → media.corrector ≡ some run
    → (run files).0.succeeded ≡ true
    → exists handoff (run files).1 ≡ true

-- What changes in the reports and in the record's other fields is left open.
abbrev pub SameFiles : State → State → Type 0
SameFiles s s' = (s'.files ≡ s.files) × (s'.record_last_frame ≡ s.record_last_frame)

reported-SameFiles : (b : Bool) (check : String) (s : State) → SameFiles s (reported b check s)
reported-SameFiles true check s = (refl, refl)
reported-SameFiles false check s = (refl, refl)

report_all-SameFiles :
    (b : Bool) (checks : List String) (s : State) → SameFiles s (report_all b checks s)
report_all-SameFiles b [] s = (refl, refl)
report_all-SameFiles b (check ∷ checks) s =
    let h = report_all-SameFiles b checks (reported b check s) in
    let k = reported-SameFiles b check s in (h.0 ∙ k.0, h.1 ∙ k.1)

last_frame_step-SameFiles :
    (b : Bool) (c : Option Checks) (s : State) → SameFiles s (last_frame_step b c s)
last_frame_step-SameFiles b none s = (refl, refl)
last_frame_step-SameFiles b (some c) s = reported-SameFiles b c.last_frame s

drift_step-SameFiles :
    (b : Bool) (c : Option Checks) (r : Option CorrectionResult) (s : State)
    → SameFiles s (drift_step b c r s)
drift_step-SameFiles b none none s = (refl, refl)
drift_step-SameFiles b (some c) none s = reported-SameFiles b c.color_drift s
drift_step-SameFiles b none (some r) s = elim (Option-cases r.drift) [
  | inr (drift, e) ↦ rw (e, drift_step) (reported-SameFiles b drift s)
  | inl e ↦ rw (e, drift_step) (refl, refl)
]
drift_step-SameFiles b (some c) (some r) s = elim (Option-cases r.drift) [
  | inr (drift, e) ↦ rw (e, drift_step) (reported-SameFiles b drift s)
  | inl e ↦ rw (e, drift_step) (reported-SameFiles b c.color_drift s)
]

checks_step-SameFiles :
    (b : Bool) (r : Option CorrectionResult) (s : State) → SameFiles s (checks_step b r s)
checks_step-SameFiles b none s = (refl, refl)
checks_step-SameFiles b (some r) s = report_all-SameFiles b r.checks s

handed_off_lem :
    (media : Media) (run : PlannedRun) (b : Bool) (handoff : String) (r : Option CorrectionResult)
    (s : State)
    → ((handed_off media run b handoff r s).files ≡ s.files)
      × ((handed_off media run b handoff r s).record_last_frame ≡ some handoff)
unfolding handed_off
handed_off_lem media run b handoff r s =
    let c = checker_of media run b in
    let s1 = record s { record_last_frame = some handoff } in
    let h1 = last_frame_step-SameFiles b c s1 in
    let s2 = last_frame_step b c s1 in
    let h2 = drift_step-SameFiles b c r s2 in
    let h3 = checks_step-SameFiles b r (drift_step b c r s2) in
    (h3.0 ∙ h2.0 ∙ h1.0, h3.1 ∙ h2.1 ∙ h1.1)

-- An output that can be measured has its measures recorded.
abbrev pub MeasuredSo : Option (Attempt String OutputInfo) → Option OutputInfo → Type 0
MeasuredSo (some (gave info)) output = output ≡ some info
MeasuredSo _ output = Unit

measure_lem :
    (m : Option (Attempt String OutputInfo)) (s : State)
    → ((measure m s).files ≡ s.files)
      × ((measure m s).record_last_frame ≡ s.record_last_frame)
      × MeasuredSo m (measure m s).output
measure_lem none s = (refl, refl, tt)
measure_lem (some (gave info)) s = (refl, refl, refl)
measure_lem (some (threw e)) s = (refl, refl, tt)

-- A run that did not succeed has failed, or was interrupted by the stop that was asked for; with a stop
-- asked for it has failed only where the uncorrected frame could not be moved to the handoff's place.
abbrev pub EndedSo : Media → Option ℕ → RunStatus × ℕ → Type 0
EndedSo media none answer = answer ≡ (RunStatus.failed, 1)
EndedSo media (some g) answer =
    (answer ≡ (RunStatus.interrupted, 128 + g))
    ⊎ ((answer ≡ (RunStatus.failed, 1)) × (media.renames ≡ false))

extraction_failed-EndedSo :
    (media : Media) (stop : Option ℕ) → EndedSo media stop (extraction_failed stop)
unfolding exit_code_for_signal
extraction_failed-EndedSo media none = refl
extraction_failed-EndedSo media (some g) = inl refl

unmoved-EndedSo :
    (media : Media) (stop : Option ℕ)
    → media.renames ≡ false
    → EndedSo media stop (RunStatus.failed, 1)
unmoved-EndedSo media none e = refl
unmoved-EndedSo media (some g) e = inr (refl, e)

-- The answers of `finish`, for a run whose handoff is planned. `s` is the state before.
abbrev pub FinishedSo : Media → String → Option ℕ → State → Option (RunStatus × ℕ) → State → Type 0
FinishedSo media handoff stop s none s' =
    (s'.record_last_frame ≡ some handoff)
    × (exists handoff s'.files ≡ true)
    × MeasuredSo media.output_measurer s'.output
FinishedSo media handoff stop s (some answer) s' =
    (s'.record_last_frame ≡ s.record_last_frame) × EndedSo media stop answer

FinishedSo-since :
    (media : Media) (handoff : String) (stop : Option ℕ) (s s2 : State)
    (answer : Option (RunStatus × ℕ)) (s' : State)
    → s2.record_last_frame ≡ s.record_last_frame
    → FinishedSo media handoff stop s2 answer s'
    → FinishedSo media handoff stop s answer s'
FinishedSo-since media handoff stop s s2 none s' same h = h
FinishedSo-since media handoff stop s s2 (some answer) s' same h = (h.0 ∙ same, h.1)

module _ (media : Media) (run : PlannedRun) (b : Bool) (stop : Option ℕ) (handoff : String) where
  handed_over_so :
      (s0 : State) (r : Option CorrectionResult) (s : State)
      → exists handoff s.files ≡ true
      → FinishedSo media handoff stop s0 none
          (measure media.output_measurer (handed_off media run b handoff r s))
  handed_over_so s0 r s h =
      let k = handed_off_lem media run b handoff r s in
      let m = measure_lem media.output_measurer (handed_off media run b handoff r s) in
      (m.1 ∙ k.1, ap (λ files. exists handoff files) (m.0 ∙ k.0) ∙ h, m.2)

  abbrev CorrectedSo : State → Option CorrectionResult → State → Type 0
  CorrectedSo s none s' = (s'.record_last_frame ≡ s.record_last_frame) × (media.renames ≡ false)
  CorrectedSo s (some r) s' = exists handoff s'.files ≡ true

  abbrev Writes : Correcting → Type 0
  Writes c =
      (files : List String)
      → (c.correct files).0.succeeded ≡ true
      → exists handoff (c.correct files).1 ≡ true

  correct_so :
      (c : Correcting) (s : State)
      → Writes c
      → CorrectedSo s (correct media c handoff s).0 (correct media c handoff s).1
  unfolding correct
  correct_so c s writes =
      let answer = (c.correct s.files).0 in
      let files = (c.correct s.files).1 in
      let moved : Option CorrectionResult × State =
        (some answer, record s { files = handoff ∷ without c.raw files }) in
      let lost : Option CorrectionResult × State = (none, record s { files = files }) in
      if_ind (λ (p : Option CorrectionResult × State). CorrectedSo s p.0 p.1) answer.succeeded
        (some answer, record s { files = files; record_corrected = some c.copy })
        (if media.renames then moved else lost) (writes s.files)
        (λ _.
          if_ind (λ (p : Option CorrectionResult × State). CorrectedSo s p.0 p.1) media.renames
            moved lost (λ _. ground (arith, (eq_iff handoff handoff).1 refl)) (λ e. (refl, e)))

  after_correction_so :
      (c : Correcting) (s : State) (r : Option CorrectionResult) (s' : State)
      → str_eq c.raw handoff ≡ false
      → CorrectedSo s r s'
      → FinishedSo media handoff stop s
          (after_correction media run b handoff c (r, s')).0
          (after_correction media run b handoff c (r, s')).1
  unfolding after_correction
  after_correction_so c s none s' differ h =
      rw (differ, FinishedSo, after_correction) (h.0, unmoved-EndedSo media stop h.1)
  after_correction_so c s (some r) s' differ h = handed_over_so s (some r) s' h

  abbrev CorrectsSo : Option Correcting → Type 0
  CorrectsSo none = Unit
  CorrectsSo (some c) = Writes c × (str_eq c.raw handoff ≡ false)

  after_extraction_so :
      (c : Option Correcting) (s : State)
      → CorrectsSo c
      → FinishedSo media handoff stop s
          (after_extraction media run b handoff c
            (record s { files = extracted c handoff ∷ s.files })).0
          (after_extraction media run b handoff c
            (record s { files = extracted c handoff ∷ s.files })).1
  unfolding after_extraction
  after_extraction_so none s h =
      handed_over_so s none (record s { files = handoff ∷ s.files })
        (ground (arith, (eq_iff handoff handoff).1 refl))
  after_extraction_so (some c) s h =
      let s1 = record s { files = c.raw ∷ s.files } in
      after_correction_so c s1 (correct media c handoff s1).0 (correct media c handoff s1).1 h.1
        (correct_so c s1 h.0)

  correcting_parts_so :
      (corrector : Option (List String → CorrectionResult × List String))
      (raw copy input : Option String)
      → ((run : List String → CorrectionResult × List String) (files : List String)
          → corrector ≡ some run
          → (run files).0.succeeded ≡ true
          → exists handoff (run files).1 ≡ true)
      → opt_str_eq raw (some handoff) ≡ false
      → CorrectsSo (correcting_parts corrector raw copy input)
  unfolding correcting_parts
  correcting_parts_so none raw copy input writes differ = tt
  correcting_parts_so (some f) none copy input writes differ = tt
  correcting_parts_so (some f) (some raw) none input writes differ = tt
  correcting_parts_so (some f) (some raw) (some copy) none writes differ = tt
  correcting_parts_so (some f) (some raw) (some copy) (some input) writes differ =
      (λ files good. writes f files refl good, differ)

  correcting_so :
      WritesHandoff media handoff
      → opt_str_eq run.raw_last_frame (some handoff) ≡ false
      → CorrectsSo (correcting media run)
  unfolding correcting
  correcting_so writes differ =
      if_ind CorrectsSo run.corrects
        (correcting_parts media.corrector run.raw_last_frame run.corrected_output run.input) none
        (λ _.
          correcting_parts_so media.corrector run.raw_last_frame run.corrected_output run.input
            writes differ)
        (λ _. tt)

  finish_frame_so :
      (s : State)
      → WritesHandoff media handoff
      → opt_str_eq run.raw_last_frame (some handoff) ≡ false
      → FinishedSo media handoff stop s
          (finish_frame media run b stop (some handoff) s).0
          (finish_frame media run b stop (some handoff) s).1
  unfolding finish_frame
  finish_frame_so s writes differ =
      let c = correcting media run in
      elim (Attempt-cases (media.extract (extracted c handoff))) [
        | inr (e, failed) ↦
            rw (failed, FinishedSo, finish_frame) (refl, extraction_failed-EndedSo media stop)
        | inl (done, gives) ↦
            rw (gives, FinishedSo, finish_frame)
              (after_extraction_so c s (correcting_so writes differ))
      ]

tag_video-SameFiles :
    (m : Option (Attempt String (Unit {0}))) (s : State) → SameFiles s (tag_video m s)
tag_video-SameFiles none s = (refl, refl)
tag_video-SameFiles (some (gave _)) s = (refl, refl)
tag_video-SameFiles (some (threw _)) s = (refl, refl)

tag_step-SameFiles :
    (media : Media) (run : PlannedRun) (s : State) → SameFiles s (tag_step media run s)
unfolding tag_step
tag_step-SameFiles media run s =
    if_ind (SameFiles s) run.video (tag_video media.video_tagger s) s
      (λ _. tag_video-SameFiles media.video_tagger s) (λ _. (refl, refl))

output_step-SameFiles : (b : Bool) (c : Option Checks) (s : State) → SameFiles s (output_step b c s)
unfolding output_step
output_step-SameFiles b none s = (refl, refl)
output_step-SameFiles b (some c) s =
    if_ind (SameFiles s) c.written (reported b c.output s) s (λ _. reported-SameFiles b c.output s)
      (λ _. (refl, refl))

-- The finishing of a run whose handoff is planned: if it answers that the run succeeded, then the handoff
-- is recorded, its file is there, and so are the measures of an output that can be measured, whether or not the run corrects and its
-- correction succeeds; else the record names no frame that it did not name before, and the answer is a
-- failure with exit code 1, or, where a stop was asked for, an interruption with 128 and the signal's
-- number; with a stop asked for, a failure only where the uncorrected frame could not be moved. Conditions: a correction that succeeds wrote
-- the handoff, and the uncorrected frame has another name.
pub finish_outcome :
    (media : Media) (run : PlannedRun) (reports : Bool) (stop : Option ℕ) (handoff : String)
    (s : State)
    → run.last_frame ≡ some handoff
    → WritesHandoff media handoff
    → opt_str_eq run.raw_last_frame (some handoff) ≡ false
    → FinishedSo media handoff stop s
        (finish media run reports stop s).0
        (finish media run reports stop s).1
unfolding finish
finish_outcome media run reports stop handoff s planned writes differ =
    let s1 = tag_step media run s in
    let s2 = output_step reports (checker_of media run reports) s1 in
    let h = finish_frame_so media run reports stop handoff s2 writes differ in
    let same : s2.record_last_frame ≡ s.record_last_frame =
      (output_step-SameFiles reports (checker_of media run reports) s1).1
      ∙ (tag_step-SameFiles media run s).1 in
    subst
      (λ o.
        FinishedSo media handoff stop s (finish_frame media run reports stop o s2).0
          (finish_frame media run reports stop o s2).1)
      (sym planned)
      (FinishedSo-since media handoff stop s s2
        (finish_frame media run reports stop (some handoff) s2).0
        (finish_frame media run reports stop (some handoff) s2).1 same h)
