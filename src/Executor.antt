-- ===== src/Executor.antt =====
-- jobs/executor.py, `JobExecutor`: the loop over a job's runs, with its boundaries, where a stop or a park
-- takes effect, and the cooldown between runs. What a run's child does, what other threads do to the
-- token and how long a wait lasts are parameters.
--
-- Between two readings of the token by this thread other threads may do anything to it: `observe` is
-- the point where they did, and the ticks number those points. The two readings of `requested` in one
-- statement are one. Times are in a unit of the clock.
mod Examples
pub mod Ends
pub mod Kept
pub mod Order
use draw_things_control.Prelude.{
  ℕ, zero, suc, ◌+◌, ◌-◌, ◌<◌, String, Bool, true, false, not, ◌&&◌, ◌||◌, Option, none, some, List,
  [], ◌∷◌, ◌++◌, ltb, leb, ◌==◌, str_eq, is_some, is_none, or_else, length, if◌then◌else◌,
}
use draw_things_control.ExitCodes.{exit_code_for_signal, signal_for_exit_code, exit_parked}
use draw_things_control.Queue.Status.{RunStatus}
use draw_things_control.Queue.Worker.Thread.{JobStatus}
use draw_things_control.Resume.Walk.{Attempt, gave, threw}
use draw_things_control.Resume.Handoff.{EffectiveRun, h3_backend}
use draw_things_control.Token
use draw_things_control.Token.{Token}

-- How a run ended: its status and exit code, the verified last frame of its record, the planned last
-- frame and output, and the seconds it took.
pub record Finished : Type 0 where
  pub status : RunStatus
  pub exit_code : ℕ
  pub record_last_frame : Option String
  pub last_frame : Option String
  pub output : String
  pub seconds : ℕ

-- A call of `_run_step` raises before the run is announced (its planning and the save of its record
-- included), raises while it runs, raises once its record has its status, before or after RunFinished, or
-- ends.
pub data Tried : Type 0 where
  not_announced : Tried
  raised_in_run : Tried
  raised_after : Bool → Finished → Tried
  run_ended : Finished → Tried

-- The places where the records are saved, which may raise.
pub data SavePoint : Type 0 where
  at_start after_run at_cooldown after_cooldown at_end : SavePoint

-- `saves` says whether the save at a place, for a run, succeeds.
-- `effective` has the runs of a version-2 job, one for each number. `copy` makes a boundary's copy.
pub record Env : Type 0 where
  pub total : ℕ
  pub start : ℕ
  pub effective : Option (ℕ → EffectiveRun)
  pub legacy_needs : ℕ → Bool
  pub backend : String
  pub first_input : Option String
  pub input_passes : Bool
  pub plans_input : String → Bool
  pub copy : ℕ → String → Attempt String String
  pub try_run : ℕ → Option String → Tried
  pub wait_after : ℕ → ℕ
  pub wait : ℕ → ℕ → ℕ
  pub others : ℕ → Token → Token
  pub is_signal : ℕ → Bool
  pub saves : SavePoint → ℕ → Bool

pub data JobEvent : Type 0 where
  job_started : ℕ → JobEvent
  run_started : ℕ → Option String → JobEvent
  run_finished : ℕ → RunStatus → Option ℕ → JobEvent
  cooldown_started : ℕ → ℕ → JobEvent
  cooldown_ended : ℕ → Bool → JobEvent
  job_finished : JobStatus → Option ℕ → ℕ → ℕ → Option ℕ → JobEvent

-- `completed` counts the records of runs that succeeded, which an exception's JobFinished reads; wherever
-- the code reads its own count, the two are the same.
pub record State : Type 0 where
  pub token : Token
  pub tick : ℕ
  pub events : List JobEvent
  pub completed : ℕ
  pub exit_code : ℕ

abbrev pub emit : JobEvent → State → State
emit e s = record s { events = s.events ++ e ∷ [] }

-- What other threads did to the token up to its next reading.
unfoldable pub observe : Env → State → State
observe env s = record s { token = env.others s.tick s.token; tick = suc s.tick }

unfoldable pub requested : Env → State → Option ℕ × State
unfolding observe
requested env s = let s' = observe env s in (s'.token.signal, s')

unfoldable pub take_park : Env → State → Bool × State
unfolding observe
take_park env s =
    let s' = observe env s in
    let (taken, t) = Token.take_park s'.token in (taken, record s' { token = t })

-- How a cooldown ended: the time it waited, and whether it was parked.
pub record Cooled : Type 0 where
  pub waited : ℕ
  pub parked : Bool

-- The `while` of `_cool_down`, by the rounds that it may still make.
unfoldable pub cool_loop : ℕ → Env → ℕ → ℕ → ℕ → State → Option (Cooled × State)
unfolding requested take_park observe
cool_loop zero env seconds waited parks s = none
cool_loop (suc rounds) env seconds waited parks s = elim (ltb waited seconds) [
  | false ↦ some (record { waited = waited; parked = false }, s)
  | true ↦
      let (signal, s1) = requested env s in
      elim signal [
        | some g ↦ some (record { waited = waited; parked = false }, s1)
        | none ↦
            let (taken, s2) = take_park env s1 in
            elim taken [
              | true ↦ some (record { waited = waited; parked = true }, s2)
              | false ↦
                  let s3 = observe env s2 in
                  elim (s3.token.park_count == parks) [
                    | true ↦ some (record { waited = waited; parked = false }, s3)
                    | false ↦
                        let s4 = observe env s3 in
                        cool_loop rounds env seconds (waited + env.wait s4.tick (seconds - waited))
                          s4.token.park_count s4
                  ]
            ]
      ]
]

-- Why a wait between runs ends the job: a signal that cut it short, a park, or a save that raised.
pub data Cut : Type 0 where
  not_cut : Cut
  cut_by : ℕ → Cut
  cut_parked : Cut
  cut_raised : Cut

unfoldable pub cut_of : Option ℕ → Cut
cut_of none = not_cut
cut_of (some g) = cut_by g

unfoldable pub ends_cut : Cut → Bool
ends_cut not_cut = false
ends_cut _ = true

-- The end of `_cool_down`: `stopped`, the event, and the answer. `requested` is read only if the wait
-- was short and not parked.
unfoldable pub cooled_cut : Env → ℕ → Cooled → State → Cut × State
unfolding cut_of
cooled_cut env seconds c s =
    if c.parked
    then (cut_parked, s)
    else if ltb c.waited seconds
    then (let (signal, s') = requested env s in (cut_of signal, s'))
    else (not_cut, s)

unfoldable pub after_cooling : Env → ℕ → ℕ → Cooled × State → Cut × State
unfolding cooled_cut ends_cut
after_cooling env number seconds (c, s) =
    let (cut, s') = cooled_cut env seconds c s in
    if env.saves after_cooldown number
    then (cut, emit (cooldown_ended c.waited (ends_cut cut)) s')
    else (cut_raised, s')

abbrev pub map_some {ℓ κ} : {A : Type ℓ} {B : Type κ} → (A → B) → Option A → Option B
map_some f none = none
map_some f (some a) = some (f a)

-- `_cool_down` after run `number`.
unfoldable pub cool_down : ℕ → Env → ℕ → ℕ → ℕ → State → Option (Cut × State)
unfolding after_cooling cool_loop observe
cool_down rounds env number seconds parks s =
    let begun = emit (cooldown_started number seconds) s in
    let started = observe env begun in
    if env.saves at_cooldown number
    then map_some (after_cooling env number seconds)
        (cool_loop rounds env seconds (env.wait started.tick seconds) parks started)
    else some (cut_raised, begun)

-- `_wait_between_runs`.
unfoldable pub wait_between_runs : ℕ → Env → ℕ → ℕ → ℕ → State → Option (Cut × State)
unfolding cool_down requested
wait_between_runs rounds env number run_seconds parks s =
    if leb env.total number
    then some (not_cut, s)
    else let (signal, s') = requested env s in
      if is_some signal
      then some (not_cut, s')
      else if ltb 0 (env.wait_after run_seconds)
      then cool_down rounds env number (env.wait_after run_seconds) parks s'
      else some (not_cut, s')

-- `run_needs_visual_input` and `run_backend` of jobs/definition.py.
unfoldable pub run_needs_visual_input : Env → ℕ → Bool
run_needs_visual_input env number =
    if ltb number 1 || ltb env.total number then false else elim env.effective [
      | some run_of ↦ (run_of number).requires_visual_input
      | none ↦ env.legacy_needs number
    ]

unfoldable pub run_backend : Env → ℕ → String
run_backend env number = elim env.effective [
  | some run_of ↦ (run_of number).backend
  | none ↦ env.backend
]

copied : Attempt String String → Attempt String (Option String)
copied (gave file) = gave (some file)
copied (threw e) = threw e

prepare_copy : Env → (ℕ → EffectiveRun) → ℕ → String → Attempt String (Option String)
unfolding copied
prepare_copy env run_of number file =
    let producer = run_of (number - 1) in
    let consumer = run_of number in
    if str_eq producer.backend consumer.backend
      && str_eq producer.settings_profile consumer.settings_profile
    then gave (some file)
    else if not (env.plans_input consumer.backend)
    then gave (some file)
    else copied (env.copy number file)

prepare_file : Env → ℕ → Option String → Option (ℕ → EffectiveRun) → Attempt String (Option String)
unfolding prepare_copy
prepare_file env number none _ = gave none
prepare_file env number (some file) none = gave (some file)
prepare_file env number (some file) (some run_of) = prepare_copy env run_of number file

-- `_prepare_boundary`.
unfoldable pub prepare_boundary : Env → ℕ → Option String → Attempt String (Option String)
unfolding prepare_file
prepare_boundary env number input =
    if ltb number 2 || not (run_needs_visual_input env number)
    then gave input
    else prepare_file env number input env.effective

-- What an iteration comes to: the next one with the input that it hands over, the end of the job with
-- its status and exit code, or an exception.
pub data After : Type 0 where
  next : Option String → After
  over : JobStatus → ℕ → After
  raised : After

-- The input of the run, before a boundary's copy.
abbrev pub input_of_run : Env → ℕ → Option String → Option String
input_of_run env number current =
    if run_needs_visual_input env number || is_none env.effective then current else none

-- Whether the run needs a handoff that is not there.
unfoldable pub lacks_handoff : Env → ℕ → Finished → Bool
lacks_handoff env number f =
    (ltb number env.total && str_eq (run_backend env number) h3_backend)
    && (run_needs_visual_input env (number + 1)
        && (is_none f.record_last_frame && is_some f.last_frame))

abbrev pub handed_over : Finished → Option String
handed_over f = elim f.last_frame [ some frame ↦ some frame | none ↦ some f.output ]

abbrev pub cut_after : Finished → Cut → After
cut_after f not_cut = next (handed_over f)
cut_after f (cut_by g) = over JobStatus.interrupted (exit_code_for_signal g)
cut_after f cut_parked = over JobStatus.parked exit_parked
cut_after f cut_raised = raised

unfoldable pub waited_after : Finished → Cut × State → After × State
waited_after f (cut, s) = (cut_after f cut, s)

-- The park check at the boundary: only before the last run, and if no stop was asked for.
unfoldable pub park_at_boundary : Env → ℕ → State → Bool × State
park_at_boundary env number s =
    if ltb number env.total
    then (let (signal, s') = requested env s in
        if is_some signal then (false, s') else take_park env s')
    else (false, s)

-- After a run that succeeded.
unfoldable pub after_success : ℕ → Env → ℕ → Finished → State → Option (After × State)
unfolding waited_after park_at_boundary observe
after_success rounds env number f s =
    if lacks_handoff env number f
    then some (over JobStatus.failed 1, s)
    else let s1 = observe env s in
      let (taken, s2) = park_at_boundary env number s1 in
      if taken
      then some (over JobStatus.parked exit_parked, s2)
      else map_some (waited_after f)
          (wait_between_runs rounds env number f.seconds s1.token.park_count s2)

abbrev pub succeeded : RunStatus → Bool
succeeded RunStatus.succeeded = true
succeeded _ = false

abbrev pub interrupted : RunStatus → Bool
interrupted RunStatus.interrupted = true
interrupted _ = false

-- `_run_step` and what follows it in the loop.
unfoldable pub ended_run : ℕ → Env → ℕ → Finished → State → Option (After × State)
ended_run rounds env number f s =
    if succeeded f.status
    then (if env.saves after_run number
        then after_success rounds env number f (record s { completed = s.completed + 1 })
        else some (raised, record s { completed = s.completed + 1 }))
    else if env.saves after_run number
    then some (
      over (if interrupted f.status then JobStatus.interrupted else JobStatus.failed) f.exit_code,
      s,
    )
    else some (raised, s)

-- The record has the run's status.
unfoldable pub counted : Finished → State → State
counted f s = if succeeded f.status then record s { completed = s.completed + 1 } else s

unfoldable pub sent_finish : Bool → ℕ → Finished → State → State
sent_finish announced number f s =
    if announced then emit (run_finished number f.status (some f.exit_code)) s else s

unfoldable pub step_run : ℕ → Env → ℕ → Option String → Tried → State → Option (After × State)
unfolding ended_run observe counted sent_finish
step_run rounds env number input not_announced s = some (raised, s)
step_run rounds env number input raised_in_run s =
    some
      (raised, emit (run_finished number RunStatus.failed none) (emit (run_started number input) s))
step_run rounds env number input (raised_after announced f) s =
    some (raised, sent_finish announced number f (counted f (emit (run_started number input) s)))
step_run rounds env number input (run_ended f) s = ended_run rounds env number f (
    emit (run_finished number f.status (some f.exit_code))
      (observe env (record (emit (run_started number input) s) { exit_code = f.exit_code })))

unfoldable pub run_prepared :
    ℕ → Env → ℕ → Attempt String (Option String) → State → Option (After × State)
unfolding step_run
run_prepared rounds env number (threw e) s = some (over JobStatus.failed 1, s)
run_prepared rounds env number (gave input) s =
    step_run rounds env number input (env.try_run number input) s

-- The checks before a run: a stop, and a park that landed after a full cooldown.
unfoldable pub before_run : Env → ℕ → State → Option After × State
before_run env number s =
    let (signal, s1) = requested env s in
    elim signal [
      | some g ↦ (some (over JobStatus.interrupted (exit_code_for_signal g)), s1)
      | none ↦
          if ltb env.start number
          then (let (taken, s2) = take_park env s1 in
              (if taken then some (over JobStatus.parked exit_parked) else none, s2))
          else (none, s1)
    ]

-- The loop's body for run `number`.
unfoldable pub iterate : ℕ → Env → ℕ → Option String → State → Option (After × State)
unfolding run_prepared before_run
iterate rounds env number current s =
    let (stop, s') = before_run env number s in
    elim stop [
      | some after ↦ some (after, s')
      | none ↦
          run_prepared rounds env number
            (prepare_boundary env number (input_of_run env number current)) s'
    ]

-- How the loop ends: with the job's status and exit code, or with an exception.
pub data Ending : Type 0 where
  ended : JobStatus → ℕ → Ending
  raised_out : Ending

-- The `for` over the runs that are left, with its `else`.
unfoldable pub run_loop : ℕ → Env → ℕ → ℕ → Option String → State → Option (Ending × State)
unfolding iterate
run_loop rounds env zero number current s = some (ended JobStatus.succeeded s.exit_code, s)
run_loop rounds env (suc left) number current s = elim (iterate rounds env number current s) [
  | none ↦ none
  | some (raised, s') ↦ some (raised_out, s')
  | some (over status code, s') ↦ some (ended status code, record s' { exit_code = code })
  | some (next input, s') ↦ run_loop rounds env left (suc number) input s'
]

-- `_run_runs`, up to its end.
unfoldable pub run_runs : ℕ → Env → State → Option (Ending × State)
unfolding run_loop
run_runs rounds env s =
    if env.saves at_start 0 && env.input_passes
    then run_loop rounds env (env.total + 1 - env.start) env.start env.first_input s
    else some (raised_out, s)

-- The signal that `JobFinished` names.
unfoldable pub stopped_by : Env → JobStatus → ℕ → Option ℕ
stopped_by env JobStatus.interrupted code = signal_for_exit_code env.is_signal code
stopped_by env _ code = none

-- The last event, also for an exception.
unfoldable pub finish_event : Env → Ending → State → JobEvent
unfolding stopped_by
finish_event env (ended status code) s =
    job_finished status (some code) s.completed env.total (stopped_by env status code)
finish_event env raised_out s = job_finished JobStatus.failed none s.completed env.total none

-- The last save, once the job has its status.
unfoldable pub save_end : Env → Ending × State → Ending × State
save_end env (raised_out, s) = (raised_out, s)
save_end env (ended status code, s) =
    if env.saves at_end 0 then (ended status code, s) else (raised_out, s)

unfoldable pub finish_job : Env → Ending × State → Ending × State
unfolding finish_event
finish_job env (e, s) = (e, emit (finish_event env e s) s)

-- `_run_chain`; none is a cooldown that never ended.
unfoldable pub run_chain : ℕ → Env → State → Option (Ending × State)
unfolding run_runs finish_job save_end
run_chain rounds env s =
    map_some (finish_job env)
      (map_some (save_end env) (run_runs rounds env (emit (job_started env.total) s)))
