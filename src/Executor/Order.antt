-- ===== src/Executor/Order.antt =====
-- jobs/executor.py: how a job that was started ends: its last event, its status, and the runs it made.
use draw_things_control.Prelude.{
  ℕ, zero, suc, ◌+◌, ◌-◌, ◌≤◌, ◌<◌, true, ◌≡◌, refl, ◌∙◌, Option, none, some, String, List, [], ◌∷◌,
  ◌++◌, arith, ltb, ltb→lt, ◌&&◌, Bool, Bool-cases, Option-cases, inl, inr, if_ind,
}
use mathlib.Core.Path.{subst}
use draw_things_control.ExitCodes.{exit_parked, signal_for_exit_code}
use draw_things_control.Queue.Status.{RunStatus}
use draw_things_control.Queue.Worker.Thread.{JobStatus}
use draw_things_control.Resume.Walk.{Attempt, gave, threw}
use draw_things_control.Executor.{
  interrupted, Env, State, JobEvent, Tried, not_announced, raised_in_run, run_ended, Finished,
  observe, requested, take_park, waited_after, wait_between_runs, after_success, iterate, run_loop,
  run_chain, run_runs, finish_job, ended_run, step_run, run_prepared, prepare_boundary,
  input_of_run, job_started, run_started, run_finished, raised, raised_out, over, next, Cut,
  cut_after, cut_parked, not_cut, cut_by, emit, before_run, park_at_boundary, After, succeeded,
  lacks_handoff, Ending, ended, finish_event, stopped_by, save_end, raised_after, counted,
  sent_finish, cut_raised, after_run, at_start, at_end, job_finished, map_some,
}
use draw_things_control.Executor.Kept.{
  finishes, finishes-append, Kept, Kept-trans, Holds, Holds-weaken, Holds-map_some, WaitSo,
  observe-Kept, requested-Kept, take_park-Kept, park_at_boundary-Kept, wait_between_runs-WaitSo,
}

lacks_handoff-lt :
    (env : Env) (number : ℕ) (f : Finished) → lacks_handoff env number f ≡ true → number < env.total
unfolding lacks_handoff
lacks_handoff-lt env number f h = ground arith

module _ (env : Env) where
  -- What an iteration comes to: the succeeded runs are counted, and a job that ends here has runs left.
  -- A park was taken and ends it after at least one run, with its exit code.
  abbrev Parked : ℕ → State → Type 0
  Parked code s' = (code ≡ exit_parked) × (s'.token.park_taken ≡ true)

  abbrev OverSo : JobStatus → ℕ → State → Type 0
  OverSo JobStatus.parked code s' = Parked code s' × (0 < s'.completed)
  OverSo JobStatus.succeeded code s' = ⊥
  OverSo JobStatus.running code s' = ⊥
  OverSo _ code s' = Unit

  -- `s` is the state before the iteration of run `number`.
  abbrev IterSo : ℕ → State → After → State → Type 0
  IterSo number s (next input) s' =
      (finishes s'.events ≡ finishes s.events) × (s'.completed ≡ s.completed + 1)
  IterSo number s raised s' =
      (finishes s'.events ≡ finishes s.events) × (s'.completed ≤ s.completed + 1)
  IterSo number s (over status code) s' =
      (finishes s'.events ≡ finishes s.events)
      × (s'.completed + number ≤ env.total + s.completed)
      × OverSo status code s'

  cut_after-IterSo :
      (number : ℕ) (s s1 : State) (f : Finished) (cut : Cut) (s' : State)
      → finishes s1.events ≡ finishes s.events
      → s1.completed ≡ s.completed + 1
      → WaitSo env number s1 cut s'
      → IterSo number s (cut_after f cut) s'
  cut_after-IterSo number s s1 f not_cut s' k c w =
      (omega (arith, k, w.0.0.0), omega (arith, c, w.0.0.1))
  cut_after-IterSo number s s1 f (cut_by g) s' k c w =
      (omega (arith, k, w.0.0.0), omega (arith, c, w.0.0.1, w.1 (λ e. cc)), tt)
  cut_after-IterSo number s s1 f cut_raised s' k c w =
      (omega (arith, k, w.0.0.0), omega (arith, c, w.0.0.1))
  cut_after-IterSo number s s1 f cut_parked s' k c w = (
    omega (arith, k, w.0.0.0),
    omega (arith, c, w.0.0.1, w.1 (λ e. cc)),
    ((refl, w.0.1 refl), omega (arith, c, w.0.0.1)),
  )

  -- `s` is the state before the iteration, and `s1` the one after the run that succeeded.
  after_success-IterSo :
      (rounds number : ℕ) (f : Finished) (s s1 : State)
      → finishes s1.events ≡ finishes s.events
      → s1.completed ≡ s.completed + 1
      → Holds (IterSo number s) (after_success rounds env number f s1)
  unfolding after_success
  after_success-IterSo rounds number f s s1 k c =
      let s2 = observe env s1 in
      let r2 = observe-Kept env s1 in
      let s3 = (park_at_boundary env number s2).1 in
      let (r3, parks) = park_at_boundary-Kept env number s2 in
      let so_far = Kept-trans s1 s2 s3 r2 r3 in
      elim (Bool-cases (lacks_handoff env number f)) [
        | inl lacks ↦
            rw (lacks, Holds, after_success)
              (k, omega (arith, c, lacks_handoff-lt env number f lacks), tt)
        | inr has ↦
            rw (has, Holds, after_success)
              (elim (Bool-cases (park_at_boundary env number s2).0) [
                | inl taken ↦ rw taken (
                  omega (arith, k, so_far.0),
                  omega (arith, c, so_far.1, (parks taken).1),
                  ((refl, (parks taken).0), omega (arith, c, so_far.1)),
                )
                | inr free ↦ rw free (
                    Holds-map_some (WaitSo env number s3) (IterSo number s) (waited_after f)
                      (wait_between_runs rounds env number f.seconds s2.token.park_count s3)
                      (λ cut s' w.
                        cut_after-IterSo number s s3 f cut s' (omega (arith, k, so_far.0))
                          (omega (arith, c, so_far.1)) w)
                      (wait_between_runs-WaitSo env rounds number f.seconds s2.token.park_count s3))
              ])
      ]

  ended_run-IterSo :
      (rounds number : ℕ) (f : Finished) (s s1 : State)
      → number ≤ env.total
      → Kept s s1
      → Holds (IterSo number s) (ended_run rounds env number f s1)
  unfolding ended_run
  ended_run-IterSo rounds number f s s1 le k = elim (Bool-cases (succeeded f.status)) [
    | inl good ↦
        rw (good, Holds, ended_run)
          (elim (Bool-cases (env.saves after_run number)) [
            | inl saved ↦ rw saved (
                after_success-IterSo rounds number f s (record s1 { completed = s1.completed + 1 })
                  k.0 (omega (arith, k.1)))
            | inr lost ↦ rw lost (k.0, omega (arith, k.1))
          ])
    | inr bad ↦
        rw (bad, Holds, ended_run)
          (elim (Bool-cases (env.saves after_run number)) [
            | inr lost ↦ rw lost (k.0, omega (arith, k.1))
            | inl saved ↦ rw saved (elim (Bool-cases (interrupted f.status)) [
              | inl stopped ↦ rw stopped (k.0, omega (arith, k.1), tt)
              | inr failed ↦ rw failed (k.0, omega (arith, k.1), tt)
            ])
          ])
  ]

  sent_finish_lem :
      (b : Bool) (number : ℕ) (f : Finished) (s : State)
      → (finishes (sent_finish b number f (counted f s)).events ≡ finishes s.events)
        × ((sent_finish b number f (counted f s)).completed ≤ s.completed + 1)
  unfolding sent_finish counted
  sent_finish_lem b number f s =
      let more = finishes-append s.events (run_finished number f.status (some f.exit_code)) in
      (ground (arith, more), ground arith)

  step_run-IterSo :
      (rounds number : ℕ) (input : Option String) (t : Tried) (s s1 : State)
      → number ≤ env.total
      → Kept s s1
      → Holds (IterSo number s) (step_run rounds env number input t s1)
  unfolding step_run
  step_run-IterSo rounds number input not_announced s s1 le k = (k.0, omega (arith, k.1))
  step_run-IterSo rounds number input (raised_after b f) s s1 le k =
      let begun = emit (run_started number input) s1 in
      let r = sent_finish_lem b number f begun in
      (
        omega (arith, k.0, r.0, finishes-append s1.events (run_started number input)),
        omega (arith, k.1, r.1),
      )
  step_run-IterSo rounds number input raised_in_run s s1 le k =
      let begun = emit (run_started number input) s1 in
      (
        omega (
          arith,
          k.0,
          finishes-append s1.events (run_started number input),
          finishes-append begun.events (run_finished number RunStatus.failed none),
        ),
        omega (arith, k.1),
      )
  step_run-IterSo rounds number input (run_ended f) s s1 le k =
      let begun = emit (run_started number input) s1 in
      ended_run-IterSo rounds number f s
        (emit (run_finished number f.status (some f.exit_code))
          (observe env (record begun { exit_code = f.exit_code })))
        le
        (
          omega (
            arith,
            k.0,
            finishes-append s1.events (run_started number input),
            finishes-append begun.events (run_finished number f.status (some f.exit_code)),
          ),
          k.1,
        )

  run_prepared-IterSo :
      (rounds number : ℕ) (input : Attempt String (Option String)) (s s1 : State)
      → number ≤ env.total
      → Kept s s1
      → Holds (IterSo number s) (run_prepared rounds env number input s1)
  unfolding run_prepared
  run_prepared-IterSo rounds number (threw e) s s1 le k = (k.0, omega (arith, k.1), tt)
  run_prepared-IterSo rounds number (gave input) s s1 le k =
      step_run-IterSo rounds number input (env.try_run number input) s s1 le k

  abbrev BeforeSo : ℕ → State → Option After → State → Type 0
  BeforeSo number s none s' = Kept s s'
  BeforeSo number s (some after) s' = IterSo number s after s'

  before_run-BeforeSo :
      (number : ℕ) (s : State)
      → number ≤ env.total
      → s.completed + env.start ≡ number
      → BeforeSo number s (before_run env number s).0 (before_run env number s).1
  unfolding before_run
  before_run-BeforeSo number s le at =
      let r = requested-Kept env s in
      let s1 = (requested env s).1 in
      let s2 = (take_park env s1).1 in
      let (k, park) = take_park-Kept env s1 in
      let both = Kept-trans s s1 s2 r k in
      elim (Option-cases (requested env s).0) [
        | inr (g, stop) ↦ rw (stop, BeforeSo, before_run) (r.0, omega (arith, r.1), tt)
        | inl on ↦
            rw (on, BeforeSo, before_run)
              (elim (Bool-cases (ltb env.start number)) [
                | inr first ↦ rw first r
                | inl later ↦ rw later (elim (Bool-cases (take_park env s1).0) [
                  | inr free ↦ rw free both
                  | inl taken ↦ rw taken (
                    both.0,
                    omega (arith, both.1),
                    ((refl, park taken), omega (arith, both.1, ltb→lt _ _ later)),
                  )
                ])
              ])
      ]

  iterate-IterSo :
      (rounds number : ℕ) (current : Option String) (s : State)
      → number ≤ env.total
      → s.completed + env.start ≡ number
      → Holds (IterSo number s) (iterate rounds env number current s)
  unfolding iterate
  iterate-IterSo rounds number current s le at =
      let r = before_run-BeforeSo number s le at in
      let s' = (before_run env number s).1 in
      elim (Option-cases (before_run env number s).0) [
        | inr (after, stop) ↦ rw (stop, Holds, iterate) (subst (λ o. BeforeSo number s o s') stop r)
        | inl on ↦
            rw (on, Holds, iterate)
              (run_prepared-IterSo rounds number
                (prepare_boundary env number (input_of_run env number current)) s s' le
                (subst (λ o. BeforeSo number s o s') on r))
      ]

  -- How the job ends: a success made every run; one that failed, was interrupted or parked has runs left;
  -- a parked one made at least one run, took the park, and has the exit code of a park; and one that
  -- raised may have made every run.
  abbrev pub EndedSo : Ending → State → Type 0
  EndedSo (ended JobStatus.succeeded code) s = s.completed + env.start ≡ env.total + 1
  EndedSo (ended JobStatus.running code) s = ⊥
  EndedSo (ended JobStatus.parked code) s =
      (s.completed + env.start ≤ env.total)
      × (0 < s.completed)
      × (code ≡ exit_parked)
      × (s.token.park_taken ≡ true)
  EndedSo raised_out s = s.completed + env.start ≤ env.total + 1
  EndedSo _ s = s.completed + env.start ≤ env.total

  abbrev LoopSo : State → Ending → State → Type 0
  LoopSo s e s' = (finishes s'.events ≡ finishes s.events) × EndedSo e s'

  over-EndedSo :
      (number : ℕ) (s : State) (status : JobStatus) (code : ℕ) (s' : State)
      → s.completed + env.start ≡ number
      → IterSo number s (over status code) s'
      → LoopSo s (ended status code) (record s' { exit_code = code })
  over-EndedSo number s JobStatus.running code s' at h = absurd h.2
  over-EndedSo number s JobStatus.succeeded code s' at h = absurd h.2
  over-EndedSo number s JobStatus.failed code s' at h = (h.0, omega (arith, h.1, at))
  over-EndedSo number s JobStatus.interrupted code s' at h = (h.0, omega (arith, h.1, at))
  over-EndedSo number s JobStatus.parked code s' at h =
      (h.0, (omega (arith, h.1, at), h.2.1, h.2.0.0, h.2.0.1))

  run_loop-LoopSo :
      (rounds left number : ℕ) (current : Option String) (s : State)
      → number + left ≡ env.total + 1
      → s.completed + env.start ≡ number
      → Holds (LoopSo s) (run_loop rounds env left number current s)
  unfolding run_loop
  run_loop-LoopSo rounds zero number current s le at = (refl, omega arith)
  run_loop-LoopSo rounds (suc left) number current s le at =
      let r = iterate-IterSo rounds number current s (omega arith) at in
      elim (Option-cases (iterate rounds env number current s)) [
        | inl e ↦ rw (e, Holds, run_loop) tt
        | inr ((raised, s'), e) ↦
            let k = subst (Holds (IterSo number s)) e r in
            rw (e, Holds, run_loop) (k.0, omega (arith, k.1, at, le))
        | inr ((over status code, s'), e) ↦
            rw (e, Holds, run_loop)
              (over-EndedSo number s status code s' at (subst (Holds (IterSo number s)) e r))
        | inr ((next input, s'), e) ↦
            let k = subst (Holds (IterSo number s)) e r in
            rw (e, Holds, run_loop)
              (Holds-weaken (LoopSo s') (LoopSo s) (run_loop rounds env left (suc number) input s')
                (λ ending s'' h. (h.0 ∙ k.0, h.1))
                (run_loop-LoopSo rounds left (suc number) input s' (omega arith)
                  (omega (arith, k.1))))
      ]

  run_runs-LoopSo :
      (rounds : ℕ) (s : State)
      → s.completed ≡ 0
      → env.start ≤ env.total
      → Holds (LoopSo s) (run_runs rounds env s)
  unfolding run_runs
  run_runs-LoopSo rounds s fresh le =
      if_ind (Holds (LoopSo s)) (env.saves at_start 0 && env.input_passes)
        (run_loop rounds env (env.total + 1 - env.start) env.start env.first_input s)
        (some (raised_out, s))
        (λ _.
          run_loop-LoopSo rounds (env.total + 1 - env.start) env.start env.first_input s
            (omega arith) (omega arith))
        (λ _. (refl, omega arith))

  abbrev pub signal_of : JobStatus → ℕ → Option ℕ
  signal_of JobStatus.interrupted code = signal_for_exit_code env.is_signal code
  signal_of _ code = none

  abbrev pub last_event : Ending → State → JobEvent
  last_event (ended status code) s =
      job_finished status (some code) s.completed env.total (signal_of status code)
  last_event raised_out s = job_finished JobStatus.failed none s.completed env.total none

  ended-raised :
      (status : JobStatus) (code : ℕ) (s : State)
      → EndedSo (ended status code) s
      → EndedSo raised_out s
  ended-raised JobStatus.running code s h = absurd h
  ended-raised JobStatus.succeeded code s h = omega (arith, h)
  ended-raised JobStatus.failed code s h = omega (arith, h)
  ended-raised JobStatus.interrupted code s h = omega (arith, h)
  ended-raised JobStatus.parked code s h = omega (arith, h.0)

  save_end-LoopSo :
      (s : State) (e : Ending) (s' : State)
      → LoopSo s e s'
      → LoopSo s (save_end env (e, s')).0 (save_end env (e, s')).1
  unfolding save_end
  save_end-LoopSo s raised_out s' h = h
  save_end-LoopSo s (ended status code) s' h = elim (Bool-cases (env.saves at_end 0)) [
    | inl saved ↦ rw (saved, save_end) h
    | inr lost ↦ rw (lost, save_end) (h.0, ended-raised status code s' h.1)
  ]

  -- JobFinished is the last event and was not sent before, with the job's status and exit code, or FAILED
  -- and none for an exception, and the count of the runs that succeeded.
  abbrev pub JobSo : State → Ending → State → Type 0
  JobSo s e s' =
      (before : List JobEvent) × (s'.events ≡ before ++ last_event e s' ∷ [])
      × (finishes before ≡ finishes s.events)
      × EndedSo e s'

  finish_job-JobSo :
      (s : State) (e : Ending) (s' : State)
      → LoopSo s e s'
      → JobSo s (finish_job env (e, s')).0 (finish_job env (e, s')).1
  unfolding finish_job finish_event stopped_by
  finish_job-JobSo s (ended JobStatus.running code) s' h = absurd h.1
  finish_job-JobSo s (ended JobStatus.succeeded code) s' h = (s'.events, refl, h.0, h.1)
  finish_job-JobSo s (ended JobStatus.failed code) s' h = (s'.events, refl, h.0, h.1)
  finish_job-JobSo s (ended JobStatus.interrupted code) s' h = (s'.events, refl, h.0, h.1)
  finish_job-JobSo s (ended JobStatus.parked code) s' h = (s'.events, refl, h.0, h.1)
  finish_job-JobSo s raised_out s' h = (s'.events, refl, h.0, h.1)

  -- A job that was started with runs to make ends with exactly one JobFinished, its last event, whether
  -- it ends by itself or by an exception, and whatever other threads do: with its status, its exit code
  -- and the count of its succeeded runs, or FAILED and no exit code for an exception, which also a save of
  -- the records may raise. A success made every run of the job; one that failed, was interrupted or
  -- parked has runs left; one that raised made at most every run; and a parked one made at least one run, has the exit
  -- code of a park, and its token says that the park was taken.
  pub run_chain_outcome :
      (rounds : ℕ) (s : State) (e : Ending) (s' : State)
      → s.completed ≡ 0
      → env.start ≤ env.total
      → run_chain rounds env s ≡ some (e, s')
      → JobSo s e s'
  unfolding run_chain
  run_chain_outcome rounds s e s' fresh le h =
      let begun = emit (job_started env.total) s in
      let first : finishes begun.events ≡ finishes s.events =
        omega (arith, finishes-append s.events (job_started env.total)) in
      let runs : Holds (LoopSo begun) (run_runs rounds env begun) =
        run_runs-LoopSo rounds begun fresh le in
      subst (Holds (JobSo s)) h (
        Holds-map_some (LoopSo begun) (JobSo s) (finish_job env)
          (map_some (save_end env) (run_runs rounds env begun))
          (λ ending s'' k. finish_job-JobSo s ending s'' (k.0 ∙ first, k.1))
          (Holds-map_some (LoopSo begun) (LoopSo begun) (save_end env) (run_runs rounds env begun)
            (λ ending s'' k. save_end-LoopSo begun ending s'' k) runs))
