-- ===== src/Executor/Ends.antt =====
-- jobs/executor.py: the loop over the runs ends, if other threads ask for parks only so many times.
use draw_things_control.Prelude.{
  ℕ, zero, suc, ◌+◌, ◌-◌, ◌≤◌, ◌<◌, ◌≢◌, Option, none, some, String, arith, ltb, leb, ◌&&◌, ◌==◌,
  Bool-cases, Option-cases, inl, inr, is_some, if_ind,
}
use mathlib.Core.Path.{subst}
use draw_things_control.Token
use draw_things_control.Token.{Token}
use draw_things_control.Resume.Walk.{Attempt, gave, threw}
use draw_things_control.Executor.{
  Env, State, Tried, not_announced, raised_in_run, run_ended, Finished, observe, requested,
  take_park, waited_after, cooldown_started, cool_loop, cool_down, wait_between_runs, after_success,
  iterate, run_loop, run_chain, run_runs, finish_job, ended_run, step_run, run_prepared,
  prepare_boundary, input_of_run, job_started, run_started, run_finished, raised, raised_out, over,
  next, map_some, Cooled, emit, after_cooling, before_run, park_at_boundary, succeeded,
  lacks_handoff, Ending, ended, save_end, raised_after, counted, sent_finish, after_run, at_start,
  at_cooldown,
}

-- Parks are asked for, and never more than `most` times: `bound k` is how many there were by tick `k`.
pub record Parks (env : Env) (bound : ℕ → ℕ) (most : ℕ) : Type 0 where
  pub grows :
      (k : ℕ) (t : Token)
      → t.park_count ≤ bound k
      → (t.park_count ≤ (env.others k t).park_count) × ((env.others k t).park_count ≤ bound (suc k))
  pub below : (k : ℕ) → bound k ≤ most

module _ (env : Env) (bound : ℕ → ℕ) (most : ℕ) (parks_asked : Parks env bound most) where
  -- The parks of a state so far.
  abbrev Counted : State → Type 0
  Counted s = s.token.park_count ≤ bound s.tick

  abbrev Later : State → State → Type 0
  Later s s' = (s.token.park_count ≤ s'.token.park_count) × Counted s'

  observe-Later : (s : State) → Counted s → Later s (observe env s)
  unfolding observe
  observe-Later s h = parks_asked.grows s.tick s.token h

  requested-Later : (s : State) → Counted s → Later s (requested env s).1
  unfolding requested
  requested-Later s h = observe-Later s h

  take_park-Later : (s : State) → Counted s → Later s (take_park env s).1
  unfolding take_park Token.take_park
  take_park-Later s h = observe-Later s h

  abbrev Ends : {A : Type 0} → Option (A × State) → Type 0
  Ends none = ⊥
  Ends (some (a, s)) = Counted s

  cool_loop-Ends :
      (rounds seconds waited parks : ℕ) (s : State)
      → Counted s
      → parks ≤ s.token.park_count
      → most < rounds + parks
      → Ends (cool_loop rounds env seconds waited parks s)
  unfolding cool_loop
  cool_loop-Ends zero seconds waited parks s h k l =
      absurd (omega (arith, parks_asked.below s.tick))
  cool_loop-Ends (suc rounds) seconds waited parks s h k l =
      let r1 = requested-Later s h in
      let s1 = (requested env s).1 in
      let r2 = take_park-Later s1 r1.1 in
      let s2 = (take_park env s1).1 in
      let r3 = observe-Later s2 r2.1 in
      let s3 = observe env s2 in
      let r4 = observe-Later s3 r3.1 in
      let s4 = observe env s3 in
      elim (Bool-cases (ltb waited seconds)) [
        | inr full ↦ rw (full, Ends, cool_loop) h
        | inl short ↦
            rw (short, Ends, cool_loop)
              (elim (Option-cases (requested env s).0) [
                | inr (g, stop) ↦ rw stop r1.1
                | inl on ↦ rw on (elim (Bool-cases (take_park env s1).0) [
                  | inl taken ↦ rw taken r2.1
                  | inr free ↦ rw free (elim (Bool-cases (s3.token.park_count == parks)) [
                    | inl same ↦ rw same r3.1
                    | inr more ↦ rw more (
                        cool_loop-Ends rounds seconds (waited + env.wait s4.tick (seconds - waited))
                          s4.token.park_count s4 r4.1 (omega arith)
                          (ground (arith, more, k, l, r1.0, r2.0, r3.0, r4.0)))
                  ])
                ])
              ])
      ]

  map_some-Ends :
      {A B : Type 0} (f : A × State → B × State) (o : Option (A × State))
      → ((a : A) (s : State) → Counted s → Counted (f (a, s)).1)
      → Ends o
      → Ends (map_some f o)
  map_some-Ends f none keeps h = h
  map_some-Ends f (some (a, s)) keeps h = keeps a s h

  after_cooling-Counted :
      (number seconds : ℕ) (c : Cooled) (s : State)
      → Counted s
      → Counted (after_cooling env number seconds (c, s)).1
  unfolding after_cooling
  after_cooling-Counted number seconds c s h = ground (arith, requested-Later s h)

  cool_down-Ends :
      (rounds number seconds parks : ℕ) (s : State)
      → Counted s
      → parks ≤ s.token.park_count
      → most < rounds + parks
      → Ends (cool_down rounds env number seconds parks s)
  unfolding cool_down
  cool_down-Ends rounds number seconds parks s h k l =
      let begun = emit (cooldown_started number seconds) s in
      let r = observe-Later begun h in
      elim (Bool-cases (env.saves at_cooldown number)) [
        | inr lost ↦ rw (lost, Ends, cool_down) h
        | inl saved ↦
            rw (saved, Ends, cool_down)
              (map_some-Ends (after_cooling env number seconds)
                (cool_loop rounds env seconds (env.wait (observe env begun).tick seconds) parks
                  (observe env begun))
                (λ c s'. after_cooling-Counted number seconds c s')
                (cool_loop-Ends rounds seconds (env.wait (observe env begun).tick seconds) parks
                  (observe env begun) r.1 (omega arith) l))
      ]

  wait_between_runs-Ends :
      (rounds number run_seconds parks : ℕ) (s : State)
      → Counted s
      → parks ≤ s.token.park_count
      → most < rounds + parks
      → Ends (wait_between_runs rounds env number run_seconds parks s)
  unfolding wait_between_runs
  wait_between_runs-Ends rounds number run_seconds parks s h k l =
      let r = requested-Later s h in
      let s' = (requested env s).1 in
      let seconds = env.wait_after run_seconds in
      elim (Bool-cases (leb env.total number)) [
        | inl last ↦ rw (last, Ends, wait_between_runs) h
        | inr more ↦
            rw (more, Ends, wait_between_runs)
              (elim (Bool-cases (is_some (requested env s).0)) [
                | inl stop ↦ rw stop r.1
                | inr on ↦ rw on (elim (Bool-cases (ltb 0 seconds)) [
                  | inr zero_wait ↦ rw zero_wait r.1
                  | inl waits ↦
                      rw waits (cool_down-Ends rounds number seconds parks s' r.1 (omega arith) l)
                ])
              ])
      ]

  park_at_boundary-Later :
      (number : ℕ) (s : State) → Counted s → Later s (park_at_boundary env number s).1
  unfolding park_at_boundary
  park_at_boundary-Later number s h =
      let r = requested-Later s h in ground (arith, r, take_park-Later (requested env s).1 r.1)

  after_success-Ends :
      (rounds number : ℕ) (f : Finished) (s : State)
      → Counted s
      → most < rounds
      → Ends (after_success rounds env number f s)
  unfolding after_success
  after_success-Ends rounds number f s h l =
      let s1 = observe env s in
      let r1 = observe-Later s h in
      let s2 = (park_at_boundary env number s1).1 in
      let r2 = park_at_boundary-Later number s1 r1.1 in
      elim (Bool-cases (lacks_handoff env number f)) [
        | inl lacks ↦ rw (lacks, Ends, after_success) h
        | inr has ↦
            rw (has, Ends, after_success)
              (elim (Bool-cases (park_at_boundary env number s1).0) [
                | inl taken ↦ rw taken r2.1
                | inr free ↦ rw free (
                    map_some-Ends (waited_after f)
                      (wait_between_runs rounds env number f.seconds s1.token.park_count s2)
                      (λ c s' h'. h')
                      (wait_between_runs-Ends rounds number f.seconds s1.token.park_count s2 r2.1
                        r2.0 (omega arith)))
              ])
      ]

  ended_run-Ends :
      (rounds number : ℕ) (f : Finished) (s : State)
      → Counted s
      → most < rounds
      → Ends (ended_run rounds env number f s)
  unfolding ended_run
  ended_run-Ends rounds number f s h l = elim (Bool-cases (succeeded f.status)) [
    | inl good ↦
        rw (good, Ends, ended_run)
          (elim (Bool-cases (env.saves after_run number)) [
            | inl saved ↦
                rw saved (
                  after_success-Ends rounds number f (record s { completed = s.completed + 1 }) h l)
            | inr lost ↦ rw lost h
          ])
    | inr bad ↦
        rw (bad, Ends, ended_run)
          (elim (Bool-cases (env.saves after_run number)) [
            | inl saved ↦ rw saved h
            | inr lost ↦ rw lost h
          ])
  ]

  step_run-Ends :
      (rounds number : ℕ) (input : Option String) (t : Tried) (s : State)
      → Counted s
      → most < rounds
      → Ends (step_run rounds env number input t s)
  unfolding step_run
  step_run-Ends rounds number input not_announced s h l = h
  step_run-Ends rounds number input raised_in_run s h l = h
  step_run-Ends rounds number input (raised_after b f) s h l =
      unfold sent_finish counted in ground (arith, h)
  step_run-Ends rounds number input (run_ended f) s h l =
      let begun = record (emit (run_started number input) s) { exit_code = f.exit_code } in
      ended_run-Ends rounds number f
        (emit (run_finished number f.status (some f.exit_code)) (observe env begun))
        (observe-Later begun h).1 l

  run_prepared-Ends :
      (rounds number : ℕ) (input : Attempt String (Option String)) (s : State)
      → Counted s
      → most < rounds
      → Ends (run_prepared rounds env number input s)
  unfolding run_prepared
  run_prepared-Ends rounds number (threw e) s h l = h
  run_prepared-Ends rounds number (gave input) s h l =
      step_run-Ends rounds number input (env.try_run number input) s h l

  before_run-Counted : (number : ℕ) (s : State) → Counted s → Counted (before_run env number s).1
  unfolding before_run
  before_run-Counted number s h =
      let r = requested-Later s h in ground (arith, r, take_park-Later (requested env s).1 r.1)

  iterate-Ends :
      (rounds number : ℕ) (current : Option String) (s : State)
      → Counted s
      → most < rounds
      → Ends (iterate rounds env number current s)
  unfolding iterate
  iterate-Ends rounds number current s h l =
      let r = before_run-Counted number s h in
      elim (Option-cases (before_run env number s).0) [
        | inr (after, stop) ↦ rw (stop, Ends, iterate) r
        | inl on ↦
            rw (on, Ends, iterate)
              (run_prepared-Ends rounds number
                (prepare_boundary env number (input_of_run env number current))
                (before_run env number s).1 r l)
      ]

  run_loop-Ends :
      (rounds left number : ℕ) (current : Option String) (s : State)
      → Counted s
      → most < rounds
      → Ends (run_loop rounds env left number current s)
  unfolding run_loop
  run_loop-Ends rounds zero number current s h l = h
  run_loop-Ends rounds (suc left) number current s h l =
      let r = iterate-Ends rounds number current s h l in
      elim (Option-cases (iterate rounds env number current s)) [
        | inl e ↦ absurd (subst Ends e r)
        | inr ((raised, s'), e) ↦ rw (e, Ends, run_loop) (subst Ends e r)
        | inr ((over status code, s'), e) ↦ rw (e, Ends, run_loop) (subst Ends e r)
        | inr ((next input, s'), e) ↦
            rw (e, Ends, run_loop)
              (run_loop-Ends rounds left (suc number) input s' (subst Ends e r) l)
      ]

  save_end-Counted : (e : Ending) (s : State) → Counted s → Counted (save_end env (e, s)).1
  unfolding save_end
  save_end-Counted raised_out s h = h
  save_end-Counted (ended status code) s h = ground (arith, h)

  run_runs-Ends :
      (rounds : ℕ) (s : State) → Counted s → most < rounds → Ends (run_runs rounds env s)
  unfolding run_runs
  run_runs-Ends rounds s h l =
      if_ind Ends (env.saves at_start 0 && env.input_passes)
        (run_loop rounds env (env.total + 1 - env.start) env.start env.first_input s)
        (some (raised_out, s))
        (λ _. run_loop-Ends rounds (env.total + 1 - env.start) env.start env.first_input s h l)
        (λ _. h)

  -- If other threads ask for parks at most `most` times while the job runs, whatever else they do and
  -- however long each wait lasts, then the job ends: with more rounds than parks, no cooldown goes on
  -- for ever.
  pub run_chain_ends :
      (rounds : ℕ) (s : State)
      → s.token.park_count ≤ bound s.tick
      → most < rounds
      → run_chain rounds env s ≢ none
  unfolding run_chain
  run_chain_ends rounds s h l e =
      let begun = emit (job_started env.total) s in
      let r =
        map_some-Ends (finish_job env) (map_some (save_end env) (run_runs rounds env begun))
          (λ ending s' h'. unfold finish_job in h')
          (map_some-Ends (save_end env) (run_runs rounds env begun)
            (λ ending s' h'. save_end-Counted ending s' h') (run_runs-Ends rounds begun h l)) in
      subst Ends e r
