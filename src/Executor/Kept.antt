-- ===== src/Executor/Kept.antt =====
-- jobs/executor.py: the readings of the token and the waits between runs send no JobFinished and count
-- no run; and a park that ends a wait was taken.
use draw_things_control.Prelude.{
  ℕ, zero, suc, ◌+◌, ◌-◌, ◌<◌, true, ◌≡◌, ◌≢◌, refl, Option, none, some, List, [], ◌∷◌, ◌++◌, arith,
  ltb, leb, ◌==◌, Bool-cases, Option-cases, inl, inr, is_some,
}
use draw_things_control.Token
use draw_things_control.Token.{Token}
use draw_things_control.Executor.{
  Env, State, JobEvent, job_finished, observe, requested, take_park, cooldown_started, cool_loop,
  cool_down, wait_between_runs, map_some, Cooled, Cut, cooled_cut, cut_of, ends_cut, cooldown_ended,
  cut_parked, after_cooldown, at_cooldown, not_cut, emit, after_cooling, park_at_boundary,
}

abbrev pub is_finish : JobEvent → ℕ
is_finish (job_finished status code completed total signal) = 1
is_finish _ = 0

-- How many of the events are a JobFinished.
abbrev pub finishes : List JobEvent → ℕ
finishes [] = 0
finishes (e ∷ es) = is_finish e + finishes es

pub finishes-append :
    (xs : List JobEvent) (e : JobEvent) → finishes (xs ++ e ∷ []) ≡ finishes xs + is_finish e
finishes-append [] e = omega arith
finishes-append (x ∷ xs) e = omega (arith, finishes-append xs e)

-- No JobFinished was sent, and the count of succeeded runs is the same.
abbrev pub Kept : State → State → Type 0
Kept s s' = (finishes s'.events ≡ finishes s.events) × (s'.completed ≡ s.completed)

abbrev pub Holds : {A : Type 0} → (A → State → Type 0) → Option (A × State) → Type 0
Holds P none = Unit
Holds P (some (a, s)) = P a s

pub Kept-trans : (s s' s'' : State) → Kept s s' → Kept s' s'' → Kept s s''
Kept-trans s s' s'' h k = (omega (arith, h.0, k.0), omega (arith, h.1, k.1))

pub Holds-weaken :
    {A : Type 0} (P Q : A → State → Type 0) (o : Option (A × State))
    → ((a : A) (s : State) → P a s → Q a s)
    → Holds P o
    → Holds Q o
Holds-weaken P Q none f h = tt
Holds-weaken P Q (some (a, s)) f h = f a s h

pub Holds-map_some :
    {A B : Type 0} (P : A → State → Type 0) (Q : B → State → Type 0) (g : A × State → B × State)
    (o : Option (A × State))
    → ((a : A) (s : State) → P a s → Q (g (a, s)).0 (g (a, s)).1)
    → Holds P o
    → Holds Q (map_some g o)
Holds-map_some P Q g none f h = tt
Holds-map_some P Q g (some (a, s)) f h = f a s h

module _ (env : Env) where
  pub observe-Kept : (s : State) → Kept s (observe env s)
  unfolding observe
  observe-Kept s = (refl, refl)

  pub requested-Kept : (s : State) → Kept s (requested env s).1
  unfolding requested
  requested-Kept s = (refl, refl)

  pub take_park-Kept :
      (s : State)
      → Kept s (take_park env s).1
        × ((take_park env s).0 ≡ true → (take_park env s).1.token.park_taken ≡ true)
  unfolding take_park Token.take_park
  take_park-Kept s = ((refl, refl), λ h. h)

  abbrev Cools : State → Cooled → State → Type 0
  Cools s c s' = Kept s s' × (c.parked ≡ true → s'.token.park_taken ≡ true)

  cool_loop-Cools :
      (rounds seconds waited parks : ℕ) (s : State)
      → Holds (Cools s) (cool_loop rounds env seconds waited parks s)
  unfolding cool_loop
  cool_loop-Cools zero seconds waited parks s = tt
  cool_loop-Cools (suc rounds) seconds waited parks s =
      let s1 = (requested env s).1 in
      let r1 = requested-Kept s in
      let s2 = (take_park env s1).1 in
      let (r2, is_taken) = take_park-Kept s1 in
      let s3 = observe env s2 in
      let r3 = observe-Kept s2 in
      let s4 = observe env s3 in
      let r4 = observe-Kept s3 in
      elim (Bool-cases (ltb waited seconds)) [
        | inr full ↦ rw (full, Holds, cool_loop) ((refl, refl), λ h. cc)
        | inl short ↦
            rw (short, Holds, cool_loop)
              (elim (Option-cases (requested env s).0) [
                | inr (g, stop) ↦ rw stop (r1, λ h. cc)
                | inl on ↦ rw on (elim (Bool-cases (take_park env s1).0) [
                  | inl taken ↦ rw taken (Kept-trans s s1 s2 r1 r2, λ h. is_taken taken)
                  | inr free ↦ rw free (elim (Bool-cases (s3.token.park_count == parks)) [
                    | inl same ↦ rw same (Kept-trans s s2 s3 (Kept-trans s s1 s2 r1 r2) r3, λ h. cc)
                    | inr more ↦ rw more (
                        Holds-weaken (Cools s4) (Cools s)
                          (cool_loop rounds env seconds
                            (waited + env.wait s4.tick (seconds - waited)) s4.token.park_count s4)
                          (λ c s' h. (
                            Kept-trans s s2 s' (Kept-trans s s1 s2 r1 r2)
                                (Kept-trans s2 s3 s' r3 (Kept-trans s3 s4 s' r4 h.0)),
                            h.1,
                          ))
                          (cool_loop-Cools rounds seconds
                            (waited + env.wait s4.tick (seconds - waited)) s4.token.park_count s4))
                  ])
                ])
              ])
      ]

  -- A wait that ends the job: with a park, the park was taken.
  abbrev pub CutSo : State → Cut → State → Type 0
  CutSo s cut s' = Kept s s' × (cut ≡ cut_parked → s'.token.park_taken ≡ true)

  cut_of-parked : (o : Option ℕ) → cut_of o ≢ cut_parked
  unfolding cut_of
  cut_of-parked none h = cc
  cut_of-parked (some g) h = cc

  cooled_cut-CutSo :
      (seconds : ℕ) (s : State) (c : Cooled) (s' : State)
      → Cools s c s'
      → CutSo s (cooled_cut env seconds c s').0 (cooled_cut env seconds c s').1
  unfolding cooled_cut
  cooled_cut-CutSo seconds s c s' h = elim (Bool-cases c.parked) [
    | inl parked ↦ rw (parked, cooled_cut) (h.0, λ _. h.1 parked)
    | inr runs ↦
        rw (runs, cooled_cut)
          (elim (Bool-cases (ltb c.waited seconds)) [
            | inr full ↦ rw full (h.0, λ e. cc)
            | inl short ↦ rw short (
              Kept-trans s s' (requested env s').1 h.0 (requested-Kept s'),
              λ e. absurd (cut_of-parked (requested env s').0 e),
            )
          ])
  ]

  after_cooling-CutSo :
      (number seconds : ℕ) (s : State) (c : Cooled) (s' : State)
      → Cools s c s'
      → CutSo s
          (after_cooling env number seconds (c, s')).0
          (after_cooling env number seconds (c, s')).1
  unfolding after_cooling
  after_cooling-CutSo number seconds s c s' h =
      let cut = cooled_cut env seconds c s' in
      let k = cooled_cut-CutSo seconds s c s' h in
      elim (Bool-cases (env.saves after_cooldown number)) [
        | inl saved ↦
            rw (saved, after_cooling)
              (
                (
                  omega (
                    arith,
                    finishes-append cut.1.events (cooldown_ended c.waited (ends_cut cut.0)),
                    k.0.0,
                  ),
                  k.0.1,
                ),
                k.1,
              )
        | inr lost ↦ rw (lost, after_cooling) (k.0, λ e. cc)
      ]

  cool_down-CutSo :
      (rounds number seconds parks : ℕ) (s : State)
      → Holds (CutSo s) (cool_down rounds env number seconds parks s)
  unfolding cool_down
  cool_down-CutSo rounds number seconds parks s =
      let begun = emit (cooldown_started number seconds) s in
      let s1 = observe env begun in
      let opened : Kept s begun =
        (omega (arith, finishes-append s.events (cooldown_started number seconds)), refl) in
      let first : Kept s s1 = Kept-trans s begun s1 opened (observe-Kept begun) in
      elim (Bool-cases (env.saves at_cooldown number)) [
        | inr lost ↦ rw (lost, Holds, cool_down) (opened, λ e. cc)
        | inl saved ↦
            rw (saved, Holds, cool_down)
              (Holds-map_some (Cools s1) (CutSo s) (after_cooling env number seconds)
                (cool_loop rounds env seconds (env.wait s1.tick seconds) parks s1)
                (λ c s' h.
                  after_cooling-CutSo number seconds s c s' (Kept-trans s s1 s' first h.0, h.1))
                (cool_loop-Cools rounds seconds (env.wait s1.tick seconds) parks s1))
      ]

  -- Only a wait before another run ends the job.
  abbrev pub WaitSo : ℕ → State → Cut → State → Type 0
  WaitSo number s cut s' = CutSo s cut s' × (cut ≢ not_cut → number < env.total)

  pub wait_between_runs-WaitSo :
      (rounds number run_seconds parks : ℕ) (s : State)
      → Holds (WaitSo number s) (wait_between_runs rounds env number run_seconds parks s)
  unfolding wait_between_runs
  wait_between_runs-WaitSo rounds number run_seconds parks s =
      let r = requested-Kept s in
      let s' = (requested env s).1 in
      let seconds = env.wait_after run_seconds in
      elim (Bool-cases (leb env.total number)) [
        | inl last ↦
            rw (last, Holds, wait_between_runs) (((refl, refl), λ e. cc), λ ne. absurd (ne refl))
        | inr more ↦
            rw (more, Holds, wait_between_runs)
              (elim (Bool-cases (is_some (requested env s).0)) [
                | inl stop ↦ rw stop ((r, λ e. cc), λ ne. absurd (ne refl))
                | inr on ↦ rw on (elim (Bool-cases (ltb 0 seconds)) [
                  | inr zero_wait ↦ rw zero_wait ((r, λ e. cc), λ ne. absurd (ne refl))
                  | inl waits ↦ rw waits (
                      Holds-weaken (CutSo s') (WaitSo number s)
                        (cool_down rounds env number seconds parks s')
                        (λ c s'' h. ((Kept-trans s s' s'' r h.0, h.1), λ _. ground arith))
                        (cool_down-CutSo rounds number seconds parks s'))
                ])
              ])
      ]

  pub park_at_boundary-Kept :
      (number : ℕ) (s : State)
      → Kept s (park_at_boundary env number s).1
        × ((park_at_boundary env number s).0 ≡ true
            → ((park_at_boundary env number s).1.token.park_taken ≡ true) × (number < env.total))
  unfolding park_at_boundary
  park_at_boundary-Kept number s =
      let r = requested-Kept s in
      let (k, taken) = take_park-Kept (requested env s).1 in
      elim (Bool-cases (ltb number env.total)) [
        | inr last ↦ rw (last, park_at_boundary) ((refl, refl), λ e. cc)
        | inl more ↦
            rw (more, park_at_boundary)
              (elim (Bool-cases (is_some (requested env s).0)) [
                | inl stop ↦ rw stop (r, λ e. cc)
                | inr on ↦ rw on (
                  Kept-trans s (requested env s).1 (take_park env (requested env s).1).1 r k,
                  λ e. (taken e, ground arith),
                )
              ])
      ]
