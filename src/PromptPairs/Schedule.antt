-- ===== src/PromptPairs/Schedule.antt =====
-- jobs/prompt_pairs.py and jobs/definition.py: the check of the pairs and the schedule.
use draw_things_control.Prelude.{
  ℕ, zero, suc, String, true, false, ◌||◌, ◌≡◌, ◌⊎◌, refl, Option, Option-cases, none, some, List,
  [], ◌∷◌, any, All, ◌==◌, is_some, arith, Bool-cases, inl, inr,
}
use mathlib.Core.Path.{subst}
use draw_things_control.PromptPairs.{
  PromptPair, Checked, accepted, refused, ◌>>=◌, Assigned, pair_name, assign_run, assign_pair,
  assign_pairs, first_unassigned, is_default, check_rest, assign_runs, single_default, pair_of,
  default_pair, scheduled, schedule_from, schedule,
}

-- Checks in a row that accept: the first accepts, and so does what follows.
both_accept :
    {A B : Type 0} (o : Checked A) (next : A → Checked B) {y : B}
    → (o >>= next) ≡ accepted y
    → (x : A) × (o ≡ accepted x) × (next x ≡ accepted y)
both_accept (accepted x) next h = (x, refl, h)
both_accept (refused problem) next h = cc

-- A run is named after the check only if it was before, or one of the runs lists it.
assign_run-pair_name :
    (run_count : ℕ) (name : String) (n m : ℕ) (before after : Assigned)
    → assign_run run_count name n before ≡ accepted after
    → is_some (pair_name m after) ≡ true
    → (is_some (pair_name m before) || n == m) ≡ true
unfolding assign_run pair_name
assign_run-pair_name run_count name n m before after e h = ground (arith, e, h)

assign_pair-pair_name :
    (run_count : ℕ) (name : String) (ns : List ℕ) (m : ℕ) (before after : Assigned)
    → assign_pair run_count name ns before ≡ accepted after
    → is_some (pair_name m after) ≡ true
    → (is_some (pair_name m before) || any (λ n. n == m) ns) ≡ true
unfolding assign_pair
assign_pair-pair_name run_count name [] m before after e h = ground arith
assign_pair-pair_name run_count name (n ∷ ns) m before after e h =
    let (mid, p, q) =
      both_accept (assign_run run_count name n before) (assign_pair run_count name ns) e in
    let rest = assign_pair-pair_name run_count name ns m mid after q h in
    let first = assign_run-pair_name run_count name n m before mid p in ground (arith, rest, first)

assign_pairs-pair_name :
    (run_count : ℕ) (ps : List PromptPair) (m : ℕ) (before after : Assigned)
    → assign_pairs run_count ps before ≡ accepted after
    → is_some (pair_name m after) ≡ true
    → (is_some (pair_name m before) || is_some (pair_of m ps)) ≡ true
unfolding assign_pairs pair_of
assign_pairs-pair_name run_count [] m before after e h = ground arith
assign_pairs-pair_name run_count (p ∷ ps) m before after e h =
    let (mid, k, q) =
      both_accept (assign_pair run_count p.name p.runs before) (assign_pairs run_count ps) e in
    let rest = assign_pairs-pair_name run_count ps m mid after q h in
    let first = assign_pair-pair_name run_count p.name p.runs m before mid k in
    ground (arith, rest, first)

default_pair-any :
    (ps : List PromptPair) → any is_default ps ≡ true → is_some (default_pair ps) ≡ true
unfolding default_pair
default_pair-any [] h = ground arith
default_pair-any (p ∷ ps) h = ground (arith, default_pair-any ps)

abbrev pub HasPrompt : Option PromptPair → Type 0
HasPrompt o = is_some o ≡ true

-- The run has a pair: one that lists it, or, where none does, the default.
abbrev pub Fits : List PromptPair → ℕ → Option PromptPair → Type 0
Fits pairs n none = ⊥
Fits pairs n (some p) =
    (any (λ m. m == n) p.runs ≡ true)
    ⊎ ((p.default ≡ true) × (any (λ (q : PromptPair). any (λ m. m == n) q.runs) pairs ≡ false))

-- Such pairs for the runs from `first` on, one for each of `left` runs.
abbrev pub FitsAll : List PromptPair → ℕ → ℕ → List (Option PromptPair) → Type 0
FitsAll pairs first zero [] = Unit
FitsAll pairs first (suc left) (o ∷ os) = Fits pairs first o × FitsAll pairs (suc first) left os
FitsAll pairs first _ _ = ⊥

pair_of-fits :
    (pairs : List PromptPair) (n : ℕ)
    → ((p : PromptPair) × (pair_of n pairs ≡ some p) × (any (λ m. m == n) p.runs ≡ true))
      ⊎ ((pair_of n pairs ≡ none)
          × (any (λ (q : PromptPair). any (λ m. m == n) q.runs) pairs ≡ false))
unfolding pair_of
pair_of-fits [] n = inr (refl, refl)
pair_of-fits (p ∷ ps) n = elim (pair_of-fits ps n) [
  | inl (q, e, l) ↦ inl (q, ground (arith, e), l)
  | inr (e, l) ↦ elim (Bool-cases (any (λ m. m == n) p.runs)) [
    | inl b ↦ inl (p, ground (arith, e, b), b)
    | inr b ↦ inr (ground (arith, e, b), ground (arith, b, l))
  ]
]

default_pair-default :
    (pairs : List PromptPair) (p : PromptPair) → default_pair pairs ≡ some p → p.default ≡ true
unfolding default_pair
default_pair-default [] p h = cc
default_pair-default (q ∷ ps) p h = ground (arith, h, default_pair-default ps p)

scheduled-Fits :
    (pairs : List PromptPair) (n : ℕ)
    → is_some (scheduled pairs n) ≡ true
    → Fits pairs n (scheduled pairs n)
unfolding scheduled
scheduled-Fits pairs n h = elim (pair_of-fits pairs n) [
  | inl (p, e, l) ↦ rw (e, scheduled) (inl l)
  | inr (e, l) ↦ elim (Option-cases (default_pair pairs)) [
    | inl d ↦ absurd (ground (arith, e, d, h))
    | inr (p, d) ↦ rw (e, d, scheduled) (inr (default_pair-default pairs p d, l))
  ]
]

schedule_from-FitsAll :
    (pairs : List PromptPair) (first left : ℕ)
    → All HasPrompt (schedule_from pairs first left)
    → FitsAll pairs first left (schedule_from pairs first left)
unfolding schedule_from
schedule_from-FitsAll pairs first zero h = tt
schedule_from-FitsAll pairs first (suc left) h =
    (scheduled-Fits pairs first h.0, schedule_from-FitsAll pairs (suc first) left h.1)

default-schedule_from :
    (ps : List PromptPair) (first left : ℕ)
    → any is_default ps ≡ true
    → All HasPrompt (schedule_from ps first left)
unfolding schedule_from scheduled
default-schedule_from ps first zero h = tt
default-schedule_from ps first (suc left) h =
    (ground (arith, default_pair-any ps h), default-schedule_from ps (suc first) left h)

assigned-schedule_from :
    (run_count : ℕ) (ps : List PromptPair) (after : Assigned) (first left : ℕ)
    → assign_pairs run_count ps [] ≡ accepted after
    → first_unassigned first left after ≡ none
    → All HasPrompt (schedule_from ps first left)
unfolding schedule_from scheduled first_unassigned pair_name
assigned-schedule_from run_count ps after first zero e h = tt
assigned-schedule_from run_count ps after first (suc left) e h =
    let named = assign_pairs-pair_name run_count ps first [] after e in
    (
      ground (arith, named),
      assigned-schedule_from run_count ps after (suc first) left e (ground arith),
    )

check_rest-schedule :
    (run_count : ℕ) (ps : List PromptPair) (after : Assigned) (ps' : List PromptPair)
    → assign_pairs run_count ps [] ≡ accepted after
    → check_rest run_count ps after ≡ accepted ps'
    → All HasPrompt (schedule ps' run_count)
unfolding check_rest schedule
check_rest-schedule run_count ps after ps' e h = elim (Bool-cases (any is_default ps)) [
  | inl b ↦
      let same : ps ≡ ps' = ground arith in
      subst (λ x. All HasPrompt (schedule_from x 1 run_count)) same
        (default-schedule_from ps 1 run_count b)
  | inr b ↦
      let same : ps ≡ ps' = ground arith in
      let none_left : first_unassigned 1 run_count after ≡ none = ground arith in
      subst (λ x. All HasPrompt (schedule_from x 1 run_count)) same
        (assigned-schedule_from run_count ps after 1 run_count e none_left)
]

assign_runs-prompts :
    (pairs : List PromptPair) (run_count : ℕ) (pairs' : List PromptPair)
    → assign_runs pairs run_count ≡ accepted pairs'
    → All HasPrompt (schedule pairs' run_count)
unfolding assign_runs
assign_runs-prompts pairs run_count pairs' e =
    let ps = single_default pairs in
    let checked : (assign_pairs run_count ps [] >>= check_rest run_count ps) ≡ accepted pairs' =
      ground arith in
    let (after, k, q) =
      both_accept (assign_pairs run_count ps []) (check_rest run_count ps) checked in
    check_rest-schedule run_count ps after pairs' k q

-- If the check of a job's prompt pairs accepts them, for a number of runs, then the schedule of the
-- accepted pairs has exactly one pair for each of the runs, in order, and none is None: a pair that
-- lists the run, or, where no pair lists it, a default pair.
pub assign_runs-schedule :
    (pairs : List PromptPair) (run_count : ℕ) (pairs' : List PromptPair)
    → assign_runs pairs run_count ≡ accepted pairs'
    → FitsAll pairs' 1 run_count (schedule pairs' run_count)
unfolding schedule
assign_runs-schedule pairs run_count pairs' e =
    schedule_from-FitsAll pairs' 1 run_count (assign_runs-prompts pairs run_count pairs' e)
