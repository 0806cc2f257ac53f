-- ===== src/PromptPairs.antt =====
-- jobs/prompt_pairs.py, `_assign_runs`, and `schedule` of jobs/definition.py for a job without effective
-- runs: which prompt pair each run uses. A run number below 1 stands for every integer below 1.
pub mod Schedule
mod Examples
use draw_things_control.Prelude.{
  ℕ, zero, suc, ◌+◌, String, Bool, true, false, not, ◌&&◌, ◌||◌, Option, none, some, List, [], ◌∷◌,
  any, length, leb, ltb, ◌==◌, is_some, if◌then◌else◌,
}

pub record PromptPair : Type 0 where
  pub name : String
  pub positive : String
  pub negative : Option String
  pub runs : List ℕ
  pub default : Bool

-- What `fail` is called for; each ends the check with the job's InputError.
pub data Problem : Type 0 where
  many_defaults : Problem
  outside : ℕ → Problem
  taken : ℕ → String → Problem
  unassigned : ℕ → Problem

pub data Checked (A : Type 0) : Type 0 where
  accepted : A → Checked A
  refused : Problem → Checked A

infixl 5 ◌>>=◌
abbrev pub ◌>>=◌ : {A B : Type 0} → Checked A → (A → Checked B) → Checked B
accepted x >>= next = next x
refused p >>= next = refused p

-- `assigned`: the name of the pair of a run.
abbrev pub Assigned : Type 0
Assigned = List (ℕ × String)

unfoldable pub pair_name : ℕ → Assigned → Option String
pair_name n [] = none
pair_name n ((m, name) ∷ rest) = if m == n then some name else pair_name n rest

unfoldable pub defaults : List PromptPair → ℕ
defaults [] = 0
defaults (p ∷ ps) = (if p.default then 1 else 0) + defaults ps

-- A single pair with no default is the default.
unfoldable pub single_default : List PromptPair → List PromptPair
single_default (p ∷ []) = record p { default = true } ∷ []
single_default ps = ps

unfoldable pub assign_run : ℕ → String → ℕ → Assigned → Checked Assigned
assign_run run_count name n assigned =
    if not (leb 1 n && leb n run_count) then refused (outside n) else elim (pair_name n assigned) [
      | some other ↦ refused (taken n other)
      | none ↦ accepted ((n, name) ∷ assigned)
    ]

unfoldable pub assign_pair : ℕ → String → List ℕ → Assigned → Checked Assigned
assign_pair run_count name [] assigned = accepted assigned
assign_pair run_count name (n ∷ ns) assigned =
    assign_run run_count name n assigned >>= assign_pair run_count name ns

unfoldable pub assign_pairs : ℕ → List PromptPair → Assigned → Checked Assigned
assign_pairs run_count [] assigned = accepted assigned
assign_pairs run_count (p ∷ ps) assigned =
    assign_pair run_count p.name p.runs assigned >>= assign_pairs run_count ps

-- The runs from `first` on, `left` of them: the first that no pair has.
unfoldable pub first_unassigned : ℕ → ℕ → Assigned → Option ℕ
first_unassigned first zero assigned = none
first_unassigned first (suc left) assigned =
    let rest = first_unassigned (suc first) left assigned in
    if is_some (pair_name first assigned) then rest else some first

abbrev pub is_default : PromptPair → Bool
is_default p = p.default

-- The last check: a job without a default pair assigns every run.
unfoldable pub check_rest : ℕ → List PromptPair → Assigned → Checked (List PromptPair)
check_rest run_count pairs assigned =
    if any is_default pairs then accepted pairs else elim (first_unassigned 1 run_count assigned) [
      | none ↦ accepted pairs
      | some n ↦ refused (unassigned n)
    ]

-- `_assign_runs`.
unfoldable pub assign_runs : List PromptPair → ℕ → Checked (List PromptPair)
assign_runs pairs run_count =
    if ltb 1 (defaults pairs)
    then refused many_defaults
    else let pairs' = single_default pairs in
      assign_pairs run_count pairs' [] >>= check_rest run_count pairs'

abbrev pub lists_run : ℕ → PromptPair → Bool
lists_run n p = any (λ m. m == n) p.runs

-- `assigned.get(number)` of `schedule`: of the pairs that list the run, the last.
unfoldable pub pair_of : ℕ → List PromptPair → Option PromptPair
pair_of n [] = none
pair_of n (p ∷ ps) = elim (pair_of n ps) [
  | some q ↦ some q
  | none ↦ if lists_run n p then some p else none
]

unfoldable pub default_pair : List PromptPair → Option PromptPair
default_pair [] = none
default_pair (p ∷ ps) = if p.default then some p else default_pair ps

unfoldable pub scheduled : List PromptPair → ℕ → Option PromptPair
scheduled pairs n = elim (pair_of n pairs) [ some p ↦ some p | none ↦ default_pair pairs ]

unfoldable pub schedule_from : List PromptPair → ℕ → ℕ → List (Option PromptPair)
schedule_from pairs first zero = []
schedule_from pairs first (suc left) = scheduled pairs first ∷ schedule_from pairs (suc first) left

-- `schedule`; None would be a run without a prompt.
unfoldable pub schedule : List PromptPair → ℕ → List (Option PromptPair)
schedule pairs run_count = schedule_from pairs 1 run_count
