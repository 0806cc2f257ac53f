-- ===== src/Executions.antt =====
-- state/execution_rows.py and state/executions.py: the stored executions with their runs, as a resume,
-- the history and retention read them. `executions` has one row for a number; paths are texts, and what
-- pathlib makes of them is a parameter.
pub mod Deletion
mod Examples
use draw_things_control.Prelude.{
  ℕ, ◌+◌, String, Bool, true, false, ◌&&◌, ◌||◌, not, Option, none, some, List, [], ◌∷◌, ◌==◌, ltb,
  str_eq, any, length, if◌then◌else◌,
}
use draw_things_control.Errors.{concat}
use draw_things_control.Ids.{execution_id_text}
use draw_things_control.Queue.Status.{RunStatus}
use draw_things_control.Queue.Worker.Thread.{JobStatus}

pub record RunRow : Type 0 where
  pub number : ℕ
  pub status : RunStatus
  pub output : Option String
  pub last_frame : Option String
  pub anchor : Option String

pub record ExecutionRow : Type 0 where
  pub execution_number : ℕ
  pub status : JobStatus
  pub seed : Option ℕ
  pub total_runs : Option ℕ
  pub finished_epoch : Option ℕ
  pub manifest_path : Option String
  pub log_path : Option String
  pub settings_output_directory : Option String
  pub runs : List RunRow
  pub first_image : Option String

-- `Path(...)`, `.is_absolute()`, `.parent` and `/` of pathlib.
pub record Paths : Type 0 where
  pub path : String → String
  pub is_absolute : String → Bool
  pub parent : String → String
  pub join : String → String → String

-- `None` and the empty text are both false.
abbrev pub named : Option String → Option String
named none = none
named (some s) = if str_eq s "" then none else some s

unfoldable pub output_directory : Paths → ExecutionRow → Option String
output_directory p x = elim (named x.settings_output_directory) [
  | some directory ↦ some (p.path directory)
  | none ↦ elim (named x.manifest_path) [
    | some manifest ↦ some (p.parent (p.path manifest))
    | none ↦ none
  ]
]

unfoldable pub run_file : Paths → ExecutionRow → Option String → Option String
run_file p x name = elim (named name) [
  | none ↦ none
  | some file ↦
      if p.is_absolute (p.path file) then some (p.path file) else elim (output_directory p x) [
        | some directory ↦ some (p.join directory file)
        | none ↦ none
      ]
]

abbrev pub run_succeeded : RunStatus → Bool
run_succeeded RunStatus.succeeded = true
run_succeeded _ = false

unfoldable pub select_succeeded : List RunRow → List RunRow
select_succeeded [] = []
select_succeeded (run ∷ runs) =
    let rest = select_succeeded runs in if run_succeeded run.status then run ∷ rest else rest

abbrev pub succeeded_runs : ExecutionRow → List RunRow
succeeded_runs x = select_succeeded x.runs

unfoldable pub by_number : ℕ → List ExecutionRow → Option ExecutionRow
by_number n [] = none
by_number n (x ∷ xs) = if x.execution_number == n then some x else by_number n xs

abbrev pub job_is_running : JobStatus → Bool
job_is_running JobStatus.running = true
job_is_running _ = false

pub record DeletedExecution : Type 0 where
  pub number : ℕ
  pub log_path : Option String
  pub manifest_path : Option String

pub record ExecutionDeletion : Type 0 where
  pub deleted : List DeletedExecution
  pub refused : List (ℕ × String)
  pub missing : List ℕ

abbrev pub InUse : Type 0
InUse = List (ℕ × String)

unfoldable pub reason_of : ℕ → InUse → Option String
reason_of n [] = none
reason_of n ((k, reason) ∷ rest) = if k == n then some reason else reason_of n rest

-- What the loop's body decides for a number.
pub data Verdict : Type 0 where
  is_missing : Verdict
  is_refused : String → Verdict
  is_deleted : ExecutionRow → Verdict

unfoldable pub verdict : InUse → ℕ → Option ExecutionRow → Verdict
verdict used n none = is_missing
verdict used n (some x) =
    if job_is_running x.status
    then is_refused (concat (execution_id_text n ∷ " is running; it cannot be deleted" ∷ []))
    else elim (reason_of n used) [ some reason ↦ is_refused reason | none ↦ is_deleted x ]

unfoldable pub without : ℕ → List ExecutionRow → List ExecutionRow
without n [] = []
without n (x ∷ xs) = let rest = without n xs in if x.execution_number == n then rest else x ∷ rest

abbrev pub report : ℕ → Verdict → ExecutionDeletion → ExecutionDeletion
report n is_missing d = record d { missing = n ∷ d.missing }
report n (is_refused reason) d = record d { refused = (n, reason) ∷ d.refused }
report n (is_deleted x) d = record d {
  deleted =
      record { number = n; log_path = x.log_path; manifest_path = x.manifest_path } ∷ d.deleted;
}

abbrev pub rows_after : Bool → ℕ → Verdict → List ExecutionRow → List ExecutionRow
rows_after dry_run n (is_deleted x) xs = if dry_run then xs else without n xs
rows_after dry_run n _ xs = xs

-- `dict.fromkeys`: each number once, where it comes first.
unfoldable pub from_keys : List ℕ → List ℕ → List ℕ
from_keys seen [] = []
from_keys seen (n ∷ ns) =
    let rest = from_keys (n ∷ seen) ns in if any (λ k. k == n) seen then rest else n ∷ rest

unfoldable pub delete_each :
    Bool → InUse → List ℕ → List ExecutionRow → ExecutionDeletion × List ExecutionRow
delete_each dry_run used [] xs = (record { deleted = []; refused = []; missing = [] }, xs)
delete_each dry_run used (n ∷ ns) xs =
    let v = verdict used n (by_number n xs) in
    let (d, xs') = delete_each dry_run used ns (rows_after dry_run n v xs) in (report n v d, xs')

unfoldable pub delete :
    Bool → InUse → List ℕ → List ExecutionRow → ExecutionDeletion × List ExecutionRow
delete dry_run used numbers xs = delete_each dry_run used (from_keys [] numbers) xs

-- `prune`: the rows that stay, how many were deleted, and the log files that they named.
unfoldable pub is_pruned : ℕ → List ℕ → ExecutionRow → Bool
is_pruned cutoff keep x = elim x.finished_epoch [
  | none ↦ false
  | some at ↦
      not (job_is_running x.status)
      && (ltb at cutoff && not (any (λ k. k == x.execution_number) keep))
]

abbrev pub add_log : Option String → List String → List String
add_log none logs = logs
add_log (some log) logs = log ∷ logs

pub record Pruned : Type 0 where
  pub kept : List ExecutionRow
  pub count : ℕ
  pub logs : List String

unfoldable pub prune : ℕ → List ℕ → List ExecutionRow → Pruned
prune cutoff keep [] = record { kept = []; count = 0; logs = [] }
prune cutoff keep (x ∷ xs) =
    let rest = prune cutoff keep xs in
    if is_pruned cutoff keep x
    then record rest { count = rest.count + 1; logs = add_log x.log_path rest.logs }
    else record rest { kept = x ∷ rest.kept }
