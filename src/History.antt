-- ===== src/History.antt =====
-- services/history_delete.py, and what it reads of the queue (`resume_links` of state/queue.py): which
-- executions an entry still uses, the deletion, and the resumes that it ends. It runs under the worker's
-- lock, so it is one step. The files of a deleted execution are removed by a parameter.
pub mod Uses
mod Examples
use draw_things_control.Prelude.{
  ℕ, suc, ◌+◌, String, Bool, true, false, not, ◌&&◌, ◌||◌, Option, none, some, List, [], ◌∷◌, ◌++◌,
  ltb, leb, ◌==◌, is_some, any, map, max, if◌then◌else◌,
}
use draw_things_control.Errors.{concat}
use draw_things_control.Ids.{queue_id_text, execution_id_text}
use draw_things_control.Executions
use draw_things_control.Executions.{
  ExecutionRow, RunRow, DeletedExecution, ExecutionDeletion, InUse, reason_of, succeeded_runs,
  delete,
}
use draw_things_control.Queue.Events.{QueueState}
use draw_things_control.Queue.Requests.{state_text}
use draw_things_control.Queue.Rows
use draw_things_control.Queue.Rows.{QueueRow, Table, is_queued, is_running}
use draw_things_control.Resume.Walk.{
  Attempt, gave, threw, Walk, End, returned, raised, unfinished, walk_chain,
}
use draw_things_control.Resume.Entry.{Store, is_resumable}

pub record ResumeLink : Type 0 where
  pub queue_number : ℕ
  pub state : QueueState
  pub execution_number : Option ℕ
  pub resumes : Option ℕ
  pub resumes_execution : Option ℕ
  pub execution_exists : Bool
  pub execution_total_runs : Option ℕ
  pub last_succeeded : Option ℕ

abbrev pub link_label : ResumeLink → String
link_label l = queue_id_text l.queue_number

-- MAX(runs.number) of the succeeded runs.
unfoldable pub last_number : List RunRow → Option ℕ
last_number [] = none
last_number (run ∷ runs) = elim (last_number runs) [
  | none ↦ some run.number
  | some n ↦ some (max run.number n)
]

linked_row : Store → Option ℕ → Option ExecutionRow
linked_row store none = none
linked_row store (some n) = Executions.by_number n store.executions

link_with : QueueRow → Option ExecutionRow → ResumeLink
link_with r x = record {
  queue_number = r.queue_number;
  state = r.state;
  execution_number = r.execution_number;
  resumes = r.resumes;
  resumes_execution = r.resumes_execution;
  execution_exists = is_some x;
  execution_total_runs = elim x [ none ↦ none | some y ↦ y.total_runs ];
  last_succeeded = elim x [ none ↦ none | some y ↦ last_number (succeeded_runs y) ];
}

-- `QueueRepository.resume_links`: the join of its query.
unfoldable pub link_of : Store → QueueRow → ResumeLink
unfolding linked_row link_with
link_of store r = link_with r (linked_row store r.execution_number)

unfoldable pub resume_links : Store → List ResumeLink
resume_links store = map (link_of store) (Rows.list (λ _. true) store.queue)

abbrev pub is_active : ResumeLink → Bool
is_active l = is_queued l.state || is_running l.state

-- `by_number`, a dict: the last link with a number.
unfoldable pub find_link : ℕ → List ResumeLink → Option ResumeLink
find_link n [] = none
find_link n (l ∷ links) = elim (find_link n links) [
  | some found ↦ some found
  | none ↦ if l.queue_number == n then some l else none
]

-- `_ChainBroken` carries nothing.
abbrev pub Broken : Type 0
Broken = Unit {0}

-- `linked`.
unfoldable pub linked : ResumeLink → Attempt Broken (Option ResumeLink)
linked l = elim l.execution_number [
  | none ↦ gave none
  | some n ↦
      if not l.execution_exists
      then (if is_active l then gave none else threw tt)
      else gave (some l)
]

-- `ancestor`.
unfoldable pub ancestor : List ResumeLink → ResumeLink → Attempt Broken ResumeLink
ancestor links l = elim l.resumes [
  | none ↦ threw tt
  | some n ↦ elim (find_link n links) [ none ↦ threw tt | some found ↦ gave found ]
]

abbrev pub has_succeeded : ResumeLink → Bool
has_succeeded l = is_some l.last_succeeded

unfoldable pub link_walk : List ResumeLink → ResumeLink → Walk ResumeLink ResumeLink Broken
link_walk links l =
    walk_chain (λ (k : ResumeLink). k.resumes) linked (ancestor links) has_succeeded
      (suc l.queue_number) l

-- The executions that the loop appends, and the last of them.
abbrev read_step : Option ResumeLink → List ℕ → List ℕ
read_step none rest = rest
read_step (some l) rest = elim l.execution_number [ none ↦ rest | some n ↦ n ∷ rest ]

unfoldable pub read_of : List (ResumeLink × Option ResumeLink) → List ℕ
read_of [] = []
read_of ((l, x) ∷ steps) = read_step x (read_of steps)

has_number : ResumeLink → Bool
has_number l = is_some l.execution_number

unfoldable pub last_read : List (ResumeLink × Option ResumeLink) → Option ResumeLink
unfolding has_number
last_read [] = none
last_read ((l, none) ∷ steps) = last_read steps
last_read ((l, some x) ∷ steps) = elim (last_read steps) [
  | some y ↦ some y
  | none ↦ if has_number x then some x else none
]

-- `_chain`.
unfoldable pub chain : List ResumeLink → ResumeLink → List ℕ × Option ResumeLink
chain links l =
    let walk = link_walk links l in
    (
      read_of walk.steps,
      elim walk.end [ raised _ ↦ none | unfinished ↦ none | returned ↦ last_read walk.steps ],
    )

unfoldable pub resume_reason : ResumeLink → String → ℕ → String
resume_reason l word n = concat (
    link_label l
    ∷ " "
    ∷ (if is_queued l.state then "is queued to resume" else "is running a resume")
    ∷ " "
    ∷ word
    ∷ " "
    ∷ execution_id_text n
    ∷ [])

pub own_reason : ResumeLink → ℕ → String
own_reason l n =
    concat (link_label l ∷ " is " ∷ state_text l.state ∷ " with " ∷ execution_id_text n ∷ [])

-- `dict.setdefault`.
unfoldable pub set_default : ℕ → String → InUse → InUse
set_default n reason m = if is_some (reason_of n m) then m else m ++ (n, reason) ∷ []

unfoldable pub add_opt : Option ℕ → (ℕ → String) → InUse → InUse
add_opt none reason m = m
add_opt (some n) reason m = set_default n (reason n) m

unfoldable pub add_all : List ℕ → (ℕ → String) → InUse → InUse
add_all [] reason m = m
add_all (n ∷ ns) reason m = add_all ns reason (set_default n (reason n) m)

-- The body of the loop of `_in_use`.
unfoldable pub add_link : List ResumeLink → ResumeLink → InUse → InUse
unfolding own_reason
add_link links l m =
    if not (is_active l)
    then m
    else add_all (chain links l).0 (resume_reason l "through") (
        add_opt l.resumes_execution (resume_reason l "from")
          (add_opt l.execution_number (own_reason l) m))

unfoldable pub add_links : List ResumeLink → List ResumeLink → InUse → InUse
add_links links [] m = m
add_links links (l ∷ rest) m = add_links links rest (add_link links l m)

-- `_in_use`.
unfoldable pub in_use : List ResumeLink → InUse
in_use links = add_links links links []

abbrev pub Ended : Type 0
Ended = List (ℕ × List String)

-- `ended.setdefault(number, []).append(label)`.
unfoldable pub append_label : ℕ → String → Ended → Ended
append_label n label [] = (n, label ∷ []) ∷ []
append_label n label ((k, labels) ∷ rest) =
    let later = append_label n label rest in
    if k == n then (k, labels ++ label ∷ []) ∷ rest else (k, labels) ∷ later

is_resumed : List ResumeLink → ResumeLink → Bool
is_resumed links l =
    any (λ (k : ResumeLink). elim k.resumes [ none ↦ false | some n ↦ n == l.queue_number ]) links

has_more : Option ℕ → ℕ → Bool
has_more none last = true
has_more (some total) last = not (leb total last)

-- Whether a resume would accept the entry now, its output file aside.
unfoldable pub would_resume : List ResumeLink → ResumeLink → Bool
unfolding is_resumed has_more
would_resume links l =
    (is_resumable l.state && not (is_resumed links l)) && elim (chain links l).1 [
      | none ↦ false
      | some point ↦ elim point.last_succeeded [
        | none ↦ false
        | some last ↦ has_more point.execution_total_runs last
      ]
    ]

unfoldable pub end_read : List ℕ → List ℕ → String → Ended → Ended
end_read [] numbers label m = m
end_read (n ∷ ns) numbers label m =
    end_read ns numbers label (if any (λ k. k == n) numbers then append_label n label m else m)

unfoldable pub end_links : List ResumeLink → List ℕ → List ResumeLink → Ended → Ended
end_links links numbers [] m = m
end_links links numbers (l ∷ rest) m =
    end_links links numbers rest
      (if would_resume links l then end_read (chain links l).0 numbers (link_label l) m else m)

-- `_ended`.
unfoldable pub ended : List ResumeLink → List ℕ → Ended
ended links numbers = end_links links numbers links []

pub record DeleteReport : Type 0 where
  pub deleted : List ℕ
  pub refused : List (ℕ × String)
  pub missing : List ℕ
  pub resumes_ended : Ended
  pub manifests_kept : List (ℕ × String)

-- `delete_executions`, with `store.delete_execution_files` and its answer as a parameter.
unfoldable pub delete_executions :
    (List DeletedExecution → List (ℕ × String)) → Bool → List ℕ → Store → DeleteReport × Store
delete_executions delete_files dry_run numbers store =
    let links = resume_links store in
    let (deletion, rows) = delete dry_run (in_use links) numbers store.executions in
    let deleted = map (λ (d : DeletedExecution). d.number) deletion.deleted in
    (
      record {
        deleted = deleted;
        refused = deletion.refused;
        missing = deletion.missing;
        resumes_ended = ended links deleted;
        manifests_kept = if dry_run then [] else delete_files deletion.deleted;
      },
      record store { executions = rows },
    )
