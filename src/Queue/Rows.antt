-- ===== src/Queue/Rows.antt =====
-- state/queue.py, `QueueRepository`: the `queue` table. A column that holds JSON is kept as the
-- value that it encodes. Each method is one transaction, so it is one step.
pub mod Lookup
pub mod Ascending
pub mod Invariant
pub mod Claim
pub mod Retention
pub mod Samples
mod Examples
use draw_things_control.Prelude.{
  ℕ, suc, ◌+◌, String, Bool, true, false, ◌&&◌, not, Option, none, some, List, [], ◌∷◌, ◌++◌, ltb,
  leb, ◌==◌, is_some, any, length, if◌then◌else◌,
}
use draw_things_control.Json.{Json, Members, null, number, text, object, member, end, Codec}
use draw_things_control.Queue.Events.{QueueState, queued, running, cancelled, is_finished}

-- What a submission or a resume inserts.
pub record NewQueueEntry : Type 0 where
  pub job_path : String
  pub job_text : String
  pub config_file : String
  pub config_text : String
  pub input_directory : String
  pub output_directory : String
  pub cooldown_default : Option Json
  pub settings : Json
  pub submitted_at : String
  pub total_runs : ℕ
  pub resumes : Option ℕ
  pub resumes_execution : Option ℕ
  pub resume_first_run : Option ℕ
  pub resume_input : Option String
  pub resume_seed : Option ℕ
  pub resume_first_image : Option String
  pub resume_anchor : Option String
  pub submitted_by : Option String
  pub kind : String
  pub snapshot : Option String
  pub backend : String

-- A stored entry: what was inserted, and the columns that the queue itself writes.
pub record QueueRow : Type 0 where
  pub id : ℕ
  pub queue_number : ℕ
  pub new : NewQueueEntry
  pub open new use *
  pub state : QueueState
  pub submitted_epoch : ℕ
  pub started_at : Option String
  pub started_epoch : Option ℕ
  pub finished_at : Option String
  pub finished_epoch : Option ℕ
  pub execution_number : Option ℕ
  pub error : Option String

-- `last_id` is the last id given by AUTOINCREMENT, and `counter` the counter `queue`.
pub record Table : Type 0 where
  pub rows : List QueueRow
  pub last_id : ℕ
  pub counter : ℕ

abbrev pub empty : Table
empty = record { rows = []; last_id = 0; counter = 0 }

abbrev pub is_queued : QueueState → Bool
is_queued queued = true
is_queued _ = false

abbrev pub is_running : QueueState → Bool
is_running running = true
is_running _ = false

-- The clauses of a SELECT or an UPDATE.
unfoldable pub select : (QueueRow → Bool) → List QueueRow → List QueueRow
select p [] = []
select p (r ∷ rows) = let rest = select p rows in if p r then r ∷ rest else rest

unfoldable pub update : (QueueRow → QueueRow) → ℕ → List QueueRow → List QueueRow
update f i [] = []
update f i (r ∷ rows) = (if r.id == i then f r else r) ∷ update f i rows

unfoldable pub insert_ordered : QueueRow → List QueueRow → List QueueRow
insert_ordered r [] = r ∷ []
insert_ordered r (q ∷ rows) =
    if leb r.queue_number q.queue_number then r ∷ q ∷ rows else q ∷ insert_ordered r rows

-- ORDER BY queue_number.
unfoldable pub ordered : List QueueRow → List QueueRow
unfolding insert_ordered
ordered [] = []
ordered (r ∷ rows) = insert_ordered r (ordered rows)

unfoldable pub find_row : ℕ → List QueueRow → Option QueueRow
find_row i [] = none
find_row i (r ∷ rows) = if r.id == i then some r else find_row i rows

opt_text : Option String → Json
opt_text none = null
opt_text (some s) = text s

-- The snapshot that a job submission gets, where it brings none.
job_snapshot : NewQueueEntry → Json
job_snapshot new = object (
    member "version" (number "1") (
      member "kind" (text "job") (
        member "job_path" (text new.job_path) (
          member "job_text" (text new.job_text) (
            member "config_file" (text new.config_file) (
              member "config_text" (text new.config_text) (
                member "input_directory" (text new.input_directory) (
                  member "output_directory" (text new.output_directory) (
                    member "cooldown_default"
                      (elim new.cooldown_default [ none ↦ null | some j ↦ j ])
                      (member "settings" new.settings end))))))))))

with_snapshot : Codec → NewQueueEntry → NewQueueEntry
with_snapshot c new = elim new.snapshot [
  | none ↦ record new { snapshot = some (c.dumps (job_snapshot new)) }
  | some s ↦ new
]

unfoldable pub new_row : Codec → NewQueueEntry → Table → QueueRow
unfolding with_snapshot job_snapshot
new_row c new t = record {
  id = suc t.last_id;
  queue_number = suc t.counter;
  new = with_snapshot c new;
  state = queued;
  submitted_epoch = c.timestamp new.submitted_at;
  started_at = none;
  started_epoch = none;
  finished_at = none;
  finished_epoch = none;
  execution_number = none;
  error = none;
}

unfoldable pub submit : Codec → NewQueueEntry → Table → QueueRow × Table
submit c new t =
    let row = new_row c new t in
    (row, record { rows = t.rows ++ row ∷ []; last_id = suc t.last_id; counter = suc t.counter })

unfoldable pub get : ℕ → Table → Option QueueRow
get i t = find_row i t.rows

unfoldable pub find_number : ℕ → List QueueRow → Option QueueRow
find_number n [] = none
find_number n (r ∷ rows) = if r.queue_number == n then some r else find_number n rows

unfoldable pub by_number : ℕ → Table → Option QueueRow
unfolding find_number
by_number n t = find_number n t.rows

-- `list()` and `list(state=...)`: the test is on the state.
unfoldable pub list : (QueueState → Bool) → Table → List QueueRow
list p t = ordered (select (λ r. p r.state) t.rows)

unfoldable pub list_active : (QueueState → Bool) → Table → List QueueRow
list_active p t = list (λ s. not (is_finished s) && p s) t

unfoldable pub count : (QueueState → Bool) → Table → ℕ
count p t = length (select (λ r. p r.state) t.rows)

unfoldable pub has_queued : Table → Bool
has_queued t = any (λ (r : QueueRow). is_queued r.state) t.rows

unfoldable pub set_running : Codec → String → QueueRow → QueueRow
set_running c now r = record r {
  state = running;
  started_at = some now;
  started_epoch = some (c.timestamp now);
}

abbrev pub first_of_rows : List QueueRow → Option QueueRow
first_of_rows [] = none
first_of_rows (r ∷ rows) = some r

-- `now` is the clock's time as a local timestamp.
unfoldable pub claim_oldest : Codec → String → Table → Option QueueRow × Table
claim_oldest c now t = elim (first_of_rows (ordered (select (λ r. is_queued r.state) t.rows))) [
  | none ↦ (none, t)
  | some r ↦
      let t' = record t { rows = update (set_running c now) r.id t.rows } in (get r.id t', t')
]

unfoldable pub link_execution : ℕ → ℕ → Table → Table
link_execution i n t = record t {
  rows = update (λ r. record r { execution_number = some n }) i t.rows;
}

unfoldable pub set_finished :
    Codec → QueueState → String → Option String → Bool → QueueRow → QueueRow
set_finished c state finished_at error clear_link r = record r {
  state = state;
  finished_at = some finished_at;
  finished_epoch = some (c.timestamp finished_at);
  error = error;
  execution_number = if clear_link then none else r.execution_number;
}

unfoldable pub finish : Codec → ℕ → QueueState → String → Option String → Bool → Table → Table
finish c i state finished_at error clear_link t = record t {
  rows = update (set_finished c state finished_at error clear_link) i t.rows;
}

unfoldable pub set_error : ℕ → String → Table → Table
set_error i e t = record t { rows = update (λ r. record r { error = some e }) i t.rows }

unfoldable pub set_cancelled : Codec → String → QueueRow → QueueRow
set_cancelled c now r =
    if is_queued r.state
    then record r {
      state = cancelled;
      finished_at = some now;
      finished_epoch = some (c.timestamp now);
    }
    else r

-- `rowcount > 0`: a row has the id and is queued.
unfoldable pub cancel_queued : Codec → ℕ → String → Table → Bool × Table
cancel_queued c i now t = (
  any (λ (r : QueueRow). r.id == i && is_queued r.state) t.rows,
  record t { rows = update (set_cancelled c now) i t.rows },
)

unfoldable pub set_requeued : QueueRow → QueueRow
set_requeued r = record r {
  state = queued;
  started_at = none;
  started_epoch = none;
  execution_number = none;
}

unfoldable pub requeue : ℕ → Table → Table
requeue i t = record t { rows = update set_requeued i t.rows }

-- What the DELETE's conditions say of a row: a NULL epoch is never before the cutoff.
unfoldable pub is_pruned : ℕ → List ℕ → QueueRow → Bool
is_pruned cutoff keep r =
    elim r.finished_epoch [ none ↦ false | some e ↦ ltb e cutoff ]
    && not (any (λ n. n == r.queue_number) keep)

unfoldable pub prune : ℕ → List ℕ → Table → ℕ × Table
prune cutoff keep t = (
  length (select (is_pruned cutoff keep) t.rows),
  record t { rows = select (λ r. not (is_pruned cutoff keep r)) t.rows },
)
