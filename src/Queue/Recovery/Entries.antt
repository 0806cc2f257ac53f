-- ===== src/Queue/Recovery/Entries.antt =====
-- services/queue_recovery.py: each entry before and after.
use draw_things_control.Queue.Events.{QueueState}
use draw_things_control.Prelude.{str_eq, eq_iff}
use draw_things_control.Prelude.{
  ℕ, ◌<◌, String, Bool, false, ◌≡◌, refl, ap, ◌∙◌, Option, none, some, List, [], ◌∷◌, arith, ◌==◌,
  ==→≡, All-weaken, if◌then◌else◌, Bool-cases, inl, inr,
}
use mathlib.Core.Option
use draw_things_control.Json.{Codec}
use draw_things_control.Queue.Rows.{
  QueueRow, Table, is_running, select, ordered, list, set_requeued, set_finished, requeue, finish,
  get, find_row, insert_ordered,
}
use draw_things_control.Queue.Rows.Lookup.{find-update}
use draw_things_control.Queue.Rows.Ascending.{IsAscending, IsAscending-select, later}
use draw_things_control.Queue.Rows.Invariant.{IsWellFormed}
use draw_things_control.Queue.Rows.Retention.{find_beyond, find-select, kept_if}
use draw_things_control.Queue.Recovery.{
  Execution, Executions, linked, state_of_execution, finish_time, sweep_one, recover_entry,
  recover_all, recover_queue, sweep_interrupted,
}

-- What recovery makes of a running row whose link is `link`: back in the queue where no execution is
-- found, else finished as the execution shows.
abbrev pub closed : Codec → String → Option Execution → QueueRow → QueueRow
closed c now none r = set_requeued r
closed c now (some x) r =
    set_finished c (state_of_execution x.status) (finish_time now x.finished_at) none false r

recover_entry-get :
    (c : Codec) (now : String) (xs : Executions) (r : QueueRow) (t : Table) (j : ℕ)
    → get j (recover_entry c now xs r t) ≡ (
        if r.id == j
        then Option.map (closed c now (linked xs r.execution_number)) (get j t)
        else get j t)
unfolding recover_entry requeue finish get
recover_entry-get c now xs r t j = go (linked xs r.execution_number)
  where
    go :
        (o : Option Execution)
        → find_row j
            (elim o as (λ _. Table) [
              | none ↦ requeue r.id t
              | some x ↦
                  finish c r.id
                    (state_of_execution x.status)
                    (finish_time now x.finished_at)
                    none
                    false
                    t
            ]).rows
          ≡ (if r.id == j
              then Option.map (closed c now o) (find_row j t.rows)
              else find_row j t.rows)
    go none = find-update set_requeued r.id j t.rows (λ q. unfold set_requeued in refl)
    go (some x) = find-update _ r.id j t.rows (λ q. unfold set_finished in refl)

abbrev closed_by : Codec → String → Executions → Option QueueRow → Option QueueRow → Option QueueRow
closed_by c now xs none o = o
closed_by c now xs (some r) o = Option.map (closed c now (linked xs r.execution_number)) o

recover_all-get :
    (c : Codec) (now : String) (xs : Executions) (lo n : ℕ) (rs : List QueueRow) (t : Table) (j : ℕ)
    → IsAscending lo n rs
    → get j (recover_all c now xs rs t) ≡ closed_by c now xs (find_row j rs) (get j t)
unfolding recover_all find_row
recover_all-get c now xs lo n [] t j h = refl
recover_all-get c now xs lo n (r ∷ rs) t j h =
    let first = recover_entry-get c now xs r t j in
    let rest = recover_all-get c now xs r.id r.queue_number rs (recover_entry c now xs r t) j h.2 in
    elim (Bool-cases (r.id == j)) [
      | inl e ↦
          let gone = find_beyond j rs (
            All-weaken (λ q. r.id < q.id) (λ q. j < q.id) rs (λ q k. omega (arith, ==→≡ r.id j e))
              (later r.id r.queue_number rs h.2)) in
          ground (arith, rest, gone, first, e)
      | inr e ↦ ground (arith, rest, first, e)
    ]

insert-first :
    (r : QueueRow) (lo : ℕ) (rows : List QueueRow)
    → IsAscending lo r.queue_number rows
    → insert_ordered r rows ≡ r ∷ rows
unfolding insert_ordered
insert-first r lo [] h = refl
insert-first r lo (q ∷ rows) h = ground (arith, h.1)

ordered-ascending : (lo n : ℕ) (rows : List QueueRow) → IsAscending lo n rows → ordered rows ≡ rows
unfolding ordered
ordered-ascending lo n [] h = refl
ordered-ascending lo n (r ∷ rows) h =
    ap (insert_ordered r) (ordered-ascending r.id r.queue_number rows h.2)
    ∙ insert-first r r.id rows h.2

running_only : QueueRow → Bool
running_only r = is_running r.state

recovered-cases :
    (c : Codec) (now : String) (xs : Executions) (o : Option QueueRow)
    → closed_by c now xs (kept_if (λ r. is_running r.state) o) o
      ≡ Option.map
          (λ r. if is_running r.state then closed c now (linked xs r.execution_number) r else r)
          o
recovered-cases c now xs none = refl
recovered-cases c now xs (some r) = ground arith

-- What the statement says of an entry's execution: it is the first stored with the number.
abbrev pub execution_of : Option ℕ → Executions → Option Execution
execution_of none xs = none
execution_of (some n) [] = none
execution_of (some n) ((k, x) ∷ xs) = if k == n then some x else execution_of (some n) xs

-- The state and the finish that an execution gives; one that was running was interrupted now.
abbrev pub end_state : String → QueueState
end_state status =
    if str_eq status "succeeded"
    then QueueState.succeeded
    else if str_eq status "failed"
    then QueueState.failed
    else if str_eq status "parked"
    then QueueState.parked
    else QueueState.interrupted

abbrev pub end_time : String → Execution → String
end_time now x =
    if str_eq x.status "running"
    then now
    else elim x.finished_at [ none ↦ now | some at ↦ if str_eq at "" then now else at ]

abbrev pub recovered : Codec → String → Option Execution → QueueRow → QueueRow
recovered c now none r = record r {
  state = QueueState.queued;
  started_at = none;
  started_epoch = none;
  execution_number = none;
}
recovered c now (some x) r = record r {
  state = end_state x.status;
  finished_at = some (end_time now x);
  finished_epoch = some (c.timestamp (end_time now x));
  error = none;
}

swept_state :
    (now : String) (x : Execution)
    → state_of_execution (sweep_one now x).status ≡ end_state x.status
swept_state now x = elim (Bool-cases (str_eq x.status "running")) [
  | inl e ↦ let same : x.status ≡ "running" = (eq_iff x.status "running").0 e in rw e (rw same refl)
  | inr e ↦ rw e refl
]

swept_time :
    (now : String) (x : Execution) (o : Option String)
    → x.finished_at ≡ o
    → finish_time now (sweep_one now x).finished_at ≡ end_time now x
swept_time now x none h = ground (arith, h)
swept_time now x (some at) h = ground (arith, h)

linked-swept :
    (now : String) (o : Option ℕ) (xs : Executions)
    → linked (sweep_interrupted now xs) o ≡ Option.map (sweep_one now) (execution_of o xs)
unfolding sweep_interrupted
linked-swept now none xs = refl
linked-swept now (some n) [] = refl
linked-swept now (some n) ((k, x) ∷ xs) = ground (arith, linked-swept now (some n) xs)

closed-recovered :
    (c : Codec) (now : String) (o : Option Execution) (r : QueueRow)
    → closed c now (Option.map (sweep_one now) o) r ≡ recovered c now o r
unfolding set_requeued set_finished
closed-recovered c now none r = refl
closed-recovered c now (some x) r = rw (swept_state now x, swept_time now x x.finished_at refl) refl

closed_rows :
    (c : Codec) (now : String) (xs : Executions) (o : Option QueueRow)
    → Option.map
        (λ r.
          if is_running r.state
          then closed c now (linked (sweep_interrupted now xs) r.execution_number) r
          else r)
        o
      ≡ Option.map
          (λ r.
            if is_running r.state
            then recovered c now (execution_of r.execution_number xs) r
            else r)
          o
closed_rows c now xs none = refl
closed_rows c now xs (some r) =
    let same =
      ap (λ x. closed c now x r) (linked-swept now r.execution_number xs)
      ∙ closed-recovered c now (execution_of r.execution_number xs) r in
    ap (λ q. some (if is_running r.state then q else r)) same

recover_queue_rows :
    (c : Codec) (now : String) (xs : Executions) (t : Table) (j : ℕ)
    → IsWellFormed t
    → let (swept, t') = recover_queue c now xs t in
      get j t'
      ≡ Option.map
          (λ r. if is_running r.state then closed c now (linked swept r.execution_number) r else r)
          (get j t)
unfolding recover_queue list
recover_queue_rows c now xs t j w =
    let swept = sweep_interrupted now xs in
    let rs = select (λ r. is_running r.state) t.rows in
    let up = IsAscending-select (λ r. is_running r.state) 0 0 t.rows w.ascending in
    ap (λ x. get j (recover_all c now swept x t)) (ordered-ascending 0 0 rs up)
    ∙ recover_all-get c now swept 0 0 rs t j up
    ∙ ap (λ x. closed_by c now swept x (get j t))
        (find-select (λ r. is_running r.state) j 0 0 t.rows w.ascending)
    ∙ unfold get in recovered-cases c now swept (find_row j t.rows)

-- Recovery of a well-formed table changes each running entry, and no other: one without a link, or
-- whose execution is not stored, is back in the queue with no start and no link; one with an execution
-- is finished: succeeded, failed or parked as the execution, else interrupted; at the execution's finish,
-- or now where it has none or was still running; and with no error.
pub recover_queue_outcome :
    (c : Codec) (now : String) (xs : Executions) (t : Table) (j : ℕ)
    → IsWellFormed t
    → get j (recover_queue c now xs t).1
      ≡ Option.map
          (λ r.
            if is_running r.state
            then recovered c now (execution_of r.execution_number xs) r
            else r)
          (get j t)
unfolding recover_queue
recover_queue_outcome c now xs t j w =
    recover_queue_rows c now xs t j w ∙ closed_rows c now xs (get j t)
