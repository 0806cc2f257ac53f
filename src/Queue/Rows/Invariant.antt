-- ===== src/Queue/Rows/Invariant.antt =====
-- state/queue.py: what holds of the table between two transactions.
use draw_things_control.Prelude.{
  ℕ, ◌≤◌, String, Bool, true, false, ◌≡◌, refl, sym, ap, ◌∙◌, not, Option, some, List, [], ◌∷◌,
  arith, ◌==◌, ==→≡, All, All-weaken, All-both, All-append, is_some, Option-cases, inl, inr,
}
use draw_things_control.Json.{Codec}
use draw_things_control.Queue.Events.{QueueState, is_finished}
use draw_things_control.Queue.Rows.{
  QueueRow, NewQueueEntry, Table, is_queued, is_running, select, update, find_row, ordered,
  first_of_rows, new_row, submit, set_running, claim_oldest, link_execution, set_finished, finish,
  set_error, set_cancelled, cancel_queued, set_requeued, requeue, is_pruned, prune, get,
}
use draw_things_control.Queue.Rows.Lookup.{KeepsId, All-update, All-select, All-first}
use draw_things_control.Queue.Rows.Ascending.{
  IsAscending, IsAscending-update, IsAscending-select, IsAscending-snoc, find_self,
}

-- A row has finished exactly when it has the time it finished at.
pub record IsConsistent (t : Table) (r : QueueRow) : Type 0 where
  pub id_given : r.id ≤ t.last_id
  pub number_given : r.queue_number ≤ t.counter
  pub dated : is_some r.finished_epoch ≡ is_finished r.state

pub record IsWellFormed (t : Table) : Type 0 where
  pub ascending : IsAscending 0 0 t.rows
  pub consistent : All (IsConsistent t) t.rows

pub data Op : Type 0 where
  submits : NewQueueEntry → Op
  claims : String → Op
  links : ℕ → ℕ → Op
  finishes : ℕ → QueueState → String → Option String → Bool → Op
  sets_error : ℕ → String → Op
  cancels : ℕ → String → Op
  requeues : ℕ → Op
  prunes : ℕ → List ℕ → Op

unfoldable pub step : Codec → Op → Table → Table
step c (submits new) t = (submit c new t).1
step c (claims now) t = (claim_oldest c now t).1
step c (links i n) t = link_execution i n t
step c (finishes i state at e clear) t = finish c i state at e clear t
step c (sets_error i e) t = set_error i e t
step c (cancels i now) t = (cancel_queued c i now t).1
step c (requeues i) t = requeue i t
step c (prunes cutoff keep) t = (prune cutoff keep t).1

-- How the worker and the recovery use the table: an entry is finished with a finished state, and only
-- a running one is put back.
abbrev pub IsLegal : Op → Table → Type 0
IsLegal (finishes i state at e clear) t = is_finished state ≡ true
IsLegal (requeues i) t = All (λ r. (r.id == i) ≡ true → is_running r.state ≡ true) t.rows
IsLegal _ t = Unit

-- A change of the rows with id `k`, in a well-formed table, by a function that keeps ids, numbers and
-- the date rule.
update-IsWellFormed :
    (f : QueueRow → QueueRow) (k : ℕ) (t : Table)
    → KeepsId f
    → ((r : QueueRow) → (f r).queue_number ≡ r.queue_number)
    → All (λ r. (r.id == k) ≡ true → is_some (f r).finished_epoch ≡ is_finished (f r).state) t.rows
    → IsWellFormed t
    → IsWellFormed (record t { rows = update f k t.rows })
update-IsWellFormed f k t p q d w = record {
  ascending = IsAscending-update f k 0 0 t.rows p q w.ascending;
  consistent =
      All-update (IsConsistent _) f k t.rows
        (All-weaken (IsConsistent t) (IsConsistent _) t.rows
          (λ r c. record { id_given = c.id_given; number_given = c.number_given; dated = c.dated })
          w.consistent)
        (All-weaken
          (λ r.
            IsConsistent t r
            × ((r.id == k) ≡ true → is_some (f r).finished_epoch ≡ is_finished (f r).state))
          (λ r. (r.id == k) ≡ true → IsConsistent _ (f r)) t.rows
          (λ r h e. record {
            id_given = omega (arith, p r, h.0.id_given);
            number_given = omega (arith, q r, h.0.number_given);
            dated = h.1 e;
          })
          (All-both _ _ t.rows w.consistent d));
}

-- The row that a claim takes is the only one with its id, and it is queued.
pub claimed_only :
    (t : Table) (r : QueueRow)
    → IsWellFormed t
    → first_of_rows (ordered (select (λ x. is_queued x.state) t.rows)) ≡ some r
    → (is_queued r.state ≡ true)
      × (get r.id t ≡ some r)
      × All (λ q. (q.id == r.id) ≡ true → q ≡ r) t.rows
unfolding get
claimed_only t r w e =
    let facts =
      All-first (λ x. (find_row x.id t.rows ≡ some x) × (is_queued x.state ≡ true))
        (select (λ x. is_queued x.state) t.rows) r
        (All-select (λ x. find_row x.id t.rows ≡ some x) (λ x. is_queued x.state) t.rows
          (find_self 0 0 t.rows w.ascending))
        e in
    (
      facts.1,
      facts.0,
      All-weaken (λ q. find_row q.id t.rows ≡ some q) (λ q. (q.id == r.id) ≡ true → q ≡ r) t.rows
          (λ q h same.
            let found : find_row q.id t.rows ≡ find_row r.id t.rows =
              ap (λ i. find_row i t.rows) (==→≡ q.id r.id same) in
            cc (h, found, facts.0))
          (find_self 0 0 t.rows w.ascending),
    )

pub submit-IsWellFormed :
    (c : Codec) (new : NewQueueEntry) (t : Table) → IsWellFormed t → IsWellFormed (submit c new t).1
unfolding submit new_row
submit-IsWellFormed c new t w = record {
  ascending =
      IsAscending-snoc 0 0 t.rows (new_row c new t) w.ascending (omega arith) (omega arith) (
        All-weaken (IsConsistent t) _ t.rows
          (λ r k. (omega (arith, k.id_given), omega (arith, k.number_given))) w.consistent);
  consistent =
      All-append (IsConsistent _) t.rows (new_row c new t ∷ [])
        (All-weaken (IsConsistent t) (IsConsistent _) t.rows
          (λ r k. record {
            id_given = omega (arith, k.id_given);
            number_given = omega (arith, k.number_given);
            dated = k.dated;
          })
          w.consistent)
        (record { id_given = omega arith; number_given = omega arith; dated = refl }, tt);
}

queued_undated :
    (q : QueueRow)
    → is_some q.finished_epoch ≡ is_finished q.state
    → is_queued q.state ≡ true
    → is_some q.finished_epoch ≡ false
queued_undated q d e = ground arith

running_undated :
    (q : QueueRow)
    → is_some q.finished_epoch ≡ is_finished q.state
    → is_running q.state ≡ true
    → is_some q.finished_epoch ≡ false
running_undated q d e = ground arith

pub claim_oldest-IsWellFormed :
    (c : Codec) (now : String) (t : Table) → IsWellFormed t → IsWellFormed (claim_oldest c now t).1
unfolding claim_oldest set_running
claim_oldest-IsWellFormed c now t w =
    elim (Option-cases (first_of_rows (ordered (select (λ r. is_queued r.state) t.rows)))) [
      | inl e ↦ rw (e, claim_oldest) w
      | inr (r, e) ↦
          let only = claimed_only t r w e in
          rw (e, claim_oldest)
            (update-IsWellFormed (set_running c now) r.id t (λ q. refl) (λ q. refl)
              (All-weaken (λ q. IsConsistent t q × ((q.id == r.id) ≡ true → q ≡ r))
                (λ q.
                  (q.id == r.id) ≡ true
                  → is_some (set_running c now q).finished_epoch
                    ≡ is_finished (set_running c now q).state)
                t.rows
                (λ q h same.
                  queued_undated q h.0.dated (ap (λ x. is_queued x.state) (h.1 same) ∙ only.0))
                (All-both _ _ t.rows w.consistent only.2))
              w)
    ]

pub link_execution-IsWellFormed :
    (i n : ℕ) (t : Table) → IsWellFormed t → IsWellFormed (link_execution i n t)
unfolding link_execution
link_execution-IsWellFormed i n t w =
    update-IsWellFormed (λ r. record r { execution_number = some n }) i t (λ r. refl) (λ r. refl)
      (All-weaken (IsConsistent t) _ t.rows (λ r k _. k.dated) w.consistent) w

pub set_error-IsWellFormed :
    (i : ℕ) (e : String) (t : Table) → IsWellFormed t → IsWellFormed (set_error i e t)
unfolding set_error
set_error-IsWellFormed i e t w =
    update-IsWellFormed (λ r. record r { error = some e }) i t (λ r. refl) (λ r. refl)
      (All-weaken (IsConsistent t) _ t.rows (λ r k _. k.dated) w.consistent) w

pub finish-IsWellFormed :
    (c : Codec) (i : ℕ) (state : QueueState) (at : String) (e : Option String) (clear : Bool)
    (t : Table)
    → is_finished state ≡ true
    → IsWellFormed t
    → IsWellFormed (finish c i state at e clear t)
unfolding finish set_finished
finish-IsWellFormed c i state at e clear t f w =
    update-IsWellFormed (set_finished c state at e clear) i t (λ r. refl) (λ r. refl)
      (All-weaken (IsConsistent t) _ t.rows (λ r k _. sym f) w.consistent) w

set_cancelled_facts :
    (c : Codec) (now : String) (r : QueueRow)
    → ((set_cancelled c now r).id ≡ r.id)
      × ((set_cancelled c now r).queue_number ≡ r.queue_number)
      × (is_some r.finished_epoch ≡ is_finished r.state
          → is_some (set_cancelled c now r).finished_epoch
            ≡ is_finished (set_cancelled c now r).state)
unfolding set_cancelled
set_cancelled_facts c now r = (ground arith, ground arith, ground arith)

pub cancel_queued-IsWellFormed :
    (c : Codec) (i : ℕ) (now : String) (t : Table)
    → IsWellFormed t
    → IsWellFormed (cancel_queued c i now t).1
unfolding cancel_queued
cancel_queued-IsWellFormed c i now t w =
    let facts = set_cancelled_facts c now in
    update-IsWellFormed (set_cancelled c now) i t (λ r. (facts r).0) (λ r. (facts r).1)
      (All-weaken (IsConsistent t) _ t.rows (λ r k _. (facts r).2 k.dated) w.consistent) w

pub requeue-IsWellFormed :
    (i : ℕ) (t : Table)
    → All (λ r. (r.id == i) ≡ true → is_running r.state ≡ true) t.rows
    → IsWellFormed t
    → IsWellFormed (requeue i t)
unfolding requeue set_requeued
requeue-IsWellFormed i t legal w =
    update-IsWellFormed set_requeued i t (λ r. refl) (λ r. refl)
      (All-weaken (λ r. IsConsistent t r × ((r.id == i) ≡ true → is_running r.state ≡ true))
        (λ r.
          (r.id == i) ≡ true
          → is_some (set_requeued r).finished_epoch ≡ is_finished (set_requeued r).state)
        t.rows (λ r h same. running_undated r h.0.dated (h.1 same))
        (All-both _ _ t.rows w.consistent legal))
      w

prune-IsWellFormed :
    (cutoff : ℕ) (keep : List ℕ) (t : Table) → IsWellFormed t → IsWellFormed (prune cutoff keep t).1
unfolding prune
prune-IsWellFormed cutoff keep t w =
    let kept = λ (r : QueueRow). not (is_pruned cutoff keep r) in
    record {
      ascending = IsAscending-select kept 0 0 t.rows w.ascending;
      consistent =
          All-weaken _ (IsConsistent _) (select kept t.rows)
            (λ r h. record {
              id_given = h.0.id_given;
              number_given = h.0.number_given;
              dated = h.0.dated;
            })
            (All-select (IsConsistent t) kept t.rows w.consistent);
    }

-- Every method that writes the table keeps it well-formed: ids and queue numbers grow along the rows
-- and were given by their counters, and a row has a finish time exactly when its state is a finished
-- one. An entry is only finished with a finished state, and only running entries are put back.
pub step-IsWellFormed :
    (c : Codec) (op : Op) (t : Table) → IsLegal op t → IsWellFormed t → IsWellFormed (step c op t)
unfolding step
step-IsWellFormed c (submits new) t l w = submit-IsWellFormed c new t w
step-IsWellFormed c (claims now) t l w = claim_oldest-IsWellFormed c now t w
step-IsWellFormed c (links i n) t l w = link_execution-IsWellFormed i n t w
step-IsWellFormed c (finishes i state at e clear) t l w =
    finish-IsWellFormed c i state at e clear t l w
step-IsWellFormed c (sets_error i e) t l w = set_error-IsWellFormed i e t w
step-IsWellFormed c (cancels i now) t l w = cancel_queued-IsWellFormed c i now t w
step-IsWellFormed c (requeues i) t l w = requeue-IsWellFormed i t l w
step-IsWellFormed c (prunes cutoff keep) t l w = prune-IsWellFormed cutoff keep t w
