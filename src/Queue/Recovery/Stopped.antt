-- ===== src/Queue/Recovery/Stopped.antt =====
-- services/queue_recovery.py: the rows that are running.
use draw_things_control.Prelude.{
  String, true, false, ◌≡◌, refl, Option, none, some, List, [], ◌∷◌, arith, any, ◌==◌, ==_refl, All,
  All-weaken,
}
use draw_things_control.Json.{Codec}
use draw_things_control.Queue.Rows.{
  QueueRow, Table, is_running, select, ordered, update, list, set_requeued, set_finished, requeue,
  finish,
}
use draw_things_control.Queue.Rows.Lookup.{All-update_cases, All-ordered, All-of-select}
use draw_things_control.Queue.Worker.Single.{NoneRunning}
use draw_things_control.Queue.Recovery.{
  Execution, Executions, linked, state_of_execution, finish_time, recover_entry, recover_all,
  recover_queue, sweep_interrupted,
}

-- A row that is running is one of those still to recover.
Listed : List QueueRow → QueueRow → Type 0
Listed rs q = is_running q.state ≡ true → any (λ (r : QueueRow). r.id == q.id) rs ≡ true

Listed-of_other :
    (r : QueueRow) (rs : List QueueRow) (q : QueueRow)
    → Listed (r ∷ rs) q
    → (q.id == r.id) ≡ false
    → Listed rs q
unfolding Listed
Listed-of_other r rs q h other run = ground (arith, h run)

update-Listed :
    (f : QueueRow → QueueRow) (r : QueueRow) (rs rows : List QueueRow)
    → ((q : QueueRow) → is_running (f q).state ≡ false)
    → All (Listed (r ∷ rs)) rows
    → All (Listed rs) (update f r.id rows)
unfolding Listed
update-Listed f r rs rows stopped h = All-update_cases (Listed rs) f r.id rows (
    All-weaken (Listed (r ∷ rs)) _ rows
      (λ q k.
        (λ other. Listed-of_other r rs q k other, λ mine run. absurd (ground (arith, stopped q))))
      h)

state_of_execution_finished : (status : String) → is_running (state_of_execution status) ≡ false
state_of_execution_finished status = ground arith

step-Listed :
    (c : Codec) (now : String) (xs : Executions) (r : QueueRow) (rs : List QueueRow) (t : Table)
    → All (Listed (r ∷ rs)) t.rows
    → All (Listed rs) (recover_entry c now xs r t).rows
unfolding recover_entry requeue finish
step-Listed c now xs r rs t h = go (linked xs r.execution_number)
  where
    go :
        (o : Option Execution)
        → All
            (Listed rs)
            (elim o as (λ _. Table) [
              | none ↦ requeue r.id t
              | some x ↦
                  finish c r.id
                    (state_of_execution x.status)
                    (finish_time now x.finished_at)
                    none
                    false
                    t
            ]).rows
    go none = update-Listed set_requeued r rs t.rows (λ q. unfold set_requeued in refl) h
    go (some x) =
        update-Listed _ r rs t.rows
          (λ q. unfold set_finished in state_of_execution_finished x.status) h

recover_all-Listed :
    (c : Codec) (now : String) (xs : Executions) (rs : List QueueRow) (t : Table)
    → All (Listed rs) t.rows
    → All (Listed []) (recover_all c now xs rs t).rows
unfolding recover_all
recover_all-Listed c now xs [] t h = h
recover_all-Listed c now xs (r ∷ rs) t h =
    recover_all-Listed c now xs rs (recover_entry c now xs r t) (step-Listed c now xs r rs t h)

-- Each row of a list is found in the list by its id.
self_listed : (rs : List QueueRow) → All (λ q. any (λ (r : QueueRow). r.id == q.id) rs ≡ true) rs
self_listed [] = tt
self_listed (r ∷ rs) =
    (ground (arith, ==_refl r.id), All-weaken _ _ rs (λ q h. ground (arith, h)) (self_listed rs))

list-Listed : (t : Table) → All (Listed (list is_running t)) t.rows
unfolding Listed list
list-Listed t =
    let running = select (λ r. is_running r.state) t.rows in
    let rs = ordered running in
    All-of-select (λ q. any (λ (r : QueueRow). r.id == q.id) rs ≡ true) (λ r. is_running r.state)
      t.rows ((All-ordered _ running).1 (self_listed rs))

-- Whatever a crash left in the tables, once recovery is done no entry is running.
pub recover_queue-NoneRunning :
    (c : Codec) (now : String) (xs : Executions) (t : Table)
    → NoneRunning (recover_queue c now xs t).1
unfolding recover_queue Listed
recover_queue-NoneRunning c now xs t =
    let swept = sweep_interrupted now xs in
    let rs = list is_running t in
    All-weaken (Listed []) (λ r. is_running r.state ≡ false) (recover_all c now swept rs t).rows
      (λ q h. ground (arith, h)) (recover_all-Listed c now swept rs t (list-Listed t))
