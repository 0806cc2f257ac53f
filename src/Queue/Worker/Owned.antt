-- ===== src/Queue/Worker/Owned.antt =====
-- services/queue_worker.py: the running rows of the table, after each write of the table.
use draw_things_control.Prelude.{
  ℕ, String, Bool, true, false, ◌&&◌, ◌≡◌, refl, not, Option, none, some, List, [], ◌∷◌, arith, All,
  All-weaken, All-append, ◌==◌, ◌||◌, any, ==→≡, ==_refl,
}
use draw_things_control.Json.{Codec}
use draw_things_control.Queue.Events.{QueueState, is_finished}
use draw_things_control.Queue.Rows
use draw_things_control.Queue.Rows.{
  QueueRow, NewQueueEntry, Table, is_queued, is_running, update, set_running, set_finished,
  set_cancelled, set_requeued, new_row,
}
use draw_things_control.Queue.Rows.Lookup.{All-update_cases}
use draw_things_control.Queue.Worker.{is_entry}

abbrev pub among : ℕ → List ℕ → Bool
among n ns = any (λ k. k == n) ns

-- A row that is running is the claimed entry, which has not finished, or one of `lost`.
abbrev pub IsOwned : List ℕ → Option QueueRow → Bool → QueueRow → Type 0
IsOwned lost cur fin r =
    is_running r.state ≡ true → ((is_entry cur r.id && not fin) || among r.id lost) ≡ true

pub submit-IsOwned :
    (lost : List ℕ) (c : Codec) (new : NewQueueEntry) (cur : Option QueueRow) (fin : Bool)
    (t : Table)
    → All (IsOwned lost cur fin) t.rows
    → All (IsOwned lost cur fin) (Rows.submit c new t).1.rows
unfolding Rows.submit new_row
submit-IsOwned lost c new cur fin t o =
    All-append (IsOwned lost cur fin) t.rows (new_row c new t ∷ []) o (λ run. cc, tt)

cancelled-IsOwned :
    (lost : List ℕ) (c : Codec) (now : String) (cur : Option QueueRow) (fin : Bool) (r : QueueRow)
    → IsOwned lost cur fin r
    → IsOwned lost cur fin (set_cancelled c now r)
unfolding set_cancelled
cancelled-IsOwned lost c now cur fin r own = ground arith

pub cancel_queued-IsOwned :
    (lost : List ℕ) (c : Codec) (i : ℕ) (now : String) (cur : Option QueueRow) (fin : Bool)
    (t : Table)
    → All (IsOwned lost cur fin) t.rows
    → All (IsOwned lost cur fin) (Rows.cancel_queued c i now t).1.rows
unfolding Rows.cancel_queued
cancel_queued-IsOwned lost c i now cur fin t o =
    All-update_cases (IsOwned lost cur fin) (set_cancelled c now) i t.rows (
      All-weaken (IsOwned lost cur fin) _ t.rows
        (λ r own. (λ _. own, λ _. cancelled-IsOwned lost c now cur fin r own)) o)

pub link-IsOwned :
    (lost : List ℕ) (i n : ℕ) (cur : Option QueueRow) (fin : Bool) (t : Table)
    → All (IsOwned lost cur fin) t.rows
    → All (IsOwned lost cur fin) (Rows.link_execution i n t).rows
unfolding Rows.link_execution
link-IsOwned lost i n cur fin t o =
    All-update_cases (IsOwned lost cur fin) (λ r. record r { execution_number = some n }) i t.rows
      (All-weaken (IsOwned lost cur fin) _ t.rows (λ r own. (λ _. own, λ _. own)) o)

pub finish-IsOwned :
    (lost : List ℕ) (c : Codec) (i : ℕ) (state : QueueState) (at : String) (e : Option String)
    (clear : Bool) (cur : QueueRow) (fin : Bool) (t : Table)
    → cur.id ≡ i
    → is_finished state ≡ true
    → All (IsOwned lost (some cur) fin) t.rows
    → All (IsOwned lost (some cur) true) (Rows.finish c i state at e clear t).rows
unfolding Rows.finish set_finished
finish-IsOwned lost c i state at e clear cur fin t same ended o =
    All-update_cases (IsOwned lost (some cur) true) (set_finished c state at e clear) i t.rows (
      All-weaken (IsOwned lost (some cur) fin) _ t.rows
        (λ r own. (λ other run. ground (arith, own run, same), λ mine. λ run. ground arith)) o)

-- With no claimed entry no row is running, so the row that a claim marks is the only one.
pub claimed-IsOwned :
    (lost : List ℕ) (c : Codec) (now : String) (r : QueueRow) (fin : Bool) (t : Table)
    → All (IsOwned lost none fin) t.rows
    → All (IsOwned lost (some (set_running c now r)) false) (update (set_running c now) r.id t.rows)
unfolding set_running
claimed-IsOwned lost c now r fin t o =
    All-update_cases (IsOwned lost (some (set_running c now r)) false) (set_running c now) r.id
      t.rows
      (All-weaken (IsOwned lost none fin) _ t.rows
        (λ q own. (λ other run. ground (arith, own run), λ mine run. ground arith)) o)

pub put_back-IsOwned :
    (lost : List ℕ) (c : Codec) (now : String) (r : QueueRow) (fin : Bool) (t : Table)
    → All (IsOwned lost none fin) t.rows
    → All
        (IsOwned lost none fin)
        (update set_requeued r.id (update (set_running c now) r.id t.rows))
unfolding set_requeued set_running
put_back-IsOwned lost c now r fin t o =
    All-update_cases (IsOwned lost none fin) set_requeued r.id
      (update (set_running c now) r.id t.rows)
      (All-update_cases _ (set_running c now) r.id t.rows (
        All-weaken (IsOwned lost none fin) _ t.rows
          (λ q own. (
            λ _. (λ _. own, λ _ run. absurd (ground arith)),
            λ mine. (λ other. absurd (ground arith), λ _ run. absurd (ground arith)),
          ))
          o))

pub running_after_claim :
    (c : Codec) (now : String) (r : QueueRow) (t : Table)
    → All
        (λ q. (q.id == r.id) ≡ true → is_running q.state ≡ true)
        (update (set_running c now) r.id t.rows)
unfolding set_running
running_after_claim c now r t =
    All-update_cases (λ q. (q.id == r.id) ≡ true → is_running q.state ≡ true) (set_running c now)
      r.id t.rows (anything t.rows)
  where
    anything :
        (rows : List QueueRow)
        → All
            (λ q.
              ((q.id == r.id) ≡ false → (q.id == r.id) ≡ true → is_running q.state ≡ true)
              × ((q.id == r.id) ≡ true
                  → ((set_running c now q).id == r.id) ≡ true
                  → is_running (set_running c now q).state ≡ true))
            rows
    anything [] = tt
    anything (q ∷ rows) = ((λ no_ yes_. cc, λ _ _. refl), anything rows)

pub set_error-IsOwned :
    (lost : List ℕ) (i : ℕ) (e : String) (cur : Option QueueRow) (fin : Bool) (t : Table)
    → All (IsOwned lost cur fin) t.rows
    → All (IsOwned lost cur fin) (Rows.set_error i e t).rows
unfolding Rows.set_error
set_error-IsOwned lost i e cur fin t o =
    All-update_cases (IsOwned lost cur fin) (λ r. record r { error = some e }) i t.rows
      (All-weaken (IsOwned lost cur fin) _ t.rows (λ r own. (λ _. own, λ _. own)) o)

pub more_lost-IsOwned :
    (lost : List ℕ) (i : ℕ) (cur : Option QueueRow) (fin : Bool) (t : Table)
    → All (IsOwned lost cur fin) t.rows
    → All (IsOwned (i ∷ lost) cur fin) t.rows
more_lost-IsOwned lost i cur fin t o =
    All-weaken (IsOwned lost cur fin) (IsOwned (i ∷ lost) cur fin) t.rows
      (λ r own run. ground (arith, own run)) o

-- A claimed row that could not be put back.
pub unreturned-IsOwned :
    (lost : List ℕ) (c : Codec) (now : String) (r : QueueRow) (fin : Bool) (t : Table)
    → All (IsOwned lost none fin) t.rows
    → All (IsOwned (r.id ∷ lost) none fin) (update (set_running c now) r.id t.rows)
unfolding set_running
unreturned-IsOwned lost c now r fin t o =
    All-update_cases (IsOwned (r.id ∷ lost) none fin) (set_running c now) r.id t.rows (
      All-weaken (IsOwned lost none fin) _ t.rows
        (λ q own. (
          λ other run. ground (arith, own run),
          λ mine run. ground (arith, mine, ==→≡ q.id r.id, ==_refl q.id),
        ))
        o)

-- The claimed entry has finished, or is lost.
abbrev pub is_settled : List ℕ → Option QueueRow → Bool → Bool
is_settled lost none fin = true
is_settled lost (some q) fin = fin || among q.id lost

pub released-IsOwned :
    (lost : List ℕ) (cur : Option QueueRow) (fin : Bool) (t : Table)
    → is_settled lost cur fin ≡ true
    → All (IsOwned lost cur fin) t.rows
    → All (IsOwned lost none fin) t.rows
released-IsOwned lost none fin t settled o = o
released-IsOwned lost (some q) fin t settled o =
    All-weaken (IsOwned lost (some q) fin) (IsOwned lost none fin) t.rows
      (λ r own run. ground (arith, own run, settled, ==→≡ q.id r.id)) o
