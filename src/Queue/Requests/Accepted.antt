-- ===== src/Queue/Requests/Accepted.antt =====
-- services/queue_park.py and services/queue_cancel.py: requests that are accepted.
use draw_things_control.Prelude.{
  ℕ, String, true, false, ◌≡◌, refl, ap, ◌∙◌, sym, Option, none, some, arith, is_some, ==_refl, inl,
  inr,
}
use draw_things_control.Errors.{ok}
use draw_things_control.Json.{Codec}
use draw_things_control.Token
use draw_things_control.Queue.Rows
use draw_things_control.Queue.Rows.{QueueRow, Table, is_queued, set_cancelled}
use draw_things_control.Queue.Rows.Invariant.{IsWellFormed}
use draw_things_control.Queue.Rows.Claim.{cancel_queued_outcome, queued_of, cancelled_at}
use draw_things_control.Queue.Hold.Ownership.{hold-cases}
use draw_things_control.Queue.Worker.{
  Worker, is_entry, is_running, label, park_running, parking_entry_id, cancel_queued,
  cancel_running,
}
use draw_things_control.Queue.Requests.{Meanwhile, entry, park_entry, park_refusal, cancel_entry}

park_running-reserved :
    (c : Codec) (now : String) (i : ℕ) (name : String) (caller : Option String) (w : Worker)
    → let (r, w') = park_running c now i name caller w in
      r ≡ ok true
      → (w'.hold.memory.held ≡ true)
        × (is_some (parking_entry_id w') ≡ true)
        × (is_running i w' ≡ true)
        × (w'.stop_reason ≡ none)
unfolding park_running parking_entry_id is_running
park_running-reserved c now i name caller w = elim (hold-cases c now (some name) caller w.hold) [
  | inl (e, h) ↦ λ k. absurd (ground arith)
  | inr (b, h', h, held) ↦ λ k. (ground arith, ground arith, ground arith, ground arith)
]

-- A park request for the entry `r` that returns without an error, whatever other threads did since the
-- entry was read: the worker that it leaves has `r` as its running entry, with a reservation and no
-- stop asked for, and the queue is held.
pub accepted_park_stands :
    (c : Codec) (now shown : String) (i : ℕ) (caller : Option String) (m : Meanwhile) (w : Worker)
    (r : QueueRow)
    → Rows.get i w.table ≡ some r
    → let (answer, w') = park_entry c now shown i caller m w in
      answer ≡ ok tt
      → (w'.hold.memory.held ≡ true)
        × (is_some (parking_entry_id w') ≡ true)
        × (is_running r.id w' ≡ true)
        × (w'.stop_reason ≡ none)
unfolding park_entry entry park_refusal
accepted_park_stands c now shown i caller m w r e k =
    let accepted = park_running-reserved c now r.id (label r) caller (m.before_call w) in
    ground (arith, accepted)

cancel_running-reaches :
    (i : ℕ) (w : Worker)
    → let (found, w') = cancel_running i w in
      (found ≡ is_entry w'.current i)
      × (found ≡ true
          → (is_some w'.stop_reason ≡ true)
            × (w'.pending_cancel ≡ true)
            × (w'.token.running ≡ true → w'.token.signal ≡ some Token.sigterm))
unfolding cancel_running Token.cancel
cancel_running-reaches i w = ground arith

queued_some :
    (o : Option QueueRow)
    → queued_of o ≡ true
    → (q : QueueRow) × (o ≡ some q) × (is_queued q.state ≡ true)
queued_some none e = absurd (ground arith)
queued_some (some q) e = (q, refl, e)

row_cancelled :
    (c : Codec) (i : ℕ) (now : String) (t : Table)
    → IsWellFormed t
    → (Rows.cancel_queued c i now t).0 ≡ true
    → (q : QueueRow) × (Rows.get i t ≡ some q)
      × (is_queued q.state ≡ true)
      × (Rows.get i (Rows.cancel_queued c i now t).1 ≡ some (cancelled_at c now q))
row_cancelled c i now t w e =
    let (answer, rows) = cancel_queued_outcome c i now t w in
    let (q, found, queued) = queued_some (Rows.get i t) (sym answer ∙ e) in
    (q, found, queued, ground (arith, rows i, found, e, ==_refl i))

cancel_queued-row :
    (c : Codec) (i : ℕ) (name now : String) (w : Worker)
    → ((cancel_queued c i name now w).0 ≡ (Rows.cancel_queued c i now w.table).0)
      × ((cancel_queued c i name now w).1.table ≡ (Rows.cancel_queued c i now w.table).1)
unfolding cancel_queued
cancel_queued-row c i name now w = ground arith

-- The entry was cancelled before it ran: at the call its row was queued, and now it is that row,
-- cancelled at this time.
abbrev pub IsCancelled : Codec → String → ℕ → Worker → Worker → Type 0
IsCancelled c now i before w =
    (q : QueueRow) × (Rows.get i before.table ≡ some q)
    × (is_queued q.state ≡ true)
    × (Rows.get i w.table ≡ some (cancelled_at c now q))

-- A stop of the claimed entry was asked for, and the executor was told.
abbrev pub IsStopping : Worker → Type 0
IsStopping w =
    (is_some w.stop_reason ≡ true)
    × (w.pending_cancel ≡ true)
    × (w.token.running ≡ true → w.token.signal ≡ some Token.sigterm)

queued-IsCancelled :
    (c : Codec) (i : ℕ) (name now : String) (w : Worker)
    → IsWellFormed w.table
    → (cancel_queued c i name now w).0 ≡ true
    → IsCancelled c now i w (cancel_queued c i name now w).1
queued-IsCancelled c i name now w v e =
    let (answer, table) = cancel_queued-row c i name now w in
    let (q, found, queued, done) = row_cancelled c i now w.table v (sym answer ∙ e) in
    (q, found, queued, ap (Rows.get i) table ∙ done)

-- A cancel request for the entry `r` that returns without an error, whatever other threads did since
-- the entry was read, a claim of it included: an answer True means that its row was queued when
-- the worker was called, so that it was not running, and is now the same row, cancelled at this time; an
-- answer False means that, if it is the claimed entry, a stop is asked for it, and
-- the executor's token of a running job has SIGTERM. The table at the worker's call is well-formed.
pub cancel_entry_outcome :
    (c : Codec) (now shown : String) (i : ℕ) (caller : Option String) (m : Meanwhile) (w : Worker)
    (r : QueueRow)
    → Rows.get i w.table ≡ some r
    → IsWellFormed (m.before_call w).table
    → let (answer, w') = cancel_entry c now shown i caller m w in
      (answer ≡ ok true → IsCancelled c now r.id (m.before_call w) w')
      × (answer ≡ ok false → is_entry w'.current r.id ≡ true → IsStopping w')
unfolding cancel_entry entry
cancel_entry_outcome c now shown i caller m w r e v =
    let w' = m.before_call w in
    let done = queued-IsCancelled c r.id (label r) now w' v in
    let late =
      cancel_running-reaches r.id (m.after_call (cancel_queued c r.id (label r) now w').1) in
    let live = cancel_running-reaches r.id w' in (ground (arith, done), ground (arith, late, live))
