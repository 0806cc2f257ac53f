-- ===== src/Queue/Worker/Outcomes.antt =====
-- services/queue_worker.py: parks, unparks and stops of the running entry.
use draw_things_control.Prelude.{Option-cases, ==_refl}
use draw_things_control.Prelude.{
  ℕ, String, true, false, ◌≡◌, inl, inr, refl, ap, ◌∙◌, Option, none, some, arith, not, ◌||◌,
}
use draw_things_control.Errors.{ok}
use draw_things_control.Json.{Codec}
use draw_things_control.Token
use draw_things_control.Token.{sigterm}
use draw_things_control.Queue.Events.{QueueState}
use mathlib.Core.Option
use draw_things_control.Queue.Rows
use draw_things_control.Queue.Rows.{QueueRow}
use draw_things_control.Queue.Rows.Lookup.{find-update}
use draw_things_control.Queue.Callers.{is_agent}
use draw_things_control.Queue.Hold
use draw_things_control.Queue.Hold.{HoldState, not_held}
use draw_things_control.Queue.Hold.Ownership.{hold_unheld, unpark_of_own}
use draw_things_control.Queue.Worker.{
  Worker, StopReason, stop_cancel, stop_shutdown, is_running, park_running, unpark_running, enqueue,
  cancel_queued, cancel_running_locked, executor_cancel, stop_locked, hold, release,
}
use draw_things_control.Queue.Worker.Thread.{
  JobStatus, start_guard, final_state, finish_entry, fail_to_start, run_raised, release_entry, link,
}
use draw_things_control.Queue.Worker.Steps.{
  System, Act, enqueues, cancels_queued, cancels, stops, delivers, parks, unparks, holds, releases,
  disk, claims, begins, starts, attaches, checks_park, links, finishes, ends, raises, returns,
  reads_reason, claims_unreturned, claim_lost, finish_step, raise_step, lets_go, step, Reach, here,
  next,
}

-- What an accepted park leaves behind.
pub record Parked (w w' : Worker) : Type 0 where
  pub queue_held : w'.hold.memory.held ≡ true
  pub reserved : w'.park_pending ≡ true
  pub asked :
      w.park_pending ≡ false
      → w.job_started ≡ true
      → w.token.running ≡ true
      → w'.token.park_requested ≡ true
  pub not_before_start : w.job_started ≡ false → w'.token ≡ w.token
  pub no_stop : (w'.token.signal ≡ w.token.signal) × (w'.token.requests ≡ w.token.requests)
  pub same_job : (w'.current ≡ w.current) × (w'.stop_reason ≡ none) × (w'.table ≡ w.table)

-- The parts of a worker that an unpark goes by, after a park that the hold accepted.
park-unheld :
    (c : Codec) (now : String) (i : ℕ) (name : String) (caller : Option String) (w : Worker)
    (h : Hold.Hold)
    → is_running i w ≡ true
    → w.stop_reason ≡ none
    → Hold.hold c now (some name) caller w.hold ≡ (ok true, h)
    → w.token.park_taken ≡ false
    → let (r, w') = park_running c now i name caller w in
      (r ≡ ok true)
      × (is_running i w' ≡ true)
      × (w'.park_pending ≡ true)
      × (w'.hold.memory ≡ h.memory)
      × (w'.hold.settings ≡ h.settings)
      × (w'.token.park_taken ≡ false)
      × (w'.job_started ≡ w.job_started)
      × (w'.stop_reason ≡ none)
unfolding park_running is_running Token.park
park-unheld c now i name caller w h run stop e taken = ground arith

unpark-released :
    (i : ℕ) (name : String) (unparker : Option String) (w : Worker) (h : Hold.Hold)
    → is_running i w ≡ true
    → w.park_pending ≡ true
    → w.token.park_taken ≡ false
    → Hold.release_if_by name unparker w.hold ≡ (ok true, h)
    → let (r, w') = unpark_running i name unparker w in
      (r ≡ ok true)
      × (w'.hold.memory ≡ h.memory)
      × (w'.park_pending ≡ false)
      × (w.job_started ≡ true → (Token.take_park w'.token).0 ≡ false)
      × (w'.stop_reason ≡ w.stop_reason)
unfolding unpark_running Token.unpark Token.take_park is_running
unpark-released i name unparker w h run pending taken e = ground arith

-- A park on a queue that is not held, of an entry without a reservation, and then an unpark by a
-- caller that may end the park's hold, before a run boundary took the park: both answer True, and the
-- queue is not held, the entry has no reservation, no run boundary of the started job parks it, and no
-- stop is asked for it.
pub unpark-park :
    (c : Codec) (now : String) (i : ℕ) (name : String) (caller unparker : Option String)
    (w : Worker)
    → is_running i w ≡ true
    → w.stop_reason ≡ none
    → w.park_pending ≡ false
    → w.hold.memory.held ≡ false
    → w.hold.settings.writable ≡ true
    → w.token.park_taken ≡ false
    → (not (is_agent unparker) || is_agent caller) ≡ true
    → let (r, w') = park_running c now i name caller w in
      let (r', w'') = unpark_running i name unparker w' in
      (r ≡ ok true)
      × (r' ≡ ok true)
      × (w''.hold.memory ≡ not_held)
      × (w''.park_pending ≡ false)
      × (w.job_started ≡ true → (Token.take_park w''.token).0 ≡ false)
      × (w''.stop_reason ≡ none)
unpark-park c now i name caller unparker w run stop pending free writes taken may =
    let (h, e, m, writes') = hold_unheld c now (some name) caller w.hold free writes in
    let (ok1, run', pending', m', set', taken', started, stop') =
      park-unheld c now i name caller w h run stop e taken in
    let w' = (park_running c now i name caller w).1 in
    let (h', e', gone) =
      unpark_of_own name unparker w'.hold (ap (λ x. x.held) (m' ∙ m)) (ap (λ x. x.by) (m' ∙ m))
        (ground (arith, m' ∙ m)) (ap (λ x. x.writable) set' ∙ writes') in
    let (ok2, m'', pending'', quiet, same) =
      unpark-released i name unparker w' h' run' pending' taken' e' in
    (ok1, ok2, m'' ∙ gone, pending'', λ b. quiet (started ∙ b), same ∙ stop')

abbrev IsNoClaim : Act → Type 0
IsNoClaim (claims now) = ⊥
IsNoClaim _ = Unit

-- A path without a claim.
abbrev NoClaim : {c : Codec} {s t : System} → Reach c s t → Type 0
NoClaim here = Unit
NoClaim (next a p l) = IsNoClaim a × NoClaim p

step_reason :
    (c : Codec) (a : Act) (s : System) (x : StopReason)
    → IsNoClaim a
    → s.worker.stop_reason ≡ some x
    → (step c a s).worker.stop_reason ≡ some x
unfolding step
step_reason c (enqueues new) s x n e = unfold enqueue in ground arith
step_reason c (cancels_queued i name now) s x n e = unfold cancel_queued in ground arith
step_reason c (cancels i) s x n e = unfold cancel_running_locked in ground arith
step_reason c stops s x n e = unfold stop_locked in ground arith
step_reason c delivers s x n e = unfold executor_cancel in ground arith
step_reason c (parks now i name caller) s x n e = unfold park_running in ground arith
step_reason c (unparks i name caller) s x n e = unfold unpark_running in ground arith
step_reason c (holds now caller) s x n e = unfold hold in ground arith
step_reason c (releases caller) s x n e = unfold release in ground arith
step_reason c (disk b) s x n e = ground arith
step_reason c (claims now) s x n e = absurd n
step_reason c begins s x n e = ground arith
step_reason c starts s x n e = unfold start_guard in ground arith
step_reason c (attaches r) s x n e = ground arith
step_reason c checks_park s x n e = ground arith
step_reason c (links r k) s x n e = unfold link in ground arith
step_reason c (claims_unreturned now) s x n e =
    elim (Option-cases (Rows.claim_oldest c now s.worker.table).0) [
      | inl e' ↦ unfold claim_lost in ground (arith, e')
      | inr (r, e') ↦ unfold claim_lost in ground (arith, e')
    ]
step_reason c (reads_reason status) s x n e = ground arith
step_reason c (finishes r at true) s x n e = unfold finish_step finish_entry in ground arith
step_reason c (finishes r at false) s x n e = unfold finish_step in ground arith
step_reason c ends s x n e = ground arith
step_reason c (raises r now error true) s x n e =
    unfold raise_step run_raised fail_to_start in ground arith
step_reason c (raises r now error false) s x n e = unfold raise_step in ground arith
step_reason c returns s x n e = ground arith
step_reason c lets_go s x n e = unfold release_entry in ground arith

Reach-reason :
    {c : Codec} {s t : System} (x : StopReason) (p : Reach c s t)
    → NoClaim p
    → s.worker.stop_reason ≡ some x
    → t.worker.stop_reason ≡ some x
Reach-reason x here n e = e
Reach-reason {c} x (next {t} a p l) n e = step_reason c a t x n.0 (Reach-reason x p n.1 e)

abbrev pub stopped_state : StopReason → QueueState
stopped_state stop_cancel = QueueState.cancelled
stopped_state stop_shutdown = QueueState.interrupted

final_state_stopped :
    (x : StopReason) → final_state JobStatus.interrupted (some x) ≡ stopped_state x
unfolding final_state
final_state_stopped stop_cancel = refl
final_state_stopped stop_shutdown = refl

-- The row of an entry that a stopped job ended.
abbrev pub stopped_row : Codec → StopReason → String → QueueRow → QueueRow
stopped_row c x at r = record r {
  state = stopped_state x;
  finished_at = some at;
  finished_epoch = some (c.timestamp at);
  error = none;
}

finished-stopped :
    (c : Codec) (x : StopReason) (r : QueueRow) (at : String) (s : System)
    → s.worker.stop_reason ≡ some x
    → Rows.get r.id
        (step c (finishes r at true) (step c (reads_reason JobStatus.interrupted) s)).worker.table
      ≡ Option.map (stopped_row c x at) (Rows.get r.id s.worker.table)
unfolding step finish_step finish_entry Rows.finish Rows.get Rows.set_finished
finished-stopped c x r at s e =
    let state = final_state JobStatus.interrupted s.worker.stop_reason in
    find-update (Rows.set_finished c state at none false) r.id r.id s.worker.table.rows (λ q. refl)
    ∙ rw (==_refl r.id, e, final_state_stopped x) refl

-- The first stop of a claimed entry decides: once one is asked for with a reason, then after any steps
-- of any thread up to the next claim, further cancels and the server's stop included, the reason is the
-- same, and a job that then ends interrupted is recorded in the table as that reason says, where the
-- write is accepted: cancelled for a cancel, interrupted for a shutdown, with the time of its end.
pub first_stop_decides :
    {c : Codec} {s t : System} (x : StopReason) (r : QueueRow) (at : String) (p : Reach c s t)
    → NoClaim p
    → s.worker.stop_reason ≡ some x
    → (t.worker.stop_reason ≡ some x)
      × (Rows.get r.id
            (step c
              (finishes r at true)
              (step c (reads_reason JobStatus.interrupted) t)).worker.table
          ≡ Option.map (stopped_row c x at) (Rows.get r.id t.worker.table))
first_stop_decides {c} {s} {t} x r at p n e =
    let same = Reach-reason x p n e in (same, finished-stopped c x r at t same)
