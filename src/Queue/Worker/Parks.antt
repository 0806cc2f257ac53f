-- ===== src/Queue/Worker/Parks.antt =====
-- services/queue_worker.py: the worker's park reservation and the executor's park.
use draw_things_control.Prelude.{true, false, ◌≡◌, some, arith, is_some, Option-cases, inl, inr}
use draw_things_control.Json.{Codec}
use draw_things_control.Settings.{Settings}
use draw_things_control.Token
use draw_things_control.Token.{Token}
use draw_things_control.Queue.Rows
use draw_things_control.Queue.Rows.{QueueRow, Table}
use draw_things_control.Queue.Worker.{
  Worker, enqueue, cancel_queued, cancel_running_locked, executor_cancel, stop_locked, park_running,
  unpark_running, hold, release, parking_entry_id,
}
use draw_things_control.Queue.Worker.Thread.{
  claim, start_guard, finish_entry, fail_to_start, run_raised, release_entry, link,
}
use draw_things_control.Queue.Worker.Steps.{
  System, Act, enqueues, cancels_queued, cancels, stops, delivers, parks, unparks, holds, releases,
  disk, claims, begins, starts, attaches, checks_park, links, finishes, ends, raises, returns,
  reads_reason, claims_unreturned, claim_lost, finish_step, raise_step, lets_go, step, IsAllowed,
  Reach, here, next, new_worker, new_system,
}

-- While a job runs: from `JobStarted` on, the executor's park is the reservation; before it, the
-- executor has none; and a park that took effect was asked for.
pub record ParkInv (w : Worker) : Type 0 where
  pub started :
      w.token.running ≡ true → w.job_started ≡ true → w.token.park_requested ≡ w.park_pending
  pub waiting : w.token.running ≡ true → w.job_started ≡ false → w.token.park_requested ≡ false
  pub taken : w.token.running ≡ true → w.token.park_taken ≡ true → w.token.park_requested ≡ true

step-ParkInv :
    (c : Codec) (a : Act) (s : System)
    → IsAllowed a s
    → ParkInv s.worker
    → ParkInv (step c a s).worker
unfolding step
step-ParkInv c (enqueues new) s l v = unfold enqueue in ground arith
step-ParkInv c (cancels_queued i name now) s l v = unfold cancel_queued in ground arith
step-ParkInv c (cancels i) s l v = unfold cancel_running_locked in ground arith
step-ParkInv c stops s l v = unfold stop_locked in ground arith
step-ParkInv c delivers s l v = unfold executor_cancel Token.cancel in ground arith
step-ParkInv c (parks now i name caller) s l v = unfold park_running Token.park in ground arith
step-ParkInv c (unparks i name caller) s l v = unfold unpark_running Token.unpark in ground arith
step-ParkInv c (holds now caller) s l v = unfold hold in ground arith
step-ParkInv c (releases caller) s l v = unfold release in ground arith
step-ParkInv c (disk b) s l v = ground arith
step-ParkInv c (claims now) s l v = unfold claim in ground arith
step-ParkInv c begins s l v = unfold Token.begin in ground arith
step-ParkInv c starts s l v = unfold start_guard Token.park in ground arith
step-ParkInv c (attaches r) s l v = unfold Token.attach in ground arith
step-ParkInv c checks_park s l v = unfold Token.take_park in ground arith
step-ParkInv c (links r n) s l v = unfold link in ground arith
step-ParkInv c (claims_unreturned now) s l v =
    elim (Option-cases (Rows.claim_oldest c now s.worker.table).0) [
      | inl e ↦ unfold claim_lost in ground (arith, e)
      | inr (r, e) ↦ unfold claim_lost in ground (arith, e)
    ]
step-ParkInv c (reads_reason status) s l v = ground arith
step-ParkInv c (finishes r at true) s l v = unfold finish_step finish_entry in ground arith
step-ParkInv c (finishes r at false) s l v = unfold finish_step in ground arith
step-ParkInv c ends s l v = unfold Token.end in ground arith
step-ParkInv c (raises r now error true) s l v =
    unfold raise_step run_raised fail_to_start in ground arith
step-ParkInv c (raises r now error false) s l v = unfold raise_step in ground arith
step-ParkInv c returns s l v = ground arith
step-ParkInv c lets_go s l v = unfold release_entry in ground arith

Reach-ParkInv : {c : Codec} {s t : System} → ParkInv s.worker → Reach c s t → ParkInv t.worker
Reach-ParkInv v here = v
Reach-ParkInv {c} v (next {t} a p l) = step-ParkInv c a t l (Reach-ParkInv v p)

new-ParkInv : (c : Codec) (t : Table) (settings : Settings) → ParkInv (new_worker c t settings)
unfolding new_worker
new-ParkInv c t settings = ground arith

boundary :
    (w : Worker) (r : QueueRow)
    → ParkInv w
    → w.token.running ≡ true
    → w.job_started ≡ true
    → w.job_finished ≡ false
    → w.current ≡ some r
    → (Token.take_park w.token).0 ≡ is_some (parking_entry_id w)
unfolding Token.take_park parking_entry_id
boundary w r v running started finished e = ground arith

-- In every state that the worker reaches from its start, by any interleaving of claims, job starts,
-- parks, unparks, holds, releases, cancels and stops: while a started job runs and has not finished,
-- the executor's park check at a run boundary answers True exactly when the entry reads as parking.
pub boundary_takes_reservation :
    (c : Codec) (t : Table) (settings : Settings) (s : System) (r : QueueRow)
    → Reach c (new_system c t settings) s
    → s.worker.token.running ≡ true
    → s.worker.job_started ≡ true
    → s.worker.job_finished ≡ false
    → s.worker.current ≡ some r
    → (Token.take_park s.worker.token).0 ≡ is_some (parking_entry_id s.worker)
boundary_takes_reservation c t settings s r p =
    boundary s.worker r (Reach-ParkInv (new-ParkInv c t settings) p)
