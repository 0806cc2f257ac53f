-- ===== src/Queue/Worker/Cancels.antt =====
-- services/queue_worker.py: the stops that the worker accepts and the token's signal.
use draw_things_control.Prelude.{true, false, ◌≡◌, sym, ◌∙◌, arith, is_some, Option-cases, inl, inr}
use draw_things_control.Json.{Codec}
use draw_things_control.Settings.{Settings}
use draw_things_control.Token
use draw_things_control.Token.{sigterm}
use draw_things_control.Queue.Rows
use draw_things_control.Queue.Rows.{Table}
use draw_things_control.Queue.Worker.{
  enqueue, cancel_queued, cancel_running_locked, executor_cancel, stop_locked, park_running,
  unpark_running, hold, release,
}
use draw_things_control.Queue.Worker.Thread.{
  claim, start_guard, finish_entry, fail_to_start, run_raised, release_entry, link,
}
use draw_things_control.Queue.Worker.Steps.{
  System, Act, enqueues, cancels_queued, cancels, stops, delivers, parks, unparks, holds, releases,
  disk, claims, begins, starts, attaches, checks_park, links, finishes, ends, raises, returns,
  reads_reason, claims_unreturned, claim_lost, finish_step, raise_step, lets_go, step, IsAllowed,
  Reach, here, next, new_worker, new_system,
}

-- A stop has a reason exactly when it is pending; and once the job has started, a pending stop was
-- delivered, or its delivery is on its way.
pub record CancelInv (s : System) : Type 0 where
  pub reasoned : is_some s.worker.stop_reason ≡ s.worker.pending_cancel
  pub delivered :
      s.worker.token.running ≡ true
      → s.worker.job_started ≡ true
      → s.worker.pending_cancel ≡ true
      → s.in_flight ≡ 0
      → is_some s.worker.token.signal ≡ true

step-CancelInv :
    (c : Codec) (a : Act) (s : System) → IsAllowed a s → CancelInv s → CancelInv (step c a s)
unfolding step
step-CancelInv c (enqueues new) s l v = unfold enqueue in ground arith
step-CancelInv c (cancels_queued i name now) s l v = unfold cancel_queued in ground arith
step-CancelInv c (cancels i) s l v = unfold cancel_running_locked in ground arith
step-CancelInv c stops s l v = unfold stop_locked in ground arith
step-CancelInv c delivers s l v = unfold executor_cancel Token.cancel in ground arith
step-CancelInv c (parks now i name caller) s l v = unfold park_running Token.park in ground arith
step-CancelInv c (unparks i name caller) s l v = unfold unpark_running Token.unpark in ground arith
step-CancelInv c (holds now caller) s l v = unfold hold in ground arith
step-CancelInv c (releases caller) s l v = unfold release in ground arith
step-CancelInv c (disk b) s l v = ground arith
step-CancelInv c (claims now) s l v = unfold claim in ground arith
step-CancelInv c begins s l v = unfold Token.begin in ground arith
step-CancelInv c starts s l v = unfold start_guard Token.park in ground arith
step-CancelInv c (attaches r) s l v = unfold Token.attach in ground arith
step-CancelInv c checks_park s l v = unfold Token.take_park in ground arith
step-CancelInv c (links r n) s l v = unfold link in ground arith
step-CancelInv c (claims_unreturned now) s l v =
    elim (Option-cases (Rows.claim_oldest c now s.worker.table).0) [
      | inl e ↦ unfold claim_lost in ground (arith, e)
      | inr (r, e) ↦ unfold claim_lost in ground (arith, e)
    ]
step-CancelInv c (reads_reason status) s l v = ground arith
step-CancelInv c (finishes r at true) s l v = unfold finish_step finish_entry in ground arith
step-CancelInv c (finishes r at false) s l v = unfold finish_step in ground arith
step-CancelInv c ends s l v = unfold Token.end in ground arith
step-CancelInv c (raises r now error true) s l v =
    unfold raise_step run_raised fail_to_start in ground arith
step-CancelInv c (raises r now error false) s l v = unfold raise_step in ground arith
step-CancelInv c returns s l v = ground arith
step-CancelInv c lets_go s l v = unfold release_entry in ground arith

Reach-CancelInv : {c : Codec} {s t : System} → CancelInv s → Reach c s t → CancelInv t
Reach-CancelInv v here = v
Reach-CancelInv {c} v (next {t} a p l) = step-CancelInv c a t l (Reach-CancelInv v p)

new-CancelInv : (c : Codec) (t : Table) (settings : Settings) → CancelInv (new_system c t settings)
unfolding new_worker
new-CancelInv c t settings = ground arith

-- In every state that the worker reaches from its start: if a stop was accepted for the claimed entry
-- (it has a reason), also before its job started, and the job has started and runs, and no delivery is
-- on its way, then the executor's token holds a signal, so the job stops.
pub accepted_stop_reaches_job :
    (c : Codec) (t : Table) (settings : Settings) (s : System)
    → Reach c (new_system c t settings) s
    → is_some s.worker.stop_reason ≡ true
    → s.worker.token.running ≡ true
    → s.worker.job_started ≡ true
    → s.in_flight ≡ 0
    → is_some s.worker.token.signal ≡ true
accepted_stop_reaches_job c t settings s p asked running started quiet =
    let v = Reach-CancelInv (new-CancelInv c t settings) p in
    v.delivered running started (sym v.reasoned ∙ asked) quiet
