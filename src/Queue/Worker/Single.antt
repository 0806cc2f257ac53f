-- ===== src/Queue/Worker/Single.antt =====
-- services/queue_worker.py: the running rows of the table and the claimed entry.
use draw_things_control.Prelude.{List, [], Bool-cases, ◌∷◌, ==_refl, ◌||◌, ◌⊎◌}
use draw_things_control.Prelude.{
  ℕ, String, Bool, true, false, ◌&&◌, ◌≡◌, refl, sym, ap, not, Option, none, some, arith, inl, inr,
  if_ind, if◌then◌else◌, All, All-weaken,
}
use mathlib.Core.Path.{subst}
use draw_things_control.Prelude.{◌∙◌}
use draw_things_control.Json.{Codec}
use draw_things_control.Settings.{Settings}
use draw_things_control.Queue.Events.{QueueState, is_finished}
use draw_things_control.Queue.Rows
use draw_things_control.Queue.Rows.{
  QueueRow, NewQueueEntry, Table, is_queued, is_running, update, set_running, set_finished,
  set_cancelled, set_requeued, new_row,
}
use draw_things_control.Queue.Rows.Invariant.{
  IsWellFormed, submit-IsWellFormed, claim_oldest-IsWellFormed, link_execution-IsWellFormed,
  finish-IsWellFormed, set_error-IsWellFormed, cancel_queued-IsWellFormed, requeue-IsWellFormed,
}
use draw_things_control.Queue.Rows.Claim.{claim-cases}
use draw_things_control.Queue.Worker.{
  Worker, StopReason, is_entry, enqueue, cancel_queued, cancel_running_locked, executor_cancel,
  stop_locked, park_running, unpark_running, hold, release,
}
use draw_things_control.Queue.Worker.Thread.{
  JobStatus, claim, start_guard, final_state, finish_entry, fail_to_start, run_raised,
  release_entry, link,
}
use draw_things_control.Queue.Worker.Steps.{
  System, Act, enqueues, cancels_queued, cancels, stops, delivers, parks, unparks, holds, releases,
  disk, claims, begins, starts, attaches, checks_park, links, finishes, ends, raises, returns,
  reads_reason, claims_unreturned, claim_lost, finish_step, raise_step, lets_go, step, IsAllowed,
  Reach, here, next, new_worker, new_system,
}
use draw_things_control.Queue.Worker.Owned.{
  IsOwned, submit-IsOwned, cancel_queued-IsOwned, link-IsOwned, finish-IsOwned, claimed-IsOwned,
  put_back-IsOwned, running_after_claim, set_error-IsOwned, more_lost-IsOwned, unreturned-IsOwned,
  released-IsOwned, is_settled, among,
}

-- The part of the system that the invariant reads.
abbrev Core : Type 0
Core = Table × Option QueueRow × Bool × List ℕ × Option QueueState × Bool × Bool

abbrev core : System → Core
core s = (
  s.worker.table, s.worker.current, s.worker.job_finished, s.unsaved, s.ending, s.finished, s.over,
)

abbrev Ends : Option QueueState → Type 0
Ends none = Unit
Ends (some state) = is_finished state ≡ true

-- Once the worker's thread is past the end of an entry, that entry has finished, or its end was refused.
record SingleInv (k : Core) : Type 0 where
  well_formed : IsWellFormed k.0
  owned : All (IsOwned k.3 k.1 k.2) k.0.rows
  ends : Ends k.4
  settled_finished : k.5 ≡ true → k.4 ≡ none → is_settled k.3 k.1 k.2 ≡ true
  settled_over : k.6 ≡ true → is_settled k.3 k.1 k.2 ≡ true

final_state_finished :
    (status : JobStatus) (reason : Option StopReason)
    → is_finished (final_state status reason) ≡ true
unfolding final_state
final_state_finished status reason = ground arith

-- Steps that leave the table and the claim alone.
abbrev IsFrame : Act → Type 0
IsFrame (enqueues new) = ⊥
IsFrame (cancels_queued i name now) = ⊥
IsFrame (claims now) = ⊥
IsFrame (links r n) = ⊥
IsFrame (claims_unreturned now) = ⊥
IsFrame (reads_reason status) = ⊥
IsFrame (finishes r at saved) = ⊥
IsFrame (raises r now error saved) = ⊥
IsFrame returns = ⊥
IsFrame lets_go = ⊥
IsFrame _ = Unit

frame : (c : Codec) (a : Act) (s : System) → IsFrame a → core (step c a s) ≡ core s
unfolding step
frame c (enqueues new) s f = absurd f
frame c (cancels_queued i name now) s f = absurd f
frame c (claims now) s f = absurd f
frame c (links r n) s f = absurd f
frame c (claims_unreturned now) s f = absurd f
frame c (reads_reason status) s f = absurd f
frame c (finishes r at saved) s f = absurd f
frame c (raises r now error saved) s f = absurd f
frame c returns s f = absurd f
frame c lets_go s f = absurd f
frame c (cancels i) s f = unfold cancel_running_locked in ground arith
frame c stops s f = unfold stop_locked in ground arith
frame c delivers s f = unfold executor_cancel in refl
frame c (parks now i name caller) s f = unfold park_running in ground arith
frame c (unparks i name caller) s f = unfold unpark_running in ground arith
frame c (holds now caller) s f = unfold hold in ground arith
frame c (releases caller) s f = unfold release in ground arith
frame c (disk b) s f = refl
frame c begins s f = refl
frame c starts s f = unfold start_guard in ground arith
frame c (attaches r) s f = refl
frame c checks_park s f = refl
frame c ends s f = refl

-- What a claim reads and writes.
abbrev Claimed : Type 0
Claimed = Table × Option QueueRow × Bool

abbrev claimed : Worker → Claimed
claimed w = (w.table, w.current, w.job_finished)

abbrev Sound : List ℕ → Claimed → Type 0
Sound lost k = IsWellFormed k.0 × All (IsOwned lost k.1 k.2) k.0.rows

claimed-none :
    (c : Codec) (now : String) (w : Worker)
    → Rows.claim_oldest c now w.table ≡ (none, w.table)
    → claimed (claim c now w).1 ≡ claimed w
unfolding claim
claimed-none c now w e = ground (arith, e)

claimed-some :
    (c : Codec) (now : String) (w : Worker) (r : QueueRow) (t : Table)
    → Rows.claim_oldest c now w.table ≡ (some r, t)
    → claimed (claim c now w).1 ≡ (
        if w.hold.memory.held
        then claimed w
        else if w.stop_event
        then (Rows.requeue r.id t, w.current, w.job_finished)
        else (t, some r, false))
unfolding claim
claimed-some c now w r t e = ground (arith, e)

claim-Sound :
    (lost : List ℕ) (c : Codec) (now : String) (w : Worker)
    → w.current ≡ none
    → Sound lost (claimed w)
    → Sound lost (claimed (claim c now w).1)
unfolding set_running
claim-Sound lost c now w free v = elim (claim-cases c now w.table v.0) [
  | inl (e, _) ↦ subst (Sound lost) (sym (claimed-none c now w e)) v
  | inr (r, _, _, _, e) ↦
      let t : Table = record w.table { rows = update (set_running c now) r.id w.table.rows } in
      let owned : All (IsOwned lost none w.job_finished) w.table.rows =
        subst (λ cur. All (IsOwned lost cur w.job_finished) w.table.rows) free v.1 in
      let after : IsWellFormed t =
        subst IsWellFormed (ap (λ x. x.1) e) (claim_oldest-IsWellFormed c now w.table v.0) in
      let t' = Rows.requeue r.id t in
      subst (Sound lost) (sym (claimed-some c now w (set_running c now r) t e)) (
        if_ind (Sound lost) w.hold.memory.held (claimed w)
          (if w.stop_event
            then (t', w.current, w.job_finished)
            else (t, some (set_running c now r), false))
          (λ _. v)
          (λ _.
            if_ind (Sound lost) w.stop_event (t', w.current, w.job_finished)
              (t, some (set_running c now r), false)
              (λ _. (
                requeue-IsWellFormed r.id t (running_after_claim c now r w.table) after,
                subst (λ cur. All (IsOwned lost cur w.job_finished) t'.rows) (sym free)
                    (unfold Rows.requeue in
                      put_back-IsOwned lost c now r w.job_finished w.table owned),
              ))
              (λ _. (after, claimed-IsOwned lost c now r w.job_finished w.table owned))))
]

core-unreturned :
    (c : Codec) (now : String) (s : System) (r : QueueRow) (t : Table)
    → Rows.claim_oldest c now s.worker.table ≡ (some r, t)
    → core (claim_lost c now s)
      ≡ (t, s.worker.current, s.worker.job_finished, r.id ∷ s.unsaved, s.ending, s.finished, s.over)
unfolding claim_lost
core-unreturned c now s r t e = ground (arith, e)

core-unreturned_none :
    (c : Codec) (now : String) (s : System)
    → Rows.claim_oldest c now s.worker.table ≡ (none, s.worker.table)
    → core (claim_lost c now s) ≡ core s
unfolding claim_lost
core-unreturned_none c now s e = ground (arith, e)

unreturned-SingleInv :
    (c : Codec) (now : String) (s : System)
    → s.worker.current ≡ none
    → SingleInv (core s)
    → SingleInv (core (claim_lost c now s))
unfolding set_running
unreturned-SingleInv c now s free v = elim (claim-cases c now s.worker.table v.well_formed) [
  | inl (e, _) ↦ subst SingleInv (sym (core-unreturned_none c now s e)) v
  | inr (r, _, _, _, e) ↦
      let w = s.worker in
      let t : Table = record w.table { rows = update (set_running c now) r.id w.table.rows } in
      let owned : All (IsOwned s.unsaved none w.job_finished) w.table.rows =
        subst (λ cur. All (IsOwned s.unsaved cur w.job_finished) w.table.rows) free v.owned in
      let nobody : is_settled (r.id ∷ s.unsaved) w.current w.job_finished ≡ true =
        subst (λ cur. is_settled (r.id ∷ s.unsaved) cur w.job_finished ≡ true) (sym free) refl in
      subst SingleInv (sym (core-unreturned c now s (set_running c now r) t e)) (record {
        well_formed =
            subst IsWellFormed (ap (λ x. x.1) e)
              (claim_oldest-IsWellFormed c now w.table v.well_formed);
        owned =
            subst (λ cur. All (IsOwned (r.id ∷ s.unsaved) cur w.job_finished) t.rows) (sym free)
              (unreturned-IsOwned s.unsaved c now r w.job_finished w.table owned);
        ends = v.ends;
        settled_finished = λ _ _. nobody;
        settled_over = λ _. nobody;
      })
]

core-cancel_queued :
    (c : Codec) (i : ℕ) (name now : String) (w : Worker)
    → claimed (cancel_queued c i name now w).1
      ≡ ((Rows.cancel_queued c i now w.table).1, w.current, w.job_finished)
unfolding cancel_queued
core-cancel_queued c i name now w = ground arith

-- The claimed entry's end is written.
finish-Sound :
    (lost : List ℕ) (c : Codec) (r : QueueRow) (state : QueueState) (at : String)
    (e : Option String) (clear : Bool) (w : Worker)
    → is_finished state ≡ true
    → w.current ≡ some r
    → Sound lost (claimed w)
    → Sound lost (Rows.finish c r.id state at e clear w.table, w.current, true)
finish-Sound lost c r state at e clear w f cur v = (
  finish-IsWellFormed c r.id state at e clear w.table f v.0,
  let t' = Rows.finish c r.id state at e clear w.table in
      let owned : All (IsOwned lost (some r) w.job_finished) w.table.rows =
        subst (λ k. All (IsOwned lost k w.job_finished) w.table.rows) cur v.1 in
      subst (λ k. All (IsOwned lost k true) t'.rows) (sym cur)
        (finish-IsOwned lost c r.id state at e clear r w.job_finished w.table refl f owned),
)

settled_true : (lost : List ℕ) (cur : Option QueueRow) → is_settled lost cur true ≡ true
settled_true lost none = refl
settled_true lost (some q) = refl

settled_lost :
    (lost : List ℕ) (r : QueueRow) (cur : Option QueueRow) (fin : Bool)
    → cur ≡ some r
    → is_settled (r.id ∷ lost) cur fin ≡ true
settled_lost lost r cur fin e =
    subst (λ k. is_settled (r.id ∷ lost) k fin ≡ true) (sym e) (ground (arith, ==_refl r.id))

-- A table and a claim that are sound, with the rest as it was before.
kept-SingleInv :
    (s : System) (t : Table)
    → IsWellFormed t
    → All (IsOwned s.unsaved s.worker.current s.worker.job_finished) t.rows
    → SingleInv (core s)
    → SingleInv
        (t, s.worker.current, s.worker.job_finished, s.unsaved, s.ending, s.finished, s.over)
kept-SingleInv s t w o v = record {
  well_formed = w;
  owned = o;
  ends = v.ends;
  settled_finished = v.settled_finished;
  settled_over = v.settled_over;
}

finish_step-SingleInv :
    (c : Codec) (r : QueueRow) (at : String) (saved : Bool) (o : Option QueueState) (s : System)
    → Ends o
    → s.worker.current ≡ some r
    → SingleInv (core s)
    → SingleInv (core (finish_step c r at saved o s))
unfolding finish_step finish_entry
finish_step-SingleInv c r at saved none s f cur v = v
finish_step-SingleInv c r at true (some state) s f cur v =
    let k =
      finish-Sound s.unsaved c r state at none false s.worker f cur (v.well_formed, v.owned) in
    record {
      well_formed = k.0;
      owned = k.1;
      ends = tt;
      settled_finished = λ _ _. settled_true s.unsaved s.worker.current;
      settled_over = λ _. settled_true s.unsaved s.worker.current;
    }
finish_step-SingleInv c r at false (some state) s f cur v =
    let done = settled_lost s.unsaved r s.worker.current s.worker.job_finished cur in
    record {
      well_formed = v.well_formed;
      owned =
          more_lost-IsOwned s.unsaved r.id s.worker.current s.worker.job_finished s.worker.table
            v.owned;
      ends = tt;
      settled_finished = λ _ _. done;
      settled_over = λ _. done;
    }

raise_step-SingleInv :
    (c : Codec) (r : QueueRow) (now error : String) (saved finished : Bool) (s : System)
    → s.finished ≡ finished
    → s.worker.current ≡ some r
    → s.ending ≡ none
    → SingleInv (core s)
    → SingleInv (core (raise_step c r now error saved s))
unfolding raise_step run_raised fail_to_start
raise_step-SingleInv c r now error true true s e cur quiet v =
    let done = v.settled_finished e quiet in
    let w = s.worker in
    rw e (record {
      well_formed = set_error-IsWellFormed r.id error w.table v.well_formed;
      owned = set_error-IsOwned s.unsaved r.id error w.current w.job_finished w.table v.owned;
      ends = v.ends;
      settled_finished = λ _ _. done;
      settled_over = λ _. done;
    })
raise_step-SingleInv c r now error true false s e cur quiet v =
    let k =
      finish-Sound s.unsaved c r QueueState.failed now (some error) true s.worker refl cur
        (v.well_formed, v.owned) in
    rw e (record {
      well_formed = k.0;
      owned = k.1;
      ends = v.ends;
      settled_finished = λ _ _. settled_true s.unsaved s.worker.current;
      settled_over = λ _. settled_true s.unsaved s.worker.current;
    })
raise_step-SingleInv c r now error false true s e cur quiet v =
    let done = v.settled_finished e quiet in
    rw e (record {
      well_formed = v.well_formed;
      owned = v.owned;
      ends = v.ends;
      settled_finished = λ _ _. done;
      settled_over = λ _. done;
    })
raise_step-SingleInv c r now error false false s e cur quiet v =
    let done = settled_lost s.unsaved r s.worker.current s.worker.job_finished cur in
    rw e (record {
      well_formed = v.well_formed;
      owned =
          more_lost-IsOwned s.unsaved r.id s.worker.current s.worker.job_finished s.worker.table
            v.owned;
      ends = v.ends;
      settled_finished = λ _ _. done;
      settled_over = λ _. done;
    })

keep :
    (c : Codec) (a : Act) (s : System)
    → IsFrame a
    → SingleInv (core s)
    → SingleInv (core (step c a s))
keep c a s f v = subst SingleInv (sym (frame c a s f)) v

step-SingleInv :
    (c : Codec) (a : Act) (s : System)
    → IsAllowed a s
    → SingleInv (core s)
    → SingleInv (core (step c a s))
unfolding step
step-SingleInv c (enqueues new) s l v =
    let w = s.worker in
    unfold enqueue in
    kept-SingleInv s (Rows.submit c new w.table).1 (submit-IsWellFormed c new w.table v.well_formed)
      (submit-IsOwned s.unsaved c new w.current w.job_finished w.table v.owned) v
step-SingleInv c (cancels_queued i name now) s l v =
    let w = s.worker in
    subst (λ (k : Claimed). SingleInv (k.0, k.1, k.2, s.unsaved, s.ending, s.finished, s.over))
      (sym (core-cancel_queued c i name now w))
      (kept-SingleInv s (Rows.cancel_queued c i now w.table).1
        (cancel_queued-IsWellFormed c i now w.table v.well_formed)
        (cancel_queued-IsOwned s.unsaved c i now w.current w.job_finished w.table v.owned) v)
step-SingleInv c (claims now) s l v =
    let k = claim-Sound s.unsaved c now s.worker l.0 (v.well_formed, v.owned) in
    record {
      well_formed = k.0;
      owned = k.1;
      ends = tt;
      settled_finished = λ e _. absurd (ground (arith, e));
      settled_over = λ e. absurd (ground (arith, e));
    }
step-SingleInv c (claims_unreturned now) s l v = unreturned-SingleInv c now s l.0 v
step-SingleInv c (links r n) s l v =
    let w = s.worker in
    unfold link in
    kept-SingleInv s (Rows.link_execution r.id n w.table)
      (link_execution-IsWellFormed r.id n w.table v.well_formed)
      (link-IsOwned s.unsaved r.id n w.current w.job_finished w.table v.owned) v
step-SingleInv c (reads_reason status) s l v = record {
  well_formed = v.well_formed;
  owned = v.owned;
  ends = final_state_finished status s.worker.stop_reason;
  settled_finished = λ _ e. absurd (cc e);
  settled_over = v.settled_over;
}
step-SingleInv c (finishes r at saved) s l v =
    finish_step-SingleInv c r at saved s.ending s v.ends l.0 v
step-SingleInv c (raises r now error saved) s l v =
    raise_step-SingleInv c r now error saved s.finished s refl l.0 l.1 v
step-SingleInv c returns s l v = record {
  well_formed = v.well_formed;
  owned = v.owned;
  ends = v.ends;
  settled_finished = v.settled_finished;
  settled_over = λ _. v.settled_finished l.1 l.0;
}
step-SingleInv c lets_go s l v =
    let w = s.worker in
    unfold release_entry in
    record {
      well_formed = v.well_formed;
      owned =
          released-IsOwned s.unsaved w.current w.job_finished w.table (v.settled_over l.1) v.owned;
      ends = v.ends;
      settled_finished = λ _ _. refl;
      settled_over = λ _. refl;
    }
step-SingleInv c a s l v = keep c a s tt v

Reach-SingleInv : {c : Codec} {s t : System} → SingleInv (core s) → Reach c s t → SingleInv (core t)
Reach-SingleInv v here = v
Reach-SingleInv {c} v (next {t} a p l) = step-SingleInv c a t l (Reach-SingleInv v p)

-- No row is running: what recovery leaves for the worker.
abbrev pub NoneRunning : Table → Type 0
NoneRunning t = All (λ r. is_running r.state ≡ false) t.rows

new-SingleInv :
    (c : Codec) (t : Table) (settings : Settings)
    → IsWellFormed t
    → NoneRunning t
    → SingleInv (core (new_system c t settings))
unfolding new_worker
new-SingleInv c t settings w n = record {
  well_formed = w;
  owned =
      All-weaken (λ r. is_running r.state ≡ false) (IsOwned [] none false) t.rows (λ r h run. cc) n;
  ends = tt;
  settled_finished = λ _ _. refl;
  settled_over = λ _. refl;
}

owner :
    (lost : List ℕ) (cur : Option QueueRow) (fin : Bool) (r : QueueRow)
    → ((is_entry cur r.id && not fin) || among r.id lost) ≡ true
    → ((q : QueueRow) × (cur ≡ some q) × (q.id ≡ r.id) × (fin ≡ false)) ⊎ (among r.id lost ≡ true)
owner lost none fin r h = inr (ground arith)
owner lost (some q) fin r h = elim (Bool-cases (among r.id lost)) [
  | inl e ↦ inr e
  | inr e ↦ inl (q, refl, ground arith, ground arith)
]

-- The database accepts every write that ends an entry.
abbrev pub IsAccepted : Act → Type 0
IsAccepted (claims_unreturned now) = ⊥
IsAccepted (finishes r at false) = ⊥
IsAccepted (raises r now error false) = ⊥
IsAccepted _ = Unit

abbrev pub AllAccepted : {c : Codec} {s t : System} → Reach c s t → Type 0
AllAccepted here = Unit
AllAccepted (next a p l) = IsAccepted a × AllAccepted p

finish_step_unsaved :
    (c : Codec) (r : QueueRow) (at : String) (o : Option QueueState) (s : System)
    → (finish_step c r at true o s).unsaved ≡ s.unsaved
unfolding finish_step
finish_step_unsaved c r at none s = refl
finish_step_unsaved c r at (some state) s = refl

step_unsaved : (c : Codec) (a : Act) (s : System) → IsAccepted a → (step c a s).unsaved ≡ s.unsaved
unfolding step raise_step
step_unsaved c (enqueues new) s h = refl
step_unsaved c (cancels_queued i name now) s h = refl
step_unsaved c (claims now) s h = refl
step_unsaved c (claims_unreturned now) s h = absurd h
step_unsaved c (links r n) s h = refl
step_unsaved c (reads_reason status) s h = refl
step_unsaved c (finishes r at true) s h = finish_step_unsaved c r at s.ending s
step_unsaved c (finishes r at false) s h = absurd h
step_unsaved c (raises r now error true) s h = refl
step_unsaved c (raises r now error false) s h = absurd h
step_unsaved c returns s h = refl
step_unsaved c lets_go s h = refl
step_unsaved c a s h = ap (λ (k : Core). k.3) (frame c a s tt)

Reach-unsaved : {c : Codec} {s t : System} (p : Reach c s t) → AllAccepted p → t.unsaved ≡ s.unsaved
Reach-unsaved here h = refl
Reach-unsaved {c} (next {t} a p l) h = step_unsaved c a t h.0 ∙ Reach-unsaved p h.1

-- The worker starts over a well-formed table in which recovery left no row running. In every state
-- that it reaches, by any interleaving of its own steps with submissions, cancels, parks, unparks,
-- holds, releases and stops, where the job's end and a raise come at any time and any write of an end
-- may be refused: every row that is running is the claimed entry's, whose job has not finished, or is
-- an entry whose end the database refused to write; and there is none of those where it accepted every
-- such write. The table stays well-formed.
pub only_claimed_runs :
    (c : Codec) (t : Table) (settings : Settings) (s : System)
    → IsWellFormed t
    → NoneRunning t
    → (p : Reach c (new_system c t settings) s)
    → IsWellFormed s.worker.table
      × All
          (λ r.
            is_running r.state ≡ true
            → ((q : QueueRow) × (s.worker.current ≡ some q)
                × (q.id ≡ r.id)
                × (s.worker.job_finished ≡ false))
              ⊎ (among r.id s.unsaved ≡ true))
          s.worker.table.rows
      × (AllAccepted p → s.unsaved ≡ [])
only_claimed_runs c t settings s w n p =
    let v = Reach-SingleInv (new-SingleInv c t settings w n) p in
    (
      v.well_formed,
      All-weaken (IsOwned s.unsaved s.worker.current s.worker.job_finished) _ s.worker.table.rows
          (λ r own run. owner s.unsaved s.worker.current s.worker.job_finished r (own run)) v.owned,
      λ h. Reach-unsaved p h,
    )
