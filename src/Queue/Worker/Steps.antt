-- ===== src/Queue/Worker/Steps.antt =====
-- The worker, its executor and the callers of its methods as one system that moves by steps. A step is
-- what one thread does under the state lock or the token's lock; `in_flight` counts the threads that
-- have left the state lock and have yet to call `executor.cancel()`. `finished`, `ending` and `over` are
-- how far the worker's thread has come in `_run_claimed`: `finished[0]`, the state that the finisher has
-- read and not yet written, and whether it has ended. The database may refuse a write that ends an entry
-- (an observer's error is logged, and the job goes on): `unsaved` are the ids of the entries whose end was
-- not written. Any other write that it refuses leaves all as it was, so it is no step.
use draw_things_control.Prelude.{
  ℕ, suc, ◌-◌, ◌<◌, String, Bool, true, false, ◌≡◌, Option, none, some, or_else, List, [], ◌∷◌,
  is_some, if◌then◌else◌,
}
use draw_things_control.Json.{Codec}
use draw_things_control.Settings.{Settings}
use draw_things_control.Token
use draw_things_control.Token.{Token, new_token}
use draw_things_control.Queue.Hold
use draw_things_control.Queue.Events.{QueueState}
use draw_things_control.Queue.Rows
use draw_things_control.Queue.Rows.{QueueRow, NewQueueEntry, Table}
use draw_things_control.Queue.Status.{idle_status}
use draw_things_control.Queue.Worker.{
  Worker, enqueue, cancel_queued, cancel_running_locked, executor_cancel, stop_locked, park_running,
  unpark_running, hold, release,
}
use draw_things_control.Queue.Worker.Thread.{
  claim, start_guard, JobStatus, final_state, finish_entry, run_raised, release_entry, link,
}

pub record System : Type 0 where
  pub worker : Worker
  pub in_flight : ℕ
  pub finished : Bool
  pub ending : Option QueueState
  pub over : Bool
  pub unsaved : List ℕ

-- The steps of other threads, and then those of the worker's thread, in the order that it makes them.
pub data Act : Type 0 where
  enqueues : NewQueueEntry → Act
  cancels_queued : ℕ → String → String → Act
  cancels : ℕ → Act
  stops : Act
  delivers : Act
  parks : String → ℕ → String → Option String → Act
  unparks : ℕ → String → Option String → Act
  holds : String → Option String → Act
  releases : Option String → Act
  disk : Bool → Act
  claims : String → Act
  begins : Act
  starts : Act
  attaches : ℕ → Act
  checks_park : Act
  links : QueueRow → ℕ → Act
  claims_unreturned : String → Act
  reads_reason : JobStatus → Act
  finishes : QueueRow → String → Bool → Act
  ends : Act
  raises : QueueRow → String → String → Bool → Act
  returns : Act
  lets_go : Act

-- Count a call of the executor that is still to come.
abbrev calling : Bool × Worker → System → System
calling (b, w) s = record s { worker = w; in_flight = if b then suc s.in_flight else s.in_flight }

abbrev with_token : Token → Worker → Worker
with_token t w = record w { token = t }

abbrev set_disk : Bool → Worker → Worker
set_disk b w = record w {
  hold = record w.hold { settings = record w.hold.settings { writable = b } };
}

-- A claim as the server stops whose entry could not be put back: the row stays claimed.
unfoldable pub claim_lost : Codec → String → System → System
claim_lost c now s =
    let (o, t) = Rows.claim_oldest c now s.worker.table in
    elim o [
      | none ↦ record s { worker = record s.worker { table = t } }
      | some r ↦ record s { worker = record s.worker { table = t }; unsaved = r.id ∷ s.unsaved }
    ]

-- The finisher's write, of the state that it read before.
unfoldable pub finish_step : Codec → QueueRow → String → Bool → Option QueueState → System → System
finish_step c r at saved none s = s
finish_step c r at true (some state) s = record s {
  worker = finish_entry c r state at s.worker;
  ending = none;
}
finish_step c r at false (some state) s = record s { ending = none; unsaved = r.id ∷ s.unsaved }

-- `_run_claimed` once something raised, whose own write may be refused too.
unfoldable pub raise_step : Codec → QueueRow → String → String → Bool → System → System
raise_step c r now error true s = record s {
  worker = run_raised c r s.finished now error s.worker;
  over = true;
}
raise_step c r now error false s = record s {
  over = true;
  unsaved = if s.finished then s.unsaved else r.id ∷ s.unsaved;
}

unfoldable pub step : Codec → Act → System → System
unfolding claim_lost finish_step raise_step
step c (enqueues new) s = record s { worker = (enqueue c new s.worker).1 }
step c (cancels_queued i name now) s = record s { worker = (cancel_queued c i name now s.worker).1 }
step c (cancels i) s = calling (cancel_running_locked i s.worker) s
step c stops s = calling (true, stop_locked s.worker) s
step c delivers s = record s { worker = executor_cancel s.worker; in_flight = s.in_flight - 1 }
step c (parks now i name caller) s = record s {
  worker = (park_running c now i name caller s.worker).1;
}
step c (unparks i name caller) s = record s { worker = (unpark_running i name caller s.worker).1 }
step c (holds now caller) s = record s { worker = (hold c now caller s.worker).1 }
step c (releases caller) s = record s { worker = (release caller s.worker).1 }
step c (disk b) s = record s { worker = set_disk b s.worker }
step c (claims now) s = record s {
  worker = (claim c now s.worker).1;
  finished = false;
  ending = none;
  over = false;
}
step c (claims_unreturned now) s = claim_lost c now s
step c begins s = record s {
  worker = with_token (or_else (Token.begin s.worker.token) s.worker.token) s.worker;
}
step c starts s = calling (start_guard s.worker) s
step c (attaches r) s = record s { worker = with_token (Token.attach r s.worker.token) s.worker }
step c checks_park s = record s { worker = with_token (Token.take_park s.worker.token).1 s.worker }
step c (links r n) s = record s { worker = link r n s.worker }
step c (reads_reason status) s = record s {
  finished = true;
  ending = some (final_state status s.worker.stop_reason);
}
step c (finishes r at saved) s = finish_step c r at saved s.ending s
step c ends s = record s { worker = with_token (Token.end s.worker.token) s.worker }
step c (raises r now error saved) s = raise_step c r now error saved s
step c returns s = record s { over = true }
step c lets_go s = record s { worker = release_entry s.worker }

-- When a step of the worker's thread can come. It claims with no entry at hand and no job running; the
-- executor begins, and then announces the job. `JobFinished` comes at most once: the finisher reads the
-- reason, and then writes. A session returns only after `JobFinished`, which every job that was started
-- has (the executor's part), and may raise before or after it; then the entry is let go, whatever was
-- written. A call is delivered by a thread that is on its way.
abbrev pub IsAllowed : Act → System → Type 0
IsAllowed delivers s = 0 < s.in_flight
IsAllowed (claims now) s = (s.worker.current ≡ none) × (s.worker.token.running ≡ false)
IsAllowed begins s = (s.worker.token.running ≡ false) × (s.worker.job_started ≡ false)
IsAllowed starts s = (s.worker.token.running ≡ true) × (s.worker.job_started ≡ false)
IsAllowed (claims_unreturned now) s =
    (s.worker.current ≡ none)
    × (s.worker.token.running ≡ false)
    × (s.worker.hold.memory.held ≡ false)
    × (s.worker.stop_event ≡ true)
IsAllowed (reads_reason status) s = (s.ending ≡ none) × (s.finished ≡ false) × (s.over ≡ false)
IsAllowed (finishes r at saved) s = (s.worker.current ≡ some r) × (is_some s.ending ≡ true)
IsAllowed (raises r now error saved) s =
    (s.worker.current ≡ some r) × (s.ending ≡ none) × (s.over ≡ false)
IsAllowed returns s = (s.ending ≡ none) × (s.finished ≡ true) × (s.over ≡ false)
IsAllowed lets_go s = (s.worker.token.running ≡ false) × (s.over ≡ true)
IsAllowed _ s = Unit

pub data Reach (c : Codec) (s : System) : System → Type 0 where
  here : Reach c s s
  next : {t : System} (a : Act) → Reach c s t → IsAllowed a t → Reach c s (step c a t)

-- `QueueWorker.__init__`, over a table and settings that were there before.
unfoldable pub new_worker : Codec → Table → Settings → Worker
new_worker c t settings = record {
  table = t;
  hold = Hold.load c settings [];
  token = new_token;
  current = none;
  stop_reason = none;
  pending_cancel = false;
  park_pending = false;
  job_started = false;
  job_finished = false;
  release_skips_wait = false;
  stop_event = false;
  wake_event = false;
  status = idle_status;
  publisher = false;
  forecast_calls = [];
}

abbrev pub new_system : Codec → Table → Settings → System
new_system c t settings = record {
  worker = new_worker c t settings;
  in_flight = 0;
  finished = false;
  ending = none;
  over = false;
  unsaved = [];
}
