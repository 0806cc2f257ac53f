-- ===== src/Queue/Worker.antt =====
-- services/queue_worker.py and services/queue_claim_gate.py: the state of the queue worker, and the
-- methods that other threads call. Each stands for what the method does under the worker's state lock;
-- `cancel_running` and `stop` then call the executor outside the lock, so that call is a step apart.
pub mod Thread
pub mod Steps
pub mod Parks
pub mod Cancels
pub mod Owned
pub mod Single
pub mod Outcomes
mod Examples
use draw_things_control.Prelude.{
  ℕ, String, Bool, true, false, ◌&&◌, ◌||◌, not, Option, none, some, List, [], ◌∷◌, ◌++◌, ◌==◌,
  is_none, is_some, if◌then◌else◌,
}
use draw_things_control.Errors.{Result, ok, err}
use draw_things_control.Ids.{queue_id_text}
use draw_things_control.Json.{Codec}
use draw_things_control.Token
use draw_things_control.Token.{Token, sigterm}
use draw_things_control.Queue.Events.{
  Event, entry_changed, park_changed, publish, QueueState, queued, cancelled,
}
use draw_things_control.Queue.Hold
use draw_things_control.Queue.Hold.{Hold, HoldState}
use draw_things_control.Queue.Rows
use draw_things_control.Queue.Rows.{QueueRow, NewQueueEntry, Table}
use draw_things_control.Queue.Status
use draw_things_control.Queue.Status.{WorkerStatus, StateWord, is_running_word}

pub data StopReason : Type 0 where
  stop_cancel stop_shutdown : StopReason

-- What the entry's forecast publisher is told; the forecasts themselves are not modelled.
pub data ForecastCall : Type 0 where
  park_told : Bool → ForecastCall
  cancel_told : ForecastCall

-- `table` is the store's queue, `hold` holds its settings and the published events, and `token` is the
-- executor's. `publisher` says whether a forecast publisher stands.
pub record Worker : Type 0 where
  pub table : Table
  pub hold : Hold
  pub token : Token
  pub current : Option QueueRow
  pub stop_reason : Option StopReason
  pub pending_cancel : Bool
  pub park_pending : Bool
  pub job_started : Bool
  pub job_finished : Bool
  pub release_skips_wait : Bool
  pub stop_event : Bool
  pub wake_event : Bool
  pub status : WorkerStatus
  pub publisher : Bool
  pub forecast_calls : List ForecastCall

abbrev pub label : QueueRow → String
label r = queue_id_text r.queue_number

-- Tell the event sink.
abbrev pub tell : Event → Worker → Worker
tell e w = record w { hold = record w.hold { events = publish e w.hold.events } }

abbrev pub wake : Worker → Worker
wake w = record w { wake_event = true }

abbrev pub forecast_park : Bool → Worker → Worker
forecast_park parking w = record w {
  forecast_calls =
      if w.publisher then w.forecast_calls ++ park_told parking ∷ [] else w.forecast_calls;
}

abbrev pub cancel_forecast : Worker → Worker
cancel_forecast w = record w {
  publisher = false;
  forecast_calls = if w.publisher then w.forecast_calls ++ cancel_told ∷ [] else w.forecast_calls;
}

abbrev pub is_entry : Option QueueRow → ℕ → Bool
is_entry none i = false
is_entry (some r) i = r.id == i

-- `_is_running`.
unfoldable pub is_running : ℕ → Worker → Bool
is_running i w = is_entry w.current i && not w.job_finished

-- The insert of a submission or of a resume, and its event.
unfoldable pub enqueue : Codec → NewQueueEntry → Worker → QueueRow × Worker
enqueue c new w =
    let (row, t) = Rows.submit c new w.table in
    (row, wake (tell (entry_changed (label row) row.state) (record w { table = t })))

unfoldable pub cancel_queued : Codec → ℕ → String → String → Worker → Bool × Worker
cancel_queued c i name now w =
    let (done, t) = Rows.cancel_queued c i now w.table in
    (
      done,
      if done
          then wake (tell (entry_changed name cancelled) (record w { table = t }))
          else record w { table = t },
    )

abbrev first_reason : Option StopReason → StopReason → Option StopReason
first_reason none r = some r
first_reason (some r) s = some r

-- The part of `cancel_running` under the lock: True when the executor is to be told.
unfoldable pub cancel_running_locked : ℕ → Worker → Bool × Worker
cancel_running_locked i w =
    if is_entry w.current i
    then (
      true,
      record w { stop_reason = first_reason w.stop_reason stop_cancel; pending_cancel = true },
    )
    else (false, w)

-- `self._executor.cancel()`.
unfoldable pub executor_cancel : Worker → Worker
executor_cancel w = record w { token = (Token.cancel sigterm w.token).1 }

-- The whole of `cancel_running`, with no other thread between its parts.
unfoldable pub cancel_running : ℕ → Worker → Bool × Worker
unfolding cancel_running_locked executor_cancel
cancel_running i w =
    let (found, w') = cancel_running_locked i w in
    (found, if found then cancel_forecast (executor_cancel w') else w')

-- The part of `stop` before it tells the executor; it then wakes the worker and waits for its thread.
unfoldable pub stop_locked : Worker → Worker
stop_locked w =
    if is_some w.current && is_none w.stop_reason
    then record w { stop_event = true; stop_reason = some stop_shutdown; pending_cancel = true }
    else record w { stop_event = true }

-- A park reservation that is not made yet.
abbrev reserve : String → Worker → Worker
reserve name w =
    if w.park_pending
    then w
    else forecast_park true (
        tell (park_changed name true) (record w {
          park_pending = true;
          token = if w.job_started then (Token.park w.token).1 else w.token;
        }))

unfoldable pub park_running :
    Codec → String → ℕ → String → Option String → Worker → Result Bool × Worker
unfolding is_running
park_running c now i name caller w =
    if not (is_running i w) || is_some w.stop_reason
    then (ok false, w)
    else let (r, h) = Hold.hold c now (some name) caller w.hold in
      let w' = record w { hold = h } in
      elim r [ err e ↦ (err e, w') | ok _ ↦ (ok true, reserve name w') ]

abbrev withdraw : String → Worker → Worker
withdraw name w =
    forecast_park false (tell (park_changed name false) (record w { park_pending = false }))

-- Before `JobStarted` the reservation is only the worker's; then the executor's unpark commits the
-- release of the hold.
unpark_token : String → Option String → Worker → Result Bool × (Token × Hold)
unpark_token name caller w =
    if w.job_started
    then Token.unpark (Hold.release_if_by name caller) w.token w.hold
    else let (r, h) = Hold.release_if_by name caller w.hold in
      (elim r [ err e ↦ err e | ok _ ↦ ok true ], (w.token, h))

unfoldable pub unpark_running : ℕ → String → Option String → Worker → Result Bool × Worker
unfolding is_running unpark_token
unpark_running i name caller w =
    if not (is_running i w)
    then (ok false, w)
    else if not w.park_pending
    then (ok true, w)
    else let (r, (t, h)) = unpark_token name caller w in
      let w' = record w { token = t; hold = h } in
      elim r [
        | err e ↦ (err e, w')
        | ok done ↦ if done then (ok true, withdraw name w') else (ok false, w')
      ]

unfoldable pub parking_entry_id : Worker → Option ℕ
parking_entry_id w = elim w.current [
  | none ↦ none
  | some r ↦ if not w.job_finished && w.park_pending then some r.id else none
]

unfoldable pub stop_reason_of : ℕ → Worker → Option StopReason
unfolding is_running
stop_reason_of i w = if is_running i w then w.stop_reason else none

-- `hold`: whether it was not held before, and the hold.
unfoldable pub hold : Codec → String → Option String → Worker → Result (Bool × HoldState) × Worker
hold c now caller w =
    let (r, h) = Hold.hold c now none caller w.hold in
    let w' = record w { hold = h } in
    elim r [ err e ↦ (err e, w') | ok changed ↦ (ok (changed, h.memory), wake w') ]

unfoldable pub release : Option String → Worker → Result (Bool × HoldState) × Worker
release caller w =
    let (r, h) = Hold.release caller w.hold in
    let w' = record w { hold = h } in
    elim r [
      | err e ↦ (err e, w')
      | ok released ↦
          let skips = released && (is_none w.current || w.job_finished) in
          (
            ok (released, h.memory),
            wake (record w' { release_skips_wait = skips || w.release_skips_wait }),
          )
    ]

-- `state`: a job that runs under a hold still reads as running.
unfoldable pub state : Worker → StateWord
state w =
    let word = Status.state w.status in
    if not (is_running_word word) && w.hold.memory.held then StateWord.held else word

unfoldable pub is_quiet : Worker → Bool
is_quiet w = not (is_running_word (Status.state w.status)) || is_some w.status.between_runs_after

unfoldable pub current_entry_id : Worker → Option ℕ
current_entry_id w = elim w.current [ none ↦ none | some r ↦ some r.id ]

-- `parking_entry_id() == entry_id`.
unfoldable pub park_requested_for : ℕ → Worker → Bool
unfolding parking_entry_id
park_requested_for i w = elim (parking_entry_id w) [ none ↦ false | some j ↦ j == i ]

abbrev pub hold_state : Worker → HoldState
hold_state w = w.hold.memory
