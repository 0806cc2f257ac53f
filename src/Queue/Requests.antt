-- ===== src/Queue/Requests.antt =====
-- services/queue_park.py and services/queue_cancel.py: what a front end calls to park, unpark or cancel
-- an entry. Each reads the entry from the store and then calls the worker; what other threads do to the
-- worker in between is an argument.
pub mod Refusals
pub mod Accepted
mod Examples
use draw_things_control.Prelude.{
  ℕ, String, Bool, true, false, not, Option, none, some, List, [], ◌∷◌, str_eq, if◌then◌else◌,
}
use draw_things_control.Errors.{Result, ok, err, not_found, invalid_state, raise, concat, ◌>>◌}
use draw_things_control.Json.{Codec}
use draw_things_control.Queue.Events.{QueueState, queued, running, parked, is_finished}
use draw_things_control.Queue.Callers.{check_entry_permitted}
use draw_things_control.Queue.Rows
use draw_things_control.Queue.Rows.{QueueRow, is_queued, is_running}
use draw_things_control.Queue.Worker.{
  Worker, StopReason, stop_cancel, stop_shutdown, label, park_running, unpark_running,
  stop_reason_of, cancel_queued, cancel_running,
}

-- What other threads do between the read of the entry and the worker's call, and after that call.
pub record Meanwhile : Type 0 where
  pub before_call : Worker → Worker
  pub after_call : Worker → Worker

-- No other thread does anything.
abbrev pub undisturbed : Meanwhile
undisturbed = record { before_call = λ w. w; after_call = λ w. w }

abbrev pub state_text : QueueState → String
state_text queued = "queued"
state_text running = "running"
state_text QueueState.succeeded = "succeeded"
state_text QueueState.failed = "failed"
state_text QueueState.cancelled = "cancelled"
state_text QueueState.interrupted = "interrupted"
state_text parked = "parked"

abbrev refused : List String → Result (Unit {0})
refused parts = raise invalid_state (concat parts)

-- `_entry`; the id's digits in the message are `shown`.
unfoldable pub entry : String → ℕ → Worker → Result QueueRow
entry shown i w = elim (Rows.get i w.table) [
  | none ↦ raise not_found (concat ("No queue entry " ∷ shown ∷ []))
  | some r ↦ ok r
]

-- `_state_now`.
unfoldable pub state_now : Worker → QueueRow → String
state_now w r = elim (Rows.get r.id w.table) [
  | none ↦ "gone"
  | some updated ↦ state_text updated.state
]

-- The checks before the worker is called.
unfoldable pub park_checks : Option String → QueueRow → Result (Unit {0})
park_checks caller r = do
  if str_eq r.kind "job"
      then ok tt
      else refused (label r ∷ " is a one-off generation and cannot be parked" ∷ [])
  check_entry_permitted (label r) r.submitted_by caller "park"
  if is_queued r.state
      then refused (
          label r
          ∷ " cannot be parked: it is queued and has not started; cancel it to remove it, or hold the queue to keep it from starting"
          ∷ [])
      else if is_running r.state
      then ok tt
      else refused (label r ∷ " cannot be parked: it is " ∷ state_text r.state ∷ [])

abbrev stopping_text : StopReason → String
stopping_text stop_cancel = "being cancelled"
stopping_text stop_shutdown = "stopping with the server"

-- Why a park that the worker did not take was refused.
unfoldable pub park_refusal : QueueRow → Worker → Result (Unit {0})
park_refusal r w = elim (stop_reason_of r.id w) [
  | some reason ↦ refused (label r ∷ " cannot be parked: it is " ∷ stopping_text reason ∷ [])
  | none ↦ refused (label r ∷ " cannot be parked: it is " ∷ state_now w r ∷ [])
]

park_checked :
    Codec → String → Option String → Meanwhile → QueueRow → Worker → Result (Unit {0}) × Worker
park_checked c now caller m r w =
    let (answer, w') = park_running c now r.id (label r) caller (m.before_call w) in
    elim answer [
      | err e ↦ (err e, w')
      | ok done ↦ if done then (ok tt, w') else (park_refusal r (m.after_call w'), m.after_call w')
    ]

unfoldable pub park_entry :
    Codec → String → String → ℕ → Option String → Meanwhile → Worker → Result (Unit {0}) × Worker
unfolding park_checked
park_entry c now shown i caller m w = elim (entry shown i w) [
  | err e ↦ (err e, w)
  | ok r ↦ elim (park_checks caller r) [
    | err e ↦ (err e, w)
    | ok _ ↦ park_checked c now caller m r w
  ]
]

unfoldable pub unpark_checks : Option String → QueueRow → Result (Unit {0})
unpark_checks caller r = do
  if str_eq r.kind "job"
      then ok tt
      else refused (label r ∷ " is a one-off generation and cannot be unparked" ∷ [])
  check_entry_permitted (label r) r.submitted_by caller "unpark"
  if is_running r.state
      then ok tt
      else refused (label r ∷ " cannot be unparked: it is " ∷ state_text r.state ∷ [])

unfoldable pub unpark_refusal : QueueRow → Worker → Result (Unit {0})
unpark_refusal r w =
    let state = state_now w r in
    if str_eq state "running"
    then refused (label r ∷ " has already parked" ∷ [])
    else if str_eq state "parked"
    then refused (label r ∷ " has already parked" ∷ [])
    else refused (label r ∷ " cannot be unparked: it is " ∷ state ∷ [])

unpark_checked : Option String → Meanwhile → QueueRow → Worker → Result (Unit {0}) × Worker
unpark_checked caller m r w =
    let (answer, w') = unpark_running r.id (label r) caller (m.before_call w) in
    elim answer [
      | err e ↦ (err e, w')
      | ok done ↦
          if done then (ok tt, w') else (unpark_refusal r (m.after_call w'), m.after_call w')
    ]

unfoldable pub unpark_entry :
    String → ℕ → Option String → Meanwhile → Worker → Result (Unit {0}) × Worker
unfolding unpark_checked
unpark_entry shown i caller m w = elim (entry shown i w) [
  | err e ↦ (err e, w)
  | ok r ↦ elim (unpark_checks caller r) [ err e ↦ (err e, w) | ok _ ↦ unpark_checked caller m r w ]
]

cancel_claimed : ℕ → Worker → Result Bool × Worker
cancel_claimed i w = (ok false, (cancel_running i w).1)

-- A queued entry is cancelled; one that was claimed since the read is stopped as a running one is.
cancel_by_state : Codec → String → Meanwhile → QueueRow → Worker → Result Bool × Worker
unfolding cancel_claimed
cancel_by_state c now m r w =
    let (done, w') = cancel_queued c r.id (label r) now (m.before_call w) in
    if is_queued r.state
    then (if done then (ok true, w') else cancel_claimed r.id (m.after_call w'))
    else if is_running r.state
    then cancel_claimed r.id (m.before_call w)
    else (
      raise invalid_state
          (concat (label r ∷ " cannot be cancelled: it is " ∷ state_text r.state ∷ [])),
      w,
    )

unfoldable pub cancel_entry :
    Codec → String → String → ℕ → Option String → Meanwhile → Worker → Result Bool × Worker
unfolding cancel_by_state
cancel_entry c now shown i caller m w = elim (entry shown i w) [
  | err e ↦ (err e, w)
  | ok r ↦ elim (check_entry_permitted (label r) r.submitted_by caller "cancel") [
    | err e ↦ (err e, w)
    | ok _ ↦ cancel_by_state c now m r w
  ]
]
