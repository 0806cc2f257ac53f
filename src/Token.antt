-- ===== src/Token.antt =====
-- core/process/signals.py, `CancelToken`: whether a running job was told to stop or to park. A
-- method that holds the lock to its end is one step, unless a thread without the lock may come in between:
-- `cancel` and `attach` have points where it may. A signal is its number, and a runner is a number too:
-- what each was asked is the list of requests.
pub mod Race
pub mod Parking
mod Examples
use draw_things_control.Prelude.{
  ℕ, ◌+◌, Bool, true, false, ◌||◌, Option, none, some, List, [], ◌∷◌, ◌++◌, is_some, if◌then◌else◌,
}
use draw_things_control.Errors.{Result, ok, err}

abbrev pub sigterm : ℕ
sigterm = 15

-- `woken` is the wake-up pipe: closed, or open with or without a byte that waits. A full pipe
-- already holds one, so a write that it refuses changes nothing.
pub record Token : Type 0 where
  pub running : Bool
  pub signal : Option ℕ
  pub park_requested : Bool
  pub park_taken : Bool
  pub park_count : ℕ
  pub runner : Option ℕ
  pub woken : Option Bool
  pub requests : List (ℕ × ℕ)

-- `CancelToken()`.
abbrev pub new_token : Token
new_token = record {
  running = false;
  signal = none;
  park_requested = false;
  park_taken = false;
  park_count = 0;
  runner = none;
  woken = none;
  requests = [];
}

-- `runner.request_shutdown(signal)`, for a runner that may be None.
abbrev pub request_shutdown : Option ℕ → ℕ → Token → Token
request_shutdown none g t = t
request_shutdown (some r) g t = record t { requests = t.requests ++ (r, g) ∷ [] }

abbrev pub wake : Token → Token
wake t = record t { woken = elim t.woken [ none ↦ none | some b ↦ some true ] }

-- None is the `RuntimeError` of a token that already runs a job.
unfoldable pub begin : Token → Option Token
begin t =
    if t.running
    then none
    else some (record t {
      running = true;
      signal = none;
      park_requested = false;
      park_taken = false;
      park_count = 0;
      woken = some false;
    })

unfoldable pub end : Token → Token
end t = record t { running = false; woken = none }

-- `cancel` in the steps between which `attach`, which takes no lock, may come in: the flag is set, and
-- then, still under the lock, the runner is read; the runner is asked outside the lock.
pub data Canceller : Type 0 where
  ready : Canceller
  flagged : Canceller
  holding : Option ℕ → Canceller
  done : Bool → Canceller

unfoldable pub cancel_next : ℕ → Canceller → Token → Canceller × Token
cancel_next g ready t =
    if t.running then (flagged, wake (record t { signal = some g })) else (done false, t)
cancel_next g flagged t = (holding t.runner, t)
cancel_next g (holding o) t = (done true, request_shutdown o g t)
cancel_next g (done b) t = (done b, t)

-- `cancel` with nothing in between.
unfoldable pub cancel : ℕ → Token → Bool × Token
unfolding cancel_next
cancel g t =
    let (first, t1) = cancel_next g ready t in
    let (second, t2) = cancel_next g first t1 in
    let (third, t3) = cancel_next g second t2 in
    (elim third [ ready ↦ false | flagged ↦ false | holding o ↦ false | done b ↦ b ], t3)

unfoldable pub park : Token → Bool × Token
park t =
    if t.running
    then (true, wake (record t { park_requested = true; park_count = t.park_count + 1 }))
    else (false, t)

-- `commit` runs first, on a state of its own, under the lock: if it raises, the park stands.
unfoldable pub unpark {ℓ} :
    {S : Type ℓ} → (S → Result Bool × S) → Token → S → Result Bool × (Token × S)
unpark commit t s =
    if t.park_taken
    then (ok false, (t, s))
    else let (r, s') = commit s in
      elim r [
        | err e ↦ (err e, (t, s'))
        | ok _ ↦ (ok true, (record t { park_requested = false }, s'))
      ]

unfoldable pub take_park : Token → Bool × Token
take_park t =
    let taken = t.park_taken || t.park_requested in (taken, record t { park_taken = taken })

-- The handler of a signal, which takes no lock.
unfoldable pub receive : ℕ → Token → Token
receive g t = request_shutdown t.runner g (record t { signal = some g })

-- `attach` stores the runner, and then reads the flag.
unfoldable pub attach_store : ℕ → Token → Token
attach_store r t = record t { runner = some r }

unfoldable pub attach_check : ℕ → Token → Token
attach_check r t = elim t.signal [ none ↦ t | some g ↦ request_shutdown (some r) g t ]

unfoldable pub attach : ℕ → Token → Token
unfolding attach_store attach_check
attach r t = attach_check r (attach_store r t)

unfoldable pub detach : Token → Token
detach t = record t { runner = none }

-- What ends a wait between runs: `wait` passes it to `interruptible_wait`.
unfoldable pub wait_stops : Token → Bool
wait_stops t = is_some t.signal || t.park_requested
