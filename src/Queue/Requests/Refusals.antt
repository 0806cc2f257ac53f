-- ===== src/Queue/Requests/Refusals.antt =====
-- services/queue_park.py and services/queue_cancel.py: requests that are refused.
use draw_things_control.Prelude.{ℕ, String, true, false, ◌≡◌, Option, none, some, arith, str_eq}
use draw_things_control.Errors.{Code, Result, ok, err, not_permitted, not_found, invalid_state}
use draw_things_control.Json.{Codec}
use draw_things_control.Queue.Events.{is_finished}
use draw_things_control.Queue.Callers.{is_agent, check_entry_permitted}
use draw_things_control.Queue.Rows
use draw_things_control.Queue.Rows.{QueueRow}
use draw_things_control.Queue.Worker.{Worker}
use draw_things_control.Queue.Requests.{
  Meanwhile, entry, park_checks, unpark_checks, park_entry, unpark_entry, cancel_entry,
}

-- A request that raised an error of the code, and left the worker as it was.
abbrev pub IsRefused : {A : Type 0} → Code → Worker → Result A × Worker → Type 0
IsRefused code w (ok a, w') = ⊥
IsRefused code w (err e, w') = (e.code ≡ code) × (w' ≡ w)

-- An agent's park, unpark and cancel of a job that a person submitted are all refused as not
-- permitted, in whatever state the entry is and whatever other threads do, and change nothing.
pub agent_leaves_persons_entry :
    (c : Codec) (now shown : String) (i : ℕ) (caller : Option String) (m : Meanwhile) (w : Worker)
    (r : QueueRow)
    → Rows.get i w.table ≡ some r
    → str_eq r.kind "job" ≡ true
    → is_agent caller ≡ true
    → is_agent r.submitted_by ≡ false
    → IsRefused not_permitted w (park_entry c now shown i caller m w)
      × IsRefused not_permitted w (unpark_entry shown i caller m w)
      × IsRefused not_permitted w (cancel_entry c now shown i caller m w)
unfolding park_entry unpark_entry cancel_entry entry park_checks unpark_checks check_entry_permitted
agent_leaves_persons_entry c now shown i caller m w r e kind agent person =
    (ground arith, ground arith, ground arith)

-- A request for an entry that is not stored is answered as not found, and one of a person for a finished
-- entry is refused for its state; both change nothing.
pub absent_or_finished-IsRefused :
    (c : Codec) (now shown : String) (i : ℕ) (caller : Option String) (m : Meanwhile) (w : Worker)
    → (Rows.get i w.table ≡ none
        → IsRefused not_found w (park_entry c now shown i caller m w)
          × IsRefused not_found w (unpark_entry shown i caller m w)
          × IsRefused not_found w (cancel_entry c now shown i caller m w))
      × ((r : QueueRow)
          → Rows.get i w.table ≡ some r
          → is_finished r.state ≡ true
          → is_agent caller ≡ false
          → IsRefused invalid_state w (park_entry c now shown i caller m w)
            × IsRefused invalid_state w (unpark_entry shown i caller m w)
            × IsRefused invalid_state w (cancel_entry c now shown i caller m w))
unfolding park_entry unpark_entry cancel_entry entry park_checks unpark_checks check_entry_permitted
absent_or_finished-IsRefused c now shown i caller m w = (
  λ e. (ground arith, ground arith, ground arith),
  λ r e finished person. (ground arith, ground arith, ground arith),
)
