-- ===== src/Queue/Hold.antt =====
-- services/queue_hold.py: the queue's hold, in memory and in its row of the settings. The methods
-- run under the hold's lock, so each is one step. A method returns its result, or the error that it
-- raised, and the new state.
pub mod Calls
pub mod Restart
pub mod Ownership
mod Examples
use draw_things_control.Prelude.{
  String, Bool, true, false, ◌&&◌, ◌||◌, not, Option, none, some, List, [], ◌∷◌, str_eq, opt_str_eq,
  is_none, is_some, or_else, if◌then◌else◌,
}
use draw_things_control.Errors.{Result, ok, err, not_permitted, raise, concat}
use draw_things_control.Settings
use draw_things_control.Settings.{Settings}
use draw_things_control.Json.{Json, Members, null, text, object, member, end, lookup, Codec}
use draw_things_control.Queue.Events.{Event, publish}
use draw_things_control.Queue.Callers.{is_agent, maker_text}

abbrev pub hold_key : String
hold_key = "queue_hold"

pub record HoldState : Type 0 where
  pub held : Bool
  pub since : Option String
  pub by : Option String
  pub caller : Option String

-- `HoldState()` and `HoldState(held=True)`.
abbrev pub not_held : HoldState
not_held = record { held = false; since = none; by = none; caller = none }

abbrev pub damaged_hold : HoldState
damaged_hold = record { held = true; since = none; by = none; caller = none }

abbrev pub damaged : HoldState → Bool
damaged h = h.held && is_none h.since

abbrev as_text : Json → Option String
as_text (text s) = some s
as_text _ = none

-- A text or null; `none` for the `TypeError`.
abbrev text_or_null : Json → Option (Option String)
text_or_null null = some none
text_or_null (text s) = some (some s)
text_or_null _ = none

infixl 5 ◌>>=◌
abbrev ◌>>=◌ : {A B : Type 0} → Option A → (A → Option B) → Option B
none >>= f = none
some a >>= f = f a

abbrev read_members : Codec → Members → Option HoldState
read_members c m = do
  since ← lookup "since" m >>= as_text
  by ← lookup "by" m >>= text_or_null
  caller ← text_or_null (or_else (lookup "caller" m) null)
  if c.is_iso since
      then some (record { held = true; since = some since; by = by; caller = caller })
      else none

-- What the row's text means; `none` for a text that raises.
abbrev read_json : Codec → Json → Option HoldState
read_json c (object m) = read_members c m
read_json c _ = none

pub read_text : Codec → String → HoldState
read_text c t = or_else (c.loads t >>= read_json c) damaged_hold

abbrev read_row : Codec → Option String → HoldState
read_row c none = not_held
read_row c (some t) = read_text c t

unfoldable pub read_hold : Codec → Settings → HoldState
unfolding read_text
read_hold c s = read_row c (Settings.get hold_key s)

pub record Hold : Type 0 where
  pub settings : Settings
  pub memory : HoldState
  pub events : List Event

-- `QueueHold.__init__`.
unfoldable pub load : Codec → Settings → List Event → Hold
unfolding read_hold
load c s events = record { settings = s; memory = read_hold c s; events = events }

abbrev json_of : Option String → Json
json_of none = null
json_of (some s) = text s

abbrev pub hold_json : String → Option String → Option String → Json
hold_json since by caller =
    object (
      member "since" (text since) (member "by" (json_of by) (member "caller" (json_of caller) end)))

abbrev pub new_by : Option String → HoldState → Option String
new_by none state = none
new_by (some label) state = state.by

differ : Bool → Bool → Bool
differ true b = not b
differ false b = b

pub new_caller : Option String → Option String → HoldState → Option String
unfolding differ
new_caller by caller state =
    if differ (is_agent caller) (is_agent state.caller)
    then (if is_agent caller then state.caller else caller)
    else (if is_none (new_by by state) && is_some state.by then caller else state.caller)

pub held_again : Option String → Option String → HoldState → Option (Option String × Option String)
unfolding new_caller
held_again by caller state =
    if damaged state
      || (opt_str_eq (new_by by state) state.by
          && opt_str_eq (new_caller by caller state) state.caller)
    then none
    else some (new_by by state, new_caller by caller state)

-- The entry and the caller that the hold gets; `none` when the call changes nothing.
abbrev target : Option String → Option String → HoldState → Option (Option String × Option String)
target by caller state = if state.held then held_again by caller state else some (by, caller)

abbrev kept_since : String → HoldState → String
kept_since now state = if state.held then or_else state.since now else now

-- The row first: a hold that could not be saved is not held in memory either.
write_hold : Codec → String → Option String → Option String → Hold → Result Bool × Hold
write_hold c since by caller h =
    let (saved, settings) =
      Settings.set hold_key (c.dumps (hold_json since by caller)) h.settings in
    elim saved [
      | err e ↦ (err e, record h { settings = settings })
      | ok _ ↦ (
        ok (not h.memory.held),
        record {
          settings = settings;
          memory = record { held = true; since = some since; by = by; caller = caller };
          events = publish (Event.held (some since) by caller) h.events;
        },
      )
    ]

-- `now` is the text of the clock's time.
unfoldable pub hold : Codec → String → Option String → Option String → Hold → Result Bool × Hold
unfolding write_hold held_again
hold c now by caller h = elim (target by caller h.memory) [
  | none ↦ (ok false, h)
  | some (by', caller') ↦ write_hold c (kept_since now h.memory) by' caller' h
]

pub refusal_text : HoldState → String
refusal_text h =
    if damaged h
    then "The queue's saved hold cannot be read, so it counts as a person's; an agent may release only a hold an agent made"
    else concat (
        "The queue was held"
        ∷ elim h.by [ none ↦ "" | some label ↦ concat (" with " ∷ label ∷ "'s park" ∷ []) ]
        ∷ " by "
        ∷ maker_text h.caller
        ∷ "; an agent may release only a hold an agent made"
        ∷ [])

-- The row first: a hold whose row could not be removed is still held in memory too.
erase_hold : Hold → Result Bool × Hold
erase_hold h =
    let (gone, settings) = Settings.delete hold_key h.settings in
    elim gone [
      | err e ↦ (err e, record h { settings = settings })
      | ok _ ↦ (
        ok true,
        record { settings = settings; memory = not_held; events = publish Event.released h.events },
      )
    ]

abbrev made_by_other : Option String → HoldState → Bool
made_by_other none state = false
made_by_other (some label) state = not (opt_str_eq state.by (some label))

pub release_by : Option String → Option String → Hold → Result Bool × Hold
unfolding erase_hold
release_by only_by caller h =
    if not h.memory.held || made_by_other only_by h.memory
    then (ok false, h)
    else if is_agent caller && not (is_agent h.memory.caller)
    then (raise not_permitted (refusal_text h.memory), h)
    else erase_hold h

unfoldable pub release : Option String → Hold → Result Bool × Hold
release caller h = release_by none caller h

unfoldable pub release_if_by : String → Option String → Hold → Result Bool × Hold
release_if_by label caller h = release_by (some label) caller h
