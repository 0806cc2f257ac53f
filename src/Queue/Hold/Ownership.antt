-- ===== src/Queue/Hold/Ownership.antt =====
-- services/queue_hold.py: who may end a hold, and whose it becomes.
use draw_things_control.Prelude.{
  ◌⊎◌, inl, inr, Option-cases, Bool-cases, String, ◌||◌, Bool, true, false, ◌≡◌, not, Option, none,
  some, List, [], ◌∷◌, arith, All, opt_str_eq_iff,
}
use draw_things_control.Errors.{Failure, ok, err, not_permitted, operational_error, raise}
use draw_things_control.Settings
use draw_things_control.Settings.{Settings, get-without}
use draw_things_control.Json.{Codec}
use draw_things_control.Queue.Events.{Event, released, publish}
use draw_things_control.Queue.Callers.{is_agent}
use draw_things_control.Queue.Hold.{
  HoldState, Hold, hold, new_caller, release_by, release, release_if_by, refusal_text, damaged,
  load, target, read_hold, read_row, read_text, hold_key, not_held,
}
use draw_things_control.Queue.Hold.Calls.{Call, holds, releases, unparks, disk, step, run}

-- The queue is held, and the hold counts as a person's.
pub record IsPersons (h : Hold) : Type 0 where
  pub is_held : h.memory.held ≡ true
  pub by_person : is_agent h.memory.caller ≡ false

-- Calls that only agents make.
abbrev pub IsAgents : Call → Type 0
IsAgents (holds now by caller) = is_agent caller ≡ true
IsAgents (releases caller) = is_agent caller ≡ true
IsAgents (unparks label caller) = is_agent caller ≡ true
IsAgents (disk accepts) = Unit

hold-IsPersons :
    (c : Codec) (now : String) (by caller : Option String) (h : Hold)
    → is_agent caller ≡ true
    → IsPersons h
    → IsPersons (hold c now by caller h).1
unfolding hold Settings.set
hold-IsPersons c now by caller h a p = ground arith

release_by-IsPersons :
    (only_by caller : Option String) (h : Hold)
    → is_agent caller ≡ true
    → IsPersons h
    → IsPersons (release_by only_by caller h).1
unfolding release_by
release_by-IsPersons only_by caller h a p = ground arith

step-IsPersons :
    (c : Codec) (call : Call) (h : Hold) → IsAgents call → IsPersons h → IsPersons (step c call h)
unfolding step release release_if_by
step-IsPersons c (holds now by caller) h a p = hold-IsPersons c now by caller h a p
step-IsPersons c (releases caller) h a p = release_by-IsPersons none caller h a p
step-IsPersons c (unparks label caller) h a p = release_by-IsPersons (some label) caller h a p
step-IsPersons c (disk accepts) h a p = record { is_held = p.is_held; by_person = p.by_person }

-- However many calls agents make on a hold that a person made, the queue stays held, and the hold
-- stays a person's.
pub agents_keep_hold :
    (c : Codec) (calls : List Call) (h : Hold)
    → All IsAgents calls
    → IsPersons h
    → IsPersons (run c calls h)
unfolding run
agents_keep_hold c [] h a p = p
agents_keep_hold c (call ∷ calls) h a p =
    agents_keep_hold c calls (step c call h) a.1 (step-IsPersons c call h a.0 p)

-- A hold that cannot be read has no entry and no caller.
abbrev IsReadable : Hold → Type 0
IsReadable h = damaged h.memory ≡ true → (h.memory.by ≡ none) × (h.memory.caller ≡ none)

row-IsReadable :
    (c : Codec) (o : Option String)
    → damaged (read_row c o) ≡ true
    → ((read_row c o).by ≡ none) × ((read_row c o).caller ≡ none)
unfolding read_text
row-IsReadable c none d = cc
row-IsReadable c (some t) d = ground arith

hold-IsReadable :
    (c : Codec) (now : String) (by caller : Option String) (h : Hold)
    → IsReadable h
    → IsReadable (hold c now by caller h).1
unfolding hold Settings.set
hold-IsReadable c now by caller h r = ground arith

release_by-IsReadable :
    (only_by caller : Option String) (h : Hold)
    → IsReadable h
    → IsReadable (release_by only_by caller h).1
unfolding release_by Settings.delete
release_by-IsReadable only_by caller h r = ground arith

run-IsReadable :
    (c : Codec) (calls : List Call) (h : Hold) → IsReadable h → IsReadable (run c calls h)
unfolding run step release release_if_by
run-IsReadable c [] h r = r
run-IsReadable c (holds now by caller ∷ calls) h r =
    run-IsReadable c calls _ (hold-IsReadable c now by caller h r)
run-IsReadable c (releases caller ∷ calls) h r =
    run-IsReadable c calls _ (release_by-IsReadable none caller h r)
run-IsReadable c (unparks label caller ∷ calls) h r =
    run-IsReadable c calls _ (release_by-IsReadable (some label) caller h r)
run-IsReadable c (disk accepts ∷ calls) h r = run-IsReadable c calls _ r

after_calls-IsReadable :
    (c : Codec) (calls : List Call) (s : Settings) (events : List Event)
    → IsReadable (run c calls (load c s events))
unfolding load read_hold
after_calls-IsReadable c calls s events =
    run-IsReadable c calls (record { settings = s; memory = read_hold c s; events = events })
      (row-IsReadable c (Settings.get hold_key s))

hold_by_person :
    (c : Codec) (now : String) (by caller : Option String) (h : Hold)
    → IsReadable h
    → is_agent caller ≡ false
    → h.settings.writable ≡ true
    → IsPersons (hold c now by caller h).1
unfolding hold Settings.set is_agent
hold_by_person c now by caller h r a w =
    ground (arith, opt_str_eq_iff (new_caller by caller h.memory) h.memory.caller)

-- A hold that answers leaves the queue held; one that raises changes nothing.
pub hold-cases :
    (c : Codec) (now : String) (by caller : Option String) (h : Hold)
    → ((e : Failure) × (hold c now by caller h ≡ (err e, h)))
      ⊎ ((b : Bool) × (h' : Hold) × (hold c now by caller h ≡ (ok b, h')) × (h'.memory.held ≡ true))
unfolding hold Settings.set
hold-cases c now by caller h = elim (Option-cases (target by caller h.memory)) [
  | inl e ↦ inr (false, h, ground arith, ground arith)
  | inr ((by', caller'), e) ↦ elim (Bool-cases h.settings.writable) [
    | inl b ↦ inr (not h.memory.held, (hold c now by caller h).1, ground arith, ground arith)
    | inr b ↦ inl (record { code = operational_error; text = h.settings.refusal }, ground arith)
  ]
]

-- After any calls, a hold by a person, direct or for a park, leaves the queue held by a person, also
-- where an agent held it before, if the settings accept the write.
pub person_takes_hold :
    (c : Codec) (calls : List Call) (s : Settings) (events : List Event) (now : String)
    (by caller : Option String)
    → let h = run c calls (load c s events) in
      is_agent caller ≡ false → h.settings.writable ≡ true → IsPersons (hold c now by caller h).1
person_takes_hold c calls s events now by caller a w =
    hold_by_person c now by caller (run c calls (load c s events))
      (after_calls-IsReadable c calls s events) a w

direct_hold_clears_by :
    (c : Codec) (now : String) (caller : Option String) (h : Hold)
    → IsReadable h
    → h.settings.writable ≡ true
    → ((hold c now none caller h).1.memory.by ≡ none)
      × ((hold c now none caller h).1.memory.held ≡ true)
unfolding hold Settings.set
direct_hold_clears_by c now caller h r w = ground (arith, opt_str_eq_iff none h.memory.by)

unpark_of_direct :
    (label : String) (unparker : Option String) (h : Hold)
    → h.memory.by ≡ none
    → release_if_by label unparker h ≡ (ok false, h)
unfolding release_if_by release_by
unpark_of_direct label unparker h e = ground arith

-- After any calls, a direct hold makes the hold its own: an unpark of whatever entry, by whatever
-- caller, does not end it and changes nothing, if the settings accept the hold's write.
pub direct_hold_outlives_unpark :
    (c : Codec) (calls : List Call) (s : Settings) (events : List Event) (now label : String)
    (caller unparker : Option String)
    → let h = run c calls (load c s events) in
      h.settings.writable ≡ true
      → let h' = (hold c now none caller h).1 in
        (h'.memory.held ≡ true) × (release_if_by label unparker h' ≡ (ok false, h'))
direct_hold_outlives_unpark c calls s events now label caller unparker w =
    let h = run c calls (load c s events) in
    let facts = direct_hold_clears_by c now caller h (after_calls-IsReadable c calls s events) w in
    (facts.1, unpark_of_direct label unparker (hold c now none caller h).1 facts.0)

-- The caller may end the hold: it is a person, or an agent made the hold.
abbrev pub may_release : Option String → HoldState → Bool
may_release caller state = not (is_agent caller) || is_agent state.caller

-- What a release does, on every branch. Not held: False, and nothing changes. Not permitted: the
-- refusal, and nothing changes. Permitted, and the row cannot be removed: the database's own error, and
-- memory and events stay. Permitted, and the row is removed: True, the queue is not held, in memory and in the
-- settings, and one release is published.
pub release_outcome :
    (c : Codec) (caller : Option String) (h : Hold)
    → let (r, h') = release caller h in
      (h.memory.held ≡ false → (r ≡ ok false) × (h' ≡ h))
      × (h.memory.held ≡ true
          → may_release caller h.memory ≡ false
          → (r ≡ raise not_permitted (refusal_text h.memory)) × (h' ≡ h))
      × (h.memory.held ≡ true
          → may_release caller h.memory ≡ true
          → h.settings.writable ≡ false
          → (r ≡ raise operational_error h.settings.refusal) × (h' ≡ h))
      × (h.memory.held ≡ true
          → may_release caller h.memory ≡ true
          → h.settings.writable ≡ true
          → (r ≡ ok true)
            × (h'.memory ≡ not_held)
            × (read_hold c h'.settings ≡ not_held)
            × (h'.events ≡ publish released h.events))
unfolding release release_by read_hold Settings.delete
release_outcome c caller h = (
  ground arith,
  ground arith,
  ground arith,
  ground (arith, get-without hold_key hold_key h.settings),
)

-- A hold on a queue that was not held, and an unpark by its label that is permitted.
pub hold_unheld :
    (c : Codec) (now : String) (by caller : Option String) (h : Hold)
    → h.memory.held ≡ false
    → h.settings.writable ≡ true
    → (h' : Hold) × (hold c now by caller h ≡ (ok true, h'))
      × (h'.memory ≡ record { held = true; since = some now; by = by; caller = caller })
      × (h'.settings.writable ≡ true)
unfolding hold Settings.set
hold_unheld c now by caller h e w =
    ((hold c now by caller h).1, ground arith, ground arith, ground arith)

pub unpark_of_own :
    (label : String) (unparker : Option String) (h : Hold)
    → h.memory.held ≡ true
    → h.memory.by ≡ some label
    → may_release unparker h.memory ≡ true
    → h.settings.writable ≡ true
    → (h' : Hold) × (release_if_by label unparker h ≡ (ok true, h')) × (h'.memory ≡ not_held)
unfolding release_if_by release_by Settings.delete
unpark_of_own label unparker h held by may w = (
  (release_if_by label unparker h).1,
  ground (arith, opt_str_eq_iff h.memory.by (some label)),
  ground (arith, opt_str_eq_iff h.memory.by (some label)),
)
