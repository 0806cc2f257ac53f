-- ===== src/Queue/Hold/Examples.antt =====
-- The theorems on the hold, at concrete calls.
use draw_things_control.Prelude.{
  String, Bool, true, false, ◌≡◌, refl, ap, ◌∙◌, Option, none, some, List, [], ◌∷◌,
}
use draw_things_control.Errors.{Result, ok, not_permitted, operational_error, raise}
use draw_things_control.Settings
use draw_things_control.Settings.{Settings}
use draw_things_control.Json.{Json}
use draw_things_control.Samples.{
  hold_of, codec, saved_nothing, dump, load, put_opt, take_opt, take_opt-put_opt,
}
use draw_things_control.Queue.Events.{released, publish}
use draw_things_control.Queue.Callers.{is_agent}
use draw_things_control.Queue.Hold.{
  Hold, hold, hold_json, release, release_if_by, refusal_text, read_hold, not_held,
  load as load_hold,
}
use draw_things_control.Queue.Hold.Calls.{Call, holds, releases, unparks, disk, step, run}
use draw_things_control.Queue.Hold.Restart.{IsFaithful, restart_keeps_hold}
use draw_things_control.Queue.Hold.Ownership.{
  IsPersons, agents_keep_hold, person_takes_hold, direct_hold_outlives_unpark, release_outcome,
  may_release,
}

-- The JSON of the three texts that were read, each with what followed it.
abbrev texts_of : Option String × String → Option String × String → Option String × String → Json
texts_of x y z = hold_of x.0 y.0 z.0

read_back_texts :
    (since : String) (by caller : Option String)
    → load (put_opt (some since) (put_opt by (put_opt caller "")))
      ≡ some (hold_json since by caller)
unfolding load
read_back_texts since by caller =
    ap (λ x. some (texts_of x (take_opt x.1) (take_opt (take_opt x.1).1)))
      (take_opt-put_opt (some since) (put_opt by (put_opt caller "")))
    ∙ ap (λ y. some (texts_of (some since, "") y (take_opt y.1)))
        (take_opt-put_opt by (put_opt caller ""))
    ∙ ap (λ z. some (texts_of (some since, "") (by, "") z)) (take_opt-put_opt caller "")
    ∙ same by caller
  where
    same :
        (by caller : Option String)
        → some (texts_of (some since, "") (by, "") (caller, "")) ≡ some (hold_json since by caller)
    same none none = refl
    same none (some c) = refl
    same (some b) none = refl
    same (some b) (some c) = refl

codec-IsFaithful : IsFaithful codec
unfolding dump
codec-IsFaithful = record { read_back = read_back_cases }
  where
    read_back_cases :
        (since : String) (by caller : Option String)
        → load (dump (hold_json since by caller)) ≡ some (hold_json since by caller)
    read_back_cases since none none = read_back_texts since none none
    read_back_cases since none (some c) = read_back_texts since none (some c)
    read_back_cases since (some b) none = read_back_texts since (some b) none
    read_back_cases since (some b) (some c) = read_back_texts since (some b) (some c)

abbrev calls : List Call
calls =
    holds "2026-01-01" (some "Q0001") (some "mcp")
    ∷ releases (some "mcp")
    ∷ disk false
    ∷ holds "2026-01-02" none (some "tui")
    ∷ disk true
    ∷ holds "2026-01-03" none (some "tui")
    ∷ []

restart_keeps_hold_example :
    let h = run codec calls (load_hold codec saved_nothing []) in
    load_hold codec h.settings h.events ≡ h
restart_keeps_hold_example =
    restart_keeps_hold codec codec-IsFaithful calls saved_nothing []
      (refl, (tt, (tt, (refl, (tt, (refl, tt))))))

abbrev persons : Hold
persons = record {
  settings = saved_nothing;
  memory = record { held = true; since = some "2026-01-01"; by = none; caller = some "tui" };
  events = [];
}

persons-IsPersons : IsPersons persons
unfolding is_agent
persons-IsPersons = record { is_held = refl; by_person = refl }

abbrev agent_calls : List Call
agent_calls =
    holds "2026-01-02" (some "Q0002") (some "mcp")
    ∷ releases (some "mcp")
    ∷ unparks "Q0002" (some "mcp")
    ∷ []

agents_keep_hold_example : IsPersons (run codec agent_calls persons)
unfolding is_agent
agents_keep_hold_example =
    agents_keep_hold codec agent_calls persons (refl, (refl, (refl, tt))) persons-IsPersons

person_takes_hold_example :
    let h =
      run codec (holds "2026-01-01" none (some "mcp") ∷ []) (load_hold codec saved_nothing []) in
    IsPersons (hold codec "2026-01-02" none (some "tui") h).1
unfolding is_agent run step load_hold hold Settings.get Settings.set
person_takes_hold_example =
    person_takes_hold codec (holds "2026-01-01" none (some "mcp") ∷ []) saved_nothing []
      "2026-01-02" none (some "tui") refl refl

direct_hold_outlives_unpark_example :
    let h =
      run codec
        (holds "2026-01-01" (some "Q0001") (some "tui") ∷ [])
        (load_hold codec saved_nothing []) in
    let h' = (hold codec "2026-01-02" none (some "tui") h).1 in
    (h'.memory.held ≡ true) × (release_if_by "Q0001" (some "tui") h' ≡ (ok false, h'))
unfolding run step load_hold hold Settings.get Settings.set
direct_hold_outlives_unpark_example =
    direct_hold_outlives_unpark codec (holds "2026-01-01" (some "Q0001") (some "tui") ∷ [])
      saved_nothing [] "2026-01-02" "Q0001" (some "tui") (some "tui") refl

abbrev a_release : Result Bool × Hold
a_release = release (some "mcp") persons

release_outcome_example :
    (persons.memory.held ≡ false → (a_release.0 ≡ ok false) × (a_release.1 ≡ persons))
    × (persons.memory.held ≡ true
        → may_release (some "mcp") persons.memory ≡ false
        → (a_release.0 ≡ raise not_permitted (refusal_text persons.memory))
          × (a_release.1 ≡ persons))
    × (persons.memory.held ≡ true
        → may_release (some "mcp") persons.memory ≡ true
        → persons.settings.writable ≡ false
        → (a_release.0 ≡ raise operational_error persons.settings.refusal)
          × (a_release.1 ≡ persons))
    × (persons.memory.held ≡ true
        → may_release (some "mcp") persons.memory ≡ true
        → persons.settings.writable ≡ true
        → (a_release.0 ≡ ok true)
          × (a_release.1.memory ≡ not_held)
          × (read_hold codec a_release.1.settings ≡ not_held)
          × (a_release.1.events ≡ publish released persons.events))
release_outcome_example = release_outcome codec (some "mcp") persons
