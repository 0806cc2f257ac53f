-- ===== src/Queue/Hold/Restart.antt =====
-- services/queue_hold.py: the hold's row and the hold in memory.
use draw_things_control.Prelude.{
  String, Bool, List, [], ◌∷◌, All, true, false, ◌≡◌, refl, ap, Option, none, some, arith, inl, inr,
  or_else, if◌then◌else◌, Option-cases,
}
use draw_things_control.Settings
use draw_things_control.Settings.{Settings, get-upsert, get-without, get-writable}
use draw_things_control.Queue.Events.{Event}
use draw_things_control.Queue.Hold.Calls.{Call, holds, releases, unparks, disk, step, run, IsDated}
use draw_things_control.Json.{Codec}
use draw_things_control.Queue.Hold.{
  HoldState, Hold, hold_key, hold_json, read_text, read_hold, read_row, kept_since, target,
  write_hold, erase_hold, hold, release_by, release, release_if_by, load,
}

-- What the hold relies on of `json`: the row that it saves is read back as it was written.
pub record IsFaithful (c : Codec) : Type 0 where
  pub read_back :
      (since : String) (by caller : Option String)
      → c.loads (c.dumps (hold_json since by caller)) ≡ some (hold_json since by caller)

abbrev pub IsSynced : Codec → Hold → Type 0
IsSynced c h = read_hold c h.settings ≡ h.memory

-- A saved row gives the saved hold.
read_text_saved :
    (c : Codec)
    → IsFaithful c
    → (since : String) (by caller : Option String) → c.is_iso since ≡ true
    → read_text c (c.dumps (hold_json since by caller))
      ≡ record { held = true; since = some since; by = by; caller = caller }
unfolding read_text
read_text_saved c f since none none iso = rw (f.read_back since none none) (rw iso)
read_text_saved c f since none (some d) iso = rw (f.read_back since none (some d)) (rw iso)
read_text_saved c f since (some b) none iso = rw (f.read_back since (some b) none) (rw iso)
read_text_saved c f since (some b) (some d) iso = rw (f.read_back since (some b) (some d)) (rw iso)

-- A readable hold is dated by a text that `fromisoformat` accepts.
dated : (c : Codec) (t since : String) → (read_text c t).since ≡ some since → c.is_iso since ≡ true
unfolding read_text
dated c t since h = ground arith

row-dated :
    (c : Codec) (o : Option String) (since : String)
    → (read_row c o).since ≡ some since
    → c.is_iso since ≡ true
row-dated c none since h = cc
row-dated c (some t) since h = dated c t since h

read_hold-dated :
    (c : Codec) (s : Settings) (since : String)
    → (read_hold c s).since ≡ some since
    → c.is_iso since ≡ true
unfolding read_hold
read_hold-dated c s since h = row-dated c (Settings.get hold_key s) since h

kept_since-dated :
    (c : Codec) (now : String) (state : HoldState)
    → c.is_iso now ≡ true
    → ((since : String) → state.since ≡ some since → c.is_iso since ≡ true)
    → c.is_iso (kept_since now state) ≡ true
kept_since-dated c now state iso d = go state.held state.since d
  where
    go :
        (held : Bool) (o : Option String)
        → ((since : String) → o ≡ some since → c.is_iso since ≡ true)
        → c.is_iso (if held then or_else o now else now) ≡ true
    go true none k = iso
    go true (some t) k = k t refl
    go false o k = iso

-- The step that writes the row keeps memory and row together, saved or refused.
write_hold-IsSynced :
    (c : Codec)
    → IsFaithful c
    → (since : String) (by caller : Option String) (h : Hold) → c.is_iso since ≡ true
    → IsSynced c h
    → IsSynced c (write_hold c since by caller h).1
unfolding write_hold read_hold Settings.set
write_hold-IsSynced c f since by caller h iso s = ground (
  arith,
  get-upsert hold_key hold_key (c.dumps (hold_json since by caller)) h.settings,
  read_text_saved c f since by caller iso,
)

erase_hold-IsSynced : (c : Codec) (h : Hold) → IsSynced c h → IsSynced c (erase_hold h).1
unfolding erase_hold read_hold Settings.delete
erase_hold-IsSynced c h s = ground (arith, get-without hold_key hold_key h.settings)

hold-IsSynced :
    (c : Codec)
    → IsFaithful c
    → (now : String) (by caller : Option String) (h : Hold) → c.is_iso now ≡ true
    → IsSynced c h
    → IsSynced c (hold c now by caller h).1
unfolding hold
hold-IsSynced c f now by caller h iso s = elim (Option-cases (target by caller h.memory)) [
  | inl e ↦ rw (e, hold) s
  | inr ((by', caller'), e) ↦
      rw (e, hold)
        (write_hold-IsSynced c f (kept_since now h.memory) by' caller' h
          (kept_since-dated c now h.memory iso
            (λ since p. read_hold-dated c h.settings since (cc (ap (λ m. m.since) s, p))))
          s)
]

release_by-IsSynced :
    (c : Codec) (only_by caller : Option String) (h : Hold)
    → IsSynced c h
    → IsSynced c (release_by only_by caller h).1
unfolding release_by
release_by-IsSynced c only_by caller h s = let erased = erase_hold-IsSynced c h s in ground arith

step-IsSynced :
    (c : Codec)
    → IsFaithful c
    → (call : Call) (h : Hold) → IsDated c call
    → IsSynced c h
    → IsSynced c (step c call h)
unfolding step release release_if_by read_hold
step-IsSynced c f (holds now by caller) h d s = hold-IsSynced c f now by caller h d s
step-IsSynced c f (releases caller) h d s = release_by-IsSynced c none caller h s
step-IsSynced c f (unparks label caller) h d s = release_by-IsSynced c (some label) caller h s
step-IsSynced c f (disk accepts) h d s = rw (get-writable hold_key accepts h.settings) s

run-IsSynced :
    (c : Codec)
    → IsFaithful c
    → (calls : List Call) (h : Hold) → All (IsDated c) calls
    → IsSynced c h
    → IsSynced c (run c calls h)
unfolding run
run-IsSynced c f [] h d s = s
run-IsSynced c f (call ∷ calls) h d s =
    run-IsSynced c f calls (step c call h) d.1 (step-IsSynced c f call h d.0 s)

-- From any saved settings, and after any calls (holds, releases and unparks by any callers, refused
-- writes included), a hold that is loaded anew from the settings is the hold as it stands in memory.
-- The saved JSON reads back, and the clock gives ISO timestamps.
pub restart_keeps_hold :
    (c : Codec)
    → IsFaithful c
    → (calls : List Call) (s : Settings) (events : List Event) → All (IsDated c) calls
    → let h = run c calls (load c s events) in load c h.settings h.events ≡ h
unfolding load
restart_keeps_hold c f calls s events d =
    let start : Hold = record { settings = s; memory = read_hold c s; events = events } in
    let e = run-IsSynced c f calls start d refl in λ i. record (run c calls start) { memory = e i }
