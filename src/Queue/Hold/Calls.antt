-- ===== src/Queue/Hold/Calls.antt =====
-- Sequences of calls on the hold. Each method takes the hold's lock, so calls from several threads
-- are a sequence. Between two of them the database may come to refuse writes, or accept them again.
use draw_things_control.Prelude.{String, Bool, ◌≡◌, true, Option, List, [], ◌∷◌}
use draw_things_control.Json.{Codec}
use draw_things_control.Queue.Hold.{Hold, hold, release, release_if_by}

pub data Call : Type 0 where
  holds : String → Option String → Option String → Call
  releases : Option String → Call
  unparks : String → Option String → Call
  disk : Bool → Call

unfoldable pub step : Codec → Call → Hold → Hold
step c (holds now by caller) h = (hold c now by caller h).1
step c (releases caller) h = (release caller h).1
step c (unparks label caller) h = (release_if_by label caller h).1
step c (disk accepts) h = record h { settings = record h.settings { writable = accepts } }

unfoldable pub run : Codec → List Call → Hold → Hold
run c [] h = h
run c (call ∷ calls) h = run c calls (step c call h)

-- The clock's texts are timestamps.
abbrev pub IsDated : Codec → Call → Type 0
IsDated c (holds now by caller) = c.is_iso now ≡ true
IsDated c _ = Unit
