-- ===== src/Samples.antt =====
-- Concrete values for tests: a codec, queue entries and tables.
use draw_things_control.Prelude.{
  Bool, not, ◌≡◌, refl, ap, str_eq, Option, none, some, ◌==◌, if◌then◌else◌,
}
use Prim.Native.Char.{Char, code}
use Prim.Native.String.{String, [], ◌∷◌, len}
use draw_things_control.Json.{Json, null, text, object, member, end, Codec}
use draw_things_control.Settings.{Settings}
use mathlib.Core.List
use draw_things_control.Queue.Rows.{NewQueueEntry, Table, empty, submit}

abbrev end_mark : Char
end_mark = "e"

abbrev more_mark : Char
more_mark = "x"

abbrev is_end : Char → Bool
is_end c = code c == b'e'

-- A text that another one follows: each character behind a mark.
put : String → String → String
put [] rest = end_mark ∷ rest
put (c ∷ s) rest = more_mark ∷ (c ∷ put s rest)

take : String → String × String
take [] = ([], [])
take (m ∷ []) = ([], [])
take (m ∷ (c ∷ rest)) = let (s, r) = take rest in if is_end m then ([], c ∷ rest) else (c ∷ s, r)

pub put_opt : Option String → String → String
unfolding put
put_opt none rest = end_mark ∷ rest
put_opt (some s) rest = more_mark ∷ put s rest

pub take_opt : String → Option String × String
unfolding take
take_opt [] = (none, [])
take_opt (m ∷ rest) = let (s, r) = take rest in if is_end m then (none, rest) else (some s, r)

take-put : (s rest : String) → take (put s rest) ≡ (s, rest)
unfolding take put
take-put [] [] = refl
take-put [] (c ∷ rest) = refl
take-put (c ∷ s) rest = ap (λ x. (c ∷ x.0, x.1)) (take-put s rest)

pub take_opt-put_opt : (o : Option String) (rest : String) → take_opt (put_opt o rest) ≡ (o, rest)
unfolding take_opt put_opt
take_opt-put_opt none rest = refl
take_opt-put_opt (some s) rest = ap (λ x. (some x.0, x.1)) (take-put s rest)

abbrev opt_of : Json → Option String
opt_of (text s) = some s
opt_of _ = none

abbrev json_of : Option String → Json
json_of none = null
json_of (some s) = text s

-- Writes the three texts of a hold, and nothing of any other value.
unfoldable pub dump : Json → String
dump (object (member k s (member l b (member m c rest)))) =
    put_opt (opt_of s) (put_opt (opt_of b) (put_opt (opt_of c) []))
dump _ = []

abbrev pub hold_of : Option String → Option String → Option String → Json
hold_of since by caller = object (
    member "since" (json_of since)
      (member "by" (json_of by) (member "caller" (json_of caller) end)))

unfoldable pub load : String → Option Json
load s =
    let (since, r) = take_opt s in
    let (by, r') = take_opt r in let (caller, r'') = take_opt r' in some (hold_of since by caller)

abbrev pub codec : Codec
codec = record {
  loads = load;
  dumps = dump;
  is_iso = λ s. not (str_eq s "");
  timestamp = λ s. len s;
}

abbrev pub new_entry : String → NewQueueEntry
new_entry by = record {
  job_path = "jobs/a.yaml";
  job_text = "runs: 3";
  config_file = "a.json";
  config_text = "{}";
  input_directory = "in";
  output_directory = "out";
  cooldown_default = none;
  settings = null;
  submitted_at = "2026-01-01";
  total_runs = 3;
  resumes = none;
  resumes_execution = none;
  resume_first_run = none;
  resume_input = none;
  resume_seed = none;
  resume_first_image = none;
  resume_anchor = none;
  submitted_by = some by;
  kind = "job";
  snapshot = some "{}";
  backend = "draw-things";
}

-- A person's entry and then an agent's.
abbrev pub two_queued : Table
two_queued = (submit codec (new_entry "mcp") (submit codec (new_entry "tui") empty).1).1

abbrev pub saved_nothing : Settings
saved_nothing = record { rows = List.[]; writable = Bool.true; refusal = "database is locked" }
