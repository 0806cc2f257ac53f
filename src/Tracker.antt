-- ===== src/Tracker.antt =====
-- jobs/timing/tracker.py and jobs/timing/model.py: the spans of a child's stages, from its readings. An
-- offset is only compared and copied, so a natural number stands for the float, counted from before the
-- earliest one. The two observers are attached: what they are told is the list of notices.
pub mod Tiling
mod Examples
use draw_things_control.Prelude.{
  ℕ, zero, suc, ◌+◌, ◌-◌, ◌*◌, ◌/◌, String, Bool, true, false, not, ◌&&◌, ◌||◌, ltb, leb, max,
  Option, none, some, List, [], ◌∷◌, ◌++◌, str_eq, opt_str_eq, ◌==◌, is_some, or_else, length,
  if◌then◌else◌,
}

pub record Reading : Type 0 where
  pub stage : String
  pub phase : String
  pub offset : ℕ
  pub done : Option ℕ
  pub total : Option ℕ
  pub unit : Option String
  pub begins : Bool

abbrev pub Marks : Type 0
Marks = List (ℕ × ℕ)

-- `uncertain` is False in every span that the tracker makes.
pub record StageSpan : Type 0 where
  pub stage : String
  pub phase : Option String
  pub source : String
  pub start : ℕ
  pub end : ℕ
  pub done : Option ℕ
  pub total : Option ℕ
  pub unit : Option String
  pub marks : Marks

abbrev max_marks : ℕ
max_marks = 1000

nth_mark : ℕ → Marks → ℕ × ℕ
nth_mark i [] = (0, 0)
nth_mark zero (m ∷ ms) = m
nth_mark (suc i) (m ∷ ms) = nth_mark i ms

-- The mark at `round(index * last / (limit - 1))`, to the nearest; it is evaluated for 1000 marks, where
-- no quotient is halfway between two numbers.
spaced : ℕ → ℕ → Marks → Marks
unfolding nth_mark
spaced zero index marks = []
spaced (suc left) index marks =
    let last = length marks - 1 in
    nth_mark ((2 * (index * last) + (max_marks - 1)) / (2 * (max_marks - 1))) marks
    ∷ spaced left (suc index) marks

unfoldable pub thin_marks : Marks → Marks
unfolding spaced
thin_marks marks = if leb (length marks) max_marks then marks else spaced max_marks 0 marks

-- `_Open`.
pub record Open : Type 0 where
  pub key : String × Option String
  pub stage : String
  pub phase : String
  pub start : ℕ
  pub last : ℕ
  pub done : Option ℕ
  pub total : Option ℕ
  pub unit : Option String
  pub marks : Marks

unfoldable pub span_of : Open → String → ℕ → StageSpan
span_of o source end = record {
  stage = o.stage;
  phase = some o.phase;
  source = source;
  start = o.start;
  end = end;
  done = o.done;
  total = o.total;
  unit = o.unit;
  marks = thin_marks o.marks;
}

pub data Notice : Type 0 where
  started finished : StageSpan → Notice

pub record Tracker : Type 0 where
  pub origin : ℕ
  pub source : String
  pub spans : List StageSpan
  pub current : Option Open
  pub boundary : ℕ
  pub notices : List Notice

unfoldable pub new_tracker : ℕ → String → Tracker
new_tracker origin source = record {
  origin = origin;
  source = source;
  spans = [];
  current = none;
  boundary = origin;
  notices = [];
}

abbrev key_of : Reading → String × Option String
key_of r = (r.stage, if str_eq r.stage "other" then some r.phase else none)

abbrev same_key : String × Option String → String × Option String → Bool
same_key k l = str_eq k.0 l.0 && opt_str_eq k.1 l.1

-- A span with neither a counter nor marks.
abbrev bare_span : String → Option String → String → ℕ → ℕ → StageSpan
bare_span stage phase source start end = record {
  stage = stage;
  phase = phase;
  source = source;
  start = start;
  end = end;
  done = none;
  total = none;
  unit = none;
  marks = [];
}

abbrev opened : Reading → ℕ → Open
opened r start = record {
  key = key_of r;
  stage = r.stage;
  phase = r.phase;
  start = start;
  last = start;
  done = none;
  total = none;
  unit = none;
  marks = [];
}

-- `_begin`, which also gives the stage that it opens.
unfoldable pub begin : Reading → ℕ → Tracker → Open × Tracker
begin r start t = (
  opened r start,
  record t {
    current = some (opened r start);
    notices = t.notices ++ started (bare_span r.stage (some r.phase) t.source start start) ∷ [];
  },
)

-- `_close`, of the stage that is open.
unfoldable pub close : Open → ℕ → Tracker → Tracker
close o end t = record t {
  spans = t.spans ++ span_of o t.source end ∷ [];
  current = none;
  boundary = end;
  notices = t.notices ++ finished (span_of o t.source end) ∷ [];
}

abbrev opt_eq : Option ℕ → Option ℕ → Bool
opt_eq none none = true
opt_eq (some a) (some b) = a == b
opt_eq _ _ = false

-- `_restarted`.
unfoldable pub restarted : Open → Reading → Bool
restarted o r = elim r.done [
  | none ↦ false
  | some d ↦ elim o.done [
    | none ↦ false
    | some e ↦ ltb d e || (is_some o.total && not (opt_eq r.total o.total))
  ]
]

-- The next stage starting is the proof that this one's last unit is done.
unfoldable pub complete : Reading → ℕ → Open → Open
complete r boundary o = elim o.total [
  | none ↦ o
  | some total ↦
      if r.begins && is_some o.unit && not (opt_eq o.done (some total))
      then record o { done = some total; marks = o.marks ++ (boundary, total) ∷ [] }
      else o
]

last_done : Marks → Option ℕ
last_done [] = none
last_done (m ∷ []) = some m.1
last_done (m ∷ n ∷ rest) = last_done (n ∷ rest)

-- `reading.unit or current.unit`.
abbrev unit_of : Option String → Option String → Option String
unit_of none old = old
unit_of (some u) old = if str_eq u "" then old else some u

abbrev counted : Reading → ℕ → Open → Open
counted r d o =
    let unit = unit_of r.unit o.unit in
    record o {
      done = some d;
      total = r.total;
      unit = unit;
      marks =
          if is_some unit && not (opt_eq (last_done o.marks) (some d))
          then o.marks ++ (r.offset, d) ∷ []
          else o.marks;
    }

-- The end of `feed`: the reading is the open stage's latest.
unfoldable pub advance : Reading → Open → Open
unfolding last_done
advance r o =
    let o' = record o { last = max o.last r.offset } in
    elim r.done [ none ↦ o' | some d ↦ counted r d o' ]

abbrev advanced : Reading → Open × Tracker → Tracker
advanced r (o, t) = record t { current = some (advance r o) }

abbrev boundary_of : Reading → Open → ℕ
boundary_of r o = if r.begins then r.offset else o.last

-- What `feed` does with a stage open.
feed_open : Reading → Open → Tracker → Open × Tracker
feed_open r o t =
    let boundary = boundary_of r o in
    if not (same_key (key_of r) o.key)
    then begin r boundary (close (complete r boundary o) boundary t)
    else if restarted o r
    then begin r boundary (close o boundary t)
    else (o, t)

unfoldable pub feed : Reading → Tracker → Tracker
unfolding feed_open
feed r t = advanced r (elim t.current [ none ↦ begin r t.boundary t | some o ↦ feed_open r o t ])

unfoldable pub finish : ℕ → Tracker → Tracker
finish end t = elim t.current [
  | none ↦ elim t.spans [
    | [] ↦
        let span = bare_span "child" none t.source t.origin (max end t.origin) in
        record t {
          spans = span ∷ [];
          notices =
              t.notices
              ++ started (bare_span "child" none t.source t.origin t.origin) ∷ finished span ∷ [];
        }
    | _ ∷ _ ↦ t
  ]
  | some o ↦ close o (max end o.last) t
]

unfoldable pub feed_all : List Reading → Tracker → Tracker
feed_all [] t = t
feed_all (r ∷ rs) t = feed_all rs (feed r t)

-- A child's readings, and its exit.
unfoldable pub track : ℕ → String → List Reading → ℕ → List StageSpan
track origin source rs end = (finish end (feed_all rs (new_tracker origin source))).spans
