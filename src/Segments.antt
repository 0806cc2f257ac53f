-- ===== src/Segments.antt =====
-- core/process/segments.py: a child's output, cut into the segments that it wrote. A text is the list of
-- its characters' codes, and a time is a natural number of some unit. `accepts` is the backend's
-- predicate of the text without its terminal codes.
pub mod Chunks
mod Examples
use draw_things_control.Prelude.{
  ℕ, ◌+◌, Bool, true, false, not, ◌&&◌, ◌||◌, Option, none, some, List, [], ◌∷◌, ◌++◌, ◌==◌, ltb,
  if◌then◌else◌,
}

abbrev pub Text : Type 0
Text = List ℕ

abbrev pub Segment : Type 0
Segment = Text × ℕ

-- `\r` and `\n`.
abbrev pub is_terminator : ℕ → Bool
is_terminator c = c == 13 || c == 10

pub data Piece : Type 0 where
  terminator : Piece
  content : Text → Piece

prepend : ℕ → List Piece → List Piece
prepend c (content w ∷ rest) = content (c ∷ w) ∷ rest
prepend c pieces = content (c ∷ []) ∷ pieces

-- `_TERMINATORS.split`: the texts between the terminators, and these.
unfoldable pub split : Text → List Piece
unfolding prepend
split [] = content [] ∷ []
split (c ∷ cs) =
    let rest = split cs in
    if is_terminator c then content [] ∷ terminator ∷ rest else prepend c rest

abbrev pub is_empty : Text → Bool
is_empty [] = true
is_empty (c ∷ cs) = false

text_eq : Text → Text → Bool
text_eq [] [] = true
text_eq (c ∷ cs) (d ∷ ds) = c == d && text_eq cs ds
text_eq _ _ = false

pub record Splitter : Type 0 where
  pub accepts : Option (Text → Bool)
  pub idle_seconds : ℕ
  pub pending : Text
  pub arrived : ℕ
  pub released : Option Text

unfoldable pub new_splitter : Option (Text → Bool) → ℕ → Splitter
new_splitter accepts idle_seconds = record {
  accepts = accepts;
  idle_seconds = idle_seconds;
  pending = [];
  arrived = 0;
  released = none;
}

-- `self._released == self._pending`.
unfoldable pub was_released : Splitter → Bool
unfolding text_eq
was_released s = elim s.released [ none ↦ false | some t ↦ text_eq t s.pending ]

-- `_cut`: the segment that it appends, if any.
unfoldable pub cut : Splitter → List Segment × Splitter
unfolding was_released
cut s = (
  if not (is_empty s.pending) && not (was_released s) then (s.pending, s.arrived) ∷ [] else [],
  record s { pending = []; released = none },
)

unfoldable pub feed_piece : ℕ → Piece → Splitter → List Segment × Splitter
unfolding cut
feed_piece arrived terminator s = cut s
feed_piece arrived (content w) s =
    ([], if is_empty w then s else record s { pending = s.pending ++ w; arrived = arrived })

unfoldable pub feed_pieces : ℕ → List Piece → Splitter → List Segment × Splitter
unfolding feed_piece
feed_pieces arrived [] s = ([], s)
feed_pieces arrived (p ∷ ps) s =
    let (now, s') = feed_piece arrived p s in
    let (later, s'') = feed_pieces arrived ps s' in (now ++ later, s'')

unfoldable pub feed : Text → ℕ → Splitter → List Segment × Splitter
unfolding feed_pieces
feed text arrived s = feed_pieces arrived (split text) s

-- `_releasable`.
unfoldable pub releasable : Splitter → Bool
unfolding was_released
releasable s = elim s.accepts [
  | none ↦ false
  | some accepts ↦ not (is_empty s.pending) && not (was_released s) && accepts s.pending
]

unfoldable pub idle_deadline : Splitter → Option ℕ
unfolding releasable
idle_deadline s = if releasable s then some (s.arrived + s.idle_seconds) else none

unfoldable pub release_idle : ℕ → Splitter → List Segment × Splitter
unfolding idle_deadline
release_idle now s = elim (idle_deadline s) [
  | none ↦ ([], s)
  | some deadline ↦
      if ltb now deadline
      then ([], s)
      else ((s.pending, s.arrived) ∷ [], record s { released = some s.pending })
]

unfoldable pub flush : Splitter → List Segment × Splitter
unfolding cut
flush s = cut s

-- A stream's chunks, each with its arrival, and its end.
unfoldable pub feed_all : List (Text × ℕ) → Splitter → List Segment
feed_all [] s = (flush s).0
feed_all (chunk ∷ chunks) s = let (now, s') = feed chunk.0 chunk.1 s in now ++ feed_all chunks s'
