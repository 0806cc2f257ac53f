-- ===== src/Segments/Chunks.antt =====
-- core/process/segments.py: the segments of an output that comes in chunks, and its lines.
use draw_things_control.Prelude.{
  ℕ, Bool, true, false, ◌≡◌, refl, sym, ap, ◌∙◌, Option, none, List, [], ◌∷◌, ◌++◌, map, arith,
  Bool-cases, inl, inr, if◌then◌else◌,
}
use mathlib.Core.List.{append-nil, append_assoc}
use draw_things_control.Segments.{
  Text, Segment, is_terminator, is_empty, Piece, terminator, content, split, prepend, Splitter,
  new_splitter, cut, was_released, feed_piece, feed_pieces, feed, flush, feed_all,
}

-- The non-empty lines of a text after `pending`, line by line.
unfoldable pub lines_from : Text → Text → List Text
lines_from pending [] = if is_empty pending then [] else pending ∷ []
lines_from pending (c ∷ cs) =
    let ended = lines_from [] cs in
    let longer = lines_from (pending ++ c ∷ []) cs in
    if is_terminator c then (if is_empty pending then ended else pending ∷ ended) else longer

abbrev pub texts : List Segment → List Text
texts segments = map (λ (s : Segment). s.0) segments

abbrev pub whole : List (Text × ℕ) → Text
whole [] = []
whole (chunk ∷ chunks) = chunk.0 ++ whole chunks

-- The pieces, put together again.
glue : List Piece → Text → Text → List Text
glue [] pending rest = lines_from pending rest
glue (terminator ∷ ps) pending rest =
    let later = glue ps [] rest in if is_empty pending then later else pending ∷ later
glue (content w ∷ ps) pending rest = glue ps (pending ++ w) rest

glue-prepend :
    (c : ℕ) (ps : List Piece) (pending rest : Text)
    → glue (prepend c ps) pending rest ≡ glue ps (pending ++ c ∷ []) rest
unfolding glue prepend
glue-prepend c [] pending rest = refl
glue-prepend c (terminator ∷ ps) pending rest = refl
glue-prepend c (content w ∷ ps) pending rest =
    ap (λ x. glue ps x rest) (sym (append_assoc pending (c ∷ []) w))

glue-split :
    (cs pending rest : Text) → glue (split cs) pending rest ≡ lines_from pending (cs ++ rest)
unfolding split lines_from glue
glue-split [] pending rest = ap (λ x. lines_from x rest) (append-nil pending)
glue-split (c ∷ cs) pending rest =
    let ended = glue-split cs [] rest in
    let longer = glue-prepend c (split cs) pending rest ∙ glue-split cs (pending ++ c ∷ []) rest in
    let same = append-nil pending in
    elim (Bool-cases (is_terminator c)) [
      | inl e ↦ rw e (rw same (ground (arith, ended)))
      | inr e ↦ rw e longer
    ]

empty_nil : (w : Text) → is_empty w ≡ true → w ≡ []
empty_nil [] e = refl
empty_nil (c ∷ cs) e = absurd (ground arith)

feed_pieces-glue :
    (at : ℕ) (ps : List Piece) (s : Splitter) (rest : Text)
    → s.released ≡ none
    → ((feed_pieces at ps s).1.released ≡ none)
      × (texts (feed_pieces at ps s).0 ++ lines_from (feed_pieces at ps s).1.pending rest
          ≡ glue ps s.pending rest)
unfolding feed_pieces feed_piece cut was_released glue
feed_pieces-glue at [] s rest h = (h, refl)
feed_pieces-glue at (terminator ∷ ps) s rest h =
    let s' : Splitter = record s { pending = []; released = none } in
    let (r, e) = feed_pieces-glue at ps s' rest refl in
    let new : was_released s ≡ false = ground arith in
    elim (Bool-cases (is_empty s.pending)) [
      | inl b ↦ (r, rw b e)
      | inr b ↦ (r, rw b (rw new (ap (λ l. s.pending ∷ l) e)))
    ]
feed_pieces-glue at (content w ∷ ps) s rest h = elim (Bool-cases (is_empty w)) [
  | inl b ↦
      let (r, e) = feed_pieces-glue at ps s rest h in
      let same = ap (λ x. glue ps (s.pending ++ x) rest) (empty_nil w b) in
      let nil = ap (λ x. glue ps x rest) (append-nil s.pending) in rw b (r, e ∙ sym (same ∙ nil))
  | inr b ↦
      let s' : Splitter = record s { pending = s.pending ++ w; arrived = at } in
      rw b (feed_pieces-glue at ps s' rest h)
]

feed-lines :
    (text : Text) (at : ℕ) (s : Splitter) (rest : Text)
    → s.released ≡ none
    → ((feed text at s).1.released ≡ none)
      × (texts (feed text at s).0 ++ lines_from (feed text at s).1.pending rest
          ≡ lines_from s.pending (text ++ rest))
unfolding feed
feed-lines text at s rest h =
    let facts = feed_pieces-glue at (split text) s rest h in
    (facts.0, facts.1 ∙ glue-split text s.pending rest)

texts-append : (xs ys : List Segment) → texts (xs ++ ys) ≡ texts xs ++ texts ys
texts-append [] ys = refl
texts-append (x ∷ xs) ys = ap (λ r. x.0 ∷ r) (texts-append xs ys)

feed_all-lines :
    (chunks : List (Text × ℕ)) (s : Splitter)
    → s.released ≡ none
    → texts (feed_all chunks s) ≡ lines_from s.pending (whole chunks)
unfolding feed_all flush cut was_released lines_from
feed_all-lines [] s h = ground (arith, h)
feed_all-lines ((text, at) ∷ chunks) s h =
    let facts = feed-lines text at s (whole chunks) h in
    texts-append (feed text at s).0 (feed_all chunks (feed text at s).1)
    ∙ ap (λ r. texts (feed text at s).0 ++ r) (feed_all-lines chunks (feed text at s).1 facts.0)
    ∙ facts.1

-- However the output is cut into chunks, also between the characters of a line end, and whenever they
-- arrive: the segments that are delivered, where none is released early, are the non-empty lines of the
-- whole output, in order.
pub chunks_do_not_matter :
    (accepts : Option (Text → Bool)) (idle_seconds : ℕ) (chunks : List (Text × ℕ))
    → texts (feed_all chunks (new_splitter accepts idle_seconds)) ≡ lines_from [] (whole chunks)
unfolding new_splitter
chunks_do_not_matter accepts idle_seconds chunks =
    feed_all-lines chunks (new_splitter accepts idle_seconds) refl
