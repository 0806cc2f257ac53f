-- ===== src/Tracker/Examples.antt =====
-- The spans of a small child.
use draw_things_control.Prelude.{ℕ, true, none, some, List, [], ◌∷◌, ◌≡◌, refl, arith, length}
use draw_things_control.Tracker.{
  Reading, track, feed, finish, feed_all, new_tracker, begin, close, restarted, complete, advance,
}
use draw_things_control.Tracker.Tiling.{Covers, spans_tile}

-- A denoise stage of three steps, its counter once started over, and then a decode.
abbrev step_reading : ℕ → ℕ → Reading
step_reading at n = record {
  stage = "denoise";
  phase = "Sampling";
  offset = at;
  done = some n;
  total = some 3;
  unit = some "steps";
  begins = true;
}

abbrev decode_reading : Reading
decode_reading = record {
  stage = "decode";
  phase = "Decoding";
  offset = 20;
  done = none;
  total = none;
  unit = none;
  begins = true;
}

abbrev readings : List Reading
readings =
    step_reading 4 0
    ∷ step_reading 8 2
    ∷ step_reading 12 1
    ∷ step_reading 15 2
    ∷ decode_reading
    ∷ []

three_spans : length (track 0 "child" readings 30) ≡ 3
unfolding track feed finish feed_all new_tracker begin close restarted complete advance
three_spans = refl

spans_tile_example : Covers 0 30 (track 0 "child" readings 30)
spans_tile_example =
    spans_tile 0 "child" readings 30
      (omega arith, (omega arith, (omega arith, (omega arith, (omega arith, tt)))))
