-- ===== src/Segments/Examples.antt =====
-- A bar that is redrawn with carriage returns, in chunks that cut its lines.
use draw_things_control.Prelude.{ℕ, none, List, [], ◌∷◌, ◌≡◌, refl}
use draw_things_control.Segments.{Text, new_splitter, feed_all}
use draw_things_control.Segments.Chunks.{texts, whole, lines_from, chunks_do_not_matter}

abbrev chunks : List (Text × ℕ)
chunks = (b'a' ∷ 13 ∷ b'b' ∷ [], 1) ∷ (b'c' ∷ 13 ∷ [], 2) ∷ (10 ∷ b'd' ∷ [], 5) ∷ []

three_lines : lines_from [] (whole chunks) ≡ (b'a' ∷ []) ∷ (b'b' ∷ b'c' ∷ []) ∷ (b'd' ∷ []) ∷ []
unfolding lines_from
three_lines = refl

chunks_do_not_matter_example :
    texts (feed_all chunks (new_splitter none 2)) ≡ lines_from [] (whole chunks)
chunks_do_not_matter_example = chunks_do_not_matter none 2 chunks
