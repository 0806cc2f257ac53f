-- ===== src/Tracker/Tiling.antt =====
-- jobs/timing/tracker.py: how the spans follow on one another.
use draw_things_control.Prelude.{
  ℕ, ◌≤◌, ◌≡◌, refl, String, max, Option, none, some, List, [], ◌∷◌, ◌++◌, arith, Option-cases, inl,
  inr, if_ind, not, ◌∙◌, sym,
}
use mathlib.Core.Path.{subst}
use draw_things_control.Tracker.{
  Reading, StageSpan, Open, Tracker, new_tracker, begin, close, complete, restarted, advance,
  key_of, same_key, boundary_of, feed_open, advanced, span_of, feed, finish, feed_all, track,
}

-- From `lo` to `hi`: each span starts where the one before ended.
abbrev pub Tiles : ℕ → List StageSpan → ℕ → Type 0
Tiles lo [] hi = lo ≡ hi
Tiles lo (s ∷ rest) hi = (s.start ≡ lo) × Tiles s.end rest hi

-- No span ends before it starts.
abbrev pub Forward : List StageSpan → Type 0
Forward [] = Unit
Forward (s ∷ rest) = (s.start ≤ s.end) × Forward rest

-- The readings come in the order of their offsets, none before `lo`.
abbrev pub InOrder : ℕ → List Reading → Type 0
InOrder lo [] = Unit
InOrder lo (r ∷ rs) = (lo ≤ r.offset) × InOrder r.offset rs

Tiles-snoc :
    (lo mid : ℕ) (spans : List StageSpan) (s : StageSpan)
    → Tiles lo spans mid
    → s.start ≡ mid
    → Tiles lo (spans ++ s ∷ []) s.end
Tiles-snoc lo mid [] s h e = ground (arith, h, e)
Tiles-snoc lo mid (x ∷ spans) s h e = (h.0, Tiles-snoc x.end mid spans s h.1 e)

Forward-snoc :
    (spans : List StageSpan) (s : StageSpan)
    → Forward spans
    → s.start ≤ s.end
    → Forward (spans ++ s ∷ [])
Forward-snoc [] s h e = (e, tt)
Forward-snoc (x ∷ spans) s h e = (h.0, Forward-snoc spans s h.1 e)

-- What holds of the open stage and the closed ones, for readings up to the offset `m`.
record Tiled (o : Open) (t : Tracker) : Type 0 where
  tiles : Tiles t.origin t.spans t.boundary
  continues : o.start ≡ t.boundary

record Ordered (m : ℕ) (o : Open) (t : Tracker) : Type 0 where
  forward : Forward t.spans
  opens : o.start ≤ o.last
  latest : o.last ≤ m

abbrev OfPair : (Open → Tracker → Type 0) → Open × Tracker → Type 0
OfPair P (o, t) = P o t

complete-start :
    (r : Reading) (b : ℕ) (o : Open)
    → ((complete r b o).start ≡ o.start) × ((complete r b o).last ≡ o.last)
unfolding complete
complete-start r b o = (ground arith, ground arith)

advance-start :
    (r : Reading) (o : Open)
    → ((advance r o).start ≡ o.start) × ((advance r o).last ≡ max o.last r.offset)
unfolding advance
advance-start r o = (ground arith, ground arith)

reopen-Tiled :
    (r : Reading) (b : ℕ) (o o' : Open) (t : Tracker)
    → o'.start ≡ o.start
    → Tiled o t
    → OfPair Tiled (begin r b (close o' b t))
unfolding begin close span_of
reopen-Tiled r b o o' t e v = record {
  tiles = Tiles-snoc t.origin t.boundary t.spans (span_of o' t.source b) v.tiles (e ∙ v.continues);
  continues = refl;
}

feed_open-Tiled :
    (r : Reading) (o : Open) (t : Tracker) → Tiled o t → OfPair Tiled (feed_open r o t)
unfolding feed_open
feed_open-Tiled r o t v =
    let b = boundary_of r o in
    if_ind (OfPair Tiled) (not (same_key (key_of r) o.key)) _ _
      (λ _. reopen-Tiled r b o (complete r b o) t (complete-start r b o).0 v)
      (λ _. if_ind (OfPair Tiled) (restarted o r) _ _ (λ _. reopen-Tiled r b o o t refl v) (λ _. v))

reopen-Ordered :
    (r : Reading) (b m : ℕ) (o o' : Open) (t : Tracker)
    → o'.start ≤ b
    → b ≤ m
    → Ordered m o t
    → OfPair (Ordered m) (begin r b (close o' b t))
unfolding begin close span_of
reopen-Ordered r b m o o' t e k v = record {
  forward = Forward-snoc t.spans (span_of o' t.source b) v.forward e;
  opens = omega arith;
  latest = k;
}

feed_open-Ordered :
    (r : Reading) (m : ℕ) (o : Open) (t : Tracker)
    → m ≤ r.offset
    → Ordered m o t
    → OfPair (Ordered r.offset) (feed_open r o t)
unfolding feed_open
feed_open-Ordered r m o t k v =
    let b = boundary_of r o in
    let low : o.start ≤ b = ground (arith, v.opens, v.latest) in
    let high : b ≤ r.offset = ground (arith, v.opens, v.latest) in
    let v' : Ordered r.offset o t = record {
      forward = v.forward;
      opens = v.opens;
      latest = omega (arith, v.latest);
    } in
    if_ind (OfPair (Ordered r.offset)) (not (same_key (key_of r) o.key)) _ _
      (λ _.
        reopen-Ordered r b r.offset o (complete r b o) t
          (omega (arith, (complete-start r b o).0, low)) high v')
      (λ _.
        if_ind (OfPair (Ordered r.offset)) (restarted o r) _ _
          (λ _. reopen-Ordered r b r.offset o o t low high v') (λ _. v'))

-- A tracker between two readings, of which the latest had the offset `m`.
abbrev Between : ℕ → Option Open → Tracker → Type 0
Between m none t = (t.spans ≡ []) × (t.boundary ≡ t.origin) × (t.origin ≤ m)
Between m (some o) t = Tiled o t × Ordered m o t

advanced-Between :
    (r : Reading) (p : Open × Tracker)
    → OfPair Tiled p
    → OfPair (Ordered r.offset) p
    → Between r.offset (advanced r p).current (advanced r p)
advanced-Between r (o, t) v k =
    let e = advance-start r o in
    (
      record { tiles = v.tiles; continues = e.0 ∙ v.continues },
      record {
        forward = k.forward;
        opens = ground (arith, e, k.opens);
        latest = ground (arith, e, k.latest);
      },
    )

first-Tiled :
    (r : Reading) (t : Tracker)
    → t.spans ≡ []
    → t.boundary ≡ t.origin
    → OfPair Tiled (begin r t.boundary t)
unfolding begin
first-Tiled r t s b = record {
  tiles = subst (λ x. Tiles t.origin x t.boundary) (sym s) (sym b);
  continues = refl;
}

first-Ordered :
    (r : Reading) (t : Tracker)
    → t.spans ≡ []
    → t.boundary ≤ r.offset
    → OfPair (Ordered r.offset) (begin r t.boundary t)
unfolding begin
first-Ordered r t s b = record {
  forward = subst Forward (sym s) tt;
  opens = omega arith;
  latest = b;
}

feed-Between :
    (r : Reading) (m : ℕ) (t : Tracker) (k : m ≤ r.offset)
    → Between m t.current t
    → Between r.offset (feed r t).current (feed r t)
unfolding feed
feed-Between r m t k v = go t.current v
  where
    go :
        (cur : Option Open)
        → Between m cur t
        → let t' = advanced r (elim cur as (λ _. Open × Tracker) [
          | none ↦ begin r t.boundary t
          | some o ↦ feed_open r o t
        ]) in
          Between r.offset t'.current t'
    go none h =
        advanced-Between r (begin r t.boundary t) (first-Tiled r t h.0 h.1)
          (first-Ordered r t h.0 (omega (arith, h.1, h.2)))
    go (some o) h =
        advanced-Between r (feed_open r o t) (feed_open-Tiled r o t h.0)
          (feed_open-Ordered r m o t k h.1)

feed_all-Between :
    (m : ℕ) (rs : List Reading) (t : Tracker)
    → InOrder m rs
    → Between m t.current t
    → (n : ℕ) × Between n (feed_all rs t).current (feed_all rs t)
unfolding feed_all
feed_all-Between m [] t i v = (m, v)
feed_all-Between m (r ∷ rs) t i v =
    feed_all-Between r.offset rs (feed r t) i.1 (feed-Between r m t i.0 v)

-- The spans from `lo` on cover the time up to `end` and beyond the last reading.
abbrev pub Covers : ℕ → ℕ → List StageSpan → Type 0
Covers lo end spans = (hi : ℕ) × (end ≤ hi) × Tiles lo spans hi × Forward spans

feed-origin : (r : Reading) (t : Tracker) → (feed r t).origin ≡ t.origin
unfolding feed begin close feed_open
feed-origin r t = ground arith

feed_all-origin : (rs : List Reading) (t : Tracker) → (feed_all rs t).origin ≡ t.origin
unfolding feed_all
feed_all-origin [] t = refl
feed_all-origin (r ∷ rs) t = feed_all-origin rs (feed r t) ∙ feed-origin r t

finish-none :
    (end : ℕ) (t : Tracker)
    → t.current ≡ none
    → t.spans ≡ []
    → (s : StageSpan) × ((finish end t).spans ≡ s ∷ [])
      × (s.start ≡ t.origin)
      × (s.end ≡ max end t.origin)
unfolding finish
finish-none end t c s = (
  record {
    stage = "child";
    phase = none;
    source = t.source;
    start = t.origin;
    end = max end t.origin;
    done = none;
    total = none;
    unit = none;
    marks = [];
  },
  ground arith,
  refl,
  refl,
)

finish-some :
    (end : ℕ) (t : Tracker) (o : Open)
    → t.current ≡ some o
    → (finish end t).spans ≡ t.spans ++ span_of o t.source (max end o.last) ∷ []
unfolding finish close
finish-some end t o c = ground arith

finish-Covers :
    (m end : ℕ) (t : Tracker) → Between m t.current t → Covers t.origin end (finish end t).spans
unfolding span_of
finish-Covers m end t v = elim (Option-cases t.current) [
  | inl c ↦
      let h : Between m none t = subst (λ x. Between m x t) c v in
      let (s, e, start, stop) = finish-none end t c h.0 in
      (
        max end t.origin,
        omega arith,
        subst (λ x. Tiles t.origin x (max end t.origin)) (sym e) (start, stop),
        subst Forward (sym e) (omega (arith, start, stop), tt),
      )
  | inr (o, c) ↦
      let h : Between m (some o) t = subst (λ x. Between m x t) c v in
      let s = span_of o t.source (max end o.last) in
      let e = finish-some end t o c in
      (
        max end o.last,
        omega arith,
        subst (λ x. Tiles t.origin x (max end o.last)) (sym e)
            (Tiles-snoc t.origin t.boundary t.spans s h.0.tiles h.0.continues),
        subst Forward (sym e) (Forward-snoc t.spans s h.1.forward (omega (arith, h.1.opens))),
      )
]

-- Of a child whose readings come in the order of their offsets, none before the origin, until it exits
-- at `end`: the spans follow on one another without a gap or an overlap, the first from the origin and
-- the last to the exit or beyond it, and none ends before it starts.
pub spans_tile :
    (origin : ℕ) (source : String) (rs : List Reading) (end : ℕ)
    → InOrder origin rs
    → Covers origin end (track origin source rs end)
unfolding track new_tracker
spans_tile origin source rs end i =
    let t = new_tracker origin source in
    let (n, v) = feed_all-Between origin rs t i (refl, refl, omega arith) in
    subst (λ x. Covers x end (finish end (feed_all rs t)).spans) (feed_all-origin rs t)
      (finish-Covers n end (feed_all rs t) v)
