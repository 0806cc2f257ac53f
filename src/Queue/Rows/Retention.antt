-- ===== src/Queue/Rows/Retention.antt =====
-- state/queue.py: what retention deletes.
use draw_things_control.Prelude.{
  ℕ, ltb, ◌&&◌, ◌⊎◌, ◌≤◌, ◌<◌, Bool, true, false, ◌≡◌, refl, not, Option, none, some, List, [], ◌∷◌,
  arith, any, ◌==◌, ==→≡, All, All-weaken, Bool-cases, inl, inr, is_some, if◌then◌else◌,
}
use mathlib.Core.Path.{subst}
use draw_things_control.Queue.Events.{is_finished}
use draw_things_control.Queue.Rows.{QueueRow, Table, select, find_row, is_pruned, prune, get}
use draw_things_control.Queue.Rows.Ascending.{IsAscending, later}
use draw_things_control.Queue.Rows.Invariant.{IsWellFormed, IsConsistent}

pub find_beyond : (i : ℕ) (rows : List QueueRow) → All (λ r. i < r.id) rows → find_row i rows ≡ none
unfolding find_row
find_beyond i [] h = refl
find_beyond i (r ∷ rows) h = ground (arith, find_beyond i rows h.1, h.0)

select-beyond :
    (p : QueueRow → Bool) (i : ℕ) (rows : List QueueRow)
    → All (λ r. i < r.id) rows
    → find_row i (select p rows) ≡ none
unfolding select find_row
select-beyond p i [] h = refl
select-beyond p i (r ∷ rows) h = ground (arith, select-beyond p i rows h.1, h.0)

abbrev pub kept_if : (QueueRow → Bool) → Option QueueRow → Option QueueRow
kept_if p none = none
kept_if p (some r) = if p r then some r else none

pub find-select :
    (p : QueueRow → Bool) (j lo n : ℕ) (rows : List QueueRow)
    → IsAscending lo n rows
    → find_row j (select p rows) ≡ kept_if p (find_row j rows)
unfolding select find_row
find-select p j lo n [] h = refl
find-select p j lo n (r ∷ rows) h = elim (Bool-cases (r.id == j)) [
  | inl e ↦
      let rest = select-beyond p j rows (
        All-weaken (λ q. r.id < q.id) (λ q. j < q.id) rows (λ q k. omega (arith, ==→≡ r.id j e))
          (later r.id r.queue_number rows h.2)) in
      ground (arith, rest)
  | inr e ↦ ground (arith, find-select p j r.id r.queue_number rows h.2)
]

found_has :
    (P : QueueRow → Type 0) (j : ℕ) (rows : List QueueRow) {r : QueueRow}
    → All P rows
    → find_row j rows ≡ some r
    → P r
unfolding find_row
found_has P j [] h e = cc
found_has P j (q ∷ rows) {r} h e = elim (Bool-cases (q.id == j)) [
  | inl b ↦ let same : q ≡ r = ground arith in subst P same h.0
  | inr b ↦ found_has P j rows h.1 (ground arith)
]

-- The conditions under which an entry outlives a prune: it has not finished, it finished at the cutoff
-- or later, or it is kept.
abbrev pub Outlives : ℕ → List ℕ → QueueRow → Type 0
Outlives cutoff keep r =
    (is_finished r.state ≡ false)
    ⊎ ((e : ℕ) × (r.finished_epoch ≡ some e) × (cutoff ≤ e))
    ⊎ (any (λ n. n == r.queue_number) keep ≡ true)

abbrev is_old : ℕ → Option ℕ → Bool
is_old cutoff none = false
is_old cutoff (some e) = ltb e cutoff

unpruned :
    (cutoff : ℕ) (o : Option ℕ) (finished kept : Bool)
    → is_some o ≡ finished
    → (is_old cutoff o && not kept) ≡ false
    → (finished ≡ false) ⊎ ((e : ℕ) × (o ≡ some e) × (cutoff ≤ e)) ⊎ (kept ≡ true)
unpruned cutoff none finished kept d h = inl (ground arith)
unpruned cutoff (some e) finished true d h = inr (inr refl)
unpruned cutoff (some e) finished false d h = inr (inl (e, refl, ground arith))

Outlives-unpruned :
    (cutoff : ℕ) (keep : List ℕ) (r : QueueRow)
    → is_some r.finished_epoch ≡ is_finished r.state
    → Outlives cutoff keep r
    → is_pruned cutoff keep r ≡ false
unfolding is_pruned
Outlives-unpruned cutoff keep r d (inl h) = ground arith
Outlives-unpruned cutoff keep r d (inr (inl (e, p, q))) = ground arith
Outlives-unpruned cutoff keep r d (inr (inr h)) = ground arith

unpruned-Outlives :
    (cutoff : ℕ) (keep : List ℕ) (r : QueueRow)
    → is_some r.finished_epoch ≡ is_finished r.state
    → is_pruned cutoff keep r ≡ false
    → Outlives cutoff keep r
unfolding is_pruned
unpruned-Outlives cutoff keep r d h =
    unpruned cutoff r.finished_epoch (is_finished r.state) (any (λ n. n == r.queue_number) keep) d
      (ground arith)

-- A prune of a well-formed table keeps an entry, as it is, exactly when it has not finished, finished
-- at the cutoff or later, or is one to keep: a queued or running entry is never deleted.
pub prune_outcome :
    (cutoff : ℕ) (keep : List ℕ) (t : Table) (j : ℕ) (r : QueueRow)
    → IsWellFormed t
    → get j t ≡ some r
    → (Outlives cutoff keep r → get j (prune cutoff keep t).1 ≡ some r)
      × (¬ Outlives cutoff keep r → get j (prune cutoff keep t).1 ≡ none)
unfolding prune get
prune_outcome cutoff keep t j r w e =
    let d = (found_has (IsConsistent t) j t.rows w.consistent e).dated in
    let found = find-select (λ q. not (is_pruned cutoff keep q)) j 0 0 t.rows w.ascending in
    (
      λ o. ground (arith, found, Outlives-unpruned cutoff keep r d o),
      λ o. elim (Bool-cases (is_pruned cutoff keep r)) [
        | inl b ↦ ground (arith, found)
        | inr b ↦ absurd (o (unpruned-Outlives cutoff keep r d b))
      ],
    )
