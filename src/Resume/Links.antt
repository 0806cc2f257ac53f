-- ===== src/Resume/Links.antt =====
-- state/queue.py and services/queue_resume.py: the links of the entries to those that they resume, and
-- the walk over them.
use draw_things_control.Prelude.{
  ℕ, suc, ◌<◌, ◌+◌, ◌≡◌, ◌≢◌, ap, ◌∙◌, Option, none, some, List, [], ◌∷◌, arith, ◌==◌, All,
  Option-cases, Bool-cases, inl, inr,
}
use mathlib.Core.Path.{subst}
use draw_things_control.Queue.Rows
use draw_things_control.Queue.Rows.{QueueRow, Table, find_number, find_row, update, select}
use draw_things_control.Resume.Walk.{gave, unfinished, walk_chain, walk_ends}
use draw_things_control.Resume.Entry.{Store, chain_walk, ancestor, linked_execution, has_succeeded}

-- An entry resumes one with a smaller number.
abbrev pub Below : Option ℕ → ℕ → Type 0
Below none n = Unit {0}
Below (some k) n = k < n

abbrev pub LinksDown : Table → Type 0
LinksDown t = All (λ (r : QueueRow). Below r.resumes r.queue_number) t.rows

find_number-number :
    (n : ℕ) (rows : List QueueRow) (r : QueueRow) → find_number n rows ≡ some r → r.queue_number ≡ n
unfolding find_number
find_number-number n [] r h = cc
find_number-number n (q ∷ rows) r h = ground (arith, find_number-number n rows r)

All-find_number {κ} :
    (P : QueueRow → Type κ) (n : ℕ) (rows : List QueueRow) (r : QueueRow)
    → All P rows
    → find_number n rows ≡ some r
    → P r
unfolding find_number
All-find_number P n [] r all h = cc
All-find_number P n (q ∷ rows) r all h = elim (Bool-cases (q.queue_number == n)) [
  | inl e ↦ subst P (ground arith) all.0
  | inr e ↦ All-find_number P n rows r all.1 (ground arith)
]

ancestor_down :
    (store : Store) (e e' : QueueRow)
    → LinksDown store.queue
    → Below e.resumes e.queue_number
    → ancestor store e ≡ gave e'
    → Below e'.resumes e'.queue_number × (e'.queue_number < e.queue_number)
unfolding ancestor Rows.by_number
ancestor_down store e e' links below h = elim (Option-cases e.resumes) [
  | inl first ↦ absurd (ground (arith, first, h))
  | inr (n, link) ↦ elim (Option-cases (find_number n store.queue.rows)) [
    | inl gone ↦ absurd (ground (arith, link, gone, h))
    | inr (q, found) ↦
        let same : q ≡ e' = ground (arith, link, found, h) in
        let found' : find_number n store.queue.rows ≡ some e' = found ∙ ap some same in
        let less : n < e.queue_number = subst (λ o. Below o e.queue_number) link below in
        (
          All-find_number (λ (r : QueueRow). Below r.resumes r.queue_number) n store.queue.rows e'
              links found',
          omega (arith, find_number-number n store.queue.rows e' found', less),
        )
  ]
]

-- If every entry of the queue that resumes one resumes one with a smaller number, then the walk of a
-- stored entry's chain ends as the code's loop does: its bound is never met, and any greater bound gives
-- the same walk.
pub chain_walk_ends :
    (store : Store) (r : QueueRow) (n extra : ℕ)
    → LinksDown store.queue
    → Rows.by_number n store.queue ≡ some r
    → ((chain_walk store r).end ≢ unfinished)
      × (walk_chain
            (λ (q : QueueRow). q.resumes)
            (linked_execution store)
            (ancestor store)
            has_succeeded
            (suc (r.queue_number + extra))
            r
          ≡ chain_walk store r)
unfolding chain_walk Rows.by_number
chain_walk_ends store r n extra links found =
    walk_ends (λ (q : QueueRow). q.resumes) (linked_execution store) (ancestor store) has_succeeded
      (λ (q : QueueRow). Below q.resumes q.queue_number) (λ (q : QueueRow). q.queue_number)
      (λ e e' below h. ancestor_down store e e' links below h) (suc r.queue_number)
      (suc (r.queue_number + extra)) r
      (All-find_number (λ (r : QueueRow). Below r.resumes r.queue_number) n store.queue.rows r links
        found)
      (omega arith) (omega arith)
