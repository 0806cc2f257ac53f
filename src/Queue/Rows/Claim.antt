-- ===== src/Queue/Rows/Claim.antt =====
-- state/queue.py: the claim of the oldest queued entry, and the cancel of a queued one.
use draw_things_control.Prelude.{
  ℕ, ◌⊎◌, ◌<◌, String, Bool, true, false, ◌&&◌, ◌≡◌, refl, ap, ◌∙◌, Option, none, some, List, [],
  ◌∷◌, arith, ◌==◌, ==_refl, ==→≡, All, All-weaken, any, Option-cases, Bool-cases, inl, inr,
  if◌then◌else◌,
}
use mathlib.Core.Option
use draw_things_control.Json.{Codec}
use draw_things_control.Queue.Events.{QueueState}
use draw_things_control.Queue.Rows.{
  QueueRow, Table, is_queued, select, update, find_row, ordered, first_of_rows, set_running,
  claim_oldest, set_cancelled, cancel_queued, get, has_queued,
}
use draw_things_control.Queue.Rows.Lookup.{
  AtLeast, find-update, All-ordered, All-of-select, first-ordered-least,
}
use draw_things_control.Queue.Rows.Ascending.{IsAscending, later}
use draw_things_control.Queue.Rows.Invariant.{IsWellFormed, claimed_only}

first_none : (rows : List QueueRow) → first_of_rows rows ≡ none → All (λ r. ⊥) rows
first_none [] e = tt
first_none (r ∷ rows) e = cc

any_none :
    (rows : List QueueRow)
    → All (λ r. is_queued r.state ≡ true → ⊥) rows
    → any (λ (r : QueueRow). is_queued r.state) rows ≡ false
any_none [] h = refl
any_none (r ∷ rows) h = ground (arith, h.0, any_none rows h.1)

no_first-has_queued :
    (t : Table)
    → first_of_rows (ordered (select (λ r. is_queued r.state) t.rows)) ≡ none
    → has_queued t ≡ false
unfolding has_queued
no_first-has_queued t e = any_none t.rows (
    All-of-select (λ r. ⊥) (λ r. is_queued r.state) t.rows
      ((All-ordered (λ r. ⊥) (select (λ r. is_queued r.state) t.rows)).1
        (first_none (ordered (select (λ r. is_queued r.state) t.rows)) e)))

map_found :
    (f : QueueRow → QueueRow) (i j : ℕ) (rows : List QueueRow) (r : QueueRow)
    → find_row i rows ≡ some r
    → (if i == j then Option.map f (find_row j rows) else find_row j rows)
      ≡ (if i == j then some (f r) else find_row j rows)
map_found f i j rows r e = ground arith

-- What a claim promises of the table before and after it.
pub record Claims (c : Codec) (now : String) (t t' : Table) (r : QueueRow) : Type 0 where
  pub old : QueueRow
  pub stored : get r.id t ≡ some old
  pub was_queued : is_queued old.state ≡ true
  pub marked : r ≡ record old {
    state = QueueState.running;
    started_at = some now;
    started_epoch = some (c.timestamp now);
  }
  pub oldest : All (λ q. is_queued q.state ≡ true → AtLeast old.queue_number q) t.rows
  pub others : (j : ℕ) → get j t' ≡ (if old.id == j then some r else get j t)

-- Without a queued entry nothing is claimed; else the first queued row is marked.
pub claim-cases :
    (c : Codec) (now : String) (t : Table)
    → IsWellFormed t
    → ((claim_oldest c now t ≡ (none, t)) × (has_queued t ≡ false))
      ⊎ ((r : QueueRow) × (first_of_rows (ordered (select (λ q. is_queued q.state) t.rows))
            ≡ some r)
          × (is_queued r.state ≡ true)
          × (get r.id t ≡ some r)
          × (claim_oldest c now t ≡ (
            some (set_running c now r),
            record t { rows = update (set_running c now) r.id t.rows },
          )))
unfolding claim_oldest get
claim-cases c now t w =
    elim (Option-cases (first_of_rows (ordered (select (λ r. is_queued r.state) t.rows)))) [
      | inl e ↦ inl (rw (e, claim_oldest), no_first-has_queued t e)
      | inr (r, e) ↦
          let only = claimed_only t r w e in
          let found =
            find-update (set_running c now) r.id r.id t.rows (λ q. unfold set_running in refl)
            ∙ rw (==_refl r.id, only.1) in
          inr (r, e, only.0, only.1, rw (e, claim_oldest) (rw found refl))
    ]

-- A claim on a well-formed table either finds no queued entry, and changes nothing, or takes an entry
-- that was queued and whose number no queued entry is below, marks it running at this time, and leaves
-- every other entry as it is.
pub claim_takes_oldest :
    (c : Codec) (now : String) (t : Table)
    → IsWellFormed t
    → ((claim_oldest c now t ≡ (none, t)) × (has_queued t ≡ false))
      ⊎ ((r : QueueRow) × ((claim_oldest c now t).0 ≡ some r)
          × Claims c now t (claim_oldest c now t).1 r)
claim_takes_oldest c now t w = elim (claim-cases c now t w) [
  | inl h ↦ inl h
  | inr (r, e, q, found, claimed) ↦ inr (
    set_running c now r,
    ap (λ x. x.0) claimed,
    rw claimed (
        unfold get set_running in
        record {
          old = r;
          stored = found;
          was_queued = q;
          marked = unfold set_running in refl;
          oldest =
              All-of-select (AtLeast r.queue_number) (λ x. is_queued x.state) t.rows
                (first-ordered-least (select (λ x. is_queued x.state) t.rows) r e);
          others = λ j.
              find-update (set_running c now) r.id j t.rows (λ x. unfold set_running in refl)
              ∙ map_found (set_running c now) r.id j t.rows r found;
        }),
  )
]

-- Of a row with the id, the row that is looked up decides whether one is queued.
find_beyond :
    (i : ℕ) (rows : List QueueRow)
    → All (λ r. i < r.id) rows
    → any (λ (r : QueueRow). r.id == i && is_queued r.state) rows ≡ false
find_beyond i [] h = refl
find_beyond i (r ∷ rows) h = ground (arith, find_beyond i rows h.1, h.0)

abbrev pub queued_of : Option QueueRow → Bool
queued_of none = false
queued_of (some r) = is_queued r.state

any-queued_of :
    (i lo n : ℕ) (rows : List QueueRow)
    → IsAscending lo n rows
    → any (λ (r : QueueRow). r.id == i && is_queued r.state) rows ≡ queued_of (find_row i rows)
unfolding find_row
any-queued_of i lo n [] h = refl
any-queued_of i lo n (r ∷ rows) h = elim (Bool-cases (r.id == i)) [
  | inl e ↦
      let rest = find_beyond i rows (
        All-weaken (λ q. r.id < q.id) (λ q. i < q.id) rows (λ q k. omega (arith, ==→≡ r.id i e))
          (later r.id r.queue_number rows h.2)) in
      ground (arith, rest)
  | inr e ↦ rw e (any-queued_of i r.id r.queue_number rows h.2)
]

set_cancelled_unqueued :
    (c : Codec) (now : String) (o : Option QueueRow)
    → queued_of o ≡ false
    → Option.map (set_cancelled c now) o ≡ o
unfolding set_cancelled
set_cancelled_unqueued c now none e = refl
set_cancelled_unqueued c now (some r) e = rw e

-- The row of an entry that was cancelled at a time.
abbrev pub cancelled_at : Codec → String → QueueRow → QueueRow
cancelled_at c now r = record r {
  state = QueueState.cancelled;
  finished_at = some now;
  finished_epoch = some (c.timestamp now);
}

set_cancelled_queued :
    (c : Codec) (now : String) (o : Option QueueRow)
    → queued_of o ≡ true
    → Option.map (set_cancelled c now) o ≡ Option.map (cancelled_at c now) o
unfolding set_cancelled
set_cancelled_queued c now none e = refl
set_cancelled_queued c now (some r) e = rw e refl

-- A cancel of entry `i` in a well-formed table: it answers whether the entry was queued. A queued
-- entry becomes cancelled with this time as its finish; nothing else changes, and nothing at all
-- where the entry is not queued or there is none.
pub cancel_queued_outcome :
    (c : Codec) (i : ℕ) (now : String) (t : Table)
    → IsWellFormed t
    → let (answer, t') = cancel_queued c i now t in
      (answer ≡ queued_of (get i t))
      × ((j : ℕ)
          → get j t'
            ≡ (if i == j && answer then Option.map (cancelled_at c now) (get j t) else get j t))
unfolding cancel_queued get
cancel_queued_outcome c i now t w =
    let answer = any-queued_of i 0 0 t.rows w.ascending in
    (
      answer,
      λ j.
          find-update (set_cancelled c now) i j t.rows (λ r. unfold set_cancelled in ground arith)
          ∙ ground (
            arith,
            answer,
            ==→≡ i j,
            set_cancelled_unqueued c now (find_row j t.rows),
            set_cancelled_queued c now (find_row j t.rows),
          ),
    )
