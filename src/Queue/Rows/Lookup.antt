-- ===== src/Queue/Rows/Lookup.antt =====
-- Reading rows after a change of rows: lookup by id, the WHERE clause and the ORDER BY clause.
use draw_things_control.Prelude.{
  ℕ, ◌≤◌, Bool, true, false, ◌≡◌, refl, some, List, [], ◌∷◌, arith, ◌==◌, leb, leb→le, All,
  All-weaken, if_ind, if◌then◌else◌,
}
use mathlib.Core.Option
use mathlib.Core.Path.{subst}
use draw_things_control.Queue.Rows.{
  QueueRow, select, update, find_row, ordered, insert_ordered, first_of_rows,
}

-- A change of one row keeps its id.
abbrev pub KeepsId : (QueueRow → QueueRow) → Type 0
KeepsId f = (r : QueueRow) → (f r).id ≡ r.id

pub find-update :
    (f : QueueRow → QueueRow) (i j : ℕ) (rows : List QueueRow)
    → KeepsId f
    → find_row j (update f i rows)
      ≡ (if i == j then Option.map f (find_row j rows) else find_row j rows)
unfolding find_row update
find-update f i j [] k = ground arith
find-update f i j (r ∷ rows) k = ground (arith, find-update f i j rows k, k r)

pub All-update {κ} :
    (P : QueueRow → Type κ) (f : QueueRow → QueueRow) (i : ℕ) (rows : List QueueRow)
    → All P rows
    → All (λ r. (r.id == i) ≡ true → P (f r)) rows
    → All P (update f i rows)
unfolding update
All-update P f i [] h k = tt
All-update P f i (r ∷ rows) h k =
    (if_ind P (r.id == i) (f r) r k.0 (λ _. h.0), All-update P f i rows h.1 k.1)

pub All-update_cases {κ} :
    (P : QueueRow → Type κ) (f : QueueRow → QueueRow) (i : ℕ) (rows : List QueueRow)
    → All (λ r. ((r.id == i) ≡ false → P r) × ((r.id == i) ≡ true → P (f r))) rows
    → All P (update f i rows)
unfolding update
All-update_cases P f i [] h = tt
All-update_cases P f i (r ∷ rows) h =
    (if_ind P (r.id == i) (f r) r h.0.1 h.0.0, All-update_cases P f i rows h.1)

pub All-select {κ} :
    (P : QueueRow → Type κ) (p : QueueRow → Bool) (rows : List QueueRow)
    → All P rows
    → All (λ r. P r × (p r ≡ true)) (select p rows)
unfolding select
All-select P p [] h = tt
All-select P p (r ∷ rows) h =
    if_ind (All (λ q. P q × (p q ≡ true))) (p r) (r ∷ select p rows) (select p rows)
      (λ e. ((h.0, e), All-select P p rows h.1)) (λ _. All-select P p rows h.1)

-- A row that the clause lets through has what all rows let through have.
pub All-of-select {κ} :
    (P : QueueRow → Type κ) (p : QueueRow → Bool) (rows : List QueueRow)
    → All P (select p rows)
    → All (λ r. p r ≡ true → P r) rows
unfolding select
All-of-select P p [] h = tt
All-of-select P p (r ∷ rows) h = go (p r) refl (All-of-select P p rows) h
  where
    go :
        (b : Bool)
        → p r ≡ b
        → (All P (select p rows) → All (λ q. p q ≡ true → P q) rows)
        → All P (if b then r ∷ select p rows else select p rows)
        → All (λ q. p q ≡ true → P q) (r ∷ rows)
    go true e ih k = (λ _. k.0, ih k.1)
    go false e ih k = (λ e'. cc, ih k)

All-insert {κ} :
    (P : QueueRow → Type κ) (r : QueueRow) (rows : List QueueRow)
    → (P r × All P rows → All P (insert_ordered r rows))
      × (All P (insert_ordered r rows) → P r × All P rows)
unfolding insert_ordered
All-insert P r [] = (λ h. h, λ h. h)
All-insert P r (q ∷ rows) = go (leb r.queue_number q.queue_number) (All-insert P r rows)
  where
    go :
        (b : Bool)
        → (P r × All P rows → All P (insert_ordered r rows))
          × (All P (insert_ordered r rows) → P r × All P rows)
        → (P r × All P (q ∷ rows) → All P (if b then r ∷ q ∷ rows else q ∷ insert_ordered r rows))
          × (All P (if b then r ∷ q ∷ rows else q ∷ insert_ordered r rows) → P r × All P (q ∷ rows))
    go true ih = (λ h. h, λ h. h)
    go false ih = (λ h. (h.1.0, ih.0 (h.0, h.1.1)), λ h. ((ih.1 h.1).0, (h.0, (ih.1 h.1).1)))

-- ORDER BY keeps the rows.
pub All-ordered {κ} :
    (P : QueueRow → Type κ) (rows : List QueueRow)
    → (All P rows → All P (ordered rows)) × (All P (ordered rows) → All P rows)
unfolding ordered
All-ordered P [] = (λ h. h, λ h. h)
All-ordered P (r ∷ rows) =
    let ih = All-ordered P rows in
    let step = All-insert P r (ordered rows) in
    (λ h. step.0 (h.0, ih.0 h.1), λ h. ((step.1 h).0, ih.1 (step.1 h).1))

abbrev pub AtLeast : ℕ → QueueRow → Type 0
AtLeast n r = n ≤ r.queue_number

abbrev IsSorted : List QueueRow → Type 0
IsSorted [] = Unit
IsSorted (r ∷ rows) = All (AtLeast r.queue_number) rows × IsSorted rows

IsSorted-insert :
    (r : QueueRow) (rows : List QueueRow) → IsSorted rows → IsSorted (insert_ordered r rows)
unfolding insert_ordered
IsSorted-insert r [] h = (tt, tt)
IsSorted-insert r (q ∷ rows) h =
    if_ind IsSorted (leb r.queue_number q.queue_number) (r ∷ q ∷ rows) (q ∷ insert_ordered r rows)
      (λ e. (
        (
          leb→le _ _ e,
          All-weaken (AtLeast q.queue_number) (AtLeast r.queue_number) rows
              (λ x k. ground (arith, k)) h.0,
        ),
        h,
      ))
      (λ e. (
        (All-insert (AtLeast q.queue_number) r rows).0 (ground (arith, e), h.0),
        IsSorted-insert r rows h.1,
      ))

IsSorted-ordered : (rows : List QueueRow) → IsSorted (ordered rows)
unfolding ordered
IsSorted-ordered [] = tt
IsSorted-ordered (r ∷ rows) = IsSorted-insert r (ordered rows) (IsSorted-ordered rows)

-- The first row has the least number.
pub first-ordered-least :
    (rows : List QueueRow) (r : QueueRow)
    → first_of_rows (ordered rows) ≡ some r
    → All (AtLeast r.queue_number) rows
first-ordered-least rows r e =
    (All-ordered (AtLeast r.queue_number) rows).1 (go (ordered rows) (IsSorted-ordered rows) e)
  where
    go :
        (qs : List QueueRow)
        → IsSorted qs
        → first_of_rows qs ≡ some r
        → All (AtLeast r.queue_number) qs
    go [] s e = cc
    go (q ∷ qs) s e =
        let e' : q ≡ r = cc in
        subst (λ x. All (AtLeast x.queue_number) (q ∷ qs)) e' (omega arith, s.0)

-- The first row has what all rows have.
pub All-first :
    (P : QueueRow → Type 0) (rows : List QueueRow) (r : QueueRow)
    → All P rows
    → first_of_rows (ordered rows) ≡ some r
    → P r
All-first P rows r h e = go (ordered rows) ((All-ordered P rows).0 h) e
  where
    go : (qs : List QueueRow) → All P qs → first_of_rows qs ≡ some r → P r
    go [] k e = cc
    go (q ∷ qs) k e = let e' : q ≡ r = cc in rw (← e') k.0
