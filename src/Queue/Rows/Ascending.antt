-- ===== src/Queue/Rows/Ascending.antt =====
-- state/queue.py: the order of the ids and numbers along the rows of the table.
use draw_things_control.Prelude.{
  ℕ, ◌≤◌, ◌<◌, Bool, ◌≡◌, some, List, [], ◌∷◌, ◌++◌, arith, ◌==◌, ==_refl, if_ind, All, All-weaken,
  All-both,
}
use draw_things_control.Queue.Rows.{QueueRow, select, update, find_row}
use draw_things_control.Queue.Rows.Lookup.{KeepsId}

-- Ids and numbers grow along the rows.
abbrev pub IsAscending : ℕ → ℕ → List QueueRow → Type 0
IsAscending i n [] = Unit
IsAscending i n (r ∷ rows) =
    (i < r.id) × (n < r.queue_number) × IsAscending r.id r.queue_number rows

pub IsAscending-below :
    (i n j m : ℕ) (rows : List QueueRow)
    → j ≤ i
    → m ≤ n
    → IsAscending i n rows
    → IsAscending j m rows
IsAscending-below i n j m [] p q h = tt
IsAscending-below i n j m (r ∷ rows) p q h = (omega arith, omega arith, h.2)

pub IsAscending-update :
    (f : QueueRow → QueueRow) (k i n : ℕ) (rows : List QueueRow)
    → KeepsId f
    → ((r : QueueRow) → (f r).queue_number ≡ r.queue_number)
    → IsAscending i n rows
    → IsAscending i n (update f k rows)
unfolding update
IsAscending-update f k i n [] p q h = tt
IsAscending-update f k i n (r ∷ rows) p q h =
    let rest = IsAscending-update f k r.id r.queue_number rows p q h.2 in
    if_ind
      (λ x. (i < x.id) × (n < x.queue_number) × IsAscending x.id x.queue_number (update f k rows))
      (r.id == k) (f r) r
      (λ _. (
        omega (arith, p r),
        omega (arith, q r),
        IsAscending-below r.id r.queue_number (f r).id (f r).queue_number (update f k rows)
            (omega (arith, p r)) (omega (arith, q r)) rest,
      ))
      (λ _. (h.0, h.1, rest))

pub IsAscending-select :
    (p : QueueRow → Bool) (i n : ℕ) (rows : List QueueRow)
    → IsAscending i n rows
    → IsAscending i n (select p rows)
unfolding select
IsAscending-select p i n [] h = tt
IsAscending-select p i n (r ∷ rows) h =
    let rest = IsAscending-select p r.id r.queue_number rows h.2 in
    if_ind (IsAscending i n) (p r) (r ∷ select p rows) (select p rows) (λ _. (h.0, h.1, rest))
      (λ _.
        IsAscending-below r.id r.queue_number i n (select p rows) (omega arith) (omega arith) rest)

pub IsAscending-snoc :
    (i n : ℕ) (rows : List QueueRow) (r : QueueRow)
    → IsAscending i n rows
    → i < r.id
    → n < r.queue_number
    → All (λ q. (q.id < r.id) × (q.queue_number < r.queue_number)) rows
    → IsAscending i n (rows ++ r ∷ [])
IsAscending-snoc i n [] r h p q a = (p, q, tt)
IsAscending-snoc i n (x ∷ rows) r h p q a =
    (h.0, h.1, IsAscending-snoc x.id x.queue_number rows r h.2 a.0.0 a.0.1 a.1)

pub later : (i n : ℕ) (rows : List QueueRow) → IsAscending i n rows → All (λ r. i < r.id) rows
later i n [] h = tt
later i n (r ∷ rows) h = (
  h.0,
  later i n rows (IsAscending-below r.id r.queue_number i n rows (omega arith) (omega arith) h.2),
)

-- A row is found by its own id.
pub find_self :
    (i n : ℕ) (rows : List QueueRow)
    → IsAscending i n rows
    → All (λ r. find_row r.id rows ≡ some r) rows
unfolding find_row
find_self i n [] h = tt
find_self i n (r ∷ rows) h = (
  rw (==_refl r.id),
  All-weaken _ _ rows (λ q k. ground (arith, k.0, k.1))
      (All-both _ _ rows (find_self r.id r.queue_number rows h.2)
        (later r.id r.queue_number rows h.2)),
)
