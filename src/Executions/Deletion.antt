-- ===== src/Executions/Deletion.antt =====
-- state/executions.py: which executions a deletion takes.
use draw_things_control.Prelude.{
  ℕ, Bool, true, false, ◌≡◌, refl, ap, Option, none, some, List, [], ◌∷◌, ◌==◌, arith, All,
  All-weaken, All-both, ==→≡, any, not, ◌&&◌, is_none, Bool-cases, inl, inr, if◌then◌else◌,
}
use draw_things_control.Executions.{
  ExecutionRow, InUse, by_number, without, verdict, Verdict, is_deleted, is_missing, is_refused,
  rows_after, delete_each, delete, from_keys, report, job_is_running, reason_of,
}

pub by_number-without :
    (n m : ℕ) (xs : List ExecutionRow)
    → by_number m (without n xs) ≡ (if n == m then none else by_number m xs)
unfolding by_number without
by_number-without n m [] = ground arith
by_number-without n m (x ∷ xs) = ground (arith, by_number-without n m xs)

-- Whether a deletion takes the execution that a number finds.
abbrev pub goes : InUse → ℕ → Option ExecutionRow → Bool
goes used m none = false
goes used m (some x) = not (job_is_running x.status) && is_none (reason_of m used)

abbrev pub among : ℕ → List ℕ → Bool
among m ns = any (λ k. k == m) ns

rows_after_lem :
    (used : InUse) (n m : ℕ) (xs : List ExecutionRow) (o : Option ExecutionRow)
    → by_number m (rows_after false n (verdict used n o) xs)
      ≡ (if (n == m) && goes used n o then none else by_number m xs)
unfolding verdict
rows_after_lem used n m xs none = ground arith
rows_after_lem used n m xs (some x) = ground (arith, by_number-without n m xs)

delete_each_lem :
    (used : InUse) (m : ℕ) (ns : List ℕ) (xs : List ExecutionRow)
    → by_number m (delete_each false used ns xs).1
      ≡ (if among m ns && goes used m (by_number m xs) then none else by_number m xs)
unfolding delete_each
delete_each_lem used m [] xs = refl
delete_each_lem used m (n ∷ ns) xs =
    let v = verdict used n (by_number n xs) in
    let ih = delete_each_lem used m ns (rows_after false n v xs) in
    let step = rows_after_lem used n m xs (by_number n xs) in ground (arith, ih, step, ==→≡ n m)

abbrev pub IsDistinct : List ℕ → Type 0
IsDistinct [] = Unit
IsDistinct (n ∷ ns) = All (λ k. (n == k) ≡ false) ns × IsDistinct ns

from_keys_fresh : (seen ns : List ℕ) → All (λ k. among k seen ≡ false) (from_keys seen ns)
unfolding from_keys
from_keys_fresh seen [] = tt
from_keys_fresh seen (n ∷ ns) =
    let fresh = from_keys_fresh (n ∷ seen) ns in
    let rest =
      All-weaken (λ k. among k (n ∷ seen) ≡ false) (λ k. among k seen ≡ false)
        (from_keys (n ∷ seen) ns) (λ k h. ground arith) fresh in
    elim (Bool-cases (among n seen)) [ inl old ↦ rw old rest | inr new ↦ rw new (new, rest) ]

pub from_keys-IsDistinct : (seen ns : List ℕ) → IsDistinct (from_keys seen ns)
unfolding from_keys
from_keys-IsDistinct seen [] = tt
from_keys-IsDistinct seen (n ∷ ns) =
    let distinct = from_keys-IsDistinct (n ∷ seen) ns in
    elim (Bool-cases (among n seen)) [
      | inl old ↦ rw old distinct
      | inr new ↦ rw new (
        All-weaken (λ k. among k (n ∷ seen) ≡ false) (λ k. (n == k) ≡ false)
            (from_keys (n ∷ seen) ns) (λ k h. ground arith) (from_keys_fresh (n ∷ seen) ns),
        distinct,
      )
    ]

among-from_keys :
    (m : ℕ) (seen ns : List ℕ) → among m (from_keys seen ns) ≡ (among m ns && not (among m seen))
unfolding from_keys
among-from_keys m seen [] = refl
among-from_keys m seen (n ∷ ns) = ground (arith, among-from_keys m (n ∷ seen) ns, ==→≡ n m)

rows_after_dry : (n : ℕ) (v : Verdict) (xs : List ExecutionRow) → rows_after true n v xs ≡ xs
rows_after_dry n is_missing xs = refl
rows_after_dry n (is_refused reason) xs = refl
rows_after_dry n (is_deleted x) xs = refl

-- The same report, row for row, from two tables that agree on the numbers.
same_report :
    (used : InUse) (ns : List ℕ) (xs ys : List ExecutionRow)
    → IsDistinct ns
    → All (λ k. by_number k xs ≡ by_number k ys) ns
    → (delete_each true used ns xs).0 ≡ (delete_each false used ns ys).0
unfolding delete_each
same_report used [] xs ys d h = refl
same_report used (n ∷ ns) xs ys d h =
    let v = verdict used n (by_number n ys) in
    let agree =
      All-weaken (λ k. ((n == k) ≡ false) × (by_number k xs ≡ by_number k ys))
        (λ k. by_number k xs ≡ by_number k (rows_after false n v ys)) ns
        (λ k (new, same). ground (arith, rows_after_lem used n k ys (by_number n ys)))
        (All-both _ _ ns d.0 h.1) in
    let rest : (delete_each true used ns xs).0
        ≡ (delete_each false used ns (rows_after false n v ys)).0 =
      same_report used ns xs (rows_after false n v ys) d.1 agree in
    rw (h.0, rows_after_dry n v xs) (ap (report n v) rest)

-- A deletion takes a number's execution exactly when the number is among those asked for and the
-- execution is stored, not running, and has no reason to be in use; each other one is found as before.
pub delete_outcome :
    (used : InUse) (m : ℕ) (ns : List ℕ) (xs : List ExecutionRow)
    → by_number m (delete false used ns xs).1
      ≡ (if among m ns && goes used m (by_number m xs) then none else by_number m xs)
unfolding delete
delete_outcome used m ns xs =
    ground (arith, delete_each_lem used m (from_keys [] ns) xs, among-from_keys m [] ns)

dry_rows :
    (used : InUse) (ns : List ℕ) (xs : List ExecutionRow) → (delete_each true used ns xs).1 ≡ xs
unfolding delete_each
dry_rows used [] xs = refl
dry_rows used (n ∷ ns) xs =
    rw (rows_after_dry n (verdict used n (by_number n xs)) xs) (dry_rows used ns xs)

agree_self : (ns : List ℕ) (xs : List ExecutionRow) → All (λ k. by_number k xs ≡ by_number k xs) ns
agree_self [] xs = tt
agree_self (n ∷ ns) xs = (refl, agree_self ns xs)

-- A dry run deletes nothing, and reports what the deletion itself, on the same executions, reports:
-- the same numbers as deleted, as refused with the same reasons, and as missing, however often a
-- number is named.
pub dry_run_tells :
    (used : InUse) (ns : List ℕ) (xs : List ExecutionRow)
    → ((delete true used ns xs).0 ≡ (delete false used ns xs).0) × ((delete true used ns xs).1 ≡ xs)
unfolding delete
dry_run_tells used ns xs = (
  same_report used (from_keys [] ns) xs xs (from_keys-IsDistinct [] ns)
      (agree_self (from_keys [] ns) xs),
  dry_rows used (from_keys [] ns) xs,
)
