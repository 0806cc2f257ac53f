-- ===== src/JobIds/Permanent.antt =====
-- state/job_ids.py: a job's number is permanent.
use draw_things_control.Prelude.{
  ℕ, suc, String, Bool, true, false, ◌≡◌, ◌||◌, Option, none, some, List, [], ◌∷◌, ◌++◌, ◌==◌,
  arith, Bool-cases, Option-cases, inl, inr, if◌then◌else◌,
}
use draw_things_control.JobIds.{
  JobRow, Jobs, listed, number_of, all_marked, changes_nothing, clear, mark, number_all, assign,
  lookup,
}

-- The name alone.
abbrev name_at : ℕ → List JobRow → Option String
name_at n [] = none
name_at n (r ∷ rows) = if r.number == n then some r.file_name else name_at n rows

lookup-append :
    (n : ℕ) (rows more : List JobRow) (f : String) (p : Bool)
    → lookup n rows ≡ some (f, p)
    → lookup n (rows ++ more) ≡ some (f, p)
unfolding lookup
lookup-append n [] more f p h = cc
lookup-append n (r ∷ rows) more f p h = ground (arith, lookup-append n rows more f p)

lookup-clear :
    (n : ℕ) (rows : List JobRow) (f : String) (p : Bool)
    → lookup n rows ≡ some (f, p)
    → lookup n (clear rows) ≡ some (f, false)
unfolding lookup clear
lookup-clear n [] f p h = cc
lookup-clear n (r ∷ rows) f p h = ground (arith, lookup-clear n rows f p)

lookup-mark :
    (n : ℕ) (names : List String) (rows : List JobRow) (f : String) (p : Bool)
    → lookup n rows ≡ some (f, p)
    → lookup n (mark names rows) ≡ some (f, listed f names || p)
unfolding lookup mark
lookup-mark n names [] f p h = cc
lookup-mark n names (r ∷ rows) f p h = ground (arith, lookup-mark n names rows f p)

lookup-number_all :
    (n : ℕ) (known : List JobRow) (names : List String) (t : Jobs) (f : String) (p : Bool)
    → lookup n t.rows ≡ some (f, p)
    → lookup n (number_all known names t).1.rows ≡ some (f, p)
unfolding number_all
lookup-number_all n known [] t f p h = h
lookup-number_all n known (name ∷ names) t f p h =
    let row : JobRow = record { number = suc t.counter; file_name = name; present = true } in
    let t' = record t { rows = t.rows ++ row ∷ []; counter = suc t.counter } in
    elim (Option-cases (number_of name known)) [
      | inr (m, e) ↦ rw (e, number_all) (lookup-number_all n known names t f p h)
      | inl e ↦
          rw (e, number_all)
            (lookup-number_all n known names t' f p (lookup-append n t.rows (row ∷ []) f p h))
    ]

lookup-all_marked :
    (n : ℕ) (names : List String) (rows : List JobRow) (f : String) (p : Bool)
    → all_marked names rows ≡ true
    → lookup n rows ≡ some (f, p)
    → lookup n rows ≡ some (f, listed f names)
unfolding all_marked lookup
lookup-all_marked n names [] f p h k = cc
lookup-all_marked n names (r ∷ rows) f p h k =
    ground (arith, h, k, lookup-all_marked n names rows f p)

lookup-unchanged :
    (n : ℕ) (names : List String) (rows : List JobRow) (f : String) (p : Bool)
    → changes_nothing names rows ≡ true
    → lookup n rows ≡ some (f, p)
    → lookup n rows ≡ some (f, listed f names)
unfolding changes_nothing
lookup-unchanged n names rows f p h k = ground (arith, h, lookup-all_marked n names rows f p)

-- A number that was once given stays its file's, whatever the listings of the job directory: after each,
-- it finds the same file name, and says that the file is present exactly when the listing has it.
pub lookup-assign :
    (n : ℕ) (names : List String) (t : Jobs) (f : String) (p : Bool)
    → lookup n t.rows ≡ some (f, p)
    → lookup n (assign names t).1.rows ≡ some (f, listed f names)
unfolding assign
lookup-assign n names t f p h =
    let cleared = record t { rows = clear t.rows } in
    let all = number_all t.rows names cleared in
    let marked =
      lookup-mark n names all.1.rows f false
        (lookup-number_all n t.rows names cleared f false (lookup-clear n t.rows f p h)) in
    elim (Bool-cases (changes_nothing names t.rows)) [
      | inl same ↦ rw (same, assign) (lookup-unchanged n names t.rows f p same h)
      | inr other ↦ rw (other, assign) (ground (arith, marked))
    ]
