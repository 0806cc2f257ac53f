-- ===== src/JobIds.antt =====
-- state/job_ids.py, `JobIdRepository`: the numbers of the job files. The rows stand in the order in which
-- they were inserted; `assign` is one transaction, after a read that it may end with.
pub mod Permanent
mod Examples
use draw_things_control.Prelude.{
  ℕ, suc, String, Bool, true, false, not, ◌&&◌, ◌||◌, Option, none, some, List, [], ◌∷◌, ◌++◌, any,
  map, str_eq, ◌==◌, is_some, if◌then◌else◌,
}

pub record JobRow : Type 0 where
  pub number : ℕ
  pub file_name : String
  pub present : Bool

-- `counter` is the counter `job`.
pub record Jobs : Type 0 where
  pub rows : List JobRow
  pub counter : ℕ

abbrev pub listed : String → List String → Bool
listed name names = any (λ n. str_eq n name) names

unfoldable pub number_of : String → List JobRow → Option ℕ
number_of name [] = none
number_of name (r ∷ rows) = if str_eq r.file_name name then some r.number else number_of name rows

-- The test that the listing changes nothing.
all_known : List String → List JobRow → Bool
all_known [] rows = true
all_known (name ∷ names) rows = is_some (number_of name rows) && all_known names rows

same : Bool → Bool → Bool
same true b = b
same false b = not b

unfoldable pub all_marked : List String → List JobRow → Bool
unfolding same
all_marked names [] = true
all_marked names (r ∷ rows) = same r.present (listed r.file_name names) && all_marked names rows

unfoldable pub changes_nothing : List String → List JobRow → Bool
unfolding all_known all_marked
changes_nothing names rows = all_known names rows && all_marked names rows

-- UPDATE ... SET present = 0, and = 1 for the names that were numbered.
unfoldable pub clear : List JobRow → List JobRow
clear [] = []
clear (r ∷ rows) = record r { present = false } ∷ clear rows

unfoldable pub mark : List String → List JobRow → List JobRow
mark names [] = []
mark names (r ∷ rows) =
    (if listed r.file_name names then record r { present = true } else r) ∷ mark names rows

-- The numbers that a listing that writes nothing gives.
unfoldable pub known_numbers : List String → List JobRow → List (String × ℕ)
known_numbers [] rows = []
known_numbers (name ∷ names) rows = elim (number_of name rows) [
  | none ↦ known_numbers names rows
  | some n ↦ (name, n) ∷ known_numbers names rows
]

-- The loop: `known` is the table before it, and a new name gets the next number.
-- A listing of a directory names no file twice.
unfoldable pub number_all : List JobRow → List String → Jobs → List (String × ℕ) × Jobs
number_all known [] t = ([], t)
number_all known (name ∷ names) t = elim (number_of name known) [
  | some n ↦ let (numbers, t') = number_all known names t in ((name, n) ∷ numbers, t')
  | none ↦
      let row : JobRow = record { number = suc t.counter; file_name = name; present = true } in
      let (numbers, t') =
        number_all known names (record t { rows = t.rows ++ row ∷ []; counter = suc t.counter }) in
      ((name, suc t.counter) ∷ numbers, t')
]

-- `assign`.
unfoldable pub assign : List String → Jobs → List (String × ℕ) × Jobs
assign names t =
    if changes_nothing names t.rows
    then (known_numbers names t.rows, t)
    else let (numbers, t') = number_all t.rows names (record t { rows = clear t.rows }) in
      (numbers, record t' { rows = mark names t'.rows })

-- `lookup`: the file's name, and whether it was in the last listing.
unfoldable pub lookup : ℕ → List JobRow → Option (String × Bool)
lookup n [] = none
lookup n (r ∷ rows) = if r.number == n then some (r.file_name, r.present) else lookup n rows
