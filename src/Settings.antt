-- ===== src/Settings.antt =====
-- state/settings.py: text values by key. A write that the database refuses raises
-- `sqlite3.OperationalError` and changes no row; `writable` says whether it accepts one, and `refusal` is
-- the text of that error.
use draw_things_control.Prelude.{
  String, Bool, ◌≡◌, refl, Option, none, some, List, [], ◌∷◌, arith, str_eq, eq_iff, if◌then◌else◌,
}
use draw_things_control.Errors.{Result, ok, operational_error, raise}

pub record Settings : Type 0 where
  pub rows : List (String × String)
  pub writable : Bool
  pub refusal : String

find : String → List (String × String) → Option String
find key [] = none
find key ((k, v) ∷ rows) = if str_eq k key then some v else find key rows

pub upsert : String → String → List (String × String) → List (String × String)
upsert key value [] = (key, value) ∷ []
upsert key value ((k, v) ∷ rows) =
    if str_eq k key then (k, value) ∷ rows else (k, v) ∷ upsert key value rows

pub without : String → List (String × String) → List (String × String)
without key [] = []
without key ((k, v) ∷ rows) =
    let rest = without key rows in if str_eq k key then rest else (k, v) ∷ rest

unfoldable pub get : String → Settings → Option String
unfolding find
get key s = find key s.rows

unfoldable pub set : String → String → Settings → Result (Unit {0}) × Settings
unfolding upsert
set key value s =
    if s.writable
    then (ok tt, record s { rows = upsert key value s.rows })
    else (raise operational_error s.refusal, s)

unfoldable pub delete : String → Settings → Result (Unit {0}) × Settings
unfolding without
delete key s =
    if s.writable
    then (ok tt, record s { rows = without key s.rows })
    else (raise operational_error s.refusal, s)

find-upsert :
    (k j v : String) (rows : List (String × String))
    → find j (upsert k v rows) ≡ (if str_eq k j then some v else find j rows)
unfolding find upsert
find-upsert k j v [] = refl
find-upsert k j v ((i, w) ∷ rows) =
    ground (arith, eq_iff k j, eq_iff i k, eq_iff i j, find-upsert k j v rows)

find-without :
    (k j : String) (rows : List (String × String))
    → find j (without k rows) ≡ (if str_eq k j then none else find j rows)
unfolding find without
find-without k j [] = ground arith
find-without k j ((i, w) ∷ rows) =
    ground (arith, eq_iff k j, eq_iff i k, eq_iff i j, find-without k j rows)

-- What a key reads after a row was written or removed.
pub get-upsert :
    (k j v : String) (s : Settings)
    → get j (record s { rows = upsert k v s.rows }) ≡ (if str_eq k j then some v else get j s)
unfolding get
get-upsert k j v s = find-upsert k j v s.rows

pub get-without :
    (k j : String) (s : Settings)
    → get j (record s { rows = without k s.rows }) ≡ (if str_eq k j then none else get j s)
unfolding get
get-without k j s = find-without k j s.rows

pub get-writable :
    (k : String) (b : Bool) (s : Settings) → get k (record s { writable = b }) ≡ get k s
unfolding get
get-writable k b s = refl
