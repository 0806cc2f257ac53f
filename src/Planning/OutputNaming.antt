-- ===== src/Planning/OutputNaming.antt =====
-- jobs/output_naming.py: the names of a run's files. What pathlib makes of a path, the clock and the random
-- numbers are parameters: a draw is the time as text and the number that one attempt gets.
use draw_things_control.Prelude.{
  ℕ, zero, suc, String, Bool, true, false, ◌≡◌, ◌||◌, Option, none, some, List, [], ◌∷◌, any, arith,
  str_eq,
}
use draw_things_control.Errors.{concat}
use draw_things_control.Ids.{number_text}

-- `.stem`, `.suffix`, `.with_name(...)`, `/` and `.exists()`.
pub record Names : Type 0 where
  pub stem : String → String
  pub suffix : String → String
  pub with_name : String → String → String
  pub join : String → String → String
  pub exists : String → Bool

abbrev pub Draws : Type 0
Draws = ℕ → String × ℕ

abbrev pub max_attempts : ℕ
max_attempts = 100

unfoldable pub output_name : String → String → String → ℕ → String
output_name base extension now number =
    concat (base ∷ "-" ∷ now ∷ "-" ∷ number_text number ∷ "." ∷ extension ∷ [])

-- A path beside the output, with a text after its stem and another ending.
abbrev beside : Names → String → String → String → String
beside names tail ending output =
    names.with_name output (concat (names.stem output ∷ tail ∷ ending ∷ []))

unfoldable pub last_frame_path : Names → String → String
last_frame_path names output = beside names "-last-frame" ".png" output

unfoldable pub raw_last_frame_path : Names → String → String
raw_last_frame_path names output = beside names "-last-frame-raw" ".png" output

unfoldable pub corrected_output_path : Names → String → String
corrected_output_path names output = beside names "-cc" (names.suffix output) output

unfoldable pub raw_output_path : Names → String → String
raw_output_path names output = beside names "-raw" (names.suffix output) output

unfoldable pub uncorrected_output_path : Names → String → String
uncorrected_output_path names output = beside names "-uncorrected" (names.suffix output) output

unfoldable pub first_image_path : Names → String → String
first_image_path names manifest = beside names "-first-image" ".png" manifest

abbrev pub member : String → List String → Bool
member p paths = any (λ q. str_eq q p) paths

-- `_taken`.
unfoldable pub taken : Names → List String → String → Bool
taken names reserved p = member p reserved || names.exists p

-- The output and the files named from it.
unfoldable pub files_of : Names → String → List String
files_of names output =
    output
    ∷ last_frame_path names output
    ∷ raw_last_frame_path names output
    ∷ corrected_output_path names output
    ∷ raw_output_path names output
    ∷ uncorrected_output_path names output
    ∷ []

unfoldable pub candidate : Names → Draws → String → String → String → ℕ → String
candidate names draws directory base extension k =
    let (now, number) = draws k in names.join directory (output_name base extension now number)

-- The attempts that are left; the path, and the number of the next draw.
unfoldable pub try_names :
    ℕ → Names → Draws → String → String → String → List String → ℕ → Option (String × ℕ)
try_names zero names draws directory base extension reserved k = none
try_names (suc left) names draws directory base extension reserved k =
    let path = candidate names draws directory base extension k in
    elim (any (taken names reserved) (files_of names path)) [
      | false ↦ some (path, suc k)
      | true ↦ try_names left names draws directory base extension reserved (suc k)
    ]

unfoldable pub next_output_path :
    Names → Draws → String → String → String → List String → ℕ → Option (String × ℕ)
next_output_path names draws directory base extension reserved k =
    try_names max_attempts names draws directory base extension reserved k

-- `job_file_stem`: the manifest's and the log's.
stem_taken : Names → String → String → Bool
stem_taken names directory stem =
    names.exists (names.join directory (concat (stem ∷ ".json" ∷ [])))
    || (names.exists (names.join directory (concat (stem ∷ ".log" ∷ [])))
        || names.exists (names.join directory (concat (stem ∷ "-first-image.png" ∷ []))))

unfoldable pub try_stems :
    ℕ → Names → (ℕ → ℕ) → String → String → String → String → ℕ → Option String
unfolding stem_taken
try_stems zero names random directory base timestamp stem k = none
try_stems (suc left) names random directory base timestamp stem k =
    elim (stem_taken names directory stem) [
      | false ↦ some stem
      | true ↦
          try_stems left names random directory base timestamp
            (concat (base ∷ "-" ∷ timestamp ∷ "-" ∷ number_text (random k) ∷ "-job" ∷ [])) (suc k)
    ]

unfoldable pub job_file_stem : Names → (ℕ → ℕ) → String → String → String → Option String
job_file_stem names random directory base timestamp =
    try_stems max_attempts names random directory base timestamp
      (concat (base ∷ "-" ∷ timestamp ∷ "-job" ∷ [])) 0

-- A name that is found has no file: neither it nor one named from it is reserved or on the disk.
pub try_names-free :
    (left : ℕ) (names : Names) (draws : Draws) (directory base extension : String)
    (reserved : List String) (k : ℕ) (path : String) (k' : ℕ)
    → try_names left names draws directory base extension reserved k ≡ some (path, k')
    → any (taken names reserved) (files_of names path) ≡ false
unfolding try_names
try_names-free zero names draws directory base extension reserved k path k' h = absurd (cc h)
try_names-free (suc left) names draws directory base extension reserved k path k' h =
    ground
      (arith, h, try_names-free left names draws directory base extension reserved (suc k) path k')
