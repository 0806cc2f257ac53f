-- ===== src/Errors.antt =====
-- core/errors.py: the errors a front end reports. A class is the code that it carries, and the
-- text is the message (`operational_error` is `sqlite3.OperationalError`, which is none of them and
-- comes through as it is); `Result` is what a call that may raise one returns.
use draw_things_control.Prelude.{String, ◌≡◌, ◌⊎◌, inl, inr, refl, List, [], ◌∷◌}
use Prim.Native.String.{◌++◌ as append}

pub data Code : Type 0 where
  error invalid_input tool_missing not_found busy conflict not_permitted state_unavailable : Code
  timeout_required outside_directory limit_exceeded invalid_state internal_error : Code
  operational_error : Code

pub record Failure : Type 0 where
  pub code : Code
  pub text : String

pub data Result {ℓ} (A : Type ℓ) : Type ℓ where
  ok : A → Result A
  err : Failure → Result A

-- An error ends the checks that follow it.
infixl 5 ◌>>◌
abbrev pub ◌>>◌ : {A : Type 0} → Result (Unit {0}) → Result A → Result A
ok _ >> later = later
err failure >> later = err failure

abbrev pub raise {ℓ} : {A : Type ℓ} → Code → String → Result A
raise c t = err (record { code = c; text = t })

-- An f-string as the list of its parts.
abbrev pub concat : List String → String
concat [] = ""
concat (s ∷ rest) = append s (concat rest)

pub Result-cases {ℓ} :
    {A : Type ℓ} (r : Result A) → ((a : A) × (r ≡ ok a)) ⊎ ((e : Failure) × (r ≡ err e))
Result-cases (ok a) = inl (a, refl)
Result-cases (err e) = inr (e, refl)
