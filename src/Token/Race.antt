-- ===== src/Token/Race.antt =====
-- core/process/signals.py: a cancel and the start of a run, interleaved, with parks between them.
use draw_things_control.Prelude.{
  ℕ, Bool, true, false, ◌≡◌, refl, ◌&&◌, ◌||◌, ◌⊎◌, none, some, List, [], ◌∷◌, ◌++◌, arith, any,
  ◌==◌, ==_refl,
}
use draw_things_control.Token.{
  Token, Canceller, ready, flagged, holding, done, cancel_next, request_shutdown, attach_store,
  attach_check, park, take_park,
}

-- The thread that cancels has the lock between its two steps under it.
abbrev pub has_lock : Canceller → Bool
has_lock flagged = true
has_lock _ = false

-- How far the thread that starts the run has come.
pub data Attacher : Type 0 where
  unattached stored attached : Attacher

pub record Race : Type 0 where
  pub token : Token
  pub canceller : Canceller
  pub attacher : Attacher

abbrev pub asked : ℕ → ℕ → Token → Bool
asked r g t = any (λ (x : ℕ × ℕ). x.0 == r && x.1 == g) t.requests

-- One step of one of the threads, for a cancel with signal `g` and a runner `r`.
pub data Step (g r : ℕ) : Race → Race → Type 0 where
  cancels :
      (t : Token) (c : Canceller) (a : Attacher)
      → Step g r
          (record { token = t; canceller = c; attacher = a })
          (record {
            token = (cancel_next g c t).1;
            canceller = (cancel_next g c t).0;
            attacher = a;
          })
  stores :
      (t : Token) (c : Canceller)
      → Step g r
          (record { token = t; canceller = c; attacher = unattached })
          (record { token = attach_store r t; canceller = c; attacher = stored })
  checks :
      (t : Token) (c : Canceller)
      → Step g r
          (record { token = t; canceller = c; attacher = stored })
          (record { token = attach_check r t; canceller = c; attacher = attached })
  parks :
      (t : Token) (c : Canceller) (a : Attacher)
      → has_lock c ≡ false
      → Step g r
          (record { token = t; canceller = c; attacher = a })
          (record { token = (park t).1; canceller = c; attacher = a })
  takes :
      (t : Token) (c : Canceller) (a : Attacher)
      → has_lock c ≡ false
      → Step g r
          (record { token = t; canceller = c; attacher = a })
          (record { token = (take_park t).1; canceller = c; attacher = a })

pub data Reach (g r : ℕ) (s : Race) : Race → Type 0 where
  here : Reach g r s s
  next : {t u : Race} → Reach g r s t → Step g r t u → Reach g r s u

abbrev is_attached : Attacher → Bool
is_attached attached = true
is_attached _ = false

abbrev has_stored : Attacher → Bool
has_stored unattached = false
has_stored _ = true

-- What holds between any two steps.
abbrev Pending : ℕ → ℕ → Token → Canceller → Attacher → Type 0
Pending g r t ready a = has_stored a ≡ true → t.runner ≡ some r
Pending g r t (holding o) a =
    (t.signal ≡ some g) × (is_attached a ≡ true → (o ≡ some r) ⊎ (asked r g t ≡ true))
Pending g r t flagged a = (t.signal ≡ some g) × (has_stored a ≡ true → t.runner ≡ some r)
Pending g r t (done b) a = (t.signal ≡ some g) × (is_attached a ≡ true → asked r g t ≡ true)

record Inv (g r : ℕ) (s : Race) : Type 0 where
  running : s.token.running ≡ true
  pending : Pending g r s.token s.canceller s.attacher

any-snoc {ℓ} :
    {A : Type ℓ} (p : A → Bool) (xs : List A) (x : A) → any p (xs ++ x ∷ []) ≡ (any p xs || p x)
any-snoc p [] x = ground arith
any-snoc p (y ∷ ys) x = ground (arith, any-snoc p ys x)

asked-request : (g r : ℕ) (t : Token) → asked r g (request_shutdown (some r) g t) ≡ true
asked-request g r t =
    ground (
      arith,
      any-snoc (λ (x : ℕ × ℕ). x.0 == r && x.1 == g) t.requests (r, g),
      ==_refl r,
      ==_refl g,
    )

asked-request_other :
    (g r q k : ℕ) (t : Token)
    → asked r g t ≡ true
    → asked r g (request_shutdown (some q) k t) ≡ true
asked-request_other g r q k t h =
    ground (arith, any-snoc (λ (x : ℕ × ℕ). x.0 == r && x.1 == g) t.requests (q, k))

Step-Inv : {g r : ℕ} {s u : Race} → Step g r s u → Inv g r s → Inv g r u
unfolding cancel_next attach_store attach_check park take_park
Step-Inv (cancels t ready a) v = ground arith
Step-Inv (cancels t flagged unattached) v = ground arith
Step-Inv (cancels t flagged stored) v = ground arith
Step-Inv (cancels t flagged attached) v = ground arith
Step-Inv (cancels t (holding none) a) v = ground arith
Step-Inv {g} {r} (cancels t (holding (some q)) a) v =
    ground (arith, asked-request g q t, asked-request_other g r q g t)
Step-Inv (cancels t (done b) a) v = ground arith
Step-Inv (stores t ready) v = ground arith
Step-Inv (stores t flagged) v = ground arith
Step-Inv (stores t (holding o)) v = ground arith
Step-Inv (stores t (done b)) v = ground arith
Step-Inv (checks t ready) v = ground arith
Step-Inv (checks t flagged) v = ground arith
Step-Inv {g} {r} (checks t (holding o)) v = ground (arith, asked-request g r t)
Step-Inv {g} {r} (checks t (done b)) v = ground (arith, asked-request g r t)
Step-Inv (parks t ready a h) v = ground arith
Step-Inv (parks t flagged a h) v = absurd (ground arith)
Step-Inv (parks t (holding o) a h) v = ground arith
Step-Inv (parks t (done b) a h) v = ground arith
Step-Inv (takes t ready a h) v = ground arith
Step-Inv (takes t flagged a h) v = absurd (ground arith)
Step-Inv (takes t (holding o) a h) v = ground arith
Step-Inv (takes t (done b) a h) v = ground arith

Reach-Inv : {g r : ℕ} {s u : Race} → Inv g r s → Reach g r s u → Inv g r u
Reach-Inv v here = v
Reach-Inv v (next p st) = Step-Inv st (Reach-Inv v p)

-- A job runs. However the steps of a cancel with signal `g`, of the start of a run with runner `r`,
-- also between the cancel's write of the flag and its read of the runner, and of parks and park checks,
-- as far as the lock admits them, are interleaved: once the cancel and the start are done, the runner
-- was asked to stop with that signal.
pub cancel_reaches_runner :
    (g r : ℕ) (start t : Token) (b : Bool)
    → start.running ≡ true
    → Reach g r
        (record { token = start; canceller = ready; attacher = unattached })
        (record { token = t; canceller = done b; attacher = attached })
    → asked r g t ≡ true
cancel_reaches_runner g r start t b h p =
    (Reach-Inv (record { running = h; pending = λ e. cc }) p).pending.1 refl
