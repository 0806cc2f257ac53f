-- ===== src/Resume/Walk.antt =====
-- services/resume_chain.py: the walk over the entries of a resume chain. The two calls that may raise
-- give their value or throw; the fuel bounds the entries that are visited.
use draw_things_control.Prelude.{
  ℕ, zero, suc, ◌<◌, ◌≡◌, ◌≢◌, ◌⊎◌, refl, Bool, true, false, ◌||◌, Option, none, some, List, [],
  ◌∷◌, arith, is_none, inl, inr,
}

pub data Attempt (R A : Type 0) : Type 0 where
  gave : A → Attempt R A
  threw : R → Attempt R A

-- How a walk ends: as the chain does, by an exception, or (never in a real run) out of fuel.
pub data End (R : Type 0) : Type 0 where
  returned : End R
  raised : R → End R
  unfinished : End R

pub Attempt-cases :
    {R A : Type 0} (t : Attempt R A) → ((a : A) × (t ≡ gave a)) ⊎ ((r : R) × (t ≡ threw r))
Attempt-cases (gave a) = inl (a, refl)
Attempt-cases (threw r) = inr (r, refl)

pub record Walk (E X R : Type 0) : Type 0 where
  pub steps : List (E × Option X)
  pub end : End R

abbrev pub holds : {X : Type 0} → (X → Bool) → Option X → Bool
holds p none = false
holds p (some x) = p x

module _ {E X R : Type 0} where
  abbrev more : E × Option X → Walk E X R → Walk E X R
  more s w = record { steps = s ∷ w.steps; end = w.end }

  abbrev only : E × Option X → End R → Walk E X R
  only s e = record { steps = s ∷ []; end = e }

  -- The walk with its four callbacks; `resumes` is the protocol `ChainEntry`.
  unfoldable pub walk_chain :
      (E → Option ℕ)
      → (E → Attempt R (Option X))
      → (E → Attempt R E)
      → (X → Bool)
      → ℕ
      → E
      → Walk E X R
  walk_chain resumes linked ancestor succeeded zero current = record {
    steps = [];
    end = unfinished;
  }
  walk_chain resumes linked ancestor succeeded (suc fuel) current = elim (linked current) [
    | threw r ↦ record { steps = []; end = raised r }
    | gave execution ↦ elim (holds succeeded execution || is_none (resumes current)) [
      | true ↦ only (current, execution) returned
      | false ↦ elim (ancestor current) [
        | threw r ↦ only (current, execution) (raised r)
        | gave next ↦
            more (current, execution) (walk_chain resumes linked ancestor succeeded fuel next)
      ]
    ]
  ]

-- Chains that go down: what holds of an entry holds of its ancestor, whose measure is smaller.
abbrev pub GoesDown : {E R : Type 0} → (E → Type 0) → (E → ℕ) → (E → Attempt R E) → Type 0
GoesDown {E} P size ancestor = (e e' : E) → P e → ancestor e ≡ gave e' → P e' × (size e' < size e)

module _ {E X R : Type 0} (resumes : E → Option ℕ) (linked : E → Attempt R (Option X))
    (ancestor : E → Attempt R E) (succeeded : X → Bool) (P : E → Type 0) (size : E → ℕ)
    (down : GoesDown P size ancestor) where
  -- With fuel above the entry's measure the walk ends as the code's loop does, and more fuel gives the
  -- same walk.
  pub walk_ends :
      (fuel extra : ℕ) (e : E)
      → P e
      → size e < fuel
      → size e < extra
      → ((walk_chain resumes linked ancestor succeeded fuel e).end ≢ unfinished)
        × (walk_chain resumes linked ancestor succeeded extra e
            ≡ walk_chain resumes linked ancestor succeeded fuel e)
  unfolding walk_chain
  walk_ends zero extra e p h k = absurd (omega arith)
  walk_ends (suc fuel) zero e p h k = absurd (omega arith)
  walk_ends (suc fuel) (suc extra) e p h k = elim (Attempt-cases (ancestor e)) [
    | inr (r, thrown) ↦ ground (arith, thrown)
    | inl (next, found) ↦
        let (q, less) = down e next p found in
        let ih = walk_ends fuel extra next q (omega arith) (omega arith) in
        ground (arith, found, ih.0, ih.1)
  ]
