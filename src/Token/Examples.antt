-- ===== src/Token/Examples.antt =====
-- The theorems on the token, at concrete jobs.
use draw_things_control.Prelude.{ℕ, Bool, true, false, ◌≡◌, refl, some, List, [], ◌∷◌, is_some}
use draw_things_control.Errors.{Result, ok}
use draw_things_control.Token.{
  Token, new_token, ready, done, cancel_next, request_shutdown, attach_store, attach_check, park,
  take_park, unpark, wait_stops, sigterm,
}
use draw_things_control.Token.Race.{
  Reach, here, next, cancels, stores, checks, parks, unattached, attached, asked,
  cancel_reaches_runner,
}
use draw_things_control.Token.Parking.{Op, run, taken_park_stands, withdrawn_park_is_gone}

-- A token whose job has begun.
abbrev begun : Token
begun = record new_token { running = true; woken = some false }

-- A cancel sets the flag, the start stores its runner and checks the flag, the cancel reads the runner
-- and leaves the lock, a park comes, and the cancel asks the runner again.
abbrev last : Token
last =
    request_shutdown (some 7) sigterm
      (park (attach_check 7 (attach_store 7 (cancel_next sigterm ready begun).1))).1

race :
    Reach sigterm 7
      (record { token = begun; canceller = ready; attacher = unattached })
      (record { token = last; canceller = done true; attacher = attached })
unfolding cancel_next attach_store attach_check park
race =
    next
      (next
        (next (next (next (next here (cancels _ _ _)) (stores _ _)) (checks _ _)) (cancels _ _ _))
        (parks _ _ _ refl))
      (cancels _ _ _)

cancel_reaches_runner_example : asked 7 sigterm last ≡ true
cancel_reaches_runner_example = cancel_reaches_runner sigterm 7 begun last true refl race

abbrev park_ops : List Op
park_ops = Op.parks ∷ Op.unparks (ok true) ∷ Op.parks ∷ Op.takes ∷ []

-- A commit that counts its calls.
abbrev commit : ℕ → Result Bool × ℕ
commit n = (ok true, n)

taken_park_stands_example :
    let t' = run (Op.cancels sigterm ∷ Op.parks ∷ []) (take_park (park begun).1).1 in
    (unpark commit t' 3 ≡ (ok false, (t', 3))) × ((take_park t').0 ≡ true)
unfolding take_park park
taken_park_stands_example =
    taken_park_stands commit (Op.cancels sigterm ∷ Op.parks ∷ []) (park begun).1 3 refl

withdrawn_park_is_gone_example :
    let t' = run (Op.takes ∷ Op.cancels sigterm ∷ []) (unpark commit (park begun).1 3).1.0 in
    ((take_park t').0 ≡ false) × (wait_stops t' ≡ is_some t'.signal)
unfolding park unpark
withdrawn_park_is_gone_example =
    withdrawn_park_is_gone commit (park begun).1 3 (Op.takes ∷ Op.cancels sigterm ∷ []) refl
      (tt, (tt, tt))
