-- ===== src/Token/Parking.antt =====
-- core/process/signals.py: sequences of operations on the token, and the parks among them.
use draw_things_control.Prelude.{ℕ, is_some, Bool, true, false, ◌≡◌, refl, List, [], ◌∷◌, arith}
use draw_things_control.Errors.{Result, Failure, ok, err}
use draw_things_control.Token.{
  Token, cancel, park, unpark, take_park, receive, attach, detach, wait_stops,
}

-- What happens on a token during one job, after `begin` and before `end`.
pub data Op : Type 0 where
  cancels receives attaches : ℕ → Op
  parks takes detaches : Op
  unparks : Result Bool → Op

-- The commit of an unpark ends with the given result.
unfoldable pub step : Op → Token → Token
step (cancels g) t = (cancel g t).1
step (receives g) t = receive g t
step (attaches r) t = attach r t
step parks t = (park t).1
step takes t = (take_park t).1
step detaches t = detach t
step (unparks r) t = (unpark (λ (s : Unit {0}). (r, s)) t tt).1.0

unfoldable pub run : List Op → Token → Token
run [] t = t
run (op ∷ ops) t = run ops (step op t)

abbrev IsParking : Op → Type 0
IsParking parks = Unit
IsParking takes = Unit
IsParking (unparks r) = Unit
IsParking _ = ⊥

abbrev NoPark : Op → Type 0
NoPark parks = ⊥
NoPark _ = Unit

abbrev All : (Op → Type 0) → List Op → Type 0
All P [] = Unit
All P (op ∷ ops) = P op × All P ops

step-parking :
    (op : Op) (t : Token)
    → IsParking op
    → ((step op t).signal ≡ t.signal) × ((step op t).requests ≡ t.requests)
unfolding step park take_park unpark
step-parking parks t h = ground arith
step-parking takes t h = ground arith
step-parking (unparks r) t h = ground arith
step-parking (cancels g) t h = absurd h
step-parking (receives g) t h = absurd h
step-parking (attaches g) t h = absurd h
step-parking detaches t h = absurd h

-- Parks, unparks (committed or failed) and park checks, however many, ask no runner to stop and
-- request no stop.
pub park_never_stops :
    (ops : List Op) (t : Token)
    → All IsParking ops
    → ((run ops t).signal ≡ t.signal) × ((run ops t).requests ≡ t.requests)
unfolding run
park_never_stops [] t h = (refl, refl)
park_never_stops (op ∷ ops) t h =
    ground (arith, step-parking op t h.0, park_never_stops ops (step op t) h.1)

step_taken : (op : Op) (t : Token) → t.park_taken ≡ true → (step op t).park_taken ≡ true
unfolding step park take_park unpark cancel receive attach detach
step_taken parks t h = ground arith
step_taken _ t h = ground arith

run_taken : (ops : List Op) (t : Token) → t.park_taken ≡ true → (run ops t).park_taken ≡ true
unfolding run
run_taken [] t h = h
run_taken (op ∷ ops) t h = run_taken ops (step op t) (step_taken op t h)

take_sets : (t : Token) → (take_park t).0 ≡ true → (take_park t).1.park_taken ≡ true
unfolding take_park
take_sets t h = h

taken_answers :
    {S : Type 0} (commit : S → Result Bool × S) (t : Token) (s : S)
    → t.park_taken ≡ true
    → (unpark commit t s ≡ (ok false, (t, s))) × ((take_park t).0 ≡ true)
unfolding unpark take_park
taken_answers commit t s h = (rw h, rw h)

-- Once a park check has answered True, the park stays in effect for the rest of the job, whatever
-- comes: each later check answers True, and each later unpark answers False, runs no commit and
-- changes nothing.
pub taken_park_stands :
    {S : Type 0} (commit : S → Result Bool × S) (ops : List Op) (t : Token) (s : S)
    → (take_park t).0 ≡ true
    → let t' = run ops (take_park t).1 in
      (unpark commit t' s ≡ (ok false, (t', s))) × ((take_park t').0 ≡ true)
taken_park_stands commit ops t s h =
    taken_answers commit (run ops (take_park t).1) s (run_taken ops (take_park t).1 (take_sets t h))

abbrev IsClear : Token → Type 0
IsClear t = (t.park_requested ≡ false) × (t.park_taken ≡ false)

step-IsClear : (op : Op) (t : Token) → NoPark op → IsClear t → IsClear (step op t)
unfolding step take_park unpark cancel receive attach detach
step-IsClear parks t n h = absurd n
step-IsClear _ t n h = ground arith

run-IsClear : (ops : List Op) (t : Token) → All NoPark ops → IsClear t → IsClear (run ops t)
unfolding run
run-IsClear [] t n h = h
run-IsClear (op ∷ ops) t n h = run-IsClear ops (step op t) n.1 (step-IsClear op t n.0 h)

unpark-IsClear :
    {S : Type 0} (commit : S → Result Bool × S) (t : Token) (s : S)
    → (unpark commit t s).0 ≡ ok true
    → IsClear (unpark commit t s).1.0
unfolding unpark
unpark-IsClear commit t s h = ground arith

clear_answers :
    (t : Token) → IsClear t → ((take_park t).0 ≡ false) × (wait_stops t ≡ is_some t.signal)
unfolding take_park wait_stops
clear_answers t h = ground arith

-- After an unpark that answered True, until the next park: no check at a run boundary takes the
-- park, and only a stop ends a wait between runs.
pub withdrawn_park_is_gone :
    {S : Type 0} (commit : S → Result Bool × S) (t : Token) (s : S) (ops : List Op)
    → (unpark commit t s).0 ≡ ok true
    → All NoPark ops
    → let t' = run ops (unpark commit t s).1.0 in
      ((take_park t').0 ≡ false) × (wait_stops t' ≡ is_some t'.signal)
withdrawn_park_is_gone commit t s ops h n =
    clear_answers _ (run-IsClear ops (unpark commit t s).1.0 n (unpark-IsClear commit t s h))

-- An unpark whose commit raises passes the error on, and the park stands as it was; the commit's own
-- state is the one that it left.
pub failed_unpark_keeps_park :
    {S : Type 0} (commit : S → Result Bool × S) (t : Token) (s s' : S) {e : Failure}
    → t.park_taken ≡ false
    → commit s ≡ (err e, s')
    → unpark commit t s ≡ (err e, (t, s'))
unfolding unpark
failed_unpark_keeps_park commit t s s' h c = ground arith
