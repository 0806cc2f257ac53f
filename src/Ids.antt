-- ===== src/Ids.antt =====
-- state/ids.py: how the numbers of jobs, executions and queue entries are written.
use draw_things_control.Prelude.{
  ℕ, zero, suc, ◌/◌, ◌%◌, ◌≡◌, refl, String, ltb, ◌==◌, if◌then◌else◌,
}
use Prim.Native.String.{◌++◌ as append}

digit : ℕ → String
digit d =
    if d == 0
    then "0"
    else if d == 1
    then "1"
    else if d == 2
    then "2"
    else if d == 3
    then "3"
    else if d == 4
    then "4"
    else if d == 5
    then "5"
    else if d == 6
    then "6"
    else if d == 7
    then "7"
    else if d == 8
    then "8"
    else "9"

-- The decimal digits; the fuel is the number itself, which has no more digits than that.
decimal : ℕ → ℕ → String
unfolding digit
decimal zero n = digit n
decimal (suc fuel) n =
    let more = decimal fuel (n / 10) in if ltb n 10 then digit n else append more (digit (n % 10))

-- `{number:04d}` after the letter in upper case.
unfoldable pub format_id : String → ℕ → String
unfolding decimal
format_id letter n = append letter (
    append (if ltb n 10 then "000" else if ltb n 100 then "00" else if ltb n 1000 then "0" else "")
      (decimal n n))

unfoldable pub queue_id_text : ℕ → String
unfolding format_id
queue_id_text n = format_id "Q" n

unfoldable pub execution_id_text : ℕ → String
unfolding format_id
execution_id_text n = format_id "E" n

queue_id_texts : (queue_id_text 7 ≡ "Q0007") × (queue_id_text 12345 ≡ "Q12345")
unfolding queue_id_text
queue_id_texts = (refl, refl)

-- A number in a message.
unfoldable pub number_text : ℕ → String
unfolding decimal
number_text n = decimal n n
