-- ===== src/Cooldown.antt =====
-- core/cooldown.py: the cooldown between a job's runs, its mapping and the wait that it gives. A float of
-- at least 0 is a decimal, as the wait computes with them. A mapping that raises a `ValueError` is none;
-- its messages are not modelled.
pub mod Bounds
mod Examples
use draw_things_control.Prelude.{
  ℕ, ◌+◌, ◌-◌, ◌*◌, ◌/◌, ◌^◌, String, Bool, true, false, not, ◌&&◌, ◌||◌, Option, none, some, List,
  [], ◌∷◌, any, leb, str_eq, is_some, or_else, if◌then◌else◌,
}

-- `digits` over ten to the power `places`.
pub record Decimal : Type 0 where
  pub digits : ℕ
  pub places : ℕ

abbrev pub whole : ℕ → Decimal
whole n = record { digits = n; places = 0 }

unfoldable pub decimal_le : Decimal → Decimal → Bool
decimal_le a b = leb (a.digits * 10 ^ b.places) (b.digits * 10 ^ a.places)

abbrev pub decimal_lt : Decimal → Decimal → Bool
decimal_lt a b = not (decimal_le b a)

-- `math.ceil` of a product.
unfoldable pub ceil_product : Decimal → Decimal → ℕ
ceil_product a b =
    let unit = 10 ^ (a.places + b.places) in (a.digits * b.digits + (unit - 1)) / unit

abbrev pub max_cooldown_seconds : Decimal
max_cooldown_seconds = whole 3600

abbrev pub default_cooldown_ratio : Decimal
default_cooldown_ratio = record { digits = 5; places = 1 }

pub data Mode : Type 0 where
  auto manual off : Mode

pub data Bound : Type 0 where
  minimum maximum : Bound

pub record CooldownWait : Type 0 where
  pub seconds : Decimal
  pub bound : Option Bound

pub record CooldownPolicy : Type 0 where
  pub mode : Mode
  pub ratio : Decimal
  pub seconds : Decimal
  pub minimum_seconds : Decimal
  pub maximum_seconds : Decimal

auto_wait : CooldownPolicy → Decimal → CooldownWait
auto_wait p share =
    if decimal_lt share p.minimum_seconds
    then record { seconds = p.minimum_seconds; bound = some minimum }
    else if decimal_lt p.maximum_seconds share
    then record { seconds = p.maximum_seconds; bound = some maximum }
    else record { seconds = share; bound = none }

wait_of : Mode → CooldownPolicy → Decimal → CooldownWait
wait_of manual p share = record { seconds = p.seconds; bound = none }
wait_of off p share = record { seconds = whole 0; bound = none }
wait_of auto p share = auto_wait p share

unfoldable pub wait_after : CooldownPolicy → Decimal → CooldownWait
unfolding wait_of auto_wait
wait_after p run_seconds = wait_of p.mode p (whole (ceil_product run_seconds p.ratio))

-- `fixed_seconds`: manual's seconds, 0 for off, None for auto.
unfoldable pub fixed_seconds : CooldownPolicy → Option Decimal
fixed_seconds p = elim p.mode [ auto ↦ none | manual ↦ some p.seconds | off ↦ some (whole 0) ]

-- The values of a YAML mapping: `unusable` is a number below 0, infinite or NaN.
pub data Value : Type 0 where
  boolean : Bool → Value
  number : Decimal → Value
  unusable : Value
  text : String → Value
  other : Value

abbrev pub Mapping : Type 0
Mapping = List (String × Value)

unfoldable pub value_of : String → Mapping → Option Value
value_of key [] = none
value_of key ((k, v) ∷ rest) = if str_eq k key then some v else value_of key rest

abbrev mode_named : String → Option Mode
mode_named s =
    if str_eq s "auto"
    then some auto
    else if str_eq s "manual"
    then some manual
    else if str_eq s "off"
    then some off
    else none

-- YAML reads an unquoted off as false.
unfoldable pub mode_of : Value → Option Mode
mode_of (boolean b) = if b then none else some off
mode_of (text s) = mode_named s
mode_of _ = none

-- `COOLDOWN_MODE_KEYS`, with `mode` itself. A key that no mode has is in none of them.
unfoldable pub is_key : Mode → String → Bool
is_key auto k =
    str_eq k "mode" || str_eq k "ratio" || str_eq k "minimum_seconds" || str_eq k "maximum_seconds"
is_key manual k = str_eq k "mode" || str_eq k "seconds"
is_key off k = str_eq k "mode"

-- `is_cooldown` gives the number; none where it is False.
unfoldable pub cooldown_of : Value → Option Decimal
cooldown_of (number d) = if decimal_le d max_cooldown_seconds then some d else none
cooldown_of _ = none

unfoldable pub ratio_of : Value → Option Decimal
ratio_of (number d) = if decimal_lt (whole 0) d && decimal_le d (whole 1) then some d else none
ratio_of _ = none

-- A key's number, or its default where the key is missing.
unfoldable pub number_or : (Value → Option Decimal) → Decimal → Option Value → Option Decimal
number_or read default none = some default
number_or read default (some v) = read v

abbrev is_manual : Mode → Bool
is_manual manual = true
is_manual _ = false

-- The policy of the numbers that were read; the least wait must not be above the greatest.
unfoldable pub policy_of :
    Mode → Option Decimal → Option Decimal → Option Decimal → Option Decimal → Option CooldownPolicy
policy_of mode (some seconds) (some low) (some high) (some ratio) =
    if decimal_le low high
    then some (record {
      mode = mode;
      ratio = ratio;
      seconds = seconds;
      minimum_seconds = low;
      maximum_seconds = high;
    })
    else none
policy_of mode _ _ _ _ = none

-- The checks from the mode's keys on.
unfoldable pub parse_mode : Mode → Mapping → Option CooldownPolicy
parse_mode mode m =
    if any (λ (kv : String × Value). not (is_key mode kv.0)) m
      || (is_manual mode && not (is_some (value_of "seconds" m)))
    then none
    else policy_of mode (number_or cooldown_of (whole 0) (value_of "seconds" m))
        (number_or cooldown_of (whole 0) (value_of "minimum_seconds" m))
        (number_or cooldown_of max_cooldown_seconds (value_of "maximum_seconds" m))
        (number_or ratio_of default_cooldown_ratio (value_of "ratio" m))

abbrev pub parse_value : Option Value → Mapping → Option CooldownPolicy
parse_value none m = none
parse_value (some v) m = elim (mode_of v) [ none ↦ none | some mode ↦ parse_mode mode m ]

-- `parse_cooldown`; none stands for a value that is no mapping.
unfoldable pub parse_cooldown : Option Mapping → Option CooldownPolicy
parse_cooldown none = none
parse_cooldown (some m) = parse_value (value_of "mode" m) m
