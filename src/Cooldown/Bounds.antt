-- ===== src/Cooldown/Bounds.antt =====
-- core/cooldown.py: the checks of a mapping and the wait of its policy.
use draw_things_control.Prelude.{
  ◌≡◌, refl, true, Option, none, some, arith, ◌≢◌, Bool-cases, Option-cases, inl, inr,
}
use mathlib.Core.Path.{subst}
use draw_things_control.Cooldown.{
  Decimal, whole, decimal_le, decimal_lt, max_cooldown_seconds, Mode, auto, CooldownPolicy,
  wait_after, Value, Mapping, value_of, mode_of, cooldown_of, ratio_of, number_or, parse_mode,
  parse_value, parse_cooldown, default_cooldown_ratio, policy_of,
}

-- What an accepted mapping promises of its policy.
pub record IsBounded (p : CooldownPolicy) : Type 0 where
  pub seconds_limited : decimal_le p.seconds max_cooldown_seconds ≡ true
  pub maximum_limited : decimal_le p.maximum_seconds max_cooldown_seconds ≡ true
  pub minimum_limited : decimal_le p.minimum_seconds p.maximum_seconds ≡ true
  pub ratio_positive : decimal_lt (whole 0) p.ratio ≡ true
  pub ratio_limited : decimal_le p.ratio (whole 1) ≡ true

decimal_le_refl : (a : Decimal) → decimal_le a a ≡ true
unfolding decimal_le
decimal_le_refl a = ground arith

cooldown-limited :
    (default : Decimal) (o : Option Value) (d : Decimal)
    → decimal_le default max_cooldown_seconds ≡ true
    → number_or cooldown_of default o ≡ some d
    → decimal_le d max_cooldown_seconds ≡ true
unfolding number_or cooldown_of
cooldown-limited default o d h e = ground arith

abbrev IsRatio : Decimal → Type 0
IsRatio d = (decimal_lt (whole 0) d ≡ true) × (decimal_le d (whole 1) ≡ true)

default-IsRatio : IsRatio default_cooldown_ratio
unfolding decimal_le
default-IsRatio = (refl, refl)

zero-limited : decimal_le (whole 0) max_cooldown_seconds ≡ true
unfolding decimal_le
zero-limited = refl

ratio_of-IsRatio :
    (o : Option Value) (d : Decimal)
    → number_or ratio_of default_cooldown_ratio o ≡ some d
    → IsRatio d
unfolding number_or ratio_of
ratio_of-IsRatio o d e = let r = default-IsRatio in ground (arith, r.0, r.1)

policy_of-IsBounded :
    (mode : Mode) (seconds low high ratio : Option Decimal) (p : CooldownPolicy)
    → ((d : Decimal) → seconds ≡ some d → decimal_le d max_cooldown_seconds ≡ true)
    → ((d : Decimal) → high ≡ some d → decimal_le d max_cooldown_seconds ≡ true)
    → ((d : Decimal) → ratio ≡ some d → IsRatio d)
    → policy_of mode seconds low high ratio ≡ some p
    → IsBounded p
unfolding policy_of
policy_of-IsBounded mode none low high ratio p a b c e = cc
policy_of-IsBounded mode (some s) none high ratio p a b c e = cc
policy_of-IsBounded mode (some s) (some l) none ratio p a b c e = cc
policy_of-IsBounded mode (some s) (some l) (some h) none p a b c e = cc
policy_of-IsBounded mode (some s) (some l) (some h) (some r) p a b c e =
    elim (Bool-cases (decimal_le l h)) [
      | inl ordered ↦
          let q : CooldownPolicy = record {
            mode = mode;
            ratio = r;
            seconds = s;
            minimum_seconds = l;
            maximum_seconds = h;
          } in
          let same : q ≡ p = ground arith in
          subst IsBounded same (record {
            seconds_limited = a s refl;
            maximum_limited = b h refl;
            minimum_limited = ordered;
            ratio_positive = (c r refl).0;
            ratio_limited = (c r refl).1;
          })
      | inr unordered ↦ absurd (ground arith)
    ]

parse_mode-IsBounded :
    (mode : Mode) (m : Mapping) (p : CooldownPolicy) → parse_mode mode m ≡ some p → IsBounded p
unfolding parse_mode
parse_mode-IsBounded mode m p e =
    policy_of-IsBounded mode _ (number_or cooldown_of (whole 0) (value_of "minimum_seconds" m)) _ _
      p (λ d k. cooldown-limited (whole 0) (value_of "seconds" m) d zero-limited k)
      (λ d k.
        cooldown-limited max_cooldown_seconds (value_of "maximum_seconds" m) d
          (decimal_le_refl max_cooldown_seconds) k)
      (λ d k. ratio_of-IsRatio (value_of "ratio" m) d k) (ground arith)

parse_value-IsBounded :
    (o : Option Value) (m : Mapping) (p : CooldownPolicy) → parse_value o m ≡ some p → IsBounded p
parse_value-IsBounded none m p e = cc
parse_value-IsBounded (some v) m p e = elim (Option-cases (mode_of v)) [
  | inl k ↦ absurd (ground arith)
  | inr (mode, k) ↦ parse_mode-IsBounded mode m p (ground arith)
]

parse_cooldown-IsBounded :
    (o : Option Mapping) (p : CooldownPolicy) → parse_cooldown o ≡ some p → IsBounded p
unfolding parse_cooldown
parse_cooldown-IsBounded none p e = cc
parse_cooldown-IsBounded (some m) p e = parse_value-IsBounded (value_of "mode" m) m p e

-- A wait between two bounds.
abbrev pub Within : Decimal → Decimal → Decimal → Type 0
Within low d high = (decimal_le low d ≡ true) × (decimal_le d high ≡ true)

wait-Within :
    (p : CooldownPolicy) (run_seconds : Decimal)
    → IsBounded p
    → let wait = (wait_after p run_seconds).seconds in
      (p.mode ≡ auto → Within p.minimum_seconds wait p.maximum_seconds)
      × (p.mode ≢ auto → decimal_le wait max_cooldown_seconds ≡ true)
unfolding wait_after
wait-Within p run_seconds v =
    let low = decimal_le_refl p.minimum_seconds in
    let high = decimal_le_refl p.maximum_seconds in
    let nil = zero-limited in
    (
      λ m. (ground (arith, v.minimum_limited), ground (arith, v.minimum_limited)),
      λ m. ground (arith, v.seconds_limited),
    )

-- A cooldown mapping that is accepted gives a policy whose wait is limited, whatever time a run took: in
-- mode auto it lies between the policy's bounds, of which the upper is at most 3600 seconds, and in the
-- other modes it is at most 3600 seconds.
pub wait_after-parse_cooldown :
    (o : Option Mapping) (p : CooldownPolicy) (run_seconds : Decimal)
    → parse_cooldown o ≡ some p
    → let wait = (wait_after p run_seconds).seconds in
      (p.mode ≡ auto
        → Within p.minimum_seconds wait p.maximum_seconds
          × (decimal_le p.maximum_seconds max_cooldown_seconds ≡ true))
      × (p.mode ≢ auto → decimal_le wait max_cooldown_seconds ≡ true)
wait_after-parse_cooldown o p run_seconds e =
    let v = parse_cooldown-IsBounded o p e in
    let w = wait-Within p run_seconds v in (λ m. (w.0 m, v.maximum_limited), w.1)
