-- ===== src/Cooldown/Examples.antt =====
-- An automatic cooldown with a least wait, after a short run.
use draw_things_control.Prelude.{true, some, [], ◌∷◌, ◌≡◌, ◌≢◌, refl}
use draw_things_control.Cooldown.{
  whole, decimal_le, max_cooldown_seconds, default_cooldown_ratio, auto, CooldownPolicy, wait_after,
  Mapping, text, number, value_of, mode_of, is_key, cooldown_of, ratio_of, number_or, policy_of,
  parse_mode, parse_cooldown,
}
use draw_things_control.Cooldown.Bounds.{Within, wait_after-parse_cooldown}

abbrev mapping : Mapping
mapping = ("mode", text "auto") ∷ ("minimum_seconds", number (whole 60)) ∷ []

abbrev policy : CooldownPolicy
policy = record {
  mode = auto;
  ratio = default_cooldown_ratio;
  seconds = whole 0;
  minimum_seconds = whole 60;
  maximum_seconds = max_cooldown_seconds;
}

wait_after-parse_cooldown_example :
    let wait = (wait_after policy (whole 90)).seconds in
    (policy.mode ≡ auto
      → Within policy.minimum_seconds wait policy.maximum_seconds
        × (decimal_le policy.maximum_seconds max_cooldown_seconds ≡ true))
    × (policy.mode ≢ auto → decimal_le wait max_cooldown_seconds ≡ true)
unfolding parse_cooldown parse_mode value_of mode_of is_key number_or cooldown_of ratio_of policy_of
    decimal_le
wait_after-parse_cooldown_example = wait_after-parse_cooldown (some mapping) policy (whole 90) refl
