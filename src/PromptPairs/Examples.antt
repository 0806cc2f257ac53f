-- ===== src/PromptPairs/Examples.antt =====
-- A job of three runs with two pairs, of which one is the default.
use draw_things_control.Prelude.{true, false, none, List, [], ◌∷◌, refl}
use draw_things_control.PromptPairs.{
  PromptPair, assign_runs, assign_pairs, assign_pair, assign_run, single_default, defaults,
  check_rest, pair_name, schedule,
}
use draw_things_control.PromptPairs.Schedule.{FitsAll, assign_runs-schedule}

abbrev two_pairs : List PromptPair
two_pairs =
    record { name = "day"; positive = "sun"; negative = none; runs = 1 ∷ 3 ∷ []; default = false }
    ∷ record { name = "night"; positive = "moon"; negative = none; runs = []; default = true }
    ∷ []

assign_runs-schedule_example : FitsAll two_pairs 1 3 (schedule two_pairs 3)
unfolding assign_runs assign_pairs assign_pair assign_run single_default defaults check_rest
    pair_name
assign_runs-schedule_example = assign_runs-schedule two_pairs 3 two_pairs refl
