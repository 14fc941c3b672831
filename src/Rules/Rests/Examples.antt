-- ===== src/Rules/Rests/Examples.antt =====
-- Runs of src/ai_dm/rules/rests.py.
use ai_dm.Prelude.{◌≡◌, refl, arith, false, none, some, List, [], ◌∷◌, String, length}
use ai_dm.Prelude.Int.{ℤ, pos, ◌+ℤ◌, ◌≤ℤ◌, leb_ℤ}
use ai_dm.Prelude.Dict.{Dict, AllValues, string_key}
use ai_dm.Rules.DeathSaves.{reset}
use ai_dm.Game.Combatant.{CombatantState}
use ai_dm.Rules.Rests.{
  short, long, HitDie, Actor, Spending, spend_dice, recover_dice, apply_long_rest,
}
use ai_dm.Rules.Rests.Progress.{RestProgress, damage, Interruption, required_minutes}
use ai_dm.Rules.Rests.Interruption.{
  advance_all, sum_minutes, advance_all-completed, fight_all, long_rest-fight_all,
}
use ai_dm.Rules.Rests.HitDice.{IsHitDie, IsSpending, spend_dice-IsSpending}
use ai_dm.Rules.Rests.Recovery.{
  Pointwise, IsRegained, gains, recover_dice-Pointwise, IsRested, apply_long_rest-IsRested,
}
use ai_dm.Game.Resources.{Recharge}

abbrev fighter : CombatantState
fighter = record {
  actor_id = "fighter";
  token_id = some "t1";
  hp = pos 12;
  max_hp = pos 12;
  temp_hp = pos 0;
  initiative = some (pos 15);
  initiative_bonus = pos 2;
  conditions = [];
  condition_immunities = [];
  concentration = none;
  legendary_actions_per_round = none;
  legendary_actions_remaining = none;
  exhaustion = pos 0;
  death_saves = reset;
  resources = [];
  spell_slots = [];
  action_used = false;
  bonus_action_used = false;
  reaction_used = false;
  movement_used = pos 0;
  dashed = false;
  dodging = false;
  disengaging = false;
  helping_target = none;
  readied_action = none;
  hidden = false;
}

abbrev night : RestProgress
night = record {
  kind = long;
  started_round = none;
  started_minute = none;
  elapsed_minutes = pos 0;
  interrupted = false;
  completed = false;
  strenuous_minutes = pos 0;
  combat_rounds = pos 0;
}

abbrev portions : List ℤ
portions = pos 200 ∷ pos 240 ∷ pos 60 ∷ []

advance_all-completed_example :
    (advance_all night portions).completed
    ≡ leb_ℤ (required_minutes night.kind) (night.elapsed_minutes +ℤ sum_minutes portions)
advance_all-completed_example =
    advance_all-completed night portions refl refl (omega arith) (omega arith)

abbrev fights : List ℤ
fights = pos 10 ∷ pos 700 ∷ []

long_rest-fight_all_example :
    ((fight_all night fights).interrupted ≡ night.interrupted)
    × (night.strenuous_minutes +ℤ pos (length fights) ≤ℤ (fight_all night fights).strenuous_minutes)
long_rest-fight_all_example = long_rest-fight_all night fights refl

abbrev nap : RestProgress
nap = record night { kind = short }

abbrev later : List Interruption
later = damage ∷ []

abbrev d8s : Dict String HitDie
d8s = ("d8", record { current = pos 1; max = pos 4 }) ∷ []

d8s-IsHitDie : AllValues IsHitDie d8s
d8s-IsHitDie = (record { low = omega arith; high = omega arith }, tt)

abbrev begun : Spending
begun = record { pool = d8s; spent = []; healed = pos 0; rolls = 0 }

abbrev wanted : Dict String ℤ
wanted = ("d8", pos 3) ∷ []

spend_dice-IsSpending_example :
    IsSpending (λ n. pos 5) (pos 2) (pos 1) (spend_dice (λ n. pos 5) (pos 2) wanted begun)
spend_dice-IsSpending_example =
    spend_dice-IsSpending (λ n. pos 5) (pos 2) (pos 1) wanted begun
      (record { pools = d8s-IsHitDie; each_heals = refl; all_rolled = unfold ◌+ℤ◌ in refl })

recover_dice-Pointwise_example :
    Pointwise IsRegained d8s (recover_dice d8s).0
    × ((recover_dice d8s).1 ≡ gains (λ (d : HitDie). d.current) d8s (recover_dice d8s).0)
recover_dice-Pointwise_example = recover_dice-Pointwise d8s d8s-IsHitDie

abbrev sleeper : Actor
sleeper = record {
  body = record fighter {
    hp = pos 3;
    exhaustion = pos 2;
    spell_slots = (pos 1, record { level = pos 1; current = pos 1; max = pos 4 }) ∷ [];
    resources =
        (
          "second_wind",
          record { key = "second_wind"; current = pos 0; max = pos 1; recharge = Recharge.short },
        )
        ∷ [];
  };
  hit_dice = some d8s;
}

apply_long_rest-IsRested_example :
    IsRested sleeper.body (apply_long_rest sleeper).0.body (apply_long_rest sleeper).1
apply_long_rest-IsRested_example = apply_long_rest-IsRested sleeper (omega arith) (omega arith)
