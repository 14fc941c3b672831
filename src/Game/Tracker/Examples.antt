-- ===== src/Game/Tracker/Examples.antt =====
-- Runs of src/ai_dm/game/condition_tracker.py.
use ai_dm.Prelude.{true, false, ◌≡◌, refl, arith, none, some, [], ◌∷◌, String}
use ai_dm.Prelude.{◌≢◌, eq_iff}
use ai_dm.Prelude.{All}
use ai_dm.Prelude.Int.{pos}
use ai_dm.Prelude.Text.{normalise}
use ai_dm.Game.Condition.{
  ConditionInstance, SaveTiming, end_of_encounter, end_of_target_turn, supersedes, is_permanent,
}
use ai_dm.Game.Tracker.{
  Bearer, apply, remove, cascade, linked_to, tick, Rolls, rolled, no_d20, end_by_saves_at,
  end_by_saves, ends_by_save, saved_at, saved, end_by_time, implied_instance, incapacitated_implied,
  prone_implied,
}
use ai_dm.Game.Tracker.Removal.{cascade_complete}
use ai_dm.Game.Tracker.Ticking.{Ticks, tick_complete}
use ai_dm.Game.Tracker.Implied.{RespectsImmunities, apply-RespectsImmunities}
use ai_dm.Game.Tracker.Merging.{Distinct, apply-Distinct, bearer_of, replaced_implication_stays}

abbrev hold : ConditionInstance
hold = record {
  key = "paralyzed";
  source = "hold_person";
  expires_at_round = some (pos 10);
  duration_rounds = none;
  expires_on = end_of_encounter;
  save_to_end = some (record {
    ability = "wis";
    dc = pos 14;
    when = SaveTiming.end_of_turn;
    advantage = false;
    disadvantage = false;
  });
  concentration_link = some (record { caster_id = "mage"; spell_id = "hold_person" });
  id = "c1";
}

-- The same condition, cast again with a later end.
abbrev hold_again : ConditionInstance
hold_again = record hold { expires_at_round = some (pos 12); id = "c2" }

abbrev guard : Bearer
guard = record { conditions = hold ∷ []; condition_immunities = "prone" ∷ [] }

abbrev new_ids : String × String
new_ids = ("i1", "i2")

guard-Distinct : Distinct guard.conditions
guard-Distinct = (refl, tt)

apply-Distinct_example : Distinct (apply guard hold_again new_ids).0.conditions
apply-Distinct_example = apply-Distinct guard hold_again new_ids guard-Distinct

guard-RespectsImmunities : RespectsImmunities guard
unfolding normalise
guard-RespectsImmunities = ((λ e. ground (arith, eq_iff "prone" "paralyzed", e), tt), tt)

apply-RespectsImmunities_example : RespectsImmunities (apply guard hold_again new_ids).0
apply-RespectsImmunities_example =
    apply-RespectsImmunities guard hold_again new_ids guard-RespectsImmunities

cascade_complete_example :
    All
      (λ (a : Bearer). All (λ i. linked_to "mage" i ≡ false) a.conditions)
      (cascade "mage" (guard ∷ bearer_of [] ∷ [])).0
cascade_complete_example = cascade_complete "mage" (guard ∷ bearer_of [] ∷ [])

abbrev rolls : Rolls
rolls i = rolled (some (pos 17))

tick_complete_example :
    Ticks
      (pos 3)
      (some end_of_target_turn)
      SaveTiming.end_of_turn
      rolls
      guard
      (tick guard (pos 3) (some end_of_target_turn) (some SaveTiming.end_of_turn) rolls)
tick_complete_example =
    tick_complete guard (pos 3) (some end_of_target_turn) SaveTiming.end_of_turn rolls

-- With the DiceRoller of the program the same tick raises.
tick_without_d20 :
    tick guard (pos 3) (some end_of_target_turn) (some SaveTiming.end_of_turn) (λ i. no_d20)
    ≡ (guard, none)
unfolding tick end_by_saves_at end_by_saves ends_by_save saved_at saved end_by_time
tick_without_d20 = refl

ids_differ : hold.id ≢ hold_again.id
ids_differ = λ h. ground (arith, eq_iff "c1" "c2")

implies_incapacitated : incapacitated_implied hold.key ≡ true
unfolding incapacitated_implied
implies_incapacitated = refl

implies_no_prone : prone_implied hold.key ≡ false
unfolding prone_implied
implies_no_prone = refl

replaces : supersedes hold_again hold ≡ true
unfolding supersedes is_permanent
replaces = refl

replaced_implication_stays_example :
    (remove
      (apply (apply (bearer_of []) hold new_ids).0 hold_again ("i3", "i4")).0
      "paralyzed"
      none).0.conditions
    ≡ implied_instance hold "incapacitated" "i1" ∷ []
replaced_implication_stays_example =
    replaced_implication_stays hold hold_again new_ids ("i3", "i4") refl refl ids_differ
      implies_incapacitated implies_no_prone replaces
