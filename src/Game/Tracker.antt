-- ===== src/Game/Tracker.antt =====
-- src/ai_dm/game/condition_tracker.py, on the two fields of a combatant that it reads and writes.
-- The log lines are left out. The ids that `uuid4` draws for implied conditions and what the roller
-- gives for a save are arguments.
pub mod Implied
pub mod Merging
pub mod Removal
pub mod Ticking
mod Examples
use Prim.Native.String.{◌++◌ as str_append}
use mathlib.Core.List.{◌++◌}
use mathlib.Core.Option
use ai_dm.Prelude.{
  ◌||◌, ℕ, ◌+◌, Bool, true, false, not, ◌&&◌, Option, none, some, List, [], ◌∷◌, String, str_eq,
  if◌then◌else◌, exists_in, first, keep, length,
}
use ai_dm.Prelude.Int.{ℤ, leb_ℤ}
use ai_dm.Prelude.Text.{normalise}
use ai_dm.Game.Condition.{
  start_of_turn, end_of_turn, start_of_target_turn, end_of_target_turn, ConditionInstance,
  ConcentrationLink, SaveToEnd, SaveTiming, ExpiryTrigger, end_of_encounter, same_dedupe,
  supersedes, eq_timing, eq_trigger,
}

-- `combatant.conditions` and `combatant.condition_immunities`.
pub record Bearer : Type 0 where
  pub conditions : List ConditionInstance
  pub condition_immunities : List String

-- `CombatantState.has_condition_immunity`
unfoldable pub is_immune : List String → String → Bool
is_immune immunities condition =
    exists_in (λ i. str_eq (normalise i) (normalise condition)) immunities

abbrev pub has_condition_immunity : Bearer → String → Bool
has_condition_immunity c condition = is_immune c.condition_immunities condition

-- The flags `incapacitated_implied` and `prone_implied` of assets/srd5_2/core/conditions.json.
unfoldable pub incapacitated_implied : String → Bool
incapacitated_implied key =
    exists_in (str_eq key) ("paralyzed" ∷ "petrified" ∷ "stunned" ∷ "unconscious" ∷ [])

unfoldable pub prone_implied : String → Bool
prone_implied key = str_eq key "unconscious"

-- f"implied_by:{parent.key}#{parent.id}"
unfoldable pub tag_source : ConditionInstance → String
tag_source parent = str_append "implied_by:" (str_append parent.key (str_append "#" parent.id))

unfoldable pub implied_instance : ConditionInstance → String → String → ConditionInstance
implied_instance parent target_key new_id = record {
  key = target_key;
  source = tag_source parent;
  expires_at_round = parent.expires_at_round;
  duration_rounds = parent.duration_rounds;
  expires_on = parent.expires_on;
  save_to_end = none;
  concentration_link = parent.concentration_link;
  id = new_id;
}

-- One pass of the loop over `_IMPLICATIONS`.
unfoldable pub add_implication : ConditionInstance → Bool → String → String → Bearer → Bearer
unfolding implied_instance
add_implication parent flag target_key new_id c =
    let present =
      exists_in (λ i. str_eq i.key target_key && str_eq i.source (tag_source parent))
        c.conditions in
    if not flag
    then c
    else if has_condition_immunity c target_key
    then c
    else if present
    then c
    else record c { conditions = c.conditions ++ implied_instance parent target_key new_id ∷ [] }

-- The ids for the two conditions that may be implied.
unfoldable pub add_implications : ConditionInstance → String × String → Bearer → Bearer
add_implications parent ids c =
    add_implication parent (prone_implied parent.key) "prone" ids.1
      (add_implication parent (incapacitated_implied parent.key) "incapacitated" ids.0 c)

unfoldable pub remove_implications : ConditionInstance → Bearer → Bearer
remove_implications parent c = record c {
  conditions = keep (λ i. not (str_eq i.source (tag_source parent))) c.conditions;
}

-- `list.remove` of the first instance with the dedupe key.
unfoldable pub remove_first : ConditionInstance → List ConditionInstance → List ConditionInstance
remove_first i [] = []
remove_first i (j ∷ js) = let rest = remove_first i js in if same_dedupe j i then js else j ∷ rest

-- The new condition list, and the instance that is there for the key; `none` if immune.
unfoldable pub apply :
    Bearer → ConditionInstance → String × String → Bearer × Option ConditionInstance
apply c instance_ ids =
    if has_condition_immunity c instance_.key
    then (c, none)
    else elim (first (λ e. same_dedupe e instance_) c.conditions) [
      | none ↦ (
        add_implications instance_ ids (record c { conditions = c.conditions ++ instance_ ∷ [] }),
        some instance_,
      )
      | some existing ↦
          if supersedes instance_ existing
          then (
            add_implications instance_ ids
                (record c { conditions = remove_first instance_ c.conditions ++ instance_ ∷ [] }),
            some instance_,
          )
          else (c, some existing)
    ]

-- Without a source every instance of the key is meant.
unfoldable pub matches : String → Option String → ConditionInstance → Bool
matches key none i = str_eq i.key key
matches key (some source) i = str_eq i.key key && str_eq i.source source

unfoldable pub remove_all_implications : List ConditionInstance → Bearer → Bearer
remove_all_implications [] c = c
remove_all_implications (i ∷ removed) c = remove_all_implications removed (remove_implications i c)

unfoldable pub remove : Bearer → String → Option String → Bearer × ℕ
remove c key source =
    let removed = keep (matches key source) c.conditions in
    (
      remove_all_implications removed
          (record c { conditions = keep (λ i. not (matches key source i)) c.conditions }),
      length removed,
    )

-- Removal of each instance of a list that was read off before.
unfoldable pub remove_each : List ConditionInstance → Bearer → Bearer
remove_each [] c = c
remove_each (i ∷ is) c = remove_each is (remove c i.key (some i.source)).0

unfoldable pub tick_end_encounter : Bearer → Bearer × List ConditionInstance
unfolding remove_each
tick_end_encounter c =
    let expired = keep (λ i. eq_trigger i.expires_on end_of_encounter) c.conditions in
    (remove_each expired c, expired)

unfoldable pub linked_to : String → ConditionInstance → Bool
linked_to caster_id i = elim i.concentration_link [
  | none ↦ false
  | some link ↦ str_eq link.caster_id caster_id
]

unfoldable pub drop_concentration_links : Bearer → String → Bearer × List ConditionInstance
unfolding remove_each linked_to
drop_concentration_links c caster_id =
    let dropped = keep (linked_to caster_id) c.conditions in (remove_each dropped c, dropped)

-- What `roller.d20` gives for a save: the `total` or the `value` of its result, which may be missing, or
-- the AttributeError of a roller without that method, such as the DiceRoller of rules/dice.py.
pub data SaveRoll : Type 0 where
  no_dice no_d20 : SaveRoll
  rolled : Option ℤ → SaveRoll

-- `_roll_save_to_end`; `none` where it raises. Without a roller or the bonuses nothing is rolled.
unfoldable pub saved : SaveRoll → SaveToEnd → Option Bool
saved no_dice save = some false
saved no_d20 save = none
saved (rolled none) save = some false
saved (rolled (some total)) save = some (leb_ℤ save.dc total)

-- What each instance would roll in a tick.
abbrev pub Rolls : Type 0
Rolls = ConditionInstance → SaveRoll

-- A save to end at another time is not rolled.
unfoldable pub saved_at : SaveTiming → SaveRoll → Option SaveToEnd → Option Bool
unfolding saved
saved_at save_when r none = some false
saved_at save_when r (some save) =
    if eq_timing save.when save_when then saved r save else some false

-- What the loop over the saves finds out about an instance.
unfoldable pub ends_by_save : SaveTiming → Rolls → ConditionInstance → Option Bool
unfolding saved_at
ends_by_save save_when roll i = saved_at save_when (roll i) i.save_to_end

unfoldable pub by_trigger : Option ExpiryTrigger → ConditionInstance → Bool
by_trigger none i = false
by_trigger (some t) i = eq_trigger i.expires_on t

unfoldable pub by_round : ℤ → ConditionInstance → Bool
by_round current_round i = elim i.expires_at_round [ none ↦ false | some r ↦ leb_ℤ r current_round ]

unfoldable pub is_due : Option ExpiryTrigger → ℤ → ConditionInstance → Bool
unfolding by_trigger by_round
is_due trigger current_round i = by_trigger trigger i || by_round current_round i

-- The loop over the saves; where a roll raises, what was removed before stays removed.
unfoldable pub end_by_saves :
    SaveTiming → Rolls → List ConditionInstance → Bearer → Bearer × Option (List ConditionInstance)
unfolding ends_by_save
end_by_saves save_when roll [] c = (c, some [])
end_by_saves save_when roll (i ∷ is) c = elim (ends_by_save save_when roll i) [
  | none ↦ (c, none)
  | some false ↦ end_by_saves save_when roll is c
  | some true ↦
      let (c', expired) = end_by_saves save_when roll is (remove c i.key (some i.source)).0 in
      (c', Option.map (λ is. i ∷ is) expired)
]

unfoldable pub end_by_saves_at :
    Option SaveTiming → Rolls → Bearer → Bearer × Option (List ConditionInstance)
unfolding end_by_saves
end_by_saves_at none roll c = (c, some [])
end_by_saves_at (some save_when) roll c = end_by_saves save_when roll c.conditions c

-- The loop over the triggers and the rounds, after the instances that the saves have ended.
unfoldable pub end_by_time :
    Option ExpiryTrigger
    → ℤ
    → Bearer × Option (List ConditionInstance)
    → Bearer × Option (List ConditionInstance)
unfolding is_due remove_each
end_by_time trigger current_round (c, none) = (c, none)
end_by_time trigger current_round (c, some by_save) =
    let by_time = keep (is_due trigger current_round) c.conditions in
    (remove_each by_time c, some (by_save ++ by_time))

-- `_tick`: the instances that ended, or `none` where a save raises.
unfoldable pub tick :
    Bearer
    → ℤ
    → Option ExpiryTrigger
    → Option SaveTiming
    → Rolls
    → Bearer × Option (List ConditionInstance)
unfolding end_by_saves_at end_by_time
tick c current_round trigger save_when roll =
    end_by_time trigger current_round (end_by_saves_at save_when roll c)

unfoldable pub tick_start_of_turn : Bearer → ℤ → Rolls → Bearer × Option (List ConditionInstance)
unfolding tick
tick_start_of_turn c current_round roll =
    tick c current_round (some start_of_target_turn) (some start_of_turn) roll

unfoldable pub tick_end_of_turn : Bearer → ℤ → Rolls → Bearer × Option (List ConditionInstance)
unfolding tick
tick_end_of_turn c current_round roll =
    tick c current_round (some end_of_target_turn) (some end_of_turn) roll

unfoldable pub tick_start_of_round : Bearer → ℤ → Bearer × Option (List ConditionInstance)
unfolding tick
tick_start_of_round c current_round = tick c current_round none none (λ i. no_dice)

-- `cascade_concentration_dropped`; `cascade_actor_died` is the same call.
unfoldable pub cascade : String → List Bearer → List Bearer × ℕ
cascade caster_id [] = ([], 0)
cascade caster_id (a ∷ actors) =
    let (a', dropped) = drop_concentration_links a caster_id in
    let (rest, total) = cascade caster_id actors in (a' ∷ rest, length dropped + total)
