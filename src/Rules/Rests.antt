-- ===== src/Rules/Rests.antt =====
-- src/ai_dm/rules/rests.py: short and long rests, and the progress of a rest that may be interrupted.
-- The durations are those of assets/srd5_2/core/rests.json. An actor is a combatant with the hit dice
-- that `getattr(actor, "hit_dice", None)` finds; a CombatantState itself has none. The dice are an
-- argument: `draw n` is the total of the n-th roll of one hit die.
pub mod Progress
pub mod Interruption
pub mod HitDice
pub mod Recovery
mod Examples
use ai_dm.Prelude.{
  ℕ, ◌+◌, Bool, true, false, not, ◌&&◌, ◌||◌, Option, none, some, List, [], ◌∷◌, String,
  if◌then◌else◌, zero, suc, leb,
}
use ai_dm.Prelude.Int.{ℤ, pos, pos_part, ◌+ℤ◌, ◌-ℤ◌, ◌*ℤ◌, leb_ℤ, ltb_ℤ, eq_ℤ, min_ℤ, max_ℤ, div_ℤ}
use ai_dm.Prelude.Dict.{Dict, get, put, map_values, string_key}
use ai_dm.Rules.DeathSaves.{reset}
use ai_dm.Game.Resources.{SpellSlot, ResourceUse, Recharge, eq_recharge}
use ai_dm.Game.Combatant
use ai_dm.Game.Combatant.{CombatantState}

pub data RestKind : Type 0 where
  short long : RestKind

pub record HitDie : Type 0 where
  pub current : ℤ
  pub max : ℤ

pub record Actor : Type 0 where
  pub body : CombatantState
  pub hit_dice : Option (Dict String HitDie)

pub record RestResult : Type 0 where
  pub kind : RestKind
  pub hp_restored : ℤ
  pub slots_restored : Dict ℤ ℤ
  pub resources_restored : List String
  pub hit_dice_spent : Dict String ℤ
  pub hit_dice_recovered : Dict String ℤ
  pub exhaustion_after : ℤ

-- `getattr(r, "recharge", None) in kinds and r.current < r.max`
unfoldable pub is_spent : Bool → ResourceUse → Bool
is_spent with_long r =
    (eq_recharge r.recharge Recharge.short || (with_long && eq_recharge r.recharge Recharge.long))
    && ltb_ℤ r.current r.max

-- `_restore_resources`, for the kinds `("short",)` or `("short", "long")`.
unfoldable pub restore_pools :
    Bool → Dict String ResourceUse → Dict String ResourceUse × List String
unfolding is_spent
restore_pools with_long [] = ([], [])
restore_pools with_long ((key, r) ∷ resources) =
    let (rest, restored) = restore_pools with_long resources in
    if is_spent with_long r
    then ((key, record r { current = r.max }) ∷ rest, key ∷ restored)
    else ((key, r) ∷ rest, restored)

-- `_restore_slots`
unfoldable pub restore_slots : Dict ℤ SpellSlot → Dict ℤ SpellSlot × Dict ℤ ℤ
restore_slots [] = ([], [])
restore_slots ((level, s) ∷ slots) =
    let (rest, out) = restore_slots slots in
    (
      (level, record s { current = s.max }) ∷ rest,
      if eq_ℤ s.max s.current then out else (level, s.max -ℤ s.current) ∷ out,
    )

-- What `use` rolls from the n-th on heal.
unfoldable pub rolled_healing : (ℕ → ℤ) → ℤ → ℕ → ℕ → ℤ
rolled_healing draw con_modifier n zero = pos 0
rolled_healing draw con_modifier n (suc use') =
    max_ℤ (pos 1) (draw n +ℤ con_modifier) +ℤ rolled_healing draw con_modifier (n + 1) use'

pub record Spending : Type 0 where
  pub pool : Dict String HitDie
  pub spent : Dict String ℤ
  pub healed : ℤ
  pub rolls : ℕ

-- One pass of the loop over `hit_dice_spent`, with the entry of the pool that it finds.
unfoldable pub spend_entry : (ℕ → ℤ) → ℤ → String → ℤ → Spending → Option HitDie → Spending
unfolding rolled_healing
spend_entry draw con_modifier die n s none = s
spend_entry draw con_modifier die n s (some entry) =
    let used = max_ℤ (pos 0) (min_ℤ n entry.current) in
    record {
      pool = put s.pool die (record entry { current = entry.current -ℤ used });
      spent = if eq_ℤ used (pos 0) then s.spent else put s.spent die used;
      healed = s.healed +ℤ rolled_healing draw con_modifier s.rolls (pos_part used);
      rolls = s.rolls + pos_part used;
    }

unfoldable pub spend_die : (ℕ → ℤ) → ℤ → String → ℤ → Spending → Spending
unfolding spend_entry
spend_die draw con_modifier die n s = spend_entry draw con_modifier die n s (get s.pool die)

unfoldable pub spend_dice : (ℕ → ℤ) → ℤ → Dict String ℤ → Spending → Spending
unfolding spend_die
spend_dice draw con_modifier [] s = s
spend_dice draw con_modifier ((die, n) ∷ wanted) s =
    spend_dice draw con_modifier wanted (spend_die draw con_modifier die n s)

-- Without hit dice or a roller nothing is spent.
unfoldable pub spending :
    Option (Dict String HitDie) → Dict String ℤ → Option (ℕ → ℤ) → ℤ → Option Spending
unfolding spend_dice
spending (some pool) wanted (some draw) con_modifier = some (
    spend_dice draw con_modifier wanted
      (record { pool = pool; spent = []; healed = pos 0; rolls = 0 }))
spending _ wanted _ con_modifier = none

unfoldable pub short_result : CombatantState → Dict String ℤ → ℤ → CombatantState × RestResult
unfolding restore_pools
short_result body spent healed =
    let (resources, restored) = restore_pools false body.resources in
    (
      record body { resources = resources },
      record {
        kind = short;
        hp_restored = healed;
        slots_restored = [];
        resources_restored = restored;
        hit_dice_spent = spent;
        hit_dice_recovered = [];
        exhaustion_after = body.exhaustion;
      },
    )

unfoldable pub apply_short_rest : Actor → Dict String ℤ → Option (ℕ → ℤ) → ℤ → Actor × RestResult
unfolding spending short_result
apply_short_rest actor wanted roller con_modifier =
    elim (spending actor.hit_dice wanted roller con_modifier) [
      | none ↦
          let (body, result) = short_result actor.body [] (pos 0) in
          (record actor { body = body }, result)
      | some s ↦
          let healed =
            if eq_ℤ s.healed (pos 0) then actor.body else (Combatant.heal actor.body s.healed).0 in
          let (body, result) = short_result healed s.spent s.healed in
          (record { body = body; hit_dice = some s.pool }, result)
    ]

-- Half of the hit dice come back, at least one and no more than are missing.
unfoldable pub regained : HitDie → ℤ
regained d = min_ℤ (max_ℤ (pos 1) (div_ℤ d.max 2)) (max_ℤ (pos 0) (d.max -ℤ d.current))

unfoldable pub recover_dice : Dict String HitDie → Dict String HitDie × Dict String ℤ
unfolding regained
recover_dice [] = ([], [])
recover_dice ((die, d) ∷ pool) =
    let (rest, recovered) = recover_dice pool in
    (
      (die, record d { current = d.current +ℤ regained d }) ∷ rest,
      if eq_ℤ (regained d) (pos 0) then recovered else (die, regained d) ∷ recovered,
    )

unfoldable pub recover : Option (Dict String HitDie) → Option (Dict String HitDie) × Dict String ℤ
unfolding recover_dice
recover none = (none, [])
recover (some pool) = let (pool', recovered) = recover_dice pool in (some pool', recovered)

unfoldable pub apply_long_rest : Actor → Actor × RestResult
unfolding restore_slots restore_pools recover
apply_long_rest actor =
    let b = actor.body in
    let no_max = eq_ℤ b.max_hp (pos 0) in
    let (slots, slots_restored) = restore_slots b.spell_slots in
    let (resources, restored) = restore_pools true b.resources in
    let (hit_dice, recovered) = recover actor.hit_dice in
    let exhaustion = max_ℤ (pos 0) (b.exhaustion -ℤ pos 1) in
    (
      record {
        body = record b {
          hp = if no_max then b.hp else b.max_hp;
          temp_hp = if no_max then b.temp_hp else pos 0;
          death_saves = reset;
          spell_slots = slots;
          resources = resources;
          exhaustion = exhaustion;
        };
        hit_dice = hit_dice;
      },
      record {
        kind = long;
        hp_restored = if no_max then pos 0 else max_ℤ (pos 0) (b.max_hp -ℤ b.hp);
        slots_restored = slots_restored;
        resources_restored = restored;
        hit_dice_spent = [];
        hit_dice_recovered = recovered;
        exhaustion_after = exhaustion;
      },
    )
