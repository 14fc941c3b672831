-- ===== src/Game/Combatant/Economy.antt =====
-- The resets of a CombatantState and its legendary actions.
use ai_dm.Prelude.{
  ◌||◌, ◌≡◌, refl, arith, Option, none, some, List, [], ◌∷◌, String, Bool-cases, inl, inr,
}
use ai_dm.Prelude.Int.{ℤ, pos, ◌≤ℤ◌, ltb_ℤ, leb_ℤ, -ℤ_parts}
use ai_dm.Prelude.Dict.{Dict}
use ai_dm.Game.Resources.{ResourceUse, Recharge, turn, round, encounter, restore_resources}
use ai_dm.Game.Combatant.{
  CombatantState, start_of_turn, start_of_round, end_encounter, spend_legendary, spend_left,
}

-- The legendary actions that are left lie between 0 and the budget of a round.
abbrev pub InBudget : Option ℤ → Option ℤ → Type 0
InBudget (some per_round) (some remaining) = (pos 0 ≤ℤ remaining) × (remaining ≤ℤ per_round)
InBudget _ _ = Unit

abbrev pub HasBudget : CombatantState → Type 0
HasBudget c = InBudget c.legendary_actions_per_round c.legendary_actions_remaining

-- The legendary actions of a turn order: the costs that are asked for between two rounds.
unfoldable pub spend_costs : CombatantState → List ℤ → CombatantState
spend_costs c [] = c
spend_costs c (cost ∷ costs) = spend_costs (spend_legendary c cost).0 costs

spend_left-InBudget :
    (c : CombatantState) (per left : Option ℤ) (cost : ℤ)
    → c.legendary_actions_per_round ≡ per
    → c.legendary_actions_remaining ≡ left
    → InBudget per left
    → HasBudget (spend_left c per left cost).0
unfolding spend_left
spend_left-InBudget c none left cost p q h = rw p tt
spend_left-InBudget c (some per) none cost p q h = rw (p, q) tt
spend_left-InBudget c (some per) (some left) cost p q h =
    elim (Bool-cases (leb_ℤ cost (pos 0) || ltb_ℤ left cost)) [
      | inl e ↦ rw (e, p, q) h
      | inr e ↦ rw (e, p) (ground (arith, -ℤ_parts left cost))
    ]

spend_legendary-HasBudget :
    (c : CombatantState) (cost : ℤ) → HasBudget c → HasBudget (spend_legendary c cost).0
unfolding spend_legendary
spend_legendary-HasBudget c cost h =
    spend_left-InBudget c c.legendary_actions_per_round c.legendary_actions_remaining cost refl refl
      h

-- No series of legendary actions oversteps the budget of a round, whatever costs are asked for.
pub spend_costs-HasBudget :
    (c : CombatantState) (costs : List ℤ) → HasBudget c → HasBudget (spend_costs c costs)
unfolding spend_costs
spend_costs-HasBudget c [] h = h
spend_costs-HasBudget c (cost ∷ costs) h =
    spend_costs-HasBudget (spend_legendary c cost).0 costs (spend_legendary-HasBudget c cost h)

restore_twice :
    (kind : Recharge) (d : Dict String ResourceUse)
    → restore_resources kind (restore_resources kind d) ≡ restore_resources kind d
unfolding restore_resources
restore_twice kind [] = refl
restore_twice kind ((k, r) ∷ d) = ground (arith, restore_twice kind d)

-- A second start of the same turn, round or end of encounter changes nothing.
pub resets_idempotent :
    (c : CombatantState)
    → (start_of_turn (start_of_turn c) ≡ start_of_turn c)
      × (start_of_round (start_of_round c) ≡ start_of_round c)
      × (end_encounter (end_encounter c) ≡ end_encounter c)
unfolding start_of_turn start_of_round end_encounter
resets_idempotent c = (
  rw (restore_twice turn c.resources),
  rounds c.legendary_actions_per_round refl,
  rw (restore_twice encounter c.resources),
)
  where
    rounds :
        (per : Option ℤ)
        → c.legendary_actions_per_round ≡ per
        → start_of_round (start_of_round c) ≡ start_of_round c
    rounds none e = rw (e, restore_twice round c.resources)
    rounds (some n) e = rw (e, restore_twice round c.resources)
