-- ===== src/Game/Combat/Order.antt =====
-- The order of play that `roll_initiative` of src/ai_dm/game/combat_machine.py sets up.
use Prim.Native.Nat.{ℕ}
use ai_dm.Prelude.{◌+◌, none, some, List, [], ◌∷◌, String, str_eq, leb, if◌then◌else◌}
use ai_dm.Prelude.Int.{ℤ, ◌-ℤ◌}
use ai_dm.Prelude.Dict.{string_key}
use ai_dm.Rules.Initiative.{InitiativeRoll, Shuffle, sort_order}
use ai_dm.Rules.Initiative
use ai_dm.Game.Combatant.{CombatantState}

-- The loop over the participants: `draw n` is the n-th d20 that is rolled.
unfoldable pub roll_each :
    (ℕ → ℤ) → ℕ → List CombatantState → List CombatantState × List InitiativeRoll
roll_each draw n [] = ([], [])
roll_each draw n (p ∷ ps) = elim p.initiative [
  | none ↦
      let r =
        Initiative.roll_initiative p.actor_id (draw n) p.initiative_bonus
          (some p.initiative_bonus) in
      let (rest, rolls) = roll_each draw (n + 1) ps in
      (record p { initiative = some r.total } ∷ rest, r ∷ rolls)
  | some total ↦
      let (rest, rolls) = roll_each draw n ps in
      let r : InitiativeRoll = record {
        actor_id = p.actor_id;
        roll = total -ℤ p.initiative_bonus;
        modifier = p.initiative_bonus;
        total = total;
        dex_mod = p.initiative_bonus;
      } in
      (p ∷ rest, r ∷ rolls)
]

-- `rank.get(actor_id, 1_000_000)`: the last position counts.
unfoldable pub rank_from : ℕ → List String → ℕ → String → ℕ
rank_from i [] found actor_id = found
rank_from i (a ∷ order) found actor_id =
    rank_from (i + 1) order (if str_eq a actor_id then i else found) actor_id

unfoldable pub insert_ranked :
    (String → ℕ) → CombatantState → List CombatantState → List CombatantState
insert_ranked rank p [] = p ∷ []
insert_ranked rank p (q ∷ qs) =
    let rest = insert_ranked rank p qs in
    if leb (rank p.actor_id) (rank q.actor_id) then p ∷ q ∷ qs else q ∷ rest

-- The stable sort by rank.
unfoldable pub sort_ranked : (String → ℕ) → List CombatantState → List CombatantState
unfolding insert_ranked
sort_ranked rank [] = []
sort_ranked rank (p ∷ ps) = insert_ranked rank p (sort_ranked rank ps)

-- The participants in the order of play.
unfoldable pub ordered : (ℕ → ℤ) → Shuffle → List CombatantState → List CombatantState
unfolding roll_each rank_from sort_ranked
ordered draw shuffle participants =
    let (rolled, rolls) = roll_each draw 0 participants in
    sort_ranked (rank_from 0 (sort_order rolls (some shuffle)) 1000000) rolled
