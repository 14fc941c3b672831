-- ===== src/Rules/Initiative/Examples.antt =====
-- Runs of src/ai_dm/rules/initiative.py.
use ai_dm.Prelude.{◌≡◌, refl, none, some, List, [], ◌∷◌, map, str_eq}
use ai_dm.Prelude.Int.{pos}
use ai_dm.Rules.Initiative.{InitiativeRoll, sort_order}
use ai_dm.Rules.Initiative.Permuting.{count, count-sort_order}

abbrev rolls : List InitiativeRoll
rolls =
    record { actor_id = "a"; roll = pos 9; modifier = pos 2; total = pos 11; dex_mod = pos 2 }
    ∷ record { actor_id = "b"; roll = pos 9; modifier = pos 2; total = pos 11; dex_mod = pos 2 }
    ∷ record { actor_id = "c"; roll = pos 15; modifier = pos 1; total = pos 16; dex_mod = pos 1 }
    ∷ []

-- A shuffle that leaves the group as it is.
count-sort_order_example :
    (count (str_eq "b") (sort_order rolls none) ≡ count (str_eq "b") (map (λ r. r.actor_id) rolls))
    × (count (str_eq "b") (sort_order rolls (some (λ group. group)))
        ≡ count (str_eq "b") (map (λ r. r.actor_id) rolls))
count-sort_order_example = count-sort_order (str_eq "b") rolls (λ group. group) (λ p l. refl)
