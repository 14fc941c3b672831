-- ===== src/Rules/Initiative.antt =====
-- src/ai_dm/rules/initiative.py: initiative rolls and the order of play. The d20 and the shuffle of
-- `random.Random` are arguments.
pub mod Permuting
mod Examples
use Prim.Native.Nat.{Ordering}
use Prim.Native.String.{compare}
use mathlib.Core.List.{◌++◌}
use ai_dm.Prelude.{
  Bool, true, false, ◌&&◌, ◌||◌, Option, none, some, List, [], ◌∷◌, String, if◌then◌else◌, map,
  get_or_default,
}
use ai_dm.Prelude.Int.{ℤ, ◌+ℤ◌, ltb_ℤ, eq_ℤ}

pub record InitiativeRoll : Type 0 where
  pub actor_id : String
  pub roll : ℤ
  pub modifier : ℤ
  pub total : ℤ
  pub dex_mod : ℤ

unfoldable pub roll_initiative : String → ℤ → ℤ → Option ℤ → InitiativeRoll
roll_initiative actor_id nat modifier dex_mod = record {
  actor_id = actor_id;
  roll = nat;
  modifier = modifier;
  total = nat +ℤ modifier;
  dex_mod = get_or_default modifier dex_mod;
}

leb_text : String → String → Bool
leb_text a b = elim (compare a b) [ Ordering.gt ↦ false | _ ↦ true ]

-- The order of the sort key `(-total, -dex_mod, actor_id)`.
unfoldable pub goes_before : InitiativeRoll → InitiativeRoll → Bool
unfolding leb_text
goes_before a b =
    ltb_ℤ b.total a.total
    || (eq_ℤ a.total b.total
        && (ltb_ℤ b.dex_mod a.dex_mod
            || (eq_ℤ a.dex_mod b.dex_mod && leb_text a.actor_id b.actor_id)))

unfoldable pub insert_roll : InitiativeRoll → List InitiativeRoll → List InitiativeRoll
unfolding goes_before
insert_roll a [] = a ∷ []
insert_roll a (b ∷ bs) =
    let rest = insert_roll a bs in if goes_before a b then a ∷ b ∷ bs else b ∷ rest

unfoldable pub sort_rolls : List InitiativeRoll → List InitiativeRoll
unfolding insert_roll
sort_rolls [] = []
sort_rolls (a ∷ bs) = insert_roll a (sort_rolls bs)

unfoldable pub tied : InitiativeRoll → InitiativeRoll → Bool
tied a b = eq_ℤ a.total b.total && eq_ℤ a.dex_mod b.dex_mod

unfoldable pub join_group : InitiativeRoll → List (List InitiativeRoll) → List (List InitiativeRoll)
unfolding tied
join_group a [] = (a ∷ []) ∷ []
join_group a ([] ∷ groups) = (a ∷ []) ∷ groups
join_group a ((b ∷ group) ∷ groups) =
    if tied a b then (a ∷ b ∷ group) ∷ groups else (a ∷ []) ∷ (b ∷ group) ∷ groups

-- The runs of rolls that are tied.
unfoldable pub tie_groups : List InitiativeRoll → List (List InitiativeRoll)
unfolding join_group
tie_groups [] = []
tie_groups (a ∷ bs) = join_group a (tie_groups bs)

abbrev pub Shuffle : Type 0
Shuffle = List InitiativeRoll → List InitiativeRoll

-- A group of one is left alone.
unfoldable pub shuffle_group : Shuffle → List InitiativeRoll → List InitiativeRoll
shuffle_group shuffle (a ∷ b ∷ group) = shuffle (a ∷ b ∷ group)
shuffle_group shuffle group = group

unfoldable pub shuffle_groups : Shuffle → List (List InitiativeRoll) → List InitiativeRoll
unfolding shuffle_group
shuffle_groups shuffle [] = []
shuffle_groups shuffle (group ∷ groups) =
    shuffle_group shuffle group ++ shuffle_groups shuffle groups

-- Without a generator the sort decides the ties.
unfoldable pub sort_order : List InitiativeRoll → Option Shuffle → List String
unfolding sort_rolls tie_groups shuffle_groups
sort_order rolls none = map (λ r. r.actor_id) (sort_rolls rolls)
sort_order rolls (some shuffle) =
    map (λ r. r.actor_id) (shuffle_groups shuffle (tie_groups (sort_rolls rolls)))
