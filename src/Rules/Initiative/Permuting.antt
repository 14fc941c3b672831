-- ===== src/Rules/Initiative/Permuting.antt =====
-- The order of play of initiative.py has the actors that rolled.
use mathlib.Core.List.{◌++◌}
use ai_dm.Prelude.{
  ℕ, ◌+◌, ◌≡◌, refl, sym, ap, ◌∙◌, arith, Bool, none, some, List, [], ◌∷◌, String, map,
  if◌then◌else◌, Bool-cases, inl, inr,
}
use ai_dm.Rules.Initiative.{
  InitiativeRoll, Shuffle, goes_before, insert_roll, sort_rolls, tied, join_group, tie_groups,
  shuffle_group, shuffle_groups, sort_order,
}

-- How many elements pass a test.
unfoldable pub count {ℓ} : {A : Type ℓ} → (A → Bool) → List A → ℕ
count p [] = 0
count p (x ∷ xs) = (if p x then 1 else 0) + count p xs

-- `random.shuffle` permutes a list: each test counts as many as before.
abbrev pub Permutes : Shuffle → Type 0
Permutes shuffle =
    (p : InitiativeRoll → Bool) (rolls : List InitiativeRoll)
    → count p (shuffle rolls) ≡ count p rolls

module _ (p : InitiativeRoll → Bool) where
  count-append : (xs ys : List InitiativeRoll) → count p (xs ++ ys) ≡ count p xs + count p ys
  unfolding count
  count-append [] ys = omega arith
  count-append (x ∷ xs) ys = omega (arith, count-append xs ys)

  count-insert_roll :
      (a : InitiativeRoll) (bs : List InitiativeRoll)
      → count p (insert_roll a bs) ≡ count p (a ∷ bs)
  unfolding count insert_roll
  count-insert_roll a [] = refl
  count-insert_roll a (b ∷ bs) = elim (Bool-cases (goes_before a b)) [
    | inl e ↦ rw e refl
    | inr e ↦ rw e (omega (arith, count-insert_roll a bs))
  ]

  count-sort_rolls : (rolls : List InitiativeRoll) → count p (sort_rolls rolls) ≡ count p rolls
  unfolding count sort_rolls
  count-sort_rolls [] = refl
  count-sort_rolls (a ∷ bs) =
      count-insert_roll a (sort_rolls bs)
      ∙ ap (λ (n : ℕ). (if p a then 1 else 0) + n) (count-sort_rolls bs)

  -- All the groups together.
  unfoldable count_groups : List (List InitiativeRoll) → ℕ
  count_groups [] = 0
  count_groups (g ∷ gs) = count p g + count_groups gs

  count_groups-join_group :
      (a : InitiativeRoll) (groups : List (List InitiativeRoll))
      → count_groups (join_group a groups) ≡ (if p a then 1 else 0) + count_groups groups
  unfolding count_groups join_group count
  count_groups-join_group a [] = omega arith
  count_groups-join_group a ([] ∷ groups) = omega arith
  count_groups-join_group a ((b ∷ group) ∷ groups) = elim (Bool-cases (tied a b)) [
    | inl e ↦ rw e (omega arith)
    | inr e ↦ rw e (omega arith)
  ]

  count_groups-tie_groups :
      (rolls : List InitiativeRoll) → count_groups (tie_groups rolls) ≡ count p rolls
  unfolding count_groups tie_groups count
  count_groups-tie_groups [] = refl
  count_groups-tie_groups (a ∷ bs) =
      count_groups-join_group a (tie_groups bs)
      ∙ ap (λ (n : ℕ). (if p a then 1 else 0) + n) (count_groups-tie_groups bs)

  module _ (shuffle : Shuffle) (h : Permutes shuffle) where
    count-shuffle_group :
        (group : List InitiativeRoll) → count p (shuffle_group shuffle group) ≡ count p group
    unfolding shuffle_group
    count-shuffle_group [] = refl
    count-shuffle_group (a ∷ []) = refl
    count-shuffle_group (a ∷ b ∷ group) = h p (a ∷ b ∷ group)

    count-shuffle_groups :
        (groups : List (List InitiativeRoll))
        → count p (shuffle_groups shuffle groups) ≡ count_groups groups
    unfolding shuffle_groups count_groups count
    count-shuffle_groups [] = refl
    count-shuffle_groups (g ∷ gs) = omega (
      arith,
      count-append (shuffle_group shuffle g) (shuffle_groups shuffle gs),
      count-shuffle_group g,
      count-shuffle_groups gs,
    )

count-ids :
    (p : String → Bool) (rolls : List InitiativeRoll)
    → count p (map (λ r. r.actor_id) rolls) ≡ count (λ (r : InitiativeRoll). p r.actor_id) rolls
unfolding count
count-ids p [] = refl
count-ids p (r ∷ rolls) = ap (λ (n : ℕ). (if p r.actor_id then 1 else 0) + n) (count-ids p rolls)

-- The order of play names each actor as often as it has rolled, whether the ties are left to the sort
-- or shuffled by any shuffle that permutes: nobody is lost and nobody gets a second turn.
pub count-sort_order :
    (p : String → Bool) (rolls : List InitiativeRoll) (shuffle : Shuffle)
    → Permutes shuffle
    → (count p (sort_order rolls none) ≡ count p (map (λ r. r.actor_id) rolls))
      × (count p (sort_order rolls (some shuffle)) ≡ count p (map (λ r. r.actor_id) rolls))
unfolding sort_order
count-sort_order p rolls shuffle h =
    let q = λ (r : InitiativeRoll). p r.actor_id in
    let sorted = count-sort_rolls q rolls in
    (
      count-ids p (sort_rolls rolls) ∙ sorted ∙ sym (count-ids p rolls),
      count-ids p (shuffle_groups shuffle (tie_groups (sort_rolls rolls)))
          ∙ count-shuffle_groups q shuffle h (tie_groups (sort_rolls rolls))
          ∙ count_groups-tie_groups q (sort_rolls rolls)
          ∙ sorted
          ∙ sym (count-ids p rolls),
    )
