-- ===== src/Game/Resources/Upcast.antt =====
-- lowest_available_slot of combatant_state.py: the cheapest slot that serves.
use ai_dm.Prelude.{
  inl, inr, Option-cases, ◌∙◌, Bool, true, ◌≡◌, refl, arith, none, some, List, [], ◌∷◌, exists_in,
}
use ai_dm.Prelude.Int.{pos, ℤ, ◌≤ℤ◌, eq_ℤ}
use ai_dm.Prelude.Dict.{get, keys, Dict, int_key, eq_ℤ_iff}
use ai_dm.Game.Resources.{
  lowest_available_slot, SpellSlot, insert_level, sorted, has_spend, first_spend,
}

-- Nothing in the list lies below `a`.
abbrev AllFrom : ℤ → List ℤ → Type 0
AllFrom a [] = Unit
AllFrom a (b ∷ bs) = (a ≤ℤ b) × AllFrom a bs

abbrev IsSorted : List ℤ → Type 0
IsSorted [] = Unit
IsSorted (a ∷ bs) = AllFrom a bs × IsSorted bs

AllFrom-insert_level :
    (a b : ℤ) (xs : List ℤ) → b ≤ℤ a → AllFrom b xs → AllFrom b (insert_level a xs)
unfolding insert_level
AllFrom-insert_level a b [] h k = (h, tt)
AllFrom-insert_level a b (x ∷ xs) h k = ground (arith, AllFrom-insert_level a b xs h k.1)

AllFrom-trans : (a b : ℤ) (xs : List ℤ) → a ≤ℤ b → AllFrom b xs → AllFrom a xs
AllFrom-trans a b [] h k = tt
AllFrom-trans a b (x ∷ xs) h k = (omega arith, AllFrom-trans a b xs h k.1)

insert_level-IsSorted : (a : ℤ) (xs : List ℤ) → IsSorted xs → IsSorted (insert_level a xs)
unfolding insert_level
insert_level-IsSorted a [] h = (tt, tt)
insert_level-IsSorted a (x ∷ xs) h =
    ground
      (arith, insert_level-IsSorted a xs h.1, AllFrom-trans a x xs, AllFrom-insert_level a x xs)

sorted-IsSorted : (xs : List ℤ) → IsSorted (sorted xs)
unfolding sorted
sorted-IsSorted [] = tt
sorted-IsSorted (x ∷ xs) = insert_level-IsSorted x (sorted xs) (sorted-IsSorted xs)

abbrev pub listed : ℤ → List ℤ → Bool
listed a = exists_in (eq_ℤ a)

listed-insert_level : (k a : ℤ) (xs : List ℤ) → listed k (insert_level a xs) ≡ listed k (a ∷ xs)
unfolding insert_level
listed-insert_level k a [] = refl
listed-insert_level k a (x ∷ xs) = ground (arith, listed-insert_level k a xs)

listed-sorted : (k : ℤ) (xs : List ℤ) → listed k (sorted xs) ≡ listed k xs
unfolding sorted
listed-sorted k [] = refl
listed-sorted k (x ∷ xs) = ground (arith, listed-insert_level k x (sorted xs), listed-sorted k xs)

module _ (slots : Dict ℤ SpellSlot) (min_level : ℤ) where
  -- A level that the search may return.
  abbrev Serves : ℤ → Type 0
  Serves k = (min_level ≤ℤ k) × (has_spend slots k ≡ true)

  found : (k : ℤ) (xs : List ℤ) → first_spend slots min_level xs ≡ some k → Serves k
  unfolding first_spend
  found k [] e = cc
  found k (x ∷ xs) e = ground (arith, found k xs)

  missed :
      (j : ℤ) (xs : List ℤ)
      → first_spend slots min_level xs ≡ none
      → listed j xs ≡ true
      → ¬ Serves j
  unfolding first_spend
  missed j [] e m s = cc
  missed j (x ∷ xs) e m s = ground (arith, missed j xs, eq_ℤ_iff j x)

  from_listed : (a j : ℤ) (xs : List ℤ) → AllFrom a xs → listed j xs ≡ true → a ≤ℤ j
  from_listed a j [] h m = cc
  from_listed a j (x ∷ xs) h m = ground (arith, from_listed a j xs h.1)

  least :
      (k j : ℤ) (xs : List ℤ)
      → IsSorted xs
      → first_spend slots min_level xs ≡ some k
      → listed j xs ≡ true
      → Serves j
      → k ≤ℤ j
  unfolding first_spend
  least k j [] h e m s = cc
  least k j (x ∷ xs) h e m s =
      ground (arith, least k j xs h.1, from_listed x j xs h.0, eq_ℤ_iff j x)

listed-keys :
    (slots : Dict ℤ SpellSlot) (d : Dict ℤ SpellSlot) (j : ℤ) (slot : SpellSlot)
    → get d j ≡ some slot
    → listed j (keys d) ≡ true
unfolding get
listed-keys slots [] j slot e = cc
listed-keys slots ((k, v) ∷ d) j slot e = ground (arith, listed-keys slots d j slot)

has_spend-listed :
    (slots : Dict ℤ SpellSlot) (j : ℤ) → has_spend slots j ≡ true → listed j (keys slots) ≡ true
unfolding has_spend
has_spend-listed slots j h = elim (Option-cases (get slots j)) [
  | inl e ↦ cc (rw (e, has_spend) at h)
  | inr (slot, e) ↦ listed-keys slots slots j slot e
]

-- The slot that is chosen for an upcast is the least level from `min_level` on that has a spend
-- left; nothing is chosen only if there is none.
pub lowest_available_slot_least :
    (slots : Dict ℤ SpellSlot) (min_level j : ℤ)
    → pos 1 ≤ℤ min_level
    → min_level ≤ℤ j
    → has_spend slots j ≡ true
    → (k : ℤ) × (lowest_available_slot slots min_level ≡ some k)
      × (min_level ≤ℤ k)
      × (k ≤ℤ j)
      × (has_spend slots k ≡ true)
unfolding lowest_available_slot
lowest_available_slot_least slots min_level j h low spend =
    let here : listed j (sorted (keys slots)) ≡ true =
      listed-sorted j (keys slots) ∙ has_spend-listed slots j spend in
    elim (Option-cases (first_spend slots min_level (sorted (keys slots)))) [
      | inl e ↦ absurd (missed slots min_level j (sorted (keys slots)) e here (low, spend))
      | inr (k, e) ↦
          let serves = found slots min_level k (sorted (keys slots)) e in
          (
            k,
            ground arith,
            serves.0,
            least slots min_level k j (sorted (keys slots)) (sorted-IsSorted (keys slots)) e here
                (low, spend),
            serves.1,
          )
    ]
