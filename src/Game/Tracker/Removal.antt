-- ===== src/Game/Tracker/Removal.antt =====
-- What removals and cascades of condition_tracker.py leave behind.
use mathlib.Core.Path.{subst}
use ai_dm.Prelude.{
  sym, keep-true, keep-false, Bool, true, false, not, ◌≡◌, ◌⊎◌, inl, inr, arith, Option, some, List,
  [], ◌∷◌, String, keep, exists_in, All, All-keep, All-map, All-keep_self, Bool-cases, eq_refl,
}
use ai_dm.Game.Condition.{ConditionInstance, same_dedupe, eq_trigger, end_of_encounter}
use ai_dm.Game.Tracker.{
  Bearer, matches, remove, remove_implications, remove_all_implications, remove_each, linked_to,
  drop_concentration_links, cascade, tick_end_encounter,
}

-- Removals only drop instances, so what holds of all of them still does.
module _ (P : ConditionInstance → Type 0) where
  remove_all_implications-All :
      (is : List ConditionInstance) (c : Bearer)
      → All P c.conditions
      → All P (remove_all_implications is c).conditions
  unfolding remove_all_implications remove_implications
  remove_all_implications-All [] c h = h
  remove_all_implications-All (i ∷ is) c h =
      remove_all_implications-All is (remove_implications i c) (All-keep P _ c.conditions h)

  pub remove-All :
      (c : Bearer) (key : String) (source : Option String)
      → All P (keep (λ i. not (matches key source i)) c.conditions)
      → All P (remove c key source).0.conditions
  unfolding remove
  remove-All c key source h = remove_all_implications-All _ _ h

  pub remove_each-All :
      (is : List ConditionInstance) (c : Bearer)
      → All P c.conditions
      → All P (remove_each is c).conditions
  unfolding remove_each
  remove_each-All [] c h = h
  remove_each-All (i ∷ is) c h =
      remove_each-All is (remove c i.key (some i.source)).0
        (remove-All c i.key (some i.source) (All-keep P _ c.conditions h))

false_of_not : (b : Bool) → not b ≡ true → b ≡ false
false_of_not b h = ground arith

-- After a removal no instance of the key, or of the key and source, is left.
pub remove_complete :
    (c : Bearer) (key : String) (source : Option String)
    → All (λ i. matches key source i ≡ false) (remove c key source).0.conditions
remove_complete c key source =
    remove-All _ c key source
      (All-map _ _ _ (λ i. false_of_not (matches key source i)) (All-keep_self _ c.conditions))

-- The test fails at `x`, or the list names its key and source.
abbrev Covered : (ConditionInstance → Bool) → List ConditionInstance → ConditionInstance → Type 0
Covered q is x = (q x ≡ false) ⊎ (exists_in (same_dedupe x) is ≡ true)

module _ (q : ConditionInstance → Bool) where
  Covered-keep :
      (i : ConditionInstance) (is xs : List ConditionInstance)
      → All (Covered q (i ∷ is)) xs
      → All (Covered q is) (keep (λ x. not (matches i.key (some i.source) x)) xs)
  unfolding matches same_dedupe
  Covered-keep i is [] h = tt
  Covered-keep i is (x ∷ xs) h = elim (Bool-cases (matches i.key (some i.source) x)) [
    | inl e ↦ rw e (Covered-keep i is xs h.1)
    | inr e ↦ rw e (ground (arith, h.0), Covered-keep i is xs h.1)
  ]

  remove_each-Covered :
      (is : List ConditionInstance) (c : Bearer)
      → All (Covered q is) c.conditions
      → All (λ x. q x ≡ false) (remove_each is c).conditions
  unfolding remove_each
  remove_each-Covered [] c h = All-map _ _ c.conditions (λ x k. ground arith) h
  remove_each-Covered (i ∷ is) c h =
      remove_each-Covered is (remove c i.key (some i.source)).0
        (remove-All _ c i.key (some i.source) (Covered-keep i is c.conditions h))

  Covered-cons :
      (i x : ConditionInstance) (is : List ConditionInstance)
      → Covered q is x
      → Covered q (i ∷ is) x
  Covered-cons i x is h = ground arith

  dedupe_refl : (x : ConditionInstance) → same_dedupe x x ≡ true
  unfolding same_dedupe
  dedupe_refl x = rw (eq_refl x.key, eq_refl x.source)

  keep-covers : (xs : List ConditionInstance) → All (Covered q (keep q xs)) xs
  keep-covers [] = tt
  keep-covers (x ∷ xs) = elim (Bool-cases (q x)) [
    | inl e ↦
        subst (λ kept. All (Covered q kept) (x ∷ xs)) (sym (keep-true q x xs e))
          (
            inr (rw (dedupe_refl x)),
            All-map _ _ xs (λ y. Covered-cons x y (keep q xs)) (keep-covers xs),
          )
    | inr e ↦
        subst (λ kept. All (Covered q kept) (x ∷ xs)) (sym (keep-false q x xs e))
          (inl e, keep-covers xs)
  ]

  -- Removing each instance that passes a test leaves none that passes it.
  pub remove_each-keep :
      (c : Bearer) → All (λ x. q x ≡ false) (remove_each (keep q c.conditions) c).conditions
  remove_each-keep c = remove_each-Covered (keep q c.conditions) c (keep-covers c.conditions)

-- After a caster's links are dropped no condition of the combatant hangs on that caster.
pub drop_concentration_links_complete :
    (c : Bearer) (caster_id : String)
    → All (λ i. linked_to caster_id i ≡ false) (drop_concentration_links c caster_id).0.conditions
unfolding drop_concentration_links
drop_concentration_links_complete c caster_id = remove_each-keep (linked_to caster_id) c

-- When the concentration of a caster breaks, no condition of any combatant hangs on it afterwards.
pub cascade_complete :
    (caster_id : String) (actors : List Bearer)
    → All
        (λ (a : Bearer). All (λ i. linked_to caster_id i ≡ false) a.conditions)
        (cascade caster_id actors).0
unfolding cascade
cascade_complete caster_id [] = tt
cascade_complete caster_id (a ∷ actors) =
    (drop_concentration_links_complete a caster_id, cascade_complete caster_id actors)

-- After an encounter none of its conditions is left.
pub tick_end_encounter_complete :
    (c : Bearer)
    → All
        (λ i. eq_trigger i.expires_on end_of_encounter ≡ false)
        (tick_end_encounter c).0.conditions
unfolding tick_end_encounter
tick_end_encounter_complete c = remove_each-keep _ c
