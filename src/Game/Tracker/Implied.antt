-- ===== src/Game/Tracker/Implied.antt =====
-- What `apply` of condition_tracker.py keeps, and the implied conditions that it adds.
use mathlib.Core.List.{◌++◌}
use mathlib.Core.Path.{subst}
use ai_dm.Prelude.{
  sym, Bool, true, false, ◌&&◌, ◌≡◌, ◌⊎◌, inl, inr, refl, List, [], ◌∷◌, String, str_eq, first,
  exists_in, All, All-append, ◌≢◌, arith, eq_iff, Bool-cases, Option-cases,
}
use ai_dm.Prelude.Text.{normalise}
use ai_dm.Game.Condition.{ConditionInstance, same_dedupe, supersedes}
use ai_dm.Game.Tracker.{
  Bearer, is_immune, incapacitated_implied, prone_implied, tag_source, implied_instance,
  add_implication, add_implications, remove_first, apply,
}

-- An instance of the key and the tag stands in the list.
abbrev pub present : String → String → List ConditionInstance → Bool
present target source = exists_in (λ i. str_eq i.key target && str_eq i.source source)

abbrev pub with_implied : ConditionInstance → String → String → Bearer → Bearer
with_implied p target id c = record c {
  conditions = c.conditions ++ implied_instance p target id ∷ [];
}

add_implication_cases :
    (p : ConditionInstance) (flag : Bool) (target id : String) (c : Bearer)
    → (add_implication p flag target id c ≡ c)
      ⊎ ((is_immune c.condition_immunities target ≡ false)
          × (present target (tag_source p) c.conditions ≡ false)
          × (add_implication p flag target id c ≡ with_implied p target id c))
unfolding add_implication
add_implication_cases p false target id c = inl refl
add_implication_cases p true target id c =
    elim (Bool-cases (is_immune c.condition_immunities target)) [
      | inl e ↦ inl (rw e)
      | inr e ↦ elim (Bool-cases (present target (tag_source p) c.conditions)) [
        | inl f ↦ inl (rw (e, f))
        | inr f ↦ inr (e, f, rw (e, f))
      ]
    ]

-- A property of a combatant that an allowed and absent implied condition keeps.
module _ (P : Bearer → Type 0)
    (keeps : (p : ConditionInstance) (target id : String) (c : Bearer)
      → is_immune c.condition_immunities target ≡ false
      → present target (tag_source p) c.conditions ≡ false
      → P c
      → P (with_implied p target id c)) where
  add_implication-keeps :
      (p : ConditionInstance) (flag : Bool) (target id : String) (c : Bearer)
      → P c
      → P (add_implication p flag target id c)
  add_implication-keeps p flag target id c h = elim (add_implication_cases p flag target id c) [
    | inl e ↦ subst P (sym e) h
    | inr (allowed, absent, e) ↦ subst P (sym e) (keeps p target id c allowed absent h)
  ]

  pub add_implications-keeps :
      (p : ConditionInstance) (ids : String × String) (c : Bearer)
      → P c
      → P (add_implications p ids c)
  unfolding add_implications
  add_implications-keeps p ids c h =
      add_implication-keeps p (prone_implied p.key) "prone" ids.1 _
        (add_implication-keeps p (incapacitated_implied p.key) "incapacitated" ids.0 c h)

-- No immunity of the list names the condition, however the two are written.
abbrev pub Admits : List String → String → Type 0
Admits immunities key = All (λ x. normalise x ≢ normalise key) immunities

-- No condition that the combatant is immune to.
abbrev pub RespectsImmunities : Bearer → Type 0
RespectsImmunities c =
    All (λ (i : ConditionInstance). Admits c.condition_immunities i.key) c.conditions

Admits_lem :
    (immunities : List String) (key : String)
    → is_immune immunities key ≡ false
    → Admits immunities key
unfolding is_immune
Admits_lem [] key h = tt
Admits_lem (x ∷ immunities) key h = (
  λ e. ground (arith, h, eq_iff (normalise x) (normalise key), e),
  Admits_lem immunities key (ground (arith, h)),
)

remove_first-All :
    (P : ConditionInstance → Type 0) (i : ConditionInstance) (is : List ConditionInstance)
    → All P is
    → All P (remove_first i is)
unfolding remove_first
remove_first-All P i [] h = tt
remove_first-All P i (j ∷ js) h = elim (Bool-cases (same_dedupe j i)) [
  | inl e ↦ rw e h.1
  | inr e ↦ rw e (h.0, remove_first-All P i js h.1)
]

respects-implied :
    (p : ConditionInstance) (target id : String) (c : Bearer)
    → is_immune c.condition_immunities target ≡ false
    → present target (tag_source p) c.conditions ≡ false
    → RespectsImmunities c
    → RespectsImmunities (with_implied p target id c)
unfolding implied_instance
respects-implied p target id c allowed absent h =
    All-append _ c.conditions _ h (Admits_lem c.condition_immunities target allowed, tt)

-- A combatant without a condition that it is immune to, however its name is written, has none either after
-- any condition is applied, implied ones included.
pub apply-RespectsImmunities :
    (c : Bearer) (i : ConditionInstance) (ids : String × String)
    → RespectsImmunities c
    → RespectsImmunities (apply c i ids).0
unfolding apply
apply-RespectsImmunities c i ids h = elim (Bool-cases (is_immune c.condition_immunities i.key)) [
  | inl e ↦ rw e h
  | inr e ↦ elim (Option-cases (first (λ e. same_dedupe e i) c.conditions)) [
    | inl f ↦
        rw (e, f)
          (add_implications-keeps RespectsImmunities respects-implied i ids _
            (All-append _ c.conditions _ h (Admits_lem c.condition_immunities i.key e, tt)))
    | inr (old, f) ↦ elim (Bool-cases (supersedes i old)) [
      | inl g ↦
          rw (e, f, g)
            (add_implications-keeps RespectsImmunities respects-implied i ids _ (
              All-append _ (remove_first i c.conditions) _ (remove_first-All _ i c.conditions h)
                (Admits_lem c.condition_immunities i.key e, tt)))
      | inr g ↦ rw (e, f, g) h
    ]
  ]
]
