-- ===== src/Game/Tracker/Merging.antt =====
-- One instance for each key and source, and what a replaced instance of condition_tracker.py leaves.
use mathlib.Core.List.{◌++◌}
use ai_dm.Prelude.{
  sym, Bool, true, false, ◌||◌, ◌≡◌, ◌≢◌, inl, inr, refl, arith, none, List, [], ◌∷◌, String,
  str_eq, first, exists_in, Bool-cases, Option-cases, eq_refl, eq_iff,
}
use text.Mathlib.TextLemmas.{append_cancel_left}
use ai_dm.Game.Condition.{ConditionInstance, same_dedupe, supersedes}
use ai_dm.Game.Tracker.{
  Bearer, is_immune, tag_source, implied_instance, add_implications, remove_implications,
  remove_first, apply, matches, remove, remove_all_implications, incapacitated_implied,
  prone_implied, add_implication,
}
use ai_dm.Game.Tracker.Implied.{present, with_implied, add_implications-keeps}

-- An instance with the key and source of `i` stands in the list.
abbrev holds : ConditionInstance → List ConditionInstance → Bool
holds i = exists_in (λ j. same_dedupe j i)

-- No two instances share key and source.
abbrev pub Distinct : List ConditionInstance → Type 0
Distinct [] = Unit
Distinct (x ∷ xs) = (exists_in (λ j. same_dedupe j x) xs ≡ false) × Distinct xs

module _ (i : ConditionInstance) where
  holds-append :
      (x : ConditionInstance) (xs : List ConditionInstance)
      → holds x (xs ++ i ∷ []) ≡ (holds x xs || same_dedupe i x)
  holds-append x [] = ground arith
  holds-append x (y ∷ ys) = ground (arith, holds-append x ys)

  dedupe_sym : (x : ConditionInstance) → same_dedupe i x ≡ same_dedupe x i
  unfolding same_dedupe
  dedupe_sym x = ground (
    arith,
    eq_iff i.key x.key,
    eq_iff x.key i.key,
    eq_iff i.source x.source,
    eq_iff x.source i.source,
  )

  append-Distinct :
      (xs : List ConditionInstance) → Distinct xs → holds i xs ≡ false → Distinct (xs ++ i ∷ [])
  append-Distinct [] d h = (refl, tt)
  append-Distinct (x ∷ xs) d h =
      ground (arith, holds-append x xs, dedupe_sym x, append-Distinct xs d.1)

  holds-remove_first_other :
      (x : ConditionInstance) (xs : List ConditionInstance)
      → holds x xs ≡ false
      → holds x (remove_first i xs) ≡ false
  unfolding remove_first
  holds-remove_first_other x [] h = refl
  holds-remove_first_other x (y ∷ ys) h = ground (arith, holds-remove_first_other x ys)

  same_holds :
      (x : ConditionInstance) (xs : List ConditionInstance)
      → same_dedupe x i ≡ true
      → holds x xs ≡ holds i xs
  unfolding same_dedupe
  same_holds x [] h = refl
  same_holds x (y ∷ ys) h = ground (
    arith,
    same_holds x ys,
    eq_iff x.key i.key,
    eq_iff x.source i.source,
    eq_iff y.key x.key,
    eq_iff y.key i.key,
    eq_iff y.source x.source,
    eq_iff y.source i.source,
  )

  remove_first-Distinct :
      (xs : List ConditionInstance)
      → Distinct xs
      → Distinct (remove_first i xs) × (holds i (remove_first i xs) ≡ false)
  unfolding remove_first
  remove_first-Distinct [] d = (tt, refl)
  remove_first-Distinct (x ∷ xs) d =
      ground
        (arith, remove_first-Distinct xs d.1, same_holds x xs, holds-remove_first_other x xs d.0)

first-none :
    (i : ConditionInstance) (xs : List ConditionInstance)
    → first (λ e. same_dedupe e i) xs ≡ none
    → holds i xs ≡ false
first-none i [] h = refl
first-none i (x ∷ xs) h = ground (arith, first-none i xs)

implied-Distinct :
    (p : ConditionInstance) (target id : String) (c : Bearer)
    → is_immune c.condition_immunities target ≡ false
    → present target (tag_source p) c.conditions ≡ false
    → Distinct c.conditions
    → Distinct (with_implied p target id c).conditions
unfolding implied_instance same_dedupe
implied-Distinct p target id c allowed absent d =
    append-Distinct (implied_instance p target id) c.conditions d absent

-- Whatever is applied, a combatant has at most one condition for each key and source.
pub apply-Distinct :
    (c : Bearer) (i : ConditionInstance) (ids : String × String)
    → Distinct c.conditions
    → Distinct (apply c i ids).0.conditions
unfolding apply
apply-Distinct c i ids d = elim (Bool-cases (is_immune c.condition_immunities i.key)) [
  | inl e ↦ rw e d
  | inr e ↦ elim (Option-cases (first (λ e. same_dedupe e i) c.conditions)) [
    | inl f ↦
        rw (e, f)
          (add_implications-keeps (λ b. Distinct b.conditions) implied-Distinct i ids _
            (append-Distinct i c.conditions d (first-none i c.conditions f)))
    | inr (old, f) ↦ elim (Bool-cases (supersedes i old)) [
      | inl g ↦
          let (kept, gone) = remove_first-Distinct i c.conditions d in
          rw (e, f, g)
            (add_implications-keeps (λ b. Distinct b.conditions) implied-Distinct i ids _
              (append-Distinct i (remove_first i c.conditions) kept gone))
      | inr g ↦ rw (e, f, g) d
    ]
  ]
]

tag_source-ne :
    (a b : ConditionInstance)
    → b.key ≡ a.key
    → a.id ≢ b.id
    → str_eq (tag_source a) (tag_source b) ≡ false
unfolding tag_source
tag_source-ne a b k n = elim (Bool-cases (str_eq (tag_source a) (tag_source b))) [
  | inl e ↦ absurd (
      n (
        append_cancel_left "#" a.id b.id (
          append_cancel_left a.key _ _
            (append_cancel_left "implied_by:" _ _ (rw k at ((eq_iff _ _).0 e))))))
  | inr e ↦ e
]

implied_key_ne :
    (key : String) → incapacitated_implied key ≡ true → str_eq key "incapacitated" ≡ false
unfolding incapacitated_implied
implied_key_ne key h = elim (Bool-cases (str_eq key "incapacitated")) [
  | inl e ↦ cc (rw ((eq_iff key "incapacitated").0 e) at h)
  | inr e ↦ e
]

abbrev pub bearer_of : List ConditionInstance → Bearer
bearer_of is = record { conditions = is; condition_immunities = [] }

apply_first :
    (a : ConditionInstance) (ids : String × String)
    → incapacitated_implied a.key ≡ true
    → prone_implied a.key ≡ false
    → (apply (bearer_of []) a ids).0 ≡ bearer_of (a ∷ implied_instance a "incapacitated" ids.0 ∷ [])
unfolding apply add_implications add_implication is_immune
apply_first a ids h p = rw (h, p, implied_key_ne a.key h)

-- `old` is what an earlier `a` has implied, and `b` is about to replace `a`.
module _ (a b old : ConditionInstance) (same_key : str_eq a.key b.key ≡ true)
    (same_source : str_eq a.source b.source ≡ true) (implies : incapacitated_implied b.key ≡ true)
    (old_key : str_eq old.key "incapacitated" ≡ true)
    (old_source : str_eq old.source (tag_source b) ≡ false) where
  apply_again :
      (ids : String × String)
      → prone_implied b.key ≡ false
      → supersedes b a ≡ true
      → (apply (bearer_of (a ∷ old ∷ [])) b ids).0
        ≡ bearer_of (old ∷ b ∷ implied_instance b "incapacitated" ids.0 ∷ [])
  unfolding apply add_implications add_implication is_immune
  apply_again ids p sup =
      let same : same_dedupe a b ≡ true = unfold same_dedupe in rw (same_key, same_source) in
      let gone : remove_first b (a ∷ old ∷ []) ≡ old ∷ [] = unfold remove_first in rw same in
      rw (same, sup, gone, implies, p, old_key, old_source, implied_key_ne b.key implies)

  remove_again :
      (id : String)
      → (remove (bearer_of (old ∷ b ∷ implied_instance b "incapacitated" id ∷ [])) b.key none).0
        ≡ bearer_of (old ∷ [])
  unfolding remove remove_all_implications remove_implications matches implied_instance
  remove_again id =
      let apart : str_eq "incapacitated" b.key ≡ false = ground (
        arith,
        eq_iff "incapacitated" b.key,
        eq_iff b.key "incapacitated",
        implied_key_ne b.key implies,
      ) in
      let old_apart : str_eq old.key b.key ≡ false = ground (
        arith,
        eq_iff "incapacitated" b.key,
        eq_iff old.key b.key,
        eq_iff old.key "incapacitated",
        apart,
      ) in
      rw (old_apart, eq_refl b.key, apart, old_source, eq_refl (tag_source b))

-- On a combatant with no condition and no immunity, a condition that implies `incapacitated` and not `prone` is
-- applied, then one of the same key and source and another id that supersedes it, and then the key is
-- removed. Exactly one condition is left: the `incapacitated` that the replaced instance had implied.
pub replaced_implication_stays :
    (a b : ConditionInstance) (ids ids' : String × String)
    → str_eq a.key b.key ≡ true
    → str_eq a.source b.source ≡ true
    → a.id ≢ b.id
    → incapacitated_implied a.key ≡ true
    → prone_implied a.key ≡ false
    → supersedes b a ≡ true
    → let applied = (apply (apply (bearer_of []) a ids).0 b ids').0 in
      (remove applied b.key none).0.conditions ≡ implied_instance a "incapacitated" ids.0 ∷ []
replaced_implication_stays a b ids ids' k s n h p sup =
    let key : b.key ≡ a.key = sym ((eq_iff a.key b.key).0 k) in
    let implies : incapacitated_implied b.key ≡ true = rw key h in
    let lone : prone_implied b.key ≡ false = rw key p in
    let old = implied_instance a "incapacitated" ids.0 in
    let old_key : str_eq old.key "incapacitated" ≡ true = unfold implied_instance in refl in
    let old_source : str_eq old.source (tag_source b) ≡ false =
      unfold implied_instance in tag_source-ne a b key n in
    rw
      (
        apply_first a ids h p,
        apply_again a b old k s implies old_key old_source ids' lone sup,
        remove_again a b old k s implies old_key old_source ids'.0,
      )
      refl
