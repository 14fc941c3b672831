-- ===== src/Game/Inventory/Ids.antt =====
-- _new_instance_id of src/ai_dm/game/combatant_state.py: the loop ends, with an id that is not in use.
use ai_dm.Prelude.{
  ℕ, zero, suc, ◌+◌, ◌≤◌, ◌<◌, true, false, Bool-cases, Option-cases, inl, inr, ◌≡◌, refl, sym, ◌∙◌,
  ap, none, some, List, [], ◌∷◌, String, arith, str_eq, eq_iff, exists_in, length,
}
use mathlib.Core.Path.{subst}
use text.Mathlib.TextLemmas.{append_cancel_left}
use mathlib.Core.Logic.{◌⊎◌}
use ai_dm.Game.Inventory.{CarriedItem, remove_text}
use ai_dm.Game.Inventory.Giving.{candidate, is_used, search, new_instance_id}

abbrev used_ids : List CarriedItem → List String
used_ids [] = []
used_ids (it ∷ items) = it.instance_id ∷ used_ids items

is_used-used_ids :
    (digits : ℕ → String) (c : String) (items : List CarriedItem)
    → is_used digits c items ≡ exists_in (str_eq c) (used_ids items)
is_used-used_ids digits c [] = refl
is_used-used_ids digits c (it ∷ items) =
    ground
      (arith, is_used-used_ids digits c items, eq_iff it.instance_id c, eq_iff c it.instance_id)

length-removed :
    (c : String) (ids : List String)
    → exists_in (str_eq c) ids ≡ true
    → suc (length (remove_text c ids)) ≡ length ids
unfolding remove_text
length-removed c [] h = cc
length-removed c (i ∷ ids) h = elim (Bool-cases (str_eq i c)) [
  | inl e ↦ ground (arith, e)
  | inr e ↦ ground (
    arith,
    e,
    h,
    eq_iff i c,
    eq_iff c i,
    length-removed c ids (ground (arith, e, h, eq_iff i c, eq_iff c i)),
  )
]

still_there :
    (c d : String) (ids : List String)
    → str_eq c d ≡ false
    → exists_in (str_eq d) ids ≡ true
    → exists_in (str_eq d) (remove_text c ids) ≡ true
unfolding remove_text
still_there c d [] n h = cc
still_there c d (i ∷ ids) n h = elim (Bool-cases (str_eq i c)) [
  | inl e ↦ ground (arith, e, h, n, eq_iff i c, eq_iff d i, eq_iff c d)
  | inr e ↦ elim (Bool-cases (str_eq d i)) [
    | inl f ↦ ground (arith, e, f)
    | inr f ↦ ground (arith, e, f, h, still_there c d ids n (ground (arith, f, h)))
  ]
]

-- Pairwise different candidates that are all in use are no more than the ids in use.
pigeonhole :
    (c : ℕ → String)
    → ((a b : ℕ) → c a ≡ c b → a ≡ b)
    → (k n : ℕ) (ids : List String)
    → ((i : ℕ) → n ≤ i → i < k + n → exists_in (str_eq (c i)) ids ≡ true)
    → k ≤ length ids
pigeonhole c inj zero n ids all = omega arith
pigeonhole c inj (suc k) n ids all =
    let here : exists_in (str_eq (c n)) ids ≡ true = all n (omega arith) (omega arith) in
    let rest : k ≤ length (remove_text (c n) ids) =
      pigeonhole c inj k (n + 1) (remove_text (c n) ids) (λ i low high.
        still_there (c n) (c i) ids (differs i low)
          (all i (omega (arith, low)) (omega (arith, high)))) in
    omega (arith, rest, length-removed (c n) ids here)
  where
    differs : (i : ℕ) → n + 1 ≤ i → str_eq (c n) (c i) ≡ false
    differs i low = elim (Bool-cases (str_eq (c n) (c i))) [
      | inl e ↦ absurd (omega (arith, low, inj n i ((eq_iff (c n) (c i)).0 e)))
      | inr e ↦ e
    ]

module _ (digits : ℕ → String) where
  -- A search without result has tried candidates in use alone.
  search-none :
      (fuel n : ℕ) (key : String) (items : List CarriedItem)
      → search digits fuel n key items ≡ none
      → (i : ℕ) → n ≤ i
      → i < fuel + n
      → exists_in (str_eq (candidate digits key i)) (used_ids items) ≡ true
  unfolding search
  search-none zero n key items h i low high = absurd (omega (arith, low, high))
  search-none (suc fuel) n key items h i low high =
      elim (Bool-cases (is_used digits (candidate digits key n) items)) [
        | inr e ↦ ground (arith, e, h)
        | inl e ↦ elim (Nat-cases n i low) [
          | inl same ↦
              ap (λ m. exists_in (str_eq (candidate digits key m)) (used_ids items)) (sym same)
              ∙ sym (is_used-used_ids digits (candidate digits key n) items)
              ∙ e
          | inr later ↦
              search-none fuel (n + 1) key items (ground (arith, e, h)) i later
                (omega (arith, high))
        ]
      ]
    where
      Nat-cases : (n i : ℕ) → n ≤ i → (n ≡ i) ⊎ (n + 1 ≤ i)
      Nat-cases n i low = ground (arith, low)

  search-fresh :
      (fuel n : ℕ) (key id : String) (items : List CarriedItem)
      → search digits fuel n key items ≡ some id
      → is_used digits id items ≡ false
  unfolding search
  search-fresh zero n key id items h = cc
  search-fresh (suc fuel) n key id items h =
      elim (Bool-cases (is_used digits (candidate digits key n) items)) [
        | inl e ↦ search-fresh fuel (n + 1) key id items (ground (arith, e, h))
        | inr e ↦
            let hit : some (candidate digits key n) ≡ some id = ground (arith, e, h) in
            subst (λ o. elim o [ none ↦ Unit | some c ↦ is_used digits c items ≡ false ]) hit e
      ]

  length-used_ids : (items : List CarriedItem) → length (used_ids items) ≡ length items
  length-used_ids [] = refl
  length-used_ids (it ∷ items) = ap suc (length-used_ids items)

-- If different numbers have different digits, one more attempt than there are stacks is enough:
-- the loop ends, with an id that no stack has.
pub new_instance_id-fresh :
    (digits : ℕ → String) (key : String) (items : List CarriedItem)
    → ((a b : ℕ) → digits a ≡ digits b → a ≡ b)
    → (id : String) × (new_instance_id digits key items ≡ some id)
      × (is_used digits id items ≡ false)
unfolding new_instance_id
new_instance_id-fresh digits key items inj =
    elim (Option-cases (search digits (suc (length items)) 1 key items)) [
      | inl missed ↦ absurd (
          omega (
            arith,
            length-used_ids digits items,
            pigeonhole (candidate digits key)
                (λ a b same.
                  inj a b (
                    append_cancel_left "#" (digits a) (digits b) (append_cancel_left key _ _ same)))
                (suc (length items)) 1 (used_ids items)
                (search-none digits (suc (length items)) 1 key items missed),
          ))
      | inr (id, found) ↦ (id, found, search-fresh digits (suc (length items)) 1 key id items found)
    ]
